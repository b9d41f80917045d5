-- ===== src/Prometheus/Duration/Tests.antt =====
-- Durations at concrete steps.
use apo.Common.{◌≡◌, refl}
use apo.Prometheus.Duration.{get_duration_from_step}

-- Five minutes, one minute and one second. The last is not greater than a second.
five_minutes : get_duration_from_step 300_000_000_000 ≡ "5m"
unfolding get_duration_from_step
five_minutes = refl

one_minute : get_duration_from_step 60_000_000_000 ≡ "60s"
unfolding get_duration_from_step
one_minute = refl

one_second : get_duration_from_step 1_000_000_000 ≡ "1m"
unfolding get_duration_from_step
one_second = refl
