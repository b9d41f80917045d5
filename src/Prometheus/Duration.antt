-- ===== src/Prometheus/Duration.antt =====
-- `getDurationFromStep` of p9x_builder.go, and `VecFromS2E` and `VecFromDuration` of helper.go.
-- Durations are int64 numbers of nanoseconds; negative ones are left out.
pub mod Tests
use apo.Common.{
  inr, inl, Bool-cases, ℕ, ◌+◌, ◌-◌, ◌*◌, ◌/◌, ◌%◌, ◌≤◌, ◌<◌, String, Bool, true, false, ◌&&◌, ◌≡◌,
  refl, arith, if◌then◌else◌, ltb, ◌==◌, show, ◌#◌,
}

-- time.Microsecond and the constants of dao_span_trace_duration_bucket.go
abbrev pub microsecond : ℕ
microsecond = 1000

abbrev pub time_second : ℕ
time_second = 1_000_000_000

abbrev pub time_minute : ℕ
time_minute = 60 * time_second

abbrev pub time_hour : ℕ
time_hour = 60 * time_minute

abbrev pub time_day : ℕ
time_day = time_hour * 24

abbrev pub is_multiple : ℕ → ℕ → Bool
is_multiple step unit = ltb unit step && step % unit == 0

unfoldable pub get_duration_from_step : ℕ → String
unfolding show
get_duration_from_step step =
    if is_multiple step time_day
    then show (step / time_day) # "d"
    else if is_multiple step time_hour
    then show (step / time_hour) # "h"
    else if is_multiple step time_minute
    then show (step / time_minute) # "m"
    else if is_multiple step time_second
    then show (step / time_second) # "s"
    else "1m"

unfoldable pub vec_from_duration : ℕ → String
unfolding show
vec_from_duration duration =
    if ltb time_minute duration
    then show (duration / time_minute) # "m"
    else show (duration / time_second) # "s"

-- The two times are microseconds, the first not after the second.
unfoldable pub vec_from_s2e : ℕ → ℕ → String
unfolding vec_from_duration
vec_from_s2e start_time end_time = vec_from_duration ((end_time - start_time) * microsecond)

-- The units of a PromQL duration.
pub data TimeUnit : Type 0 where
  day hour minute second : TimeUnit

abbrev pub suffix : TimeUnit → String
suffix day = "d"
suffix hour = "h"
suffix minute = "m"
suffix second = "s"

abbrev pub nanoseconds : TimeUnit → ℕ
nanoseconds day = time_day
nanoseconds hour = time_hour
nanoseconds minute = time_minute
nanoseconds second = time_second

-- The text is that of `count` units.
abbrev pub Denotes : String → ℕ → TimeUnit → Type 0
Denotes text count unit = text ≡ show count # suffix unit

exact_day : (step : ℕ) → is_multiple step time_day ≡ true → step / time_day * time_day ≡ step
exact_day step h = ground arith

exact_hour : (step : ℕ) → is_multiple step time_hour ≡ true → step / time_hour * time_hour ≡ step
exact_hour step h = ground arith

exact_minute :
    (step : ℕ) → is_multiple step time_minute ≡ true → step / time_minute * time_minute ≡ step
exact_minute step h = ground arith

exact_second :
    (step : ℕ) → is_multiple step time_second ≡ true → step / time_second * time_second ≡ step
exact_second step h = ground arith

-- What is no multiple of a second is none of a larger unit.
coarser :
    (step : ℕ)
    → is_multiple step time_second ≡ false
    → (is_multiple step time_minute ≡ false)
      × (is_multiple step time_hour ≡ false)
      × (is_multiple step time_day ≡ false)
coarser step h = (ground arith, ground arith, ground arith)

exact_step :
    (step : ℕ)
    → is_multiple step time_second ≡ true
    → (count : ℕ) × (unit : TimeUnit) × Denotes (get_duration_from_step step) count unit
      × (count * nanoseconds unit ≡ step)
unfolding get_duration_from_step
exact_step step h = elim (Bool-cases (is_multiple step time_day)) [
  | inl d ↦ (step / time_day, day, rw d, exact_day step d)
  | inr d ↦ elim (Bool-cases (is_multiple step time_hour)) [
    | inl o ↦ (step / time_hour, hour, rw (d, o), exact_hour step o)
    | inr o ↦ elim (Bool-cases (is_multiple step time_minute)) [
      | inl m ↦ (step / time_minute, minute, rw (d, o, m), exact_minute step m)
      | inr m ↦ (step / time_second, second, rw (d, o, m, h), exact_second step h)
    ]
  ]
]

-- A step of more than one second that is a whole number of seconds is written exactly, as a
-- number of days, hours, minutes or seconds. Any other step is written as one minute.
pub get_duration_from_step_lem :
    (step : ℕ)
    → (is_multiple step time_second ≡ true
        → (count : ℕ) × (unit : TimeUnit) × Denotes (get_duration_from_step step) count unit
          × (count * nanoseconds unit ≡ step))
      × (is_multiple step time_second ≡ false → get_duration_from_step step ≡ "1m")
unfolding get_duration_from_step
get_duration_from_step_lem step = (exact_step step, λ h. ground (arith, coarser step))

-- The range of a query is written rounded down to whole minutes, or to whole seconds if it is at
-- most a minute, and never as more than it is.
pub vec_from_s2e_lem :
    (start_time end_time : ℕ)
    → start_time ≤ end_time
    → (count : ℕ) × (unit : TimeUnit) × Denotes (vec_from_s2e start_time end_time) count unit
      × (count * nanoseconds unit ≤ (end_time - start_time) * microsecond)
      × ((end_time - start_time) * microsecond < (count + 1) * nanoseconds unit)
unfolding vec_from_s2e
vec_from_s2e_lem start_time end_time h =
    let duration = (end_time - start_time) * microsecond in
    elim (Bool-cases (ltb time_minute duration)) [
      | inl long ↦ (duration / time_minute, minute, rw long, omega arith, omega arith)
      | inr short ↦ (duration / time_second, second, rw short, omega arith, omega arith)
    ]
