-- ===== src/Overview/Endpoints/Tests.antt =====
-- Endpoints whose metrics are whole numbers.
use apo.Common.{
  arith, ℕ, String, Bool, true, Option, none, some, [], ◌∷◌, ltb, leb, ◌==◌, ◌≡◌, refl, ◌/◌, map,
}
use apo.Overview.Endpoints.{
  less_by_mutation, with_rates, EndpointMetrics, Floats, RedMetric, sort_by_dod_threshold,
  sort_by_mutation,
}
use apo.Overview.Endpoints.Order.{IsOrdered}
use apo.Overview.Endpoints.Sorted.{sort_by_mutation_lem, count, Sorted}

abbrev pub whole : Floats ℕ
whole = record {
  gt = λ a b. ltb b a;
  le = leb;
  eq = ◌==◌;
  of_nat = λ n. n;
  minus_one = 0;
  div = λ a b. a / b;
}

whole-IsOrdered : IsOrdered whole
whole-IsOrdered = record {
  gt_weak = record { asym = λ a b h. ground arith; between = λ a b c h. ground arith };
  le_iff = λ a b. ground arith;
  eq_iff_not_gt = λ a b. ground arith;
}

abbrev no_metric : RedMetric ℕ
no_metric = record { latency = none; error_rate = none; tpm = none }

abbrev metric : Option ℕ → Option ℕ → RedMetric ℕ
metric error_rate latency = record { latency = latency; error_rate = error_rate; tpm = none }

abbrev pub endpoint : String → RedMetric ℕ → RedMetric ℕ → EndpointMetrics ℕ
endpoint key avg dod = record {
  svc_name = "shop";
  content_key = key;
  alert_count = 3;
  is_latency_exceeded = true;
  is_error_rate_exceeded = true;
  is_tps_exceeded = true;
  latency_mutation_rate = 0;
  error_mutation_rate = 0;
  realtime = metric none (some 40);
  avg = avg;
  dod = dod;
}

abbrev pub slow : EndpointMetrics ℕ
slow = endpoint "/slow" (metric none (some 10)) (metric (some 2) (some 3))

abbrev pub fast : EndpointMetrics ℕ
fast = endpoint "/fast" (metric none (some 20)) (metric none (some 2))

abbrev other : EndpointMetrics ℕ
other = endpoint "/other" no_metric (metric (some 3) (some 1))

sorted : sort_by_mutation whole (fast ∷ slow ∷ []) ≡ map (with_rates whole) (slow ∷ fast ∷ [])
unfolding sort_by_mutation
sorted = refl

by_threshold : sort_by_dod_threshold whole (fast ∷ slow ∷ []) ≡ slow ∷ fast ∷ []
unfolding sort_by_dod_threshold
by_threshold = refl

sort_by_mutation_lem_example :
    Sorted (less_by_mutation whole) (sort_by_mutation whole (fast ∷ slow ∷ other ∷ []))
    × ((p : EndpointMetrics ℕ → Bool)
        → count p (sort_by_mutation whole (fast ∷ slow ∷ other ∷ []))
          ≡ count p (map (with_rates whole) (fast ∷ slow ∷ other ∷ [])))
sort_by_mutation_lem_example = sort_by_mutation_lem whole (fast ∷ slow ∷ other ∷ []) whole-IsOrdered
