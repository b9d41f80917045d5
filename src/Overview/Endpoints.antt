-- ===== src/Overview/Endpoints.antt =====
-- sortrule.go: the orders in which the endpoints of services are shown. Floats are a parameter. A
-- metric is a pointer, nil where it was not found; two endpoints share no pointer, so that their
-- pointers are equal when both are nil. `sort.SliceStable` is an insertion sort here.
pub mod Order
pub mod Sorted
pub mod Tests
use apo.Common.{
  ℕ, String, Bool, true, false, not, ◌&&◌, ◌||◌, Option, none, some, List, [], ◌∷◌, if◌then◌else◌,
  ◌==◌, ltb, map,
}
pub use apo.Prometheus.Metrics.Red.{RedMetric}

-- What the code uses of float64.
pub record Floats (F : Type 0) : Type 0 where
  pub gt : F → F → Bool
  pub le : F → F → Bool
  pub eq : F → F → Bool
  pub of_nat : ℕ → F
  pub minus_one : F
  pub div : F → F → F

pub record EndpointMetrics (F : Type 0) : Type 0 where
  pub svc_name : String
  pub content_key : String
  pub alert_count : ℕ
  pub is_latency_exceeded : Bool
  pub is_error_rate_exceeded : Bool
  pub is_tps_exceeded : Bool
  pub latency_mutation_rate : F
  pub error_mutation_rate : F
  pub realtime : RedMetric F
  pub avg : RedMetric F
  pub dod : RedMetric F

-- What `sort.SliceStable` does up to twenty elements: each element moves to the front past those
-- that it is less than. The sorted part is kept with its last element first.
module _ {A : Type 0} (less : A → A → Bool) where
  unfoldable pub insert_back : A → List A → List A
  insert_back x [] = x ∷ []
  insert_back x (y ∷ ys) = let rest = insert_back x ys in if less x y then y ∷ rest else x ∷ y ∷ ys

  unfoldable pub insert_all : List A → List A → List A
  unfolding insert_back
  insert_all [] sorted = sorted
  insert_all (x ∷ xs) sorted = insert_all xs (insert_back x sorted)

abbrev pub reverse_onto : {A : Type 0} → List A → List A → List A
reverse_onto [] ys = ys
reverse_onto (x ∷ xs) ys = reverse_onto xs (x ∷ ys)

unfoldable pub slice_stable : {A : Type 0} → (A → A → Bool) → List A → List A
unfolding insert_all
slice_stable less xs = reverse_onto (insert_all less xs []) []

module _ {F : Type 0} (f : Floats F) where
  -- RES_MAX_VALUE
  abbrev pub res_max_value : F
  res_max_value = f.of_nat 9999999

  -- How a metric of the last minute has changed against its average.
  unfoldable pub mutation_rate : Option F → Option F → F
  mutation_rate none none = f.of_nat 0
  mutation_rate (some avg) none = if f.eq avg (f.of_nat 0) then f.of_nat 0 else f.minus_one
  mutation_rate none (some realtime) =
      if f.eq realtime (f.of_nat 0) then f.of_nat 0 else res_max_value
  mutation_rate (some avg) (some realtime) =
      if f.eq avg (f.of_nat 0) then res_max_value else f.div realtime avg

  abbrev pub with_rates : EndpointMetrics F → EndpointMetrics F
  with_rates e = record e {
    error_mutation_rate = mutation_rate e.avg.error_rate e.realtime.error_rate;
    latency_mutation_rate = mutation_rate e.avg.latency e.realtime.latency;
  }

  -- The larger metric first, and one that was found before one that was not.
  abbrev pub by_metric : Option F → Option F → Bool → Bool
  by_metric (some a) (some b) rest = f.gt a b
  by_metric (some a) none rest = true
  by_metric none (some b) rest = false
  by_metric none none rest = rest

  abbrev pub by_metrics : EndpointMetrics F → EndpointMetrics F → Bool
  by_metrics i j = by_metric i.realtime.error_rate j.realtime.error_rate (
      by_metric i.avg.error_rate j.avg.error_rate (
        by_metric i.realtime.latency j.realtime.latency
          (by_metric i.avg.latency j.avg.latency false)))

  -- The comparison of `sortByMutation`.
  unfoldable pub less_by_mutation : EndpointMetrics F → EndpointMetrics F → Bool
  less_by_mutation i j =
      if f.gt i.error_mutation_rate (f.of_nat 1) || f.gt j.error_mutation_rate (f.of_nat 1)
      then f.gt i.error_mutation_rate j.error_mutation_rate
      else if f.le i.error_mutation_rate (f.of_nat 1) && f.le j.error_mutation_rate (f.of_nat 1)
      then (if not (f.eq i.latency_mutation_rate j.latency_mutation_rate)
          then f.gt i.latency_mutation_rate j.latency_mutation_rate
          else by_metrics i j)
      else false

  unfoldable pub sort_by_mutation : List (EndpointMetrics F) → List (EndpointMetrics F)
  unfolding slice_stable less_by_mutation mutation_rate
  sort_by_mutation endpoints = slice_stable less_by_mutation (map with_rates endpoints)

  abbrev pub if_both : Option F → Option F → (F → F → Bool) → Bool → Bool
  if_both (some a) (some b) compare rest = compare a b
  if_both (some a) none compare rest = rest
  if_both none b compare rest = rest

  -- By the growth of the error rates, and by the rates where it is the same.
  abbrev pub by_error_rate : EndpointMetrics F → EndpointMetrics F → Bool → Bool
  by_error_rate i j rest =
      if_both i.dod.error_rate j.dod.error_rate
        (λ a b.
          if not (f.eq a b) then f.gt a b else if_both i.avg.error_rate j.avg.error_rate f.gt rest)
        rest

  abbrev pub by_latency : EndpointMetrics F → EndpointMetrics F → Bool → Bool
  by_latency i j rest = if_both i.dod.latency j.dod.latency f.gt rest

  abbrev pub by_tpm : EndpointMetrics F → EndpointMetrics F → Bool → Bool
  by_tpm i j rest = if_both i.dod.tpm j.dod.tpm f.gt rest

  abbrev pub neither : Bool → Bool → Bool
  neither a b = not a && not b

  abbrev pub same : Bool → Bool → Bool
  same a b = if a then b else not b

  -- Endpoints with three, two, one and no exceeded thresholds.
  unfoldable pub less_with_3 : EndpointMetrics F → EndpointMetrics F → Bool
  less_with_3 i j = by_error_rate i j (by_latency i j (by_tpm i j false))

  unfoldable pub less_with_2 : EndpointMetrics F → EndpointMetrics F → Bool
  less_with_2 i j =
      let by_tps =
        if neither i.is_tps_exceeded j.is_tps_exceeded
        then by_error_rate i j (by_latency i j (by_tpm i j false))
        else false in
      let by_latencies =
        if neither i.is_latency_exceeded j.is_latency_exceeded
        then by_error_rate i j (by_tpm i j by_tps)
        else by_tps in
      if i.is_error_rate_exceeded && not j.is_error_rate_exceeded
      then true
      else if i.is_latency_exceeded
          && not j.is_latency_exceeded
          && same i.is_error_rate_exceeded j.is_error_rate_exceeded
      then true
      else if neither i.is_error_rate_exceeded j.is_error_rate_exceeded
      then by_latency i j (by_tpm i j by_latencies)
      else by_latencies

  unfoldable pub less_with_1 : EndpointMetrics F → EndpointMetrics F → Bool
  less_with_1 i j =
      let by_tps = if i.is_tps_exceeded && j.is_tps_exceeded then by_tpm i j false else false in
      let by_latencies =
        if i.is_latency_exceeded && j.is_latency_exceeded then by_latency i j by_tps else by_tps in
      if i.is_error_rate_exceeded && not j.is_error_rate_exceeded
      then true
      else if i.is_latency_exceeded
          && not j.is_latency_exceeded
          && same i.is_error_rate_exceeded j.is_error_rate_exceeded
      then true
      else if i.is_error_rate_exceeded && j.is_error_rate_exceeded
      then by_error_rate i j by_latencies
      else by_latencies

  abbrev pub found : Option F → Bool
  found none = false
  found (some a) = true

  unfoldable pub less_with_0 : EndpointMetrics F → EndpointMetrics F → Bool
  less_with_0 i j =
      let no_error_rates = neither (found i.dod.error_rate) (found j.dod.error_rate) in
      let no_latencies = neither (found i.dod.latency) (found j.dod.latency) in
      if found i.dod.error_rate && not (found j.dod.error_rate)
      then true
      else if no_error_rates && found i.dod.latency && not (found j.dod.latency)
      then true
      else if no_error_rates && no_latencies && found i.dod.tpm && not (found j.dod.tpm)
      then true
      else by_error_rate i j (by_latency i j (by_tpm i j false))

  -- The comparison of `sortByDODThreshold`.
  unfoldable pub less_by_dod_threshold : EndpointMetrics F → EndpointMetrics F → Bool
  unfolding less_with_3 less_with_2 less_with_1 less_with_0
  less_by_dod_threshold i j =
      if not (i.alert_count == j.alert_count)
      then ltb j.alert_count i.alert_count
      else if i.alert_count == 3
      then less_with_3 i j
      else if i.alert_count == 2
      then less_with_2 i j
      else if i.alert_count == 1
      then less_with_1 i j
      else if i.alert_count == 0
      then less_with_0 i j
      else false

  unfoldable pub sort_by_dod_threshold : List (EndpointMetrics F) → List (EndpointMetrics F)
  unfolding slice_stable less_by_dod_threshold
  sort_by_dod_threshold endpoints = slice_stable less_by_dod_threshold endpoints
