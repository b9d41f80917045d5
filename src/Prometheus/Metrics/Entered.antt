-- ===== src/Prometheus/Metrics/Entered.antt =====
-- Which keys have a group after `MergeMetricResults` of metric_map.go.
use apo.Common.{
  ap, ℕ, suc, ◌∙◌, ◌≡◌, refl, Bool, true, false, ◌&&◌, ◌||◌, String, List, [], ◌∷◌, Option, none,
  some, lookup, put, has, any, Dict, Eq, arith, inl, inr, Bool-cases, has-put, has-lookup,
}
use apo.Prometheus.Metrics.{Points, MetricResult, MetricGroup, merge_metric_results}
use apo.Prometheus.Metrics.Refines.{
  numbered, state_of, merge_metric_results-state_of, entered, entered_key, entered_values,
  entered_results,
}

abbrev pub has_value : {F : Type 0} → List (Points F) → Bool
has_value [] = false
has_value (point ∷ points) = true

module _ {L K V F : Type 0} ⦃e : Eq K⦄ (g : MetricGroup L K V F) where
  abbrev pub is_key : K → Option K → Bool
  is_key k none = false
  is_key k (some j) = e.beq j k

  -- A result with a value and the key `k`.
  abbrev pub is_result_of : K → MetricResult L F → Bool
  is_result_of k metric = has_value metric.values && is_key k (g.convert_from_labels metric.metric)

  put_there : (k j : K) (v u : V) (m : Dict K V) → lookup j m ≡ some u → has k (put j v m) ≡ has k m
  put_there k j v u m h = elim (Bool-cases (e.beq j k)) [
    | inl t ↦
        ground (arith, has-put j k v m, has-lookup j m u h, ap (λ i. has i m) ((e.beq_iff j k).0 t))
    | inr t ↦ ground (arith, has-put j k v m)
  ]

  entered-has :
      (o : Option V) (n p : String) (j k : K) (value : F) (m : Dict K V) (v : V)
      → lookup j m ≡ o
      → g.init_empty_group j ≡ some v
      → has k (entered g o n p j value m)
        ≡ (has k m || (g.append_group_if_not_exist n p && e.beq j k))
  entered-has (some mg) n p j k value m v h i = elim (Bool-cases (e.beq j k)) [
    | inl t ↦ ground (
      arith,
      put_there k j (g.set_value mg n p value) mg m h,
      has-lookup j m mg h,
      ap (λ i. has i m) ((e.beq_iff j k).0 t),
    )
    | inr t ↦ ground (arith, put_there k j (g.set_value mg n p value) mg m h)
  ]
  entered-has none n p j k value m v h i = elim (Bool-cases (g.append_group_if_not_exist n p)) [
    | inl t ↦ rw (t, i) (ground (arith, has-put j k (g.set_value v n p value) m))
    | inr t ↦ rw t (ground arith)
  ]

  entered_key-has :
      (o : Option K) (n p : String) (k : K) (value : F) (m : Dict K V)
      → ((j : K) → (v : V) × (g.init_empty_group j ≡ some v))
      → has k (entered_key g o n p value m)
        ≡ (has k m || (g.append_group_if_not_exist n p && is_key k o))
  entered_key-has none n p k value m init = ground arith
  entered_key-has (some j) n p k value m init =
      entered-has (lookup j m) n p j k value m (init j).0 refl (init j).1

  entered_values-has :
      (points : List (Points F)) (labels : L) (n p : String) (k : K) (m : Dict K V)
      → ((j : K) → (v : V) × (g.init_empty_group j ≡ some v))
      → has k (entered_values g points labels n p m) ≡ (
          has k m
          || (g.append_group_if_not_exist n p
              && (has_value points && is_key k (g.convert_from_labels labels))))
  entered_values-has [] labels n p k m init = ground arith
  entered_values-has (point ∷ points) labels n p k m init =
      entered_key-has (g.convert_from_labels labels) n p k point.value m init

  pub entered_results-has :
      (n p : String) (k : K) (metrics : List (MetricResult L F)) (m : Dict K V)
      → ((j : K) → (v : V) × (g.init_empty_group j ≡ some v))
      → has k (entered_results g n p metrics m)
        ≡ (has k m || (g.append_group_if_not_exist n p && any (is_result_of k) metrics))
  unfolding entered_results
  entered_results-has n p k [] m init = ground arith
  entered_results-has n p k (metric ∷ metrics) m init = ground (
    arith,
    entered_results-has n p k metrics (entered_values g metric.values metric.metric n p m) init,
    entered_values-has metric.values metric.metric n p k m init,
  )

  pub has-numbered : (k : K) (i : ℕ) (m : Dict K V) → has k (numbered i m) ≡ has k m
  unfolding has
  has-numbered k i [] = refl
  has-numbered k i ((j, v) ∷ m) = ground (arith, has-numbered k (suc i) m)

  -- Where a group can be made for every key, `MergeMetricResults` has a group for a key afterwards
  -- if it had one, or if the name of the metric may start a group and there is a result of the key
  -- with a value.
  pub merge_metric_results-has :
      (n p : String) (k : K) (metrics : List (MetricResult L F)) (m : Dict K V)
      → ((j : K) → (v : V) × (g.init_empty_group j ≡ some v))
      → has k (merge_metric_results g n p metrics (state_of m)).metric_group_map
        ≡ (has k m || (g.append_group_if_not_exist n p && any (is_result_of k) metrics))
  merge_metric_results-has n p k metrics m init =
      ap (λ s. has k s.metric_group_map) (merge_metric_results-state_of g n p metrics m)
      ∙ has-numbered k 0 (entered_results g n p metrics m)
      ∙ entered_results-has n p k metrics m init
