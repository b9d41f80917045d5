-- ===== src/Prometheus/Metrics.antt =====
-- metric_map.go and red_metric_groups.go of repository/prometheus: the results of queries, merged
-- into groups of metrics by a key. The list and the map of `MetricGroupMap` have pointers to the
-- same groups, so that the model has the groups in a store and a pointer is a place in it. The type
-- of the groups and of their keys, and float64, are parameters.
pub mod Keys
pub mod Refines
pub mod Entered
pub mod Red
pub mod Tests
use apo.Common.{
  ℕ, suc, zero, ◌+◌, ◌≡◌, Bool, true, false, String, List, [], ◌∷◌, ◌++◌, Option, none, some,
  lookup, put, Dict, length, Eq, if◌then◌else◌,
}
use text.Mathlib.Text.{◌==◌ as str_eq}

-- MGroupName
abbrev pub realtime : String
realtime = "realtime"

abbrev pub avg : String
avg = "avg"

abbrev pub dod : String
dod = "dod"

abbrev pub wow : String
wow = "wow"

-- MName
abbrev pub latency : String
latency = "latency"

abbrev pub error_rate : String
error_rate = "error"

abbrev pub throughput : String
throughput = "throughput"

pub record Points (F : Type 0) : Type 0 where
  pub time_stamp : ℕ
  pub value : F

pub record MetricResult (L F : Type 0) : Type 0 where
  pub metric : L
  pub values : List (Points F)

-- The interfaces ConvertFromLabels and MetricGroup, where `none` is a type assertion that fails.
pub record MetricGroup (L K V F : Type 0) : Type 0 where
  pub convert_from_labels : L → Option K
  pub init_empty_group : K → Option V
  pub append_group_if_not_exist : String → String → Bool
  pub set_value : V → String → String → F → V

-- The item at a place, replaced.
abbrev pub set_at : {A : Type 0} → ℕ → (A → A) → List A → List A
set_at n f [] = []
set_at zero f (x ∷ xs) = f x ∷ xs
set_at (suc n) f (x ∷ xs) = x ∷ set_at n f xs

-- `groups` is the store of the groups that were made.
pub record MetricGroupMap (K V : Type 0) : Type 0 where
  pub groups : List V
  pub metric_group_list : List ℕ
  pub metric_group_map : Dict K ℕ

module _ {L K V F : Type 0} ⦃e : Eq K⦄ (g : MetricGroup L K V F) where
  -- `mg.SetValue(…)`
  unfoldable pub set_group : String → String → F → ℕ → MetricGroupMap K V → MetricGroupMap K V
  set_group metric_group metric_name value pointer m = record m {
    groups = set_at pointer (λ mg. g.set_value mg metric_group metric_name value) m.groups;
  }

  -- A group that was made, in the list and in the map.
  unfoldable pub add_group : K → V → MetricGroupMap K V → MetricGroupMap K V
  unfolding put
  add_group key mg m = record {
    groups = m.groups ++ mg ∷ [];
    metric_group_list = m.metric_group_list ++ length m.groups ∷ [];
    metric_group_map = put key (length m.groups) m.metric_group_map;
  }

  abbrev pub init_group :
      Option V → String → String → K → F → MetricGroupMap K V → MetricGroupMap K V
  init_group none metric_group metric_name key value m = m
  init_group (some mg) metric_group metric_name key value m =
      set_group metric_group metric_name value (length m.groups) (add_group key mg m)

  abbrev pub merge_found :
      Option ℕ → String → String → K → F → MetricGroupMap K V → MetricGroupMap K V
  merge_found (some pointer) metric_group metric_name key value m =
      set_group metric_group metric_name value pointer m
  merge_found none metric_group metric_name key value m =
      if g.append_group_if_not_exist metric_group metric_name
      then init_group (g.init_empty_group key) metric_group metric_name key value m
      else m

  abbrev pub merge_key : Option K → String → String → F → MetricGroupMap K V → MetricGroupMap K V
  merge_key none metric_group metric_name value m = m
  merge_key (some key) metric_group metric_name value m =
      merge_found (lookup key m.metric_group_map) metric_group metric_name key value m

  abbrev pub merge_values :
      List (Points F) → L → String → String → MetricGroupMap K V → MetricGroupMap K V
  merge_values [] labels metric_group metric_name m = m
  merge_values (point ∷ points) labels metric_group metric_name m =
      merge_key (g.convert_from_labels labels) metric_group metric_name point.value m

  unfoldable pub merge_metric_results :
      String → String → List (MetricResult L F) → MetricGroupMap K V → MetricGroupMap K V
  merge_metric_results metric_group metric_name [] m = m
  merge_metric_results metric_group metric_name (metric ∷ metrics) m =
      merge_metric_results metric_group metric_name metrics
        (merge_values metric.values metric.metric metric_group metric_name m)
