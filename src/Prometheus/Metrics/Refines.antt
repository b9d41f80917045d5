-- ===== src/Prometheus/Metrics/Refines.antt =====
-- `MergeMetricResults` of metric_map.go against a map from keys to groups that keeps the order in
-- which the keys came.
use apo.Common.{
  sym, ◌∙◌, ap, ℕ, suc, ◌+◌, ◌≡◌, refl, String, List, [], ◌∷◌, ◌++◌, Option, none, some, lookup,
  put, Dict, length, Eq, if◌then◌else◌, arith, inl, inr, Bool-cases,
}
use apo.Prometheus.Metrics.{
  Points, MetricResult, MetricGroup, set_at, MetricGroupMap, set_group, add_group, init_group,
  merge_found, merge_values, merge_metric_results,
}

set_at-last :
    {V : Type 0} (f : V → V) (v : V) (vs : List V)
    → set_at (length vs) f (vs ++ v ∷ []) ≡ vs ++ f v ∷ []
set_at-last f v [] = refl
set_at-last f v (u ∷ vs) = ap (λ ws. u ∷ ws) (set_at-last f v vs)

module _ {K V : Type 0} where
  abbrev pub values : Dict K V → List V
  values [] = []
  values ((k, v) ∷ m) = v ∷ values m

  abbrev pub pointers : ℕ → Dict K V → List ℕ
  pointers n [] = []
  pointers n ((k, v) ∷ m) = n ∷ pointers (suc n) m

  abbrev pub numbered : ℕ → Dict K V → Dict K ℕ
  numbered n [] = []
  numbered n ((k, v) ∷ m) = (k, n) ∷ numbered (suc n) m

  -- The groups of a map, each with a pointer from the list and one from the map.
  abbrev pub state_of : Dict K V → MetricGroupMap K V
  state_of m = record {
    groups = values m;
    metric_group_list = pointers 0 m;
    metric_group_map = numbered 0 m;
  }

  length-values : (m : Dict K V) → length (values m) ≡ length m
  length-values [] = refl
  length-values ((k, v) ∷ m) = ap suc (length-values m)

  abbrev state : List V → List ℕ → Dict K ℕ → MetricGroupMap K V
  state a c h = record { groups = a; metric_group_list = c; metric_group_map = h }

module _ {K V : Type 0} ⦃e : Eq K⦄ where
  -- A key that is there: its pointer leads to its group.
  found_pointer :
      (k : K) (v : V) (f : V → V) (n : ℕ) (m : Dict K V)
      → lookup k m ≡ some v
      → (i : ℕ) × ((lookup k (numbered n m) ≡ some (n + i))
          × (set_at i f (values m) ≡ values (put k (f v) m)))
  unfolding lookup put
  found_pointer k v f n [] h = ground arith
  found_pointer k v f n ((j, u) ∷ m) h = elim (Bool-cases (e.beq j k)) [
    | inl t ↦ (0, rw t (ap some (omega arith), ap (λ x. f x ∷ values m) (ground (arith, h, t))))
    | inr t ↦
        let later = found_pointer k v f (suc n) m (ground (arith, h, t)) in
        (suc later.0, rw t (later.1.0 ∙ ap some (omega arith), ap (λ vs. u ∷ vs) later.1.1))
  ]

  found_numbered :
      (k : K) (v w : V) (n : ℕ) (m : Dict K V)
      → lookup k m ≡ some v
      → (numbered n (put k w m) ≡ numbered n m) × (pointers n (put k w m) ≡ pointers n m)
  unfolding lookup put
  found_numbered k v w n [] h = ground arith
  found_numbered k v w n ((j, u) ∷ m) h = elim (Bool-cases (e.beq j k)) [
    | inl t ↦ rw t (ap (λ i. (i, n) ∷ numbered (suc n) m) (sym ((e.beq_iff j k).0 t)), refl)
    | inr t ↦
        let later = found_numbered k v w (suc n) m (ground (arith, h, t)) in
        rw t (ap (λ is. (j, n) ∷ is) later.0, ap (λ is. n ∷ is) later.1)
  ]

  absent_pointer :
      (k : K) (n : ℕ) (m : Dict K V) → lookup k m ≡ none → lookup k (numbered n m) ≡ none
  unfolding lookup
  absent_pointer k n [] h = refl
  absent_pointer k n ((j, u) ∷ m) h = elim (Bool-cases (e.beq j k)) [
    | inl t ↦ ground (arith, h, t)
    | inr t ↦ rw t (absent_pointer k (suc n) m (ground (arith, h, t)))
  ]

  new_key :
      (k : K) (w : V) (n : ℕ) (m : Dict K V)
      → lookup k m ≡ none
      → (put k (n + length m) (numbered n m) ≡ numbered n (put k w m))
        × ((pointers n (put k w m) ≡ pointers n m ++ (n + length m) ∷ [])
            × (values (put k w m) ≡ values m ++ w ∷ []))
  unfolding lookup put
  new_key k w n [] h = (ap (λ i. (k, i) ∷ []) (omega arith), (ap (λ i. i ∷ []) (omega arith), refl))
  new_key k w n ((j, u) ∷ m) h = elim (Bool-cases (e.beq j k)) [
    | inl t ↦ ground arith
    | inr t ↦
        let later = new_key k w (suc n) m (ground (arith, h, t)) in
        rw t (
          ap (λ is. (j, n) ∷ is) (ap (λ i. put k i (numbered (suc n) m)) (omega arith) ∙ later.0),
          (
            ap (λ is. n ∷ is) (later.1.0 ∙ ap (λ i. pointers (suc n) m ++ i ∷ []) (omega arith)),
            ap (λ vs. u ∷ vs) later.1.1,
          ),
        )
  ]

  state_eq :
      {a b : List V} {c d : List ℕ} {h i : Dict K ℕ}
      → a ≡ b
      → c ≡ d
      → h ≡ i
      → state a c h ≡ state b d i
  state_eq p q r = cc

module _ {L K V F : Type 0} ⦃e : Eq K⦄ (g : MetricGroup L K V F) where
  abbrev pub started : Option V → String → String → K → F → Dict K V → Dict K V
  started none metric_group metric_name key value m = m
  started (some mg) metric_group metric_name key value m =
      put key (g.set_value mg metric_group metric_name value) m

  -- The entry of one key: a group that is there takes the value, one that is not is started.
  abbrev pub entered : Option V → String → String → K → F → Dict K V → Dict K V
  entered (some mg) metric_group metric_name key value m =
      started (some mg) metric_group metric_name key value m
  entered none metric_group metric_name key value m =
      if g.append_group_if_not_exist metric_group metric_name
      then started (g.init_empty_group key) metric_group metric_name key value m
      else m

  abbrev pub entered_key : Option K → String → String → F → Dict K V → Dict K V
  entered_key none metric_group metric_name value m = m
  entered_key (some key) metric_group metric_name value m =
      entered (lookup key m) metric_group metric_name key value m

  abbrev pub entered_values : List (Points F) → L → String → String → Dict K V → Dict K V
  entered_values [] labels metric_group metric_name m = m
  entered_values (point ∷ points) labels metric_group metric_name m =
      entered_key (g.convert_from_labels labels) metric_group metric_name point.value m

  -- What a list of results does to the map from keys to groups.
  unfoldable pub entered_results : String → String → List (MetricResult L F) → Dict K V → Dict K V
  entered_results metric_group metric_name [] m = m
  entered_results metric_group metric_name (metric ∷ metrics) m =
      entered_results metric_group metric_name metrics
        (entered_values metric.values metric.metric metric_group metric_name m)

  set_group-state_of :
      (mg : V) (metric_group metric_name : String) (key : K) (value : F) (m : Dict K V)
      → lookup key m ≡ some mg
      → merge_found g (lookup key (numbered 0 m)) metric_group metric_name key value (state_of m)
        ≡ state_of (started (some mg) metric_group metric_name key value m)
  unfolding set_group put
  set_group-state_of mg metric_group metric_name key value m h =
      let set : V → V = λ mg. g.set_value mg metric_group metric_name value in
      let found = found_pointer key mg set 0 m h in
      let kept = found_numbered key mg (set mg) 0 m h in
      ap (λ o. merge_found g o metric_group metric_name key value (state_of m))
        (found.1.0 ∙ ap some (omega arith))
      ∙ state_eq found.1.1 (sym kept.1) (sym kept.0)

  init_group-state_of :
      (o : Option V) (metric_group metric_name : String) (key : K) (value : F) (m : Dict K V)
      → lookup key m ≡ none
      → init_group g o metric_group metric_name key value (state_of m)
        ≡ state_of (started o metric_group metric_name key value m)
  unfolding set_group add_group
  init_group-state_of none metric_group metric_name key value m h = refl
  init_group-state_of (some mg) metric_group metric_name key value m h =
      let set : V → V = λ mg. g.set_value mg metric_group metric_name value in
      let made = new_key key (set mg) 0 m h in
      let n : length (values m) ≡ 0 + length m = omega (arith, length-values m) in
      state_eq (set_at-last set mg (values m) ∙ sym made.1.1)
        (ap (λ i. pointers 0 m ++ i ∷ []) n ∙ sym made.1.0)
        (ap (λ i. put key i (numbered 0 m)) n ∙ made.0)

  merge_found-state_of :
      (o : Option V) (metric_group metric_name : String) (key : K) (value : F) (m : Dict K V)
      → lookup key m ≡ o
      → merge_found g (lookup key (numbered 0 m)) metric_group metric_name key value (state_of m)
        ≡ state_of (entered o metric_group metric_name key value m)
  merge_found-state_of (some mg) metric_group metric_name key value m h =
      set_group-state_of mg metric_group metric_name key value m h
  merge_found-state_of none metric_group metric_name key value m h =
      rw (absent_pointer key 0 m h)
        (elim (Bool-cases (g.append_group_if_not_exist metric_group metric_name)) [
          | inl t ↦
              rw t (
                init_group-state_of (g.init_empty_group key) metric_group metric_name key value m h)
          | inr t ↦ rw t refl
        ])

  merge_values-state_of :
      (points : List (Points F)) (o : Option K) (labels : L) (metric_group metric_name : String)
      (m : Dict K V)
      → g.convert_from_labels labels ≡ o
      → merge_values g points labels metric_group metric_name (state_of m)
        ≡ state_of (entered_values points labels metric_group metric_name m)
  merge_values-state_of [] o labels metric_group metric_name m h = refl
  merge_values-state_of (point ∷ points) none labels metric_group metric_name m h = rw h refl
  merge_values-state_of (point ∷ points) (some key) labels metric_group metric_name m h =
      rw h (merge_found-state_of (lookup key m) metric_group metric_name key point.value m refl)

  -- `MergeMetricResults` on the pointers of a map of groups gives the pointers of that map with the
  -- results entered into it: for every group of metrics, and any results.
  pub merge_metric_results-state_of :
      (metric_group metric_name : String) (metrics : List (MetricResult L F)) (m : Dict K V)
      → merge_metric_results g metric_group metric_name metrics (state_of m)
        ≡ state_of (entered_results metric_group metric_name metrics m)
  unfolding merge_metric_results entered_results
  merge_metric_results-state_of metric_group metric_name [] m = refl
  merge_metric_results-state_of metric_group metric_name (metric ∷ metrics) m =
      ap (merge_metric_results g metric_group metric_name metrics) (
        merge_values-state_of metric.values (g.convert_from_labels metric.metric) metric.metric
          metric_group metric_name m refl)
      ∙ merge_metric_results-state_of metric_group metric_name metrics
          (entered_values metric.values metric.metric metric_group metric_name m)
