-- ===== src/Overview/Endpoints/Order.antt =====
-- Which of the comparisons can be sorted by.
use apo.Common.{
  refl, Bool, true, false, not, ◌&&◌, ◌||◌, Option, none, some, if◌then◌else◌, arith, ◌≡◌,
}
use apo.Overview.Endpoints.{less_by_mutation, EndpointMetrics, by_metrics, by_metric, Floats}

-- A strict weak order, as `sort.SliceStable` asks: no two are each less than the other, and where
-- one is less than another, any third is after the first or before the other.
pub record IsWeakOrder {A : Type 0} (less : A → A → Bool) : Type 0 where
  pub asym : (a b : A) → less a b ≡ true → less b a ≡ false
  pub between : (a b c : A) → less a c ≡ true → (less a b || less b c) ≡ true

-- Floats without NaN.
pub record IsOrdered {F : Type 0} (f : Floats F) : Type 0 where
  pub gt_weak : IsWeakOrder f.gt
  pub le_iff : (a b : F) → f.le a b ≡ not (f.gt a b)
  pub eq_iff_not_gt : (a b : F) → f.eq a b ≡ (not (f.gt a b) && not (f.gt b a))

module _ {F : Type 0} (f : Floats F) (o : IsOrdered f) where
  metric_asym :
      (m n : Option F) (r s : Bool)
      → (r ≡ true → s ≡ false)
      → by_metric f m n r ≡ true
      → by_metric f n m s ≡ false
  metric_asym none none r s rest h = rest h
  metric_asym none (some b) r s rest h = absurd (cc h)
  metric_asym (some a) none r s rest h = refl
  metric_asym (some a) (some b) r s rest h = o.gt_weak.asym a b h

  metric_between :
      (m n k : Option F) (r p q : Bool)
      → (r ≡ true → (p || q) ≡ true)
      → by_metric f m k r ≡ true
      → (by_metric f m n p || by_metric f n k q) ≡ true
  metric_between none none none r p q rest h = rest h
  metric_between none none (some c) r p q rest h = absurd (cc h)
  metric_between none (some b) none r p q rest h = refl
  metric_between none (some b) (some c) r p q rest h = absurd (cc h)
  metric_between (some a) none none r p q rest h = refl
  metric_between (some a) none (some c) r p q rest h = refl
  metric_between (some a) (some b) none r p q rest h = ground arith
  metric_between (some a) (some b) (some c) r p q rest h = o.gt_weak.between a b c h

  -- First by a metric that may be missing.
  by_metric-IsWeakOrder :
      {A : Type 0} (metric : A → Option F) (less : A → A → Bool)
      → IsWeakOrder less
      → IsWeakOrder (λ (x y : A). by_metric f (metric x) (metric y) (less x y))
  by_metric-IsWeakOrder metric less w = record {
    asym = λ a b h. metric_asym (metric a) (metric b) (less a b) (less b a) (w.asym a b) h;
    between = λ a b c h.
        metric_between (metric a) (metric b) (metric c) (less a c) (less a b) (less b c)
          (w.between a b c) h;
  }

  by_metrics-IsWeakOrder : IsWeakOrder (by_metrics f)
  by_metrics-IsWeakOrder =
      by_metric-IsWeakOrder (λ (e : EndpointMetrics F). e.realtime.error_rate) _
        (by_metric-IsWeakOrder (λ (e : EndpointMetrics F). e.avg.error_rate) _
          (by_metric-IsWeakOrder (λ (e : EndpointMetrics F). e.realtime.latency) _
            (by_metric-IsWeakOrder (λ (e : EndpointMetrics F). e.avg.latency)
              (λ (x y : EndpointMetrics F). false)
              (record { asym = λ a b h. refl; between = λ a b c h. absurd (cc h) }))))

  -- First by a metric that is there.
  abbrev by_value : F → F → Bool → Bool
  by_value a b rest = if not (f.eq a b) then f.gt a b else rest

  value_asym :
      (a b : F) (r s : Bool)
      → (r ≡ true → s ≡ false)
      → by_value a b r ≡ true
      → by_value b a s ≡ false
  value_asym a b r s rest h =
      ground (arith, rest, o.gt_weak.asym a b, o.eq_iff_not_gt a b, o.eq_iff_not_gt b a)

  value_between :
      (a b c : F) (r p q : Bool)
      → (r ≡ true → (p || q) ≡ true)
      → by_value a c r ≡ true
      → (by_value a b p || by_value b c q) ≡ true
  value_between a b c r p q rest h = ground (
    arith,
    rest,
    o.gt_weak.between a b c,
    o.gt_weak.between b a c,
    o.gt_weak.between a c b,
    o.gt_weak.between b c a,
    o.gt_weak.between c a b,
    o.gt_weak.between c b a,
    o.gt_weak.asym a b,
    o.gt_weak.asym b c,
    o.gt_weak.asym a c,
    o.eq_iff_not_gt a b,
    o.eq_iff_not_gt b c,
    o.eq_iff_not_gt a c,
  )

  -- First by a metric where one of the two is above a bound.
  abbrev by_bound : F → F → F → Bool → Bool
  by_bound n a b rest =
      if f.gt a n || f.gt b n then f.gt a b else if f.le a n && f.le b n then rest else false

  bound_asym :
      (n a b : F) (r s : Bool)
      → (r ≡ true → s ≡ false)
      → by_bound n a b r ≡ true
      → by_bound n b a s ≡ false
  bound_asym n a b r s rest h = ground (arith, rest, o.gt_weak.asym a b)

  bound_between :
      (n a b c : F) (r p q : Bool)
      → (r ≡ true → (p || q) ≡ true)
      → by_bound n a c r ≡ true
      → (by_bound n a b p || by_bound n b c q) ≡ true
  bound_between n a b c r p q rest h = ground (
    arith,
    rest,
    o.le_iff a n,
    o.le_iff b n,
    o.le_iff c n,
    o.gt_weak.between a b c,
    o.gt_weak.between c a n,
    o.gt_weak.between a b n,
    o.gt_weak.between b c n,
    o.gt_weak.asym a c,
  )

  -- The comparison of `sortByMutation` is an order that can be sorted by, as long as no metric is
  -- NaN.
  pub less_by_mutation-IsWeakOrder : IsWeakOrder (less_by_mutation f)
  unfolding less_by_mutation
  less_by_mutation-IsWeakOrder = record {
    asym = λ a b h.
        bound_asym (f.of_nat 1) a.error_mutation_rate b.error_mutation_rate _ _
          (λ r.
            value_asym a.latency_mutation_rate b.latency_mutation_rate (by_metrics f a b)
              (by_metrics f b a) (by_metrics-IsWeakOrder.asym a b) r)
          h;
    between = λ a b c h.
        bound_between (f.of_nat 1) a.error_mutation_rate b.error_mutation_rate c.error_mutation_rate
          _ _ _
          (λ r.
            value_between a.latency_mutation_rate b.latency_mutation_rate c.latency_mutation_rate
              (by_metrics f a c) (by_metrics f a b) (by_metrics f b c)
              (by_metrics-IsWeakOrder.between a b c) r)
          h;
  }
