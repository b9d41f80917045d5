-- ===== src/Overview/RygLight/Services/Unpanicked.antt =====
-- The average number of log errors, which no query of `GetServicesRYGLightStatus` of
-- service_ryg_light.go gives, and the panic of `ExposeRYGLightStatus` that needs it.
use apo.Common.{
  ◌≡◌, refl, String, List, [], ◌∷◌, Dict, All, Option, none, some, Result, ok, err, lookup, put, Eq,
  Bool-cases, inl, inr, eq_of_some, subst, ap, sym,
}
use apo.Overview.RygLight.{RygLightStatus}
use apo.Overview.RygLight.Services.{service_key_eq, light_group, log_error_count, set_value}
use apo.Overview.RygLight.Services.Listed.{entered_if, entered_all, Groups}
use apo.Prometheus.Metrics.{MetricResult, MetricGroup, Points, avg, dod, latency, error_rate}
use apo.Prometheus.Metrics.Keys.{Labels}
use apo.Prometheus.Metrics.Red.{RedFloats}
use apo.Prometheus.Metrics.Refines.{started, entered, entered_key, entered_values, entered_results}

module _ {L K V F : Type 0} ⦃e : Eq K⦄ (g : MetricGroup L K V F) (P : V → Type 0) where
  abbrev pub AllGroups : Dict K V → Type 0
  AllGroups = All (λ (entry : K × V). P entry.1)

  put-AllGroups : (k : K) (v : V) (m : Dict K V) → P v → AllGroups m → AllGroups (put k v m)
  unfolding put
  put-AllGroups k v [] h a = (h, tt)
  put-AllGroups k v ((j, w) ∷ m) h (x, a) = elim (Bool-cases (e.beq j k)) [
    | inl same ↦ rw same (h, a)
    | inr other ↦ rw other (x, put-AllGroups k v m h a)
  ]

  lookup-AllGroups : (k : K) (v : V) (m : Dict K V) → lookup k m ≡ some v → AllGroups m → P v
  unfolding lookup
  lookup-AllGroups k v [] h a = absurd (cc h)
  lookup-AllGroups k v ((j, w) ∷ m) h (x, a) = elim (Bool-cases (e.beq j k)) [
    | inl same ↦ subst P (eq_of_some (rw same at h)) x
    | inr other ↦ lookup-AllGroups k v m (rw other at h) a
  ]

  module _ (n p : String) (sets : (v : V) (value : F) → P v → P (g.set_value v n p value))
      (starts : (k : K) (v : V) → g.init_empty_group k ≡ some v → P v) where
    entered-AllGroups :
        (o : Option V) (k : K) (value : F) (m : Dict K V)
        → lookup k m ≡ o
        → AllGroups m
        → AllGroups (entered g o n p k value m)
    entered-AllGroups (some v) k value m at a =
        put-AllGroups k _ m (sets v value (lookup-AllGroups k v m at a)) a
    entered-AllGroups none k value m at a = elim (Bool-cases (g.append_group_if_not_exist n p)) [
      | inl yes_append ↦ rw yes_append (made (g.init_empty_group k) refl)
      | inr no_append ↦ rw no_append a
    ]
      where
        made : (o : Option V) → g.init_empty_group k ≡ o → AllGroups (started g o n p k value m)
        made none h = a
        made (some v) h = put-AllGroups k _ m (sets v value (starts k v h)) a

    entered_key-AllGroups :
        (o : Option K) (value : F) (m : Dict K V)
        → AllGroups m
        → AllGroups (entered_key g o n p value m)
    entered_key-AllGroups none value m a = a
    entered_key-AllGroups (some k) value m a = entered-AllGroups (lookup k m) k value m refl a

    entered_values-AllGroups :
        (points : List (Points F)) (labels : L) (m : Dict K V)
        → AllGroups m
        → AllGroups (entered_values g points labels n p m)
    entered_values-AllGroups [] labels m a = a
    entered_values-AllGroups (point ∷ points) labels m a =
        entered_key-AllGroups (g.convert_from_labels labels) point.value m a

    pub entered_results-AllGroups :
        (metrics : List (MetricResult L F)) (m : Dict K V)
        → AllGroups m
        → AllGroups (entered_results g n p metrics m)
    unfolding entered_results
    entered_results-AllGroups [] m a = a
    entered_results-AllGroups (metric ∷ metrics) m a =
        entered_results-AllGroups metrics _
          (entered_values-AllGroups metric.values metric.metric m a)

module _ {F : Type 0} (f : RedFloats F) where
  abbrev pub IsUnlogged : RygLightStatus F → Type 0
  IsUnlogged s = s.log_error_count_avg ≡ none

  entered_if-AllGroups :
      (n p : String)
      → ((v : RygLightStatus F) (value : F) → IsUnlogged v → IsUnlogged (set_value f v n p value))
      → (r : Result (List (MetricResult Labels F))) (m : Groups f)
      → AllGroups (light_group f) IsUnlogged m
      → AllGroups (light_group f) IsUnlogged (entered_if f n p r m)
  entered_if-AllGroups n p sets (err e) m a = a
  entered_if-AllGroups n p sets (ok results) m a =
      entered_results-AllGroups (light_group f) IsUnlogged n p sets
        (λ k v h. ap (λ (s : RygLightStatus F). s.log_error_count_avg) (sym (eq_of_some h))) results
        m a

  -- No query gives the average number of log errors.
  pub entered_all-AllGroups :
      (a b c d : Result (List (MetricResult Labels F)))
      → AllGroups (light_group f) IsUnlogged (entered_all f a b c d)
  unfolding set_value
  entered_all-AllGroups a b c d =
      entered_if-AllGroups dod log_error_count (λ v value h. h) d _
        (entered_if-AllGroups dod error_rate (λ v value h. h) c _
          (entered_if-AllGroups dod latency (λ v value h. h) b _
            (entered_if-AllGroups avg latency (λ v value h. h) a [] tt)))
