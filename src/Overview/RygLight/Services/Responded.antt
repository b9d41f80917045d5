-- ===== src/Overview/RygLight/Services/Responded.antt =====
-- Which services the response of `GetServicesRYGLightStatus` of service_ryg_light.go has.
use mathlib.Core.List.{Permᴰ}
use apo.Overview.Instances.{get_instances}
use apo.Overview.Alerts.{AlertEventCount, ServiceInstance}
use apo.Common.{
  ◌≡◌, refl, inl, inr, Bool-cases, Bool, true, false, ◌||◌, ◌&&◌, String, List, [], ◌∷◌, has, any,
  Dict, arith, Result, ok, err, ap, ◌∙◌, string_eq, eq_iff, any-Perm, All-Perm, Option, none, some,
  ℕ, get_elem?, All, sym, eq_of_some, subst, suc, ◌+◌,
}
use apo.Overview.RygLight.{
  RygLightStatus, RygResult, Float64, expose_ryg_light_status, is_positive_at,
}
use apo.Overview.RygLight.Score.{expose_ryg_light_status-none}
use apo.Overview.RygLight.Services.{service_key_eq, str_eq, light_group, services_with_light}
use apo.Overview.RygLight.Services.Listed.{
  entered_all, is_measured, services_with_light-has, services_with_light-state_of,
}
use apo.Overview.RygLight.Services.Response.{
  LightAnswers, respond, respond_if, service_list, with_instances,
}
use apo.Overview.RygLight.Services.Unpanicked.{AllGroups, IsUnlogged, entered_all-AllGroups}
use apo.Prometheus.Metrics.{MetricResult, MetricGroupMap}
use apo.Prometheus.Metrics.Keys.{Labels, ServiceKey}
use apo.Prometheus.Metrics.Red.{RedFloats}
use apo.Prometheus.Metrics.Refines.{numbered, values}

module _ {F : Type 0} (f : RedFloats F) (float : Float64 F) (answers : LightAnswers) where
  -- The pointer of the entry leads to a group.
  abbrev Leads : List (RygLightStatus F) → ServiceKey × ℕ → Type 0
  Leads groups entry =
      (s : RygLightStatus F) × ((get_elem? groups entry.1 ≡ some s) × IsUnlogged f s)

  numbered-Leads :
      (n : ℕ) (groups : List (RygLightStatus F)) (m : Dict ServiceKey (RygLightStatus F))
      → ((i : ℕ) → get_elem? groups (n + i) ≡ get_elem? (values m) i)
      → AllGroups (light_group f) (IsUnlogged f) m
      → All (Leads groups) (numbered n m)
  numbered-Leads n groups [] h a = tt
  numbered-Leads n groups ((k, s) ∷ m) h (x, a) = (
    (s, (ap (get_elem? groups) (omega arith) ∙ h 0, x)),
    numbered-Leads (suc n) groups m (λ i. ap (get_elem? groups) (omega arith) ∙ h (suc i)) a,
  )

  abbrev pub is_ok : {A : Type 0} → Result A → Bool
  is_ok (ok x) = true
  is_ok (err e) = false

  abbrev is_answered : String → ServiceKey × ℕ → Bool
  is_answered name entry =
      str_eq entry.0.svc_name name && is_ok (answers.get_instance_list entry.0.svc_name)

  abbrev Lists : String → Option (List (String × RygResult)) → Bool → Type 0
  Lists name response b =
      (list : List (String × RygResult)) × ((response ≡ some list) × (has name list ≡ b))

  respond-Lists :
      (name k : String) (o : Option RygResult) (response : Option (List (String × RygResult)))
      (b : Bool)
      → ¬ (o ≡ none)
      → Lists name response b
      → Lists name (respond float k o response) ((str_eq k name && true) || b)
  unfolding has
  respond-Lists name k none response b h l = absurd (h refl)
  respond-Lists name k (some res) (some list) b h (l, (at, found)) =
      ((k, res) ∷ list, (refl, ground (arith, ap (has name) (eq_of_some at), found)))
  respond-Lists name k (some res) none b h (l, (at, found)) = absurd (ground (arith, at))

  -- A service without the average of log errors does not panic.
  exposed : (s : RygLightStatus F) → IsUnlogged f s → ¬ (expose_ryg_light_status float s ≡ none)
  exposed s h panicked =
      let (missing, positive, unknown) = (expose_ryg_light_status-none float s).0 panicked in
      absurd (ground (arith, ap (is_positive_at float) h, positive))

  with_instances-IsUnlogged :
      (events : Option (List AlertEventCount)) (instances : List ServiceInstance)
      (s : RygLightStatus F)
      → IsUnlogged f s
      → IsUnlogged f (with_instances events instances s)
  with_instances-IsUnlogged none instances s h = h
  with_instances-IsUnlogged (some events) instances s h = h

  respond_if-Lists :
      (name k : String) (r : Result (List (String × ServiceInstance)))
      → (o : Option (RygLightStatus F)) (s : RygLightStatus F)
        (response : Option (List (String × RygResult)))
      → (b : Bool) → o ≡ some s
      → IsUnlogged f s
      → Lists name response b
      → Lists name
          (respond_if float answers.alert_event_count k r o response)
          ((str_eq k name && is_ok r) || b)
  respond_if-Lists name k (err e) o s response b at h (list, (is, found)) =
      (list, (is, ground (arith, found)))
  respond_if-Lists name k (ok entries) none s response b at h l = absurd (ground (arith, at))
  respond_if-Lists name k (ok entries) (some t) s response b at h l =
      respond-Lists name k _ response b
        (exposed _ (
          with_instances-IsUnlogged answers.alert_event_count (get_instances entries) t
            (ap (λ (s : RygLightStatus F). s.log_error_count_avg) (eq_of_some at) ∙ h)))
        l

  service_list-Lists :
      (name : String) (groups : List (RygLightStatus F)) (entries : List (ServiceKey × ℕ))
      → All (Leads groups) entries
      → Lists name (service_list float answers groups entries) (any (is_answered name) entries)
  unfolding service_list
  service_list-Lists name groups [] a = ([], (refl, refl))
  service_list-Lists name groups ((key, pointer) ∷ entries) ((s, (at, h)), a) =
      respond_if-Lists name key.svc_name (answers.get_instance_list key.svc_name) _ s _ _ at h
        (service_list-Lists name groups entries a)

  any-is_answered :
      (key : ServiceKey) (m : Dict ServiceKey ℕ)
      → any (is_answered key.svc_name) m
        ≡ (has key m && is_ok (answers.get_instance_list key.svc_name))
  unfolding has
  any-is_answered key [] = refl
  any-is_answered key ((j, pointer) ∷ m) = elim (Bool-cases (str_eq j.svc_name key.svc_name)) [
    | inl same ↦
        let name = (eq_iff j.svc_name key.svc_name).0 same in
        ground
          (arith, same, ap (λ k. is_ok (answers.get_instance_list k)) name, any-is_answered key m)
    | inr other ↦ rw other (any-is_answered key m)
  ]

  -- In every order of the iteration over the merged groups, `GetServicesRYGLightStatus` answers
  -- without a panic, and its response has the services for which the latency, or its growth over a
  -- day, was found, and of these the ones whose instances are found.
  pub service_list-has :
      (avg_latency latency_dod error_rate_dod log_error_count_dod : Result
        (List (MetricResult Labels F)))
      (key : ServiceKey) (entries : List (ServiceKey × ℕ))
      → Permᴰ
          (services_with_light f avg_latency latency_dod error_rate_dod
            log_error_count_dod).metric_group_map
          entries
      → (list : List (String × RygResult)) × ((service_list float answers
              (services_with_light f avg_latency latency_dod error_rate_dod
                log_error_count_dod).groups
              entries
            ≡ some list)
          × (has key.svc_name list ≡ (
              (is_measured f key avg_latency || is_measured f key latency_dod)
              && is_ok (answers.get_instance_list key.svc_name))))
  service_list-has a b c d key entries order =
      let merged = services_with_light f a b c d in
      let led =
        subst
          (λ (s : MetricGroupMap ServiceKey (RygLightStatus F)).
            All (Leads s.groups) s.metric_group_map)
          (sym (services_with_light-state_of f a b c d))
          (numbered-Leads 0 (values (entered_all f a b c d)) (entered_all f a b c d)
            (λ i. ap (get_elem? (values (entered_all f a b c d))) (omega arith))
            (entered_all-AllGroups f a b c d)) in
      let (list, (at, found)) =
        service_list-Lists key.svc_name merged.groups entries (All-Perm _ order led) in
      (
        list,
        (
          at,
          found
              ∙ sym (any-Perm (is_answered key.svc_name) order)
              ∙ any-is_answered key merged.metric_group_map
              ∙ ap (λ x. x && is_ok (answers.get_instance_list key.svc_name))
                  (services_with_light-has f a b c d key),
        ),
      )
