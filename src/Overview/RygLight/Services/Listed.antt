-- ===== src/Overview/RygLight/Services/Listed.antt =====
-- Which services get a light from `GetServicesRYGLightStatus` of service_ryg_light.go.
use apo.Common.{
  ◌≡◌, refl, Bool, false, ◌||◌, ◌&&◌, String, List, [], has, any, Dict, arith, Result, ok, err, ap,
  ◌∙◌,
}
use apo.Overview.RygLight.{RygLightStatus}
use apo.Overview.RygLight.Services.{
  str_eq, service_key_eq, empty_status, light_group, merge_if, services_with_light, log_error_count,
}
use apo.Prometheus.Metrics.{MetricResult, avg, dod, latency, error_rate}
use apo.Prometheus.Metrics.Entered.{entered_results-has, has-numbered, is_result_of}
use apo.Prometheus.Metrics.Keys.{Labels, ServiceKey}
use apo.Prometheus.Metrics.Red.{RedFloats}
use apo.Prometheus.Metrics.Refines.{state_of, entered_results, merge_metric_results-state_of}

drop : (a : Bool) → (a || false) ≡ a
drop a = ground arith

module _ {F : Type 0} (f : RedFloats F) where
  -- A query that gave a result of the service with a value.
  abbrev pub is_measured : ServiceKey → Result (List (MetricResult Labels F)) → Bool
  is_measured key (err e) = false
  is_measured key (ok results) = any (is_result_of (light_group f) key) results

  abbrev pub Groups : Type 0
  Groups = Dict ServiceKey (RygLightStatus F)

  abbrev pub entered_if : String → String → Result (List (MetricResult Labels F)) → Groups → Groups
  entered_if metric_group metric_name (err e) m = m
  entered_if metric_group metric_name (ok results) m =
      entered_results (light_group f) metric_group metric_name results m

  merge_if-state_of :
      (n p : String) (r : Result (List (MetricResult Labels F))) (m : Groups)
      → merge_if f n p r (state_of m) ≡ state_of (entered_if n p r m)
  merge_if-state_of n p (err e) m = refl
  merge_if-state_of n p (ok results) m = merge_metric_results-state_of (light_group f) n p results m

  entered_if-has :
      (n p : String) (key : ServiceKey) (r : Result (List (MetricResult Labels F))) (m : Groups)
      → has key (entered_if n p r m) ≡ (has key m || (str_eq p latency && is_measured key r))
  entered_if-has n p key (err e) m = ground arith
  entered_if-has n p key (ok results) m =
      entered_results-has (light_group f) n p key results m (λ k. (empty_status, refl))

  -- The groups after the four queries.
  abbrev pub entered_all :
      Result (List (MetricResult Labels F))
      → Result (List (MetricResult Labels F))
      → Result (List (MetricResult Labels F))
      → Result (List (MetricResult Labels F))
      → Groups
  entered_all a b c d =
      entered_if dod log_error_count d
        (entered_if dod error_rate c (entered_if dod latency b (entered_if avg latency a [])))

  pub services_with_light-state_of :
      (a b c d : Result (List (MetricResult Labels F)))
      → services_with_light f a b c d ≡ state_of (entered_all a b c d)
  unfolding services_with_light
  services_with_light-state_of a b c d =
      let m1 = entered_if avg latency a [] in
      let m2 = entered_if dod latency b m1 in
      ap
        (λ s.
          merge_if f dod log_error_count d
            (merge_if f dod error_rate c (merge_if f dod latency b s)))
        (merge_if-state_of avg latency a [])
      ∙ ap (λ s. merge_if f dod log_error_count d (merge_if f dod error_rate c s))
          (merge_if-state_of dod latency b m1)
      ∙ ap (merge_if f dod log_error_count d) (merge_if-state_of dod error_rate c m2)
      ∙ merge_if-state_of dod log_error_count d (entered_if dod error_rate c m2)

  -- The groups that `GetServicesRYGLightStatus` has merged from its four queries, before it asks for
  -- the instances of each service, are those of exactly the services for which the latency, or its
  -- growth over a day, was found: not those of which only the growth of errors is known. A query
  -- that fails finds nothing.
  pub services_with_light-has :
      (avg_latency latency_dod error_rate_dod log_error_count_dod : Result
        (List (MetricResult Labels F)))
      (key : ServiceKey)
      → has key
          (services_with_light f avg_latency latency_dod error_rate_dod
            log_error_count_dod).metric_group_map
        ≡ (is_measured key avg_latency || is_measured key latency_dod)
  unfolding services_with_light has
  services_with_light-has a b c d key =
      let m1 = entered_if avg latency a [] in
      let m2 = entered_if dod latency b m1 in
      let m3 = entered_if dod error_rate c m2 in
      ap (λ s. has key s.metric_group_map) (services_with_light-state_of a b c d)
      ∙ has-numbered (light_group f) key 0 (entered_all a b c d)
      ∙ entered_if-has dod log_error_count key d m3
      ∙ drop (has key m3)
      ∙ entered_if-has dod error_rate key c m2
      ∙ drop (has key m2)
      ∙ entered_if-has dod latency key b m1
      ∙ ap (λ x. x || is_measured key b) (entered_if-has avg latency key a [])
