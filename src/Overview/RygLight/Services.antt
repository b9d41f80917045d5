-- ===== src/Overview/RygLight/Services.antt =====
-- `SetValue` of service_ryg_light.go, and the part of `GetServicesRYGLightStatus` that merges what
-- the four queries give into a group for each service.
pub mod Listed
pub mod Response
pub mod Responded
pub mod Unpanicked
use apo.Common.{
  ◌≡◌, refl, Bool, true, false, String, List, [], ◌∷◌, Option, none, some, if◌then◌else◌, Eq,
  string_eq, eq_iff, Result, ok, err, ap, ◌∙◌,
}
use text.Mathlib.Text.{◌==◌ as str_eq}
use apo.Overview.Alerts.{AlertStatus}
use apo.Overview.RygLight.{RygLightStatus}
use apo.Prometheus.Metrics.{
  MetricGroup, MetricGroupMap, MetricResult, merge_metric_results, avg, dod, latency, error_rate,
}
use apo.Prometheus.Metrics.Keys.{Labels, ServiceKey, service_key}
use apo.Prometheus.Metrics.Red.{RedFloats}

-- MName
abbrev pub log_error_count : String
log_error_count = "log_error_count"

abbrev pub service_of : String → ServiceKey
service_of name = record { svc_name = name }

instance abbrev pub service_key_eq : Eq ServiceKey
service_key_eq = record {
  beq = λ a b. str_eq a.svc_name b.svc_name;
  beq_iff = λ a b. (
    λ h. ap service_of ((eq_iff a.svc_name b.svc_name).0 h),
    λ h. (eq_iff a.svc_name b.svc_name).1 (ap (λ (k : ServiceKey). k.svc_name) h),
  );
}

-- `&RYGLightStatus{}`
abbrev pub empty_status : {F : Type 0} → RygLightStatus F
empty_status = record {
  latency_avg = none;
  error_rate_avg = none;
  log_error_count_avg = none;
  latency_dod = none;
  error_rate_dod = none;
  log_error_count_dod = none;
  instances = [];
  alert_status = record {
    infrastructure_status = "";
    net_status = "";
    k8s_status = "";
    app_status = "";
    container_status = "";
    log_metrics_status = "";
  };
  alert_event_level_count_map = [];
}

module _ {F : Type 0} (f : RedFloats F) where
  unfoldable pub set_value : RygLightStatus F → String → String → F → RygLightStatus F
  set_value s group_name metric_name value =
      if str_eq group_name avg
      then (if str_eq metric_name latency
          then record s { latency_avg = some (f.by_1e3 value) }
          else if str_eq metric_name error_rate
          then record s { error_rate_avg = some (f.times_100 value) }
          else if str_eq metric_name log_error_count
          then record s { log_error_count_avg = some value }
          else s)
      else if str_eq group_name dod
      then (let radio = f.times_100 (f.minus_one value) in
          if str_eq metric_name latency
          then record s { latency_dod = some radio }
          else if str_eq metric_name error_rate
          then record s { error_rate_dod = some radio }
          else if str_eq metric_name log_error_count
          then record s { log_error_count_dod = some radio }
          else s)
      else s

  -- `servicesRYGLightMap`
  abbrev pub light_group : MetricGroup Labels ServiceKey (RygLightStatus F) F
  light_group = record {
    convert_from_labels = λ labels. some (service_key labels);
    init_empty_group = λ key. some empty_status;
    append_group_if_not_exist = λ metric_group metric_name. str_eq metric_name latency;
    set_value = set_value;
  }

  -- `if err == nil { servicesMap.MergeMetricResults(…) }`
  abbrev pub merge_if :
      String
      → String
      → Result (List (MetricResult Labels F))
      → MetricGroupMap ServiceKey (RygLightStatus F)
      → MetricGroupMap ServiceKey (RygLightStatus F)
  merge_if metric_group metric_name (err e) m = m
  merge_if metric_group metric_name (ok results) m =
      merge_metric_results light_group metric_group metric_name results m

  -- What the queries give: the latency, and the growth of latency, errors and log errors.
  unfoldable pub services_with_light :
      Result (List (MetricResult Labels F))
      → Result (List (MetricResult Labels F))
      → Result (List (MetricResult Labels F))
      → Result (List (MetricResult Labels F))
      → MetricGroupMap ServiceKey (RygLightStatus F)
  services_with_light avg_latency latency_dod error_rate_dod log_error_count_dod =
      merge_if dod log_error_count log_error_count_dod (
        merge_if dod error_rate error_rate_dod (
          merge_if dod latency latency_dod (
            merge_if avg latency avg_latency
              (record { groups = []; metric_group_list = []; metric_group_map = [] }))))
