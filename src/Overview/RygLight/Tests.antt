-- ===== src/Overview/RygLight/Tests.antt =====
-- Lights of services, with whole numbers for floats.
use apo.Common.{
  string_eq, true, false, Bool, String, List, Result, lookup, put, has, ok, err, ℕ, ◌≡◌, refl, none,
  some, [], ◌∷◌, ltb,
}
use apo.Overview.Alerts.{AlertStatus, ServiceInstance, AlertEventLevelCountMap}
use apo.Overview.RygLight.{
  empty_result, add_score, expose_ryg_light_status, with_percent, Float64, RygLightStatus,
  RygResult,
}
use apo.Overview.RygLight.Score.{expose_ryg_light_status_lem, IsScored}
use apo.Overview.RygLight.Services.{service_of, service_key_eq, services_with_light}
use apo.Overview.RygLight.Services.Responded.{service_list-has}
use apo.Overview.RygLight.Services.Response.{LightAnswers, service_list}
use apo.Prometheus.Metrics.{MetricGroupMap, MetricResult, merge_metric_results}
use apo.Prometheus.Metrics.Keys.{service_key, Labels, ServiceKey}
use mathlib.Core.List.{Permᴰ}
use text.Mathlib.Text.{◌==◌ as str_eq}
use apo.Prometheus.Metrics.Tests.{naturals, result}

abbrev whole : Float64 ℕ
whole = record { lt = ltb; of_nat = λ n. n; sprintf = λ format value. format }

abbrev no_status : AlertStatus
no_status = record {
  infrastructure_status = "";
  net_status = "";
  k8s_status = "";
  app_status = "";
  container_status = "";
  log_metrics_status = "";
}

abbrev alerts : AlertEventLevelCountMap
alerts = ("appStatus", (2, 3) ∷ []) ∷ ("netStatus", (2, 1) ∷ []) ∷ []

abbrev slow : RygLightStatus ℕ
slow = record {
  latency_avg = some 30;
  error_rate_avg = none;
  log_error_count_avg = none;
  latency_dod = some 25;
  error_rate_dod = some 7;
  log_error_count_dod = none;
  instances = [];
  alert_status = no_status;
  alert_event_level_count_map = alerts;
}

abbrev light : RygResult
light = with_percent whole (
    add_score
      (add_score
        (add_score
          (add_score (add_score (empty_result whole) "latency" 1 "latency 同比增长 %.2f%%") "errorRate"
            2 "errorRate 同比增长 %.2f%%")
          "logErrorCount" 3 "logErrorCount 今日未产生错误日志")
        "alert" 1 "存在不同种类的低优先级告警")
      "replica" 0 "应用实例数小于2, 存在服务不可用风险")

exposed : expose_ryg_light_status whole slow ≡ some light
unfolding expose_ryg_light_status
exposed = refl

expose_ryg_light_status_lem_example : IsScored whole light
expose_ryg_light_status_lem_example = expose_ryg_light_status_lem whole slow light exposed

-- Log errors without a rate of yesterday and without an error rate.
panics : expose_ryg_light_status whole (record slow { log_error_count_avg = some 2 }) ≡ none
unfolding expose_ryg_light_status
panics = refl

-- The instances of "cart" are not found.
abbrev answered : String → Bool → Result (List (String × ServiceInstance))
answered name true = err "down"
answered name false = ok []

abbrev answers : LightAnswers
answers = record {
  get_instance_list = λ name. answered name (str_eq name "cart");
  alert_event_count = none;
}

abbrev latencies : Result (List (MetricResult Labels ℕ))
latencies = ok (result "shop" 5 ∷ result "cart" 3 ∷ [])

abbrev merged : MetricGroupMap ServiceKey (RygLightStatus ℕ)
merged = services_with_light naturals latencies (err "down") (ok (result "cart" 3 ∷ [])) (ok [])

abbrev in_order : List (ServiceKey × ℕ)
in_order = (service_of "cart", 1) ∷ (service_of "shop", 0) ∷ []

swapped : Permᴰ merged.metric_group_map in_order
unfolding services_with_light merge_metric_results service_key lookup put
    apo.Prometheus.Metrics.set_group apo.Prometheus.Metrics.add_group
swapped = Permᴰ.swap refl refl

service_list-has_example :
    (list : List (String × RygResult)) × ((service_list whole answers merged.groups in_order
        ≡ some list)
      × (has "cart" list ≡ false))
unfolding service_key
service_list-has_example =
    service_list-has naturals whole answers latencies (err "down") (ok (result "cart" 3 ∷ []))
      (ok []) (service_of "cart") in_order swapped
