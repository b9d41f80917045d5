-- ===== src/Prometheus/Metrics/Tests.antt =====
-- Groups of two services, from a few results.
use apo.Common.{
  put, lookup, String, ℕ, ◌*◌, ◌/◌, ◌-◌, ◌≡◌, refl, List, [], ◌∷◌, false, some, string_eq, ◌==◌,
  show,
}
use apo.Prometheus.Metrics.{
  add_group, set_group, MetricGroup, MetricResult, merge_metric_results, avg, latency,
}
use apo.Prometheus.Metrics.Keys.{Labels, extract, service_key, InstanceKey}
use apo.Prometheus.Metrics.Red.{
  RedFloats, RedMetrics, set_value, append_group_if_not_exist, no_metrics,
}
use apo.Prometheus.Metrics.Refines.{merge_metric_results-state_of, state_of, entered_results}

-- Numbers below 9999999, which stands for the infinities.
abbrev pub naturals : RedFloats ℕ
naturals = record {
  is_inf = λ v. v == 9999999;
  is_minus_inf = λ v. false;
  res_max_value = 9999999;
  minus_res_max_value = 0;
  minus_one = λ v. v - 1;
  by_1e3 = λ v. v / 1000;
  times_100 = λ v. v * 100;
  times_60 = λ v. v * 60;
}

abbrev pub no_labels : Labels
no_labels = record {
  container_id = "";
  content_key = "";
  instance_label = "";
  is_error = "";
  job = "";
  node_name = "";
  pod = "";
  svc_name = "";
  top_span = "";
  pid = "";
  pod_name = "";
  namespace = "";
  node_ip = "";
  db_system = "";
  db_name = "";
  name = "";
  db_url = "";
  monitor_name = "";
}

-- The groups of services by their names.
abbrev services : MetricGroup Labels String (RedMetrics ℕ) ℕ
services = record {
  convert_from_labels = λ l. some ((service_key l).svc_name);
  init_empty_group = λ key. some no_metrics;
  append_group_if_not_exist = append_group_if_not_exist;
  set_value = set_value naturals;
}

abbrev pub result : String → ℕ → MetricResult Labels ℕ
result svc_name value = record {
  metric = record no_labels { svc_name = svc_name };
  values = record { time_stamp = 1; value = value } ∷ [];
}

abbrev results : List (MetricResult Labels ℕ)
results =
    result "shop" 5000
    ∷ result "cart" 7000
    ∷ record { metric = record no_labels { svc_name = "idle" }; values = [] }
    ∷ []

-- The label `pod` and the label `pod_name` are written to one field, so that the order in which
-- they come decides.
one_order : (extract (("pod", "a") ∷ ("pod_name", "b") ∷ []) no_labels).pod ≡ "b"
unfolding extract
one_order = refl

other_order : (extract (("pod_name", "b") ∷ ("pod", "a") ∷ []) no_labels).pod ≡ "a"
unfolding extract
other_order = refl

merged :
    (merge_metric_results services avg latency results (state_of [])).metric_group_map
    ≡ ("shop", 0) ∷ ("cart", 1) ∷ []
unfolding merge_metric_results set_group add_group lookup put service_key append_group_if_not_exist
merged = refl

merge_metric_results-state_of_example :
    merge_metric_results services avg latency results (state_of [])
    ≡ state_of (entered_results services avg latency results [])
merge_metric_results-state_of_example =
    merge_metric_results-state_of services avg latency results []

abbrev process : InstanceKey
process = record {
  service_name = "shop";
  pid = "7";
  container_id = "";
  pod = "";
  namespace = "";
  node_name = "n1";
  node_ip = "";
}

seven : process.pid ≡ show 7
unfolding show
seven = refl
