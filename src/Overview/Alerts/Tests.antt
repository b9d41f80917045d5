-- ===== src/Overview/Alerts/Tests.antt =====
-- Counts of a few alerts.
use apo.Common.{String, ℕ, ◌%◌, ◌≡◌, refl, List, [], ◌∷◌, u64_mod, arith}
use apo.Overview.Alerts.{
  AlertDetail, group_alert_event_count_list_by_instance, AlertEventCount, ServiceInstance,
}
use apo.Overview.Alerts.Counts.{
  group_alert_event_count_list_by_instance-total_of, total_of, count_of,
}

abbrev shop : ServiceInstance
shop = record {
  service_name = "shop";
  container_id = "c1";
  pod_name = "shop-1";
  namespace = "prod";
  node_name = "n1";
  pid = 1;
  node_ip = "10.0.0.1";
}

abbrev shop_alert : ℕ → ℕ → AlertEventCount
shop_alert severity alarm_count = record {
  severity = severity;
  group = "app";
  tags = ("svc_name", "shop") ∷ [];
  rn = 1;
  alarm_count = alarm_count;
}

abbrev other_alert : AlertEventCount
other_alert = record {
  severity = 4;
  group = "container";
  tags = ("pod", "cart-1") ∷ ("namespace", "prod") ∷ [];
  rn = 1;
  alarm_count = 9;
}

abbrev events : List AlertEventCount
events = shop_alert 2 5 ∷ other_alert ∷ shop_alert 2 7 ∷ []

grouped :
    group_alert_event_count_list_by_instance events (shop ∷ []) ≡ ("appStatus", (2, 12) ∷ []) ∷ []
unfolding group_alert_event_count_list_by_instance
grouped = refl

group_alert_event_count_list_by_instance-total_of_example :
    count_of (group_alert_event_count_list_by_instance events (shop ∷ [])) "appStatus" 2
    ≡ total_of events (shop ∷ []) "appStatus" 2 % u64_mod
group_alert_event_count_list_by_instance-total_of_example =
    group_alert_event_count_list_by_instance-total_of events (shop ∷ []) "appStatus" 2
      (omega arith, (omega arith, (omega arith, tt)))

abbrev detail : String → AlertDetail
detail message = record {
  timestamp = 1;
  alert_object = "shop-1";
  alert_reason = "cpu";
  alert_message = message;
}
