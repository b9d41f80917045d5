-- ===== src/Overview/Alerts.antt =====
-- alert_status.go, `MatchSvcTags` of service_instance.go, `GetAlertType` of dao_alert_events.go,
-- and `GroupAlertEventCountListByInstance` of service_ryg_light.go.
pub mod Counts
pub mod Reasons
pub mod Tests
use apo.Common.{
  ℕ, zero, suc, ◌+◌, ◌%◌, String, Bool, true, false, not, ◌&&◌, ◌||◌, ◌≡◌, refl, Option, none, some,
  List, [], ◌∷◌, ◌++◌, arith, any, ◌==◌, ltb, if◌then◌else◌, Dict, lookup, put, show, u64_mod,
  string_eq, nat_eq,
}
use text.Mathlib.Text.{◌==◌ as str_eq}

-- SeverityLevel, a uint8
abbrev pub severity_warning : ℕ
severity_warning = 2

abbrev pub severity_error : ℕ
severity_error = 3

abbrev pub severity_critical : ℕ
severity_critical = 4

pub record AlertStatus : Type 0 where
  pub infrastructure_status : String
  pub net_status : String
  pub k8s_status : String
  pub app_status : String
  pub container_status : String
  pub log_metrics_status : String

abbrev pub status_normal : String
status_normal = "normal"

-- Of the status from Clickhouse, and of the status from Prometheus after it.
unfoldable pub is_all_normal : AlertStatus → Bool
is_all_normal s =
    (str_eq s.infrastructure_status status_normal
      && (str_eq s.net_status status_normal
          && (str_eq s.k8s_status status_normal
              && (str_eq s.app_status status_normal && str_eq s.container_status status_normal))))
    && str_eq s.log_metrics_status status_normal

pub record AlertDetail : Type 0 where
  pub timestamp : ℕ
  pub alert_object : String
  pub alert_reason : String
  pub alert_message : String

abbrev pub AlertReason : Type 0
AlertReason = Dict String (List AlertDetail)

abbrev pub appended : Option (List AlertDetail) → AlertDetail → List AlertDetail
appended none detail = detail ∷ []
appended (some details) detail = details ++ detail ∷ []

-- `none` is the nil map.
unfoldable pub add_reason : Option AlertReason → String → AlertDetail → Option AlertReason
unfolding lookup put
add_reason none key detail = none
add_reason (some r) key detail =
    some (if str_eq key "" then r else put key (appended (lookup key r) detail) r)

abbrev pub AlertEventLevelCount : Type 0
AlertEventLevelCount = Dict ℕ ℕ

abbrev pub AlertEventLevelCountMap : Type 0
AlertEventLevelCountMap = Dict String AlertEventLevelCount

abbrev pub level_count : Option ℕ → ℕ → ℕ
level_count none event_count = event_count
level_count (some count) event_count = (count + event_count) % u64_mod

unfoldable pub level_counts : Option AlertEventLevelCount → ℕ → ℕ → AlertEventLevelCount
unfolding lookup put
level_counts none level event_count = put level event_count []
level_counts (some counts) level event_count =
    put level (level_count (lookup level counts) event_count) counts

unfoldable pub add_count : AlertEventLevelCountMap → String → ℕ → ℕ → AlertEventLevelCountMap
unfolding lookup put level_counts
add_count m key level event_count = put key (level_counts (lookup key m) level event_count) m

-- A pid that is not positive is 0 here.
pub record ServiceInstance : Type 0 where
  pub service_name : String
  pub container_id : String
  pub pod_name : String
  pub namespace : String
  pub node_name : String
  pub pid : ℕ
  pub node_ip : String

abbrev pub is_tag : Option String → String → Bool
is_tag none value = false
is_tag (some tag) value = str_eq value tag

-- `tags[key]`, which is "" for a key that is missing.
abbrev pub tag_or_empty : Option String → String
tag_or_empty none = ""
tag_or_empty (some tag) = tag

unfoldable pub match_svc_tags : ServiceInstance → String → Dict String String → Bool
unfolding lookup show
match_svc_tags i group tags =
    if str_eq group "app"
    then (not (str_eq i.service_name "")
        && str_eq i.service_name (tag_or_empty (lookup "svc_name" tags)))
    else if str_eq group "container"
    then (not (str_eq i.pod_name "")
        && (is_tag (lookup "pod" tags) i.pod_name && is_tag (lookup "namespace" tags) i.namespace))
    else if str_eq group "network"
    then (if not (str_eq i.pod_name "")
        then (is_tag (lookup "src_pod" tags) i.pod_name
            && is_tag (lookup "src_namespace" tags) i.namespace)
        else (ltb 0 i.pid
            && (is_tag (lookup "pid" tags) (show i.pid)
                && is_tag (lookup "src_node" tags) i.node_name)))
    else if str_eq group "infra"
    then (not (str_eq i.node_name "") && is_tag (lookup "instance_name" tags) i.node_name)
    else false

unfoldable pub get_alert_type : String → String
get_alert_type group =
    if str_eq group "infra"
    then "infrastructureStatus"
    else if str_eq group "network"
    then "netStatus"
    else if str_eq group "app"
    then "appStatus"
    else if str_eq group "container"
    then "containerStaus"
    else "undefinedAlert"

pub record AlertEventCount : Type 0 where
  pub severity : ℕ
  pub group : String
  pub tags : Dict String String
  pub rn : ℕ
  pub alarm_count : ℕ

unfoldable pub matches_one : List ServiceInstance → AlertEventCount → Bool
unfolding match_svc_tags
matches_one instances event = any (λ i. match_svc_tags i event.group event.tags) instances

-- The loops, from the map `res`.
unfoldable pub group_events :
    AlertEventLevelCountMap → List AlertEventCount → List ServiceInstance → AlertEventLevelCountMap
unfolding add_count matches_one get_alert_type
group_events res [] instances = res
group_events res (event ∷ events) instances =
    group_events
      (if matches_one instances event
        then add_count res (get_alert_type event.group) event.severity event.alarm_count
        else res)
      events instances

unfoldable pub group_alert_event_count_list_by_instance :
    List AlertEventCount → List ServiceInstance → AlertEventLevelCountMap
unfolding group_events
group_alert_event_count_list_by_instance events instances = group_events [] events instances
