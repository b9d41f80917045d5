-- ===== src/Overview/RygLight/Services/Response.antt =====
-- The end of `GetServicesRYGLightStatus` of service_ryg_light.go: the light of each service, from
-- its instances and its alerts. What Prometheus and Clickhouse answer is a parameter; a map that is
-- iterated over is the list of its entries in the order of the iteration.
use apo.Common.{ℕ, String, Option, none, some, List, [], ◌∷◌, get_elem?, Result, ok, err}
use apo.Overview.Alerts.{AlertEventCount, ServiceInstance, group_alert_event_count_list_by_instance}
use apo.Overview.Instances.{get_instances}
use apo.Overview.RygLight.{RygLightStatus, RygResult, Float64, expose_ryg_light_status}
use apo.Prometheus.Metrics.Keys.{ServiceKey}

-- What the two stores answer: the instances of a service, as the entries of their map, and the
-- alerts, `none` for nil.
pub record LightAnswers : Type 0 where
  pub get_instance_list : String → Result (List (String × ServiceInstance))
  pub alert_event_count : Option (List AlertEventCount)

module _ {F : Type 0} where
  abbrev pub with_alerts : Option (List AlertEventCount) → RygLightStatus F → RygLightStatus F
  with_alerts none s = s
  with_alerts (some events) s = record s {
    alert_event_level_count_map = group_alert_event_count_list_by_instance events s.instances;
  }

  abbrev pub with_instances :
      Option (List AlertEventCount) → List ServiceInstance → RygLightStatus F → RygLightStatus F
  with_instances events instances s = with_alerts events (record s { instances = instances })

module _ {F : Type 0} (float : Float64 F) where
  -- `none` is the panic of `ExposeRYGLightStatus`.
  abbrev pub respond :
      String
      → Option RygResult
      → Option (List (String × RygResult))
      → Option (List (String × RygResult))
  respond name none rest = none
  respond name (some res) none = none
  respond name (some res) (some rest) = some ((name, res) ∷ rest)

  -- One pass of the loop, before the rest of it: a service whose instances are not found is skipped.
  abbrev pub respond_if :
      Option (List AlertEventCount)
      → String
      → Result (List (String × ServiceInstance))
      → Option (RygLightStatus F)
      → Option (List (String × RygResult))
      → Option (List (String × RygResult))
  respond_if events name (err e) status rest = rest
  respond_if events name (ok entries) none rest = none
  respond_if events name (ok entries) (some s) rest =
      respond name (expose_ryg_light_status float (with_instances events (get_instances entries) s))
        rest

  -- From the entries of the map, whose pointers lead to the groups.
  unfoldable pub service_list :
      LightAnswers
      → List (RygLightStatus F)
      → List (ServiceKey × ℕ)
      → Option (List (String × RygResult))
  unfolding expose_ryg_light_status get_instances group_alert_event_count_list_by_instance
  service_list answers groups [] = some []
  service_list answers groups ((key, pointer) ∷ entries) =
      respond_if answers.alert_event_count key.svc_name (answers.get_instance_list key.svc_name)
        (get_elem? groups pointer) (service_list answers groups entries)
