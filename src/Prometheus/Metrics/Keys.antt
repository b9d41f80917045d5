-- ===== src/Prometheus/Metrics/Keys.antt =====
-- metric_keys.go, and `Labels` of dao.go: the keys that the labels of a result give.
pub mod Names
use text.Mathlib.Text.{◌==◌ as str_eq}
use apo.Common.{
  ◌||◌, ℕ, ◌≡◌, refl, Bool, true, false, not, String, List, [], ◌∷◌, if◌then◌else◌, Dict, show, ◌#◌,
  Bool-cases, inl, inr,
}
use apo.Overview.Alerts.{ServiceInstance}
use apo.Overview.Instances.{
  get_instance_id, get_pod_instance_id, get_container_instance_id, get_vm_instance_id,
}

pub record Labels : Type 0 where
  pub container_id : String
  pub content_key : String
  pub instance_label : String
  pub is_error : String
  pub job : String
  pub node_name : String
  pub pod : String
  pub svc_name : String
  pub top_span : String
  pub pid : String
  pub pod_name : String
  pub namespace : String
  pub node_ip : String
  pub db_system : String
  pub db_name : String
  pub name : String
  pub db_url : String
  pub monitor_name : String

-- One label of a metric.
unfoldable pub extract_one : String → String → Labels → Labels
extract_one name value l =
    if str_eq name "container_id"
    then record l { container_id = value }
    else if str_eq name "content_key"
    then record l { content_key = value }
    else if str_eq name "instance"
    then record l { instance_label = value }
    else if str_eq name "is_error"
    then record l { is_error = value }
    else if str_eq name "job"
    then record l { job = value }
    else if str_eq name "node_name"
    then record l { node_name = value }
    else if str_eq name "pod"
    then record l { pod = value }
    else if str_eq name "svc_name"
    then record l { svc_name = value }
    else if str_eq name "top_span"
    then record l { top_span = value }
    else if str_eq name "pid"
    then record l { pid = value }
    else if str_eq name "namespace"
    then record l { namespace = value }
    else if str_eq name "db_system"
    then record l { db_system = value }
    else if str_eq name "db_name"
    then record l { db_name = value }
    else if str_eq name "name"
    then record l { name = value }
    else if str_eq name "db_url"
    then record l { db_url = value }
    else if str_eq name "monitor_name"
    then record l { monitor_name = value }
    else if str_eq name "node_ip" || str_eq name "host_ip"
    then record l { node_ip = value }
    else if str_eq name "host_name"
    then record l { node_name = value }
    else if str_eq name "pod_name"
    then record l { pod = value }
    else l

-- `Labels.Extract`, from the labels of a metric in the order of the iteration.
unfoldable pub extract : Dict String String → Labels → Labels
unfolding extract_one
extract [] l = l
extract ((name, value) ∷ metric) l = extract metric (extract_one name value l)

pub record EndpointKey : Type 0 where
  pub content_key : String
  pub svc_name : String

pub record InstanceKey : Type 0 where
  pub service_name : String
  pub pid : String
  pub container_id : String
  pub pod : String
  pub namespace : String
  pub node_name : String
  pub node_ip : String

pub record SqlKey : Type 0 where
  pub service : String
  pub db_system : String
  pub db_name : String
  pub db_operation : String
  pub db_url : String

pub record ServiceKey : Type 0 where
  pub svc_name : String

unfoldable pub instance_key : Labels → InstanceKey
instance_key labels = record {
  service_name = labels.svc_name;
  pid = labels.pid;
  container_id = labels.container_id;
  pod = labels.pod;
  namespace = labels.namespace;
  node_name = labels.node_name;
  node_ip = labels.node_ip;
}

unfoldable pub endpoint_key : Labels → EndpointKey
endpoint_key labels = record { svc_name = labels.svc_name; content_key = labels.content_key }

unfoldable pub sql_key : Labels → SqlKey
sql_key labels = record {
  service = labels.svc_name;
  db_system = labels.db_system;
  db_name = labels.db_name;
  db_operation = labels.name;
  db_url = labels.db_url;
}

unfoldable pub service_key : Labels → ServiceKey
service_key labels = record { svc_name = labels.svc_name }

unfoldable pub gen_instance_name : InstanceKey → String
gen_instance_name i =
    if not (str_eq i.pod "")
    then i.pod
    else if not (str_eq i.container_id "")
    then i.service_name # ("@" # (i.node_name # ("@" # i.container_id)))
    else if not (str_eq i.pid "")
    then i.service_name # ("@" # (i.node_name # ("@" # i.pid)))
    else ""
