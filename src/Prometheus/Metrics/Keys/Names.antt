-- ===== src/Prometheus/Metrics/Keys/Names.antt =====
-- The name of an instance from the labels of a metric, against the id of the instance itself.
use apo.Common.{ℕ, ◌≡◌, refl, false, show, Bool-cases, inl, inr}
use text.Mathlib.Text.{◌==◌ as str_eq}
use apo.Overview.Alerts.{ServiceInstance}
use apo.Overview.Instances.{
  get_instance_id, get_pod_instance_id, get_container_instance_id, get_vm_instance_id,
}
use apo.Prometheus.Metrics.Keys.{InstanceKey, gen_instance_name}

-- The instance that has the labels of a key, and a process number.
abbrev pub instance_of : InstanceKey → ℕ → ServiceInstance
instance_of k pid = record {
  service_name = k.service_name;
  container_id = k.container_id;
  pod_name = k.pod;
  namespace = k.namespace;
  node_name = k.node_name;
  pid = pid;
  node_ip = k.node_ip;
}

-- For a key with a process label, in decimal, `GenInstanceName` is the id that `GetInstanceId`
-- has for the instance with the same values, whether it is a pod, a container or a process.
pub gen_instance_name-get_instance_id :
    (k : InstanceKey) (pid : ℕ)
    → k.pid ≡ show pid
    → str_eq k.pid "" ≡ false
    → gen_instance_name k ≡ get_instance_id (instance_of k pid)
unfolding gen_instance_name get_instance_id get_pod_instance_id get_container_instance_id
    get_vm_instance_id
gen_instance_name-get_instance_id k pid h n = elim (Bool-cases (str_eq k.pod "")) [
  | inr a ↦ rw a refl
  | inl a ↦ elim (Bool-cases (str_eq k.container_id "")) [
    | inr b ↦ rw (a, b) refl
    | inl b ↦ rw (a, b, n, h) refl
  ]
]
