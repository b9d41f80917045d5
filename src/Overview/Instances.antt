-- ===== src/Overview/Instances.antt =====
-- service_instance.go of model: the map of the instances of a service by their ids, for pods,
-- containers and the processes of a machine.
pub mod Ids
pub mod Added
pub mod IdMap
pub mod Tests
use apo.Common.{
  ℕ, String, Bool, true, false, not, ◌&&◌, ◌||◌, ◌≡◌, refl, Option, none, some, List, [], ◌∷◌, ◌==◌,
  ltb, if◌then◌else◌, Dict, lookup, put, remove, has, show, string_eq, ◌#◌, map,
}
use text.Mathlib.Text.{◌==◌ as str_eq}
use apo.Overview.Alerts.{ServiceInstance}

unfoldable pub get_pod_instance_id : ServiceInstance → String
get_pod_instance_id i = i.pod_name

unfoldable pub get_container_instance_id : ServiceInstance → String
get_container_instance_id i = i.service_name # ("@" # (i.node_name # ("@" # i.container_id)))

unfoldable pub get_vm_instance_id : ServiceInstance → String
unfolding show
get_vm_instance_id i = i.service_name # ("@" # (i.node_name # ("@" # show i.pid)))

unfoldable pub get_instance_id : ServiceInstance → String
unfolding get_pod_instance_id get_container_instance_id get_vm_instance_id
get_instance_id i =
    if not (str_eq i.pod_name "")
    then get_pod_instance_id i
    else if not (str_eq i.container_id "")
    then get_container_instance_id i
    else get_vm_instance_id i

-- `InstanceMap`
abbrev pub ServiceInstances : Type 0
ServiceInstances = Dict String ServiceInstance

unfoldable pub put_under_all : ServiceInstance → ServiceInstances → ServiceInstances
unfolding put get_pod_instance_id get_container_instance_id get_vm_instance_id
put_under_all i m =
    put (get_vm_instance_id i) i
      (put (get_container_instance_id i) i (put (get_pod_instance_id i) i m))

-- Of an instance with a pod, from the instance that the map has under the name of the pod.
unfoldable pub add_pod :
    Option ServiceInstance → ServiceInstance → ServiceInstances → ServiceInstances
unfolding put_under_all remove get_vm_instance_id
add_pod none i m = put_under_all i m
add_pod (some exist_instance) i m =
    if i.pid == 1
    then m
    else put_under_all i
        (if exist_instance.pid == 1 then remove (get_vm_instance_id exist_instance) m else m)

unfoldable pub put_absent : String → ServiceInstance → ServiceInstances → ServiceInstances
unfolding has put
put_absent instance_id i m = if has instance_id m then m else put instance_id i m

-- One pass of the loop of `AddInstances`.
unfoldable pub add_instance : ServiceInstance → ServiceInstances → ServiceInstances
unfolding lookup add_pod put_absent get_pod_instance_id get_container_instance_id get_vm_instance_id
add_instance i m =
    if not (str_eq i.pod_name "")
    then add_pod (lookup (get_pod_instance_id i) m) i m
    else if not (str_eq i.container_id "")
    then put_absent (get_container_instance_id i) i m
    else if i.pid == 1
    then m
    else put_absent (get_vm_instance_id i) i m

unfoldable pub add_instances : List ServiceInstance → ServiceInstances → ServiceInstances
unfolding add_instance
add_instances [] m = m
add_instances (i ∷ is) m = add_instances is (add_instance i m)

-- The names of the pods, from the entries in the order of the iteration.
unfoldable pub get_pod_instances : List (String × ServiceInstance) → List String
get_pod_instances [] = []
get_pod_instances ((instance_id, i) ∷ entries) =
    let rest = get_pod_instances entries in
    if not (str_eq i.pod_name "") && str_eq instance_id i.pod_name then i.pod_name ∷ rest else rest

unfoldable pub put_better : String → ServiceInstance → ServiceInstances → ServiceInstances
unfolding has put
put_better instance_id i m =
    if not (has instance_id m) || ltb 1 i.pid then put instance_id i m else m

-- One pass of the loop of `GetInstanceIdMap`.
unfoldable pub id_step : ServiceInstance → ServiceInstances → ServiceInstances
unfolding put_better put get_pod_instance_id get_container_instance_id get_vm_instance_id
id_step i m =
    if not (str_eq i.pod_name "")
    then put_better (get_pod_instance_id i) i m
    else if not (str_eq i.container_id "")
    then put_better (get_container_instance_id i) i m
    else put (get_vm_instance_id i) i m

unfoldable pub id_loop : List (String × ServiceInstance) → ServiceInstances → ServiceInstances
unfolding id_step
id_loop [] m = m
id_loop ((instance_id, i) ∷ entries) m = id_loop entries (id_step i m)

-- From the entries of the map in the order of the iteration.
unfoldable pub get_instance_id_map : List (String × ServiceInstance) → ServiceInstances
unfolding id_loop
get_instance_id_map entries = id_loop entries []

unfoldable pub get_instances : List (String × ServiceInstance) → List ServiceInstance
unfolding get_instance_id_map
get_instances entries = map (λ e. e.1) (get_instance_id_map entries)
