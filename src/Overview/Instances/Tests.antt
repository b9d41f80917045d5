-- ===== src/Overview/Instances/Tests.antt =====
-- Two processes of one container, and a process of a machine.
use mathlib.Core.List.{Permᴰ}
use apo.Common.{
  sym, subst, String, ℕ, ◌≡◌, refl, List, [], ◌∷◌, true, arith, string_eq, lookup, has, any, some,
}
use apo.Overview.Alerts.{ServiceInstance}
use apo.Overview.Instances.{
  add_instances, get_instance_id_map, get_pod_instances, get_instance_id, get_instances,
}
use apo.Overview.Instances.Added.{has_worker}
use apo.Overview.Instances.IdMap.{
  get_instance_id_map-add_instances, get_instance_id_map_lem, has_id,
}
use apo.Overview.Instances.Ids.{ats}

abbrev process : String → ℕ → ServiceInstance
process pod pid = record {
  service_name = "shop";
  container_id = "";
  pod_name = pod;
  namespace = "prod";
  node_name = "n1";
  pid = pid;
  node_ip = "10.0.0.1";
}

abbrev started : List ServiceInstance
started = process "shop-1" 1 ∷ process "shop-1" 7 ∷ process "" 1 ∷ process "shop-1" 1 ∷ []

abbrev entries : List (String × ServiceInstance)
entries =
    ("shop-1", process "shop-1" 7)
    ∷ ("shop@n1@7", process "shop-1" 7)
    ∷ ("shop@n1@", process "shop-1" 7)
    ∷ []

abbrev as_added : List (String × ServiceInstance)
as_added =
    ("shop-1", process "shop-1" 7)
    ∷ ("shop@n1@", process "shop-1" 7)
    ∷ ("shop@n1@7", process "shop-1" 7)
    ∷ []

added : add_instances started [] ≡ as_added
unfolding add_instances
added = refl

swapped : Permᴰ (add_instances started []) entries
swapped = subst (λ m. Permᴰ m entries) (sym added) (Permᴰ.cons refl (Permᴰ.swap refl refl))

no_ats : ats "shop-1" ≡ 0
unfolding ats
no_ats = refl

pods : get_pod_instances entries ≡ "shop-1" ∷ []
unfolding get_pod_instances
pods = refl

all_instances : get_instances entries ≡ process "shop-1" 7 ∷ []
unfolding get_instances
all_instances = refl

get_instance_id_map-add_instances_example : has_worker "shop-1" (get_instance_id_map entries) ≡ true
get_instance_id_map-add_instances_example =
    get_instance_id_map-add_instances "shop-1" started entries no_ats refl
      (omega arith, (omega arith, (omega arith, (omega arith, tt)))) swapped refl

get_instance_id_map_lem_example :
    (has "shop-1" (get_instance_id_map entries) ≡ any (has_id "shop-1") entries)
    × ((r : ServiceInstance)
        → lookup "shop-1" (get_instance_id_map entries) ≡ some r
        → get_instance_id r ≡ "shop-1")
get_instance_id_map_lem_example = get_instance_id_map_lem entries "shop-1"
