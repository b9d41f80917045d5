-- ===== src/Overview/Instances/IdMap.antt =====
-- `GetInstanceIdMap` of service_instance.go, on the entries of a map in any order.
use mathlib.Core.List.{Permᴰ}
use text.Mathlib.Text.{◌==◌ as str_eq}
use apo.Common.{
  ◌∙◌, sym, ap, has-put, ◌≡◌, refl, Bool, true, false, not, ◌||◌, arith, ltb, eq_iff, inl, inr,
  List, [], ◌∷◌, some, lookup, put, has, any, All, lookup-put, Bool-cases, String, string_eq,
  any-Perm, absent_lookup,
}
use apo.Overview.Alerts.{ServiceInstance}
use apo.Overview.Instances.{
  get_container_instance_id, get_vm_instance_id, get_pod_instance_id, get_instance_id,
  add_instances, ServiceInstances, put_better, id_step, id_loop, get_instance_id_map,
}
use apo.Overview.Instances.Added.{
  is_worker, has_worker, is_found, put-has_worker, no_pod, absent-has_worker, IsNumbered,
  add_instances-has_worker,
}
use apo.Overview.Instances.Ids.{ats, container_id-neq_pod, vm_id-neq_pod}

put_better-other :
    (p k : String) (i : ServiceInstance) (m : ServiceInstances)
    → str_eq k p ≡ false
    → has_worker p (put_better k i m) ≡ has_worker p m
unfolding put_better
put_better-other p k i m h = ground (arith, put-has_worker p k i m)

-- An entry that is there has a process, and one that is not has none.
put_better-pod :
    (p : String) (i : ServiceInstance) (m : ServiceInstances)
    → str_eq i.pod_name p ≡ true
    → has_worker p (put_better i.pod_name i m) ≡ (ltb 1 i.pid || has_worker p m)
unfolding put_better
put_better-pod p i m t = elim (Bool-cases (ltb 1 i.pid)) [
  | inl w ↦ rw w (ground (arith, put-has_worker p i.pod_name i m))
  | inr w ↦ elim (Bool-cases (has i.pod_name m)) [
    | inl e ↦ rw (w, e) refl
    | inr e ↦
        rw (w, e)
          (ground (
            arith,
            put-has_worker p i.pod_name i m,
            absent-has_worker p m (
                ap (λ k. lookup k m) (sym ((eq_iff i.pod_name p).0 t))
                ∙ absent_lookup i.pod_name m e),
          ))
  ]
]

id_step-has_worker :
    (p : String) (i : ServiceInstance) (m : ServiceInstances)
    → ats p ≡ 0
    → str_eq p "" ≡ false
    → has_worker p (id_step i m) ≡ (is_worker p i || has_worker p m)
unfolding id_step get_pod_instance_id
id_step-has_worker p i m h n = elim (Bool-cases (str_eq i.pod_name "")) [
  | inl e ↦ rw e (
      ground (
        arith,
        no_pod i.pod_name p e n,
        put_better-other p (get_container_instance_id i) i m (container_id-neq_pod i p h),
        put-has_worker p (get_vm_instance_id i) i m,
        vm_id-neq_pod i p h,
      ))
  | inr e ↦ rw e (elim (Bool-cases (str_eq i.pod_name p)) [
    | inl t ↦ ground (arith, put_better-pod p i m t)
    | inr t ↦ ground (arith, put_better-other p i.pod_name i m t)
  ])
]

-- An entry that `GetInstanceIdMap` must not lose.
abbrev pub entry_worker : String → String × ServiceInstance → Bool
entry_worker p e = is_worker p e.1

id_loop-has_worker :
    (p : String) (entries : List (String × ServiceInstance)) (m : ServiceInstances)
    → ats p ≡ 0
    → str_eq p "" ≡ false
    → has_worker p (id_loop entries m) ≡ (any (entry_worker p) entries || has_worker p m)
unfolding id_loop
id_loop-has_worker p [] m h n = refl
id_loop-has_worker p ((k, i) ∷ entries) m h n =
    ground (arith, id_loop-has_worker p entries (id_step i m) h n, id_step-has_worker p i m h n)

any-has_worker :
    (p : String) (m : ServiceInstances) → has_worker p m ≡ true → any (entry_worker p) m ≡ true
unfolding has_worker is_found lookup
any-has_worker p [] t = t
any-has_worker p ((k, i) ∷ m) t = elim (Bool-cases (str_eq k p)) [
  | inl e ↦ ground arith
  | inr e ↦ ground (arith, any-has_worker p m)
]

-- After `AddInstances` of instances whose processes are numbered from 1, to an empty map, the entry
-- that `GetInstanceIdMap` has for a pod is an instance of the pod that is not its first process,
-- if there is one among them; in every order in which the entries are iterated over.
pub get_instance_id_map-add_instances :
    (p : String) (is : List ServiceInstance) (entries : List (String × ServiceInstance))
    → ats p ≡ 0
    → str_eq p "" ≡ false
    → All IsNumbered is
    → Permᴰ (add_instances is []) entries
    → any (is_worker p) is ≡ true
    → has_worker p (get_instance_id_map entries) ≡ true
unfolding get_instance_id_map
get_instance_id_map-add_instances p is entries h n a order t = ground (
  arith,
  id_loop-has_worker p entries [] h n,
  any-Perm (entry_worker p) order,
  any-has_worker p (add_instances is []),
  add_instances-has_worker p is [] h n a,
)

-- An entry with the id `x`.
abbrev pub has_id : String → String × ServiceInstance → Bool
has_id x e = str_eq (get_instance_id e.1) x

put_better-has :
    (x k : String) (i : ServiceInstance) (m : ServiceInstances)
    → has x (put_better k i m) ≡ (str_eq k x || has x m)
unfolding put_better
put_better-has x k i m = elim (Bool-cases (str_eq k x)) [
  | inl e ↦ ground (arith, has-put k x i m, ap (λ j. has j m) ((eq_iff k x).0 e))
  | inr e ↦ ground (arith, has-put k x i m)
]

id_step-has :
    (x : String) (i : ServiceInstance) (m : ServiceInstances)
    → has x (id_step i m) ≡ (str_eq (get_instance_id i) x || has x m)
unfolding id_step get_instance_id
id_step-has x i m = ground (
  arith,
  put_better-has x (get_pod_instance_id i) i m,
  put_better-has x (get_container_instance_id i) i m,
  has-put (get_vm_instance_id i) x i m,
)

id_loop-has :
    (x : String) (entries : List (String × ServiceInstance)) (m : ServiceInstances)
    → has x (id_loop entries m) ≡ (any (has_id x) entries || has x m)
unfolding id_loop
id_loop-has x [] m = refl
id_loop-has x ((k, i) ∷ entries) m =
    ground (arith, id_loop-has x entries (id_step i m), id_step-has x i m)

-- Each entry has an instance with the id that is its key.
abbrev IsNamed : ServiceInstances → Type 0
IsNamed m = (x : String) (r : ServiceInstance) → lookup x m ≡ some r → get_instance_id r ≡ x

put-IsNamed :
    (k : String) (i : ServiceInstance) (m : ServiceInstances)
    → get_instance_id i ≡ k
    → IsNamed m
    → IsNamed (put k i m)
put-IsNamed k i m g named x r e = elim (Bool-cases (str_eq k x)) [
  | inl t ↦ ground (arith, lookup-put k x i m, (eq_iff k x).0 t)
  | inr t ↦ named x r (ground (arith, lookup-put k x i m))
]

put_better-IsNamed :
    (k : String) (i : ServiceInstance) (m : ServiceInstances)
    → get_instance_id i ≡ k
    → IsNamed m
    → IsNamed (put_better k i m)
unfolding put_better
put_better-IsNamed k i m g named = elim (Bool-cases (not (has k m) || ltb 1 i.pid)) [
  | inl t ↦ rw t (put-IsNamed k i m g named)
  | inr t ↦ rw t named
]

get_instance_id-pod :
    (i : ServiceInstance) → str_eq i.pod_name "" ≡ false → get_instance_id i ≡ get_pod_instance_id i
unfolding get_instance_id
get_instance_id-pod i e = rw e refl

get_instance_id-container :
    (i : ServiceInstance)
    → str_eq i.pod_name "" ≡ true
    → str_eq i.container_id "" ≡ false
    → get_instance_id i ≡ get_container_instance_id i
unfolding get_instance_id
get_instance_id-container i e t = rw (e, t) refl

get_instance_id-vm :
    (i : ServiceInstance)
    → str_eq i.pod_name "" ≡ true
    → str_eq i.container_id "" ≡ true
    → get_instance_id i ≡ get_vm_instance_id i
unfolding get_instance_id
get_instance_id-vm i e t = rw (e, t) refl

no_entry : IsNamed []
unfolding lookup
no_entry x r e = ground arith

id_step-IsNamed : (i : ServiceInstance) (m : ServiceInstances) → IsNamed m → IsNamed (id_step i m)
unfolding id_step
id_step-IsNamed i m named = elim (Bool-cases (str_eq i.pod_name "")) [
  | inr e ↦ rw e (put_better-IsNamed (get_pod_instance_id i) i m (get_instance_id-pod i e) named)
  | inl e ↦ rw e (elim (Bool-cases (str_eq i.container_id "")) [
    | inr t ↦ rw t (
        put_better-IsNamed (get_container_instance_id i) i m (get_instance_id-container i e t)
          named)
    | inl t ↦ rw t (put-IsNamed (get_vm_instance_id i) i m (get_instance_id-vm i e t) named)
  ])
]

id_loop-IsNamed :
    (entries : List (String × ServiceInstance)) (m : ServiceInstances)
    → IsNamed m
    → IsNamed (id_loop entries m)
unfolding id_loop
id_loop-IsNamed [] m named = named
id_loop-IsNamed ((k, i) ∷ entries) m named =
    id_loop-IsNamed entries (id_step i m) (id_step-IsNamed i m named)

-- For any entries in any order, `GetInstanceIdMap` has the ids of their instances as its keys, and
-- under each of them an instance with that id.
pub get_instance_id_map_lem :
    (entries : List (String × ServiceInstance)) (x : String)
    → (has x (get_instance_id_map entries) ≡ any (has_id x) entries)
      × ((r : ServiceInstance)
          → lookup x (get_instance_id_map entries) ≡ some r
          → get_instance_id r ≡ x)
unfolding get_instance_id_map
get_instance_id_map_lem entries x =
    (ground (arith, id_loop-has x entries []), id_loop-IsNamed entries [] no_entry x)
