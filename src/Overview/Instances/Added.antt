-- ===== src/Overview/Instances/Added.antt =====
-- `AddInstances` of service_instance.go, and what the map has under the name of a pod.
use text.Mathlib.Text.{◌==◌ as str_eq}
use apo.Common.{
  ◌∙◌, eq_refl, sym, ap, ◌≤◌, ◌≡◌, refl, Bool, true, false, not, ◌&&◌, ◌||◌, arith, ◌==◌, ltb,
  eq_iff, inl, inr, if◌then◌else◌, List, [], ◌∷◌, Option, none, some, lookup, put, remove, any, All,
  lookup-put, lookup-remove, Bool-cases, String, string_eq,
}
use apo.Overview.Alerts.{ServiceInstance}
use apo.Overview.Instances.{
  get_container_instance_id, get_vm_instance_id, get_pod_instance_id, put_under_all, add_pod,
  put_absent, add_instance, add_instances, ServiceInstances,
}
use apo.Overview.Instances.Ids.{ats, container_id-neq_pod, vm_id-neq_pod}

-- An instance of the pod `p` that is not the first process.
abbrev pub is_worker : String → ServiceInstance → Bool
is_worker p i = str_eq i.pod_name p && ltb 1 i.pid

-- What a map has under the name of a pod.
unfoldable pub is_found : (ServiceInstance → Bool) → Option ServiceInstance → Bool
is_found q none = false
is_found q (some i) = q i

unfoldable pub has_worker : String → ServiceInstances → Bool
unfolding is_found lookup
has_worker p m = is_found (is_worker p) (lookup p m)

pub put-has_worker :
    (p k : String) (i : ServiceInstance) (m : ServiceInstances)
    → has_worker p (put k i m) ≡ (if str_eq k p then is_worker p i else has_worker p m)
unfolding has_worker is_found
put-has_worker p k i m = elim (Bool-cases (str_eq k p)) [
  | inl e ↦ rw (lookup-put k p i m) (rw e refl)
  | inr e ↦ rw (lookup-put k p i m) (rw e refl)
]

remove-has_worker :
    (p k : String) (m : ServiceInstances)
    → str_eq k p ≡ false
    → has_worker p (remove k m) ≡ has_worker p m
unfolding has_worker is_found
remove-has_worker p k m h = rw (lookup-remove k p m) (rw h refl)

put_under_all-has_worker :
    (p : String) (i : ServiceInstance) (m : ServiceInstances)
    → ats p ≡ 0
    → has_worker p (put_under_all i m)
      ≡ (if str_eq i.pod_name p then is_worker p i else has_worker p m)
unfolding put_under_all get_pod_instance_id
put_under_all-has_worker p i m h = cc (
  put-has_worker p (get_vm_instance_id i) i
      (put (get_container_instance_id i) i (put i.pod_name i m)),
  put-has_worker p (get_container_instance_id i) i (put i.pod_name i m),
  put-has_worker p i.pod_name i m,
  container_id-neq_pod i p h,
  vm_id-neq_pod i p h,
)

-- Processes are numbered from 1.
abbrev pub IsNumbered : ServiceInstance → Type 0
IsNumbered i = 1 ≤ i.pid

after_removal :
    (p : String) (b : Bool) (i exist : ServiceInstance) (m : ServiceInstances)
    → ats p ≡ 0
    → has_worker p (put_under_all i (if b then remove (get_vm_instance_id exist) m else m))
      ≡ (if str_eq i.pod_name p then is_worker p i else has_worker p m)
after_removal p false i exist m h = put_under_all-has_worker p i m h
after_removal p true i exist m h = cc (
  put_under_all-has_worker p i (remove (get_vm_instance_id exist) m) h,
  remove-has_worker p (get_vm_instance_id exist) m (vm_id-neq_pod exist p h),
)

later_process :
    (p : String) (i : ServiceInstance) (b : Bool)
    → 1 ≤ i.pid
    → (i.pid == 1) ≡ false
    → (if str_eq i.pod_name p then is_worker p i else b) ≡ (is_worker p i || b)
later_process p i b l t = elim (Bool-cases (str_eq i.pod_name p)) [
  | inl e ↦ rw e (ground arith)
  | inr e ↦ rw e refl
]

pub absent-has_worker :
    (p : String) (m : ServiceInstances) → lookup p m ≡ none → has_worker p m ≡ false
unfolding has_worker is_found
absent-has_worker p m e = rw e refl

-- What `add_pod` does to the entry of a pod `p`: an instance of the pod that is not the first
-- process takes its place, and the first process takes it of nothing or of nobody.
add_pod-has_worker :
    (p : String) (o : Option ServiceInstance) (i : ServiceInstance) (m : ServiceInstances)
    → ats p ≡ 0
    → 1 ≤ i.pid
    → (str_eq i.pod_name p ≡ true → lookup p m ≡ o)
    → has_worker p (add_pod o i m) ≡ (is_worker p i || has_worker p m)
unfolding add_pod
add_pod-has_worker p none i m h l e = elim (Bool-cases (str_eq i.pod_name p)) [
  | inl t ↦ ground (arith, put_under_all-has_worker p i m h, absent-has_worker p m (e t))
  | inr t ↦ ground (arith, put_under_all-has_worker p i m h)
]
add_pod-has_worker p (some exist) i m h l e = elim (Bool-cases (i.pid == 1)) [
  | inl t ↦ rw t (ground arith)
  | inr t ↦
      rw t (after_removal p (exist.pid == 1) i exist m h ∙ later_process p i (has_worker p m) l t)
]

put_absent-has_worker :
    (p k : String) (i : ServiceInstance) (m : ServiceInstances)
    → str_eq k p ≡ false
    → has_worker p (put_absent k i m) ≡ has_worker p m
unfolding put_absent
put_absent-has_worker p k i m h = ground (arith, put-has_worker p k i m)

pub no_pod : (s p : String) → str_eq s "" ≡ true → str_eq p "" ≡ false → str_eq s p ≡ false
no_pod s p e n = elim (Bool-cases (str_eq s p)) [
  | inl t ↦ ground (arith, n, (eq_iff s "").0 e, (eq_iff s p).0 t, eq_refl "")
  | inr t ↦ t
]

add_other-has_worker :
    (p : String) (i : ServiceInstance) (m : ServiceInstances)
    → ats p ≡ 0
    → has_worker p (
        if not (str_eq i.container_id "")
        then put_absent (get_container_instance_id i) i m
        else if i.pid == 1
        then m
        else put_absent (get_vm_instance_id i) i m)
      ≡ has_worker p m
add_other-has_worker p i m h = ground (
  arith,
  put_absent-has_worker p (get_container_instance_id i) i m (container_id-neq_pod i p h),
  put_absent-has_worker p (get_vm_instance_id i) i m (vm_id-neq_pod i p h),
)

add_instance-has_worker :
    (p : String) (i : ServiceInstance) (m : ServiceInstances)
    → ats p ≡ 0
    → str_eq p "" ≡ false
    → 1 ≤ i.pid
    → has_worker p (add_instance i m) ≡ (is_worker p i || has_worker p m)
unfolding add_instance get_pod_instance_id
add_instance-has_worker p i m h n l = elim (Bool-cases (str_eq i.pod_name "")) [
  | inl e ↦ rw e (cc (add_other-has_worker p i m h, no_pod i.pod_name p e n))
  | inr e ↦ rw e (
      add_pod-has_worker p (lookup i.pod_name m) i m h l
        (λ t. ap (λ k. lookup k m) (sym ((eq_iff i.pod_name p).0 t))))
]

-- After any instances, a pod of which one of them is a process other than the first has such an
-- instance under its name.
pub add_instances-has_worker :
    (p : String) (is : List ServiceInstance) (m : ServiceInstances)
    → ats p ≡ 0
    → str_eq p "" ≡ false
    → All IsNumbered is
    → has_worker p (add_instances is m) ≡ (any (is_worker p) is || has_worker p m)
unfolding add_instances
add_instances-has_worker p [] m h n a = refl
add_instances-has_worker p (i ∷ is) m h n (l, a) = ground (
  arith,
  add_instances-has_worker p is (add_instance i m) h n a,
  add_instance-has_worker p i m h n l,
)
