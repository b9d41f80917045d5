-- ===== src/Overview/Instances/Ids.antt =====
-- The ids of an instance against the names of pods. A Kubernetes pod name has no `@`, and the ids
-- of containers and processes have two.
use Prim.Native.Char.{code}
use Prim.Native.String.{String, [] as empty_text, ◌∷◌ as cons_char}
use text.Mathlib.Text.{◌==◌ as str_eq}
use text.Mathlib.TextLemmas.{nil-append, cons-append}
use apo.Common.{
  ap, show, ◌#◌, ◌+◌, Bool-cases, ℕ, suc, ◌≡◌, refl, true, false, arith, ◌==◌, eq_iff, inl, inr,
  if◌then◌else◌,
}
use apo.Overview.Alerts.{ServiceInstance}
use apo.Overview.Instances.{get_container_instance_id, get_vm_instance_id}

-- How many `@` a text has.
unfoldable pub ats : String → ℕ
ats empty_text = 0
ats (cons_char c s) = if code c == b'@' then suc (ats s) else ats s

pub ats-append : (s t : String) → ats (s # t) ≡ ats s + ats t
unfolding ats
ats-append empty_text t = rw nil-append (omega arith)
ats-append (cons_char c s) t = rw cons-append (ground (arith, ats-append s t))

at_sign : ats "@" ≡ 1
unfolding ats
at_sign = refl

ats-sign : (t : String) → ats ("@" # t) ≡ 1 + ats t
ats-sign t = omega (arith, ats-append "@" t, at_sign)

unequal : (s t : String) → (ats s ≡ ats t → false ≡ true) → str_eq s t ≡ false
unequal s t h = elim (Bool-cases (str_eq s t)) [
  | inl e ↦ ground (arith, h (ap ats ((eq_iff s t).0 e)))
  | inr e ↦ e
]

signed : (a b c : String) → ats (a # ("@" # (b # ("@" # c)))) ≡ ats a + ats b + ats c + 2
signed a b c = omega (
  arith,
  ats-append a ("@" # (b # ("@" # c))),
  ats-sign (b # ("@" # c)),
  ats-append b ("@" # c),
  ats-sign c,
)

pub container_id-neq_pod :
    (i : ServiceInstance) (p : String) → ats p ≡ 0 → str_eq (get_container_instance_id i) p ≡ false
unfolding get_container_instance_id
container_id-neq_pod i p h =
    unequal (i.service_name # ("@" # (i.node_name # ("@" # i.container_id)))) p
      (λ e. ground (arith, signed i.service_name i.node_name i.container_id))

pub vm_id-neq_pod :
    (i : ServiceInstance) (p : String) → ats p ≡ 0 → str_eq (get_vm_instance_id i) p ≡ false
unfolding get_vm_instance_id
vm_id-neq_pod i p h =
    unequal (i.service_name # ("@" # (i.node_name # ("@" # show i.pid)))) p
      (λ e. ground (arith, signed i.service_name i.node_name (show i.pid)))
