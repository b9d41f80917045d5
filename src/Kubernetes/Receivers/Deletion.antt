-- ===== src/Kubernetes/Receivers/Deletion.antt =====
-- Deleting a receiver, with the route that leads to it.
use text.Mathlib.Text.{◌==◌}
use apo.Common.{
  true, remove_first-eq_self, sym, String, Bool, false, not, ◌&&◌, ◌≡◌, refl, List, [], ◌∷◌, arith,
  eq_iff, any, All-combine, All-any-false, All-remove_first, any-remove_first-false, index_where,
  remove_first, remove_element-index_where, any-index_where-some, any-index_where-none, Bool-cases,
  Option-cases, inl, inr,
}
use apo.Kubernetes.Receivers.{
  Routes, no_routes, with_route, Receiver, Route, Config, is_named, leads_to, delete_receiver,
  remove_route,
}
use apo.Kubernetes.Receivers.Names.{
  leads_nested, leads_below, check_receivers, Unique, is_defined, SingleRoutes, IsConsistent,
}

is_defined-remove_first :
    (name n : String) (rs : List Receiver)
    → Unique rs
    → is_defined (remove_first (is_named name) rs) n ≡ (is_defined rs n && not (name == n))
is_defined-remove_first name n [] u = refl
is_defined-remove_first name n (r ∷ rs) (first, u) =
    ground (
      arith,
      is_defined-remove_first name n rs u,
      eq_iff r.name name,
      eq_iff name n,
      eq_iff r.name n,
    )

Unique-remove_first :
    (p : Receiver → Bool) (rs : List Receiver) → Unique rs → Unique (remove_first p rs)
Unique-remove_first p [] u = tt
Unique-remove_first p (r ∷ rs) (first, u) = elim (Bool-cases (p r)) [
  | inl e ↦ rw e u
  | inr e ↦ rw e (any-remove_first-false p _ rs first, Unique-remove_first p rs u)
]

SingleRoutes-remove_first :
    (p : Route → Bool) (routes : List Route)
    → SingleRoutes routes
    → SingleRoutes (remove_first p routes)
SingleRoutes-remove_first p [] u = tt
SingleRoutes-remove_first p (r ∷ rs) (first, u) = elim (Bool-cases (p r)) [
  | inl e ↦ rw e u
  | inr e ↦ rw e (any-remove_first-false p _ rs first, SingleRoutes-remove_first p rs u)
]

-- With single routes, none that leads to the name is left.
none_lead :
    (name : String) (routes : List Route)
    → SingleRoutes routes
    → any (leads_to name) (remove_first (leads_to name) routes) ≡ false
none_lead name [] u = refl
none_lead name (r ∷ rs) (first, u) = ground (arith, none_lead name rs u, eq_iff r.receiver name)

-- The routes that are left, whether or not one led to the name.
remove_route-eq_remove_first :
    (name : String) (routes : List Route)
    → remove_route routes (index_where (leads_to name) routes) ≡ remove_first (leads_to name) routes
remove_route-eq_remove_first name routes =
    elim (Option-cases (index_where (leads_to name) routes)) [
      | inl missing ↦
          rw missing (sym (remove_first-eq_self _ routes (any-index_where-none _ routes missing)))
      | inr (i, found) ↦ rw found (remove_element-index_where _ routes i found)
    ]

check_receivers-remove_first :
    (name : String) (rs : List Receiver) (nested : Routes)
    → Unique rs
    → leads_below name nested ≡ false
    → check_receivers rs nested ≡ true
    → check_receivers (remove_first (is_named name) rs) nested ≡ true
check_receivers-remove_first name rs no_routes u l h = refl
check_receivers-remove_first name rs (with_route receiver continue below next) u l h = ground (
  arith,
  check_receivers-remove_first name rs below u,
  check_receivers-remove_first name rs next u,
  is_defined-remove_first name receiver rs u,
  eq_iff receiver name,
  eq_iff name receiver,
)

abbrev after : String → Config → Config
after name c = record c {
  routes = remove_first (leads_to name) c.routes;
  receivers = remove_first (is_named name) c.receivers;
}

after-IsConsistent :
    (name : String) (c : Config)
    → IsConsistent c
    → leads_nested name c ≡ false
    → name == c.default ≡ false
    → IsConsistent (after name c)
after-IsConsistent name c w l other = record {
  unique = Unique-remove_first _ c.receivers w.unique;
  default_defined =
      ground
        (arith, w.default_defined, is_defined-remove_first name c.default c.receivers w.unique);
  routes_defined =
      All-combine (remove_first (leads_to name) c.routes)
        (λ route defined elsewhere. ground (
          arith,
          defined,
          elsewhere,
          eq_iff route.receiver name,
          eq_iff name route.receiver,
          is_defined-remove_first name route.receiver c.receivers w.unique,
        ))
        (All-remove_first _ (leads_to name) c.routes w.routes_defined)
        (All-any-false (leads_to name) _ (none_lead name c.routes w.single_routes));
  nested_defined =
      All-combine (remove_first (leads_to name) c.routes)
        (λ route defined elsewhere.
          check_receivers-remove_first name c.receivers route.routes w.unique elsewhere defined)
        (All-remove_first _ (leads_to name) c.routes w.nested_defined)
        (All-remove_first _ (leads_to name) c.routes
          (All-any-false (λ route. leads_below name route.routes) c.routes l));
  single_routes = SingleRoutes-remove_first _ c.routes w.single_routes;
}

-- In a consistent configuration in which no route further down than directly below the root leads
-- to a receiver, deleting this receiver succeeds exactly when the receiver is defined
-- and is not the default one. The configuration stays consistent, and on success it has the other
-- receivers' names and no more.
pub delete_receiver-IsConsistent :
    (name n : String) (c : Config)
    → IsConsistent c
    → leads_nested name c ≡ false
    → let deleted = delete_receiver name c in
      IsConsistent deleted.0
      × (deleted.1.0 ≡ (is_defined c.receivers name && not (name == c.default)))
      × (is_defined deleted.0.receivers n
          ≡ (is_defined c.receivers n && not (deleted.1.0 && name == n)))
unfolding delete_receiver
delete_receiver-IsConsistent name n c w l = elim (Bool-cases (name == c.default)) [
  | inl default ↦ rw default (w, ground arith, ground arith)
  | inr other ↦ elim (Option-cases (index_where (is_named name) c.receivers)) [
    | inl missing ↦
        rw (other, missing)
          (w, ground (arith, any-index_where-none _ c.receivers missing), ground arith)
    | inr (i, found) ↦
        rw
          (
            other,
            found,
            remove_route-eq_remove_first name c.routes,
            remove_element-index_where _ c.receivers i found,
          )
          (
            after-IsConsistent name c w l other,
            ground (arith, any-index_where-some _ c.receivers i found),
            ground (arith, is_defined-remove_first name n c.receivers w.unique),
          )
  ]
]
