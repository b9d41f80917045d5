-- ===== src/Kubernetes/Receivers/Renaming.antt =====
-- Updating a receiver under its name, and renaming it with the routes that lead to it.
use text.Mathlib.Text.{◌==◌}
use apo.Common.{
  ◌+◌, ◌≤◌, if◌then◌else◌, ℕ, suc, ◌∙◌, eq_refl, String, Bool, true, false, not, ◌&&◌, ◌||◌, ◌≡◌,
  refl, none, List, [], ◌∷◌, arith, eq_iff, any, All, All-combine, Bool-cases, inl, inr,
}
use apo.Kubernetes.Receivers.{
  Routes, no_routes, with_route, Receiver, Route, Config, leads_to, update_receiver,
  replace_settings, replace_named, rename_first, reroute,
}
use apo.Kubernetes.Receivers.Names.{
  leads_nested, leads_below, check_receivers, Unique, is_defined, SingleRoutes, IsConsistent,
}

-- New settings leave the name.
name-replace_settings : (new r : Receiver) → (replace_settings new r).name ≡ r.name
unfolding replace_settings
name-replace_settings new r = ground arith

is_defined-replace_named :
    (new : Receiver) (old n : String) (rs : List Receiver)
    → is_defined (replace_named new old rs) n ≡ is_defined rs n
unfolding replace_named
is_defined-replace_named new old n [] = refl
is_defined-replace_named new old n (r ∷ rs) = elim (Bool-cases (r.name == old)) [
  | inl same ↦ rw (same, name-replace_settings new r, is_defined-replace_named new old n rs)
  | inr other ↦ rw (other, is_defined-replace_named new old n rs)
]

Unique-replace_named :
    (new : Receiver) (old : String) (rs : List Receiver)
    → Unique rs
    → Unique (replace_named new old rs)
unfolding replace_named
Unique-replace_named new old [] u = tt
Unique-replace_named new old (r ∷ rs) (first, u) =
    let rest = Unique-replace_named new old rs u in
    elim (Bool-cases (r.name == old)) [
      | inl same ↦
          rw (same, name-replace_settings new r)
            (is_defined-replace_named new old r.name rs ∙ first, rest)
      | inr other ↦ rw other (is_defined-replace_named new old r.name rs ∙ first, rest)
    ]

-- A renaming turns the old name into the new one.
is_defined-rename_first :
    (new : Receiver) (old n : String) (rs : List Receiver)
    → Unique rs
    → is_defined (rename_first new old rs) n
      ≡ ((is_defined rs n && not (old == n)) || (is_defined rs old && new.name == n))
unfolding rename_first
is_defined-rename_first new old n [] u = refl
is_defined-rename_first new old n (r ∷ rs) (first, u) = elim (Bool-cases (r.name == old)) [
  | inl same ↦
      rw (same, name-replace_settings new (record r { name = new.name }))
        (ground (arith, eq_iff r.name old, eq_iff r.name n, eq_iff old n, eq_iff new.name n))
  | inr other ↦ ground (
    arith,
    is_defined-rename_first new old n rs u,
    eq_iff r.name old,
    eq_iff r.name n,
    eq_iff old n,
    eq_iff new.name n,
  )
]

Unique-rename_first :
    (new : Receiver) (old : String) (rs : List Receiver)
    → Unique rs
    → is_defined rs new.name ≡ false
    → Unique (rename_first new old rs)
unfolding rename_first
Unique-rename_first new old [] u h = tt
Unique-rename_first new old (r ∷ rs) (first, u) h = elim (Bool-cases (r.name == old)) [
  | inl same ↦ rw (same, name-replace_settings new (record r { name = new.name })) (ground arith, u)
  | inr other ↦ rw other (
    ground (
      arith,
      is_defined-rename_first new old r.name rs u,
      eq_iff r.name new.name,
      eq_iff new.name r.name,
    ),
    Unique-rename_first new old rs u (ground arith),
  )
]

reroute_defined :
    (new : Receiver) (old : String) (rs : List Receiver) (routes : List Route)
    → Unique rs
    → is_defined rs old ≡ true
    → All (λ route. is_defined rs route.receiver ≡ true) routes
    → All
        (λ route. is_defined (rename_first new old rs) route.receiver ≡ true)
        (reroute old new.name routes)
reroute_defined new old rs [] u o a = tt
reroute_defined new old rs (route ∷ routes) u o (d, a) = (
  ground (
    arith,
    is_defined-rename_first new old route.receiver rs u,
    is_defined-rename_first new old new.name rs u,
    eq_iff route.receiver old,
    eq_iff old route.receiver,
    eq_refl new.name,
  ),
  reroute_defined new old rs routes u o a,
)

any-reroute :
    (old new n : String) (routes : List Route)
    → any (leads_to n) (reroute old new routes)
      ≡ ((any (leads_to n) routes && not (old == n)) || (any (leads_to old) routes && new == n))
any-reroute old new n [] = refl
any-reroute old new n (route ∷ routes) = ground (
  arith,
  any-reroute old new n routes,
  eq_iff route.receiver old,
  eq_iff route.receiver n,
  eq_iff old n,
  eq_iff new n,
)

SingleRoutes-reroute :
    (old new : String) (routes : List Route)
    → SingleRoutes routes
    → any (leads_to new) routes ≡ false
    → SingleRoutes (reroute old new routes)
SingleRoutes-reroute old new [] u h = tt
SingleRoutes-reroute old new (route ∷ routes) (first, u) h = (
  ground (
    arith,
    any-reroute old new route.receiver routes,
    any-reroute old new new routes,
    eq_iff route.receiver old,
    eq_iff route.receiver new,
    eq_iff new route.receiver,
    eq_iff old route.receiver,
    eq_refl new,
  ),
  SingleRoutes-reroute old new routes u (ground arith),
)

-- No route leads to a name that is not defined.
unrouted :
    (name : String) (rs : List Receiver) (routes : List Route)
    → All (λ route. is_defined rs route.receiver ≡ true) routes
    → is_defined rs name ≡ false
    → any (leads_to name) routes ≡ false
unrouted name rs [] a h = refl
unrouted name rs (route ∷ routes) (d, a) h =
    ground (arith, unrouted name rs routes a h, eq_iff route.receiver name)

check_receivers-replace_named :
    (new : Receiver) (old : String) (rs : List Receiver) (nested : Routes)
    → check_receivers (replace_named new old rs) nested ≡ check_receivers rs nested
check_receivers-replace_named new old rs no_routes = refl
check_receivers-replace_named new old rs (with_route receiver continue below next) = ground (
  arith,
  check_receivers-replace_named new old rs below,
  check_receivers-replace_named new old rs next,
  is_defined-replace_named new old receiver rs,
)

check_receivers-rename_first :
    (new : Receiver) (old : String) (rs : List Receiver) (nested : Routes)
    → Unique rs
    → leads_below old nested ≡ false
    → check_receivers rs nested ≡ true
    → check_receivers (rename_first new old rs) nested ≡ true
check_receivers-rename_first new old rs no_routes u l h = refl
check_receivers-rename_first new old rs (with_route receiver continue below next) u l h = ground (
  arith,
  check_receivers-rename_first new old rs below u,
  check_receivers-rename_first new old rs next u,
  is_defined-rename_first new old receiver rs u,
  eq_iff receiver old,
  eq_iff old receiver,
)

nested-reroute :
    (new : Receiver) (old : String) (rs : List Receiver) (routes : List Route)
    → Unique rs
    → any (λ route. leads_below old route.routes) routes ≡ false
    → All (λ route. check_receivers rs route.routes ≡ true) routes
    → All
        (λ route. check_receivers (rename_first new old rs) route.routes ≡ true)
        (reroute old new.name routes)
nested-reroute new old rs [] u l a = tt
nested-reroute new old rs (route ∷ routes) u l (h, a) =
    let kept = check_receivers-rename_first new old rs route.routes u (ground (arith, l)) h in
    let rest = nested-reroute new old rs routes u (ground (arith, l)) a in
    elim (Bool-cases (route.receiver == old)) [
      | inl same ↦ rw same (kept, rest)
      | inr other ↦ rw other (kept, rest)
    ]

abbrev pub keeps_name : Receiver → String → Bool
keeps_name new old = old == "" || old == new.name

-- An update under the old name keeps a configuration consistent, and so does a renaming to a name
-- that is not taken, unless the renamed receiver is the default one, or a route further down than
-- directly below the root leads to it.
pub update_receiver-IsConsistent :
    (new : Receiver) (old : String) (c : Config)
    → IsConsistent c
    → (keeps_name new old
        || (not (is_defined c.receivers new.name)
            && (not (old == c.default) && not (leads_nested old c))))
      ≡ true
    → IsConsistent (update_receiver new old c).0
unfolding update_receiver
update_receiver-IsConsistent new old c w h = elim (Bool-cases (is_defined c.receivers old)) [
  | inr missing ↦ rw missing w
  | inl there ↦ elim (Bool-cases (keeps_name new old)) [
    | inl same ↦
        rw (there, same)
          (record {
            unique = Unique-replace_named new old c.receivers w.unique;
            default_defined =
                is_defined-replace_named new old c.default c.receivers ∙ w.default_defined;
            routes_defined =
                All-combine c.routes
                  (λ route d _. is_defined-replace_named new old route.receiver c.receivers ∙ d)
                  w.routes_defined w.routes_defined;
            nested_defined =
                All-combine c.routes
                  (λ route d _. check_receivers-replace_named new old c.receivers route.routes ∙ d)
                  w.nested_defined w.nested_defined;
            single_routes = w.single_routes;
          })
    | inr other ↦
        let free : is_defined c.receivers new.name ≡ false = ground arith in
        rw (there, other)
          (record {
            unique = Unique-rename_first new old c.receivers w.unique free;
            default_defined = ground (
              arith,
              w.default_defined,
              is_defined-rename_first new old c.default c.receivers w.unique,
            );
            routes_defined =
                reroute_defined new old c.receivers c.routes w.unique there w.routes_defined;
            nested_defined =
                nested-reroute new old c.receivers c.routes w.unique (ground (arith, h, other))
                  w.nested_defined;
            single_routes =
                SingleRoutes-reroute old new.name c.routes w.single_routes
                  (unrouted new.name c.receivers c.routes w.routes_defined free);
          })
  ]
]

-- After the default receiver of a consistent configuration is renamed, the root route leads to a
-- name that no receiver has.
pub renamed_default :
    (new : Receiver) (c : Config)
    → IsConsistent c
    → keeps_name new c.default ≡ false
    → let renamed = update_receiver new c.default c in
      (renamed.1 ≡ none) × (is_defined renamed.0.receivers renamed.0.default ≡ false)
unfolding update_receiver
renamed_default new c w h =
    rw (w.default_defined, h)
      (
        refl,
        ground (
          arith,
          is_defined-rename_first new c.default c.default c.receivers w.unique,
          eq_refl c.default,
          eq_iff c.default new.name,
          eq_iff new.name c.default,
        ),
      )

-- How many receivers have the name.
abbrev pub count_named : String → List Receiver → ℕ
count_named name [] = 0
count_named name (r ∷ rs) = (if r.name == name then 1 else 0) + count_named name rs

count_named-defined :
    (name : String) (rs : List Receiver) → is_defined rs name ≡ true → 1 ≤ count_named name rs
count_named-defined name [] h = cc
count_named-defined name (r ∷ rs) h = ground (arith, h, count_named-defined name rs)

count_named-rename_first :
    (new : Receiver) (old : String) (rs : List Receiver)
    → (old == new.name) ≡ false
    → is_defined rs old ≡ true
    → count_named new.name (rename_first new old rs) ≡ suc (count_named new.name rs)
unfolding rename_first
count_named-rename_first new old [] e h = cc
count_named-rename_first new old (r ∷ rs) e h = elim (Bool-cases (r.name == old)) [
  | inl same ↦
      rw (same, name-replace_settings new (record r { name = new.name }))
        (ground (arith, e, same, eq_iff r.name old, eq_iff r.name new.name, eq_refl new.name))
  | inr other ↦
      let rest = count_named-rename_first new old rs e (ground (arith, h, other)) in
      rw (other, rest) (omega arith)
]

-- A renaming to the name of another receiver succeeds, and leaves at least two receivers of that
-- name.
pub renamed_to_taken :
    (new : Receiver) (old : String) (c : Config)
    → keeps_name new old ≡ false
    → is_defined c.receivers old ≡ true
    → is_defined c.receivers new.name ≡ true
    → ((update_receiver new old c).1 ≡ none)
      × (2 ≤ count_named new.name (update_receiver new old c).0.receivers)
unfolding update_receiver
renamed_to_taken new old c h o n =
    let differs : (old == new.name) ≡ false = ground (arith, h) in
    rw (o, h)
      (
        refl,
        omega (
          arith,
          count_named-rename_first new old c.receivers differs o,
          count_named-defined new.name c.receivers n,
        ),
      )
