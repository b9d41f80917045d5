-- ===== src/Kubernetes/Receivers/Names.antt =====
-- The names of receivers, and the routes that lead to them, at every depth. Alertmanager refuses a
-- configuration in which two receivers share a name, or a route leads to a name that no receiver
-- has.
use text.Mathlib.Text.{◌==◌}
use apo.Common.{
  All-append, eq_refl, any-append, String, Bool, true, false, ◌&&◌, ◌||◌, ◌≡◌, refl, none, List, [],
  ◌∷◌, ◌++◌, arith, eq_iff, any, All, Bool-cases, inl, inr,
}
use apo.Kubernetes.Receivers.{
  with_route, Routes, no_routes, Receiver, Route, Config, is_named, leads_to, add_receiver,
}

abbrev pub Unique : List Receiver → Type 0
Unique [] = Unit
Unique (r ∷ rs) = (any (is_named r.name) rs ≡ false) × Unique rs

-- Some receiver of `rs` has the name.
abbrev pub is_defined : List Receiver → String → Bool
is_defined rs name = any (is_named name) rs

-- `checkReceiver` on the routes below a route: one without a receiver takes that of its parent.
abbrev pub check_receivers : List Receiver → Routes → Bool
check_receivers rs no_routes = true
check_receivers rs (with_route receiver continue below next) =
    check_receivers rs below
    && ((receiver == "" || is_defined rs receiver) && check_receivers rs next)

-- Whether one of the routes below a route leads to the receiver.
abbrev pub leads_below : String → Routes → Bool
leads_below name no_routes = false
leads_below name (with_route receiver continue below next) =
    leads_below name below || (receiver == name || leads_below name next)

-- The routes that `UpdateAMConfigReceiver` and `DeleteAMConfigReceiver` do not look at lead to the
-- receiver.
abbrev pub leads_nested : String → Config → Bool
leads_nested name c = any (λ route. leads_below name route.routes) c.routes

-- No two routes directly below the root lead to one receiver.
abbrev pub SingleRoutes : List Route → Type 0
SingleRoutes [] = Unit
SingleRoutes (route ∷ routes) = (any (leads_to route.receiver) routes ≡ false) × SingleRoutes routes

-- What Alertmanager asks of a configuration, and that each route directly below the root names a
-- receiver that no other of them names.
pub record IsConsistent (c : Config) : Type 0 where
  pub unique : Unique c.receivers
  pub default_defined : is_defined c.receivers c.default ≡ true
  pub routes_defined : All (λ route. is_defined c.receivers route.receiver ≡ true) c.routes
  pub nested_defined : All (λ route. check_receivers c.receivers route.routes ≡ true) c.routes
  pub single_routes : SingleRoutes c.routes

pub any-named_append :
    (name : String) (rs : List Receiver) (r : Receiver)
    → any (is_named name) (rs ++ r ∷ []) ≡ (any (is_named name) rs || r.name == name)
any-named_append name rs r = ground (arith, any-append (is_named name) rs (r ∷ []))

pub Unique-append :
    (rs : List Receiver) (r : Receiver)
    → Unique rs
    → any (is_named r.name) rs ≡ false
    → Unique (rs ++ r ∷ [])
Unique-append [] r u h = (refl, tt)
Unique-append (x ∷ xs) r (first, u) h = (
  ground (arith, any-named_append x.name xs r, eq_iff r.name x.name, eq_iff x.name r.name),
  Unique-append xs r u (ground arith),
)

pub SingleRoutes-append :
    (routes : List Route) (route : Route)
    → SingleRoutes routes
    → any (leads_to route.receiver) routes ≡ false
    → SingleRoutes (routes ++ route ∷ [])
SingleRoutes-append [] r u h = (refl, tt)
SingleRoutes-append (x ∷ xs) r (first, u) h = (
  ground (
    arith,
    any-append (leads_to x.receiver) xs (r ∷ []),
    eq_iff r.receiver x.receiver,
    eq_iff x.receiver r.receiver,
  ),
  SingleRoutes-append xs r u (ground arith),
)

defined_append :
    (routes : List Route) (rs : List Receiver) (r : Receiver)
    → All (λ route. is_defined rs route.receiver ≡ true) routes
    → All (λ route. is_defined (rs ++ r ∷ []) route.receiver ≡ true) routes
defined_append [] rs r a = tt
defined_append (route ∷ routes) rs r (h, a) =
    (ground (arith, any-named_append route.receiver rs r), defined_append routes rs r a)

check_receivers_append :
    (rs : List Receiver) (r : Receiver) (nested : Routes)
    → check_receivers rs nested ≡ true
    → check_receivers (rs ++ r ∷ []) nested ≡ true
check_receivers_append rs r no_routes h = refl
check_receivers_append rs r (with_route receiver continue below next) h = ground (
  arith,
  check_receivers_append rs r below,
  check_receivers_append rs r next,
  any-named_append receiver rs r,
)

nested_append :
    (routes : List Route) (rs : List Receiver) (r : Receiver)
    → All (λ route. check_receivers rs route.routes ≡ true) routes
    → All (λ route. check_receivers (rs ++ r ∷ []) route.routes ≡ true) routes
nested_append [] rs r a = tt
nested_append (route ∷ routes) rs r (h, a) =
    (check_receivers_append rs r route.routes h, nested_append routes rs r a)

-- Adding a receiver keeps a configuration consistent. If it is accepted, a receiver has its name
-- and a route leads to it.
pub add_receiver-IsConsistent :
    (receiver : Receiver) (c : Config)
    → IsConsistent c
    → IsConsistent (add_receiver receiver c).0
      × ((add_receiver receiver c).1 ≡ none
          → (is_defined (add_receiver receiver c).0.receivers receiver.name ≡ true)
            × (any (leads_to receiver.name) (add_receiver receiver c).0.routes ≡ true))
unfolding add_receiver
add_receiver-IsConsistent receiver c w = elim (Bool-cases (is_defined c.receivers receiver.name)) [
  | inl taken ↦ rw taken (w, λ e. absurd (cc e))
  | inr free ↦ elim (Bool-cases (any (leads_to receiver.name) c.routes)) [
    | inl routed ↦
        rw (free, routed)
          (
            record {
              unique = Unique-append c.receivers receiver w.unique free;
              default_defined =
                  ground
                    (arith, w.default_defined, any-named_append c.default c.receivers receiver);
              routes_defined = defined_append c.routes c.receivers receiver w.routes_defined;
              nested_defined = nested_append c.routes c.receivers receiver w.nested_defined;
              single_routes = w.single_routes;
            },
            λ e. (
              ground (
                arith,
                any-named_append receiver.name c.receivers receiver,
                eq_refl receiver.name,
              ),
              routed,
            ),
          )
    | inr unrouted ↦
        rw (free, unrouted)
          (
            record {
              unique = Unique-append c.receivers receiver w.unique free;
              default_defined =
                  ground
                    (arith, w.default_defined, any-named_append c.default c.receivers receiver);
              routes_defined =
                  All-append _ c.routes
                    (record { receiver = receiver.name; continue = true; routes = no_routes } ∷ [])
                    (defined_append c.routes c.receivers receiver w.routes_defined)
                    (
                      ground (
                        arith,
                        any-named_append receiver.name c.receivers receiver,
                        eq_refl receiver.name,
                      ),
                      tt,
                    );
              nested_defined =
                  All-append _ c.routes
                    (record { receiver = receiver.name; continue = true; routes = no_routes } ∷ [])
                    (nested_append c.routes c.receivers receiver w.nested_defined) (refl, tt);
              single_routes = SingleRoutes-append c.routes _ w.single_routes unrouted;
            },
            λ e. (
              ground (
                arith,
                any-named_append receiver.name c.receivers receiver,
                eq_refl receiver.name,
              ),
              ground (
                arith,
                eq_refl receiver.name,
                any-append (leads_to receiver.name) c.routes
                    (record { receiver = receiver.name; continue = true; routes = no_routes } ∷ []),
              ),
            ),
          )
  ]
]
