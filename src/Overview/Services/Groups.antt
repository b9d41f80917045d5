-- ===== src/Overview/Services/Groups.antt =====
-- The services that the endpoints are grouped into.
use mathlib.Core.List.{append_assoc, append-nil}
use text.Mathlib.Text.{◌==◌ as str_eq}
use apo.Common.{
  subst, ◌+◌, eq_of_some, ◌≢◌, ℕ, String, true, false, not, ◌&&◌, Option, none, some, List, [], ◌∷◌,
  ◌++◌, if◌then◌else◌, ltb, any, any-append, keep, take, length, length-append, ◌≡◌, refl, ap, sym,
  ◌∙◌, arith, Bool-cases, inl, inr, eq_iff, eq_refl,
}
use apo.Overview.Endpoints.{Floats, EndpointMetrics}
use apo.Overview.Services.{
  no_data, fill_services, fill_services_onto, fill_endpoint, note_endpoint, is_service, new_service,
  with_endpoint, ServiceDetail,
}

module _ {F : Type 0} where
  -- The first service of a name.
  abbrev pub find_service : String → List (ServiceDetail F) → Option (ServiceDetail F)
  find_service name [] = none
  find_service name (s ∷ ss) = if is_service name s then some s else find_service name ss

  abbrev pub DistinctNames : List (ServiceDetail F) → Type 0
  DistinctNames [] = Unit
  DistinctNames (s ∷ ss) = (any (is_service s.service_name) ss ≡ false) × DistinctNames ss

  -- The service of these endpoints: it shows the first three of them.
  abbrev pub service_of : String → List (EndpointMetrics F) → Option (ServiceDetail F)
  service_of name [] = none
  service_of name (url ∷ urls) = some (record {
    service_name = name;
    endpoint_count = length (url ∷ urls);
    service_size = length (take 3 (url ∷ urls));
    endpoints = take 3 (url ∷ urls);
  })

  service_of-one :
      (url : EndpointMetrics F) → service_of url.svc_name (url ∷ []) ≡ some (new_service url)
  service_of-one url = refl

  -- One more endpoint of a service that has some.
  service_of-more :
      (name : String) (url u : EndpointMetrics F) (urls : List (EndpointMetrics F))
      (s : ServiceDetail F)
      → service_of name (u ∷ urls) ≡ some s
      → service_of name ((u ∷ urls) ++ url ∷ []) ≡ some (with_endpoint url s)
  service_of-more name url u [] s h = rw (← eq_of_some h) refl
  service_of-more name url u (v ∷ []) s h = rw (← eq_of_some h) refl
  service_of-more name url u (v ∷ w ∷ urls) s h =
      let longer : length (u ∷ v ∷ w ∷ (urls ++ url ∷ [])) ≡ length (u ∷ v ∷ w ∷ urls) + 1 =
        omega (arith, length-append urls (url ∷ [])) in
      rw (← eq_of_some h) (
        ap
          (λ (n : ℕ). some (record {
            service_name = name;
            endpoint_count = n;
            service_size = 3;
            endpoints = u ∷ v ∷ w ∷ [];
          }))
          longer)

  abbrev noted : EndpointMetrics F → Option (ServiceDetail F) → Option (ServiceDetail F)
  noted url none = none
  noted url (some s) = some (with_endpoint url s)

  with_endpoint-name :
      (url : EndpointMetrics F) (s : ServiceDetail F)
      → (with_endpoint url s).service_name ≡ s.service_name
  with_endpoint-name url s = elim (Bool-cases (ltb s.service_size 3)) [
    | inl small ↦ rw small refl
    | inr full ↦ rw full refl
  ]

  find-note_endpoint :
      (name : String) (url : EndpointMetrics F) (ss : List (ServiceDetail F))
      → find_service name (note_endpoint url ss) ≡ (
          if str_eq url.svc_name name
          then noted url (find_service name ss)
          else find_service name ss)
  unfolding note_endpoint
  find-note_endpoint name url [] = ground arith
  find-note_endpoint name url (s ∷ ss) = ground (
    arith,
    find-note_endpoint name url ss,
    with_endpoint-name url s,
    eq_iff s.service_name url.svc_name,
    eq_iff url.svc_name name,
    eq_iff s.service_name name,
  )

  find-append :
      (name : String) (ss : List (ServiceDetail F)) (new : ServiceDetail F)
      → find_service name (ss ++ new ∷ []) ≡ (
          if any (is_service name) ss
          then find_service name ss
          else if str_eq new.service_name name
          then some new
          else none)
  find-append name [] new = refl
  find-append name (s ∷ ss) new = ground (arith, find-append name ss new)

  any-find :
      (name : String) (ss : List (ServiceDetail F))
      → any (is_service name) ss ≡ false
      → find_service name ss ≡ none
  any-find name [] h = refl
  any-find name (s ∷ ss) h = ground (arith, h, any-find name ss)

  find-any :
      (name : String) (ss : List (ServiceDetail F))
      → any (is_service name) ss ≡ true
      → find_service name ss ≢ none
  find-any name [] h e = absurd (cc h)
  find-any name (s ∷ ss) h e = ground (arith, h, e, find-any name ss)

  abbrev if_named : String → EndpointMetrics F → List (EndpointMetrics F)
  if_named name url = if str_eq url.svc_name name then url ∷ [] else []

  find-own :
      (url : EndpointMetrics F) (ss : List (ServiceDetail F)) (urls : List (EndpointMetrics F))
      → find_service url.svc_name ss ≡ service_of url.svc_name urls
      → find_service url.svc_name (fill_endpoint url ss)
        ≡ service_of url.svc_name (urls ++ url ∷ [])
  unfolding fill_endpoint
  find-own url ss [] h = elim (Bool-cases (any (is_service url.svc_name) ss)) [
    | inl some_service ↦ absurd (find-any url.svc_name ss some_service h)
    | inr missing ↦
        rw missing
          (find-append url.svc_name ss (new_service url) ∙ rw (missing, eq_refl url.svc_name) refl)
  ]
  find-own url ss (u ∷ urls) h = elim (Bool-cases (any (is_service url.svc_name) ss)) [
    | inr missing ↦ absurd (cc (sym (any-find url.svc_name ss missing) ∙ h))
    | inl some_service ↦ rw some_service (
        find-note_endpoint url.svc_name url ss
        ∙ rw (eq_refl url.svc_name, h) (sym (service_of-more url.svc_name url u urls _ refl)))
  ]

  find-other :
      (name : String) (url : EndpointMetrics F) (ss : List (ServiceDetail F))
      → str_eq url.svc_name name ≡ false
      → find_service name (fill_endpoint url ss) ≡ find_service name ss
  unfolding fill_endpoint
  find-other name url ss other = elim (Bool-cases (any (is_service url.svc_name) ss)) [
    | inl some_service ↦ rw some_service (find-note_endpoint name url ss ∙ rw other refl)
    | inr missing ↦ rw missing (
        find-append name ss (new_service url) ∙ elim (Bool-cases (any (is_service name) ss)) [
          | inl there ↦ rw there refl
          | inr absent ↦ rw (absent, other) (sym (any-find name ss absent))
        ])
  ]

  -- The endpoints of a service among some.
  abbrev pub endpoints_of : Floats F → String → List (EndpointMetrics F) → List (EndpointMetrics F)
  endpoints_of f name urls = keep (λ u. not (no_data f u) && str_eq u.svc_name name) urls

  fill_onto_lem :
      (f : Floats F) (name : String) (urls before : List (EndpointMetrics F))
      (ss : List (ServiceDetail F))
      → find_service name ss ≡ service_of name before
      → find_service name (fill_services_onto f urls ss)
        ≡ service_of name (before ++ endpoints_of f name urls)
  unfolding fill_services_onto
  fill_onto_lem f name [] before ss h = h ∙ ap (service_of name) (sym (append-nil before))
  fill_onto_lem f name (url ∷ urls) before ss h = elim (Bool-cases (no_data f url)) [
    | inl empty ↦ rw empty (fill_onto_lem f name urls before ss h)
    | inr data_there ↦ elim (Bool-cases (str_eq url.svc_name name)) [
      | inr other ↦
          rw (data_there, other)
            (fill_onto_lem f name urls before (fill_endpoint url ss)
              (find-other name url ss other ∙ h))
      | inl own ↦
          let same = (eq_iff url.svc_name name).0 own in
          rw (data_there, own)
            (fill_onto_lem f name urls (before ++ url ∷ []) (fill_endpoint url ss) (
                subst
                  (λ n.
                    find_service n ss ≡ service_of n before
                    → find_service n (fill_endpoint url ss) ≡ service_of n (before ++ url ∷ []))
                  same (find-own url ss before) h)
              ∙ ap (service_of name) (append_assoc before (url ∷ []) (endpoints_of f name urls)))
    ]
  ]

  any-note_endpoint :
      (name : String) (url : EndpointMetrics F) (ss : List (ServiceDetail F))
      → any (is_service name) (note_endpoint url ss) ≡ any (is_service name) ss
  unfolding note_endpoint
  any-note_endpoint name url [] = refl
  any-note_endpoint name url (s ∷ ss) =
      ground (arith, any-note_endpoint name url ss, with_endpoint-name url s)

  note_endpoint-DistinctNames :
      (url : EndpointMetrics F) (ss : List (ServiceDetail F))
      → DistinctNames ss
      → DistinctNames (note_endpoint url ss)
  unfolding note_endpoint
  note_endpoint-DistinctNames url [] d = tt
  note_endpoint-DistinctNames url (s ∷ ss) (first, d) =
      let rest = note_endpoint-DistinctNames url ss d in
      let kept = any-note_endpoint s.service_name url ss ∙ first in
      elim (Bool-cases (is_service url.svc_name s)) [
        | inr other ↦ rw other (kept, rest)
        | inl own ↦ elim (Bool-cases (ltb s.service_size 3)) [
          | inl small ↦ rw (own, small) (first, d)
          | inr full ↦ rw (own, full) (kept, rest)
        ]
      ]

  append-DistinctNames :
      (ss : List (ServiceDetail F)) (new : ServiceDetail F)
      → DistinctNames ss
      → any (is_service new.service_name) ss ≡ false
      → DistinctNames (ss ++ new ∷ [])
  append-DistinctNames [] new d h = (refl, tt)
  append-DistinctNames (s ∷ ss) new (first, d) h = (
    ground (
      arith,
      any-append (is_service s.service_name) ss (new ∷ []),
      eq_iff new.service_name s.service_name,
      eq_iff s.service_name new.service_name,
    ),
    append-DistinctNames ss new d (ground arith),
  )

  fill_onto-DistinctNames :
      (f : Floats F) (urls : List (EndpointMetrics F)) (ss : List (ServiceDetail F))
      → DistinctNames ss
      → DistinctNames (fill_services_onto f urls ss)
  unfolding fill_services_onto fill_endpoint
  fill_onto-DistinctNames f [] ss d = d
  fill_onto-DistinctNames f (url ∷ urls) ss d = elim (Bool-cases (no_data f url)) [
    | inl empty ↦ rw empty (fill_onto-DistinctNames f urls ss d)
    | inr data_there ↦ elim (Bool-cases (any (is_service url.svc_name) ss)) [
      | inl there ↦
          rw (data_there, there)
            (fill_onto-DistinctNames f urls (note_endpoint url ss)
              (note_endpoint-DistinctNames url ss d))
      | inr absent ↦
          rw (data_there, absent)
            (fill_onto-DistinctNames f urls (ss ++ new_service url ∷ [])
              (append-DistinctNames ss (new_service url) d absent))
    ]
  ]

  -- The service of a name is there exactly when an endpoint of the name has data, and once. It
  -- counts those endpoints and shows the first three of them, in the order of the request.
  pub fill_services_lem :
      (f : Floats F) (name : String) (endpoints : List (EndpointMetrics F))
      → (find_service name (fill_services f endpoints)
          ≡ service_of name (endpoints_of f name endpoints))
        × DistinctNames (fill_services f endpoints)
  unfolding fill_services
  fill_services_lem f name endpoints =
      (fill_onto_lem f name endpoints [] [] refl, fill_onto-DistinctNames f endpoints [] tt)
