-- ===== src/DataGroups/ViewPermission/Authorised.antt =====
-- What `CheckDatasourcePermission` of service_check_datasource_permission.go writes to the request,
-- against the maps that it has made.
use text.Mathlib.Text.{◌==◌ as str_eq}
use apo.Common.{
  eq_of_some, ℕ, String, Bool, true, false, not, ◌&&◌, ◌≡◌, refl, Option, none, some, List, [], ◌∷◌,
  ◌++◌, any, arith, keep, if◌then◌else◌, Dict, lookup, string_eq, sym, subst, inl, inr, Bool-cases,
  All-append, eq_of_ok, ok, err,
}
use apo.DataGroups.ViewPermission.{
  empty_scan, is_nil, scan_groups, groups_of, check_datasource_permission, fill_targets,
  write_filtered, services_in, full_namespaces, to_append, check_targets, filter_namespaces,
  filter_services, mem, namespace_step, Scan, Target, many, Answers, DataGroup,
}
use apo.DataGroups.ViewPermission.Scanned.{
  ListsOnly-more, scan_groups-IsSound, of_ok, AllIn-self, ListsOnly-lookup, mem-cons, IsSound,
  ListsOnly, AllIn,
}

-- The namespaces that the user may view all of are the ones that the map has as such.
full-lookup :
    (namespace : String) (m : Dict String Bool)
    → lookup namespace m ≡ some true
    → mem namespace (full_namespaces m) ≡ true
unfolding lookup
full-lookup namespace [] e = absurd (ground (arith, e))
full-lookup namespace ((j, full) ∷ m) e = elim (Bool-cases (str_eq j namespace)) [
  | inl same ↦
      let found =
        eq_of_some
          (subst (λ b. (if b then some full else lookup namespace m) ≡ some true) same e) in
      rw found (ground (arith, same))
  | inr differs ↦
      let rest =
        full-lookup namespace m
          (subst (λ b. (if b then some full else lookup namespace m) ≡ some true) differs e) in
      in_rest full rest
]
  where
    in_rest :
        (b : Bool)
        → mem namespace (full_namespaces m) ≡ true
        → mem namespace (if b then j ∷ full_namespaces m else full_namespaces m) ≡ true
    in_rest true h = mem-cons namespace j (full_namespaces m) h
    in_rest false h = h

filter_services-AllIn :
    (visible filtered services : List String)
    → AllIn visible filtered
    → AllIn visible (filter_services visible filtered services)
unfolding filter_services
filter_services-AllIn visible filtered [] a = a
filter_services-AllIn visible filtered (service ∷ services) a =
    filter_services-AllIn visible
      (if mem service visible && not (mem service filtered)
        then filtered ++ service ∷ []
        else filtered)
      services (kept (mem service visible) (not (mem service filtered)) refl)
  where
    kept :
        (b c : Bool)
        → mem service visible ≡ b
        → AllIn visible (if b && c then filtered ++ service ∷ [] else filtered)
    kept true true h = All-append _ filtered (service ∷ []) a (h, tt)
    kept true false h = a
    kept false c h = a

All-keep :
    (visible : List String) (p : String → Bool) (xs : List String)
    → AllIn visible xs
    → AllIn visible (keep p xs)
All-keep visible p [] a = tt
All-keep visible p (x ∷ xs) (h, a) = elim (Bool-cases (p x)) [
  | inl e ↦ rw e (h, All-keep visible p xs a)
  | inr e ↦ rw e (All-keep visible p xs a)
]

to_append-AllIn :
    (visible asked services : List String)
    → AllIn visible services
    → AllIn visible (to_append asked services)
to_append-AllIn visible asked services a =
    elim (Bool-cases (any (λ service. mem service asked) services)) [
      | inl e ↦ rw e tt
      | inr e ↦ rw e (All-keep visible _ services a)
    ]

-- The namespaces and the services that are filtered so far.
abbrev AreAuthorised : Scan → List String → List String × List String → Type 0
AreAuthorised s visible filtered =
    AllIn (full_namespaces s.namespace_map) filtered.0 × AllIn visible filtered.1

namespace_step-AreAuthorised :
    (s : Scan) (visible asked : List String) (namespace : String) (o : Option Bool)
    (filtered : List String × List String)
    → ListsOnly visible s.namespace_srv_map
    → lookup namespace s.namespace_map ≡ o
    → AreAuthorised s visible filtered
    → AreAuthorised s visible (namespace_step s asked namespace o filtered)
unfolding namespace_step
namespace_step-AreAuthorised s visible asked namespace none (ns, srv) sound at a = a
namespace_step-AreAuthorised s visible asked namespace (some true) (ns, srv) sound at (a, b) =
    (All-append _ ns (namespace ∷ []) a (full-lookup namespace s.namespace_map at, tt), b)
namespace_step-AreAuthorised s visible asked namespace (some false) (ns, srv) sound at (a, b) = (
  a,
  All-append _ srv _ b (
      to_append-AllIn visible asked (services_in (lookup namespace s.namespace_srv_map))
        (ListsOnly-lookup visible namespace s.namespace_srv_map sound)),
)

filter_namespaces-AreAuthorised :
    (s : Scan) (visible asked namespaces : List String) (filtered : List String × List String)
    → ListsOnly visible s.namespace_srv_map
    → AreAuthorised s visible filtered
    → AreAuthorised s visible (filter_namespaces s asked namespaces filtered)
unfolding filter_namespaces
filter_namespaces-AreAuthorised s visible asked [] filtered sound a = a
filter_namespaces-AreAuthorised s visible asked (namespace ∷ namespaces) filtered sound a =
    filter_namespaces-AreAuthorised s visible asked namespaces _ sound
      (namespace_step-AreAuthorised s visible asked namespace _ filtered sound refl a)

-- Lists of namespaces and of services that the user may view.
abbrev pub IsAuthorised : Scan → List String → Target × Target → Type 0
IsAuthorised s service_list (namespaces, services) =
    (ns : List String) × (srv : List String) × (namespaces ≡ many ns)
    × (services ≡ many srv)
    × AllIn (full_namespaces s.namespace_map) ns
    × AllIn (s.service_map ++ service_list) srv

fill_targets-IsAuthorised :
    (s : Scan) (service_list namespace_ds service_ds : List String) (written : Target × Target)
    → AllIn (full_namespaces s.namespace_map) namespace_ds
    → AllIn (s.service_map ++ service_list) service_ds
    → fill_targets (many []) (many []) namespace_ds service_ds ≡ ok written
    → IsAuthorised s service_list written
fill_targets-IsAuthorised s service_list (n ∷ ns) service_ds written a b e =
    subst (IsAuthorised s service_list) (eq_of_ok e) (n ∷ ns, [], refl, refl, a, tt)
fill_targets-IsAuthorised s service_list [] (v ∷ vs) written a b e =
    subst (IsAuthorised s service_list) (eq_of_ok e) ([], v ∷ vs, refl, refl, tt, b)
fill_targets-IsAuthorised s service_list [] [] written a b e = absurd (ground (arith, e))

err_of_if :
    (b : Bool) (x y : String) (written : Target × Target)
    → (if b then err x else err y) ≡ ok written
    → ok written ≡ err x
err_of_if true x y written e = sym e
err_of_if false x y written e = absurd (ground (arith, e))

write_filtered-IsAuthorised :
    (s : Scan) (service_list namespaces services namespace_ds service_ds : List String)
    (filtered : List String × List String) (written : Target × Target)
    → AreAuthorised s (s.service_map ++ service_list) filtered
    → write_filtered (many namespaces) (many services) namespace_ds service_ds filtered ≡ ok written
    → IsAuthorised s service_list written
write_filtered-IsAuthorised s service_list namespaces services namespace_ds service_ds (n ∷ ns, srv)
      written (a, b) e =
    subst (IsAuthorised s service_list) (eq_of_ok e) (n ∷ ns, srv, refl, refl, a, b)
write_filtered-IsAuthorised s service_list namespaces services namespace_ds service_ds ([], v ∷ vs)
      written (a, b) e =
    subst (IsAuthorised s service_list) (eq_of_ok e) ([], v ∷ vs, refl, refl, a, b)
write_filtered-IsAuthorised s service_list namespaces services namespace_ds service_ds ([], [])
      written (a, b) e =
    let failed =
      err_of_if (not (is_nil namespace_ds) && not (is_nil service_ds)) "no permission"
        "data group does not have corresponding data" written e in
    absurd (ground (arith, failed))

check_filtered :
    (s : Scan) (service_list namespaces services : List String) (written : Target × Target)
    → IsSound s
    → write_filtered
        (many namespaces)
        (many services)
        (full_namespaces s.namespace_map)
        (filter_services (s.service_map ++ service_list) [] (s.service_map ++ service_list))
        (filter_namespaces s
          (filter_services (s.service_map ++ service_list) [] services)
          namespaces
          ([], filter_services (s.service_map ++ service_list) [] services))
      ≡ ok written
    → IsAuthorised s service_list written
check_filtered s service_list namespaces services written sound e =
    let visible = s.service_map ++ service_list in
    write_filtered-IsAuthorised s service_list namespaces services _ _ _ written
      (filter_namespaces-AreAuthorised s visible (filter_services visible [] services) namespaces
        ([], filter_services visible [] services)
        (ListsOnly-more s.service_map service_list s.namespace_srv_map sound)
        (tt, filter_services-AllIn visible [] services tt))
      e

check_targets-IsAuthorised :
    (s : Scan) (service_list namespaces services : List String) (written : Target × Target)
    → IsSound s
    → check_targets s service_list (many namespaces) (many services) namespaces services
      ≡ ok written
    → IsAuthorised s service_list written
unfolding check_targets
check_targets-IsAuthorised s service_list [] [] written sound e =
    let visible = s.service_map ++ service_list in
    fill_targets-IsAuthorised s service_list _ _ written
      (AllIn-self (full_namespaces s.namespace_map)) (filter_services-AllIn visible [] visible tt) e
check_targets-IsAuthorised s service_list [] (v ∷ vs) written sound e =
    check_filtered s service_list [] (v ∷ vs) written sound e
check_targets-IsAuthorised s service_list (n ∷ ns) services written sound e =
    check_filtered s service_list (n ∷ ns) services written sound e

pub check_datasource_permission-IsAuthorised :
    (answers : Answers) (group_id : ℕ) (fill_category : String) (namespaces services : List String)
    (written : Target × Target)
    → check_datasource_permission answers group_id fill_category (many namespaces) (many services)
      ≡ ok written
    → (groups : List DataGroup) × (s : Scan) × (service_list : List String) × (groups_of answers
          group_id
        ≡ ok groups)
      × (scan_groups answers fill_category groups empty_scan ≡ ok s)
      × ((if is_nil (full_namespaces s.namespace_map)
            then ok []
            else answers.get_service_list (full_namespaces s.namespace_map))
          ≡ ok service_list)
      × IsAuthorised s service_list written
unfolding check_datasource_permission
check_datasource_permission-IsAuthorised answers group_id fill_category namespaces services written
      e =
    let (groups, given, e1) = of_ok (groups_of answers group_id) _ written e in
    let (s, scanned, e2) =
      of_ok (scan_groups answers fill_category groups empty_scan) _ written e1 in
    let (service_list, listed, e3) =
      of_ok
        (if is_nil (full_namespaces s.namespace_map)
          then ok []
          else answers.get_service_list (full_namespaces s.namespace_map))
        _ written e2 in
    (
      groups,
      s,
      service_list,
      given,
      scanned,
      listed,
      check_targets-IsAuthorised s service_list namespaces services written
          (scan_groups-IsSound answers fill_category groups empty_scan s tt scanned) e3,
    )
