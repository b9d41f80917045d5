-- ===== src/DataGroups/ViewPermission/Granted.antt =====
-- What `CheckDatasourcePermission` writes to the request, against the datasources of the groups.
use text.Mathlib.Text.{◌==◌ as str_eq}
use apo.Common.{
  ℕ, String, Bool, true, false, not, ◌&&◌, ◌||◌, ◌≡◌, refl, List, [], ◌∷◌, ◌++◌, any, All, arith,
  if◌then◌else◌, Dict, put, has, string_eq, eq_refl, eq_iff, sym, subst, ap, ◌∙◌, inl, inr,
  Bool-cases, All-append, any-append, eq_of_ok, ok,
}
use apo.DataGroups.ViewPermission.{
  mem, note_service, scan_groups, scan_list, scan_one, with_service, ◌>>=◌, Scan, Answers,
  Datasource, DataGroup, full_namespaces, empty_scan, groups_of, is_nil, Target, many,
  check_datasource_permission,
}
use apo.DataGroups.ViewPermission.Scanned.{of_ok, AllIn}
use apo.DataGroups.ViewPermission.Authorised.{check_datasource_permission-IsAuthorised}

abbrev is_skipped : String → Datasource → Bool
is_skipped fill_category d = not (str_eq fill_category "") && not (str_eq d.category fill_category)

-- The datasource is of the category that is asked for, and has the type and the name.
abbrev grants : String → String → String → Datasource → Bool
grants fill_category typ name d =
    not (is_skipped fill_category d) && (str_eq d.typ typ && str_eq d.datasource name)

-- One of the groups has such a datasource.
abbrev pub granted : String → List DataGroup → String → String → Bool
granted fill_category groups typ name =
    any (λ group. any (grants fill_category typ name) group.datasource_list) groups

or_true : (b : Bool) → (b || true) ≡ true
or_true b = ground arith

module _ (q : String → Bool) where
  abbrev AllTrue : List String → Type 0
  AllTrue = All (λ x. q x ≡ true)

  full-tail :
      (j : String) (full : Bool) (rest : List String)
      → AllTrue (if full then j ∷ rest else rest)
      → AllTrue rest
  full-tail j true rest (h, a) = a
  full-tail j false rest a = a

  full-with :
      (j : String) (full : Bool) (rest more : List String)
      → AllTrue (if full then j ∷ rest else rest)
      → AllTrue more
      → AllTrue (if full then j ∷ more else more)
  full-with j true rest more (h, a) b = (h, b)
  full-with j false rest more a b = b

  full-put-true :
      (namespace : String) (m : Dict String Bool)
      → q namespace ≡ true
      → AllTrue (full_namespaces m)
      → AllTrue (full_namespaces (put namespace true m))
  unfolding put
  full-put-true namespace [] h a = (h, tt)
  full-put-true namespace ((j, full) ∷ m) h a = elim (Bool-cases (str_eq j namespace)) [
    | inl same ↦ rw same (h, full-tail j full (full_namespaces m) a)
    | inr other ↦ rw other (
        full-with j full (full_namespaces m) _ a
          (full-put-true namespace m h (full-tail j full (full_namespaces m) a)))
  ]

  full-put-false :
      (namespace : String) (m : Dict String Bool)
      → AllTrue (full_namespaces m)
      → AllTrue (full_namespaces (put namespace false m))
  unfolding put
  full-put-false namespace [] a = tt
  full-put-false namespace ((j, full) ∷ m) a = elim (Bool-cases (str_eq j namespace)) [
    | inl same ↦ rw same (full-tail j full (full_namespaces m) a)
    | inr other ↦ rw other (
        full-with j full (full_namespaces m) _ a
          (full-put-false namespace m (full-tail j full (full_namespaces m) a)))
  ]

  -- Noting a service for its namespaces makes none of them one to view as a whole.
  note_service-full :
      (ds : String) (namespaces : List String) (s : Scan)
      → AllTrue (full_namespaces s.namespace_map)
      → AllTrue (full_namespaces (note_service ds namespaces s).namespace_map)
        × ((note_service ds namespaces s).service_map ≡ s.service_map)
  unfolding note_service
  note_service-full ds [] s a = (a, refl)
  note_service-full ds (namespace ∷ namespaces) s a =
      note_service-full ds namespaces _ (elim (Bool-cases (has namespace s.namespace_map)) [
        | inl there ↦ rw there a
        | inr missing ↦ rw missing (full-put-false namespace s.namespace_map a)
      ])

  mem-AllTrue : (x : String) (xs : List String) → AllTrue xs → mem x xs ≡ true → q x ≡ true
  mem-AllTrue x [] a h = absurd (ground (arith, h))
  mem-AllTrue x (y ∷ xs) (g, a) h = elim (Bool-cases (str_eq y x)) [
    | inl same ↦ subst (λ z. q z ≡ true) ((eq_iff y x).0 same) g
    | inr other ↦ mem-AllTrue x xs a (ground (arith, h, other))
  ]

  AllIn-AllTrue : (xs ys : List String) → AllTrue xs → AllIn xs ys → AllTrue ys
  AllIn-AllTrue xs [] a b = tt
  AllIn-AllTrue xs (y ∷ ys) a (h, b) = (mem-AllTrue y xs a h, AllIn-AllTrue xs ys a b)

-- The namespaces to view as a whole and the services are such as `q` allows.
abbrev IsAllowed : (String → String → Bool) → Scan → Type 0
IsAllowed q s =
    AllTrue (q "namespace") (full_namespaces s.namespace_map) × AllTrue (q "service") s.service_map

module _ (answers : Answers) (fill_category : String) (q : String → String → Bool) where
  scan_one-IsAllowed :
      (d : Datasource) (s s2 : Scan)
      → ((typ name : String) → grants fill_category typ name d ≡ true → q typ name ≡ true)
      → IsAllowed q s
      → scan_one answers fill_category d s ≡ ok s2
      → IsAllowed q s2
  unfolding scan_one
  scan_one-IsAllowed d s s2 allows (a, b) e =
      by_tests (is_skipped fill_category d) (str_eq d.typ "namespace") (str_eq d.typ "service") refl
        refl refl e
    where
      by_tests :
          (skipped is_namespace is_service : Bool)
          → is_skipped fill_category d ≡ skipped
          → str_eq d.typ "namespace" ≡ is_namespace
          → str_eq d.typ "service" ≡ is_service
          → (if skipped
              then ok s
              else if is_namespace
              then ok (record s { namespace_map = put d.datasource true s.namespace_map })
              else if is_service
              then (answers.get_service_namespace d.datasource >>= λ namespaces.
                  ok (with_service d.datasource (note_service d.datasource namespaces s)))
              else ok s)
            ≡ ok s2
          → IsAllowed q s2
      by_tests true x y k n v h = subst (IsAllowed q) (eq_of_ok h) (a, b)
      by_tests false true y k n v h =
          let given : grants fill_category "namespace" d.datasource d ≡ true =
            rw (k, n, eq_refl d.datasource) refl in
          subst (IsAllowed q) (eq_of_ok h) (
            full-put-true (q "namespace") d.datasource s.namespace_map
                (allows "namespace" d.datasource given) a,
            b,
          )
      by_tests false false true k n v h =
          let (namespaces, found, made) =
            of_ok (answers.get_service_namespace d.datasource)
              (λ namespaces.
                ok (with_service d.datasource (note_service d.datasource namespaces s)))
              s2 h in
          let given : grants fill_category "service" d.datasource d ≡ true =
            rw (k, v, eq_refl d.datasource) refl in
          let (noted, same) = note_service-full (q "namespace") d.datasource namespaces s a in
          subst (IsAllowed q) (eq_of_ok made) (
            noted,
            All-append _ (note_service d.datasource namespaces s).service_map (d.datasource ∷ [])
                (subst (AllTrue (q "service")) (sym same) b)
                (allows "service" d.datasource given, tt),
          )
      by_tests false false false k n v h = subst (IsAllowed q) (eq_of_ok h) (a, b)

  scan_list-IsAllowed :
      (ds : List Datasource) (s s2 : Scan)
      → ((typ name : String) → any (grants fill_category typ name) ds ≡ true → q typ name ≡ true)
      → IsAllowed q s
      → scan_list answers fill_category ds s ≡ ok s2
      → IsAllowed q s2
  unfolding scan_list
  scan_list-IsAllowed [] s s2 allows a e = subst (IsAllowed q) (eq_of_ok e) a
  scan_list-IsAllowed (d ∷ ds) s s2 allows a e =
      let (s1, first, rest) =
        of_ok (scan_one answers fill_category d s) (scan_list answers fill_category ds) s2 e in
      scan_list-IsAllowed ds s1 s2
        (λ typ name h.
          allows typ name (ap (λ b. grants fill_category typ name d || b) h ∙ or_true _))
        (scan_one-IsAllowed d s s1
          (λ typ name h. allows typ name (ap (λ b. b || any (grants fill_category typ name) ds) h))
          a first)
        rest

  scan_groups-IsAllowed :
      (groups : List DataGroup) (s s2 : Scan)
      → ((typ name : String) → granted fill_category groups typ name ≡ true → q typ name ≡ true)
      → IsAllowed q s
      → scan_groups answers fill_category groups s ≡ ok s2
      → IsAllowed q s2
  unfolding scan_groups
  scan_groups-IsAllowed [] s s2 allows a e = subst (IsAllowed q) (eq_of_ok e) a
  scan_groups-IsAllowed (group ∷ groups) s s2 allows a e =
      let (s1, first, rest) =
        of_ok (scan_list answers fill_category group.datasource_list s)
          (scan_groups answers fill_category groups) s2 e in
      scan_groups-IsAllowed groups s1 s2
        (λ typ name h.
          allows typ name (
            ap (λ b. any (grants fill_category typ name) group.datasource_list || b) h ∙ or_true _))
        (scan_list-IsAllowed group.datasource_list s s1
          (λ typ name h. allows typ name (ap (λ b. b || granted fill_category groups typ name) h)) a
          first)
        rest

-- The services of the groups and those of the query.
All-visible :
    (q : String → Bool) (services service_list written : List String)
    → AllTrue q services
    → AllIn (services ++ service_list) written
    → All (λ v. (q v || mem v service_list) ≡ true) written
All-visible q services service_list [] a b = tt
All-visible q services service_list (v ∷ vs) a (h, b) =
    (visible (mem v services) refl, All-visible q services service_list vs a b)
  where
    visible : (b : Bool) → mem v services ≡ b → (q v || mem v service_list) ≡ true
    visible true e = rw (mem-AllTrue q v services a e) refl
    visible false e =
        let split = any-append (λ y. str_eq y v) services service_list in
        ground (arith, h, split, e)

-- When `CheckDatasourcePermission` is given lists of namespaces and of services and returns no
-- error, it has written lists. Every namespace is a datasource of the groups, of the type of
-- namespaces and of the category that is asked for. Every service is such a datasource of the type
-- of services, or in the answer to the query for the services of namespaces, all of which are such
-- datasources too; that query is not made for no namespaces.
pub check_datasource_permission-granted :
    (answers : Answers) (group_id : ℕ) (fill_category : String) (namespaces services : List String)
    (written : Target × Target)
    → check_datasource_permission answers group_id fill_category (many namespaces) (many services)
      ≡ ok written
    → (groups : List DataGroup) × (asked : List String) × (service_list : List String) × (ns : List
        String)
      × (srv : List String) × (groups_of answers group_id ≡ ok groups)
      × All (λ n. granted fill_category groups "namespace" n ≡ true) asked
      × ((if is_nil asked then ok [] else answers.get_service_list asked) ≡ ok service_list)
      × (written ≡ (many ns, many srv))
      × All (λ n. granted fill_category groups "namespace" n ≡ true) ns
      × All (λ v. (granted fill_category groups "service" v || mem v service_list) ≡ true) srv
check_datasource_permission-granted answers group_id fill_category namespaces services written e =
    let (groups, s, service_list, given, scanned, listed, (ns, srv, e1, e2, in_ns, in_srv)) =
      check_datasource_permission-IsAuthorised answers group_id fill_category namespaces services
        written e in
    let q = granted fill_category groups in
    let (full, own) =
      scan_groups-IsAllowed answers fill_category q groups empty_scan s (λ typ name h. h) (tt, tt)
        scanned in
    (
      groups,
      full_namespaces s.namespace_map,
      service_list,
      ns,
      srv,
      given,
      full,
      listed,
      cc (e1, e2),
      AllIn-AllTrue (q "namespace") (full_namespaces s.namespace_map) ns full in_ns,
      All-visible (q "service") s.service_map service_list srv own in_srv,
    )
