-- ===== src/DataGroups/ViewPermission/Scanned.antt =====
-- The services that the scan of the groups notes are services that the user may view.
use text.Mathlib.Text.{◌==◌ as str_eq}
use apo.Common.{
  String, Bool, true, false, not, ◌&&◌, ◌≡◌, refl, List, [], ◌∷◌, ◌++◌, All, arith, if◌then◌else◌,
  Dict, lookup, put, string_eq, eq_refl, sym, subst, ◌∙◌, inl, inr, Bool-cases, All-append,
  any-append, eq_of_ok, Result, ok, err,
}
use apo.DataGroups.ViewPermission.{
  mem, note_service, scan_groups, scan_list, scan_one, services_in, with_service, ◌>>=◌, Scan,
  Answers, Datasource, DataGroup,
}

-- All services are in a list.
abbrev pub AllIn : List String → List String → Type 0
AllIn visible services = All (λ service. mem service visible ≡ true) services

-- The services that are noted for namespaces.
abbrev pub ListsOnly : List String → Dict String (List String) → Type 0
ListsOnly visible m = All (λ (entry : String × List String). AllIn visible entry.1) m

pub mem-append : (x : String) (xs ys : List String) → mem x xs ≡ true → mem x (xs ++ ys) ≡ true
mem-append x xs ys h = any-append (λ y. str_eq y x) xs ys ∙ ground (arith, h)

pub AllIn-more :
    (visible more services : List String)
    → AllIn visible services
    → AllIn (visible ++ more) services
AllIn-more visible more [] a = tt
AllIn-more visible more (x ∷ xs) (h, a) =
    (mem-append x visible more h, AllIn-more visible more xs a)

pub ListsOnly-more :
    (visible more : List String) (m : Dict String (List String))
    → ListsOnly visible m
    → ListsOnly (visible ++ more) m
ListsOnly-more visible more [] a = tt
ListsOnly-more visible more ((k, services) ∷ m) (h, a) =
    (AllIn-more visible more services h, ListsOnly-more visible more m a)

pub mem-cons : (x y : String) (xs : List String) → mem x xs ≡ true → mem x (y ∷ xs) ≡ true
mem-cons x y xs h = ground (arith, h)

pub AllIn-cons :
    (y : String) (xs services : List String) → AllIn xs services → AllIn (y ∷ xs) services
AllIn-cons y xs [] a = tt
AllIn-cons y xs (s ∷ ss) (h, a) = (mem-cons s y xs h, AllIn-cons y xs ss a)

pub AllIn-self : (xs : List String) → AllIn xs xs
AllIn-self [] = tt
AllIn-self (x ∷ xs) = (ground (arith, eq_refl x), AllIn-cons x xs xs (AllIn-self xs))

ListsOnly-put :
    (visible services : List String) (k : String) (m : Dict String (List String))
    → AllIn visible services
    → ListsOnly visible m
    → ListsOnly visible (put k services m)
unfolding put
ListsOnly-put visible services k [] h a = (h, tt)
ListsOnly-put visible services k ((j, others) ∷ m) h (g, a) = elim (Bool-cases (str_eq j k)) [
  | inl same ↦ rw same (h, a)
  | inr differs ↦ rw differs (g, ListsOnly-put visible services k m h a)
]

pub ListsOnly-lookup :
    (visible : List String) (k : String) (m : Dict String (List String))
    → ListsOnly visible m
    → AllIn visible (services_in (lookup k m))
unfolding lookup
ListsOnly-lookup visible k [] a = tt
ListsOnly-lookup visible k ((j, services) ∷ m) (h, a) = elim (Bool-cases (str_eq j k)) [
  | inl same ↦ rw same h
  | inr differs ↦ rw differs (ListsOnly-lookup visible k m a)
]

note_service-ListsOnly :
    (ds : String) (namespaces visible : List String) (s : Scan)
    → mem ds visible ≡ true
    → ListsOnly visible s.namespace_srv_map
    → ListsOnly visible (note_service ds namespaces s).namespace_srv_map
      × ((note_service ds namespaces s).service_map ≡ s.service_map)
unfolding note_service
note_service-ListsOnly ds [] visible s h a = (a, refl)
note_service-ListsOnly ds (namespace ∷ namespaces) visible s h a =
    note_service-ListsOnly ds namespaces visible _ h (
      ListsOnly-put visible _ namespace s.namespace_srv_map
        (All-append _ (services_in (lookup namespace s.namespace_srv_map)) (ds ∷ [])
          (ListsOnly-lookup visible namespace s.namespace_srv_map a) (h, tt))
        a)

pub of_ok :
    {A B : Type 0} (o : Result A) (f : A → Result B) (b : B)
    → o >>= f ≡ ok b
    → (a : A) × (o ≡ ok a) × (f a ≡ ok b)
of_ok (ok a) f b e = (a, refl, e)
of_ok (err x) f b e = absurd (ground (arith, e))

-- The noted services are services that the user may view.
abbrev pub IsSound : Scan → Type 0
IsSound s = ListsOnly s.service_map s.namespace_srv_map

last_mem : (ds : String) (xs : List String) → mem ds (xs ++ ds ∷ []) ≡ true
last_mem ds xs = any-append (λ y. str_eq y ds) xs (ds ∷ []) ∙ ground (arith, eq_refl ds)

with_service-IsSound :
    (ds : String) (namespaces : List String) (s : Scan)
    → IsSound s
    → IsSound (with_service ds (note_service ds namespaces s))
with_service-IsSound ds namespaces s a =
    let (noted, same) =
      note_service-ListsOnly ds namespaces (s.service_map ++ ds ∷ []) s (last_mem ds s.service_map)
        (ListsOnly-more s.service_map (ds ∷ []) s.namespace_srv_map a) in
    subst (λ l. ListsOnly (l ++ ds ∷ []) (note_service ds namespaces s).namespace_srv_map)
      (sym same) noted

scan_one-IsSound :
    (answers : Answers) (fill_category : String) (d : Datasource) (s s2 : Scan)
    → IsSound s
    → scan_one answers fill_category d s ≡ ok s2
    → IsSound s2
unfolding scan_one
scan_one-IsSound answers fill_category d s s2 a e =
    by_tests (not (str_eq fill_category "") && not (str_eq d.category fill_category))
      (str_eq d.typ "namespace") (str_eq d.typ "service") e
  where
    by_tests :
        (skipped is_namespace is_service : Bool)
        → (if skipped
            then ok s
            else if is_namespace
            then ok (record s { namespace_map = put d.datasource true s.namespace_map })
            else if is_service
            then (answers.get_service_namespace d.datasource >>= λ namespaces.
                ok (with_service d.datasource (note_service d.datasource namespaces s)))
            else ok s)
          ≡ ok s2
        → IsSound s2
    by_tests true b c h = subst IsSound (eq_of_ok h) a
    by_tests false true c h = subst IsSound (eq_of_ok h) a
    by_tests false false true h =
        let (namespaces, given, made) =
          of_ok (answers.get_service_namespace d.datasource)
            (λ namespaces. ok (with_service d.datasource (note_service d.datasource namespaces s)))
            s2 h in
        subst IsSound (eq_of_ok made) (with_service-IsSound d.datasource namespaces s a)
    by_tests false false false h = subst IsSound (eq_of_ok h) a

scan_list-IsSound :
    (answers : Answers) (fill_category : String) (ds : List Datasource) (s s2 : Scan)
    → IsSound s
    → scan_list answers fill_category ds s ≡ ok s2
    → IsSound s2
unfolding scan_list
scan_list-IsSound answers fill_category [] s s2 a e = subst IsSound (eq_of_ok e) a
scan_list-IsSound answers fill_category (d ∷ ds) s s2 a e =
    let (s1, first, rest) =
      of_ok (scan_one answers fill_category d s) (scan_list answers fill_category ds) s2 e in
    scan_list-IsSound answers fill_category ds s1 s2
      (scan_one-IsSound answers fill_category d s s1 a first) rest

pub scan_groups-IsSound :
    (answers : Answers) (fill_category : String) (groups : List DataGroup) (s s2 : Scan)
    → IsSound s
    → scan_groups answers fill_category groups s ≡ ok s2
    → IsSound s2
unfolding scan_groups
scan_groups-IsSound answers fill_category [] s s2 a e = subst IsSound (eq_of_ok e) a
scan_groups-IsSound answers fill_category (group ∷ groups) s s2 a e =
    let (s1, first, rest) =
      of_ok (scan_list answers fill_category group.datasource_list s)
        (scan_groups answers fill_category groups) s2 e in
    scan_groups-IsSound answers fill_category groups s1 s2
      (scan_list-IsSound answers fill_category group.datasource_list s s1 a first) rest
