-- ===== src/DataGroups/ViewPermission.antt =====
-- `CheckDatasourcePermission` of service_check_datasource_permission.go. What the database and
-- Prometheus answer is a parameter; errors are their messages. The code iterates over its maps in an
-- order that Go chooses, here in the order of insertion: it decides the order of what is filled in,
-- and which value a target for one string gets.
pub mod Scanned
pub mod Authorised
pub mod Granted
pub mod Tests
use text.Mathlib.Text.{◌==◌ as str_eq}
use apo.Common.{
  ℕ, String, Bool, true, false, not, ◌&&◌, ◌||◌, Option, none, some, List, [], ◌∷◌, ◌++◌, any, keep,
  if◌then◌else◌, ◌==◌, Dict, lookup, put, has, string_eq, Result, ok, err,
}

pub record Datasource : Type 0 where
  pub datasource : String
  pub typ : String
  pub category : String

pub record DataGroup : Type 0 where
  pub datasource_list : List Datasource

-- `namespaces` and `services`: nil, a `*string`, a `*[]string`, or a value of another type.
pub data Target : Type 0 where
  nil_target : Target
  one : String → Target
  many : List String → Target
  other_type : Target

-- The answers to the queries, in the order of the code. `get_service_list` takes namespaces.
pub record Answers : Type 0 where
  pub check_group_permission : Result Bool
  pub get_data_group : Result (List DataGroup)
  pub get_user_data_group : Result (List DataGroup)
  pub get_default_data_group : Result DataGroup
  pub get_service_namespace : String → Result (List String)
  pub get_service_list : List String → Result (List String)

abbrev pub mem : String → List String → Bool
mem x xs = any (λ y. str_eq y x) xs

infixl 5 ◌>>=◌
abbrev pub ◌>>=◌ {ℓ κ} : {A : Type ℓ} {B : Type κ} → Result A → (A → Result B) → Result B
err e >>= f = err e
ok a >>= f = f a

abbrev pub checked_group : Bool → Result (List DataGroup) → Result (List DataGroup)
checked_group true groups = groups
checked_group false groups = err "does not have group permission"

abbrev pub or_default : Result DataGroup → List DataGroup → Result (List DataGroup)
or_default default (group ∷ groups) = ok (group ∷ groups)
or_default (ok default) [] = ok (default ∷ [])
or_default (err e) [] = err e

-- The groups of the request, or the default group if there are none.
abbrev pub groups_of : Answers → ℕ → Result (List DataGroup)
groups_of answers group_id = do
  groups ←
      if group_id == 0
      then answers.get_user_data_group
      else (answers.check_group_permission >>= λ allowed.
          checked_group allowed answers.get_data_group)
  or_default answers.get_default_data_group groups

-- The maps of the function. A namespace is mapped to whether the user may view all of it.
pub record Scan : Type 0 where
  pub namespace_map : Dict String Bool
  pub service_map : List String
  pub namespace_srv_map : Dict String (List String)

abbrev pub services_in : Option (List String) → List String
services_in none = []
services_in (some services) = services

unfoldable pub note_service : String → List String → Scan → Scan
unfolding lookup put has
note_service ds [] s = s
note_service ds (namespace ∷ namespaces) s = note_service ds namespaces (record s {
  namespace_map =
      if has namespace s.namespace_map
      then s.namespace_map
      else put namespace false s.namespace_map;
  namespace_srv_map =
      put namespace (services_in (lookup namespace s.namespace_srv_map) ++ ds ∷ [])
        s.namespace_srv_map;
})

abbrev pub with_service : String → Scan → Scan
with_service ds s = record s { service_map = s.service_map ++ ds ∷ [] }

unfoldable pub scan_one : Answers → String → Datasource → Scan → Result Scan
unfolding put note_service
scan_one answers fill_category d s =
    if not (str_eq fill_category "") && not (str_eq d.category fill_category)
    then ok s
    else if str_eq d.typ "namespace"
    then ok (record s { namespace_map = put d.datasource true s.namespace_map })
    else if str_eq d.typ "service"
    then (answers.get_service_namespace d.datasource >>= λ namespaces.
        ok (with_service d.datasource (note_service d.datasource namespaces s)))
    else ok s

unfoldable pub scan_list : Answers → String → List Datasource → Scan → Result Scan
unfolding scan_one
scan_list answers fill_category [] s = ok s
scan_list answers fill_category (d ∷ ds) s =
    scan_one answers fill_category d s >>= scan_list answers fill_category ds

unfoldable pub scan_groups : Answers → String → List DataGroup → Scan → Result Scan
unfolding scan_list
scan_groups answers fill_category [] s = ok s
scan_groups answers fill_category (group ∷ groups) s =
    scan_list answers fill_category group.datasource_list s
    >>= scan_groups answers fill_category groups

abbrev pub empty_scan : Scan
empty_scan = record { namespace_map = []; service_map = []; namespace_srv_map = [] }

-- The namespaces that the user may view all of.
abbrev pub full_namespaces : Dict String Bool → List String
full_namespaces [] = []
full_namespaces ((namespace, full) ∷ rest) =
    let others = full_namespaces rest in if full then namespace ∷ others else others

abbrev pub to_string_slice : Target → Result (List String)
to_string_slice nil_target = ok []
to_string_slice (one value) = ok (if str_eq value "" then [] else value ∷ [])
to_string_slice (many values) = ok values
to_string_slice other_type = err "unsupported type"

-- The target after the assignment; a `*string` is left as it is when there is no value.
abbrev pub set_interface : Target → List String → Target
set_interface nil_target values = nil_target
set_interface (one old) [] = one old
set_interface (one old) (value ∷ values) = one value
set_interface (many old) values = many values
set_interface other_type values = other_type

abbrev pub is_nil : List String → Bool
is_nil [] = true
is_nil (x ∷ xs) = false

abbrev pub is_nil_target : Target → Bool
is_nil_target nil_target = true
is_nil_target target = false

abbrev pub no_data : Result (Target × Target)
no_data = err "data group does not have corresponding data"

-- Nothing was asked for: the namespaces are filled in, or else the services.
abbrev pub fill_targets : Target → Target → List String → List String → Result (Target × Target)
fill_targets namespaces services namespace_ds service_ds =
    if not (is_nil_target namespaces) && not (is_nil namespace_ds)
    then ok (set_interface namespaces namespace_ds, services)
    else if not (is_nil_target services) && not (is_nil service_ds)
    then ok (namespaces, set_interface services service_ds)
    else no_data

-- The services that the user may view, each once, after `filtered`.
unfoldable pub filter_services : List String → List String → List String → List String
filter_services visible filtered [] = filtered
filter_services visible filtered (service ∷ services) =
    filter_services visible
      (if mem service visible && not (mem service filtered)
        then filtered ++ service ∷ []
        else filtered)
      services

-- The services to append for a namespace that the user may view in part: none if one of them is
-- asked for.
abbrev pub to_append : List String → List String → List String
to_append asked services =
    if any (λ service. mem service asked) services
    then []
    else keep (λ service. not (mem service asked)) services

abbrev pub namespace_step :
    Scan
    → List String
    → String
    → Option Bool
    → List String × List String
    → List String × List String
unfolding lookup
namespace_step s asked namespace none (filtered_ns, filtered_srv) = (filtered_ns, filtered_srv)
namespace_step s asked namespace (some true) (filtered_ns, filtered_srv) =
    (filtered_ns ++ namespace ∷ [], filtered_srv)
namespace_step s asked namespace (some false) (filtered_ns, filtered_srv) = (
  filtered_ns,
  filtered_srv ++ to_append asked (services_in (lookup namespace s.namespace_srv_map)),
)

unfoldable pub filter_namespaces :
    Scan → List String → List String → List String × List String → List String × List String
unfolding lookup namespace_step
filter_namespaces s asked [] filtered = filtered
filter_namespaces s asked (namespace ∷ namespaces) filtered =
    filter_namespaces s asked namespaces
      (namespace_step s asked namespace (lookup namespace s.namespace_map) filtered)

abbrev pub write_filtered :
    Target
    → Target
    → List String
    → List String
    → List String × List String
    → Result (Target × Target)
write_filtered namespaces services namespace_ds service_ds (filtered_ns, filtered_srv) =
    if is_nil filtered_ns && is_nil filtered_srv
    then (if not (is_nil namespace_ds) && not (is_nil service_ds)
        then err "no permission"
        else no_data)
    else ok (set_interface namespaces filtered_ns, set_interface services filtered_srv)

-- The part after the maps are made.
unfoldable pub check_targets :
    Scan → List String → Target → Target → List String → List String → Result (Target × Target)
unfolding filter_services filter_namespaces
check_targets s service_list namespaces services namespaces_slice services_slice =
    let namespace_ds = full_namespaces s.namespace_map in
    let visible = s.service_map ++ service_list in
    let service_ds = filter_services visible [] visible in
    let filtered_srv = filter_services visible [] services_slice in
    if is_nil namespaces_slice && is_nil services_slice
    then fill_targets namespaces services namespace_ds service_ds
    else write_filtered namespaces services namespace_ds service_ds
        (filter_namespaces s filtered_srv namespaces_slice ([], filtered_srv))

-- The two targets after the call.
unfoldable pub check_datasource_permission :
    Answers → ℕ → String → Target → Target → Result (Target × Target)
unfolding scan_groups check_targets
check_datasource_permission answers group_id fill_category namespaces services = do
  groups ← groups_of answers group_id
  s ← scan_groups answers fill_category groups empty_scan
  namespaces_slice ← to_string_slice namespaces
  services_slice ← to_string_slice services
  service_list ←
      if is_nil (full_namespaces s.namespace_map)
      then ok []
      else answers.get_service_list (full_namespaces s.namespace_map)
  check_targets s service_list namespaces services namespaces_slice services_slice
