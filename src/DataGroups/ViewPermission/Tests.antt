-- ===== src/DataGroups/ViewPermission/Tests.antt =====
-- A user with a group that has a namespace and a service.
use apo.Common.{
  String, true, ◌≡◌, refl, List, [], ◌∷◌, string_eq, if◌then◌else◌, ok, err, ◌||◌, All,
}
use apo.DataGroups.ViewPermission.{
  is_nil, check_datasource_permission, groups_of, Answers, DataGroup, Datasource, Target, many, one,
  mem,
}
use apo.DataGroups.ViewPermission.Granted.{check_datasource_permission-granted, granted}

abbrev source : String → String → Datasource
source datasource typ = record { datasource = datasource; typ = typ; category = "apm" }

abbrev group : DataGroup
group = record { datasource_list = source "prod" "namespace" ∷ source "shop" "service" ∷ [] }

abbrev answers : Answers
answers = record {
  check_group_permission = ok true;
  get_data_group = ok (group ∷ []);
  get_user_data_group = ok [];
  get_default_data_group = err "no default";
  get_service_namespace = λ ds. ok ("dev" ∷ []);
  get_service_list = λ namespaces. ok ("cart" ∷ []);
}

abbrev written : Target × Target
written = (many ("prod" ∷ []), many ("cart" ∷ "shop" ∷ []))

checked :
    check_datasource_permission answers 3 "apm"
      (many ("prod" ∷ "dev" ∷ "secret" ∷ []))
      (many ("cart" ∷ "shop" ∷ "bank" ∷ []))
    ≡ ok written
unfolding check_datasource_permission
checked = refl

-- The namespace "dev" stands for the services in it that the user may view.
part_of_namespace :
    check_datasource_permission answers 3 "apm" (many ("dev" ∷ [])) (many [])
    ≡ ok (many [], many ("shop" ∷ []))
unfolding check_datasource_permission
part_of_namespace = refl

-- A single namespace that the user may not view stays in the request.
single_namespace :
    check_datasource_permission answers 3 "apm" (one "secret") (many ("shop" ∷ []))
    ≡ ok (one "secret", many ("shop" ∷ []))
unfolding check_datasource_permission
single_namespace = refl

check_datasource_permission-granted_example :
    (groups : List DataGroup) × (asked : List String) × (service_list : List String) × (ns : List
      String)
    × (srv : List String) × (groups_of answers 3 ≡ ok groups)
    × All (λ n. granted "apm" groups "namespace" n ≡ true) asked
    × ((if is_nil asked then ok [] else answers.get_service_list asked) ≡ ok service_list)
    × (written ≡ (many ns, many srv))
    × All (λ n. granted "apm" groups "namespace" n ≡ true) ns
    × All (λ v. (granted "apm" groups "service" v || mem v service_list) ≡ true) srv
check_datasource_permission-granted_example =
    check_datasource_permission-granted answers 3 "apm" ("prod" ∷ "dev" ∷ "secret" ∷ [])
      ("cart" ∷ "shop" ∷ "bank" ∷ []) written checked
