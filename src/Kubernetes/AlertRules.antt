-- ===== src/Kubernetes/AlertRules.antt =====
-- metadata.go and alert_rules.go: the alert rules of each rule file, and the operations on them.
-- Each operation holds `alertRulesLock` from its first line to its return, so it is one step here.
-- An operation returns the state beside its error, as Go leaves the state behind.
pub mod Members
pub mod WellFormed
pub mod Files
pub mod Tests
pub mod Marshal
pub mod Query
use text.Mathlib.Text.{◌==◌}
use apo.Common.{
  ℕ, String, Bool, true, false, not, ◌&&◌, ◌||◌, Option, none, some, List, [], ◌∷◌, ◌++◌,
  if◌then◌else◌, Dict, lookup, put, any, index_where, remove_element, string_eq,
}
use apo.Kubernetes.Labels.{get_label}

pub record AlertRule : Type 0 where
  pub group : String
  pub record_name : String
  pub alert : String
  pub expr : String
  pub for : String
  pub keep_firing_for : String
  pub labels : Dict String String
  pub annotations : Dict String String

-- A `model.Duration` is a number of nanoseconds.
pub record AlertGroup : Type 0 where
  pub name : String
  pub interval : ℕ
  pub query_offset : Option ℕ
  pub limit : ℕ

pub record AlertRules : Type 0 where
  pub rules : List AlertRule
  pub groups : List AlertGroup

-- `AlertRulesMap`, from the name of a rule file.
abbrev pub Metadata : Type 0
Metadata = Dict String AlertRules

-- `ErrWithMessage`, by its code and the value that its text names.
pub data Error : Type 0 where
  config_file_not_exist : String → Error
  alert_already_exist : String → Error
  old_group_not_exist : String → Error
  alert_not_exist : String → Error

unfoldable pub set_alert_rules : Metadata → String → AlertRules → Metadata
unfolding put
set_alert_rules m file rules = put file rules m

abbrev pub is_group : String → AlertGroup → Bool
is_group group g = g.name == group

abbrev pub is_alert : String → String → AlertRule → Bool
is_alert group alert r = r.alert == alert && r.group == group

unfoldable pub check_group_exists : String → AlertRules → Bool
check_group_exists group rs = any (is_group group) rs.groups

unfoldable pub check_alert_exists : String → String → AlertRules → Bool
check_alert_exists group alert rs = any (is_alert group alert) rs.rules

-- The loop over the rules, and the removal at the index where it stops.
abbrev pub remove_at : AlertRules → Option ℕ → AlertRules × Bool
remove_at rs none = (rs, false)
remove_at rs (some i) = (record rs { rules = remove_element rs.rules i }, true)

unfoldable pub check_and_remove_alert_rule : String → String → AlertRules → AlertRules × Bool
check_and_remove_alert_rule group alert rs =
    remove_at rs (index_where (is_alert group alert) rs.rules)

-- `alertRules.Groups = append(alertRules.Groups, AlertGroup{Name: name})`
abbrev pub new_group : String → AlertGroup
new_group group = record {
  name = (get_label group).0;
  interval = 0;
  query_offset = none;
  limit = 0;
}

abbrev pub add_group : String → AlertRules → AlertRules
add_group group rs = record rs { groups = rs.groups ++ new_group group ∷ [] }

abbrev pub add_rule : AlertRule → AlertRules → AlertRules
add_rule rule rs = record rs { rules = rs.rules ++ rule ∷ [] }

-- The body of `AddAlertRule` once the file is found.
unfoldable pub add_to : AlertRule → AlertRules → AlertRules × Option Error
unfolding check_group_exists check_alert_exists
add_to rule rs =
    if check_group_exists rule.group rs
    then (if check_alert_exists rule.group rule.alert rs
        then (rs, some (alert_already_exist rule.alert))
        else (add_rule rule rs, none))
    else (add_rule rule (add_group rule.group rs), none)

-- The body of `UpdateAlertRule` once the file is found.
abbrev pub moved : AlertRule → String → String → Bool
moved rule old_group old_alert = not (old_group == rule.group) || not (old_alert == rule.alert)

abbrev pub replace : AlertRule → String → String → AlertRules → AlertRules
replace rule old_group old_alert rs =
    add_rule rule (check_and_remove_alert_rule old_group old_alert rs).0

unfoldable pub update_in : AlertRule → String → String → AlertRules → AlertRules × Option Error
unfolding check_group_exists check_alert_exists check_and_remove_alert_rule
update_in rule old_group old_alert rs =
    if not (check_group_exists old_group rs)
    then (rs, some (old_group_not_exist old_group))
    else if not (check_alert_exists old_group old_alert rs)
    then (rs, some (alert_not_exist old_alert))
    else if moved rule old_group old_alert
    then (if check_alert_exists rule.group rule.alert rs
        then (rs, some (alert_already_exist rule.alert))
        else if not (check_group_exists rule.group rs)
        then (replace rule old_group old_alert (add_group rule.group rs), none)
        else (replace rule old_group old_alert rs, none))
    else (replace rule old_group old_alert rs, none)

-- The pointer in the map is one that the body wrote through.
module _ {ℓ} {A : Type ℓ} (absent : A) (body : AlertRules → AlertRules × A) (m : Metadata)
    (file : String) where
  abbrev pub in_found : Option AlertRules → Metadata × A
  in_found none = (m, absent)
  in_found (some rs) = (put file (body rs).0 m, (body rs).1)

  abbrev pub in_file : Metadata × A
  in_file = in_found (lookup file m)

unfoldable pub add_alert_rule : Metadata → String → AlertRule → Metadata × Option Error
unfolding add_to lookup put
add_alert_rule m file rule = in_file (some (config_file_not_exist file)) (add_to rule) m file

unfoldable pub update_alert_rule :
    Metadata → String → AlertRule → String → String → Metadata × Option Error
unfolding update_in lookup put
update_alert_rule m file rule old_group old_alert =
    in_file (some (config_file_not_exist file)) (update_in rule old_group old_alert) m file

unfoldable pub delete_alert_rule : Metadata → String → String → String → Metadata × Bool
unfolding check_and_remove_alert_rule lookup put
delete_alert_rule m file group alert =
    in_file false (check_and_remove_alert_rule group alert) m file

-- `true` stands for "the name is free": the answer of the form that checks a new rule.
pub data CheckResult : Type 0 where
  answer : Bool → CheckResult
  failed : Error → CheckResult

abbrev pub check_found : String → String → String → Option AlertRules → CheckResult
check_found file group alert none = failed (config_file_not_exist file)
check_found file group alert (some rs) =
    answer (not (check_group_exists group rs && check_alert_exists group alert rs))

unfoldable pub check_alert_rule_exists : Metadata → String → String → String → CheckResult
unfolding check_group_exists check_alert_exists lookup
check_alert_rule_exists m file group alert = check_found file group alert (lookup file m)
