-- ===== src/Kubernetes/AlertRules/Members.antt =====
-- Which rules a file has after each operation.
use text.Mathlib.Text.{◌==◌}
use apo.Common.{
  ◌++◌, remove_first-eq_self, sym, String, Bool, false, not, ◌&&◌, ◌||◌, ◌≡◌, refl, none, List, [],
  ◌∷◌, arith, eq_iff, any, any-append, index_where, remove_first, remove_element-index_where,
  any-index_where-none, Option-cases, inl, inr, any-index_where-some, ◌≢◌,
}
use apo.Kubernetes.AlertRules.{
  check_group_exists, new_group, is_group, AlertRule, AlertRules, is_alert, check_alert_exists,
  check_and_remove_alert_rule, add_to, update_in, add_rule, add_group,
}
use apo.Kubernetes.Labels.{get_label, get_label-ne}

-- At most one rule has a given group and alert name.
abbrev pub Unique : List AlertRule → Type 0
Unique [] = Unit
Unique (r ∷ rs) = (any (is_alert r.group r.alert) rs ≡ false) × Unique rs

-- The rule at `group` and `alert` is the one at `g` and `a`.
abbrev pub same_name : String → String → String → String → Bool
same_name group alert g a = alert == a && group == g

pub any-remove_first :
    (group alert g a : String) (rs : List AlertRule)
    → Unique rs
    → any (is_alert g a) (remove_first (is_alert group alert) rs)
      ≡ (any (is_alert g a) rs && not (same_name group alert g a))
any-remove_first group alert g a [] u = refl
any-remove_first group alert g a (r ∷ rs) (first, u) = ground (
  arith,
  any-remove_first group alert g a rs u,
  eq_iff r.alert alert,
  eq_iff r.group group,
  eq_iff alert a,
  eq_iff group g,
  eq_iff r.alert a,
  eq_iff r.group g,
)

pub check_alert_exists-remove :
    (group alert g a : String) (rs : AlertRules)
    → Unique rs.rules
    → check_alert_exists g a (check_and_remove_alert_rule group alert rs).0
      ≡ (check_alert_exists g a rs && not (same_name group alert g a))
unfolding check_alert_exists check_and_remove_alert_rule
check_alert_exists-remove group alert g a rs u =
    elim (Option-cases (index_where (is_alert group alert) rs.rules)) [
      | inl missing ↦ rw missing (
          ground (
            arith,
            any-index_where-none (is_alert group alert) rs.rules missing,
            eq_iff alert a,
            eq_iff group g,
          ))
      | inr (i, found) ↦
          rw (found, remove_element-index_where _ _ i found)
            (any-remove_first group alert g a rs.rules u)
    ]

pub check_alert_exists-add_rule :
    (g a : String) (rule : AlertRule) (rs : AlertRules)
    → check_alert_exists g a (add_rule rule rs)
      ≡ (check_alert_exists g a rs || same_name rule.group rule.alert g a)
unfolding check_alert_exists
check_alert_exists-add_rule g a rule rs =
    ground (arith, any-append (is_alert g a) rs.rules (rule ∷ []))

pub check_alert_exists-add_group :
    (g a group : String) (rs : AlertRules)
    → check_alert_exists g a (add_group group rs) ≡ check_alert_exists g a rs
unfolding check_alert_exists
check_alert_exists-add_group g a group rs = refl

pub add_to-members :
    (rule : AlertRule) (rs : AlertRules) (g a : String)
    → (add_to rule rs).1 ≡ none
    → check_alert_exists g a (add_to rule rs).0
      ≡ (check_alert_exists g a rs || same_name rule.group rule.alert g a)
unfolding add_to
add_to-members rule rs g a h = ground (
  arith,
  check_alert_exists-add_rule g a rule rs,
  check_alert_exists-add_rule g a rule (add_group rule.group rs),
  check_alert_exists-add_group g a rule.group rs,
)

pub update_in-members :
    (rule : AlertRule) (old_group old_alert : String) (rs : AlertRules) (g a : String)
    → Unique rs.rules
    → (update_in rule old_group old_alert rs).1 ≡ none
    → check_alert_exists g a (update_in rule old_group old_alert rs).0 ≡ (
        (check_alert_exists g a rs && not (same_name old_group old_alert g a))
        || same_name rule.group rule.alert g a)
unfolding update_in
update_in-members rule old_group old_alert rs g a u h =
    let grown = add_group rule.group rs in
    ground (
      arith,
      check_alert_exists-add_rule g a rule (check_and_remove_alert_rule old_group old_alert rs).0,
      check_alert_exists-add_rule g a rule
          (check_and_remove_alert_rule old_group old_alert grown).0,
      check_alert_exists-remove old_group old_alert g a rs u,
      check_alert_exists-remove old_group old_alert g a grown u,
      check_alert_exists-add_group g a rule.group rs,
    )

check_and_remove-rules :
    (group alert : String) (rs : AlertRules)
    → (check_and_remove_alert_rule group alert rs).0.rules
      ≡ remove_first (is_alert group alert) rs.rules
unfolding check_and_remove_alert_rule
check_and_remove-rules group alert rs =
    elim (Option-cases (index_where (is_alert group alert) rs.rules)) [
      | inl missing ↦
          rw missing
            (sym (remove_first-eq_self _ rs.rules (any-index_where-none _ rs.rules missing)))
      | inr (i, found) ↦ rw found (remove_element-index_where _ rs.rules i found)
    ]

-- The rules of the file after an update.
pub update_in-rules :
    (rule : AlertRule) (old_group old_alert : String) (rs : AlertRules)
    → (update_in rule old_group old_alert rs).1 ≡ none
    → (update_in rule old_group old_alert rs).0.rules
      ≡ remove_first (is_alert old_group old_alert) rs.rules ++ rule ∷ []
unfolding update_in
update_in-rules rule old_group old_alert rs h = ground (
  arith,
  check_and_remove-rules old_group old_alert rs,
  check_and_remove-rules old_group old_alert (add_group rule.group rs),
)

-- The answer of the removal.
pub check_and_remove_answer :
    (group alert : String) (rs : AlertRules)
    → (check_and_remove_alert_rule group alert rs).1 ≡ check_alert_exists group alert rs
unfolding check_alert_exists check_and_remove_alert_rule
check_and_remove_answer group alert rs =
    elim (Option-cases (index_where (is_alert group alert) rs.rules)) [
      | inl missing ↦ rw (missing, any-index_where-none _ rs.rules missing)
      | inr (i, found) ↦ rw (found, any-index_where-some _ rs.rules i found)
    ]

pub check_and_remove_unfound :
    (group alert : String) (rs : AlertRules)
    → (check_and_remove_alert_rule group alert rs).1 ≡ false
    → (check_and_remove_alert_rule group alert rs).0 ≡ rs
unfolding check_and_remove_alert_rule
check_and_remove_unfound group alert rs h = ground arith

pub add_to_failed :
    (rule : AlertRule) (rs : AlertRules) → (add_to rule rs).1 ≢ none → (add_to rule rs).0 ≡ rs
unfolding add_to
add_to_failed rule rs h = ground arith

pub update_in_failed :
    (rule : AlertRule) (old_group old_alert : String) (rs : AlertRules)
    → (update_in rule old_group old_alert rs).1 ≢ none
    → (update_in rule old_group old_alert rs).0 ≡ rs
unfolding update_in
update_in_failed rule old_group old_alert rs h = ground arith

-- A rule of a group that is not listed is added without a look at the names, and the group that is
-- listed with it has another name.
pub add_to_unlisted :
    (rule : AlertRule) (rs : AlertRules)
    → check_group_exists rule.group rs ≡ false
    → rule.group ≢ ""
    → ((add_to rule rs).1 ≡ none) × (check_group_exists rule.group (add_to rule rs).0 ≡ false)
unfolding add_to
add_to_unlisted rule rs g e = (
  ground arith,
  rw g (
      ground (
        arith,
        any-append (is_group rule.group) rs.groups (new_group rule.group ∷ []),
        eq_iff (get_label rule.group).0 rule.group,
        get_label-ne rule.group e,
      )),
)
