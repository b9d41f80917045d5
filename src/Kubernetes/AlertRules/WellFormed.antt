-- ===== src/Kubernetes/AlertRules/WellFormed.antt =====
-- The invariant of a rule file: rules have different names, and the groups of all are listed.
use apo.Common.{
  All-append, All-remove_first, any-remove_first-false, Bool-cases, String, Bool, true, false, not,
  ◌&&◌, ◌≡◌, refl, List, [], ◌∷◌, ◌++◌, arith, eq_iff, any, any-append, index_where, remove_first,
  remove_element-index_where, Option-cases, inl, inr, All,
}
use apo.Kubernetes.AlertRules.{
  AlertRule, AlertRules, AlertGroup, is_alert, is_group, check_group_exists, check_alert_exists,
  check_and_remove_alert_rule, add_to, update_in, moved, add_rule, replace,
}
use apo.Kubernetes.AlertRules.Members.{Unique, same_name, check_alert_exists-remove}

-- The group of every rule is among `gs`.
abbrev pub Grouped : List AlertGroup → List AlertRule → Type 0
Grouped gs rules = All (λ r. any (is_group r.group) gs ≡ true) rules

pub record IsWellFormed (rs : AlertRules) : Type 0 where
  pub unique : Unique rs.rules
  pub grouped : Grouped rs.groups rs.rules

Unique-append :
    (rs : List AlertRule) (r : AlertRule)
    → Unique rs
    → any (is_alert r.group r.alert) rs ≡ false
    → Unique (rs ++ r ∷ [])
Unique-append [] r u h = (refl, tt)
Unique-append (x ∷ xs) r (first, u) h = (
  ground (
    arith,
    any-append (is_alert x.group x.alert) xs (r ∷ []),
    eq_iff r.alert x.alert,
    eq_iff r.group x.group,
    eq_iff x.alert r.alert,
    eq_iff x.group r.group,
  ),
  Unique-append xs r u (ground arith),
)

Unique-remove_first :
    (p : AlertRule → Bool) (rs : List AlertRule) → Unique rs → Unique (remove_first p rs)
Unique-remove_first p [] u = tt
Unique-remove_first p (r ∷ rs) (first, u) = elim (Bool-cases (p r)) [
  | inl e ↦ rw e u
  | inr e ↦ rw e (any-remove_first-false p _ rs first, Unique-remove_first p rs u)
]

pub check_and_remove-IsWellFormed :
    (group alert : String) (rs : AlertRules)
    → IsWellFormed rs
    → IsWellFormed (check_and_remove_alert_rule group alert rs).0
unfolding check_and_remove_alert_rule
check_and_remove-IsWellFormed group alert rs w =
    elim (Option-cases (index_where (is_alert group alert) rs.rules)) [
      | inl missing ↦ rw missing w
      | inr (i, found) ↦ rw found (record {
        unique =
            rw (remove_element-index_where _ _ i found) (Unique-remove_first _ rs.rules w.unique);
        grouped =
            rw (remove_element-index_where _ _ i found) (All-remove_first _ _ rs.rules w.grouped);
      })
    ]

add_rule-IsWellFormed :
    (rule : AlertRule) (rs : AlertRules)
    → IsWellFormed rs
    → check_group_exists rule.group rs ≡ true
    → check_alert_exists rule.group rule.alert rs ≡ false
    → IsWellFormed (add_rule rule rs)
unfolding check_group_exists check_alert_exists
add_rule-IsWellFormed rule rs w g a = record {
  unique = Unique-append rs.rules rule w.unique a;
  grouped = All-append _ rs.rules (rule ∷ []) w.grouped (g, tt);
}

-- Adding a rule whose group is listed keeps the invariant, whether the rule is added or refused.
pub add_to-IsWellFormed :
    (rule : AlertRule) (rs : AlertRules)
    → IsWellFormed rs
    → check_group_exists rule.group rs ≡ true
    → IsWellFormed (add_to rule rs).0
unfolding add_to
add_to-IsWellFormed rule rs w g = elim (Bool-cases (check_alert_exists rule.group rule.alert rs)) [
  | inl taken ↦ rw (g, taken) w
  | inr free ↦ rw (g, free) (add_rule-IsWellFormed rule rs w g free)
]

check_group_exists-remove :
    (group alert g : String) (rs : AlertRules)
    → check_group_exists g (check_and_remove_alert_rule group alert rs).0 ≡ check_group_exists g rs
unfolding check_group_exists check_and_remove_alert_rule
check_group_exists-remove group alert g rs =
    elim (Option-cases (index_where (is_alert group alert) rs.rules)) [
      | inl missing ↦ rw missing
      | inr (i, found) ↦ rw found
    ]

replace-IsWellFormed :
    (rule : AlertRule) (old_group old_alert : String) (rs : AlertRules)
    → IsWellFormed rs
    → check_group_exists rule.group rs ≡ true
    → (check_alert_exists rule.group rule.alert rs
        && not (same_name old_group old_alert rule.group rule.alert))
      ≡ false
    → IsWellFormed (replace rule old_group old_alert rs)
replace-IsWellFormed rule old_group old_alert rs w g a =
    add_rule-IsWellFormed rule (check_and_remove_alert_rule old_group old_alert rs).0
      (check_and_remove-IsWellFormed old_group old_alert rs w)
      (rw (check_group_exists-remove old_group old_alert rule.group rs) g)
      (rw (check_alert_exists-remove old_group old_alert rule.group rule.alert rs w.unique) a)

not-moved_free :
    (rule : AlertRule) (old_group old_alert : String) (rs : AlertRules)
    → moved rule old_group old_alert ≡ false
    → (check_alert_exists rule.group rule.alert rs
        && not (same_name old_group old_alert rule.group rule.alert))
      ≡ false
not-moved_free rule old_group old_alert rs h = ground arith

-- Replacing a rule by one whose group is listed keeps the invariant, also when it is refused.
pub update_in-IsWellFormed :
    (rule : AlertRule) (old_group old_alert : String) (rs : AlertRules)
    → IsWellFormed rs
    → check_group_exists rule.group rs ≡ true
    → IsWellFormed (update_in rule old_group old_alert rs).0
unfolding update_in
update_in-IsWellFormed rule old_group old_alert rs w g =
    elim (Bool-cases (check_group_exists old_group rs)) [
      | inr no_group ↦ rw no_group w
      | inl group ↦ elim (Bool-cases (check_alert_exists old_group old_alert rs)) [
        | inr no_alert ↦ rw (group, no_alert) w
        | inl alert ↦ elim (Bool-cases (moved rule old_group old_alert)) [
          | inl other ↦ elim (Bool-cases (check_alert_exists rule.group rule.alert rs)) [
            | inl taken ↦ rw (group, alert, other, taken) w
            | inr free ↦
                rw (group, alert, other, free, g)
                  (replace-IsWellFormed rule old_group old_alert rs w g (rw free))
          ]
          | inr same ↦
              rw (group, alert, same)
                (replace-IsWellFormed rule old_group old_alert rs w g
                  (not-moved_free rule old_group old_alert rs same))
        ]
      ]
    ]
