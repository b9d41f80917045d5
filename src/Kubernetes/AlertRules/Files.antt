-- ===== src/Kubernetes/AlertRules/Files.antt =====
-- The operations of `Metadata` on a rule file, as a client of all files sees them.
use text.Mathlib.Text.{◌==◌}
use apo.Common.{
  ◌++◌, ◌∷◌, [], refl, List, remove_first, ◌∙◌, String, Bool, true, false, not, ◌&&◌, ◌||◌, ◌≡◌,
  ◌≢◌, ◌↔◌, Option, none, some, arith, eq_iff, eq_refl, Bool-cases, Option-cases, inl, inr,
  if◌then◌else◌, subst, eq_of_some, ◌⊎◌, lookup, put, lookup-put, string_eq,
}
use apo.Kubernetes.AlertRules.{
  is_alert, AlertRule, AlertRules, Metadata, check_group_exists, check_alert_exists,
  check_and_remove_alert_rule, add_to, update_in, moved, Error, in_file, add_alert_rule,
  update_alert_rule, delete_alert_rule, check_alert_rule_exists, answer, config_file_not_exist,
}
use apo.Kubernetes.AlertRules.Members.{
  update_in-rules, check_and_remove_answer, add_to_failed, update_in_failed, add_to_unlisted,
  same_name, check_and_remove_unfound, check_alert_exists-remove, add_to-members, update_in-members,
}
use apo.Kubernetes.AlertRules.WellFormed.{
  IsWellFormed, add_to-IsWellFormed, update_in-IsWellFormed, check_and_remove-IsWellFormed,
}
use mathlib.Core.Option

-- The file `f` is loaded and has a rule `a` in the group `g`.
abbrev in_rules : String → String → Option AlertRules → Bool
in_rules g a none = false
in_rules g a (some rs) = check_alert_exists g a rs

unfoldable pub has_rule : Metadata → String → String → String → Bool
has_rule m f g a = in_rules g a (lookup f m)

abbrev group_in : String → Option AlertRules → Bool
group_in g none = false
group_in g (some rs) = check_group_exists g rs

unfoldable pub has_group : Metadata → String → String → Bool
has_group m f g = group_in g (lookup f m)

module _ (P : AlertRules → Type 0) where
  -- Every loaded file has the property.
  abbrev pub AllFiles : Metadata → Type 0
  AllFiles m = (f : String) (rs : AlertRules) → lookup f m ≡ some rs → P rs

  pub put-AllFiles :
      (m : Metadata) (file : String) (rs : AlertRules)
      → AllFiles m
      → P rs
      → AllFiles (put file rs m)
  put-AllFiles m file rs w k f rs' h = elim (Bool-cases (file == f)) [
    | inl same ↦
        let e : some rs ≡ some rs' = ground (arith, lookup-put file f rs m) in
        subst P (eq_of_some e) k
    | inr other ↦ w f rs' (ground (arith, lookup-put file f rs m))
  ]

  pub in_file-AllFiles :
      {A : Type 0} (absent : A) (body : AlertRules → AlertRules × A) (m : Metadata) (file : String)
      → AllFiles m
      → ((rs : AlertRules) → lookup file m ≡ some rs → P rs → P (body rs).0)
      → AllFiles (in_file absent body m file).0
  in_file-AllFiles absent body m file w keep = elim (Option-cases (lookup file m)) [
    | inl missing ↦ rw missing w
    | inr (rs, found) ↦
        rw found (put-AllFiles m file (body rs).0 w (keep rs found (w file rs found)))
  ]

-- Every loaded file satisfies the invariant.
abbrev pub AllWellFormed : Metadata → Type 0
AllWellFormed = AllFiles IsWellFormed

module _ {A : Type 0} (absent : A) (body : AlertRules → AlertRules × A) (m : Metadata) where
  -- What a file holds after an operation on one file.
  pub lookup-in_file :
      (file f : String)
      → lookup f (in_file absent body m file).0
        ≡ (if file == f then Option.map (λ rs. (body rs).0) (lookup f m) else lookup f m)
  lookup-in_file file f = elim (Option-cases (lookup file m)) [
    | inl missing ↦ rw missing (ground (arith, eq_iff file f))
    | inr (rs, found) ↦ rw found (ground (arith, lookup-put file f (body rs).0 m, eq_iff file f))
  ]

in_file_kept :
    (absent : Option Error) (body : AlertRules → AlertRules × Option Error) (m : Metadata)
    (file f : String)
    → ((rs : AlertRules) → (body rs).1 ≢ none → (body rs).0 ≡ rs)
    → (in_file absent body m file).1 ≢ none
    → lookup f (in_file absent body m file).0 ≡ lookup f m
in_file_kept absent body m file f keep h = elim (Option-cases (lookup file m)) [
  | inl missing ↦ rw missing
  | inr (rs, found) ↦
      ground (arith, found, lookup-put file f (body rs).0 m, eq_iff file f, keep rs (rw found at h))
]

-- Additions, updates and deletions leave what the other files hold.
pub add-others :
    (m : Metadata) (file : String) (rule : AlertRule) (f : String)
    → (file == f) ≡ false
    → lookup f (add_alert_rule m file rule).0 ≡ lookup f m
unfolding add_alert_rule
add-others m file rule f other =
    lookup-in_file (some (config_file_not_exist file)) (add_to rule) m file f ∙ rw other

pub update-others :
    (m : Metadata) (file : String) (rule : AlertRule) (old_group old_alert f : String)
    → (file == f) ≡ false
    → lookup f (update_alert_rule m file rule old_group old_alert).0 ≡ lookup f m
unfolding update_alert_rule
update-others m file rule old_group old_alert f other =
    lookup-in_file (some (config_file_not_exist file)) (update_in rule old_group old_alert) m file f
    ∙ rw other

-- A deletion that finds no rule leaves this file too.
pub delete-others :
    (m : Metadata) (file group alert f : String)
    → ((file == f) ≡ false → lookup f (delete_alert_rule m file group alert).0 ≡ lookup f m)
      × ((delete_alert_rule m file group alert).1 ≡ false
          → lookup f (delete_alert_rule m file group alert).0 ≡ lookup f m)
unfolding delete_alert_rule
delete-others m file group alert f =
    let body = check_and_remove_alert_rule group alert in
    let after = lookup-in_file false body m file f in
    (
      (λ other. after ∙ rw other),
      (λ unfound. elim (Option-cases (lookup file m)) [
        | inl missing ↦ rw missing
        | inr (rs, found) ↦ ground (
          arith,
          found,
          lookup-put file f (body rs).0 m,
          eq_iff file f,
          check_and_remove_unfound group alert rs (rw found at unfound),
        )
      ]),
    )

-- After a successful addition the file has the new rule and those that it had, and no other file
-- has changed.
pub add-members :
    (m : Metadata) (file : String) (rule : AlertRule) (f g a : String)
    → (add_alert_rule m file rule).1 ≡ none
    → has_rule (add_alert_rule m file rule).0 f g a
      ≡ (has_rule m f g a || (file == f && same_name rule.group rule.alert g a))
unfolding has_rule add_alert_rule
add-members m file rule f g a h = elim (Option-cases (lookup file m)) [
  | inl missing ↦ absurd (cc (rw missing at h))
  | inr (rs, found) ↦ ground (
    arith,
    found,
    lookup-in_file (some (config_file_not_exist file)) (add_to rule) m file f,
    add_to-members rule rs g a,
    eq_iff file f,
  )
]

-- An addition fails exactly when the file is not loaded, or when it lists the rule's group and has
-- a rule of that name in the group.
pub add_fails_iff :
    (m : Metadata) (file : String) (rule : AlertRule)
    → ((add_alert_rule m file rule).1 ≢ none) ↔ (
        (lookup file m ≡ none)
        ⊎ ((has_group m file rule.group ≡ true) × (has_rule m file rule.group rule.alert ≡ true)))
unfolding has_rule has_group add_alert_rule
add_fails_iff m file rule = ground arith

-- The rules of a file, none for one that is not loaded.
abbrev pub rules_in : Option AlertRules → List AlertRule
rules_in none = []
rules_in (some rs) = rs.rules

unfoldable pub rules_of : Metadata → String → List AlertRule
unfolding lookup
rules_of m f = rules_in (lookup f m)

-- After a successful update of a file with the invariant, its rules are those that it had without
-- the old rule, and then the new rule, with all of its fields. By their groups and names, the file
-- has lost the old rule and has the new one. Nothing has changed in another file.
pub update-members :
    (m : Metadata) (file : String) (rule : AlertRule) (old_group old_alert : String)
    (f g a : String)
    → AllWellFormed m
    → (update_alert_rule m file rule old_group old_alert).1 ≡ none
    → (has_rule (update_alert_rule m file rule old_group old_alert).0 f g a ≡ (
        if file == f
        then (has_rule m f g a && not (same_name old_group old_alert g a))
          || same_name rule.group rule.alert g a
        else has_rule m f g a))
      × (rules_of (update_alert_rule m file rule old_group old_alert).0 f ≡ (
          if file == f
          then remove_first (is_alert old_group old_alert) (rules_of m f) ++ rule ∷ []
          else rules_of m f))
unfolding has_rule rules_of update_alert_rule
update-members m file rule old_group old_alert f g a w h = elim (Option-cases (lookup file m)) [
  | inl missing ↦ absurd (cc (rw missing at h))
  | inr (rs, found) ↦
      let body = update_in rule old_group old_alert in
      let after = lookup-in_file (some (config_file_not_exist file)) body m file f in
      (
        ground (
          arith,
          found,
          after,
          update_in-members rule old_group old_alert rs g a (w file rs found).unique,
          eq_iff file f,
        ),
        elim (Bool-cases (file == f)) [
          | inl same ↦
              let here : lookup f m ≡ some rs = rw (← (eq_iff file f).0 same) found in
              rw (after, same, here) (update_in-rules rule old_group old_alert rs (rw found at h))
          | inr other ↦ rw (after, other) refl
        ],
      )
]

-- An update succeeds exactly when the file is loaded, lists the old group and has the old rule,
-- and, if the rule changes its name or group, has no rule at the new place.
pub update_succeeds_iff :
    (m : Metadata) (file : String) (rule : AlertRule) (old_group old_alert : String)
    → ((update_alert_rule m file rule old_group old_alert).1 ≡ none) ↔ (
        (has_group m file old_group ≡ true)
        × (has_rule m file old_group old_alert ≡ true)
        × ((moved rule old_group old_alert && has_rule m file rule.group rule.alert) ≡ false))
unfolding has_rule has_group update_alert_rule
update_succeeds_iff m file rule old_group old_alert = ground arith

-- A deletion answers whether the rule was there. With the invariant it removes that rule from its
-- file and nothing else.
pub delete-members :
    (m : Metadata) (file group alert f g a : String)
    → AllWellFormed m
    → ((delete_alert_rule m file group alert).1 ≡ has_rule m file group alert)
      × (has_rule (delete_alert_rule m file group alert).0 f g a
          ≡ (has_rule m f g a && not (file == f && same_name group alert g a)))
unfolding has_rule delete_alert_rule
delete-members m file group alert f g a w = elim (Option-cases (lookup file m)) [
  | inl missing ↦ (ground (arith, missing, eq_iff file f), ground (arith, missing, eq_iff file f))
  | inr (rs, found) ↦
      let body = check_and_remove_alert_rule group alert in
      (
        ground (arith, found, check_and_remove_answer group alert rs),
        ground (
          arith,
          found,
          lookup-in_file false body m file f,
          eq_iff file f,
          check_alert_exists-remove group alert g a rs (w file rs found).unique,
        ),
      )
]

-- An addition or an update that fails leaves what every file holds.
pub failed_keeps_files :
    (m : Metadata) (file : String) (rule : AlertRule) (old_group old_alert f : String)
    → ((add_alert_rule m file rule).1 ≢ none → lookup f (add_alert_rule m file rule).0 ≡ lookup f m)
      × ((update_alert_rule m file rule old_group old_alert).1 ≢ none
          → lookup f (update_alert_rule m file rule old_group old_alert).0 ≡ lookup f m)
unfolding add_alert_rule update_alert_rule
failed_keeps_files m file rule old_group old_alert f = (
  in_file_kept _ (add_to rule) m file f (add_to_failed rule),
  in_file_kept _ (update_in rule old_group old_alert) m file f
      (update_in_failed rule old_group old_alert),
)

-- The name of a rule is reported free exactly when an addition of such a rule to a loaded file
-- that lists its group would succeed.
pub check_agrees_with_add :
    (m : Metadata) (file : String) (rule : AlertRule)
    → has_group m file rule.group ≡ true
    → (check_alert_rule_exists m file rule.group rule.alert ≡ answer true)
      ↔ ((add_alert_rule m file rule).1 ≡ none)
unfolding has_group check_alert_rule_exists add_alert_rule
check_agrees_with_add m file rule h = ground arith

-- Where the file lists the group of the new rule, additions, updates and deletions keep the invariant
-- of all files.
pub operations-AllWellFormed :
    (m : Metadata) (file : String) (rule : AlertRule) (old_group old_alert : String)
    → AllWellFormed m
    → has_group m file rule.group ≡ true
    → AllWellFormed (add_alert_rule m file rule).0
      × AllWellFormed (update_alert_rule m file rule old_group old_alert).0
      × AllWellFormed (delete_alert_rule m file old_group old_alert).0
unfolding has_group add_alert_rule update_alert_rule delete_alert_rule
operations-AllWellFormed m file rule old_group old_alert w g = (
  in_file-AllFiles IsWellFormed _ _ m file w
      (λ rs found v. add_to-IsWellFormed rule rs v (rw found at g)),
  in_file-AllFiles IsWellFormed _ _ m file w
      (λ rs found v. update_in-IsWellFormed rule old_group old_alert rs v (rw found at g)),
  in_file-AllFiles IsWellFormed _ _ m file w
      (λ rs found v. check_and_remove-IsWellFormed old_group old_alert rs v),
)

-- A rule with a nonempty group that its loaded file does not list is accepted, and its group is
-- not listed afterwards either; the same rule is accepted a second time.
pub add_unlisted :
    (m : Metadata) (file : String) (rule : AlertRule) (rs : AlertRules)
    → lookup file m ≡ some rs
    → has_group m file rule.group ≡ false
    → rule.group ≢ ""
    → let once = add_alert_rule m file rule in
      (once.1 ≡ none)
      × (has_group once.0 file rule.group ≡ false)
      × ((add_alert_rule once.0 file rule).1 ≡ none)
unfolding has_group add_alert_rule
add_unlisted m file rule rs found g e =
    let group : check_group_exists rule.group rs ≡ false = rw found at g in
    let (accepted, absent) = add_to_unlisted rule rs group e in
    let self = lookup-put file file (add_to rule rs).0 m in
    let again = (add_to_unlisted rule (add_to rule rs).0 absent e).0 in
    rw found (rw (self, eq_refl) (accepted, absent, again))
