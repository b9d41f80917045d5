-- ===== src/Kubernetes/RuleApi/Durations.antt =====
-- The durations of the rules in memory: a call refuses a rule whose durations do not parse, so
-- that the file of the rule can be written.
use text.Mathlib.Text.{◌==◌}
use apo.Common.{
  ◌≤◌, subst, eq_of_some, index_where, All, ℕ, List, Option, String, ◌≡◌, [], ◌∷◌, string_eq, refl,
  none, some, Bool-cases, Option-cases, inl, inr, All-append, All-remove_first,
  remove_element-index_where,
}
use apo.Kubernetes.AlertRules.{
  moved, check_alert_exists, add_group, check_group_exists, AlertGroup, is_alert, AlertRules,
  AlertRule, Metadata, add_to, update_in, check_and_remove_alert_rule, replace,
}
use apo.Kubernetes.AlertRules.Files.{AllFiles}
use apo.Kubernetes.AlertRules.Marshal.{
  ◌>>=◌, parse_alert_rules, load_groups, load_rule, load_rules, node_with, RuleGroup,
  optional_duration, rule_groups, rule_nodes, rule_node, RuleNode,
}
use apo.Kubernetes.RuleApi.{validate_with, validate_alert_rule, Packages}

-- The largest duration in nanoseconds, of Go's int64.
abbrev pub max_duration : ℕ
max_duration = 9223372036854775807

module _ (p : Packages) where
  -- Both durations of the rule parse.
  unfoldable pub Parses : AlertRule → Type 0
  Parses rule = (node : RuleNode) × (rule_node p.parse_duration rule ≡ some node)

  abbrev pub AllParse : Metadata → Type 0
  AllParse = AllFiles (λ rs. All Parses rs.rules)

  pub validate-Parses : (rule : AlertRule) → validate_alert_rule p rule ≡ none → Parses rule
  unfolding Parses validate_alert_rule rule_node
  validate-Parses rule h =
      of_durations (optional_duration p.parse_duration rule.keep_firing_for)
        (p.parse_duration rule.for) refl refl h
    where
      of_durations :
          (keep for_duration : Option ℕ)
          → optional_duration p.parse_duration rule.keep_firing_for ≡ keep
          → p.parse_duration rule.for ≡ for_duration
          → validate_with p rule keep for_duration ≡ none
          → (node : RuleNode) × (rule_node p.parse_duration rule ≡ some node)
      of_durations (some a) (some b) ka fb e = (node_with rule b a, rw (fb, ka) refl)
      of_durations none b ka fb e = absurd (cc e)
      of_durations (some a) none ka fb e = absurd (cc e)

  rule_nodes-some :
      (name : String) (rules : List AlertRule)
      → All Parses rules
      → (nodes : List RuleNode) × (rule_nodes p.parse_duration name rules ≡ some nodes)
  unfolding rule_nodes Parses
  rule_nodes-some name [] a = ([], refl)
  rule_nodes-some name (rule ∷ rules) ((node, good), a) =
      let (nodes, rest) = rule_nodes-some name rules a in
      elim (Bool-cases (rule.group == name)) [
        | inl same ↦ (node ∷ nodes, rw (same, good, rest) refl)
        | inr other ↦ (nodes, rw (other, rest) refl)
      ]

  pub rule_groups-some :
      (listed : List AlertGroup) (rules : List AlertRule)
      → All Parses rules
      → (groups : List RuleGroup) × (rule_groups p.parse_duration listed rules ≡ some groups)
  unfolding rule_groups
  rule_groups-some [] rules a = ([], refl)
  rule_groups-some (group ∷ listed) rules a =
      let (nodes, here) = rule_nodes-some group.name rules a in
      let (groups, rest) = rule_groups-some listed rules a in
      (
        record {
          name = group.name;
          interval = group.interval;
          query_offset = group.query_offset;
          limit = group.limit;
          rules = nodes;
        }
            ∷ groups,
        rw (here, rest) refl,
      )

  pub check_and_remove-Parses :
      (group alert : String) (rs : AlertRules)
      → All Parses rs.rules
      → All Parses (check_and_remove_alert_rule group alert rs).0.rules
  unfolding check_and_remove_alert_rule
  check_and_remove-Parses group alert rs a =
      elim (Option-cases (index_where (is_alert group alert) rs.rules)) [
        | inl missing ↦ rw missing a
        | inr (i, found) ↦
            rw (found, remove_element-index_where _ rs.rules i found)
              (All-remove_first Parses _ rs.rules a)
      ]

  pub add_to-Parses :
      (rule : AlertRule) (rs : AlertRules)
      → Parses rule
      → All Parses rs.rules
      → All Parses (add_to rule rs).0.rules
  unfolding add_to
  add_to-Parses rule rs good a =
      let grown = All-append Parses rs.rules (rule ∷ []) a (good, tt) in
      elim (Bool-cases (check_group_exists rule.group rs)) [
        | inr unlisted ↦ rw unlisted grown
        | inl listed ↦ elim (Bool-cases (check_alert_exists rule.group rule.alert rs)) [
          | inl taken ↦ rw (listed, taken) a
          | inr free ↦ rw (listed, free) grown
        ]
      ]

  replace-Parses :
      (rule : AlertRule) (old_group old_alert : String) (rs : AlertRules)
      → Parses rule
      → All Parses rs.rules
      → All Parses (replace rule old_group old_alert rs).rules
  replace-Parses rule old_group old_alert rs good a =
      All-append Parses _ (rule ∷ []) (check_and_remove-Parses old_group old_alert rs a) (good, tt)

  pub update_in-Parses :
      (rule : AlertRule) (old_group old_alert : String) (rs : AlertRules)
      → Parses rule
      → All Parses rs.rules
      → All Parses (update_in rule old_group old_alert rs).0.rules
  unfolding update_in
  update_in-Parses rule old_group old_alert rs good a =
      let here = replace-Parses rule old_group old_alert rs good a in
      let there = replace-Parses rule old_group old_alert (add_group rule.group rs) good a in
      elim (Bool-cases (check_group_exists old_group rs)) [
        | inr no_group ↦ rw no_group a
        | inl group ↦ elim (Bool-cases (check_alert_exists old_group old_alert rs)) [
          | inr no_alert ↦ rw (group, no_alert) a
          | inl alert ↦ elim (Bool-cases (moved rule old_group old_alert)) [
            | inr same ↦ rw (group, alert, same) here
            | inl other ↦ elim (Bool-cases (check_alert_exists rule.group rule.alert rs)) [
              | inl taken ↦ rw (group, alert, other, taken) a
              | inr free ↦ elim (Bool-cases (check_group_exists rule.group rs)) [
                | inl listed ↦ rw (group, alert, other, free, listed) here
                | inr unlisted ↦ rw (group, alert, other, free, unlisted) there
              ]
            ]
          ]
        ]
      ]

  -- The text of a duration is one that parses, into a duration that may be less precise.
  abbrev pub ShowsDurations : Type 0
  ShowsDurations =
      (d : ℕ) → d ≤ max_duration → (back : ℕ) × (p.parse_duration (p.show_duration d) ≡ some back)

  abbrev HasDurations : RuleNode → Type 0
  HasDurations node = (node.for ≤ max_duration) × (node.keep_firing_for ≤ max_duration)

  abbrev pub AllHaveDurations : List RuleGroup → Type 0
  AllHaveDurations = All (λ (group : RuleGroup). All HasDurations group.rules)

  -- The durations of the rules that are parsed are of Go's type of durations.
  abbrev pub ParsesDurations : Type 0
  ParsesDurations =
      (text : String) (groups : List RuleGroup)
      → p.parse text ≡ some groups
      → AllHaveDurations groups

  load_rule-Parses :
      ShowsDurations
      → (name : String) (node : RuleNode) → HasDurations node
      → Parses (load_rule p.show_duration name node)
  unfolding Parses rule_node load_rule optional_duration
  load_rule-Parses shows name node (for_small, keep_small) =
      let rule = load_rule p.show_duration name node in
      let (for_back, for_read) = shows node.for for_small in
      let (keep_back, keep_read) = shows node.keep_firing_for keep_small in
      elim (Bool-cases (p.show_duration node.keep_firing_for == "")) [
        | inl empty ↦ (node_with rule for_back 0, rw (for_read, empty) refl)
        | inr given ↦ (node_with rule for_back keep_back, rw (for_read, given, keep_read) refl)
      ]

  load_rules-Parses :
      ShowsDurations
      → (name : String) (nodes : List RuleNode) → All HasDurations nodes
      → All Parses (load_rules p.show_duration name nodes)
  unfolding load_rules
  load_rules-Parses shows name [] a = tt
  load_rules-Parses shows name (node ∷ nodes) (h, a) =
      (load_rule-Parses shows name node h, load_rules-Parses shows name nodes a)

  load-Parses :
      ShowsDurations
      → (groups : List RuleGroup) → AllHaveDurations groups
      → All Parses (load_groups p.show_duration groups).rules
  unfolding load_groups
  load-Parses shows [] a = tt
  load-Parses shows (group ∷ groups) (h, a) =
      All-append Parses _ (load_groups p.show_duration groups).rules
        (load_rules-Parses shows group.name group.rules h) (load-Parses shows groups a)

  pub parse-Parses :
      ShowsDurations
      → ParsesDurations
      → (text : String) (rules : AlertRules)
      → parse_alert_rules p.show_duration p.parse text ≡ some rules
      → All Parses rules.rules
  unfolding parse_alert_rules
  parse-Parses shows parses text rules h = of_groups (p.parse text) refl h
    where
      of_groups :
          (o : Option (List RuleGroup))
          → p.parse text ≡ o
          → o >>= (λ groups. some (load_groups p.show_duration groups)) ≡ some rules
          → All Parses rules.rules
      of_groups none at e = absurd (cc e)
      of_groups (some groups) at e =
          subst (λ (rs : AlertRules). All Parses rs.rules) (eq_of_some e)
            (load-Parses shows groups (parses text groups at))
