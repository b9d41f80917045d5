-- ===== src/Kubernetes/AlertRules/Marshal/RoundTrip.antt =====
-- The rules of a file after they were written as text and parsed again.
use text.Mathlib.Text.{◌==◌}
use apo.Common.{
  ◌∙◌, ap, sym, inr, Bool-cases, inl, eq_of_some, Option-cases, ℕ, String, ◌&&◌, ◌≡◌, refl, Option,
  none, some, List, [], ◌∷◌, arith, eq_iff, any, any-append, lookup, string_eq,
}
use apo.Kubernetes.AlertRules.{
  AlertRule, AlertGroup, AlertRules, Metadata, is_alert, is_group, check_group_exists,
  check_alert_exists,
}
use apo.Kubernetes.AlertRules.Marshal.{
  ◌>>=◌, load_groups, load_rules, parse_alert_rules, alert_rule_marshal_to_yaml, cons_group,
  cons_node, rule_groups, rule_node, rule_nodes, RuleNode, RuleGroup,
}

module _ (parse_duration : String → Option ℕ) (show_duration : ℕ → String) where
  rule_node-alert :
      (rule : AlertRule) (node : RuleNode)
      → rule_node parse_duration rule ≡ some node
      → node.alert ≡ rule.alert
  unfolding rule_node
  rule_node-alert rule node h = ground arith

  cons_node-eq_some :
      (rule : AlertRule) (rest : Option (List RuleNode)) (nodes : List RuleNode)
      → cons_node parse_duration rule rest ≡ some nodes
      → (node : RuleNode) × (others : List RuleNode) × (node.alert ≡ rule.alert)
        × (rest ≡ some others)
        × (nodes ≡ node ∷ others)
  cons_node-eq_some rule rest nodes h = elim (Option-cases (rule_node parse_duration rule)) [
    | inl bad ↦ absurd (cc (rw bad at h))
    | inr (node, good) ↦ elim (Option-cases rest) [
      | inl bad ↦ absurd (cc (rw (good, bad) at h))
      | inr (others, fine) ↦
          (node, others, rule_node-alert rule node good, fine, cc (rw (good, fine) at h))
    ]
  ]

  load-rule_nodes :
      (name g a : String) (rules : List AlertRule) (nodes : List RuleNode)
      → rule_nodes parse_duration name rules ≡ some nodes
      → any (is_alert g a) (load_rules show_duration name nodes)
        ≡ (name == g && any (is_alert g a) rules)
  unfolding rule_nodes load_rules
  load-rule_nodes name g a [] nodes h = rw (← eq_of_some h) (ground arith)
  load-rule_nodes name g a (rule ∷ rules) nodes h = elim (Bool-cases (rule.group == name)) [
    | inl same ↦
        let (node, others, alert, rest, e) = cons_node-eq_some rule _ nodes (rw same at h) in
        rw e (
          ground (
            arith,
            load-rule_nodes name g a rules others rest,
            eq_iff rule.group name,
            eq_iff name g,
            eq_iff rule.group g,
            alert,
          ))
    | inr other ↦ ground (
      arith,
      load-rule_nodes name g a rules nodes (rw other at h),
      eq_iff rule.group name,
      eq_iff name g,
      eq_iff rule.group g,
    )
  ]

  cons_group-eq_some :
      (group : AlertGroup) (nodes : Option (List RuleNode)) (rest : Option (List RuleGroup))
      (groups : List RuleGroup)
      → cons_group parse_duration group nodes rest ≡ some groups
      → (rules : List RuleNode) × (others : List RuleGroup) × (nodes ≡ some rules)
        × (rest ≡ some others)
        × (groups
            ≡ record {
              name = group.name;
              interval = group.interval;
              query_offset = group.query_offset;
              limit = group.limit;
              rules = rules;
            }
              ∷ others)
  cons_group-eq_some group (some rules) (some others) groups h = (rules, others, refl, refl, cc)
  cons_group-eq_some group none rest groups h = absurd (cc)
  cons_group-eq_some group (some rules) none groups h = absurd (cc)

  load_groups_lem :
      (g a : String) (rules : List AlertRule) (listed : List AlertGroup) (groups : List RuleGroup)
      → rule_groups parse_duration listed rules ≡ some groups
      → (any (is_alert g a) (load_groups show_duration groups).rules
          ≡ (any (is_group g) listed && any (is_alert g a) rules))
        × ((load_groups show_duration groups).groups ≡ listed)
  unfolding rule_groups load_groups
  load_groups_lem g a rules [] groups h = rw (← eq_of_some h) (refl, refl)
  load_groups_lem g a rules (group ∷ listed) groups h =
      let (nodes, others, here, there, e) = cons_group-eq_some group _ _ groups h in
      let (members, same) = load_groups_lem g a rules listed others there in
      rw e (
        ground (
          arith,
          members,
          load-rule_nodes group.name g a rules nodes here,
          any-append (is_alert g a) (load_rules show_duration group.name nodes)
              (load_groups show_duration others).rules,
        ),
        rw same,
      )

  pub load-rule_groups :
      (g a : String) (rs : AlertRules) (groups : List RuleGroup)
      → rule_groups parse_duration rs.groups rs.rules ≡ some groups
      → (check_alert_exists g a (load_groups show_duration groups)
          ≡ (check_group_exists g rs && check_alert_exists g a rs))
        × ((load_groups show_duration groups).groups ≡ rs.groups)
  unfolding check_alert_exists check_group_exists
  load-rule_groups g a rs groups h = load_groups_lem g a rs.rules rs.groups groups h

  -- A rule is there after its file was written as text and parsed again exactly when it was there
  -- and its group was listed; the listed groups, with their settings, are the same. This holds
  -- when the parser reads the rule groups that the text was made of.
  pub parse-alert_rule_marshal_to_yaml :
      (marshal : List RuleGroup → Option String) (parse : String → Option (List RuleGroup))
      (m : Metadata) (file text g a : String) (rs : AlertRules)
      → ((groups : List RuleGroup)
          → rule_groups parse_duration rs.groups rs.rules ≡ some groups
          → marshal groups ≡ some text
          → parse text ≡ some groups)
      → lookup file m ≡ some rs
      → alert_rule_marshal_to_yaml parse_duration marshal m file ≡ some text
      → (loaded : AlertRules) × (parse_alert_rules show_duration parse text ≡ some loaded)
        × (check_alert_exists g a loaded ≡ (check_group_exists g rs && check_alert_exists g a rs))
        × (loaded.groups ≡ rs.groups)
  unfolding alert_rule_marshal_to_yaml parse_alert_rules
  parse-alert_rule_marshal_to_yaml marshal parse m file text g a rs reads found e =
      of_groups (rule_groups parse_duration rs.groups rs.rules) refl (
        sym (ap (λ o. o >>= λ x. rule_groups parse_duration x.groups x.rules >>= marshal) found)
        ∙ e)
    where
      of_groups :
          (o : Option (List RuleGroup))
          → rule_groups parse_duration rs.groups rs.rules ≡ o
          → o >>= marshal ≡ some text
          → (loaded : AlertRules) × (parse text
                >>= (λ groups. some (load_groups show_duration groups))
              ≡ some loaded)
            × (check_alert_exists g a loaded
                ≡ (check_group_exists g rs && check_alert_exists g a rs))
            × (loaded.groups ≡ rs.groups)
      of_groups none at h = absurd (ground (arith, h))
      of_groups (some groups) at h =
          let (members, same) = load-rule_groups g a rs groups at in
          (load_groups show_duration groups, rw (reads groups at h) refl, members, same)
