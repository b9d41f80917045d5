-- ===== src/Kubernetes/AlertRules/Marshal.antt =====
-- `AlertRuleMarshalToYaml` of metadata.go and `ParseAlertRules` of alert_rules.go, between the
-- rules in memory and the rule groups of a file. The text of a duration and the YAML text are the
-- work of the Prometheus and YAML packages, and are parameters.
pub mod RoundTrip
pub mod Tests
use text.Mathlib.Text.{◌==◌}
use apo.Common.{
  ◌∙◌, ap, sym, inr, Bool-cases, inl, eq_of_some, Option-cases, ℕ, String, ◌&&◌, ◌≡◌, refl, Option,
  none, some, List, [], ◌∷◌, ◌++◌, arith, eq_iff, any, any-append, if◌then◌else◌, Dict, lookup,
  string_eq,
}
use apo.Kubernetes.AlertRules.{
  AlertRule, AlertGroup, AlertRules, Metadata, is_alert, is_group, check_group_exists,
  check_alert_exists,
}

-- promfmt.RuleNode and promfmt.RuleGroup.
pub record RuleNode : Type 0 where
  pub alert : String
  pub expr : String
  pub for : ℕ
  pub keep_firing_for : ℕ
  pub labels : Dict String String
  pub annotations : Dict String String

pub record RuleGroup : Type 0 where
  pub name : String
  pub interval : ℕ
  pub query_offset : Option ℕ
  pub limit : ℕ
  pub rules : List RuleNode

abbrev pub node_with : AlertRule → ℕ → ℕ → RuleNode
node_with rule for_duration keep_firing_for = record {
  alert = rule.alert;
  expr = rule.expr;
  for = for_duration;
  keep_firing_for = keep_firing_for;
  labels = rule.labels;
  annotations = rule.annotations;
}

infixl 5 ◌>>=◌
abbrev pub ◌>>=◌ {ℓ κ} : {A : Type ℓ} {B : Type κ} → Option A → (A → Option B) → Option B
none >>= f = none
some a >>= f = f a

module _ (parse_duration : String → Option ℕ) where
  -- `KeepFiringFor` may be empty, and is then the zero duration.
  unfoldable pub optional_duration : String → Option ℕ
  optional_duration text = if text == "" then some 0 else parse_duration text

  unfoldable pub rule_node : AlertRule → Option RuleNode
  unfolding optional_duration
  rule_node rule = do
    for_duration ← parse_duration rule.for
    keep_firing_for ← optional_duration rule.keep_firing_for
    some (node_with rule for_duration keep_firing_for)

  -- The inner loop: the nodes of the rules of one group.
  abbrev pub cons_node : AlertRule → Option (List RuleNode) → Option (List RuleNode)
  cons_node rule rest = do node ← rule_node rule; nodes ← rest; some (node ∷ nodes)

  unfoldable pub rule_nodes : String → List AlertRule → Option (List RuleNode)
  unfolding rule_node
  rule_nodes name [] = some []
  rule_nodes name (rule ∷ rules) =
      let rest = rule_nodes name rules in if rule.group == name then cons_node rule rest else rest

  abbrev pub cons_group :
      AlertGroup → Option (List RuleNode) → Option (List RuleGroup) → Option (List RuleGroup)
  cons_group group nodes rest = do
    rules ← nodes
    groups ← rest
    some (
        record {
          name = group.name;
          interval = group.interval;
          query_offset = group.query_offset;
          limit = group.limit;
          rules = rules;
        }
        ∷ groups)

  -- The outer loop; `none` is the error of a duration that does not parse.
  unfoldable pub rule_groups : List AlertGroup → List AlertRule → Option (List RuleGroup)
  unfolding rule_nodes
  rule_groups [] rules = some []
  rule_groups (group ∷ groups) rules =
      cons_group group (rule_nodes group.name rules) (rule_groups groups rules)

  unfoldable pub alert_rule_marshal_to_yaml {ℓ} :
      {Bytes : Type ℓ} (marshal : List RuleGroup → Option Bytes) → Metadata → String → Option Bytes
  unfolding rule_groups lookup
  alert_rule_marshal_to_yaml marshal m file = do
    rs ← lookup file m
    content ← rule_groups rs.groups rs.rules
    marshal content

module _ (show_duration : ℕ → String) where
  unfoldable pub load_rule : String → RuleNode → AlertRule
  load_rule name node = record {
    group = name;
    record_name = "";
    alert = node.alert;
    expr = node.expr;
    for = show_duration node.for;
    keep_firing_for = show_duration node.keep_firing_for;
    labels = node.labels;
    annotations = node.annotations;
  }

  unfoldable pub load_rules : String → List RuleNode → List AlertRule
  unfolding load_rule
  load_rules name [] = []
  load_rules name (node ∷ nodes) = load_rule name node ∷ load_rules name nodes

  -- The loops of `ParseAlertRules` over the groups that promfmt.Parse returns.
  unfoldable pub load_groups : List RuleGroup → AlertRules
  unfolding load_rules
  load_groups [] = record { rules = []; groups = [] }
  load_groups (group ∷ groups) =
      let rest = load_groups groups in
      record {
        rules = load_rules group.name group.rules ++ rest.rules;
        groups =
            record {
              name = group.name;
              interval = group.interval;
              query_offset = group.query_offset;
              limit = group.limit;
            }
            ∷ rest.groups;
      }

  unfoldable pub parse_alert_rules : (String → Option (List RuleGroup)) → String → Option AlertRules
  unfolding load_groups
  parse_alert_rules parse text = do groups ← parse text; some (load_groups groups)
