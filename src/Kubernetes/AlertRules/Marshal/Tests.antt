-- ===== src/Kubernetes/AlertRules/Marshal/Tests.antt =====
-- A file of rules, written and parsed again.
use text.Mathlib.Text.{◌==◌ as str_eq}
use apo.Common.{
  ℕ, String, ◌&&◌, ◌≡◌, refl, sym, ◌∙◌, Option, none, some, List, [], ◌∷◌, string_eq, lookup,
  if◌then◌else◌,
}
use apo.Kubernetes.AlertRules.{AlertRules, check_alert_exists, check_group_exists}
use apo.Kubernetes.AlertRules.Marshal.{
  alert_rule_marshal_to_yaml, parse_alert_rules, RuleGroup, RuleNode, rule_groups,
}
use apo.Kubernetes.AlertRules.Marshal.RoundTrip.{parse-alert_rule_marshal_to_yaml}
use apo.Kubernetes.AlertRules.Tests.{files, loaded}

-- Durations of a number of minutes, written with one digit.
abbrev parse_minutes : String → Option ℕ
parse_minutes text = if str_eq text "1m" then some 60 else none

abbrev show_minutes : ℕ → String
show_minutes n = "1m"

abbrev node_of : String → RuleNode
node_of alert = record {
  alert = alert;
  expr = "up == 0";
  for = 60;
  keep_firing_for = 0;
  labels = ("severity", "critical") ∷ [];
  annotations = [];
}

abbrev pub written : List RuleGroup
written =
    record {
      name = "Host Metrics";
      interval = 15;
      query_offset = none;
      limit = 0;
      rules = node_of "cpu" ∷ node_of "disk" ∷ [];
    }
    ∷ []

written_lem : rule_groups parse_minutes loaded.groups loaded.rules ≡ some written
unfolding rule_groups
written_lem = refl

abbrev marshal : List RuleGroup → Option String
marshal groups = some "groups: ..."

abbrev parse : String → Option (List RuleGroup)
parse text = some written

marshalled :
    alert_rule_marshal_to_yaml parse_minutes marshal files "rules.yaml" ≡ some "groups: ..."
unfolding alert_rule_marshal_to_yaml
marshalled = refl

parse-alert_rule_marshal_to_yaml_example :
    (after : AlertRules) × (parse_alert_rules show_minutes parse "groups: ..." ≡ some after)
    × (check_alert_exists "Host Metrics" "cpu" after ≡ (
        check_group_exists "Host Metrics" loaded && check_alert_exists "Host Metrics" "cpu" loaded))
    × (after.groups ≡ loaded.groups)
unfolding lookup
parse-alert_rule_marshal_to_yaml_example =
    parse-alert_rule_marshal_to_yaml parse_minutes show_minutes marshal parse files "rules.yaml"
      "groups: ..." "Host Metrics" "cpu" loaded (λ groups made h. sym written_lem ∙ made) refl
      marshalled
