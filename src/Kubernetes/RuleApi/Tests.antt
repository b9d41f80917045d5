-- ===== src/Kubernetes/RuleApi/Tests.antt =====
-- The API over a cluster of one config map.
use text.Mathlib.Text.{◌==◌}
use apo.Common.{
  eq_of_some, subst, eq_iff, sym, read-show, ◌≤◌, read, show, zero, suc, lookup, Bool, ℕ, All,
  eq_of_ok, ◌⊎◌, Dict, Option, String, ◌≡◌, [], ◌∷◌, string_eq, refl, ◌∙◌, none, some, arith, ◌≢◌,
  true, false, ap, if◌then◌else◌, ok, err, inl, inr, Bool-cases,
}
use apo.Kubernetes.AlertRules.{Metadata, alert_already_exist, add_alert_rule}
use apo.Kubernetes.AlertRules.Files.{put-AllFiles}
use apo.Kubernetes.AlertRules.Marshal.{
  node_with, rule_node, load_groups, parse_alert_rules, rule_groups,
}
use apo.Kubernetes.AlertRules.Marshal.Tests.{written as written_rules}
use apo.Kubernetes.AlertRules.Tests.{loaded, rule_of, files}
use apo.Kubernetes.RuleApi.{
  not_marshalled, Settings, for_illegal, refused, returned, Packages, State,
}
use apo.Kubernetes.RuleApi.Agreement.{InSync, stored}
use apo.Kubernetes.RuleApi.Calls.{run-recovers, run, Succeeds, exec-InSync, sync, add, Call, exec}
use apo.Kubernetes.RuleApi.Durations.{ParsesDurations, AllHaveDurations, AllParse, Parses}
use apo.Kubernetes.RuleApi.Failures.{exec-failed, in_memory, is_refusal}
use apo.Kubernetes.RuleApi.OneMap.{client-IsClient, data_of, Cluster, client}
use apo.Kubernetes.RuleApi.Writable.{exec-Parses}

-- Durations of one minute, and a parser that reads the text that was written.
abbrev packages : Packages
packages = record {
  parse_duration = λ text. if text == "1m" then some 60 else none;
  show_duration = λ d. "1m";
  marshal = λ groups. some "groups: ...";
  parse = λ text. if text == "groups: ..." then some written_rules else none;
  validate = λ node. if node.alert == "" then "no name" ∷ [] else [];
}

abbrev settings : Settings
settings = record { alert_rule_cm_name = "rules-cm"; alert_rule_file_name = "rules.yaml" }

abbrev start : State Cluster
unfolding apo.Common.has
start = record {
  metadata = files;
  cluster = record { content = ("rules.yaml", "groups: ...") ∷ []; distinct = refl };
}

abbrev new_rule : Call
new_rule = add "rules.yaml" (rule_of "Host Metrics" "net")

abbrev after_add : State Cluster
after_add = record start {
  metadata = (add_alert_rule files "rules.yaml" (rule_of "Host Metrics" "net")).0;
}

added : exec client packages settings new_rule start ≡ (after_add, returned none)
unfolding exec apo.Kubernetes.RuleApi.k8s_add_alert_rule start
added = refl

written_lem : rule_groups packages.parse_duration loaded.groups loaded.rules ≡ some written_rules
unfolding rule_groups
written_lem = refl

start-InSync : InSync client packages settings data_of "rules.yaml" start
unfolding stored apo.Common.lookup start
start-InSync = record {
  rules = loaded;
  text = "groups: ...";
  loaded = refl;
  in_map = refl;
  matches = inl (written_rules, written_lem, refl);
}

exec-InSync_example : InSync client packages settings data_of "rules.yaml" after_add
exec-InSync_example =
    exec-InSync client packages settings data_of client-IsClient new_rule "rules.yaml" start
      after_add added (inl start-InSync)

-- A rule of the same name is refused, and so is a rule whose duration does not parse.
refused_twice :
    ((exec client packages settings (add "" (rule_of "Host Metrics" "cpu")) start).1
      ≡ returned (some (refused (alert_already_exist "cpu"))))
    × ((exec client packages settings
          (add "" (record (rule_of "Host Metrics" "net") { for = "soon" }))
          start).1
        ≡ returned (some for_illegal))
unfolding exec apo.Kubernetes.RuleApi.k8s_add_alert_rule start
refused_twice = (refl, refl)

exec-failed_example :
    (is_refusal (exec client packages settings new_rule start).1 ≡ true
      → ((exec client packages settings new_rule start).0.cluster ≡ start.cluster)
        × ((f : String)
            → lookup f (exec client packages settings new_rule start).0.metadata
              ≡ lookup f start.metadata))
    × (is_refusal (exec client packages settings new_rule start).1 ≡ false
        → (exec client packages settings new_rule start).1 ≢ returned none
        → (exec client packages settings new_rule start).0.metadata
          ≡ in_memory client packages settings new_rule start.metadata)
exec-failed_example = exec-failed client packages settings new_rule start

always_sync : ℕ → Call
always_sync n = sync

sync_answers :
    (s : State Cluster)
    → ((exec client packages settings sync s).1 ≡ returned none)
      × ((exec client packages settings sync s).0.cluster ≡ s.cluster)
unfolding exec apo.Kubernetes.RuleApi.sync_alert_rule
sync_answers s = (refl, refl)

same_cluster :
    (n : ℕ)
    → (run client packages settings data_of client-IsClient always_sync n start).cluster
      ≡ start.cluster
unfolding run always_sync
same_cluster zero = refl
same_cluster (suc n) =
    (sync_answers (run client packages settings data_of client-IsClient always_sync n start)).1
    ∙ same_cluster n

parsed_text :
    parse_alert_rules packages.show_duration packages.parse "groups: ..."
    ≡ some (load_groups packages.show_duration written_rules)
unfolding parse_alert_rules
parsed_text = refl

run-recovers_example :
    (n : ℕ) × (3 ≤ n)
    × InSync client packages settings data_of "rules.yaml"
        (run client packages settings data_of client-IsClient always_sync n start)
unfolding stored Succeeds always_sync lookup start
run-recovers_example =
    run-recovers client packages settings data_of client-IsClient always_sync start "rules.yaml"
      (λ m. (
        m,
        omega arith,
        refl,
        (sync_answers (run client packages settings data_of client-IsClient always_sync m start)).0,
      ))
      (λ n is_sync. (
        "groups: ...",
        load_groups packages.show_duration written_rules,
        ap (λ (c : Cluster). lookup "rules.yaml" c.content) (same_cluster n),
        parsed_text,
      ))
      3

-- Durations that are numbers.
abbrev parse_number : String → Option ℕ
parse_number text = if text == "" then none else some (read text)

read_empty : read "" ≡ 0
unfolding read
read_empty = refl

parse-show_zero : parse_number (show 0) ≡ some 0
unfolding show read
parse-show_zero = refl

parse-show : (d : ℕ) → parse_number (show d) ≡ some d
parse-show zero = parse-show_zero
parse-show (suc d) = elim (Bool-cases (show (suc d) == "")) [
  | inl e ↦
      let empty : suc d ≡ 0 =
        sym (read-show (suc d)) ∙ ap read ((eq_iff (show (suc d)) "").0 e) ∙ read_empty in
      absurd (omega (arith, empty))
  | inr e ↦ rw e (ap some (read-show (suc d)))
]

abbrev numbers : Packages
numbers = record packages { parse_duration = parse_number; show_duration = show }

abbrev numbered : Metadata
numbered =
    (
      "rules.yaml",
      record loaded { rules = record (rule_of "Host Metrics" "cpu") { for = "60" } ∷ [] },
    )
    ∷ []

numbered-AllParse : AllParse numbers numbered
unfolding Parses rule_node lookup read apo.Common.put
numbered-AllParse =
    put-AllFiles (λ rs. All (Parses numbers) rs.rules) [] "rules.yaml"
      (record loaded { rules = record (rule_of "Host Metrics" "cpu") { for = "60" } ∷ [] })
      (λ f rs h. absurd (cc h))
      ((node_with (record (rule_of "Host Metrics" "cpu") { for = "60" }) 60 0, refl), tt)

numbers-ParsesDurations : ParsesDurations numbers
numbers-ParsesDurations text groups h = of_text (text == "groups: ...") h
  where
    of_text :
        (b : Bool)
        → (if b then some written_rules else none) ≡ some groups
        → AllHaveDurations numbers groups
    of_text true e =
        subst (AllHaveDurations numbers) (eq_of_some e)
          (((omega arith, omega arith), ((omega arith, omega arith), tt)), tt)
    of_text false e = absurd (cc e)

exec-Parses_example :
    AllParse numbers
      (exec client numbers settings new_rule (record start { metadata = numbered })).0.metadata
    × ((exec client numbers settings new_rule (record start { metadata = numbered })).1
        ≢ returned (some not_marshalled))
exec-Parses_example =
    exec-Parses client numbers settings (λ groups h. cc h) new_rule
      (record start { metadata = numbered }) (λ d small. (d, parse-show d)) numbers-ParsesDurations
      numbered-AllParse
