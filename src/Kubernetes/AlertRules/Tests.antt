-- ===== src/Kubernetes/AlertRules/Tests.antt =====
-- The alert rules at concrete files.
use apo.Common.{
  ◌++◌, remove_first, string_eq, put, lookup, String, true, false, ◌&&◌, ◌||◌, ◌≡◌, ◌≢◌, refl, none,
  [], ◌∷◌, arith, eq_iff,
}
use apo.Kubernetes.AlertRules.{
  is_alert, check_group_exists, update_alert_rule, add_alert_rule, delete_alert_rule, AlertRule,
  AlertGroup, AlertRules, Metadata,
}
use apo.Kubernetes.AlertRules.Files.{
  rules_of, add-members, add_unlisted, delete-members, operations-AllWellFormed, put-AllFiles,
  update-members, AllWellFormed, failed_keeps_files, has_group, has_rule,
}
use apo.Kubernetes.AlertRules.WellFormed.{IsWellFormed}

abbrev pub rule_of : String → String → AlertRule
rule_of group alert = record {
  group = group;
  record_name = "";
  alert = alert;
  expr = "up == 0";
  for = "1m";
  keep_firing_for = "";
  labels = ("severity", "critical") ∷ [];
  annotations = [];
}

abbrev host_group : AlertGroup
host_group = record { name = "Host Metrics"; interval = 15; query_offset = none; limit = 0 }

abbrev pub loaded : AlertRules
loaded = record {
  rules = rule_of "Host Metrics" "cpu" ∷ rule_of "Host Metrics" "disk" ∷ [];
  groups = host_group ∷ [];
}

abbrev pub files : Metadata
files = ("rules.yaml", loaded) ∷ []

loaded-IsWellFormed : IsWellFormed loaded
loaded-IsWellFormed = record { unique = (refl, (refl, tt)); grouped = (refl, (refl, tt)) }

files-AllWellFormed : AllWellFormed files
unfolding lookup put
files-AllWellFormed =
    put-AllFiles IsWellFormed [] "rules.yaml" loaded (λ f rs h. absurd (cc h)) loaded-IsWellFormed

-- A rule is added once, and refused the second time; a rule of a new group is added twice.
accepted : (add_alert_rule files "rules.yaml" (rule_of "Host Metrics" "net")).1 ≡ none
unfolding add_alert_rule
accepted = refl

refused : (add_alert_rule files "rules.yaml" (rule_of "Host Metrics" "cpu")).1 ≢ none
unfolding add_alert_rule
refused = cc

updated :
    (update_alert_rule files "rules.yaml" (rule_of "Host Metrics" "net") "Host Metrics" "cpu").1
    ≡ none
unfolding update_alert_rule
updated = refl

new_group_key :
    has_group (add_alert_rule files "rules.yaml" (rule_of "网络相关" "tcp")).0 "rules.yaml" "network"
    ≡ true
unfolding add_alert_rule has_group apo.Kubernetes.Labels.get_label
new_group_key = refl

host_listed : has_group files "rules.yaml" "Host Metrics" ≡ true
unfolding has_group lookup check_group_exists
host_listed = refl

add-members_example :
    has_rule
      (add_alert_rule files "rules.yaml" (rule_of "Host Metrics" "net")).0
      "rules.yaml"
      "Host Metrics"
      "net"
    ≡ (has_rule files "rules.yaml" "Host Metrics" "net" || true)
add-members_example =
    add-members files "rules.yaml" (rule_of "Host Metrics" "net") "rules.yaml" "Host Metrics" "net"
      accepted

update-members_example :
    (has_rule
        (update_alert_rule files "rules.yaml" (rule_of "Host Metrics" "net") "Host Metrics" "cpu").0
        "rules.yaml"
        "Host Metrics"
        "cpu"
      ≡ ((has_rule files "rules.yaml" "Host Metrics" "cpu" && false) || false))
    × (rules_of
          (update_alert_rule files "rules.yaml"
            (rule_of "Host Metrics" "net")
            "Host Metrics"
            "cpu").0
          "rules.yaml"
        ≡ remove_first (is_alert "Host Metrics" "cpu") (rules_of files "rules.yaml")
          ++ rule_of "Host Metrics" "net" ∷ [])
update-members_example =
    update-members files "rules.yaml" (rule_of "Host Metrics" "net") "Host Metrics" "cpu"
      "rules.yaml" "Host Metrics" "cpu" files-AllWellFormed updated

delete-members_example :
    ((delete_alert_rule files "rules.yaml" "Host Metrics" "cpu").1
      ≡ has_rule files "rules.yaml" "Host Metrics" "cpu")
    × (has_rule
          (delete_alert_rule files "rules.yaml" "Host Metrics" "cpu").0
          "rules.yaml"
          "Host Metrics"
          "disk"
        ≡ (has_rule files "rules.yaml" "Host Metrics" "disk" && true))
delete-members_example =
    delete-members files "rules.yaml" "Host Metrics" "cpu" "rules.yaml" "Host Metrics" "disk"
      files-AllWellFormed

failed_keeps_files_example :
    ((add_alert_rule files "rules.yaml" (rule_of "Host Metrics" "cpu")).1 ≢ none
      → lookup "rules.yaml" (add_alert_rule files "rules.yaml" (rule_of "Host Metrics" "cpu")).0
        ≡ lookup "rules.yaml" files)
    × ((update_alert_rule files "rules.yaml" (rule_of "Host Metrics" "cpu") "Host Metrics" "disk").1
          ≢ none
        → lookup "rules.yaml"
            (update_alert_rule files "rules.yaml"
              (rule_of "Host Metrics" "cpu")
              "Host Metrics"
              "disk").0
          ≡ lookup "rules.yaml" files)
failed_keeps_files_example =
    failed_keeps_files files "rules.yaml" (rule_of "Host Metrics" "cpu") "Host Metrics" "disk"
      "rules.yaml"

operations-AllWellFormed_example :
    AllWellFormed (add_alert_rule files "rules.yaml" (rule_of "Host Metrics" "net")).0
    × AllWellFormed
        (update_alert_rule files "rules.yaml" (rule_of "Host Metrics" "net") "Host Metrics" "cpu").0
    × AllWellFormed (delete_alert_rule files "rules.yaml" "Host Metrics" "cpu").0
operations-AllWellFormed_example =
    operations-AllWellFormed files "rules.yaml" (rule_of "Host Metrics" "net") "Host Metrics" "cpu"
      files-AllWellFormed host_listed

network_unlisted : has_group files "rules.yaml" "Network Metrics" ≡ false
unfolding has_group lookup check_group_exists
network_unlisted = refl

add_unlisted_example :
    ((add_alert_rule files "rules.yaml" (rule_of "Network Metrics" "tcp")).1 ≡ none)
    × (has_group
          (add_alert_rule files "rules.yaml" (rule_of "Network Metrics" "tcp")).0
          "rules.yaml"
          "Network Metrics"
        ≡ false)
    × ((add_alert_rule
          (add_alert_rule files "rules.yaml" (rule_of "Network Metrics" "tcp")).0
          "rules.yaml"
          (rule_of "Network Metrics" "tcp")).1
        ≡ none)
unfolding lookup
add_unlisted_example =
    add_unlisted files "rules.yaml" (rule_of "Network Metrics" "tcp") loaded refl network_unlisted
      (λ e. ground (arith, e, eq_iff "Network Metrics" ""))
