-- ===== src/Kubernetes/RuleApi.antt =====
-- dao_alert_rule.go: a change of an alert rule is checked, made in memory, and written to the
-- config map that the rules are loaded from. The work of the Prometheus and YAML packages and the
-- Kubernetes client are parameters.
pub mod Agreement
pub mod Writes
pub mod Calls
pub mod Durations
pub mod Writable
pub mod Failures
pub mod OneMap
pub mod Tests
use text.Mathlib.Text.{◌==◌}
use apo.Common.{
  false, true, ok, err, Dict, Bool, Result, if◌then◌else◌, none, some, ℕ, List, Option, String, [],
  ◌∷◌, string_eq,
}
use apo.Kubernetes.AlertRules.{
  CheckResult, AlertRules, Error, add_alert_rule, check_alert_rule_exists, delete_alert_rule,
  set_alert_rules, update_alert_rule, AlertRule, Metadata,
}
use apo.Kubernetes.AlertRules.Marshal.{
  RuleNode, RuleGroup, parse_alert_rules, optional_duration, node_with, alert_rule_marshal_to_yaml,
}
use apo.Kubernetes.AlertRules.Query.{AlertRuleFilter, get_alert_rules}
use apo.Kubernetes.ConfigMaps.{
  panicked, not_written, Write, get_config_map, update_config_map, Client, written,
}
use apo.Kubernetes.Paging.{Page, PageParam}

-- What the code calls of the Prometheus and YAML packages.
pub record Packages : Type 0 where
  pub parse_duration : String → Option ℕ
  pub show_duration : ℕ → String
  pub marshal : List RuleGroup → Option String
  pub parse : String → Option (List RuleGroup)
  pub validate : RuleNode → List String

-- `config.MetadataSettings`
pub record Settings : Type 0 where
  pub alert_rule_cm_name : String
  pub alert_rule_file_name : String

-- The rules in memory and the cluster.
pub record State (C : Type 0) : Type 0 where
  pub metadata : Metadata
  pub cluster : C

pub data ApiError : Type 0 where
  keep_firing_for_illegal : ApiError
  for_illegal : ApiError
  invalid_rule : List String → ApiError
  refused : Error → ApiError
  not_marshalled : ApiError
  client_error : String → ApiError

-- What a call gives its caller: an error or none, or a panic.
pub data Reply : Type 0 where
  returned : Option ApiError → Reply
  api_panicked : Reply

-- `validateErr.ErrorOrNil()`
abbrev pub error_or_nil : List String → Option ApiError
error_or_nil [] = none
error_or_nil (e ∷ es) = some (invalid_rule (e ∷ es))

module _ (p : Packages) where
  abbrev pub validate_with : AlertRule → Option ℕ → Option ℕ → Option ApiError
  validate_with rule none for_duration = some keep_firing_for_illegal
  validate_with rule (some k) none = some for_illegal
  validate_with rule (some k) (some f) = error_or_nil (p.validate (node_with rule f k))

  unfoldable pub validate_alert_rule : AlertRule → Option ApiError
  unfolding optional_duration
  validate_alert_rule rule =
      validate_with rule (optional_duration p.parse_duration rule.keep_firing_for)
        (p.parse_duration rule.for)

  -- The loop over the config map: a text that does not parse is left out.
  abbrev pub set_parsed : String → Option AlertRules → Metadata → Metadata
  set_parsed key none m = m
  set_parsed key (some rules) m = set_alert_rules m key rules

  unfoldable pub sync_entries : Dict String String → Metadata → Metadata
  unfolding parse_alert_rules set_alert_rules
  sync_entries [] m = m
  sync_entries ((key, text) ∷ rest) m =
      set_parsed key (parse_alert_rules p.show_duration p.parse text) (sync_entries rest m)

module _ {C : Type 0} (k : Client C) (p : Packages) (settings : Settings) where
  abbrev pub synced : Result (Dict String String) → State C → State C × Option String
  synced (err e) s = (s, some e)
  synced (ok d) s = (record s { metadata = sync_entries p d s.metadata }, none)

  pub sync_alert_rule : State C → State C × Option String
  unfolding get_config_map sync_entries
  sync_alert_rule s = synced (get_config_map k settings.alert_rule_cm_name "" s.cluster) s

  abbrev pub file_name : String → String
  file_name file = if file == "" then settings.alert_rule_file_name else file

  abbrev pub of_write : State C → Write C → State C × Reply
  of_write s (written c) = (record s { cluster = c }, returned none)
  of_write s (not_written e c) = (record s { cluster = c }, returned (some (client_error e)))
  of_write s panicked = (s, api_panicked)

  pub update_alert_rule_config_file : String → Option String → State C → State C × Reply
  unfolding update_config_map
  update_alert_rule_config_file file content s =
      of_write s (update_config_map k settings.alert_rule_cm_name file content s.cluster)

  abbrev pub write_marshalled : String → State C → Option String → State C × Reply
  write_marshalled file s none = (s, returned (some not_marshalled))
  write_marshalled file s (some text) = update_alert_rule_config_file file (some text) s

  -- The end of every change: the file as it is in memory is written.
  abbrev pub write_back : String → State C → State C × Reply
  write_back file s =
      write_marshalled file s
        (alert_rule_marshal_to_yaml p.parse_duration p.marshal s.metadata file)

  abbrev pub after_change : String → State C → Metadata × Option Error → State C × Reply
  after_change file s (m, some e) = (record s { metadata = m }, returned (some (refused e)))
  after_change file s (m, none) = write_back file (record s { metadata = m })

  abbrev pub if_valid : State C → Option ApiError → State C × Reply → State C × Reply
  if_valid s (some e) next = (s, returned (some e))
  if_valid s none next = next

  pub k8s_add_alert_rule : String → AlertRule → State C → State C × Reply
  unfolding validate_alert_rule add_alert_rule alert_rule_marshal_to_yaml
      update_alert_rule_config_file
  k8s_add_alert_rule config_file rule s =
      let file = file_name config_file in
      if_valid s (validate_alert_rule p rule)
        (after_change file s (add_alert_rule s.metadata file rule))

  pub k8s_update_alert_rule : String → AlertRule → String → String → State C → State C × Reply
  unfolding validate_alert_rule update_alert_rule alert_rule_marshal_to_yaml
      update_alert_rule_config_file
  k8s_update_alert_rule config_file rule old_group old_alert s =
      let file = file_name config_file in
      if_valid s (validate_alert_rule p rule)
        (after_change file s (update_alert_rule s.metadata file rule old_group old_alert))

  abbrev pub after_deletion : String → State C → Metadata × Bool → State C × Reply
  after_deletion file s (m, false) = (record s { metadata = m }, returned none)
  after_deletion file s (m, true) = write_back file (record s { metadata = m })

  pub k8s_delete_alert_rule : String → String → String → State C → State C × Reply
  unfolding delete_alert_rule alert_rule_marshal_to_yaml update_alert_rule_config_file
  k8s_delete_alert_rule config_file group alert s =
      let file = file_name config_file in
      after_deletion file s (delete_alert_rule s.metadata file group alert)

  pub k8s_check_alert_rule : String → String → String → State C → CheckResult
  unfolding check_alert_rule_exists
  k8s_check_alert_rule config_file group alert s =
      check_alert_rule_exists s.metadata (file_name config_file) group alert

  -- `syncNow` synchronises first, and goes on with the rules in memory when that fails.
  pub k8s_get_alert_rules :
      String → Option AlertRuleFilter → Option PageParam → Bool → State C → State C × Page AlertRule
  unfolding sync_alert_rule get_alert_rules
  k8s_get_alert_rules config_file filter page_param sync_now s =
      let s2 = if sync_now then (sync_alert_rule s).0 else s in
      (s2, get_alert_rules s2.metadata (file_name config_file) filter page_param)
