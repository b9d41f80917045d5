-- ===== src/Kubernetes/RuleApi/Writable.antt =====
-- That a call never fails to turn the rules of a file into text.
use apo.Common.{
  ok, err, Result, Bool, List, Option, Dict, lookup, ◌≡◌, String, [], ◌∷◌, string_eq, refl, ◌∙◌,
  none, some, arith, ◌≢◌, inl, inr, Option-cases, eq_refl, true, false, All,
}
use apo.Kubernetes.AlertRules.{
  set_alert_rules, in_file, AlertRules, AlertRule, Metadata, Error, add_alert_rule,
  update_alert_rule, delete_alert_rule, add_to, update_in, check_and_remove_alert_rule,
}
use apo.Kubernetes.AlertRules.Files.{in_file-AllFiles, put-AllFiles, lookup-in_file}
use apo.Kubernetes.AlertRules.Marshal.{RuleGroup, parse_alert_rules, alert_rule_marshal_to_yaml}
use apo.Kubernetes.ConfigMaps.{
  written, get_config_map, update_config_map, Client, Write, not_written, panicked,
}
use apo.Kubernetes.RuleApi.{
  synced, file_name, sync_alert_rule, k8s_delete_alert_rule, k8s_update_alert_rule, ApiError,
  k8s_add_alert_rule, update_alert_rule_config_file, validate_alert_rule, sync_entries, Settings,
  Packages, State, Reply, write_back, write_marshalled, of_write, after_change, if_valid,
  after_deletion, set_parsed, returned, not_marshalled,
}
use apo.Kubernetes.RuleApi.Calls.{delete, reply_of, Call, add, update, sync, exec}
use apo.Kubernetes.RuleApi.Durations.{
  ShowsDurations, ParsesDurations, check_and_remove-Parses, update_in-Parses, validate-Parses,
  add_to-Parses, rule_groups-some, Parses, parse-Parses, AllParse,
}

-- After an operation without an error the file is loaded.
changed_loaded :
    {A : Type 0} (absent : A) (body : AlertRules → AlertRules × A) (m : Metadata) (file : String)
    (answer : A)
    → (in_file absent body m file).1 ≡ answer
    → absent ≢ answer
    → (rs : AlertRules) × (lookup file (in_file absent body m file).0 ≡ some rs)
changed_loaded absent body m file answer h differs = elim (Option-cases (lookup file m)) [
  | inl missing ↦ absurd (differs (rw missing at h))
  | inr (rs, found) ↦
      ((body rs).0, lookup-in_file absent body m file file ∙ rw (eq_refl file, found) refl)
]

module _ (p : Packages) where
  marshal-some :
      (m : Metadata) (file : String)
      → ((groups : List RuleGroup) → p.marshal groups ≢ none)
      → AllParse p m
      → (rs : AlertRules) × (lookup file m ≡ some rs)
      → alert_rule_marshal_to_yaml p.parse_duration p.marshal m file ≢ none
  unfolding alert_rule_marshal_to_yaml
  marshal-some m file total parses (rs, found) h =
      let (groups, good) = rule_groups-some p rs.groups rs.rules (parses file rs found) in
      total groups (rw (found, good) at h)

  set_parsed-AllParse :
      (key : String) (o : Option AlertRules) (m : Metadata)
      → ((rules : AlertRules) → o ≡ some rules → All (Parses p) rules.rules)
      → AllParse p m
      → AllParse p (set_parsed p key o m)
  unfolding set_alert_rules
  set_parsed-AllParse key none m good a = a
  set_parsed-AllParse key (some rules) m good a =
      put-AllFiles (λ rs. All (Parses p) rs.rules) m key rules a (good rules refl)

  sync_entries-AllParse :
      ShowsDurations p
      → ParsesDurations p
      → (entries : Dict String String) (m : Metadata) → AllParse p m
      → AllParse p (sync_entries p entries m)
  unfolding sync_entries
  sync_entries-AllParse shows parses [] m a = a
  sync_entries-AllParse shows parses ((key, text) ∷ rest) m a =
      set_parsed-AllParse key (parse_alert_rules p.show_duration p.parse text)
        (sync_entries p rest m) (parse-Parses p shows parses text)
        (sync_entries-AllParse shows parses rest m a)

module _ {C : Type 0} (k : Client C) (p : Packages) (settings : Settings)
    (total : (groups : List RuleGroup) → p.marshal groups ≢ none) where
  -- What is shown of a call: the durations of the rules in memory parse after it, and it did not
  -- fail at the text.
  abbrev Fine : State C × Reply → Type 0
  Fine (s, reply) = AllParse p s.metadata × (reply ≢ returned (some not_marshalled))

  update_file-Fine :
      (file text : String) (s : State C)
      → AllParse p s.metadata
      → Fine (update_alert_rule_config_file k p settings file (some text) s)
  unfolding update_alert_rule_config_file
  update_file-Fine file text s a =
      of_answer (update_config_map k settings.alert_rule_cm_name file (some text) s.cluster)
    where
      of_answer : (w : Write C) → Fine (of_write k p settings s w)
      of_answer (written c) = (a, λ h. cc h)
      of_answer (not_written e c) = (a, λ h. cc h)
      of_answer panicked = (a, λ h. cc h)

  write_back-Fine :
      (file : String) (s : State C)
      → AllParse p s.metadata
      → (rs : AlertRules) × (lookup file s.metadata ≡ some rs)
      → Fine (write_back k p settings file s)
  write_back-Fine file s a loaded =
      of_text (alert_rule_marshal_to_yaml p.parse_duration p.marshal s.metadata file) refl
    where
      of_text :
          (o : Option String)
          → alert_rule_marshal_to_yaml p.parse_duration p.marshal s.metadata file ≡ o
          → Fine (write_marshalled k p settings file s o)
      of_text none here = absurd (marshal-some p s.metadata file total a loaded here)
      of_text (some text) here = update_file-Fine file text s a

  after_change-Fine :
      (file : String) (s : State C) (m : Metadata × Option Error)
      → AllParse p m.0
      → (m.1 ≡ none → (rs : AlertRules) × (lookup file m.0 ≡ some rs))
      → Fine (after_change k p settings file s m)
  after_change-Fine file s (m, none) a loaded =
      write_back-Fine file (record s { metadata = m }) a (loaded refl)
  after_change-Fine file s (m, some e) a loaded = (a, λ h. cc h)

  after_deletion-Fine :
      (file : String) (s : State C) (m : Metadata × Bool)
      → AllParse p m.0
      → (m.1 ≡ true → (rs : AlertRules) × (lookup file m.0 ≡ some rs))
      → Fine (after_deletion k p settings file s m)
  after_deletion-Fine file s (m, true) a loaded =
      write_back-Fine file (record s { metadata = m }) a (loaded refl)
  after_deletion-Fine file s (m, false) a loaded = (a, λ h. cc h)

  if_valid-Fine :
      (s : State C) (o : Option ApiError) (next : State C × Reply)
      → AllParse p s.metadata
      → o ≢ some not_marshalled
      → (o ≡ none → Fine next)
      → Fine (if_valid k p settings s o next)
  if_valid-Fine s none next a other f = f refl
  if_valid-Fine s (some e) next a other f = (a, λ h. other (cc h))

  validate-other : (rule : AlertRule) → validate_alert_rule p rule ≢ some not_marshalled
  unfolding validate_alert_rule
  validate-other rule h = ground (arith, h)

  synced-Fine :
      (s : State C) (r : Result (Dict String String))
      → ShowsDurations p
      → ParsesDurations p
      → AllParse p s.metadata
      → Fine (reply_of k p settings (synced k p settings r s))
  synced-Fine s (err e) shows parses a = (a, λ h. cc h)
  synced-Fine s (ok d) shows parses a =
      (sync_entries-AllParse p shows parses d s.metadata a, λ h. cc h)

  -- If the durations of the rules in memory parse, they do after each call, and the call does not
  -- fail at the text of the file. This holds when the text of a duration of up to 2 ^ 63 - 1
  -- nanoseconds parses, into whatever duration; when the rules that are parsed have such durations;
  -- and when YAML has a text for all rule groups.
  pub exec-Parses :
      (c : Call) (s : State C)
      → ShowsDurations p
      → ParsesDurations p
      → AllParse p s.metadata
      → AllParse p (exec k p settings c s).0.metadata
        × ((exec k p settings c s).1 ≢ returned (some not_marshalled))
  unfolding exec k8s_add_alert_rule k8s_update_alert_rule k8s_delete_alert_rule sync_alert_rule
      add_alert_rule update_alert_rule delete_alert_rule
  exec-Parses (add config_file rule) s shows parses a =
      let file = file_name k p settings config_file in
      if_valid-Fine s (validate_alert_rule p rule) _ a (validate-other rule) (λ valid.
        after_change-Fine file s (add_alert_rule s.metadata file rule)
          (in_file-AllFiles _ _ (add_to rule) s.metadata file a
            (λ rs found b. add_to-Parses p rule rs (validate-Parses p rule valid) b))
          (λ h. changed_loaded _ (add_to rule) s.metadata file none h (λ e. cc e)))
  exec-Parses (update config_file rule old_group old_alert) s shows parses a =
      let file = file_name k p settings config_file in
      let body = update_in rule old_group old_alert in
      if_valid-Fine s (validate_alert_rule p rule) _ a (validate-other rule) (λ valid.
        after_change-Fine file s (update_alert_rule s.metadata file rule old_group old_alert)
          (in_file-AllFiles _ _ body s.metadata file a (λ rs found b.
            update_in-Parses p rule old_group old_alert rs (validate-Parses p rule valid) b))
          (λ h. changed_loaded _ body s.metadata file none h (λ e. cc e)))
  exec-Parses (delete config_file group alert) s shows parses a =
      let file = file_name k p settings config_file in
      let body = check_and_remove_alert_rule group alert in
      after_deletion-Fine file s (delete_alert_rule s.metadata file group alert)
        (in_file-AllFiles _ _ body s.metadata file a
          (λ rs found b. check_and_remove-Parses p group alert rs b))
        (λ h. changed_loaded false body s.metadata file true h (λ e. cc e))
  exec-Parses sync s shows parses a =
      synced-Fine s (get_config_map k settings.alert_rule_cm_name "" s.cluster) shows parses a
