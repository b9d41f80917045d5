-- ===== src/Kubernetes/RuleApi/Failures.antt =====
-- What a call that fails leaves behind.
use apo.Common.{
  Dict, List, lookup, ℕ, Bool, Option, String, ◌≡◌, ok, err, Result, [], ◌∷◌, string_eq, refl, none,
  some, ◌≢◌, true, false,
}
use apo.Kubernetes.AlertRules.{
  AlertRule, Metadata, Error, add_alert_rule, update_alert_rule, delete_alert_rule,
}
use apo.Kubernetes.AlertRules.Files.{failed_keeps_files}
use apo.Kubernetes.AlertRules.Marshal.{node_with, alert_rule_marshal_to_yaml}
use apo.Kubernetes.ConfigMaps.{
  written, get_config_map, update_config_map, Client, Write, not_written, panicked,
}
use apo.Kubernetes.RuleApi.{
  validate_alert_rule, sync_alert_rule, k8s_delete_alert_rule, k8s_update_alert_rule, file_name,
  k8s_add_alert_rule, update_alert_rule_config_file, keep_firing_for_illegal, for_illegal,
  invalid_rule, refused, client_error, api_panicked, synced, Settings, Packages, State, Reply,
  write_back, write_marshalled, of_write, after_change, if_valid, after_deletion, returned,
  not_marshalled, error_or_nil, validate_with,
}
use apo.Kubernetes.RuleApi.Calls.{delete, reply_of, Call, add, update, sync, exec}

-- The errors of the checks, before anything is written.
unfoldable pub is_refusal : Reply → Bool
is_refusal (returned (some keep_firing_for_illegal)) = true
is_refusal (returned (some for_illegal)) = true
is_refusal (returned (some (invalid_rule es))) = true
is_refusal (returned (some (refused e))) = true
is_refusal (returned (some not_marshalled)) = false
is_refusal (returned (some (client_error e))) = false
is_refusal (returned none) = false
is_refusal api_panicked = false

module _ {C : Type 0} (k : Client C) (p : Packages) (settings : Settings) where
  -- The rules in memory after the change that a call makes there, before it writes.
  unfoldable pub in_memory : Call → Metadata → Metadata
  in_memory (add file rule) m = (add_alert_rule m (file_name k p settings file) rule).0
  in_memory (update file rule old_group old_alert) m =
      (update_alert_rule m (file_name k p settings file) rule old_group old_alert).0
  in_memory (delete file group alert) m =
      (delete_alert_rule m (file_name k p settings file) group alert).0
  in_memory sync m = m

  -- Either nothing has changed, or the memory has.
  abbrev Left : State C → Metadata → State C × Reply → Type 0
  Left s m (t, reply) =
      (is_refusal reply ≡ true
        → (t.cluster ≡ s.cluster) × ((f : String) → lookup f t.metadata ≡ lookup f s.metadata))
      × (is_refusal reply ≡ false → reply ≢ returned none → t.metadata ≡ m)

  write_back-Left :
      (file : String) (s : State C) (m : Metadata)
      → Left s m (write_back k p settings file (record s { metadata = m }))
  unfolding update_alert_rule_config_file is_refusal
  write_back-Left file s m = of_text (alert_rule_marshal_to_yaml p.parse_duration p.marshal m file)
    where
      of_answer : (w : Write C) → Left s m (of_write k p settings (record s { metadata = m }) w)
      of_answer (written c) = (λ h. absurd (cc h), λ h fails. absurd (fails refl))
      of_answer (not_written e c) = (λ h. absurd (cc h), λ h fails. refl)
      of_answer panicked = (λ h. absurd (cc h), λ h fails. refl)

      of_text :
          (o : Option String)
          → Left s m (write_marshalled k p settings file (record s { metadata = m }) o)
      of_text none = (λ h. absurd (cc h), λ h fails. refl)
      of_text (some text) =
          of_answer (update_config_map k settings.alert_rule_cm_name file (some text) s.cluster)

  change-Left :
      (file : String) (s : State C) (m : Metadata × Option Error)
      → (m.1 ≢ none → (f : String) → lookup f m.0 ≡ lookup f s.metadata)
      → Left s m.0 (after_change k p settings file s m)
  unfolding is_refusal
  change-Left file s (m, none) kept = write_back-Left file s m
  change-Left file s (m, some e) kept = (λ h. (refl, kept (λ n. cc n)), λ h fails. refl)

  valid-Left :
      (s : State C) (m : Metadata) (keep for_duration : Option ℕ) (rule : AlertRule)
      (next : State C × Reply)
      → Left s m next
      → Left s m (if_valid k p settings s (validate_with p rule keep for_duration) next)
  unfolding is_refusal
  valid-Left s m none b rule next left = (λ h. (refl, λ f. refl), λ h. absurd (cc h))
  valid-Left s m (some a) none rule next left = (λ h. (refl, λ f. refl), λ h. absurd (cc h))
  valid-Left s m (some a) (some b) rule next left = of_errors (p.validate (node_with rule b a))
    where
      of_errors : (es : List String) → Left s m (if_valid k p settings s (error_or_nil es) next)
      of_errors [] = left
      of_errors (e ∷ es) = (λ h. (refl, λ f. refl), λ h. absurd (cc h))

  -- A call that a check refuses, of the rule or of the rules in memory, leaves the cluster and what
  -- every file holds. A call that fails later, at the text, at the cluster or by a panic, leaves
  -- the change in memory.
  pub exec-failed :
      (c : Call) (s : State C)
      → (is_refusal (exec k p settings c s).1 ≡ true
          → ((exec k p settings c s).0.cluster ≡ s.cluster)
            × ((f : String) → lookup f (exec k p settings c s).0.metadata ≡ lookup f s.metadata))
        × (is_refusal (exec k p settings c s).1 ≡ false
            → (exec k p settings c s).1 ≢ returned none
            → (exec k p settings c s).0.metadata ≡ in_memory c s.metadata)
  unfolding exec in_memory k8s_add_alert_rule k8s_update_alert_rule k8s_delete_alert_rule
      sync_alert_rule validate_alert_rule is_refusal
  exec-failed (add config_file rule) s =
      let file = file_name k p settings config_file in
      let m = add_alert_rule s.metadata file rule in
      valid-Left s m.0 _ _ rule _
        (change-Left file s m (λ e f. (failed_keeps_files s.metadata file rule "" "" f).0 e))
  exec-failed (update config_file rule old_group old_alert) s =
      let file = file_name k p settings config_file in
      let m = update_alert_rule s.metadata file rule old_group old_alert in
      valid-Left s m.0 _ _ rule _ (
        change-Left file s m
          (λ e f. (failed_keeps_files s.metadata file rule old_group old_alert f).1 e))
  exec-failed (delete config_file group alert) s =
      let file = file_name k p settings config_file in
      of_deletion file s (delete_alert_rule s.metadata file group alert)
    where
      of_deletion :
          (file : String) (s : State C) (m : Metadata × Bool)
          → Left s m.0 (after_deletion k p settings file s m)
      of_deletion file s (m, true) = write_back-Left file s m
      of_deletion file s (m, false) = (λ h. absurd (cc h), λ h fails. absurd (fails refl))
  exec-failed sync s = of_read (get_config_map k settings.alert_rule_cm_name "" s.cluster)
    where
      of_read :
          (r : Result (Dict String String))
          → Left s s.metadata (reply_of k p settings (synced k p settings r s))
      of_read (ok d) = (λ h. absurd (cc h), λ h fails. absurd (fails refl))
      of_read (err e) = (λ h. absurd (cc h), λ h fails. refl)
