-- ===== src/Kubernetes/RuleApi/Calls.antt =====
-- Sequences of calls of the API, and the files in memory and in the config map after them.
use native.Mathlib.Decide.{dec_le}
use text.Mathlib.Text.{◌==◌}
use apo.Common.{
  ◌&&◌, zero, ◌<◌, suc, ◌≤◌, ℕ, Bool, lookup, ◌≡◌, Option, String, string_eq, refl, ◌∙◌, none, some,
  arith, ◌⊎◌, inl, inr, sym, ap, true, false, subst,
}
use apo.Kubernetes.AlertRules.{
  AlertRules, AlertRule, add_alert_rule, update_alert_rule, delete_alert_rule,
}
use apo.Kubernetes.AlertRules.Files.{delete-others, update-others, add-others}
use apo.Kubernetes.AlertRules.Marshal.{parse_alert_rules}
use apo.Kubernetes.ConfigMaps.{ConfigData, Client, IsClient}
use apo.Kubernetes.RuleApi.{
  file_name, sync_alert_rule, k8s_delete_alert_rule, client_error, k8s_update_alert_rule,
  k8s_add_alert_rule, returned, Reply, State, Settings, Packages,
}
use apo.Kubernetes.RuleApi.Agreement.{
  parsed_or-bad, parsed_or-good, InSync-same, parsed_or, InSync, stored,
}
use apo.Kubernetes.RuleApi.Writes.{deletion_lem, Effect, sync_lem, valid_lem}

-- The calls of the API that change the rules. `UpdateAlertRuleConfigFile`, which writes any text to
-- the config map, is called by these alone.
pub data Call : Type 0 where
  add : String → AlertRule → Call
  update : String → AlertRule → String → String → Call
  delete : String → String → String → Call
  sync : Call

module _ {C : Type 0} (k : Client C) (p : Packages) (settings : Settings) where
  abbrev pub reply_of : State C × Option String → State C × Reply
  reply_of (s, none) = (s, returned none)
  reply_of (s, some e) = (s, returned (some (client_error e)))

  unfoldable pub exec : Call → State C → State C × Reply
  exec (add file rule) s = k8s_add_alert_rule k p settings file rule s
  exec (update file rule old_group old_alert) s =
      k8s_update_alert_rule k p settings file rule old_group old_alert s
  exec (delete file group alert) s = k8s_delete_alert_rule k p settings file group alert s
  exec sync s = reply_of (sync_alert_rule k p settings s)

module _ {C : Type 0} (k : Client C) (p : Packages) (settings : Settings)
    (contents : String → C → ConfigData) (w : IsClient k contents) where
  -- The files that a call writes when it succeeds: a deletion writes if it finds its rule.
  unfoldable pub writes : State C → Call → String → Bool
  unfolding delete_alert_rule
  writes s (add file rule) f = file_name k p settings file == f
  writes s (update file rule old_group old_alert) f = file_name k p settings file == f
  writes s (delete file group alert) f =
      (delete_alert_rule s.metadata (file_name k p settings file) group alert).1
      && file_name k p settings file == f
  writes s sync f = false

  abbrev InSyncOr : String → State C → Bool → Type 0
  InSyncOr f s own = InSync k p settings contents f s ⊎ (own ≡ true)

  settled_file :
      (file f : String) (s t : State C)
      → Effect k p settings contents w file f s t
      → InSyncOr f s (file == f)
      → InSync k p settings contents f t
  settled_file file f s t (own, kept) (inl i) = kept i
  settled_file file f s t (own, kept) (inr e) = own e

  -- A synchronisation that gives no error brings a file in sync whose text parses.
  synced_lem :
      (f text : String) (rules : AlertRules) (s t : State C)
      → sync_alert_rule k p settings s ≡ (t, none)
      → stored k p settings contents f s ≡ some text
      → parse_alert_rules p.show_duration p.parse text ≡ some rules
      → InSync k p settings contents f t
  synced_lem f text rules s t h in_map good =
      let (kept, read) = sync_lem k p settings contents w f s t h in
      record {
        rules = rules;
        text = text;
        loaded =
            read
            ∙ ap (λ o. parsed_or p o (lookup f s.metadata)) in_map
            ∙ parsed_or-good p text _ rules good;
        in_map = kept ∙ in_map;
        matches = inr good;
      }

  of_sync :
      (f : String) (s t : State C)
      → sync_alert_rule k p settings s ≡ (t, none)
      → InSync k p settings contents f s
      → InSync k p settings contents f t
  of_sync f s t h i = of_parsed (parse_alert_rules p.show_duration p.parse i.text) refl
    where
      of_parsed :
          (o : Option AlertRules)
          → parse_alert_rules p.show_duration p.parse i.text ≡ o
          → InSync k p settings contents f t
      of_parsed (some rules) good = synced_lem f i.text rules s t h i.in_map good
      of_parsed none bad =
          let (kept, read) = sync_lem k p settings contents w f s t h in
          InSync-same k p settings contents f s t
            (read
              ∙ ap (λ o. parsed_or p o (lookup f s.metadata)) i.in_map
              ∙ parsed_or-bad p i.text _ bad)
            kept i

  reply_of_lem :
      (r : State C × Option String) (t : State C)
      → reply_of k p settings r ≡ (t, returned none)
      → r ≡ (t, none)
  reply_of_lem (s, none) t h = rw (ap (λ x. x.0) h) refl
  reply_of_lem (s, some e) t h = absurd (cc (ap (λ x. x.1) h))

  -- A call of AddAlertRule, UpdateAlertRule, DeleteAlertRule or syncAlertRule that returns no error
  -- brings in sync the file that it writes, and keeps in sync every file that is. A deletion writes
  -- its file if it finds the rule.
  pub exec-InSync :
      (c : Call) (f : String) (s t : State C)
      → exec k p settings c s ≡ (t, returned none)
      → InSync k p settings contents f s ⊎ (writes s c f ≡ true)
      → InSync k p settings contents f t
  unfolding exec writes k8s_add_alert_rule k8s_update_alert_rule k8s_delete_alert_rule
  exec-InSync (add config_file rule) f s t h i =
      let file = file_name k p settings config_file in
      settled_file file f s t
        (valid_lem k p settings contents w file f s t _ (add_alert_rule s.metadata file rule)
          (add-others s.metadata file rule f) h)
        i
  exec-InSync (update config_file rule old_group old_alert) f s t h i =
      let file = file_name k p settings config_file in
      settled_file file f s t
        (valid_lem k p settings contents w file f s t _
          (update_alert_rule s.metadata file rule old_group old_alert)
          (update-others s.metadata file rule old_group old_alert f) h)
        i
  exec-InSync (delete config_file group alert) f s t h i =
      let file = file_name k p settings config_file in
      let m = delete_alert_rule s.metadata file group alert in
      deletion_lem k p settings contents w file f s t m
        (delete-others s.metadata file group alert f).0
        (delete-others s.metadata file group alert f).1 h i
  exec-InSync sync f s t h (inl i) =
      of_sync f s t (reply_of_lem (sync_alert_rule k p settings s) t h) i
  exec-InSync sync f s t h (inr e) = absurd (cc e)

  -- The state after the first `n` calls of a schedule.
  unfoldable pub run : (ℕ → Call) → ℕ → State C → State C
  run calls zero s = s
  run calls (suc n) s = (exec k p settings (calls n) (run calls n s)).0

  -- The call with this number gives no error.
  unfoldable pub Succeeds : (ℕ → Call) → ℕ → State C → Type 0
  Succeeds calls n s = (exec k p settings (calls n) (run calls n s)).1 ≡ returned none

  pair_of : (r : State C × Reply) → r.1 ≡ returned none → r ≡ (r.0, returned none)
  pair_of (t, a) h = rw h refl

  -- A file that was in sync stays so while the calls give no error, from any time on.
  pub run-InSync :
      (calls : ℕ → Call) (s : State C) (f : String) (n m : ℕ)
      → n ≤ m
      → InSync k p settings contents f (run calls n s)
      → ((a : ℕ) → n ≤ a → a < m → Succeeds calls a s)
      → InSync k p settings contents f (run calls m s)
  unfolding run Succeeds
  run-InSync calls s f n zero le i good_call =
      let same : n ≡ 0 = omega (arith, le) in
      subst (λ a. InSync k p settings contents f (run calls a s)) same i
  run-InSync calls s f n (suc m) le i good_call = elim (dec_le n m) [
    | yes earlier ↦
        let before =
          run-InSync calls s f n m earlier i (λ a lo hi. good_call a lo (omega (arith, hi))) in
        let last = exec k p settings (calls m) (run calls m s) in
        exec-InSync (calls m) f (run calls m s) last.0
          (pair_of last (good_call m earlier (omega arith))) (inl before)
    | no now ↦
        let same : n ≡ suc m = omega (arith, le, now) in
        subst (λ a. InSync k p settings contents f (run calls a s)) same i
  ]

  -- Whatever calls failed before and left the memory ahead of the config map: if synchronisations
  -- that give no error come again and again, and whenever a synchronisation comes the config map
  -- has a text for the file, which parses, then again and again the file in memory and its text
  -- belong together.
  pub run-recovers :
      (calls : ℕ → Call) (s : State C) (f : String)
      → ((m : ℕ) → (n : ℕ) × (m ≤ n) × (calls n ≡ sync) × Succeeds calls n s)
      → ((n : ℕ)
          → calls n ≡ sync
          → (text : String) × (rules : AlertRules) × (stored k p settings contents f (run calls n s)
              ≡ some text)
            × (parse_alert_rules p.show_duration p.parse text ≡ some rules))
      → (m : ℕ) → (n : ℕ) × (m ≤ n) × InSync k p settings contents f (run calls n s)
  unfolding run Succeeds exec
  run-recovers calls s f fair parses m =
      let (n, later, is_sync, good_call) = fair m in
      let (text, rules, in_map, good) = parses n is_sync in
      let before = run calls n s in
      let last = reply_of k p settings (sync_alert_rule k p settings before) in
      (
        suc n,
        omega (arith, later),
        subst (λ c. InSync k p settings contents f (exec k p settings c before).0) (sym is_sync)
            (synced_lem f text rules before last.0
              (reply_of_lem (sync_alert_rule k p settings before) last.0
                (pair_of last (rw is_sync at good_call)))
              in_map good),
      )
