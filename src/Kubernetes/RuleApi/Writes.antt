-- ===== src/Kubernetes/RuleApi/Writes.antt =====
-- The write of a file after a change in memory, and the synchronisation: what they do to the files
-- in memory and in the config map.
use text.Mathlib.Text.{◌==◌}
use apo.Common.{
  ◌&&◌, ◌⊎◌, ok, err, Dict, Result, Bool, lookup, ◌≡◌, Option, String, string_eq, refl, ◌∙◌, none,
  some, inl, inr, if◌then◌else◌, ap, true, false, eq_iff, Bool-cases,
}
use apo.Kubernetes.AlertRules.{Metadata, Error}
use apo.Kubernetes.AlertRules.Marshal.{alert_rule_marshal_to_yaml}
use apo.Kubernetes.ConfigMaps.{
  get_config_map_lem, get_config_map, update_config_map, Write, ConfigData, panicked, not_written,
  update_config_map_lem, Client, IsClient, written,
}
use apo.Kubernetes.RuleApi.{
  sync_entries, synced, after_change, after_deletion, if_valid, write_marshalled, ApiError,
  write_back, sync_alert_rule, returned, update_alert_rule_config_file, State, Settings, Packages,
  of_write,
}
use apo.Kubernetes.RuleApi.Agreement.{
  lookup-sync_entries, marshal-Written, InSync-same, parsed_or, InSync, stored,
}

module _ {C : Type 0} (k : Client C) (p : Packages) (settings : Settings)
    (contents : String → C → ConfigData) (w : IsClient k contents) where
  update_file_lem :
      (file f text : String) (s t : State C)
      → update_alert_rule_config_file k p settings file (some text) s ≡ (t, returned none)
      → (t.metadata ≡ s.metadata)
        × (stored k p settings contents f t
            ≡ (if file == f then some text else stored k p settings contents f s))
  unfolding update_alert_rule_config_file stored
  update_file_lem file f text s t h =
      of_answer (update_config_map k settings.alert_rule_cm_name file (some text) s.cluster) refl h
    where
      of_answer :
          (a : Write C)
          → update_config_map k settings.alert_rule_cm_name file (some text) s.cluster ≡ a
          → of_write k p settings s a ≡ (t, returned none)
          → (t.metadata ≡ s.metadata)
            × (stored k p settings contents f t
                ≡ (if file == f then some text else stored k p settings contents f s))
      of_answer (written c) here e =
          let same : record s { cluster = c } ≡ t = ap (λ x. x.0) e in
          rw (← same) (
            refl,
            update_config_map_lem k contents w settings.alert_rule_cm_name file f text s.cluster c
                here,
          )
      of_answer (not_written m c) here e = absurd (cc (ap (λ x. x.1) e))
      of_answer panicked here e = absurd (cc (ap (λ x. x.1) e))

  write_back_lem :
      (file f : String) (s t : State C)
      → write_back k p settings file s ≡ (t, returned none)
      → ((file == f) ≡ true → InSync k p settings contents f t)
        × ((file == f) ≡ false
            → (lookup f t.metadata ≡ lookup f s.metadata)
              × (stored k p settings contents f t ≡ stored k p settings contents f s))
  write_back_lem file f s t h =
      of_text (alert_rule_marshal_to_yaml p.parse_duration p.marshal s.metadata file) refl h
    where
      of_text :
          (o : Option String)
          → alert_rule_marshal_to_yaml p.parse_duration p.marshal s.metadata file ≡ o
          → write_marshalled k p settings file s o ≡ (t, returned none)
          → ((file == f) ≡ true → InSync k p settings contents f t)
            × ((file == f) ≡ false
                → (lookup f t.metadata ≡ lookup f s.metadata)
                  × (stored k p settings contents f t ≡ stored k p settings contents f s))
      of_text none here e = absurd (cc (ap (λ x. x.1) e))
      of_text (some text) here e =
          let (kept, text_kept) = update_file_lem file f text s t e in
          let (rules, found, made) = marshal-Written p s.metadata file text here in
          (
            (λ same. record {
              rules = rules;
              text = text;
              loaded = rw (kept, ← (eq_iff file f).0 same) found;
              in_map = text_kept ∙ rw same;
              matches = inl made;
            }),
            (λ other. (rw kept, text_kept ∙ rw other)),
          )

  -- What a write of a file means for the file `f`.
  abbrev pub Effect : String → String → State C → State C → Type 0
  Effect file f s t =
      ((file == f) ≡ true → InSync k p settings contents f t)
      × (InSync k p settings contents f s → InSync k p settings contents f t)

  written_lem :
      (file f : String) (s t : State C) (m : Metadata)
      → ((file == f) ≡ false → lookup f m ≡ lookup f s.metadata)
      → write_back k p settings file (record s { metadata = m }) ≡ (t, returned none)
      → Effect file f s t
  unfolding stored
  written_lem file f s t m others h =
      let (own, kept) = write_back_lem file f (record s { metadata = m }) t h in
      (
        own,
        (λ i. elim (Bool-cases (file == f)) [
          | inl same ↦ own same
          | inr other ↦
              let (rules, text) = kept other in
              InSync-same k p settings contents f s t (rules ∙ others other) text i
        ]),
      )

  change_lem :
      (file f : String) (s t : State C) (m : Metadata × Option Error)
      → ((file == f) ≡ false → lookup f m.0 ≡ lookup f s.metadata)
      → after_change k p settings file s m ≡ (t, returned none)
      → Effect file f s t
  change_lem file f s t (m, none) others h = written_lem file f s t m others h
  change_lem file f s t (m, some e) others h = absurd (cc (ap (λ x. x.1) h))

  pub valid_lem :
      (file f : String) (s t : State C) (o : Option ApiError) (m : Metadata × Option Error)
      → ((file == f) ≡ false → lookup f m.0 ≡ lookup f s.metadata)
      → if_valid k p settings s o (after_change k p settings file s m) ≡ (t, returned none)
      → Effect file f s t
  valid_lem file f s t none m others h = change_lem file f s t m others h
  valid_lem file f s t (some e) m others h = absurd (cc (ap (λ x. x.1) h))

  pub deletion_lem :
      (file f : String) (s t : State C) (m : Metadata × Bool)
      → ((file == f) ≡ false → lookup f m.0 ≡ lookup f s.metadata)
      → (m.1 ≡ false → lookup f m.0 ≡ lookup f s.metadata)
      → after_deletion k p settings file s m ≡ (t, returned none)
      → InSync k p settings contents f s ⊎ ((m.1 && file == f) ≡ true)
      → InSync k p settings contents f t
  unfolding stored
  deletion_lem file f s t (m, true) others kept h (inl i) = (written_lem file f s t m others h).1 i
  deletion_lem file f s t (m, true) others kept h (inr e) = (written_lem file f s t m others h).0 e
  deletion_lem file f s t (m, false) others kept h (inr e) = absurd (cc e)
  deletion_lem file f s t (m, false) others kept h (inl i) =
      let same : record s { metadata = m } ≡ t = ap (λ x. x.0) h in
      rw (← same)
        (InSync-same k p settings contents f s (record s { metadata = m }) (kept refl) refl i)

  pub sync_lem :
      (f : String) (s t : State C)
      → sync_alert_rule k p settings s ≡ (t, none)
      → (stored k p settings contents f t ≡ stored k p settings contents f s)
        × (lookup f t.metadata
            ≡ parsed_or p (stored k p settings contents f s) (lookup f s.metadata))
  unfolding sync_alert_rule stored
  sync_lem f s t h = of_read (get_config_map k settings.alert_rule_cm_name "" s.cluster) refl h
    where
      of_read :
          (r : Result (Dict String String))
          → get_config_map k settings.alert_rule_cm_name "" s.cluster ≡ r
          → synced k p settings r s ≡ (t, none)
          → (stored k p settings contents f t ≡ stored k p settings contents f s)
            × (lookup f t.metadata
                ≡ parsed_or p (stored k p settings contents f s) (lookup f s.metadata))
      of_read (err e) here h = absurd (cc (ap (λ x. x.1) h))
      of_read (ok d) here h =
          let same : record s { metadata = sync_entries p d s.metadata } ≡ t = ap (λ x. x.0) h in
          let read = get_config_map_lem k contents w settings.alert_rule_cm_name s.cluster d here in
          rw (← same, ← read)
            (
              refl,
              lookup-sync_entries p f d s.metadata
                  (rw read (w.distinct settings.alert_rule_cm_name s.cluster)),
            )
