-- ===== src/Kubernetes/RuleApi/Agreement.antt =====
-- When the rules of a file in memory and the text of the file in the config map belong together,
-- and the calls that make it so.
use text.Mathlib.Text.{◌==◌}
use apo.Common.{
  true, false, lookup-put, absent_lookup, eq_iff, false, has, Dict, ◌≡◌, List, String, lookup,
  Option, [], ◌∷◌, string_eq, refl, ◌∙◌, none, some, arith, ◌⊎◌, if◌then◌else◌,
}
use apo.Kubernetes.AlertRules.{Metadata, AlertRules, set_alert_rules}
use apo.Kubernetes.AlertRules.Marshal.{
  ◌>>=◌, rule_groups, RuleGroup, parse_alert_rules, alert_rule_marshal_to_yaml,
}
use apo.Kubernetes.ConfigMaps.{distinct_keys, entries, ConfigData, Client}
use apo.Kubernetes.RuleApi.{set_parsed, State, sync_entries, Settings, Packages}

or_else {ℓ} : {A : Type ℓ} → Option A → Option A → Option A
or_else none old = old
or_else (some a) old = some a

module _ (p : Packages) where
  -- What a file holds after the loop over the config map: its text parsed, if it has one that
  -- parses, and else what it held.
  unfoldable pub parsed_or : Option String → Option AlertRules → Option AlertRules
  unfolding or_else
  parsed_or none old = old
  parsed_or (some text) old = or_else (parse_alert_rules p.show_duration p.parse text) old

  lookup-set_parsed :
      (f key text : String) (rest : Dict String String) (m : Metadata) (old : Option AlertRules)
      (o : Option AlertRules)
      → parse_alert_rules p.show_duration p.parse text ≡ o
      → has key rest ≡ false
      → lookup f m ≡ parsed_or (lookup f rest) old
      → lookup f (set_parsed p key o m)
        ≡ parsed_or (if key == f then some text else lookup f rest) old
  unfolding set_alert_rules parsed_or or_else
  lookup-set_parsed f key text rest m old none here fresh ih =
      ground (arith, here, fresh, ih, eq_iff key f, absent_lookup f rest)
  lookup-set_parsed f key text rest m old (some rules) here fresh ih =
      ground (arith, here, ih, eq_iff key f, lookup-put key f rules m)

  pub lookup-sync_entries :
      (f : String) (d : Dict String String) (m : Metadata)
      → distinct_keys d ≡ true
      → lookup f (sync_entries p d m) ≡ parsed_or (lookup f d) (lookup f m)
  unfolding lookup sync_entries parsed_or
  lookup-sync_entries f [] m distinct = refl
  lookup-sync_entries f ((key, text) ∷ rest) m distinct =
      lookup-set_parsed f key text rest (sync_entries p rest m) (lookup f m)
        (parse_alert_rules p.show_duration p.parse text) refl (ground arith)
        (lookup-sync_entries f rest m (ground arith))

  pub parsed_or-bad :
      (text : String) (old : Option AlertRules)
      → parse_alert_rules p.show_duration p.parse text ≡ none
      → parsed_or (some text) old ≡ old
  unfolding parsed_or or_else
  parsed_or-bad text old bad = rw bad

  pub parsed_or-good :
      (text : String) (old : Option AlertRules) (rules : AlertRules)
      → parse_alert_rules p.show_duration p.parse text ≡ some rules
      → parsed_or (some text) old ≡ some rules
  unfolding parsed_or or_else
  parsed_or-good text old rules good = rw good

  -- The text is the one that these rules are written as.
  abbrev pub Written : AlertRules → String → Type 0
  Written rules text =
      (groups : List RuleGroup) × (rule_groups p.parse_duration rules.groups rules.rules
        ≡ some groups)
      × (p.marshal groups ≡ some text)

  -- The text and the rules belong together: one was made of the other.
  abbrev pub Matches : AlertRules → String → Type 0
  Matches rules text =
      Written rules text ⊎ (parse_alert_rules p.show_duration p.parse text ≡ some rules)

  pub marshal-Written :
      (m : Metadata) (file text : String)
      → alert_rule_marshal_to_yaml p.parse_duration p.marshal m file ≡ some text
      → (rules : AlertRules) × (lookup file m ≡ some rules) × Written rules text
  unfolding alert_rule_marshal_to_yaml
  marshal-Written m file text h = of_file (lookup file m) refl h
    where
      of_groups :
          (rules : AlertRules) (o : Option (List RuleGroup))
          → rule_groups p.parse_duration rules.groups rules.rules ≡ o
          → o >>= p.marshal ≡ some text
          → Written rules text
      of_groups rules none here e = absurd (cc e)
      of_groups rules (some groups) here e = (groups, here, e)

      of_file :
          (o : Option AlertRules)
          → lookup file m ≡ o
          → o >>= (λ rs. rule_groups p.parse_duration rs.groups rs.rules >>= p.marshal) ≡ some text
          → (rules : AlertRules) × (lookup file m ≡ some rules) × Written rules text
      of_file none here e = absurd (cc e)
      of_file (some rules) here e = (rules, here, of_groups rules _ refl e)

module _ {C : Type 0} (k : Client C) (p : Packages) (settings : Settings)
    (contents : String → C → ConfigData) where
  unfoldable pub stored : String → State C → Option String
  stored file s = lookup file (entries (contents settings.alert_rule_cm_name s.cluster))

  -- The file is loaded, the config map has a text for it, and the two belong together.
  pub record InSync (file : String) (s : State C) : Type 0 where
    pub rules : AlertRules
    pub text : String
    pub loaded : lookup file s.metadata ≡ some rules
    pub in_map : stored file s ≡ some text
    pub matches : Matches p rules text

  -- What InSync depends on.
  pub InSync-same :
      (file : String) (s t : State C)
      → lookup file t.metadata ≡ lookup file s.metadata
      → stored file t ≡ stored file s
      → InSync file s
      → InSync file t
  InSync-same file s t m c i = record {
    rules = i.rules;
    text = i.text;
    loaded = m ∙ i.loaded;
    in_map = c ∙ i.in_map;
    matches = i.matches;
  }
