-- ===== src/Kubernetes/ConfigMaps.antt =====
-- `getConfigMap` and `updateConfigMap` of k8s_api.go. The Kubernetes client is a parameter: a
-- cluster is a value of a type of its own, and the name of a config map stands for its namespace
-- and name.
use text.Mathlib.Text.{◌==◌}
use apo.Common.{
  true, not, ◌&&◌, Bool, refl, has, lookup-put, sym, eq_of_ok, eq_of_some, ◌≢◌, err, if◌then◌else◌,
  none, ok, Result, [], remove, some, ◌≡◌, Dict, Option, String, lookup, put, ◌∷◌, string_eq,
}

-- The field `Data` of a `v1.ConfigMap`; `none` is the nil map.
abbrev pub ConfigData : Type 0
ConfigData = Option (Dict String String)

-- What `controllerutil.CreateOrUpdate` does. After an error the cluster may have changed or not.
pub data Write (C : Type 0) : Type 0 where
  written : C → Write C
  not_written : String → C → Write C
  panicked : Write C

-- `create_or_update name mutate` calls `mutate` on the config map of that name, or on a fresh one.
-- A `mutate` that gives `none` panics.
pub record Client (C : Type 0) : Type 0 where
  pub get : String → C → Result ConfigData
  pub create_or_update : String → (ConfigData → Option ConfigData) → C → Write C

-- Ranging over the nil map is ranging over no entry.
abbrev pub entries : ConfigData → Dict String String
entries none = []
entries (some d) = d

-- Every key has one entry.
abbrev pub distinct_keys : Dict String String → Bool
distinct_keys [] = true
distinct_keys ((k, v) ∷ d) = not (has k d) && distinct_keys d

-- The documented behaviour of the client, over what the cluster holds under a name: a read gives
-- it, a write that succeeds replaces it by what `mutate` makes of it, and touches nothing else. A
-- map has each key once.
pub record IsClient {C : Type 0} (k : Client C) (contents : String → C → ConfigData) : Type 0 where
  pub get_lem : (name : String) (c : C) (d : ConfigData) → k.get name c ≡ ok d → d ≡ contents name c
  pub write_lem :
      (name : String) (mutate : ConfigData → Option ConfigData) (c c2 : C)
      → k.create_or_update name mutate c ≡ written c2
      → mutate (contents name c) ≡ some (contents name c2)
  pub distinct : (name : String) (c : C) → distinct_keys (entries (contents name c)) ≡ true

-- The closure in `updateConfigMap`: `content` is nil or a text. Deleting from the nil map does
-- nothing, and writing into it panics.
unfoldable pub set_content : String → Option String → ConfigData → Option ConfigData
unfolding put remove
set_content key none none = some none
set_content key none (some d) = some (some (remove key d))
set_content key (some text) none = none
set_content key (some text) (some d) = some (some (put key text d))

abbrev value_or_empty : Option String → String
value_or_empty none = ""
value_or_empty (some v) = v

module _ {C : Type 0} (k : Client C) where
  abbrev pub select : String → Result ConfigData → Result (Dict String String)
  select key (err e) = err e
  select key (ok d) =
      if key == "" then ok (entries d) else ok ((key, value_or_empty (lookup key (entries d))) ∷ [])

  unfoldable pub get_config_map : String → String → C → Result (Dict String String)
  unfolding lookup
  get_config_map name key c = select key (k.get name c)

  unfoldable pub update_config_map : String → String → Option String → C → Write C
  unfolding set_content
  update_config_map name key content c = k.create_or_update name (set_content key content) c

module _ {C : Type 0} (k : Client C) (contents : String → C → ConfigData)
    (w : IsClient k contents) where
  -- The text of a key in a config map.
  abbrev pub text_of : String → String → C → Option String
  text_of name key c = lookup key (entries (contents name c))

  -- A text that was written is there, and the other keys keep theirs.
  pub update_config_map_lem :
      (name key other text : String) (c c2 : C)
      → update_config_map k name key (some text) c ≡ written c2
      → text_of name other c2 ≡ (if key == other then some text else text_of name other c)
  unfolding update_config_map set_content
  update_config_map_lem name key other text c c2 h =
      of_contents (contents name c) refl (w.write_lem name (set_content key (some text)) c c2 h)
    where
      of_contents :
          (d : ConfigData)
          → contents name c ≡ d
          → set_content key (some text) (contents name c) ≡ some (contents name c2)
          → text_of name other c2 ≡ (if key == other then some text else text_of name other c)
      of_contents none here e = absurd (cc (rw here at e))
      of_contents (some d) here e =
          let after : some (put key text d) ≡ contents name c2 = eq_of_some (rw here at e) in
          rw (← after, here) (lookup-put key other text d)

  -- A text is never written into a config map that is missing or has no data.
  pub update_config_map-nil :
      (name key text : String) (c c2 : C)
      → contents name c ≡ none
      → update_config_map k name key (some text) c ≢ written c2
  unfolding update_config_map set_content
  update_config_map-nil name key text c c2 nil h =
      absurd (cc (rw nil at (w.write_lem name (set_content key (some text)) c c2 h)))

  pub get_config_map_lem :
      (name : String) (c : C) (d : Dict String String)
      → get_config_map k name "" c ≡ ok d
      → d ≡ entries (contents name c)
  unfolding get_config_map
  get_config_map_lem name c d h = of_read (k.get name c) refl h
    where
      of_read :
          (r : Result ConfigData)
          → k.get name c ≡ r
          → select k "" r ≡ ok d
          → d ≡ entries (contents name c)
      of_read (err e) here s = absurd (cc s)
      of_read (ok read) here s = rw (← w.get_lem name c read here) (eq_of_ok (sym s))
