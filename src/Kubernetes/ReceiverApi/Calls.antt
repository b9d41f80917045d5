-- ===== src/Kubernetes/ReceiverApi/Calls.antt =====
-- The receivers in memory after the calls of the API.
use text.Mathlib.Text.{◌==◌}
use apo.Common.{
  Bool, Option, String, string_eq, true, false, none, some, ◌≡◌, refl, arith, Bool-cases,
  Option-cases, inl, inr, lookup, lookup-put, put, eq_of_some, subst,
}
use apo.Kubernetes.ConfigMaps.{written, update_config_map, Client, Write, not_written, panicked}
use apo.Kubernetes.ReceiverApi.{
  validate_am_config_receiver, alert_manager_config_marshal_to_yaml, file_name, Reply,
  k8s_delete_am_config_receiver, k8s_update_am_config_receiver, State, k8s_add_am_config_receiver,
  update_alert_manager_config_file, Settings, Codec, write_back, write_marshalled, of_write,
  if_valid, after_change, after_deletion,
}
use apo.Kubernetes.ReceiverApi.Valid.{
  delete-ConfigValid, update-ConfigValid, validate-IsValid, add-ConfigValid, ConfigValid,
}
use apo.Kubernetes.Receivers.{
  in_file, Receiver, Config, AmConfigMap, Error, add_receiver, update_receiver, delete_receiver,
  add_am_config_receiver, update_am_config_receiver, delete_am_config_receiver,
}

-- Every receiver of every loaded configuration passes the check.
abbrev pub AllValid : AmConfigMap → Type 0
AllValid m = (f : String) (c : Config) → lookup f m ≡ some c → ConfigValid c

pub put-AllValid :
    (m : AmConfigMap) (file : String) (c : Config)
    → AllValid m
    → ConfigValid c
    → AllValid (put file c m)
put-AllValid m file c a v f c2 h = elim (Bool-cases (file == f)) [
  | inl same ↦
      let e : some c ≡ some c2 = ground (arith, lookup-put file f c m) in
      subst ConfigValid (eq_of_some e) v
  | inr other ↦ a f c2 (ground (arith, lookup-put file f c m))
]

in_file-AllValid :
    {A : Type 0} (absent : A) (body : Config → Config × A) (m : AmConfigMap) (file : String)
    → AllValid m
    → ((c : Config) → ConfigValid c → ConfigValid (body c).0)
    → AllValid (in_file absent body m file).0
in_file-AllValid absent body m file a keep = elim (Option-cases (lookup file m)) [
  | inl missing ↦ rw missing a
  | inr (c, found) ↦ rw found (put-AllValid m file (body c).0 a (keep c (a file c found)))
]

module _ {C : Type 0} (k : Client C) (codec : Codec) (settings : Settings) where
  write_back-memory :
      (file : String) (s : State C) → (write_back k codec settings file s).0.am_config ≡ s.am_config
  unfolding update_alert_manager_config_file
  write_back-memory file s = of_text (alert_manager_config_marshal_to_yaml codec s.am_config file)
    where
      of_answer : (w : Write C) → (of_write k codec settings s w).0.am_config ≡ s.am_config
      of_answer (written c) = refl
      of_answer (not_written e c) = refl
      of_answer panicked = refl

      of_text :
          (o : Option String)
          → (write_marshalled k codec settings file s o).0.am_config ≡ s.am_config
      of_text none = refl
      of_text (some text) =
          of_answer (update_config_map k settings.alert_manager_cm_name file (some text) s.cluster)

  change-AllValid :
      (file : String) (s : State C) (m : AmConfigMap × Option Error)
      → AllValid m.0
      → AllValid (after_change k codec settings file s m).0.am_config
  change-AllValid file s (m, some e) a = a
  change-AllValid file s (m, none) a = rw (write_back-memory file (record s { am_config = m })) a

  deletion-AllValid :
      (file : String) (s : State C) (m : AmConfigMap × (Bool × Option Error))
      → AllValid m.0
      → AllValid (after_deletion k codec settings file s m).0.am_config
  deletion-AllValid file s (m, (true, e)) a =
      rw (write_back-memory file (record s { am_config = m })) a
  deletion-AllValid file s (m, (false, none)) a = a
  deletion-AllValid file s (m, (false, some e)) a = a

  checked-AllValid :
      (s : State C) (v : Receiver × Option Error) (next : Receiver → State C × Reply)
      → AllValid s.am_config
      → (v.1 ≡ none → AllValid (next v.0).0.am_config)
      → AllValid (if_valid k codec settings s v next).0.am_config
  checked-AllValid s (receiver, none) next a f = f refl
  checked-AllValid s (receiver, some e) next a f = a

  -- If each receiver in memory has some settings, webhooks without headers of their own and e-mail
  -- settings with a sender and a host, then so it is after each call that adds, updates or deletes
  -- a receiver, whatever the request holds and whether the call succeeds, fails or panics.
  pub k8s-AllValid :
      (config_file : String) (receiver : Receiver) (name : String) (s : State C)
      → AllValid s.am_config
      → AllValid (k8s_add_am_config_receiver k codec settings config_file receiver s).0.am_config
        × AllValid
            (k8s_update_am_config_receiver k codec settings config_file receiver name s).0.am_config
        × AllValid (k8s_delete_am_config_receiver k codec settings config_file name s).0.am_config
  unfolding k8s_add_am_config_receiver k8s_update_am_config_receiver k8s_delete_am_config_receiver
      add_am_config_receiver update_am_config_receiver delete_am_config_receiver
  k8s-AllValid config_file receiver name s a =
      let file = file_name k codec settings config_file in
      let checked = validate_am_config_receiver receiver in
      (
        checked-AllValid s checked _ a (λ valid.
            change-AllValid file s (add_am_config_receiver s.am_config file checked.0) (
              in_file-AllValid _ (add_receiver checked.0) s.am_config file a
                (λ c v. add-ConfigValid checked.0 c (validate-IsValid receiver valid) v))),
        checked-AllValid s checked _ a (λ valid.
            change-AllValid file s (update_am_config_receiver s.am_config file checked.0 name) (
              in_file-AllValid _ (update_receiver checked.0 name) s.am_config file a
                (λ c v. update-ConfigValid checked.0 name c (validate-IsValid receiver valid) v))),
        deletion-AllValid file s (delete_am_config_receiver s.am_config file name) (
            in_file-AllValid _ (delete_receiver name) s.am_config file a
              (λ c v. delete-ConfigValid name c v)),
      )
