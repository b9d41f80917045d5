-- ===== src/Kubernetes/ReceiverApi/Valid.antt =====
-- What the check of a receiver makes sure of, and that the receivers in memory keep it.
use text.Mathlib.Text.{◌==◌}
use apo.Common.{
  index_where, List, String, [], ◌∷◌, string_eq, false, ◌||◌, ◌&&◌, none, ◌≡◌, refl, arith, All,
  any, Bool-cases, Option-cases, inl, inr, All-append, All-remove_first, remove_element-index_where,
}
use apo.Kubernetes.ReceiverApi.{
  discard_headers, check_emails, emails_of, validate_am_config_receiver,
}
use apo.Kubernetes.Receivers.{
  is_named, Receiver, WebhookConfig, EmailConfig, Config, is_empty, no_items, replace_settings,
  replace_named, rename_first, add_receiver, update_receiver, delete_receiver,
}

pub record IsValid (r : Receiver) : Type 0 where
  pub configured :
      (is_empty r.webhook_configs && no_items r.email_configs && is_empty r.wechat_configs) ≡ false
  pub no_headers : All (λ cfg. cfg.http_headers ≡ none) r.webhook_configs
  pub emails :
      All (λ cfg. ((cfg.from == "") ≡ false) × ((cfg.smarthost == "") ≡ false)) (emails_of r)

check_emails_lem :
    (name : String) (cfgs : List EmailConfig)
    → check_emails name cfgs ≡ none
    → All (λ cfg. ((cfg.from == "") ≡ false) × ((cfg.smarthost == "") ≡ false)) cfgs
unfolding check_emails
check_emails_lem name [] h = tt
check_emails_lem name (cfg ∷ cfgs) h =
    ((ground arith, ground arith), check_emails_lem name cfgs (ground arith))

discard_headers_lem :
    (cfgs : List WebhookConfig)
    → All (λ cfg. cfg.http_headers ≡ none) (discard_headers cfgs)
      × (is_empty (discard_headers cfgs) ≡ is_empty cfgs)
discard_headers_lem [] = (tt, refl)
discard_headers_lem (cfg ∷ cfgs) = ((refl, (discard_headers_lem cfgs).0), refl)

pub validate-IsValid :
    (receiver : Receiver)
    → (validate_am_config_receiver receiver).1 ≡ none
    → IsValid (validate_am_config_receiver receiver).0
unfolding validate_am_config_receiver
validate-IsValid receiver h =
    elim (Bool-cases (
      is_empty receiver.webhook_configs
      && no_items receiver.email_configs
      && is_empty receiver.wechat_configs)) [
        | inl bare ↦ absurd (cc (rw bare at h))
        | inr some_settings ↦
            let (gone, same) = discard_headers_lem receiver.webhook_configs in
            rw some_settings (record {
              configured = rw same some_settings;
              no_headers = gone;
              emails = check_emails_lem receiver.name (emails_of receiver) (rw some_settings at h);
            })
      ]

replace_settings-IsValid :
    (receiver r : Receiver) → IsValid receiver → IsValid r → IsValid (replace_settings receiver r)
unfolding replace_settings
replace_settings-IsValid receiver r v w = elim (Bool-cases (is_empty receiver.webhook_configs)) [
  | inr hooks ↦
      rw hooks (record { configured = ground arith; no_headers = v.no_headers; emails = w.emails })
  | inl no_hooks ↦ elim (Bool-cases (no_items receiver.email_configs)) [
    | inr mails ↦
        rw (no_hooks, mails)
          (record { configured = ground arith; no_headers = w.no_headers; emails = v.emails })
    | inl no_mails ↦ elim (Bool-cases (is_empty receiver.wechat_configs)) [
      | inr chats ↦
          rw (no_hooks, no_mails, chats)
            (record { configured = ground arith; no_headers = w.no_headers; emails = w.emails })
      | inl no_chats ↦ rw (no_hooks, no_mails, no_chats) w
    ]
  ]
]

renamed-IsValid : (name : String) (r : Receiver) → IsValid r → IsValid (record r { name = name })
renamed-IsValid name r w = record {
  configured = w.configured;
  no_headers = w.no_headers;
  emails = w.emails;
}

replace_named-IsValid :
    (receiver : Receiver) (old_name : String) (rs : List Receiver)
    → IsValid receiver
    → All IsValid rs
    → All IsValid (replace_named receiver old_name rs)
unfolding replace_named
replace_named-IsValid receiver old_name [] v a = tt
replace_named-IsValid receiver old_name (r ∷ rs) v (w, a) =
    let rest = replace_named-IsValid receiver old_name rs v a in
    elim (Bool-cases (r.name == old_name)) [
      | inl same ↦ rw same (replace_settings-IsValid receiver r v w, rest)
      | inr other ↦ rw other (w, rest)
    ]

rename_first-IsValid :
    (receiver : Receiver) (old_name : String) (rs : List Receiver)
    → IsValid receiver
    → All IsValid rs
    → All IsValid (rename_first receiver old_name rs)
unfolding rename_first
rename_first-IsValid receiver old_name [] v a = tt
rename_first-IsValid receiver old_name (r ∷ rs) v (w, a) = elim (Bool-cases (r.name == old_name)) [
  | inl same ↦ rw same (
    replace_settings-IsValid receiver (record r { name = receiver.name }) v
        (renamed-IsValid receiver.name r w),
    a,
  )
  | inr other ↦ rw other (w, rename_first-IsValid receiver old_name rs v a)
]

abbrev pub ConfigValid : Config → Type 0
ConfigValid c = All IsValid c.receivers

pub add-ConfigValid :
    (receiver : Receiver) (c : Config)
    → IsValid receiver
    → ConfigValid c
    → ConfigValid (add_receiver receiver c).0
unfolding add_receiver
add-ConfigValid receiver c v a = elim (Bool-cases (any (is_named receiver.name) c.receivers)) [
  | inl taken ↦ rw taken a
  | inr free ↦ rw free (All-append IsValid c.receivers (receiver ∷ []) a (v, tt))
]

pub update-ConfigValid :
    (receiver : Receiver) (old_name : String) (c : Config)
    → IsValid receiver
    → ConfigValid c
    → ConfigValid (update_receiver receiver old_name c).0
unfolding update_receiver
update-ConfigValid receiver old_name c v a =
    elim (Bool-cases (any (is_named old_name) c.receivers)) [
      | inr missing ↦ rw missing a
      | inl found ↦ elim (Bool-cases (old_name == "" || old_name == receiver.name)) [
        | inl kept ↦ rw (found, kept) (replace_named-IsValid receiver old_name c.receivers v a)
        | inr renamed ↦ rw (found, renamed) (rename_first-IsValid receiver old_name c.receivers v a)
      ]
    ]

pub delete-ConfigValid :
    (name : String) (c : Config) → ConfigValid c → ConfigValid (delete_receiver name c).0
unfolding delete_receiver
delete-ConfigValid name c a = elim (Bool-cases (name == c.default)) [
  | inl default ↦ rw default a
  | inr other ↦ elim (Option-cases (index_where (is_named name) c.receivers)) [
    | inl missing ↦ rw (other, missing) a
    | inr (i, found) ↦
        rw (other, found, remove_element-index_where _ c.receivers i found)
          (All-remove_first IsValid _ c.receivers a)
  ]
]
