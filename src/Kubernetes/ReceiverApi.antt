-- ===== src/Kubernetes/ReceiverApi.antt =====
-- dao_alert_manager_config.go: a change of a receiver is checked, made in memory, and written to the
-- config map of Alertmanager; and `GetAMConfigReceiver` of metadata.go. Reading and writing the YAML
-- of a configuration and the Kubernetes client are parameters.
pub mod Query
pub mod Valid
pub mod Calls
pub mod Tests
use text.Mathlib.Text.{◌==◌, find?}
use apo.Common.{
  Bool, Dict, List, Option, String, lookup, [], ◌∷◌, string_eq, true, false, not, ◌||◌, ◌&&◌, none,
  some, if◌then◌else◌, ok, err, Result, keep,
}
use apo.Kubernetes.ConfigMaps.{
  written, panicked, not_written, Write, get_config_map, update_config_map, Client,
}
use apo.Kubernetes.Paging.{Page, page, PageParam, page_by_param}
use apo.Kubernetes.Receivers.{
  Receiver, WebhookConfig, EmailConfig, Config, AmConfigMap, is_empty, no_items, Error,
  empty_receiver, email_from_missing, email_host_missing, set_am_config, add_am_config_receiver,
  update_am_config_receiver, delete_am_config_receiver,
}

-- `len(cfg.From) == 0` and the host, in this order, for each of the settings.
pub check_emails : String → List EmailConfig → Option Error
check_emails name [] = none
check_emails name (cfg ∷ cfgs) =
    let rest = check_emails name cfgs in
    if cfg.from == ""
    then some (email_from_missing name)
    else if cfg.smarthost == ""
    then some (email_host_missing name)
    else rest

abbrev pub emails_of : Receiver → List EmailConfig
emails_of receiver = elim receiver.email_configs [ none ↦ [] | some cfgs ↦ cfgs ]

-- The settings are pointers: the headers are gone from the caller's receiver too.
abbrev pub discard_headers : List WebhookConfig → List WebhookConfig
discard_headers [] = []
discard_headers (cfg ∷ cfgs) = record cfg { http_headers = none } ∷ discard_headers cfgs

-- The receiver after the check, with its error.
unfoldable pub validate_am_config_receiver : Receiver → Receiver × Option Error
unfolding check_emails
validate_am_config_receiver receiver =
    if is_empty receiver.webhook_configs
      && no_items receiver.email_configs
      && is_empty receiver.wechat_configs
    then (receiver, some (empty_receiver receiver.name))
    else (
      record receiver { webhook_configs = discard_headers receiver.webhook_configs },
      check_emails receiver.name (emails_of receiver),
    )

-- Whether the URL is one of DingTalk's, whose settings are in the database.
unfoldable pub is_dingtalk : WebhookConfig → Bool
is_dingtalk cfg = elim (find? cfg.url "/outputs/dingtalk/") [ none ↦ false | some at ↦ true ]

unfoldable pub has_email_or_webhook_config : Receiver → Bool
has_email_or_webhook_config r = elim r.email_configs [
  | some cfgs ↦ true
  | none ↦ not (is_empty r.webhook_configs) || not (is_empty r.wechat_configs)
]

pub record AmConfigReceiverFilter : Type 0 where
  pub name : String
  pub r_type : String

unfoldable pub match_filter : AmConfigReceiverFilter → Receiver → Bool
match_filter filter receiver =
    if not (filter.name == "")
    then elim (find? receiver.name filter.name) [ none ↦ false | some at ↦ true ]
    else if filter.r_type == ""
    then true
    else if filter.r_type == "webhook"
    then not (is_empty receiver.webhook_configs)
    else if filter.r_type == "email"
    then not (no_items receiver.email_configs)
    else if filter.r_type == "wechat"
    then not (is_empty receiver.wechat_configs)
    else false

unfoldable pub match_am_config_receiver_filter : Option AmConfigReceiverFilter → Receiver → Bool
unfolding match_filter
match_am_config_receiver_filter none receiver = true
match_am_config_receiver_filter (some filter) receiver = match_filter filter receiver

abbrev pub without_dingtalk : Receiver → Receiver
without_dingtalk r = record r {
  webhook_configs = keep (λ cfg. not (is_dingtalk cfg)) r.webhook_configs;
}

-- The loop over the receivers of a configuration.
unfoldable pub shown : Option AmConfigReceiverFilter → List Receiver → List Receiver
unfolding match_am_config_receiver_filter has_email_or_webhook_config is_dingtalk
shown filter [] = []
shown filter (receiver ∷ receivers) =
    let rest = shown filter receivers in
    let r = without_dingtalk receiver in
    if not (has_email_or_webhook_config r)
    then rest
    else if match_am_config_receiver_filter filter r
    then r ∷ rest
    else rest

abbrev pub query : Option AmConfigReceiverFilter → Option PageParam → Option Config → Page Receiver
query filter param none = page [] 0
query filter param (some c) = page_by_param (shown filter c.receivers) param

unfoldable pub get_am_config_receiver :
    AmConfigMap → String → Option AmConfigReceiverFilter → Option PageParam → Page Receiver
unfolding shown lookup
get_am_config_receiver m file filter param = query filter param (lookup file m)

-- `amconfig.Load` and `yaml.Marshal` of a configuration.
pub record Codec : Type 0 where
  pub load : String → Option Config
  pub marshal : Config → Option String

pub record Settings : Type 0 where
  pub alert_manager_cm_name : String
  pub alert_manager_file_name : String

pub record State (C : Type 0) : Type 0 where
  pub am_config : AmConfigMap
  pub cluster : C

pub data ApiError : Type 0 where
  refused : Error → ApiError
  not_marshalled : ApiError
  client_error : String → ApiError

pub data Reply : Type 0 where
  returned : Option ApiError → Reply
  api_panicked : Reply

abbrev pub set_loaded : String → Option Config → AmConfigMap → AmConfigMap
set_loaded key none m = m
set_loaded key (some c) m = set_am_config m key c

abbrev pub marshal_found : Codec → Option Config → Option String
marshal_found codec none = none
marshal_found codec (some c) = codec.marshal c

unfoldable pub alert_manager_config_marshal_to_yaml : Codec → AmConfigMap → String → Option String
unfolding lookup
alert_manager_config_marshal_to_yaml codec m file = marshal_found codec (lookup file m)

module _ (codec : Codec) where
  unfoldable pub sync_entries : Dict String String → AmConfigMap → AmConfigMap
  sync_entries [] m = m
  sync_entries ((key, text) ∷ rest) m = set_loaded key (codec.load text) (sync_entries rest m)

module _ {C : Type 0} (k : Client C) (codec : Codec) (settings : Settings) where
  abbrev pub synced : Result (Dict String String) → State C → State C × Option String
  synced (err e) s = (s, some e)
  synced (ok d) s = (record s { am_config = sync_entries codec d s.am_config }, none)

  pub sync_am_config : State C → State C × Option String
  unfolding get_config_map sync_entries
  sync_am_config s = synced (get_config_map k settings.alert_manager_cm_name "" s.cluster) s

  abbrev pub file_name : String → String
  file_name file = if file == "" then settings.alert_manager_file_name else file

  abbrev pub of_write : State C → Write C → State C × Reply
  of_write s (written c) = (record s { cluster = c }, returned none)
  of_write s (not_written e c) = (record s { cluster = c }, returned (some (client_error e)))
  of_write s panicked = (s, api_panicked)

  pub update_alert_manager_config_file : String → Option String → State C → State C × Reply
  unfolding update_config_map
  update_alert_manager_config_file file content s =
      of_write s (update_config_map k settings.alert_manager_cm_name file content s.cluster)

  abbrev pub write_marshalled : String → State C → Option String → State C × Reply
  write_marshalled file s none = (s, returned (some not_marshalled))
  write_marshalled file s (some text) = update_alert_manager_config_file file (some text) s

  abbrev pub write_back : String → State C → State C × Reply
  write_back file s =
      write_marshalled file s (alert_manager_config_marshal_to_yaml codec s.am_config file)

  abbrev pub after_change : String → State C → AmConfigMap × Option Error → State C × Reply
  after_change file s (m, some e) = (record s { am_config = m }, returned (some (refused e)))
  after_change file s (m, none) = write_back file (record s { am_config = m })

  abbrev pub if_valid :
      State C → Receiver × Option Error → (Receiver → State C × Reply) → State C × Reply
  if_valid s (receiver, some e) next = (s, returned (some (refused e)))
  if_valid s (receiver, none) next = next receiver

  pub k8s_add_am_config_receiver : String → Receiver → State C → State C × Reply
  unfolding validate_am_config_receiver add_am_config_receiver alert_manager_config_marshal_to_yaml
      update_alert_manager_config_file
  k8s_add_am_config_receiver config_file receiver s =
      let file = file_name config_file in
      if_valid s (validate_am_config_receiver receiver)
        (λ checked. after_change file s (add_am_config_receiver s.am_config file checked))

  pub k8s_update_am_config_receiver : String → Receiver → String → State C → State C × Reply
  unfolding validate_am_config_receiver update_am_config_receiver
      alert_manager_config_marshal_to_yaml update_alert_manager_config_file
  k8s_update_am_config_receiver config_file receiver old_name s =
      let file = file_name config_file in
      if_valid s (validate_am_config_receiver receiver) (λ checked.
        after_change file s (update_am_config_receiver s.am_config file checked old_name))

  -- Nothing is written where nothing was deleted, and then there is an error.
  abbrev pub after_deletion :
      String → State C → AmConfigMap × (Bool × Option Error) → State C × Reply
  after_deletion file s (m, (false, none)) = (record s { am_config = m }, returned none)
  after_deletion file s (m, (false, some e)) =
      (record s { am_config = m }, returned (some (refused e)))
  after_deletion file s (m, (true, e)) = write_back file (record s { am_config = m })

  pub k8s_delete_am_config_receiver : String → String → State C → State C × Reply
  unfolding delete_am_config_receiver alert_manager_config_marshal_to_yaml
      update_alert_manager_config_file
  k8s_delete_am_config_receiver config_file name s =
      let file = file_name config_file in
      after_deletion file s (delete_am_config_receiver s.am_config file name)

  pub k8s_get_am_config_receiver :
      String
      → Option AmConfigReceiverFilter
      → Option PageParam
      → Bool
      → State C
      → State C × Page Receiver
  unfolding sync_am_config get_am_config_receiver
  k8s_get_am_config_receiver config_file filter page_param sync_now s =
      let s2 = if sync_now then (sync_am_config s).0 else s in
      (s2, get_am_config_receiver s2.am_config (file_name config_file) filter page_param)
