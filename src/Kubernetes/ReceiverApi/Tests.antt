-- ===== src/Kubernetes/ReceiverApi/Tests.antt =====
-- Receivers of a concrete configuration, read and changed by the API.
use apo.Common.{put, ℕ, [], ◌∷◌, string_eq, none, some, ◌≡◌, refl, lookup, err}
use apo.Kubernetes.ConfigMaps.{Client, not_written}
use apo.Kubernetes.ReceiverApi.{
  client_error, k8s_delete_am_config_receiver, k8s_update_am_config_receiver, returned, Codec,
  Settings, State, k8s_add_am_config_receiver,
}
use apo.Kubernetes.ReceiverApi.Calls.{k8s-AllValid, put-AllValid, AllValid}
use apo.Kubernetes.ReceiverApi.Valid.{ConfigValid}
use apo.Kubernetes.Receivers.{Receiver}
use apo.Kubernetes.Receivers.Tests.{receiver_of, config, config_files}

config-ConfigValid : ConfigValid config
config-ConfigValid = (
  record { configured = refl; no_headers = (refl, tt); emails = tt },
  (record { configured = refl; no_headers = (refl, tt); emails = tt }, tt),
)

files-AllValid : AllValid config_files
unfolding lookup put
files-AllValid = put-AllValid [] "am.yaml" config (λ f c h. absurd (cc h)) config-ConfigValid

-- A cluster that answers nothing.
abbrev no_client : Client ℕ
no_client = record {
  get = λ name c. err "timeout";
  create_or_update = λ name mutate c. not_written "timeout" c;
}

abbrev codec : Codec
codec = record { load = λ text. none; marshal = λ c. some "route: ..." }

abbrev settings : Settings
settings = record { alert_manager_cm_name = "am-cm"; alert_manager_file_name = "am.yaml" }

abbrev start : State ℕ
start = record { am_config = config_files; cluster = 0 }

abbrev with_headers : Receiver
with_headers = record (receiver_of "qa") {
  webhook_configs = record { url = "http://hook"; http_headers = some (("Host", "x") ∷ []) } ∷ [];
}

written_or_not :
    (k8s_add_am_config_receiver no_client codec settings "" with_headers start).1
    ≡ returned (some (client_error "timeout"))
unfolding k8s_add_am_config_receiver
written_or_not = refl

k8s-AllValid_example :
    AllValid (k8s_add_am_config_receiver no_client codec settings "" with_headers start).0.am_config
    × AllValid
        (k8s_update_am_config_receiver no_client codec settings "" with_headers "dev"
          start).0.am_config
    × AllValid (k8s_delete_am_config_receiver no_client codec settings "" "dev" start).0.am_config
k8s-AllValid_example =
    k8s-AllValid no_client codec settings "" with_headers "dev" start files-AllValid
