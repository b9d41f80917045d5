-- ===== src/Kubernetes/Receivers/Tests.antt =====
-- Receivers of a concrete configuration.
use text.Mathlib.Text.{◌==◌ as str_eq}
use apo.Common.{
  ◌≤◌, some, lookup, any, String, true, false, not, ◌&&◌, ◌≡◌, refl, none, [], ◌∷◌, string_eq,
}
use apo.Kubernetes.Receivers.{
  no_routes, with_route, AmConfigMap, set_am_config, leads_to, add_receiver, delete_receiver,
  update_receiver, Receiver, Route, Config,
}
use apo.Kubernetes.Receivers.Deletion.{delete_receiver-IsConsistent}
use apo.Kubernetes.Receivers.Names.{add_receiver-IsConsistent, is_defined, IsConsistent}
use apo.Kubernetes.Receivers.Renaming.{count_named, renamed_to_taken, update_receiver-IsConsistent}

abbrev pub receiver_of : String → Receiver
receiver_of name = record {
  name = name;
  email_configs = none;
  webhook_configs = record { url = "http://hook"; http_headers = none } ∷ [];
  wechat_configs = [];
}

abbrev route_to : String → Route
route_to name = record {
  receiver = name;
  continue = true;
  routes = with_route "ops" false no_routes no_routes;
}

abbrev pub config : Config
config = record {
  default = "ops";
  routes = route_to "dev" ∷ [];
  receivers = receiver_of "ops" ∷ receiver_of "dev" ∷ [];
}

config-IsConsistent : IsConsistent config
config-IsConsistent = record {
  unique = (refl, (refl, tt));
  default_defined = refl;
  routes_defined = (refl, tt);
  nested_defined = (refl, tt);
  single_routes = (refl, tt);
}

deleted_twice : (delete_receiver "dev" (delete_receiver "dev" config).0).1.0 ≡ false
unfolding delete_receiver
deleted_twice = refl

add_receiver-IsConsistent_example :
    IsConsistent (add_receiver (receiver_of "qa") config).0
    × ((add_receiver (receiver_of "qa") config).1 ≡ none
        → (is_defined (add_receiver (receiver_of "qa") config).0.receivers "qa" ≡ true)
          × (any (leads_to "qa") (add_receiver (receiver_of "qa") config).0.routes ≡ true))
add_receiver-IsConsistent_example =
    add_receiver-IsConsistent (receiver_of "qa") config config-IsConsistent

delete_receiver-IsConsistent_example :
    IsConsistent (delete_receiver "dev" config).0
    × ((delete_receiver "dev" config).1.0
        ≡ (is_defined config.receivers "dev" && not (str_eq "dev" config.default)))
    × (is_defined (delete_receiver "dev" config).0.receivers "ops" ≡ (
        is_defined config.receivers "ops"
        && not ((delete_receiver "dev" config).1.0 && str_eq "dev" "ops")))
delete_receiver-IsConsistent_example =
    delete_receiver-IsConsistent "dev" "ops" config config-IsConsistent refl

update_receiver-IsConsistent_example :
    IsConsistent (update_receiver (receiver_of "qa") "dev" config).0
update_receiver-IsConsistent_example =
    update_receiver-IsConsistent (receiver_of "qa") "dev" config config-IsConsistent refl

renamed_to_taken_example :
    ((update_receiver (receiver_of "ops") "dev" config).1 ≡ none)
    × (2 ≤ count_named "ops" (update_receiver (receiver_of "ops") "dev" config).0.receivers)
renamed_to_taken_example = renamed_to_taken (receiver_of "ops") "dev" config refl refl refl

abbrev pub config_files : AmConfigMap
config_files = ("am.yaml", config) ∷ []

loaded_again : lookup "am.yaml" (set_am_config [] "am.yaml" config) ≡ some config
unfolding set_am_config lookup
loaded_again = refl
