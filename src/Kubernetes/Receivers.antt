-- ===== src/Kubernetes/Receivers.antt =====
-- metadata.go and amconfig: the receivers of each Alertmanager configuration, with the routes that
-- lead to them. Each operation holds `amConfigLock` from its first line to its return.
-- Of a receiver, a route and a notifier the fields that the operations read or write are here.
pub mod Names
pub mod Deletion
pub mod Renaming
pub mod Tests
use text.Mathlib.Text.{◌==◌, find?}
use apo.Common.{
  ℕ, String, Bool, true, false, not, ◌&&◌, ◌||◌, Option, none, some, List, [], ◌∷◌, ◌++◌, map,
  if◌then◌else◌, Dict, lookup, put, any, keep, index_where, remove_element, string_eq,
}
use apo.Kubernetes.Paging.{PageParam, Page, page, page_by_param}

pub record WebhookConfig : Type 0 where
  pub url : String
  pub http_headers : Option (Dict String String)

pub record EmailConfig : Type 0 where
  pub from : String
  pub smarthost : String

pub record WechatConfig : Type 0 where
  pub agent_id : String

-- `none` is the nil slice of e-mail settings, which one test tells from an empty one.
pub record Receiver : Type 0 where
  pub name : String
  pub email_configs : Option (List EmailConfig)
  pub webhook_configs : List WebhookConfig
  pub wechat_configs : List WechatConfig

-- The routes below a route: a first one, with its receiver, its `continue` and the routes below it,
-- and those that come after it.
pub data Routes : Type 0 where
  no_routes : Routes
  with_route : String → Bool → Routes → Routes → Routes

-- A route directly below the root.
pub record Route : Type 0 where
  pub receiver : String
  pub continue : Bool
  pub routes : Routes

-- `default` is the receiver of the root route.
pub record Config : Type 0 where
  pub default : String
  pub routes : List Route
  pub receivers : List Receiver

abbrev pub AmConfigMap : Type 0
AmConfigMap = Dict String Config

pub data Error : Type 0 where
  config_file_not_exist : String → Error
  receiver_already_exists : String → Error
  receiver_not_exists : String → Error
  default_receiver_cannot_delete : String → Error
  empty_receiver : String → Error
  email_from_missing : String → Error
  email_host_missing : String → Error

abbrev pub is_named : String → Receiver → Bool
is_named name r = r.name == name

abbrev pub leads_to : String → Route → Bool
leads_to name route = route.receiver == name

-- `AddAMConfigReceiver` once the file is found.
unfoldable pub add_receiver : Receiver → Config → Config × Option Error
add_receiver receiver c =
    if any (is_named receiver.name) c.receivers
    then (c, some (receiver_already_exists receiver.name))
    else (
      record c {
        routes =
            if any (leads_to receiver.name) c.routes
            then c.routes
            else c.routes
              ++ record { receiver = receiver.name; continue = true; routes = no_routes } ∷ [];
        receivers = c.receivers ++ receiver ∷ [];
      },
      none,
    )

abbrev pub is_empty {ℓ} : {A : Type ℓ} → List A → Bool
is_empty [] = true
is_empty (x ∷ xs) = false

-- `len` of a slice that may be nil.
abbrev pub no_items {ℓ} : {A : Type ℓ} → Option (List A) → Bool
no_items none = true
no_items (some xs) = is_empty xs

-- Only the first kind of settings that the request has is replaced.
unfoldable pub replace_settings : Receiver → Receiver → Receiver
replace_settings receiver r =
    if not (is_empty receiver.webhook_configs)
    then record r { webhook_configs = receiver.webhook_configs }
    else if not (no_items receiver.email_configs)
    then record r { email_configs = receiver.email_configs }
    else if not (is_empty receiver.wechat_configs)
    then record r { wechat_configs = receiver.wechat_configs }
    else r

-- The first loop: every receiver of that name, the name unchanged.
unfoldable pub replace_named : Receiver → String → List Receiver → List Receiver
unfolding replace_settings
replace_named receiver old_name [] = []
replace_named receiver old_name (r ∷ rs) =
    (if r.name == old_name then replace_settings receiver r else r)
    ∷ replace_named receiver old_name rs

-- The second loop: the first receiver of that name, which gets the new name.
unfoldable pub rename_first : Receiver → String → List Receiver → List Receiver
unfolding replace_settings
rename_first receiver old_name [] = []
rename_first receiver old_name (r ∷ rs) =
    if r.name == old_name
    then replace_settings receiver (record r { name = receiver.name }) ∷ rs
    else r ∷ rename_first receiver old_name rs

abbrev pub reroute : String → String → List Route → List Route
reroute old_name name [] = []
reroute old_name name (route ∷ routes) =
    (if route.receiver == old_name then record route { receiver = name } else route)
    ∷ reroute old_name name routes

-- `UpdateAMConfigReceiver` once the file is found.
unfoldable pub update_receiver : Receiver → String → Config → Config × Option Error
unfolding replace_named rename_first
update_receiver receiver old_name c =
    if not (any (is_named old_name) c.receivers)
    then (c, some (receiver_not_exists old_name))
    else if old_name == "" || old_name == receiver.name
    then (record c { receivers = replace_named receiver old_name c.receivers }, none)
    else (
      record c {
        routes = reroute old_name receiver.name c.routes;
        receivers = rename_first receiver old_name c.receivers;
      },
      none,
    )

abbrev pub remove_route : List Route → Option ℕ → List Route
remove_route routes none = routes
remove_route routes (some i) = remove_element routes i

-- `DeleteAMConfigReceiver` once the file is found: the answer is whether something was deleted,
-- with the error.
abbrev pub delete_at : String → Config → Option ℕ → Config × (Bool × Option Error)
delete_at name c none = (c, (false, some (receiver_not_exists name)))
delete_at name c (some i) = (
  record c {
    routes = remove_route c.routes (index_where (leads_to name) c.routes);
    receivers = remove_element c.receivers i;
  },
  (true, none),
)

unfoldable pub delete_receiver : String → Config → Config × (Bool × Option Error)
delete_receiver name c =
    if name == c.default
    then (c, (false, some (default_receiver_cannot_delete name)))
    else delete_at name c (index_where (is_named name) c.receivers)

module _ {ℓ} {A : Type ℓ} (absent : A) (body : Config → Config × A) (m : AmConfigMap)
    (file : String) where
  abbrev pub in_found : Option Config → AmConfigMap × A
  in_found none = (m, absent)
  in_found (some c) = (put file (body c).0 m, (body c).1)

  abbrev pub in_file : AmConfigMap × A
  in_file = in_found (lookup file m)

unfoldable pub set_am_config : AmConfigMap → String → Config → AmConfigMap
unfolding put
set_am_config m file c = put file c m

unfoldable pub add_am_config_receiver : AmConfigMap → String → Receiver → AmConfigMap × Option Error
unfolding add_receiver lookup put
add_am_config_receiver m file receiver =
    in_file (some (config_file_not_exist file)) (add_receiver receiver) m file

unfoldable pub update_am_config_receiver :
    AmConfigMap → String → Receiver → String → AmConfigMap × Option Error
unfolding update_receiver lookup put
update_am_config_receiver m file receiver old_name =
    in_file (some (config_file_not_exist file)) (update_receiver receiver old_name) m file

unfoldable pub delete_am_config_receiver :
    AmConfigMap → String → String → AmConfigMap × (Bool × Option Error)
unfolding delete_receiver lookup put
delete_am_config_receiver m file name =
    in_file (false, some (config_file_not_exist file)) (delete_receiver name) m file
