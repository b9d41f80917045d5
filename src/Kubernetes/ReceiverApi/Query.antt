-- ===== src/Kubernetes/ReceiverApi/Query.antt =====
-- What a query of the receivers shows.
use apo.Common.{
  lookup, String, List, Option, [], ◌∷◌, string_eq, false, not, ◌&&◌, none, some, keep, map, ◌≡◌,
  refl, arith, All, any, length, Bool-cases, inl, inr,
}
use apo.Kubernetes.Paging.{items, page, page_by_param}
use apo.Kubernetes.ReceiverApi.{
  match_am_config_receiver_filter, has_email_or_webhook_config, without_dingtalk,
  AmConfigReceiverFilter, is_dingtalk, get_am_config_receiver, shown,
}
use apo.Kubernetes.Receivers.{Receiver, WebhookConfig, Config, AmConfigMap}

any-keep-not :
    (cfgs : List WebhookConfig) → any is_dingtalk (keep (λ cfg. not (is_dingtalk cfg)) cfgs) ≡ false
any-keep-not [] = refl
any-keep-not (cfg ∷ cfgs) = ground (arith, any-keep-not cfgs)

-- The receivers a filter lets through, once the settings of DingTalk are taken out.
abbrev expected : Option AmConfigReceiverFilter → List Receiver → List Receiver
expected filter receivers =
    keep (λ r. has_email_or_webhook_config r && match_am_config_receiver_filter filter r)
      (map without_dingtalk receivers)

shown_lem :
    (filter : Option AmConfigReceiverFilter) (receivers : List Receiver)
    → shown filter receivers ≡ expected filter receivers
unfolding shown
shown_lem filter [] = refl
shown_lem filter (receiver ∷ receivers) = ground (arith, shown_lem filter receivers)

shown-clean :
    (filter : Option AmConfigReceiverFilter) (receivers : List Receiver)
    → All (λ r. any is_dingtalk r.webhook_configs ≡ false) (shown filter receivers)
unfolding shown
shown-clean filter [] = tt
shown-clean filter (receiver ∷ receivers) =
    let rest = shown-clean filter receivers in
    let r = without_dingtalk receiver in
    elim (Bool-cases (has_email_or_webhook_config r)) [
      | inr bare ↦ rw bare rest
      | inl configured ↦ elim (Bool-cases (match_am_config_receiver_filter filter r)) [
        | inr other ↦ rw (configured, other) rest
        | inl fits ↦ rw (configured, fits) (any-keep-not receiver.webhook_configs, rest)
      ]
    ]

-- A query without pages gives the receivers that, without their settings of DingTalk, have
-- settings and fit the filter, in the order of the file, with their number; none of those that it
-- gives, on a page or without pages, has a setting of DingTalk.
pub get_am_config_receiver_lem :
    (m : AmConfigMap) (file : String) (filter : Option AmConfigReceiverFilter) (c : Config)
    → lookup file m ≡ some c
    → (get_am_config_receiver m file filter none
        ≡ page (expected filter c.receivers) (length (expected filter c.receivers)))
      × All
          (λ r. any is_dingtalk r.webhook_configs ≡ false)
          (items (get_am_config_receiver m file filter none))
unfolding get_am_config_receiver page_by_param
get_am_config_receiver_lem m file filter c found =
    rw found (rw (shown_lem filter c.receivers) refl, shown-clean filter c.receivers)
