-- ===== src/Kubernetes/AlertRules/Query.antt =====
-- `GetAlertRules`, `matchAlertRuleFilter` and `ContainsIn` of metadata.go.
use text.Mathlib.Text.{◌==◌, find?}
use apo.Common.{
  sym, ◌∙◌, inr, inl, Option-cases, ℕ, String, Bool, true, false, not, ◌&&◌, ◌||◌, ◌*◌, ◌≤◌, ◌≡◌,
  Option, none, some, List, [], ◌∷◌, length, any, keep, take, if◌then◌else◌, lookup, string_eq,
}
use apo.Kubernetes.AlertRules.{AlertRule, AlertRules, Metadata}
use apo.Kubernetes.Paging.{
  take-nil, pages_of-empty, PageParam, Page, page, page_by_param, items, pages_of,
  pages_of-page_by_param,
}

pub record AlertRuleFilter : Type 0 where
  pub group : String
  pub alert : String
  pub severity : List String
  pub keyword : String

abbrev found : Option ℕ → Bool
found none = false
found (some at) = true

-- `strings.Contains(s, sub)`
abbrev contains : String → String → Bool
contains s sub = found (find? s sub)

abbrev contains_in : List String → String → Bool
contains_in slices expected = any (λ item. item == expected) slices

-- `rule.Labels["severity"]`
abbrev label_or_empty : Option String → String
label_or_empty none = ""
label_or_empty (some label) = label

abbrev keyword_found : String → AlertRule → Bool
keyword_found keyword rule =
    contains rule.alert keyword
    || contains rule.group keyword
    || any (λ (entry : String × String). contains entry.0 keyword || contains entry.1 keyword)
        rule.labels

abbrev severity_matches : List String → AlertRule → Bool
severity_matches [] rule = true
severity_matches (s ∷ ss) rule =
    contains_in (s ∷ ss) (label_or_empty (lookup "severity" rule.labels))

pub match_alert_rule_filter : AlertRuleFilter → AlertRule → Bool
match_alert_rule_filter filter rule =
    if not (filter.alert == "") && not (contains rule.alert filter.alert)
    then false
    else if not (filter.group == "") && not (contains rule.group filter.group)
    then false
    else if not (filter.keyword == "") && not (keyword_found filter.keyword rule)
    then false
    else severity_matches filter.severity rule

abbrev matching : Option AlertRuleFilter → List AlertRule → List AlertRule
matching none rules = rules
matching (some filter) rules = keep (match_alert_rule_filter filter) rules

abbrev query : Option AlertRuleFilter → Option PageParam → Option AlertRules → Page AlertRule
query filter param none = page [] 0
query filter param (some rs) = page_by_param (matching filter rs.rules) param

unfoldable pub get_alert_rules :
    Metadata → String → Option AlertRuleFilter → Option PageParam → Page AlertRule
unfolding match_alert_rule_filter lookup
get_alert_rules m file filter param = query filter param (lookup file m)

-- The pages 1 to `count` of a query, one page after the other, are the first `count * size` items
-- of the answer without pages, as long as the answer fills a page.
pub get_alert_rules_pages :
    (m : Metadata) (file : String) (filter : Option AlertRuleFilter) (size count : ℕ)
    → size ≤ length (items (get_alert_rules m file filter none))
    → pages_of (λ param. get_alert_rules m file filter (some param)) size count
      ≡ take (count * size) (items (get_alert_rules m file filter none))
unfolding get_alert_rules page_by_param
get_alert_rules_pages m file filter size count h = elim (Option-cases (lookup file m)) [
  | inl missing ↦ rw missing (pages_of-empty size count ∙ sym (take-nil (count * size)))
  | inr (rs, loaded) ↦
      rw loaded (pages_of-page_by_param (matching filter rs.rules) size count (rw loaded at h))
]
