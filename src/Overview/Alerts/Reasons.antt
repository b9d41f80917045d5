-- ===== src/Overview/Alerts/Reasons.antt =====
-- What the map of alert reasons has.
use text.Mathlib.Text.{◌==◌ as str_eq}
use apo.Common.{
  inr, inl, Bool-cases, lookup-put, String, true, false, ◌≡◌, refl, Option, none, some, List, [],
  ◌∷◌, ◌++◌, lookup, string_eq, if◌then◌else◌,
}
use apo.Overview.Alerts.{add_reason, appended, AlertDetail, AlertReason}

abbrev pub reasons_in : Option (List AlertDetail) → List AlertDetail
reasons_in none = []
reasons_in (some details) = details

-- The details under a key; a nil map has none.
abbrev pub details_of : Option AlertReason → String → List AlertDetail
details_of none key = []
details_of (some r) key = reasons_in (lookup key r)

appended_lem :
    (o : Option (List AlertDetail)) (detail : AlertDetail)
    → appended o detail ≡ reasons_in o ++ detail ∷ []
appended_lem none detail = refl
appended_lem (some details) detail = refl

-- Adding a detail under a key that is not empty puts it after the details of the key, and leaves
-- the details of other keys as they were. Under an empty key, and in a nil map, nothing is added.
pub add_reason_lem :
    (r : Option AlertReason) (key other : String) (detail : AlertDetail)
    → (add_reason none key detail ≡ none)
      × (str_eq key "" ≡ true → add_reason r key detail ≡ r)
      × ((m : AlertReason)
          → str_eq key "" ≡ false
          → details_of (add_reason (some m) key detail) other ≡ (
              if str_eq key other
              then details_of (some m) key ++ detail ∷ []
              else details_of (some m) other))
unfolding add_reason
add_reason_lem r key other detail = (
  refl,
  same r,
  λ m given. rw given (
      rw (lookup-put key other (appended (lookup key m) detail) m)
        (elim (Bool-cases (str_eq key other)) [
          | inl e ↦ rw e (appended_lem (lookup key m) detail)
          | inr e ↦ rw e refl
        ])),
)
  where
    same : (r : Option AlertReason) → str_eq key "" ≡ true → add_reason r key detail ≡ r
    same none e = refl
    same (some m) e = rw e refl
