-- ===== src/Overview/RygLight/AlertScores.antt =====
-- The score of alerts, against what the map has in it.
use apo.Common.{
  ◌∙◌, inr, inl, Bool-cases, ℕ, suc, ◌+◌, String, Bool, ◌||◌, ◌≡◌, [], ◌∷◌, arith, any, leb,
  if◌then◌else◌,
}
use apo.Overview.Alerts.{
  AlertStatus, AlertEventLevelCount, AlertEventLevelCountMap, is_all_normal, severity_critical,
  severity_error, severity_warning,
}
use apo.Overview.RygLight.{alert_loop, alert_score, counted}

-- An alert type with a critical alert or an error.
abbrev pub is_severe : String × AlertEventLevelCount → Bool
is_severe (key, counts) = counted severity_critical counts || counted severity_error counts

-- How many alert types have a warning.
abbrev pub warnings : AlertEventLevelCountMap → ℕ
warnings [] = 0
warnings ((key, counts) ∷ rest) = (if counted severity_warning counts then 1 else 0) + warnings rest

alert_loop_lem :
    (warning_count : ℕ) (m : AlertEventLevelCountMap)
    → alert_loop warning_count m ≡ (
        if any is_severe m
        then 0
        else if leb 2 (warning_count + warnings m)
        then 1
        else if leb 1 (warning_count + warnings m)
        then 2
        else 3)
unfolding alert_loop
alert_loop_lem warning_count [] = ground arith
alert_loop_lem warning_count ((key, counts) ∷ rest) =
    elim (Bool-cases (counted severity_warning counts)) [
      | inl w ↦ ground (arith, w, alert_loop_lem (suc warning_count) rest)
      | inr w ↦ ground (arith, w, alert_loop_lem warning_count rest)
    ]

-- The alerts of a service score 3 when all is normal. Otherwise they score 0 when some alert type
-- has a critical alert or an error, and else 1, 2 or 3 as two or more, one or no types have a
-- warning. The order in which the map is read does not matter.
pub alert_score_lem :
    (status : AlertStatus) (m : AlertEventLevelCountMap)
    → alert_score status m ≡ (
        if is_all_normal status
        then 3
        else if any is_severe m
        then 0
        else if leb 2 (warnings m)
        then 1
        else if leb 1 (warnings m)
        then 2
        else 3)
unfolding alert_score
alert_score_lem status m = elim (Bool-cases (is_all_normal status)) [
  | inl e ↦ rw e
  | inr e ↦ rw e (alert_loop_lem 0 m ∙ ground arith)
]
