-- ===== src/Overview/RygLight/Score.antt =====
-- The score of a service: its parts, its bounds, its light, and when it cannot be computed.
use apo.Common.{
  All, subst, sym, ◌⊎◌, inr, inl, Bool-cases, Option-cases, eq_of_some, ℕ, suc, ◌+◌, ◌*◌, ◌/◌, ◌≤◌,
  String, true, ◌≡◌, ◌↔◌, refl, Option, none, some, List, [], ◌∷◌, map, arith, length, ltb, leb,
  if◌then◌else◌, ◌∙◌,
}
use apo.Overview.Alerts.{
  severity_error, severity_critical, is_all_normal, severity_warning, AlertEventLevelCountMap,
  AlertStatus,
}
use apo.Overview.RygLight.{
  get_alert_score_detail, with_percent, empty_result, red, yellow, green, max_ryg_score, RygStatus,
  expose_ryg_light_status, log_error_count_step, replica_step, status_of, counted, error_rate_step,
  latency_step, add_score, alert_loop, alert_score, is_positive_at, score_from_dod, RygResult,
  RygScoreDetail, RygLightStatus, Float64,
}

abbrev pub total_score : List RygScoreDetail → ℕ
total_score [] = 0
total_score (detail ∷ details) = detail.score + total_score details

alert_loop-le : (warnings : ℕ) (m : AlertEventLevelCountMap) → alert_loop warnings m ≤ 3
unfolding alert_loop
alert_loop-le warnings [] = ground arith
alert_loop-le warnings ((key, counts) ∷ rest) =
    let next =
      alert_loop-le (if counted severity_warning counts then suc warnings else warnings) rest in
    elim (Bool-cases (counted severity_critical counts)) [
      | inl critical ↦ rw critical (omega arith)
      | inr e ↦ elim (Bool-cases (counted severity_error counts)) [
        | inl error ↦ rw (e, error) (omega arith)
        | inr e2 ↦ rw (e, e2) next
      ]
    ]

alert_score-le : (status : AlertStatus) (m : AlertEventLevelCountMap) → alert_score status m ≤ 3
unfolding alert_score
alert_score-le status m = elim (Bool-cases (is_all_normal status)) [
  | inl e ↦ rw e (omega arith)
  | inr e ↦ rw e (alert_loop-le 0 m)
]

-- One part of the score was added.
abbrev Adds : RygResult → String → RygResult → Type 0
Adds res key next =
    (score : ℕ) × (detail : String) × (next ≡ add_score res key score detail) × (score ≤ 3)

module _ {F : Type 0} (float : Float64 F) where
  score_from_dod-le :
      (value : Option F) (l1 l2 l3 score : ℕ)
      → score_from_dod float value l1 l2 l3 ≡ some score
      → score ≤ 3
  unfolding score_from_dod
  score_from_dod-le none l1 l2 l3 score e = absurd (ground (arith, e))
  score_from_dod-le (some value) l1 l2 l3 score e = ground (arith, eq_of_some e)

  latency_lem :
      (s : RygLightStatus F) (res : RygResult)
      → (next : RygResult) × (latency_step float s (score_from_dod float s.latency_dod 10 20 50) res
          ≡ some next)
        × Adds res "latency" next
  unfolding score_from_dod
  latency_lem s res = elim (Option-cases s.latency_dod) [
    | inl missing ↦ rw missing (_, refl, (3, _, refl, omega arith))
    | inr (value, given) ↦
        rw given (_, refl, (_, _, refl, score_from_dod-le (some value) 10 20 50 _ refl))
  ]

  error_rate_lem :
      (s : RygLightStatus F) (res : RygResult)
      → (next : RygResult) × (error_rate_step float s
            (score_from_dod float s.error_rate_dod 5 10 20)
            res
          ≡ some next)
        × Adds res "errorRate" next
  unfolding score_from_dod
  error_rate_lem s res = elim (Option-cases s.error_rate_dod) [
    | inl missing ↦ elim (Option-cases s.error_rate_avg) [
      | inl unknown ↦ rw (missing, unknown) (_, refl, (3, _, refl, omega arith))
      | inr (rate, known) ↦ elim (Bool-cases (float.lt (float.of_nat 0) rate)) [
        | inl positive ↦ rw (missing, known, positive) (_, refl, (0, _, refl, omega arith))
        | inr e ↦ rw (missing, known, e) (_, refl, (3, _, refl, omega arith))
      ]
    ]
    | inr (value, given) ↦
        rw given (_, refl, (_, _, refl, score_from_dod-le (some value) 5 10 20 _ refl))
  ]

  -- The log errors are judged by the error rate, and there is none.
  abbrev pub NeedsErrorRate : RygLightStatus F → Type 0
  NeedsErrorRate s =
      (s.log_error_count_dod ≡ none)
      × (is_positive_at float s.log_error_count_avg ≡ true)
      × (s.error_rate_avg ≡ none)

  log_error_count_lem :
      (s : RygLightStatus F) (res : RygResult)
      → (NeedsErrorRate s
          × (log_error_count_step float s (score_from_dod float s.log_error_count_dod 5 10 20) res
              ≡ none))
        ⊎ ((next : RygResult) × (log_error_count_step float s
                (score_from_dod float s.log_error_count_dod 5 10 20)
                res
              ≡ some next)
            × Adds res "logErrorCount" next)
  unfolding score_from_dod
  log_error_count_lem s res = elim (Option-cases s.log_error_count_dod) [
    | inl missing ↦ elim (Bool-cases (is_positive_at float s.log_error_count_avg)) [
      | inl positive ↦ elim (Option-cases s.error_rate_avg) [
        | inl unknown ↦ inl ((missing, positive, unknown), rw (missing, positive, unknown) refl)
        | inr (rate, known) ↦
            inr (rw (missing, positive, known) (_, refl, (0, _, refl, omega arith)))
      ]
      | inr e ↦ inr (rw (missing, e) (_, refl, (3, _, refl, omega arith)))
    ]
    | inr (value, given) ↦
        inr (rw given (_, refl, (_, _, refl, score_from_dod-le (some value) 5 10 20 _ refl)))
  ]

  unjudged :
      (s : RygLightStatus F) (res : RygResult)
      → NeedsErrorRate s
      → log_error_count_step float s (score_from_dod float s.log_error_count_dod 5 10 20) res ≡ none
  unfolding score_from_dod
  unjudged s res (missing, positive, unknown) = rw (missing, positive, unknown) refl

  fails : (s : RygLightStatus F) → NeedsErrorRate s → expose_ryg_light_status float s ≡ none
  unfolding expose_ryg_light_status
  fails s needs =
      let (timed, e1, adds1) = latency_lem s (empty_result float) in
      let (rated, e2, adds2) = error_rate_lem s timed in rw (e1, e2, unjudged s rated needs) refl

  replica_lem :
      (s : RygLightStatus F) (res : RygResult) → Adds res "replica" (replica_step float s res)
  replica_lem s res = elim (Bool-cases (ltb (length s.instances) 2)) [
    | inl few ↦ rw few (0, _, refl, omega arith)
    | inr many ↦ rw many (3, _, refl, omega arith)
  ]

  -- The light of a score.
  abbrev pub light_of : ℕ → RygStatus
  light_of score = if leb 12 score then green else if leb 6 score then yellow else red

  status_of-light_of : (score : ℕ) → status_of float (score * 100 / max_ryg_score) ≡ light_of score
  status_of-light_of score = elim (Bool-cases (leb 12 score)) [
    | inl high ↦ ground (arith, high)
    | inr low ↦ ground (arith, low)
  ]

  -- What every result is like.
  abbrev pub IsScored : RygResult → Type 0
  IsScored res =
      (map (λ d. d.key) res.score_detail
        ≡ "latency" ∷ "errorRate" ∷ "logErrorCount" ∷ "alert" ∷ "replica" ∷ [])
      × All (λ (d : RygScoreDetail). d.score ≤ 3) res.score_detail
      × (res.score ≡ total_score res.score_detail)
      × (res.score ≤ max_ryg_score)
      × (res.percent_score ≤ 100)
      × (res.status ≡ light_of res.score)

  five_parts :
      (timed rated logged alerted replicated : RygResult)
      → Adds (empty_result float) "latency" timed
      → Adds timed "errorRate" rated
      → Adds rated "logErrorCount" logged
      → Adds logged "alert" alerted
      → Adds alerted "replica" replicated
      → IsScored (with_percent float replicated)
  five_parts timed rated logged alerted replicated (a, a2, p, ha) (b, b2, q, hb) (c, c2, r, hc)
        (d, d2, t, hd) (e, e2, u, he) =
      rw (u, t, r, q, p)
        (
          refl,
          (ha, (hb, (hc, (hd, (he, tt))))),
          omega arith,
          omega arith,
          omega arith,
          status_of-light_of (0 + a + b + c + d + e),
        )

  -- The parts up to the log errors have been added, or the log errors cannot be judged.
  expose-steps :
      (s : RygLightStatus F)
      → (NeedsErrorRate s × (expose_ryg_light_status float s ≡ none))
        ⊎ ((res : RygResult) × (expose_ryg_light_status float s ≡ some res) × IsScored res)
  unfolding expose_ryg_light_status
  expose-steps s =
      let (timed, e1, adds1) = latency_lem s (empty_result float) in
      let (rated, e2, adds2) = error_rate_lem s timed in
      elim (log_error_count_lem s rated) [
        | inl (needs, e3) ↦ inl (needs, rw (e1, e2, e3) refl)
        | inr (logged, e3, adds3) ↦
            let alert = alert_score s.alert_status s.alert_event_level_count_map in
            let alerted = add_score logged "alert" alert (get_alert_score_detail alert) in
            inr (
              with_percent float (replica_step float s alerted),
              rw (e1, e2, e3) refl,
              five_parts timed rated logged _ _ adds1 adds2 adds3
                  (_, _, refl, alert_score-le s.alert_status s.alert_event_level_count_map)
                  (replica_lem s _),
            )
      ]

  -- A result has five parts, for the latency, the error rate, the log errors, the alerts and the
  -- replicas, with a score of at most 3 each. Its score is their sum, at most 15, its percentage is at
  -- most 100, and its light is green from 12, yellow from 6 and red below.
  pub expose_ryg_light_status_lem :
      (s : RygLightStatus F) (res : RygResult)
      → expose_ryg_light_status float s ≡ some res
      → IsScored res
  expose_ryg_light_status_lem s res e = elim (expose-steps s) [
    | inl (needs, failed) ↦ absurd (ground (arith, sym failed ∙ e))
    | inr (found, given, scored) ↦ subst IsScored (eq_of_some (sym given ∙ e)) scored
  ]

  -- The light is missing just when yesterday's log errors and the average error rate are unknown
  -- and the average number of log errors is positive.
  pub expose_ryg_light_status-none :
      (s : RygLightStatus F) → (expose_ryg_light_status float s ≡ none) ↔ NeedsErrorRate s
  expose_ryg_light_status-none s = elim (expose-steps s) [
    | inl (needs, failed) ↦ (λ h. needs, λ h. failed)
    | inr (found, given, scored) ↦ (λ h. absurd (ground (arith, sym given ∙ h)), fails s)
  ]
