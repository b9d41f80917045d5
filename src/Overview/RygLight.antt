-- ===== src/Overview/RygLight.antt =====
-- service_ryg_light.go: the score of a service and its light. Floats and their printing are a
-- parameter. `none` in place of a result stands for the panic of a nil pointer.
pub mod Score
pub mod AlertScores
pub mod Services
pub mod Tests
use apo.Common.{
  ℕ, zero, suc, ◌+◌, ◌*◌, ◌/◌, ◌≤◌, String, Bool, true, false, not, ◌&&◌, ◌||◌, ◌≡◌, refl, Option,
  none, some, List, [], ◌∷◌, ◌++◌, arith, length, ◌==◌, ltb, leb, if◌then◌else◌, Dict, lookup,
  nat_eq,
}
use apo.Overview.Alerts.{
  AlertStatus, AlertEventLevelCount, AlertEventLevelCountMap, ServiceInstance, is_all_normal,
  severity_critical, severity_error, severity_warning,
}

-- What the code uses of float64: the order, whole numbers and `fmt.Sprintf`.
pub record Float64 (F : Type 0) : Type 0 where
  pub lt : F → F → Bool
  pub of_nat : ℕ → F
  pub sprintf : String → F → String

pub data RygStatus : Type 0 where
  red yellow green : RygStatus

pub record RygScoreDetail : Type 0 where
  pub key : String
  pub score : ℕ
  pub detail : String

pub record RygResult : Type 0 where
  pub percent_score : ℕ
  pub score : ℕ
  pub status : RygStatus
  pub score_detail : List RygScoreDetail

abbrev pub max_ryg_score : ℕ
max_ryg_score = 3 * 5

pub record RygLightStatus (F : Type 0) : Type 0 where
  pub latency_avg : Option F
  pub error_rate_avg : Option F
  pub log_error_count_avg : Option F
  pub latency_dod : Option F
  pub error_rate_dod : Option F
  pub log_error_count_dod : Option F
  pub instances : List ServiceInstance
  pub alert_status : AlertStatus
  pub alert_event_level_count_map : AlertEventLevelCountMap

infixl 5 ◌>>=◌
abbrev pub ◌>>=◌ {ℓ κ} : {A : Type ℓ} {B : Type κ} → Option A → (A → Option B) → Option B
none >>= f = none
some a >>= f = f a

abbrev pub is_counted : Option ℕ → Bool
is_counted none = false
is_counted (some count) = ltb 0 count

-- `count, find := counts[level]` with `find && count > 0`
unfoldable pub counted : ℕ → AlertEventLevelCount → Bool
unfolding lookup
counted level counts = is_counted (lookup level counts)

-- The loop of `AlertScore`, with the number of warnings so far.
unfoldable pub alert_loop : ℕ → List (String × AlertEventLevelCount) → ℕ
unfolding counted
alert_loop warning_count [] =
    if leb 2 warning_count then 1 else if leb 1 warning_count then 2 else 3
alert_loop warning_count ((key, counts) ∷ rest) =
    let next =
      alert_loop (if counted severity_warning counts then suc warning_count else warning_count)
        rest in
    if counted severity_critical counts
    then 0
    else if counted severity_error counts
    then 0
    else next

-- The two pointers are never nil where the function is called.
unfoldable pub alert_score : AlertStatus → AlertEventLevelCountMap → ℕ
unfolding is_all_normal alert_loop
alert_score status m = if is_all_normal status then 3 else alert_loop 0 m

unfoldable pub get_alert_score_detail : ℕ → String
get_alert_score_detail score =
    if leb score 0
    then "存在高优先级告警,系统存在严重问题"
    else if leb score 1
    then "存在不同种类的低优先级告警"
    else if leb score 2
    then "存在低优先级告警,无明显影响"
    else "无告警,系统运行正常"

-- `res.Score += score` and the detail.
abbrev pub add_score : RygResult → String → ℕ → String → RygResult
add_score res key score detail = record res {
  score = res.score + score;
  score_detail = res.score_detail ++ record { key = key; score = score; detail = detail } ∷ [];
}

module _ {F : Type 0} (float : Float64 F) where
  -- `none` stands for -1.
  unfoldable pub score_from_dod : Option F → ℕ → ℕ → ℕ → Option ℕ
  score_from_dod none l1 l2 l3 = none
  score_from_dod (some value) l1 l2 l3 = some (
      if float.lt value (float.of_nat l1)
      then 3
      else if float.lt value (float.of_nat l2)
      then 2
      else if float.lt value (float.of_nat l3)
      then 1
      else 0)

  -- `fmt.Sprintf(format, *value)`
  abbrev pub sprintf_at : String → Option F → Option String
  sprintf_at format none = none
  sprintf_at format (some value) = some (float.sprintf format value)

  abbrev pub latency_step : RygLightStatus F → Option ℕ → RygResult → Option RygResult
  latency_step s none res = some (add_score res "latency" 3 "未获取到昨日延时,跳过检查")
  latency_step s (some score) res = do
    detail ← sprintf_at "latency 同比增长 %.2f%%" s.latency_dod
    some (add_score res "latency" score detail)

  -- `value != nil && *value > 0`
  abbrev pub is_positive_at : Option F → Bool
  is_positive_at none = false
  is_positive_at (some value) = float.lt (float.of_nat 0) value

  abbrev pub error_rate_step : RygLightStatus F → Option ℕ → RygResult → Option RygResult
  error_rate_step s none res =
      if is_positive_at s.error_rate_avg
      then (sprintf_at "errorRate 昨日同时期无错误,今日错误率: %.2f%%" s.error_rate_avg >>= λ detail.
          some (add_score res "errorRate" 0 detail))
      else some (add_score res "errorRate" 3 "errorRate 今日未发生错误")
  error_rate_step s (some score) res = do
    detail ← sprintf_at "errorRate 同比增长 %.2f%%" s.error_rate_dod
    some (add_score res "errorRate" score detail)

  abbrev pub log_error_count_step : RygLightStatus F → Option ℕ → RygResult → Option RygResult
  log_error_count_step s none res =
      if is_positive_at s.log_error_count_avg
      then (sprintf_at "logErrorCount 昨日同时期无错误,今日日志错误数: %.0f%%" s.error_rate_avg >>= λ detail.
          some (add_score res "logErrorCount" 0 detail))
      else some (add_score res "logErrorCount" 3 "logErrorCount 今日未产生错误日志")
  log_error_count_step s (some score) res = do
    detail ← sprintf_at "logErrorCount 同比增长 %.2f%%" s.log_error_count_dod
    some (add_score res "logErrorCount" score detail)

  abbrev pub replica_step : RygLightStatus F → RygResult → RygResult
  replica_step s res =
      if ltb (length s.instances) 2
      then add_score res "replica" 0 "应用实例数小于2, 存在服务不可用风险"
      else add_score res "replica" 3 "应用实例数大于2, 服务有可用副本"

  abbrev pub status_of : ℕ → RygStatus
  status_of percent = if leb 80 percent then green else if leb 40 percent then yellow else red

  abbrev pub empty_result : RygResult
  empty_result = record { percent_score = 0; score = 0; status = red; score_detail = [] }

  abbrev pub with_percent : RygResult → RygResult
  with_percent res =
      let percent = res.score * 100 / max_ryg_score in
      record res { percent_score = percent; status = status_of percent }

  unfoldable pub expose_ryg_light_status : RygLightStatus F → Option RygResult
  unfolding score_from_dod alert_score get_alert_score_detail
  expose_ryg_light_status s = do
    timed ← latency_step s (score_from_dod s.latency_dod 10 20 50) empty_result
    rated ← error_rate_step s (score_from_dod s.error_rate_dod 5 10 20) timed
    logged ← log_error_count_step s (score_from_dod s.log_error_count_dod 5 10 20) rated
    let alert = alert_score s.alert_status s.alert_event_level_count_map
    let alerted = add_score logged "alert" alert (get_alert_score_detail alert)
    some (with_percent (replica_step s alerted))
