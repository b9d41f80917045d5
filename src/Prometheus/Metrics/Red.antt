-- ===== src/Prometheus/Metrics/Red.antt =====
-- red_metric_groups.go: the rate, errors and duration of a group, now, on average, and against the
-- day and the week before. Floats are a parameter.
pub mod Fields
use apo.Common.{
  ◌≡◌, refl, Bool, true, false, ◌&&◌, ◌||◌, String, Option, none, some, if◌then◌else◌, Bool-cases,
  eq_iff, inl, inr, arith,
}
use text.Mathlib.Text.{◌==◌ as str_eq}
use apo.Prometheus.Metrics.{realtime, avg, dod, wow, latency, error_rate, throughput, MetricGroup}

-- What the code uses of float64.
pub record RedFloats (F : Type 0) : Type 0 where
  pub is_inf : F → Bool
  pub is_minus_inf : F → Bool
  -- RES_MAX_VALUE, and its negation
  pub res_max_value : F
  pub minus_res_max_value : F
  pub minus_one : F → F
  pub by_1e3 : F → F
  pub times_100 : F → F
  pub times_60 : F → F

pub record RedMetric (F : Type 0) : Type 0 where
  pub latency : Option F
  pub error_rate : Option F
  pub tpm : Option F

pub record RedMetrics (F : Type 0) : Type 0 where
  pub realtime : RedMetric F
  pub avg : RedMetric F
  pub dod : RedMetric F
  pub wow : RedMetric F

module _ {F : Type 0} (f : RedFloats F) where
  -- An infinity becomes the largest value that is shown.
  abbrev pub bounded : F → F → F
  bounded value finite =
      if f.is_inf value
      then f.res_max_value
      else if f.is_minus_inf value
      then f.minus_res_max_value
      else finite

  abbrev pub in_unit : String → F → F
  in_unit metric_name value =
      if str_eq metric_name latency
      then f.by_1e3 value
      else if str_eq metric_name error_rate
      then f.times_100 value
      else if str_eq metric_name throughput
      then f.times_60 value
      else value

  unfoldable pub adjust_red_value : String → String → F → F
  adjust_red_value metric_group metric_name value =
      if str_eq metric_group realtime || str_eq metric_group avg
      then bounded value (in_unit metric_name value)
      else if str_eq metric_group dod || str_eq metric_group wow
      then bounded value (f.times_100 (f.minus_one value))
      else value

  abbrev pub set_metric : String → F → RedMetric F → RedMetric F
  set_metric metric_name value mg =
      if str_eq metric_name latency
      then record mg { latency = some value }
      else if str_eq metric_name error_rate
      then record mg { error_rate = some value }
      else if str_eq metric_name throughput
      then record mg { tpm = some value }
      else mg

  unfoldable pub set_value : RedMetrics F → String → String → F → RedMetrics F
  unfolding adjust_red_value
  set_value m metric_group metric_name value =
      let adjusted_value = adjust_red_value metric_group metric_name value in
      if str_eq metric_group realtime
      then record m { realtime = set_metric metric_name adjusted_value m.realtime }
      else if str_eq metric_group avg
      then record m { avg = set_metric metric_name adjusted_value m.avg }
      else if str_eq metric_group dod
      then record m { dod = set_metric metric_name adjusted_value m.dod }
      else if str_eq metric_group wow
      then record m { wow = set_metric metric_name adjusted_value m.wow }
      else m

-- `AppendGroupIfNotExist`
unfoldable pub append_group_if_not_exist : String → String → Bool
append_group_if_not_exist metric_group metric_name = str_eq metric_name latency

-- `&REDMetrics{}`
abbrev pub no_metric : {F : Type 0} → RedMetric F
no_metric = record { latency = none; error_rate = none; tpm = none }

abbrev pub no_metrics : {F : Type 0} → RedMetrics F
no_metrics = record { realtime = no_metric; avg = no_metric; dod = no_metric; wow = no_metric }
