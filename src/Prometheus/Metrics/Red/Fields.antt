-- ===== src/Prometheus/Metrics/Red/Fields.antt =====
-- The fields of REDMetrics by the names of their group and metric, and what `SetValue` writes.
use text.Mathlib.Text.{◌==◌ as str_eq}
use apo.Common.{
  ◌∙◌, ap, ◌≡◌, Bool, ◌&&◌, ◌||◌, String, Option, none, some, if◌then◌else◌, Bool-cases, eq_iff,
  inl, inr, arith,
}
use apo.Prometheus.Metrics.{realtime, avg, dod, wow, latency, error_rate, throughput}
use apo.Prometheus.Metrics.Red.{
  RedFloats, RedMetric, RedMetrics, set_metric, no_metric, set_value, adjust_red_value,
}

abbrev pub metric_of : {F : Type 0} → RedMetric F → String → Option F
metric_of mg metric_name =
    if str_eq metric_name latency
    then mg.latency
    else if str_eq metric_name error_rate
    then mg.error_rate
    else if str_eq metric_name throughput
    then mg.tpm
    else none

abbrev pub group_of : {F : Type 0} → RedMetrics F → String → RedMetric F
group_of m metric_group =
    if str_eq metric_group realtime
    then m.realtime
    else if str_eq metric_group avg
    then m.avg
    else if str_eq metric_group dod
    then m.dod
    else if str_eq metric_group wow
    then m.wow
    else no_metric

abbrev pub field_of : {F : Type 0} → RedMetrics F → String → String → Option F
field_of m metric_group metric_name = metric_of (group_of m metric_group) metric_name

abbrev pub is_metric : String → Bool
is_metric n = str_eq n latency || (str_eq n error_rate || str_eq n throughput)

abbrev pub is_group : String → Bool
is_group n = str_eq n realtime || (str_eq n avg || (str_eq n dod || str_eq n wow))

metric_of-set_metric :
    {F : Type 0} (f : RedFloats F) (mg : RedMetric F) (n k : String) (v : F)
    → metric_of (set_metric f n v mg) k
      ≡ (if str_eq n k && is_metric n then some v else metric_of mg k)
metric_of-set_metric f mg n k v = ground (
  arith,
  eq_iff n k,
  eq_iff n latency,
  eq_iff n error_rate,
  eq_iff n throughput,
  eq_iff k latency,
  eq_iff k error_rate,
  eq_iff k throughput,
)

-- One of the groups, changed.
abbrev change_group :
    {F : Type 0} → (RedMetric F → RedMetric F) → RedMetrics F → String → RedMetrics F
change_group change m metric_group =
    if str_eq metric_group realtime
    then record m { realtime = change m.realtime }
    else if str_eq metric_group avg
    then record m { avg = change m.avg }
    else if str_eq metric_group dod
    then record m { dod = change m.dod }
    else if str_eq metric_group wow
    then record m { wow = change m.wow }
    else m

group_of-change_group :
    {F : Type 0} (change : RedMetric F → RedMetric F) (m : RedMetrics F) (g h : String)
    → group_of (change_group change m g) h
      ≡ (if str_eq g h && is_group g then change (group_of m h) else group_of m h)
group_of-change_group change m g h = ground (
  arith,
  eq_iff g h,
  eq_iff g realtime,
  eq_iff g avg,
  eq_iff g dod,
  eq_iff g wow,
  eq_iff h realtime,
  eq_iff h avg,
  eq_iff h dod,
  eq_iff h wow,
)

-- `SetValue` writes the adjusted value to the field of its group and metric, if both names are
-- known, and leaves every other field as it was.
pub set_value-field_of :
    {F : Type 0} (f : RedFloats F) (m : RedMetrics F) (g n : String) (v : F) (h k : String)
    → field_of (set_value f m g n v) h k ≡ (
        if str_eq g h && str_eq n k && is_group g && is_metric n
        then some (adjust_red_value f g n v)
        else field_of m h k)
unfolding set_value
set_value-field_of f m g n v h k =
    ap (λ mg. metric_of mg k)
      (group_of-change_group (set_metric f n (adjust_red_value f g n v)) m g h)
    ∙ elim (Bool-cases (str_eq g h && is_group g)) [
      | inl t ↦
          rw t (
            metric_of-set_metric f (group_of m h) n k (adjust_red_value f g n v)
            ∙ ground (arith, t))
      | inr t ↦ rw t (ground (arith, t))
    ]
