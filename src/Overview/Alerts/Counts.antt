-- ===== src/Overview/Alerts/Counts.antt =====
-- What the maps of alerts count.
use text.Mathlib.Text.{◌==◌ as str_eq}
use apo.Common.{
  ap, inr, inl, lookup-put, sym, ◌∙◌, Bool-cases, ℕ, ◌+◌, ◌%◌, ◌<◌, String, Bool, true, false, ◌&&◌,
  ◌≡◌, refl, Option, none, some, List, [], ◌∷◌, arith, All, ◌==◌, if◌then◌else◌, lookup, u64_mod,
  string_eq, nat_eq, eq_iff,
}
use apo.Overview.Alerts.{
  get_alert_type, add_count, group_alert_event_count_list_by_instance, group_events, level_count,
  matches_one, level_counts, AlertEventCount, AlertEventLevelCount, AlertEventLevelCountMap,
  ServiceInstance,
}

abbrev pub or_zero : Option ℕ → ℕ
or_zero none = 0
or_zero (some n) = n

unfoldable pub count_in : Option AlertEventLevelCount → ℕ → ℕ
unfolding lookup
count_in none level = 0
count_in (some counts) level = or_zero (lookup level counts)

-- How many alerts of a type and a level a map counts.
unfoldable pub count_of : AlertEventLevelCountMap → String → ℕ → ℕ
unfolding lookup count_in
count_of m key level = count_in (lookup key m) level

small : (n : ℕ) → n < u64_mod → (0 + n) % u64_mod ≡ n
small n h = omega arith

counted_once :
    (o : Option ℕ) (event_count : ℕ)
    → event_count < u64_mod
    → level_count o event_count ≡ (or_zero o + event_count) % u64_mod
counted_once none event_count h = sym (small event_count h)
counted_once (some count) event_count h = refl

level_counts_lem :
    (counts : Option AlertEventLevelCount) (level event_count other : ℕ)
    → event_count < u64_mod
    → count_in (some (level_counts counts level event_count)) other ≡ (
        if level == other
        then (count_in counts other + event_count) % u64_mod
        else count_in counts other)
unfolding level_counts count_in
level_counts_lem none level event_count other h = elim (Bool-cases (level == other)) [
  | inl same ↦ rw same (sym (small event_count h))
  | inr differs ↦ rw differs
]
level_counts_lem (some counts) level event_count other h =
    rw (lookup-put level other (level_count (lookup level counts) event_count) counts)
      (elim (Bool-cases (level == other)) [
        | inl same ↦ rw same (
            counted_once (lookup level counts) event_count h
            ∙ ap (λ l. (or_zero (lookup l counts) + event_count) % u64_mod) (ground (arith, same)))
        | inr differs ↦ rw differs
      ])

-- Adding a count that is below 2 ^ 64 adds it, modulo 2 ^ 64, to what the map counts of its key and
-- level, and leaves the other counts as they were.
pub add_count_lem :
    (m : AlertEventLevelCountMap) (key : String) (level event_count : ℕ) (k : String) (l : ℕ)
    → event_count < u64_mod
    → count_of (add_count m key level event_count) k l ≡ (
        if str_eq key k && level == l
        then (count_of m k l + event_count) % u64_mod
        else count_of m k l)
unfolding add_count count_of
add_count_lem m key level event_count k l h =
    rw (lookup-put key k (level_counts (lookup key m) level event_count) m)
      (elim (Bool-cases (str_eq key k)) [
        | inl same ↦ rw same (
            level_counts_lem (lookup key m) level event_count l h
            ∙ ap
                (λ x.
                  if level == l
                  then (count_in (lookup x m) l + event_count) % u64_mod
                  else count_in (lookup x m) l)
                (ground (arith, same, eq_iff key k)))
        | inr differs ↦ rw differs
      ])

if_true : (b : Bool) (x y : ℕ) → b ≡ true → (if b then x else y) ≡ x
if_true b x y h = rw h refl

if_false : (b : Bool) (x y : ℕ) → b ≡ false → (if b then x else y) ≡ y
if_false b x y h = rw h refl

add_modulo : (c n t c2 : ℕ) → c2 ≡ (c + n) % u64_mod → (c2 + t) % u64_mod ≡ (c + (n + t)) % u64_mod
add_modulo c n t c2 e = omega arith

-- How many alerts of a type and a level are counted by events that an instance matches.
abbrev pub total_of : List AlertEventCount → List ServiceInstance → String → ℕ → ℕ
total_of [] instances key level = 0
total_of (event ∷ events) instances key level =
    (if matches_one instances event
        && (str_eq (get_alert_type event.group) key && event.severity == level)
      then event.alarm_count
      else 0)
    + total_of events instances key level

group_events_lem :
    (res : AlertEventLevelCountMap) (events : List AlertEventCount)
    (instances : List ServiceInstance) (key : String) (level : ℕ)
    → All (λ event. event.alarm_count < u64_mod) events
    → count_of res key level < u64_mod
    → count_of (group_events res events instances) key level
      ≡ (count_of res key level + total_of events instances key level) % u64_mod
unfolding group_events
group_events_lem res [] instances key level a h = omega arith
group_events_lem res (event ∷ events) instances key level (small_count, a) h =
    elim (Bool-cases (matches_one instances event)) [
      | inl hit ↦
          let res2 = add_count res (get_alert_type event.group) event.severity event.alarm_count in
          let total = total_of events instances key level in
          let at =
            add_count_lem res (get_alert_type event.group) event.severity event.alarm_count key
              level small_count in
          rw hit
            (elim (Bool-cases
              (str_eq (get_alert_type event.group) key && event.severity == level)) [
                | inl same ↦
                    let now = at ∙ if_true _ _ _ same in
                    rw same (
                      group_events_lem res2 events instances key level a (omega arith)
                      ∙ add_modulo _ _ _ _ now)
                | inr other ↦
                    let now = at ∙ if_false _ _ _ other in
                    rw other (
                      group_events_lem res2 events instances key level a (omega arith)
                      ∙ ap (λ c. (c + total) % u64_mod) now
                      ∙ omega arith)
              ])
      | inr miss ↦ rw miss (group_events_lem res events instances key level a h ∙ omega arith)
    ]

-- For every alert type and severity, the map counts the alarms of the events that match one of
-- the instances, modulo 2 ^ 64, when the counts of the events are below 2 ^ 64.
pub group_alert_event_count_list_by_instance-total_of :
    (events : List AlertEventCount) (instances : List ServiceInstance) (key : String) (level : ℕ)
    → All (λ event. event.alarm_count < u64_mod) events
    → count_of (group_alert_event_count_list_by_instance events instances) key level
      ≡ total_of events instances key level % u64_mod
unfolding group_alert_event_count_list_by_instance count_of count_in
group_alert_event_count_list_by_instance-total_of events instances key level a =
    group_events_lem [] events instances key level a (omega arith) ∙ omega arith
