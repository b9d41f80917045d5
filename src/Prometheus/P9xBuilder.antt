-- ===== src/Prometheus/P9xBuilder.antt =====
-- p9x_builder.go: the builder of a union of quantile queries, one for each position of its value
-- lists. `none` stands for the panic of an index past the end of a value list.
pub mod Bounds
pub mod Queries
pub mod Tests
use apo.Common.{
  ℕ, zero, suc, ◌+◌, String, Bool, true, false, ◌||◌, Option, none, some, List, [], ◌∷◌, ◌++◌,
  if◌then◌else◌, ltb, ◌==◌, not, length, get_elem?, ◌#◌,
}
use text.Mathlib.Text.{◌==◌ as str_eq}
use apo.Prometheus.Duration.{get_duration_from_step}

infixl 5 ◌>>=◌
abbrev pub ◌>>=◌ {ℓ κ} : {A : Type ℓ} {B : Type κ} → Option A → (A → Option B) → Option B
none >>= f = none
some a >>= f = f a

pub record P9xCondition : Type 0 where
  pub key : String
  pub values : List String

pub record UnionP9xBuilder : Type 0 where
  pub value : String
  pub table_name : String
  pub labels : List String
  pub duration : ℕ
  pub count : ℕ
  pub conditions : List P9xCondition
  pub extra_conditions : List String

unfoldable pub new_union_p9x_builder : String → String → List String → ℕ → UnionP9xBuilder
new_union_p9x_builder value table_name labels duration = record {
  value = value;
  table_name = table_name;
  labels = labels;
  duration = duration;
  count = 0;
  conditions = [];
  extra_conditions = [];
}

-- The error names the key, the expected and the given number of values.
pub data AddError : Type 0 where
  count_mismatch : String → ℕ → ℕ → AddError

abbrev pub append_condition : String → List String → UnionP9xBuilder → UnionP9xBuilder
append_condition key values b = record b {
  conditions = b.conditions ++ record { key = key; values = values } ∷ [];
}

unfoldable pub add_condition :
    String → List String → UnionP9xBuilder → UnionP9xBuilder × Option AddError
add_condition key values b =
    if length values == 0
    then (b, none)
    else if b.count == 0
    then (append_condition key values (record b { count = length values }), none)
    else if not (b.count == length values)
    then (b, some (count_mismatch key b.count (length values)))
    else (append_condition key values b, none)

unfoldable pub add_extra_condition : String → UnionP9xBuilder → UnionP9xBuilder
add_extra_condition condition b =
    if str_eq condition ""
    then b
    else record b { extra_conditions = b.extra_conditions ++ condition ∷ [] }

-- The loops of `ToString` write to one text, with a separator before all but the first item.
abbrev pub separator : Bool → String → String
separator true sep = ""
separator false sep = sep

unfoldable pub write_labels : String → Bool → List String → String
write_labels text is_first [] = text
write_labels text is_first (label ∷ labels) =
    write_labels (text # separator is_first ", " # label) false labels

unfoldable pub write_conditions : ℕ → String → Bool → List P9xCondition → Option String
write_conditions i text is_first [] = some text
write_conditions i text is_first (condition ∷ conditions) =
    let rest = λ (value : String).
      write_conditions i (text # separator is_first ", " # condition.key # "='" # value # "'") false
        conditions in
    get_elem? condition.values i >>= rest

abbrev pub is_empty {ℓ} : {A : Type ℓ} → List A → Bool
is_empty [] = true
is_empty (x ∷ xs) = false

-- The text of one query, after `text`.
unfoldable pub write_query : UnionP9xBuilder → ℕ → String → Option String
unfolding write_labels write_conditions get_duration_from_step
write_query b i text = do
  let head = text # "histogram_quantile(" # b.value # ", sum by("
  let labelled = write_labels head true b.labels # ") (increase(" # b.table_name # "{"
  conditioned ← write_conditions i labelled true b.conditions
  let extended = write_labels conditioned (is_empty b.conditions) b.extra_conditions
  some (extended # "}[" # get_duration_from_step b.duration # "])))")

abbrev pub is_zero : ℕ → Bool
is_zero zero = true
is_zero (suc i) = false

-- The outer loop, with the rounds that are left.
unfoldable pub write_queries : UnionP9xBuilder → ℕ → ℕ → String → Option String
unfolding write_query
write_queries b zero i text = some text
write_queries b (suc left) i text =
    write_query b i (text # separator (is_zero i) ",") >>= write_queries b left (suc i)

unfoldable pub to_string : UnionP9xBuilder → Option String
unfolding write_queries
to_string b = do
  text ← write_queries b b.count 0 (if ltb 1 b.count then "union(" else "")
  some (if ltb 1 b.count then text # ")" else text)
