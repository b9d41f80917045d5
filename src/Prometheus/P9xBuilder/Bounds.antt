-- ===== src/Prometheus/P9xBuilder/Bounds.antt =====
-- `ToString` never indexes past the end of a value list, for a builder that was made by its
-- operations, and its text has one query for each position.
use text.Mathlib.Text.{◌==◌ as str_eq}
use apo.Common.{
  nil-append, Option-cases, text_append_assoc, text_append-nil, ap, sym, inr, inl, All-append,
  Bool-cases, ℕ, zero, suc, ◌<◌, String, Bool, true, false, ◌≡◌, refl, some, List, [], ◌∷◌, ◌++◌,
  arith, All, length, ◌==◌, ◌#◌, get_elem?,
}
use apo.Prometheus.Duration.{get_duration_from_step}
use apo.Prometheus.P9xBuilder.{
  is_empty, separator, write_labels, UnionP9xBuilder, P9xCondition, add_condition,
  add_extra_condition, new_union_p9x_builder, write_conditions, write_query,
}
use mathlib.Core.Option

-- Every condition has as many values as the builder counts.
abbrev pub IsUniform : UnionP9xBuilder → Type 0
IsUniform b = All (λ c. length c.values ≡ b.count) b.conditions

-- While nothing is counted there is no condition.
pub record IsValid (b : UnionP9xBuilder) : Type 0 where
  pub uniform : IsUniform b
  pub fresh : b.count ≡ 0 → b.conditions ≡ []

uniform-append :
    (count : ℕ) (conditions : List P9xCondition) (c : P9xCondition)
    → All (λ c. length c.values ≡ count) conditions
    → length c.values ≡ count
    → All (λ c. length c.values ≡ count) (conditions ++ c ∷ [])
uniform-append count conditions c a e = All-append _ conditions (c ∷ []) a (e, tt)

add_condition-IsValid :
    (key : String) (values : List String) (b : UnionP9xBuilder)
    → IsValid b
    → IsValid (add_condition key values b).0
unfolding add_condition
add_condition-IsValid key values b v = elim (Bool-cases (length values == 0)) [
  | inl none_given ↦ rw none_given v
  | inr given ↦ elim (Bool-cases (b.count == 0)) [
    | inl first ↦
        let empty = v.fresh (ground arith) in
        rw (given, first)
          (record { uniform = rw empty (refl, tt); fresh = λ e. absurd (ground (arith, e)) })
    | inr later ↦ elim (Bool-cases (b.count == length values)) [
      | inl same ↦
          rw (given, later, same)
            (record {
              uniform = uniform-append b.count b.conditions _ v.uniform (ground arith);
              fresh = λ e. absurd (ground (arith, e));
            })
      | inr other ↦ rw (given, later, other) v
    ]
  ]
]

-- The builders that the operations make.
pub data Made : UnionP9xBuilder → Type 0 where
  new :
      (value table_name : String) (labels : List String) (duration : ℕ)
      → Made (new_union_p9x_builder value table_name labels duration)
  conditioned :
      {b : UnionP9xBuilder} (key : String) (values : List String)
      → Made b
      → Made (add_condition key values b).0
  extended :
      {b : UnionP9xBuilder} (condition : String) → Made b → Made (add_extra_condition condition b)

add_extra-IsValid :
    (condition : String) (b : UnionP9xBuilder)
    → IsValid b
    → IsValid (add_extra_condition condition b)
unfolding add_extra_condition
add_extra-IsValid condition b v = elim (Bool-cases (str_eq condition "")) [
  | inl e ↦ rw e v
  | inr e ↦ rw e (record { uniform = v.uniform; fresh = v.fresh })
]

pub Made-IsValid : {b : UnionP9xBuilder} → Made b → IsValid b
unfolding new_union_p9x_builder
Made-IsValid (new value table_name labels duration) = record { uniform = tt; fresh = λ e. refl }
Made-IsValid (conditioned {b} key values r) = add_condition-IsValid key values b (Made-IsValid r)
Made-IsValid (extended {b} condition r) = add_extra-IsValid condition b (Made-IsValid r)

get_elem?_total :
    (xs : List String) (i : ℕ) → i < length xs → (x : String) × (get_elem? xs i ≡ some x)
get_elem?_total [] i h = absurd (omega arith)
get_elem?_total (x ∷ xs) zero h = (x, refl)
get_elem?_total (x ∷ xs) (suc i) h = get_elem?_total xs i (omega arith)

-- The conditions of a query are all written.
pub write_conditions_total :
    (count i : ℕ) (text : String) (is_first : Bool) (conditions : List P9xCondition)
    → i < count
    → All (λ c. length c.values ≡ count) conditions
    → (written : String) × (write_conditions i text is_first conditions ≡ some written)
unfolding write_conditions
write_conditions_total count i text is_first [] h a = (text, refl)
write_conditions_total count i text is_first (c ∷ cs) h (e, a) =
    let (value, got) = get_elem?_total c.values i (omega arith) in
    let (written, rest) =
      write_conditions_total count i (text # separator is_first ", " # c.key # "='" # value # "'")
        false cs h a in
    (written, rw got rest)

-- A loop that writes goes on from the text before it.
write_labels-prefix :
    (text : String) (is_first : Bool) (labels : List String)
    → write_labels text is_first labels ≡ text # write_labels "" is_first labels
unfolding write_labels
write_labels-prefix text is_first [] = sym (text_append-nil text)
write_labels-prefix text is_first (label ∷ labels) =
    rw (write_labels-prefix (text # separator is_first ", " # label) false labels) (
      rw (write_labels-prefix ("" # separator is_first ", " # label) false labels)
        (simp (text_append_assoc, nil-append)))

write_conditions-prefix :
    (i : ℕ) (text : String) (is_first : Bool) (conditions : List P9xCondition)
    → write_conditions i text is_first conditions
      ≡ Option.map (λ t. text # t) (write_conditions i "" is_first conditions)
unfolding write_conditions
write_conditions-prefix i text is_first [] = ap some (sym (text_append-nil text))
write_conditions-prefix i text is_first (c ∷ cs) = elim (Option-cases (get_elem? c.values i)) [
  | inl missing ↦ rw missing
  | inr (value, got) ↦ rw got (
      rw
        (write_conditions-prefix i (text # separator is_first ", " # c.key # "='" # value # "'")
          false cs)
        (rw
          (write_conditions-prefix i ("" # separator is_first ", " # c.key # "='" # value # "'")
            false cs)
          (elim (Option-cases (write_conditions i "" false cs)) [
            | inl e ↦ rw e
            | inr (rest, e) ↦ rw e (simp (text_append_assoc, nil-append))
          ])))
]

abbrev pub query_with : UnionP9xBuilder → String → String
query_with b written =
    "histogram_quantile("
    # b.value
    # ", sum by("
    # write_labels "" true b.labels
    # ") (increase("
    # b.table_name
    # "{"
    # written
    # write_labels "" (is_empty b.conditions) b.extra_conditions
    # "}["
    # get_duration_from_step b.duration
    # "])))"

pub write_query-query_with :
    (b : UnionP9xBuilder) (i : ℕ) (text written : String)
    → write_conditions i "" true b.conditions ≡ some written
    → write_query b i text ≡ some (text # query_with b written)
unfolding write_query
write_query-query_with b i text written e =
    rw (write_labels-prefix (text # "histogram_quantile(" # b.value # ", sum by(") true b.labels) (
      rw (write_conditions-prefix i _ true b.conditions) (
        rw e (
          rw (write_labels-prefix _ (is_empty b.conditions) b.extra_conditions)
            (simp (text_append_assoc)))))
