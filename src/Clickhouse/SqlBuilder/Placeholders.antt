-- ===== src/Clickhouse/SqlBuilder/Placeholders.antt =====
-- The placeholders of a query against the values that are bound to them: the driver takes the
-- values by position, so a query must have one value for each `?`.
use Prim.Native.Char.{code}
use Prim.Native.String.{String, [] as empty_text, ◌∷◌ as cons_char}
use text.Mathlib.Text.{◌==◌ as str_eq}
use text.Mathlib.TextLemmas.{nil-append, cons-append}
use apo.Common.{
  join, ◌#◌, ◌∙◌, Bool-cases, ℕ, suc, ◌+◌, ◌≡◌, refl, Bool, true, false, List, [], ◌∷◌, ◌++◌, arith,
  ◌==◌, if◌then◌else◌, length, length-append, inl, inr,
}
use apo.Clickhouse.SqlBuilder.{
  append_all, new_query_builder, where_text, query_text, QueryBuilder, WhereSql, always_true,
  always_false, nil_where, clause, add_part,
}
use apo.Clickhouse.SqlBuilder

-- How many `?` a text has.
unfoldable pub placeholders : String → ℕ
placeholders empty_text = 0
placeholders (cons_char c s) = if code c == b'?' then suc (placeholders s) else placeholders s

pub placeholders-append : (s t : String) → placeholders (s # t) ≡ placeholders s + placeholders t
unfolding placeholders
placeholders-append empty_text t = rw nil-append (omega arith)
placeholders-append (cons_char c s) t = rw cons-append (ground (arith, placeholders-append s t))

abbrev pub total : List String → ℕ
total [] = 0
total (part ∷ parts) = placeholders part + total parts

total-append : (xs ys : List String) → total (xs ++ ys) ≡ total xs + total ys
total-append [] ys = omega arith
total-append (x ∷ xs) ys = omega (arith, total-append xs ys)

-- A text that brings no placeholder of its own.
abbrev pub IsPlain : String → Type 0
IsPlain s = placeholders s ≡ 0

pub placeholders-append_all :
    (text sep : String) (is_first : Bool) (parts : List String)
    → IsPlain sep
    → placeholders (append_all text sep is_first parts) ≡ placeholders text + total parts
placeholders-append_all text sep is_first [] h = omega arith
placeholders-append_all text sep true (part ∷ parts) h =
    omega (
      arith,
      placeholders-append_all (text # part) sep false parts h,
      placeholders-append text part,
    )
placeholders-append_all text sep false (part ∷ parts) h = omega (
  arith,
  placeholders-append_all (text # sep # part) sep false parts h,
  placeholders-append (text # sep) part,
  placeholders-append text sep,
)

pub placeholders-join :
    (sep : String) (parts : List String) → IsPlain sep → placeholders (join sep parts) ≡ total parts
unfolding join placeholders
placeholders-join sep [] h = refl
placeholders-join sep (part ∷ []) h = omega arith
placeholders-join sep (part ∷ (next ∷ rest)) h = omega (
  arith,
  placeholders-join sep (next ∷ rest) h,
  placeholders-append part (sep # join sep (next ∷ rest)),
  placeholders-append sep (join sep (next ∷ rest)),
)

placeholders-where_text : (parts : List String) → placeholders (where_text parts) ≡ total parts
unfolding placeholders
placeholders-where_text [] = refl
placeholders-where_text (part ∷ parts) = omega (
  arith,
  placeholders-append_all ("" # "WHERE " # part) " AND " false parts refl,
  placeholders-append ("" # "WHERE ") part,
)

abbrev pub IsBalancedWhere : {V : Type 0} → WhereSql V → Type 0
IsBalancedWhere (clause wheres values) = placeholders wheres ≡ length values
IsBalancedWhere w = Unit

module _ {V : Type 0} where
  abbrev pub IsBalanced : QueryBuilder V → Type 0
  IsBalanced b = total b.where_parts ≡ length b.values

  add_part-IsBalanced :
      (b : QueryBuilder V) (part : String) (vs : List V)
      → IsBalanced b
      → placeholders part ≡ length vs
      → IsBalanced (add_part b part vs)
  add_part-IsBalanced b part vs h e =
      omega (arith, total-append b.where_parts (part ∷ []), length-append b.values vs)

  keyed-IsBalanced :
      (b : QueryBuilder V) (key test : String) (vs : List V)
      → IsBalanced b
      → IsPlain key
      → placeholders test ≡ length vs
      → IsBalanced (add_part b (key # test) vs)
  keyed-IsBalanced b key test vs h k e =
      add_part-IsBalanced b (key # test) vs h (omega (arith, placeholders-append key test))

  -- The builders that come from `NewQueryBuilder` by calls whose keys and statements bring no
  -- placeholder, and whose conditions are balanced.
  pub data Built : QueryBuilder V → Type 0 where
    new : Built new_query_builder
    between :
        {b : QueryBuilder V} (key : String) (from to : V)
        → IsPlain key
        → Built b
        → Built (SqlBuilder.between key from to b)
    equals :
        {b : QueryBuilder V} (key : String) (v : V)
        → IsPlain key
        → Built b
        → Built (SqlBuilder.equals key v b)
    not_equals :
        {b : QueryBuilder V} (key : String) (v : V)
        → IsPlain key
        → Built b
        → Built (SqlBuilder.not_equals key v b)
    greater_than :
        {b : QueryBuilder V} (key : String) (v : V)
        → IsPlain key
        → Built b
        → Built (SqlBuilder.greater_than key v b)
    less_than :
        {b : QueryBuilder V} (key : String) (v : V)
        → IsPlain key
        → Built b
        → Built (SqlBuilder.less_than key v b)
    is_in :
        {b : QueryBuilder V} (key : String) (v : V)
        → IsPlain key
        → Built b
        → Built (SqlBuilder.is_in key v b)
    not_in :
        {b : QueryBuilder V} (key : String) (v : V)
        → IsPlain key
        → Built b
        → Built (SqlBuilder.not_in key v b)
    like :
        {b : QueryBuilder V} (key : String) (v : V)
        → IsPlain key
        → Built b
        → Built (SqlBuilder.like key v b)
    not_like :
        {b : QueryBuilder V} (key : String) (v : V)
        → IsPlain key
        → Built b
        → Built (SqlBuilder.not_like key v b)
    exists :
        {b : QueryBuilder V} (key : String)
        → IsPlain key
        → Built b
        → Built (SqlBuilder.exists key b)
    not_exists :
        {b : QueryBuilder V} (key : String)
        → IsPlain key
        → Built b
        → Built (SqlBuilder.not_exists key b)
    contains :
        {b : QueryBuilder V} (key : String) (v : V)
        → IsPlain key
        → Built b
        → Built (SqlBuilder.contains key v b)
    not_contains :
        {b : QueryBuilder V} (key : String) (v : V)
        → IsPlain key
        → Built b
        → Built (SqlBuilder.not_contains key v b)
    in_strings :
        {b : QueryBuilder V} (key : String) (v : V)
        → IsPlain key
        → Built b
        → Built (SqlBuilder.in_strings key v b)
    equals_not_empty :
        {b : QueryBuilder V} (of_text : String → V) (key value : String)
        → IsPlain key
        → Built b
        → Built (SqlBuilder.equals_not_empty of_text key value b)
    statement :
        {b : QueryBuilder V} (part : String)
        → IsPlain part
        → Built b
        → Built (SqlBuilder.statement part b)
    and :
        {b : QueryBuilder V} (w : WhereSql V)
        → IsBalancedWhere w
        → Built b
        → Built (SqlBuilder.and w b)

  and-IsBalanced :
      (w : WhereSql V) (b : QueryBuilder V)
      → IsBalanced b
      → IsBalancedWhere w
      → IsBalanced (SqlBuilder.and w b)
  unfolding SqlBuilder.and placeholders
  and-IsBalanced always_true b h e = h
  and-IsBalanced always_false b h e = add_part-IsBalanced b "FALSE" [] h refl
  and-IsBalanced nil_where b h e = add_part-IsBalanced b "FALSE" [] h refl
  and-IsBalanced (clause wheres vs) b h e = add_part-IsBalanced b wheres vs h e

  equals_not_empty-IsBalanced :
      (of_text : String → V) (key value : String) (b : QueryBuilder V)
      → IsBalanced b
      → IsPlain key
      → IsBalanced (SqlBuilder.equals_not_empty of_text key value b)
  unfolding SqlBuilder.equals_not_empty placeholders
  equals_not_empty-IsBalanced of_text key value b h k = elim (Bool-cases (str_eq value "")) [
    | inl e ↦ rw e h
    | inr e ↦ rw e (keyed-IsBalanced b key " = ?" (of_text value ∷ []) h k refl)
  ]

  Built-IsBalanced : {b : QueryBuilder V} → Built b → IsBalanced b
  unfolding placeholders new_query_builder SqlBuilder.between SqlBuilder.equals
      SqlBuilder.not_equals SqlBuilder.greater_than SqlBuilder.less_than SqlBuilder.is_in
      SqlBuilder.not_in SqlBuilder.like SqlBuilder.not_like SqlBuilder.exists SqlBuilder.not_exists
      SqlBuilder.contains SqlBuilder.not_contains SqlBuilder.in_strings SqlBuilder.statement
  Built-IsBalanced new = refl
  Built-IsBalanced (between {b} key from to k r) =
      keyed-IsBalanced b key " BETWEEN ? AND ?" _ (Built-IsBalanced r) k refl
  Built-IsBalanced (equals {b} key v k r) =
      keyed-IsBalanced b key " = ?" _ (Built-IsBalanced r) k refl
  Built-IsBalanced (not_equals {b} key v k r) =
      keyed-IsBalanced b key " != ?" _ (Built-IsBalanced r) k refl
  Built-IsBalanced (greater_than {b} key v k r) =
      keyed-IsBalanced b key " > ?" _ (Built-IsBalanced r) k refl
  Built-IsBalanced (less_than {b} key v k r) =
      keyed-IsBalanced b key " < ?" _ (Built-IsBalanced r) k refl
  Built-IsBalanced (is_in {b} key v k r) =
      keyed-IsBalanced b key " IN ?" _ (Built-IsBalanced r) k refl
  Built-IsBalanced (not_in {b} key v k r) =
      keyed-IsBalanced b key " NOT IN ?" _ (Built-IsBalanced r) k refl
  Built-IsBalanced (like {b} key v k r) =
      keyed-IsBalanced b key " LIKE ?" _ (Built-IsBalanced r) k refl
  Built-IsBalanced (not_like {b} key v k r) =
      keyed-IsBalanced b key " NOT LIKE ?" _ (Built-IsBalanced r) k refl
  Built-IsBalanced (exists {b} key k r) =
      keyed-IsBalanced b key " EXISTS" [] (Built-IsBalanced r) k refl
  Built-IsBalanced (not_exists {b} key k r) =
      keyed-IsBalanced b key " NOT EXISTS" [] (Built-IsBalanced r) k refl
  Built-IsBalanced (contains {b} key v k r) =
      keyed-IsBalanced b key " contains ?" _ (Built-IsBalanced r) k refl
  Built-IsBalanced (not_contains {b} key v k r) =
      keyed-IsBalanced b key " not contains ?" _ (Built-IsBalanced r) k refl
  Built-IsBalanced (in_strings {b} key v k r) =
      keyed-IsBalanced b key " in ?" _ (Built-IsBalanced r) k refl
  Built-IsBalanced (equals_not_empty {b} of_text key value k r) =
      equals_not_empty-IsBalanced of_text key value b (Built-IsBalanced r) k
  Built-IsBalanced (statement {b} part k r) = add_part-IsBalanced b part [] (Built-IsBalanced r) k
  Built-IsBalanced (and {b} w e r) = and-IsBalanced w b (Built-IsBalanced r) e

  placeholders-query_text : (b : QueryBuilder V) → placeholders (query_text b) ≡ total b.where_parts
  unfolding query_text placeholders
  placeholders-query_text b = placeholders-where_text b.where_parts

  -- The text of a builder has one placeholder for each of its values, however it was built from a new
  -- one by calls whose keys and statements have no `?`, and whose conditions for `And` have one
  -- placeholder for each of their own values.
  pub Built-placeholders :
      {b : QueryBuilder V} → Built b → placeholders (query_text b) ≡ length b.values
  Built-placeholders {b} r = placeholders-query_text b ∙ Built-IsBalanced r
