-- ===== src/Clickhouse/SqlBuilder/Merge.antt =====
-- `MergeWheres` of sql_builder.go: conditions joined by AND or by OR. `ALWAYS_TRUE` and
-- `ALWAYS_FALSE` are told apart by their addresses, which are constructors here.
use mathlib.Core.List.{append_assoc, append-nil}
use apo.Common.{
  join, ◌#◌, ap, ◌∙◌, String, Bool, true, false, ◌&&◌, ◌≡◌, refl, List, [], ◌∷◌, ◌++◌, arith,
  if◌then◌else◌, any, length, length-append, All,
}
use apo.Clickhouse.SqlBuilder.{WhereSql, always_true, always_false, nil_where, clause}
use apo.Clickhouse.SqlBuilder.Placeholders.{
  IsBalancedWhere, placeholders, placeholders-append, placeholders-join, total,
}

pub data MergeSep : Type 0 where
  and_sep or_sep : MergeSep

unfoldable pub sep_text : MergeSep → String
sep_text and_sep = " AND "
sep_text or_sep = " OR "

sep_text-IsPlain : (sep : MergeSep) → placeholders (sep_text sep) ≡ 0
unfolding sep_text placeholders
sep_text-IsPlain and_sep = refl
sep_text-IsPlain or_sep = refl

-- The variables of the loop.
pub record MergeState (V : Type 0) : Type 0 where
  pub wheres : List String
  pub values : List V
  pub all_false : Bool
  pub all_true : Bool

abbrev pub is_none {ℓ} : {A : Type ℓ} → List A → Bool
is_none [] = true
is_none (x ∷ xs) = false

module _ {V : Type 0} where
  abbrev merged : MergeSep → List String → List V → WhereSql V
  merged sep wheres values = clause ("(" # join (sep_text sep) wheres # ")") values

  -- What the function does after the loop.
  merge_end : MergeSep → MergeState V → WhereSql V
  unfolding sep_text join
  merge_end sep s =
      if s.all_true
      then always_true
      else if s.all_false
      then always_false
      else if is_none s.wheres
      then always_true
      else merged sep s.wheres s.values

  abbrev with_clause : MergeState V → String → List V → MergeState V
  with_clause s w vs = record {
    wheres = s.wheres ++ w ∷ [];
    values = s.values ++ vs;
    all_false = false;
    all_true = false;
  }

  merge_loop : MergeSep → MergeState V → List (WhereSql V) → WhereSql V
  unfolding merge_end
  merge_loop sep s [] = merge_end sep s
  merge_loop and_sep s (nil_where ∷ rest) = always_false
  merge_loop and_sep s (always_false ∷ rest) = always_false
  merge_loop and_sep s (always_true ∷ rest) =
      merge_loop and_sep (record s { all_false = false }) rest
  merge_loop and_sep s (clause w vs ∷ rest) = merge_loop and_sep (with_clause s w vs) rest
  merge_loop or_sep s (nil_where ∷ rest) = merge_loop or_sep (record s { all_true = false }) rest
  merge_loop or_sep s (always_false ∷ rest) = merge_loop or_sep (record s { all_true = false }) rest
  merge_loop or_sep s (always_true ∷ rest) = always_true
  merge_loop or_sep s (clause w vs ∷ rest) = merge_loop or_sep (with_clause s w vs) rest

  unfoldable pub merge_wheres : MergeSep → List (WhereSql V) → WhereSql V
  unfolding merge_loop
  merge_wheres sep [] = always_true
  merge_wheres sep (w ∷ ws) =
      merge_loop sep (record { wheres = []; values = []; all_false = true; all_true = true })
        (w ∷ ws)

  -- The parts of the specification: the two constants, and the conditions that are neither.
  abbrev pub is_false : WhereSql V → Bool
  is_false nil_where = true
  is_false always_false = true
  is_false w = false

  abbrev pub is_true : WhereSql V → Bool
  is_true always_true = true
  is_true w = false

  abbrev pub texts : List (WhereSql V) → List String
  texts [] = []
  texts (clause w vs ∷ rest) = w ∷ texts rest
  texts (w ∷ rest) = texts rest

  abbrev pub bound : List (WhereSql V) → List V
  bound [] = []
  bound (clause w vs ∷ rest) = vs ++ bound rest
  bound (w ∷ rest) = bound rest

  abbrev pub join_or : WhereSql V → MergeSep → List String → List V → WhereSql V
  join_or empty sep [] values = empty
  join_or empty sep (w ∷ ws) values = clause ("(" # join (sep_text sep) (w ∷ ws) # ")") values

  -- A conjunction: false if a part is false or missing, true if all parts are true.
  abbrev pub conjunction : List (WhereSql V) → WhereSql V
  conjunction ws =
      if any is_false ws then always_false else join_or always_true and_sep (texts ws) (bound ws)

  -- A disjunction: true if a part is true or there is none, false if all parts are false.
  abbrev pub disjunction : List (WhereSql V) → WhereSql V
  disjunction [] = always_true
  disjunction (w ∷ ws) =
      if any is_true (w ∷ ws)
      then always_true
      else join_or always_false or_sep (texts (w ∷ ws)) (bound (w ∷ ws))

  -- The state that the loop ends in, if it does not return early.
  abbrev and_state : MergeState V → List (WhereSql V) → MergeState V
  and_state s ws = record {
    wheres = s.wheres ++ texts ws;
    values = s.values ++ bound ws;
    all_false = s.all_false && is_none ws;
    all_true = s.all_true && is_none (texts ws);
  }

  and_loop :
      (s : MergeState V) (ws : List (WhereSql V))
      → merge_loop and_sep s ws
        ≡ (if any is_false ws then always_false else merge_end and_sep (and_state s ws))
  unfolding merge_loop
  and_loop s [] = ground (arith, append-nil s.wheres, append-nil s.values)
  and_loop s (nil_where ∷ rest) = refl
  and_loop s (always_false ∷ rest) = refl
  and_loop s (always_true ∷ rest) = ground (arith, and_loop (record s { all_false = false }) rest)
  and_loop s (clause w vs ∷ rest) = ground (
    arith,
    and_loop (with_clause s w vs) rest,
    append_assoc s.wheres (w ∷ []) (texts rest),
    append_assoc s.values vs (bound rest),
  )

  abbrev or_state : MergeState V → List (WhereSql V) → MergeState V
  or_state s ws = record {
    wheres = s.wheres ++ texts ws;
    values = s.values ++ bound ws;
    all_false = s.all_false && is_none (texts ws);
    all_true = s.all_true && is_none ws;
  }

  or_loop :
      (s : MergeState V) (ws : List (WhereSql V))
      → merge_loop or_sep s ws
        ≡ (if any is_true ws then always_true else merge_end or_sep (or_state s ws))
  unfolding merge_loop
  or_loop s [] = ground (arith, append-nil s.wheres, append-nil s.values)
  or_loop s (nil_where ∷ rest) = ground (arith, or_loop (record s { all_true = false }) rest)
  or_loop s (always_false ∷ rest) = ground (arith, or_loop (record s { all_true = false }) rest)
  or_loop s (always_true ∷ rest) = refl
  or_loop s (clause w vs ∷ rest) = ground (
    arith,
    or_loop (with_clause s w vs) rest,
    append_assoc s.wheres (w ∷ []) (texts rest),
    append_assoc s.values vs (bound rest),
  )

  abbrev start : MergeState V
  start = record { wheres = []; values = []; all_false = true; all_true = true }

  end_and :
      (ts : List String) (vs : List V)
      → merge_end and_sep
          (record { wheres = ts; values = vs; all_false = false; all_true = is_none ts })
        ≡ join_or always_true and_sep ts vs
  unfolding merge_end
  end_and [] vs = refl
  end_and (t ∷ ts) vs = refl

  end_or :
      (ts : List String) (vs : List V)
      → merge_end or_sep
          (record { wheres = ts; values = vs; all_false = is_none ts; all_true = false })
        ≡ join_or always_false or_sep ts vs
  unfolding merge_end
  end_or [] vs = refl
  end_or (t ∷ ts) vs = refl

  -- Whatever the conditions, the loop with its two flags and its early returns computes the
  -- conjunction, and with the other separator the disjunction.
  pub merge_wheres_lem :
      (ws : List (WhereSql V))
      → (merge_wheres and_sep ws ≡ conjunction ws) × (merge_wheres or_sep ws ≡ disjunction ws)
  unfolding merge_wheres merge_end
  merge_wheres_lem [] = (refl, refl)
  merge_wheres_lem (w ∷ ws) = (
    and_loop start (w ∷ ws)
        ∙ ap (λ e. if any is_false (w ∷ ws) then always_false else e)
            (end_and (texts (w ∷ ws)) (bound (w ∷ ws))),
    or_loop start (w ∷ ws)
        ∙ ap (λ e. if any is_true (w ∷ ws) then always_true else e)
            (end_or (texts (w ∷ ws)) (bound (w ∷ ws))),
  )

  total-texts :
      (ws : List (WhereSql V)) → All IsBalancedWhere ws → total (texts ws) ≡ length (bound ws)
  total-texts [] a = refl
  total-texts (clause w vs ∷ rest) (b, a) =
      omega (arith, total-texts rest a, length-append vs (bound rest))
  total-texts (nil_where ∷ rest) (b, a) = total-texts rest a
  total-texts (always_true ∷ rest) (b, a) = total-texts rest a
  total-texts (always_false ∷ rest) (b, a) = total-texts rest a

  join_or-IsBalancedWhere :
      (empty : WhereSql V) (sep : MergeSep) (parts : List String) (values : List V)
      → IsBalancedWhere empty
      → total parts ≡ length values
      → IsBalancedWhere (join_or empty sep parts values)
  unfolding placeholders
  join_or-IsBalancedWhere empty sep [] values b h = b
  join_or-IsBalancedWhere empty sep (w ∷ ws) values b h = omega (
    arith,
    h,
    placeholders-append ("(" # join (sep_text sep) (w ∷ ws)) ")",
    placeholders-append "(" (join (sep_text sep) (w ∷ ws)),
    placeholders-join (sep_text sep) (w ∷ ws) (sep_text-IsPlain sep),
  )

  if-IsBalancedWhere :
      (b : Bool) (x y : WhereSql V)
      → IsBalancedWhere x
      → IsBalancedWhere y
      → IsBalancedWhere (if b then x else y)
  if-IsBalancedWhere true x y p q = p
  if-IsBalancedWhere false x y p q = q

  -- Balanced conditions are merged into a balanced one, by either separator.
  pub merge_wheres-IsBalancedWhere :
      (sep : MergeSep) (ws : List (WhereSql V))
      → All IsBalancedWhere ws
      → IsBalancedWhere (merge_wheres sep ws)
  merge_wheres-IsBalancedWhere and_sep ws a = rw ((merge_wheres_lem ws).0) (
      if-IsBalancedWhere (any is_false ws) always_false _ tt
        (join_or-IsBalancedWhere always_true and_sep (texts ws) (bound ws) tt (total-texts ws a)))
  merge_wheres-IsBalancedWhere or_sep [] a = rw ((merge_wheres_lem []).1) tt
  merge_wheres-IsBalancedWhere or_sep (w ∷ ws) a = rw ((merge_wheres_lem (w ∷ ws)).1) (
      if-IsBalancedWhere (any is_true (w ∷ ws)) always_true _ tt (
        join_or-IsBalancedWhere always_false or_sep (texts (w ∷ ws)) (bound (w ∷ ws)) tt
          (total-texts (w ∷ ws) a)))
