-- ===== src/Clickhouse/SqlBuilder/Conditions.antt =====
-- The conditions that the functions of sql_builder.go make.
use text.Mathlib.Text.{◌==◌ as str_eq}
use apo.Common.{◌∙◌, String, ◌≡◌, refl, List, [], ◌∷◌, arith, join, ◌#◌, Bool-cases, inl, inr}
use apo.Clickhouse.SqlBuilder.{
  equals_if_not_empty, equals_where, in_group, in_where, not_like_where,
}
use apo.Clickhouse.SqlBuilder.Placeholders.{
  placeholders-join, placeholders-append, IsBalancedWhere, IsPlain, total, placeholders,
}

module _ {V : Type 0} where
  in_where-IsBalancedWhere :
      (of_array : List V → V) (key : String) (values : List V)
      → IsPlain key
      → IsBalancedWhere (in_where of_array key values)
  unfolding in_where placeholders
  in_where-IsBalancedWhere of_array key [] plain = elim (Bool-cases (str_eq key "")) [
    | inl e ↦ rw e tt
    | inr e ↦ rw e tt
  ]
  in_where-IsBalancedWhere of_array key (v ∷ vs) plain = elim (Bool-cases (str_eq key "")) [
    | inl e ↦ rw e tt
    | inr e ↦ rw e (placeholders-append key " IN ?" ∙ rw plain refl)
  ]

  in_group-IsBalancedWhere :
      (of_groups : List (List V) → V) (keys : List String) (groups : List (List V))
      → total keys ≡ 0
      → IsBalancedWhere (in_group of_groups keys groups)
  unfolding in_group placeholders
  in_group-IsBalancedWhere of_groups [] groups plain = tt
  in_group-IsBalancedWhere of_groups (k ∷ ks) [] plain = tt
  in_group-IsBalancedWhere of_groups (k ∷ ks) (g ∷ gs) plain =
      placeholders-append ("(" # join "," (k ∷ ks)) ") IN ?"
      ∙ rw (placeholders-append "(" (join "," (k ∷ ks)))
          (rw (placeholders-join "," (k ∷ ks) refl) (omega arith))

  equals_if_not_empty-IsBalancedWhere :
      (of_text : String → V) (key value : String)
      → IsPlain key
      → IsBalancedWhere (equals_if_not_empty of_text key value)
  unfolding equals_if_not_empty placeholders
  equals_if_not_empty-IsBalancedWhere of_text key value plain = elim (Bool-cases (str_eq key "")) [
    | inl e ↦ rw e tt
    | inr e ↦ elim (Bool-cases (str_eq value "")) [
      | inl missing ↦ rw (e, missing) tt
      | inr given ↦ rw (e, given) (placeholders-append key " = ?" ∙ rw plain refl)
    ]
  ]

  equals_where-IsBalancedWhere :
      (of_text : String → V) (key value : String)
      → IsPlain key
      → IsBalancedWhere (equals_where of_text key value)
  unfolding equals_where placeholders
  equals_where-IsBalancedWhere of_text key value plain = elim (Bool-cases (str_eq key "")) [
    | inl e ↦ rw e tt
    | inr e ↦ rw e (placeholders-append key " = ?" ∙ rw plain refl)
  ]

  -- The conditions that `NotLike`, `In`, `InGroup`, `EqualsIfNotEmpty` and `Equals` return have as
  -- many placeholders as values, when the keys have no placeholder of their own.
  pub conditions-IsBalancedWhere :
      (of_text : String → V) (of_array : List V → V) (of_groups : List (List V) → V)
      (key value : String) (keys : List String) (values : List V) (groups : List (List V))
      → IsPlain key
      → total keys ≡ 0
      → IsBalancedWhere (not_like_where of_text key value)
        × IsBalancedWhere (in_where of_array key values)
        × IsBalancedWhere (in_group of_groups keys groups)
        × IsBalancedWhere (equals_if_not_empty of_text key value)
        × IsBalancedWhere (equals_where of_text key value)
  unfolding not_like_where placeholders
  conditions-IsBalancedWhere of_text of_array of_groups key value keys values groups plain plains =
      (
        placeholders-append key " NOT LIKE ?" ∙ rw plain refl,
        in_where-IsBalancedWhere of_array key values plain,
        in_group-IsBalancedWhere of_groups keys groups plains,
        equals_if_not_empty-IsBalancedWhere of_text key value plain,
        equals_where-IsBalancedWhere of_text key value plain,
      )
