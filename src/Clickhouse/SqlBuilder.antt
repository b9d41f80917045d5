-- ===== src/Clickhouse/SqlBuilder.antt =====
-- sql_builder.go: the builders of SELECT lists, WHERE clauses and LIMIT clauses, and the merging
-- of conditions. `V` is the type of the values that are bound to the placeholders of a query.
pub mod Placeholders
pub mod Merge
pub mod Conditions
pub mod Tests
use text.Mathlib.Text.{◌==◌}
use apo.Common.{
  ℕ, zero, suc, String, Bool, true, false, ◌&&◌, Option, none, some, List, [], ◌∷◌, ◌++◌, ltb,
  if◌then◌else◌, show, ◌#◌, join,
}

-- FieldBuilder
unfoldable pub alias : String → String → List String → List String
alias key name fields = fields ++ (key # " as " # name) ∷ []

unfoldable pub fields : List String → List String → List String
fields keys old = old ++ keys

-- The loops of the `String` methods append to one text, with a separator before all but the first.
abbrev pub append_all : String → String → Bool → List String → String
append_all text sep is_first [] = text
append_all text sep true (part ∷ parts) = append_all (text # part) sep false parts
append_all text sep false (part ∷ parts) = append_all (text # sep # part) sep false parts

unfoldable pub fields_text : List String → String
fields_text parts = append_all "" ", " true parts

-- "WHERE " before the first part, " AND " before each other one.
abbrev pub where_text : List String → String
where_text [] = ""
where_text (part ∷ parts) = append_all ("" # "WHERE " # part) " AND " false parts

pub record QueryBuilder (V : Type 0) : Type 0 where
  pub where_parts : List String
  pub values : List V

pub data WhereSql (V : Type 0) : Type 0 where
  always_true always_false nil_where : WhereSql V
  clause : String → List V → WhereSql V

-- clickhouse.GroupSet and clickhouse.ArraySet make one value of several.
module _ {V : Type 0} where
  unfoldable pub new_query_builder : QueryBuilder V
  new_query_builder = record { where_parts = []; values = [] }

  abbrev pub add_part : QueryBuilder V → String → List V → QueryBuilder V
  add_part b part vs = record { where_parts = b.where_parts ++ part ∷ []; values = b.values ++ vs }

  unfoldable pub between : String → V → V → QueryBuilder V → QueryBuilder V
  between key from to b = add_part b (key # " BETWEEN ? AND ?") (from ∷ to ∷ [])

  unfoldable pub equals : String → V → QueryBuilder V → QueryBuilder V
  equals key value b = add_part b (key # " = ?") (value ∷ [])

  unfoldable pub not_equals : String → V → QueryBuilder V → QueryBuilder V
  not_equals key value b = add_part b (key # " != ?") (value ∷ [])

  unfoldable pub greater_than : String → V → QueryBuilder V → QueryBuilder V
  greater_than key value b = add_part b (key # " > ?") (value ∷ [])

  unfoldable pub less_than : String → V → QueryBuilder V → QueryBuilder V
  less_than key value b = add_part b (key # " < ?") (value ∷ [])

  unfoldable pub is_in : String → V → QueryBuilder V → QueryBuilder V
  is_in key values b = add_part b (key # " IN ?") (values ∷ [])

  unfoldable pub not_in : String → V → QueryBuilder V → QueryBuilder V
  not_in key values b = add_part b (key # " NOT IN ?") (values ∷ [])

  unfoldable pub like : String → V → QueryBuilder V → QueryBuilder V
  like key values b = add_part b (key # " LIKE ?") (values ∷ [])

  unfoldable pub not_like : String → V → QueryBuilder V → QueryBuilder V
  not_like key values b = add_part b (key # " NOT LIKE ?") (values ∷ [])

  unfoldable pub exists : String → QueryBuilder V → QueryBuilder V
  exists key b = add_part b (key # " EXISTS") []

  unfoldable pub not_exists : String → QueryBuilder V → QueryBuilder V
  not_exists key b = add_part b (key # " NOT EXISTS") []

  unfoldable pub contains : String → V → QueryBuilder V → QueryBuilder V
  contains key value b = add_part b (key # " contains ?") (value ∷ [])

  unfoldable pub not_contains : String → V → QueryBuilder V → QueryBuilder V
  not_contains key value b = add_part b (key # " not contains ?") (value ∷ [])

  unfoldable pub in_strings : String → V → QueryBuilder V → QueryBuilder V
  in_strings key values b = add_part b (key # " in ?") (values ∷ [])

  -- The functions that return a `*whereSQL`. `of_text` is a text as a value.
  unfoldable pub not_like_where : (of_text : String → V) → String → String → WhereSql V
  not_like_where of_text key value = clause (key # " NOT LIKE ?") (of_text value ∷ [])

  unfoldable pub in_where : (of_array : List V → V) → String → List V → WhereSql V
  in_where of_array key [] = if key == "" then always_true else always_false
  in_where of_array key (v ∷ vs) =
      if key == "" then always_true else clause (key # " IN ?") (of_array (v ∷ vs) ∷ [])

  unfoldable pub in_group :
      (of_groups : List (List V) → V) → List String → List (List V) → WhereSql V
  unfolding join
  in_group of_groups [] groups = always_true
  in_group of_groups (k ∷ ks) [] = always_false
  in_group of_groups (k ∷ ks) (g ∷ gs) =
      clause ("(" # join "," (k ∷ ks) # ") IN ?") (of_groups (g ∷ gs) ∷ [])

  unfoldable pub equals_if_not_empty : (of_text : String → V) → String → String → WhereSql V
  equals_if_not_empty of_text key value =
      if key == ""
      then always_true
      else if value == ""
      then always_true
      else clause (key # " = ?") (of_text value ∷ [])

  unfoldable pub equals_where : (of_text : String → V) → String → String → WhereSql V
  equals_where of_text key value =
      if key == "" then always_true else clause (key # " = ?") (of_text value ∷ [])

  unfoldable pub and : WhereSql V → QueryBuilder V → QueryBuilder V
  and nil_where b = add_part b "FALSE" []
  and always_false b = add_part b "FALSE" []
  and always_true b = b
  and (clause wheres values) b = add_part b wheres values

  unfoldable pub equals_not_empty :
      (of_text : String → V) → String → String → QueryBuilder V → QueryBuilder V
  equals_not_empty of_text key value b =
      if value == "" then b else add_part b (key # " = ?") (of_text value ∷ [])

  unfoldable pub statement : String → QueryBuilder V → QueryBuilder V
  statement part b = add_part b part []

  unfoldable pub query_text : QueryBuilder V → String
  query_text b = where_text b.where_parts

pub record ByLimitBuilder : Type 0 where
  pub group_by : List String
  pub order : List String
  pub limit : ℕ
  pub offset : ℕ

unfoldable pub new_by_limit_builder : ByLimitBuilder
new_by_limit_builder = record { group_by = []; order = []; limit = 0; offset = 0 }

unfoldable pub group_by : List String → ByLimitBuilder → ByLimitBuilder
group_by keys b = record b { group_by = b.group_by ++ keys }

unfoldable pub order_by : String → Bool → ByLimitBuilder → ByLimitBuilder
order_by key asc b = record b {
  order = b.order ++ (key # " " # (if asc then "ASC" else "DESC")) ∷ [];
}

unfoldable pub limit : ℕ → ByLimitBuilder → ByLimitBuilder
limit n b = record b { limit = n }

unfoldable pub offset : ℕ → ByLimitBuilder → ByLimitBuilder
offset n b = record b { offset = n }

-- A list after its keyword, or nothing where the list is empty.
abbrev pub with_keyword : String → String → List String → String
with_keyword text keyword [] = text
with_keyword text keyword (part ∷ parts) = append_all (text # keyword # part) ", " false parts

unfoldable pub by_limit_text : ByLimitBuilder → String
unfolding show
by_limit_text b =
    let grouped = with_keyword "" " GROUP BY " b.group_by in
    let ordered = with_keyword grouped " ORDER BY " b.order in
    let limited = if ltb 0 b.limit then ordered # (" LIMIT " # show b.limit) else ordered in
    if ltb 0 b.offset then limited # (" OFFSET " # show b.offset) else limited
