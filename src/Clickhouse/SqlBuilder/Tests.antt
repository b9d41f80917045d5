-- ===== src/Clickhouse/SqlBuilder/Tests.antt =====
-- Queries at concrete calls.
use apo.Common.{join, String, false, ◌≡◌, refl, [], ◌∷◌, length, List}
use apo.Clickhouse.SqlBuilder.{
  alias, equals_where, equals_if_not_empty, fields, fields_text, in_group, in_where, not_like_where,
  new_by_limit_builder, group_by, order_by, limit, by_limit_text, new_query_builder, query_text,
  QueryBuilder, WhereSql, clause, always_true, always_false,
}
use apo.Clickhouse.SqlBuilder.Merge.{merge_wheres_lem, and_sep, or_sep, merge_wheres, sep_text}
use apo.Clickhouse.SqlBuilder.Placeholders.{total, Built, Built-placeholders, placeholders}
use apo.Clickhouse.SqlBuilder

abbrev by_name : WhereSql String
by_name = clause "name = ?" ("a" ∷ [])

abbrev by_time : WhereSql String
by_time = clause "ts BETWEEN ? AND ?" ("1" ∷ "2" ∷ [])

abbrev query : QueryBuilder String
query = SqlBuilder.and by_time (SqlBuilder.equals "svc" "x" new_query_builder)

text_of_query : query_text query ≡ "WHERE svc = ? AND ts BETWEEN ? AND ?"
unfolding query_text SqlBuilder.and SqlBuilder.equals new_query_builder
text_of_query = refl

text_of_limit :
    by_limit_text (limit 10 (order_by "ts" false (group_by ("a" ∷ "b" ∷ []) new_by_limit_builder)))
    ≡ " GROUP BY a, b ORDER BY ts DESC LIMIT 10"
unfolding by_limit_text limit order_by group_by new_by_limit_builder
text_of_limit = refl

merged_text :
    merge_wheres or_sep (by_name ∷ always_false ∷ by_time ∷ [])
    ≡ clause "(name = ? OR ts BETWEEN ? AND ?)" ("a" ∷ "1" ∷ "2" ∷ [])
unfolding merge_wheres
merged_text = refl

Built-placeholders_example : placeholders (query_text query) ≡ length query.values
unfolding placeholders
Built-placeholders_example =
    Built-placeholders (Built.and by_time refl (Built.equals "svc" "x" refl Built.new))

merge_wheres_lem_example :
    (merge_wheres and_sep (by_name ∷ always_true ∷ by_time ∷ [])
      ≡ clause "(name = ? AND ts BETWEEN ? AND ?)" ("a" ∷ "1" ∷ "2" ∷ []))
    × (merge_wheres or_sep (by_name ∷ always_true ∷ by_time ∷ []) ≡ always_true)
unfolding sep_text join
merge_wheres_lem_example = merge_wheres_lem (by_name ∷ always_true ∷ by_time ∷ [])

abbrev as_value : String → String
as_value text = text

abbrev pods : List String → String
pods values = "pods"

abbrev pairs : List (List String) → String
pairs groups = "pairs"

in_pods : in_where pods "pod" ("a" ∷ "b" ∷ []) ≡ clause "pod IN ?" ("pods" ∷ [])
unfolding in_where
in_pods = refl

in_pairs :
    in_group pairs ("pod" ∷ "node" ∷ []) (("a" ∷ "n" ∷ []) ∷ [])
    ≡ clause "(pod,node) IN ?" ("pairs" ∷ [])
unfolding in_group
in_pairs = refl

selected : fields_text (fields ("c" ∷ []) (alias "a" "x" [])) ≡ "a as x, c"
unfolding fields_text fields alias
selected = refl

pod_plain : placeholders "pod" ≡ 0
unfolding placeholders
pod_plain = refl

keys_plain : total ("pod" ∷ "node" ∷ []) ≡ 0
unfolding placeholders
keys_plain = refl
