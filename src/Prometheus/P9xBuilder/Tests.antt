-- ===== src/Prometheus/P9xBuilder/Tests.antt =====
-- A union of two queries.
use apo.Common.{String, some, List, [], ◌∷◌, ◌≡◌, refl, length, join, ◌#◌}
use apo.Prometheus.P9xBuilder.{
  UnionP9xBuilder, add_condition, add_extra_condition, new_union_p9x_builder, to_string,
  count_mismatch,
}
use apo.Prometheus.P9xBuilder.Bounds.{new, conditioned, extended}
use apo.Prometheus.P9xBuilder.Queries.{IsQueriesFrom, union_of, to_string-union_of}

abbrev base : UnionP9xBuilder
base = new_union_p9x_builder "0.9" "kindling_bucket" ("vmrange" ∷ []) 300_000_000_000

abbrev by_service : UnionP9xBuilder
by_service = (add_condition "svc_name" ("a" ∷ "b" ∷ []) base).0

abbrev in_cluster : UnionP9xBuilder
in_cluster = add_extra_condition "cluster='x'" by_service

second_error : (add_condition "pod" ("p" ∷ []) by_service).1 ≡ some (count_mismatch "pod" 2 1)
unfolding add_condition new_union_p9x_builder
second_error = refl

two_queries :
    to_string in_cluster
    ≡ some (
        "union(histogram_quantile(0.9, sum by(vmrange) (increase(kindling_bucket{"
        # "svc_name='a', cluster='x'}[5m]))),"
        # "histogram_quantile(0.9, sum by(vmrange) (increase(kindling_bucket{"
        # "svc_name='b', cluster='x'}[5m]))))")
unfolding to_string add_condition add_extra_condition new_union_p9x_builder
two_queries = refl

to_string-union_of_example :
    (queries : List String) × (length queries ≡ in_cluster.count)
    × IsQueriesFrom in_cluster 0 queries
    × (to_string in_cluster ≡ some (union_of in_cluster.count (join "," queries)))
to_string-union_of_example = to_string-union_of {b = in_cluster} (
    extended {b = by_service} "cluster='x'" (
      conditioned {b = base} "svc_name" ("a" ∷ "b" ∷ [])
        (new "0.9" "kindling_bucket" ("vmrange" ∷ []) 300_000_000_000)))
