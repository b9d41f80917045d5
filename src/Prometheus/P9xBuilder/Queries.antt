-- ===== src/Prometheus/P9xBuilder/Queries.antt =====
-- The text of `ToString` of p9x_builder.go, against its list of queries.
use apo.Common.{
  Bool, nil-append, text_append_assoc, ltb, text_append-nil, true, some, length, suc, ◌<◌, ◌∷◌, ◌≡◌,
  String, join, false, ℕ, zero, ◌+◌, ◌≤◌, refl, sym, ap, ◌∙◌, List, [], arith, ◌#◌, if◌then◌else◌,
}
use apo.Prometheus.P9xBuilder.{◌>>=◌, write_query, UnionP9xBuilder, to_string, write_queries}
use apo.Prometheus.P9xBuilder.Bounds.{
  Made, Made-IsValid, IsValid, query_with, write_query-query_with, write_conditions_total,
}

-- The texts of the queries at the positions from `i` on, each written on its own.
abbrev pub IsQueriesFrom : UnionP9xBuilder → ℕ → List String → Type 0
IsQueriesFrom b i [] = Unit
IsQueriesFrom b i (query ∷ queries) =
    (write_query b i "" ≡ some query) × IsQueriesFrom b (suc i) queries

-- `union(…)` around more than one query.
abbrev pub union_of : ℕ → String → String
union_of count text = if ltb 1 count then "union(" # text # ")" else text

abbrev after_commas : List String → String
after_commas [] = ""
after_commas (query ∷ queries) = "," # query # after_commas queries

join-after_commas :
    (query : String) (queries : List String)
    → join "," (query ∷ queries) ≡ query # after_commas queries
unfolding join
join-after_commas query [] = sym (text_append-nil query)
join-after_commas query (next ∷ queries) =
    rw (join-after_commas next queries) (simp (text_append_assoc))

write_query_total :
    (b : UnionP9xBuilder) (i : ℕ) (text : String)
    → IsValid b
    → i < b.count
    → (query : String) × (write_query b i "" ≡ some query)
      × (write_query b i text ≡ some (text # query))
write_query_total b i text v h =
    let (written, e) = write_conditions_total b.count i "" true b.conditions h v.uniform in
    (
      query_with b written,
      write_query-query_with b i "" written e ∙ ap some (nil-append (query_with b written)),
      write_query-query_with b i text written e,
    )

later_queries :
    (b : UnionP9xBuilder) (left i : ℕ) (text : String)
    → IsValid b
    → suc i + left ≤ b.count
    → (queries : List String) × (length queries ≡ left)
      × IsQueriesFrom b (suc i) queries
      × (write_queries b left (suc i) text ≡ some (text # after_commas queries))
unfolding write_queries
later_queries b zero i text v h = ([], refl, tt, ap some (sym (text_append-nil text)))
later_queries b (suc left) i text v h =
    let (query, alone, after) = write_query_total b (suc i) (text # ",") v (omega arith) in
    let (queries, size, each, e) =
      later_queries b left (suc i) (text # "," # query) v (omega arith) in
    (
      query ∷ queries,
      omega arith,
      (alone, each),
      ap (λ o. o >>= write_queries b left (suc (suc i))) after
          ∙ (e ∙ ap some (simp (text_append_assoc))),
    )

all_queries :
    (b : UnionP9xBuilder) (count : ℕ) (text : String)
    → IsValid b
    → count ≡ b.count
    → (queries : List String) × (length queries ≡ count)
      × IsQueriesFrom b 0 queries
      × (write_queries b count 0 text ≡ some (text # join "," queries))
unfolding write_queries join
all_queries b zero text v h = ([], refl, tt, ap some (sym (text_append-nil text)))
all_queries b (suc left) text v h =
    let (query, alone, after) = write_query_total b 0 (text # "") v (omega arith) in
    let (queries, size, each, e) = later_queries b left 0 (text # "" # query) v (omega arith) in
    (
      query ∷ queries,
      omega arith,
      (alone, each),
      ap (λ o. o >>= write_queries b left 1) after
          ∙ (e
              ∙ ap some (
                  rw (join-after_commas query queries)
                    (rw (text_append-nil text) (simp (text_append_assoc))))),
    )

close :
    (many : Bool) (text : String)
    → some (
        if many
        then (if many then "union(" else "") # text # ")"
        else (if many then "union(" else "") # text)
      ≡ some (if many then "union(" # text # ")" else text)
close true text = refl
close false text = ap some (nil-append text)

-- For every builder that the operations make, `ToString` never indexes past the end of a value
-- list: it returns the queries of the positions below the count, each as it is written on its
-- own, joined by commas, inside `union(…)` when there is more than one.
pub to_string-union_of :
    {b : UnionP9xBuilder}
    → Made b
    → (queries : List String) × (length queries ≡ b.count)
      × IsQueriesFrom b 0 queries
      × (to_string b ≡ some (union_of b.count (join "," queries)))
unfolding to_string
to_string-union_of {b} made =
    let (queries, size, each, e) =
      all_queries b b.count (if ltb 1 b.count then "union(" else "") (Made-IsValid made) refl in
    (
      queries,
      size,
      each,
      ap (λ o. o >>= λ text. some (if ltb 1 b.count then text # ")" else text)) e
          ∙ close (ltb 1 b.count) (join "," queries),
    )
