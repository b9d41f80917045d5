-- ===== src/Kubernetes/RuleApi/OneMap.antt =====
-- A cluster of one config map, and its client.
use text.Mathlib.Text.{◌==◌}
use apo.Common.{
  sym, Bool, eq_of_ok, ◌⊎◌, Dict, Option, String, ◌≡◌, string_eq, refl, none, some, true, false, ap,
  if◌then◌else◌, ok, err, inl, inr, Bool-cases,
}
use apo.Kubernetes.ConfigMaps.{
  written, Client, IsClient, Write, not_written, panicked, distinct_keys, ConfigData,
}

pub record Cluster : Type 0 where
  pub content : Dict String String
  pub distinct : distinct_keys content ≡ true

abbrev pub data_of : String → Cluster → ConfigData
data_of name c = if name == "rules-cm" then some c.content else none

abbrev pub decided : (b : Bool) → (b ≡ true) ⊎ (b ≡ false)
decided true = inl refl
decided false = inr refl

abbrev pub stored_if :
    (d : Dict String String)
    → Cluster
    → (distinct_keys d ≡ true) ⊎ (distinct_keys d ≡ false)
    → Write Cluster
stored_if d c (inl e) = written (record { content = d; distinct = e })
stored_if d c (inr e) = not_written "invalid" c

abbrev pub stored_as : ConfigData → Cluster → Write Cluster
stored_as none c = not_written "no data" c
stored_as (some d) c = stored_if d c (decided (distinct_keys d))

abbrev pub after_mutation : Option ConfigData → Cluster → Write Cluster
after_mutation none c = panicked
after_mutation (some d) c = stored_as d c

abbrev pub client : Client Cluster
client = record {
  get = λ name c. if name == "rules-cm" then ok (some c.content) else err "not found";
  create_or_update = λ name mutate c.
      if name == "rules-cm"
      then after_mutation (mutate (some c.content)) c
      else not_written "no such config map" c;
}

eq_of_written : {C : Type 0} {a b : C} → written a ≡ written b → a ≡ b
eq_of_written h = cc

stored_if_lem :
    (d : Dict String String) (c c2 : Cluster)
    (o : (distinct_keys d ≡ true) ⊎ (distinct_keys d ≡ false))
    → stored_if d c o ≡ written c2
    → d ≡ c2.content
stored_if_lem d c c2 (inl e) h = ap Cluster.content (eq_of_written h)
stored_if_lem d c c2 (inr e) h = absurd (cc h)

stored_as_lem : (d : ConfigData) (c c2 : Cluster) → stored_as d c ≡ written c2 → d ≡ some c2.content
stored_as_lem none c c2 h = absurd (cc h)
stored_as_lem (some d) c c2 h = ap some (stored_if_lem d c c2 (decided (distinct_keys d)) h)

after_mutation_lem :
    (o : Option ConfigData) (c c2 : Cluster)
    → after_mutation o c ≡ written c2
    → o ≡ some (some c2.content)
after_mutation_lem none c c2 h = absurd (cc h)
after_mutation_lem (some d) c c2 h = ap some (stored_as_lem d c c2 h)

pub client-IsClient : IsClient client data_of
client-IsClient = record {
  get_lem = λ name c d h. elim (Bool-cases (name == "rules-cm")) [
    | inl e ↦ rw e (eq_of_ok (sym (rw e at h)))
    | inr e ↦ absurd (cc (rw e at h))
  ];
  write_lem = λ name mutate c c2 h. elim (Bool-cases (name == "rules-cm")) [
    | inl e ↦ rw e (after_mutation_lem (mutate (some c.content)) c c2 (rw e at h))
    | inr e ↦ absurd (cc (rw e at h))
  ];
  distinct = λ name c. elim (Bool-cases (name == "rules-cm")) [
    | inl e ↦ rw e c.distinct
    | inr e ↦ rw e refl
  ];
}
