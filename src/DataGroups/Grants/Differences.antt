-- ===== src/DataGroups/Grants/Differences.antt =====
-- What the loop over the wanted groups computes.
use text.Mathlib.Text.{◌==◌ as str_eq}
use apo.Common.{
  subst, eq_refl, Bool, Dict, String, List, ℕ, [], ◌∷◌, string_eq, nat_eq, true, false, not, ◌&&◌,
  ◌||◌, none, any, ◌==◌, put, lookup, remove, has, has-put, has-remove, has-lookup, arith, refl,
  ◌≡◌, All, Option-cases, Bool-cases, inl, inr, ==_iff,
}
use apo.DataGroups.Grants.{
  is_of, keys, index_by, mem, modify_loop, AuthDataGroup, DataGroupPermission,
}

-- The group is among the wanted ones.
abbrev pub wants : ℕ → List DataGroupPermission → Bool
wants g ps = any (λ (p : DataGroupPermission). p.data_group_id == g) ps

-- Each wanted group has a type, as the form of the request asks.
abbrev pub Typed : List DataGroupPermission → Type 0
Typed ps = All (λ (p : DataGroupPermission). str_eq "" p.permission_type ≡ false) ps

-- No group is listed twice.
abbrev pub Distinct : List DataGroupPermission → Type 0
Distinct [] = Unit
Distinct (p ∷ ps) = (wants p.data_group_id ps ≡ false) × Distinct ps

absent_has :
    (k g : ℕ) (m : Dict ℕ AuthDataGroup) → lookup k m ≡ none → (k == g) ≡ true → has g m ≡ false
unfolding lookup has
absent_has k g [] h e = refl
absent_has k g ((j, r) ∷ m) h e = ground (arith, absent_has k g m)

abbrev pub is_in : ℕ → AuthDataGroup → Bool
is_in g r = r.group_id == g

pub has-index_by :
    (g : ℕ) (rows : List AuthDataGroup) (m : Dict ℕ AuthDataGroup)
    → has g (index_by (λ r. r.group_id) rows m) ≡ (has g m || any (is_in g) rows)
unfolding has
has-index_by g [] m = ground arith
has-index_by g (r ∷ rs) m =
    ground (arith, has-index_by g rs (put r.group_id r m), has-put r.group_id g r m)

pub mem-keys : (g : ℕ) (m : Dict ℕ AuthDataGroup) → mem g (keys m) ≡ has g m
unfolding has
mem-keys g [] = refl
mem-keys g ((k, r) ∷ m) = ground (arith, mem-keys g m)

module _ (subject_id : ℕ) (subject_type : String) where
  -- The groups that stay in the map are those that are not wanted.
  pub modify_loop-rest :
      (g : ℕ) (ps : List DataGroupPermission) (m : Dict ℕ AuthDataGroup)
      → has g (modify_loop subject_id subject_type m ps).1 ≡ (has g m && not (wants g ps))
  unfolding modify_loop
  modify_loop-rest g [] m = ground arith
  modify_loop-rest g (p ∷ ps) m = elim (Option-cases (lookup p.data_group_id m)) [
    | inl absent ↦ rw absent (
        ground (
          arith,
          modify_loop-rest g ps m,
          ==_iff p.data_group_id g,
          absent_has p.data_group_id g m absent,
        ))
    | inr (held, found) ↦ rw found (
        ground
          (arith, modify_loop-rest g ps (remove p.data_group_id m), has-remove p.data_group_id g m))
  ]

  -- The rows that are written are new rows of the subject.
  pub modify_loop-new :
      (ps : List DataGroupPermission) (m : Dict ℕ AuthDataGroup)
      → All
          (λ r. (is_of subject_id subject_type r ≡ true) × (r.id ≡ 0))
          (modify_loop subject_id subject_type m ps).0
  unfolding modify_loop
  modify_loop-new [] m = tt
  modify_loop-new (p ∷ ps) m = elim (Option-cases (lookup p.data_group_id m)) [
    | inr (held, found) ↦ rw found (modify_loop-new ps (remove p.data_group_id m))
    | inl absent ↦ elim (Bool-cases (str_eq "" p.permission_type)) [
      | inl untyped ↦ rw (absent, untyped) (modify_loop-new ps m)
      | inr typed ↦
          rw (absent, typed) ((ground (arith, eq_refl subject_type), refl), modify_loop-new ps m)
    ]
  ]

  -- For a group that the subject does not hold a row is written exactly when it is wanted.
  pub modify_loop-wanted :
      (g : ℕ) (ps : List DataGroupPermission) (m : Dict ℕ AuthDataGroup)
      → Typed ps
      → has g m ≡ false
      → any (is_in g) (modify_loop subject_id subject_type m ps).0 ≡ wants g ps
  unfolding modify_loop
  modify_loop-wanted g [] m typed free = refl
  modify_loop-wanted g (p ∷ ps) m (here, typed) free =
      elim (Option-cases (lookup p.data_group_id m)) [
        | inl absent ↦ rw (absent, here) (ground (arith, modify_loop-wanted g ps m typed free))
        | inr (held, found) ↦ rw found (
            ground (
              arith,
              modify_loop-wanted g ps (remove p.data_group_id m) typed,
              has-remove p.data_group_id g m,
              has-lookup p.data_group_id m held found,
              ==_iff p.data_group_id g,
              free,
            ))
      ]

  modify_loop-unwanted :
      (g : ℕ) (ps : List DataGroupPermission) (m : Dict ℕ AuthDataGroup)
      → wants g ps ≡ false
      → any (is_in g) (modify_loop subject_id subject_type m ps).0 ≡ false
  unfolding modify_loop
  modify_loop-unwanted g [] m free = refl
  modify_loop-unwanted g (p ∷ ps) m free = elim (Option-cases (lookup p.data_group_id m)) [
    | inl absent ↦ rw absent (ground (arith, free, modify_loop-unwanted g ps m))
    | inr (held, found) ↦
        rw found (modify_loop-unwanted g ps (remove p.data_group_id m) (ground (arith, free)))
  ]

  -- No row is written for a group that the subject holds, when no group is listed twice.
  pub modify_loop-held :
      (g : ℕ) (ps : List DataGroupPermission) (m : Dict ℕ AuthDataGroup)
      → Distinct ps
      → has g m ≡ true
      → any (is_in g) (modify_loop subject_id subject_type m ps).0 ≡ false
  unfolding modify_loop
  modify_loop-held g [] m distinct held = refl
  modify_loop-held g (p ∷ ps) m (once, distinct) held =
      elim (Option-cases (lookup p.data_group_id m)) [
        | inl absent ↦ rw absent (
            ground (
              arith,
              modify_loop-held g ps m distinct held,
              absent_has p.data_group_id g m absent,
              held,
            ))
        | inr (row, found) ↦ elim (Bool-cases (p.data_group_id == g)) [
          | inl same ↦ rw found (
              modify_loop-unwanted g ps (remove p.data_group_id m)
                (subst (λ a. wants a ps ≡ false) ((==_iff p.data_group_id g).0 same) once))
          | inr other ↦ rw found (
              modify_loop-held g ps (remove p.data_group_id m) distinct
                (ground (arith, has-remove p.data_group_id g m, other, held)))
        ]
      ]
