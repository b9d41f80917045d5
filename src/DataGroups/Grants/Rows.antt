-- ===== src/DataGroups/Grants/Rows.antt =====
-- The rows of the table of grants, and what saving and deleting does to them.
use text.Mathlib.Text.{◌==◌ as str_eq}
use apo.Common.{
  ==_iff, eq_iff, Option, Bool, List, String, ℕ, [], ◌∷◌, string_eq, nat_eq, true, false, not, ◌&&◌,
  ◌||◌, none, ok, keep, any, ◌==◌, arith, refl, ◌≡◌, ◌≢◌, ap, sym, ◌∙◌, All,
}
use apo.Access.Filters.{any-keep_const, both}
use apo.Access.Transaction.{done, panicked, run_all, run_all-cons, transaction-done, eq_of_done}
use apo.DataGroups.Grants.{
  change_grants, mem, assign_data_group, is_of, revoke_data_group_by_group, AuthDataGroup,
  GrantTable,
}
use apo.DataGroups.Grants.Differences.{is_in}

-- What is asked of a row without a look at its id, which the database chooses.
abbrev pub IgnoresId : (AuthDataGroup → Bool) → Type 0
IgnoresId q = (r : AuthDataGroup) (id : ℕ) → q (record r { id = id }) ≡ q r

-- A table has rows. A read gives those that it asks for; saving new rows adds them, and a deletion
-- takes its rows away, in any order; none of them panics.
pub record IsGrantTable {D : Type 0} (t : GrantTable D) (rows : D → List AuthDataGroup)
    : Type 0 where
  pub find_rows :
      (q : AuthDataGroup → Bool) (d : D) (found : List AuthDataGroup)
      → t.find q d ≡ ok found
      → (p : AuthDataGroup → Bool) → any p found ≡ any p (keep q (rows d))
  pub save_rows :
      (new : List AuthDataGroup) (d d2 : D)
      → t.save new d ≡ done d2
      → All (λ r. r.id ≡ 0) new
      → (p : AuthDataGroup → Bool) → IgnoresId p
      → any p (rows d2) ≡ (any p (rows d) || any p new)
  pub delete_rows :
      (q : AuthDataGroup → Bool) (d d2 : D)
      → t.delete q d ≡ done d2
      → (p : AuthDataGroup → Bool) → any p (rows d2) ≡ any p (keep (λ r. not (q r)) (rows d))
  pub save_returns : (new : List AuthDataGroup) (d : D) → t.save new d ≢ panicked
  pub delete_returns : (q : AuthDataGroup → Bool) (d : D) → t.delete q d ≢ panicked

-- A grant of the group `g` to the subject.
abbrev pub is_grant : ℕ → String → ℕ → AuthDataGroup → Bool
is_grant subject_id subject_type g r = is_of subject_id subject_type r && is_in g r

module _ {D : Type 0} (t : GrantTable D) (rows : D → List AuthDataGroup)
    (laws : IsGrantTable t rows) where
  assign_lem :
      (new : List AuthDataGroup) (d d2 : D)
      → assign_data_group t new d ≡ done d2
      → All (λ r. r.id ≡ 0) new
      → (p : AuthDataGroup → Bool) → IgnoresId p
      → any p (rows d2) ≡ (any p (rows d) || any p new)
  unfolding assign_data_group
  assign_lem [] d d2 h zero_ids p ig = ap (λ x. any p (rows x)) (sym (eq_of_done h)) ∙ ground arith
  assign_lem (r ∷ rs) d d2 h zero_ids p ig = laws.save_rows (r ∷ rs) d d2 h zero_ids p ig

  revoke_lem :
      (ids : List ℕ) (subject_id : ℕ) (d d2 : D)
      → revoke_data_group_by_group t ids subject_id d ≡ done d2
      → (p : AuthDataGroup → Bool)
      → any p (rows d2)
        ≡ any p (keep (λ r. not (mem r.group_id ids && r.subject_id == subject_id)) (rows d))
  unfolding revoke_data_group_by_group
  revoke_lem [] subject_id d d2 h p =
      ap (λ x. any p (rows x)) (sym (eq_of_done h))
      ∙ sym (any-keep_const p _ true (rows d) (λ r hit. refl) ∙ ground arith)
  revoke_lem (id ∷ ids) subject_id d d2 h p = laws.delete_rows _ d d2 h p

  assign-returns : (new : List AuthDataGroup) (d : D) → assign_data_group t new d ≢ panicked
  unfolding assign_data_group
  assign-returns [] d h = absurd (cc h)
  assign-returns (r ∷ rs) d h = laws.save_returns (r ∷ rs) d h

  revoke-returns :
      (ids : List ℕ) (subject_id : ℕ) (d : D)
      → revoke_data_group_by_group t ids subject_id d ≢ panicked
  unfolding revoke_data_group_by_group
  revoke-returns [] subject_id d h = absurd (cc h)
  revoke-returns (id ∷ ids) subject_id d h = laws.delete_returns _ d h

  -- The rows after both steps of the transaction.
  pub changed_lem :
      (commit : D → Option String) (subject_id : ℕ) (new : List AuthDataGroup) (ids : List ℕ)
      (d d2 : D)
      → All (λ r. r.id ≡ 0) new
      → change_grants t commit subject_id d (ok (new, ids)) ≡ (d2, none)
      → (d1 : D) × ((p : AuthDataGroup → Bool)
          → IgnoresId p
          → any p (rows d1) ≡ (any p (rows d) || any p new))
        × ((p : AuthDataGroup → Bool)
            → any p (rows d2)
              ≡ any p
                  (keep (λ r. not (mem r.group_id ids && r.subject_id == subject_id)) (rows d1)))
  unfolding run_all
  changed_lem commit subject_id new ids d d2 zero_ids h =
      let assign = assign_data_group t new in
      let revoke = revoke_data_group_by_group t ids subject_id in
      let ran =
        transaction-done commit (assign ∷ revoke ∷ []) d d2
          (assign-returns new, (revoke-returns ids subject_id, tt)) h in
      let (d1, first, rest) = run_all-cons assign (revoke ∷ []) d d2 ran in
      let (d3, second, last) = run_all-cons revoke [] d1 d2 rest in
      (d1, assign_lem new d d1 first zero_ids, revoke_lem ids subject_id d1 d2 (second ∙ last))

pub own_new :
    (subject_id : ℕ) (subject_type : String) (g : ℕ) (new : List AuthDataGroup)
    → All (λ r. (is_of subject_id subject_type r ≡ true) × (r.id ≡ 0)) new
    → (any (is_grant subject_id subject_type g) new ≡ any (is_in g) new) × All (λ r. r.id ≡ 0) new
own_new subject_id subject_type g [] a = (refl, tt)
own_new subject_id subject_type g (r ∷ rs) ((own, zero_id), a) =
    let (same, ids) = own_new subject_id subject_type g rs a in
    (rw (own, same) refl, (zero_id, ids))

pub foreign_new :
    (subject_id : ℕ) (subject_type : String) (p : AuthDataGroup → Bool) (new : List AuthDataGroup)
    → All (λ r. (is_of subject_id subject_type r ≡ true) × (r.id ≡ 0)) new
    → ((r : AuthDataGroup) → is_of subject_id subject_type r ≡ true → p r ≡ false)
    → any p new ≡ false
foreign_new subject_id subject_type p [] a other = refl
foreign_new subject_id subject_type p (r ∷ rs) ((own, zero_id), a) other =
    rw (other r own) (foreign_new subject_id subject_type p rs a other)

-- Whether the deletion keeps the rows of a grant.
pub kept_grant :
    (subject_id : ℕ) (typ : String) (g : ℕ) (ids : List ℕ) (r : AuthDataGroup)
    → is_grant subject_id typ g r ≡ true
    → not (mem r.group_id ids && r.subject_id == subject_id) ≡ not (mem g ids)
kept_grant subject_id typ g ids r hit =
    let (subject, group) = both (is_of subject_id typ r) (is_in g r) hit in
    let (same, kind) = both (r.subject_id == subject_id) (str_eq r.subject_type typ) subject in
    rw same (ground (arith, ap (λ a. mem a ids) ((==_iff r.group_id g).0 group)))

pub kept_other :
    (subject_id id : ℕ) (typ : String) (g : ℕ) (ids : List ℕ) (r : AuthDataGroup)
    → (id == subject_id) ≡ false
    → is_grant id typ g r ≡ true
    → not (mem r.group_id ids && r.subject_id == subject_id) ≡ true
kept_other subject_id id typ g ids r differs hit =
    let (subject, group) = both (is_of id typ r) (is_in g r) hit in
    let (same, kind) = both (r.subject_id == id) (str_eq r.subject_type typ) subject in
    let other : (r.subject_id == subject_id) ≡ false = ground (arith, same, differs) in
    rw other (ground arith)

pub other_kind :
    (subject_id : ℕ) (subject_type typ : String) (g : ℕ) (r : AuthDataGroup)
    → str_eq typ subject_type ≡ false
    → is_of subject_id subject_type r ≡ true
    → is_grant subject_id typ g r ≡ false
other_kind subject_id subject_type typ g r differs own =
    ground (
      arith,
      eq_iff r.subject_type subject_type,
      eq_iff r.subject_type typ,
      eq_iff typ subject_type,
    )

pub other_subject :
    (subject_id id : ℕ) (subject_type typ : String) (g : ℕ) (r : AuthDataGroup)
    → (id == subject_id) ≡ false
    → is_of subject_id subject_type r ≡ true
    → is_grant id typ g r ≡ false
other_subject subject_id id subject_type typ g r differs own = ground arith

pub settle : (h w n : Bool) → (h ≡ false → n ≡ w) → ((h || n) && not (h && not w)) ≡ w
settle true w n e = ground arith
settle false w n e = ground (arith, e refl)
