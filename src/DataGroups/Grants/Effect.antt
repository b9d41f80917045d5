-- ===== src/DataGroups/Grants/Effect.antt =====
-- The grants of the table after `DataGroupOperation`.
use text.Mathlib.Text.{◌==◌ as str_eq}
use apo.Common.{
  has, Option, Bool, List, String, ℕ, [], ◌∷◌, string_eq, nat_eq, true, false, not, ◌&&◌, none, ok,
  err, Result, any, ◌==◌, arith, refl, ◌≡◌, ap, sym, ◌∙◌, Bool-cases, inl, inr,
}
use apo.Access.Filters.{any-keep, any-keep_const, both}
use apo.DataGroups.Grants.{
  subject_exists, if_subject, keys, groups_exist, modify_loop, if_exist, index_by, ◌>>=◌, modified,
  DataGroupPermission, get_modify_and_delete_data_group, Queries, data_group_operation,
  change_grants, mem, is_of, AuthDataGroup, GrantTable,
}
use apo.DataGroups.Grants.Differences.{
  modify_loop-held, Distinct, modify_loop-wanted, has-index_by, modify_loop-rest, mem-keys,
  modify_loop-new, wants, Typed, is_in,
}
use apo.DataGroups.Grants.Rows.{
  other_kind, other_subject, foreign_new, kept_other, settle, IgnoresId, kept_grant, changed_lem,
  own_new, IsGrantTable, is_grant,
}

-- What the reads of the operation gave, when it returns no error.
read_lem :
    {D : Type 0} (t : GrantTable D) (queries : Queries) (commit : D → Option String)
    (subject_id : ℕ) (subject_type : String) (ps : List DataGroupPermission) (d d2 : D)
    → data_group_operation t commit queries subject_id subject_type ps d ≡ (d2, none)
    → (found : List AuthDataGroup) × (t.find (is_of subject_id subject_type) d ≡ ok found)
      × (change_grants t commit subject_id d (ok (modified subject_id subject_type ps found))
          ≡ (d2, none))
unfolding data_group_operation get_modify_and_delete_data_group
read_lem t queries commit subject_id subject_type ps d d2 h =
    of_subject (subject_exists t queries subject_id subject_type) h
  where
    of_groups :
        (found : List AuthDataGroup) (r : Result Bool)
        → change_grants t commit subject_id d
            (r >>= if_exist subject_id subject_type (modified subject_id subject_type ps found))
          ≡ (d2, none)
        → change_grants t commit subject_id d (ok (modified subject_id subject_type ps found))
          ≡ (d2, none)
    of_groups found (err e) k = absurd (cc (ap (λ x. x.1) k))
    of_groups found (ok false) k = absurd (cc (ap (λ x. x.1) k))
    of_groups found (ok true) k = k

    of_find :
        (r : Result (List AuthDataGroup))
        → t.find (is_of subject_id subject_type) d ≡ r
        → change_grants t commit subject_id d (
            r >>= λ rows. groups_exist subject_id subject_type queries ps >>= λ exists.
            if_exist subject_id subject_type (modified subject_id subject_type ps rows) exists)
          ≡ (d2, none)
        → (found : List AuthDataGroup) × (t.find (is_of subject_id subject_type) d ≡ ok found)
          × (change_grants t commit subject_id d (ok (modified subject_id subject_type ps found))
              ≡ (d2, none))
    of_find (err e) here k = absurd (cc (ap (λ x. x.1) k))
    of_find (ok found) here k =
        (found, here, of_groups found (groups_exist subject_id subject_type queries ps) k)

    of_subject :
        (r : Result Bool)
        → change_grants t commit subject_id d (
            r
            >>= if_subject t
                (get_modify_and_delete_data_group subject_id subject_type t queries ps d))
          ≡ (d2, none)
        → (found : List AuthDataGroup) × (t.find (is_of subject_id subject_type) d ≡ ok found)
          × (change_grants t commit subject_id d (ok (modified subject_id subject_type ps found))
              ≡ (d2, none))
    of_subject (err e) k = absurd (cc (ap (λ x. x.1) k))
    of_subject (ok false) k = absurd (cc (ap (λ x. x.1) k))
    of_subject (ok true) k = of_find (t.find (is_of subject_id subject_type) d) refl k

-- After an operation without an error, whose request gives each group a type, a user or a team has
-- exactly the groups that the request lists. What another subject with another id has is left
-- alone. A subject of the other kind with the same id loses the groups that this one loses.
pub data_group_operation-grants :
    {D : Type 0} (t : GrantTable D) (rows : D → List AuthDataGroup) (laws : IsGrantTable t rows)
    (queries : Queries) (commit : D → Option String) (subject_id : ℕ) (subject_type : String)
    (ps : List DataGroupPermission) (d d2 : D)
    → Typed ps
    → data_group_operation t commit queries subject_id subject_type ps d ≡ (d2, none)
    → (g : ℕ)
    → (any (is_grant subject_id subject_type g) (rows d2) ≡ wants g ps)
      × ((id : ℕ) (typ : String)
          → (id == subject_id) ≡ false
          → any (is_grant id typ g) (rows d2) ≡ any (is_grant id typ g) (rows d))
      × ((typ : String)
          → str_eq typ subject_type ≡ false
          → any (is_grant subject_id typ g) (rows d2) ≡ (
              any (is_grant subject_id typ g) (rows d)
              && not (any (is_grant subject_id subject_type g) (rows d) && not (wants g ps))))
unfolding has read_lem
data_group_operation-grants t rows laws queries commit subject_id subject_type ps d d2 typed h g =
    let (found, read, changed) = read_lem t queries commit subject_id subject_type ps d d2 h in
    let m = index_by (λ r. r.group_id) found [] in
    let new = (modify_loop subject_id subject_type m ps).0 in
    let ids = keys (modify_loop subject_id subject_type m ps).1 in
    let own = modify_loop-new subject_id subject_type ps m in
    let (in_new, zero_ids) = own_new subject_id subject_type g new own in
    let (d1, first, second) =
      changed_lem t rows laws commit subject_id new ids d d2 zero_ids changed in
    let after =
      λ (p : AuthDataGroup → Bool) (c : Bool)
          (keeps : (r : AuthDataGroup)
            → p r ≡ true
            → not (mem r.group_id ids && r.subject_id == subject_id) ≡ c)
          (ig : IgnoresId p).
        second p ∙ any-keep_const p _ c (rows d1) keeps ∙ ap (λ b. b && c) (first p ig) in
    let left : mem g ids ≡ (has g m && not (wants g ps)) =
      mem-keys g _ ∙ modify_loop-rest subject_id subject_type g ps m in
    let held : any (is_grant subject_id subject_type g) (rows d) ≡ has g m = sym (
      has-index_by g found []
      ∙ laws.find_rows _ d found read (is_in g)
      ∙ any-keep (is_in g) (is_of subject_id subject_type) (rows d)) in
    (
      after (is_grant subject_id subject_type g) (not (mem g ids))
            (kept_grant subject_id subject_type g ids) (λ r id. refl)
          ∙ rw (left, held, in_new)
              (settle (has g m) (wants g ps) _
                (modify_loop-wanted subject_id subject_type g ps m typed)),
      (λ id typ differs.
          after (is_grant id typ g) true (λ r hit. kept_other subject_id id typ g ids r differs hit)
            (λ r n. refl)
          ∙ rw
              (foreign_new subject_id subject_type (is_grant id typ g) new own
                (λ r mine. other_subject subject_id id subject_type typ g r differs mine))
              (ground arith)),
      (λ typ differs.
          after (is_grant subject_id typ g) (not (mem g ids)) (kept_grant subject_id typ g ids)
            (λ r n. refl)
          ∙ rw
              (
                left,
                held,
                foreign_new subject_id subject_type (is_grant subject_id typ g) new own
                    (λ r mine. other_kind subject_id subject_type typ g r differs mine),
              )
              (ground arith)),
    )

none_in :
    (g : ℕ) (p : AuthDataGroup → Bool) (new : List AuthDataGroup)
    → ((r : AuthDataGroup) → p r ≡ true → is_in g r ≡ true)
    → any (is_in g) new ≡ false
    → any p new ≡ false
none_in g p [] narrower h = refl
none_in g p (r ∷ rs) narrower h = elim (Bool-cases (p r)) [
  | inl hit ↦ absurd (ground (arith, narrower r hit, h))
  | inr miss ↦ rw miss (none_in g p rs narrower (ground (arith, h)))
]

-- A grant of the group `g` to the subject, with this type.
abbrev pub is_typed_grant : ℕ → String → ℕ → String → AuthDataGroup → Bool
is_typed_grant subject_id subject_type g typ r =
    is_grant subject_id subject_type g r && str_eq r.typ typ

-- A group that the subject has keeps the type it has, whatever type the request asks for, in an
-- operation without an error whose request lists no group twice.
pub data_group_operation-type :
    {D : Type 0} (t : GrantTable D) (rows : D → List AuthDataGroup) (laws : IsGrantTable t rows)
    (queries : Queries) (commit : D → Option String) (subject_id : ℕ) (subject_type : String)
    (ps : List DataGroupPermission) (d d2 : D) (g : ℕ) (typ : String)
    → Distinct ps
    → any (is_grant subject_id subject_type g) (rows d) ≡ true
    → wants g ps ≡ true
    → data_group_operation t commit queries subject_id subject_type ps d ≡ (d2, none)
    → any (is_typed_grant subject_id subject_type g typ) (rows d2)
      ≡ any (is_typed_grant subject_id subject_type g typ) (rows d)
unfolding has read_lem
data_group_operation-type t rows laws queries commit subject_id subject_type ps d d2 g typ once had
      wanted h =
    let (found, read, changed) = read_lem t queries commit subject_id subject_type ps d d2 h in
    let m = index_by (λ r. r.group_id) found [] in
    let new = (modify_loop subject_id subject_type m ps).0 in
    let ids = keys (modify_loop subject_id subject_type m ps).1 in
    let own = modify_loop-new subject_id subject_type ps m in
    let (in_new, zero_ids) = own_new subject_id subject_type g new own in
    let (d1, first, second) =
      changed_lem t rows laws commit subject_id new ids d d2 zero_ids changed in
    let p = is_typed_grant subject_id subject_type g typ in
    let held : has g m ≡ true =
      has-index_by g found []
      ∙ laws.find_rows _ d found read (is_in g)
      ∙ any-keep (is_in g) (is_of subject_id subject_type) (rows d)
      ∙ had in
    let left : mem g ids ≡ false =
      mem-keys g _ ∙ modify_loop-rest subject_id subject_type g ps m ∙ rw (held, wanted) refl in
    let unwritten : any p new ≡ false =
      none_in g p new
        (λ r hit. (both (is_of subject_id subject_type r) (is_in g r) (both _ _ hit).0).1)
        (modify_loop-held subject_id subject_type g ps m once held) in
    second p
    ∙ any-keep_const p _ true (rows d1)
        (λ r hit. kept_grant subject_id subject_type g ids r (both _ _ hit).0 ∙ rw left refl)
    ∙ rw (first p (λ r n. refl), unwritten) (ground arith)
