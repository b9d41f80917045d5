-- ===== src/Access/Permissions/Rows.antt =====
-- What granting and revoking does to the rows of the table of permissions.
use apo.Common.{
  sym, ap, inr, ◌∙◌, inl, Bool-cases, ℕ, Bool, true, false, not, ◌&&◌, ◌||◌, ◌≡◌, refl, List, [],
  ◌∷◌, map, arith, any, ◌==◌, eq_refl, eq_of_ok, Result,
}
use apo.Access.Difference.{mem-map, mem}
use apo.Access.Filters.{any-keep, any-keep_const, both}
use apo.Access.Permissions.{
  err, permission_ids, is_nil, done, ok, get_subject_permission, grant_permission,
  revoke_permission, AuthPermission, Subject, is_row_of, row_of,
}
use apo.Access.Transaction.{Table, eq_of_done, IsTable}

-- Whether a row gives a subject the permission.
abbrev pub gives : Subject → ℕ → AuthPermission → Bool
gives s id row = is_row_of s row && row.permission_id == id

-- Whether a subject has a permission.
abbrev pub has_permission : {D : Type 0} → (D → List AuthPermission) → Subject → ℕ → D → Bool
has_permission rows s id d = any (gives s id) (rows d)

-- What is asked of the rows of other subjects only.
abbrev pub IsOfOthers : Subject → (AuthPermission → Bool) → Type 0
IsOfOthers s p = (r : AuthPermission) → p r ≡ true → is_row_of s r ≡ false

revoked :
    (s : Subject) (x : ℕ) (ids : List ℕ) (r : AuthPermission)
    → gives s x r ≡ true
    → not (is_row_of s r && (is_nil ids || mem r.permission_id ids)) ≡ not (is_nil ids || mem x ids)
revoked s x ids r g =
    let (of_s, same) = both (is_row_of s r) (r.permission_id == x) g in
    rw of_s (ap (λ y. not (is_nil ids || mem y ids)) (ground (arith, same)))

row_of-is_row : (s : Subject) (id : ℕ) → is_row_of s (row_of s id) ≡ true
row_of-is_row s id = ground (arith, eq_refl s.subject_type, eq_refl s.typ)

mem-rows : (s : Subject) (x : ℕ) (ids : List ℕ) → any (gives s x) (map (row_of s) ids) ≡ mem x ids
mem-rows s x [] = refl
mem-rows s x (id ∷ ids) = ground (arith, mem-rows s x ids, row_of-is_row s id)

other-rows :
    (s : Subject) (p : AuthPermission → Bool) (ids : List ℕ)
    → IsOfOthers s p
    → any p (map (row_of s) ids) ≡ false
other-rows s p [] h = refl
other-rows s p (id ∷ ids) h = elim (Bool-cases (p (row_of s id))) [
  | inl hit ↦ absurd (ground (arith, h (row_of s id) hit, row_of-is_row s id))
  | inr miss ↦ ground (arith, miss, other-rows s p ids h)
]

module _ {D : Type 0} (t : Table AuthPermission D) (rows : D → List AuthPermission)
    (laws : IsTable t rows) where
  pub mem-held :
      (s : Subject) (d : D) (held : List ℕ)
      → get_subject_permission t s d ≡ ok held
      → (x : ℕ) → mem x held ≡ has_permission rows s x d
  unfolding get_subject_permission
  mem-held s d held e x = of_found (t.find (is_row_of s) d) refl e
    where
      of_found :
          (o : Result (List AuthPermission))
          → t.find (is_row_of s) d ≡ o
          → permission_ids o ≡ ok held
          → mem x held ≡ has_permission rows s x d
      of_found (ok found) at h =
          ap (mem x) (sym (eq_of_ok h))
          ∙ (mem-map (λ r. r.permission_id) x found
              ∙ (laws.find_rows (is_row_of s) d found at _ ∙ any-keep _ (is_row_of s) (rows d)))
      of_found (err x) at h = absurd (ground (arith, h))

  pub grant_lem :
      (s : Subject) (ids : List ℕ) (d d2 : D)
      → grant_permission t s ids d ≡ done d2
      → ((x : ℕ) → has_permission rows s x d2 ≡ (has_permission rows s x d || mem x ids))
        × ((p : AuthPermission → Bool) → IsOfOthers s p → any p (rows d2) ≡ any p (rows d))
  unfolding grant_permission
  grant_lem s [] d d2 e =
      let same = eq_of_done e in
      (
        λ x. ap (has_permission rows s x) (sym same) ∙ ground arith,
        λ p other. ap (λ y. any p (rows y)) (sym same),
      )
  grant_lem s (id ∷ ids) d d2 e =
      let created = laws.create_rows (map (row_of s) (id ∷ ids)) d d2 e in
      (
        λ x.
            created (gives s x)
            ∙ ap (λ b. has_permission rows s x d || b) (mem-rows s x (id ∷ ids)),
        λ p other. created p ∙ ground (arith, other-rows s p (id ∷ ids) other),
      )

  pub revoke_lem :
      (s : Subject) (ids : List ℕ) (d d2 : D)
      → revoke_permission t s ids d ≡ done d2
      → ((x : ℕ)
          → has_permission rows s x d2
            ≡ (has_permission rows s x d && not (is_nil ids || mem x ids)))
        × ((p : AuthPermission → Bool) → IsOfOthers s p → any p (rows d2) ≡ any p (rows d))
  unfolding revoke_permission
  revoke_lem s ids d d2 e =
      let deleted = laws.delete_rows _ d d2 e in
      (
        λ x.
            deleted (gives s x)
            ∙ any-keep_const (gives s x) _ (not (is_nil ids || mem x ids)) (rows d)
                (revoked s x ids),
        λ p other.
            deleted p
            ∙ (any-keep_const p _ true (rows d) (λ r g. ground (arith, other r g)) ∙ ground arith),
      )
