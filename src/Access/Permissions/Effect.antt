-- ===== src/Access/Permissions/Effect.antt =====
-- What `PermissionOperation` does to the permissions of a subject.
use apo.Common.{
  sym, ◌∙◌, ap, inr, inl, ℕ, String, Bool, true, false, not, ◌&&◌, ◌||◌, ◌≡◌, ◌≢◌, refl, Option,
  none, some, List, [], ◌∷◌, arith, any, ◌⊎◌, eq_of_ok, Result,
}
use apo.Access.Difference.{settled, mem-to_set, difference_lem, to_set, difference, mem}
use apo.Access.Permissions.{
  done, apply_operation, grant_func, grant_permission, permission_operation, revoke_func,
  revoke_permission, get_subject_permission, difference_result, known_features, err,
  difference_of_held, get_add_and_delete_permissions, ok, operate_if, subject_exists, Queries,
  AuthPermission, Subject,
}
use apo.Access.Permissions.Rows.{revoke_lem, grant_lem, IsOfOthers, mem-held, has_permission}
use apo.Access.Transaction.{
  Table, run_all-cons, eq_of_done, transaction-done, panicked, run_all, IsTable,
}

-- The types of subject that the switch names.
abbrev pub IsKnownType : String → Type 0
IsKnownType t = (t ≡ "role") ⊎ ((t ≡ "user") ⊎ (t ≡ "team"))

known-exists :
    (queries : Queries) (s : Subject)
    → IsKnownType s.subject_type
    → (r : Result Bool) × (subject_exists queries s ≡ some r)
known-exists queries s (inl e) = rw e (_, refl)
known-exists queries s (inr (inl e)) = rw e (_, refl)
known-exists queries s (inr (inr e)) = rw e (_, refl)

operate_if-done :
    {D : Type 0} (r : Result Bool) (d d2 : D) (part : D × Option String)
    → operate_if (some r) d part ≡ (d2, none)
    → part ≡ (d2, none)
operate_if-done (ok true) d d2 part e = e
operate_if-done {D} (ok false) d d2 part e =
    absurd (ground (arith, ap (λ (y : D × Option String). y.1) e))
operate_if-done {D} (err x) d d2 part e =
    absurd (ground (arith, ap (λ (y : D × Option String). y.1) e))

module _ {D : Type 0} (t : Table AuthPermission D) (rows : D → List AuthPermission)
    (laws : IsTable t rows) where
  -- What the difference of a subject's permissions and the wanted ones is.
  pub add_and_delete_lem :
      (queries : Queries) (s : Subject) (wanted added deleted : List ℕ) (d : D)
      → get_add_and_delete_permissions t queries s wanted d ≡ ok (added, deleted)
      → (x : ℕ)
      → (((has_permission rows s x d && not (mem x deleted)) || mem x added) ≡ mem x wanted)
        × (mem x deleted ≡ (has_permission rows s x d && not (mem x wanted)))
  unfolding get_add_and_delete_permissions difference_of_held
  add_and_delete_lem queries s wanted added deleted d e x =
      of_held (get_subject_permission t s d) refl e
    where
      of_sets :
          (held : List ℕ) (features : Result (List ℕ)) (o : Option (List ℕ × List ℕ))
          → difference (λ id. mem id (known_features queries.get_feature)) (to_set held) wanted ≡ o
          → difference_result features o ≡ ok (added, deleted)
          → difference (λ id. mem id (known_features queries.get_feature)) (to_set held) wanted
            ≡ some (added, deleted)
      of_sets held features none at h = absurd (ground (arith, h))
      of_sets held (ok ids) (some sets) at h = at ∙ ap some (eq_of_ok h)
      of_sets held (err x) (some sets) at h = absurd (ground (arith, h))

      of_held :
          (o : Result (List ℕ))
          → get_subject_permission t s d ≡ o
          → difference_of_held queries.get_feature wanted o ≡ ok (added, deleted)
          → (((has_permission rows s x d && not (mem x deleted)) || mem x added) ≡ mem x wanted)
            × (mem x deleted ≡ (has_permission rows s x d && not (mem x wanted)))
      of_held (ok held) at h =
          let sets = of_sets held queries.get_feature _ refl h in
          let (after, rest) = difference_lem _ (to_set held) wanted added deleted sets x in
          let same = mem-to_set x held ∙ mem-held t rows laws s d held at x in
          (
            ap (λ b. (b && not (mem x deleted)) || mem x added) (sym same) ∙ after,
            rest ∙ ap (λ b. b && not (mem x wanted)) same,
          )
      of_held (err y) at h = absurd (ground (arith, h))

  grant_func-returns : (s : Subject) (ids : List ℕ) (d : D) → grant_func t s ids d ≢ panicked
  unfolding grant_func grant_permission
  grant_func-returns s [] d e = absurd (ground (arith, e))
  grant_func-returns s (id ∷ ids) d e = laws.create_returns _ d e

  revoke_func-returns : (s : Subject) (ids : List ℕ) (d : D) → revoke_func t s ids d ≢ panicked
  unfolding revoke_func revoke_permission
  revoke_func-returns s [] d e = absurd (ground (arith, e))
  revoke_func-returns s (id ∷ ids) d e = laws.delete_returns _ d e

  -- With its guard, a revocation takes away the ids that it names.
  revoke_func_lem :
      (s : Subject) (ids : List ℕ) (d d2 : D)
      → revoke_func t s ids d ≡ done d2
      → ((x : ℕ) → has_permission rows s x d2 ≡ (has_permission rows s x d && not (mem x ids)))
        × ((p : AuthPermission → Bool) → IsOfOthers s p → any p (rows d2) ≡ any p (rows d))
  unfolding revoke_func
  revoke_func_lem s [] d d2 e =
      let same = eq_of_done e in
      (
        λ x. ap (has_permission rows s x) (sym same) ∙ ground arith,
        λ p other. ap (λ y. any p (rows y)) (sym same),
      )
  revoke_func_lem s (id ∷ ids) d d2 e = revoke_lem t rows laws s (id ∷ ids) d d2 e

  grant_func_lem :
      (s : Subject) (ids : List ℕ) (d d2 : D)
      → grant_func t s ids d ≡ done d2
      → ((x : ℕ) → has_permission rows s x d2 ≡ (has_permission rows s x d || mem x ids))
        × ((p : AuthPermission → Bool) → IsOfOthers s p → any p (rows d2) ≡ any p (rows d))
  unfolding grant_func grant_permission
  grant_func_lem s [] d d2 e = grant_lem t rows laws s [] d d2 e
  grant_func_lem s (id ∷ ids) d d2 e = grant_lem t rows laws s (id ∷ ids) d d2 e

  -- The two steps of a successful operation.
  apply_operation-done :
      (commit : D → Option String) (s : Subject) (d d2 : D) (o : Result (List ℕ × List ℕ))
      → apply_operation t commit s d o ≡ (d2, none)
      → (added : List ℕ) × (deleted : List ℕ) × (d1 : D) × (o ≡ ok (added, deleted))
        × (grant_func t s added d ≡ done d1)
        × (revoke_func t s deleted d1 ≡ done d2)
  unfolding apply_operation run_all
  apply_operation-done commit s d d2 (err x) e =
      absurd (ground (arith, ap (λ (y : D × Option String). y.1) e))
  apply_operation-done commit s d d2 (ok (added, deleted)) e =
      let steps = grant_func t s added ∷ revoke_func t s deleted ∷ [] in
      let ran =
        transaction-done commit steps d d2
          (grant_func-returns s added, (revoke_func-returns s deleted, tt)) e in
      let (d1, granted, rest) =
        run_all-cons (grant_func t s added) (revoke_func t s deleted ∷ []) d d2 ran in
      let (d3, revoked, last) = run_all-cons (revoke_func t s deleted) [] d1 d2 rest in
      (added, deleted, d1, refl, granted, revoked ∙ last)

  -- When `PermissionOperation` returns no error for a role, a user or a team, the subject has
  -- exactly the permissions of the request, and no row of another subject has changed.
  pub permission_operation-permissions :
      (queries : Queries) (commit : D → Option String) (s : Subject) (wanted : List ℕ) (d d2 : D)
      → IsKnownType s.subject_type
      → permission_operation t queries commit s wanted d ≡ (d2, none)
      → ((x : ℕ) → has_permission rows s x d2 ≡ mem x wanted)
        × ((p : AuthPermission → Bool) → IsOfOthers s p → any p (rows d2) ≡ any p (rows d))
  unfolding permission_operation
  permission_operation-permissions queries commit s wanted d d2 known e =
      let (r, exists) = known-exists queries s known in
      let applied = operate_if-done r d d2 _ (
        ap
          (λ o.
            operate_if o d
              (apply_operation t commit s d (get_add_and_delete_permissions t queries s wanted d)))
          (sym exists)
        ∙ e) in
      let (added, deleted, d1, sets, granted, revoked) =
        apply_operation-done commit s d d2 _ applied in
      let (on, others1) = grant_func_lem s added d d1 granted in
      let (off, others2) = revoke_func_lem s deleted d1 d2 revoked in
      (
        λ x.
            let (after, rest) = add_and_delete_lem queries s wanted added deleted d sets x in
            off x ∙ (ap (λ b. b && not (mem x deleted)) (on x) ∙ settled _ _ _ _ after rest),
        λ p other. others2 p other ∙ others1 p other,
      )
