-- ===== src/Access/Permissions/Update.antt =====
-- What `UpdateRole` does to the permissions of a role.
use apo.Common.{
  ◌∙◌, ap, ℕ, String, Bool, true, false, not, ◌&&◌, ◌||◌, ◌≡◌, ◌≢◌, refl, Option, none, List, [],
  ◌∷◌, arith, any, Result,
}
use apo.Access.Difference.{mem}
use apo.Access.Permissions.{
  is_nil, role_subject, apply_update, update_if, update_role, done, grant_permission,
  revoke_permission, err, ok, Queries, AuthPermission, Subject,
}
use apo.Access.Permissions.Effect.{add_and_delete_lem}
use apo.Access.Permissions.Rows.{gives, revoke_lem, grant_lem, has_permission}
use apo.Access.Transaction.{
  Outcome, Table, run_all-cons, transaction-done, panicked, run_all, IsTable,
}

settled_again :
    (nil before held added deleted wanted : Bool)
    → nil ≡ false
    → before ≡ (held || added)
    → ((held && not deleted) || added) ≡ wanted
    → deleted ≡ (held && not wanted)
    → (before && not (nil || deleted)) ≡ wanted
settled_again nil before held added deleted wanted h0 h h1 h2 = ground (arith, h0, h, h1, h2)

none_left : (held wanted : Bool) → (held ≡ true → wanted ≡ true) → (held && not wanted) ≡ false
none_left true wanted h = ground (arith, h refl)
none_left false wanted h = refl

mem-is_nil : (x : ℕ) (ids : List ℕ) → mem x ids ≡ true → is_nil ids ≡ false
mem-is_nil x [] h = ground (arith, h)
mem-is_nil x (id ∷ ids) h = refl

is_nil-none : (ids : List ℕ) → ((x : ℕ) → mem x ids ≡ false) → is_nil ids ≡ true
is_nil-none [] h = refl
is_nil-none (id ∷ ids) h = absurd (ground (arith, h id))

module _ {D : Type 0} (t : Table AuthPermission D) (rows : D → List AuthPermission)
    (laws : IsTable t rows) where
  pub grant-returns : (s : Subject) (ids : List ℕ) (d : D) → grant_permission t s ids d ≢ panicked
  unfolding grant_permission
  grant-returns s [] d e = absurd (ground (arith, e))
  grant-returns s (id ∷ ids) d e = laws.create_returns _ d e

  revoke-returns : (s : Subject) (ids : List ℕ) (d : D) → revoke_permission t s ids d ≢ panicked
  unfolding revoke_permission
  revoke-returns s ids d e = laws.delete_returns _ d e

  apply_update-done :
      (commit : D → Option String) (write_role : D → Outcome D) (s : Subject) (d d2 : D)
      (o : Result (List ℕ × List ℕ))
      → ((x : D) → write_role x ≢ panicked)
      → apply_update t commit write_role s d o ≡ (d2, none)
      → (added : List ℕ) × (deleted : List ℕ) × (d0 : D) × (d1 : D) × (o ≡ ok (added, deleted))
        × (write_role d ≡ done d0)
        × (grant_permission t s added d0 ≡ done d1)
        × (revoke_permission t s deleted d1 ≡ done d2)
  unfolding apply_update run_all
  apply_update-done commit write_role s d d2 (err x) returns e =
      absurd (ground (arith, ap (λ (y : D × Option String). y.1) e))
  apply_update-done commit write_role s d d2 (ok (added, deleted)) returns e =
      let grant = grant_permission t s added in
      let revoke = revoke_permission t s deleted in
      let ran =
        transaction-done commit (write_role ∷ grant ∷ revoke ∷ []) d d2
          (returns, (grant-returns s added, (revoke-returns s deleted, tt))) e in
      let (d0, written, rest0) = run_all-cons write_role (grant ∷ revoke ∷ []) d d2 ran in
      let (d1, granted, rest) = run_all-cons grant (revoke ∷ []) d0 d2 rest0 in
      let (d3, revoked, last) = run_all-cons revoke [] d1 d2 rest in
      (added, deleted, d0, d1, refl, written, granted, revoked ∙ last)

  update_if-done :
      (r : Result Bool) (named : Result (List ℕ)) (d d2 : D) (part : D × Option String)
      → update_if r named d part ≡ (d2, none)
      → part ≡ (d2, none)
  update_if-done (ok true) (ok []) d d2 part e = e
  update_if-done (ok false) (ok []) d d2 part e =
      absurd (ground (arith, ap (λ (y : D × Option String). y.1) e))
  update_if-done (ok b) (ok (id ∷ ids)) d d2 part e =
      absurd (ground (arith, ap (λ (y : D × Option String). y.1) e))
  update_if-done (ok b) (err x) d d2 part e =
      absurd (ground (arith, ap (λ (y : D × Option String). y.1) e))
  update_if-done (err x) named d d2 part e =
      absurd (ground (arith, ap (λ (y : D × Option String). y.1) e))

  -- When `UpdateRole` returns no error, and the write of the role's own row changes no permission
  -- and does not panic: if the role had a permission that the request leaves out, it has exactly
  -- the permissions of the request. If it had none, the role has lost all of its permissions.
  pub update_role-permissions :
      (queries : Queries) (commit : D → Option String) (write_role : ℕ → String → D → Outcome D)
      (role_id : ℕ) (role_name : String) (wanted : List ℕ) (d d2 : D)
      → ((x : D) → write_role role_id role_name x ≢ panicked)
      → ((x y : D) → write_role role_id role_name x ≡ done y → rows y ≡ rows x)
      → update_role t queries commit write_role role_id role_name wanted d ≡ (d2, none)
      → ((id : ℕ)
          → has_permission rows (role_subject role_id) id d ≡ true
          → mem id wanted ≡ false
          → (x : ℕ) → has_permission rows (role_subject role_id) x d2 ≡ mem x wanted)
        × (((id : ℕ)
              → has_permission rows (role_subject role_id) id d ≡ true
              → mem id wanted ≡ true)
            → (x : ℕ) → has_permission rows (role_subject role_id) x d2 ≡ false)
  unfolding update_role
  update_role-permissions queries commit write_role role_id role_name wanted d d2 returns keeps e =
      let s = role_subject role_id in
      let applied =
        update_if-done (queries.role_exists role_id) (queries.get_roles role_name) d d2 _ e in
      let (added, deleted, d0, d1, sets, written, granted, revoked) =
        apply_update-done commit (write_role role_id role_name) s d d2 _ returns applied in
      let (on, others1) = grant_lem t rows laws s added d0 d1 granted in
      let (off, others2) = revoke_lem t rows laws s deleted d1 d2 revoked in
      let same = λ (x : ℕ). ap (any (gives s x)) (keeps d d0 written) in
      let split = add_and_delete_lem t rows laws queries s wanted added deleted d sets in
      (
        λ id held unwanted x.
            off x
            ∙ settled_again _ _ _ _ _ _
                (mem-is_nil id deleted ((split id).1 ∙ rw (held, unwanted) refl))
                (on x ∙ ap (λ b. b || mem x added) (same x)) (split x).0 (split x).1,
        λ all_wanted x.
            off x
            ∙ ap (λ b. has_permission rows s x d1 && not (b || mem x deleted))
                (is_nil-none deleted (λ y. (split y).1 ∙ none_left _ _ (all_wanted y)))
            ∙ ground arith,
      )
