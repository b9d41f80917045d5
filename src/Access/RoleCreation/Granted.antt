-- ===== src/Access/RoleCreation/Granted.antt =====
-- `CreateRole` of service_create_role.go, and which permissions a created role has.
use text.Mathlib.Text.{◌==◌ as str_eq}
use apo.Common.{
  ℕ, String, Bool, true, false, ◌||◌, ◌≡◌, ◌≢◌, refl, ap, ◌∙◌, Option, none, some, List, [], ◌∷◌,
  ◌==◌, if◌then◌else◌, length, err, ok, Result, any, arith, eq_iff,
}
use apo.Access.Difference.{mem}
use apo.Access.Filters.{both}
use apo.Access.Permissions.{AuthPermission, grant_permission, is_row_of, role_subject}
use apo.Access.Permissions.Rows.{gives, grant_lem, has_permission, IsOfOthers}
use apo.Access.Permissions.Update.{grant-returns}
use apo.Access.Roles.{UserRole}
use apo.Access.Transaction.{
  Outcome, done, failed, panicked, transaction, Table, IsTable, transaction-done, run_all-cons,
  run_all, eq_of_done,
}
use apo.Access.RoleCreation.{
  create_if_users, create_if, CreateQueries, created_subject, with_role_id, grant_role_with_role,
  grant_permission_func, grant_role_func, without_role_id, apply_creation, create_role,
}

module _ {D : Type 0} where
  users-pass :
      (users : Result Bool) (d d2 : D) (part : D × Option String)
      → create_if_users users d part ≡ (d2, none)
      → part ≡ (d2, none)
  users-pass (err x) d d2 part e = absurd (ground (arith, ap (λ (y : D × Option String). y.1) e))
  users-pass (ok false) d d2 part e = absurd (ground (arith, ap (λ (y : D × Option String). y.1) e))
  users-pass (ok true) d d2 part e = e

  counted-pass :
      (same : Bool) (d d2 : D) (part : D × Option String)
      → (if same then part else (d, some "permission does not exist")) ≡ (d2, none)
      → part ≡ (d2, none)
  counted-pass true d d2 part e = e
  counted-pass false d d2 part e = absurd (ground (arith, ap (λ (y : D × Option String). y.1) e))

  -- A creation that returns no error has passed the checks.
  checks-pass :
      (named found : Result (List ℕ)) (wanted : List ℕ) (users : Result Bool) (d d2 : D)
      (part : D × Option String)
      → create_if named found wanted users d part ≡ (d2, none)
      → part ≡ (d2, none)
  checks-pass (err x) found wanted users d d2 part e =
      absurd (ground (arith, ap (λ (y : D × Option String). y.1) e))
  checks-pass (ok (id ∷ ids)) found wanted users d d2 part e =
      absurd (ground (arith, ap (λ (y : D × Option String). y.1) e))
  checks-pass (ok []) (err x) wanted users d d2 part e =
      absurd (ground (arith, ap (λ (y : D × Option String). y.1) e))
  checks-pass (ok []) (ok found) wanted users d d2 part e =
      users-pass users d d2 part (counted-pass (length found == length wanted) d d2 _ e)

  with_role_id-done :
      (role_id : ℕ) (o : Outcome D) (s : D × ℕ)
      → with_role_id role_id o ≡ done s
      → (o ≡ done s.0) × (role_id ≡ s.1)
  with_role_id-done role_id (done d) s e =
      (ap (λ (x : D × ℕ). done x.0) (eq_of_done e), ap (λ (x : D × ℕ). x.1) (eq_of_done e))
  with_role_id-done role_id (failed x) s e = absurd (ground (arith, e))
  with_role_id-done role_id panicked s e = absurd (ground (arith, e))

  with_role_id-returns :
      (role_id : ℕ) (o : Outcome D) → o ≢ panicked → with_role_id role_id o ≢ panicked
  with_role_id-returns role_id (done d) h e = absurd (ground (arith, e))
  with_role_id-returns role_id (failed x) h e = absurd (ground (arith, e))
  with_role_id-returns role_id panicked h e = h refl

  without_role_id-done :
      (r : (D × ℕ) × Option String) (d2 : D)
      → without_role_id r ≡ (d2, none)
      → r ≡ ((d2, r.0.1), none)
  without_role_id-done ((d, role_id), o) d2 e =
      cc (ap (λ (y : D × Option String). y.0) e, ap (λ (y : D × Option String). y.1) e)

not_feature :
    (r : AuthPermission) (role_id : ℕ)
    → r.subject_type ≡ "role"
    → is_row_of (created_subject role_id) r ≡ false
not_feature r role_id e = rw e (ground arith)

-- The rows that give a role its features are not those of the subject that was granted to.
role-IsOfOthers :
    (role_id x : ℕ) → IsOfOthers (created_subject role_id) (gives (role_subject role_id) x)
role-IsOfOthers role_id x r h =
    let (of_role, same) = both (is_row_of (role_subject role_id) r) (r.permission_id == x) h in
    let (id, types) = both (r.subject_id == role_id) _ of_role in
    let (role, feature) = both (str_eq r.subject_type "role") (str_eq r.typ "feature") types in
    not_feature r role_id ((eq_iff r.subject_type "role").0 role)

module _ {D : Type 0} (t : Table AuthPermission D) (u : Table UserRole D)
    (rows : D → List AuthPermission) (laws : IsTable t rows) (user_rows : D → List UserRole)
    (user_laws : IsTable u user_rows)
    (keeps : (new : List UserRole) (d d2 : D) → u.create new d ≡ done d2 → rows d2 ≡ rows d) where
  steps-done :
      (commit : D → Option String) (insert_role : D → Outcome (D × ℕ)) (wanted user_ids : List ℕ)
      (d d2 : D)
      → ((x : D) → insert_role x ≢ panicked)
      → apply_creation t u commit insert_role wanted user_ids d ≡ (d2, none)
      → (role_id : ℕ) × (d0 : D) × (d1 : D) × (insert_role d ≡ done (d0, role_id))
        × (grant_permission t (created_subject role_id) wanted d0 ≡ done d1)
        × (grant_role_with_role t u role_id user_ids d1 ≡ done d2)
  unfolding apply_creation grant_permission_func grant_role_func run_all
  steps-done commit insert_role wanted user_ids d d2 returns e =
      let insert : D × ℕ → Outcome (D × ℕ) = λ s. insert_role s.0 in
      let grant = grant_permission_func t u wanted in
      let give = grant_role_func t u user_ids in
      let last =
        (transaction (λ (s : D × ℕ). commit s.0) (insert ∷ grant ∷ give ∷ []) (d, 0)).0.1 in
      let ran =
        transaction-done (λ (s : D × ℕ). commit s.0) (insert ∷ grant ∷ give ∷ []) (d, 0) (d2, last)
          (
            λ s. returns s.0,
            (
              λ s.
                  with_role_id-returns s.1 _
                    (grant-returns t rows laws (created_subject s.1) wanted s.0),
              (λ s. with_role_id-returns s.1 _ (user_laws.create_returns _ s.0), tt),
            ),
          )
          (without_role_id-done _ d2 e) in
      let (s0, inserted, rest0) = run_all-cons insert (grant ∷ give ∷ []) (d, 0) (d2, last) ran in
      let (s1, granted, rest1) = run_all-cons grant (give ∷ []) s0 (d2, last) rest0 in
      let (s2, given, end) = run_all-cons give [] s1 (d2, last) rest1 in
      let (granted_rows, same) = with_role_id-done s0.1 _ s1 granted in
      let (given_rows, same2) = with_role_id-done s1.1 _ s2 given in
      (
        s0.1,
        s0.0,
        s1.0,
        inserted,
        granted_rows,
        ap (λ i. grant_role_with_role t u i user_ids s1.0) same
            ∙ given_rows
            ∙ ap (λ (s : D × ℕ). done s.0) (eq_of_done end),
      )

  -- When `CreateRole` returns no error, the role that was inserted has the features that it had
  -- before, whatever was asked for: the rows that were added are those of a subject of the type
  -- `feature` with permissions of the type `role`. Inserting the role and its users does not change
  -- the table of permissions.
  pub create_role-permissions :
      (queries : CreateQueries) (commit : D → Option String)
      (insert_role : String → D → Outcome (D × ℕ)) (role_name : String) (wanted user_ids : List ℕ)
      (d d2 : D)
      → ((x : D) → insert_role role_name x ≢ panicked)
      → ((x x2 : D) (id : ℕ) → insert_role role_name x ≡ done (x2, id) → rows x2 ≡ rows x)
      → create_role t u queries commit insert_role role_name wanted user_ids d ≡ (d2, none)
      → (role_id : ℕ) × (d0 : D) × (insert_role role_name d ≡ done (d0, role_id))
        × ((x : ℕ)
            → (has_permission rows (role_subject role_id) x d2
                ≡ has_permission rows (role_subject role_id) x d)
              × (has_permission rows (created_subject role_id) x d2
                  ≡ (has_permission rows (created_subject role_id) x d || mem x wanted)))
  unfolding create_role grant_role_with_role
  create_role-permissions queries commit insert_role role_name wanted user_ids d d2 returns same e =
      let (role_id, d0, d1, inserted, granted, given) =
        steps-done commit (insert_role role_name) wanted user_ids d d2 returns (
          checks-pass (queries.get_roles role_name) (queries.get_feature wanted) wanted
            (queries.user_exists user_ids) d d2 _ e) in
      let (added, others) = grant_lem t rows laws (created_subject role_id) wanted d0 d1 granted in
      let last = keeps _ d1 d2 given in
      let first = same d d0 role_id inserted in
      (
        role_id,
        d0,
        inserted,
        λ x. (
          ap (any (gives (role_subject role_id) x)) last
              ∙ others _ (role-IsOfOthers role_id x)
              ∙ ap (any (gives (role_subject role_id) x)) first,
          ap (any (gives (created_subject role_id) x)) last
              ∙ added x
              ∙ ap (λ ps. any (gives (created_subject role_id) x) ps || mem x wanted) first,
        ),
      )
