-- ===== src/Access/Permissions.antt =====
-- dao_permission.go, `PermissionOperation` of service_permission.go and `UpdateRole` of
-- service_update_role.go. Errors are their messages.
pub mod Rows
pub mod Effect
pub mod Update
use text.Mathlib.Text.{◌==◌ as str_eq}
use apo.Common.{
  ℕ, String, Bool, true, false, not, ◌&&◌, ◌||◌, ◌≡◌, refl, Option, none, some, List, [], ◌∷◌, map,
  ◌==◌, if◌then◌else◌, err, ok, Result,
}
use apo.Access.Difference.{to_set, mem, difference}
use apo.Access.Transaction.{done, Outcome, transaction, Table}

-- A row, without the id that the database gives it.
pub record AuthPermission : Type 0 where
  pub typ : String
  pub subject_id : ℕ
  pub subject_type : String
  pub permission_id : ℕ

-- The subject of a permission, with the type of its permissions.
pub record Subject : Type 0 where
  pub subject_id : ℕ
  pub subject_type : String
  pub typ : String

-- "subject_id = ? AND subject_type = ? AND type = ?"
abbrev pub is_row_of : Subject → AuthPermission → Bool
is_row_of s row =
    row.subject_id == s.subject_id
    && (str_eq row.subject_type s.subject_type && str_eq row.typ s.typ)

abbrev pub row_of : Subject → ℕ → AuthPermission
row_of s id = record {
  typ = s.typ;
  subject_id = s.subject_id;
  subject_type = s.subject_type;
  permission_id = id;
}

abbrev pub permission_ids : Result (List AuthPermission) → Result (List ℕ)
permission_ids (ok rows) = ok (map (λ r. r.permission_id) rows)
permission_ids (err e) = err e

abbrev pub is_nil : List ℕ → Bool
is_nil [] = true
is_nil (id ∷ ids) = false

-- What the services ask the other tables.
pub record Queries : Type 0 where
  pub role_exists : ℕ → Result Bool
  pub user_exists : ℕ → Result Bool
  pub team_exists : ℕ → Result Bool
  pub get_feature : Result (List ℕ)
  pub get_roles : String → Result (List ℕ)

abbrev pub known_features : Result (List ℕ) → List ℕ
known_features (ok ids) = ids
known_features (err e) = []

-- The error of `GetFeature` is returned only at the end, if the loop has not set another.
abbrev pub difference_result : Result (List ℕ) → Option (List ℕ × List ℕ) → Result (List ℕ × List ℕ)
difference_result features none = err "permission does not exist"
difference_result (ok ids) (some sets) = ok sets
difference_result (err e) (some sets) = err e

unfoldable pub difference_of_held :
    Result (List ℕ) → List ℕ → Result (List ℕ) → Result (List ℕ × List ℕ)
unfolding difference
difference_of_held features wanted (err e) = err e
difference_of_held features wanted (ok held) =
    difference_result features
      (difference (λ id. mem id (known_features features)) (to_set held) wanted)

-- `none` is the `default` of the switch.
abbrev pub subject_exists : Queries → Subject → Option (Result Bool)
subject_exists queries s =
    if str_eq s.subject_type "role"
    then some (queries.role_exists s.subject_id)
    else if str_eq s.subject_type "user"
    then some (queries.user_exists s.subject_id)
    else if str_eq s.subject_type "team"
    then some (queries.team_exists s.subject_id)
    else none

abbrev pub operate_if {ℓ} :
    {D : Type ℓ} → Option (Result Bool) → D → D × Option String → D × Option String
operate_if none d then_part = (d, none)
operate_if (some (err e)) d then_part = (d, some e)
operate_if (some (ok false)) d then_part = (d, some "subject of authorisation does not exist")
operate_if (some (ok true)) d then_part = then_part

abbrev pub update_if {ℓ} :
    {D : Type ℓ} → Result Bool → Result (List ℕ) → D → D × Option String → D × Option String
update_if (err e) named d then_part = (d, some e)
update_if (ok exists) (err e) d then_part = (d, some e)
update_if (ok exists) (ok (id ∷ ids)) d then_part = (d, some "role already exist")
update_if (ok false) (ok []) d then_part = (d, some "role does not exist")
update_if (ok true) (ok []) d then_part = then_part

abbrev pub role_subject : ℕ → Subject
role_subject role_id = record { subject_id = role_id; subject_type = "role"; typ = "feature" }

module _ {D : Type 0} (t : Table AuthPermission D) where
  unfoldable pub get_subject_permission : Subject → D → Result (List ℕ)
  get_subject_permission s d = permission_ids (t.find (is_row_of s) d)

  unfoldable pub grant_permission : Subject → List ℕ → D → Outcome D
  grant_permission s ids d = if is_nil ids then done d else t.create (map (row_of s) ids) d

  -- Without ids, all rows of the subject are deleted.
  unfoldable pub revoke_permission : Subject → List ℕ → D → Outcome D
  revoke_permission s ids d =
      t.delete (λ row. is_row_of s row && (is_nil ids || mem row.permission_id ids)) d

  unfoldable pub get_add_and_delete_permissions :
      Queries → Subject → List ℕ → D → Result (List ℕ × List ℕ)
  unfolding get_subject_permission difference_of_held
  get_add_and_delete_permissions queries s wanted d =
      difference_of_held queries.get_feature wanted (get_subject_permission s d)

  -- The steps of `PermissionOperation`, each with its guard.
  unfoldable pub grant_func : Subject → List ℕ → D → Outcome D
  unfolding grant_permission
  grant_func s ids d = if is_nil ids then done d else grant_permission s ids d

  unfoldable pub revoke_func : Subject → List ℕ → D → Outcome D
  unfolding revoke_permission
  revoke_func s ids d = if is_nil ids then done d else revoke_permission s ids d

  unfoldable pub apply_operation :
      (D → Option String) → Subject → D → Result (List ℕ × List ℕ) → D × Option String
  unfolding transaction grant_func revoke_func
  apply_operation commit s d (err e) = (d, some e)
  apply_operation commit s d (ok (added, deleted)) =
      transaction commit (grant_func s added ∷ revoke_func s deleted ∷ []) d

  unfoldable pub permission_operation :
      Queries → (D → Option String) → Subject → List ℕ → D → D × Option String
  unfolding get_add_and_delete_permissions apply_operation
  permission_operation queries commit s wanted d =
      operate_if (subject_exists queries s) d
        (apply_operation commit s d (get_add_and_delete_permissions queries s wanted d))

  unfoldable pub apply_update :
      (D → Option String)
      → (D → Outcome D)
      → Subject
      → D
      → Result (List ℕ × List ℕ)
      → D × Option String
  unfolding transaction grant_permission revoke_permission
  apply_update commit write_role s d (err e) = (d, some e)
  apply_update commit write_role s d (ok (added, deleted)) =
      transaction commit (write_role ∷ grant_permission s added ∷ revoke_permission s deleted ∷ [])
        d

  -- `write_role` is the update of the role's own row, with the description of the request.
  unfoldable pub update_role :
      Queries
      → (D → Option String)
      → (ℕ → String → D → Outcome D)
      → ℕ
      → String
      → List ℕ
      → D
      → D × Option String
  unfolding get_add_and_delete_permissions apply_update
  update_role queries commit write_role role_id role_name wanted d =
      update_if (queries.role_exists role_id) (queries.get_roles role_name) d (
        apply_update commit (write_role role_id role_name) (role_subject role_id) d
          (get_add_and_delete_permissions queries (role_subject role_id) wanted d))
