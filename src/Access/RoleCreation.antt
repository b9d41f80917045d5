-- ===== src/Access/RoleCreation.antt =====
-- `CreateRole` of service_create_role.go, with the functions of dao_role.go that it calls. The
-- pointer to the role, whose id the database sets, is a part of the state of the transaction.
pub mod Granted
pub mod Tests
use apo.Common.{
  ℕ, String, Bool, true, false, ◌≡◌, Option, none, some, List, [], ◌∷◌, map, ◌==◌, if◌then◌else◌,
  length, err, ok, Result,
}
use apo.Access.Permissions.{AuthPermission, Subject, grant_permission}
use apo.Access.Roles.{UserRole, user_role}
use apo.Access.Transaction.{Outcome, done, failed, panicked, transaction, Table}

-- What `CreateRole` asks the tables of roles, features and users.
pub record CreateQueries : Type 0 where
  pub get_roles : String → Result (List ℕ)
  pub get_feature : List ℕ → Result (List ℕ)
  pub user_exists : List ℕ → Result Bool

abbrev pub create_if_users : {D : Type 0} → Result Bool → D → D × Option String → D × Option String
create_if_users (err e) d then_part = (d, some e)
create_if_users (ok false) d then_part = (d, some "user does not exist")
create_if_users (ok true) d then_part = then_part

-- The checks, from the roles with the name, the features that were found, and the users.
abbrev pub create_if :
    {D : Type 0}
    → Result (List ℕ)
    → Result (List ℕ)
    → List ℕ
    → Result Bool
    → D
    → D × Option String
    → D × Option String
create_if (err e) found wanted users d then_part = (d, some e)
create_if (ok (role ∷ roles)) found wanted users d then_part = (d, some "role already exists")
create_if (ok []) (err e) wanted users d then_part = (d, some e)
create_if (ok []) (ok found) wanted users d then_part =
    if length found == length wanted
    then create_if_users users d then_part
    else (d, some "permission does not exist")

-- The subject to which `CreateRole` grants: its call has the type of the permissions in the place of
-- the type of the subject, and the other way round.
abbrev pub created_subject : ℕ → Subject
created_subject role_id = record { subject_id = role_id; subject_type = "feature"; typ = "role" }

abbrev pub with_role_id : {D : Type 0} → ℕ → Outcome D → Outcome (D × ℕ)
with_role_id role_id (done d) = done (d, role_id)
with_role_id role_id (failed e) = failed e
with_role_id role_id panicked = panicked

abbrev pub without_role_id : {D : Type 0} → (D × ℕ) × Option String → D × Option String
without_role_id ((d, role_id), e) = (d, e)

module _ {D : Type 0} (t : Table AuthPermission D) (u : Table UserRole D) where
  unfoldable pub grant_role_with_role : ℕ → List ℕ → D → Outcome D
  grant_role_with_role role_id user_ids d =
      u.create (map (λ user_id. user_role user_id role_id) user_ids) d

  unfoldable pub grant_permission_func : List ℕ → D × ℕ → Outcome (D × ℕ)
  unfolding grant_permission
  grant_permission_func wanted (d, role_id) =
      with_role_id role_id (grant_permission t (created_subject role_id) wanted d)

  unfoldable pub grant_role_func : List ℕ → D × ℕ → Outcome (D × ℕ)
  unfolding grant_role_with_role
  grant_role_func user_ids (d, role_id) =
      with_role_id role_id (grant_role_with_role role_id user_ids d)

  -- `insert_role` inserts the row of the role and gives the id that it has.
  unfoldable pub apply_creation :
      (D → Option String) → (D → Outcome (D × ℕ)) → List ℕ → List ℕ → D → D × Option String
  unfolding transaction grant_permission_func grant_role_func
  apply_creation commit insert_role wanted user_ids d = without_role_id (
      transaction (λ s. commit s.0)
        ((λ s. insert_role s.0) ∷ grant_permission_func wanted ∷ grant_role_func user_ids ∷ [])
        (d, 0))

  unfoldable pub create_role :
      CreateQueries
      → (D → Option String)
      → (String → D → Outcome (D × ℕ))
      → String
      → List ℕ
      → List ℕ
      → D
      → D × Option String
  unfolding apply_creation
  create_role queries commit insert_role role_name wanted user_ids d =
      create_if (queries.get_roles role_name) (queries.get_feature wanted) wanted
        (queries.user_exists user_ids) d
        (apply_creation commit (insert_role role_name) wanted user_ids d)
