-- ===== src/Access/Tests.antt =====
-- Operations on tables that are lists of rows.
use apo.Common.{
  ◌∙◌, sym, ap, suc, ℕ, String, Bool, true, false, not, ◌&&◌, ◌≡◌, ◌≢◌, refl, Option, none, List,
  [], ◌∷◌, ◌++◌, arith, any, any-append, keep, ◌==◌, inl, eq_of_ok, ok,
}
use apo.Access.Difference.{mem}
use apo.Access.Permissions.{
  role_subject, row_of, AuthPermission, Queries, Subject, permission_operation, update_role,
}
use apo.Access.Permissions.Effect.{permission_operation-permissions}
use apo.Access.Permissions.Rows.{IsOfOthers, has_permission}
use apo.Access.Permissions.Update.{update_role-permissions}
use apo.Access.Roles.{role_operation-roles, user_role, UserRole, is_role_of, role_operation}
use apo.Access.Teams.{UserTeam, get_user_teams, team_operation, team_user_operation}
use apo.Access.Teams.Effect.{team_operation-unchanged, team_user_operation-users}
use apo.Access.Transaction.Steps.{transaction-Accounted, Accounted}
use apo.Access.Transaction.{
  eq_of_done, failed, panicked, IsTable, Outcome, Table, done, transaction,
}

abbrev list_table : (Row : Type 0) → Table Row (List Row)
list_table Row = record {
  find = λ q d. ok (keep q d);
  create = λ new d. done (d ++ new);
  delete = λ q d. done (keep (λ r. not (q r)) d);
}

done-returns : {D : Type 0} (d : D) → done d ≢ panicked
done-returns d e = absurd (ground (arith, e))

list_table-IsTable : (Row : Type 0) → IsTable (list_table Row) (λ d. d)
list_table-IsTable Row = record {
  find_rows = λ q d found e p. ap (any p) (sym (eq_of_ok e));
  create_rows = λ new d d2 e p. ap (any p) (sym (eq_of_done e)) ∙ any-append p d new;
  delete_rows = λ q d d2 e p. ap (any p) (sym (eq_of_done e));
  create_returns = λ new d. done-returns _;
  delete_returns = λ q d. done-returns _;
}

abbrev commits {ℓ} : {D : Type ℓ} → D → Option String
commits d = none

-- A role with the permissions 1 and 2, and a user with permission 1.
abbrev queries : Queries
queries = record {
  role_exists = λ id. ok (id == 7);
  user_exists = λ id. ok true;
  team_exists = λ id. ok true;
  get_feature = ok (1 ∷ 2 ∷ 3 ∷ []);
  get_roles = λ name. ok [];
}

abbrev user : Subject
user = record { subject_id = 4; subject_type = "user"; typ = "feature" }

abbrev permissions : List AuthPermission
permissions = row_of (role_subject 7) 1 ∷ row_of (role_subject 7) 2 ∷ row_of user 1 ∷ []

abbrev after_operation : List AuthPermission
after_operation = row_of (role_subject 7) 2 ∷ row_of user 1 ∷ row_of (role_subject 7) 3 ∷ []

abbrev write_role : ℕ → String → List AuthPermission → Outcome (List AuthPermission)
write_role role_id role_name d = done d

operation :
    permission_operation
      (list_table AuthPermission)
      queries
      commits
      (role_subject 7)
      (2 ∷ 3 ∷ [])
      permissions
    ≡ (after_operation, none)
unfolding permission_operation
operation = refl

permission_operation-permissions_example :
    ((x : ℕ) → has_permission (λ d. d) (role_subject 7) x after_operation ≡ mem x (2 ∷ 3 ∷ []))
    × ((p : AuthPermission → Bool)
        → IsOfOthers (role_subject 7) p
        → any p after_operation ≡ any p permissions)
permission_operation-permissions_example =
    permission_operation-permissions (list_table AuthPermission) (λ d. d)
      (list_table-IsTable AuthPermission) queries commits (role_subject 7) (2 ∷ 3 ∷ []) permissions
      after_operation (inl refl) operation

-- The request adds permission 3 to the role's own, and the role loses them all.
update :
    update_role
      (list_table AuthPermission)
      queries
      commits
      write_role
      7
      "ops"
      (1 ∷ 2 ∷ 3 ∷ [])
      permissions
    ≡ (row_of user 1 ∷ [], none)
unfolding update_role
update = refl

update_role-permissions_example :
    ((id : ℕ)
      → has_permission (λ d. d) (role_subject 7) id permissions ≡ true
      → mem id (1 ∷ 2 ∷ 3 ∷ []) ≡ false
      → (x : ℕ)
      → has_permission (λ d. d) (role_subject 7) x (row_of user 1 ∷ []) ≡ mem x (1 ∷ 2 ∷ 3 ∷ []))
    × (((id : ℕ)
          → has_permission (λ d. d) (role_subject 7) id permissions ≡ true
          → mem id (1 ∷ 2 ∷ 3 ∷ []) ≡ true)
        → (x : ℕ) → has_permission (λ d. d) (role_subject 7) x (row_of user 1 ∷ []) ≡ false)
update_role-permissions_example =
    update_role-permissions (list_table AuthPermission) (λ d. d) (list_table-IsTable AuthPermission)
      queries commits write_role 7 "ops" (1 ∷ 2 ∷ 3 ∷ []) permissions (row_of user 1 ∷ [])
      (λ x. done-returns x) (λ x y e. sym (eq_of_done e)) update

abbrev roles : List UserRole
roles = user_role 4 1 ∷ user_role 4 2 ∷ user_role 5 1 ∷ []

abbrev new_roles : List UserRole
new_roles = user_role 4 2 ∷ user_role 5 1 ∷ user_role 4 3 ∷ []

role_operation_run :
    role_operation (list_table UserRole) commits (ok (1 ∷ 2 ∷ 3 ∷ [])) 4 (2 ∷ 3 ∷ []) roles
    ≡ (new_roles, none)
unfolding role_operation
role_operation_run = refl

role_operation-roles_example :
    ((x : ℕ) → any (λ r. is_role_of 4 r && r.role_id == x) new_roles ≡ mem x (2 ∷ 3 ∷ []))
    × ((p : UserRole → Bool)
        → ((r : UserRole) → p r ≡ true → is_role_of 4 r ≡ false)
        → any p new_roles ≡ any p roles)
role_operation-roles_example =
    role_operation-roles (list_table UserRole) (λ d. d) (list_table-IsTable UserRole) commits
      (ok (1 ∷ 2 ∷ 3 ∷ [])) 4 (2 ∷ 3 ∷ []) roles new_roles role_operation_run

abbrev member : ℕ → ℕ → UserTeam
member user_id team_id = record { user_id = user_id; team_id = team_id }

abbrev members : List UserTeam
members = member 1 9 ∷ member 2 9 ∷ member 2 8 ∷ []

abbrev new_members : List UserTeam
new_members = member 2 9 ∷ member 2 8 ∷ member 3 9 ∷ []

team_user_operation_run :
    team_user_operation (list_table UserTeam) commits (ok true) (ok true) 9 (2 ∷ 3 ∷ []) members
    ≡ (new_members, none)
unfolding team_user_operation
team_user_operation_run = refl

team_user_operation-users_example :
    ((x : ℕ) → any (λ r. r.team_id == 9 && r.user_id == x) new_members ≡ mem x (2 ∷ 3 ∷ []))
    × ((p : UserTeam → Bool)
        → ((r : UserTeam) → p r ≡ true → (r.team_id == 9) ≡ false)
        → any p new_members ≡ any p members)
team_user_operation-users_example =
    team_user_operation-users (list_table UserTeam) (λ d. d) (list_table-IsTable UserTeam) commits
      (ok true) (ok true) 9 (2 ∷ 3 ∷ []) members new_members team_user_operation_run

teams_read : get_user_teams (list_table UserTeam) 1 members ≡ ok (9 ∷ [])
unfolding get_user_teams
teams_read = refl

-- User 1 is to join team 8 as well.
team_operation-unchanged_example :
    team_operation (list_table UserTeam) commits (ok (8 ∷ 9 ∷ [])) 1 (9 ∷ 8 ∷ []) members
    ≡ (members, none)
team_operation-unchanged_example =
    team_operation-unchanged (list_table UserTeam) commits (8 ∷ 9 ∷ []) (9 ∷ []) (9 ∷ 8 ∷ []) 1 8
      members teams_read refl refl refl

abbrev add_one : ℕ → Outcome ℕ
add_one n = done (suc n)

abbrev fails : ℕ → Outcome ℕ
fails n = failed "full"

abbrev steps : List (ℕ → Outcome ℕ)
steps = add_one ∷ fails ∷ []

transaction-Accounted_example : Accounted commits steps 5 (transaction commits steps 5)
transaction-Accounted_example = transaction-Accounted commits steps 5
