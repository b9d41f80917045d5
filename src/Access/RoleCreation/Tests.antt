-- ===== src/Access/RoleCreation/Tests.antt =====
-- A role that is created with two features and one user.
use apo.Common.{
  ◌∙◌, sym, ap, ℕ, String, true, not, ◌||◌, ◌≡◌, ◌≢◌, refl, Option, none, List, [], ◌∷◌, ◌++◌,
  arith, any, any-append, keep, ok, eq_of_ok,
}
use apo.Access.Difference.{mem}
use apo.Access.Permissions.{AuthPermission, role_subject, row_of}
use apo.Access.Permissions.Rows.{has_permission}
use apo.Access.Roles.{UserRole, user_role}
use apo.Access.RoleCreation.{CreateQueries, create_role, created_subject}
use apo.Access.RoleCreation.Granted.{create_role-permissions}
use apo.Access.Transaction.{Outcome, done, panicked, Table, IsTable, eq_of_done}

-- The table of permissions, and that of the roles of users.
abbrev Tables : Type 0
Tables = List AuthPermission × List UserRole

abbrev permissions : Table AuthPermission Tables
permissions = record {
  find = λ q d. ok (keep q d.0);
  create = λ new d. done (d.0 ++ new, d.1);
  delete = λ q d. done (keep (λ r. not (q r)) d.0, d.1);
}

abbrev user_roles : Table UserRole Tables
user_roles = record {
  find = λ q d. ok (keep q d.1);
  create = λ new d. done (d.0, d.1 ++ new);
  delete = λ q d. done (d.0, keep (λ r. not (q r)) d.1);
}

done-returns : {D : Type 0} (d : D) → done d ≢ panicked
done-returns d e = absurd (ground (arith, e))

permissions-IsTable : IsTable permissions (λ d. d.0)
permissions-IsTable = record {
  find_rows = λ q d found e p. ap (any p) (sym (eq_of_ok e));
  create_rows =
      λ new d d2 e p. ap (λ (x : Tables). any p x.0) (sym (eq_of_done e)) ∙ any-append p d.0 new;
  delete_rows = λ q d d2 e p. ap (λ (x : Tables). any p x.0) (sym (eq_of_done e));
  create_returns = λ new d. done-returns _;
  delete_returns = λ q d. done-returns _;
}

user_roles-IsTable : IsTable user_roles (λ d. d.1)
user_roles-IsTable = record {
  find_rows = λ q d found e p. ap (any p) (sym (eq_of_ok e));
  create_rows =
      λ new d d2 e p. ap (λ (x : Tables). any p x.1) (sym (eq_of_done e)) ∙ any-append p d.1 new;
  delete_rows = λ q d d2 e p. ap (λ (x : Tables). any p x.1) (sym (eq_of_done e));
  create_returns = λ new d. done-returns _;
  delete_returns = λ q d. done-returns _;
}

abbrev queries : CreateQueries
queries = record {
  get_roles = λ name. ok [];
  get_feature = λ ids. ok ids;
  user_exists = λ ids. ok true;
}

abbrev commits : Tables → Option String
commits d = none

abbrev insert_role : String → Tables → Outcome (Tables × ℕ)
insert_role name d = done (d, 7)

abbrev created : Tables
created = (row_of (created_subject 7) 1 ∷ row_of (created_subject 7) 2 ∷ [], user_role 4 7 ∷ [])

creation :
    create_role permissions user_roles queries commits insert_role "auditor"
      (1 ∷ 2 ∷ [])
      (4 ∷ [])
      ([], [])
    ≡ (created, none)
unfolding create_role
creation = refl

create_role-permissions_example :
    (role_id : ℕ) × (d0 : Tables) × (insert_role "auditor" ([], []) ≡ done (d0, role_id))
    × ((x : ℕ)
        → (has_permission (λ d. d.0) (role_subject role_id) x created
            ≡ has_permission (λ (d : Tables). d.0) (role_subject role_id) x ([], []))
          × (has_permission (λ d. d.0) (created_subject role_id) x created ≡ (
              has_permission (λ (d : Tables). d.0) (created_subject role_id) x ([], [])
              || mem x (1 ∷ 2 ∷ []))))
create_role-permissions_example =
    create_role-permissions permissions user_roles (λ d. d.0) permissions-IsTable (λ d. d.1)
      user_roles-IsTable (λ new d d2 e. ap (λ (x : Tables). x.0) (sym (eq_of_done e))) queries
      commits insert_role "auditor" (1 ∷ 2 ∷ []) (4 ∷ []) ([], []) created (λ x. done-returns _)
      (λ x x2 id e. ap (λ (y : Tables × ℕ). y.0.0) (sym (eq_of_done e))) creation
