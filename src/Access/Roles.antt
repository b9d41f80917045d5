-- ===== src/Access/Roles.antt =====
-- `GetAddDeleteRoles` and `RoleOperation` of service_user_role.go, with the functions of
-- dao_role.go that they call. Errors are their messages.
use apo.Common.{
  ◌∙◌, ap, ℕ, String, Bool, true, false, not, ◌&&◌, ◌≡◌, refl, Option, none, some, List, [], ◌∷◌,
  map, arith, any, ◌==◌, eq_of_ok, err, ok, Result,
}
use apo.Access.Difference.{
  mem-map, mem-to_set, difference_lem, difference-fails, mem_after, to_set, difference, mem,
}
use apo.Access.Filters.{any-keep}
use apo.Access.Memberships.{change_links_lem, delete_links, insert_links, Links}
use apo.Access.Transaction.{Outcome, IsTable, transaction, Table}

pub record UserRole : Type 0 where
  pub user_id : ℕ
  pub role_id : ℕ

abbrev pub is_role_of : ℕ → UserRole → Bool
is_role_of user_id row = row.user_id == user_id

abbrev pub user_role : ℕ → ℕ → UserRole
user_role user_id role_id = record { user_id = user_id; role_id = role_id }

abbrev pub role_links : ℕ → Links UserRole
role_links user_id = record {
  is_of = is_role_of user_id;
  id_of = λ row. row.role_id;
  row_of = user_role user_id;
  is_of_lem = λ id. ground arith;
  id_of_lem = λ id. refl;
}

abbrev pub role_sets : Option (List ℕ × List ℕ) → Result (List ℕ × List ℕ)
role_sets none = err "role does not exist"
role_sets (some sets) = ok sets

-- The roles to add and to delete.
unfoldable pub get_add_delete_roles : List UserRole → List ℕ → List ℕ → Result (List ℕ × List ℕ)
unfolding difference
get_add_delete_roles user_roles want all =
    role_sets (difference (λ id. mem id all) (to_set (map (λ r. r.role_id) user_roles)) want)

module _ {D : Type 0} (t : Table UserRole D) where
  unfoldable pub get_user_role : ℕ → D → Result (List UserRole)
  get_user_role user_id d = t.find (is_role_of user_id) d

  unfoldable pub grant_role_with_user : ℕ → List ℕ → D → Outcome D
  unfolding insert_links
  grant_role_with_user user_id role_ids d = insert_links (role_links user_id) t role_ids d

  unfoldable pub revoke_role : ℕ → List ℕ → D → Outcome D
  unfolding delete_links
  revoke_role user_id role_ids d = delete_links (role_links user_id) t role_ids d

  unfoldable pub change_roles :
      (D → Option String) → ℕ → D → Result (List ℕ × List ℕ) → D × Option String
  unfolding transaction grant_role_with_user revoke_role
  change_roles commit user_id d (err e) = (d, some e)
  change_roles commit user_id d (ok (added, deleted)) =
      transaction commit (grant_role_with_user user_id added ∷ revoke_role user_id deleted ∷ []) d

  -- The reads of the operation, in their order.
  unfoldable pub role_operation_on :
      (D → Option String)
      → ℕ
      → List ℕ
      → D
      → Result (List UserRole)
      → Result (List ℕ)
      → D × Option String
  unfolding get_add_delete_roles change_roles
  role_operation_on commit user_id want d (err e) all = (d, some e)
  role_operation_on commit user_id want d (ok held) (err e) = (d, some e)
  role_operation_on commit user_id want d (ok held) (ok all) =
      change_roles commit user_id d (get_add_delete_roles held want all)

  -- `all_roles` is what `GetRoles` gives.
  unfoldable pub role_operation :
      (D → Option String) → Result (List ℕ) → ℕ → List ℕ → D → D × Option String
  unfolding get_user_role role_operation_on
  role_operation commit all_roles user_id want d =
      role_operation_on commit user_id want d (get_user_role user_id d) all_roles

role_sets-ok :
    (o : Option (List ℕ × List ℕ)) (sets : List ℕ × List ℕ) → role_sets o ≡ ok sets → o ≡ some sets
role_sets-ok none sets e = absurd (ground (arith, e))
role_sets-ok (some x) sets e = ap some (eq_of_ok e)

-- `GetAddDeleteRoles` refuses a request that names an unknown role. Otherwise it gives roles to
-- add and to delete, so that what the user had becomes what is wanted, and it deletes exactly
-- what the user had and is not wanted.
pub get_add_delete_roles_lem :
    (user_roles : List UserRole) (want all : List ℕ)
    → (any (λ id. not (mem id all)) want ≡ true
        → get_add_delete_roles user_roles want all ≡ err "role does not exist")
      × (any (λ id. not (mem id all)) want ≡ false
          → (added : List ℕ) × (deleted : List ℕ) × (get_add_delete_roles user_roles want all
              ≡ ok (added, deleted))
            × ((x : ℕ)
                → (mem_after x (to_set (map (λ r. r.role_id) user_roles)) added deleted
                    ≡ mem x want)
                  × (mem x deleted
                      ≡ (mem x (map (λ r. r.role_id) user_roles) && not (mem x want)))))
unfolding get_add_delete_roles
get_add_delete_roles_lem user_roles want all =
    let held = map (λ (r : UserRole). r.role_id) user_roles in
    let (bad, good) = difference-fails (λ id. mem id all) (to_set held) want in
    (
      λ h. ap role_sets (bad h),
      λ h.
          let ((added, deleted), e) = good h in
          (
            added,
            deleted,
            ap role_sets e,
            λ x.
                let (after, left) =
                  difference_lem (λ id. mem id all) (to_set held) want added deleted e x in
                (after, left ∙ ap (λ b. b && not (mem x want)) (mem-to_set x held)),
          ),
    )

module _ {D : Type 0} (t : Table UserRole D) (rows : D → List UserRole)
    (laws : IsTable t rows) where
  change_roles-done :
      (commit : D → Option String) (user_id : ℕ) (d d2 : D) (o : Result (List ℕ × List ℕ))
      → change_roles t commit user_id d o ≡ (d2, none)
      → (added : List ℕ) × (deleted : List ℕ) × (o ≡ ok (added, deleted))
        × (transaction commit
              (insert_links (role_links user_id) t added
                ∷ delete_links (role_links user_id) t deleted
                ∷ [])
              d
            ≡ (d2, none))
  unfolding change_roles grant_role_with_user revoke_role
  change_roles-done commit user_id d d2 (err x) e =
      absurd (ground (arith, ap (λ (y : D × Option String). y.1) e))
  change_roles-done commit user_id d d2 (ok (added, deleted)) e = (added, deleted, refl, e)

  held-links :
      (user_id x : ℕ) (d : D) (held : List UserRole)
      → get_user_role t user_id d ≡ ok held
      → mem x (map (λ r. r.role_id) held)
        ≡ any (λ r. is_role_of user_id r && r.role_id == x) (rows d)
  unfolding get_user_role
  held-links user_id x d held at =
      mem-map (λ (r : UserRole). r.role_id) x held
      ∙ (laws.find_rows (is_role_of user_id) d held at _ ∙ any-keep _ (is_role_of user_id) (rows d))

  -- When `RoleOperation` returns no error, the user has exactly the roles of the request, and the
  -- roles of other users have not changed.
  pub role_operation-roles :
      (commit : D → Option String) (all_roles : Result (List ℕ)) (user_id : ℕ) (want : List ℕ)
      (d d2 : D)
      → role_operation t commit all_roles user_id want d ≡ (d2, none)
      → ((x : ℕ) → any (λ r. is_role_of user_id r && r.role_id == x) (rows d2) ≡ mem x want)
        × ((p : UserRole → Bool)
            → ((r : UserRole) → p r ≡ true → is_role_of user_id r ≡ false)
            → any p (rows d2) ≡ any p (rows d))
  unfolding role_operation
  role_operation-roles commit all_roles user_id want d d2 e =
      of_reads (get_user_role t user_id d) all_roles refl e
    where
      of_reads :
          (held : Result (List UserRole)) (all : Result (List ℕ))
          → get_user_role t user_id d ≡ held
          → role_operation_on t commit user_id want d held all ≡ (d2, none)
          → ((x : ℕ) → any (λ r. is_role_of user_id r && r.role_id == x) (rows d2) ≡ mem x want)
            × ((p : UserRole → Bool)
                → ((r : UserRole) → p r ≡ true → is_role_of user_id r ≡ false)
                → any p (rows d2) ≡ any p (rows d))
      of_reads (err y) all at h = absurd (ground (arith, ap (λ (z : D × Option String). z.1) h))
      of_reads (ok held) (err y) at h =
          absurd (ground (arith, ap (λ (z : D × Option String). z.1) h))
      of_reads (ok held) (ok all) at h =
          let (added, deleted, sets, changed) = change_roles-done commit user_id d d2 _ h in
          change_links_lem (role_links user_id) t rows laws commit (λ id. mem id all)
            (map (λ r. r.role_id) held) want added deleted d d2 (role_sets-ok _ _ sets)
            (λ x. held-links user_id x d held at) changed
