-- ===== src/Access/Teams/Effect.antt =====
-- What `TeamOperation` and `TeamUserOperation` do to the table of users and teams.
use apo.Common.{
  ◌∙◌, sym, ap, ℕ, String, Bool, true, false, not, ◌&&◌, ◌||◌, ◌≡◌, refl, Option, none, some, List,
  [], ◌∷◌, map, arith, any, ◌==◌, eq_of_ok, Result,
}
use apo.Access.Difference.{mem-to_set, difference_lem, mem-map, to_set, difference-fails, mem}
use apo.Access.Filters.{any-keep}
use apo.Access.Memberships.{change_links_lem, insert_links, delete_links}
use apo.Access.Teams.{
  user_links, assign_user_to_team, err, remove_from_team_by_team, get_user_teams,
  invite_user_to_team, team_user_operation_on, change_users, get_team_users, ok, team_operation_on,
  team_user_operation, change_teams, ids_of, team_operation, UserTeam,
}
use apo.Access.Transaction.{transaction, Table, run_all, IsTable}

ids_of-ok :
    (f : UserTeam → ℕ) (o : Result (List UserTeam)) (held : List ℕ)
    → ids_of f o ≡ ok held
    → (rows : List UserTeam) × (o ≡ ok rows) × (map f rows ≡ held)
ids_of-ok f (ok rows) held e = (rows, refl, eq_of_ok e)
ids_of-ok f (err x) held e = absurd (ground (arith, e))

-- A list that has an id has a first one.
nonempty :
    (x : ℕ) (ids : List ℕ) → mem x ids ≡ true → (id : ℕ) × (rest : List ℕ) × (ids ≡ id ∷ rest)
nonempty x [] h = absurd (ground (arith, h))
nonempty x (id ∷ ids) h = (id, ids, refl)

new_is_added :
    (held deleted added wanted : Bool)
    → held ≡ false
    → wanted ≡ true
    → ((held && not deleted) || added) ≡ wanted
    → added ≡ true
new_is_added held deleted added wanted h1 h2 h = ground (arith, h1, h2, h)

module _ {D : Type 0} (t : Table UserTeam D) where
  panics :
      (commit : D → Option String) (user_id id : ℕ) (ids to_delete : List ℕ) (d : D)
      → change_teams t commit user_id d (some (id ∷ ids, to_delete)) ≡ (d, none)
  unfolding change_teams transaction run_all assign_user_to_team
  panics commit user_id id ids to_delete d = refl

  -- When the user is not in one of the wanted teams, all wanted teams exist and the reads succeed,
  -- `TeamOperation` returns no error and changes nothing.
  pub team_operation-unchanged :
      (commit : D → Option String) (all held wanted : List ℕ) (user_id id : ℕ) (d : D)
      → get_user_teams t user_id d ≡ ok held
      → any (λ x. not (mem x all)) wanted ≡ false
      → mem id wanted ≡ true
      → mem id held ≡ false
      → team_operation t commit (ok all) user_id wanted d ≡ (d, none)
  unfolding team_operation team_operation_on
  team_operation-unchanged commit all held wanted user_id id d read known wanted_id new =
      let ((to_add, to_delete), sets) =
        (difference-fails (λ x. mem x all) (to_set held) wanted).1 known in
      let (after, left) =
        difference_lem (λ x. mem x all) (to_set held) wanted to_add to_delete sets id in
      let (first, rest, shape) =
        nonempty id to_add (new_is_added _ _ _ _ (mem-to_set id held ∙ new) wanted_id after) in
      ap (λ o. team_operation_on t commit user_id wanted d o (ok all)) read
      ∙ (ap (change_teams t commit user_id d) (sets ∙ ap (λ l. some (l, to_delete)) shape)
          ∙ panics commit user_id first rest to_delete d)

module _ {D : Type 0} (t : Table UserTeam D) (rows : D → List UserTeam)
    (laws : IsTable t rows) where
  held-users :
      (team_id x : ℕ) (d : D) (held : List ℕ)
      → get_team_users t team_id d ≡ ok held
      → mem x held ≡ any (λ r. r.team_id == team_id && r.user_id == x) (rows d)
  unfolding get_team_users
  held-users team_id x d held at =
      let (found, read, same) = ids_of-ok _ _ held at in
      ap (mem x) (sym same)
      ∙ (mem-map (λ (r : UserTeam). r.user_id) x found
          ∙ (laws.find_rows _ d found read _ ∙ any-keep _ _ (rows d)))

  change_users-done :
      (commit : D → Option String) (team_id : ℕ) (d d2 : D) (added deleted : List ℕ)
      → change_users t commit team_id d (some (added, deleted)) ≡ (d2, none)
      → transaction commit
          (insert_links (user_links team_id) t added
            ∷ delete_links (user_links team_id) t deleted
            ∷ [])
          d
        ≡ (d2, none)
  unfolding change_users invite_user_to_team remove_from_team_by_team insert_links transaction
      run_all
  change_users-done commit team_id d d2 [] deleted e = e
  change_users-done commit team_id d d2 (id ∷ ids) deleted e = e

  all_known : (wanted : List ℕ) → any (λ (x : ℕ). not true) wanted ≡ false
  all_known [] = refl
  all_known (x ∷ wanted) = all_known wanted

  -- When `TeamUserOperation` returns no error, the team has exactly the users of the request, and
  -- the users of other teams have not changed.
  pub team_user_operation-users :
      (commit : D → Option String) (team_exists users_exist : Result Bool) (team_id : ℕ)
      (wanted : List ℕ) (d d2 : D)
      → team_user_operation t commit team_exists users_exist team_id wanted d ≡ (d2, none)
      → ((x : ℕ) → any (λ r. r.team_id == team_id && r.user_id == x) (rows d2) ≡ mem x wanted)
        × ((p : UserTeam → Bool)
            → ((r : UserTeam) → p r ≡ true → (r.team_id == team_id) ≡ false)
            → any p (rows d2) ≡ any p (rows d))
  unfolding team_user_operation team_user_operation_on
  team_user_operation-users commit team_exists users_exist team_id wanted d d2 e =
      of_reads team_exists users_exist (get_team_users t team_id d) refl e
    where
      of_reads :
          (team users : Result Bool) (held : Result (List ℕ))
          → get_team_users t team_id d ≡ held
          → team_user_operation_on t commit team_id wanted d team users held ≡ (d2, none)
          → ((x : ℕ) → any (λ r. r.team_id == team_id && r.user_id == x) (rows d2) ≡ mem x wanted)
            × ((p : UserTeam → Bool)
                → ((r : UserTeam) → p r ≡ true → (r.team_id == team_id) ≡ false)
                → any p (rows d2) ≡ any p (rows d))
      of_reads (ok true) (ok true) (ok held) at h =
          let ((added, deleted), sets) =
            (difference-fails (λ x. true) (to_set held) wanted).1 (all_known wanted) in
          change_links_lem (user_links team_id) t rows laws commit (λ x. true) held wanted added
            deleted d d2 sets (λ x. held-users team_id x d held at)
            (change_users-done commit team_id d d2 added deleted
              (ap (change_users t commit team_id d) (sym sets) ∙ h))
      of_reads (ok true) (ok true) (err y) at h =
          absurd (ground (arith, ap (λ (z : D × Option String). z.1) h))
      of_reads (ok true) (ok false) held at h =
          absurd (ground (arith, ap (λ (z : D × Option String). z.1) h))
      of_reads (ok true) (err y) held at h =
          absurd (ground (arith, ap (λ (z : D × Option String). z.1) h))
      of_reads (ok false) users held at h =
          absurd (ground (arith, ap (λ (z : D × Option String). z.1) h))
      of_reads (err y) users held at h =
          absurd (ground (arith, ap (λ (z : D × Option String). z.1) h))
