-- ===== src/Access/Teams.antt =====
-- `TeamOperation` of service_team_opreation.go and `TeamUserOperation` of
-- service_team_user_operation.go, with the functions of dao_team.go that they call.
use apo.Common.{
  ℕ, String, Bool, true, false, not, ◌&&◌, ◌||◌, ◌≡◌, ◌≢◌, refl, Option, none, some, List, [], ◌∷◌,
  map, arith, any, keep, ◌==◌, if◌then◌else◌, err, ok, Result,
}
use apo.Access.Difference.{mem, to_set, difference}
use apo.Access.Memberships.{delete_links, insert_links, Links}
use apo.Access.Transaction.{done, panicked, transaction, Outcome, Table}
pub mod Effect

pub record UserTeam : Type 0 where
  pub user_id : ℕ
  pub team_id : ℕ

abbrev pub team_links : ℕ → Links UserTeam
team_links user_id = record {
  is_of = λ row. row.user_id == user_id;
  id_of = λ row. row.team_id;
  row_of = λ team_id. record { user_id = user_id; team_id = team_id };
  is_of_lem = λ id. ground arith;
  id_of_lem = λ id. refl;
}

abbrev pub user_links : ℕ → Links UserTeam
user_links team_id = record {
  is_of = λ row. row.team_id == team_id;
  id_of = λ row. row.user_id;
  row_of = λ user_id. record { user_id = user_id; team_id = team_id };
  is_of_lem = λ id. ground arith;
  id_of_lem = λ id. refl;
}

-- The context of a call: Go's `nil`, or one that holds the transaction.
pub data Context : Type 0 where
  nil_context tx_context : Context

-- `GetContextDB` calls a method of the context, which panics on `nil`.
abbrev pub with_context {ℓ} : {D : Type ℓ} → Context → (D → Outcome D) → D → Outcome D
with_context nil_context f d = panicked
with_context tx_context f d = f d

abbrev pub ids_of : (UserTeam → ℕ) → Result (List UserTeam) → Result (List ℕ)
ids_of f (ok rows) = ok (map f rows)
ids_of f (err e) = err e

module _ {D : Type 0} (t : Table UserTeam D) where
  unfoldable pub get_user_teams : ℕ → D → Result (List ℕ)
  get_user_teams user_id d = ids_of (λ r. r.team_id) (t.find (λ r. r.user_id == user_id) d)

  unfoldable pub get_team_users : ℕ → D → Result (List ℕ)
  get_team_users team_id d = ids_of (λ r. r.user_id) (t.find (λ r. r.team_id == team_id) d)

  unfoldable pub assign_user_to_team : Context → ℕ → List ℕ → D → Outcome D
  unfolding insert_links
  assign_user_to_team ctx user_id [] d = done d
  assign_user_to_team ctx user_id (id ∷ ids) d =
      with_context ctx (insert_links (team_links user_id) t (id ∷ ids)) d

  unfoldable pub invite_user_to_team : Context → ℕ → List ℕ → D → Outcome D
  unfolding insert_links
  invite_user_to_team ctx team_id [] d = done d
  invite_user_to_team ctx team_id (id ∷ ids) d =
      with_context ctx (insert_links (user_links team_id) t (id ∷ ids)) d

  unfoldable pub remove_from_team_by_user : Context → ℕ → List ℕ → D → Outcome D
  unfolding delete_links
  remove_from_team_by_user ctx user_id ids d =
      with_context ctx (delete_links (team_links user_id) t ids) d

  unfoldable pub remove_from_team_by_team : Context → ℕ → List ℕ → D → Outcome D
  unfolding delete_links
  remove_from_team_by_team ctx team_id ids d =
      with_context ctx (delete_links (user_links team_id) t ids) d

  unfoldable pub change_teams :
      (D → Option String) → ℕ → D → Option (List ℕ × List ℕ) → D × Option String
  unfolding transaction assign_user_to_team remove_from_team_by_user
  change_teams commit user_id d none = (d, some "team does not exist")
  change_teams commit user_id d (some (to_add, to_delete)) =
      transaction commit
        (assign_user_to_team nil_context user_id to_add
          ∷ remove_from_team_by_user tx_context user_id to_delete
          ∷ [])
        d

  -- The two reads, of the user's teams and of all teams, and the difference.
  unfoldable pub team_operation_on :
      (D → Option String) → ℕ → List ℕ → D → Result (List ℕ) → Result (List ℕ) → D × Option String
  unfolding difference change_teams
  team_operation_on commit user_id wanted d (err e) all = (d, some e)
  team_operation_on commit user_id wanted d (ok held) (err e) = (d, some e)
  team_operation_on commit user_id wanted d (ok held) (ok all) =
      change_teams commit user_id d (difference (λ id. mem id all) (to_set held) wanted)

  unfoldable pub team_operation :
      (D → Option String) → Result (List ℕ) → ℕ → List ℕ → D → D × Option String
  unfolding get_user_teams team_operation_on
  team_operation commit all_teams user_id wanted d =
      team_operation_on commit user_id wanted d (get_user_teams user_id d) all_teams

  unfoldable pub change_users :
      (D → Option String) → ℕ → D → Option (List ℕ × List ℕ) → D × Option String
  unfolding transaction invite_user_to_team remove_from_team_by_team
  change_users commit team_id d none = (d, none)
  change_users commit team_id d (some (to_add, to_delete)) =
      transaction commit
        (invite_user_to_team tx_context team_id to_add
          ∷ remove_from_team_by_team tx_context team_id to_delete
          ∷ [])
        d

  -- Any wanted user may be added: `UserExists` has been asked for all of them.
  unfoldable pub team_user_operation_on :
      (D → Option String)
      → ℕ
      → List ℕ
      → D
      → Result Bool
      → Result Bool
      → Result (List ℕ)
      → D × Option String
  unfolding difference change_users
  team_user_operation_on commit team_id wanted d (err e) users held = (d, some e)
  team_user_operation_on commit team_id wanted d (ok false) users held =
      (d, some "team does not exist")
  team_user_operation_on commit team_id wanted d (ok true) (err e) held = (d, some e)
  team_user_operation_on commit team_id wanted d (ok true) (ok false) held =
      (d, some "user does not exist")
  team_user_operation_on commit team_id wanted d (ok true) (ok true) (err e) = (d, some e)
  team_user_operation_on commit team_id wanted d (ok true) (ok true) (ok held) =
      change_users commit team_id d (difference (λ id. true) (to_set held) wanted)

  -- `team_exists` is what `TeamExist` gives, `users_exist` what `UserExists` gives.
  unfoldable pub team_user_operation :
      (D → Option String) → Result Bool → Result Bool → ℕ → List ℕ → D → D × Option String
  unfolding get_team_users team_user_operation_on
  team_user_operation commit team_exists users_exist team_id wanted d =
      team_user_operation_on commit team_id wanted d team_exists users_exist
        (get_team_users team_id d)
