-- ===== src/DataGroups/GroupSubjects.antt =====
-- `GroupSubsOperation` of service_group_subs_operation.go: the users and the teams that have a data
-- group are replaced by those that the request lists. The database is a parameter.
pub mod Listed
pub mod Tests
use text.Mathlib.Text.{◌==◌ as str_eq}
use apo.Common.{
  Bool, Dict, String, List, Option, ℕ, [], ◌∷◌, ◌++◌, nat_eq, true, false, not, ◌&&◌, none, some,
  if◌then◌else◌, ok, err, Result, any, ◌==◌, put, lookup, remove,
}
use apo.Access.Transaction.{transaction}
use apo.DataGroups.Grants.{
  AuthDataGroup, GrantTable, Queries, ◌>>=◌, index_by, keys, assign_data_group,
  revoke_data_group_by_sub,
}

-- `request.AuthDataGroup`
pub record ListedSubject : Type 0 where
  pub subject_id : ℕ
  pub typ : String

module _ (group_id : ℕ) (subject_type : String) where
  abbrev pub new_subject : ListedSubject → AuthDataGroup
  new_subject sub = record {
    id = 0;
    subject_id = sub.subject_id;
    subject_type = subject_type;
    group_id = group_id;
    typ = sub.typ;
  }

  -- The rows to write, and the rows that are left in `subMap`.
  abbrev pub note_found :
      ListedSubject
      → Option AuthDataGroup
      → List AuthDataGroup × Dict ℕ AuthDataGroup
      → List AuthDataGroup × Dict ℕ AuthDataGroup
  note_found sub none (to_add, m) = (to_add ++ new_subject sub ∷ [], m)
  note_found sub (some ag) (to_add, m) = (
    if str_eq ag.typ sub.typ then to_add else to_add ++ record ag { typ = sub.typ } ∷ [],
    remove sub.subject_id m,
  )

  -- A subject that does not exist is passed over.
  abbrev pub note_subject :
      ListedSubject
      → Bool
      → List AuthDataGroup × Dict ℕ AuthDataGroup
      → List AuthDataGroup × Dict ℕ AuthDataGroup
  note_subject sub exists s = if exists then note_found sub (lookup sub.subject_id s.1) s else s

  unfoldable pub handle_subjects :
      (ℕ → Result Bool)
      → List ListedSubject
      → List AuthDataGroup × Dict ℕ AuthDataGroup
      → Result (List AuthDataGroup × Dict ℕ AuthDataGroup)
  unfolding lookup remove
  handle_subjects subject_exists [] s = ok s
  handle_subjects subject_exists (sub ∷ subs) s = subject_exists sub.subject_id >>= λ exists.
      handle_subjects subject_exists subs (note_subject sub exists s)

-- The rows of users and teams go into one map, under the id of their subject.
abbrev pub sub_map : List AuthDataGroup → List AuthDataGroup → Dict ℕ AuthDataGroup
sub_map users teams = index_by (λ r. r.subject_id) teams (index_by (λ r. r.subject_id) users [])

-- `toAdd` and `subMap` once both lists of the request are handled.
unfoldable pub handle_both :
    Queries
    → ℕ
    → List ListedSubject
    → List ListedSubject
    → Dict ℕ AuthDataGroup
    → Result (List AuthDataGroup × Dict ℕ AuthDataGroup)
unfolding handle_subjects
handle_both queries group_id user_list team_list m =
    handle_subjects group_id "user" queries.user_exists user_list ([], m)
    >>= handle_subjects group_id "team" queries.team_exist team_list

module _ {D : Type 0} (t : GrantTable D) where
  -- The query joins the table of the groups; its caller has asked before whether the group is there,
  -- and then the join keeps every row.
  unfoldable pub get_group_auth_data_group_by_group : ℕ → String → D → Result (List AuthDataGroup)
  get_group_auth_data_group_by_group group_id subject_type d =
      t.find (λ r. r.group_id == group_id && str_eq r.subject_type subject_type) d

  abbrev pub group_exists : Queries → ℕ → Bool → Result (Unit {0})
  group_exists queries group_id exists = if exists then ok tt else err "data group not exist"

  abbrev pub change_subjects :
      (D → Option String)
      → ℕ
      → D
      → Result (List AuthDataGroup × Dict ℕ AuthDataGroup)
      → D × Option String
  change_subjects commit group_id d (err e) = (d, some e)
  change_subjects commit group_id d (ok (to_add, rest)) =
      transaction commit
        (assign_data_group t to_add ∷ revoke_data_group_by_sub t (keys rest) group_id ∷ []) d

  unfoldable pub group_subs_operation :
      (D → Option String)
      → Queries
      → ℕ
      → List ListedSubject
      → List ListedSubject
      → D
      → D × Option String
  unfolding transaction get_group_auth_data_group_by_group handle_both assign_data_group
      revoke_data_group_by_sub put
  group_subs_operation commit queries group_id user_list team_list d =
      change_subjects commit group_id d (
        queries.data_group_exist (group_id ∷ []) >>= λ exists.
        group_exists queries group_id exists >>= λ found.
        get_group_auth_data_group_by_group group_id "user" d >>= λ users.
        get_group_auth_data_group_by_group group_id "team" d >>= λ teams.
        handle_both queries group_id user_list team_list (sub_map users teams))
