-- ===== src/DataGroups/Grants.antt =====
-- dao_auth_data_group.go, `DataGroupOperation` of service_data_group_operation.go and
-- `GroupSubsOperation` of service_group_subs_operation.go: which users and teams have which data
-- groups. The database is a parameter; errors are their messages.
pub mod Differences
pub mod Rows
pub mod Effect
pub mod Tests
use text.Mathlib.Text.{◌==◌ as str_eq}
use apo.Common.{
  String, Bool, Dict, List, Option, ℕ, [], ◌∷◌, ◌++◌, string_eq, nat_eq, true, false, not, ◌&&◌,
  none, some, if◌then◌else◌, ok, err, Result, keep, map, any, ◌==◌, put, lookup, remove, zero, suc,
}
use apo.Access.Transaction.{transaction, Outcome, done, failed, panicked}

pub record AuthDataGroup : Type 0 where
  pub id : ℕ
  pub subject_id : ℕ
  pub subject_type : String
  pub group_id : ℕ
  pub typ : String

-- What the code uses of the table `auth_data_group`. `Save` inserts the rows whose id is zero,
-- under new ids, and writes over the rows of the other ids.
pub record GrantTable (D : Type 0) : Type 0 where
  pub find : (AuthDataGroup → Bool) → D → Result (List AuthDataGroup)
  pub save : List AuthDataGroup → D → Outcome D
  pub delete : (AuthDataGroup → Bool) → D → Outcome D

-- The other queries.
pub record Queries : Type 0 where
  pub team_exist : ℕ → Result Bool
  pub user_exists : ℕ → Result Bool
  pub data_group_exist : List ℕ → Result Bool

pub record DataGroupPermission : Type 0 where
  pub data_group_id : ℕ
  pub permission_type : String

infixl 5 ◌>>=◌
abbrev pub ◌>>=◌ {ℓ κ} : {A : Type ℓ} {B : Type κ} → Result A → (A → Result B) → Result B
err e >>= f = err e
ok a >>= f = f a

abbrev pub is_of : ℕ → String → AuthDataGroup → Bool
is_of subject_id subject_type r = r.subject_id == subject_id && str_eq r.subject_type subject_type

abbrev pub mem : ℕ → List ℕ → Bool
mem x xs = any (λ y. y == x) xs

-- The maps of the code: `m[key(row)] = row` for each row, in order.
abbrev pub index_by :
    (AuthDataGroup → ℕ) → List AuthDataGroup → Dict ℕ AuthDataGroup → Dict ℕ AuthDataGroup
index_by key [] m = m
index_by key (r ∷ rs) m = index_by key rs (put (key r) r m)

abbrev pub keys : Dict ℕ AuthDataGroup → List ℕ
keys m = map (λ (entry : ℕ × AuthDataGroup). entry.0) m

-- `make([]int64, n)` is filled with zeros, and the ids are appended to it.
abbrev pub zeros : List DataGroupPermission → List ℕ
zeros [] = []
zeros (p ∷ ps) = 0 ∷ zeros ps

abbrev pub asked_ids : List DataGroupPermission → List ℕ
asked_ids ps = zeros ps ++ map (λ (p : DataGroupPermission). p.data_group_id) ps

module _ (subject_id : ℕ) (subject_type : String) where
  abbrev pub new_grant : DataGroupPermission → AuthDataGroup
  new_grant p = record {
    id = 0;
    subject_id = subject_id;
    subject_type = subject_type;
    group_id = p.data_group_id;
    typ = p.permission_type;
  }

  -- For a group that is not in the map the code compares with the type of an empty row.
  abbrev pub with_new :
      Option AuthDataGroup
      → DataGroupPermission
      → List AuthDataGroup × Dict ℕ AuthDataGroup
      → List AuthDataGroup × Dict ℕ AuthDataGroup
  with_new none p (rows, m) =
      if str_eq "" p.permission_type then (rows, m) else (new_grant p ∷ rows, m)
  with_new (some held) p (rows, m) = (rows, m)

  abbrev pub left_over : Option AuthDataGroup → ℕ → Dict ℕ AuthDataGroup → Dict ℕ AuthDataGroup
  left_over none id m = m
  left_over (some held) id m = remove id m

  -- The loop over the wanted groups: the rows to write, and the groups that are left in the map.
  unfoldable pub modify_loop :
      Dict ℕ AuthDataGroup → List DataGroupPermission → List AuthDataGroup × Dict ℕ AuthDataGroup
  unfolding lookup remove
  modify_loop m [] = ([], m)
  modify_loop m (p ∷ ps) =
      let held = lookup p.data_group_id m in
      with_new held p (modify_loop (left_over held p.data_group_id m) ps)

  abbrev pub modified : List DataGroupPermission → List AuthDataGroup → List AuthDataGroup × List ℕ
  modified ps rows =
      let (to_modify, rest) = modify_loop (index_by (λ r. r.group_id) rows []) ps in
      (to_modify, keys rest)

  -- Asked only when groups are wanted.
  abbrev pub groups_exist : Queries → List DataGroupPermission → Result Bool
  groups_exist queries [] = ok true
  groups_exist queries (p ∷ ps) = queries.data_group_exist (asked_ids (p ∷ ps))

  abbrev pub if_exist : {A : Type 0} → A → Bool → Result A
  if_exist a exists = if exists then ok a else err "data group not exist"

  unfoldable pub get_modify_and_delete_data_group :
      {D : Type 0}
      → GrantTable D
      → Queries
      → List DataGroupPermission
      → D
      → Result (List AuthDataGroup × List ℕ)
  unfolding modify_loop put
  get_modify_and_delete_data_group t queries ps d =
      t.find (is_of subject_id subject_type) d >>= λ rows.
      groups_exist queries ps >>= λ exists. if_exist (modified ps rows) exists

module _ {D : Type 0} (t : GrantTable D) where
  unfoldable pub assign_data_group : List AuthDataGroup → D → Outcome D
  assign_data_group [] d = done d
  assign_data_group (r ∷ rs) d = t.save (r ∷ rs) d

  -- The type of the subject is not asked for.
  unfoldable pub revoke_data_group_by_group : List ℕ → ℕ → D → Outcome D
  revoke_data_group_by_group [] subject_id d = done d
  revoke_data_group_by_group (id ∷ ids) subject_id d =
      t.delete (λ r. mem r.group_id (id ∷ ids) && r.subject_id == subject_id) d

  unfoldable pub revoke_data_group_by_sub : List ℕ → ℕ → D → Outcome D
  revoke_data_group_by_sub [] group_id d = done d
  revoke_data_group_by_sub (id ∷ ids) group_id d =
      t.delete (λ r. mem r.subject_id (id ∷ ids) && r.group_id == group_id) d

  abbrev pub subject_exists : Queries → ℕ → String → Result Bool
  subject_exists queries id typ =
      if str_eq typ "team"
      then queries.team_exist id
      else if str_eq typ "user"
      then queries.user_exists id
      else err "unsupported subject type"

  abbrev pub if_subject : {A : Type 0} → Result A → Bool → Result A
  if_subject a exists = if exists then a else err "subject does not exist"

  abbrev pub change_grants :
      (D → Option String) → ℕ → D → Result (List AuthDataGroup × List ℕ) → D × Option String
  change_grants commit subject_id d (err e) = (d, some e)
  change_grants commit subject_id d (ok (to_modify, to_delete)) =
      transaction commit
        (assign_data_group to_modify ∷ revoke_data_group_by_group to_delete subject_id ∷ []) d

  unfoldable pub data_group_operation :
      (D → Option String) → Queries → ℕ → String → List DataGroupPermission → D → D × Option String
  unfolding transaction get_modify_and_delete_data_group assign_data_group
      revoke_data_group_by_group
  data_group_operation commit queries subject_id subject_type ps d =
      change_grants commit subject_id d (
        subject_exists queries subject_id subject_type
        >>= if_subject (get_modify_and_delete_data_group subject_id subject_type t queries ps d))
