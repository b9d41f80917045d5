-- ===== src/DataGroups/Grants/Tests.antt =====
-- Grants in a table that is a list of rows.
use text.Mathlib.Text.{◌==◌ as str_eq}
use apo.Common.{
  ◌||◌, Bool, Option, ◌+◌, String, length, ◌≡◌, List, ℕ, [], ◌∷◌, ◌++◌, true, false, not, ◌&&◌, ok,
  any, keep, ◌==◌, refl, none, arith, sym, ap, ◌∙◌, eq_of_ok, any-append, if◌then◌else◌,
}
use apo.Access.Transaction.{done, eq_of_done}
use apo.DataGroups.Grants.{
  DataGroupPermission, AuthDataGroup, GrantTable, Queries, data_group_operation,
}
use apo.DataGroups.Grants.Effect.{
  data_group_operation-grants, data_group_operation-type, is_typed_grant,
}
use apo.DataGroups.Grants.Rows.{IgnoresId, IsGrantTable, is_grant}

-- The next free id is one above all of the table.
abbrev pub numbered : ℕ → List AuthDataGroup → List AuthDataGroup
numbered n [] = []
numbered n (r ∷ rs) = (if r.id == 0 then record r { id = n } else r) ∷ numbered (n + 1) rs

abbrev pub grant_table : GrantTable (List AuthDataGroup)
grant_table = record {
  find = λ q d. ok (keep q d);
  save = λ new d. done (d ++ numbered (length d + 1) new);
  delete = λ q d. done (keep (λ r. not (q r)) d);
}

numbered_lem :
    (n : ℕ) (new : List AuthDataGroup) (p : AuthDataGroup → Bool)
    → IgnoresId p
    → any p (numbered n new) ≡ any p new
numbered_lem n [] p ig = refl
numbered_lem n (r ∷ rs) p ig = ground (arith, numbered_lem (n + 1) rs p ig, ig r n)

grant_table-IsGrantTable : IsGrantTable grant_table (λ d. d)
grant_table-IsGrantTable = record {
  find_rows = λ q d found e p. ap (any p) (sym (eq_of_ok e));
  save_rows = λ new d d2 e zero_ids p ig.
      ap (any p) (sym (eq_of_done e))
      ∙ any-append p d (numbered (length d + 1) new)
      ∙ ap (λ b. any p d || b) (numbered_lem (length d + 1) new p ig);
  delete_rows = λ q d d2 e p. ap (any p) (sym (eq_of_done e));
  save_returns = λ new d e. cc e;
  delete_returns = λ q d e. cc e;
}

abbrev pub grant : ℕ → ℕ → String → ℕ → String → AuthDataGroup
grant id subject_id subject_type group_id typ = record {
  id = id;
  subject_id = subject_id;
  subject_type = subject_type;
  group_id = group_id;
  typ = typ;
}

-- The user 5 has the groups 1 and 2, and the team 5 the group 1.
abbrev grants : List AuthDataGroup
grants = grant 1 5 "user" 1 "view" ∷ grant 2 5 "user" 2 "view" ∷ grant 3 5 "team" 1 "edit" ∷ []

abbrev pub queries : Queries
queries = record {
  team_exist = λ id. ok true;
  user_exists = λ id. ok true;
  data_group_exist = λ ids. ok true;
}

abbrev want : ℕ → String → DataGroupPermission
want g typ = record { data_group_id = g; permission_type = typ }

abbrev after : List AuthDataGroup
after = grant 2 5 "user" 2 "view" ∷ grant 4 5 "user" 3 "edit" ∷ []

abbrev pub commits : List AuthDataGroup → Option String
commits d = none

operation :
    data_group_operation grant_table commits queries 5 "user"
      (want 2 "edit" ∷ want 3 "edit" ∷ [])
      grants
    ≡ (after, none)
unfolding data_group_operation
operation = refl

data_group_operation-grants_example :
    (any (is_grant 5 "user" 1) after ≡ false)
    × ((id : ℕ) (typ : String)
        → (id == 5) ≡ false
        → any (is_grant id typ 1) after ≡ any (is_grant id typ 1) grants)
    × ((typ : String)
        → str_eq typ "user" ≡ false
        → any (is_grant 5 typ 1) after ≡ (any (is_grant 5 typ 1) grants && false))
data_group_operation-grants_example =
    data_group_operation-grants grant_table (λ d. d) grant_table-IsGrantTable queries commits 5
      "user" (want 2 "edit" ∷ want 3 "edit" ∷ []) grants after (refl, (refl, tt)) operation 1

data_group_operation-type_example :
    any (is_typed_grant 5 "user" 2 "edit") after ≡ any (is_typed_grant 5 "user" 2 "edit") grants
data_group_operation-type_example =
    data_group_operation-type grant_table (λ d. d) grant_table-IsGrantTable queries commits 5 "user"
      (want 2 "edit" ∷ want 3 "edit" ∷ []) grants after 2 "edit" (refl, (refl, tt)) refl refl
      operation
