-- ===== src/DataGroups/GroupSubjects/Tests.antt =====
-- A group that the team 5 has, and the user 6.
use apo.Common.{
  String, ℕ, [], ◌∷◌, true, false, not, ◌&&◌, ◌||◌, ok, any, ◌==◌, refl, none, ◌≡◌, Dict,
}
use apo.DataGroups.Grants.{mem}
use apo.DataGroups.Grants.Tests.{grant, grant_table, queries, commits}
use apo.DataGroups.GroupSubjects.{ListedSubject, sub_map, group_subs_operation, handle_both}
use apo.DataGroups.GroupSubjects.Listed.{handle_both-revoked}

abbrev sub : ℕ → String → ListedSubject
sub id typ = record { subject_id = id; typ = typ }

-- The user 5 is asked for, and the team 5 is what it is taken for.
handled :
    handle_both queries 1
      (sub 5 "view" ∷ [])
      []
      (sub_map (grant 2 6 "user" 1 "view" ∷ []) (grant 3 5 "team" 1 "view" ∷ []))
    ≡ ok ([], (6, grant 2 6 "user" 1 "view") ∷ [])
unfolding handle_both apo.Common.put
handled = refl

taken_for_the_team :
    group_subs_operation grant_table commits queries 1
      (sub 5 "view" ∷ [])
      []
      (grant 2 6 "user" 1 "view" ∷ grant 3 5 "team" 1 "view" ∷ [])
    ≡ (grant 3 5 "team" 1 "view" ∷ [], none)
unfolding group_subs_operation
taken_for_the_team = refl

handle_both-revoked_example : mem 6 (6 ∷ []) ≡ ((true || false) && not (false || false))
handle_both-revoked_example =
    handle_both-revoked queries 1 (sub 5 "view" ∷ []) [] (grant 2 6 "user" 1 "view" ∷ [])
      (grant 3 5 "team" 1 "view" ∷ []) [] ((6, grant 2 6 "user" 1 "view") ∷ []) 6 handled
