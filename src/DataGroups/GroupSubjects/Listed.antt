-- ===== src/DataGroups/GroupSubjects/Listed.antt =====
-- What the lists of the request do to the subjects of a group.
use apo.Common.{
  Dict, List, String, Bool, ℕ, [], ◌∷◌, nat_eq, true, false, not, ◌&&◌, ◌||◌, none, ok, err, Result,
  any, ◌==◌, ==_iff, put, lookup, has, has-put, has-remove, arith, refl, ◌≡◌, ◌∙◌, ap, Option-cases,
  Bool-cases, inl, inr, eq_of_ok, sym,
}
use apo.DataGroups.Grants.{Queries, AuthDataGroup, ◌>>=◌, index_by, mem, keys}
use apo.DataGroups.Grants.Differences.{mem-keys}
use apo.DataGroups.GroupSubjects.{
  sub_map, handle_both, ListedSubject, note_subject, handle_subjects,
}

abbrev holds : Result Bool → Bool
holds (ok b) = b
holds (err e) = false

-- The request lists the subject, and it exists.
abbrev pub listed : (ℕ → Result Bool) → ℕ → List ListedSubject → Bool
listed subject_exists s subs =
    any (λ (sub : ListedSubject). sub.subject_id == s) subs && holds (subject_exists s)

abbrev pub is_subject : ℕ → AuthDataGroup → Bool
is_subject s r = r.subject_id == s

has-index_by :
    (s : ℕ) (rows : List AuthDataGroup) (m : Dict ℕ AuthDataGroup)
    → has s (index_by (λ r. r.subject_id) rows m) ≡ (has s m || any (is_subject s) rows)
unfolding has
has-index_by s [] m = ground arith
has-index_by s (r ∷ rs) m =
    ground (arith, has-index_by s rs (put r.subject_id r m), has-put r.subject_id s r m)

has-sub_map :
    (s : ℕ) (users teams : List AuthDataGroup)
    → has s (sub_map users teams) ≡ (any (is_subject s) users || any (is_subject s) teams)
unfolding has
has-sub_map s users teams =
    has-index_by s teams (index_by (λ r. r.subject_id) users [])
    ∙ ap (λ b. b || any (is_subject s) teams) (has-index_by s users [])

absent_has :
    (k s : ℕ) (m : Dict ℕ AuthDataGroup) → lookup k m ≡ none → (k == s) ≡ true → has s m ≡ false
unfolding lookup has
absent_has k s [] h e = refl
absent_has k s ((j, r) ∷ m) h e = ground (arith, absent_has k s m)

module _ (group_id : ℕ) (subject_type : String) where
  -- One entry of the request, whether its subject is in the map or not.
  noted-has :
      (s : ℕ) (sub : ListedSubject) (exists : Bool) (st : List AuthDataGroup × Dict ℕ AuthDataGroup)
      → has s (note_subject group_id subject_type sub exists st).1
        ≡ (has s st.1 && not (sub.subject_id == s && exists))
  noted-has s sub false st = ground arith
  noted-has s sub true (to_add, m) = elim (Option-cases (lookup sub.subject_id m)) [
    | inl absent ↦ rw absent (ground (arith, absent_has sub.subject_id s m absent))
    | inr (ag, found) ↦ rw found (ground (arith, has-remove sub.subject_id s m))
  ]

  -- The subjects that stay in the map are those that are not listed.
  handle_subjects-rest :
      (subject_exists : ℕ → Result Bool) (s : ℕ) (subs : List ListedSubject)
      (st st2 : List AuthDataGroup × Dict ℕ AuthDataGroup)
      → handle_subjects group_id subject_type subject_exists subs st ≡ ok st2
      → has s st2.1 ≡ (has s st.1 && not (listed subject_exists s subs))
  unfolding handle_subjects
  handle_subjects-rest subject_exists s [] st st2 h =
      ap (λ (x : List AuthDataGroup × Dict ℕ AuthDataGroup). has s x.1) (sym (eq_of_ok h))
      ∙ ground arith
  handle_subjects-rest subject_exists s (sub ∷ subs) st st2 h =
      of_answer (subject_exists sub.subject_id) refl
        (λ st1. handle_subjects-rest subject_exists s subs st1 st2) h
    where
      of_answer :
          (r : Result Bool)
          → subject_exists sub.subject_id ≡ r
          → ((st1 : List AuthDataGroup × Dict ℕ AuthDataGroup)
              → handle_subjects group_id subject_type subject_exists subs st1 ≡ ok st2
              → has s st2.1 ≡ (has s st1.1 && not (listed subject_exists s subs)))
          → (r >>= λ exists.
              handle_subjects group_id subject_type subject_exists subs
                (note_subject group_id subject_type sub exists st))
            ≡ ok st2
          → has s st2.1 ≡ (has s st.1 && not (listed subject_exists s (sub ∷ subs)))
      of_answer (err e) here ih k = absurd (cc k)
      of_answer (ok exists) here ih k =
          ih (note_subject group_id subject_type sub exists st) k
          ∙ elim (Bool-cases (sub.subject_id == s)) [
            | inr other ↦ ground (arith, noted-has s sub exists st, other)
            | inl same ↦
                let answer : subject_exists s ≡ ok exists =
                  ap subject_exists (sym ((==_iff sub.subject_id s).0 same)) ∙ here in
                ground (arith, noted-has s sub exists st, same, ap holds answer)
          ]

-- After both lists of a request are handled without an error, a subject id is to be revoked
-- exactly when a user or a team of that id has the group and the request lists no existing user
-- and no existing team of that id. So a user stays when only the team of the same id is listed.
pub handle_both-revoked :
    (queries : Queries) (group_id : ℕ) (user_list team_list : List ListedSubject)
    (users teams to_add : List AuthDataGroup) (rest : Dict ℕ AuthDataGroup) (s : ℕ)
    → handle_both queries group_id user_list team_list (sub_map users teams) ≡ ok (to_add, rest)
    → mem s (keys rest) ≡ (
        (any (is_subject s) users || any (is_subject s) teams)
        && not (listed queries.user_exists s user_list || listed queries.team_exist s team_list))
unfolding handle_both
handle_both-revoked queries group_id user_list team_list users teams to_add rest s h =
    of_users
      (handle_subjects group_id "user" queries.user_exists user_list ([], sub_map users teams)) refl
      h
  where
    of_users :
        (r : Result (List AuthDataGroup × Dict ℕ AuthDataGroup))
        → handle_subjects group_id "user" queries.user_exists user_list ([], sub_map users teams)
          ≡ r
        → (r >>= handle_subjects group_id "team" queries.team_exist team_list) ≡ ok (to_add, rest)
        → mem s (keys rest) ≡ (
            (any (is_subject s) users || any (is_subject s) teams)
            && not
                (listed queries.user_exists s user_list || listed queries.team_exist s team_list))
    of_users (err e) here k = absurd (cc k)
    of_users (ok st) here k =
        mem-keys s rest
        ∙ ground (
          arith,
          handle_subjects-rest group_id "user" queries.user_exists s user_list
              ([], sub_map users teams) st here,
          handle_subjects-rest group_id "team" queries.team_exist s team_list st (to_add, rest) k,
          has-sub_map s users teams,
        )
