-- ===== src/Access/Memberships.antt =====
-- Tables that link a user to roles or to teams: what inserting and deleting links does to them.
use apo.Common.{
  sym, ◌∙◌, ap, inr, inl, Bool-cases, ℕ, String, Bool, true, false, not, ◌&&◌, ◌||◌, ◌≡◌, ◌≢◌, refl,
  Option, none, some, List, [], ◌∷◌, map, arith, any, ◌==◌,
}
use apo.Access.Difference.{settled, mem-to_set, difference_lem, to_set, difference, mem}
use apo.Access.Filters.{any-keep_const, both}
use apo.Access.Transaction.{
  run_all-cons, transaction-done, transaction, eq_of_done, done, panicked, run_all, IsTable,
  Outcome, Table,
}

-- The links of one owner: its rows, the id that a row links it to, and the row of an id.
pub record Links (Row : Type 0) : Type 0 where
  pub is_of : Row → Bool
  pub id_of : Row → ℕ
  pub row_of : ℕ → Row
  pub is_of_lem : (id : ℕ) → is_of (row_of id) ≡ true
  pub id_of_lem : (id : ℕ) → id_of (row_of id) ≡ id

module _ {Row D : Type 0} (links : Links Row) (t : Table Row D) where
  -- `if len(ids) == 0 { return nil }`, and the insertion of a row for each id.
  unfoldable pub insert_links : List ℕ → D → Outcome D
  insert_links [] d = done d
  insert_links (id ∷ ids) d = t.create (map links.row_of (id ∷ ids)) d

  unfoldable pub delete_links : List ℕ → D → Outcome D
  delete_links ids d = t.delete (λ r. links.is_of r && mem (links.id_of r) ids) d

module _ {Row : Type 0} (links : Links Row) where
  abbrev pub links_to : ℕ → Row → Bool
  links_to x r = links.is_of r && links.id_of r == x

  -- What is asked of the links of other owners only.
  abbrev pub IsForeign : (Row → Bool) → Type 0
  IsForeign p = (r : Row) → p r ≡ true → links.is_of r ≡ false

  mem-links : (x : ℕ) (ids : List ℕ) → any (links_to x) (map links.row_of ids) ≡ mem x ids
  mem-links x [] = refl
  mem-links x (id ∷ ids) = ground (arith, mem-links x ids, links.is_of_lem id, links.id_of_lem id)

  foreign-links :
      (p : Row → Bool) (ids : List ℕ) → IsForeign p → any p (map links.row_of ids) ≡ false
  foreign-links p [] h = refl
  foreign-links p (id ∷ ids) h = elim (Bool-cases (p (links.row_of id))) [
    | inl hit ↦ absurd (ground (arith, h (links.row_of id) hit, links.is_of_lem id))
    | inr miss ↦ ground (arith, miss, foreign-links p ids h)
  ]

  deleted_link :
      (x : ℕ) (ids : List ℕ) (r : Row)
      → links_to x r ≡ true
      → not (links.is_of r && mem (links.id_of r) ids) ≡ not (mem x ids)
  deleted_link x ids r g =
      let (owned, same) = both (links.is_of r) (links.id_of r == x) g in
      rw owned (ap (λ y. not (mem y ids)) (ground (arith, same)))

  module _ {D : Type 0} (t : Table Row D) (rows : D → List Row) (laws : IsTable t rows) where
    insert_links_lem :
        (ids : List ℕ) (d d2 : D)
        → insert_links links t ids d ≡ done d2
        → ((x : ℕ) → any (links_to x) (rows d2) ≡ (any (links_to x) (rows d) || mem x ids))
          × ((p : Row → Bool) → IsForeign p → any p (rows d2) ≡ any p (rows d))
    unfolding insert_links
    insert_links_lem [] d d2 e =
        let same = eq_of_done e in
        (
          λ x. ap (λ y. any (links_to x) (rows y)) (sym same) ∙ ground arith,
          λ p other. ap (λ y. any p (rows y)) (sym same),
        )
    insert_links_lem (id ∷ ids) d d2 e =
        let created = laws.create_rows _ d d2 e in
        (
          λ x.
              created (links_to x)
              ∙ ap (λ b. any (links_to x) (rows d) || b) (mem-links x (id ∷ ids)),
          λ p other. created p ∙ ground (arith, foreign-links p (id ∷ ids) other),
        )

    delete_links_lem :
        (ids : List ℕ) (d d2 : D)
        → delete_links links t ids d ≡ done d2
        → ((x : ℕ) → any (links_to x) (rows d2) ≡ (any (links_to x) (rows d) && not (mem x ids)))
          × ((p : Row → Bool) → IsForeign p → any p (rows d2) ≡ any p (rows d))
    unfolding delete_links
    delete_links_lem ids d d2 e =
        let deleted = laws.delete_rows _ d d2 e in
        (
          λ x.
              deleted (links_to x)
              ∙ any-keep_const (links_to x) _ (not (mem x ids)) (rows d) (deleted_link x ids),
          λ p other.
              deleted p
              ∙ (any-keep_const p _ true (rows d) (λ r g. ground (arith, other r g))
                  ∙ ground arith),
        )

    insert-returns : (ids : List ℕ) (d : D) → insert_links links t ids d ≢ panicked
    unfolding insert_links
    insert-returns [] d e = absurd (ground (arith, e))
    insert-returns (id ∷ ids) d e = laws.create_returns _ d e

    delete-returns : (ids : List ℕ) (d : D) → delete_links links t ids d ≢ panicked
    unfolding delete_links
    delete-returns ids d e = laws.delete_returns _ d e

    -- The links after a transaction that inserts and deletes the difference to the wanted ids.
    pub change_links_lem :
        (commit : D → Option String) (is_known : ℕ → Bool) (held wanted added deleted : List ℕ)
        (d d2 : D)
        → difference is_known (to_set held) wanted ≡ some (added, deleted)
        → ((x : ℕ) → mem x held ≡ any (links_to x) (rows d))
        → transaction commit (insert_links links t added ∷ delete_links links t deleted ∷ []) d
          ≡ (d2, none)
        → ((x : ℕ) → any (links_to x) (rows d2) ≡ mem x wanted)
          × ((p : Row → Bool) → IsForeign p → any p (rows d2) ≡ any p (rows d))
    unfolding run_all
    change_links_lem commit is_known held wanted added deleted d d2 sets same e =
        let insert = insert_links links t added in
        let delete = delete_links links t deleted in
        let ran =
          transaction-done commit (insert ∷ delete ∷ []) d d2
            (insert-returns added, (delete-returns deleted, tt)) e in
        let (d1, inserted, rest) = run_all-cons insert (delete ∷ []) d d2 ran in
        let (d3, removed, last) = run_all-cons delete [] d1 d2 rest in
        let (on, others1) = insert_links_lem added d d1 inserted in
        let (off, others2) = delete_links_lem deleted d1 d2 (removed ∙ last) in
        (
          λ x.
              let (after, left) =
                difference_lem is_known (to_set held) wanted added deleted sets x in
              let known = mem-to_set x held ∙ same x in
              off x
              ∙ (ap (λ b. b && not (mem x deleted)) (on x)
                  ∙ settled _ _ _ _
                      (ap (λ b. (b && not (mem x deleted)) || mem x added) (sym known) ∙ after)
                      (left ∙ ap (λ b. b && not (mem x wanted)) known)),
          λ p other. others2 p other ∙ others1 p other,
        )
