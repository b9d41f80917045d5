-- ===== src/Access/Transaction.antt =====
-- `Transaction` of transaction.go, over the steps that it is given, and the tables that the steps
-- read and write. The database itself is a parameter.
pub mod Steps
use apo.Common.{
  Result, ok, ◌∙◌, ap, inr, arith, inl, Option-cases, ◌⊎◌, String, Bool, not, ◌||◌, ◌≡◌, ◌≢◌, refl,
  Option, none, some, List, [], ◌∷◌, any, keep, All,
}

-- What a step of a transaction does: it goes on with a new state, it returns an error, or it panics.
pub data Outcome {ℓ} (D : Type ℓ) : Type ℓ where
  done : D → Outcome D
  failed : String → Outcome D
  panicked : Outcome D

pub eq_of_done {ℓ} : {D : Type ℓ} {a b : D} → done a ≡ done b → a ≡ b
eq_of_done h = cc

module _ {D : Type 0} where
  abbrev pub and_then : Outcome D → (D → Outcome D) → Outcome D
  and_then (done d) f = f d
  and_then (failed e) f = failed e
  and_then panicked f = panicked

  unfoldable pub run_all : List (D → Outcome D) → D → Outcome D
  run_all [] d = done d
  run_all (f ∷ fs) d = and_then (f d) (run_all fs)

  abbrev pub committed : D → D → Option String → D × Option String
  committed old new none = (new, none)
  committed old new (some e) = (old, some e)

  -- A panic is recovered and rolled back, and the named result `err` keeps its value, `nil`.
  abbrev pub end_of_transaction : (D → Option String) → D → Outcome D → D × Option String
  end_of_transaction commit old (done new) = committed old new (commit new)
  end_of_transaction commit old (failed e) = (old, some e)
  end_of_transaction commit old panicked = (old, none)

  -- The state after the transaction, with the error it returns.
  unfoldable pub transaction : (D → Option String) → List (D → Outcome D) → D → D × Option String
  unfolding run_all
  transaction commit fs d = end_of_transaction commit d (run_all fs d)

-- What the code uses of a table.
pub record Table (Row D : Type 0) : Type 0 where
  pub find : (Row → Bool) → D → Result (List Row)
  pub create : List Row → D → Outcome D
  pub delete : (Row → Bool) → D → Outcome D

-- A table has rows. A read gives those that it asks for, an insertion adds its rows and a
-- deletion takes its rows away, in any order; none of them panics.
pub record IsTable {Row D : Type 0} (t : Table Row D) (rows : D → List Row) : Type 0 where
  pub find_rows :
      (q : Row → Bool) (d : D) (found : List Row)
      → t.find q d ≡ ok found
      → (p : Row → Bool) → any p found ≡ any p (keep q (rows d))
  pub create_rows :
      (new : List Row) (d d2 : D)
      → t.create new d ≡ done d2
      → (p : Row → Bool) → any p (rows d2) ≡ (any p (rows d) || any p new)
  pub delete_rows :
      (q : Row → Bool) (d d2 : D)
      → t.delete q d ≡ done d2
      → (p : Row → Bool) → any p (rows d2) ≡ any p (keep (λ r. not (q r)) (rows d))
  pub create_returns : (new : List Row) (d : D) → t.create new d ≢ panicked
  pub delete_returns : (q : Row → Bool) (d : D) → t.delete q d ≢ panicked

module _ {D : Type 0} (commit : D → Option String) (d : D) where
  end_lem :
      (o : Outcome D)
      → ((e : String)
          → (end_of_transaction commit d o).1 ≡ some e
          → (end_of_transaction commit d o).0 ≡ d)
        × ((end_of_transaction commit d o).1 ≡ none
            → (o ≡ done (end_of_transaction commit d o).0)
              ⊎ ((o ≡ panicked) × ((end_of_transaction commit d o).0 ≡ d)))
  end_lem (done new) = elim (Option-cases (commit new)) [
    | inl fine ↦ rw fine (λ x h. absurd (ground (arith, h)), λ h. inl refl)
    | inr (x, refused) ↦ rw refused (λ y h. refl, λ h. absurd (ground (arith, h)))
  ]
  end_lem (failed x) = (λ y h. refl, λ h. absurd (ground (arith, h)))
  end_lem panicked = (λ y h. refl, λ h. inr (refl, refl))

  pub transaction_lem :
      (fs : List (D → Outcome D))
      → ((e : String) → (transaction commit fs d).1 ≡ some e → (transaction commit fs d).0 ≡ d)
        × ((transaction commit fs d).1 ≡ none
            → (run_all fs d ≡ done (transaction commit fs d).0)
              ⊎ ((run_all fs d ≡ panicked) × ((transaction commit fs d).0 ≡ d)))
  unfolding transaction
  transaction_lem fs = end_lem (run_all fs d)

module _ {D : Type 0} where
  -- A step that was taken, and the steps after it.
  pub run_all-cons :
      (f : D → Outcome D) (fs : List (D → Outcome D)) (d d2 : D)
      → run_all (f ∷ fs) d ≡ done d2
      → (d1 : D) × (f d ≡ done d1) × (run_all fs d1 ≡ done d2)
  unfolding run_all
  run_all-cons f fs d d2 e = of_first (f d) refl e
    where
      of_first :
          (o : Outcome D)
          → f d ≡ o
          → and_then o (run_all fs) ≡ done d2
          → (d1 : D) × (f d ≡ done d1) × (run_all fs d1 ≡ done d2)
      of_first (done d1) at h = (d1, at, h)
      of_first (failed x) at h = absurd (ground (arith, h))
      of_first panicked at h = absurd (ground (arith, h))

  pub run_all-returns :
      (fs : List (D → Outcome D)) (d : D)
      → All (λ f. (x : D) → f x ≢ panicked) fs
      → run_all fs d ≢ panicked
  unfolding run_all
  run_all-returns [] d a e = absurd (ground (arith, e))
  run_all-returns (f ∷ fs) d (h, a) e = of_first (f d) refl (λ d1. run_all-returns fs d1 a) e
    where
      of_first :
          (o : Outcome D)
          → f d ≡ o
          → ((d1 : D) → run_all fs d1 ≢ panicked)
          → and_then o (run_all fs) ≢ panicked
      of_first (done d1) at rest p = rest d1 p
      of_first (failed x) at rest p = absurd (ground (arith, p))
      of_first panicked at rest p = h d at

  -- A transaction of steps that do not panic has done all of them if it returns no error.
  pub transaction-done :
      (commit : D → Option String) (fs : List (D → Outcome D)) (d d2 : D)
      → All (λ f. (x : D) → f x ≢ panicked) fs
      → transaction commit fs d ≡ (d2, none)
      → run_all fs d ≡ done d2
  transaction-done commit fs d d2 a e =
      elim ((transaction_lem commit d fs).1 (ap (λ (r : D × Option String). r.1) e)) [
        | inl all ↦ all ∙ ap (λ (r : D × Option String). done r.0) e
        | inr (p, same) ↦ absurd (run_all-returns fs d a p)
      ]
