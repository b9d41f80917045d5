-- ===== src/Access/Transaction/Steps.antt =====
-- `Transaction` of transaction.go against relations that say which steps were taken.
use apo.Common.{◌⊎◌, inl, inr, String, ◌≡◌, refl, Option, none, some, List, [], ◌∷◌, Option-cases}
use apo.Access.Transaction.{
  Outcome, done, failed, panicked, and_then, run_all, end_of_transaction, transaction,
}

module _ {D : Type 0} where
  -- Each step was done, on the state that the one before it left.
  pub data Ran : List (D → Outcome D) → D → D → Type 0 where
    ran_none : {d : D} → Ran [] d d
    ran_step :
        {f : D → Outcome D} {fs : List (D → Outcome D)} {d d1 d2 : D}
        → f d ≡ done d1
        → Ran fs d1 d2
        → Ran (f ∷ fs) d d2

  -- The steps before one of them were done, and this one ended otherwise.
  pub data Stopped : List (D → Outcome D) → D → Outcome D → Type 0 where
    stopped_here :
        {f : D → Outcome D} {fs : List (D → Outcome D)} {d : D} {o : Outcome D}
        → f d ≡ o
        → Stopped (f ∷ fs) d o
    stopped_later :
        {f : D → Outcome D} {fs : List (D → Outcome D)} {d d1 : D} {o : Outcome D}
        → f d ≡ done d1
        → Stopped fs d1 o
        → Stopped (f ∷ fs) d o

  abbrev Ended : List (D → Outcome D) → D → Outcome D → Type 0
  Ended fs d (done d2) = Ran fs d d2
  Ended fs d (failed e) = Stopped fs d (failed e)
  Ended fs d panicked = Stopped fs d panicked

  Ended-later :
      (f : D → Outcome D) (fs : List (D → Outcome D)) (d d1 : D) (o : Outcome D)
      → f d ≡ done d1
      → Ended fs d1 o
      → Ended (f ∷ fs) d o
  Ended-later f fs d d1 (done d2) at e = ran_step at e
  Ended-later f fs d d1 (failed x) at e = stopped_later at e
  Ended-later f fs d d1 panicked at e = stopped_later at e

  run_all-Ended : (fs : List (D → Outcome D)) (d : D) → Ended fs d (run_all fs d)
  unfolding run_all
  run_all-Ended [] d = ran_none
  run_all-Ended (f ∷ fs) d = of_first (f d) refl (λ d1. run_all-Ended fs d1)
    where
      of_first :
          (o : Outcome D)
          → f d ≡ o
          → ((d1 : D) → Ended fs d1 (run_all fs d1))
          → Ended (f ∷ fs) d (and_then o (run_all fs))
      of_first (done d1) at rest = Ended-later f fs d d1 (run_all fs d1) at (rest d1)
      of_first (failed x) at rest = stopped_here at
      of_first panicked at rest = stopped_here at

  -- What a transaction that was begun on `d` may give.
  abbrev pub Accounted : (D → Option String) → List (D → Outcome D) → D → D × Option String → Type 0
  Accounted commit fs d (new, none) =
      (Ran fs d new × (commit new ≡ none)) ⊎ (Stopped fs d panicked × (new ≡ d))
  Accounted commit fs d (new, some e) =
      (new ≡ d) × (Stopped fs d (failed e) ⊎ ((d2 : D) × Ran fs d d2 × (commit d2 ≡ some e)))

  Ended-Accounted :
      (commit : D → Option String) (fs : List (D → Outcome D)) (d : D) (o : Outcome D)
      → Ended fs d o
      → Accounted commit fs d (end_of_transaction commit d o)
  Ended-Accounted commit fs d (done d2) e = elim (Option-cases (commit d2)) [
    | inl fine ↦ rw fine (inl (e, fine))
    | inr (x, refused) ↦ rw refused (refl, inr (d2, e, refused))
  ]
  Ended-Accounted commit fs d (failed x) e = (refl, inl e)
  Ended-Accounted commit fs d panicked e = inr (e, refl)

  -- A transaction that returns no error has done every step, each on the state that the one before
  -- it left, and the commit: its state is that of the last step. Or a step panicked after those
  -- before it were done, and the state is as it was. One that returns an error leaves the state as
  -- it was: the error is that of the first step that was not done, after those before it were, or
  -- that of the commit after all steps.
  pub transaction-Accounted :
      (commit : D → Option String) (fs : List (D → Outcome D)) (d : D)
      → Accounted commit fs d (transaction commit fs d)
  unfolding transaction
  transaction-Accounted commit fs d =
      Ended-Accounted commit fs d (run_all fs d) (run_all-Ended fs d)
