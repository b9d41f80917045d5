-- ===== src/Overview/Endpoints/Sorted.antt =====
-- What the sort gives for an order that can be sorted by.
use apo.Common.{
  ℕ, Bool, false, List, [], ◌∷◌, if◌then◌else◌, arith, ◌≡◌, refl, All, Bool-cases, inl, inr, ◌+◌,
  map,
}
use apo.Overview.Endpoints.{
  with_rates, less_by_mutation, EndpointMetrics, Floats, sort_by_mutation, insert_back, insert_all,
  reverse_onto, slice_stable,
}
use apo.Overview.Endpoints.Order.{less_by_mutation-IsWeakOrder, IsOrdered, IsWeakOrder}

-- The number of the elements that pass.
abbrev pub count : {A : Type 0} → (A → Bool) → List A → ℕ
count p [] = 0
count p (x ∷ xs) = (if p x then 1 else 0) + count p xs

module _ {A : Type 0} (less : A → A → Bool) where
  -- No element is less than one before it.
  abbrev pub Sorted : List A → Type 0
  Sorted [] = Unit
  Sorted (x ∷ xs) = All (λ y. less y x ≡ false) xs × Sorted xs

  -- The same from the last element to the first.
  abbrev Reversed : List A → Type 0
  Reversed [] = Unit
  Reversed (x ∷ xs) = All (λ y. less x y ≡ false) xs × Reversed xs

  insert_back-All :
      (P : A → Type 0) (x : A) (ys : List A) → P x → All P ys → All P (insert_back less x ys)
  unfolding insert_back
  insert_back-All P x [] px a = (px, tt)
  insert_back-All P x (y ∷ ys) px (py, a) = elim (Bool-cases (less x y)) [
    | inl before ↦ rw before (py, insert_back-All P x ys px a)
    | inr after ↦ rw after (px, (py, a))
  ]

  module _ (w : IsWeakOrder less) where
    not_less : (x y z : A) → less x y ≡ false → less y z ≡ false → less x z ≡ false
    not_less x y z h k = elim (Bool-cases (less x z)) [
      | inr e ↦ e
      | inl e ↦ absurd (ground (arith, w.between x y z e, h, k))
    ]

    All-not_less :
        (x y : A) (ys : List A)
        → less x y ≡ false
        → All (λ z. less y z ≡ false) ys
        → All (λ z. less x z ≡ false) ys
    All-not_less x y [] h a = tt
    All-not_less x y (z ∷ zs) h (k, a) = (not_less x y z h k, All-not_less x y zs h a)

    insert_back-Reversed : (x : A) (ys : List A) → Reversed ys → Reversed (insert_back less x ys)
    unfolding insert_back
    insert_back-Reversed x [] r = (tt, tt)
    insert_back-Reversed x (y ∷ ys) (a, r) = elim (Bool-cases (less x y)) [
      | inl before ↦ rw before (
        insert_back-All (λ z. less y z ≡ false) x ys (w.asym x y before) a,
        insert_back-Reversed x ys r,
      )
      | inr after ↦ rw after ((after, All-not_less x y ys after a), (a, r))
    ]

    insert_all-Reversed : (xs ys : List A) → Reversed ys → Reversed (insert_all less xs ys)
    unfolding insert_all
    insert_all-Reversed [] ys r = r
    insert_all-Reversed (x ∷ xs) ys r =
        insert_all-Reversed xs (insert_back less x ys) (insert_back-Reversed x ys r)

    -- Turning a reversed list round, onto a sorted one of which no element is less.
    reverse-Sorted :
        (xs ys : List A)
        → Reversed xs
        → Sorted ys
        → All (λ x. All (λ y. less y x ≡ false) ys) xs
        → Sorted (reverse_onto xs ys)
    reverse-Sorted [] ys r s a = s
    reverse-Sorted (x ∷ xs) ys (before, r) s (first, rest) =
        reverse-Sorted xs (x ∷ ys) r (first, s) (both_below x xs ys before rest)
      where
        both_below :
            (x : A) (xs ys : List A)
            → All (λ y. less x y ≡ false) xs
            → All (λ z. All (λ y. less y z ≡ false) ys) xs
            → All (λ z. All (λ y. less y z ≡ false) (x ∷ ys)) xs
        both_below x [] ys a b = tt
        both_below x (z ∷ zs) ys (h, a) (k, b) = ((h, k), both_below x zs ys a b)

    nothing_below : (xs : List A) → All (λ x. All (λ (y : A). less y x ≡ false) []) xs
    nothing_below [] = tt
    nothing_below (x ∷ xs) = (tt, nothing_below xs)

    pub slice_stable-Sorted : (xs : List A) → Sorted (slice_stable less xs)
    unfolding slice_stable
    slice_stable-Sorted xs =
        reverse-Sorted (insert_all less xs []) [] (insert_all-Reversed xs [] tt) tt
          (nothing_below (insert_all less xs []))

  count-insert_back :
      (p : A → Bool) (x : A) (ys : List A)
      → count p (insert_back less x ys) ≡ (if p x then 1 else 0) + count p ys
  unfolding insert_back
  count-insert_back p x [] = refl
  count-insert_back p x (y ∷ ys) = ground (arith, count-insert_back p x ys)

  count-insert_all :
      (p : A → Bool) (xs ys : List A) → count p (insert_all less xs ys) ≡ count p xs + count p ys
  unfolding insert_all
  count-insert_all p [] ys = ground arith
  count-insert_all p (x ∷ xs) ys =
      ground (arith, count-insert_all p xs (insert_back less x ys), count-insert_back p x ys)

  count-reverse :
      (p : A → Bool) (xs ys : List A) → count p (reverse_onto xs ys) ≡ count p xs + count p ys
  count-reverse p [] ys = ground arith
  count-reverse p (x ∷ xs) ys = ground (arith, count-reverse p xs (x ∷ ys))

  pub count-slice_stable :
      (p : A → Bool) (xs : List A) → count p (slice_stable less xs) ≡ count p xs
  unfolding slice_stable
  count-slice_stable p xs =
      ground (arith, count-reverse p (insert_all less xs []) [], count-insert_all p xs [])

-- The endpoints sorted by mutation are those of the request, with their mutation rates, each as
-- often as before, and none is less than one before it, as long as no metric is NaN.
pub sort_by_mutation_lem :
    {F : Type 0} (f : Floats F) (endpoints : List (EndpointMetrics F))
    → IsOrdered f
    → Sorted (less_by_mutation f) (sort_by_mutation f endpoints)
      × ((p : EndpointMetrics F → Bool)
          → count p (sort_by_mutation f endpoints) ≡ count p (map (with_rates f) endpoints))
unfolding sort_by_mutation
sort_by_mutation_lem f endpoints o = (
  slice_stable-Sorted (less_by_mutation f) (less_by_mutation-IsWeakOrder f o)
      (map (with_rates f) endpoints),
  λ p. count-slice_stable (less_by_mutation f) p (map (with_rates f) endpoints),
)
