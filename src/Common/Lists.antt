-- ===== src/Common/Lists.antt =====
-- Lists measured by native numbers, predicates over them, and an interface for keys.
use Prim.Native.Nat.{ℕ, zero, suc, ◌+◌}
use Prim.Native.String.{String}
use mathlib.Core.Bool.{Bool, true, false, ◌||◌}
use mathlib.Core.List.{List, [], ◌∷◌, ◌++◌}
use mathlib.Core.Logic.{◌↔◌, inl, inr}
use mathlib.Core.Option.{Option, none, some}
use mathlib.Core.Path.{◌≡◌, refl}
use native.Mathlib.Omega.{arith}
use text.Mathlib.Text.{◌==◌ as str_eq}
use text.Mathlib.TextEquality.{eq_iff}
use apo.Common.Tests.{Bool-cases, ==_iff, if◌then◌else◌, ◌==◌ as nat_beq}
use mathlib.Core.Option

-- A comparable type of Go, with its `==`.
pub record Eq {ℓ} (A : Type ℓ) : Type ℓ where
  pub beq : A → A → Bool
  pub beq_iff : (a b : A) → (beq a b ≡ true) ↔ (a ≡ b)

instance abbrev pub nat_eq : Eq ℕ
nat_eq = record { beq = nat_beq; beq_iff = ==_iff }

instance abbrev pub string_eq : Eq String
string_eq = record { beq = str_eq; beq_iff = eq_iff }

module _ {ℓ} {A : Type ℓ} where
  abbrev pub length : List A → ℕ
  length [] = 0
  length (x ∷ xs) = suc (length xs)

  abbrev pub get_elem? : List A → ℕ → Option A
  get_elem? [] i = none
  get_elem? (x ∷ xs) zero = some x
  get_elem? (x ∷ xs) (suc i) = get_elem? xs i

  abbrev pub take : ℕ → List A → List A
  take zero xs = []
  take (suc n) [] = []
  take (suc n) (x ∷ xs) = x ∷ take n xs

  abbrev pub drop : ℕ → List A → List A
  drop zero xs = xs
  drop (suc n) [] = []
  drop (suc n) (x ∷ xs) = drop n xs

  pub length-append : (xs ys : List A) → length (xs ++ ys) ≡ length xs + length ys
  length-append [] ys = omega arith
  length-append (x ∷ xs) ys = omega (arith, length-append xs ys)

module _ {ℓ} {A : Type ℓ} where
  -- Go's `for … { if p(x) { … } }` as a list: the items that pass, in order.
  abbrev pub keep : (A → Bool) → List A → List A
  keep p [] = []
  keep p (x ∷ xs) = let rest = keep p xs in if p x then x ∷ rest else rest

  abbrev pub any : (A → Bool) → List A → Bool
  any p [] = false
  any p (x ∷ xs) = p x || any p xs

  abbrev pub All {κ} : (A → Type κ) → List A → Type κ
  All P [] = Unit
  All P (x ∷ xs) = P x × All P xs

  abbrev pub index_where : (A → Bool) → List A → Option ℕ
  index_where p [] = none
  index_where p (x ∷ xs) = if p x then some 0 else Option.map suc (index_where p xs)

  -- `append(slice[:index], slice[index+1:]...)`
  abbrev pub remove_element : List A → ℕ → List A
  remove_element xs index = take index xs ++ drop (suc index) xs

  -- The list without its first item that passes.
  abbrev pub remove_first : (A → Bool) → List A → List A
  remove_first p [] = []
  remove_first p (x ∷ xs) = if p x then xs else x ∷ remove_first p xs

  pub remove_element-index_where :
      (p : A → Bool) (xs : List A) (i : ℕ)
      → index_where p xs ≡ some i
      → remove_element xs i ≡ remove_first p xs
  remove_element-index_where p [] i h = ground arith
  remove_element-index_where p (x ∷ xs) zero h = elim (Bool-cases (p x)) [
    | inl e ↦ rw e
    | inr e ↦ ground arith
  ]
  remove_element-index_where p (x ∷ xs) (suc i) h =
      ground (arith, remove_element-index_where p xs i)

  pub any-index_where-some :
      (p : A → Bool) (xs : List A) (i : ℕ) → index_where p xs ≡ some i → any p xs ≡ true
  any-index_where-some p [] i h = ground arith
  any-index_where-some p (x ∷ xs) zero h = ground arith
  any-index_where-some p (x ∷ xs) (suc i) h = ground (arith, any-index_where-some p xs i)

  pub any-index_where-none :
      (p : A → Bool) (xs : List A) → index_where p xs ≡ none → any p xs ≡ false
  any-index_where-none p [] h = refl
  any-index_where-none p (x ∷ xs) h = ground (arith, any-index_where-none p xs)

  pub any-append : (p : A → Bool) (xs ys : List A) → any p (xs ++ ys) ≡ (any p xs || any p ys)
  any-append p [] ys = refl
  any-append p (x ∷ xs) ys = ground (arith, any-append p xs ys)

module _ {ℓ κ} {A : Type ℓ} (P : A → Type κ) where
  pub All-append : (xs ys : List A) → All P xs → All P ys → All P (xs ++ ys)
  All-append [] ys a b = b
  All-append (x ∷ xs) ys (h, a) b = (h, All-append xs ys a b)

  pub All-remove_first : (p : A → Bool) (xs : List A) → All P xs → All P (remove_first p xs)
  All-remove_first p [] a = a
  All-remove_first p (x ∷ xs) (h, a) = elim (Bool-cases (p x)) [
    | inl e ↦ rw e a
    | inr e ↦ rw e (h, All-remove_first p xs a)
  ]

pub any-remove_first-false {ℓ} :
    {A : Type ℓ} (p q : A → Bool) (xs : List A)
    → any q xs ≡ false
    → any q (remove_first p xs) ≡ false
any-remove_first-false p q [] h = refl
any-remove_first-false p q (x ∷ xs) h = ground (arith, any-remove_first-false p q xs)

pub All-combine {ℓ κ μ ν} :
    {A : Type ℓ} {P : A → Type κ} {Q : A → Type μ} {R : A → Type ν} (xs : List A)
    → ((x : A) → P x → Q x → R x)
    → All P xs
    → All Q xs
    → All R xs
All-combine [] f a b = tt
All-combine (x ∷ xs) f (p, a) (q, b) = (f x p q, All-combine xs f a b)

pub All-any-false {ℓ} :
    {A : Type ℓ} (p : A → Bool) (xs : List A) → any p xs ≡ false → All (λ x. p x ≡ false) xs
All-any-false p [] h = tt
All-any-false p (x ∷ xs) h = (ground arith, All-any-false p xs (ground arith))

pub remove_first-eq_self {ℓ} :
    {A : Type ℓ} (p : A → Bool) (xs : List A) → any p xs ≡ false → remove_first p xs ≡ xs
remove_first-eq_self p [] h = refl
remove_first-eq_self p (x ∷ xs) h = ground (arith, remove_first-eq_self p xs)
