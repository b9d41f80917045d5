-- ===== src/Access/Filters.antt =====
-- What a test finds in the rows that a filter keeps.
use apo.Common.{
  Bool, true, ◌&&◌, ◌||◌, ◌≡◌, refl, List, [], ◌∷◌, arith, any, keep, ap, ◌∙◌, inl, inr, Bool-cases,
}

pub any-keep_const :
    {Row : Type 0} (p q : Row → Bool) (c : Bool) (rows : List Row)
    → ((r : Row) → p r ≡ true → q r ≡ c)
    → any p (keep q rows) ≡ (any p rows && c)
any-keep_const p q c [] h = refl
any-keep_const p q c (r ∷ rows) h =
    let rest = any-keep_const p q c rows h in
    elim (Bool-cases (p r)) [
      | inl hit ↦ elim (Bool-cases c) [
        | inl on ↦ let passes = h r hit ∙ on in ground (arith, rest, passes, hit)
        | inr off ↦ let passes = h r hit ∙ off in ground (arith, rest, passes, hit)
      ]
      | inr miss ↦ elim (Bool-cases (q r)) [
        | inl kept ↦ ground (arith, rest, miss, kept)
        | inr dropped ↦ ground (arith, rest, miss, dropped)
      ]
    ]

pub any-keep :
    {Row : Type 0} (p q : Row → Bool) (rows : List Row)
    → any p (keep q rows) ≡ any (λ r. q r && p r) rows
any-keep p q [] = refl
any-keep p q (r ∷ rows) = elim (Bool-cases (q r)) [
  | inl kept ↦ rw kept (ap (λ b. p r || b) (any-keep p q rows))
  | inr dropped ↦ rw dropped (any-keep p q rows)
]

pub both : (a b : Bool) → (a && b) ≡ true → (a ≡ true) × (b ≡ true)
both a b h = (ground (arith, h), ground (arith, h))
