-- ===== src/Access/Difference.antt =====
-- The loop that services share: what to add to the ids that a subject holds and what to delete
-- from them, so that it holds the wanted ones. `map[int]struct{}` is a list of ids without order.
use apo.Common.{
  map, ◌∙◌, eq_of_some, subst, ap, inr, inl, Bool-cases, ℕ, Bool, true, false, not, ◌&&◌, ◌||◌, ◌≡◌,
  refl, Option, none, some, List, [], ◌∷◌, ◌++◌, arith, any, keep, ◌==◌, if◌then◌else◌,
}

-- `_, ok := m[id]`
abbrev pub mem : ℕ → List ℕ → Bool
mem id ids = any (λ x. x == id) ids

-- `delete(m, id)`
abbrev pub without : ℕ → List ℕ → List ℕ
without id ids = keep (λ x. not (x == id)) ids

-- The map that a loop over a list of ids makes.
abbrev pub to_set : List ℕ → List ℕ
to_set [] = []
to_set (id ∷ ids) = id ∷ without id (to_set ids)

-- The loop: the ids to add, and the held ones that are left.
unfoldable pub difference_loop : (ℕ → Bool) → List ℕ → List ℕ → List ℕ → Option (List ℕ × List ℕ)
difference_loop is_known to_add left [] = some (to_add, left)
difference_loop is_known to_add left (id ∷ wanted) =
    let rest =
      (if mem id left
        then difference_loop is_known to_add (without id left) wanted
        else difference_loop is_known (to_add ++ id ∷ []) left wanted) in
    if is_known id then rest else none

unfoldable pub difference : (ℕ → Bool) → List ℕ → List ℕ → Option (List ℕ × List ℕ)
unfolding difference_loop
difference is_known held wanted = difference_loop is_known [] held wanted

pub mem-map :
    {Row : Type 0} (f : Row → ℕ) (x : ℕ) (rows : List Row)
    → mem x (map f rows) ≡ any (λ r. f r == x) rows
mem-map f x [] = refl
mem-map f x (r ∷ rows) = ap (λ b. f r == x || b) (mem-map f x rows)

mem-without : (x id : ℕ) (ids : List ℕ) → mem x (without id ids) ≡ (mem x ids && not (id == x))
mem-without x id [] = refl
mem-without x id (y ∷ ids) = ground (arith, mem-without x id ids)

pub mem-to_set : (x : ℕ) (ids : List ℕ) → mem x (to_set ids) ≡ mem x ids
mem-to_set x [] = refl
mem-to_set x (id ∷ ids) = ground (arith, mem-to_set x ids, mem-without x id (to_set ids))

mem-snoc : (x id : ℕ) (ids : List ℕ) → mem x (ids ++ id ∷ []) ≡ (mem x ids || id == x)
mem-snoc x id [] = ground arith
mem-snoc x id (y ∷ ids) = ground (arith, mem-snoc x id ids)

mem-same : (x id : ℕ) (ids : List ℕ) → (id == x) ≡ true → mem x ids ≡ mem id ids
mem-same x id ids h = ap (λ y. mem y ids) (ground (arith, h))

-- What was held or is to be added, less what is left to delete.
abbrev pub mem_after : ℕ → List ℕ → List ℕ → List ℕ → Bool
mem_after x held to_add left = (mem x held && not (mem x left)) || mem x to_add

-- The ids after the operation are the ones that were settled before, and the wanted ones.
loop_lem :
    (is_known : ℕ → Bool) (held to_add left wanted added deleted : List ℕ) (x : ℕ)
    → difference_loop is_known to_add left wanted ≡ some (added, deleted)
    → (mem x left ≡ true → mem x held ≡ true)
    → (mem_after x held added deleted ≡ (mem_after x held to_add left || mem x wanted))
      × (mem x deleted ≡ (mem x left && not (mem x wanted)))
unfolding difference_loop
loop_lem is_known held to_add left [] added deleted x e h = (
  ground (arith, ap (λ (p : List ℕ × List ℕ). mem_after x held p.0 p.1) (eq_of_some e)),
  ground (arith, ap (λ (p : List ℕ × List ℕ). mem x p.1) (eq_of_some e)),
)
loop_lem is_known held to_add left (id ∷ wanted) added deleted x e h =
    elim (Bool-cases (is_known id)) [
      | inl known ↦ elim (Bool-cases (mem id left)) [
        | inl found ↦
            let (after, rest) =
              loop_lem is_known held to_add (without id left) wanted added deleted x
                (subst (λ o. o ≡ some (added, deleted)) (rw (known, found) refl) e)
                (λ m. h (ground (arith, m, mem-without x id left))) in
            (
              after ∙ ground (arith, h, found, mem-without x id left, mem-same x id left),
              rest ∙ ground (arith, mem-without x id left),
            )
        | inr new ↦
            let (after, rest) =
              loop_lem is_known held (to_add ++ id ∷ []) left wanted added deleted x
                (subst (λ o. o ≡ some (added, deleted)) (rw (known, new) refl) e) h in
            (
              after ∙ ground (arith, mem-snoc x id to_add),
              rest ∙ ground (arith, new, mem-same x id left),
            )
      ]
      | inr unknown ↦ absurd (ground (arith, e, unknown))
    ]

loop-fails :
    (is_known : ℕ → Bool) (to_add left wanted : List ℕ)
    → (any (λ id. not (is_known id)) wanted ≡ true
        → difference_loop is_known to_add left wanted ≡ none)
      × (any (λ id. not (is_known id)) wanted ≡ false
          → (sets : List ℕ × List ℕ) × (difference_loop is_known to_add left wanted ≡ some sets))
unfolding difference_loop
loop-fails is_known to_add left [] = (λ h. absurd (ground (arith, h)), λ h. ((to_add, left), refl))
loop-fails is_known to_add left (id ∷ wanted) =
    let (bad1, good1) = loop-fails is_known to_add (without id left) wanted in
    let (bad2, good2) = loop-fails is_known (to_add ++ id ∷ []) left wanted in
    elim (Bool-cases (is_known id)) [
      | inl known ↦ elim (Bool-cases (mem id left)) [
        | inl found ↦ rw (known, found) (bad1, good1)
        | inr new ↦ rw (known, new) (bad2, good2)
      ]
      | inr unknown ↦ rw unknown (λ h. refl, λ h. absurd (ground (arith, h)))
    ]

-- The difference is refused if one of the wanted ids is not known, and else it is given.
pub difference-fails :
    (is_known : ℕ → Bool) (held wanted : List ℕ)
    → (any (λ id. not (is_known id)) wanted ≡ true → difference is_known held wanted ≡ none)
      × (any (λ id. not (is_known id)) wanted ≡ false
          → (sets : List ℕ × List ℕ) × (difference is_known held wanted ≡ some sets))
unfolding difference
difference-fails is_known held wanted = loop-fails is_known [] held wanted

-- Without what it deletes and with what it adds, what was held becomes what is wanted. It deletes
-- what is held and not wanted.
pub difference_lem :
    (is_known : ℕ → Bool) (held wanted added deleted : List ℕ)
    → difference is_known held wanted ≡ some (added, deleted)
    → (x : ℕ)
    → (mem_after x held added deleted ≡ mem x wanted)
      × (mem x deleted ≡ (mem x held && not (mem x wanted)))
unfolding difference
difference_lem is_known held wanted added deleted e x =
    let (after, rest) = loop_lem is_known held [] held wanted added deleted x e (λ h. h) in
    (after ∙ ground arith, rest)

-- Insertion before deletion gives the same, since nothing is both wanted and deleted.
pub settled :
    (held added deleted wanted : Bool)
    → ((held && not deleted) || added) ≡ wanted
    → deleted ≡ (held && not wanted)
    → ((held || added) && not deleted) ≡ wanted
settled held added deleted wanted h1 h2 = ground (arith, h1, h2)
