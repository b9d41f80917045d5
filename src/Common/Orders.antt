-- ===== src/Common/Orders.antt =====
-- The orders in which Go may iterate over a map: the permutations of its entries.
use mathlib.Core.Bool.{Bool}
use mathlib.Core.List.{List, Permᴰ}
use mathlib.Core.Path.{◌≡◌, refl, ap, ◌∙◌, subst}
use native.Mathlib.Omega.{arith}
use apo.Common.Lists.{any, All}

pub any-Perm {ℓ} : {A : Type ℓ} (p : A → Bool) {xs ys : List A} → Permᴰ xs ys → any p xs ≡ any p ys
any-Perm p Permᴰ.nil = refl
any-Perm p (Permᴰ.cons e h) = cc (any-Perm p h, ap p e)
any-Perm p (Permᴰ.swap {a} {b} e d) = ground (arith, ap p e, ap p d)
any-Perm p (Permᴰ.trans h g) = any-Perm p h ∙ any-Perm p g

pub All-Perm {ℓ κ} :
    {A : Type ℓ} (P : A → Type κ) {xs ys : List A} → Permᴰ xs ys → All P xs → All P ys
All-Perm P Permᴰ.nil a = a
All-Perm P (Permᴰ.cons e h) (x, a) = (subst P e x, All-Perm P h a)
All-Perm P (Permᴰ.swap e d) (x, (y, a)) = (subst P d y, (subst P e x, a))
All-Perm P (Permᴰ.trans h g) a = All-Perm P g (All-Perm P h a)
