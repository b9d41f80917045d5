-- ===== src/Common/Results.antt =====
-- Go's value with an error beside it, of which one is present.
use Prim.Native.String.{String}
use mathlib.Core.Path.{◌≡◌}

pub data Result {ℓ} (A : Type ℓ) : Type ℓ where
  ok : A → Result A
  err : String → Result A

pub eq_of_ok {ℓ} : {A : Type ℓ} {a b : A} → ok a ≡ ok b → a ≡ b
eq_of_ok h = cc
