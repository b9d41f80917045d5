-- ===== src/Common/Decimal.antt =====
-- `strconv.FormatInt(n, 10)` and `%d` for a number that is not negative.
use Prim.Native.Nat.{ℕ, zero, suc, ◌+◌, ◌-◌, ◌*◌, ◌/◌, ◌%◌, ◌<◌}
use Prim.Native.Char.{code}
use Prim.Native.String
use Prim.Native.String.{String, [], ◌∷◌}
use mathlib.Core.Logic.{inl, inr}
use mathlib.Core.Path.{◌≡◌, ◌∙◌}
use native.Mathlib.Omega.{arith}
use text.Mathlib.TextLemmas.{nil-append, cons-append}
use apo.Common.Tests.{ltb, if◌then◌else◌, Bool-cases}

digit : ℕ → String
digit zero = "0"
digit (suc zero) = "1"
digit (suc (suc zero)) = "2"
digit (suc (suc (suc zero))) = "3"
digit (suc (suc (suc (suc zero)))) = "4"
digit (suc (suc (suc (suc (suc zero))))) = "5"
digit (suc (suc (suc (suc (suc (suc zero)))))) = "6"
digit (suc (suc (suc (suc (suc (suc (suc zero))))))) = "7"
digit (suc (suc (suc (suc (suc (suc (suc (suc zero)))))))) = "8"
digit (suc (suc (suc (suc (suc (suc (suc (suc (suc n))))))))) = "9"

-- The digits of a number below 10 ^ fuel.
show_fuel : ℕ → ℕ → String
show_fuel zero n = ""
show_fuel (suc fuel) n =
    let more = show_fuel fuel (n / 10) in
    if ltb n 10 then digit n else String.◌++◌ more (digit (n % 10))

unfoldable pub show : ℕ → String
unfolding show_fuel digit
show n = show_fuel (suc n) n

-- The number that a text of digits stands for.
read_from : ℕ → String → ℕ
read_from n [] = n
read_from n (c ∷ s) = read_from (n * 10 + (code c - 48)) s

unfoldable pub read : String → ℕ
unfolding read_from
read s = read_from 0 s

read_from-append :
    (n : ℕ) (s t : String) → read_from n (String.◌++◌ s t) ≡ read_from (read_from n s) t
unfolding read_from
read_from-append n [] t = rw nil-append
read_from-append n (c ∷ s) t = rw cons-append (read_from-append (n * 10 + (code c - 48)) s t)

read_from-digit : (n d : ℕ) → d < 10 → read_from n (digit d) ≡ n * 10 + d
unfolding read_from digit
read_from-digit n zero h = omega arith
read_from-digit n (suc zero) h = omega arith
read_from-digit n (suc (suc zero)) h = omega arith
read_from-digit n (suc (suc (suc zero))) h = omega arith
read_from-digit n (suc (suc (suc (suc zero)))) h = omega arith
read_from-digit n (suc (suc (suc (suc (suc zero))))) h = omega arith
read_from-digit n (suc (suc (suc (suc (suc (suc zero)))))) h = omega arith
read_from-digit n (suc (suc (suc (suc (suc (suc (suc zero))))))) h = omega arith
read_from-digit n (suc (suc (suc (suc (suc (suc (suc (suc zero)))))))) h = omega arith
read_from-digit n (suc (suc (suc (suc (suc (suc (suc (suc (suc d))))))))) h = omega arith

read-show_fuel : (fuel n : ℕ) → n < fuel → read_from 0 (show_fuel fuel n) ≡ n
unfolding show_fuel
read-show_fuel zero n h = absurd (omega arith)
read-show_fuel (suc fuel) n h = elim (Bool-cases (ltb n 10)) [
  | inl small ↦ rw small (read_from-digit 0 n (ground arith) ∙ omega arith)
  | inr large ↦
      rw (large, read_from-append 0 (show_fuel fuel (n / 10)) (digit (n % 10)))
        (rw (read-show_fuel fuel (n / 10) (ground arith))
          (read_from-digit (n / 10) (n % 10) (omega arith) ∙ omega arith))
]

-- A number is read back from its digits.
pub read-show : (n : ℕ) → read (show n) ≡ n
unfolding read show
read-show n = read-show_fuel (suc n) n (omega arith)
