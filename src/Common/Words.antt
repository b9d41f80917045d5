-- ===== src/Common/Words.antt =====
-- Go's 64-bit integers.
use Prim.Native.Nat.{ℕ, ◌^◌}

-- 2 ^ 64, the modulus of uint64.
abbrev pub u64_mod : ℕ
u64_mod = 2 ^ 64
