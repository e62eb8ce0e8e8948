-- ===== src/Prelude/Words.antt =====
-- 32-bit words.
use Prim.Native.Nat.{ℕ, ◌%◌}

abbrev pub u32 : ℕ → ℕ
u32 n = n % 4294967296

-- The bit pattern of -1.
abbrev pub minus_one : ℕ
minus_one = 4294967295
