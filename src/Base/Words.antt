-- ===== src/Base/Words.antt =====
-- Machine integers. An unsigned value is a number with its wrap-around written out; a signed one
-- is an integer with the two's complement conversions of C++ written out.
use Prim.Native.Nat.{ℕ, ◌-◌, ◌*◌, ◌%◌, ◌^◌}
use mathlib.Core.Bool.{Bool, false}
use hcom4db.Base.Tests.{ltb, ◌==◌, if◌then◌else◌}

-- `negsuc n` is -(n + 1).
pub data ℤ : Type 0 where
  pos : ℕ → ℤ
  negsuc : ℕ → ℤ

abbrev pub u16 : ℕ → ℕ
u16 n = n % 2 ^ 16

abbrev pub u32 : ℕ → ℕ
u32 n = n % 2 ^ 32

-- The bit pattern of width `2 ^ w = m` of an integer.
abbrev pub pattern_of : ℕ → ℤ → ℕ
pattern_of m (pos n) = n % m
pattern_of m (negsuc n) = m - 1 - n % m

-- The integer that a bit pattern below `2 * h` stands for.
abbrev pub signed_of : ℕ → ℕ → ℤ
signed_of h n = if ltb n h then pos n else negsuc (2 * h - 1 - n)

-- Conversions of an integer to uint32_t, int32_t and int16_t.
abbrev pub to_u32 : ℤ → ℕ
to_u32 = pattern_of (2 ^ 32)

abbrev pub to_i32 : ℤ → ℤ
to_i32 z = signed_of (2 ^ 31) (pattern_of (2 ^ 32) z)

abbrev pub to_i16 : ℤ → ℤ
to_i16 z = signed_of (2 ^ 15) (pattern_of (2 ^ 16) z)

-- Equality of integers.
abbrev pub eq_ℤ : ℤ → ℤ → Bool
eq_ℤ (pos a) (pos b) = a == b
eq_ℤ (negsuc a) (negsuc b) = a == b
eq_ℤ _ _ = false
