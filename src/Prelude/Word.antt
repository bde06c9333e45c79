-- ===== src/Prelude/Word.antt =====
-- The fixed-width types of C. An unsigned value is a number below 2 ^ w and a signed one an
-- integer; every operation wraps, also the signed ones, since the kernel is compiled so.
use Prim.Native.Nat.{ℕ, ◌+◌, ◌-◌, ◌/◌, ◌%◌, ◌^◌, ◌<◌}
use mathlib.Core.Path.{◌≡◌}
use mathlib.Core.Bool.{Bool}
use native.Mathlib.Omega.{arith}
use redundant_mptcp_r_mptcp.Prelude.Tests.{ltb, ◌==◌, if◌then◌else◌}
use redundant_mptcp_r_mptcp.Prelude.Int.{ℤ, pos, negsuc, pos_part, neg_part}

abbrev pub u32 : ℕ → ℕ
u32 n = n % 2 ^ 32

abbrev pub u64 : ℕ → ℕ
u64 n = n % 2 ^ 64

-- Unsigned subtraction wraps.
abbrev pub sub32 : ℕ → ℕ → ℕ
sub32 a b = u32 (a + (2 ^ 32 - u32 b))

abbrev pub sub64 : ℕ → ℕ → ℕ
sub64 a b = u64 (a + (2 ^ 64 - u64 b))

-- Casts of a signed value to an unsigned type, and back.
unfoldable pub u32_of : ℤ → ℕ
u32_of a = u32 (u32 (pos_part a) + (2 ^ 32 - u32 (neg_part a)))

unfoldable pub u64_of : ℤ → ℕ
u64_of a = u64 (u64 (pos_part a) + (2 ^ 64 - u64 (neg_part a)))

unfoldable pub s32_of : ℕ → ℤ
s32_of w = if ltb (u32 w) (2 ^ 31) then pos (u32 w) else negsuc (2 ^ 32 - 1 - u32 w)

unfoldable pub s64_of : ℕ → ℤ
s64_of w = if ltb (u64 w) (2 ^ 63) then pos (u64 w) else negsuc (2 ^ 64 - 1 - u64 w)

-- A signed result brought back into its type.
unfoldable pub s32 : ℤ → ℤ
unfolding s32_of u32_of
s32 a = s32_of (u32_of a)

unfoldable pub s64 : ℤ → ℤ
unfolding s64_of u64_of
s64 a = s64_of (u64_of a)

-- `word & (1 << i)`, as a test.
abbrev pub bit : ℕ → ℕ → Bool
bit word i = (word / 2 ^ i) % 2 == 1

-- Within its range a signed value is left alone.
pub s64_id : (a : ℤ) → pos_part a < 2 ^ 63 → neg_part a < 2 ^ 63 → s64 a ≡ a
unfolding s64
s64_id (pos n) h k = ground arith
s64_id (negsuc n) h k = ground arith

pub s32_id : (a : ℤ) → pos_part a < 2 ^ 31 → neg_part a < 2 ^ 31 → s32 a ≡ a
unfolding s32
s32_id (pos n) h k = ground arith
s32_id (negsuc n) h k = ground arith
