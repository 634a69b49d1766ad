-- ===== src/Base/Word.antt =====
-- Casts to the fixed widths of C, shifts, and the two views of a 32-bit pattern.
use Prim.Native.Nat.{ℕ, ◌+◌, ◌-◌, ◌*◌, ◌/◌, ◌%◌, ◌^◌}
use mathlib.Core.Bool.{Bool}
use aru_xi.Base.Tests.{leb, if◌then◌else◌}

abbrev pub u8 : ℕ → ℕ
u8 n = n % 2 ^ 8

abbrev pub u16 : ℕ → ℕ
u16 n = n % 2 ^ 16

abbrev pub u32 : ℕ → ℕ
u32 n = n % 2 ^ 32

infixl 75 ◌<<<◌ ◌>>>◌
abbrev pub ◌<<<◌ : ℕ → ℕ → ℕ
x <<< k = x * 2 ^ k

abbrev pub ◌>>>◌ : ℕ → ℕ → ℕ
x >>> k = x / 2 ^ k

-- Subtraction of 32-bit patterns; the modulus is added first, since `-` stops at 0.
abbrev pub sub32 : ℕ → ℕ → ℕ
sub32 a b = u32 (a + 2 ^ 32 - b)

-- The sign bit of a 32-bit pattern.
abbrev pub is_negative : ℕ → Bool
is_negative x = leb (2 ^ 31) x

-- `(int32_t) x >> k`: the sign bit is copied in from the left.
abbrev pub sar32 : ℕ → ℕ → ℕ
sar32 x k = if is_negative x then x / 2 ^ k + (2 ^ 32 - 2 ^ (32 - k)) else x / 2 ^ k

-- `u32bitextract` and `s32bitextract`, whose masks `(1 << width) - 1` are remainders.
abbrev pub bit_extract : ℕ → ℕ → ℕ → ℕ
bit_extract bits start width = (bits >>> start) % 2 ^ width

abbrev pub sign_extract : ℕ → ℕ → ℕ → ℕ
sign_extract bits start width =
    sar32 (u32 (bit_extract bits start width <<< (32 - width))) (32 - width)
