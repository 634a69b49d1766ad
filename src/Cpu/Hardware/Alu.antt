-- ===== src/Cpu/Hardware/Alu.antt =====
-- The condition flags that `alu` of emulator/cpu/hardware.c computes, against the arithmetic that
-- they stand for.
use aru_xi.Base.{
  ℕ, ◌+◌, ◌-◌, ◌*◌, ◌/◌, ◌^◌, ◌%◌, ◌≤◌, ◌<◌, bit_and, true, false, not, ◌||◌, ltb, leb, ◌==◌, u32,
  sub32, sar32, is_negative, ◌≡◌, ◌≢◌, arith, ◌↔◌, ◌⊎◌, some,
}
use aru_xi.Base.Int.{signed32, ◌+ℤ◌, ◌-ℤ◌}
use aru_xi.Base.Bits.{bit_or_fields, bit_and_mask, bit_and_shift}
use native.Mathlib.Nat.{pow-le-pow_right}
use aru_xi.Isa.{alu_asr}
use aru_xi.Cpu.State.{get_c, get_o, get_n, get_z, set_conds, bit_of}
use aru_xi.Cpu.Hardware.{Flags, alu_res, alu_flags, put_flags, is_positive}

-- `res & 0x80000000` is the sign bit.
sign_mask : (x : ℕ) → x < 2 ^ 32 → (bit_and x 0x80000000 == 0) ≡ not (is_negative x)
sign_mask x lt =
    let top : bit_and (x / 2 ^ 31) 1 ≡ x / 2 ^ 31 % 2 = bit_and_mask 1 (x / 2 ^ 31) in
    let masked : bit_and x 0x80000000 ≡ x / 2 ^ 31 % 2 * 2 ^ 31 =
      omega (arith, top, bit_and_shift 31 x 1) in
    ground arith

-- Each flag that is put into `CSTR` is read back, and the other bits of `CSTR` stay.
pub put_flags_lem :
    (cstr : ℕ) (f : Flags)
    → (get_c (put_flags cstr f) ≡ bit_of f.c)
      × (get_o (put_flags cstr f) ≡ bit_of f.o)
      × (get_n (put_flags cstr f) ≡ bit_of f.n)
      × (get_z (put_flags cstr f) ≡ bit_of f.z)
      × (put_flags cstr f / 16 ≡ cstr / 16)
unfolding put_flags
put_flags_lem cstr f =
    rw (bit_or_fields 4 (cstr / 16) (set_conds f.c f.o f.n f.z % 2 ^ 4) (omega arith))
      (ground arith, ground arith, ground arith, ground arith, ground arith)

-- The flags of an addition of two words: C is set exactly when the sum does not fit 32 bits, and Z
-- exactly when the result is 0. O is set when the signed sum does not fit, and also when both words
-- are 0. N is set when the result is not negative.
pub alu_flags_addition :
    (a b : ℕ)
    → a < 2 ^ 32
    → b < 2 ^ 32
    → let f = alu_flags false a b (u32 (a + b)) in
      (f.c ≡ leb (2 ^ 32) (a + b))
      × (f.z ≡ (u32 (a + b) == 0))
      × (f.n ≡ not (is_negative (u32 (a + b))))
      × ((f.o ≡ true) ↔ ((signed32 a +ℤ signed32 b ≢ signed32 (u32 (a + b))) ⊎ ((a ≡ 0) × (b ≡ 0))))
unfolding alu_flags
alu_flags_addition a b ha hb = (
  ground arith,
  ground arith,
  sign_mask (u32 (a + b)) (omega arith),
  (λ o. ground arith, λ e. ground arith),
)

-- The flags of a subtraction of two words: Z is set exactly when they are equal. C is set when
-- nothing is borrowed, and also when the wrapped difference is below the second word. N is set when
-- the result is not negative. O is set exactly when the first word is positive, the second is
-- negative and the signed difference does fit.
pub alu_flags_subtraction :
    (a b : ℕ)
    → a < 2 ^ 32
    → b < 2 ^ 32
    → let f = alu_flags true a b (sub32 a b) in
      (f.z ≡ (a == b))
      × (f.c ≡ (leb b a || ltb (2 ^ 32 + a) (2 * b)))
      × (f.n ≡ not (is_negative (sub32 a b)))
      × ((f.o ≡ true) ↔ (
          (is_positive a ≡ true)
          × (is_negative b ≡ true)
          × (signed32 a -ℤ signed32 b ≡ signed32 (sub32 a b))))
unfolding alu_flags
alu_flags_subtraction a b ha hb = (
  ground arith,
  ground arith,
  sign_mask (sub32 a b) (omega arith),
  (λ o. ground arith, λ e. ground arith),
)

-- ASR shifts zeros in: on a negative word, a shift by 1 to 31 places never gives the arithmetic
-- shift.
pub alu_asr_fills_zeros :
    (a b r : ℕ)
    → a < 2 ^ 32
    → is_negative a ≡ true
    → 0 < b
    → b < 32
    → alu_res alu_asr a b ≡ some r
    → r ≢ sar32 a b
unfolding alu_res
alu_asr_fills_zeros a b r lt neg shifts fits e wrong =
    let short : 2 ^ (32 - b) ≤ 2 ^ 31 =
      pow-le-pow_right {n = 2} (omega arith) {i = 32 - b} {j = 31} (omega arith) in
    ground arith
