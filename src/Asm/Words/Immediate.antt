-- ===== src/Asm/Words/Immediate.antt =====
-- Which immediates the checks of `getImmediateEncoding` of assembler/encoder.c let through.
use aru_xi.Base.{ℕ, ◌-◌, ◌*◌, ◌/◌, ◌%◌, ◌^◌, ◌<◌, ◌&&◌, ◌==◌, ltb, ◌≡◌, ◌∙◌, arith, u16, bit_and}
use aru_xi.Base.Bits.{bit_and_mask, bit_and_shift}
use aru_xi.Asm.Words.{fits, imm14, simm9}

field_mask : (res k n : ℕ) → bit_and res ((2 ^ n - 1) * 2 ^ k) ≡ res / 2 ^ k % 2 ^ n * 2 ^ k
field_mask res k n = bit_and_shift k res (2 ^ n - 1) ∙ rw (bit_and_mask n (res / 2 ^ k))

-- An immediate of 14 bits is let through exactly when its low 16 bits, which are the ones that are
-- encoded, are below 2 ^ 14, and its bits 19 and 24 to 27 are clear; its other bits are not looked
-- at, so that larger values pass and are cut off.
pub fits_imm14_lem :
    (res : ℕ)
    → fits imm14 res
      ≡ (ltb (u16 res) (2 ^ 14) && (res / 2 ^ 24 % 16 == 0) && (res / 2 ^ 19 % 2 == 0))
unfolding fits
fits_imm14_lem res =
    let a : bit_and res 0xc000 ≡ res / 2 ^ 14 % 2 ^ 2 * 2 ^ 14 = field_mask res 14 2 in
    let b : bit_and res 0xf000000 ≡ res / 2 ^ 24 % 2 ^ 4 * 2 ^ 24 = field_mask res 24 4 in
    let c : bit_and res 0x80000 ≡ res / 2 ^ 19 % 2 ^ 1 * 2 ^ 19 = field_mask res 19 1 in
    ground arith

-- An offset of a load or store is let through exactly when it lies in [0, 2 ^ 8): the case of nine
-- signed bits runs on into that of 14 unsigned ones, which no negative offset passes.
pub fits_simm9_lem : (res : ℕ) → res < 2 ^ 32 → fits simm9 res ≡ ltb res (2 ^ 8)
unfolding fits
fits_simm9_lem res lt =
    let a : bit_and res 0xc000 ≡ res / 2 ^ 14 % 2 ^ 2 * 2 ^ 14 = field_mask res 14 2 in
    let b : bit_and res 0xf000000 ≡ res / 2 ^ 24 % 2 ^ 4 * 2 ^ 24 = field_mask res 24 4 in
    let c : bit_and res 0x80000 ≡ res / 2 ^ 19 % 2 ^ 1 * 2 ^ 19 = field_mask res 19 1 in
    ground arith
