-- ===== src/Cpu/Pipeline/Decode/Conditions.antt =====
-- What the conditions of `checkCondition` say after a comparison.
use aru_xi.Base.{
  ◌⊎◌, if◌then◌else◌, ◌==◌, ℕ, ◌+◌, ◌*◌, ◌^◌, ◌<◌, true, false, not, ◌||◌, ltb, leb, ◌==◌, sub32,
  is_negative, ◌≡◌, arith, bit_extract,
}
use aru_xi.Base.Int.{signed32, ltb_ℤ}
use aru_xi.Cpu.Hardware.{alu_flags, put_flags}
use aru_xi.Cpu.Hardware.Alu.{put_flags_lem, alu_flags_subtraction}
use aru_xi.Cpu.Pipeline.Decode.{check_condition}

-- `CSTR` after the flags of a comparison of two words.
abbrev pub compared : ℕ → ℕ → ℕ → ℕ
compared cstr a b = put_flags cstr (alu_flags true a b (sub32 a b))

module _ (bits cstr a b : ℕ) (ha : a < 2 ^ 32) (hb : b < 2 ^ 32) where
  -- After a comparison of two words the condition EQ, which is 0, holds exactly when they are equal,
  -- and NE, which is 1, exactly when they are not.
  pub check_condition_equal :
      (k : ℕ)
      → bit_extract bits 0 4 ≡ k
      → k < 2
      → check_condition bits (compared cstr a b) ≡ (if k == 0 then a == b else not (a == b))
  unfolding check_condition
  check_condition_equal k e lt =
      let read = put_flags_lem cstr (alu_flags true a b (sub32 a b)) in
      let f = alu_flags_subtraction a b ha hb in rw (e, read.3, f.0) (ground arith)

  no_overflow : is_negative a ≡ is_negative b → (alu_flags true a b (sub32 a b)).o ≡ false
  unfolding alu_flags
  no_overflow same = ground arith

  -- After a comparison of two words of the same sign the signed order is reported the wrong way
  -- round: GE, which is 9, holds exactly when the first word is below the second, and LT, which is
  -- 10, exactly when it is not.
  pub check_condition_signed :
      (k : ℕ)
      → bit_extract bits 0 4 ≡ k
      → (k ≡ 9) ⊎ (k ≡ 10)
      → is_negative a ≡ is_negative b
      → check_condition bits (compared cstr a b) ≡ (
          if k == 9 then ltb_ℤ (signed32 a) (signed32 b) else not (ltb_ℤ (signed32 a) (signed32 b)))
  unfolding check_condition
  check_condition_signed k e which same =
      let read = put_flags_lem cstr (alu_flags true a b (sub32 a b)) in
      let f = alu_flags_subtraction a b ha hb in
      let o = no_overflow same in rw (e, read.2, read.1, f.2, o) (ground arith)

  -- After a comparison of two words the condition CS, which is 7, holds when the first is not below
  -- the second without signs, and also when it is so far below that the wrapped difference is; CC,
  -- which is 6, holds exactly otherwise.
  pub check_condition_carry :
      (k : ℕ)
      → bit_extract bits 0 4 ≡ k
      → (k ≡ 6) ⊎ (k ≡ 7)
      → check_condition bits (compared cstr a b) ≡ (
          if k == 7
          then leb b a || ltb (2 ^ 32 + a) (2 * b)
          else not (leb b a || ltb (2 ^ 32 + a) (2 * b)))
  unfolding check_condition
  check_condition_carry k e which =
      let read = put_flags_lem cstr (alu_flags true a b (sub32 a b)) in
      let f = alu_flags_subtraction a b ha hb in rw (e, read.0, f.1) (ground arith)
