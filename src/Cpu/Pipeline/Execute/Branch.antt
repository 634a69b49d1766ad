-- ===== src/Cpu/Pipeline/Execute/Branch.antt =====
-- The branch targets of `nextIR` of emulator/cpu/core.c, against the displacement that the
-- instruction holds.
use aru_xi.Base.{
  ℕ, ◌+◌, ◌-◌, ◌*◌, ◌/◌, ◌^◌, ◌≤◌, ◌<◌, ◌==◌, if◌then◌else◌, u32, sub32, ltb, ◌↔◌, ◌⊎◌, ◌≡◌, arith,
  ◌<<<◌, sign_extract,
}
use aru_xi.Cpu.Pipeline.Execute.{bi_target, bc_target}

-- The address of the instruction, 4 below `IR`, and a displacement in instructions, as `width` bits
-- of two's complement.
abbrev pub displaced : ℕ → ℕ → ℕ → ℕ
displaced ir width field =
    if field / 2 ^ (width - 1) == 0
    then u32 (sub32 ir 4 + 4 * field)
    else u32 (sub32 ir 4 + 2 ^ 32 - 4 * (2 ^ width - field))

-- UB and CALL reach the displacement of their 24-bit field exactly when it lies in
-- [-2 ^ 20, 2 ^ 20) instructions: the sign is taken from bit 22 of the byte displacement, so that of
-- a larger one the top is lost.
pub bi_target_lem :
    (ir field : ℕ)
    → ir < 2 ^ 32
    → field < 2 ^ 24
    → (bi_target ir (sign_extract field 0 24) ≡ displaced ir 24 field)
      ↔ ((field < 2 ^ 20) ⊎ (2 ^ 24 - 2 ^ 20 ≤ field))
unfolding bi_target
bi_target_lem ir field lt small = ground arith

-- B reaches the displacement of its 19-bit field when that is not negative; the field is not
-- extended, and a backward branch goes 2 ^ 21 bytes too far.
pub bc_target_lem :
    (ir field : ℕ)
    → ir < 2 ^ 32
    → field < 2 ^ 19
    → bc_target ir (sign_extract (field <<< 5) 5 19)
      ≡ (if ltb field (2 ^ 18) then displaced ir 19 field else u32 (displaced ir 19 field + 2 ^ 21))
unfolding bc_target
bc_target_lem ir field lt small = ground arith
