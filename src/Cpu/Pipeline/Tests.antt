-- ===== src/Cpu/Pipeline/Tests.antt =====
-- Conditions and branch targets of emulator/cpu/core.c at concrete values.
use aru_xi.Base.{
  inr, ◌+◌, ◌-◌, ◌≤◌, ◌<◌, ◌^◌, ◌≡◌, ◌↔◌, ◌⊎◌, refl, arith, true, false, u32, sign_extract, ◌<<<◌,
}
use aru_xi.Cpu.Pipeline.Decode.{check_condition}
use aru_xi.Cpu.Pipeline.Decode.Conditions.{
  compared, check_condition_equal, check_condition_signed, check_condition_carry,
}
use aru_xi.Cpu.Pipeline.Execute.{bi_target, bc_target}
use aru_xi.Cpu.Pipeline.Execute.Branch.{displaced, bi_target_lem, bc_target_lem}

equal_example : check_condition 0xC4000000 (compared 0 3 3) ≡ true
equal_example =
    check_condition_equal 0xC4000000 0 3 3 (omega arith) (omega arith) 0 refl (omega arith)

signed_example : check_condition 0xC400000A (compared 0 2 3) ≡ false
signed_example =
    check_condition_signed 0xC400000A 0 2 3 (omega arith) (omega arith) 10 refl (inr refl) refl

carry_example : check_condition 0xC4000007 (compared 0 2 3) ≡ false
carry_example = check_condition_carry 0xC4000007 0 2 3 (omega arith) (omega arith) 7 refl (inr refl)

-- A jump 8 instructions back from 0x20190040.
bi_target_example :
    (bi_target 0x20190044 (sign_extract 0xFFFFF8 0 24) ≡ displaced 0x20190044 24 0xFFFFF8)
    ↔ ((0xFFFFF8 < 2 ^ 20) ⊎ (2 ^ 24 - 2 ^ 20 ≤ 0xFFFFF8))
bi_target_example = bi_target_lem 0x20190044 0xFFFFF8 (omega arith) (omega arith)

bc_target_example :
    bc_target 0x20190044 (sign_extract (0x7FFF8 <<< 5) 5 19)
    ≡ u32 (displaced 0x20190044 19 0x7FFF8 + 2 ^ 21)
bc_target_example = bc_target_lem 0x20190044 0x7FFF8 (omega arith) (omega arith)
