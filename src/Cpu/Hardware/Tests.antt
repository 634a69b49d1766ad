-- ===== src/Cpu/Hardware/Tests.antt =====
-- The ALU of emulator/cpu/hardware.c at concrete words.
use aru_xi.Base.{ℕ, ◌≡◌, ◌≢◌, ◌↔◌, ◌⊎◌, refl, arith, true, false, is_negative, some}
use aru_xi.Base.Int.{signed32, ◌+ℤ◌, ◌-ℤ◌}
use aru_xi.Isa.{alu_asr}
use aru_xi.Cpu.Hardware.{Flags, alu_flags, alu_res, is_positive}
use aru_xi.Cpu.Hardware.Alu.{alu_flags_addition, alu_flags_subtraction}

abbrev flags : Flags
flags = record { c = true; o = false; n = true; z = false }

abbrev minus_one : ℕ
minus_one = 0xFFFFFFFF

abbrev one : ℕ
one = 1

addition_example :
    let f = alu_flags false 0xFFFFFFFF 1 0 in
    (f.c ≡ true)
    × (f.z ≡ true)
    × (f.n ≡ true)
    × ((f.o ≡ true)
        ↔ ((signed32 0xFFFFFFFF +ℤ signed32 1 ≢ signed32 0) ⊎ ((minus_one ≡ 0) × (one ≡ 0))))
addition_example = alu_flags_addition 0xFFFFFFFF 1 (omega arith) (omega arith)

subtraction_example :
    let f = alu_flags true 5 0xFFFFFFFE 7 in
    (f.z ≡ false)
    × (f.c ≡ true)
    × (f.n ≡ true)
    × ((f.o ≡ true) ↔ (
        (is_positive 5 ≡ true)
        × (is_negative 0xFFFFFFFE ≡ true)
        × (signed32 5 -ℤ signed32 0xFFFFFFFE ≡ signed32 7)))
subtraction_example = alu_flags_subtraction 5 0xFFFFFFFE (omega arith) (omega arith)

asr_res : alu_res alu_asr 0x80000000 4 ≡ some 0x08000000
unfolding alu_res
asr_res = refl
