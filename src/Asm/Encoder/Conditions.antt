-- ===== src/Asm/Encoder/Conditions.antt =====
-- The conditions of `b`: their names and numbers in assembler/encoder.c, and the bits of an
-- instruction that `checkCondition` of emulator/cpu/core.c reads.
use aru_xi.Base.{ℕ, ◌^◌, ◌<◌, true, ◌≡◌, refl, arith, bit_extract, ◌∷◌}
use aru_xi.Base.Text.{Text, codes, str_eq}
use aru_xi.Isa.{
  Cond, cond_eq, cond_ne, cond_ov, cond_nv, cond_mi, cond_pz, cond_cc, cond_cs, cond_gt, cond_ge,
  cond_lt, cond_le,
}
use aru_xi.Cpu.Pipeline.Decode.{check_condition}
use aru_xi.Asm.Operands.{done}
use aru_xi.Asm.Words.{bc_word, branch_word, in_range, get_condition_encoding, find_condition}

-- The conditions by the names that the manual gives them, and by their numbers in `cond_t`.
abbrev pub cond_name : Cond → Text
cond_name cond_eq = codes "eq"
cond_name cond_ne = codes "ne"
cond_name cond_ov = codes "ov"
cond_name cond_nv = codes "nv"
cond_name cond_mi = codes "mi"
cond_name cond_pz = codes "pz"
cond_name cond_cc = codes "cc"
cond_name cond_cs = codes "cs"
cond_name cond_gt = codes "gt"
cond_name cond_ge = codes "ge"
cond_name cond_lt = codes "lt"
cond_name cond_le = codes "le"

abbrev pub cond_code : Cond → ℕ
cond_code cond_eq = 0
cond_code cond_ne = 1
cond_code cond_ov = 2
cond_code cond_nv = 3
cond_code cond_mi = 4
cond_code cond_pz = 5
cond_code cond_cc = 6
cond_code cond_cs = 7
cond_code cond_gt = 8
cond_code cond_ge = 9
cond_code cond_lt = 10
cond_code cond_le = 11

pub get_condition_encoding-cond_name :
    (c : Cond) → (get_condition_encoding (cond_name c) ≡ done (cond_code c)) × (cond_code c < 2 ^ 4)
unfolding get_condition_encoding find_condition str_eq
get_condition_encoding-cond_name cond_eq = (refl, omega arith)
get_condition_encoding-cond_name cond_ne = (refl, omega arith)
get_condition_encoding-cond_name cond_ov = (refl, omega arith)
get_condition_encoding-cond_name cond_nv = (refl, omega arith)
get_condition_encoding-cond_name cond_mi = (refl, omega arith)
get_condition_encoding-cond_name cond_pz = (refl, omega arith)
get_condition_encoding-cond_name cond_cc = (refl, omega arith)
get_condition_encoding-cond_name cond_cs = (refl, omega arith)
get_condition_encoding-cond_name cond_gt = (refl, omega arith)
get_condition_encoding-cond_name cond_ge = (refl, omega arith)
get_condition_encoding-cond_name cond_lt = (refl, omega arith)
get_condition_encoding-cond_name cond_le = (refl, omega arith)

pub check_condition-bits :
    (v w cstr : ℕ)
    → bit_extract v 0 4 ≡ bit_extract w 0 4
    → check_condition v cstr ≡ check_condition w cstr
unfolding check_condition
check_condition-bits v w cstr same = rw same refl

pub branch_word-cond :
    (cond : Text) (n offset : ℕ)
    → in_range 18 offset ≡ true
    → get_condition_encoding cond ≡ done n
    → branch_word (b'b' ∷ cond) offset ≡ done (bc_word offset n)
unfolding branch_word
branch_word-cond cond n offset near found = rw (near, found) refl
