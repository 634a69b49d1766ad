-- ===== src/Asm/Names.antt =====
-- The names of headers/assembler/constants.h, and the tests of assembler/lexer-parser.c on them.
use aru_xi.Base.{ℕ, ◌+◌, Bool, false, ◌||◌, ◌==◌, if◌then◌else◌, List, [], ◌∷◌}
use Prim.Native.String.{String}
use aru_xi.Base.Text.{Text, codes, str_case_eq}
use aru_xi.Asm.Operands.{Result, done, fatal}

-- Ordered by type; the types are told by the place in the list.
unfoldable pub valid_instructions : List String
valid_instructions =
    "add" ∷ "adds" ∷ "sub" ∷ "subs" ∷ "or" ∷ "and" ∷ "xor" ∷ "not" ∷ "lsl" ∷ "lsr" ∷ "asr" ∷ "cmp"
    ∷ "mv" ∷ "mvn" ∷ "nop" ∷ "mul" ∷ "smul" ∷ "div" ∷ "sdiv" ∷ "ld" ∷ "ldb" ∷ "ldbs" ∷ "ldbz"
    ∷ "ldh" ∷ "ldhs" ∷ "ldhz" ∷ "str" ∷ "strb" ∷ "strh" ∷ "ub" ∷ "call" ∷ "ubr" ∷ "ret" ∷ "b"
    ∷ "syscall" ∷ "hlt" ∷ "si" ∷ "di" ∷ "eret" ∷ "ldir" ∷ "mvcstr" ∷ "ldcstr" ∷ "resr" ∷ []

abbrev pub i_type_idx : ℕ
i_type_idx = 14

abbrev pub r_type_idx : ℕ
r_type_idx = 15

abbrev pub m_type_idx : ℕ
m_type_idx = 19

abbrev pub bi_type_idx : ℕ
bi_type_idx = 29

abbrev pub bu_type_idx : ℕ
bu_type_idx = 31

abbrev pub bc_type_idx : ℕ
bc_type_idx = 33

abbrev pub s_type_idx : ℕ
s_type_idx = 34

abbrev pub f_type_idx : ℕ
f_type_idx = 43

unfoldable pub valid_registers : List String
valid_registers =
    "x0" ∷ "x1" ∷ "x2" ∷ "x3" ∷ "x4" ∷ "x5" ∷ "x6" ∷ "x7" ∷ "x8" ∷ "x9" ∷ "x10" ∷ "x11" ∷ "x12"
    ∷ "x13" ∷ "x14" ∷ "x15" ∷ "x16" ∷ "x17" ∷ "x18" ∷ "x19" ∷ "x20" ∷ "x21" ∷ "x22" ∷ "x23" ∷ "x24"
    ∷ "x25" ∷ "x26" ∷ "x27" ∷ "x28" ∷ "x29" ∷ "x30" ∷ "x31" ∷ "sp" ∷ "xr" ∷ "a0" ∷ "a1" ∷ "a2"
    ∷ "a3" ∷ "a4" ∷ "a5" ∷ "a6" ∷ "a7" ∷ "a8" ∷ "a9" ∷ "c0" ∷ "c1" ∷ "c2" ∷ "c3" ∷ "c4" ∷ "s0"
    ∷ "s1" ∷ "s2" ∷ "s3" ∷ "s4" ∷ "s5" ∷ "s6" ∷ "s7" ∷ "s8" ∷ "s9" ∷ "s10" ∷ "lr" ∷ "xb" ∷ "xz"
    ∷ "ir" ∷ []

-- `strcasecmp` against each name of a list.
unfoldable pub is_among : List String → Text → Bool
is_among [] s = false
is_among (n ∷ names) s = str_case_eq (codes n) s || is_among names s

unfoldable pub is_valid_register : Text → Bool
is_valid_register reg = is_among valid_registers reg

unfoldable pub validate_register : Text → Result (Unit {0})
validate_register reg = if is_valid_register reg then done tt else fatal

unfoldable pub index_from : ℕ → List String → Text → Result ℕ
index_from i [] s = fatal
index_from i (n ∷ names) s =
    let later = index_from (i + 1) names s in if str_case_eq (codes n) s then done i else later

abbrev pub first_char : Text → ℕ
first_char [] = 0
first_char (c ∷ s) = c

-- Whatever starts with `b` is taken for a conditional branch.
unfoldable pub validate_instruction : Text → Result ℕ
validate_instruction instr =
    if first_char instr == b'b' then done bc_type_idx else index_from 0 valid_instructions instr
