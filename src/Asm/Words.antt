-- ===== src/Asm/Words.antt =====
-- The tables and the instruction words of assembler/encoder.c: the chains of name tests, the checks
-- of immediates, and how the fields are joined.
pub mod Fields
pub mod MemoryFields
pub mod Immediate
pub mod Branch
use aru_xi.Base.{
  ℕ, zero, suc, ◌+◌, ◌-◌, ◌*◌, ◌/◌, ◌%◌, ◌^◌, Bool, true, false, not, ◌&&◌, ◌||◌, ◌==◌, leb, ltb,
  if◌then◌else◌, bit_or, bit_and, Option, none, some, List, [], ◌∷◌, u8, u16, u32, sub32,
  is_negative, ◌<<<◌,
}
use Prim.Native.String.{String}
use aru_xi.Base.Text.{Text, codes, str_eq, str_case_eq}
use aru_xi.Asm.Operands.{
  Result, done, fatal, crashed, ◌>>=◌, Operand, null, absent, text, Instr, operand, named,
  get_register_encoding,
}

-- `enum ImmediateSize`
pub data ImmediateSize : Type 0 where
  imm14 simm24 simm19 simm9 : ImmediateSize

-- The switch on `size`, in which every case runs on into the next: whether no check fails. `res` is
-- the pattern of an `int32_t`.
abbrev pub fits_simm19 : ℕ → Bool
fits_simm19 res = bit_and res 0x80000 == 0

abbrev pub fits_simm24 : ℕ → Bool
fits_simm24 res = bit_and res 0xf000000 == 0 && fits_simm19 res

abbrev pub fits_imm14 : ℕ → Bool
fits_imm14 res = bit_and res 0xc000 == 0 && fits_simm24 res

abbrev pub fits_simm9 : ℕ → Bool
fits_simm9 res = (ltb res (2 ^ 8) || leb (2 ^ 32 - 2 ^ 8) res) && fits_imm14 res

unfoldable pub fits : ImmediateSize → ℕ → Bool
fits simm9 res = fits_simm9 res
fits imm14 res = fits_imm14 res
fits simm24 res = fits_simm24 res
fits simm19 res = fits_simm19 res

-- The names of a chain of `strcasecmp` tests with what each sets.
abbrev pub Opcodes : Type 0
Opcodes = List (String × ℕ)

unfoldable pub find_opcode : Opcodes → Text → Result ℕ
find_opcode [] s = fatal
find_opcode ((name, code) ∷ rest) s =
    let next = find_opcode rest s in if named s name then done code else next

abbrev pub i_opcodes : Opcodes
i_opcodes =
    ("add", 0b10000000)
    ∷ ("mv", 0b10000000)
    ∷ ("nop", 0b10000000)
    ∷ ("adds", 0b10001000)
    ∷ ("sub", 0b10010000)
    ∷ ("mvn", 0b10010000)
    ∷ ("subs", 0b10011000)
    ∷ ("cmp", 0b10011000)
    ∷ ("or", 0b01000000)
    ∷ ("and", 0b01000010)
    ∷ ("xor", 0b01000100)
    ∷ ("not", 0b01000110)
    ∷ ("lsl", 0b01001000)
    ∷ ("lsr", 0b01001010)
    ∷ ("asr", 0b01001100)
    ∷ []

abbrev pub r_opcodes : Opcodes
r_opcodes =
    ("add", 0b10000001)
    ∷ ("adds", 0b10001001)
    ∷ ("sub", 0b10010001)
    ∷ ("mvn", 0b10010001)
    ∷ ("subs", 0b10011001)
    ∷ ("cmp", 0b10011001)
    ∷ ("or", 0b01000001)
    ∷ ("mv", 0b01000001)
    ∷ ("and", 0b01000011)
    ∷ ("xor", 0b01000101)
    ∷ ("not", 0b01000111)
    ∷ ("lsl", 0b01001001)
    ∷ ("lsr", 0b01001011)
    ∷ ("asr", 0b01001101)
    ∷ ("mul", 0b10100000)
    ∷ ("smul", 0b10100010)
    ∷ ("div", 0b10101000)
    ∷ ("sdiv", 0b10101010)
    ∷ []

abbrev pub m_opcodes : Opcodes
m_opcodes =
    ("ld", 0b00010100)
    ∷ ("ldb", 0b00110100)
    ∷ ("ldbs", 0b01010100)
    ∷ ("ldbz", 0b01110100)
    ∷ ("ldh", 0b10010100)
    ∷ ("ldhs", 0b10110100)
    ∷ ("ldhz", 0b11010100)
    ∷ ("str", 0b00011100)
    ∷ ("strb", 0b00111100)
    ∷ ("strh", 0b01011100)
    ∷ []

abbrev pub bu_opcodes : Opcodes
bu_opcodes = ("ubr", 0b11000010) ∷ ("ret", 0b11001000) ∷ []

-- The words of the formats.
abbrev pub i_word : ℕ → ℕ → ℕ → ℕ → ℕ
i_word opcode imm rs rd = bit_or (bit_or (bit_or (opcode <<< 24) (imm <<< 10)) (rs <<< 5)) rd

abbrev pub r_word : ℕ → ℕ → ℕ → ℕ → ℕ
r_word opcode rs rr rd = bit_or (bit_or (bit_or (opcode <<< 24) (rs <<< 10)) (rr <<< 5)) rd

abbrev pub m_word : ℕ → ℕ → ℕ → ℕ → ℕ → ℕ
m_word opcode simm rs rr rd =
    bit_or (bit_or (bit_or (bit_or (opcode <<< 24) ((simm % 2 ^ 9) <<< 15)) (rs <<< 10)) (rr <<< 5))
      rd

-- The chain of encodeS: the sub-opcode, and whether the operand is `rd`, `rs` or not read.
pub data SysOperand : Type 0 where
  no_operand to_rd to_rs : SysOperand

abbrev pub s_opcodes : List (String × ℕ × SysOperand)
s_opcodes =
    ("syscall", 0b00010, no_operand)
    ∷ ("hlt", 0b00110, no_operand)
    ∷ ("si", 0b01010, no_operand)
    ∷ ("di", 0b01110, no_operand)
    ∷ ("eret", 0b10010, no_operand)
    ∷ ("ldir", 0b10110, to_rd)
    ∷ ("mvcstr", 0b11010, to_rs)
    ∷ ("ldcstr", 0b11110, to_rd)
    ∷ ("resr", 0b11111, to_rd)
    ∷ []

unfoldable pub find_sub_opcode : List (String × ℕ × SysOperand) → Text → Result (ℕ × SysOperand)
find_sub_opcode [] s = fatal
find_sub_opcode ((name, code, kind) ∷ rest) s =
    let next = find_sub_opcode rest s in if named s name then done (code, kind) else next

abbrev pub s_word : ℕ → ℕ → ℕ → ℕ
s_word sub rs rd = bit_or (bit_or (bit_or (0b10111110 <<< 24) (sub <<< 19)) (rs <<< 5)) rd

-- `strcmp` against `VALID_CONDS`, from number `i` on.
unfoldable pub find_condition : ℕ → List String → Text → Result ℕ
find_condition i [] s = fatal
find_condition i (name ∷ rest) s =
    let next = find_condition (suc i) rest s in if str_eq (codes name) s then done i else next

abbrev pub valid_conds : List String
valid_conds = "eq" ∷ "ne" ∷ "ov" ∷ "nv" ∷ "mi" ∷ "pz" ∷ "cc" ∷ "cs" ∷ "gt" ∷ "ge" ∷ "lt" ∷ "le" ∷ []

unfoldable pub get_condition_encoding : Text → Result ℕ
get_condition_encoding s = find_condition 0 valid_conds s

-- `(int32_t) x / 4`, which rounds to 0.
abbrev pub div4 : ℕ → ℕ
div4 x = if is_negative x then sub32 0 ((2 ^ 32 - x) / 4) else x / 4

-- Whether an `int32_t` lies in [-2 ^ k, 2 ^ k).
abbrev pub in_range : ℕ → ℕ → Bool
in_range k x = ltb x (2 ^ k) || leb (2 ^ 32 - 2 ^ k) x

-- The word of a branch that is `offset` instructions away.
abbrev pub bc_word : ℕ → ℕ → ℕ
bc_word offset cond = bit_or (bit_or (0b11000100 <<< 24) ((offset % 2 ^ 19) <<< 5)) cond

-- A name that is neither `ub` nor `call` leaves the opcode 0.
abbrev pub bi_opcode : Text → ℕ
bi_opcode s = if named s "ub" then 0b11000000 else (if named s "call" then 0b11000110 else 0)

unfoldable pub bi_word : ℕ → ℕ → Result ℕ
bi_word opcode offset =
    if in_range 23 offset then done (bit_or (opcode <<< 24) (offset % 2 ^ 24)) else fatal

-- The offset of a branch at `addr` to `target`, in instructions.
unfoldable pub branch_offset : ℕ → ℕ → Result ℕ
branch_offset target addr = if target % 4 == 0 then done (div4 (sub32 target addr)) else fatal

-- `*instrStr == 'b'` is a conditional branch.
unfoldable pub branch_word : Text → ℕ → Result ℕ
branch_word [] offset = bi_word (bi_opcode []) offset
branch_word (c ∷ cond) offset =
    let conditional : Result ℕ =
      if in_range 18 offset
      then (get_condition_encoding cond >>= λ n. done (bc_word offset n))
      else fatal in
    if c == b'b' then conditional else bi_word (bi_opcode (c ∷ cond)) offset
