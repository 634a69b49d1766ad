-- ===== src/Isa.antt =====
-- The instruction set, headers/emulator/cpu/instr.h, and the opcode table of emulator/cpu/cpu.c.
pub mod Table
use aru_xi.Base.{ℕ, Bool, ◌&&◌, leb, ◌==◌, if◌then◌else◌, List, [], ◌∷◌}

-- `opcode_t`, in the source's order.
pub data Opcode : Type 0 where
  op_nop op_mul op_smul op_div op_sdiv op_add op_adds op_sub : Opcode
  op_subs op_or op_and op_xor op_not op_lsl op_lsr op_asr : Opcode
  op_cmp op_mv op_mvn op_sxb op_sxh op_uxb op_uxh op_ld : Opcode
  op_ldb op_ldbs op_ldbz op_ldh op_ldhs op_ldhz op_str op_strb : Opcode
  op_strh op_ub op_ubr op_b op_call op_ret op_addf op_subf : Opcode
  op_mulf op_divf op_ldf op_strf op_mvf op_sys op_syscall op_hlt : Opcode
  op_si op_di op_eret op_ldir op_mvcstr op_ldcstr op_resr : Opcode
  op_error : Opcode

-- The number of the enumerator plus one, so that `OP_ERROR`, which is -1, is 0.
abbrev pub rank : Opcode → ℕ
rank op_nop = 1
rank op_mul = 2
rank op_smul = 3
rank op_div = 4
rank op_sdiv = 5
rank op_add = 6
rank op_adds = 7
rank op_sub = 8
rank op_subs = 9
rank op_or = 10
rank op_and = 11
rank op_xor = 12
rank op_not = 13
rank op_lsl = 14
rank op_lsr = 15
rank op_asr = 16
rank op_cmp = 17
rank op_mv = 18
rank op_mvn = 19
rank op_sxb = 20
rank op_sxh = 21
rank op_uxb = 22
rank op_uxh = 23
rank op_ld = 24
rank op_ldb = 25
rank op_ldbs = 26
rank op_ldbz = 27
rank op_ldh = 28
rank op_ldhs = 29
rank op_ldhz = 30
rank op_str = 31
rank op_strb = 32
rank op_strh = 33
rank op_ub = 34
rank op_ubr = 35
rank op_b = 36
rank op_call = 37
rank op_ret = 38
rank op_addf = 39
rank op_subf = 40
rank op_mulf = 41
rank op_divf = 42
rank op_ldf = 43
rank op_strf = 44
rank op_mvf = 45
rank op_sys = 46
rank op_syscall = 47
rank op_hlt = 48
rank op_si = 49
rank op_di = 50
rank op_eret = 51
rank op_ldir = 52
rank op_mvcstr = 53
rank op_ldcstr = 54
rank op_resr = 55
rank op_error = 0

-- `opcode >= lo && opcode <= hi`
abbrev pub between : Opcode → Opcode → Opcode → Bool
between lo hi o = leb (rank lo) (rank o) && leb (rank o) (rank hi)

-- `opcode == o`
abbrev pub is_op : Opcode → Opcode → Bool
is_op a b = rank a == rank b

-- `cond_t` is a number of 4 bits; these are its enumerators.
pub data Cond : Type 0 where
  cond_eq cond_ne cond_ov cond_nv cond_mi cond_pz : Cond
  cond_cc cond_cs cond_gt cond_ge cond_lt cond_le : Cond

pub data AluOp : Type 0 where
  alu_plus alu_minus alu_mul alu_div alu_or alu_xor : AluOp
  alu_and alu_lsl alu_lsr alu_asr alu_inv alu_pass : AluOp

pub data IType : Type 0 where
  no_type i_type r_type m_type bi_type bu_type bc_type s_type f_type : IType

abbrev pub type_rank : IType → ℕ
type_rank no_type = 0
type_rank i_type = 1
type_rank r_type = 2
type_rank m_type = 3
type_rank bi_type = 4
type_rank bu_type = 5
type_rank bc_type = 6
type_rank s_type = 7
type_rank f_type = 8

abbrev pub is_type : IType → IType → Bool
is_type a b = type_rank a == type_rank b

-- The entries that `initIMap` writes over `OP_ERROR`.
abbrev pub imap_entries : List (ℕ × Opcode)
imap_entries =
    (0b10000000, op_add)
    ∷ (0b10000001, op_add)
    ∷ (0b10001000, op_adds)
    ∷ (0b10001001, op_adds)
    ∷ (0b10010000, op_sub)
    ∷ (0b10010001, op_sub)
    ∷ (0b10011000, op_subs)
    ∷ (0b10011001, op_subs)
    ∷ (0b10100000, op_mul)
    ∷ (0b10100010, op_smul)
    ∷ (0b10101000, op_div)
    ∷ (0b10101010, op_sdiv)
    ∷ (0b01000000, op_or)
    ∷ (0b01000001, op_or)
    ∷ (0b01000010, op_and)
    ∷ (0b01000011, op_and)
    ∷ (0b01000100, op_xor)
    ∷ (0b01000101, op_xor)
    ∷ (0b01000110, op_not)
    ∷ (0b01000111, op_not)
    ∷ (0b01001000, op_lsl)
    ∷ (0b01001001, op_lsl)
    ∷ (0b01001010, op_lsr)
    ∷ (0b01001011, op_lsr)
    ∷ (0b01001100, op_asr)
    ∷ (0b01001101, op_asr)
    ∷ (0b00010100, op_ld)
    ∷ (0b00110100, op_ldb)
    ∷ (0b01010100, op_ldbs)
    ∷ (0b01110100, op_ldbz)
    ∷ (0b10010100, op_ldh)
    ∷ (0b10110100, op_ldhs)
    ∷ (0b11010100, op_ldhz)
    ∷ (0b00011100, op_str)
    ∷ (0b00111100, op_strb)
    ∷ (0b01011100, op_strh)
    ∷ (0b11000000, op_ub)
    ∷ (0b11000010, op_ubr)
    ∷ (0b11000100, op_b)
    ∷ (0b11000110, op_call)
    ∷ (0b11001000, op_ret)
    ∷ (0b10111110, op_sys)
    ∷ []

find_entry : List (ℕ × Opcode) → ℕ → Opcode
find_entry [] byte = op_error
find_entry ((b, o) ∷ rest) byte = if byte == b then o else find_entry rest byte

-- `imap[byte]` after `initIMap`: the opcode that the highest byte of an instruction stands for.
unfoldable pub imap : ℕ → Opcode
unfolding find_entry
imap byte = find_entry imap_entries byte
