-- ===== src/Asm/Encoder/Tests.antt =====
-- Instructions of assembler/encoder.c at concrete operands.
use aru_xi.Base.{true, false, none, ℕ, ◌%◌, ◌^◌, ◌≡◌, refl, arith, ◌>>>◌, [], ◌∷◌, some}
use aru_xi.Base.Text.{codes, str_case_eq}
use aru_xi.Isa.{imap, i_type, m_type, op_add, op_b, no_type, alu_plus, cond_eq}
use aru_xi.Cpu.Pipeline.Decode.{Regs, extract_imm, extract_regs, check_condition}
use aru_xi.Asm.Operands.{
  Result, done, Operand, text, Instr, operand, get_register_encoding, register_number,
}
use aru_xi.Asm.Operands.Registers.{two_digits, register_number_lem}
use aru_xi.Asm.Words.{
  find_opcode, i_opcodes, r_opcodes, m_opcodes, m_word, fits, imm14, branch_offset,
}
use aru_xi.Asm.Words.MemoryFields.{m_word-decode}
use aru_xi.Asm.Encoder.{
  Evaluator, evaluate, as_result, check_size, get_immediate_encoding, encode_i, encode_bi_bc,
}
use aru_xi.Asm.Encoder.Link.{encode_i-decode}
use aru_xi.Asm.Encoder.Branches.{
  GoesTo, fetched, encode_bi_bc-next_ir, encode_bi_bc-check_condition,
}
use aru_xi.Asm.Encoder.Decoded.{jump_op}
use aru_xi.Shared.Signals.{setup_signals}
use aru_xi.Cpu.State.{Core, stat_running}

abbrev unset : Regs
unset = record { rd = 0; rs = 0; rr = 0 }

register_number_example : register_number (b's' ∷ two_digits 1 0) ≡ 27
register_number_example = register_number_lem b's' 1 0 (omega arith) (omega arith)

find_add : find_opcode i_opcodes (codes "ADD") ≡ done 0b10000000
unfolding find_opcode str_case_eq
find_add = refl

find_mul : find_opcode r_opcodes (codes "mul") ≡ done 0b10100000
unfolding find_opcode str_case_eq
find_mul = refl

find_ldb : find_opcode m_opcodes (codes "ldb") ≡ done 0b00110100
unfolding find_opcode str_case_eq
find_ldb = refl

m_word_example :
    let w = m_word 0b00110100 12 2 30 1 in
    let op = imap ((w >>> 24) % 2 ^ 8) in
    (op ≡ imap 0b00110100)
    × (extract_imm w op ≡ (12, m_type))
    × (extract_regs unset w op m_type ≡ (record { rd = 1; rs = 2; rr = 30 }, m_type))
m_word_example =
    m_word-decode unset (codes "ldb") 0b00110100 12 2 30 1 find_ldb (omega arith) (omega arith)
      (omega arith)

back_offset : branch_offset 0x20190000 0x20190010 ≡ done 0xFFFFFFFC
unfolding branch_offset
back_offset = refl

-- An evaluator that finds the same value in every expression.
abbrev always : ℕ → Evaluator ℕ
always v = record { eval = λ s st. done (some v, st) }

abbrev add_instr : Instr
add_instr = record {
  addr = 0x20190000;
  encoding = 0;
  instr = codes "ADD";
  operands = text (codes "x1") ∷ text (codes "x2") ∷ text (codes "#5") ∷ [];
}

add_x1 : get_register_encoding (text (codes "x1")) ≡ done 1
unfolding get_register_encoding register_number str_case_eq aru_xi.Asm.Operands.atoi8
    aru_xi.Asm.Operands.signed_decimal aru_xi.Asm.Operands.skip_space aru_xi.Asm.Operands.decimal
add_x1 = refl

add_x2 : get_register_encoding (text (codes "x2")) ≡ done 2
unfolding get_register_encoding register_number str_case_eq aru_xi.Asm.Operands.atoi8
    aru_xi.Asm.Operands.signed_decimal aru_xi.Asm.Operands.skip_space aru_xi.Asm.Operands.decimal
add_x2 = refl

add_imm : get_immediate_encoding (always 5) (text (codes "#5")) 0 imm14 ≡ done (5, 0)
unfolding get_immediate_encoding evaluate as_result check_size fits
add_imm = refl

encode_i-decode_example :
    (w : ℕ) × (encode_i (always 5) add_instr 0 ≡ done (w, 0))
    × (imap ((w >>> 24) % 2 ^ 8) ≡ imap 0b10000000)
    × (extract_imm w (imap 0b10000000) ≡ (5, i_type))
    × (extract_regs unset w (imap 0b10000000) i_type ≡ (record unset { rd = 1; rs = 2 }, i_type))
unfolding operand
encode_i-decode_example =
    encode_i-decode (always 5) unset add_instr 0 0 0b10000000 5 1 2 find_add add_x1 (omega arith)
      add_x2 (omega arith) add_imm

abbrev call_instr : Instr
call_instr = record {
  addr = 0x20190010;
  encoding = 3;
  instr = codes "call";
  operands = text (codes "f") ∷ [];
}

branch_target : evaluate (always 0x20190000) (codes "f") 0 ≡ done (0x20190000, 0)
unfolding evaluate as_result
branch_target = refl

-- In user mode, with the flag Z, behind an instruction at 0x20190010.
abbrev branching : Core
branching = record {
  gpr = λ r. r;
  ir = 0x20190014;
  sp = 0;
  cstr = 1;
  esr = 0;
  status = stat_running;
  instrbits = 0;
  opcode = op_add;
  itype = no_type;
  imm = 0;
  rd = 0;
  rs = 0;
  rr = 0;
  aluop = alu_plus;
  vala = 0;
  valb = 0;
  valex = 0;
  set_cc = false;
  mem_size = 0;
  regwrite = false;
  memwrite = false;
  alu_vala = 0;
  alu_valb = 0;
  alures = 0;
  cond = false;
  valmem = 0;
  write = false;
  valout = 0;
  set_cstr = 0;
  memory = (λ a. 0);
  user_ps = none;
  sig_mem = setup_signals;
}

encode_bi_bc-next_ir_example :
    (w : ℕ) × (encode_bi_bc (always 0x20190000) call_instr 0 ≡ done (w, 0))
    × (imap ((w >>> 24) % 2 ^ 8) ≡ jump_op true)
    × GoesTo unset (fetched w branching) 0x20190000
unfolding operand
encode_bi_bc-next_ir_example =
    encode_bi_bc-next_ir (always 0x20190000) unset branching true call_instr 0 0 (codes "f")
      0x20190000 0xFFFFFFFC refl refl branch_target (omega arith) (omega arith) refl back_offset
      refl refl refl

abbrev beq_instr : Instr
beq_instr = record {
  addr = 0x20190010;
  encoding = 3;
  instr = codes "beq";
  operands = text (codes "f") ∷ [];
}

-- Backwards, and so too far.
encode_bi_bc-check_condition_example :
    (w : ℕ) × (encode_bi_bc (always 0x20190000) beq_instr 0 ≡ done (w, 0))
    × (imap ((w >>> 24) % 2 ^ 8) ≡ op_b)
    × GoesTo unset (fetched w branching) 0x20390000
unfolding operand check_condition
encode_bi_bc-check_condition_example =
    encode_bi_bc-check_condition (always 0x20190000) unset branching cond_eq beq_instr 0 0
      (codes "f") 0x20190000 0xFFFFFFFC refl refl branch_target (omega arith) (omega arith) refl
      back_offset refl refl refl
