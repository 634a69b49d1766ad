-- ===== src/Asm/Encoder.antt =====
-- assembler/encoder.c: the word that an instruction and its operands are encoded as.
--
-- `eval` is the parameter `ev`, with the symbol table as its state; it returns `none` where it clears
-- `canEval`. Encoder/Expressions has it as assembler/evaluator.c defines it.
-- `handleError(.., FATAL, ..)` ends the process.
pub mod Branches
pub mod Conditions
pub mod Decoded
pub mod Link
pub mod Expressions
pub mod Tests
use aru_xi.Base.{
  ℕ, zero, suc, ◌+◌, ◌-◌, ◌*◌, ◌/◌, ◌%◌, ◌^◌, Bool, true, false, not, ◌&&◌, ◌||◌, ◌==◌, leb, ltb,
  if◌then◌else◌, bit_or, bit_and, Option, none, some, List, [], ◌∷◌, u8, u16, u32, sub32,
  is_negative, ◌<<<◌,
}
use Prim.Native.String.{String}
use aru_xi.Base.Text.{Text, codes, str_eq, str_case_eq}
use aru_xi.Asm.Operands.{
  Result, done, fatal, crashed, ◌>>=◌, Operand, null, absent, text, Instr, operand, named,
  get_register_encoding,
}
use aru_xi.Asm.Words.{
  ImmediateSize, imm14, simm24, simm19, simm9, fits, find_opcode, i_opcodes, r_opcodes, m_opcodes,
  bu_opcodes, i_word, r_word, m_word, SysOperand, no_operand, to_rd, to_rs, s_opcodes,
  find_sub_opcode, s_word, get_condition_encoding, bc_word, bi_opcode, bi_word, branch_offset,
  branch_word,
}

pub record Evaluator (S : Type 0) : Type 0 where
  pub eval : Text → S → Result (Option ℕ × S)

unfoldable pub sys_registers : SysOperand → Operand → Result (ℕ × ℕ)
sys_registers no_operand o = done (0, 0)
sys_registers to_rd o = get_register_encoding o >>= λ r. done (0, r)
sys_registers to_rs o = get_register_encoding o >>= λ r. done (r, 0)

unfoldable pub encode_s : Instr → Result ℕ
encode_s i = do
  (sub, kind) ← find_sub_opcode s_opcodes i.instr
  (rs, rd) ← sys_registers kind (operand i.operands 0)
  done (s_word sub rs rd)

unfoldable pub encode_r : Instr → Result ℕ
encode_r i = do
  opcode ← find_opcode r_opcodes i.instr
  rd ← get_register_encoding (operand i.operands 0)
  rs ← get_register_encoding (operand i.operands 1)
  rr ← get_register_encoding (operand i.operands 2)
  done (r_word opcode rs rr rd)

unfoldable pub encode_bu : Instr → Result ℕ
encode_bu i = do
  opcode ← find_opcode bu_opcodes i.instr
  rd ← get_register_encoding (operand i.operands 0)
  done (bit_or (opcode <<< 24) rd)

module _ {S : Type 0} (ev : Evaluator S) where
  unfoldable pub as_result : Option ℕ × S → Result (ℕ × S)
  as_result (none, st) = fatal
  as_result (some v, st) = done (u32 v, st)

  -- `eval`, whose failure is fatal here.
  unfoldable pub evaluate : Text → S → Result (ℕ × S)
  evaluate s st = ev.eval s st >>= as_result

  abbrev pub skip_hash : Text → Text
  skip_hash [] = []
  skip_hash (c ∷ s) = if c == b'#' then s else c ∷ s

  unfoldable pub check_size : ImmediateSize → ℕ × S → Result (ℕ × S)
  check_size size (res, st) = if fits size res then done (res, st) else fatal

  unfoldable pub get_immediate_encoding : Operand → S → ImmediateSize → Result (ℕ × S)
  get_immediate_encoding null st size = crashed
  get_immediate_encoding absent st size = done (0, st)
  get_immediate_encoding (text imm) st size = evaluate (skip_hash imm) st >>= check_size size

  unfoldable pub encode_i : Instr → S → Result (ℕ × S)
  encode_i i st = do
    opcode ← find_opcode i_opcodes i.instr
    rd ← get_register_encoding (operand i.operands 0)
    rs ← get_register_encoding (operand i.operands 1)
    (imm, st') ← get_immediate_encoding (operand i.operands 2) st imm14
    done (i_word opcode (u16 imm) rs rd, st')

  unfoldable pub encode_m : Instr → S → Result (ℕ × S)
  encode_m i st = do
    rd ← get_register_encoding (operand i.operands 0)
    rs ← get_register_encoding (operand i.operands 1)
    rr ← get_register_encoding (operand i.operands 3)
    (simm, st') ← get_immediate_encoding (operand i.operands 2) st simm9
    opcode ← find_opcode m_opcodes i.instr
    done (m_word opcode simm rs rr rd, st')

  unfoldable pub encode_branch : Operand → Instr → S → Result (ℕ × S)
  encode_branch null i st = crashed
  encode_branch absent i st = crashed
  encode_branch (text expr) i st = do
    (target, st') ← evaluate expr st
    offset ← branch_offset target i.addr
    word ← branch_word i.instr offset
    done (word, st')

  unfoldable pub encode_bi_bc : Instr → S → Result (ℕ × S)
  encode_bi_bc i st = encode_branch (operand i.operands 0) i st

  -- The switch of `encode` on the type that the front end left in `encoding`, for the types that
  -- touch one instruction.
  unfoldable pub encode_one : Instr → S → Result (ℕ × S)
  encode_one i st =
      let keep : ℕ → Result (ℕ × S) = λ word. done (word, st) in
      if i.encoding == 0x0
      then encode_i i st
      else (if i.encoding == 0x1
          then encode_r i >>= keep
          else (if i.encoding == 0x2
              then encode_m i st
              else (if i.encoding == 0x3
                  then encode_bi_bc i st
                  else (if i.encoding == 0x4
                      then encode_bu i >>= keep
                      else (if i.encoding == 0x5
                          then encode_s i >>= keep
                          else done (i.encoding, st))))))
