-- ===== src/Asm/Words/MemoryFields.antt =====
-- The words of loads and stores of assembler/encoder.c, as emulator/cpu/core.c takes them apart.
use aru_xi.Base.{
  ℕ, ◌+◌, ◌*◌, ◌%◌, ◌^◌, ◌<◌, Bool, true, false, ◌&&◌, ◌||◌, ltb, ◌≡◌, refl, ◌∙◌, arith,
  bit_extract, sign_extract, bit_or, ◌<<<◌, ◌>>>◌,
}
use aru_xi.Base.Bits.{bit_or_fields}
use aru_xi.Base.Text.{Text}
use aru_xi.Isa.{
  Opcode, between, is_op, op_nop, op_cmp, op_ubr, op_ret, op_ld, op_strh, imap, m_type,
}
use aru_xi.Asm.Operands.{done}
use aru_xi.Asm.Words.{find_opcode, m_opcodes, m_word}
use aru_xi.Cpu.Pipeline.Decode.{Regs, extract_imm, extract_regs}
use aru_xi.Asm.Words.Fields.{opcodes_all, find_opcode_all}

join5 :
    (op a b c d : ℕ)
    → b < 2 ^ 5
    → c < 2 ^ 5
    → d < 2 ^ 5
    → m_word op a b c d ≡ op * 2 ^ 24 + a % 2 ^ 9 * 2 ^ 15 + b * 2 ^ 10 + c * 2 ^ 5 + d
join5 op a b c d hb hc hd =
    let top = op * 2 ^ 9 + a % 2 ^ 9 in
    let one : bit_or (op <<< 24) ((a % 2 ^ 9) <<< 15) ≡ top * 2 ^ 15 =
      bit_or_fields 24 op ((a % 2 ^ 9) <<< 15) (omega arith) ∙ omega arith in
    let two : bit_or (top * 2 ^ 15) (b <<< 10) ≡ (top * 2 ^ 5 + b) * 2 ^ 10 =
      bit_or_fields 15 top (b <<< 10) (omega arith) ∙ omega arith in
    let three : bit_or ((top * 2 ^ 5 + b) * 2 ^ 10) (c <<< 5)
        ≡ ((top * 2 ^ 5 + b) * 2 ^ 5 + c) * 2 ^ 5 =
      bit_or_fields 10 (top * 2 ^ 5 + b) (c <<< 5) (omega arith) ∙ omega arith in
    rw (one, two, three) (bit_or_fields 5 ((top * 2 ^ 5 + b) * 2 ^ 5 + c) d hd ∙ omega arith)

for_m : ℕ → Bool
for_m code = ltb code 256 && between op_ld op_strh (imap code)

extract_imm-m_type :
    (w : ℕ) (op : Opcode)
    → between op_ld op_strh op ≡ true
    → extract_imm w op ≡ (sign_extract w 15 9, m_type)
unfolding extract_imm
extract_imm-m_type w op h =
    let other : between op_nop op_cmp op ≡ false = ground arith in rw (other, h)

extract_regs-m_type :
    (junk : Regs) (w : ℕ) (op : Opcode)
    → between op_ld op_strh op ≡ true
    → extract_regs junk w op m_type
      ≡ (record { rd = bit_extract w 0 5; rs = bit_extract w 10 5; rr = bit_extract w 5 5 }, m_type)
unfolding extract_regs
extract_regs-m_type junk w op h =
    let other : (is_op op op_ubr || is_op op op_ret) ≡ false = ground arith in rw other

-- A word of a load or store that the assembler makes is taken apart by the CPU into the same
-- opcode and registers and into the low nine bits of the offset, sign-extended, for every mnemonic
-- and registers below 32.
pub m_word-decode :
    (junk : Regs) (s : Text) (code simm rs rr rd : ℕ)
    → find_opcode m_opcodes s ≡ done code
    → rs < 2 ^ 5
    → rr < 2 ^ 5
    → rd < 2 ^ 5
    → let w = m_word code simm rs rr rd in
      let op = imap ((w >>> 24) % 2 ^ 8) in
      (op ≡ imap code)
      × (extract_imm w op ≡ (sign_extract simm 0 9, m_type))
      × (extract_regs junk w op m_type ≡ (record { rd = rd; rs = rs; rr = rr }, m_type))
unfolding for_m
m_word-decode junk s code simm rs rr rd found hs hr hd =
    let known =
      find_opcode_all for_m m_opcodes s code (unfold opcodes_all for_m imap in refl) found in
    let sum = join5 code simm rs rr rd hs hr hd in
    let high : (m_word code simm rs rr rd >>> 24) % 2 ^ 8 ≡ code = ground arith in
    let field_rd : bit_extract (m_word code simm rs rr rd) 0 5 ≡ rd = omega arith in
    let field_rs : bit_extract (m_word code simm rs rr rd) 10 5 ≡ rs = omega arith in
    let field_rr : bit_extract (m_word code simm rs rr rd) 5 5 ≡ rr = omega arith in
    let field_imm : bit_extract (m_word code simm rs rr rd) 15 9 ≡ bit_extract simm 0 9 =
      omega arith in
    rw high (
      refl,
      extract_imm-m_type _ _ (ground arith) ∙ rw field_imm,
      extract_regs-m_type junk _ _ (ground arith) ∙ rw (field_rd, field_rs, field_rr),
    )
