-- ===== src/Asm/Words/Fields.antt =====
-- The fields of the instruction words of assembler/encoder.c, as emulator/cpu/core.c extracts them.
use aru_xi.Base.{
  ℕ, ◌+◌, ◌*◌, ◌%◌, ◌^◌, ◌<◌, Bool, true, false, not, ◌&&◌, ◌||◌, ◌==◌, ltb, ◌≡◌, refl, ◌∙◌, arith,
  [], ◌∷◌, bit_extract, bit_or, ◌<<<◌, ◌>>>◌,
}
use aru_xi.Base.Bits.{bit_or_fields}
use aru_xi.Base.Text.{Text}
use aru_xi.Isa.{
  Opcode, between, is_op, op_nop, op_cmp, op_mul, op_sdiv, op_ubr, op_ret, imap, i_type, r_type,
}
use aru_xi.Asm.Operands.{done}
use aru_xi.Asm.Words.{Opcodes, find_opcode, i_opcodes, r_opcodes, i_word, r_word}
use aru_xi.Cpu.Pipeline.Decode.{Regs, extract_imm, extract_regs}

-- What holds of every opcode of a chain holds of the one that is found.
unfoldable pub opcodes_all : (ℕ → Bool) → Opcodes → Bool
opcodes_all p [] = true
opcodes_all p ((name, code) ∷ rest) = p code && opcodes_all p rest

pub find_opcode_all :
    (p : ℕ → Bool) (table : Opcodes) (s : Text) (code : ℕ)
    → opcodes_all p table ≡ true
    → find_opcode table s ≡ done code
    → p code ≡ true
unfolding find_opcode opcodes_all
find_opcode_all p [] s code all found = ground arith
find_opcode_all p ((name, c) ∷ rest) s code all found =
    ground (arith, find_opcode_all p rest s code)

join4 :
    (op a b c : ℕ)
    → a < 2 ^ 14
    → b < 2 ^ 5
    → c < 2 ^ 5
    → i_word op a b c ≡ op * 2 ^ 24 + a * 2 ^ 10 + b * 2 ^ 5 + c
join4 op a b c ha hb hc =
    let one : bit_or (op <<< 24) (a <<< 10) ≡ (op * 2 ^ 14 + a) * 2 ^ 10 =
      bit_or_fields 24 op (a <<< 10) (omega arith) ∙ omega arith in
    let two : bit_or ((op * 2 ^ 14 + a) * 2 ^ 10) (b <<< 5)
        ≡ ((op * 2 ^ 14 + a) * 2 ^ 5 + b) * 2 ^ 5 =
      bit_or_fields 10 (op * 2 ^ 14 + a) (b <<< 5) (omega arith) ∙ omega arith in
    rw (one, two) (bit_or_fields 5 ((op * 2 ^ 14 + a) * 2 ^ 5 + b) c hc ∙ omega arith)

-- The opcodes that the CPU takes for the immediate and the register format.
for_i : ℕ → Bool
for_i code =
    ltb code 256
    && code % 2 == 0
    && between op_nop op_cmp (imap code)
    && not (between op_mul op_sdiv (imap code))

for_r : ℕ → Bool
for_r code =
    ltb code 256
    && between op_nop op_cmp (imap code)
    && (code % 2 == 1 || between op_mul op_sdiv (imap code))

extract_imm-imm14 :
    (w : ℕ) (op : Opcode)
    → (between op_nop op_cmp op && not (between op_mul op_sdiv op)) ≡ true
    → ((w >>> 24) % 2 == 0) ≡ true
    → extract_imm w op ≡ (bit_extract w 10 14, i_type)
unfolding extract_imm
extract_imm-imm14 w op h even = ground arith

extract_regs-i_type :
    (junk : Regs) (w : ℕ) (op : Opcode)
    → between op_nop op_cmp op ≡ true
    → extract_regs junk w op i_type
      ≡ (record junk { rd = bit_extract w 0 5; rs = bit_extract w 5 5 }, i_type)
unfolding extract_regs
extract_regs-i_type junk w op h =
    let other : (is_op op op_ubr || is_op op op_ret) ≡ false = ground arith in rw other

extract_imm-r_type :
    (w : ℕ) (op : Opcode)
    → between op_nop op_cmp op ≡ true
    → ((w >>> 24) % 2 == 1 || between op_mul op_sdiv op) ≡ true
    → extract_imm w op ≡ (0, r_type)
unfolding extract_imm
extract_imm-r_type w op h odd = ground arith

-- A word of the immediate format that the assembler makes is taken apart by the CPU into the same
-- opcode, immediate and registers, for every mnemonic of that format, an immediate of 14 bits and
-- registers below 32.
pub i_word-decode :
    (junk : Regs) (s : Text) (code imm rs rd : ℕ)
    → find_opcode i_opcodes s ≡ done code
    → imm < 2 ^ 14
    → rs < 2 ^ 5
    → rd < 2 ^ 5
    → let w = i_word code imm rs rd in
      let op = imap ((w >>> 24) % 2 ^ 8) in
      (op ≡ imap code)
      × (extract_imm w op ≡ (imm, i_type))
      × (extract_regs junk w op i_type ≡ (record junk { rd = rd; rs = rs }, i_type))
unfolding for_i
i_word-decode junk s code imm rs rd found hi hs hd =
    let known =
      find_opcode_all for_i i_opcodes s code (unfold opcodes_all for_i imap in refl) found in
    let sum = join4 code imm rs rd hi hs hd in
    let field_rd : bit_extract (i_word code imm rs rd) 0 5 ≡ rd = omega arith in
    let field_rs : bit_extract (i_word code imm rs rd) 5 5 ≡ rs = omega arith in
    let field_imm : bit_extract (i_word code imm rs rd) 10 14 ≡ imm = omega arith in
    let high : (i_word code imm rs rd >>> 24) % 2 ^ 8 ≡ code = ground arith in
    rw high (
      refl,
      extract_imm-imm14 _ _ (ground arith) (ground arith) ∙ rw field_imm,
      extract_regs-i_type junk _ _ (ground arith) ∙ rw (field_rd, field_rs),
    )

extract_regs-r_type :
    (junk : Regs) (w : ℕ) (op : Opcode)
    → between op_nop op_cmp op ≡ true
    → extract_regs junk w op r_type
      ≡ (record { rd = bit_extract w 0 5; rs = bit_extract w 10 5; rr = bit_extract w 5 5 }, r_type)
unfolding extract_regs
extract_regs-r_type junk w op h =
    let other : (is_op op op_ubr || is_op op op_ret) ≡ false = ground arith in rw other

-- A word of the register format that the assembler makes is taken apart by the CPU into the same
-- opcode and registers, for every mnemonic of that format and registers below 32.
pub r_word-decode :
    (junk : Regs) (s : Text) (code rs rr rd : ℕ)
    → find_opcode r_opcodes s ≡ done code
    → rs < 2 ^ 5
    → rr < 2 ^ 5
    → rd < 2 ^ 5
    → let w = r_word code rs rr rd in
      let op = imap ((w >>> 24) % 2 ^ 8) in
      (op ≡ imap code)
      × (extract_imm w op ≡ (0, r_type))
      × (extract_regs junk w op r_type ≡ (record { rd = rd; rs = rs; rr = rr }, r_type))
unfolding for_r
r_word-decode junk s code rs rr rd found hs hr hd =
    let known =
      find_opcode_all for_r r_opcodes s code (unfold opcodes_all for_r imap in refl) found in
    let sum = join4 code rs rr rd (omega arith) hr hd in
    let high : (r_word code rs rr rd >>> 24) % 2 ^ 8 ≡ code = ground arith in
    let field_rd : bit_extract (r_word code rs rr rd) 0 5 ≡ rd = omega arith in
    let field_rs : bit_extract (r_word code rs rr rd) 10 5 ≡ rs = omega arith in
    let field_rr : bit_extract (r_word code rs rr rd) 5 5 ≡ rr = omega arith in
    rw high (
      refl,
      extract_imm-r_type _ _ (ground arith) (ground arith),
      extract_regs-r_type junk _ _ (ground arith) ∙ rw (field_rd, field_rs, field_rr),
    )
