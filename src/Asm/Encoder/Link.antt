-- ===== src/Asm/Encoder/Link.antt =====
-- What `encodeI` of assembler/encoder.c makes is what the CPU decodes.
use aru_xi.Base.{ℕ, ◌%◌, ◌^◌, ◌<◌, ◌≡◌, refl, arith, u16, ◌>>>◌}
use aru_xi.Isa.{imap, i_type}
use aru_xi.Cpu.Pipeline.Decode.{Regs, extract_imm, extract_regs}
use aru_xi.Asm.Operands.{
  Result, done, fatal, crashed, ◌>>=◌, Operand, null, absent, text, Instr, operand,
  get_register_encoding,
}
use aru_xi.Asm.Words.{find_opcode, i_opcodes, i_word, imm14}
use aru_xi.Asm.Words.Fields.{i_word-decode}
use aru_xi.Asm.Words.Immediate.{fits_imm14_lem}
use aru_xi.Asm.Encoder.{
  Evaluator, evaluate, check_size, skip_hash, get_immediate_encoding, encode_i,
}

module _ {S : Type 0} (ev : Evaluator S) where
  check_size-lt :
      (r : Result (ℕ × S)) (imm : ℕ) (st : S)
      → (r >>= check_size ev imm14) ≡ done (imm, st)
      → u16 imm < 2 ^ 14
  unfolding check_size
  check_size-lt (done (res, st')) imm st h = let lem = fits_imm14_lem res in ground arith
  check_size-lt fatal imm st h = ground arith
  check_size-lt crashed imm st h = ground arith

  get_immediate_encoding-lt :
      (o : Operand) (st st' : S) (imm : ℕ)
      → get_immediate_encoding ev o st imm14 ≡ done (imm, st')
      → u16 imm < 2 ^ 14
  unfolding get_immediate_encoding
  get_immediate_encoding-lt null st st' imm h = ground arith
  get_immediate_encoding-lt absent st st' imm h = ground arith
  get_immediate_encoding-lt (text s) st st' imm h =
      check_size-lt (evaluate ev (skip_hash ev s) st) imm st' h

  -- When the mnemonic is one of the immediate format, the two register operands have numbers below
  -- 32 and the immediate is accepted, `encodeI` returns a word, and the CPU decodes that word into
  -- the opcode of the mnemonic, the low 16 bits of the immediate and the two registers.
  pub encode_i-decode :
      (junk : Regs) (i : Instr) (st st' : S) (code imm rd rs : ℕ)
      → find_opcode i_opcodes i.instr ≡ done code
      → get_register_encoding (operand i.operands 0) ≡ done rd
      → rd < 2 ^ 5
      → get_register_encoding (operand i.operands 1) ≡ done rs
      → rs < 2 ^ 5
      → get_immediate_encoding ev (operand i.operands 2) st imm14 ≡ done (imm, st')
      → (w : ℕ) × (encode_i ev i st ≡ done (w, st'))
        × (imap ((w >>> 24) % 2 ^ 8) ≡ imap code)
        × (extract_imm w (imap code) ≡ (u16 imm, i_type))
        × (extract_regs junk w (imap code) i_type ≡ (record junk { rd = rd; rs = rs }, i_type))
  unfolding encode_i
  encode_i-decode junk i st st' code imm rd rs known first hd second hs third =
      let fields =
        i_word-decode junk i.instr code (u16 imm) rs rd known
          (get_immediate_encoding-lt (operand i.operands 2) st st' imm third) hs hd in
      (
        i_word code (u16 imm) rs rd,
        rw (known, first, second, third) refl,
        fields.0,
        rw fields.0 at fields.1,
        rw fields.0 at fields.2,
      )
