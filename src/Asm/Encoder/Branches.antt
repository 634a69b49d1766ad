-- ===== src/Asm/Encoder/Branches.antt =====
-- The branches that `encodeBiBc` of assembler/encoder.c makes, decoded and taken by
-- emulator/cpu/core.c.
use aru_xi.Base.{
  ℕ, ◌+◌, ◌*◌, ◌%◌, ◌^◌, ◌<◌, Bool, true, false, ◌==◌, ◌≡◌, refl, ◌∙◌, ap, arith, u32, is_negative,
  sign_extract, if◌then◌else◌, ◌>>>◌, Bool-cases, inl, inr, ◌∷◌,
}
use aru_xi.Base.Text.{Text, codes, str_case_eq}
use aru_xi.Isa.{Cond, is_op, op_b, op_error, op_sys, imap}
use aru_xi.Cpu.State.{Core, Outcome, next, ◌>>=◌, is_excp}
use aru_xi.Cpu.Pipeline.Decode.{Regs, check_condition, decode}
use aru_xi.Cpu.Pipeline.Execute.{bi_target, bc_target, next_ir}
use aru_xi.Asm.Operands.{done, text, Instr, operand}
use aru_xi.Asm.Words.{bc_word, bi_word, branch_offset, branch_word, in_range}
use aru_xi.Asm.Words.Branch.{bi_word-bi_target, bi_word_sum, bc_word-bc_target, bc_word_sum}
use aru_xi.Asm.Encoder.{Evaluator, evaluate, encode_branch, encode_bi_bc}
use aru_xi.Asm.Encoder.Decoded.{
  decode-known, decoded, decoded-bi, decoded-bc, jump_op, next_ir-bi, next_ir-bc,
}
use aru_xi.Asm.Encoder.Conditions.{
  cond_name, cond_code, get_condition_encoding-cond_name, check_condition-bits, branch_word-cond,
}

-- The opcode byte of a word.
opcode_of :
    (code low : ℕ) → code < 2 ^ 8 → low < 2 ^ 24 → ((code * 2 ^ 24 + low) >>> 24) % 2 ^ 8 ≡ code
opcode_of code low hc hl = omega arith

jump_code : Bool → ℕ
jump_code call = if call then 0b11000110 else 0b11000000

imap-jump_code : (call : Bool) → imap (jump_code call) ≡ jump_op call
unfolding imap jump_code
imap-jump_code true = refl
imap-jump_code false = refl

abbrev pub jump_name : Bool → Text
jump_name call = if call then codes "call" else codes "ub"

branch_word-jump :
    (call : Bool) (offset : ℕ)
    → branch_word (jump_name call) offset ≡ bi_word (jump_code call) offset
unfolding branch_word jump_code str_case_eq
branch_word-jump true offset = refl
branch_word-jump false offset = refl

jump_op-valid :
    (call : Bool) → (is_op (jump_op call) op_error ≡ false) × (is_op (jump_op call) op_sys ≡ false)
jump_op-valid true = (refl, refl)
jump_op-valid false = (refl, refl)

-- The CPU fetched this word and stands behind it.
abbrev pub fetched : ℕ → Core → Core
fetched w core = record core { instrbits = w }

-- Where the CPU goes on from the instruction.
abbrev pub GoesTo : Regs → Core → ℕ → Type 0
GoesTo junk core ir = (c : Core) × ((decode junk core >>= next_ir) ≡ next c) × (c.ir ≡ ir)

jump-GoesTo :
    (junk : Regs) (core : Core) (call : Bool) (low : ℕ)
    → is_excp core.status ≡ false
    → low < 2 ^ 24
    → let w = jump_code call * 2 ^ 24 + low in
      (imap ((w >>> 24) % 2 ^ 8) ≡ jump_op call)
      × GoesTo junk (fetched w core) (bi_target core.ir (sign_extract w 0 24))
jump-GoesTo junk core call low running hl =
    let w = jump_code call * 2 ^ 24 + low in
    let small : jump_code call < 2 ^ 8 =
      unfold jump_code in
      elim (Bool-cases call) [ inl is ↦ rw is (omega arith) | inr isnt ↦ rw isnt (omega arith) ] in
    let code : imap ((w >>> 24) % 2 ^ 8) ≡ jump_op call =
      ap imap (opcode_of (jump_code call) low small hl) ∙ imap-jump_code call in
    let (known, plain) = jump_op-valid call in
    let (c, taken, ir) =
      next_ir-bi (decoded junk (jump_op call) (fetched w core)) call (sign_extract w 0 24) core.ir
        (decoded-bi junk call (fetched w core)) in
    (
      code,
      (
        c,
        ap (λ (o : Outcome Core). o >>= next_ir)
              (decode-known junk (fetched w core) (jump_op call) running code known plain)
            ∙ taken,
        ir,
      ),
    )

cond-GoesTo :
    (junk : Regs) (core : Core) (w low : ℕ)
    → is_excp core.status ≡ false
    → w ≡ 0b11000100 * 2 ^ 24 + low
    → low < 2 ^ 24
    → (imap ((w >>> 24) % 2 ^ 8) ≡ op_b)
      × GoesTo junk
          (fetched w core)
          (if check_condition w core.cstr then bc_target core.ir (sign_extract w 5 19) else core.ir)
cond-GoesTo junk core w low running is hl =
    let byte : (w >>> 24) % 2 ^ 8 ≡ 0b11000100 = omega arith in
    let code : imap ((w >>> 24) % 2 ^ 8) ≡ op_b = ap imap byte ∙ unfold imap in refl in
    let (c, taken, ir) =
      next_ir-bc (decoded junk op_b (fetched w core)) (sign_extract w 5 19) core.ir
        (check_condition w core.cstr) (decoded-bc junk (fetched w core)) in
    (
      code,
      (
        c,
        ap (λ (o : Outcome Core). o >>= next_ir)
              (decode-known junk (fetched w core) op_b running code refl refl)
            ∙ taken,
        ir,
      ),
    )

module _ {S : Type 0} (ev : Evaluator S) where
  -- `ub` and `call`: when the target is evaluated and, like the instruction's address, aligned, and
  -- the distance lies in [-2 ^ 20, 2 ^ 20) instructions, `encodeBiBc` returns a word with the opcode
  -- of the mnemonic, and a CPU that has fetched the word, is in no exception and stands behind it
  -- decodes it and goes on at the target.
  pub encode_bi_bc-next_ir :
      (junk : Regs) (core : Core) (call : Bool) (i : Instr) (st st' : S) (expr : Text)
      (target offset : ℕ)
      → i.instr ≡ jump_name call
      → operand i.operands 0 ≡ text expr
      → evaluate ev expr st ≡ done (target, st')
      → target < 2 ^ 32
      → i.addr < 2 ^ 32
      → (i.addr % 4 == 0) ≡ true
      → branch_offset target i.addr ≡ done offset
      → in_range 20 offset ≡ true
      → is_excp core.status ≡ false
      → core.ir ≡ u32 (i.addr + 4)
      → (w : ℕ) × (encode_bi_bc ev i st ≡ done (w, st'))
        × (imap ((w >>> 24) % 2 ^ 8) ≡ jump_op call)
        × GoesTo junk (fetched w core) target
  unfolding encode_bi_bc encode_branch
  encode_bi_bc-next_ir junk core call i st st' expr target offset is one found ht ha ma off near
        running behind =
      let sum = bi_word_sum (jump_code call) offset (ground arith) in
      let made : branch_word i.instr offset ≡ done (jump_code call * 2 ^ 24 + offset % 2 ^ 24) =
        ap (λ (s : Text). branch_word s offset) is ∙ branch_word-jump call offset ∙ sum in
      let (code, (c, taken, ir)) =
        jump-GoesTo junk core call (offset % 2 ^ 24) running (omega arith) in
      let there = bi_word-bi_target (jump_code call) target i.addr offset _ ht ha ma off near sum in
      (
        jump_code call * 2 ^ 24 + offset % 2 ^ 24,
        rw (one, found, off, made) refl,
        code,
        (c, taken, ir ∙ rw behind there),
      )

  -- `b` with one of the twelve conditions: when the target is evaluated and, like the instruction's
  -- address, aligned, and the distance lies in [-2 ^ 18, 2 ^ 18) instructions, `encodeBiBc` returns a
  -- word with the opcode of B, and a CPU that has fetched the word, is in no exception and stands
  -- behind it decodes it and goes on behind it where the flags do not have the condition; where
  -- they have it, at the target, or 2 ^ 21 bytes beyond the target when that lies before the branch.
  pub encode_bi_bc-check_condition :
      (junk : Regs) (core : Core) (cond : Cond) (i : Instr) (st st' : S) (expr : Text)
      (target offset : ℕ)
      → i.instr ≡ b'b' ∷ cond_name cond
      → operand i.operands 0 ≡ text expr
      → evaluate ev expr st ≡ done (target, st')
      → target < 2 ^ 32
      → i.addr < 2 ^ 32
      → (i.addr % 4 == 0) ≡ true
      → branch_offset target i.addr ≡ done offset
      → in_range 18 offset ≡ true
      → is_excp core.status ≡ false
      → core.ir ≡ u32 (i.addr + 4)
      → (w : ℕ) × (encode_bi_bc ev i st ≡ done (w, st'))
        × (imap ((w >>> 24) % 2 ^ 8) ≡ op_b)
        × GoesTo junk (fetched w core) (
            if check_condition (cond_code cond) core.cstr
            then u32 (target + (if is_negative offset then 2 ^ 21 else 0))
            else u32 (i.addr + 4))
  unfolding encode_bi_bc encode_branch
  encode_bi_bc-check_condition junk core cond i st st' expr target offset is one found ht ha ma off
        near running behind =
      let (encoded, few) = get_condition_encoding-cond_name cond in
      let n = cond_code cond in
      let w = bc_word offset n in
      let made : branch_word i.instr offset ≡ done w =
        ap (λ (s : Text). branch_word s offset) is
        ∙ branch_word-cond (cond_name cond) n offset near encoded in
      let (bits, there) = bc_word-bc_target target i.addr offset n ht ha ma off near few in
      let sum = bc_word_sum offset n few in
      let (code, (c, taken, ir)) =
        cond-GoesTo junk core w (offset % 2 ^ 19 * 2 ^ 5 + n) running (omega arith) (omega arith) in
      let same : check_condition w core.cstr ≡ check_condition n core.cstr =
        check_condition-bits w n core.cstr (bits ∙ omega arith) in
      (w, rw (one, found, off, made) refl, code, (c, taken, ir ∙ rw (same, behind, there) refl))
