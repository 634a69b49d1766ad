-- ===== src/Asm/Encoder/Decoded.antt =====
-- What `decode` and `nextIR` of emulator/cpu/core.c make of the words of branches.
use aru_xi.Base.{
  ℕ, ◌%◌, ◌^◌, Bool, true, false, ◌==◌, ◌≡◌, refl, sign_extract, if◌then◌else◌, ◌>>>◌, Bool-cases,
  inl, inr,
}
use aru_xi.Isa.{
  Opcode, IType, is_op, op_ub, op_call, op_b, op_error, op_sys, bi_type, bc_type, imap,
}
use aru_xi.Cpu.State.{Core, next, is_excp}
use aru_xi.Cpu.Hardware.{regfile, commit_cstr, reg_read}
use aru_xi.Cpu.Pipeline.Decode.{
  Regs, extract_imm, extract_regs, check_condition, with_opcode, prepare, decode_operands, decode,
}
use aru_xi.Cpu.Pipeline.Execute.{
  bi_target, bc_target, jump, link, take_branch, return_from_exception, next_ir,
}

-- An instruction that is known and no system instruction is decoded to the end.
pub decode-known :
    (junk : Regs) (core : Core) (op : Opcode)
    → is_excp core.status ≡ false
    → imap ((core.instrbits >>> 24) % 2 ^ 8) ≡ op
    → is_op op op_error ≡ false
    → is_op op op_sys ≡ false
    → decode junk core ≡ next (decode_operands junk (prepare op (with_opcode op core)))
unfolding decode
decode-known junk core op running code known plain = rw (running, code) (rw (known, plain) refl)

-- What is decoded of an instruction word under an opcode.
abbrev pub decoded : Regs → Opcode → Core → Core
decoded junk op core = decode_operands junk (prepare op (with_opcode op core))

-- What `nextIR` reads of the context.
abbrev Reads : Core → Opcode → IType → ℕ → Bool → ℕ → Type 0
Reads c op type imm cond ir =
    (c.opcode ≡ op) × (c.itype ≡ type) × (c.imm ≡ imm) × (c.cond ≡ cond) × (c.ir ≡ ir)

commit_cstr-Reads : (c : Core) → Reads (commit_cstr c) c.opcode c.itype c.imm c.cond c.ir
unfolding commit_cstr
commit_cstr-Reads c = elim (Bool-cases (c.set_cstr >>> 15 == 1)) [
  | inl set ↦ rw set (refl, refl, refl, refl, refl)
  | inr clear ↦ rw clear (refl, refl, refl, refl, refl)
]

abbrev pub jump_op : Bool → Opcode
jump_op call = if call then op_call else op_ub

pub decoded-bi :
    (junk : Regs) (call : Bool) (core : Core)
    → Reads
        (decoded junk (jump_op call) core)
        (jump_op call)
        bi_type
        (sign_extract core.instrbits 0 24)
        false
        core.ir
unfolding decode_operands prepare with_opcode extract_imm extract_regs regfile reg_read
decoded-bi junk true core = commit_cstr-Reads _
decoded-bi junk false core = commit_cstr-Reads _

pub decoded-bc :
    (junk : Regs) (core : Core)
    → Reads
        (decoded junk op_b core)
        op_b
        bc_type
        (sign_extract core.instrbits 5 19)
        (check_condition core.instrbits core.cstr)
        core.ir
unfolding decode_operands prepare with_opcode extract_imm extract_regs regfile reg_read
decoded-bc junk core = commit_cstr-Reads _

pub next_ir-bi :
    (c : Core) (call : Bool) (imm ir : ℕ)
    → Reads c (jump_op call) bi_type imm false ir
    → (c' : Core) × (next_ir c ≡ next c') × (c'.ir ≡ bi_target ir imm)
unfolding next_ir jump
next_ir-bi c call imm ir (op, type, imm_is, passed, ir_is) =
    (jump (bi_target c.ir c.imm) (link c), rw type refl, rw (imm_is, ir_is) refl)

pub next_ir-bc :
    (c : Core) (imm ir : ℕ) (cond : Bool)
    → Reads c op_b bc_type imm cond ir
    → (c' : Core) × (next_ir c ≡ next c') × (c'.ir ≡ (if cond then bc_target ir imm else ir))
unfolding next_ir return_from_exception take_branch jump
next_ir-bc c imm ir true (op, type, imm_is, taken, ir_is) =
    (jump (bc_target c.ir c.imm) c, rw (type, taken, op) refl, rw (imm_is, ir_is) refl)
next_ir-bc c imm ir false (op, type, imm_is, passed, ir_is) = (c, rw (type, passed, op) refl, ir_is)
