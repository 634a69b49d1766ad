-- ===== src/Cpu/Pipeline/Execute.antt =====
-- The stage `execute` of emulator/cpu/core.c.
pub mod Branch
pub mod Return
use aru_xi.Base.{
  ℕ, ◌+◌, ◌-◌, ◌*◌, ◌/◌, ◌^◌, ◌%◌, Bool, true, false, not, ◌&&◌, ◌||◌, ◌==◌, if◌then◌else◌, u16,
  u32, sub32, sar32, Option, none, some, ◌<<<◌, ◌>>>◌,
}
use aru_xi.Base.Bits.{digit}
use aru_xi.Isa.{
  Opcode, between, is_op, IType, is_type, i_type, m_type, bi_type, bu_type, op_call, op_eret,
  op_syscall, op_mvcstr, op_str, op_strh, op_hlt,
}
use aru_xi.Cpu.Mem.{word_at}
use aru_xi.Cpu.State.{Core, Outcome, next, undefined, ◌>>=◌, is_excp, stat_io, stat_hlt}
use aru_xi.Cpu.Hardware.{alu}
use aru_xi.Cpu.Pipeline.{exception, ps_ir}

-- `(core.IR-4) + (((int32_t)(((imm & 0xffffff) << 2) << 9)) >> 9)`, the target of UB and CALL.
unfoldable pub bi_target : ℕ → ℕ → ℕ
bi_target ir imm = u32 (sub32 ir 4 + sar32 (u32 ((imm % 2 ^ 24) <<< 2 <<< 9)) 9)

-- `(core.IR-4) + ((imm & 0x7ffff) << 2)`, the target of B.
unfoldable pub bc_target : ℕ → ℕ → ℕ
bc_target ir imm = u32 (sub32 ir 4 + (imm % 2 ^ 19) <<< 2)

-- `core.IR = userPS->ir`. Before the first exception `userPS` is the null pointer.
unfoldable pub resumed : Core → Option ℕ → Outcome Core
resumed core none = undefined
resumed core (some ps) = next (record core { ir = word_at core.memory (ps + ps_ir) })

-- The last statement of `nextIR`.
unfoldable pub return_from_exception : Core → Outcome Core
return_from_exception core =
    if is_op core.opcode op_eret then resumed core core.user_ps else next core

unfoldable pub jump : ℕ → Core → Core
jump ir core = record core { ir = ir }

-- The registers that CALL sets for the ALU to compute the return address.
unfoldable pub link : Core → Core
link core =
    if is_op core.opcode op_call
    then record core { rd = 28; alu_vala = sub32 core.ir 4; alu_valb = 0x4 }
    else core

unfoldable pub take_branch : Core → Core
take_branch core = if core.cond then jump (bc_target core.ir core.imm) core else core

unfoldable pub next_ir : Core → Outcome Core
next_ir core =
    if is_type core.itype bi_type
    then next (jump (bi_target core.ir core.imm) (link core))
    else (if is_type core.itype bu_type
        then next (jump core.vala core)
        else return_from_exception (take_branch core))

-- The operands of the ALU.
unfoldable pub alu_operands : Core → Core
alu_operands core =
    let immediate = is_type core.itype i_type || is_type core.itype m_type in
    let indexed = is_type core.itype m_type && core.imm == 0 in
    record core {
      alu_vala = core.vala;
      alu_valb = if immediate && not indexed then core.imm else core.valb;
    }

-- The end of `execute`, behind the ALU.
unfoldable pub finish_execute : Core → Core
finish_execute core = record core {
  alures = if is_op core.opcode op_mvcstr then core.vala else core.alures;
  valmem = if between op_str op_strh core.opcode then core.valex else core.valmem;
  status =
      if is_op core.opcode op_hlt
      then (if digit core.cstr 13 == 1 then stat_io else stat_hlt)
      else core.status;
}

unfoldable pub execute : Core → Outcome Core
execute core =
    let called = (if is_op core.opcode op_syscall then exception (core.gpr 0) core else core) in
    let run : Outcome Core =
      next_ir (alu_operands called) >>= alu >>= λ computed. next (finish_execute computed) in
    if is_excp called.status then next called else run
