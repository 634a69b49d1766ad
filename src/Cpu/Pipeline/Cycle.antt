-- ===== src/Cpu/Pipeline/Cycle.antt =====
-- The stage `memory` of emulator/cpu/core.c, and a cycle of `runCore`.
use aru_xi.Base.{ℕ, ◌+◌, if◌then◌else◌, u16, Option, none, some}
use aru_xi.Isa.{is_op, op_eret}
use aru_xi.Cpu.Mem.{MemErr, is_none, word_at}
use aru_xi.Cpu.State.{Core, Outcome, next, undefined, ◌>>=◌, is_excp, clr_priv}
use aru_xi.Cpu.Hardware.{dmem_read, dmem_write, regfile}
use aru_xi.Cpu.Pipeline.{abort, excpn_abort_access, fetch, ps_cstr}
use aru_xi.Cpu.Pipeline.Decode.{Regs, decode}
use aru_xi.Cpu.Pipeline.Execute.{execute}

unfoldable pub with_alu_valb : ℕ → Core → Core
with_alu_valb word core = record core { alu_valb = word }

-- The access of `memory`. The word read goes to `aluValb`. `MEMERR_INTERNAL` does not occur, since
-- one of the two pointers is always given.
unfoldable pub access : Core → Core × MemErr
access core =
    let (word, err) = dmem_read core core.alures core.alu_valb MemErr.none in
    if core.write
    then dmem_write core core.alures core.valmem MemErr.none
    else (with_alu_valb word core, err)

unfoldable pub write_back : Core → Core
write_back core =
    let valued = record core { valout = if core.memwrite then core.alu_valb else core.alures } in
    regfile valued.regwrite valued

-- After an error that does not kill the process, the stage goes on to the write-back.
unfoldable pub memory : Core → Outcome Core
memory core = if is_excp core.status then next core else do
  let (accessed, err) = access core
  checked ← if is_none err then next accessed else abort excpn_abort_access accessed
  next (write_back checked)

-- `core.CSTR = userPS->cstr` without the privilege bit. Before the first exception `userPS` is the
-- null pointer.
unfoldable pub restored : Core → Option ℕ → Outcome Core
restored core none = undefined
restored core (some ps) =
    next (record core { cstr = clr_priv (u16 (word_at core.memory (ps + ps_cstr))) })

-- What `runCore` does behind the stages on ERET: the saved `CSTR` comes back, in user mode.
unfoldable pub restore_cstr : Core → Outcome Core
restore_cstr core = if is_op core.opcode op_eret then restored core core.user_ps else next core

-- One round of `runCore` while it is not idle, up to its bookkeeping.
unfoldable pub cycle : Regs → Core → Outcome Core
cycle junk core = fetch core >>= decode junk >>= execute >>= memory >>= restore_cstr
