-- ===== src/Cpu/Isolation/Tests.antt =====
-- A cycle of `runCore` in user mode that stores a word.
use aru_xi.Base.{true, arith, ℕ, ◌+◌, ◌≡◌, refl, false, ◌==◌, if◌then◌else◌, none}
use aru_xi.Isa.{op_eret, s_type, imap, op_add, no_type, alu_plus}
use aru_xi.Cpu.Mem.{
  valid_ui_mem_addr, mem_read_int, mem_read, read_start_check, read_next_check, mem_write_int,
  Memory, user_text, user_data,
}
use aru_xi.Cpu.State.{Core, Outcome, next, stat_running}
use aru_xi.Cpu.Hardware.{
  imem, regfile, commit_cstr, reg_read, reg_value, alu, alu_res, computed, put_result, dmem_read,
  dmem_write, with_memory, sized_write, reg_write,
}
use aru_xi.Cpu.Pipeline.{exception, fetch}
use aru_xi.Cpu.Pipeline.Execute.Return.{next_ir-exception}
use aru_xi.Cpu.Pipeline.Execute.{
  execute, alu_operands, next_ir, take_branch, return_from_exception, finish_execute,
}
use aru_xi.Cpu.Pipeline.Decode.{
  Regs, decode, prepare, with_opcode, extract_imm, decode_operands, extract_regs, decide_alu_op,
  mem_size_of, check_condition,
}
use aru_xi.Cpu.Pipeline.Cycle.{cycle, memory, access, write_back, with_alu_valb, restore_cstr}
use aru_xi.Cpu.Isolation.{Ensures, InUser}
use aru_xi.Cpu.Isolation.UserCycle.{Contained, cycle-Contained}
use aru_xi.Shared.Signals.{setup_signals}

-- At the start of the user's text stands `str x1, [x2]`.
abbrev program : Memory
program a =
    if a == user_text + 3
    then 0b00011100
    else (if a == user_text + 1 then 0b00001000 else (if a == user_text then 0b00000001 else 0))

abbrev junk : Regs
junk = record { rd = 0; rs = 0; rr = 0 }

abbrev user_core : Core
user_core = record {
  gpr = λ r. if r == 2 then user_data else r;
  ir = user_text;
  sp = 0;
  cstr = 0;
  esr = 0;
  status = stat_running;
  instrbits = 0;
  opcode = op_add;
  itype = no_type;
  imm = 0;
  rd = 0;
  rs = 0;
  rr = 0;
  aluop = alu_plus;
  vala = 0;
  valb = 0;
  valex = 0;
  set_cc = false;
  mem_size = 0;
  regwrite = false;
  memwrite = false;
  alu_vala = 0;
  alu_valb = 0;
  alures = 0;
  cond = false;
  valmem = 0;
  write = false;
  valout = 0;
  set_cstr = 0;
  memory = program;
  user_ps = none;
  sig_mem = setup_signals;
}

user_core-InUser : InUser program user_core
user_core-InUser = record { user = refl; settled = refl; running = refl; confined = λ a w. refl }

cycle-Contained_example : Ensures (Contained program) (cycle junk user_core)
cycle-Contained_example = cycle-Contained program junk user_core user_core-InUser refl

-- The handler's core when it comes to its ERET, if it has changed nothing.
abbrev handled : Core
handled = record (exception 0 user_core) { opcode = op_eret; itype = s_type; cond = true }

return_example : next_ir handled ≡ next (record handled { ir = user_text })
unfolding exception
return_example = next_ir-exception 0 user_core handled (omega arith) refl (λ a p q. refl) refl refl

abbrev word_stored : Outcome Core → ℕ
word_stored (next core) = core.memory user_data
word_stored _ = 999

-- The word is stored.
cycle_stores : word_stored (cycle junk user_core) ≡ 1
unfolding cycle fetch imem valid_ui_mem_addr mem_read_int mem_read read_start_check read_next_check
    imap decode prepare with_opcode extract_imm decode_operands extract_regs decide_alu_op
    mem_size_of check_condition regfile commit_cstr reg_read reg_value execute alu_operands next_ir
    take_branch return_from_exception alu alu_res computed put_result finish_execute memory access
    dmem_read dmem_write with_memory sized_write mem_write_int write_back with_alu_valb reg_write
    restore_cstr
cycle_stores = refl
