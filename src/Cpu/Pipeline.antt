-- ===== src/Cpu/Pipeline.antt =====
-- emulator/cpu/core.c: exceptions, faults and the four stages of a cycle.
pub mod Decode
pub mod Execute
pub mod Cycle
pub mod Tests
use aru_xi.Base.{
  ℕ, ◌+◌, ◌-◌, ◌*◌, ◌/◌, ◌^◌, ◌%◌, Bool, true, false, not, ◌&&◌, ◌||◌, ◌==◌, if◌then◌else◌, u16,
  u32, Option, none, some,
}
use aru_xi.Cpu.Mem.{MemErr, is_none, word_at, store_word, kern_data}
use aru_xi.Cpu.State.{
  Core, Outcome, next, killed, undefined, ◌>>=◌, is_kernel, set_priv, stat_excp, stat_running,
  is_excp,
}
use aru_xi.Cpu.Hardware.{imem}
use aru_xi.Shared.Signals.{SigMem, Signal, set_fault_signal}

-- `excp_n`
abbrev pub excpn_abort_access : ℕ
excpn_abort_access = 0b1100

abbrev pub excpn_abort_instr : ℕ
excpn_abort_instr = 0b1101

abbrev pub excpn_abort_priv : ℕ
excpn_abort_priv = 0b1110

-- The offset of `ir` in the packed `PS`: two bytes and two words stand before it.
abbrev pub ps_ir : ℕ
ps_ir = 10

abbrev pub ps_cstr : ℕ
ps_cstr = 14

-- `fault`: unless the fault signal is not enabled, the CPU process raises `SIGUSR1` on itself, and
-- its handler finds the fault bit and exits.
unfoldable pub fault : Core → Outcome Core
fault core =
    let (signal, reply) = set_fault_signal core.sig_mem.universal in
    let core' = record core {
      sig_mem = record core.sig_mem { signal_type = 0; universal = signal };
    } in
    elim reply [ none ↦ next core' | some _ ↦ killed core' ]

-- `exception`: the address of the next instruction goes to the process state that the kernel's
-- pointer names, and the core goes on in the exception table in kernel mode.
unfoldable pub exception : ℕ → Core → Core
exception excp_num core =
    let ps_ptr = word_at core.memory (kern_data + 0x4) in
    record core {
      user_ps = some ps_ptr;
      memory = store_word core.memory (ps_ptr + ps_ir) core.ir;
      ir = 0x00040000;
      esr = u16 excp_num;
      cstr = set_priv core.cstr;
      status = stat_excp;
    }

-- The end of a stage on a memory error or an invalid instruction: kernel code is killed, user code
-- goes to the exception table.
unfoldable pub abort : ℕ → Core → Outcome Core
abort excp_num core = if is_kernel core.cstr then fault core else next (exception excp_num core)

unfoldable pub fetch : Core → Outcome Core
fetch core =
    let started = record core {
      status = if is_excp core.status then stat_running else core.status;
    } in
    let (bits, err) = imem started started.ir 0x00000000 in
    let fetched = record started { instrbits = bits; ir = u32 (started.ir + 4) } in
    if is_none err then next fetched else abort excpn_abort_access fetched
