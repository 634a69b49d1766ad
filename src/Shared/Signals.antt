-- ===== src/Shared/Signals.antt =====
-- shared/emSignal.c and headers/emSignal.h: the interrupt words by which the emulator, the CPU and
-- the shell signal one another.
--
-- A function that returns -1 returns `none` here. The metadata is a union; its three 32-bit words
-- are kept, and each member is a name for some of them. Pointers into the shared heap are offsets.
pub mod Words
pub mod Union
pub mod Tests
use aru_xi.Base.{
  ℕ, zero, suc, ◌+◌, ◌-◌, ◌*◌, ◌/◌, ◌^◌, ◌%◌, bit_and, bit_or, Bool, true, false, ◌==◌,
  if◌then◌else◌, Option, none, some, is_negative,
}
use aru_xi.Base.Bits.{digit}
use aru_xi.Shared.SigHeap.{Heap, Run, ok, crash, exhausted, ◌>>=◌, sfree}

abbrev pub shutdown_idx : ℕ
shutdown_idx = 31

abbrev pub fault_idx : ℕ
fault_idx = 30

abbrev pub ready_idx : ℕ
ready_idx = 29

abbrev pub sys_idx : ℕ
sys_idx = 14

abbrev pub cpu_save_idx : ℕ
cpu_save_idx = 12

abbrev pub io_idx : ℕ
io_idx = 8

abbrev pub load_idx : ℕ
load_idx = 7

abbrev pub error_idx : ℕ
error_idx = 3

abbrev pub exit_idx : ℕ
exit_idx = 2

abbrev pub kill_idx : ℕ
kill_idx = 1

abbrev pub exec_idx : ℕ
exec_idx = 0

-- `SIG_GET`, `SIG_SET` and `SIG_CLR` of a 32-bit word.
abbrev pub sig_get : ℕ → ℕ → ℕ
sig_get bits i = digit bits i

unfoldable pub sig_set : ℕ → ℕ → ℕ
sig_set bits i = bit_or bits (2 ^ i)

unfoldable pub sig_clr : ℕ → ℕ → ℕ
sig_clr bits i = bit_and bits (2 ^ 32 - 1 - 2 ^ i)

-- `signal_t`. `word0` is `programOffset`, `entry`, `kerneldataPtr` or `stream`; `word1` is `argc`
-- or `count`; `word2` is `argvOffset` or `bufferOffset`.
pub record Signal : Type 0 where
  pub interrupts : ℕ
  pub int_enable : ℕ
  pub ack_mask : ℕ
  pub payload_valid : ℕ
  pub word0 : ℕ
  pub word1 : ℕ
  pub word2 : ℕ

abbrev pub enabled : ℕ → Signal → Bool
enabled i s = sig_get s.int_enable i == 1

-- The body that the `set…Signal` functions with no payload share, and that of the `ack…Signal`
-- functions, at the index of the signal.
unfoldable pub set_signal : ℕ → Signal → Signal × Option ℕ
set_signal i s =
    let s' = record s { interrupts = sig_set s.interrupts i } in
    if enabled i s then (s', some (sig_get s'.interrupts i)) else (s, none)

unfoldable pub ack_signal : ℕ → Signal → Signal × Option ℕ
ack_signal i s =
    let s' = record s { ack_mask = sig_set s.ack_mask i } in
    if enabled i s then (s', some (sig_get s'.ack_mask i)) else (s, none)

unfoldable pub set_shutdown_signal : Signal → Signal × Option ℕ
set_shutdown_signal = set_signal shutdown_idx

unfoldable pub ack_shutdown_signal : Signal → Signal × Option ℕ
ack_shutdown_signal = ack_signal shutdown_idx

unfoldable pub set_fault_signal : Signal → Signal × Option ℕ
set_fault_signal = set_signal fault_idx

unfoldable pub ack_fault_signal : Signal → Signal × Option ℕ
ack_fault_signal = ack_signal fault_idx

unfoldable pub set_ready_signal : Signal → Signal × Option ℕ
set_ready_signal = set_signal ready_idx

unfoldable pub ack_ready_signal : Signal → Signal × Option ℕ
ack_ready_signal = ack_signal ready_idx

unfoldable pub set_error_signal : Signal → Signal × Option ℕ
set_error_signal = set_signal error_idx

unfoldable pub ack_load_signal : Signal → Signal × Option ℕ
ack_load_signal = ack_signal load_idx

unfoldable pub ack_exec_signal : Signal → Signal × Option ℕ
ack_exec_signal = ack_signal exec_idx

unfoldable pub set_sys_signal : Signal → (kerneldata_ptr : ℕ) → Signal × Option ℕ
set_sys_signal s ptr =
    let s' = record s {
      interrupts = sig_set s.interrupts sys_idx;
      payload_valid = sig_set s.payload_valid sys_idx;
      word0 = ptr;
    } in
    if enabled sys_idx s then (s', some (sig_get s'.interrupts sys_idx)) else (s, none)

unfoldable pub ack_sys_signal : Signal → Signal × Option ℕ
ack_sys_signal s =
    let s' = record s {
      ack_mask = sig_set s.ack_mask sys_idx;
      payload_valid = sig_clr s.payload_valid sys_idx;
    } in
    if enabled sys_idx s then (s', some (sig_get s'.ack_mask sys_idx)) else (s, none)

unfoldable pub set_exec_signal : Signal → (entry : ℕ) → Signal × Option ℕ
set_exec_signal s entry =
    let s' = record s {
      interrupts = sig_set s.interrupts exec_idx;
      payload_valid = sig_set s.payload_valid exec_idx;
      word0 = entry;
    } in
    if enabled exec_idx s then (s', some (sig_get s'.interrupts exec_idx)) else (s, none)

pub record IoData : Type 0 where
  pub stream : ℕ
  pub count : ℕ
  pub buffer_offset : ℕ

-- The signal that `setIOSignal` leaves, with the metadata copied in.
unfoldable pub io_sent : IoData → Signal → Signal
io_sent md s = record s {
  interrupts = sig_set s.interrupts io_idx;
  payload_valid = sig_set s.payload_valid io_idx;
  word0 = md.stream;
  word1 = md.count;
  word2 = md.buffer_offset;
}

-- `setIOSignal`, which frees the buffer of the signal before. It returns the bit of `ackMask`.
unfoldable pub set_io_signal : ℕ → Heap → Signal → IoData → Run (Heap × Signal × Option ℕ)
set_io_signal fuel h s md =
    let s' = io_sent md s in
    let freed : Run Heap = if s.word2 == 0 then ok h else sfree fuel h (some s.word2) in
    let sent : Run (Heap × Signal × Option ℕ) =
      freed >>= λ h'. ok (h', s', some (sig_get s'.ack_mask io_idx)) in
    if enabled io_idx s then sent else ok (h, s, none)

pub record LoadProg : Type 0 where
  pub program_offset : ℕ
  pub argc : ℕ
  pub argv_offset : ℕ

-- The signal that `setLoadSignal` leaves, with the metadata copied in.
unfoldable pub load_sent : LoadProg → Signal → Signal
load_sent md s = record s {
  interrupts = sig_set s.interrupts load_idx;
  payload_valid = sig_set s.payload_valid load_idx;
  word0 = md.program_offset;
  word1 = md.argc;
  word2 = md.argv_offset;
}

-- `argv[i]`, a 64-bit pointer; the page starts at `base`.
unfoldable pub pointer_at : ℕ → Heap → ℕ → Option ℕ
pointer_at base h off =
    let p = h off + 2 ^ 32 * h (off + 4) in if p == 0 then none else some (p - base)

-- `for (int i = 0; i < argc; i++) sfree(argv[i]);`, with the rounds left.
unfoldable pub free_args : ℕ → ℕ → ℕ → ℕ → Heap → Run Heap
free_args fuel base zero argv h = ok h
free_args fuel base (suc left) argv h =
    sfree fuel h (pointer_at base h argv) >>= λ h'. free_args fuel base left (argv + 8) h'

unfoldable pub set_load_signal : ℕ → ℕ → Heap → Signal → LoadProg → Run (Heap × Signal × Option ℕ)
set_load_signal fuel base h s md =
    let s' = load_sent md s in
    let rounds = if is_negative s.word1 then 0 else s.word1 in
    let freed : Run Heap =
      if s.word2 == 0
      then ok h
      else (free_args fuel base rounds s.word2 h >>= λ h'. sfree fuel h' (some s.word2)) in
    let sent : Run (Heap × Signal × Option ℕ) =
      freed >>= λ h'. ok (h', s', some (sig_get s'.interrupts load_idx)) in
    if enabled load_idx s then sent else ok (h, s, none)

abbrev fresh : ℕ → Signal
fresh enable = record {
  interrupts = 0;
  int_enable = enable;
  ack_mask = 0;
  payload_valid = 0;
  word0 = 0;
  word1 = 0;
  word2 = 0;
}

-- The four signals of `SigMem`, and `metadata.signalType`.
pub record SigMem : Type 0 where
  pub signal_type : ℕ
  pub universal : Signal
  pub emu_shell : Signal
  pub emu_cpu : Signal
  pub shell_cpu : Signal

-- `setupSignals`, whose masks join `emSIG_SHUTDOWN`, `emSIG_FAULT` and the others by `|`.
unfoldable pub setup_signals : SigMem
setup_signals = record {
  signal_type = 0;
  universal = fresh (bit_or (bit_or 0x80000000 0x40000000) 0x20000000);
  emu_shell = fresh (bit_or 0x80 0x100);
  emu_cpu = fresh (bit_or 0x1000 0x4000);
  shell_cpu = fresh (bit_or (bit_or (bit_or 0x8 0x4) 0x2) 0x1);
}
