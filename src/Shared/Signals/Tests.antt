-- ===== src/Shared/Signals/Tests.antt =====
-- Signals of shared/emSignal.c at concrete values.
use aru_xi.Base.{ℕ, ◌<◌, ◌≡◌, ◌≢◌, refl, some}
use aru_xi.Shared.SigHeap.{ok}
use aru_xi.Shared.Signals.{
  Signal, sig_get, sys_idx, set_sys_signal, ack_sys_signal, setup_signals, IoData, LoadProg,
  set_io_signal, io_sent,
}
use aru_xi.Shared.Signals.Words.{ack_sys_signal-set_sys_signal}

-- The signal between the emulator and the shell, and that between the emulator and the CPU.
abbrev shell : Signal
shell = setup_signals.emu_shell

abbrev cpu : Signal
cpu = setup_signals.emu_cpu

abbrev universal : Signal
universal = setup_signals.universal

system_call_example :
    let sent = (set_sys_signal cpu 0xA0080000).0 in
    let done = (ack_sys_signal sent).0 in
    (sent.word0 ≡ 0xA0080000)
    × (sig_get sent.payload_valid sys_idx ≡ 1)
    × ((j : ℕ) → j < 32 → sys_idx ≢ j → sig_get done.payload_valid j ≡ sig_get cpu.payload_valid j)
    × (sig_get done.payload_valid sys_idx ≡ 0)
    × (sig_get done.interrupts sys_idx ≡ 1)
    × (sig_get done.ack_mask sys_idx ≡ 1)
unfolding setup_signals
system_call_example = ack_sys_signal-set_sys_signal cpu 0xA0080000 refl

abbrev printed : IoData
printed = record { stream = 1; count = 3; buffer_offset = 32 }

abbrev program : LoadProg
program = record { program_offset = 64; argc = 1; argv_offset = 96 }

set_io_signal-shell :
    set_io_signal 5 (λ a. 0) shell printed ≡ ok (λ a. 0, io_sent printed shell, some 0)
unfolding set_io_signal setup_signals io_sent
set_io_signal-shell = refl
