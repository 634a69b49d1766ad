-- ===== src/Shared.antt =====
-- The parts that the emulator, the CPU and the shell share, shared/.
pub mod SigHeap
pub mod Signals
