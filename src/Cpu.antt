-- ===== src/Cpu.antt =====
-- The emulated CPU, emulator/cpu.
pub mod Mem
pub mod State
pub mod Hardware
pub mod Pipeline
pub mod Isolation
