-- ===== src/Cpu/Mem/Tests.antt =====
-- Reads and writes of emulator/cpu/mem.c at concrete addresses.
use aru_xi.Base.{ℕ, ◌<◌, ◌≡◌, refl, arith, true, false}
use aru_xi.Cpu.Mem.{
  Memory, MemErr, is_none, mem_read_int, mem_write_int, mem_read_byte, mem_write_byte, mem_write,
  read_start_check, read_next_check, user_data,
}
use aru_xi.Cpu.Mem.Write.{writable, mem_write_confined}
use aru_xi.Cpu.Mem.Read.{Readable, mem_read_int-mem_write_int, mem_read_byte-mem_write_byte}

abbrev clear : Memory
clear a = 7

clear-lt : (a : ℕ) → clear a < 256
clear-lt a = omega arith

user_data-Readable : Readable false user_data
unfolding Readable read_start_check read_next_check
user_data-Readable = (refl, refl, refl, refl, omega arith)

written : is_none (mem_write_int false clear user_data 0xDEADBEEF).1 ≡ true
unfolding mem_write_int mem_write
written = refl

mem_read_int-mem_write_int_example :
    mem_read_int false (mem_write_int false clear user_data 0xDEADBEEF).0 user_data MemErr.none
    ≡ (0xDEADBEEF, MemErr.none)
mem_read_int-mem_write_int_example =
    mem_read_int-mem_write_int false clear user_data 0xDEADBEEF MemErr.none (omega arith)
      (omega arith) clear-lt written

byte_written : is_none (mem_write_byte false clear user_data 5).1 ≡ true
unfolding mem_write_byte
byte_written = refl

mem_read_byte-mem_write_byte_example :
    mem_read_byte false (mem_write_byte false clear user_data 5).0 user_data MemErr.none
    ≡ (7, MemErr.none)
mem_read_byte-mem_write_byte_example =
    mem_read_byte-mem_write_byte false clear user_data 5 MemErr.none (omega arith) byte_written

-- A word across the end of bss, and the constants behind it.
bss_end_example : (mem_write false clear 0x2007FFFE 1 4).0 0x20080000 ≡ 7
unfolding writable
bss_end_example = mem_write_confined false clear 0x2007FFFE 1 4 0x20080000 (omega arith) refl
