-- ===== src/Cpu/Mem.antt =====
-- emulator/cpu/mem.c: the memory map of the emulated machine, and the checked reads and writes.
--
-- `emMem` is a function from addresses to bytes. Its values at and above 2 ^ 32 stand for what the
-- host keeps behind the 4 GB mapping: `_memRead` forms `emMem + addr + 3` without wrapping.
-- `GET_PRIV(core.CSTR) == PRIVILEGE_KERNEL` is the argument `kernel`. What `_memRead` leaves in
-- `*memerr` when it succeeds is what the caller had there, so it is an argument too.
pub mod Write
pub mod Read
pub mod Tests
use aru_xi.Base.{
  ℕ, zero, suc, ◌+◌, ◌-◌, ◌*◌, ◌/◌, ◌%◌, ◌^◌, Bool, true, false, not, ◌&&◌, ◌||◌, ltb, leb, ◌==◌,
  if◌then◌else◌, u8, u32, ◌<<<◌, ◌>>>◌,
}

-- The section bounds of headers/emulator/cpu/mem.h.
abbrev pub kern_start : ℕ
kern_start = 0xA0080000

abbrev pub kern_data : ℕ
kern_data = 0xA0080000

abbrev pub kern_text : ℕ
kern_text = 0xB8080000

abbrev pub kern_heap : ℕ
kern_heap = 0xD0080000

abbrev pub kern_stack : ℕ
kern_stack = 0xF0080000

abbrev pub kern_stack_limit : ℕ
kern_stack_limit = 0xFFFFFFFF

abbrev pub user_start : ℕ
user_start = 0x20040000

abbrev pub user_bss : ℕ
user_bss = 0x20040000

abbrev pub user_const : ℕ
user_const = 0x20080000

abbrev pub user_data : ℕ
user_data = 0x20090000

abbrev pub user_text : ℕ
user_text = 0x20190000

abbrev pub user_heap : ℕ
user_heap = 0x20990000

abbrev pub user_heap_limit : ℕ
user_heap_limit = 0x6098FFFF

abbrev pub user_stack : ℕ
user_stack = 0x60990800

abbrev pub user_stack_limit : ℕ
user_stack_limit = 0x709907FF

abbrev pub sys_lib : ℕ
sys_lib = 0x00080000

abbrev pub sys_lib_limit : ℕ
sys_lib_limit = 0x1007FFFF

abbrev pub evt_start : ℕ
evt_start = 0x00040000

abbrev pub evt_limit : ℕ
evt_limit = 0x0007FFFF

pub data MemErr : Type 0 where
  internal none : MemErr
  kern_overflow kern_overread kern_stack_overflow kern_heap_overflow : MemErr
  kern_text_write kern_sect_write kern_sect_read : MemErr
  user_overflow user_overread user_stack_overflow user_heap_overflow : MemErr
  user_text_write user_const_write user_sect_write user_sect_read : MemErr

abbrev pub is_none : MemErr → Bool
is_none MemErr.none = true
is_none _ = false

abbrev pub Memory : Type 0
Memory = ℕ → ℕ

unfoldable pub store : Memory → ℕ → ℕ → Memory
store m addr v a = if a == addr then v else m a

-- `validKIMemAddr` and `validUIMemAddr`, the checks on an instruction's address. The second tests
-- `addr <= SYS_LIB_LIMIT && SYS_LIB`, whose right side is a constant other than 0.
unfoldable pub valid_ki_mem_addr : ℕ → MemErr
valid_ki_mem_addr addr =
    let in_text_sect = ltb addr kern_heap && leb kern_text addr in
    let in_syslib = leb addr sys_lib_limit && leb sys_lib addr in
    let in_evt = leb addr evt_limit && leb evt_start addr in
    if not in_text_sect && not in_syslib && not in_evt then MemErr.kern_sect_read else MemErr.none

unfoldable pub valid_ui_mem_addr : ℕ → MemErr
valid_ui_mem_addr addr =
    let in_text_sect = ltb addr user_heap && leb user_text addr in
    let in_syslib = leb addr sys_lib_limit && not (sys_lib == 0) in
    if not in_text_sect && not in_syslib then MemErr.user_sect_read else MemErr.none

-- The check of `_memRead` on the first address.
unfoldable pub read_start_check : Bool → ℕ → MemErr
read_start_check true addr =
    let valid_read =
      (leb sys_lib addr && leb addr sys_lib_limit)
      || (leb kern_start addr && leb addr kern_stack_limit)
      || (leb evt_start addr && leb addr evt_limit) in
    if not valid_read then MemErr.kern_sect_read else MemErr.none
read_start_check false addr =
    let invalid_proc_read =
      (ltb user_heap_limit addr && ltb addr user_stack) || ltb user_stack_limit addr in
    let invalid_sect_read = ltb addr sys_lib || (ltb sys_lib_limit addr && ltb addr user_start) in
    if invalid_proc_read || invalid_sect_read then MemErr.user_sect_read else MemErr.none

-- The check of `_memRead` on each further address.
unfoldable pub read_next_check : Bool → ℕ → MemErr
read_next_check true newaddr =
    let overread_syslib = newaddr == sys_lib_limit + 1 || newaddr == sys_lib - 1 in
    let overread_kernel = newaddr == 0 || newaddr == kern_start - 1 in
    if overread_syslib || overread_kernel then MemErr.kern_overread else MemErr.none
read_next_check false newaddr =
    let overread_heap = newaddr == user_heap_limit + 1 in
    let overread_stack = newaddr == user_stack - 1 || newaddr == user_stack_limit + 1 in
    let overread_bss = newaddr == user_start - 1 in
    let overread_syslib = newaddr == sys_lib_limit + 1 || newaddr == sys_lib - 1 in
    if overread_heap || overread_stack || overread_bss || overread_syslib
    then MemErr.user_overread
    else MemErr.none

-- `for (int i = width-2; i >= 0; i--)`, with `i + 1` rounds left.
unfoldable pub read_loop : Bool → Memory → ℕ → MemErr → ℕ → ℕ → ℕ × MemErr
unfolding read_next_check
read_loop kernel m addr memerr zero val = (val, memerr)
read_loop kernel m addr memerr (suc i) val =
    let newaddr = u32 (addr + i) in
    let check = read_next_check kernel newaddr in
    let rest = read_loop kernel m addr memerr i (u32 (u32 (val <<< 8) + m newaddr)) in
    if is_none check then rest else (val, check)

unfoldable pub mem_read : Bool → Memory → ℕ → ℕ → MemErr → ℕ × MemErr
unfolding read_loop read_start_check
mem_read kernel m addr width memerr =
    let check = read_start_check kernel addr in
    if is_none check then read_loop kernel m addr memerr (width - 1) (m (addr + 3)) else (0, check)

-- The check of `_memWrite` on the first address.
unfoldable pub write_start_check : Bool → ℕ → MemErr
write_start_check true addr =
    let invalid_write = ltb addr kern_data in
    let invalid_text_write = leb kern_text addr && ltb addr kern_heap in
    if invalid_write
    then MemErr.kern_sect_write
    else (if invalid_text_write then MemErr.kern_text_write else MemErr.none)
write_start_check false addr =
    let invalid_write =
      ltb addr user_bss
      || (ltb user_heap_limit addr && ltb addr user_stack)
      || ltb user_stack_limit addr in
    let invalid_text_write = leb user_text addr && ltb addr user_heap in
    let invalid_const_write = leb user_const addr && ltb addr user_data in
    if invalid_write
    then MemErr.user_sect_write
    else (if invalid_text_write
        then MemErr.user_text_write
        else (if invalid_const_write then MemErr.user_const_write else MemErr.none))

-- The checks of `_memWrite` on each further address.
unfoldable pub write_next_check : Bool → ℕ → MemErr
write_next_check true newaddr =
    let overwrite =
      newaddr == kern_text
      || newaddr == kern_heap - 1
      || newaddr == kern_start - 1
      || newaddr == 0x0 in
    let overwrite_stack = newaddr == kern_stack in
    let overwrite_heap = newaddr == kern_stack - 1 in
    if overwrite
    then MemErr.kern_overflow
    else (if overwrite_stack
        then MemErr.kern_heap_overflow
        else (if overwrite_heap then MemErr.kern_stack_overflow else MemErr.none))
write_next_check false newaddr =
    let overwrite_const_reserved = newaddr == user_const || newaddr == user_bss - 1 in
    let overwrite_text_const = newaddr == user_text || newaddr == user_data - 1 in
    let overwrite_text = newaddr == user_heap - 1 in
    let overwrite_buffer = newaddr == user_stack_limit + 1 in
    if overwrite_const_reserved || overwrite_text_const || overwrite_text || overwrite_buffer
    then MemErr.user_overflow
    else (if newaddr == user_heap_limit + 1
        then MemErr.user_heap_overflow
        else (if newaddr == user_stack - 1 then MemErr.user_stack_overflow else MemErr.none))

-- `_data[i]`, the bytes of a little-endian word.
abbrev pub byte_of : ℕ → ℕ → ℕ
byte_of word i = u8 (word >>> (8 * i))

-- `for (int i = 1; i < width; i++)` at `i`, with `width - i` rounds left.
unfoldable pub write_loop : Bool → ℕ → ℕ → ℕ → ℕ → Memory → Memory × MemErr
unfolding write_next_check store
write_loop kernel addr word zero i m = (m, MemErr.none)
write_loop kernel addr word (suc left) i m =
    let newaddr = u32 (addr + i) in
    let check = write_next_check kernel newaddr in
    let rest = write_loop kernel addr word left (suc i) (store m newaddr (byte_of word i)) in
    if is_none check then rest else (m, check)

unfoldable pub mem_write : Bool → Memory → ℕ → ℕ → ℕ → Memory × MemErr
unfolding write_loop write_start_check
mem_write kernel m addr word width =
    let check = write_start_check kernel addr in
    if is_none check
    then write_loop kernel addr word (width - 1) 1 (store m addr (byte_of word 0))
    else (m, check)

-- The conversions `(char)` and `(short)` of the reads, on to `(uint32_t)`.
abbrev pub sign_extend8 : ℕ → ℕ
sign_extend8 v = if leb 128 (u8 v) then u8 v + (2 ^ 32 - 2 ^ 8) else u8 v

abbrev pub sign_extend16 : ℕ → ℕ
sign_extend16 v = if leb 32768 (v % 2 ^ 16) then v % 2 ^ 16 + (2 ^ 32 - 2 ^ 16) else v % 2 ^ 16

unfoldable pub mem_read_byte : Bool → Memory → ℕ → MemErr → ℕ × MemErr
unfolding mem_read
mem_read_byte kernel m addr memerr =
    let r = mem_read kernel m addr 1 memerr in (sign_extend8 r.0, r.1)

unfoldable pub mem_read_short : Bool → Memory → ℕ → MemErr → ℕ × MemErr
unfolding mem_read
mem_read_short kernel m addr memerr =
    let r = mem_read kernel m addr 2 memerr in (sign_extend16 r.0, r.1)

unfoldable pub mem_read_int : Bool → Memory → ℕ → MemErr → ℕ × MemErr
unfolding mem_read
mem_read_int kernel m addr memerr = mem_read kernel m addr 4 memerr

-- The narrow data parameters of the writes cut the word down; the bytes written are the same.
unfoldable pub mem_write_byte : Bool → Memory → ℕ → ℕ → Memory × MemErr
unfolding mem_write
mem_write_byte kernel m addr word = mem_write kernel m addr (sign_extend8 word) 1

unfoldable pub mem_write_short : Bool → Memory → ℕ → ℕ → Memory × MemErr
unfolding mem_write
mem_write_short kernel m addr word = mem_write kernel m addr (sign_extend16 word) 2

unfoldable pub mem_write_int : Bool → Memory → ℕ → ℕ → Memory × MemErr
unfolding mem_write
mem_write_int kernel m addr word = mem_write kernel m addr word 4

-- The little-endian word that stands in memory from `addr` on.
unfoldable pub word_at : Memory → ℕ → ℕ
word_at m addr = m addr + 256 * m (addr + 1) + 65536 * m (addr + 2) + 16777216 * m (addr + 3)

-- The memory after a word is stored without a check.
unfoldable pub store_word : Memory → ℕ → ℕ → Memory
unfolding store
store_word m addr word =
    store
      (store (store (store m addr (byte_of word 0)) (addr + 1) (byte_of word 1)) (addr + 2)
        (byte_of word 2))
      (addr + 3) (byte_of word 3)
