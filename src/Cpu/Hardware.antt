-- ===== src/Cpu/Hardware.antt =====
-- emulator/cpu/hardware.c: the ALU, the register file and the two ports of the memory.
pub mod Alu
pub mod Tests
use aru_xi.Base.{
  ℕ, ◌+◌, ◌-◌, ◌*◌, ◌/◌, ◌^◌, ◌%◌, bit_and, bit_or, bit_xor, Bool, true, false, not, ◌&&◌, ◌||◌,
  ltb, leb, ◌==◌, if◌then◌else◌, u16, u32, sub32, is_negative, Option, none, some, ◌<<<◌, ◌>>>◌,
}
use aru_xi.Isa.{
  Opcode, is_op, op_ldir, op_ldcstr, op_mvcstr, op_resr, AluOp, alu_plus, alu_minus, alu_mul,
  alu_div, alu_or, alu_xor, alu_and, alu_lsl, alu_lsr, alu_asr, alu_inv, alu_pass,
}
use aru_xi.Cpu.Mem.{
  Memory, MemErr, is_none, valid_ki_mem_addr, valid_ui_mem_addr, mem_read_byte, mem_read_short,
  mem_read_int, mem_write_byte, mem_write_short, mem_write_int,
}
use aru_xi.Cpu.State.{Core, Outcome, next, undefined, ◌>>=◌, is_kernel, set_conds}

-- The switch of `alu`; `none` where C leaves the operation undefined.
unfoldable pub alu_res : AluOp → ℕ → ℕ → Option ℕ
alu_res alu_plus a b = some (u32 (a + b))
alu_res alu_minus a b = some (sub32 a b)
alu_res alu_mul a b = some (u32 (a * b))
alu_res alu_div a b = if b == 0 then none else some (a / b)
alu_res alu_or a b = some (bit_or a b)
alu_res alu_xor a b = some (bit_xor a b)
alu_res alu_and a b = some (bit_and a b)
alu_res alu_inv a b = some (2 ^ 32 - 1 - a)
alu_res alu_lsl a b = if ltb b 32 then some (u32 (a <<< b)) else none
alu_res alu_lsr a b = if ltb b 32 then some (a >>> b) else none
alu_res alu_asr a b = if ltb b 32 then some (a >>> b) else none
alu_res alu_pass a b = some 0

abbrev pub is_minus : AluOp → Bool
is_minus alu_minus = true
is_minus _ = false

-- The signs of an `int32_t` pattern.
abbrev pub is_positive : ℕ → Bool
is_positive x = not (x == 0) && not (is_negative x)

-- The condition flags, in the order of `SET_CONDS`. Signed sums wrap, so that `signedRes` has the
-- pattern of the sum, or of the difference for `ALU_MINUS`.
pub record Flags : Type 0 where
  pub c : Bool
  pub o : Bool
  pub n : Bool
  pub z : Bool

unfoldable pub alu_flags : Bool → ℕ → ℕ → ℕ → Flags
alu_flags minus a b res =
    let carry = ltb res a || ltb res b in
    let n = bit_and res 0x80000000 == 0 in
    let z = res == 0 in
    let difference = sub32 a b in
    let sum = u32 (a + b) in
    let o_minus = is_positive a && is_negative b && is_positive difference in
    let o_borrow = is_negative a && is_positive b && is_negative difference in
    let o_plus = not (is_negative a) && not (is_negative b) && not (is_positive sum) in
    let o_minus_minus = is_negative a && is_negative b && not (is_negative sum) in
    if minus
    then record { c = leb b a || carry; o = o_minus || (not (leb b a) && o_borrow); n = n; z = z }
    else record { c = carry; o = o_plus || o_minus_minus; n = n; z = z }

-- `core.CSTR = (core.CSTR & ~0xF) | (SET_CONDS(C,O,N,Z) & 0xF)`
unfoldable pub put_flags : ℕ → Flags → ℕ
put_flags cstr f = bit_or ((cstr >>> 4) <<< 4) (set_conds f.c f.o f.n f.z % 2 ^ 4)

unfoldable pub put_result : Core → ℕ → Core
put_result core res =
    let flags = alu_flags (is_minus core.aluop) core.alu_vala core.alu_valb res in
    record core {
      alures = res;
      cstr = if core.set_cc then put_flags core.cstr flags else core.cstr;
    }

-- Without a result the behaviour of the C code is undefined.
unfoldable pub computed : Core → Option ℕ → Outcome Core
computed core none = undefined
computed core (some res) = next (put_result core res)

unfoldable pub alu : Core → Outcome Core
alu core = computed core (alu_res core.aluop core.alu_vala core.alu_valb)

-- A register read: 31 is the stack pointer.
unfoldable pub reg_value : Core → ℕ → ℕ
reg_value core r = if r == 31 then core.sp else core.gpr r

-- The commit at the head of `regfile` of what MVCSTR has left in `setCSTR`.
unfoldable pub commit_cstr : Core → Core
commit_cstr core =
    if core.set_cstr >>> 15 == 1
    then record core { cstr = u16 (bit_and core.set_cstr (2 ^ 32 - 1 - 2 ^ 15)); set_cstr = 0 }
    else core

unfoldable pub reg_read : Core → Core
reg_read core = record core {
  vala = reg_value core core.rs;
  valb = reg_value core core.rr;
  valex = reg_value core core.rd;
}

-- What LDIR, LDCSTR and RESR put into `valout`.
unfoldable pub special_valout : Core → ℕ
special_valout core =
    if is_op core.opcode op_ldir
    then core.ir
    else (if is_op core.opcode op_ldcstr
        then core.cstr
        else (if is_op core.opcode op_resr then core.esr else core.valout))

unfoldable pub reg_put : Core → ℕ → ℕ → Core
reg_put core r v =
    if r == 31
    then record core { sp = v; valout = v }
    else record core { gpr = λ i. if i == r then v else core.gpr i; valout = v }

unfoldable pub reg_write : Core → Core
reg_write core =
    if core.rd == 30
    then core
    else (if is_op core.opcode op_mvcstr
        then record core { set_cstr = bit_or core.valout (2 ^ 15) }
        else reg_put core core.rd (special_valout core))

unfoldable pub regfile : Bool → Core → Core
regfile write core = if write then reg_write (commit_cstr core) else reg_read (commit_cstr core)

-- `imem`, with what it stores into `*ival` (`old` if it stores nothing) and into `*imemErr`.
unfoldable pub imem : Core → ℕ → ℕ → ℕ × MemErr
imem core addr old =
    let kernel = is_kernel core.cstr in
    let check = if kernel then valid_ki_mem_addr addr else valid_ui_mem_addr addr in
    if is_none check then mem_read_int kernel core.memory addr check else (old, check)

-- `dmem(addr, rval, NULL, err)`, with what it leaves in `*rval` and `*err`. Sizes other than 0, 1,
-- 2 and 4 do not occur.
unfoldable pub dmem_read : Core → ℕ → ℕ → MemErr → ℕ × MemErr
dmem_read core addr old err =
    let kernel = is_kernel core.cstr in
    if core.mem_size == 0
    then (old, err)
    else (if core.mem_size == 1
        then mem_read_byte kernel core.memory addr err
        else (if core.mem_size == 2
            then mem_read_short kernel core.memory addr err
            else mem_read_int kernel core.memory addr err))

-- The write of `dmem` by its size.
unfoldable pub sized_write : Bool → ℕ → Memory → ℕ → ℕ → Memory × MemErr
sized_write kernel size m addr word =
    if size == 1
    then mem_write_byte kernel m addr word
    else (if size == 2
        then mem_write_short kernel m addr word
        else mem_write_int kernel m addr word)

unfoldable pub with_memory : Memory → Core → Core
with_memory m core = record core { memory = m }

-- `dmem(addr, NULL, wval, err)`
unfoldable pub dmem_write : Core → ℕ → ℕ → MemErr → Core × MemErr
dmem_write core addr word err =
    let r = sized_write (is_kernel core.cstr) core.mem_size core.memory addr word in
    if core.mem_size == 0 then (core, err) else (with_memory r.0 core, r.1)
