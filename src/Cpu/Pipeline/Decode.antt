-- ===== src/Cpu/Pipeline/Decode.antt =====
-- The stage `decode` of emulator/cpu/core.c.
pub mod Conditions
use aru_xi.Base.{
  ℕ, ◌+◌, ◌-◌, ◌*◌, ◌/◌, ◌^◌, ◌%◌, Bool, true, false, not, ◌&&◌, ◌||◌, ◌==◌, ltb, leb,
  if◌then◌else◌, u32, Option, none, some, bit_extract, sign_extract, ◌>>>◌,
}
use aru_xi.Isa.{
  Opcode, rank, between, is_op, AluOp, alu_plus, alu_minus, alu_mul, alu_div, alu_or, alu_xor,
  alu_and, alu_lsl, alu_lsr, alu_asr, alu_inv, alu_pass, IType, is_type, no_type, i_type, r_type,
  m_type, bi_type, bu_type, bc_type, s_type, imap, op_nop, op_mul, op_sdiv, op_cmp, op_ld, op_ldb,
  op_ldbs, op_ldbz, op_strb, op_ldh, op_ldhs, op_ldhz, op_strh, op_str, op_ub, op_call, op_b,
  op_ubr, op_ret, op_sys, op_syscall, op_hlt, op_si, op_di, op_eret, op_ldir, op_mvcstr, op_ldcstr,
  op_resr, op_error, op_adds, op_subs, op_add, op_mv, op_sub, op_mvn, op_or, op_and, op_xor, op_not,
  op_lsl, op_lsr, op_asr, op_smul, op_div,
}
use aru_xi.Cpu.State.{Core, Outcome, next, ◌>>=◌, is_excp, is_kernel, get_c, get_o, get_n, get_z}
use aru_xi.Cpu.Hardware.{regfile}
use aru_xi.Cpu.Pipeline.{abort, exception, excpn_abort_instr, excpn_abort_priv}

-- `extractImm`: the immediate and the type, from the instruction and its opcode.
unfoldable pub extract_imm : ℕ → Opcode → ℕ × IType
extract_imm bits op =
    let imm14 = bit_extract bits 10 14 in
    let simm24 = sign_extract bits 0 24 in
    let simm19 = sign_extract bits 5 19 in
    let simm9 = sign_extract bits 15 9 in
    let is_immediate = ((bits >>> 24) % 2 == 0) && not (between op_mul op_sdiv op) in
    if between op_nop op_cmp op
    then (if is_immediate then (imm14, i_type) else (0, r_type))
    else (if between op_ld op_strh op
        then (simm9, m_type)
        else (if is_op op op_ub || is_op op op_call
            then (simm24, bi_type)
            else (if is_op op op_b
                then (simm19, bc_type)
                else (if is_op op op_ubr then (0, bu_type) else (0, no_type)))))

-- The registers that `extractRegs` declares and does not set in every branch: where it sets none,
-- what the stack held is used. These values are the parameter `junk`.
pub record Regs : Type 0 where
  pub rd : ℕ
  pub rs : ℕ
  pub rr : ℕ

unfoldable pub extract_regs : Regs → ℕ → Opcode → IType → Regs × IType
extract_regs junk bits op type =
    let rd = bit_extract bits 0 5 in
    let rs_is = bit_extract bits 5 5 in
    let rs_r = bit_extract bits 10 5 in
    let rr = bit_extract bits 5 5 in
    if is_op op op_ubr || is_op op op_ret
    then (record junk { rs = rd }, bu_type)
    else (if is_type type i_type
        then (record junk { rd = rd; rs = rs_is }, type)
        else (if is_type type r_type || is_type type m_type
            then (record { rd = rd; rs = rs_r; rr = rr }, type)
            else (if is_type type s_type && is_op op op_mvcstr
                then (record junk { rs = rs_is }, type)
                else (if is_type type s_type
                      && (is_op op op_ldir || is_op op op_ldcstr || is_op op op_resr)
                    then (record junk { rd = rd }, type)
                    else (junk, type)))))

unfoldable pub decide_alu_op : Opcode → AluOp
decide_alu_op op_add = alu_plus
decide_alu_op op_adds = alu_plus
decide_alu_op op_ld = alu_plus
decide_alu_op op_ldb = alu_plus
decide_alu_op op_ldbs = alu_plus
decide_alu_op op_ldbz = alu_plus
decide_alu_op op_ldh = alu_plus
decide_alu_op op_ldhs = alu_plus
decide_alu_op op_ldhz = alu_plus
decide_alu_op op_str = alu_plus
decide_alu_op op_strb = alu_plus
decide_alu_op op_strh = alu_plus
decide_alu_op op_mv = alu_plus
decide_alu_op op_call = alu_plus
decide_alu_op op_sub = alu_minus
decide_alu_op op_subs = alu_minus
decide_alu_op op_mvn = alu_minus
decide_alu_op op_cmp = alu_minus
decide_alu_op op_or = alu_or
decide_alu_op op_and = alu_and
decide_alu_op op_xor = alu_xor
decide_alu_op op_not = alu_inv
decide_alu_op op_lsl = alu_lsl
decide_alu_op op_lsr = alu_lsr
decide_alu_op op_asr = alu_asr
decide_alu_op op_mul = alu_mul
decide_alu_op op_smul = alu_mul
decide_alu_op op_div = alu_div
decide_alu_op op_sdiv = alu_div
decide_alu_op _ = alu_pass

-- `checkCondition` on the low four bits of the instruction, in the order of `cond_t`.
unfoldable pub check_condition : ℕ → ℕ → Bool
check_condition bits cstr =
    let cond = bit_extract bits 0 4 in
    let c = get_c cstr in
    let o = get_o cstr in
    let n = get_n cstr in
    let z = get_z cstr in
    if cond == 0
    then z == 1
    else (if cond == 1
        then z == 0
        else (if cond == 2
            then o == 1
            else (if cond == 3
                then o == 0
                else (if cond == 4
                    then n == 1
                    else (if cond == 5
                        then n == 0
                        else (if cond == 6
                            then c == 0
                            else (if cond == 7
                                then c == 1
                                else (if cond == 8
                                    then (n == o) && (z == 0)
                                    else (if cond == 9
                                        then n == o
                                        else (if cond == 10
                                            then not (n == o)
                                            else (if cond == 11
                                                then not (n == o) || not (z == 0)
                                                else false)))))))))))

-- The switch on `memSize`.
unfoldable pub mem_size_of : Opcode → ℕ
mem_size_of op_ldb = 1
mem_size_of op_ldbs = 1
mem_size_of op_ldbz = 1
mem_size_of op_strb = 1
mem_size_of op_ldh = 2
mem_size_of op_ldhs = 2
mem_size_of op_ldhz = 2
mem_size_of op_strh = 2
mem_size_of op_ld = 4
mem_size_of op_str = 4
mem_size_of _ = 0

-- The switch on the sub-opcode of the S-types.
unfoldable pub sub_opcode : ℕ → Opcode
sub_opcode code =
    if code == 0b00010
    then op_syscall
    else (if code == 0b00110
        then op_hlt
        else (if code == 0b01010
            then op_si
            else (if code == 0b01110
                then op_di
                else (if code == 0b10010
                    then op_eret
                    else (if code == 0b10110
                        then op_ldir
                        else (if code == 0b11010
                            then op_mvcstr
                            else (if code == 0b11110
                                then op_ldcstr
                                else (if code == 0b11111 then op_resr else op_error))))))))

abbrev pub sets_cc : Opcode → Bool
sets_cc op = is_op op op_adds || is_op op op_subs || is_op op op_cmp

-- A system instruction other than `syscall` in user mode goes to the exception table.
unfoldable pub check_privilege : Opcode → Core → Core
check_privilege sub core =
    if is_op sub op_syscall || is_kernel core.cstr then core else exception excpn_abort_priv core

unfoldable pub with_opcode : Opcode → Core → Core
with_opcode op core = record core { opcode = op }

-- The branch `if (code == OP_SYS)`.
unfoldable pub decode_sys : Core → Outcome Core
decode_sys core = do
  let sub = sub_opcode (bit_extract core.instrbits 19 5)
  let typed = record core { itype = s_type }
  known ← if is_op sub op_error then abort excpn_abort_instr typed else next typed
  next (with_opcode sub (check_privilege sub known))

-- The end of `decode`, from `extractRegs` on.
unfoldable pub decode_operands : Regs → Core → Core
decode_operands junk core =
    let (regs, type) = extract_regs junk core.instrbits core.opcode core.itype in
    let op = core.opcode in
    let loads = between op_ld op_ldhz op in
    regfile false (record core {
      rd = regs.rd;
      rs = regs.rs;
      rr = regs.rr;
      itype = type;
      regwrite =
          is_type type i_type
          || is_type type r_type
          || loads
          || is_op op op_call
          || between op_ldir op_resr op;
      memwrite = loads;
      write = between op_str op_strh op;
      set_cc = sets_cc op || core.set_cc;
      cond = is_op op op_b && check_condition core.instrbits core.cstr;
      aluop = decide_alu_op op;
    })

-- What `decode` sets from the opcode and from `extractImm`.
unfoldable pub prepare : Opcode → Core → Core
prepare code core =
    let (imm, type) = extract_imm core.instrbits code in
    record core { set_cc = sets_cc code; mem_size = mem_size_of code; imm = imm; itype = type }

unfoldable pub decode : Regs → Core → Outcome Core
decode junk core = if is_excp core.status then next core else do
  let code = imap ((core.instrbits >>> 24) % 2 ^ 8)
  let coded = with_opcode code core
  valid ← if is_op code op_error then abort excpn_abort_instr coded else next coded
  system ← if is_op code op_sys then decode_sys (prepare code valid) else next (prepare code valid)
  next (decode_operands junk system)
