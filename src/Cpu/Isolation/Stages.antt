-- ===== src/Cpu/Isolation/Stages.antt =====
-- Each stage of emulator/cpu/core.c, started in user mode.
use aru_xi.Base.{
  ℕ, true, false, ◌||◌, if◌then◌else◌, ◌≡◌, refl, subst, sym, arith, ◌⊎◌, inl, inr, Bool-cases,
  bit_extract,
}
use aru_xi.Isa.{Opcode, is_op, op_syscall, op_error}
use aru_xi.Cpu.Mem.{Memory, is_none}
use aru_xi.Cpu.State.{Core, is_kernel}
use aru_xi.Cpu.Hardware.{imem, regfile, commit_cstr, reg_read}
use aru_xi.Cpu.Pipeline.{
  exception, abort, fetch, excpn_abort_access, excpn_abort_instr, excpn_abort_priv,
}
use aru_xi.Cpu.Pipeline.Decode.{
  Regs, decode_sys, decode_operands, check_privilege, with_opcode, sub_opcode,
}
use aru_xi.Cpu.Isolation.{
  Ensures, returns, Ensures-bind, pending, InUser, Trapped, NotCall, Fetched, Unprivileged, Decoded,
  exception-Trapped,
}

module _ (m : Memory) where
  abort-Fetched :
      (n : ℕ) (core : Core) → InUser m core → NotCall core → Ensures (Fetched m) (abort n core)
  unfolding abort
  abort-Fetched n core u op = rw u.user (
      returns {core = exception n core}
        (inr (exception-Trapped m n core u, unfold exception in op)))

  pub fetch-Fetched :
      (core : Core) → InUser m core → NotCall core → Ensures (Fetched m) (fetch core)
  unfolding fetch
  fetch-Fetched core u op = rw u.running (elim (Bool-cases (is_none (imem core core.ir 0).1)) [
    | inl fine ↦ rw fine (returns (inl u))
    | inr bad ↦ rw bad (abort-Fetched excpn_abort_access _ u op)
  ])

  pub reg_read-InUser : (core : Core) → InUser m core → InUser m (reg_read core)
  unfolding reg_read
  reg_read-InUser core u = u

  pub reg_read-Trapped : (core : Core) → Trapped m core → Trapped m (reg_read core)
  unfolding reg_read
  reg_read-Trapped core t = t

  reg_read-opcode : (core : Core) → (reg_read core).opcode ≡ core.opcode
  unfolding reg_read
  reg_read-opcode core = refl

  pub commit_cstr-settled : (core : Core) → pending core ≡ false → commit_cstr core ≡ core
  unfolding commit_cstr
  commit_cstr-settled core e = rw e

  pub regfile-read : (core : Core) → pending core ≡ false → regfile false core ≡ reg_read core
  unfolding regfile
  regfile-read core e = rw (commit_cstr-settled core e)

  pub decode_operands-Decoded :
      (junk : Regs) (core : Core)
      → (InUser m core × Unprivileged core) ⊎ (Trapped m core × NotCall core)
      → Decoded m (decode_operands junk core)
  unfolding decode_operands
  decode_operands-Decoded junk core (inl (u, p)) =
      rw (regfile-read _ u.settled) (inl (reg_read-InUser _ u, rw (reg_read-opcode _) p))
  decode_operands-Decoded junk core (inr (t, c)) =
      rw (regfile-read _ t.settled) (inr (reg_read-Trapped _ t, rw (reg_read-opcode _) c))

  abbrev pub Ready : Core → Type 0
  Ready c = (InUser m c × Unprivileged c) ⊎ (Trapped m c × NotCall c)

  with_opcode-Trapped :
      (op : Opcode) (core : Core)
      → Trapped m core
      → is_op op op_syscall ≡ false
      → Trapped m (with_opcode op core) × NotCall (with_opcode op core)
  unfolding with_opcode
  with_opcode-Trapped op core t e = (t, e)

  with_opcode-InUser :
      (op : Opcode) (core : Core)
      → InUser m core
      → is_op op op_syscall ≡ true
      → InUser m (with_opcode op core) × Unprivileged (with_opcode op core)
  unfolding with_opcode
  with_opcode-InUser op core u e = (u, ground arith)

  pub check_privilege-Ready :
      (sub : Opcode) (core : Core)
      → (InUser m core) ⊎ (Trapped m core × (is_op sub op_syscall ≡ false))
      → Ready (with_opcode sub (check_privilege sub core))
  unfolding check_privilege
  check_privilege-Ready sub core (inl u) = elim (Bool-cases (is_op sub op_syscall)) [
    | inl call ↦
        subst (λ b. Ready (with_opcode sub (if b || is_kernel core.cstr then core else trap)))
          (sym call) (inl (with_opcode-InUser sub core u call))
    | inr other ↦
        subst (λ b. Ready (with_opcode sub (if b || is_kernel core.cstr then core else trap)))
          (sym other)
          (subst (λ b. Ready (with_opcode sub (if b then core else trap))) (sym u.user)
            (inr
              (with_opcode-Trapped sub trap (exception-Trapped m excpn_abort_priv core u) other)))
  ]
    where
      trap : Core
      trap = exception excpn_abort_priv core
  check_privilege-Ready sub core (inr (t, other)) =
      rw (t.kernel, other) (inr (with_opcode-Trapped sub core t other))

  pub abort-Trapped : (n : ℕ) (core : Core) → InUser m core → Ensures (Trapped m) (abort n core)
  unfolding abort
  abort-Trapped n core u = rw u.user (returns (exception-Trapped m n core u))

  pub decode_sys-Ready : (core : Core) → InUser m core → Ensures Ready (decode_sys core)
  unfolding decode_sys
  decode_sys-Ready core u =
      let sub = sub_opcode (bit_extract core.instrbits 19 5) in
      elim (Bool-cases (is_op sub op_error)) [
        | inl bad ↦ rw bad (
            Ensures-bind (abort-Trapped excpn_abort_instr _ u)
              (λ c t. returns (check_privilege-Ready sub c (inr (t, ground arith)))))
        | inr known ↦ rw known (returns (check_privilege-Ready sub _ (inl u)))
      ]
