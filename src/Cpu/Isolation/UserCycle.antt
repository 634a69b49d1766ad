-- ===== src/Cpu/Isolation/UserCycle.antt =====
-- A whole cycle of `runCore`, started in user mode.
use aru_xi.Base.{
  ℕ, ◌+◌, ◌-◌, ◌^◌, ◌%◌, Bool, true, false, ◌≡◌, refl, arith, Option, none, some, inl, inr, u16,
  Bool-cases, ◌>>>◌, bit_and,
}
use aru_xi.Base.Bits.{digit, digit-bit_and}
use aru_xi.Isa.{Opcode, is_op, op_eret, op_error, op_sys, imap}
use aru_xi.Isa.Table.{imap-Unprivileged}
use aru_xi.Cpu.Mem.{Memory, word_at}
use aru_xi.Cpu.Mem.Write.{writable}
use aru_xi.Cpu.State.{Core, is_kernel, is_excp, clr_priv}
use aru_xi.Cpu.Pipeline.{exception, abort, excpn_abort_instr, ps_cstr}
use aru_xi.Cpu.Pipeline.Decode.{Regs, prepare, with_opcode, decode}
use aru_xi.Cpu.Pipeline.Cycle.{restored, restore_cstr, cycle}
use aru_xi.Cpu.Isolation.{
  Outside, Ensures, returns, stops, Ensures-bind, InUser, Trapped, NotCall, Fetched, Decoded,
  Executed, exception-Trapped,
}
use aru_xi.Cpu.Isolation.Stages.{decode_operands-Decoded, fetch-Fetched}
use aru_xi.Cpu.Isolation.WriteBack.{Trapped-Stay, memory-Executed}
use aru_xi.Cpu.Isolation.Execution.{
  Same, InUser-Same, system-Ready, Unprivileged-Same, execute-Executed,
}

not_both : (b : Bool) (P : Type 0) → b ≡ false → b ≡ true → P
not_both true P e f = ground arith
not_both false P e f = ground arith

clr_priv-is_kernel : (bits : ℕ) → is_kernel (clr_priv bits) ≡ false
unfolding clr_priv
clr_priv-is_kernel bits =
    let gone : digit (bit_and bits (2 ^ 16 - 1 - 2 ^ 9)) 9 ≡ 0 =
      omega (arith, digit-bit_and 9 bits (2 ^ 16 - 1 - 2 ^ 9)) in
    rw gone refl

module _ (m : Memory) where
  with_opcode-Same-InUser :
      (code : Opcode) (core : Core) → InUser m core → InUser m (with_opcode code core)
  unfolding with_opcode
  with_opcode-Same-InUser code core u = u

  prepare-Same : (code : Opcode) (core : Core) → Same core (prepare code core)
  unfolding prepare
  prepare-Same code core = record { same = refl }

  prepare-ir : (code : Opcode) (core : Core) → (prepare code core).ir ≡ core.ir
  unfolding prepare
  prepare-ir code core = refl

  with_opcode-opcode : (code : Opcode) (core : Core) → (with_opcode code core).opcode ≡ code
  unfolding with_opcode
  with_opcode-opcode code core = refl

  trapped_opcode :
      (code : Opcode) (core : Core)
      → (prepare code (exception excpn_abort_instr (with_opcode code core))).opcode ≡ code
  unfolding prepare exception with_opcode
  trapped_opcode code core = refl

  -- An invalid instruction has trapped when its operands are read.
  invalid-Ready :
      (code : Opcode) (core : Core)
      → InUser m core
      → is_op code op_error ≡ true
      → Ensures
          (λ c. Trapped m (prepare code c) × NotCall (prepare code c))
          (abort excpn_abort_instr (with_opcode code core))
  unfolding abort
  invalid-Ready code core u bad =
      let v = with_opcode-Same-InUser code core u in
      let t = exception-Trapped m excpn_abort_instr (with_opcode code core) v in
      rw v.user (
        returns (
          Trapped-Stay (prepare-Same code _, prepare-ir code _) t,
          rw (trapped_opcode code core) (ground arith),
        ))

  decode-Decoded :
      (junk : Regs) (core : Core) → Fetched m core → Ensures (Decoded m) (decode junk core)
  unfolding decode
  decode-Decoded junk core (inr (t, e)) = rw t.excepted (returns (inr (t, e)))
  decode-Decoded junk core (inl u) =
      let code = imap ((core.instrbits >>> 24) % 2 ^ 8) in
      let p = imap-Unprivileged ((core.instrbits >>> 24) % 2 ^ 8) in
      rw u.running (elim (Bool-cases (is_op code op_error)) [
        | inl bad ↦
            let plain : is_op code op_sys ≡ false = ground arith in
            rw (bad, plain)
              (Ensures-bind (invalid-Ready code core u bad)
                (λ c t. returns (decode_operands-Decoded m junk _ (inr t))))
        | inr known ↦
            let v = with_opcode-Same-InUser code core u in
            let s = prepare-Same code (with_opcode code core) in
            rw known (
              Ensures-bind
                (system-Ready m code _ (InUser-Same s v)
                  (Unprivileged-Same s (rw (with_opcode-opcode code core) p)))
                (λ c t. returns (decode_operands-Decoded m junk c t)))
      ])

  -- What one cycle of user code may leave behind.
  pub record Contained (core : Core) : Type 0 where
    pub contained : (a : ℕ) → writable false a ≡ false → Outside m a → core.memory a ≡ m a
    pub entered : is_kernel core.cstr ≡ true → (core.ir ≡ 0x00040000) × (is_excp core.status ≡ true)

  restored-Contained :
      (core : Core) (ps : Option ℕ) → Trapped m core → Ensures Contained (restored core ps)
  unfolding restored
  restored-Contained core none t = stops
  restored-Contained core (some ps) t = returns (record {
    contained = t.saved;
    entered = λ k.
        not_both (is_kernel (clr_priv (u16 (word_at core.memory (ps + ps_cstr))))) _
          (clr_priv-is_kernel _) k;
  })

  restore_cstr-Contained : (core : Core) → Executed m core → Ensures Contained (restore_cstr core)
  unfolding restore_cstr
  restore_cstr-Contained core (inl (u, p)) = rw p.0 (
      returns (record {
        contained = λ a w out. u.confined a w;
        entered = λ k. not_both (is_kernel core.cstr) _ u.user k;
      }))
  restore_cstr-Contained core (inr t) = elim (Bool-cases (is_op core.opcode op_eret)) [
    | inl e ↦ rw e (restored-Contained core core.user_ps t)
    | inr e ↦
        rw e (returns (record { contained = t.saved; entered = λ k. (t.at_vector, t.excepted) }))
  ]

  -- A cycle that starts in user mode, with no `CSTR` to commit, a status other than that of an
  -- exception, memory that agrees with `m` where user code may not write, and an opcode other than
  -- SYSCALL left from the cycle before, does not kill the process. If it does not end in an operation
  -- that C leaves undefined, then every byte that user code may not write is as in `m`, but for the
  -- word in which the kernel's process state keeps the program counter; and the core is in kernel
  -- mode behind it only at the exception table, with the status of an exception.
  pub cycle-Contained :
      (junk : Regs) (core : Core)
      → InUser m core
      → NotCall core
      → Ensures Contained (cycle junk core)
  unfolding cycle
  cycle-Contained junk core u op =
      Ensures-bind
        (Ensures-bind
          (Ensures-bind (Ensures-bind (fetch-Fetched m core u op) (decode-Decoded junk))
            (execute-Executed m))
          (memory-Executed m))
        restore_cstr-Contained
