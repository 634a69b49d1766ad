-- ===== src/Cpu/Isolation/WriteBack.antt =====
-- The stage `memory` of emulator/cpu/core.c with its write-back, started in user mode.
use aru_xi.Base.{
  ℕ, Bool, true, false, ◌==◌, if◌then◌else◌, ◌≡◌, refl, ◌∙◌, ap, ◌⊎◌, inl, inr, Bool-cases, ◌>>>◌,
}
use aru_xi.Isa.{is_op, op_mvcstr}
use aru_xi.Cpu.Mem.{is_none, Memory, MemErr}
use aru_xi.Cpu.State.{Core, next, is_excp}
use aru_xi.Cpu.Hardware.{reg_read, dmem_write, regfile, reg_write, reg_put, special_valout}
use aru_xi.Cpu.Pipeline.{exception, abort, excpn_abort_access}
use aru_xi.Cpu.Pipeline.Cycle.{access, with_alu_valb, write_back, memory}
use aru_xi.Cpu.Isolation.{
  Ensures, returns, Ensures-bind, pending, InUser, Trapped, Unprivileged, Executed,
  exception-Trapped,
}
use aru_xi.Cpu.Isolation.Stages.{commit_cstr-settled}
use aru_xi.Cpu.Isolation.Access.{dmem_write-opcode, dmem_write-InUser}
use aru_xi.Cpu.Isolation.Execution.{Kept, Same, Same-refl, InUser-Same, Unprivileged-Same}

-- A step that also keeps the program counter.
abbrev pub Stay : Core → Core → Type 0
Stay core c = Same core c × (c.ir ≡ core.ir)

Stay-refl : (core : Core) → Stay core core
Stay-refl core = (Same-refl core, refl)

pub Trapped-Stay : {m : Memory} {a b : Core} → Stay a b → Trapped m a → Trapped m b
Trapped-Stay (s, i) t = record {
  excepted = ap (λ (k : Kept). is_excp k.2) s.same ∙ t.excepted;
  at_vector = i ∙ t.at_vector;
  kernel = ap (λ (k : Kept). k.0) s.same ∙ t.kernel;
  settled = ap (λ (k : Kept). k.1 >>> 15 == 1) s.same ∙ t.settled;
  saved = λ a w out. ap (λ (k : Kept). k.3 a) s.same ∙ t.saved a w out;
}

reg_put-Stay : (core : Core) (r v : ℕ) → Stay core (reg_put core r v)
unfolding reg_put
reg_put-Stay core r v = elim (Bool-cases (r == 31)) [
  | inl e ↦ rw e (record { same = refl }, refl)
  | inr e ↦ rw e (record { same = refl }, refl)
]

reg_write-Stay : (core : Core) → is_op core.opcode op_mvcstr ≡ false → Stay core (reg_write core)
unfolding reg_write
reg_write-Stay core p = elim (Bool-cases (core.rd == 30)) [
  | inl e ↦ rw e (Stay-refl core)
  | inr e ↦ rw (e, p) (reg_put-Stay core core.rd (special_valout core))
]

reg_read-Stay : (core : Core) → Stay core (reg_read core)
unfolding reg_read
reg_read-Stay core = (record { same = refl }, refl)

regfile-Stay :
    (write : Bool) (core : Core)
    → pending core ≡ false
    → is_op core.opcode op_mvcstr ≡ false
    → Stay core (regfile write core)
unfolding regfile
regfile-Stay true core e p = rw (commit_cstr-settled core.memory core e) (reg_write-Stay core p)
regfile-Stay false core e p = rw (commit_cstr-settled core.memory core e) (reg_read-Stay core)

write_back-Stay :
    (core : Core)
    → pending core ≡ false
    → is_op core.opcode op_mvcstr ≡ false
    → Stay core (write_back core)
unfolding write_back
write_back-Stay core e p =
    let valued = record core { valout = if core.memwrite then core.alu_valb else core.alures } in
    let (s, i) = regfile-Stay core.regwrite valued e p in (record { same = s.same }, i)

chosen :
    (P : Core → Type 0) (b : Bool) (x y : Core × MemErr) → P x.0 → P y.0 → P (if b then x else y).0
chosen P true x y p q = p
chosen P false x y p q = q

module _ (m : Memory) where
  abbrev Plain : Core → Type 0
  Plain core = InUser m core × Unprivileged core

  with_alu_valb-Plain : (word : ℕ) (core : Core) → Plain core → Plain (with_alu_valb word core)
  unfolding with_alu_valb
  with_alu_valb-Plain word core (u, p) = (u, p)

  dmem_write-Plain :
      (core : Core) (addr word : ℕ) (err : MemErr)
      → Plain core
      → Plain (dmem_write core addr word err).0
  dmem_write-Plain core addr word err (u, p) =
      (dmem_write-InUser m core addr word err u, rw (dmem_write-opcode core addr word err) p)

  access-Plain : (core : Core) → Plain core → Plain (access core).0
  unfolding access
  access-Plain core p =
      chosen Plain core.write _ _ (dmem_write-Plain core _ _ _ p) (with_alu_valb-Plain _ core p)

  -- A fault of a load or store traps, with the opcode of the instruction.
  Checked : Core → Type 0
  Checked core = Plain core ⊎ (Trapped m core × Unprivileged core)

  access-Checked :
      (fine : Bool) (core : Core)
      → Plain core
      → Ensures Checked (if fine then next core else abort excpn_abort_access core)
  unfolding Checked abort
  access-Checked true core p = returns (inl p)
  access-Checked false core (u, p) = rw u.user (
      returns {core = exception excpn_abort_access core}
        (inr (exception-Trapped m excpn_abort_access core u, unfold exception in p)))

  write_back-Executed : (core : Core) → Checked core → Executed m (write_back core)
  unfolding Checked
  write_back-Executed core (inl (u, p)) =
      let (s, i) = write_back-Stay core u.settled p.1 in
      inl (InUser-Same s u, Unprivileged-Same s p)
  write_back-Executed core (inr (t, p)) = inr (Trapped-Stay (write_back-Stay core t.settled p.1) t)

  pub memory-Executed : (core : Core) → Executed m core → Ensures (Executed m) (memory core)
  unfolding memory
  memory-Executed core (inr t) = rw t.excepted (returns (inr t))
  memory-Executed core (inl p) = rw p.0.running (
      Ensures-bind {f = λ c. next (write_back c)}
        (access-Checked (is_none (access core).1) (access core).0 (access-Plain core p))
        (λ c q. returns {core = write_back c} (write_back-Executed c q)))
