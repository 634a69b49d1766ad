-- ===== src/Cpu/Isolation/Execution.antt =====
-- The stages `decode` and `execute` of emulator/cpu/core.c, started in user mode.
use aru_xi.Base.{
  ℕ, ◌/◌, Bool, true, false, ◌==◌, if◌then◌else◌, ◌≡◌, refl, ◌∙◌, ap, arith, Option, none, some,
  ◌⊎◌, inl, inr, Bool-cases, ◌>>>◌,
}
use aru_xi.Base.Bits.{digit}
use aru_xi.Isa.{
  Opcode, is_op, is_type, bi_type, bu_type, op_call, op_hlt, op_syscall, op_eret, op_mvcstr, op_sys,
}
use aru_xi.Cpu.Mem.{Memory}
use aru_xi.Cpu.State.{Core, Status, stat_io, stat_hlt, next, ◌>>=◌, is_kernel, is_excp}
use aru_xi.Cpu.Hardware.{Flags, put_result, computed, alu, put_flags}
use aru_xi.Cpu.Hardware.Alu.{put_flags_lem}
use aru_xi.Cpu.Pipeline.Decode.{decode_sys}
use aru_xi.Cpu.Pipeline.Execute.{
  execute, next_ir, jump, link, take_branch, alu_operands, finish_execute, return_from_exception,
}
use aru_xi.Cpu.Isolation.{
  Ensures, returns, stops, Ensures-bind, Ensures-map, InUser, Trapped, NotCall, Unprivileged,
  Decoded, Executed, exception-Trapped,
}
use aru_xi.Cpu.Isolation.Stages.{decode_sys-Ready}

-- What the last part of a cycle keeps: the mode, what is pending, the status, memory and opcode.
abbrev pub Kept : Type 0
Kept = Bool × ℕ × Status × Memory × Opcode

abbrev pub kept : Core → Kept
kept core = (is_kernel core.cstr, core.set_cstr, core.status, core.memory, core.opcode)

pub record Same (core c : Core) : Type 0 where
  pub same : kept c ≡ kept core

pub Same-refl : (core : Core) → Same core core
Same-refl core = record { same = refl }

pub Same-trans : {a b c : Core} → Same a b → Same b c → Same a c
Same-trans p q = record { same = q.same ∙ p.same }

pub InUser-Same : {m : Memory} {a b : Core} → Same a b → InUser m a → InUser m b
InUser-Same s u = record {
  user = ap (λ (k : Kept). k.0) s.same ∙ u.user;
  settled = ap (λ (k : Kept). k.1 >>> 15 == 1) s.same ∙ u.settled;
  running = ap (λ (k : Kept). is_excp k.2) s.same ∙ u.running;
  confined = λ a w. ap (λ (k : Kept). k.3 a) s.same ∙ u.confined a w;
}

pub opcode-Same : {a b : Core} → Same a b → (op : Opcode) → is_op b.opcode op ≡ is_op a.opcode op
opcode-Same s op = ap (λ (k : Kept). is_op k.4 op) s.same

jump-Same : (ir : ℕ) (core : Core) → Same core (jump ir core)
unfolding jump
jump-Same ir core = record { same = refl }

link-Same : (core : Core) → Same core (link core)
unfolding link
link-Same core = elim (Bool-cases (is_op core.opcode op_call)) [
  | inl e ↦ record { same = rw e refl }
  | inr e ↦ rw e (Same-refl core)
]

branch-Same : (cond : Bool) (core c : Core) → Same core c → Same core (if cond then c else core)
branch-Same true core c s = s
branch-Same false core c s = Same-refl core

take_branch-Same : (core : Core) → Same core (take_branch core)
unfolding take_branch
take_branch-Same core = branch-Same core.cond core _ (jump-Same _ core)

next_ir-Same :
    (core : Core) → is_op core.opcode op_eret ≡ false → Ensures (Same core) (next_ir core)
unfolding next_ir return_from_exception
next_ir-Same core e = elim (Bool-cases (is_type core.itype bi_type)) [
  | inl t ↦ rw t (returns (Same-trans (link-Same core) (jump-Same _ (link core))))
  | inr t ↦ elim (Bool-cases (is_type core.itype bu_type)) [
    | inl b ↦ rw (t, b) (returns (jump-Same _ core))
    | inr b ↦ let s = take_branch-Same core in rw (t, b, opcode-Same s op_eret, e) (returns s)
  ]
]

put_flags-is_kernel : (cstr : ℕ) (f : Flags) → is_kernel (put_flags cstr f) ≡ is_kernel cstr
put_flags-is_kernel cstr f =
    let same : put_flags cstr f / 16 ≡ cstr / 16 = (put_flags_lem cstr f).4 in ground arith

mode-Same :
    (cc : Bool) (cstr : ℕ) (f : Flags)
    → is_kernel (if cc then put_flags cstr f else cstr) ≡ is_kernel cstr
mode-Same true cstr f = put_flags-is_kernel cstr f
mode-Same false cstr f = refl

put_result-Same : (core : Core) (res : ℕ) → Same core (put_result core res)
unfolding put_result
put_result-Same core res = record {
  same =
      ap (λ (b : Bool). (b, core.set_cstr, core.status, core.memory, core.opcode))
        (mode-Same core.set_cc core.cstr _);
}

computed-Same : (core : Core) (res : Option ℕ) → Ensures (Same core) (computed core res)
unfolding computed
computed-Same core none = stops
computed-Same core (some res) = returns (put_result-Same core res)

alu-Same : (core : Core) → Ensures (Same core) (alu core)
unfolding alu
alu-Same core = computed-Same core _

alu_operands-Same : (core : Core) → Same core (alu_operands core)
unfolding alu_operands
alu_operands-Same core = record { same = refl }

halted-running :
    (hlt io : Bool) (status : Status)
    → is_excp status ≡ false
    → is_excp (if hlt then (if io then stat_io else stat_hlt) else status) ≡ false
halted-running true true s e = refl
halted-running true false s e = refl
halted-running false io s e = e

finish_execute-InUser :
    {m : Memory} (core : Core)
    → InUser m core
    → Unprivileged core
    → InUser m (finish_execute core) × Unprivileged (finish_execute core)
unfolding finish_execute
finish_execute-InUser core u p = (
  record {
    user = u.user;
    settled = u.settled;
    running =
        halted-running (is_op core.opcode op_hlt) (digit core.cstr 13 == 1) core.status u.running;
    confined = u.confined;
  },
  p,
)

pub Unprivileged-Same : {a b : Core} → Same a b → Unprivileged a → Unprivileged b
Unprivileged-Same s p = (opcode-Same s op_eret ∙ p.0, opcode-Same s op_mvcstr ∙ p.1)

module _ (m : Memory) where
  run-Executed :
      (core : Core)
      → InUser m core
      → Unprivileged core
      → Ensures
          (λ c. InUser m c × Unprivileged c)
          (next_ir (alu_operands core) >>= alu >>= λ computed. next (finish_execute computed))
  run-Executed core u p =
      let s = alu_operands-Same core in
      let e = (Unprivileged-Same s p).0 in
      Ensures-bind
        (Ensures-bind (next_ir-Same (alu_operands core) e)
          (λ c t. Ensures-map (λ d r. Same-trans (Same-trans s t) r) (alu-Same c)))
        (λ c t. returns (finish_execute-InUser c (InUser-Same t u) (Unprivileged-Same t p)))

  pub execute-Executed : (core : Core) → Decoded m core → Ensures (Executed m) (execute core)
  unfolding execute
  execute-Executed core (inr (t, e)) = rw (e, t.excepted) (returns (inr t))
  execute-Executed core (inl (u, p)) = elim (Bool-cases (is_op core.opcode op_syscall)) [
    | inl call ↦
        let t = exception-Trapped m (core.gpr 0) core u in rw call (rw t.excepted (returns (inr t)))
    | inr other ↦ rw (other, u.running) (Ensures-map (λ c r. inl r) (run-Executed core u p))
  ]

  pub coded-InUser :
      (code : Opcode) (core : Core) → InUser m core → InUser m (record core { opcode = code })
  coded-InUser code core u = u

  pub system-Ready :
      (code : Opcode) (core : Core)
      → InUser m core
      → Unprivileged core
      → Ensures
          (λ c. (InUser m c × Unprivileged c) ⊎ (Trapped m c × NotCall c))
          (if is_op code op_sys then decode_sys core else next core)
  system-Ready code core u p = elim (Bool-cases (is_op code op_sys)) [
    | inl s ↦ rw s (decode_sys-Ready m core u)
    | inr s ↦ rw s (returns (inl (u, p)))
  ]
