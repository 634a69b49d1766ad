-- ===== src/Cpu/Pipeline/Execute/Return.antt =====
-- The way back from an exception in emulator/cpu/core.c.
use aru_xi.Base.{
  ℕ, ◌+◌, ◌^◌, ◌<◌, ◌≤◌, true, false, ◌≡◌, refl, ◌∙◌, ap, arith, some, Bool-cases, inl, inr,
}
use aru_xi.Isa.{IType, is_op, is_type, op_eret, bi_type, bu_type, s_type}
use aru_xi.Cpu.Mem.{Memory, word_at, store_word, kern_data}
use aru_xi.Cpu.Mem.Read.{word_at-store_word}
use aru_xi.Cpu.State.{Core, next}
use aru_xi.Cpu.Pipeline.{exception, ps_ir}
use aru_xi.Cpu.Pipeline.Execute.{resumed, return_from_exception, jump, take_branch, next_ir}

word_at-same :
    (m n : Memory) (p : ℕ) → ((a : ℕ) → p ≤ a → a < p + 4 → m a ≡ n a) → word_at m p ≡ word_at n p
unfolding word_at
word_at-same m n p same = rw (
  same p (omega arith) (omega arith),
  same (p + 1) (omega arith) (omega arith),
  same (p + 2) (omega arith) (omega arith),
  same (p + 3) (omega arith) (omega arith),
)

-- Whatever the condition says, an ERET of the type that `decode` gives it goes to the saved place.
return_to :
    (later : Core) (ps : ℕ)
    → later.itype ≡ s_type
    → later.user_ps ≡ some ps
    → is_op later.opcode op_eret ≡ true
    → next_ir later ≡ next (record later { ir = word_at later.memory (ps + ps_ir) })
unfolding next_ir return_from_exception resumed take_branch jump
return_to later ps type has eret =
    let bi : is_type later.itype bi_type ≡ false = ap (λ (t : IType). is_type t bi_type) type in
    let bu : is_type later.itype bu_type ≡ false = ap (λ (t : IType). is_type t bu_type) type in
    elim (Bool-cases later.cond) [
      | inl taken ↦ rw (bi, bu, taken, eret, has) refl
      | inr passed ↦ rw (bi, bu, passed, eret, has) refl
    ]

-- ERET goes on where the exception was raised: when the process state and the four bytes of its
-- `IR` are as `exception` left them, `nextIR` on an ERET of the system type, whatever the condition
-- of the context, puts back the `IR` that `exception` saved, and changes nothing else.
pub next_ir-exception :
    (excp_num : ℕ) (core later : Core)
    → core.ir < 2 ^ 32
    → later.user_ps ≡ (exception excp_num core).user_ps
    → ((a : ℕ)
        → word_at core.memory (kern_data + 4) + ps_ir ≤ a
        → a < word_at core.memory (kern_data + 4) + ps_ir + 4
        → later.memory a ≡ (exception excp_num core).memory a)
    → later.itype ≡ s_type
    → is_op later.opcode op_eret ≡ true
    → next_ir later ≡ next (record later { ir = core.ir })
unfolding exception
next_ir-exception excp_num core later lt has kept type eret =
    let ps = word_at core.memory (kern_data + 4) in
    let back : word_at later.memory (ps + ps_ir) ≡ core.ir =
      word_at-same later.memory (store_word core.memory (ps + ps_ir) core.ir) (ps + ps_ir) kept
      ∙ word_at-store_word core.memory (ps + ps_ir) core.ir lt in
    return_to later ps type has eret ∙ ap (λ (ir : ℕ). next (record later { ir = ir })) back
