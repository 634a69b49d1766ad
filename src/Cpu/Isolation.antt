-- ===== src/Cpu/Isolation.antt =====
-- What a cycle of user code can do: the stages of emulator/cpu/core.c in user mode.
pub mod Stages
pub mod Execution
pub mod Access
pub mod WriteBack
pub mod UserCycle
pub mod Tests
use aru_xi.Base.{
  ℕ, ◌+◌, ◌-◌, ◌*◌, ◌/◌, ◌^◌, ◌%◌, ◌≤◌, ◌<◌, Bool, true, false, ◌==◌, ◌≡◌, ◌≢◌, refl, ◌∙◌, ap,
  arith, Option, none, some, ◌⊎◌, inl, inr, ◌>>>◌, bit_or, bit_and,
}
use aru_xi.Base.Bits.{digit, digit-bit_or, digit-pow_self}
use aru_xi.Isa.{is_op, op_syscall, op_eret, op_mvcstr}
use aru_xi.Cpu.Mem.{Memory, word_at, store_word, store, kern_data}
use aru_xi.Cpu.Mem.Write.{writable}
use aru_xi.Cpu.State.{
  Core, Status, Outcome, next, killed, undefined, ◌>>=◌, is_kernel, is_excp, set_priv,
}
use aru_xi.Cpu.Pipeline.{exception, abort, ps_ir}

-- A stage that does not kill the process, and whose result has the property.
pub data Ensures (P : Core → Type 0) : Outcome Core → Type 0 where
  returns : {core : Core} → P core → Ensures P (next core)
  stops : Ensures P undefined

pub Ensures-bind :
    {P Q : Core → Type 0} {r : Outcome Core} {f : Core → Outcome Core}
    → Ensures P r
    → ((core : Core) → P core → Ensures Q (f core))
    → Ensures Q (r >>= f)
Ensures-bind (returns p) k = k _ p
Ensures-bind stops k = stops

pub Ensures-map :
    {P Q : Core → Type 0} {r : Outcome Core}
    → ((core : Core) → P core → Q core)
    → Ensures P r
    → Ensures Q r
Ensures-map k (returns p) = returns (k _ p)
Ensures-map k stops = stops

-- MVCSTR has left a `CSTR` that `regfile` is still to commit.
abbrev pub pending : Core → Bool
pending core = core.set_cstr >>> 15 == 1

-- What makes a state one of user code, and memory differs from `m` at most where user code may write.
pub record UserView (m : Memory) (cstr set_cstr : ℕ) (status : Status) (memory : Memory)
    : Type 0 where
  pub user : is_kernel cstr ≡ false
  pub settled : (set_cstr >>> 15 == 1) ≡ false
  pub running : is_excp status ≡ false
  pub confined : (a : ℕ) → writable false a ≡ false → memory a ≡ m a

-- The core runs user code.
abbrev pub InUser : Memory → Core → Type 0
InUser m core = UserView m core.cstr core.set_cstr core.status core.memory

-- The address at which `exception` saves `IR`.
abbrev pub save_slot : Memory → ℕ
save_slot m = word_at m (kern_data + 4) + ps_ir

abbrev pub Outside : Memory → ℕ → Type 0
Outside m a = (a < save_slot m) ⊎ (save_slot m + 4 ≤ a)

-- What makes a state one of the exception table in kernel mode, and memory differs from `m` at most
-- where user code may write and in the saved `IR`.
pub record TrapView (m : Memory) (cstr set_cstr ir : ℕ) (status : Status) (memory : Memory)
    : Type 0 where
  pub excepted : is_excp status ≡ true
  pub at_vector : ir ≡ 0x00040000
  pub kernel : is_kernel cstr ≡ true
  pub settled : (set_cstr >>> 15 == 1) ≡ false
  pub saved : (a : ℕ) → writable false a ≡ false → Outside m a → memory a ≡ m a

-- The core has entered the exception table.
abbrev pub Trapped : Memory → Core → Type 0
Trapped m core = TrapView m core.cstr core.set_cstr core.ir core.status core.memory

pub set_priv-is_kernel : (bits : ℕ) → is_kernel (set_priv bits) ≡ true
unfolding set_priv
set_priv-is_kernel bits =
    let one : digit (bit_or bits (2 ^ 9)) 9 ≡ 1 =
      omega (arith, digit-bit_or 9 bits (2 ^ 9), digit-pow_self 9) in
    rw one

store_word_outside : (m : Memory) (p w a : ℕ) → (a < p) ⊎ (p + 4 ≤ a) → store_word m p w a ≡ m a
unfolding store_word
store_word_outside m p w a out = ground arith

word_at-same :
    (m n : Memory)
    → ((a : ℕ) → writable false a ≡ false → m a ≡ n a)
    → word_at m (kern_data + 4) ≡ word_at n (kern_data + 4)
unfolding word_at writable
word_at-same m n same = rw (
  same (kern_data + 4) refl,
  same (kern_data + 5) refl,
  same (kern_data + 6) refl,
  same (kern_data + 7) refl,
)

module _ (m : Memory) (excp_num : ℕ) (core : Core) (u : InUser m core) where
  exception_saved :
      (a : ℕ) → writable false a ≡ false → Outside m a → (exception excp_num core).memory a ≡ m a
  unfolding exception
  exception_saved a w out =
      let here = word_at-same core.memory m u.confined in
      store_word_outside core.memory (word_at core.memory (kern_data + 4) + ps_ir) core.ir a
        (rw here out)
      ∙ u.confined a w

  pub exception-Trapped : Trapped m (exception excp_num core)
  unfolding exception
  exception-Trapped = record {
    excepted = refl;
    at_vector = refl;
    kernel = set_priv-is_kernel core.cstr;
    settled = u.settled;
    saved = exception_saved;
  }

-- Before the system call is looked at: still in user mode, or trapped by another instruction.
abbrev pub NotCall : Core → Type 0
NotCall core = is_op core.opcode op_syscall ≡ false

abbrev pub Fetched : Memory → Core → Type 0
Fetched m core = InUser m core ⊎ (Trapped m core × NotCall core)

-- In user mode no privileged instruction gets past `decode`.
abbrev pub Unprivileged : Core → Type 0
Unprivileged core = (is_op core.opcode op_eret ≡ false) × (is_op core.opcode op_mvcstr ≡ false)

abbrev pub Decoded : Memory → Core → Type 0
Decoded m core = (InUser m core × Unprivileged core) ⊎ (Trapped m core × NotCall core)

abbrev pub Executed : Memory → Core → Type 0
Executed m core = (InUser m core × Unprivileged core) ⊎ Trapped m core
