-- ===== src/Cpu/State.antt =====
-- The state of the core, headers/emulator/cpu/core.h, with the contexts of an instruction,
-- headers/emulator/cpu/instr.h, and the parts of the CPU process that the core works on.
--
-- All numbers are bit patterns: 32 bits, or 16 for `CSTR` and `ESR`; `imm` is the pattern of an
-- `int32_t`. The floating point and the vector registers are set to 0 and never used again, and are
-- left out.
use aru_xi.Base.{
  ℕ, ◌+◌, ◌-◌, ◌*◌, ◌^◌, bit_and, bit_or, Bool, true, false, ◌==◌, if◌then◌else◌, Option,
}
use aru_xi.Base.Bits.{digit}
use aru_xi.Isa.{Opcode, AluOp, IType}
use aru_xi.Cpu.Mem.{Memory}
use aru_xi.Shared.Signals.{SigMem}

pub data Status : Type 0 where
  stat_hlt stat_running stat_excp stat_io : Status

abbrev pub is_excp : Status → Bool
is_excp stat_excp = true
is_excp _ = false

-- `core_t` with its `InstrCtx` in line, the static `setCSTR` of `regfile`, and the globals
-- `emMem`, `userPS` and `sigMem`. `gpr` is `GPR[31]`: its values from 31 on stand for what lies
-- behind the array.
pub record Core : Type 0 where
  pub gpr : ℕ → ℕ
  pub ir : ℕ
  pub sp : ℕ
  pub cstr : ℕ
  pub esr : ℕ
  pub status : Status
  pub instrbits : ℕ
  pub opcode : Opcode
  pub itype : IType
  pub imm : ℕ
  pub rd : ℕ
  pub rs : ℕ
  pub rr : ℕ
  pub aluop : AluOp
  pub vala : ℕ
  pub valb : ℕ
  pub valex : ℕ
  pub set_cc : Bool
  pub mem_size : ℕ
  pub regwrite : Bool
  pub memwrite : Bool
  pub alu_vala : ℕ
  pub alu_valb : ℕ
  pub alures : ℕ
  pub cond : Bool
  pub valmem : ℕ
  pub write : Bool
  pub valout : ℕ
  pub set_cstr : ℕ
  pub memory : Memory
  pub user_ps : Option ℕ
  pub sig_mem : SigMem

-- The outcome of a stage: `killed` is the end of the process by the signal that `fault` raises,
-- `undefined` an operation that C leaves undefined (a division by 0, a shift by 32 or more, a read
-- through a null pointer).
pub data Outcome (A : Type 0) : Type 0 where
  next : A → Outcome A
  killed : Core → Outcome A
  undefined : Outcome A

infixl 5 ◌>>=◌
abbrev pub ◌>>=◌ : {A B : Type 0} → Outcome A → (A → Outcome B) → Outcome B
next a >>= f = f a
killed c >>= f = killed c
undefined >>= f = undefined

-- `GET_C`, `GET_O`, `GET_N`, `GET_Z` and `GET_PRIV`.
abbrev pub get_c : ℕ → ℕ
get_c flags = digit flags 3

abbrev pub get_o : ℕ → ℕ
get_o flags = digit flags 2

abbrev pub get_n : ℕ → ℕ
get_n flags = digit flags 1

abbrev pub get_z : ℕ → ℕ
get_z flags = digit flags 0

abbrev pub get_priv : ℕ → ℕ
get_priv flags = digit flags 9

abbrev pub is_kernel : ℕ → Bool
is_kernel cstr = get_priv cstr == 1

unfoldable pub set_priv : ℕ → ℕ
set_priv bits = bit_or bits (2 ^ 9)

unfoldable pub clr_priv : ℕ → ℕ
clr_priv bits = bit_and bits (2 ^ 16 - 1 - 2 ^ 9)

-- `SET_CONDS(C,O,N,Z)` of four truth values.
abbrev pub bit_of : Bool → ℕ
bit_of b = if b then 1 else 0

abbrev pub set_conds : Bool → Bool → Bool → Bool → ℕ
set_conds c o n z = 8 * bit_of c + 4 * bit_of o + 2 * bit_of n + bit_of z
