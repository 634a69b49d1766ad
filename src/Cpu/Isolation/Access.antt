-- ===== src/Cpu/Isolation/Access.antt =====
-- The data accesses of emulator/cpu/hardware.c in user mode.
use aru_xi.Base.{ℕ, ◌^◌, ◌<◌, true, false, ◌==◌, ◌≡◌, refl, ◌∙◌, ap, arith, inl, inr, Bool-cases}
use aru_xi.Cpu.Mem.{
  Memory, is_none, MemErr, mem_write, mem_write_byte, mem_write_short, mem_write_int,
  write_start_check,
}
use aru_xi.Cpu.Mem.Write.{writable, mem_write_confined}
use aru_xi.Cpu.State.{Core}
use aru_xi.Cpu.Hardware.{dmem_write, sized_write, with_memory}
use aru_xi.Cpu.Isolation.{InUser}

start-word : (addr : ℕ) → is_none (write_start_check false addr) ≡ true → addr < 2 ^ 32
unfolding write_start_check
start-word addr h = ground arith

stopped_write :
    (m : Memory) (addr word width : ℕ)
    → is_none (write_start_check false addr) ≡ false
    → (mem_write false m addr word width).0 ≡ m
unfolding mem_write
stopped_write m addr word width h = rw h

user_write_confined :
    (m : Memory) (addr word width a : ℕ)
    → writable false a ≡ false
    → (mem_write false m addr word width).0 a ≡ m a
user_write_confined m addr word width a g =
    elim (Bool-cases (is_none (write_start_check false addr))) [
      | inr stop ↦ ap (λ n. n a) (stopped_write m addr word width stop)
      | inl go ↦ mem_write_confined false m addr word width a (start-word addr go) g
    ]

sized_write_confined :
    (size : ℕ) (m : Memory) (addr word a : ℕ)
    → writable false a ≡ false
    → (sized_write false size m addr word).0 a ≡ m a
unfolding sized_write mem_write_byte mem_write_short mem_write_int
sized_write_confined size m addr word a g = elim (Bool-cases (size == 1)) [
  | inl e ↦ rw e (user_write_confined m addr _ 1 a g)
  | inr e ↦ elim (Bool-cases (size == 2)) [
    | inl f ↦ rw (e, f) (user_write_confined m addr _ 2 a g)
    | inr f ↦ rw (e, f) (user_write_confined m addr word 4 a g)
  ]
]

pub dmem_write-opcode :
    (core : Core) (addr word : ℕ) (err : MemErr)
    → (dmem_write core addr word err).0.opcode ≡ core.opcode
unfolding dmem_write with_memory
dmem_write-opcode core addr word err = elim (Bool-cases (core.mem_size == 0)) [
  | inl e ↦ rw e refl
  | inr e ↦ rw e refl
]

module _ (m : Memory) where
  with_memory-InUser :
      (n : Memory) (core : Core)
      → InUser m core
      → ((a : ℕ) → writable false a ≡ false → n a ≡ core.memory a)
      → InUser m (with_memory n core)
  unfolding with_memory
  with_memory-InUser n core u same = record {
    user = u.user;
    settled = u.settled;
    running = u.running;
    confined = λ a w. same a w ∙ u.confined a w;
  }

  pub dmem_write-InUser :
      (core : Core) (addr word : ℕ) (err : MemErr)
      → InUser m core
      → InUser m (dmem_write core addr word err).0
  unfolding dmem_write
  dmem_write-InUser core addr word err u = elim (Bool-cases (core.mem_size == 0)) [
    | inl e ↦ rw e u
    | inr e ↦
        rw (e, u.user)
          (with_memory-InUser _ core u
            (λ a w. sized_write_confined core.mem_size core.memory addr word a w))
  ]
