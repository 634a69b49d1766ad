-- ===== src/Cpu/Mem/Write.antt =====
-- Where the checked writes of emulator/cpu/mem.c reach.
use aru_xi.Base.{
  ℕ, zero, suc, ◌+◌, ◌-◌, ◌^◌, ◌<◌, Bool, true, false, ◌&&◌, ◌||◌, ltb, leb, ◌≡◌, ◌≢◌, refl, ◌∙◌,
  arith, u32, Bool-cases, inl, inr,
}
use aru_xi.Cpu.Mem.{
  Memory, is_none, store, write_next_check, write_start_check, write_loop, mem_write, byte_of,
  kern_data, kern_text, kern_heap, user_bss, user_const, user_data, user_text, user_heap,
  user_heap_limit, user_stack, user_stack_limit,
}

-- The addresses that may be written: in kernel mode all from the kernel's data on except its text,
-- in user mode bss, data, heap and stack.
unfoldable pub writable : Bool → ℕ → Bool
writable true a = (leb kern_data a && ltb a kern_text) || leb kern_heap a
writable false a =
    (leb user_bss a && ltb a user_const)
    || (leb user_data a && ltb a user_text)
    || (leb user_heap a && leb a user_heap_limit)
    || (leb user_stack a && leb a user_stack_limit)

start-writable :
    (kernel : Bool) (a : ℕ) → is_none (write_start_check kernel a) ≡ true → writable kernel a ≡ true
unfolding write_start_check writable
start-writable true a h = ground arith
start-writable false a h = ground arith

-- A write that goes on to the next address does not leave its section.
next-writable :
    (kernel : Bool) (p : ℕ)
    → p < 2 ^ 32
    → writable kernel p ≡ true
    → is_none (write_next_check kernel (u32 (p + 1))) ≡ true
    → writable kernel (u32 (p + 1)) ≡ true
unfolding write_next_check writable
next-writable true p lt h c = ground arith
next-writable false p lt h c = ground arith

store-ne : (m : Memory) (p v a : ℕ) → a ≢ p → store m p v a ≡ m a
unfolding store
store-ne m p v a ne = ground arith

not_writable-ne :
    (kernel : Bool) (p a : ℕ) → writable kernel p ≡ true → writable kernel a ≡ false → a ≢ p
not_writable-ne kernel p a h g e = cc

-- The loop of `_memWrite` leaves alone what may not be written, when it starts just above an
-- address that may be.
write_loop_confined :
    (kernel : Bool) (addr word left i a : ℕ) (m : Memory)
    → writable kernel (u32 (addr + i)) ≡ true
    → writable kernel a ≡ false
    → (write_loop kernel addr word left (suc i) m).0 a ≡ m a
unfolding write_loop
write_loop_confined kernel addr word zero i a m h g = refl
write_loop_confined kernel addr word (suc left) i a m h g =
    elim (Bool-cases (is_none (write_next_check kernel (u32 (addr + suc i))))) [
      | inr stop ↦ rw stop
      | inl go ↦
          let e : u32 (u32 (addr + i) + 1) ≡ u32 (addr + suc i) = omega arith in
          let here : writable kernel (u32 (addr + suc i)) ≡ true =
            rw e at (next-writable kernel (u32 (addr + i)) (omega arith) h (rw e go)) in
          rw go (
            write_loop_confined kernel addr word left (suc i) a
              (store m (u32 (addr + suc i)) (byte_of word (suc i))) here g
            ∙ store-ne m (u32 (addr + suc i)) (byte_of word (suc i)) a
                (not_writable-ne kernel _ a here g))
    ]

-- `_memWrite` changes no byte outside of the sections that the mode may write, whatever the
-- address, the width and the outcome: user code cannot change code, constants, the kernel or the
-- guards between the sections, and the kernel cannot change its text or anything below its data.
pub mem_write_confined :
    (kernel : Bool) (m : Memory) (addr word width a : ℕ)
    → addr < 2 ^ 32
    → writable kernel a ≡ false
    → (mem_write kernel m addr word width).0 a ≡ m a
unfolding mem_write
mem_write_confined kernel m addr word width a lt g =
    elim (Bool-cases (is_none (write_start_check kernel addr))) [
      | inr stop ↦ rw stop
      | inl go ↦
          let e : u32 (addr + 0) ≡ addr = omega arith in
          let here : writable kernel addr ≡ true = start-writable kernel addr go in
          rw go (
            write_loop_confined kernel addr word (width - 1) 0 a (store m addr (byte_of word 0))
              (rw e here) g
            ∙ store-ne m addr (byte_of word 0) a (not_writable-ne kernel _ a here g))
    ]

write_loop_frame :
    (kernel : Bool) (addr word left i a : ℕ) (m : Memory)
    → ((j : ℕ) → j < i + left → a ≢ u32 (addr + j))
    → (write_loop kernel addr word left i m).0 a ≡ m a
unfolding write_loop
write_loop_frame kernel addr word zero i a m out = refl
write_loop_frame kernel addr word (suc left) i a m out =
    elim (Bool-cases (is_none (write_next_check kernel (u32 (addr + i))))) [
      | inr stop ↦ rw stop
      | inl go ↦ rw go (
          write_loop_frame kernel addr word left (suc i) a
            (store m (u32 (addr + i)) (byte_of word i)) (λ j h. out j (omega arith))
          ∙ store-ne m (u32 (addr + i)) (byte_of word i) a (out i (omega arith)))
    ]

-- `_memWrite` changes at most the `width` bytes from `addr` on (modulo 2 ^ 32), and the write that
-- is stopped at a section's end too: it may have stored some of them.
pub mem_write_frame :
    (kernel : Bool) (m : Memory) (addr word width a : ℕ)
    → addr < 2 ^ 32
    → 0 < width
    → ((j : ℕ) → j < width → a ≢ u32 (addr + j))
    → (mem_write kernel m addr word width).0 a ≡ m a
unfolding mem_write
mem_write_frame kernel m addr word width a lt pos out =
    elim (Bool-cases (is_none (write_start_check kernel addr))) [
      | inr stop ↦ rw stop
      | inl go ↦
          let e : u32 (addr + 0) ≡ addr = omega arith in
          rw go (
            write_loop_frame kernel addr word (width - 1) 1 a (store m addr (byte_of word 0))
              (λ j h. out j (omega arith))
            ∙ store-ne m addr (byte_of word 0) a (rw e at (out 0 pos)))
    ]
