-- ===== src/Cpu/Mem/Read.antt =====
-- What the reads of emulator/cpu/mem.c return, alone and after a write.
use aru_xi.Base.{
  ℕ, ◌+◌, ◌^◌, ◌<◌, Bool, true, false, ◌≡◌, refl, ◌∙◌, ap, arith, u32, Bool-cases, inl, inr,
}
use aru_xi.Cpu.Mem.{
  Memory, MemErr, word_at, store_word, is_none, store, byte_of, write_next_check, write_start_check,
  mem_write_int, mem_write_byte, read_start_check, read_next_check, mem_read_byte, mem_read_int,
  sign_extend8,
}

-- The reads that stay within one section of the memory map.
unfoldable pub Readable : Bool → ℕ → Type 0
Readable kernel addr =
    (is_none (read_start_check kernel addr) ≡ true)
    × (is_none (read_next_check kernel addr) ≡ true)
    × (is_none (read_next_check kernel (addr + 1)) ≡ true)
    × (is_none (read_next_check kernel (addr + 2)) ≡ true)
    × (addr + 3 < 2 ^ 32)

Readable-lt : (kernel : Bool) (addr : ℕ) → Readable kernel addr → addr + 3 < 2 ^ 32
unfolding Readable
Readable-lt kernel addr r = r.4

-- `memReadInt` within a section returns the little-endian word and no error.
pub mem_read_int-word_at :
    (kernel : Bool) (m : Memory) (addr : ℕ) (memerr : MemErr)
    → Readable kernel addr
    → ((a : ℕ) → m a < 256)
    → mem_read_int kernel m addr memerr ≡ (word_at m addr, memerr)
unfolding mem_read_int Readable word_at
mem_read_int-word_at kernel m addr memerr r bytes =
    let e0 : u32 (addr + 0) ≡ addr = omega arith in
    let e1 : u32 (addr + 1) ≡ addr + 1 = omega arith in
    let e2 : u32 (addr + 2) ≡ addr + 2 = omega arith in
    let b0 = bytes addr in
    let b1 = bytes (addr + 1) in
    let b2 = bytes (addr + 2) in
    let b3 = bytes (addr + 3) in
    rw (r.0, e2, r.3, e1, r.2, e0, r.1) (ap (λ (v : ℕ). (v, memerr)) (omega arith))

pub word_at-store_word :
    (m : Memory) (addr word : ℕ) → word < 2 ^ 32 → word_at (store_word m addr word) addr ≡ word
unfolding word_at store_word
word_at-store_word m addr word lt = ground arith

store_word-lt :
    (m : Memory) (addr word : ℕ) → ((a : ℕ) → m a < 256) → (a : ℕ) → store_word m addr word a < 256
unfolding store_word
store_word-lt m addr word bytes a = ground (arith, bytes a)

-- An address that a word may be written to starts a section that can be read.
writable-Readable :
    (kernel : Bool) (addr : ℕ)
    → addr < 2 ^ 32
    → is_none (write_start_check kernel addr) ≡ true
    → is_none (write_next_check kernel (u32 (addr + 1))) ≡ true
    → is_none (write_next_check kernel (u32 (addr + 2))) ≡ true
    → is_none (write_next_check kernel (u32 (addr + 3))) ≡ true
    → Readable kernel addr
unfolding Readable read_start_check read_next_check write_start_check write_next_check
writable-Readable true addr lt c0 c1 c2 c3 =
    (ground arith, ground arith, ground arith, ground arith, ground arith)
writable-Readable false addr lt c0 c1 c2 c3 =
    (ground arith, ground arith, ground arith, ground arith, ground arith)

abbrev Stores : Bool → Memory → ℕ → ℕ → Memory × MemErr → Type 0
Stores kernel m addr word r =
    is_none r.1 ≡ true → Readable kernel addr × (r.0 ≡ store_word m addr word)

mem_write_int-Stores :
    (kernel : Bool) (m : Memory) (addr word : ℕ)
    → addr < 2 ^ 32
    → Stores kernel m addr word (mem_write_int kernel m addr word)
unfolding mem_write_int
mem_write_int-Stores kernel m addr word lt =
    elim (Bool-cases (is_none (write_start_check kernel addr))) [
      | inr s0 ↦ rw s0 (λ h. cc)
      | inl c0 ↦ rw c0 (elim (Bool-cases (is_none (write_next_check kernel (u32 (addr + 1))))) [
        | inr s1 ↦ rw s1 (λ h. cc)
        | inl c1 ↦ rw c1 (elim (Bool-cases (is_none (write_next_check kernel (u32 (addr + 2))))) [
          | inr s2 ↦ rw s2 (λ h. cc)
          | inl c2 ↦ rw c2 (elim (Bool-cases (is_none (write_next_check kernel (u32 (addr + 3))))) [
            | inr s3 ↦ rw s3 (λ h. cc)
            | inl c3 ↦ rw c3 (λ h. stored c0 c1 c2 c3)
          ])
        ])
      ])
    ]
  where
    stored :
        is_none (write_start_check kernel addr) ≡ true
        → is_none (write_next_check kernel (u32 (addr + 1))) ≡ true
        → is_none (write_next_check kernel (u32 (addr + 2))) ≡ true
        → is_none (write_next_check kernel (u32 (addr + 3))) ≡ true
        → Readable kernel addr
          × (store
                (store
                  (store (store m addr (byte_of word 0)) (u32 (addr + 1)) (byte_of word 1))
                  (u32 (addr + 2))
                  (byte_of word 2))
                (u32 (addr + 3))
                (byte_of word 3)
              ≡ store_word m addr word)
    stored c0 c1 c2 c3 =
        let r = writable-Readable kernel addr lt c0 c1 c2 c3 in
        let fits = Readable-lt kernel addr r in
        let e1 : u32 (addr + 1) ≡ addr + 1 = omega arith in
        let e2 : u32 (addr + 2) ≡ addr + 2 = omega arith in
        let e3 : u32 (addr + 3) ≡ addr + 3 = omega arith in
        rw (e1, e2, e3) (r, unfold store_word in refl)

-- A word that `memWriteInt` accepts is the word that `memReadInt` then returns at that address, in
-- the same mode and with no error, for every state of the memory.
pub mem_read_int-mem_write_int :
    (kernel : Bool) (m : Memory) (addr word : ℕ) (memerr : MemErr)
    → addr < 2 ^ 32
    → word < 2 ^ 32
    → ((a : ℕ) → m a < 256)
    → is_none (mem_write_int kernel m addr word).1 ≡ true
    → mem_read_int kernel (mem_write_int kernel m addr word).0 addr memerr ≡ (word, memerr)
mem_read_int-mem_write_int kernel m addr word memerr lt fits bytes done =
    let s = mem_write_int-Stores kernel m addr word lt done in
    rw s.1 (
      mem_read_int-word_at kernel (store_word m addr word) addr memerr s.0
        (store_word-lt m addr word bytes)
      ∙ ap (λ (v : ℕ). (v, memerr)) (word_at-store_word m addr word fits))

-- `memReadByte` takes its byte from three addresses up: `_memRead` starts at `addr + 3` whatever
-- the width. So after `memWriteByte` stores a byte at `addr`, `memReadByte` at `addr` returns the
-- byte that stood at `addr + 3` before, sign-extended, for every byte stored.
pub mem_read_byte-mem_write_byte :
    (kernel : Bool) (m : Memory) (addr word : ℕ) (memerr : MemErr)
    → addr < 2 ^ 32
    → is_none (mem_write_byte kernel m addr word).1 ≡ true
    → mem_read_byte kernel (mem_write_byte kernel m addr word).0 addr memerr
      ≡ (sign_extend8 (m (addr + 3)), memerr)
unfolding mem_write_byte mem_read_byte write_start_check read_start_check
mem_read_byte-mem_write_byte true m addr word memerr lt done = ground arith
mem_read_byte-mem_write_byte false m addr word memerr lt done = ground arith
