-- ===== src/Asm/Words/Branch.antt =====
-- A branch from assembler/encoder.c to `nextIR` of emulator/cpu/core.c.
use aru_xi.Base.{
  ℕ, ◌+◌, ◌*◌, ◌%◌, ◌^◌, ◌<◌, true, ◌==◌, ◌≡◌, ◌∙◌, arith, u32, sub32, is_negative, sign_extract,
  bit_extract, bit_or, ◌<<<◌, if◌then◌else◌,
}
use aru_xi.Base.Bits.{bit_or_fields}
use aru_xi.Asm.Operands.{done}
use aru_xi.Asm.Words.{bi_word, branch_offset, bc_word, div4, in_range}
use aru_xi.Cpu.Pipeline.Execute.{bi_target, bc_target}

-- The offset of an aligned branch, times 4, is the distance.
offset_times :
    (target addr : ℕ)
    → target < 2 ^ 32
    → addr < 2 ^ 32
    → (target % 4 == 0) ≡ true
    → (addr % 4 == 0) ≡ true
    → u32 (addr + 4 * div4 (sub32 target addr)) ≡ target
offset_times target addr ht ha mt ma = ground arith

pub bi_word_sum :
    (opcode offset : ℕ)
    → in_range 23 offset ≡ true
    → bi_word opcode offset ≡ done (opcode * 2 ^ 24 + offset % 2 ^ 24)
unfolding bi_word
bi_word_sum opcode offset near = rw (near, bit_or_fields 24 opcode (offset % 2 ^ 24) (omega arith))

bi_target_near :
    (addr offset opcode : ℕ)
    → addr < 2 ^ 32
    → offset < 2 ^ 32
    → in_range 20 offset ≡ true
    → bi_target (u32 (addr + 4)) (sign_extract (opcode * 2 ^ 24 + offset % 2 ^ 24) 0 24)
      ≡ u32 (addr + 4 * offset)
unfolding bi_target
bi_target_near addr offset opcode ha ho near = ground arith

div4-lt : (x : ℕ) → div4 x < 2 ^ 32
div4-lt x = ground arith

branch_offset-div4 :
    (target addr offset : ℕ)
    → branch_offset target addr ≡ done offset
    → (offset ≡ div4 (sub32 target addr)) × ((target % 4 == 0) ≡ true)
unfolding branch_offset
branch_offset-div4 target addr offset found = (ground arith, ground arith)

-- An unconditional jump or call that the assembler encodes for an aligned address is one that the
-- CPU takes to the target, when the target is less than 2 ^ 20 instructions ahead or at most that
-- many back. The word holds the low byte of the opcode above the offset.
pub bi_word-bi_target :
    (opcode target addr offset w : ℕ)
    → target < 2 ^ 32
    → addr < 2 ^ 32
    → (addr % 4 == 0) ≡ true
    → branch_offset target addr ≡ done offset
    → in_range 20 offset ≡ true
    → bi_word opcode offset ≡ done w
    → bi_target (u32 (addr + 4)) (sign_extract w 0 24) ≡ target
bi_word-bi_target opcode target addr offset w ht ha ma found near made =
    let o = branch_offset-div4 target addr offset found in
    let small : offset < 2 ^ 32 = rw o.0 (div4-lt (sub32 target addr)) in
    let sum = bi_word_sum opcode offset (ground arith) in
    let word : w ≡ opcode * 2 ^ 24 + offset % 2 ^ 24 = ground arith in
    let times = offset_times target addr ht ha o.1 ma in
    rw word (bi_target_near addr offset opcode ha small near ∙ rw o.0 times)

pub bc_word_sum :
    (offset cond : ℕ)
    → cond < 2 ^ 4
    → bc_word offset cond ≡ 0b11000100 * 2 ^ 24 + offset % 2 ^ 19 * 2 ^ 5 + cond
bc_word_sum offset cond hc =
    let one : bit_or (0b11000100 <<< 24) ((offset % 2 ^ 19) <<< 5)
        ≡ (0b11000100 * 2 ^ 19 + offset % 2 ^ 19) * 2 ^ 5 =
      bit_or_fields 24 0b11000100 ((offset % 2 ^ 19) <<< 5) (omega arith) ∙ omega arith in
    rw one
      (bit_or_fields 5 (0b11000100 * 2 ^ 19 + offset % 2 ^ 19) cond (omega arith) ∙ omega arith)

bc_target_near :
    (addr offset w : ℕ)
    → addr < 2 ^ 32
    → offset < 2 ^ 32
    → in_range 18 offset ≡ true
    → bit_extract w 5 19 ≡ offset % 2 ^ 19
    → bc_target (u32 (addr + 4)) (sign_extract w 5 19)
      ≡ u32 (addr + 4 * offset + (if is_negative offset then 2 ^ 21 else 0))
unfolding bc_target
bc_target_near addr offset w ha ho near field = rw field (ground arith)

-- A conditional branch that the assembler encodes for an aligned address is one whose condition
-- the CPU reads back; the CPU takes it to the target when the target is not behind the branch, and
-- 2 ^ 21 bytes beyond the target when it is.
pub bc_word-bc_target :
    (target addr offset cond : ℕ)
    → target < 2 ^ 32
    → addr < 2 ^ 32
    → (addr % 4 == 0) ≡ true
    → branch_offset target addr ≡ done offset
    → in_range 18 offset ≡ true
    → cond < 2 ^ 4
    → let w = bc_word offset cond in
      (bit_extract w 0 4 ≡ cond)
      × (bc_target (u32 (addr + 4)) (sign_extract w 5 19)
          ≡ u32 (target + (if is_negative offset then 2 ^ 21 else 0)))
bc_word-bc_target target addr offset cond ht ha ma found near hc =
    let o = branch_offset-div4 target addr offset found in
    let small : offset < 2 ^ 32 = rw o.0 (div4-lt (sub32 target addr)) in
    let sum = bc_word_sum offset cond hc in
    let field : bit_extract (bc_word offset cond) 5 19 ≡ offset % 2 ^ 19 = omega arith in
    let times : u32 (addr + 4 * offset) ≡ target = rw o.0 (offset_times target addr ht ha o.1 ma) in
    (
      omega arith,
      bc_target_near addr offset (bc_word offset cond) ha small near field ∙ ground arith,
    )
