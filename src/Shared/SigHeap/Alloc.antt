-- ===== src/Shared/SigHeap/Alloc.antt =====
-- Allocation from a heap whose free list is one block, as `sinit` and `smalloc` leave it.
use aru_xi.Base.{
  ℕ, suc, ◌+◌, ◌-◌, ◌*◌, ◌/◌, ◌^◌, ◌≤◌, ◌<◌, ◌%◌, true, false, ◌≡◌, ◌≢◌, refl, ◌∙◌, arith, u32,
  sub32, lt→ltb, none, some,
}
use aru_xi.Base.Bits.{bit_and_mask, bit_and_shift}
use aru_xi.Shared.SigHeap.Search.{find_loop-take, find_loop-end, find_loop-null}
use aru_xi.Shared.SigHeap.{
  Heap, ok, crash, page_size, metadata_size, size_at, next_at, start, put, align, setup_block,
  find_block, find_prev, split_truncate, sinit, smalloc, alignment,
}

-- The free list is the block at `block` alone, and that block ends where the page ends.
pub record IsBump (h : Heap) (block : ℕ) : Type 0 where
  pub first : h (next_at start) ≡ block
  pub last : h (next_at block) ≡ 0
  pub to_end : block + metadata_size + h (size_at block) ≡ page_size
  pub behind_start : metadata_size ≤ block
  pub aligned : block % 8 ≡ 0

-- A fresh heap has one free block behind `START`, of all that is left of the page.
pub sinit-IsBump : (h : Heap) → IsBump (sinit h true) 16
unfolding sinit
sinit-IsBump h = record {
  first = refl;
  last = refl;
  to_end = refl;
  behind_start = omega arith;
  aligned = refl;
}

-- `ALIGN` rounds up to a multiple of 8.
pub align_lem : (x : ℕ) → x + 7 < 2 ^ 32 → align x ≡ (x + 7) / 8 * 8
unfolding align
align_lem x h = bit_and_shift 3 (u32 (x + 7)) (2 ^ 29 - 1) ∙ rw (bit_and_mask 29) (omega arith)

module _ {h : Heap} {block : ℕ} (b : IsBump h block) where
  block-ne : block ≢ 0
  block-ne = omega (arith, b.behind_start)

  small : h (size_at block) < 2 ^ 32
  small = omega (arith, b.to_end)

  -- On such a heap a request that the block does not hold crashes: `findBlock` reads through the
  -- best block so far, which is `NULL`, where `smalloc` means to return `NULL`.
  pub smalloc-crash :
      (fuel size : ℕ)
      → 0 < size
      → h (size_at block) < align size
      → smalloc (suc fuel) h size ≡ crash
  unfolding smalloc find_block
  smalloc-crash fuel size pos less =
      let null = find_loop-null h (align size) fuel block (2 ^ 32 - 1) block-ne less in
      let first = b.first in ground arith

  find_block-IsBump :
      (fuel size : ℕ)
      → size ≤ h (size_at block)
      → find_block (suc (suc fuel)) h size ≡ ok (some block)
  unfolding find_block
  find_block-IsBump fuel size fits = rw b.first (
      find_loop-take h size (suc fuel) block none (2 ^ 32 - 1) block-ne fits (omega (arith, small))
      ∙ rw b.last (find_loop-end h size fuel (some block) _))

  find_prev-IsBump : (fuel : ℕ) → find_prev (suc fuel) h block start ≡ ok start
  unfolding find_prev
  find_prev-IsBump fuel = let first = b.first in ground arith

-- The heap after `size` bytes are split off the front of the only free block.
unfoldable pub split_heap : Heap → ℕ → ℕ → Heap
unfolding put setup_block
split_heap h block size =
    let temp = block + metadata_size + size in
    let h1 = setup_block h temp (sub32 (h (size_at block)) size - metadata_size) false in
    let h2 = put h1 (next_at start) temp in
    setup_block (put h2 (next_at temp) (h2 (next_at block))) block size true

module _ {h : Heap} {block : ℕ} (b : IsBump h block) where
  split_truncate-split_heap :
      (fuel size : ℕ)
      → size + 24 < h (size_at block)
      → split_truncate (suc fuel) h block size ≡ ok (split_heap h block size)
  unfolding split_truncate split_heap
  split_truncate-split_heap fuel size room = rw (
    find_prev-IsBump b fuel,
    lt→ltb (metadata_size + alignment) (sub32 (h (size_at block)) size) (omega (arith, small b)),
  )

  pub smalloc-split_heap :
      (fuel size : ℕ)
      → 0 < size
      → align size + 24 < h (size_at block)
      → smalloc (suc (suc fuel)) h size
        ≡ ok (some (block + metadata_size), split_heap h block (align size))
  unfolding smalloc
  smalloc-split_heap fuel size pos room =
      let found = find_block-IsBump b fuel (align size) (omega arith) in
      let cut = split_truncate-split_heap (suc fuel) (align size) room in ground arith
