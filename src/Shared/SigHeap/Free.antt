-- ===== src/Shared/SigHeap/Free.antt =====
-- `smalloc` on a heap with one free block, and `sfree` after it.
use aru_xi.Base.{ℕ, suc, ◌+◌, ◌-◌, ◌^◌, ◌≤◌, ◌<◌, ◌%◌, ◌≡◌, ◌≢◌, arith, some, inl}
use aru_xi.Shared.SigHeap.{
  Heap, ok, exhausted, canary, page_size, metadata_size, canary0_at, size_at, flags_at, next_at,
  start, put, align, smalloc, sfree, seek_loop, ◌>>=◌,
}
use aru_xi.Shared.SigHeap.Search.{smalloc-exhausted}
use aru_xi.Shared.SigHeap.Alloc.{IsBump, align_lem, split_heap, smalloc-split_heap}

-- An allocated block, with both canaries.
pub record IsAllocated (h : Heap) (block size : ℕ) : Type 0 where
  pub canary0 : h (canary0_at block) ≡ canary
  pub size_of : h (size_at block) ≡ size
  pub in_use : h (flags_at block) ≡ 1
  pub canary1 : h (next_at block) ≡ canary

module _ {h : Heap} {block : ℕ} (b : IsBump h block) where
  split_heap-IsBump :
      (size : ℕ)
      → size % 8 ≡ 0
      → size + 24 < h (size_at block)
      → IsBump (split_heap h block size) (block + metadata_size + size)
  unfolding split_heap
  split_heap-IsBump size mult room = record {
    first = ground (arith, b.behind_start);
    last = ground (arith, b.behind_start, b.last);
    to_end = ground (arith, b.behind_start, b.to_end);
    behind_start = omega (arith, b.behind_start);
    aligned = omega (arith, b.aligned);
  }

  split_heap-IsAllocated : (size : ℕ) → IsAllocated (split_heap h block size) block size
  unfolding split_heap
  split_heap-IsAllocated size = record {
    canary0 = ground arith;
    size_of = ground arith;
    in_use = ground arith;
    canary1 = ground arith;
  }

  split_heap_below : (size a : ℕ) → a < block → a ≢ next_at start → split_heap h block size a ≡ h a
  unfolding split_heap
  split_heap_below size a lt ne = ground arith

  -- With one free block that ends at the page's end, `smalloc` of at least one byte and of up to
  -- that block less a header and a minimal block returns the payload at its front. Afterwards one
  -- free block is left, behind the payload; the new block has its size and its canaries; the payload
  -- lies in the page; and nothing below the block changes, `START`'s link apart, so that the blocks
  -- and payloads given out before are as they were.
  pub smalloc-IsBump :
      (fuel size : ℕ)
      → 0 < size
      → size + 7 < 2 ^ 32
      → align size + 24 < h (size_at block)
      → (h' : Heap) × (smalloc (suc (suc fuel)) h size ≡ ok (some (block + metadata_size), h'))
        × IsBump h' (block + metadata_size + align size)
        × IsAllocated h' block (align size)
        × (block + metadata_size + size ≤ page_size)
        × ((a : ℕ) → a < block → a ≢ next_at start → h' a ≡ h a)
  smalloc-IsBump fuel size pos fits room =
      let mult : align size % 8 ≡ 0 = omega (arith, align_lem size fits) in
      (
        split_heap h block (align size),
        smalloc-split_heap b fuel size pos room,
        split_heap-IsBump (align size) mult room,
        split_heap-IsAllocated (align size),
        omega (arith, align_lem size fits, b.to_end),
        split_heap_below (align size),
      )

-- The heap after the block is put behind the free block `curr` and marked free.
unfoldable pub relinked : Heap → ℕ → ℕ → Heap
unfolding put
relinked h curr block =
    put (put (put h (next_at curr) block) (next_at block) (h (next_at curr))) (flags_at block) 0

module _ {h : Heap} {free block size : ℕ} (b : IsBump h free) (a : IsAllocated h block size)
    (real : metadata_size ≤ block) (apart : block + metadata_size ≤ free) where
  -- Freeing a block below the only free block puts it behind that block, out of address order.
  sfree-relinked :
      (fuel : ℕ) → sfree (suc fuel) h (some (block + metadata_size)) ≡ ok (relinked h free block)
  unfolding sfree seek_loop relinked
  sfree-relinked fuel =
      let e : block + 16 - 16 ≡ block = omega arith in
      rw (e, a.in_use, a.canary0, b.first) (ground (arith, b.last))

  relinked_links :
      (relinked h free block (next_at start) ≡ free)
      × (relinked h free block (next_at free) ≡ block)
      × (relinked h free block (next_at block) ≡ 0)
      × (relinked h free block (size_at free) ≡ h (size_at free))
      × (relinked h free block (size_at block) ≡ size)
      × (relinked h free block (flags_at block) ≡ 0)
  unfolding relinked
  relinked_links = (
    ground (arith, b.first),
    ground arith,
    ground (arith, b.last),
    ground arith,
    ground (arith, a.size_of),
    ground arith,
  )

  -- After `sfree` of an allocated block, which lies behind `START` and below the only free block, a
  -- request for more than that block holds never returns, whatever number of rounds it is given,
  -- although the free block holds the request: the search stands still at the freed block.
  pub sfree-smalloc-exhausted :
      (fuel fuel' request : ℕ)
      → 0 < request
      → size < align request
      → align request ≤ h (size_at free)
      → (sfree (suc fuel) h (some (block + metadata_size)) >>= λ h'. smalloc fuel' h' request)
        ≡ exhausted
  sfree-smalloc-exhausted fuel fuel' request pos less fits =
      let l = relinked_links in
      rw (sfree-relinked fuel) (
        smalloc-exhausted (relinked h free block) fuel' request free pos l.0
          (omega (arith, b.behind_start)) (rw l.3 fits) (rw l.1 (omega arith))
          (rw l.3 (omega (arith, b.to_end))) (rw (l.1, l.4) (omega (arith, b.to_end)))
          (rw (l.1, l.4) (inl less)))

-- A second `sfree` of a payload that `sfree` has put back changes nothing.
pub sfree-sfree :
    (h h' : Heap) (fuel fuel' ptr : ℕ)
    → sfree fuel h (some ptr) ≡ ok h'
    → sfree fuel' h' (some ptr) ≡ ok h'
unfolding sfree
sfree-sfree h h' fuel fuel' ptr freed = ground arith
