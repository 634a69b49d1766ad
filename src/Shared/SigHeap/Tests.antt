-- ===== src/Shared/SigHeap/Tests.antt =====
-- Runs of the allocator of shared/sigHeap.c on the fresh page.
use aru_xi.Base.{ℕ, ◌≤◌, ◌<◌, ◌≡◌, ◌≢◌, refl, arith, some, [], ◌∷◌, inl, true, if◌then◌else◌, ◌==◌}
use aru_xi.Shared.SigHeap.{
  Heap, ok, crash, exhausted, seek_loop, size_at, next_at, start, sinit, smalloc, sfree, find_block,
  align, ◌>>=◌,
}
use aru_xi.Shared.SigHeap.Search.{find_block-last, smalloc-exhausted}
use aru_xi.Shared.SigHeap.Alloc.{IsBump, sinit-IsBump, smalloc-crash, split_heap}
use aru_xi.Shared.SigHeap.Free.{
  IsAllocated, smalloc-IsBump, sfree-smalloc-exhausted, sfree-sfree, relinked,
}

abbrev page : Heap
page = sinit (λ a. 0) true

page_first : page (next_at start) ≡ 16
unfolding sinit
page_first = refl

page_size_of : page (size_at 16) ≡ 4064
unfolding sinit
page_size_of = refl

page_last : page (next_at 16) ≡ 0
unfolding sinit
page_last = refl

smalloc-IsBump_example :
    (h' : Heap) × (smalloc 2 page 20 ≡ ok (some 32, h'))
    × IsBump h' 56
    × IsAllocated h' 16 24
    × (52 ≤ 4096)
    × ((a : ℕ) → a < 16 → a ≢ next_at start → h' a ≡ page a)
unfolding align sinit
smalloc-IsBump_example =
    smalloc-IsBump (sinit-IsBump (λ a. 0)) 0 20 (omega arith) (omega arith) (omega arith)

smalloc-crash_example : smalloc 1 page 5000 ≡ crash
unfolding align sinit
smalloc-crash_example = smalloc-crash (sinit-IsBump (λ a. 0)) 0 5000 (omega arith) (omega arith)

-- Free blocks at 64 and 32, of 100 and 50 bytes.
abbrev down : Heap
down a =
    if a == 12
    then 64
    else (if a == 68 then 100 else (if a == 76 then 32 else (if a == 36 then 50 else 0)))

find_block-last_example : find_block 3 down 40 ≡ ok (some 32)
find_block-last_example =
    find_block-last down 40 64 (32 ∷ []) (refl, omega arith, (refl, omega arith, refl))
      (omega arith, omega arith, (omega arith, omega arith, tt))

smalloc-exhausted_example : smalloc 100 down 60 ≡ exhausted
unfolding align
smalloc-exhausted_example =
    smalloc-exhausted down 100 60 64 (omega arith) refl (omega arith) (omega arith) (omega arith)
      (omega arith) (omega arith) (inl (omega arith))

-- The page with one block of 24 bytes given out.
abbrev used : Heap
used = split_heap page 16 24

used-IsBump : IsBump used 56
unfolding split_heap sinit
used-IsBump = record {
  first = refl;
  last = refl;
  to_end = refl;
  behind_start = omega arith;
  aligned = refl;
}

used-IsAllocated : IsAllocated used 16 24
unfolding split_heap sinit
used-IsAllocated = record { canary0 = refl; size_of = refl; in_use = refl; canary1 = refl }

used_size : used (size_at 56) ≡ 4024
unfolding split_heap sinit
used_size = refl

sfree-smalloc-exhausted_example : (sfree 1 used (some 32) >>= λ h'. smalloc 50 h' 32) ≡ exhausted
unfolding align
sfree-smalloc-exhausted_example =
    sfree-smalloc-exhausted used-IsBump used-IsAllocated (omega arith) (omega arith) 0 50 32
      (omega arith) (omega arith) (omega (arith, used_size))

sfree-used : sfree 1 used (some 32) ≡ ok (relinked used 56 16)
unfolding sfree split_heap sinit relinked seek_loop
sfree-used = refl

sfree-sfree_example : sfree 3 (relinked used 56 16) (some 32) ≡ ok (relinked used 56 16)
sfree-sfree_example = sfree-sfree used (relinked used 56 16) 1 3 32 sfree-used
