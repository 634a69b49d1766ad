-- ===== src/Shared/SigHeap/Search.antt =====
-- `findBlock` of shared/sigHeap.c: when the search returns, and when it does not.
use aru_xi.Base.{
  ℕ, zero, suc, ◌-◌, ◌^◌, ◌≤◌, ◌<◌, false, ◌≡◌, ◌≢◌, refl, ◌∙◌, arith, Option, none, some, List, [],
  ◌∷◌, length, sub32, leb, ◌&&◌, ◌⊎◌,
}
use aru_xi.Shared.SigHeap.{
  Heap, ok, crash, exhausted, size_at, next_at, start, find_loop, find_block, smalloc, align,
}

module _ (h : Heap) (size : ℕ) where
  pub find_loop-end :
      (fuel : ℕ) (best : Option ℕ) (m : ℕ) → find_loop (suc fuel) h size 0 best m ≡ ok best
  unfolding find_loop
  find_loop-end fuel best m = refl

  pub find_loop-take :
      (fuel curr : ℕ) (best : Option ℕ) (m : ℕ)
      → curr ≢ 0
      → size ≤ h (size_at curr)
      → sub32 (h (size_at curr)) size ≤ m
      → find_loop (suc fuel) h size curr best m
        ≡ find_loop fuel h size (h (next_at curr)) (some curr) (sub32 (h (size_at curr)) size)
  unfolding find_loop
  find_loop-take fuel curr best m ne fits near = ground arith

  pub find_loop-skip :
      (fuel curr b m : ℕ)
      → curr ≢ 0
      → (leb size (h (size_at curr)) && leb (sub32 (h (size_at curr)) size) m) ≡ false
      → find_loop (suc fuel) h size curr (some b) m
        ≡ find_loop fuel h size (h (next_at b)) (some b) m
  unfolding find_loop
  find_loop-skip fuel curr b m ne miss = ground arith

  pub find_loop-null :
      (fuel curr m : ℕ)
      → curr ≢ 0
      → h (size_at curr) < size
      → find_loop (suc fuel) h size curr none m ≡ crash
  unfolding find_loop
  find_loop-null fuel curr m ne small = ground arith

  -- Once the block behind the best one is no better, the search stands still.
  find_loop-stuck :
      (fuel b m : ℕ)
      → h (next_at b) ≢ 0
      → (leb size (h (size_at (h (next_at b)))) && leb (sub32 (h (size_at (h (next_at b)))) size) m)
        ≡ false
      → find_loop fuel h size (h (next_at b)) (some b) m ≡ exhausted
  find_loop-stuck zero b m ne miss = unfold find_loop in refl
  find_loop-stuck (suc fuel) b m ne miss =
      find_loop-skip fuel (h (next_at b)) b m ne miss ∙ find_loop-stuck fuel b m ne miss

-- `c` starts the free list of the blocks `bs`.
abbrev pub Chain : Heap → ℕ → List ℕ → Type 0
Chain h c [] = c ≡ 0
Chain h c (b ∷ bs) = (c ≡ b) × (b ≢ 0) × Chain h (h (next_at b)) bs

-- Each block holds `size` bytes, and none holds more than the one before it.
abbrev pub Narrowing : Heap → ℕ → ℕ → List ℕ → Type 0
Narrowing h size bound [] = Unit {0}
Narrowing h size bound (b ∷ bs) =
    (size ≤ h (size_at b)) × (h (size_at b) ≤ bound) × Narrowing h size (h (size_at b)) bs

abbrev pub last_or : ℕ → List ℕ → ℕ
last_or b [] = b
last_or b (c ∷ bs) = last_or c bs

find_loop-last :
    (h : Heap) (size : ℕ) (bs : List ℕ) (b c bound m : ℕ)
    → bound < 2 ^ 32
    → size ≤ bound
    → m ≡ bound - size
    → Chain h c bs
    → Narrowing h size bound bs
    → find_loop (suc (length bs)) h size c (some b) m ≡ ok (some (last_or b bs))
find_loop-last h size [] b c bound m small fits em chain n =
    rw chain (find_loop-end h size 0 (some b) m)
find_loop-last h size (d ∷ bs) b c bound m small fits em chain n = rw chain.0 (
    find_loop-take h size (suc (length bs)) d (some b) m chain.1 n.0 (omega arith)
    ∙ find_loop-last h size bs d (h (next_at d)) (h (size_at d)) (sub32 (h (size_at d)) size)
        (omega arith) n.0 (omega arith) chain.2 n.2)

-- On a free list whose blocks all hold the request and never grow from one to the next,
-- `findBlock` returns, after one round for each block and one more, and what it returns is the
-- last block of the list, the smallest.
pub find_block-last :
    (h : Heap) (size b : ℕ) (bs : List ℕ)
    → Chain h (h (next_at start)) (b ∷ bs)
    → Narrowing h size (2 ^ 32 - 1) (b ∷ bs)
    → find_block (suc (suc (length bs))) h size ≡ ok (some (last_or b bs))
unfolding find_block
find_block-last h size b bs chain n = rw chain.0 (
    find_loop-take h size (suc (length bs)) b none (2 ^ 32 - 1) chain.1 n.0 (omega arith)
    ∙ find_loop-last h size bs b (h (next_at b)) (h (size_at b)) (sub32 (h (size_at b)) size)
        (omega arith) n.0 (omega arith) chain.2 n.2)

find_block-stuck :
    (h : Heap) (fuel size b : ℕ)
    → h (next_at start) ≡ b
    → b ≢ 0
    → size ≤ h (size_at b)
    → h (next_at b) ≢ 0
    → h (size_at b) < 2 ^ 32
    → h (size_at (h (next_at b))) < 2 ^ 32
    → (h (size_at (h (next_at b))) < size) ⊎ (h (size_at b) < h (size_at (h (next_at b))))
    → find_block fuel h size ≡ exhausted
unfolding find_block
find_block-stuck h zero size b first ne fits more small small' worse = unfold find_loop in refl
find_block-stuck h (suc fuel) size b first ne fits more small small' worse = rw first (
    find_loop-take h size fuel b none (2 ^ 32 - 1) ne fits (omega arith)
    ∙ find_loop-stuck h size fuel b (sub32 (h (size_at b)) size) more (ground arith))

-- `smalloc` does not return, however many rounds it is given, when the first free block holds the
-- request and the block behind it either does not or is larger: the search goes on from the best
-- block and not from the current one, so it stands still.
pub smalloc-exhausted :
    (h : Heap) (fuel size b : ℕ)
    → 0 < size
    → h (next_at start) ≡ b
    → b ≢ 0
    → align size ≤ h (size_at b)
    → h (next_at b) ≢ 0
    → h (size_at b) < 2 ^ 32
    → h (size_at (h (next_at b))) < 2 ^ 32
    → (h (size_at (h (next_at b))) < align size) ⊎ (h (size_at b) < h (size_at (h (next_at b))))
    → smalloc fuel h size ≡ exhausted
unfolding smalloc
smalloc-exhausted h fuel size b pos first ne fits more small small' worse =
    let stuck = find_block-stuck h fuel (align size) b first ne fits more small small' worse in
    ground arith
