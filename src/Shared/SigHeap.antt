-- ===== src/Shared/SigHeap.antt =====
-- shared/sigHeap.c: the allocator of the page that the three processes share.
--
-- A heap is a function from byte offsets to the 32-bit words that stand there. Blocks start at
-- multiples of 8, so that two words never overlap. `GET_PTR` and `GET_OFF` are the identity: a
-- block is its offset, and offset 0, which is `START`, ends the free list. A loop that follows the
-- list takes fuel.
pub mod Alloc
pub mod Search
pub mod Free
pub mod Tests
use aru_xi.Base.{
  ℕ, zero, suc, ◌+◌, ◌-◌, ◌*◌, ◌^◌, ◌%◌, bit_and, Bool, true, false, not, ◌&&◌, ◌||◌, ltb, leb,
  ◌==◌, if◌then◌else◌, u32, sub32, Option, none, some,
}

abbrev pub Heap : Type 0
Heap = ℕ → ℕ

-- `exhausted` means that the fuel ran out, `crash` a read through a null pointer.
pub data Run (A : Type 0) : Type 0 where
  ok : A → Run A
  crash exhausted : Run A

infixl 5 ◌>>=◌
abbrev pub ◌>>=◌ : {A B : Type 0} → Run A → (A → Run B) → Run B
ok a >>= f = f a
crash >>= f = crash
exhausted >>= f = exhausted

abbrev pub metadata_size : ℕ
metadata_size = 16

abbrev pub canary : ℕ
canary = 0xDAEFFAED

abbrev pub page_size : ℕ
page_size = 4096

abbrev pub alignment : ℕ
alignment = 8

-- The fields of `hblock_t`.
abbrev pub canary0_at : ℕ → ℕ
canary0_at block = block

abbrev pub size_at : ℕ → ℕ
size_at block = block + 4

abbrev pub flags_at : ℕ → ℕ
flags_at block = block + 8

-- The union of `canary1` and `nextOff`.
abbrev pub next_at : ℕ → ℕ
next_at block = block + 12

abbrev pub start : ℕ
start = 0

unfoldable pub put : Heap → ℕ → ℕ → Heap
put h off v a = if a == off then v else h a

-- `ALIGN(x)` of a `sigsize_t`.
unfoldable pub align : ℕ → ℕ
align x = bit_and (u32 (x + (alignment - 1))) (2 ^ 32 - 1 - (alignment - 1))

unfoldable pub setup_block : Heap → ℕ → ℕ → Bool → Heap
unfolding put
setup_block h block size alloc =
    let h1 = put h (canary0_at block) canary in
    let h2 = put h1 (size_at block) size in
    let h3 = put h2 (flags_at block) (if alloc then 1 else 0) in
    put h3 (next_at block) (if alloc then canary else 0)

-- The loop of `findBlock`. Its last line reads `currBest->addr.nextOff`, through `NULL` as long as
-- no block fitted.
unfoldable pub find_loop : ℕ → Heap → ℕ → ℕ → Option ℕ → ℕ → Run (Option ℕ)
find_loop zero h size curr best min_diff = exhausted
find_loop (suc fuel) h size curr best min_diff =
    let diff = sub32 (h (size_at curr)) size in
    let fits = leb size (h (size_at curr)) && leb diff min_diff in
    let best' = if fits then some curr else best in
    let min_diff' = if fits then diff else min_diff in
    let rest : Run (Option ℕ) = elim best' [
      | none ↦ crash
      | some b ↦ find_loop fuel h size (h (next_at b)) (some b) min_diff'
    ] in
    if curr == 0 then ok best else rest

unfoldable pub find_block : ℕ → Heap → ℕ → Run (Option ℕ)
find_block fuel h size = find_loop fuel h size (h (next_at start)) none (2 ^ 32 - 1)

-- `while (GET_PTR(prev->addr.nextOff) != block) prev = GET_PTR(prev->addr.nextOff);`
unfoldable pub find_prev : ℕ → Heap → ℕ → ℕ → Run ℕ
find_prev zero h block prev = exhausted
find_prev (suc fuel) h block prev =
    let rest = find_prev fuel h block (h (next_at prev)) in
    if h (next_at prev) == block then ok prev else rest

unfoldable pub split_truncate : ℕ → Heap → ℕ → ℕ → Run Heap
unfolding put
split_truncate fuel h block size = do
  let temp = block + metadata_size + size
  let new_free_block_size = sub32 (h (size_at block)) size
  prev ← find_prev fuel h block start
  let split =
      (let h1 = setup_block h temp (new_free_block_size - metadata_size) false in
        let h2 = put h1 (next_at prev) temp in put h2 (next_at temp) (h2 (next_at block)))
  let linked = put h (next_at prev) (h (next_at block))
  let h' = if ltb (metadata_size + alignment) new_free_block_size then split else linked
  ok (setup_block h' block size true)

-- `sinit(_, new)`
unfoldable pub sinit : Heap → Bool → Heap
unfolding setup_block put
sinit h new =
    let first = start + metadata_size in
    let fresh =
      setup_block (setup_block h start metadata_size false) first (page_size - metadata_size * 2)
        false in
    put (if new then fresh else h) (next_at start) first

-- `smalloc`, with the offset of the payload, or `none` for `NULL`.
unfoldable pub smalloc : ℕ → Heap → ℕ → Run (Option ℕ × Heap)
smalloc fuel h size =
    let allocate : Run (Option ℕ × Heap) = find_block fuel h (align size) >>= λ found. elim found [
      | none ↦ ok (none, h)
      | some block ↦
          split_truncate fuel h block (align size) >>= λ h'. ok (some (block + metadata_size), h')
    ] in
    if size == 0 then ok (none, h) else allocate

-- `while (curr->addr.nextOff != 0 && GET_PTR(curr->addr.nextOff) < blockToFree) curr = ...;`
unfoldable pub seek_loop : ℕ → Heap → ℕ → ℕ → Run ℕ
seek_loop zero h block curr = exhausted
seek_loop (suc fuel) h block curr =
    let rest = seek_loop fuel h block (h (next_at curr)) in
    if not (h (next_at curr) == 0) && ltb (h (next_at curr)) block then rest else ok curr

-- `sfree` of the payload at offset `ptr`; `none` is `NULL`.
unfoldable pub sfree : ℕ → Heap → Option ℕ → Run Heap
unfolding put
sfree fuel h none = ok h
sfree fuel h (some ptr) =
    let block = ptr - metadata_size in
    let relink : Run Heap = seek_loop fuel h block (h (next_at start)) >>= λ curr.
    let h1 = put h (next_at curr) block in
    let h2 = put h1 (next_at block) (h (next_at curr)) in ok (put h2 (flags_at block) 0) in
    if h (flags_at block) == 0
    then ok h
    else (if not (h (canary0_at block) == canary) && not (h (next_at block) == canary)
        then ok h
        else relink)

-- `ptrToOffset`: the offset, and whether the pointer lies in the page. The page starts at `base`.
unfoldable pub ptr_to_offset : ℕ → ℕ → Bool → ℕ × Bool
ptr_to_offset base ptr valid =
    (u32 (ptr + 2 ^ 64 - base), if leb ptr base || leb (base + page_size) ptr then false else valid)

unfoldable pub offset_to_ptr : ℕ → ℕ → ℕ
offset_to_ptr base offset = base + offset
