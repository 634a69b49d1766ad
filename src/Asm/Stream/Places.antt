-- ===== src/Asm/Stream/Places.antt =====
-- The places of the stream that `encodeSpecial` of assembler/encoder.c writes.
use aru_xi.Base.{ℕ, zero, suc, ◌+◌, ◌<◌, ◌≡◌, refl, ◌∙◌, arith, List, [], ◌∷◌}
use aru_xi.Asm.Operands.{done, Instr}
use aru_xi.Asm.Stream.{instr_at, set_instr}

instr_at-set_instr :
    (is : List Instr) (k : ℕ) (x y : Instr)
    → instr_at is k ≡ done x
    → instr_at (set_instr is k y) k ≡ done y
unfolding instr_at set_instr
instr_at-set_instr [] k x y h = ground arith
instr_at-set_instr (i ∷ is) zero x y h = refl
instr_at-set_instr (i ∷ is) (suc k) x y h = instr_at-set_instr is k x y h

-- An instruction before the one that is set, and one behind it.
instr_at-before :
    (is : List Instr) (j k : ℕ) (y : Instr) → j < k → instr_at (set_instr is k y) j ≡ instr_at is j
unfolding instr_at set_instr
instr_at-before [] j k y lt = refl
instr_at-before (i ∷ is) j zero y lt = absurd (omega arith)
instr_at-before (i ∷ is) zero (suc k) y lt = refl
instr_at-before (i ∷ is) (suc j) (suc k) y lt = instr_at-before is j k y (omega arith)

instr_at-behind :
    (is : List Instr) (j k : ℕ) (y : Instr) → k < j → instr_at (set_instr is k y) j ≡ instr_at is j
unfolding instr_at set_instr
instr_at-behind [] j k y lt = refl
instr_at-behind (i ∷ is) zero k y lt = absurd (omega arith)
instr_at-behind (i ∷ is) (suc j) zero y lt = refl
instr_at-behind (i ∷ is) (suc j) (suc k) y lt = instr_at-behind is j k y (omega arith)

-- The three places that `encodeSpecial` writes.
pub three_set :
    (is : List Instr) (k : ℕ) (a b c a' b' c' : Instr)
    → instr_at is k ≡ done a
    → instr_at is (k + 2) ≡ done b
    → instr_at is (k + 5) ≡ done c
    → let is' = set_instr (set_instr (set_instr is k a') (k + 2) b') (k + 5) c' in
      (instr_at is' k ≡ done a')
      × (instr_at is' (k + 2) ≡ done b')
      × (instr_at is' (k + 5) ≡ done c')
three_set is k a b c a' b' c' ha hb hc =
    let is1 = set_instr is k a' in
    let is2 = set_instr is1 (k + 2) b' in
    (
      instr_at-before is2 k (k + 5) c' (omega arith)
          ∙ instr_at-before is1 k (k + 2) b' (omega arith)
          ∙ instr_at-set_instr is k a a' ha,
      instr_at-before is2 (k + 2) (k + 5) c' (omega arith)
          ∙ instr_at-set_instr is1 (k + 2) b b'
              (instr_at-behind is (k + 2) k a' (omega arith) ∙ hb),
      instr_at-set_instr is2 (k + 5) c c' (
          instr_at-behind is1 (k + 5) (k + 2) b' (omega arith)
          ∙ instr_at-behind is (k + 5) k a' (omega arith)
          ∙ hc),
    )
