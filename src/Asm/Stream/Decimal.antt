-- ===== src/Asm/Stream/Decimal.antt =====
-- The pieces that `encodeSpecial` of assembler/encoder.c prints.
use aru_xi.Base.{
  ℕ, zero, suc, ◌+◌, ◌*◌, ◌/◌, ◌%◌, ◌^◌, ◌<◌, false, ltb, ◌≡◌, refl, ◌∙◌, ap, arith, [], ◌∷◌,
  Bool-cases, inl, inr,
}
use native.Mathlib.Nat.{pow-suc}
use aru_xi.Base.Text.{Text}
use aru_xi.Asm.Operands.{decimal}
use aru_xi.Asm.Stream.{digits_of, print_u}

decimal_step :
    (acc d : ℕ) (s : Text) → d < 10 → decimal acc ((48 + d) ∷ s) ≡ decimal (acc * 10 + d) s
unfolding decimal
decimal_step acc d s lt = ground arith

positive : (fuel n : ℕ) → n < 10 ^ suc fuel → ltb n 10 ≡ false → 0 < fuel
positive zero n lt large = ground arith
positive (suc fuel) n lt large = omega arith

decimal-digits_of :
    (fuel n : ℕ) (behind : Text)
    → n < 10 ^ fuel
    → 0 < fuel
    → decimal 0 (digits_of fuel n behind) ≡ decimal n behind
unfolding digits_of
decimal-digits_of zero n behind lt more = absurd (omega arith)
decimal-digits_of (suc fuel) n behind lt more = elim (Bool-cases (ltb n 10)) [
  | inl small ↦
      let same : 0 * 10 + n ≡ n = omega arith in
      rw small (decimal_step 0 n behind (ground arith) ∙ ap (λ (k : ℕ). decimal k behind) same)
  | inr large ↦
      let below : n / 10 < 10 ^ fuel = omega (arith, pow-suc 10 fuel) in
      let some_left : 0 < fuel = positive fuel n lt large in
      let back : n / 10 * 10 + n % 10 ≡ n = omega arith in
      rw large (
        decimal-digits_of fuel (n / 10) ((48 + n % 10) ∷ behind) below some_left
        ∙ decimal_step (n / 10) (n % 10) behind (omega arith)
        ∙ ap (λ (k : ℕ). decimal k behind) back)
]

-- The numeral that `encodeSpecial` prints for a 32-bit word is read back as that word.
pub decimal-print_u : (n : ℕ) → n < 2 ^ 32 → decimal 0 (print_u n) ≡ n
unfolding print_u
decimal-print_u n lt =
    decimal-digits_of 10 n [] (omega arith) (omega arith) ∙ unfold decimal in refl
