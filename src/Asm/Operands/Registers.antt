-- ===== src/Asm/Operands/Registers.antt =====
-- The register names that `getRegisterEncoding` of assembler/encoder.c reads.
use aru_xi.Base.{ℕ, ◌+◌, ◌*◌, ◌<◌, false, ◌||◌, ◌==◌, ◌≡◌, ◌∙◌, ap, arith, if◌then◌else◌, [], ◌∷◌}
use aru_xi.Base.Text.{Text, str_case_eq}
use aru_xi.Asm.Operands.{register_number, atoi8, signed_decimal, decimal, skip_space}

-- Two decimal digits.
abbrev pub two_digits : ℕ → ℕ → Text
two_digits d e = (48 + d) ∷ (48 + e) ∷ []

decimal_two : (d e : ℕ) → d < 10 → e < 10 → decimal 0 (two_digits d e) ≡ 10 * d + e
unfolding decimal
decimal_two d e hd he = ground arith

skip_space_two : (d e : ℕ) → skip_space (two_digits d e) ≡ two_digits d e
unfolding skip_space
skip_space_two d e = ground arith

signed_decimal_two : (d e : ℕ) → d < 10 → e < 10 → signed_decimal (two_digits d e) ≡ 10 * d + e
unfolding signed_decimal
signed_decimal_two d e hd he = let whole = decimal_two d e hd he in ground arith

atoi8_two : (d e : ℕ) → d < 10 → e < 10 → atoi8 (two_digits d e) ≡ 10 * d + e
unfolding atoi8
atoi8_two d e hd he = ap signed_decimal (skip_space_two d e) ∙ signed_decimal_two d e hd he

-- No special name has three characters.
two_letters : (c x y a b : ℕ) → str_case_eq (c ∷ x ∷ y ∷ []) (a ∷ b ∷ []) ≡ false
unfolding str_case_eq
two_letters c x y a b = ground arith

-- A register name of a letter and two digits: `x` and `a` stand for the number itself, `c` counts
-- from 12 and `s` from 17, in both cases of the letter; with any other letter the number is 0.
pub register_number_lem :
    (c d e : ℕ)
    → d < 10
    → e < 10
    → register_number (c ∷ two_digits d e) ≡ (
        if c == b'x' || c == b'X' || c == b'a' || c == b'A'
        then 10 * d + e
        else (if c == b'c' || c == b'C'
            then 10 * d + e + 12
            else (if c == b's' || c == b'S' then 10 * d + e + 17 else 0)))
unfolding register_number
register_number_lem c d e hd he =
    let value = atoi8_two d e hd he in
    rw
      (
        two_letters c (48 + d) (48 + e) b'x' b'r',
        two_letters c (48 + d) (48 + e) b'l' b'r',
        two_letters c (48 + d) (48 + e) b'x' b'b',
        two_letters c (48 + d) (48 + e) b'x' b'z',
        two_letters c (48 + d) (48 + e) b's' b'p',
        value,
      )
      (ground arith)
