-- ===== src/Asm/Stream/Numerals.antt =====
-- The numerals that `encodeSpecial` of assembler/encoder.c prints, as the lexer and the evaluator of
-- assembler/evaluator.c read them.
use aru_xi.Base.{
  ℕ, zero, suc, ◌+◌, ◌*◌, ◌/◌, ◌-◌, ◌%◌, ◌^◌, ◌<◌, ◌≤◌, true, false, ◌==◌, leb, ltb, ◌≡◌, refl, ◌∙◌,
  ap, arith, ◌&&◌, ◌||◌, [], ◌∷◌, Bool-cases, inl, inr, u32,
}
use aru_xi.Base.Text.{Text}
use aru_xi.Asm.Operands.{done, decimal, is_digit, skip_space}
use aru_xi.Asm.Symbols.{SymbolTable}
use aru_xi.Asm.Lexer.{
  end, int, next_token, token_at, number_token, strtol, read_signed, read_digits, skip_prefix,
  scan_digits, is_base_digit, digit_value, int_token, from_long,
}
use aru_xi.Asm.Eval.{returned, eval, eval_at, eval_loop, parse, operand_at, loop_step, advance}
use aru_xi.Asm.Words.{ImmediateSize, fits}
use aru_xi.Asm.Encoder.{evaluate, as_result, check_size, get_immediate_encoding}
use aru_xi.Asm.Encoder.Expressions.{evaluator}
use aru_xi.Asm.Stream.{digits_of, print_u, print_imm}
use aru_xi.Asm.Stream.Decimal.{decimal-print_u}

abbrev AllDigits : Text → Type 0
AllDigits [] = Unit
AllDigits (c ∷ s) = (48 ≤ c) × (c ≤ 57) × AllDigits s

abbrev IsNumeral : Text → Type 0
IsNumeral [] = ⊥
IsNumeral (c ∷ s) = (48 ≤ c) × (c ≤ 57) × AllDigits s

digits_of-IsNumeral :
    (fuel n c : ℕ) (s : Text) → IsNumeral (c ∷ s) → IsNumeral (digits_of fuel n (c ∷ s))
unfolding digits_of
digits_of-IsNumeral zero n c s h = h
digits_of-IsNumeral (suc fuel) n c s h = elim (Bool-cases (ltb n 10)) [
  | inl small ↦ rw small (omega arith, ground arith, h)
  | inr large ↦
      rw large
        (digits_of-IsNumeral fuel (n / 10) (48 + n % 10) (c ∷ s) (omega arith, omega arith, h))
]

print_u-IsNumeral : (n : ℕ) → IsNumeral (print_u n)
unfolding print_u digits_of
print_u-IsNumeral n = elim (Bool-cases (ltb n 10)) [
  | inl small ↦ rw small (omega arith, ground arith, tt)
  | inr large ↦
      rw large (digits_of-IsNumeral 9 (n / 10) (48 + n % 10) [] (omega arith, omega arith, tt))
]

scan_digits-decimal :
    (s : Text) (acc : ℕ) → AllDigits s → scan_digits 10 acc s ≡ (decimal acc s, [])
unfolding scan_digits decimal
scan_digits-decimal [] acc h = refl
scan_digits-decimal (c ∷ s) acc (low, high, h) =
    let digit : is_digit c ≡ true = ground arith in
    let in_base : is_base_digit 10 c ≡ true = ground arith in
    let is : digit_value c ≡ c - 48 = ground arith in
    rw (in_base, digit) (scan_digits-decimal s (acc * 10 + (c - 48)) h)

skip_prefix-ten : (s : Text) → skip_prefix 10 s ≡ s
unfolding skip_prefix
skip_prefix-ten [] = refl
skip_prefix-ten (a ∷ []) = refl
skip_prefix-ten (a ∷ b ∷ []) = refl
skip_prefix-ten (a ∷ b ∷ c ∷ s) = refl

read_digits-decimal :
    (c : ℕ) (s start : Text)
    → IsNumeral (c ∷ s)
    → read_digits 10 start false (c ∷ s) ≡ (from_long false (decimal 0 (c ∷ s)), [])
unfolding read_digits
read_digits-decimal c s start (low, high, h) =
    let in_base : is_base_digit 10 c ≡ true = ground arith in
    rw (in_base, scan_digits-decimal (c ∷ s) 0 (low, high, h)) refl

strtol-decimal :
    (c : ℕ) (s : Text)
    → IsNumeral (c ∷ s)
    → strtol 10 (c ∷ s) ≡ (from_long false (decimal 0 (c ∷ s)), [])
unfolding strtol read_signed skip_space
strtol-decimal c s (low, high, h) =
    let not_space : ((leb 9 c && leb c 13) || (c == 32)) ≡ false = ground arith in
    let not_minus : (c == b'-') ≡ false = ground arith in
    let not_plus : (c == b'+') ≡ false = ground arith in
    rw (not_space, not_minus, not_plus, skip_prefix-ten (c ∷ s))
      (read_digits-decimal c s (c ∷ s) (low, high, h))

number_token-decimal :
    (c : ℕ) (s : Text) → IsNumeral (c ∷ s) → number_token c s ≡ int_token (strtol 10 (c ∷ s))
unfolding number_token
number_token-decimal c [] h = refl
number_token-decimal c (d ∷ s) (low, high, (low', high', h)) =
    let not_x : (d == b'x') ≡ false = ground arith in
    let not_b : (d == b'b') ≡ false = ground arith in rw (not_x, not_b) refl

next_token-decimal :
    (c : ℕ) (s : Text)
    → IsNumeral (c ∷ s)
    → decimal 0 (c ∷ s) < 2 ^ 32
    → next_token (c ∷ s) ≡ (int (decimal 0 (c ∷ s)), [])
unfolding next_token token_at skip_space
next_token-decimal c s (low, high, h) lt =
    let not_space : ((leb 9 c && leb c 13) || (c == 32)) ≡ false = ground arith in
    let digit : is_digit c ≡ true = ground arith in
    let same : from_long false (decimal 0 (c ∷ s)) ≡ decimal 0 (c ∷ s) = ground arith in
    rw
      (
        not_space,
        digit,
        number_token-decimal c s (low, high, h),
        strtol-decimal c s (low, high, h),
        same,
      )
      refl

numeral_token :
    (s : Text) → IsNumeral s → decimal 0 s < 2 ^ 32 → next_token s ≡ (int (decimal 0 s), [])
numeral_token [] h lt = absurd h
numeral_token (c ∷ s) h lt = next_token-decimal c s h lt

-- A 32-bit number that is printed with `%u` is one token.
pub next_token-print_u : (n : ℕ) → n < 2 ^ 32 → next_token (print_u n) ≡ (int n, [])
next_token-print_u n lt =
    let same = decimal-print_u n lt in
    numeral_token (print_u n) (print_u-IsNumeral n) (rw same lt) ∙ ap (λ (k : ℕ). (int k, [])) same

-- The evaluator reads it as the number, and leaves the symbols alone.
eval-print_u :
    (fuel n : ℕ) (table : SymbolTable)
    → n < 2 ^ 32
    → eval (suc (suc fuel)) (print_u n) table
      ≡ returned (n, record { input = []; curr = end; table = table; can_eval = true })
unfolding eval eval_at eval_loop parse operand_at loop_step advance
eval-print_u fuel n table lt =
    rw (next_token-print_u n lt) (unfold next_token token_at skip_space in refl)

-- `getImmediateEncoding` on an operand that `encodeSpecial` printed.
pub get_immediate_encoding-print_imm :
    (fuel n : ℕ) (table : SymbolTable) (size : ImmediateSize)
    → n < 2 ^ 32
    → fits size n ≡ true
    → get_immediate_encoding (evaluator (suc (suc fuel))) (print_imm n) table size ≡ done (n, table)
unfolding get_immediate_encoding evaluate as_result check_size print_imm evaluator
get_immediate_encoding-print_imm fuel n table size lt small =
    let same : u32 n ≡ n = omega arith in rw (eval-print_u fuel n table lt, same, small) refl
