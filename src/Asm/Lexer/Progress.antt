-- ===== src/Asm/Lexer/Progress.antt =====
-- `nextToken` of assembler/evaluator.c moves on by at least a character for each token.
use aru_xi.Base.{
  ℕ, suc, ◌+◌, ◌*◌, ◌≤◌, Bool, true, false, ◌&&◌, ◌||◌, ◌==◌, ◌≡◌, arith, [], ◌∷◌, length,
  Bool-cases, inl, inr,
}
use aru_xi.Base.Text.{Text}
use aru_xi.Asm.Operands.{is_digit, skip_space}
use aru_xi.Asm.Lexer.{
  Token, end, lparen, rparen, int, symb, op, digit_value, is_base_digit, scan_digits, read_digits,
  skip_prefix, read_signed, strtol, number_token, starts_name, in_name, span_name, op_token,
  token_at, next_token,
}

-- A token stands for one character at least.
abbrev pub weight : Token → ℕ
weight end = 0
weight lparen = 1
weight rparen = 1
weight (int v) = 1
weight (symb s) = 1
weight (op s) = 1

length-skip_space : (s : Text) → length (skip_space s) ≤ length s
unfolding skip_space
length-skip_space [] = omega arith
length-skip_space (c ∷ s) = ground (arith, length-skip_space s)

length-scan_digits : (base acc : ℕ) (s : Text) → length (scan_digits base acc s).1 ≤ length s
unfolding scan_digits
length-scan_digits base acc [] = omega arith
length-scan_digits base acc (c ∷ s) = elim (Bool-cases (is_base_digit base c)) [
  | inl hit ↦ rw hit (omega (arith, length-scan_digits base (acc * base + digit_value c) s))
  | inr miss ↦ rw miss (omega arith)
]

length-read_digits :
    (base : ℕ) (start : Text) (minus : Bool) (s : Text)
    → length s ≤ length start
    → length (read_digits base start minus s).1 ≤ length start
unfolding read_digits
length-read_digits base start minus [] h = omega arith
length-read_digits base start minus (c ∷ s) h = elim (Bool-cases (is_base_digit base c)) [
  | inl hit ↦ rw hit (omega (arith, length-scan_digits base 0 (c ∷ s)))
  | inr miss ↦ rw miss (omega arith)
]

-- A first digit is read.
length-read_digits_first :
    (base : ℕ) (start : Text) (minus : Bool) (c : ℕ) (s : Text)
    → is_base_digit base c ≡ true
    → length (read_digits base start minus (c ∷ s)).1 ≤ length s
unfolding read_digits scan_digits
length-read_digits_first base start minus c s h =
    rw h (length-scan_digits base (0 * base + digit_value c) s)

length-skip_prefix : (base : ℕ) (s : Text) → length (skip_prefix base s) ≤ length s
unfolding skip_prefix
length-skip_prefix base [] = omega arith
length-skip_prefix base (z ∷ []) = omega arith
length-skip_prefix base (z ∷ x ∷ []) = omega arith
length-skip_prefix base (z ∷ x ∷ h ∷ s) = ground arith

length-read_signed :
    (base : ℕ) (start s : Text)
    → length s ≤ length start
    → length (read_signed base start s).1 ≤ length start
unfolding read_signed
length-read_signed base start [] h = omega arith
length-read_signed base start (c ∷ s) h =
    let behind = length-skip_prefix base s in
    let whole = length-skip_prefix base (c ∷ s) in
    let minus = length-read_digits base start true (skip_prefix base s) (omega arith) in
    let plus = length-read_digits base start false (skip_prefix base s) (omega arith) in
    let bare = length-read_digits base start false (skip_prefix base (c ∷ s)) (omega arith) in
    ground arith

length-strtol : (base : ℕ) (s : Text) → length (strtol base s).1 ≤ length s
unfolding strtol
length-strtol base s = length-read_signed base s (skip_space s) (length-skip_space s)

digit-skip_space : (c : ℕ) (s : Text) → is_digit c ≡ true → skip_space (c ∷ s) ≡ c ∷ s
unfolding skip_space
digit-skip_space c s h = ground arith

digit-base : (c : ℕ) → is_digit c ≡ true → (is_base_digit 10 c ≡ true) × (is_base_digit 16 c ≡ true)
digit-base c h = (ground arith, ground arith)

digit-read_signed :
    (base c : ℕ) (start s : Text)
    → is_digit c ≡ true
    → read_signed base start (c ∷ s) ≡ read_digits base start false (skip_prefix base (c ∷ s))
unfolding read_signed
digit-read_signed base c start s h = ground arith

-- What is skipped still leaves a digit.
prefixed :
    (base c : ℕ) (s : Text)
    → is_digit c ≡ true
    → is_base_digit base c ≡ true
    → (start : Text) → length (read_digits base start false (skip_prefix base (c ∷ s))).1 ≤ length s
unfolding skip_prefix
prefixed base c [] d h start = length-read_digits_first base start false c [] h
prefixed base c (x ∷ []) d h start = length-read_digits_first base start false c (x ∷ []) h
prefixed base c (x ∷ y ∷ s) d h start =
    elim (Bool-cases
      ((base == 16) && (c == b'0') && (x == b'x' || x == b'X') && is_base_digit 16 y)) [
        | inl skip ↦
            let six : base ≡ 16 = ground arith in
            let more : is_base_digit base y ≡ true = ground arith in
            rw skip (let less = length-read_digits_first base start false y s more in omega arith)
        | inr stay ↦ rw stay (length-read_digits_first base start false c (x ∷ y ∷ s) h)
      ]

length-strtol_digit :
    (base c : ℕ) (s : Text)
    → is_digit c ≡ true
    → is_base_digit base c ≡ true
    → length (strtol base (c ∷ s)).1 ≤ length s
unfolding strtol
length-strtol_digit base c s d h =
    rw (digit-skip_space c s d, digit-read_signed base c (c ∷ s) s d)
      (prefixed base c s d h (c ∷ s))

length-number_token :
    (c : ℕ) (s : Text)
    → is_digit c ≡ true
    → weight (number_token c s).0 + length (number_token c s).1 ≤ suc (length s)
unfolding number_token
length-number_token c [] d = omega (arith, length-strtol_digit 10 c [] d (digit-base c d).0)
length-number_token c (x ∷ s) d =
    let ten = length-strtol_digit 10 c (x ∷ s) d (digit-base c d).0 in
    let hex = length-strtol_digit 16 c (x ∷ s) d (digit-base c d).1 in
    let two = length-strtol 2 s in ground arith

length-span_name : (s : Text) → length (span_name s).1 ≤ length s
unfolding span_name
length-span_name [] = omega arith
length-span_name (c ∷ s) = elim (Bool-cases (in_name c)) [
  | inl hit ↦ rw hit (omega (arith, length-span_name s))
  | inr miss ↦ rw miss (omega arith)
]

length-span_name_first :
    (c : ℕ) (s : Text) → starts_name c ≡ true → length (span_name (c ∷ s)).1 ≤ length s
unfolding span_name
length-span_name_first c s h =
    let inside : in_name c ≡ true = ground arith in rw inside (length-span_name s)

length-op_token :
    (c : ℕ) (s : Text) → weight (op_token c s).0 + length (op_token c s).1 ≤ suc (length s)
unfolding op_token
length-op_token c [] = omega arith
length-op_token c (x ∷ s) = ground arith

length-token_at : (s : Text) → weight (token_at s).0 + length (token_at s).1 ≤ length s
unfolding token_at
length-token_at [] = omega arith
length-token_at (c ∷ s) = elim (Bool-cases (is_digit c)) [
  | inl digit ↦ rw digit (length-number_token c s digit)
  | inr other ↦ elim (Bool-cases (starts_name c)) [
    | inl letter ↦ rw (other, letter) (omega (arith, length-span_name_first c s letter))
    | inr sign ↦ rw (other, sign) (let l = length-op_token c s in ground arith)
  ]
]

-- The token and the text behind it are no longer than the text.
pub length-next_token : (s : Text) → weight (next_token s).0 + length (next_token s).1 ≤ length s
unfolding next_token
length-next_token s = omega (arith, length-token_at (skip_space s), length-skip_space s)
