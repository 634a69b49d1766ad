-- ===== src/Asm/Lexer.antt =====
-- The tokens of an expression: `nextToken` of assembler/evaluator.c, and `strtol` with a `long` of
-- 64 bits as it is called there.
--
-- The lexer's position is the text from there on.
pub mod Progress
use aru_xi.Base.{
  ℕ, zero, suc, ◌+◌, ◌-◌, ◌*◌, ◌%◌, ◌^◌, Bool, true, false, ◌&&◌, ◌||◌, ◌==◌, leb, ltb,
  if◌then◌else◌, List, [], ◌∷◌, u32,
}
use aru_xi.Base.Text.{Text}
use aru_xi.Asm.Operands.{is_digit, skip_space}

pub data Token : Type 0 where
  end lparen rparen : Token
  int : ℕ → Token
  symb op : Text → Token

abbrev pub is_alpha : ℕ → Bool
is_alpha c = (leb b'a' c && leb c b'z') || (leb b'A' c && leb c b'Z')

-- The digit that a character is in the bases up to 36, and 36 for any other character.
abbrev pub digit_value : ℕ → ℕ
digit_value c =
    if is_digit c
    then c - b'0'
    else (if leb b'a' c && leb c b'z'
        then c - b'a' + 10
        else (if leb b'A' c && leb c b'Z' then c - b'A' + 10 else 36))

abbrev pub is_base_digit : ℕ → ℕ → Bool
is_base_digit base c = ltb (digit_value c) base

-- The number that the digits at the front make, and the text behind them.
unfoldable pub scan_digits : ℕ → ℕ → Text → ℕ × Text
scan_digits base acc [] = (acc, [])
scan_digits base acc (c ∷ s) =
    let rest = scan_digits base (acc * base + digit_value c) s in
    if is_base_digit base c then rest else (acc, c ∷ s)

-- `(int32_t)` of a `long` that was clamped to its range.
abbrev pub from_long : Bool → ℕ → ℕ
from_long true v = u32 (2 ^ 64 - (if ltb v (2 ^ 63) then v else 2 ^ 63))
from_long false v = u32 (if ltb v (2 ^ 63) then v else 2 ^ 63 - 1)

-- The digits after sign and prefix; without any, the end is the start of the number.
unfoldable pub read_digits : ℕ → Text → Bool → Text → ℕ × Text
read_digits base start minus [] = (0, start)
read_digits base start minus (c ∷ s) =
    let (v, rest) = scan_digits base 0 (c ∷ s) in
    if is_base_digit base c then (from_long minus v, rest) else (0, start)

-- `0x` in base 16 is skipped when a digit follows.
unfoldable pub skip_prefix : ℕ → Text → Text
skip_prefix base (z ∷ x ∷ h ∷ s) =
    if (base == 16) && (z == b'0') && (x == b'x' || x == b'X') && is_base_digit 16 h
    then h ∷ s
    else z ∷ x ∷ h ∷ s
skip_prefix base s = s

unfoldable pub read_signed : ℕ → Text → Text → ℕ × Text
read_signed base start [] = (0, start)
read_signed base start (c ∷ s) =
    if c == b'-'
    then read_digits base start true (skip_prefix base s)
    else (if c == b'+'
        then read_digits base start false (skip_prefix base s)
        else read_digits base start false (skip_prefix base (c ∷ s)))

-- `strtol(s, &end, base)`, cast to `int32_t`, and the text from `end` on.
unfoldable pub strtol : ℕ → Text → ℕ × Text
strtol base s = read_signed base s (skip_space s)

abbrev pub int_token : ℕ × Text → Token × Text
int_token r = (int r.0, r.1)

-- The base is told from the second character; `b` moves the start behind itself.
unfoldable pub number_token : ℕ → Text → Token × Text
number_token c [] = int_token (strtol 10 (c ∷ []))
number_token c (d ∷ s) =
    if d == b'x'
    then int_token (strtol 16 (c ∷ d ∷ s))
    else (if d == b'b' then int_token (strtol 2 s) else int_token (strtol 10 (c ∷ d ∷ s)))

abbrev pub starts_name : ℕ → Bool
starts_name c = is_alpha c || (c == b'_') || (c == b'@')

abbrev pub in_name : ℕ → Bool
in_name c = is_alpha c || is_digit c || (c == b'_') || (c == b'@')

-- The longest front of name characters, and what is behind it.
unfoldable pub span_name : Text → Text × Text
span_name [] = ([], [])
span_name (c ∷ s) =
    let (name, rest) = span_name s in if in_name c then (c ∷ name, rest) else ([], c ∷ s)

abbrev pub symb_token : Text × Text → Token × Text
symb_token r = (symb r.0, r.1)

-- `<<` and `>>` are one operator; any other character is one by itself.
unfoldable pub op_token : ℕ → Text → Token × Text
op_token c [] = (op (c ∷ []), [])
op_token c (d ∷ s) =
    if (c == b'<' || c == b'>') && (d == c) then (op (c ∷ d ∷ []), s) else (op (c ∷ []), d ∷ s)

unfoldable pub token_at : Text → Token × Text
token_at [] = (end, [])
token_at (c ∷ s) =
    if is_digit c
    then number_token c s
    else (if starts_name c
        then symb_token (span_name (c ∷ s))
        else (if c == b'(' then (lparen, s) else (if c == b')' then (rparen, s) else op_token c s)))

-- `nextToken`
unfoldable pub next_token : Text → Token × Text
unfolding token_at op_token span_name number_token strtol read_signed read_digits skip_prefix
    scan_digits skip_space
next_token s = token_at (skip_space s)
