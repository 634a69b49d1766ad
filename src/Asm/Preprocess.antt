-- ===== src/Asm/Preprocess.antt =====
-- assembler/preprocessor.c: what the assembler reads of a line.
--
-- The pointers into the line are places in the text behind the first blanks, where the null
-- character ends the line.
pub mod Cleaned
pub mod Tests
pub mod Trimmed
use aru_xi.Base.{
  ℕ, zero, suc, ◌+◌, ◌-◌, Bool, true, false, ◌&&◌, ◌||◌, ◌==◌, if◌then◌else◌, Option, none, some,
  List, [], ◌∷◌, length,
}
use aru_xi.Base.Text.{Text}
use aru_xi.Asm.Instructions.Memory.{skip_blanks}

abbrev pub comment : ℕ
comment = b'%'

abbrev pub newline : ℕ
newline = 10

abbrev pub is_blank : ℕ → Bool
is_blank c = c == b' ' || c == 9

abbrev pub char_at : Text → ℕ → ℕ
char_at [] i = 0
char_at (c ∷ s) zero = c
char_at (c ∷ s) (suc i) = char_at s i

abbrev pub take : ℕ → Text → Text
take zero s = []
take (suc n) [] = []
take (suc n) (c ∷ s) = c ∷ take n s

-- `while (end > start && isblank(*end)) end--`
unfoldable pub back_from : ℕ → Text → ℕ
back_from zero s = zero
back_from (suc end) s =
    let earlier = back_from end s in if is_blank (char_at s (suc end)) then earlier else suc end

-- `while (*commentPos != COMMENT && commentPos <= end) commentPos++`, with the characters that are left.
unfoldable pub find_comment : ℕ → Text → ℕ
find_comment zero s = zero
find_comment (suc left) [] = suc (find_comment left [])
find_comment (suc left) (c ∷ s) =
    let later = find_comment left s in if c == comment then zero else suc later

-- `while (end > start && isblank(*end) && isblank(*(end-1))) end--`
unfoldable pub back_comment : ℕ → Text → ℕ
back_comment zero s = zero
back_comment (suc end) s =
    let earlier = back_comment end s in
    if is_blank (char_at s (suc end)) && is_blank (char_at s end) then earlier else suc end

-- The end of the text before a comment at `pos`.
unfoldable pub before_comment : ℕ → Text → ℕ
before_comment zero s = zero
before_comment (suc pos) s =
    if (char_at s (suc pos) == comment) && is_blank (char_at s pos)
    then back_comment pos s
    else suc pos

-- The last character that counts, the line feed apart.
unfoldable pub last_place : Text → ℕ
last_place s = let last = length s - 1 in if char_at s last == newline then last - 1 else last

abbrev pub trimmed : Text → Text
trimmed s =
    let end = back_from (last_place s) s in take (before_comment (find_comment (suc end) s) s) s

-- With the text from `start` on; a line of blanks without line feed is the empty text.
unfoldable pub preprocess_from : Text → Option Text
preprocess_from [] = some []
preprocess_from (c ∷ s) = if c == comment || c == newline then none else some (trimmed (c ∷ s))

unfoldable pub preprocess : Text → Option Text
preprocess [] = some []
preprocess (c ∷ s) =
    if c == newline || c == comment then none else preprocess_from (skip_blanks (c ∷ s))
