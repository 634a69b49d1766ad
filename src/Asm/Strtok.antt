-- ===== src/Asm/Strtok.antt =====
-- `strtok_r` of the C library, as the assembler calls it: with the text still to be cut in `*save`.
use aru_xi.Base.{
  ℕ, zero, suc, Bool, false, ◌||◌, ◌==◌, if◌then◌else◌, Option, none, some, [], ◌∷◌, length,
}
use aru_xi.Base.Text.{Text}

unfoldable pub in_text : ℕ → Text → Bool
in_text c [] = false
in_text c (d ∷ s) = (c == d) || in_text c s

unfoldable pub skip_delims : Text → Text → Text
skip_delims delims [] = []
skip_delims delims (c ∷ s) =
    let rest = skip_delims delims s in if in_text c delims then rest else c ∷ s

-- The text up to a delimiter, and what is behind that delimiter.
unfoldable pub cut : Text → Text → Text × Text
cut delims [] = ([], [])
cut delims (c ∷ s) =
    let (front, behind) = cut delims s in if in_text c delims then ([], s) else (c ∷ front, behind)

unfoldable pub cut_off : Text → Text → Option Text × Text
cut_off delims [] = (none, [])
cut_off delims (c ∷ s) = let (front, behind) = cut delims (c ∷ s) in (some front, behind)

-- The token, `none` for the null pointer, and the text that `*save` points to then.
unfoldable pub strtok : Text → Text → Option Text × Text
unfolding skip_delims cut cut_off in_text
strtok delims s = cut_off delims (skip_delims delims s)

-- The number of tokens that a loop over `strtok` sees; no text has more tokens than characters.
unfoldable pub count_more : (Text → ℕ) → Option Text × Text → ℕ
count_more later (none, rest) = 0
count_more later (some t, rest) = suc (later rest)

unfoldable pub count_from : ℕ → Text → Text → ℕ
count_from zero delims s = 0
count_from (suc fuel) delims s = count_more (count_from fuel delims) (strtok delims s)

unfoldable pub count_tokens : Text → Text → ℕ
count_tokens delims s = count_from (suc (length s)) delims s
