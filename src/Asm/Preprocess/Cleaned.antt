-- ===== src/Asm/Preprocess/Cleaned.antt =====
-- The text that assembler/preprocessor.c keeps of a line, against a description of it.
use aru_xi.Base.{
  ℕ, suc, ◌-◌, true, false, ◌||◌, ◌==◌, Option, none, some, [], ◌∷◌, ◌++◌, ◌≡◌, ◌⊎◌, refl, ◌∙◌, ap,
  arith, Bool-cases, inl, inr, length, length-append,
}
use aru_xi.Base.Text.{Text}
use aru_xi.Asm.Instructions.Memory.{skip_blanks}
use aru_xi.Asm.Preprocess.Trimmed.{uncommented, kept, trim_end, trimmed_lem}
use aru_xi.Asm.Preprocess.{
  comment, newline, is_blank, char_at, take, last_place, preprocess_from, preprocess,
}

abbrev pub HasNoNewline : Text → Type 0
HasNoNewline [] = Unit
HasNoNewline (c ∷ s) = ((c == newline) ≡ false) × HasNoNewline s

abbrev pub ended : Text → Text
ended body = body ++ (newline ∷ [])

-- Nothing, or a text with something in it.
abbrev pub something : Text → Option Text
something [] = none
something (c ∷ s) = some (c ∷ s)

-- Of a line without its line feed: without comment and without blanks at either end.
abbrev pub cleaned : Text → Text
cleaned body = trim_end (uncommented (skip_blanks body))

char_at-ended : (s : Text) → char_at (ended s) (length s) ≡ newline
char_at-ended [] = refl
char_at-ended (c ∷ s) = char_at-ended s

take-ended : (s : Text) → take (length s) (ended s) ≡ s
take-ended [] = refl
take-ended (c ∷ s) = ap (λ (l : Text). c ∷ l) (take-ended s)

last_place-ended : (c : ℕ) (s : Text) → last_place (ended (c ∷ s)) ≡ length s
unfolding last_place
last_place-ended c s =
    let size : length (ended (c ∷ s)) - 1 ≡ suc (length s) =
      omega (arith, length-append s (newline ∷ [])) in
    rw (size, char_at-ended s) (omega arith)

skip_blanks-ended : (body : Text) → skip_blanks (ended body) ≡ ended (skip_blanks body)
unfolding skip_blanks
skip_blanks-ended [] = refl
skip_blanks-ended (c ∷ s) = elim (Bool-cases (is_blank c)) [
  | inl blank ↦ rw blank (skip_blanks-ended s)
  | inr solid ↦ rw solid refl
]

-- What `skip_blanks` leaves starts with no blank and has no line feed.
skip_blanks-solid :
    (body : Text)
    → HasNoNewline body
    → (skip_blanks body ≡ [])
      ⊎ ((c : ℕ) × (s : Text) × (skip_blanks body ≡ c ∷ s)
          × (is_blank c ≡ false)
          × ((c == newline) ≡ false))
unfolding skip_blanks
skip_blanks-solid [] h = inl refl
skip_blanks-solid (c ∷ s) h = elim (Bool-cases (is_blank c)) [
  | inl blank ↦ rw blank (skip_blanks-solid s h.1)
  | inr solid ↦ rw solid (inr (c, s, refl, solid, h.0))
]

preprocess-preprocess_from : (s : Text) → preprocess s ≡ preprocess_from (skip_blanks s)
unfolding preprocess preprocess_from skip_blanks
preprocess-preprocess_from [] = refl
preprocess-preprocess_from (c ∷ s) = elim (Bool-cases (c == newline || c == comment)) [
  | inl over ↦
      let solid : is_blank c ≡ false = ground arith in
      let over' : (c == comment || c == newline) ≡ true = ground arith in
      rw (over, solid) (rw over' refl)
  | inr more ↦ rw more refl
]

kept-something : (c : ℕ) (s : Text) → is_blank c ≡ false → some (kept c s) ≡ something (kept c s)
kept-something c [] solid = rw solid refl
kept-something c (d ∷ s) solid = refl

preprocess_from-solid :
    (c : ℕ) (s : Text)
    → is_blank c ≡ false
    → (c == newline) ≡ false
    → preprocess_from (ended (c ∷ s)) ≡ something (trim_end (uncommented (c ∷ s)))
unfolding preprocess_from
preprocess_from-solid c s solid inside = elim (Bool-cases (c == comment)) [
  | inl here ↦ rw here refl
  | inr other ↦
      let place = last_place-ended c s in
      let size = length-append s (newline ∷ []) in
      let text =
        trimmed_lem (ended (c ∷ s)) other solid (omega arith)
        ∙ ap (λ (n : ℕ). trim_end (uncommented (take (suc n) (ended (c ∷ s))))) place
        ∙ ap (λ (l : Text). trim_end (uncommented (c ∷ l))) (take-ended s) in
      rw (other, inside)
        (ap (λ (l : Text). some l) text
          ∙ rw other (kept-something c (trim_end (uncommented s)) solid))
]

-- Of a line that ends in a line feed and holds no other, `preprocess` returns what is left when the
-- comment and the blanks at both ends are taken away, and nothing when nothing is left.
pub preprocess-cleaned :
    (body : Text) → HasNoNewline body → preprocess (ended body) ≡ something (cleaned body)
preprocess-cleaned body h =
    preprocess-preprocess_from (ended body)
    ∙ ap preprocess_from (skip_blanks-ended body)
    ∙ elim (skip_blanks-solid body h) [
      | inl blank ↦ rw blank (unfold preprocess_from in refl)
      | inr (c, s, shape, solid, inside) ↦ rw shape (preprocess_from-solid c s solid inside)
    ]
