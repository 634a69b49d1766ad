-- ===== src/Asm/Preprocess/Trimmed.antt =====
-- The loops of assembler/preprocessor.c, against the text without comment and without blanks at its
-- end.
use aru_xi.Base.{
  ℕ, zero, suc, ◌<◌, ◌≤◌, true, false, ◌==◌, if◌then◌else◌, [], ◌∷◌, ◌++◌, ◌≡◌, ◌⊎◌, refl, sym, ◌∙◌,
  ap, arith, Bool-cases, inl, inr, length,
}
use aru_xi.Base.Text.{Text}
use aru_xi.Asm.Preprocess.{
  comment, is_blank, char_at, take, back_from, find_comment, back_comment, before_comment,
  last_place, trimmed,
}

-- What stands before the first comment sign.
abbrev pub uncommented : Text → Text
uncommented [] = []
uncommented (c ∷ s) = if c == comment then [] else c ∷ uncommented s

abbrev pub kept : ℕ → Text → Text
kept c [] = if is_blank c then [] else c ∷ []
kept c (d ∷ s) = c ∷ d ∷ s

-- Without the blanks at the end.
abbrev pub trim_end : Text → Text
trim_end [] = []
trim_end (c ∷ s) = kept c (trim_end s)

kept-append : (d c : ℕ) (s : Text) → kept d (s ++ (c ∷ [])) ≡ d ∷ (s ++ (c ∷ []))
kept-append d c [] = refl
kept-append d c (x ∷ s) = refl

trim_end-append :
    (s : Text) (c : ℕ)
    → trim_end (s ++ (c ∷ [])) ≡ (if is_blank c then trim_end s else s ++ (c ∷ []))
trim_end-append [] c = refl
trim_end-append (d ∷ s) c =
    let rest = trim_end-append s c in
    elim (Bool-cases (is_blank c)) [
      | inl blank ↦ rw blank (ap (kept d) (rest ∙ rw blank refl))
      | inr other ↦ rw other (ap (kept d) (rest ∙ rw other refl) ∙ kept-append d c s)
    ]

take-suc : (n : ℕ) (s : Text) → n < length s → take (suc n) s ≡ take n s ++ (char_at s n ∷ [])
take-suc n [] h = absurd (omega arith)
take-suc zero (c ∷ s) h = refl
take-suc (suc n) (c ∷ s) h = ap (λ (l : Text). c ∷ l) (take-suc n s (omega arith))

trim_end-blank :
    (n : ℕ) (s : Text)
    → n < length s
    → is_blank (char_at s n) ≡ true
    → trim_end (take (suc n) s) ≡ trim_end (take n s)
trim_end-blank n s h blank =
    ap trim_end (take-suc n s h) ∙ trim_end-append (take n s) (char_at s n) ∙ rw blank refl

trim_end-other :
    (n : ℕ) (s : Text)
    → n < length s
    → is_blank (char_at s n) ≡ false
    → trim_end (take (suc n) s) ≡ take (suc n) s
trim_end-other n s h other =
    ap trim_end (take-suc n s h)
    ∙ trim_end-append (take n s) (char_at s n)
    ∙ (rw other refl ∙ sym (take-suc n s h))

-- The end that is found going back is that of the trimmed text.
back_from-trims :
    (n : ℕ) (s : Text)
    → n < length s
    → is_blank (char_at s 0) ≡ false
    → take (suc (back_from n s)) s ≡ trim_end (take (suc n) s)
unfolding back_from
back_from-trims zero [] h first = absurd (omega arith)
back_from-trims zero (c ∷ s) h first = rw first refl
back_from-trims (suc n) s h first = elim (Bool-cases (is_blank (char_at s (suc n)))) [
  | inl blank ↦
      rw blank (back_from-trims n s (omega arith) first ∙ sym (trim_end-blank (suc n) s h blank))
  | inr other ↦ rw other (sym (trim_end-other (suc n) s h other))
]

back_comment-trims :
    (n : ℕ) (s : Text)
    → n < length s
    → is_blank (char_at s 0) ≡ false
    → is_blank (char_at s n) ≡ true
    → take (back_comment n s) s ≡ trim_end (take (suc n) s)
unfolding back_comment
back_comment-trims zero s h first blank = cc
back_comment-trims (suc n) s h first blank = elim (Bool-cases (is_blank (char_at s n))) [
  | inl more ↦
      rw (blank, more)
        (back_comment-trims n s (omega arith) first more ∙ sym (trim_end-blank (suc n) s h blank))
  | inr other ↦
      rw (blank, other)
        (sym (trim_end-blank (suc n) s h blank ∙ trim_end-other n s (omega arith) other))
]

find_comment-cuts :
    (n : ℕ) (s : Text) → n ≤ length s → take (find_comment n s) s ≡ uncommented (take n s)
unfolding find_comment
find_comment-cuts zero s h = refl
find_comment-cuts (suc n) [] h = absurd (omega arith)
find_comment-cuts (suc n) (c ∷ s) h = elim (Bool-cases (c == comment)) [
  | inl here ↦ rw here refl
  | inr other ↦ rw other (ap (λ (l : Text). c ∷ l) (find_comment-cuts n s (omega arith)))
]

-- A text without its comment, and one without its last blanks, may be stripped of the other in either
-- order, the result of which is trimmed.
before_comment-trims :
    (pos : ℕ) (s : Text)
    → pos < length s
    → (char_at s 0 == comment) ≡ false
    → is_blank (char_at s 0) ≡ false
    → (char_at s pos == comment) ≡ true
    → take (before_comment pos s) s ≡ trim_end (take pos s)
unfolding before_comment
before_comment-trims zero s h start first at = cc
before_comment-trims (suc pos) s h start first at = elim (Bool-cases (is_blank (char_at s pos))) [
  | inl blank ↦ rw (at, blank) (back_comment-trims pos s (omega arith) first blank)
  | inr other ↦ rw (at, other) (sym (trim_end-other pos s (omega arith) other))
]

uncommented-kept :
    (c : ℕ) (s : Text)
    → (c == comment) ≡ false
    → trim_end (uncommented (kept c s)) ≡ kept c (trim_end (uncommented s))
uncommented-kept c [] other = elim (Bool-cases (is_blank c)) [
  | inl blank ↦ rw blank refl
  | inr solid ↦ rw (solid, other) (rw solid refl)
]
uncommented-kept c (d ∷ s) other = rw other refl

kept-solid : (c : ℕ) (s : Text) → is_blank c ≡ false → kept c s ≡ c ∷ s
kept-solid c [] solid = rw solid refl
kept-solid c (d ∷ s) solid = refl

-- To take the blanks off the end first makes no difference.
uncommented-trim_end : (s : Text) → trim_end (uncommented (trim_end s)) ≡ trim_end (uncommented s)
uncommented-trim_end [] = refl
uncommented-trim_end (c ∷ s) = elim (Bool-cases (c == comment)) [
  | inl here ↦
      let solid : is_blank c ≡ false = ground arith in
      ap (λ (l : Text). trim_end (uncommented l)) (kept-solid c (trim_end s) solid) ∙ rw here refl
  | inr other ↦
      uncommented-kept c (trim_end s) other ∙ ap (kept c) (uncommented-trim_end s) ∙ rw other refl
]

find_comment-cases :
    (n : ℕ) (s : Text)
    → n ≤ length s
    → (find_comment n s ≡ n)
      ⊎ (((char_at s (find_comment n s) == comment) ≡ true) × (find_comment n s < n))
unfolding find_comment
find_comment-cases zero s h = inl refl
find_comment-cases (suc n) [] h = absurd (omega arith)
find_comment-cases (suc n) (c ∷ s) h = elim (Bool-cases (c == comment)) [
  | inl here ↦ rw here (inr (here, omega arith))
  | inr other ↦ rw other (elim (find_comment-cases n s (omega arith)) [
    | inl none_found ↦ inl (ap suc none_found)
    | inr (at, less) ↦ inr (at, omega arith)
  ])
]

back_from-solid :
    (n : ℕ) (s : Text)
    → is_blank (char_at s 0) ≡ false
    → is_blank (char_at s (back_from n s)) ≡ false
unfolding back_from
back_from-solid zero s first = first
back_from-solid (suc n) s first = elim (Bool-cases (is_blank (char_at s (suc n)))) [
  | inl blank ↦ rw blank (back_from-solid n s first)
  | inr other ↦ rw other other
]

back_from-le : (n : ℕ) (s : Text) → back_from n s ≤ n
unfolding back_from
back_from-le zero s = omega arith
back_from-le (suc n) s = let rest = back_from-le n s in ground arith

-- Where there is no comment the text ends at its last character that is no blank.
before_comment-solid :
    (end : ℕ) (s : Text) → is_blank (char_at s end) ≡ false → before_comment (suc end) s ≡ suc end
unfolding before_comment
before_comment-solid end s solid = rw solid (ground arith)

module _ (s : Text) (start : (char_at s 0 == comment) ≡ false)
    (first : is_blank (char_at s 0) ≡ false) where
  before_comment-cut :
      (end : ℕ)
      → end < length s
      → is_blank (char_at s end) ≡ false
      → take (before_comment (find_comment (suc end) s) s) s
        ≡ trim_end (take (find_comment (suc end) s) s)
  before_comment-cut end h solid = elim (find_comment-cases (suc end) s (omega arith)) [
    | inl all ↦ rw all (
        ap (λ (n : ℕ). take n s) (before_comment-solid end s solid)
        ∙ sym (trim_end-other end s h solid))
    | inr (at, less) ↦
        before_comment-trims (find_comment (suc end) s) s (omega arith) start first at
  ]

  pub trimmed_lem :
      last_place s < length s → trimmed s ≡ trim_end (uncommented (take (suc (last_place s)) s))
  trimmed_lem h =
      let end = back_from (last_place s) s in
      let bound = back_from-le (last_place s) s in
      before_comment-cut end (omega arith) (back_from-solid (last_place s) s first)
      ∙ ap trim_end (find_comment-cuts (suc end) s (omega arith))
      ∙ ap (λ (l : Text). trim_end (uncommented l)) (back_from-trims (last_place s) s h first)
      ∙ uncommented-trim_end (take (suc (last_place s)) s)
