-- ===== src/Asm/Object/Sections.antt =====
-- The section headers of assembler/generator.c.
use aru_xi.Base.{
  ℕ, zero, suc, ◌+◌, ◌<◌, ◌^◌, ◌==◌, ==_iff, Bool, true, false, if◌then◌else◌, Option, none, some,
  ◌≡◌, refl, sym, ◌∙◌, ap, subst, arith, Bool-cases, inl, inr, u32, all_below, all_below_sound,
}
use aru_xi.Base.Text.{codes, str_eq}
use aru_xi.Asm.Tables.{SectEntry, SectionTable}
use aru_xi.Asm.Object.{
  AoeffHeader, AoeffSectHeader, sect_name, headers_from, generate_section_headers, find_header,
}

-- The section's bytes, for one that is there.
abbrev pub extent : SectEntry → ℕ
extent e = if e.present then e.size else 0

-- What the sections from `i` on to the `n`-th behind it take.
unfoldable pub extents : ℕ → ℕ → (ℕ → SectEntry) → ℕ
extents zero i entries = 0
extents (suc n) i entries = extent (entries i) + extents n (suc i) entries

agrees : Bool → Bool → Bool
agrees true b = b
agrees false true = false
agrees false false = true

agrees_sound : (a b : Bool) → agrees a b ≡ true → a ≡ b
unfolding agrees
agrees_sound true true h = refl
agrees_sound true false h = cc
agrees_sound false true h = cc
agrees_sound false false h = refl

same_name : ℕ → ℕ → Bool
same_name a b = agrees (str_eq (sect_name a) (sect_name b)) (a == b)

-- The names of the sections differ.
str_eq-sect_name : (a b : ℕ) → a < 6 → b < 6 → str_eq (sect_name a) (sect_name b) ≡ (a == b)
str_eq-sect_name a b ha hb =
    let all : all_below 6 (λ x. all_below 6 (λ y. same_name x y)) ≡ true =
      unfold all_below same_name agrees str_eq in refl in
    let row = all_below_sound 6 (λ x. all_below 6 (λ y. same_name x y)) a all ha in
    let cell = all_below_sound 6 (λ y. same_name a y) b row hb in
    agrees_sound (str_eq (sect_name a) (sect_name b)) (a == b) (unfold same_name in cell)

last_name : (a : ℕ) → a < 6 → str_eq (sect_name a) (codes "._none") ≡ false
last_name a ha =
    let all : all_below 6 (λ x. agrees (str_eq (sect_name x) (codes "._none")) false) ≡ true =
      unfold all_below agrees str_eq in refl in
    agrees_sound (str_eq (sect_name a) (codes "._none")) false
      (all_below_sound 6 (λ x. agrees (str_eq (sect_name x) (codes "._none")) false) a all ha)

module _ (entries : ℕ → SectEntry) (k : ℕ) where
  -- The header of the section with this offset, if it is there.
  abbrev pub placed_at : ℕ → Option AoeffSectHeader
  placed_at offset =
      if (entries k).present
      then some (record {
        sh_sect_name = sect_name k;
        sh_sect_off = offset;
        sh_sect_size = (entries k).size;
      })
      else none

  module _ (few : k < 6) where
    find_header-passed :
        (left i offset : ℕ)
        → k < i
        → i + left ≡ 6
        → find_header (sect_name k) (headers_from left i offset entries) ≡ none
    unfolding find_header headers_from
    find_header-passed zero i offset h six = rw (last_name k few) refl
    find_header-passed (suc left) i offset h six =
        let other : str_eq (sect_name k) (sect_name i) ≡ false =
          str_eq-sect_name k i few (omega arith) ∙ ground arith in
        elim (Bool-cases (entries i).present) [
          | inl here ↦
              rw (here, other)
                (find_header-passed left (suc i) (u32 (offset + (entries i).size)) (omega arith)
                  (omega arith))
          | inr absent ↦
              rw absent (find_header-passed left (suc i) offset (omega arith) (omega arith))
        ]

    find_header-here :
        (left offset : ℕ)
        → k + suc left ≡ 6
        → find_header (sect_name k) (headers_from (suc left) k offset entries) ≡ placed_at offset
    unfolding find_header headers_from
    find_header-here left offset six =
        let same : str_eq (sect_name k) (sect_name k) ≡ true =
          str_eq-sect_name k k few few ∙ (==_iff k k).1 refl in
        elim (Bool-cases (entries k).present) [
          | inl here ↦ rw (here, same) refl
          | inr absent ↦
              rw absent (find_header-passed left (suc k) offset (omega arith) (omega arith))
        ]

    find_header-ahead :
        (left i d offset : ℕ)
        → i + d ≡ k
        → i + left ≡ 6
        → offset < 2 ^ 32
        → find_header (sect_name k) (headers_from left i offset entries)
          ≡ placed_at (u32 (offset + extents d i entries))
    unfolding find_header headers_from extents
    find_header-ahead zero i d offset at six small = absurd (omega arith)
    find_header-ahead (suc left) i zero offset at six small =
        let here : i ≡ k = omega arith in
        let whole : offset ≡ u32 (offset + 0) = omega arith in
        subst
          (λ (j : ℕ).
            find_header (sect_name k) (headers_from (suc left) j offset entries)
            ≡ placed_at (u32 (offset + 0)))
          (sym here) (find_header-here left offset (omega arith) ∙ ap placed_at whole)
    find_header-ahead (suc left) i (suc d) offset at six small =
        let other : str_eq (sect_name k) (sect_name i) ≡ false =
          str_eq-sect_name k i few (omega arith) ∙ ground arith in
        elim (Bool-cases (entries i).present) [
          | inl here ↦
              rw (here, other)
                (find_header-ahead left (suc i) d (u32 (offset + (entries i).size)) (omega arith)
                    (omega arith) (omega arith)
                  ∙ ap placed_at (omega arith))
          | inr absent ↦ rw absent (
              find_header-ahead left (suc i) d offset (omega arith) (omega arith) small
              ∙ ap placed_at (omega arith))
        ]

-- In the section headers the k-th section is found exactly when it is there, with its size, and its
-- offset is the end of the string table and what the sections before it take, bss included.
pub find_header-generate_section_headers :
    (h : AoeffHeader) (t : SectionTable) (k : ℕ)
    → k < 6
    → find_header (sect_name k) (generate_section_headers h t)
      ≡ placed_at t.entries k (u32 (h.h_str_tab_off + h.h_str_tab_size + extents k 0 t.entries))
unfolding generate_section_headers
find_header-generate_section_headers h t k few =
    find_header-ahead t.entries k few 6 0 k (u32 (h.h_str_tab_off + h.h_str_tab_size)) (omega arith)
      refl (omega arith)
    ∙ ap (placed_at t.entries k) (omega arith)
