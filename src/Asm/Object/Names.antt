-- ===== src/Asm/Object/Names.antt =====
-- The string table of assembler/generator.c, as a reader of the object file uses it.
use mathlib.Core.List.{append_assoc}
use aru_xi.Base.{
  ℕ, zero, suc, ◌+◌, ◌^◌, ◌<◌, ◌==◌, false, if◌then◌else◌, List, [], ◌∷◌, ◌++◌, ◌≡◌, refl, sym, ◌∙◌,
  ap, subst, arith, u32, length, length-append,
}
use aru_xi.Base.Text.{Text}
use aru_xi.Asm.Symbols.{SymbolTable}
use aru_xi.Asm.Object.{
  AoeffSymbEntry, end_strs, behind_first, strings_of, symbols_from, generate_symbol_table,
}

-- The list behind the first `n`, on the native numbers.
abbrev pub drop : {A : Type 0} → ℕ → List A → List A
drop zero xs = xs
drop (suc n) [] = []
drop (suc n) (x ∷ xs) = drop n xs

-- The string that starts an array of characters.
unfoldable pub c_string : Text → Text
c_string [] = []
c_string (c ∷ s) = let rest = c_string s in if c == 0 then [] else c ∷ rest

abbrev pub HasNoNull : Text → Type 0
HasNoNull [] = Unit
HasNoNull (c ∷ s) = ((c == 0) ≡ false) × HasNoNull s

abbrev pub NoNulls : SymbolTable → Type 0
NoNulls [] = Unit
NoNulls (e ∷ table) = HasNoNull e.name × NoNulls table

-- At the place that each symbol has for it stands the entry's name.
abbrev pub AreNamed : Text → List AoeffSymbEntry → SymbolTable → Type 0
AreNamed strs symbols [] = Unit
AreNamed strs [] (e ∷ table) = ⊥
AreNamed strs (s ∷ symbols) (e ∷ table) =
    (c_string (drop s.se_symb_name strs) ≡ e.name) × AreNamed strs symbols table

pub drop-append : {A : Type 0} (xs ys : List A) → drop (length xs) (xs ++ ys) ≡ ys
drop-append [] ys = refl
drop-append (x ∷ xs) ys = drop-append xs ys

c_string-append : (name rest : Text) → HasNoNull name → c_string (name ++ (0 ∷ rest)) ≡ name
unfolding c_string
c_string-append [] rest h = refl
c_string-append (c ∷ name) rest h = rw (h.0, c_string-append name rest h.1) refl

symbols_from-AreNamed :
    (pointer : Text → ℕ) (before after : Text) (table : SymbolTable)
    → NoNulls table
    → length (before ++ strings_of table) < 2 ^ 32
    → AreNamed
        (before ++ (strings_of table ++ after))
        (symbols_from pointer (length before) table)
        table
unfolding symbols_from strings_of
symbols_from-AreNamed pointer before after [] h fit = tt
symbols_from-AreNamed pointer before after (e ∷ table) h fit =
    let strs = strings_of table in
    let before' = before ++ (e.name ++ (0 ∷ [])) in
    let sizes : length (before ++ (e.name ++ (0 ∷ strs)))
        ≡ length before + (length e.name + (1 + length strs)) =
      omega (arith, length-append before (e.name ++ (0 ∷ strs)), length-append e.name (0 ∷ strs)) in
    let sizes' : length before' ≡ length before + (length e.name + 1) =
      omega (arith, length-append before (e.name ++ (0 ∷ [])), length-append e.name (0 ∷ [])) in
    let place : length before' ≡ u32 (length before + (length e.name + 1)) = omega arith in
    let same : before' ++ (strs ++ after) ≡ before ++ ((e.name ++ (0 ∷ strs)) ++ after) =
      append_assoc before (e.name ++ (0 ∷ [])) (strs ++ after)
      ∙ ap (λ (s : Text). before ++ s)
          (append_assoc e.name (0 ∷ []) (strs ++ after)
            ∙ sym (append_assoc e.name (0 ∷ strs) after)) in
    (
      ap c_string (
            ap (drop (length before))
              (ap (λ (s : Text). before ++ s) (append_assoc e.name (0 ∷ strs) after))
            ∙ drop-append before (e.name ++ (0 ∷ (strs ++ after))))
          ∙ c_string-append e.name (strs ++ after) h.0,
      subst
          (λ (s : Text).
            AreNamed s (symbols_from pointer (u32 (length before + (length e.name + 1))) table)
              table)
          same
          (subst
            (λ (n : ℕ). AreNamed (before' ++ (strs ++ after)) (symbols_from pointer n table) table)
            place
            (symbols_from-AreNamed pointer before' after table h.1
              (omega (arith, length-append before' strs)))),
    )

-- Of an object file whose string table is below 4 GB and whose symbols' names hold no null byte, the
-- index of each symbol leads to its name.
pub generate_symbol_table-AreNamed :
    (pointer : Text → ℕ) (unset : ℕ) (table : SymbolTable)
    → NoNulls (behind_first table)
    → length (strings_of (behind_first table)) < 2 ^ 32
    → AreNamed
        (generate_symbol_table pointer unset table).1
        (generate_symbol_table pointer unset table).0
        (behind_first table)
unfolding generate_symbol_table
generate_symbol_table-AreNamed pointer unset table =
    symbols_from-AreNamed pointer [] (end_strs ++ (unset ∷ [])) (behind_first table)
