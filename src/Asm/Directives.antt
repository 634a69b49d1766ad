-- ===== src/Asm/Directives.antt =====
-- The directives of assembler/lexer-parser.c.
--
-- `ev` is the evaluator over the symbol table. The text of an expression that `.set` defers is kept
-- by value; the C code keeps a pointer into the line, which the caller frees.
-- `crashed` is also what C leaves undefined: a string without its first quote, an empty fill, and a
-- sixth float, for which the array is not enlarged.
pub mod Define
pub mod Data
pub mod Handle
pub mod Layout
use aru_xi.Base.{
  ℕ, zero, suc, ◌+◌, ◌-◌, ◌*◌, ◌%◌, ◌^◌, Bool, true, false, ◌&&◌, ◌||◌, not, ◌==◌, ltb, leb,
  if◌then◌else◌, bit_or, bit_and, Option, none, some, List, [], ◌∷◌, ◌++◌, map, length, u32, ◌<<<◌,
}
use Prim.Native.String.{String}
use aru_xi.Base.Text.{Text, codes, str_eq, to_lower}
use aru_xi.Asm.Operands.{Result, done, fatal, crashed, ◌>>=◌, Instr}
use aru_xi.Asm.Symbols.{
  SymbEntry, SymbolTable, expr, value, get_defined, init_symb_entry, add_symb_entry, get_symb_entry,
  change_entry,
}
use aru_xi.Asm.Encoder.{Evaluator}
use aru_xi.Asm.Strtok.{strtok, count_tokens}
use aru_xi.Asm.Tables.{
  SectionTable, activate, set_lp, active_lp, DataContent, no_data, str, zeros, values, DataEntry,
  DataTable, init_data_entry, add_data_entry,
}

-- The tables of the first pass, and `halt`.
pub record Assembly : Type 0 where
  pub symbols : SymbolTable
  pub sections : SectionTable
  pub data_table : DataTable
  pub stream : List Instr
  pub halt : Bool

pub data Directive : Type 0 where
  data_dir const_dir bss_dir text_dir evt_dir ivt_dir set_dir glob_dir end_dir string_dir byte_dir
        hword_dir word_dir float_dir zero_dir fill_dir align_dir :
      Directive

unfoldable pub valid_directives : List (String × Directive)
valid_directives =
    ("data", data_dir)
    ∷ ("const", const_dir)
    ∷ ("bss", bss_dir)
    ∷ ("text", text_dir)
    ∷ ("evt", evt_dir)
    ∷ ("ivt", ivt_dir)
    ∷ ("set", set_dir)
    ∷ ("glob", glob_dir)
    ∷ ("end", end_dir)
    ∷ ("string", string_dir)
    ∷ ("byte", byte_dir)
    ∷ ("hword", hword_dir)
    ∷ ("word", word_dir)
    ∷ ("float", float_dir)
    ∷ ("zero", zero_dir)
    ∷ ("fill", fill_dir)
    ∷ ("align", align_dir)
    ∷ []

unfoldable pub find_directive : List (String × Directive) → Text → Result Directive
find_directive [] name = fatal
find_directive ((s, d) ∷ rest) name =
    let later = find_directive rest name in if str_eq (codes s) name then done d else later

unfoldable pub validate_directive : Text → Result Directive
validate_directive name = find_directive valid_directives name

-- What the two lower groups of cases share.
abbrev pub not_in_bss_or_text : ℕ → Result (Unit {0})
not_in_bss_or_text active = if active == 2 then fatal else (if active == 3 then fatal else done tt)

unfoldable pub validate_section : Directive → ℕ → Result (Unit {0})
validate_section string_dir active =
    if active == 4 || active == 5 then fatal else not_in_bss_or_text active
validate_section float_dir active =
    if active == 4 || active == 5 then fatal else not_in_bss_or_text active
validate_section fill_dir active =
    if active == 4 || active == 5 then fatal else not_in_bss_or_text active
validate_section byte_dir active = not_in_bss_or_text active
validate_section hword_dir active = not_in_bss_or_text active
validate_section word_dir active = not_in_bss_or_text active
validate_section zero_dir active =
    if not (active == 2) && (not (active == 4) || not (active == 5))
    then done tt
    else (if active == 4 || active == 5 then fatal else done tt)
validate_section d active = done tt

abbrev pub blanks : Text
blanks = b' ' ∷ 9 ∷ []

abbrev pub comma : Text
comma = b',' ∷ []

abbrev pub create_flags : ℕ → ℕ → ℕ → ℕ → ℕ → ℕ → ℕ
create_flags e s t l r d =
    bit_or (bit_or (bit_or (bit_or (bit_or (e <<< 7) (s <<< 4)) (t <<< 3)) (l <<< 2)) (r <<< 1)) d

-- A token that has to be there, and the end of the arguments.
abbrev pub expect : Option Text × Text → Result (Text × Text)
expect (none, rest) = fatal
expect (some t, rest) = done (t, rest)

abbrev pub expect_end : Option Text × Text → Result (Unit {0})
expect_end (none, rest) = done tt
expect_end (some t, rest) = fatal

-- A fatal error if the test holds.
abbrev pub unless : {A : Type 0} → Bool → Result A → Result A
unless true r = fatal
unless false r = r

abbrev pub crash_if : {A : Type 0} → Bool → Result A → Result A
crash_if true r = crashed
crash_if false r = r

-- `handleError` where the evaluation has failed.
abbrev pub evaluated : Option ℕ × SymbolTable → Result (ℕ × SymbolTable)
evaluated (none, table) = fatal
evaluated (some v, table) = done (v, table)
