-- ===== src/Asm/Directives/Data.antt =====
-- The directives of assembler/lexer-parser.c that reserve or fill memory.
use aru_xi.Base.{
  is_negative, ◌||◌, ℕ, zero, suc, ◌+◌, ◌*◌, ◌==◌, ltb, if◌then◌else◌, Option, none, some, List, [],
  ◌∷◌, ◌++◌, length, u32,
}
use aru_xi.Base.Text.{Text}
use aru_xi.Asm.Operands.{Result, done, fatal, crashed, ◌>>=◌}
use aru_xi.Asm.Symbols.{SymbolTable}
use aru_xi.Asm.Encoder.{Evaluator}
use aru_xi.Asm.Strtok.{strtok, count_tokens}
use aru_xi.Asm.Tables.{
  set_lp, active_lp, DataContent, no_data, str, zeros, values, init_data_entry, add_data_entry,
}
use aru_xi.Asm.Directives.{
  Assembly, Directive, validate_section, blanks, comma, expect, crash_if, evaluated, string_dir,
  float_dir, zero_dir, fill_dir,
}

-- An entry in the active section, and the location pointer behind it.
unfoldable pub place : ℕ → ℕ → Text → DataContent → Assembly → Assembly
place type size source content a =
    let section = a.sections.active_section in
    record a {
      data_table =
          add_data_entry a.data_table
            (init_data_entry type (active_lp a.sections) size source content) section;
      sections = set_lp a.sections section (u32 (active_lp a.sections + size));
    }

abbrev pub but_last : Text → Text
but_last [] = []
but_last (c ∷ []) = []
but_last (c ∷ d ∷ s) = c ∷ but_last (d ∷ s)

-- The first and the last character are taken for the quotes.
unfoldable pub string_text : Text → Result Text
string_text [] = crashed
string_text (q ∷ []) = crashed
string_text (q ∷ c ∷ s) = done (but_last (c ∷ s))

unfoldable pub string_directive : Text → Assembly → Result Assembly
string_directive args a = do
  _ ← validate_section string_dir a.sections.active_section
  s ← string_text args
  done (place 0 (length s + 1) s (str s) a)

-- `byteDirective`, `hwordDirective` and `wordDirective`, which differ in directive, type and width.
-- The bytes are left to the second pass.
unfoldable pub values_directive : Directive → ℕ → ℕ → Text → Assembly → Result Assembly
values_directive d type width args a = do
  _ ← validate_section d a.sections.active_section
  done (place type (count_tokens comma args * width) args no_data a)

unfoldable pub repeat_text : ℕ → Text → Text
repeat_text zero s = []
repeat_text (suc n) s = s ++ repeat_text n s

-- `strtof`: `none` where it sets `errno` or finds no digits, and otherwise the bits of the number.
module _ (strtof : Text → Option ℕ) where
  unfoldable pub floats_more : (Text → Result (List ℕ)) → Option Text × Text → Result (List ℕ)
  floats_more later (none, rest) = done []
  floats_more later (some t, rest) = elim (strtof t) [
    | none ↦ fatal
    | some v ↦ later rest >>= λ vs. done (v ∷ vs)
  ]

  -- With the room that is left in the array, 5 at first.
  unfoldable pub read_floats : ℕ → Text → Result (List ℕ)
  read_floats zero s = elim (strtok (blanks ++ comma) s).0 [
    | none ↦ done []
    | some t ↦ elim (strtof t) [ none ↦ fatal | some v ↦ crashed ]
  ]
  read_floats (suc room) s = floats_more (read_floats room) (strtok (blanks ++ comma) s)

  unfoldable pub float_directive : Text → Assembly → Result Assembly
  float_directive args a = do
    _ ← validate_section float_dir a.sections.active_section
    vs ← read_floats 5 args
    done (place 4 (length vs * 4) args (values 4 vs) a)

module _ (ev : Evaluator SymbolTable) where
  -- The memory of a `.zero` outside bss is filled with zeros; a negative size is none that `calloc`
  -- has, so that the null pointer is left.
  unfoldable pub zero_directive : Text → Assembly → Result Assembly
  zero_directive args a = do
    _ ← validate_section zero_dir a.sections.active_section
    (text, rest) ← expect (strtok blanks args)
    r ← ev.eval text a.symbols
    (size, table) ← evaluated r
    let content = if a.sections.active_section == 2 || is_negative size then no_data else zeros size
    done (place 1 size args content (record a { symbols = table }))

  -- `eval` gets the null pointer for the table, and crashes where it adds a symbol to that.
  unfoldable pub fill_directive : Text → Assembly → Result Assembly
  fill_directive args a = do
    _ ← validate_section fill_dir a.sections.active_section
    (len_text, args1) ← expect (strtok comma args)
    (num, args2) ← expect (strtok blanks args1)
    (r, table) ← ev.eval len_text []
    (len, same) ← crash_if (ltb 0 (length table)) (evaluated (r, table))
    crash_if (len == 0) (done (place 1 len (repeat_text len (num ++ comma)) no_data a))
