-- ===== src/Asm/Labels.antt =====
-- The labels of assembler/lexer-parser.c.
pub mod Found
pub mod Tests
use aru_xi.Base.{map}
use aru_xi.Base.{
  ℕ, ◌+◌, ◌-◌, ◌^◌, Bool, true, false, not, ◌&&◌, ◌||◌, ◌==◌, leb, if◌then◌else◌, bit_or, Option,
  none, some, List, [], ◌∷◌,
}
use aru_xi.Base.Text.{Text}
use aru_xi.Asm.Operands.{Result, done, fatal, ◌>>=◌}
use aru_xi.Asm.Symbols.{
  SymbEntry, SymbolTable, value, init_symb_entry, add_symb_entry, get_symb_entry, change_entry,
}
use aru_xi.Asm.Lexer.{is_alpha}
use aru_xi.Asm.Strtok.{strtok}
use aru_xi.Asm.Tables.{SectionTable, active_lp}
use aru_xi.Asm.Names.{valid_instructions, valid_registers, is_among, first_char}
use Prim.Native.String.{String}
use aru_xi.Asm.Directives.{Directive, valid_directives, create_flags, blanks}
use aru_xi.Asm.Directives.Define.{put_section}

unfoldable pub validate_label : Text → Result (Unit {0})
validate_label label =
    if not (is_alpha (first_char label)) && not (first_char label == b'_')
    then fatal
    else (if is_among (map (λ (d : String × Directive). d.0) valid_directives) label
          || is_among valid_instructions label
          || is_among valid_registers label
        then fatal
        else done tt)

-- `flags |= 0 << 7` and `flags |= 0 << 3` change nothing.
unfoldable pub define_entry : ℕ → ℕ → SymbEntry → SymbEntry
define_entry lp section e = record e {
  content = value lp;
  flags = bit_or (put_section e.flags section) 1;
}

unfoldable pub put_label : Text → ℕ → ℕ → Option SymbEntry → SymbolTable → SymbolTable
put_label label lp section (some e) table = change_entry (define_entry lp section) table label
put_label label lp section none table =
    add_symb_entry table (init_symb_entry label none lp (create_flags 0 section 0 0 0 1))

-- The table, and the next token with the text behind it.
unfoldable pub handle_label :
    SymbolTable → SectionTable → Text → Text → Result (SymbolTable × Option Text × Text)
handle_label table sections label save = validate_label label >>= λ ok. done (
  put_label label (active_lp sections) sections.active_section (get_symb_entry table label) table,
  (strtok blanks save).0,
  (strtok blanks save).1,
)
