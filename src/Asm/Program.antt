-- ===== src/Asm/Program.antt =====
-- `main` of assembler/assembler.c, from the lines of the source to the object file.
pub mod Filled
pub mod Tests
use aru_xi.Base.{ℕ, Bool, if◌then◌else◌, Option, none, some, List, [], ◌∷◌}
use aru_xi.Base.Text.{Text}
use aru_xi.Asm.Operands.{Result, done, fatal, crashed, ◌>>=◌}
use aru_xi.Asm.Symbols.{SymbolTable}
use aru_xi.Asm.Encoder.{Evaluator}
use aru_xi.Asm.Tables.{SectionTable}
use aru_xi.Asm.Stream.{encode}
use aru_xi.Asm.FirstPass.{Pass, section_start, start_pass, lines_step}
use aru_xi.Asm.SecondPass.{close_table, measure, check_program, resolve_symbols, complete_data}
use aru_xi.Asm.SecondPass.Fixed.{fix_instrs}
use aru_xi.Asm.Preprocess.{preprocess}
use aru_xi.Asm.Object.{AoefBin, generate_binary}

unfoldable pub measure_all : Bool → SectionTable → SectionTable
measure_all kern t = record t { entries = λ k. measure (section_start kern k) (t.entries k) }

abbrev pub with_line : Option Text → List Text → List Text
with_line none lines = lines
with_line (some line) lines = line ∷ lines

-- The lines that hold something.
unfoldable pub clean_lines : List Text → List Text
clean_lines [] = []
clean_lines (line ∷ lines) = with_line (preprocess line) (clean_lines lines)

module _ (ev : Evaluator SymbolTable) (strtof : Text → Option ℕ) (pointer : Text → ℕ) (unset : ℕ)
    (kern : Bool) where
  unfoldable pub second_pass : Pass → Result AoefBin
  second_pass p = do
    let q = close_table p
    _ ← check_program kern q
    let a = q.assembly
    table1 ← resolve_symbols ev a.symbols
    (data_table, table2) ← complete_data ev a.data_table table1
    fixed ← fix_instrs a.stream
    (encoded, table3) ← encode ev fixed table2
    generate_binary pointer unset kern encoded table3 data_table (measure_all kern a.sections)

  unfoldable pub assemble : List Text → Result AoefBin
  assemble lines =
      lines_step ev strtof kern (start_pass kern) (clean_lines lines) >>= λ p. second_pass p
