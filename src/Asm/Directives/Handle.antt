-- ===== src/Asm/Directives/Handle.antt =====
-- `handleDirective` of assembler/lexer-parser.c.
use aru_xi.Base.{ℕ, true, Option, ◌++◌, map}
use aru_xi.Base.Text.{Text, to_lower}
use aru_xi.Asm.Operands.{Result, done, ◌>>=◌}
use aru_xi.Asm.Symbols.{SymbolTable}
use aru_xi.Asm.Encoder.{Evaluator}
use aru_xi.Asm.Strtok.{strtok}
use aru_xi.Asm.Tables.{activate}
use aru_xi.Asm.Directives.{
  Assembly, Directive, validate_directive, blanks, comma, expect_end, data_dir, const_dir, bss_dir,
  text_dir, evt_dir, ivt_dir, set_dir, glob_dir, end_dir, string_dir, byte_dir, hword_dir, word_dir,
  float_dir, zero_dir, fill_dir, align_dir,
}
use aru_xi.Asm.Directives.Define.{glob_directive, set_directive}
use aru_xi.Asm.Directives.Data.{
  string_directive, values_directive, float_directive, zero_directive, fill_directive,
}

unfoldable pub end_directive : Text → Assembly → Result Assembly
end_directive args a = do
  _ ← expect_end (strtok (blanks ++ comma) args)
  done (record a { halt = true })

module _ (ev : Evaluator SymbolTable) where
  module _ (strtof : Text → Option ℕ) where
    unfoldable pub directive : Directive → Text → Assembly → Result Assembly
    directive data_dir args a = done (record a { sections = activate a.sections 0 })
    directive const_dir args a = done (record a { sections = activate a.sections 1 })
    directive bss_dir args a = done (record a { sections = activate a.sections 2 })
    directive text_dir args a = done (record a { sections = activate a.sections 3 })
    directive evt_dir args a = done (record a { sections = activate a.sections 4 })
    directive ivt_dir args a = done (record a { sections = activate a.sections 5 })
    directive set_dir args a = set_directive ev a.symbols args a.sections.active_section >>= λ t.
        done (record a { symbols = t })
    directive glob_dir args a = glob_directive a.symbols args a.sections.active_section >>= λ t.
        done (record a { symbols = t })
    directive end_dir args a = end_directive args a
    directive string_dir args a = string_directive args a
    directive byte_dir args a = values_directive byte_dir 1 1 args a
    directive hword_dir args a = values_directive hword_dir 2 2 args a
    directive word_dir args a = values_directive word_dir 3 4 args a
    directive float_dir args a = float_directive strtof args a
    directive zero_dir args a = zero_directive ev args a
    directive fill_dir args a = fill_directive ev args a
    directive align_dir args a = done a

    -- `handleDirective`
    unfoldable pub handle_directive : Text → Text → Assembly → Result Assembly
    handle_directive name args a = do d ← validate_directive (map to_lower name); directive d args a
