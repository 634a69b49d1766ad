-- ===== src/Asm/Labels/Tests.antt =====
-- A label of assembler/lexer-parser.c over a symbol that was set to an expression.
use aru_xi.Base.{refl, arith, some, [], ◌∷◌}
use aru_xi.Base.Text.{codes}
use aru_xi.Asm.Symbols.{SymbolTable, expr, get_symb_entry}
use aru_xi.Asm.Tables.{SectionTable, init_section_table, set_lp, activate}
use aru_xi.Asm.Labels.{put_label, validate_label, handle_label}
use aru_xi.Asm.Labels.Found.{IsLabelled, handle_label_lem}
use aru_xi.Asm.Names.{is_among, valid_instructions, valid_registers}
use aru_xi.Asm.Directives.{valid_directives}
use aru_xi.Asm.Strtok.{strtok}
use aru_xi.Base.Text.{str_case_eq}

abbrev deferred : SymbolTable
deferred = record { name = codes "f"; content = expr (codes "g + 1"); flags = 0x89 } ∷ []

abbrev text_section : SectionTable
text_section = activate (set_lp init_section_table 3 0x20190010) 3

handle_label_lem_example :
    IsLabelled 0x20190010
      (codes "f")
      deferred
      (put_label (codes "f") 0x20190010 3 (get_symb_entry deferred (codes "f")) deferred)
unfolding handle_label validate_label is_among valid_instructions valid_registers valid_directives
    activate set_lp init_section_table str_case_eq strtok
handle_label_lem_example =
    handle_label_lem deferred text_section (codes "f") (codes "ret")
      (
        put_label (codes "f") 0x20190010 3 (get_symb_entry deferred (codes "f")) deferred,
        some (codes "ret"),
        [],
      )
      (omega arith) refl
