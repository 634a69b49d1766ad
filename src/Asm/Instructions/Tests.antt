-- ===== src/Asm/Instructions/Tests.antt =====
-- An `ld` of a later label in assembler/lexer-parser.c.
use aru_xi.Base.{refl, none, [], false}
use aru_xi.Base.Text.{codes, str_eq, str_case_eq}
use aru_xi.Asm.Operands.{done}
use aru_xi.Asm.Symbols.{SymbolTable}
use aru_xi.Asm.Tables.{init_section_table, init_data_table, set_lp, activate}
use aru_xi.Asm.Names.{
  is_among, valid_instructions, valid_registers, is_valid_register, validate_register, index_from,
  validate_instruction,
}
use aru_xi.Asm.Strtok.{strtok}
use aru_xi.Asm.Encoder.{Evaluator}
use aru_xi.Asm.Directives.{Assembly}
use aru_xi.Asm.Instructions.{take_register}
use aru_xi.Asm.Instructions.Memory.{
  skip_blanks, clear_hashes, load_value, load_expression, handle_m,
}
use aru_xi.Asm.Instructions.Handle.{dispatch, handle_instruction}
use aru_xi.Asm.Instructions.Addresses.{IsExtended}
use aru_xi.Asm.Instructions.Extended.{handle_instruction-IsExtended}

abbrev unknown : Evaluator SymbolTable
unknown = record { eval = λ s table. done (none, table) }

abbrev empty_text : Assembly
empty_text = record {
  symbols = [];
  sections = activate (set_lp init_section_table 3 0x20190000) 3;
  data_table = init_data_table;
  stream = [];
  halt = false;
}

handle_instruction-IsExtended_example :
    IsExtended empty_text
      (load_value (codes "ld") (codes "x5") (codes "later") false none empty_text)
unfolding handle_instruction dispatch handle_m load_expression validate_instruction index_from
    valid_instructions take_register validate_register is_valid_register valid_registers is_among
    skip_blanks clear_hashes strtok str_eq str_case_eq
handle_instruction-IsExtended_example =
    handle_instruction-IsExtended unknown (codes "ld") (codes "x5, later") empty_text
      (load_value (codes "ld") (codes "x5") (codes "later") false none empty_text) refl
