-- ===== src/Asm/FirstPass/Tests.antt =====
-- A source of nine lines in the first pass of assembler/assembler.c.
use aru_xi.Base.{ℕ, false, refl, none, List, [], ◌∷◌, Option}
use aru_xi.Base.Text.{Text, codes, str_eq, str_case_eq}
use aru_xi.Asm.Operands.{Result, done, fatal, crashed}
use aru_xi.Asm.Symbols.{
  get_symb_entry, change_entry, add_symb_entry, init_symb_entry, init_symb_table,
}
use aru_xi.Asm.Encoder.Expressions.{evaluator}
use aru_xi.Asm.Tables.{
  init_section_table, set_lp, activate, init_data_table, init_data_entry, add_data_entry,
  find_data_entry, get_data_entry, copy_operands, init_instr_obj, add_instr_obj, get_instr,
}
use aru_xi.Asm.Directives.{valid_directives, find_directive, validate_directive, validate_section}
use aru_xi.Asm.Directives.Define.{
  defer_entry, settle_entry, put_symbol, globalise, put_global, glob_symbol, glob_directive,
  set_directive,
}
use aru_xi.Asm.Directives.Data.{
  place, string_text, string_directive, values_directive, repeat_text, floats_more, read_floats,
  float_directive, zero_directive, fill_directive,
}
use aru_xi.Asm.Directives.Handle.{end_directive, directive, handle_directive}
use aru_xi.Asm.Names.{
  valid_instructions, valid_registers, is_among, is_valid_register, validate_register, index_from,
  validate_instruction,
}
use aru_xi.Asm.Labels.{validate_label, define_entry, put_label, handle_label}
use aru_xi.Asm.Instructions.{
  emit, take_register, handle_i, handle_r, ir_destination, handle_ir, not_immediate, handle_bi,
  bu_register, handle_bu, handle_bc, s_operand, handle_s,
}
use aru_xi.Asm.Instructions.Memory.{
  skip_blanks, after_char, clear_hashes, print_signed, move_lp, near_load, split_head, split_tail,
  split_load, split, load_value, load_expression, index_register, base_offset, final_index,
  brackets, handle_m,
}
use aru_xi.Asm.Instructions.Handle.{dispatch, handle_instruction}
use aru_xi.Asm.FirstPass.{
  point_symbol, ends_with, label_step, count_word, evt_step, instruction_step, statement,
  end_of_line, line_from, line_step,
}
use aru_xi.Asm.Strtok.{strtok, count_more, count_from, count_tokens}
use aru_xi.Asm.Eval.{
  advance, precedence, sdiv32, apply_op, add_undefined, mark, mark_reference, enter, leave,
  close_paren, unary, symbol_value, symbol_operand, operand_at, combine, loop_round, loop_step,
  eval, eval_at,
}
use aru_xi.Asm.Symbols.{update_symb_entry}
use aru_xi.Asm.Stream.{digits_of, print_u, print_imm, high_piece, middle_piece, low_piece}
use aru_xi.Asm.Lexer.{next_token}
use aru_xi.Asm.FirstPass.{Pass, section_start, start_pass, lines_step}
use aru_xi.Asm.FirstPass.Layout.{lines_step-IsLaidOut}
use aru_xi.Asm.Directives.Layout.{IsLaidOut}

abbrev source : List Text
source =
    codes ".data"
    ∷ codes "x: .byte 1, 2, 3"
    ∷ codes ".HWord x + 1"
    ∷ codes ".set n, x - 4"
    ∷ codes ".text"
    ∷ codes ".glob _init"
    ∷ codes "_init: add x1, x2, #1"
    ∷ codes "ld x3, =later"
    ∷ codes ".end"
    ∷ []

abbrev no_floats : Text → Option ℕ
no_floats s = none

abbrev outcome : Result Pass → Pass
outcome (done p) = p
outcome fatal = start_pass false
outcome crashed = start_pass false

abbrev assembled : Result Pass
assembled = lines_step (evaluator 60) no_floats false (start_pass false) source

lines_step-IsLaidOut_example : IsLaidOut (section_start false) (outcome assembled).assembly
unfolding init_section_table set_lp activate init_data_table init_data_entry add_data_entry
    find_data_entry get_data_entry copy_operands init_instr_obj add_instr_obj get_instr
    valid_directives find_directive validate_directive validate_section defer_entry settle_entry
    put_symbol globalise put_global glob_symbol glob_directive set_directive place string_text
    string_directive values_directive repeat_text floats_more read_floats float_directive
    zero_directive fill_directive end_directive directive handle_directive valid_instructions
    valid_registers is_among is_valid_register validate_register index_from validate_instruction
    validate_label define_entry put_label handle_label emit take_register handle_i handle_r
    ir_destination handle_ir not_immediate handle_bi bu_register handle_bu handle_bc s_operand
    handle_s skip_blanks after_char clear_hashes print_signed move_lp near_load split_head
    split_tail split_load split load_value load_expression index_register base_offset final_index
    brackets handle_m dispatch handle_instruction section_start start_pass point_symbol ends_with
    label_step count_word evt_step instruction_step statement end_of_line line_from line_step
    lines_step strtok count_more count_from count_tokens advance precedence sdiv32 apply_op
    add_undefined mark mark_reference enter leave close_paren unary symbol_value symbol_operand
    operand_at combine loop_round loop_step eval eval_at evaluator init_symb_table init_symb_entry
    add_symb_entry update_symb_entry get_symb_entry change_entry digits_of print_u print_imm
    high_piece middle_piece low_piece next_token str_eq str_case_eq
lines_step-IsLaidOut_example =
    lines_step-IsLaidOut (evaluator 60) no_floats source (outcome assembled) refl
