-- ===== src/Asm/Program/Tests.antt =====
-- A source of nine lines through the assembler of assembler/assembler.c.
use aru_xi.Base.{ℕ, false, refl, none, List, [], ◌∷◌, Option}
use aru_xi.Base.Text.{Text, codes, str_eq, str_case_eq}
use aru_xi.Asm.Tables.{
  init_section_table, set_lp, activate, init_data_table, init_data_entry, add_data_entry,
  find_data_entry, get_data_entry, copy_operands, init_instr_obj, add_instr_obj, get_instr,
}
use aru_xi.Asm.Directives.{valid_directives, find_directive, validate_directive, validate_section}
use aru_xi.Asm.Directives.Define.{
  defer_entry, settle_entry, put_symbol, globalise, put_global, glob_symbol, glob_directive,
  set_directive,
}
use aru_xi.Asm.Directives.Data.{
  place, string_text, string_directive, values_directive, repeat_text, floats_more, read_floats,
  float_directive, zero_directive, fill_directive,
}
use aru_xi.Asm.Directives.Handle.{end_directive, directive, handle_directive}
use aru_xi.Asm.Names.{
  valid_instructions, valid_registers, is_among, is_valid_register, validate_register, index_from,
  validate_instruction,
}
use aru_xi.Asm.Labels.{validate_label, define_entry, put_label, handle_label}
use aru_xi.Asm.Instructions.{
  emit, take_register, handle_i, handle_r, ir_destination, handle_ir, not_immediate, handle_bi,
  bu_register, handle_bu, handle_bc, s_operand, handle_s,
}
use aru_xi.Asm.Instructions.Handle.{dispatch, handle_instruction}
use aru_xi.Asm.FirstPass.{
  section_start, start_pass, point_symbol, ends_with, label_step, count_word, evt_step,
  instruction_step, statement, end_of_line, line_from, line_step, lines_step,
}
use aru_xi.Asm.SecondPass.{
  close_table, measure, all_defined, check_entry, check_program, change_at, resolve_entry,
  sized_value, resolve_content, resolve_at, resolve_from, resolve_symbols, values_more, values_from,
  complete_content, complete_entries, complete_data,
}
use aru_xi.Asm.SecondPass.Fixed.{fix_move, fix_last, fix_three, fix_ir, fix_instr, fix_instrs}
use aru_xi.Asm.Strtok.{
  in_text, skip_delims, cut, cut_off, strtok, count_more, count_from, count_tokens,
}
use aru_xi.Asm.Eval.{
  eval_at, advance, precedence, sdiv32, apply_op, add_undefined, mark, mark_reference, enter, leave,
  close_paren, unary, symbol_value, symbol_operand, operand_at, combine, loop_round, loop_step,
  eval,
}
use aru_xi.Asm.Symbols.{
  init_symb_table, init_symb_entry, add_symb_entry, update_symb_entry, get_symb_entry, change_entry,
}
use aru_xi.Asm.Lexer.{next_token}
use aru_xi.Asm.Encoder.{
  sys_registers, encode_s, encode_r, encode_bu, as_result, evaluate, check_size,
  get_immediate_encoding, encode_i, encode_m, encode_branch, encode_bi_bc, encode_one,
}
use aru_xi.Asm.Words.{
  fits, find_opcode, find_sub_opcode, find_condition, get_condition_encoding, bi_word,
  branch_offset, branch_word,
}
use aru_xi.Asm.Operands.{
  operand, decimal, skip_space, signed_decimal, atoi8, register_number, get_register_encoding,
}
use aru_xi.Asm.Stream.{
  instr_at, set_instr, set_operand, digits_of, print_u, print_imm, high_piece, middle_piece,
  low_piece, fill, read_text, encode_special, encode_at, encode_from, encode,
}
use aru_xi.Asm.Object.{
  AoefBin, strings_of, size_from, get_symbol_strings_size, symb_val, symbols_from,
  generate_symbol_table, headers_from, generate_section_headers, find_header, bytes_of, zero_bytes,
  content_bytes, copy_bytes, entries_bytes, fill_section, generate_section, generate_text,
  evt_before, evt_entries_bytes, behind_marker, generate_evt, count_present, generate_header,
  generate_binary,
}
use aru_xi.Asm.Preprocess.{
  back_from, find_comment, back_comment, before_comment, last_place, preprocess_from, preprocess,
}
use aru_xi.Asm.Instructions.Memory.{skip_blanks}
use aru_xi.Asm.Program.{clean_lines, measure_all, second_pass, assemble}
use aru_xi.Asm.Encoder.Expressions.{evaluator}
use aru_xi.Asm.Program.Filled.{IsFilled, assemble-IsFilled}
use aru_xi.Asm.Operands.{Result, done, fatal, crashed}

abbrev source : List Text
source =
    codes "  .data  % bytes\n"
    ∷ codes "x: .byte 1, 2, y\n"
    ∷ codes "% words\n"
    ∷ codes ".const"
    ∷ codes "y: .set z, 7"
    ∷ codes ".hword z + 1"
    ∷ codes ".text"
    ∷ codes ".glob _init"
    ∷ codes "_init: hlt"
    ∷ []

abbrev no_floats : Text → Option ℕ
no_floats s = none

abbrev no_pointer : Text → ℕ
no_pointer s = 0

abbrev assembled : Result AoefBin
assembled = assemble (evaluator 60) no_floats no_pointer 0 false source

abbrev nothing : AoefBin
nothing = record {
  header = record {
    h_type = 0;
    h_entry = 0;
    h_sect_off = 0;
    h_sect_size = 0;
    h_symb_off = 0;
    h_symb_size = 0;
    h_str_tab_off = 0;
    h_str_tab_size = 0;
  };
  sect_hdr_table = [];
  symb_ent_table = [];
  st_strs = [];
  data_bytes = [];
  const_bytes = [];
  text_words = [];
  evt_bytes = [];
}

abbrev bin_of : Result AoefBin → AoefBin
bin_of (done b) = b
bin_of fatal = nothing
bin_of crashed = nothing

assemble-IsFilled_example : IsFilled (bin_of assembled)
unfolding evt_before evt_entries_bytes behind_marker generate_evt back_from find_comment
    back_comment before_comment last_place preprocess_from preprocess clean_lines skip_blanks
    init_section_table set_lp activate init_data_table init_data_entry add_data_entry
    find_data_entry get_data_entry copy_operands init_instr_obj add_instr_obj get_instr
    valid_directives find_directive validate_directive validate_section defer_entry settle_entry
    put_symbol globalise put_global glob_symbol glob_directive set_directive place string_text
    string_directive values_directive repeat_text floats_more read_floats float_directive
    zero_directive fill_directive end_directive directive handle_directive valid_instructions
    valid_registers is_among is_valid_register validate_register index_from validate_instruction
    validate_label define_entry put_label handle_label emit take_register handle_i handle_r
    ir_destination handle_ir not_immediate handle_bi bu_register handle_bu handle_bc s_operand
    handle_s dispatch handle_instruction section_start start_pass point_symbol ends_with label_step
    count_word evt_step instruction_step statement end_of_line line_from line_step lines_step
    close_table measure all_defined check_entry check_program change_at resolve_entry sized_value
    resolve_content resolve_at resolve_from resolve_symbols values_more values_from complete_content
    complete_entries complete_data fix_move fix_last fix_three fix_ir fix_instr fix_instrs in_text
    skip_delims cut cut_off strtok count_more count_from count_tokens advance precedence sdiv32
    apply_op add_undefined mark mark_reference enter leave close_paren unary symbol_value
    symbol_operand operand_at combine loop_round loop_step eval init_symb_table init_symb_entry
    add_symb_entry update_symb_entry get_symb_entry change_entry next_token sys_registers encode_s
    encode_r encode_bu as_result evaluate check_size get_immediate_encoding encode_i encode_m
    encode_branch encode_bi_bc encode_one fits find_opcode find_sub_opcode find_condition
    get_condition_encoding bi_word branch_offset branch_word operand decimal skip_space
    signed_decimal atoi8 register_number get_register_encoding instr_at set_instr set_operand
    digits_of print_u print_imm high_piece middle_piece low_piece fill read_text encode_special
    encode_at encode_from encode strings_of size_from get_symbol_strings_size symb_val symbols_from
    generate_symbol_table headers_from generate_section_headers find_header bytes_of zero_bytes
    content_bytes copy_bytes entries_bytes fill_section generate_section generate_text count_present
    generate_header generate_binary measure_all second_pass assemble evaluator str_eq str_case_eq
    eval_at
assemble-IsFilled_example =
    assemble-IsFilled (evaluator 60) no_floats no_pointer 0 source (bin_of assembled) refl
