-- ===== src/Asm/SecondPass/Tests.antt =====
-- The steps of assembler/assembler.c between its passes, on small inputs.
use aru_xi.Base.{
  false, ℕ, ◌≡◌, refl, List, [], ◌∷◌, ◌^◌, ◌%◌, ◌/◌, ◌==◌, if◌then◌else◌, ◌*◌, length, u32,
}
use aru_xi.Base.Text.{codes, str_eq, str_case_eq}
use aru_xi.Asm.Operands.{Result, done, fatal, crashed, ◌>>=◌, absent, text, Instr, operand}
use aru_xi.Asm.Symbols.{SymbolTable, expr, value, get_symb_entry, change_entry}
use aru_xi.Asm.Encoder.Expressions.{evaluator}
use aru_xi.Asm.Eval.{
  advance, precedence, sdiv32, apply_op, add_undefined, mark, mark_reference, enter, leave,
  close_paren, unary, symbol_value, symbol_operand, operand_at, combine, loop_round, loop_step,
  eval, eval_at,
}
use aru_xi.Asm.Eval.Ends.{NoExpressions}
use aru_xi.Asm.Lexer.{next_token}
use aru_xi.Asm.Strtok.{strtok, count_more, count_from, count_tokens}
use aru_xi.Asm.Tables.{DataEntry, no_data, values, init_data_entry}
use aru_xi.Asm.Directives.{comma}
use aru_xi.Asm.Names.{valid_registers, is_among, is_valid_register, validate_register}
use aru_xi.Asm.Stream.{set_operand, read_text}
use aru_xi.Asm.Instructions.Memory.{clear_hashes}
use aru_xi.Asm.SecondPass.{
  change_at, resolve_entry, resolve_content, resolve_at, resolve_from, resolve_symbols, sized_value,
  values_more, values_from, complete_content,
}
use aru_xi.Asm.Directives.{Assembly}
use aru_xi.Asm.Instructions.{handle_ir, handle_i, ir_destination, take_register, emit}
use aru_xi.Asm.FirstPass.{start_pass}
use aru_xi.Asm.Strtok.{skip_delims, cut, cut_off, in_text}
use aru_xi.Asm.Tables.{copy_operands, init_instr_obj, add_instr_obj}
use aru_xi.Asm.SecondPass.Forms.{AllFixed, fix_instrs-AllFixed}
use aru_xi.Asm.SecondPass.Fixed.{fix_move, fix_last, fix_three, fix_ir, fix_instr, fix_instrs}
use aru_xi.Asm.SecondPass.Resolved.{resolve_symbols-NoExpressions}
use aru_xi.Asm.SecondPass.Values.{sized_value_lem, complete_content-size}

-- A value that neither fits a byte nor is refused.
sized_value_lem_example :
    (sized_value 1 0x10005
      ≡ (if 0x10005 / 2 ^ 8 % 2 ^ 8 == 0 then done (0x10005 % 2 ^ 8) else fatal))
    × (sized_value 2 0x10005
        ≡ (if 0x10005 / 2 ^ 16 % 2 ^ 8 == 0 then done (0x10005 % 2 ^ 16) else fatal))
sized_value_lem_example = sized_value_lem 0x10005

-- A table in which one symbol stands for an expression over another.
abbrev two_symbols : SymbolTable
two_symbols =
    record { name = codes "n"; content = expr (codes "m - 4"); flags = 0x89 }
    ∷ record { name = codes "m"; content = value 0x20; flags = 0x0B }
    ∷ []

abbrev table_of : Result SymbolTable → SymbolTable
table_of (done t) = t
table_of fatal = []
table_of crashed = []

abbrev resolved : Result SymbolTable
resolved = resolve_symbols (evaluator 10) two_symbols

resolve_symbols-NoExpressions_example :
    NoExpressions (table_of resolved) × (length (table_of resolved) ≡ 2)
unfolding change_at resolve_entry resolve_content resolve_at resolve_from resolve_symbols advance
    precedence sdiv32 apply_op add_undefined mark mark_reference enter leave close_paren unary
    symbol_value symbol_operand operand_at combine loop_round loop_step eval eval_at evaluator
    get_symb_entry change_entry next_token str_eq
resolve_symbols-NoExpressions_example =
    resolve_symbols-NoExpressions 10 two_symbols (table_of resolved) refl

-- `.hword n + 1, 7`
abbrev entry : DataEntry
entry =
    init_data_entry 2 0x20040000 (count_tokens comma (codes "n + 1, 7") * 2) (codes "n + 1, 7")
      no_data

abbrev plain : SymbolTable
plain = record { name = codes "n"; content = value 0x1C; flags = 0x09 } ∷ []

abbrev entry_of : Result (DataEntry × SymbolTable) → DataEntry × SymbolTable
entry_of (done r) = r
entry_of fatal = (entry, [])
entry_of crashed = (entry, [])

abbrev completed : Result (DataEntry × SymbolTable)
completed = complete_content (evaluator 10) entry no_data plain

complete_content-size_example :
    (vs : List ℕ) × (((entry_of completed).0).content ≡ values 2 vs)
    × (((entry_of completed).0).size ≡ u32 (length vs * 2))
unfolding sized_value values_more values_from complete_content init_data_entry count_tokens
    count_from count_more strtok advance precedence sdiv32 apply_op add_undefined mark
    mark_reference enter leave close_paren unary symbol_value symbol_operand operand_at combine
    loop_round loop_step eval eval_at evaluator get_symb_entry change_entry next_token str_eq
complete_content-size_example =
    complete_content-size (evaluator 10) 2 2 0x20040000 (codes "n + 1, 7") plain
      (entry_of completed) refl

-- `add x1, x2, #5`, `mvn x1, x2` and `nop` in the first pass.
abbrev three_lines : Result Assembly
three_lines = handle_ir (codes "add") (codes "x1, x2, #5") (start_pass false).assembly >>= λ a.
    handle_ir (codes "mvn") (codes "x1, x2") a >>= λ b. handle_i (codes "nop") [] b

abbrev stream_of : Result Assembly → List Instr
stream_of (done a) = a.stream
stream_of fatal = []
stream_of crashed = []

abbrev list_of : Result (List Instr) → List Instr
list_of (done is) = is
list_of fatal = []
list_of crashed = []

fix_instrs-AllFixed_example :
    AllFixed (stream_of three_lines) (list_of (fix_instrs (stream_of three_lines)))
unfolding handle_ir handle_i ir_destination take_register emit init_instr_obj copy_operands
    add_instr_obj start_pass strtok skip_delims cut cut_off in_text str_eq fix_move fix_last
    fix_three fix_ir fix_instr fix_instrs valid_registers is_among is_valid_register
    validate_register set_operand read_text clear_hashes operand str_case_eq
fix_instrs-AllFixed_example =
    fix_instrs-AllFixed (stream_of three_lines) (list_of (fix_instrs (stream_of three_lines)))
      (
        (λ ir. (text (codes "x1"), text (codes "x2"), text (codes "#5"), refl)),
        ((λ ir. (text (codes "x1"), text (codes "x2"), absent, refl)), ((λ ir. cc), tt)),
      )
      refl
