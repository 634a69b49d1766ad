-- ===== src/Asm/Stream/Tests.antt =====
-- An `ld` of a label in assembler/encoder.c, whose six instructions are encoded.
use aru_xi.Base.{ℕ, ◌+◌, ◌*◌, ◌^◌, ◌≡◌, refl, arith, List, [], ◌∷◌, some, map, if◌then◌else◌}
use Prim.Native.String.{String}
use aru_xi.Base.Text.{codes, str_eq, str_case_eq}
use aru_xi.Asm.Operands.{
  Result, done, Operand, text, Instr, operand, decimal, skip_space, atoi8, signed_decimal,
  register_number, get_register_encoding,
}
use aru_xi.Asm.Words.{find_opcode, fits}
use aru_xi.Asm.Encoder.{
  Evaluator, evaluate, as_result, check_size, get_immediate_encoding, encode_i, encode_r,
  encode_one,
}
use aru_xi.Asm.Stream.{
  print_u, digits_of, print_imm, high_piece, middle_piece, low_piece, fill, read_text, instr_at,
  set_instr, set_operand, encode_special, encode_at, encode_from, encode,
}
use aru_xi.Cpu.Pipeline.Decode.{Regs}
use aru_xi.Asm.Symbols.{SymbolTable, value, get_symb_entry, change_entry}
use aru_xi.Asm.Lexer.{next_token, token_at}
use aru_xi.Asm.Eval.{
  eval, eval_at, eval_loop, parse, operand_at, loop_step, advance, symbol_operand, symbol_value,
  mark, mark_reference,
}
use aru_xi.Asm.Encoder.Expressions.{evaluator}
use aru_xi.Asm.Stream.Pieces.{AddsTo, ReadsAt, encode_special-get_immediate_encoding}

-- Numerals, and one label.
abbrev numerals : Evaluator ℕ
numerals = record {
  eval = λ s st. done (some (if str_eq s (codes "f") then 0x20190ABC else decimal 0 s), st);
}

abbrev three : ℕ → ℕ → String → Operand → Operand → Operand → Instr
three a e name x y z = record {
  addr = a;
  encoding = e;
  instr = codes name;
  operands = x ∷ y ∷ z ∷ [];
}

abbrev reg : String → Operand
reg name = text (codes name)

abbrev load : List Instr
load =
    three 0x20190000 0x11 "ld" (reg "x1") (reg "xz") (reg "f")
    ∷ three 0x20190004 0 "lsl" (reg "x1") (reg "x1") (reg "#18")
    ∷ three 0x20190008 0 "mv" (reg "c0") (reg "xz") (reg "#o0")
    ∷ three 0x2019000C 0 "lsl" (reg "c0") (reg "c0") (reg "#4")
    ∷ three 0x20190010 1 "add" (reg "x1") (reg "x1") (reg "c0")
    ∷ three 0x20190014 0 "add" (reg "x1") (reg "x1") (reg "#o0")
    ∷ []

abbrev words : Result (List Instr × ℕ) → List ℕ
words (done (stream, st)) = map (λ i. i.encoding) stream
words _ = []

encode-load :
    words (encode numerals load 0)
    ≡ 0x80201BC1 ∷ 0x48004821 ∷ 0x8042AFCC ∷ 0x4800118C ∷ 0x81000581 ∷ 0x80003021 ∷ []
unfolding encode encode_from encode_at encode_special encode_one encode_i encode_r instr_at
    set_instr set_operand fill read_text print_imm print_u digits_of high_piece middle_piece
    low_piece find_opcode fits get_immediate_encoding evaluate as_result check_size operand
    get_register_encoding register_number atoi8 signed_decimal skip_space decimal str_eq str_case_eq
encode-load = refl

abbrev symbols : ℕ → SymbolTable
symbols flags = record { name = codes "f"; content = value 0x20190ABC; flags = flags } ∷ []

abbrev unset : Regs
unset = record { rd = 0; rs = 0; rr = 0 }

evaluate-f : evaluate (evaluator 6) (codes "f") (symbols 1) ≡ done (0x20190ABC, symbols 3)
unfolding evaluate as_result evaluator eval eval_at eval_loop parse operand_at loop_step advance
    symbol_operand symbol_value mark mark_reference next_token token_at get_symb_entry change_entry
    str_eq
evaluate-f = refl

encode_special-get_immediate_encoding_example :
    (stream' : List Instr) × (head : Instr) × (high mid low : ℕ) × (encode_special
        (evaluator 6)
        load
        0
        (symbols 1)
      ≡ done (stream', symbols 3))
    × (instr_at stream' 0 ≡ done head)
    × (head.instr ≡ codes "mv")
    × AddsTo unset head.encoding high 1 30
    × ReadsAt 6 stream' 2 (codes "mv") (symbols 3) mid
    × ReadsAt 6 stream' 5 (codes "add") (symbols 3) low
    × (high * 2 ^ 18 + mid * 2 ^ 4 + low ≡ 0x20190ABC)
unfolding instr_at register_number atoi8 signed_decimal skip_space decimal str_case_eq
encode_special-get_immediate_encoding_example =
    encode_special-get_immediate_encoding unset 4 0 0x20190ABC load (symbols 1) (symbols 3)
      (symbols 3) (three 0x20190000 0x11 "ld" (reg "x1") (reg "xz") (reg "f"))
      (three 0x20190008 0 "mv" (reg "c0") (reg "xz") (reg "#o0"))
      (three 0x20190014 0 "add" (reg "x1") (reg "x1") (reg "#o0")) (codes "x1") (codes "xz")
      (codes "f") (reg "c0") (reg "xz") (reg "x1") (reg "x1") [] [] [] refl refl refl (omega arith)
      (omega arith) refl refl refl refl evaluate-f (omega arith)
