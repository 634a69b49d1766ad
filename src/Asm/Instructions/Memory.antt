-- ===== src/Asm/Instructions/Memory.antt =====
-- `handleM` of assembler/lexer-parser.c: loads, stores, and the loads that are split into several
-- instructions.
use aru_xi.Base.{
  ℕ, ◌+◌, ◌-◌, ◌^◌, Bool, true, false, ◌||◌, ◌&&◌, ◌==◌, leb, if◌then◌else◌, Option, none, some, [],
  ◌∷◌, u32, sub32, is_negative,
}
use aru_xi.Base.Text.{Text, codes, str_eq}
use aru_xi.Asm.Operands.{Result, done, fatal, crashed, ◌>>=◌, Operand, null, absent, text}
use aru_xi.Asm.Symbols.{SymbolTable}
use aru_xi.Asm.Stream.{print_u, print_imm, high_piece, middle_piece, low_piece}
use aru_xi.Asm.Encoder.{Evaluator}
use aru_xi.Asm.Strtok.{strtok, in_text}
use aru_xi.Asm.Tables.{set_lp, active_lp}
use aru_xi.Asm.Names.{first_char, validate_register}
use aru_xi.Asm.Directives.{Assembly, blanks, comma, expect, expect_end, unless}
use aru_xi.Asm.Instructions.{separators, emit, named_reg, take_register, rest_chars}

unfoldable pub skip_blanks : Text → Text
skip_blanks [] = []
skip_blanks (c ∷ s) = let rest = skip_blanks s in if c == b' ' || c == 9 then rest else c ∷ s

-- `strchr`, with the text behind the character.
unfoldable pub after_char : ℕ → Text → Option Text
after_char c [] = none
after_char c (d ∷ s) = let later = after_char c s in if d == c then some s else later

unfoldable pub clear_hashes : Text → Text
clear_hashes [] = []
clear_hashes (c ∷ s) = (if c == b'#' then b' ' else c) ∷ clear_hashes s

-- `sprintf(s, "#%d", v)`
unfoldable pub print_signed : ℕ → Operand
print_signed v =
    if is_negative v then text (b'#' ∷ b'-' ∷ print_u (2 ^ 32 - v)) else text (b'#' ∷ print_u v)

-- `lp += n` of the active section.
unfoldable pub move_lp : ℕ → Assembly → Assembly
move_lp n a = record a {
  sections = set_lp a.sections a.sections.active_section (u32 (active_lp a.sections + n));
}

-- `ld xd, [ir, #offset]`
unfoldable pub near_load : Text → Text → ℕ → Assembly → Assembly
near_load instr xd offset =
    emit 0 instr (text xd ∷ named_reg "ir" ∷ print_signed offset ∷ absent ∷ null ∷ []) 0x2

-- The first instruction of a split load, and the operands that the other two pieces get.
unfoldable pub split_head : Text → Text → Option ℕ → Assembly → Assembly
split_head xd expr (some imm) =
    emit 0 (codes "mv") (text xd ∷ named_reg "xz" ∷ print_imm (high_piece imm) ∷ null ∷ []) 0x0
split_head xd expr none =
    emit 0 (codes "ld") (text xd ∷ named_reg "xz" ∷ text expr ∷ null ∷ []) 0x11

abbrev pub middle_operand : Option ℕ → Operand
middle_operand (some imm) = print_imm (middle_piece imm)
middle_operand none = named_reg "#o0"

abbrev pub low_operand : Option ℕ → Operand
low_operand (some imm) = print_imm (low_piece imm)
low_operand none = named_reg "#o0"

-- The other five.
unfoldable pub split_tail : Text → Option ℕ → Assembly → Assembly
split_tail xd imm a =
    let a1 = emit 4 (codes "lsl") (text xd ∷ text xd ∷ named_reg "#18" ∷ null ∷ []) 0x0 a in
    let a2 =
      emit 8 (codes "mv") (named_reg "c0" ∷ named_reg "xz" ∷ middle_operand imm ∷ null ∷ []) 0x0
        a1 in
    let a3 =
      emit 12 (codes "lsl") (named_reg "c0" ∷ named_reg "c0" ∷ named_reg "#4" ∷ null ∷ []) 0x0 a2 in
    let a4 = emit 16 (codes "or") (text xd ∷ text xd ∷ named_reg "c0" ∷ null ∷ []) 0x1 a3 in
    emit 20 (codes "add") (text xd ∷ text xd ∷ low_operand imm ∷ null ∷ []) 0x0 a4

-- `ld xd, [xd]` behind the pieces, which is given the address 24 bytes behind the pointer that has
-- been moved already.
unfoldable pub split_load : Text → Assembly → Assembly
split_load xd a =
    move_lp 4 (emit 24 (codes "ld") (text xd ∷ text xd ∷ absent ∷ named_reg "xz" ∷ null ∷ []) 0x2 a)

unfoldable pub split : Text → Text → Bool → Option ℕ → Assembly → Assembly
split xd expr literal imm a =
    let pieces = move_lp 20 (split_tail xd imm (split_head xd expr imm a)) in
    if literal then pieces else split_load xd pieces

-- Whether the distance lies in [-256, 255].
abbrev pub is_near : ℕ → Bool
is_near offset = leb offset 255 || leb (2 ^ 32 - 256) offset

-- What is done with the value, if there is one; the distance is taken in the text section.
unfoldable pub load_value : Text → Text → Text → Bool → Option ℕ → Assembly → Assembly
load_value instr xd expr literal none a = split xd expr literal none a
load_value instr xd expr true (some imm) a = split xd expr true (some imm) a
load_value instr xd expr false (some imm) a =
    let offset = sub32 imm (a.sections.entries 3).lp in
    if is_near offset then near_load instr xd offset a else split xd expr false (some imm) a

abbrev pub skip_equals : Text → Text
skip_equals s = if first_char s == b'=' then rest_chars s else s

abbrev pub first_token : Option Text × Text → Result (Text × Text)
first_token (none, rest) = crashed
first_token (some t, rest) = done (t, rest)

module _ (ev : Evaluator SymbolTable) where
  -- `ld xd, expr` and `ld xd, =expr`
  unfoldable pub load_expression : Text → Text → Text → Assembly → Result Assembly
  load_expression instr xd addressing a = do
    (token, rest) ← first_token (strtok comma addressing)
    _ ← expect_end (strtok [] rest)
    let expr = clear_hashes (skip_equals token)
    (imm, table) ← ev.eval expr a.symbols
    done (load_value instr xd expr (first_char token == b'=') imm (record a { symbols = table }))

-- A function of the C library that is given the null pointer crashes.
abbrev pub through_pointer : {A : Type 0} → Option A → Result A
through_pointer none = crashed
through_pointer (some a) = done a

-- The index register behind the brackets.
unfoldable pub index_register : Option Text → Text → Result (Operand × Text)
index_register none rest = done (absent, rest)
index_register (some behind) rest = do
  (index, rest') ← expect (strtok blanks behind)
  _ ← validate_register index
  _ ← unless (in_text b',' index) (done tt)
  done (text index, rest')

abbrev pub or_null : Option Text → Operand
or_null none = null
or_null (some s) = text s

-- Base and offset between the brackets.
unfoldable pub base_offset : Option Text → Text → Result (Text × Operand)
base_offset none inside = do base ← through_pointer (strtok blanks inside).0; done (base, absent)
base_offset (some behind) inside = do
  base ← through_pointer (strtok separators inside).0
  done (base, or_null (strtok blanks behind).0)

abbrev pub is_absent : Operand → Bool
is_absent null = false
is_absent absent = true
is_absent (text s) = false

-- Offset and index exclude each other; without an index the zero register is one.
unfoldable pub final_index : Operand → Operand → Result Operand
final_index offset null = if is_absent offset then done null else fatal
final_index offset absent = done (named_reg "xz")
final_index offset (text index) = if is_absent offset then done (text index) else fatal

unfoldable pub brackets : Text → Text → Text → Assembly → Result Assembly
brackets instr xd addressing a = do
  _ ← unless (if first_char addressing == b'[' then false else true) (done tt)
  _ ← expect (after_char b']' addressing, [])
  let cut = strtok (b'[' ∷ b']' ∷ []) addressing
  (index, rest) ← index_register (after_char b',' cut.1) cut.1
  _ ← expect_end (strtok separators rest)
  inside ← through_pointer cut.0
  (base, offset) ← base_offset (after_char b',' inside) inside
  _ ← validate_register base
  index' ← final_index offset index
  done (emit 0 instr (text xd ∷ text base ∷ offset ∷ index' ∷ null ∷ []) 0x2 a)

module _ (ev : Evaluator SymbolTable) where
  unfoldable pub handle_m : Text → Text → Assembly → Result Assembly
  handle_m instr args a = do
    (xd, rest) ← take_register args
    let addressing = skip_blanks rest
    let bare = if first_char addressing == b'[' then false else true
    if str_eq instr (codes "ld") && bare
        then load_expression ev instr xd addressing a
        else brackets instr xd addressing a
