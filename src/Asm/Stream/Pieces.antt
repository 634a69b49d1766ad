-- ===== src/Asm/Stream/Pieces.antt =====
-- What `encodeSpecial` of assembler/encoder.c leaves in the stream for an `ld` of a label.
use aru_xi.Base.{
  ℕ, suc, ◌+◌, ◌*◌, ◌%◌, ◌^◌, ◌<◌, true, ◌≡◌, refl, ◌∙◌, arith, List, ◌∷◌, ◌>>>◌, u16,
}
use aru_xi.Base.Text.{Text, codes, str_eq, str_case_eq}
use aru_xi.Isa.{imap, i_type, op_add}
use aru_xi.Cpu.Pipeline.Decode.{Regs, extract_imm, extract_regs}
use aru_xi.Asm.Symbols.{SymbolTable}
use aru_xi.Asm.Operands.{
  done, Operand, text, Instr, operand, register_number, get_register_encoding,
}
use aru_xi.Asm.Words.{imm14, fits, i_opcodes, find_opcode}
use aru_xi.Asm.Words.Immediate.{fits_imm14_lem}
use aru_xi.Asm.Encoder.{evaluate, get_immediate_encoding, encode_i}
use aru_xi.Asm.Encoder.Link.{encode_i-decode}
use aru_xi.Asm.Encoder.Expressions.{evaluator}
use aru_xi.Asm.Stream.{
  high_piece, middle_piece, low_piece, print_imm, fill, read_text, instr_at, set_instr, set_operand,
  encode_special,
}
use aru_xi.Asm.Stream.Numerals.{get_immediate_encoding-print_imm}
use aru_xi.Asm.Stream.Places.{three_set}

fits-piece : (n : ℕ) → n < 2 ^ 14 → fits imm14 n ≡ true
fits-piece n lt = fits_imm14_lem n ∙ ground arith

-- At a place of the stream stands an instruction of this name whose last operand is read as this
-- immediate by `getImmediateEncoding`, whatever the symbols.
abbrev pub ReadsAt : ℕ → List Instr → ℕ → Text → SymbolTable → ℕ → Type 0
ReadsAt fuel is k name table n =
    (x : Instr) × (instr_at is k ≡ done x)
    × (x.instr ≡ name)
    × (get_immediate_encoding (evaluator fuel) (operand x.operands 2) table imm14 ≡ done (n, table))

-- A word adds this immediate to the one register and puts the sum into the other.
abbrev pub AddsTo : Regs → ℕ → ℕ → ℕ → ℕ → Type 0
AddsTo junk word n rd rs =
    (imap ((word >>> 24) % 2 ^ 8) ≡ op_add)
    × (extract_imm word op_add ≡ (n, i_type))
    × (extract_regs junk word op_add i_type ≡ (record junk { rd = rd; rs = rs }, i_type))

fill-placeholder :
    (i : Instr) (a b : Operand) (os : List Operand) (n : ℕ)
    → i.operands ≡ a ∷ b ∷ text (codes "#o0") ∷ os
    → fill (operand i.operands 2) n i ≡ done (record i { operands = a ∷ b ∷ print_imm n ∷ os })
unfolding fill operand set_operand str_eq
fill-placeholder i a b os n ops = rw ops refl

-- The `mv` that takes the place of the `ld`.
encode_mv :
    (junk : Regs) (fuel n : ℕ) (i : Instr) (table : SymbolTable) (xd xs : Text) (os : List Operand)
    → n < 2 ^ 14
    → i.instr ≡ codes "mv"
    → i.operands ≡ text xd ∷ text xs ∷ print_imm n ∷ os
    → register_number xd < 2 ^ 5
    → register_number xs < 2 ^ 5
    → (w : ℕ) × (encode_i (evaluator (suc (suc fuel))) i table ≡ done (w, table))
      × AddsTo junk w n (register_number xd) (register_number xs)
encode_mv junk fuel n i table xd xs os lt name ops hd hs =
    let code : find_opcode i_opcodes (codes "mv") ≡ done 0b10000000 =
      unfold find_opcode str_case_eq in refl in
    let first : get_register_encoding (operand i.operands 0) ≡ done (register_number xd) =
      unfold get_register_encoding operand in rw ops refl in
    let second : get_register_encoding (operand i.operands 1) ≡ done (register_number xs) =
      unfold get_register_encoding operand in rw ops refl in
    let third : operand i.operands 2 ≡ print_imm n = unfold operand in rw ops refl in
    let (w, made, opcode, fields, regs) =
      encode_i-decode (evaluator (suc (suc fuel))) junk i table table 0b10000000 n
        (register_number xd) (register_number xs) (rw name code) first hd second hs
        (rw third
          (get_immediate_encoding-print_imm fuel n table imm14 (omega arith) (fits-piece n lt))) in
    let add : imap 0b10000000 ≡ op_add = unfold imap in refl in
    let whole : u16 n ≡ n = omega arith in
    (w, made, (opcode ∙ add, rw (add, whole) at fields, rw add at regs))

pieces_sum :
    (imm : ℕ)
    → imm < 2 ^ 32
    → high_piece imm * 2 ^ 18 + middle_piece imm * 2 ^ 4 + low_piece imm ≡ imm
unfolding high_piece middle_piece low_piece
pieces_sum imm lt = omega arith

high_piece-lt : (imm : ℕ) → high_piece imm < 2 ^ 14
unfolding high_piece
high_piece-lt imm = omega arith

middle_piece-lt : (imm : ℕ) → middle_piece imm < 2 ^ 14
unfolding middle_piece
middle_piece-lt imm = omega arith

low_piece-lt : (imm : ℕ) → low_piece imm < 2 ^ 14
unfolding low_piece
low_piece-lt imm = omega arith

filled-ReadsAt :
    (fuel k n : ℕ) (is : List Instr) (i : Instr) (a b : Operand) (os : List Operand)
    (table : SymbolTable)
    → n < 2 ^ 14
    → instr_at is k ≡ done (record i { operands = a ∷ b ∷ print_imm n ∷ os })
    → ReadsAt (suc (suc fuel)) is k i.instr table n
unfolding operand
filled-ReadsAt fuel k n is i a b os table lt h = (
  record i { operands = a ∷ b ∷ print_imm n ∷ os },
  h,
  refl,
  get_immediate_encoding-print_imm fuel n table imm14 (omega arith) (fits-piece n lt),
)

-- On an `ld` of an expression that evaluates, with the placeholders `#o0` two and five instructions
-- behind it and two registers with numbers below 32, `encodeSpecial` returns. In the stream then
-- stands an `mv` whose word the CPU decodes into an addition of the first immediate to the second
-- register, and in the place of the placeholders stand texts that the encoder reads as the
-- second and the third immediate, whatever the symbols; the immediates, shifted by 18 and 4 bits and
-- added, give the value of the expression.
pub encode_special-get_immediate_encoding :
    (junk : Regs) (fuel k imm : ℕ) (stream : List Instr) (st st' table : SymbolTable)
    (ld middle last : Instr) (xd xs expr : Text) (b0 b1 c0 c1 : Operand) (ds bs cs : List Operand)
    → instr_at stream k ≡ done ld
    → ld.instr ≡ codes "ld"
    → ld.operands ≡ text xd ∷ text xs ∷ text expr ∷ ds
    → register_number xd < 2 ^ 5
    → register_number xs < 2 ^ 5
    → instr_at stream (k + 2) ≡ done middle
    → middle.operands ≡ b0 ∷ b1 ∷ text (codes "#o0") ∷ bs
    → instr_at stream (k + 5) ≡ done last
    → last.operands ≡ c0 ∷ c1 ∷ text (codes "#o0") ∷ cs
    → evaluate (evaluator (suc (suc fuel))) expr st ≡ done (imm, st')
    → imm < 2 ^ 32
    → (stream' : List Instr) × (head : Instr) × (high mid low : ℕ) × (encode_special
          (evaluator (suc (suc fuel)))
          stream
          k
          st
        ≡ done (stream', st'))
      × (instr_at stream' k ≡ done head)
      × (head.instr ≡ codes "mv")
      × AddsTo junk head.encoding high (register_number xd) (register_number xs)
      × ReadsAt (suc (suc fuel)) stream' (k + 2) middle.instr table mid
      × ReadsAt (suc (suc fuel)) stream' (k + 5) last.instr table low
      × (high * 2 ^ 18 + mid * 2 ^ 4 + low ≡ imm)
unfolding encode_special read_text str_eq operand set_operand
encode_special-get_immediate_encoding junk fuel k imm stream st st' table ld middle last xd xs expr
      b0 b1 c0 c1 ds bs cs at_ld is_ld ops_ld hd hs at_middle ops_middle at_last ops_last found lt =
    let high = high_piece imm in
    let mid = middle_piece imm in
    let low = low_piece imm in
    let mv : Instr = record ld {
      instr = codes "mv";
      operands = text xd ∷ text xs ∷ print_imm high ∷ ds;
    } in
    let (w, made, adds) =
      encode_mv junk fuel high mv st' xd xs ds (high_piece-lt imm) refl refl hd hs in
    let head : Instr = record mv { encoding = w } in
    let middle' : Instr = record middle { operands = b0 ∷ b1 ∷ print_imm mid ∷ bs } in
    let last' : Instr = record last { operands = c0 ∷ c1 ∷ print_imm low ∷ cs } in
    let stream' = set_instr (set_instr (set_instr stream k head) (k + 2) middle') (k + 5) last' in
    let (at_head, at_middle', at_last') =
      three_set stream k ld middle last head middle' last' at_ld at_middle at_last in
    let fill_middle = fill-placeholder middle b0 b1 bs mid ops_middle in
    let fill_last = fill-placeholder last c0 c1 cs low ops_last in
    (
      stream',
      head,
      high,
      mid,
      low,
      rw (at_ld, is_ld, ops_ld, found, at_middle, fill_middle, at_last, fill_last, made) refl,
      at_head,
      refl,
      adds,
      filled-ReadsAt fuel (k + 2) mid stream' middle b0 b1 bs table (middle_piece-lt imm)
          at_middle',
      filled-ReadsAt fuel (k + 5) low stream' last c0 c1 cs table (low_piece-lt imm) at_last',
      pieces_sum imm lt,
    )
