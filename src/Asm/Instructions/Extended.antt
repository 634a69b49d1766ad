-- ===== src/Asm/Instructions/Extended.antt =====
-- Every instruction of assembler/lexer-parser.c gets a word for each of its objects.
use aru_xi.Base.{
  ℕ, suc, ◌+◌, ◌<◌, true, false, ◌==◌, ltb, if◌then◌else◌, List, [], ◌∷◌, ◌≡◌, arith, Bool-cases,
  inl, inr, lt→ltb, length,
}
use Prim.Native.String.{String}
use aru_xi.Base.Text.{Text, codes, str_eq, str_case_eq}
use aru_xi.Asm.Operands.{Result, done}
use aru_xi.Asm.Symbols.{SymbolTable}
use aru_xi.Asm.Encoder.{Evaluator}
use aru_xi.Asm.Strtok.{strtok}
use aru_xi.Asm.Outcome.{
  Ensures, holds, ended, Ensures-done, Ensures-bind, Ensures-chain, Ensures-if,
}
use aru_xi.Asm.Names.{
  first_char, is_among, valid_instructions, index_from, validate_instruction, validate_register,
  i_type_idx, r_type_idx, m_type_idx, bi_type_idx, bu_type_idx, bc_type_idx, s_type_idx, f_type_idx,
}
use aru_xi.Asm.Words.{valid_conds}
use aru_xi.Asm.Directives.{Assembly, blanks, comma, unless, expect, expect_end}
use aru_xi.Asm.Instructions.{
  separators, take_register, handle_i, handle_r, ir_destination, handle_ir, not_immediate,
  handle_bi, bu_register, handle_bu, rest_chars, handle_bc, s_operand, handle_s,
}
use aru_xi.Asm.Instructions.Memory.{
  skip_blanks, after_char, clear_hashes, skip_equals, first_token, load_expression, through_pointer,
  index_register, base_offset, final_index, brackets, handle_m,
}
use aru_xi.Asm.Instructions.Handle.{dispatch, handle_instruction}
use aru_xi.Asm.Instructions.Addresses.{IsExtended, emit-IsExtended, load_value-IsExtended}

module _ (a : Assembly) where
  abbrev Extends : Result Assembly → Type 0
  Extends r = Ensures (IsExtended a) r

  module _ (instr args : Text) where
    i-Extends : Extends (handle_i instr args a)
    unfolding handle_i
    i-Extends = elim (Bool-cases (str_eq instr (codes "nop"))) [
      | inl nop ↦ rw nop (
          Ensures-bind (expect_end (strtok separators args))
            (λ u. holds (emit-IsExtended instr _ 0x0 a)))
      | inr other ↦ rw other (holds (emit-IsExtended instr _ 0x0 a))
    ]

    r-Extends : Extends (handle_r instr args a)
    unfolding handle_r
    r-Extends = Ensures-bind (take_register args) (λ d.
        Ensures-bind (take_register d.1)
          (λ s. Ensures-bind (take_register s.1) (λ r. holds (emit-IsExtended instr _ 0x1 a))))

    ir-Extends : Extends (handle_ir instr args a)
    unfolding handle_ir
    ir-Extends = Ensures-bind (ir_destination instr args) (λ d.
        Ensures-bind (expect (strtok separators d.1)) (λ f.
          Ensures-bind (expect_end (strtok separators (strtok separators f.1).1))
            (λ u. holds (emit-IsExtended instr _ 0x10 a))))

    bi-Extends : Extends (handle_bi instr args a)
    unfolding handle_bi
    bi-Extends = Ensures-bind (expect (strtok blanks args)) (λ t.
        Ensures-bind (not_immediate t.0) (λ u.
          Ensures-bind (expect_end (strtok separators t.1))
            (λ v. holds (emit-IsExtended instr _ 0x3 a))))

    bu-Extends : Extends (handle_bu instr args a)
    unfolding handle_bu
    bu-Extends =
        Ensures-bind (bu_register (strtok separators args).0)
          (λ r. holds (emit-IsExtended instr _ 0x4 a))

    bc-Extends : Extends (handle_bc instr args a)
    unfolding handle_bc
    bc-Extends = elim (Bool-cases (is_among valid_conds (rest_chars instr))) [
      | inl known ↦ rw known bi-Extends
      | inr other ↦ rw other ended
    ]

    s-Extends : Extends (handle_s instr args a)
    unfolding handle_s
    s-Extends = Ensures-bind (s_operand instr args) (λ r.
        Ensures-bind (expect_end (strtok separators r.1))
          (λ u. holds (emit-IsExtended instr _ 0x5 a)))

    brackets-Extends : (xd addressing : Text) → Extends (brackets instr xd addressing a)
    unfolding brackets
    brackets-Extends xd addressing =
        let cut = strtok (b'[' ∷ b']' ∷ []) addressing in
        Ensures-bind (unless (if first_char addressing == b'[' then false else true) (done tt))
          (λ u. Ensures-bind (expect (after_char b']' addressing, [])) (λ v.
            Ensures-bind (index_register (after_char b',' cut.1) cut.1) (λ i.
              Ensures-bind (expect_end (strtok separators i.1)) (λ w.
                Ensures-bind (through_pointer cut.0) (λ inside.
                  Ensures-bind (base_offset (after_char b',' inside) inside) (λ b.
                    Ensures-bind (validate_register b.0) (λ x.
                      Ensures-bind (final_index b.1 i.0)
                        (λ j. holds (emit-IsExtended instr _ 0x2 a)))))))))

    load-Extends :
        (ev : Evaluator SymbolTable) (xd s : Text) → Extends (load_expression ev instr xd s a)
    unfolding load_expression
    load-Extends ev xd s = Ensures-bind (first_token (strtok comma s)) (λ t.
        Ensures-bind (expect_end (strtok [] t.1)) (λ u.
          Ensures-bind (ev.eval (clear_hashes (skip_equals t.0)) a.symbols) (λ r. holds (
            load_value-IsExtended instr xd (clear_hashes (skip_equals t.0)) (first_char t.0 == b'=')
              r.0 (record a { symbols = r.1 })))))

    m-Extends : (ev : Evaluator SymbolTable) → Extends (handle_m ev instr args a)
    unfolding handle_m
    m-Extends ev = Ensures-bind (take_register args) (λ d.
        Ensures-if _ (λ h. load-Extends ev d.0 (skip_blanks d.1))
          (λ h. brackets-Extends d.0 (skip_blanks d.1)))

    dispatch-Extends :
        (ev : Evaluator SymbolTable) (index : ℕ)
        → index < f_type_idx
        → Extends (dispatch ev index instr args a)
    unfolding dispatch
    dispatch-Extends ev index h =
        Ensures-if (ltb index i_type_idx) (λ e. ir-Extends)
          (λ e.
            Ensures-if (ltb index r_type_idx) (λ e. i-Extends)
              (λ e.
                Ensures-if (ltb index m_type_idx) (λ e. r-Extends)
                  (λ e.
                    Ensures-if (ltb index bi_type_idx) (λ e. m-Extends ev)
                      (λ e.
                        Ensures-if (ltb index bu_type_idx) (λ e. bi-Extends)
                          (λ e.
                            Ensures-if (ltb index bc_type_idx) (λ e. bu-Extends)
                              (λ e.
                                Ensures-if (ltb index s_type_idx) (λ e. bc-Extends)
                                  (λ e.
                                    Ensures-if (ltb index f_type_idx) (λ e. s-Extends)
                                      (λ e. absurd (ground (arith, lt→ltb index f_type_idx))))))))))

index_from-lt :
    (i : ℕ) (names : List String) (s : Text)
    → Ensures (λ k. k < i + length names) (index_from i names s)
unfolding index_from
index_from-lt i [] s = ended
index_from-lt i (n ∷ names) s =
    Ensures-if (str_case_eq (codes n) s) (λ e. holds (omega arith))
      (λ e.
        let later = index_from-lt (i + 1) names s in
        let same : i + 1 + length names ≡ i + suc (length names) = omega arith in rw same at later)

validate_instruction-lt :
    (instr : Text) → Ensures (λ k. k < f_type_idx) (validate_instruction instr)
unfolding validate_instruction valid_instructions
validate_instruction-lt instr =
    Ensures-if (first_char instr == b'b') (λ e. holds (omega arith))
      (λ e. index_from-lt 0 valid_instructions instr)

pub handle_instruction-Extends :
    (ev : Evaluator SymbolTable) (instr args : Text) (a : Assembly)
    → Ensures (IsExtended a) (handle_instruction ev instr args a)
unfolding handle_instruction
handle_instruction-Extends ev instr args a =
    Ensures-chain (validate_instruction-lt instr)
      (λ index h. dispatch-Extends a instr args ev index h)

-- Where `handleInstruction` goes on, the stream has grown by objects whose addresses count up from
-- the location pointer by words, except that the load behind six objects of a split `ld` has one
-- that is 20 bytes too high; and with the word that the caller adds, the location pointer of the
-- active section has moved by a word for each object. Data and the other sections stay.
pub handle_instruction-IsExtended :
    (ev : Evaluator SymbolTable) (instr args : Text) (a a' : Assembly)
    → handle_instruction ev instr args a ≡ done a'
    → IsExtended a a'
handle_instruction-IsExtended ev instr args a a' =
    Ensures-done (handle_instruction-Extends ev instr args a)
