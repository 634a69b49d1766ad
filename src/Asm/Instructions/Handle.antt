-- ===== src/Asm/Instructions/Handle.antt =====
-- `handleInstruction` of assembler/lexer-parser.c.
use aru_xi.Base.{ℕ, ltb, if◌then◌else◌}
use aru_xi.Base.Text.{Text}
use aru_xi.Asm.Operands.{Result, done, ◌>>=◌}
use aru_xi.Asm.Symbols.{SymbolTable}
use aru_xi.Asm.Encoder.{Evaluator}
use aru_xi.Asm.Names.{
  i_type_idx, r_type_idx, m_type_idx, bi_type_idx, bu_type_idx, bc_type_idx, s_type_idx, f_type_idx,
  validate_instruction,
}
use aru_xi.Asm.Directives.{Assembly}
use aru_xi.Asm.Instructions.{
  handle_ir, handle_i, handle_r, handle_bi, handle_bu, handle_bc, handle_s,
}
use aru_xi.Asm.Instructions.Memory.{handle_m}

module _ (ev : Evaluator SymbolTable) where
  -- By the place of the name; `handleF` only warns.
  unfoldable pub dispatch : ℕ → Text → Text → Assembly → Result Assembly
  dispatch index instr args a =
      if ltb index i_type_idx
      then handle_ir instr args a
      else (if ltb index r_type_idx
          then handle_i instr args a
          else (if ltb index m_type_idx
              then handle_r instr args a
              else (if ltb index bi_type_idx
                  then handle_m ev instr args a
                  else (if ltb index bu_type_idx
                      then handle_bi instr args a
                      else (if ltb index bc_type_idx
                          then handle_bu instr args a
                          else (if ltb index s_type_idx
                              then handle_bc instr args a
                              else (if ltb index f_type_idx
                                  then handle_s instr args a
                                  else done a)))))))

  unfoldable pub handle_instruction : Text → Text → Assembly → Result Assembly
  handle_instruction instr args a = do
    index ← validate_instruction instr
    dispatch index instr args a
