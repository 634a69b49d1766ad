-- ===== src/Asm/Encoder/Expressions.antt =====
-- `eval` of assembler/evaluator.c as assembler/encoder.c calls it.
use aru_xi.Base.{
  ℕ, ◌+◌, ◌*◌, ◌≤◌, if◌then◌else◌, Option, none, some, ◌≡◌, refl, Option-cases, inl, inr, u32,
}
use aru_xi.Base.Text.{Text}
use aru_xi.Asm.Symbols.{SymbolTable}
use aru_xi.Asm.Operands.{Result, done, crashed}
use aru_xi.Asm.Lexer.{Token, next_token}
use aru_xi.Asm.Eval.{Run, returned, trapped, out_of_fuel, eval}
use aru_xi.Asm.Eval.Tree.{Expr, tokens, value_of, mark_all, Yields}
use aru_xi.Asm.Eval.Known.{Known}
use aru_xi.Asm.Eval.Loop.{cost, token_level}
use aru_xi.Asm.Eval.Climb.{eval-tokens}
use aru_xi.Asm.Encoder.{Evaluator, evaluate, as_result}

-- A run that does not end exhausts the stack.
abbrev pub as_evaluation : Run → Result (Option ℕ × SymbolTable)
as_evaluation (returned (v, st)) = done (if st.can_eval then some v else none, st.table)
as_evaluation trapped = crashed
as_evaluation out_of_fuel = crashed

unfoldable pub evaluator : ℕ → Evaluator SymbolTable
evaluator fuel = record { eval = λ s table. as_evaluation (eval fuel s table) }

-- The operand expressions of the encoder: with fuel for the expression that the text spells, whose
-- symbols are defined as numbers, the encoder goes on with the expression's value as a 32-bit
-- pattern, and the table is marked; where the value traps the encoder crashes.
pub evaluate-tokens :
    (env : Text → ℕ) (e : Expr) (text rest : Text) (t : Token) (table : SymbolTable) (fuel : ℕ)
    → 2 * cost e + 2 ≤ fuel
    → Yields (next_token text).0 (next_token text).1 (tokens 0 e) t rest
    → Known env table e
    → token_level t ≤ 0
    → evaluate (evaluator fuel) text table
      ≡ (elim (value_of env e) [ none ↦ crashed | some v ↦ done (u32 v, mark_all e table) ])
unfolding evaluate as_result evaluator
evaluate-tokens env e text rest t table fuel enough y known follow =
    rw (eval-tokens env e text rest t table fuel enough y known follow)
      (elim (Option-cases (value_of env e)) [ inl e ↦ rw e refl | inr (v, e) ↦ rw e refl ])
