-- ===== src/Asm/Eval/Tests.antt =====
-- Expressions of assembler/evaluator.c, evaluated.
use aru_xi.Base.{ℕ, ◌-◌, ◌^◌, Bool, true, false, ◌≡◌, refl, [], ◌∷◌}
use aru_xi.Base.Text.{Text, codes, str_eq}
use aru_xi.Asm.Symbols.{
  SymbolTable, value, expr, get_symb_entry, change_entry, add_symb_entry, init_symb_entry,
}
use aru_xi.Asm.Lexer.{next_token}
use aru_xi.Base.{◌⊎◌, inl, inr, arith}
use aru_xi.Asm.Lexer.{end}
use aru_xi.Asm.Eval.Tree.{Expr, num, name, neg, bin, sub, mul, tokens, value_of, mark_all}
use aru_xi.Asm.Eval.Loop.{cost, going}
use aru_xi.Asm.Eval.Climb.{eval-tokens}
use aru_xi.Asm.Eval.Ends.{Ends}
use aru_xi.Asm.Eval.Fuel.{eval-Ends}
use aru_xi.Asm.Eval.Cycle.{AreCyclic, eval-AreCyclic}
use aru_xi.Asm.Eval.{
  or_trap, out_of_fuel, Outcome, returned, trapped, ◌>>=◌, advance, precedence, sdiv32, apply_op,
  add_undefined, mark, mark_reference, enter, leave, symbol_value, symbol_operand, close_paren,
  unary, operand_at, combine, loop_step, loop_round, eval_at, eval,
}

abbrev symbols : SymbolTable
symbols =
    record { name = codes "a"; content = value 5; flags = 1 }
    ∷ record { name = codes "b"; content = expr (codes "a * 2"); flags = 0x89 }
    ∷ []

abbrev result : Text → Outcome (ℕ × Bool)
result text = eval 40 text symbols >>= λ r. returned (r.0, (r.1).can_eval)

arithmetic : result (codes "1 + 2*3 - 4 << 1") ≡ returned (6, true)
unfolding eval eval_at loop_step loop_round combine operand_at unary close_paren symbol_operand
    symbol_value leave enter mark_reference mark add_undefined apply_op sdiv32 precedence advance
    next_token str_eq get_symb_entry change_entry add_symb_entry init_symb_entry
arithmetic = refl

symbolic : result (codes "-(b+0x1F)/ 0b11") ≡ returned (2 ^ 32 - 13, true)
unfolding eval eval_at loop_step loop_round combine operand_at unary close_paren symbol_operand
    symbol_value leave enter mark_reference mark add_undefined apply_op sdiv32 precedence advance
    next_token str_eq get_symb_entry change_entry add_symb_entry init_symb_entry
symbolic = refl

missing : result (codes "a + c") ≡ returned (5, false)
unfolding eval eval_at loop_step loop_round combine operand_at unary close_paren symbol_operand
    symbol_value leave enter mark_reference mark add_undefined apply_op sdiv32 precedence advance
    next_token str_eq get_symb_entry change_entry add_symb_entry init_symb_entry
missing = refl

by_zero : result (codes "a / 0") ≡ trapped
unfolding eval eval_at loop_step loop_round combine operand_at unary close_paren symbol_operand
    symbol_value leave enter mark_reference mark add_undefined apply_op sdiv32 precedence advance
    next_token str_eq get_symb_entry change_entry add_symb_entry init_symb_entry
by_zero = refl

-- a - (3 - 1) * -a
abbrev spelled : Expr
spelled = bin sub (name (codes "a")) (bin mul (bin sub (num 3) (num 1)) (neg (name (codes "a"))))

abbrev numbers : SymbolTable
numbers = record { name = codes "a"; content = value 5; flags = 1 } ∷ []

eval-tokens_example : eval 200 (codes "a-( 3-1)* -a ") numbers ≡ (
    or_trap (value_of (λ s. 5) spelled) >>= λ v.
    returned (v, going end [] (mark_all spelled numbers)))
unfolding cost tokens next_token get_symb_entry str_eq
eval-tokens_example =
    eval-tokens (λ s. 5) spelled (codes "a-( 3-1)* -a ") [] end numbers 200 (omega arith)
      (refl, (refl, (refl, (refl, (refl, (refl, (refl, (refl, (refl, (refl, (refl, refl)))))))))))
      (
        (record { name = codes "a"; content = value 5; flags = 1 }, refl, (refl, refl, refl)),
        (
          (tt, tt),
          (record { name = codes "a"; content = value 5; flags = 1 }, refl, (refl, refl, refl)),
        ),
      )
      (omega arith)

eval-Ends_example : Ends 9 (eval 20 (codes ")+(a<<3x?") numbers)
eval-Ends_example = eval-Ends 20 (codes ")+(a<<3x?") numbers (omega arith) (refl, tt)

-- .set a, b and .set b, a
abbrev circle : SymbolTable
circle =
    record { name = codes "a"; content = expr (codes "b"); flags = 0x89 }
    ∷ record { name = codes "b"; content = expr (codes "a"); flags = 0x8B }
    ∷ []

abbrev InCircle : Text → Type 0
InCircle s = (s ≡ codes "a") ⊎ (s ≡ codes "b")

circle-AreCyclic : AreCyclic InCircle circle
unfolding get_symb_entry str_eq next_token
circle-AreCyclic s (inl first) = rw first (
  record { name = codes "a"; content = expr (codes "b"); flags = 0x89 },
  refl,
  refl,
  refl,
  (codes "b", refl, (codes "b", refl, inr refl)),
)
circle-AreCyclic s (inr second) = rw second (
  record { name = codes "b"; content = expr (codes "a"); flags = 0x8B },
  refl,
  refl,
  refl,
  (codes "a", refl, (codes "a", refl, inl refl)),
)

eval-AreCyclic_example : eval 1000 (codes "a * 2") circle ≡ out_of_fuel
unfolding next_token
eval-AreCyclic_example =
    eval-AreCyclic InCircle 1000 (codes "a * 2") (codes "a") circle refl (inl refl) circle-AreCyclic
