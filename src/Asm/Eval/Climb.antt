-- ===== src/Asm/Eval/Climb.antt =====
-- The loop of assembler/evaluator.c that climbs the precedences gives an expression its value.
use aru_xi.Base.{
  ℕ, zero, suc, ◌+◌, ◌-◌, ◌*◌, ◌^◌, ◌≤◌, true, leb, Option, none, some, [], ◌∷◌, ◌++◌, ◌≡◌, refl,
  ◌∙◌, arith, Bool-cases, inl, inr,
}
use aru_xi.Base.Text.{Text, codes, str_eq}
use aru_xi.Asm.Symbols.{SymbolTable}
use aru_xi.Asm.Lexer.{Token, op, rparen, next_token}
use aru_xi.Asm.Eval.{
  returned, ◌>>=◌, State, or_trap, advance, neg32, apply_op, mark_reference, symbol_value,
  symbol_operand, close_paren, unary, operand_at, loop_round, parse, eval_at, eval_loop, eval,
}
use aru_xi.Asm.Eval.Tree.{
  BinOp, sign, below, level, Expr, num, name, neg, inv, bin, paren, tokens, through, value_of,
  mark_all, Yields,
}
use aru_xi.Asm.Eval.Known.{Known, Known-mark_all}
use aru_xi.Asm.Eval.Loop.{
  going, token_level, precedence-sign, level-le, steps, cost, cost_pos, steps-le-cost,
  Yields-append, run, loop_end, loop_on, after, after_cong, after-both, after_returned,
  after-combine, IsOperand, Climbs, eval_at-Climbs,
}

module _ (env : Text → ℕ) where
  module _ (o : BinOp) (a b : Expr) (first : Climbs env a) (second : Climbs env b) where
    right_operand :
        (p k l : ℕ) (t' : Token) (s1 s' : Text) (table : SymbolTable)
        → 2 * cost b + 2 ≤ k
        → Yields (next_token s1).0 (next_token s1).1 (tokens (level o) b) t' s'
        → Known env table b
        → token_level t' ≤ level o
        → loop_round (eval_at k) (eval_loop k p) (sign o) l (going (op (sign o)) s1 table)
          ≡ after (value_of env b) (λ r.
            after (apply_op (sign o) l r) (λ v. eval_loop k p v (going t' s' (mark_all b table))))
    unfolding loop_round advance
    right_operand p k l t' s1 s' table fuel y known low =
        rw
          (
            precedence-sign o,
            eval_at-Climbs env b (level o) k (next_token s1).0 t' (next_token s1).1 s' table second
                fuel y known low,
          )
          (after-combine (sign o) l (value_of env b) t' s' (mark_all b table)
            (λ r. eval_loop k p r.0 r.1))

    operation :
        (p k : ℕ) (t t' : Token) (s s' : Text) (table : SymbolTable)
        → p ≤ below o
        → 1 + cost a + 2 * cost b ≤ k
        → Yields t s (tokens (below o) a ++ op (sign o) ∷ tokens (level o) b) t' s'
        → Known env table a
        → Known env table b
        → token_level t' ≤ level o
        → run (steps (below o) a + suc k) p (going t s table)
          ≡ after
              (value_of env (bin o a b))
              (λ v. eval_loop k p v (going t' s' (mark_all (bin o a b) table)))
    unfolding value_of mark_all
    operation p k t t' s s' table low fuel y known_a known_b follow =
        let (s1, front, back) =
          Yields-append (tokens (below o) a) (op (sign o)) (tokens (level o) b) t t' s s' y in
        first (below o) p (suc k) t (op (sign o)) s s1 table low (omega arith) front known_a
          (rw (precedence-sign o) (omega arith))
        ∙ after_cong (value_of env a) _ _ (λ l.
          loop_on o k p l s1 (mark_all a table) (omega arith)
          ∙ right_operand p k l t' s1 s' (mark_all a table) (omega (arith, cost_pos a)) back
              (Known-mark_all env table a b known_b) follow)
        ∙ after-both (apply_op (sign o)) (value_of env a) (value_of env b) _

    parenthesised :
        (k : ℕ) (t : Token) (s s' : Text) (table : SymbolTable)
        → 3 + 2 * (cost a + cost b) ≤ k
        → Yields t s (tokens (below o) a ++ op (sign o) ∷ tokens (level o) b) rparen s'
        → Known env table a
        → Known env table b
        → eval_at k 0 (going t s table)
          ≡ after
              (value_of env (bin o a b))
              (λ v. returned (v, going rparen s' (mark_all (bin o a b) table)))
    unfolding eval_at
    parenthesised k t s s' table fuel y known_a known_b =
        let m = k - 3 - steps (below o) a in
        let spent = steps-le-cost (below o) a in
        let split : k ≡ suc (steps (below o) a + suc (suc m)) = omega arith in
        rw split (
          operation 0 (suc m) t rparen s s' table (omega arith) (omega arith) y known_a known_b
            (omega arith)
          ∙ after_cong (value_of env (bin o a b)) _ _
              (λ v. loop_end m 0 v rparen s' (mark_all (bin o a b) table) (omega arith)))

    bin-IsOperand : IsOperand env (bin o a b)
    unfolding tokens cost parse operand_at close_paren advance
    bin-IsOperand zero t t' s s' table fuel y known = absurd (omega arith)
    bin-IsOperand (suc k) t t' s s' table fuel y known =
        let inner = tokens (below o) a ++ op (sign o) ∷ tokens (level o) b in
        let closed : Yields t s (paren inner) t' s' = rw (level-le o) at y in
        let (s2, front, back) =
          Yields-append inner rparen [] (next_token s).0 t' (next_token s).1 s' closed.1 in
        rw
          (
            closed.0,
            parenthesised k (next_token s).0 (next_token s).1 s2 table (omega arith) front known.0
                known.1,
            after_returned (value_of env (bin o a b)) (going rparen s2 (mark_all (bin o a b) table))
                (λ r. close_paren r.0 (r.1).curr r.1),
            back.0,
            back.1,
          )
          refl

    bin-Climbs : Climbs env (bin o a b)
    unfolding steps
    bin-Climbs q p k t t' s s' table low fuel y known follow = elim (Bool-cases (leb (level o) q)) [
      | inl closed ↦
          let spent : 0 + k ≡ k = omega arith in
          let shut : tokens q (bin o a b) ≡ tokens 6 (bin o a b) =
            unfold tokens in rw (closed, level-le o) refl in
          rw (closed, spent, bin-IsOperand k t t' s s' table fuel (rw shut at y) known)
            (after_returned (value_of env (bin o a b)) (going t' s' (mark_all (bin o a b) table))
              (λ r. eval_loop k p r.0 r.1))
      | inr opened ↦
          let inner = tokens (below o) a ++ op (sign o) ∷ tokens (level o) b in
          let shown : tokens q (bin o a b) ≡ inner = unfold tokens in rw opened refl in
          let turn : suc (steps (below o) a) + k ≡ steps (below o) a + suc k = omega arith in
          let enough : 1 + cost a + 2 * cost b ≤ k = unfold cost in omega arith in
          let tight : q ≤ below o = ground arith in
          rw (opened, turn)
            (operation p k t t' s s' table (omega arith) enough (rw shown at y) known.0 known.1
              (omega arith))
    ]

  atom-Climbs :
      (e : Expr)
      → ((q : ℕ) → tokens q e ≡ tokens 6 e)
      → ((q : ℕ) → steps q e ≡ 0)
      → IsOperand env e
      → Climbs env e
  atom-Climbs e same straight operand q p k t t' s s' table low fuel y known follow =
      let spent : steps q e + k ≡ k = omega (arith, straight q) in
      rw (spent, operand k t t' s s' table fuel (rw (same q) at y) known)
        (after_returned (value_of env e) (going t' s' (mark_all e table))
          (λ r. eval_loop k p r.0 r.1))

  unary-after :
      (o : Text) (f : ℕ → ℕ)
      → ((v : ℕ) (st : State) → st.can_eval ≡ true → unary o v st ≡ returned (f v, st))
      → (x : Option ℕ) (t : Token) (s : Text) (table : SymbolTable)
      → (after x (λ v. returned (v, going t s table)) >>= (λ r. unary o r.0 r.1))
        ≡ after (through f x) (λ v. returned (v, going t s table))
  unary-after o f gives none t s table = refl
  unary-after o f gives (some v) t s table = gives v (going t s table) refl

  neg-unary :
      (v : ℕ) (st : State) → st.can_eval ≡ true → unary (codes "-") v st ≡ returned (neg32 v, st)
  unfolding unary str_eq
  neg-unary v st h = rw h refl

  inv-unary :
      (v : ℕ) (st : State)
      → st.can_eval ≡ true
      → unary (codes "~") v st ≡ returned (2 ^ 32 - 1 - v, st)
  unfolding unary str_eq
  inv-unary v st h = rw h refl

  num-IsOperand : (v : ℕ) → IsOperand env (num v)
  unfolding tokens cost parse operand_at advance value_of mark_all
  num-IsOperand v zero t t' s s' table fuel y known = absurd (omega arith)
  num-IsOperand v (suc k) t t' s s' table fuel y known = rw (y.0, y.1.0, y.1.1) refl

  name-IsOperand : (x : Text) → IsOperand env (name x)
  unfolding tokens cost parse operand_at symbol_operand mark_reference symbol_value advance value_of
      mark_all
  name-IsOperand x zero t t' s s' table fuel y known = absurd (omega arith)
  name-IsOperand x (suc k) t t' s s' table fuel y (e, found, (defined, plain, is)) =
      rw (y.0, found, defined, plain, is, y.1.0, y.1.1) refl

  neg-IsOperand : (e : Expr) → IsOperand env e → IsOperand env (neg e)
  unfolding tokens cost parse operand_at advance value_of mark_all str_eq
  neg-IsOperand e h zero t t' s s' table fuel y known = absurd (omega arith)
  neg-IsOperand e h (suc k) t t' s s' table fuel y known =
      rw (y.0, h k (next_token s).0 t' (next_token s).1 s' table (omega arith) y.1 known)
        (unary-after (codes "-") neg32 neg-unary (value_of env e) t' s' (mark_all e table))

  inv-IsOperand : (e : Expr) → IsOperand env e → IsOperand env (inv e)
  unfolding tokens cost parse operand_at advance value_of mark_all str_eq
  inv-IsOperand e h zero t t' s s' table fuel y known = absurd (omega arith)
  inv-IsOperand e h (suc k) t t' s s' table fuel y known =
      rw (y.0, h k (next_token s).0 t' (next_token s).1 s' table (omega arith) y.1 known)
        (unary-after (codes "~") (λ v. 2 ^ 32 - 1 - v) inv-unary (value_of env e) t' s'
          (mark_all e table))

  expression : (e : Expr) → IsOperand env e × Climbs env e
  unfolding tokens steps
  expression (num v) =
      (num-IsOperand v, atom-Climbs (num v) (λ q. refl) (λ q. refl) (num-IsOperand v))
  expression (name x) =
      (name-IsOperand x, atom-Climbs (name x) (λ q. refl) (λ q. refl) (name-IsOperand x))
  expression (neg e) =
      let h = neg-IsOperand e (expression e).0 in (h, atom-Climbs (neg e) (λ q. refl) (λ q. refl) h)
  expression (inv e) =
      let h = inv-IsOperand e (expression e).0 in (h, atom-Climbs (inv e) (λ q. refl) (λ q. refl) h)
  expression (bin o a b) =
      let first = (expression a).1 in
      let second = (expression b).1 in
      (bin-IsOperand o a b first second, bin-Climbs o a b first second)

-- `eval` on a text whose first tokens are those of an expression in which only the needed
-- parentheses stand, where every symbol is defined as a number and no binary operator follows: with
-- fuel for it, the value of the expression is returned, or the run traps where the value does;
-- `canEval` stays true, what follows stays unread, and the table differs by the marks on the symbols
-- that the expression names.
pub eval-tokens :
    (env : Text → ℕ) (e : Expr) (text rest : Text) (t : Token) (table : SymbolTable) (fuel : ℕ)
    → 2 * cost e + 2 ≤ fuel
    → Yields (next_token text).0 (next_token text).1 (tokens 0 e) t rest
    → Known env table e
    → token_level t ≤ 0
    → eval fuel text table
      ≡ (or_trap (value_of env e) >>= λ v. returned (v, going t rest (mark_all e table)))
unfolding eval advance
eval-tokens env e text rest t table fuel enough y known follow =
    eval_at-Climbs env e 0 fuel (next_token text).0 t (next_token text).1 rest table
      (expression env e).1 enough y known follow
