-- ===== src/Asm/Eval/Fuel.antt =====
-- The evaluation of assembler/evaluator.c ends when no symbol holds an expression.
use aru_xi.Base.{
  ℕ, zero, suc, ◌+◌, ◌*◌, ◌≤◌, Bool, true, false, ◌||◌, ◌==◌, ltb, Option, none, some, ◌≡◌, refl,
  arith, length, Bool-cases, inl, inr,
}
use aru_xi.Base.Text.{Text}
use aru_xi.Asm.Symbols.{
  SymbValue, expr, value, SymbEntry, SymbolTable, get_defined, get_expression, get_symb_entry,
}
use aru_xi.Asm.Lexer.{Token, end, int, symb, op, lparen, rparen}
use aru_xi.Asm.Lexer.Progress.{weight}
use aru_xi.Asm.Eval.{
  ◌>>=◌, State, Run, is, precedence, advance, fail, minus_one, add_undefined, mark_reference,
  symbol_value, symbol_operand, close_paren, unary, operand_at, combine, loop_round, loop_step,
  parse, eval_at, eval_loop, eval,
}
use aru_xi.Asm.Eval.Ends.{
  NoExpressions, NoExpressions-get_symb_entry, NoExpressions-mark, NoExpressions-add, left_over,
  Ends, Ends-bind, Ends-weaken, advance-left_over, Ends-combine, Ends-close_paren, Ends-unary,
  advanced,
}

-- What a call does on less than `n`.
abbrev Shorter : ℕ → (State → Run) → Type 0
Shorter n call =
    (m : ℕ)
    → suc m ≤ n
    → (st : State) → left_over st ≤ m
    → NoExpressions st.table
    → Ends m (call st)

module _ (n : ℕ) (parse_rec : State → Run) (eval_rec : ℕ → State → Run) where
  Ends-symbol_value :
      (flag : Bool) (content : SymbValue) (st : State)
      → flag ≡ false
      → length st.input ≤ n
      → NoExpressions st.table
      → Ends n (symbol_value parse_rec eval_rec flag content st)
  unfolding symbol_value
  Ends-symbol_value true content st plain le h = ground arith
  Ends-symbol_value false (expr text) st plain le h = tt
  Ends-symbol_value false (value v) st plain le h = advanced n v st le h

  Ends-symbol_operand :
      (name : Text) (found : Option SymbEntry) (st : State)
      → get_symb_entry st.table name ≡ found
      → length st.input ≤ n
      → NoExpressions st.table
      → Ends n (symbol_operand parse_rec eval_rec name found st)
  unfolding symbol_operand
  Ends-symbol_operand name none st is le h =
      advanced n minus_one (add_undefined name st) (unfold add_undefined in le)
        (unfold add_undefined in NoExpressions-add st.table name h)
  Ends-symbol_operand name (some e) st is le h = elim (Bool-cases (get_defined e.flags == 0)) [
    | inl missing ↦ rw missing (advanced n minus_one (fail st) le h)
    | inr defined ↦ rw defined (
        Ends-symbol_value (get_expression e.flags == 1) e.content (mark_reference name st)
          (NoExpressions-get_symb_entry st.table name e h is) (unfold mark_reference in le)
          (unfold mark_reference in NoExpressions-mark st.table name h))
  ]

  module _ (parses : Shorter n parse_rec) (evals : Shorter n (eval_rec 0)) where
    Ends-operand_at :
        (t : Token) (st : State)
        → weight t + length st.input ≤ n
        → left_over st ≤ n
        → NoExpressions st.table
        → Ends n (operand_at parse_rec eval_rec t st)
    unfolding operand_at
    Ends-operand_at (int v) st le all h = advanced n v st (omega arith) h
    Ends-operand_at (symb name) st le all h =
        Ends-symbol_operand name (get_symb_entry st.table name) st refl (omega arith) h
    Ends-operand_at lparen st le all h =
        Ends-bind n (length st.input) (eval_rec 0 (advance st))
          (λ r. close_paren r.0 (r.1).curr r.1)
          (evals (length st.input) (omega arith) (advance st) (advance-left_over st)
            (unfold advance in h))
          (λ v st' less h'. Ends-close_paren n v st'.curr st' (omega arith) h')
    Ends-operand_at (op o) st le all h = elim (Bool-cases (is o "-" || is o "~")) [
      | inl prefix ↦ rw prefix (
          Ends-bind n (length st.input) (parse_rec (advance st)) (λ r. unary o r.0 r.1)
            (parses (length st.input) (omega arith) (advance st) (advance-left_over st)
              (unfold advance in h))
            (λ v st' less h'. Ends-unary n o v st' (omega arith) h'))
      | inr other ↦ rw other (all, h)
    ]
    Ends-operand_at rparen st le all h = (all, h)
    Ends-operand_at end st le all h = (all, h)

module _ (n : ℕ) (eval_rec : ℕ → State → Run) (loop_rec : ℕ → State → Run) where
  module _ (evals : (p : ℕ) → Shorter n (eval_rec p))
      (loops : (l : ℕ) → Shorter n (loop_rec l)) where
    Ends-loop_step :
        (prec left : ℕ) (t : Token) (st : State)
        → weight t + length st.input ≤ n
        → left_over st ≤ n
        → NoExpressions st.table
        → Ends n (loop_step eval_rec loop_rec prec left t st)
    unfolding loop_step loop_round
    Ends-loop_step prec left (op o) st le all h = elim (Bool-cases (ltb prec (precedence o))) [
      | inl on ↦
          let m = length st.input in
          rw on (
            Ends-bind n m (eval_rec (precedence o) (advance st) >>= combine o left)
              (λ r. loop_rec r.0 r.1)
              (Ends-bind m m (eval_rec (precedence o) (advance st)) (combine o left)
                (evals (precedence o) m (omega arith) (advance st) (advance-left_over st)
                  (unfold advance in h))
                (λ v st' less h'. Ends-combine m o left v st' less h'))
              (λ v st' less h'.
                Ends-weaken n m (loop_rec v st') (omega arith)
                  (loops v m (omega arith) st' less h')))
      | inr off ↦ rw off (all, h)
    ]
    Ends-loop_step prec left end st le all h = (all, h)
    Ends-loop_step prec left lparen st le all h = (all, h)
    Ends-loop_step prec left rparen st le all h = (all, h)
    Ends-loop_step prec left (int i) st le all h = (all, h)
    Ends-loop_step prec left (symb i) st le all h = (all, h)

mutual
  unfolding eval_at

  parse-Ends :
      (f n : ℕ) (st : State)
      → 2 * n + 1 ≤ f
      → left_over st ≤ n
      → NoExpressions st.table
      → Ends n (parse f st)
  parse-Ends zero n st fuel le h = absurd (omega arith)
  parse-Ends (suc f) n st fuel le h =
      Ends-operand_at n (parse f) (eval_at f)
        (λ m lt st' le' h'. parse-Ends f m st' (omega arith) le' h')
        (λ m lt st' le' h'. eval_at-Ends f 0 m st' (omega arith) le' h') st.curr st le le h

  eval_at-Ends :
      (f prec n : ℕ) (st : State)
      → 2 * n + 2 ≤ f
      → left_over st ≤ n
      → NoExpressions st.table
      → Ends n (eval_at f prec st)
  eval_at-Ends zero prec n st fuel le h = absurd (omega arith)
  eval_at-Ends (suc f) prec n st fuel le h =
      Ends-bind n n (parse f st) (λ r. eval_loop f prec r.0 r.1)
        (parse-Ends f n st (omega arith) le h)
        (λ v st' le' h'. eval_loop-Ends f prec v n st' (omega arith) le' h')

  eval_loop-Ends :
      (f prec left n : ℕ) (st : State)
      → 2 * n + 1 ≤ f
      → left_over st ≤ n
      → NoExpressions st.table
      → Ends n (eval_loop f prec left st)
  eval_loop-Ends zero prec left n st fuel le h = absurd (omega arith)
  eval_loop-Ends (suc f) prec left n st fuel le h =
      Ends-loop_step n (eval_at f) (eval_loop f prec)
        (λ p m lt st' le' h'. eval_at-Ends f p m st' (omega arith) le' h')
        (λ l m lt st' le' h'. eval_loop-Ends f prec l m st' (omega arith) le' h') prec left st.curr
        st le le h

-- Whatever the text, and also where it is no expression: when no symbol of the table holds an
-- expression, twice the text's length and two units of fuel are enough for `eval`, and no symbol
-- holds an expression after it.
pub eval-Ends :
    (fuel : ℕ) (text : Text) (table : SymbolTable)
    → 2 * length text + 2 ≤ fuel
    → NoExpressions table
    → Ends (length text) (eval fuel text table)
unfolding eval
eval-Ends fuel text table enough h =
    eval_at-Ends fuel 0 (length text)
      (advance (record { input = text; curr = end; table = table; can_eval = true })) enough
      (advance-left_over _) (unfold advance in h)
