-- ===== src/Asm/Eval/Quiet.antt =====
-- What an evaluation of assembler/evaluator.c that succeeds leaves in the symbol table.
use aru_xi.Base.{
  ℕ, zero, suc, Bool, true, false, ◌||◌, ◌==◌, ltb, Option, none, some, List, [], ◌∷◌, ◌≡◌, refl,
  ◌∙◌, ap, arith, Bool-cases, inl, inr,
}
use aru_xi.Base.Bits.{digit-bit_or}
use aru_xi.Base.Text.{Text, str_eq}
use aru_xi.Asm.Symbols.{
  SymbValue, expr, value, SymbEntry, SymbolTable, get_defined, get_expression, get_symb_entry,
  change_entry,
}
use aru_xi.Asm.Lexer.{Token, end, int, symb, op, lparen, rparen}
use aru_xi.Asm.Eval.{
  returned, trapped, out_of_fuel, ◌>>=◌, State, Run, or_trap, is, precedence, advance, apply_op,
  add_undefined, mark, mark_reference, enter, leave, symbol_value, symbol_operand, close_paren,
  unary, operand_at, combine, loop_round, loop_step, parse, eval_at, eval_loop, eval,
}

-- Which entries hold an expression.
abbrev pub expression_flags : SymbolTable → List ℕ
expression_flags [] = []
expression_flags (e ∷ table) = get_expression e.flags ∷ expression_flags table

expression_flags-mark :
    (name : Text) (table : SymbolTable)
    → expression_flags (mark name table) ≡ expression_flags table
unfolding mark change_entry
expression_flags-mark name [] = refl
expression_flags-mark name (e ∷ table) =
    let high = digit-bit_or 7 e.flags 2 in
    elim (Bool-cases (str_eq e.name name)) [
      | inl hit ↦ rw hit (ap (λ (f : ℕ). f ∷ expression_flags table) (ground arith))
      | inr miss ↦
          rw miss
            (ap (λ (fs : List ℕ). get_expression e.flags ∷ fs) (expression_flags-mark name table))
    ]

-- Where evaluation is still possible afterwards it was before, and the same entries hold expressions.
abbrev pub IsQuiet : State → State → Type 0
IsQuiet st st' =
    st'.can_eval ≡ true
    → (st.can_eval ≡ true) × (expression_flags st'.table ≡ expression_flags st.table)

IsQuiet-trans : (a b c : State) → IsQuiet a b → IsQuiet b c → IsQuiet a c
IsQuiet-trans a b c first second on =
    let (between, flags) = second on in
    let (before, flags') = first between in (before, flags ∙ flags')

abbrev pub Quietly : State → Run → Type 0
Quietly st (returned r) = IsQuiet st r.1
Quietly st trapped = Unit
Quietly st out_of_fuel = Unit

Quietly-before : (st st' : State) (r : Run) → IsQuiet st st' → Quietly st' r → Quietly st r
Quietly-before st st' (returned r) h k = IsQuiet-trans st st' r.1 h k
Quietly-before st st' trapped h k = tt
Quietly-before st st' out_of_fuel h k = tt

Quietly-bind :
    (st : State) (r : Run) (f : ℕ × State → Run)
    → Quietly st r
    → ((v : ℕ) (st' : State) → Quietly st' (f (v, st')))
    → Quietly st (r >>= f)
Quietly-bind st (returned (v, st')) f h k = Quietly-before st st' (f (v, st')) h (k v st')
Quietly-bind st trapped f h k = tt
Quietly-bind st out_of_fuel f h k = tt

advance-IsQuiet : (st : State) → IsQuiet st (advance st)
unfolding advance
advance-IsQuiet st on = (on, refl)

Quiet-or_trap : (st : State) (x : Option ℕ) → Quietly st (or_trap x >>= λ v. returned (v, st))
Quiet-or_trap st none = tt
Quiet-or_trap st (some v) = λ on. (on, refl)

combine-Quietly : (o : Text) (l v : ℕ) (st : State) → Quietly st (combine o l (v, st))
unfolding combine
combine-Quietly o l v st = elim (Bool-cases st.can_eval) [
  | inl on ↦ rw on (Quiet-or_trap (record st { can_eval = true }) (apply_op o l v))
  | inr off ↦ rw off (λ on. (on, refl))
]

close_paren-Quietly : (v : ℕ) (t : Token) (st : State) → Quietly st (close_paren v t st)
unfolding close_paren
close_paren-Quietly v rparen st = advance-IsQuiet st
close_paren-Quietly v lparen st = λ on. cc
close_paren-Quietly v end st = λ on. cc
close_paren-Quietly v (int i) st = λ on. cc
close_paren-Quietly v (symb i) st = λ on. cc
close_paren-Quietly v (op i) st = λ on. cc

unary-Quietly : (o : Text) (v : ℕ) (st : State) → Quietly st (unary o v st)
unfolding unary
unary-Quietly o v st = elim (Bool-cases st.can_eval) [
  | inl on ↦ elim (Bool-cases (is o "-")) [
    | inl minus ↦ rw (on, minus) (λ on'. (refl, refl))
    | inr other ↦ rw (on, other) (λ on'. (refl, refl))
  ]
  | inr off ↦ rw off (λ on. (on, refl))
]

module _ (parse_rec : State → Run) (eval_rec : ℕ → State → Run) where
  module _ (parses : (st : State) → Quietly st (parse_rec st))
      (evals : (p : ℕ) (st : State) → Quietly st (eval_rec p st)) where
    symbol_value-Quietly :
        (flag : Bool) (content : SymbValue) (st : State)
        → Quietly st (symbol_value parse_rec eval_rec flag content st)
    unfolding symbol_value
    symbol_value-Quietly true (expr text) st =
        Quietly-bind st (eval_rec 0 (enter text st)) _
          (Quietly-before st (enter text st) (eval_rec 0 (enter text st))
            (unfold enter advance in λ on. (on, refl)) (evals 0 (enter text st)))
          (λ v st'. unfold leave advance in λ on. (on, refl))
    symbol_value-Quietly true (value v) st = tt
    symbol_value-Quietly false (expr text) st = tt
    symbol_value-Quietly false (value v) st = advance-IsQuiet st

    symbol_operand-Quietly :
        (name : Text) (found : Option SymbEntry) (st : State)
        → Quietly st (symbol_operand parse_rec eval_rec name found st)
    unfolding symbol_operand
    symbol_operand-Quietly name none st = unfold add_undefined advance in λ on. cc
    symbol_operand-Quietly name (some e) st = elim (Bool-cases (get_defined e.flags == 0)) [
      | inl missing ↦ rw missing (unfold advance in λ on. cc)
      | inr defined ↦ rw defined (
          Quietly-before st (mark_reference name st) _
            (unfold mark_reference in λ on. (on, expression_flags-mark name st.table))
            (symbol_value-Quietly (get_expression e.flags == 1) e.content (mark_reference name st)))
    ]

    operand_at-Quietly : (t : Token) (st : State) → Quietly st (operand_at parse_rec eval_rec t st)
    unfolding operand_at
    operand_at-Quietly (int v) st = advance-IsQuiet st
    operand_at-Quietly (symb name) st =
        symbol_operand-Quietly name (get_symb_entry st.table name) st
    operand_at-Quietly lparen st =
        Quietly-bind st (eval_rec 0 (advance st)) _
          (Quietly-before st (advance st) _ (advance-IsQuiet st) (evals 0 (advance st)))
          (λ v st'. close_paren-Quietly v st'.curr st')
    operand_at-Quietly (op o) st = elim (Bool-cases (is o "-" || is o "~")) [
      | inl prefix ↦ rw prefix (
          Quietly-bind st (parse_rec (advance st)) _
            (Quietly-before st (advance st) _ (advance-IsQuiet st) (parses (advance st)))
            (λ v st'. unary-Quietly o v st'))
      | inr other ↦ rw other (λ on. cc)
    ]
    operand_at-Quietly rparen st = λ on. cc
    operand_at-Quietly end st = λ on. cc

module _ (eval_rec : ℕ → State → Run) (loop_rec : ℕ → State → Run) where
  module _ (evals : (p : ℕ) (st : State) → Quietly st (eval_rec p st))
      (loops : (l : ℕ) (st : State) → Quietly st (loop_rec l st)) where
    loop_step-Quietly :
        (prec left : ℕ) (t : Token) (st : State)
        → Quietly st (loop_step eval_rec loop_rec prec left t st)
    unfolding loop_step loop_round
    loop_step-Quietly prec left (op o) st = elim (Bool-cases (ltb prec (precedence o))) [
      | inl go ↦ rw go (
          Quietly-bind st (eval_rec (precedence o) (advance st) >>= combine o left) _
            (Quietly-bind st (eval_rec (precedence o) (advance st)) _
              (Quietly-before st (advance st) _ (advance-IsQuiet st)
                (evals (precedence o) (advance st)))
              (λ v st'. combine-Quietly o left v st'))
            (λ v st'. loops v st'))
      | inr stop ↦ rw stop (λ on. (on, refl))
    ]
    loop_step-Quietly prec left end st = λ on. (on, refl)
    loop_step-Quietly prec left lparen st = λ on. (on, refl)
    loop_step-Quietly prec left rparen st = λ on. (on, refl)
    loop_step-Quietly prec left (int i) st = λ on. (on, refl)
    loop_step-Quietly prec left (symb i) st = λ on. (on, refl)

mutual
  unfolding eval_at

  parse-Quietly : (f : ℕ) (st : State) → Quietly st (parse f st)
  parse-Quietly zero st = tt
  parse-Quietly (suc f) st =
      operand_at-Quietly (parse f) (eval_at f) (λ st'. parse-Quietly f st')
        (λ p st'. eval_at-Quietly f p st') st.curr st

  eval_at-Quietly : (f prec : ℕ) (st : State) → Quietly st (eval_at f prec st)
  eval_at-Quietly zero prec st = tt
  eval_at-Quietly (suc f) prec st =
      Quietly-bind st (parse f st) _ (parse-Quietly f st) (λ v st'. eval_loop-Quietly f prec v st')

  eval_loop-Quietly : (f prec left : ℕ) (st : State) → Quietly st (eval_loop f prec left st)
  eval_loop-Quietly zero prec left st = tt
  eval_loop-Quietly (suc f) prec left st =
      loop_step-Quietly (eval_at f) (eval_loop f prec) (λ p st'. eval_at-Quietly f p st')
        (λ l st'. eval_loop-Quietly f prec l st') prec left st.curr st

-- A successful evaluation leaves it open to the same entries to hold expressions, and to no others.
pub eval-Quietly :
    (fuel : ℕ) (text : Text) (table : SymbolTable)
    → Quietly
        (record { input = text; curr = end; table = table; can_eval = true })
        (eval fuel text table)
unfolding eval
eval-Quietly fuel text table =
    let st : State = record { input = text; curr = end; table = table; can_eval = true } in
    Quietly-before st (advance st) _ (advance-IsQuiet st) (eval_at-Quietly fuel 0 (advance st))
