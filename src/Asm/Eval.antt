-- ===== src/Asm/Eval.antt =====
-- The evaluator of expressions, assembler/evaluator.c.
--
-- `int32_t` is a 32-bit pattern, and arithmetic wraps around as the machine's does; a shift takes
-- the low five bits of its distance, as the shift instructions of x86 and ARM do. A division that
-- traps, and a symbol whose union holds the other member than its flags say, are `trapped`.
-- Each call of `parse`, `_eval` and each round of its loop costs one unit of fuel.
pub mod Tree
pub mod Known
pub mod Loop
pub mod Climb
pub mod Ends
pub mod Fuel
pub mod Cycle
pub mod Quiet
pub mod Tests
use aru_xi.Base.{
  ℕ, zero, suc, ◌+◌, ◌-◌, ◌*◌, ◌/◌, ◌%◌, ◌^◌, Bool, true, false, not, ◌&&◌, ◌||◌, ◌==◌, leb, ltb,
  if◌then◌else◌, bit_or, bit_and, bit_xor, Option, none, some, List, [], ◌∷◌, u32, sub32, sar32,
  is_negative, ◌<<<◌,
}
use Prim.Native.String.{String}
use aru_xi.Base.Text.{Text, codes, str_eq}
use aru_xi.Asm.Symbols.{
  SymbValue, expr, value, SymbEntry, SymbolTable, get_defined, get_expression, set_reference,
  init_symb_entry, add_symb_entry, get_symb_entry, change_entry,
}
use aru_xi.Asm.Lexer.{Token, end, int, symb, op, lparen, rparen, next_token}

pub data Outcome (A : Type 0) : Type 0 where
  returned : A → Outcome A
  trapped out_of_fuel : Outcome A

infixl 5 ◌>>=◌
abbrev pub ◌>>=◌ : {A B : Type 0} → Outcome A → (A → Outcome B) → Outcome B
returned a >>= f = f a
trapped >>= f = trapped
out_of_fuel >>= f = out_of_fuel

-- The lexer, the symbol table and `*canEval`.
pub record State : Type 0 where
  pub input : Text
  pub curr : Token
  pub table : SymbolTable
  pub can_eval : Bool

abbrev pub Run : Type 0
Run = Outcome (ℕ × State)

abbrev pub move_on : State → Token × Text → State
move_on st next = record st { curr = next.0; input = next.1 }

unfoldable pub advance : State → State
advance st = move_on st (next_token st.input)

abbrev pub fail : State → State
fail st = record st { can_eval = false }

-- The value -1 of the branches that give up.
abbrev pub minus_one : ℕ
minus_one = 2 ^ 32 - 1

abbrev pub is : Text → String → Bool
is s name = str_eq s (codes name)

-- `precedence`, with 0 for the -1 of an unknown operator: it is only compared with `prec`, which is
-- never negative.
unfoldable pub precedence : Text → ℕ
precedence o =
    if is o "|"
    then 1
    else (if is o "^"
        then 2
        else (if is o "&"
            then 3
            else (if is o "<<" || is o ">>"
                then 4
                else (if is o "+" || is o "-"
                    then 5
                    else (if is o "*" || is o "/" then 6 else 0)))))

abbrev pub neg32 : ℕ → ℕ
neg32 x = sub32 0 x

abbrev pub magnitude : ℕ → ℕ
magnitude x = if is_negative x then 2 ^ 32 - x else x

-- Division of signed numbers, which drops the fraction; `none` is the machine's trap.
unfoldable pub sdiv32 : ℕ → ℕ → Option ℕ
sdiv32 l r =
    let quotient = magnitude l / magnitude r in
    if (r == 0) || ((l == 2 ^ 31) && (r == minus_one))
    then none
    else some (
        if (if is_negative l then is_negative r else not (is_negative r))
        then quotient
        else neg32 quotient)

unfoldable pub apply_op : Text → ℕ → ℕ → Option ℕ
apply_op o l r =
    if is o "+"
    then some (u32 (l + r))
    else (if is o "-"
        then some (sub32 l r)
        else (if is o "*"
            then some (u32 (l * r))
            else (if is o "/"
                then sdiv32 l r
                else (if is o "<<"
                    then some (u32 (l <<< (r % 32)))
                    else (if is o ">>"
                        then some (sar32 l (r % 32))
                        else (if is o "&"
                            then some (bit_and l r)
                            else (if is o "^"
                                then some (bit_xor l r)
                                else some (if is o "|" then bit_or l r else l))))))))

abbrev pub or_trap : {A : Type 0} → Option A → Outcome A
or_trap none = trapped
or_trap (some v) = returned v

-- A symbol that no entry has becomes an undefined one that is referenced.
unfoldable pub add_undefined : Text → State → State
add_undefined name st = record st {
  table = add_symb_entry st.table (init_symb_entry name none 0 2);
  can_eval = false;
}

unfoldable pub mark : Text → SymbolTable → SymbolTable
mark name table = change_entry (λ e. record e { flags = set_reference e.flags }) table name

unfoldable pub mark_reference : Text → State → State
mark_reference name st = record st { table = mark name st.table }

-- The lexer of an expression that a symbol holds, and the caller's lexer again after it.
unfoldable pub enter : Text → State → State
enter text st = advance (record st { input = text; curr = end })

unfoldable pub leave : State → State → State
leave caller st = record caller { table = st.table; can_eval = st.can_eval }

unfoldable pub close_paren : ℕ → Token → State → Run
close_paren res rparen st = returned (res, advance st)
close_paren res t st = returned (minus_one, fail st)

unfoldable pub unary : Text → ℕ → State → Run
unary o right st =
    if not st.can_eval
    then returned (right, st)
    else (if is o "-" then returned (neg32 right, st) else returned (2 ^ 32 - 1 - right, st))

module _ (parse_rec : State → Run) (eval_rec : ℕ → State → Run) where
  unfoldable pub symbol_value : Bool → SymbValue → State → Run
  symbol_value true (expr text) st =
      eval_rec 0 (enter text st) >>= λ r. returned (r.0, advance (leave st r.1))
  symbol_value true (value v) st = trapped
  symbol_value false (expr text) st = trapped
  symbol_value false (value v) st = returned (v, advance st)

  unfoldable pub symbol_operand : Text → Option SymbEntry → State → Run
  symbol_operand name none st = returned (minus_one, advance (add_undefined name st))
  symbol_operand name (some e) st =
      if get_defined e.flags == 0
      then returned (minus_one, advance (fail st))
      else symbol_value (get_expression e.flags == 1) e.content (mark_reference name st)

  unfoldable pub operand_at : Token → State → Run
  operand_at (int v) st = returned (v, advance st)
  operand_at (symb name) st = symbol_operand name (get_symb_entry st.table name) st
  operand_at lparen st = eval_rec 0 (advance st) >>= λ r. close_paren r.0 r.1.curr r.1
  operand_at (op o) st =
      if is o "-" || is o "~"
      then (parse_rec (advance st) >>= λ r. unary o r.0 r.1)
      else returned (minus_one, fail st)
  operand_at rparen st = returned (minus_one, fail st)
  operand_at end st = returned (minus_one, fail st)

-- What the loop makes of its left side; a failed evaluation leaves it.
unfoldable pub combine : Text → ℕ → ℕ × State → Run
combine o left (right, st) =
    if not st.can_eval
    then returned (left, st)
    else (or_trap (apply_op o left right) >>= λ v. returned (v, st))

module _ (eval_rec : ℕ → State → Run) (loop_rec : ℕ → State → Run) where
  unfoldable pub loop_round : Text → ℕ → State → Run
  loop_round o left st =
      (eval_rec (precedence o) (advance st) >>= combine o left) >>= (λ r. loop_rec r.0 r.1)

  unfoldable pub loop_step : ℕ → ℕ → Token → State → Run
  loop_step prec left (op o) st =
      if ltb prec (precedence o) then loop_round o left st else returned (left, st)
  loop_step prec left t st = returned (left, st)

unfoldable mutual
  pub parse : ℕ → State → Run
  parse zero st = out_of_fuel
  parse (suc f) st = operand_at (parse f) (eval_at f) st.curr st

  -- `_eval`, and the loop in it.
  pub eval_at : ℕ → ℕ → State → Run
  eval_at zero prec st = out_of_fuel
  eval_at (suc f) prec st = parse f st >>= λ r. eval_loop f prec r.0 r.1

  pub eval_loop : ℕ → ℕ → ℕ → State → Run
  eval_loop zero prec left st = out_of_fuel
  eval_loop (suc f) prec left st = loop_step (eval_at f) (eval_loop f prec) prec left st.curr st

-- `eval`, with `*canEval` true before the call.
unfoldable pub eval : ℕ → Text → SymbolTable → Run
eval fuel text table =
    eval_at fuel 0 (advance (record { input = text; curr = end; table = table; can_eval = true }))
