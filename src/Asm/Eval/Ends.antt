-- ===== src/Asm/Eval/Ends.antt =====
-- Runs of assembler/evaluator.c that end, over tables in which no symbol holds an expression.
use aru_xi.Base.{
  ℕ, ◌+◌, ◌≤◌, true, false, ◌==◌, Option, none, some, [], ◌∷◌, ◌≡◌, refl, arith, length, Bool-cases,
  inl, inr,
}
use aru_xi.Base.Bits.{digit-bit_or}
use aru_xi.Base.Text.{Text, str_eq}
use aru_xi.Asm.Symbols.{
  SymbEntry, SymbolTable, get_expression, init_symb_entry, add_symb_entry, get_symb_entry,
  change_entry,
}
use aru_xi.Asm.Lexer.{Token, end, int, symb, op, lparen, rparen}
use aru_xi.Asm.Lexer.Progress.{weight, length-next_token}
use aru_xi.Asm.Eval.{
  returned, trapped, out_of_fuel, ◌>>=◌, State, Run, or_trap, is, advance, apply_op, mark,
  close_paren, unary, combine,
}

-- No symbol holds an expression.
abbrev pub NoExpressions : SymbolTable → Type 0
NoExpressions [] = Unit
NoExpressions (e ∷ table) = ((get_expression e.flags == 1) ≡ false) × NoExpressions table

pub NoExpressions-get_symb_entry :
    (table : SymbolTable) (name : Text) (e : SymbEntry)
    → NoExpressions table
    → get_symb_entry table name ≡ some e
    → (get_expression e.flags == 1) ≡ false
unfolding get_symb_entry
NoExpressions-get_symb_entry [] name e h found = ground arith
NoExpressions-get_symb_entry (d ∷ table) name e h found = elim (Bool-cases (str_eq d.name name)) [
  | inl hit ↦ ground arith
  | inr miss ↦ NoExpressions-get_symb_entry table name e h.1 (rw miss at found)
]

pub NoExpressions-mark :
    (table : SymbolTable) (name : Text) → NoExpressions table → NoExpressions (mark name table)
unfolding mark change_entry
NoExpressions-mark [] name h = tt
NoExpressions-mark (d ∷ table) name h =
    let high = digit-bit_or 7 d.flags 2 in
    elim (Bool-cases (str_eq d.name name)) [
      | inl hit ↦ rw hit (ground arith, h.1)
      | inr miss ↦ rw miss (h.0, NoExpressions-mark table name h.1)
    ]

pub NoExpressions-add :
    (table : SymbolTable) (name : Text)
    → NoExpressions table
    → NoExpressions (add_symb_entry table (init_symb_entry name none 0 2))
unfolding add_symb_entry init_symb_entry
NoExpressions-add [] name h = (refl, tt)
NoExpressions-add (d ∷ table) name h = (h.0, NoExpressions-add table name h.1)

-- The characters and the token that are left.
abbrev pub left_over : State → ℕ
left_over st = weight st.curr + length st.input

-- The run ends within `n`, and its table still holds no expression.
abbrev pub Ends : ℕ → Run → Type 0
Ends n (returned r) = (left_over r.1 ≤ n) × NoExpressions (r.1).table
Ends n trapped = Unit
Ends n out_of_fuel = ⊥

pub Ends-bind :
    (n m : ℕ) (r : Run) (f : ℕ × State → Run)
    → Ends m r
    → ((v : ℕ) (st : State) → left_over st ≤ m → NoExpressions st.table → Ends n (f (v, st)))
    → Ends n (r >>= f)
Ends-bind n m (returned (v, st)) f h k = k v st h.0 h.1
Ends-bind n m trapped f h k = tt
Ends-bind n m out_of_fuel f h k = absurd h

pub Ends-weaken : (n m : ℕ) (r : Run) → m ≤ n → Ends m r → Ends n r
Ends-weaken n m (returned r) le h = (omega arith, h.1)
Ends-weaken n m trapped le h = tt
Ends-weaken n m out_of_fuel le h = h

pub advance-left_over : (st : State) → left_over (advance st) ≤ length st.input
unfolding advance
advance-left_over st = length-next_token st.input

pub Ends-or_trap :
    (n : ℕ) (x : Option ℕ) (st : State)
    → left_over st ≤ n
    → NoExpressions st.table
    → Ends n (or_trap x >>= λ v. returned (v, st))
Ends-or_trap n none st le h = tt
Ends-or_trap n (some v) st le h = (le, h)

pub Ends-combine :
    (n : ℕ) (o : Text) (l v : ℕ) (st : State)
    → left_over st ≤ n
    → NoExpressions st.table
    → Ends n (combine o l (v, st))
unfolding combine
Ends-combine n o l v st le h = elim (Bool-cases st.can_eval) [
  | inl on ↦ rw on (Ends-or_trap n (apply_op o l v) (record st { can_eval = true }) le h)
  | inr off ↦ rw off (le, h)
]

pub Ends-close_paren :
    (n v : ℕ) (t : Token) (st : State)
    → left_over st ≤ n
    → NoExpressions st.table
    → Ends n (close_paren v t st)
unfolding close_paren
Ends-close_paren n v rparen st le h = (omega (arith, advance-left_over st), unfold advance in h)
Ends-close_paren n v lparen st le h = (le, h)
Ends-close_paren n v end st le h = (le, h)
Ends-close_paren n v (int i) st le h = (le, h)
Ends-close_paren n v (symb i) st le h = (le, h)
Ends-close_paren n v (op i) st le h = (le, h)

pub Ends-unary :
    (n : ℕ) (o : Text) (v : ℕ) (st : State)
    → left_over st ≤ n
    → NoExpressions st.table
    → Ends n (unary o v st)
unfolding unary
Ends-unary n o v st le h = elim (Bool-cases st.can_eval) [
  | inl on ↦ elim (Bool-cases (is o "-")) [
    | inl minus ↦ rw (on, minus) (le, h)
    | inr other ↦ rw (on, other) (le, h)
  ]
  | inr off ↦ rw off (le, h)
]

pub advanced :
    (n v : ℕ) (st : State)
    → length st.input ≤ n
    → NoExpressions st.table
    → Ends n (returned (v, advance st))
advanced n v st le h = (omega (arith, advance-left_over st), unfold advance in h)
