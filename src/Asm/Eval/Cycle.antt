-- ===== src/Asm/Eval/Cycle.antt =====
-- Symbols whose expressions lead to one another are evaluated without end in
-- assembler/evaluator.c.
use aru_xi.Base.{ℕ, zero, suc, true, false, ◌==◌, some, ◌≡◌, refl, ◌∙◌}
use aru_xi.Base.Text.{Text}
use aru_xi.Asm.Symbols.{expr, SymbEntry, SymbolTable, get_defined, get_expression, get_symb_entry}
use aru_xi.Asm.Lexer.{end, symb, next_token}
use aru_xi.Asm.Eval.{
  out_of_fuel, State, advance, mark, mark_reference, enter, leave, symbol_value, symbol_operand,
  operand_at, parse, eval_at, eval,
}
use aru_xi.Asm.Eval.Known.{get_symb_entry-mark}

-- Each of the symbols is defined by an expression that starts with one of them.
abbrev pub AreCyclic : (Text → Type 0) → SymbolTable → Type 0
AreCyclic In table =
    (s : Text)
    → In s
    → (e : SymbEntry) × (get_symb_entry table s ≡ some e)
      × ((get_defined e.flags == 0) ≡ false)
      × ((get_expression e.flags == 1) ≡ true)
      × ((text : Text) × (e.content ≡ expr text)
          × ((next : Text) × ((next_token text).0 ≡ symb next) × In next))

module _ (In : Text → Type 0) where
  AreCyclic-mark :
      (table : SymbolTable) (m : Text) → AreCyclic In table → AreCyclic In (mark m table)
  AreCyclic-mark table m cyclic s member =
      let (e, found, defined, flag, more) = cyclic s member in
      let (e', found', d, x, c) = get_symb_entry-mark table m s e found in
      (e', found', rw d defined, rw x flag, (more.0, c ∙ more.1, more.2))

  parse-AreCyclic :
      (f : ℕ) (st : State) (s : Text)
      → st.curr ≡ symb s
      → In s
      → AreCyclic In st.table
      → parse f st ≡ out_of_fuel
  unfolding parse operand_at symbol_operand symbol_value enter advance next_token mark_reference
      leave
  parse-AreCyclic zero st s is member cyclic = refl
  parse-AreCyclic (suc zero) st s is member cyclic =
      let (e, found, defined, flag, more) = cyclic s member in
      rw (is, found, defined, flag, more.1) refl
  parse-AreCyclic (suc (suc f)) st s is member cyclic =
      let (e, found, defined, flag, more) = cyclic s member in
      let again =
        parse-AreCyclic f (enter more.0 (mark_reference s st)) more.2.0 more.2.1 more.2.2
          (AreCyclic-mark st.table s cyclic) in
      rw (is, found, defined, flag, more.1, again) refl

-- A text that starts with one of the symbols of a cycle keeps `eval` running, whatever the fuel.
pub eval-AreCyclic :
    (In : Text → Type 0) (fuel : ℕ) (text s : Text) (table : SymbolTable)
    → (next_token text).0 ≡ symb s
    → In s
    → AreCyclic In table
    → eval fuel text table ≡ out_of_fuel
unfolding eval eval_at advance
eval-AreCyclic In zero text s table is member cyclic = refl
eval-AreCyclic In (suc f) text s table is member cyclic =
    let inner =
      parse-AreCyclic In f
        (advance (record { input = text; curr = end; table = table; can_eval = true })) s is member
        cyclic in
    rw inner refl
