-- ===== src/Asm/SecondPass/Resolved.antt =====
-- `resolveSymbols` of assembler/assembler.c over `eval` of assembler/evaluator.c.
use aru_xi.Base.{
  ℕ, zero, suc, ◌+◌, ◌==◌, ◌^◌, ◌-◌, Bool-cases, inl, inr, Option, none, some, [], ◌∷◌, true, false,
  ◌≡◌, refl, ◌∙◌, ap, arith, length, get_elem?,
}
use aru_xi.Base.Bits.{digit-bit_and}
use aru_xi.Asm.Operands.{done}
use aru_xi.Asm.Symbols.{SymbValue, expr, value, SymbEntry, SymbolTable, get_expression}
use aru_xi.Asm.Encoder.Expressions.{evaluator, as_evaluation}
use aru_xi.Asm.Lexer.{end}
use aru_xi.Asm.Eval.{Run, returned, trapped, out_of_fuel, State, eval}
use aru_xi.Asm.Eval.Ends.{NoExpressions}
use aru_xi.Asm.Eval.Quiet.{expression_flags, Quietly, eval-Quietly}
use aru_xi.Asm.Directives.{evaluated}
use aru_xi.Asm.Outcome.{Ensures, holds, ended, broken, Ensures-done, Ensures-chain, Ensures-weaken}
use aru_xi.Asm.SecondPass.{
  change_at, resolve_entry, resolve_content, resolve_at, resolve_from, resolve_symbols,
}

-- None of the first entries holds an expression.
abbrev ClearTo : ℕ → SymbolTable → Type 0
ClearTo zero table = Unit
ClearTo (suc i) [] = Unit
ClearTo (suc i) (e ∷ table) = ((get_expression e.flags == 1) ≡ false) × ClearTo i table

ClearTo-flags :
    (i : ℕ) (t u : SymbolTable)
    → expression_flags u ≡ expression_flags t
    → ClearTo i t
    → ClearTo i u
ClearTo-flags zero t u same h = tt
ClearTo-flags (suc i) t [] same h = tt
ClearTo-flags (suc i) [] (d ∷ u) same h = cc
ClearTo-flags (suc i) (e ∷ t) (d ∷ u) same h =
    let first : get_expression d.flags ≡ get_expression e.flags = cc in
    (rw first (h.0), ClearTo-flags i t u (cc) h.1)

ClearTo-none : (i : ℕ) (t : SymbolTable) → get_elem? t i ≡ none → ClearTo i t → ClearTo (suc i) t
ClearTo-none i [] e h = tt
ClearTo-none zero (d ∷ t) e h = cc
ClearTo-none (suc i) (d ∷ t) e h = (h.0, ClearTo-none i t e h.1)

ClearTo-some :
    (i : ℕ) (t : SymbolTable) (d : SymbEntry)
    → get_elem? t i ≡ some d
    → (get_expression d.flags == 1) ≡ false
    → ClearTo i t
    → ClearTo (suc i) t
ClearTo-some i [] d e clear h = tt
ClearTo-some zero (c ∷ t) d e clear h = (let same : c ≡ d = cc in rw same clear, tt)
ClearTo-some (suc i) (c ∷ t) d e clear h = (h.0, ClearTo-some i t d e clear h.1)

ClearTo-change_at :
    (i v : ℕ) (t : SymbolTable) → ClearTo i t → ClearTo (suc i) (change_at (resolve_entry v) t i)
unfolding change_at resolve_entry
ClearTo-change_at i v [] h = tt
ClearTo-change_at zero v (c ∷ t) h =
    let low = digit-bit_and 7 c.flags (2 ^ 32 - 1 - 128) in (ground arith, tt)
ClearTo-change_at (suc i) v (c ∷ t) h = (h.0, ClearTo-change_at i v t h.1)

length-change_at :
    (f : SymbEntry → SymbEntry) (t : SymbolTable) (i : ℕ) → length (change_at f t i) ≡ length t
unfolding change_at
length-change_at f [] i = refl
length-change_at f (e ∷ t) zero = refl
length-change_at f (e ∷ t) (suc i) = ap suc (length-change_at f t i)

length-flags : (t u : SymbolTable) → expression_flags u ≡ expression_flags t → length u ≡ length t
length-flags [] [] same = refl
length-flags [] (d ∷ u) same = cc
length-flags (e ∷ t) [] same = cc
length-flags (e ∷ t) (d ∷ u) same = ap suc (length-flags t u (cc))

NoExpressions-ClearTo : (n : ℕ) (t : SymbolTable) → length t ≡ n → ClearTo n t → NoExpressions t
NoExpressions-ClearTo n [] e h = tt
NoExpressions-ClearTo zero (d ∷ t) e h = absurd (omega arith)
NoExpressions-ClearTo (suc n) (d ∷ t) e h = (h.0, NoExpressions-ClearTo n t (omega arith) h.1)

-- What a round leaves: one more entry without expression, none added or lost.
abbrev Resolves : ℕ → SymbolTable → SymbolTable → Type 0
Resolves i table table' = ClearTo (suc i) table' × (length table' ≡ length table)

as_evaluation-Ensures :
    (st : State) (r : Run)
    → Quietly st r
    → Ensures
        (λ x. Ensures (λ v. expression_flags v.1 ≡ expression_flags st.table) (evaluated x))
        (as_evaluation r)
as_evaluation-Ensures st (returned (v, st')) h = elim (Bool-cases st'.can_eval) [
  | inl on ↦ rw on (holds (holds (h on).1))
  | inr off ↦ rw off (holds ended)
]
as_evaluation-Ensures st trapped h = broken
as_evaluation-Ensures st out_of_fuel h = broken

module _ (fuel : ℕ) where
  resolve_content-Resolves :
      (i : ℕ) (c : SymbValue) (table : SymbolTable)
      → ClearTo i table
      → Ensures (Resolves i table) (resolve_content (evaluator fuel) i c table)
  unfolding resolve_content evaluator
  resolve_content-Resolves i (value v) table h = broken
  resolve_content-Resolves i (expr s) table h =
      Ensures-chain
        (as_evaluation-Ensures (record { input = s; curr = end; table = table; can_eval = true })
          (eval fuel s table) (eval-Quietly fuel s table))
        (λ r quiet. Ensures-chain quiet (λ v same. holds (
          ClearTo-change_at i v.0 v.1 (ClearTo-flags i table v.1 same h),
          length-change_at (resolve_entry v.0) v.1 i ∙ length-flags table v.1 same,
        )))

  resolve_at-Resolves :
      (i : ℕ) (found : Option SymbEntry) (table : SymbolTable)
      → get_elem? table i ≡ found
      → ClearTo i table
      → Ensures (Resolves i table) (resolve_at (evaluator fuel) i found table)
  unfolding resolve_at
  resolve_at-Resolves i none table e h = holds (ClearTo-none i table e h, refl)
  resolve_at-Resolves i (some d) table e h = elim (Bool-cases (get_expression d.flags == 1)) [
    | inl deferred ↦ rw deferred (resolve_content-Resolves i d.content table h)
    | inr clear ↦ rw clear (holds (ClearTo-some i table d e clear h, refl))
  ]

  resolve_from-NoExpressions :
      (left i : ℕ) (table : SymbolTable)
      → length table ≡ left + i
      → ClearTo i table
      → Ensures
          (λ t. NoExpressions t × (length t ≡ length table))
          (resolve_from (evaluator fuel) left i table)
  unfolding resolve_from
  resolve_from-NoExpressions zero i table size h =
      holds (NoExpressions-ClearTo i table (omega arith) h, refl)
  resolve_from-NoExpressions (suc left) i table size h =
      Ensures-chain (resolve_at-Resolves i (get_elem? table i) table refl h) (λ t r.
        Ensures-weaken (resolve_from-NoExpressions left (suc i) t (omega arith) r.0)
          (λ t' r'. (r'.0, r'.1 ∙ r.1)))

  -- Once the symbols are resolved no entry holds an expression, and there are as many as before.
  pub resolve_symbols-NoExpressions :
      (table t : SymbolTable)
      → resolve_symbols (evaluator fuel) table ≡ done t
      → NoExpressions t × (length t ≡ length table)
  unfolding resolve_symbols
  resolve_symbols-NoExpressions table t =
      Ensures-done (resolve_from-NoExpressions (length table) 0 table (omega arith) tt)
