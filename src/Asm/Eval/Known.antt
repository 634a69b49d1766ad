-- ===== src/Asm/Eval/Known.antt =====
-- Symbols that stand for numbers in assembler/SymbolTable.c, and marks on them.
use aru_xi.Base.{ℕ, false, ◌==◌, some, ◌≡◌, refl, ◌∙◌, arith, Bool-cases, inl, inr}
use aru_xi.Base.Bits.{digit-bit_or}
use aru_xi.Base.Text.{Text, str_eq}
use aru_xi.Asm.Symbols.{
  SymbEntry, SymbolTable, value, get_defined, get_expression, set_reference, get_symb_entry,
}
use aru_xi.Asm.Symbols.Lookup.{get_symb_entry-change_entry}
use aru_xi.Asm.Eval.{mark}
use aru_xi.Asm.Eval.Tree.{Expr, num, name, neg, inv, bin, mark_all}

-- The symbol is defined, and holds a number.
abbrev pub IsNumber : SymbEntry → ℕ → Type 0
IsNumber e v =
    ((get_defined e.flags == 0) ≡ false)
    × ((get_expression e.flags == 1) ≡ false)
    × (e.content ≡ value v)

abbrev pub KnownName : (Text → ℕ) → SymbolTable → Text → Type 0
KnownName env table s = (e : SymbEntry) × (get_symb_entry table s ≡ some e) × IsNumber e (env s)

-- So are all symbols of the expression.
abbrev pub Known : (Text → ℕ) → SymbolTable → Expr → Type 0
Known env table (num v) = Unit
Known env table (name s) = KnownName env table s
Known env table (neg e) = Known env table e
Known env table (inv e) = Known env table e
Known env table (bin o a b) = Known env table a × Known env table b

abbrev marked : SymbEntry → SymbEntry
marked e = record e { flags = set_reference e.flags }

-- A mark changes neither what a symbol holds nor whether it is defined.
pub get_symb_entry-mark :
    (table : SymbolTable) (m s : Text) (e : SymbEntry)
    → get_symb_entry table s ≡ some e
    → (e' : SymbEntry) × (get_symb_entry (mark m table) s ≡ some e')
      × (get_defined e'.flags ≡ get_defined e.flags)
      × (get_expression e'.flags ≡ get_expression e.flags)
      × (e'.content ≡ e.content)
unfolding mark
get_symb_entry-mark table m s e found =
    let look = get_symb_entry-change_entry marked table m s (λ e. refl) in
    let low = digit-bit_or 0 e.flags 2 in
    let high = digit-bit_or 7 e.flags 2 in
    elim (Bool-cases (str_eq m s)) [
      | inl same ↦ (marked e, look ∙ rw (same, found) refl, ground arith, ground arith, refl)
      | inr other ↦ (e, look ∙ rw (other, found) refl, refl, refl, refl)
    ]

KnownName-mark :
    (env : Text → ℕ) (table : SymbolTable) (m s : Text)
    → KnownName env table s
    → KnownName env (mark m table) s
KnownName-mark env table m s (e, found, (defined, plain, is)) =
    let (e', found', d, x, c) = get_symb_entry-mark table m s e found in
    (e', found', (rw d defined, rw x plain, c ∙ is))

Known-mark :
    (env : Text → ℕ) (table : SymbolTable) (m : Text) (e : Expr)
    → Known env table e
    → Known env (mark m table) e
Known-mark env table m (num v) h = tt
Known-mark env table m (name s) h = KnownName-mark env table m s h
Known-mark env table m (neg e) h = Known-mark env table m e h
Known-mark env table m (inv e) h = Known-mark env table m e h
Known-mark env table m (bin o a b) h = (Known-mark env table m a h.0, Known-mark env table m b h.1)

pub Known-mark_all :
    (env : Text → ℕ) (table : SymbolTable) (a e : Expr)
    → Known env table e
    → Known env (mark_all a table) e
unfolding mark_all
Known-mark_all env table (num v) e h = h
Known-mark_all env table (name s) e h = Known-mark env table s e h
Known-mark_all env table (neg a) e h = Known-mark_all env table a e h
Known-mark_all env table (inv a) e h = Known-mark_all env table a e h
Known-mark_all env table (bin o a b) e h =
    Known-mark_all env (mark_all a table) b e (Known-mark_all env table a e h)
