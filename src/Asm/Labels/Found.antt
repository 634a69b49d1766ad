-- ===== src/Asm/Labels/Found.antt =====
-- What a label of assembler/lexer-parser.c is afterwards.
use aru_xi.Base.{
  ℕ, zero, suc, ◌≤◌, ◌-◌, ◌*◌, ◌^◌, false, bit_or, bit_and, Option, none, some, ◌≡◌, refl, ◌∙◌,
  arith,
}
use aru_xi.Base.Bits.{digit-bit_or, digit-bit_and}
use aru_xi.Base.Text.{Text, str_eq, str_eq_refl}
use aru_xi.Asm.Operands.{done}
use aru_xi.Asm.Symbols.{
  SymbEntry, SymbolTable, value, get_defined, get_expression, init_symb_entry, get_symb_entry,
}
use aru_xi.Asm.Symbols.Lookup.{or_else, get_symb_entry-add_symb_entry, get_symb_entry-change_entry}
use aru_xi.Asm.Tables.{SectionTable, active_lp}
use aru_xi.Asm.Directives.{create_flags}
use aru_xi.Asm.Labels.{define_entry, put_label, validate_label, handle_label}
use aru_xi.Asm.Outcome.{holds, Ensures-done, Ensures-bind}

-- The entry says that the symbol is defined at `lp`; its expression flag is that of the entry that
-- stood there before, and clear if none did.
abbrev pub IsDefinedAt : ℕ → Option SymbEntry → SymbEntry → Type 0
IsDefinedAt lp none e =
    (e.content ≡ value lp) × (get_defined e.flags ≡ 1) × (get_expression e.flags ≡ 0)
IsDefinedAt lp (some old) e =
    (e.content ≡ value lp)
    × (get_defined e.flags ≡ 1)
    × (get_expression e.flags ≡ get_expression old.flags)

or_else_none : (o : Option SymbEntry) → or_else o none ≡ o
or_else_none none = refl
or_else_none (some e) = refl

define_entry-IsDefinedAt :
    (lp section : ℕ) (e : SymbEntry)
    → section ≤ 5
    → IsDefinedAt lp (some e) (define_entry lp section e)
unfolding define_entry
define_entry-IsDefinedAt lp section e h =
    let kept = bit_and e.flags (2 ^ 32 - 1 - 48) in
    let put = bit_or kept (section * 2 ^ 4) in
    let low = digit-bit_or 0 put 1 in
    let high = digit-bit_or 7 put 1 in
    let high' = digit-bit_or 7 kept (section * 2 ^ 4) in
    let high'' = digit-bit_and 7 e.flags (2 ^ 32 - 1 - 48) in (refl, ground arith, ground arith)

new-IsDefinedAt :
    (label : Text) (lp section : ℕ)
    → section ≤ 5
    → IsDefinedAt lp none (init_symb_entry label none lp (create_flags 0 section 0 0 0 1))
unfolding init_symb_entry
new-IsDefinedAt label lp zero h = (refl, refl, refl)
new-IsDefinedAt label lp (suc zero) h = (refl, refl, refl)
new-IsDefinedAt label lp (suc (suc zero)) h = (refl, refl, refl)
new-IsDefinedAt label lp (suc (suc (suc zero))) h = (refl, refl, refl)
new-IsDefinedAt label lp (suc (suc (suc (suc zero)))) h = (refl, refl, refl)
new-IsDefinedAt label lp (suc (suc (suc (suc (suc zero))))) h = (refl, refl, refl)
new-IsDefinedAt label lp (suc (suc (suc (suc (suc (suc n)))))) h = absurd (omega arith)

-- The label is found as defined at `lp`, and every other name is looked up as before.
abbrev pub IsLabelled : ℕ → Text → SymbolTable → SymbolTable → Type 0
IsLabelled lp label before after =
    ((e : SymbEntry) × (get_symb_entry after label ≡ some e)
      × IsDefinedAt lp (get_symb_entry before label) e)
    × ((name : Text)
        → str_eq label name ≡ false
        → get_symb_entry after name ≡ get_symb_entry before name)

put_label-IsLabelled :
    (label : Text) (lp section : ℕ) (found : Option SymbEntry) (table : SymbolTable)
    → section ≤ 5
    → get_symb_entry table label ≡ found
    → IsLabelled lp label table (put_label label lp section found table)
unfolding put_label
put_label-IsLabelled label lp section (some e) table few is =
    let look = get_symb_entry-change_entry (define_entry lp section) table label in
    (
      (
        define_entry lp section e,
        look label (unfold define_entry in λ d. refl) ∙ rw (str_eq_refl label, is) refl,
        rw is (define_entry-IsDefinedAt lp section e few),
      ),
      λ name other. look name (unfold define_entry in λ d. refl) ∙ rw other refl,
    )
put_label-IsLabelled label lp section none table few is =
    let new = init_symb_entry label none lp (create_flags 0 section 0 0 0 1) in
    let look = get_symb_entry-add_symb_entry table new in
    (
      (
        new,
        look label ∙ unfold init_symb_entry in rw (is, str_eq_refl label) refl,
        rw is (new-IsDefinedAt label lp section few),
      ),
      λ name other. look name ∙ unfold init_symb_entry in rw other (or_else_none _),
    )

-- Where `handleLabel` goes on, the label is found as defined at the location pointer of the active
-- section; a symbol that stood in the table keeps its expression flag, and may have been defined
-- before. Every other name is looked up as before.
pub handle_label_lem :
    (table : SymbolTable) (sections : SectionTable) (label save : Text)
    (r : SymbolTable × Option Text × Text)
    → sections.active_section ≤ 5
    → handle_label table sections label save ≡ done r
    → IsLabelled (active_lp sections) label table r.0
unfolding handle_label
handle_label_lem table sections label save r few h =
    Ensures-done {P = λ r. IsLabelled (active_lp sections) label table r.0}
      (Ensures-bind (validate_label label) (λ ok. holds (
        put_label-IsLabelled label (active_lp sections) sections.active_section
          (get_symb_entry table label) table few refl)))
      h
