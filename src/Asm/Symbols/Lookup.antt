-- ===== src/Asm/Symbols/Lookup.antt =====
-- What `getSymbEntry` of assembler/SymbolTable.c finds after an entry is added or changed.
use aru_xi.Base.{
  Bool, true, false, if◌then◌else◌, ◌≡◌, ◌≢◌, refl, sym, ◌∙◌, ap, arith, Option, none, some, [],
  ◌∷◌, ◌++◌, Bool-cases, inl, inr,
}
use mathlib.Core.Option
use aru_xi.Base.Text.{Text, str_eq, str_eq→eq, str_eq_refl}
use aru_xi.Asm.Symbols.{SymbEntry, SymbolTable, add_symb_entry, get_symb_entry, change_entry}

-- What is found in the rest where nothing is found before.
abbrev pub or_else : Option SymbEntry → Option SymbEntry → Option SymbEntry
or_else none later = later
or_else (some e) later = some e

true-ne_false : true ≢ false
true-ne_false e = ground arith

get_symb_entry-append :
    (table more : SymbolTable) (name : Text)
    → get_symb_entry (table ++ more) name
      ≡ or_else (get_symb_entry table name) (get_symb_entry more name)
unfolding get_symb_entry
get_symb_entry-append [] more name = refl
get_symb_entry-append (e ∷ table) more name = elim (Bool-cases (str_eq e.name name)) [
  | inl hit ↦ rw hit
  | inr miss ↦ rw miss (get_symb_entry-append table more name)
]

-- An entry that is added is found by its name when no entry of that name stood in the table, and is
-- hidden by the older one when one did; every other name is looked up as before.
pub get_symb_entry-add_symb_entry :
    (table : SymbolTable) (entry : SymbEntry) (name : Text)
    → get_symb_entry (add_symb_entry table entry) name
      ≡ or_else (get_symb_entry table name) (if str_eq entry.name name then some entry else none)
unfolding add_symb_entry
get_symb_entry-add_symb_entry table entry name =
    get_symb_entry-append table (entry ∷ []) name ∙ unfold get_symb_entry in refl

different :
    (x changed name : Text)
    → str_eq x changed ≡ false
    → str_eq x name ≡ true
    → str_eq changed name ≡ false
different x changed name miss hit = elim (Bool-cases (str_eq changed name)) [
  | inr apart ↦ apart
  | inl both ↦
      let same : x ≡ changed = str_eq→eq x name hit ∙ sym (str_eq→eq changed name both) in
      absurd (true-ne_false (sym (str_eq_refl x) ∙ ap (λ (t : Text). str_eq x t) same ∙ miss))
]

tested :
    (name : Text) {x changed : Text} {b : Bool}
    → x ≡ changed
    → str_eq changed name ≡ b
    → str_eq x name ≡ b
tested name same e = ap (λ (t : Text). str_eq t name) same ∙ e

-- An update of the entry of a name is what is found under that name afterwards, and every other
-- name is looked up as before, provided that the change keeps the names of entries.
pub get_symb_entry-change_entry :
    (f : SymbEntry → SymbEntry) (table : SymbolTable) (changed name : Text)
    → ((e : SymbEntry) → (f e).name ≡ e.name)
    → get_symb_entry (change_entry f table changed) name ≡ (
        if str_eq changed name
        then Option.map f (get_symb_entry table name)
        else get_symb_entry table name)
unfolding get_symb_entry change_entry
get_symb_entry-change_entry f [] changed name keeps = elim (Bool-cases (str_eq changed name)) [
  | inl y ↦ rw y refl
  | inr n ↦ rw n refl
]
get_symb_entry-change_entry f (e ∷ table) changed name keeps =
    elim (Bool-cases (str_eq e.name changed)) [
      | inl here ↦
          let same : (f e).name ≡ changed = keeps e ∙ str_eq→eq e.name changed here in
          let was : e.name ≡ changed = str_eq→eq e.name changed here in
          elim (Bool-cases (str_eq changed name)) [
            | inl y ↦ rw (here, tested name same y, tested name was y, y) refl
            | inr n ↦ rw (here, tested name same n, tested name was n, n) refl
          ]
      | inr there ↦ elim (Bool-cases (str_eq e.name name)) [
        | inl hit ↦ rw (there, hit, different e.name changed name there hit) refl
        | inr miss ↦ rw (there, miss) (get_symb_entry-change_entry f table changed name keeps)
      ]
    ]
