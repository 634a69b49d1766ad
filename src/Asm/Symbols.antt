-- ===== src/Asm/Symbols.antt =====
-- assembler/SymbolTable.c and headers/assembler/SymbolTable.h.
--
-- The table is the list of its entries; the array behind it grows without bound, and a failed
-- allocation, which ends the process, is left out. A pointer to an entry is the entry's place.
pub mod Lookup
use aru_xi.Base.{
  ℕ, zero, suc, ◌+◌, ◌-◌, ◌*◌, ◌/◌, ◌%◌, ◌^◌, Bool, true, false, ◌&&◌, ◌==◌, if◌then◌else◌, Option,
  none, some, List, [], ◌∷◌, ◌++◌, bit_or,
}
use aru_xi.Base.Text.{Text, str_eq}

-- The union of `expr` and `value`.
pub data SymbValue : Type 0 where
  expr : Text → SymbValue
  value : ℕ → SymbValue

pub record SymbEntry : Type 0 where
  pub name : Text
  pub content : SymbValue
  pub flags : ℕ

abbrev pub SymbolTable : Type 0
SymbolTable = List SymbEntry

abbrev pub get_expression : ℕ → ℕ
get_expression flags = flags / 2 ^ 7 % 2

abbrev pub get_section : ℕ → ℕ
get_section flags = flags / 2 ^ 4 % 2 ^ 3

abbrev pub get_reference : ℕ → ℕ
get_reference flags = flags / 2 % 2

abbrev pub get_defined : ℕ → ℕ
get_defined flags = flags % 2

abbrev pub set_reference : ℕ → ℕ
set_reference flags = bit_or flags 2

unfoldable pub init_symb_table : SymbolTable
init_symb_table = []

-- `initSymbEntry`, whose `expr` may be the null pointer.
unfoldable pub init_symb_entry : Text → Option Text → ℕ → ℕ → SymbEntry
init_symb_entry name none v flags = record { name = name; content = value v; flags = flags }
init_symb_entry name (some e) v flags = record {
  name = name;
  content = if get_expression flags == 1 then expr e else value v;
  flags = flags;
}

unfoldable pub add_symb_entry : SymbolTable → SymbEntry → SymbolTable
add_symb_entry table entry = table ++ (entry ∷ [])

unfoldable pub update_symb_entry : SymbEntry → ℕ → ℕ → SymbEntry
update_symb_entry entry v flags = record entry { content = value v; flags = flags }

unfoldable pub get_symb_entry : SymbolTable → Text → Option SymbEntry
get_symb_entry [] name = none
get_symb_entry (e ∷ rest) name =
    let later = get_symb_entry rest name in if str_eq e.name name then some e else later

-- What a function does that changes the entry that `getSymbEntry` has returned.
unfoldable pub change_entry : (SymbEntry → SymbEntry) → SymbolTable → Text → SymbolTable
change_entry f [] name = []
change_entry f (e ∷ rest) name =
    let later = change_entry f rest name in if str_eq e.name name then f e ∷ rest else e ∷ later
