-- ===== src/Asm/SecondPass.antt =====
-- What assembler/assembler.c does between the first pass and the encoding: the checks of `main`,
-- `resolveSymbols`, `completeData` and `fixInstrs`.
--
-- The memory that `_completeData` fills is the list of the values it holds.
pub mod Fixed
pub mod Forms
pub mod Resolved
pub mod Tests
pub mod Values
use aru_xi.Base.{
  ℕ, zero, suc, ◌+◌, ◌-◌, ◌*◌, ◌/◌, ◌%◌, ◌^◌, Bool, true, false, not, ◌&&◌, ◌||◌, ◌==◌, ltb,
  if◌then◌else◌, bit_and, Option, none, some, List, [], ◌∷◌, ◌++◌, u8, u16, u32, sub32, length,
  get_elem?, set,
}
use Prim.Native.String.{String}
use aru_xi.Base.Text.{Text, codes}
use aru_xi.Asm.Operands.{
  Result, done, fatal, crashed, ◌>>=◌, Operand, null, absent, text, Instr, operand,
}
use aru_xi.Asm.Symbols.{
  SymbValue, SymbEntry, SymbolTable, expr, value, get_defined, get_expression, get_section,
  get_symb_entry,
}
use aru_xi.Asm.Encoder.{Evaluator}
use aru_xi.Asm.Strtok.{strtok}
use aru_xi.Asm.Tables.{SectEntry, DataContent, no_data, str, zeros, values, DataEntry, DataTable}
use aru_xi.Asm.Names.{first_char, validate_register, is_valid_register}
use aru_xi.Asm.Stream.{set_operand}
use aru_xi.Asm.Directives.{Assembly, comma, unless, crash_if, evaluated}
use aru_xi.Asm.Instructions.Memory.{clear_hashes}
use aru_xi.Asm.FirstPass.{Pass, section_start, marker}

-- The mark that is missing when the source ends in the exception table.
unfoldable pub close_table : Pass → Pass
close_table p =
    if p.evt_defined == 0xF0
    then record { assembly = marker "__EvtEnd__" p.assembly; evt_defined = 0xFF }
    else p

-- The sizes of the sections; one without contents counts as absent.
unfoldable pub measure : ℕ → SectEntry → SectEntry
measure start e =
    let size = sub32 e.lp start in
    record e { size = size; present = if size == 0 then false else e.present }

unfoldable pub all_defined : SymbolTable → Bool
all_defined [] = true
all_defined (e ∷ table) = not (get_defined e.flags == 0) && all_defined table

abbrev pub get_locality : ℕ → ℕ
get_locality flags = flags / 2 ^ 2 % 2

-- The entry point is there, global and in the text section.
unfoldable pub check_entry : Option SymbEntry → Result (Unit {0})
check_entry none = fatal
check_entry (some e) =
    if get_locality e.flags == 0 || not (get_section e.flags == 3) then fatal else done tt

unfoldable pub check_program : Bool → Pass → Result (Unit {0})
check_program kern p = do
  let a = p.assembly
  let text_entry = measure (section_start kern 3) (a.sections.entries 3)
  _ ← unless (not text_entry.present) (done tt)
  _ ← unless (kern && (p.evt_defined == 0)) (done tt)
  _ ← check_entry (get_symb_entry a.symbols (codes "_init"))
  unless (not (all_defined a.symbols)) (done tt)

-- A change of the entry at a place of the table.
unfoldable pub change_at : (SymbEntry → SymbEntry) → SymbolTable → ℕ → SymbolTable
change_at f [] i = []
change_at f (e ∷ table) zero = f e ∷ table
change_at f (e ∷ table) (suc i) = e ∷ change_at f table i

-- `SET_EXPRESSION(flags)`, which clears the flag.
unfoldable pub resolve_entry : ℕ → SymbEntry → SymbEntry
resolve_entry v e = record e { content = value v; flags = bit_and e.flags (2 ^ 32 - 1 - 128) }

-- The masks of the size checks, and the casts.
unfoldable pub sized_value : ℕ → ℕ → Result ℕ
sized_value type v =
    if type == 1
    then (if bit_and v 0xFF00 == 0 then done (u8 v) else fatal)
    else (if type == 2
        then (if bit_and v 0xFF0000 == 0 then done (u16 v) else fatal)
        else done (u32 v))

module _ (ev : Evaluator SymbolTable) where
  unfoldable pub resolve_content : ℕ → SymbValue → SymbolTable → Result SymbolTable
  resolve_content i (value v) table = crashed
  resolve_content i (expr s) table = do
    r ← ev.eval s table
    (v, table') ← evaluated r
    done (change_at (resolve_entry v) table' i)

  unfoldable pub resolve_at : ℕ → Option SymbEntry → SymbolTable → Result SymbolTable
  resolve_at i none table = done table
  resolve_at i (some e) table =
      if get_expression e.flags == 1 then resolve_content i e.content table else done table

  -- The rounds from `i` on, with the number that is left; a symbol that an evaluation adds makes
  -- that evaluation fail.
  unfoldable pub resolve_from : ℕ → ℕ → SymbolTable → Result SymbolTable
  resolve_from zero i table = done table
  resolve_from (suc left) i table =
      resolve_at i (get_elem? table i) table >>= λ t. resolve_from left (suc i) t

  unfoldable pub resolve_symbols : SymbolTable → Result SymbolTable
  resolve_symbols table = resolve_from (length table) 0 table

  unfoldable pub values_more :
      (Text → SymbolTable → Result (List ℕ × SymbolTable))
      → ℕ
      → Option Text × Text
      → SymbolTable
      → Result (List ℕ × SymbolTable)
  values_more later type (none, rest) table = done ([], table)
  values_more later type (some t, rest) table = do
    r ← ev.eval t table
    (v, table1) ← evaluated r
    stored ← sized_value type v
    (vs, table2) ← later rest table1
    done (stored ∷ vs, table2)

  -- No text has more tokens than characters.
  unfoldable pub values_from : ℕ → ℕ → Text → SymbolTable → Result (List ℕ × SymbolTable)
  values_from zero type s table = crashed
  values_from (suc fuel) type s table =
      values_more (values_from fuel type) type (strtok comma s) table

  unfoldable pub complete_content :
      DataEntry → DataContent → SymbolTable → Result (DataEntry × SymbolTable)
  complete_content e no_data table = do
    (vs, table') ← values_from (suc (length e.source)) e.type e.source table
    done (record e { content = values e.type vs }, table')
  complete_content e (str s) table = done (e, table)
  complete_content e (zeros n) table = done (e, table)
  complete_content e (values t vs) table = done (e, table)

  unfoldable pub complete_entries :
      List DataEntry → SymbolTable → Result (List DataEntry × SymbolTable)
  complete_entries [] table = done ([], table)
  complete_entries (e ∷ es) table = do
    (e', table1) ← complete_content e e.content table
    (es', table2) ← complete_entries es table1
    done (e' ∷ es', table2)

  -- The entries of bss have nothing to be completed.
  unfoldable pub complete_data : DataTable → SymbolTable → Result (DataTable × SymbolTable)
  complete_data d table = do
    (data', table1) ← complete_entries d.data_entries table
    (const', table2) ← complete_entries d.const_entries table1
    (evt', table3) ← complete_entries d.evt_entries table2
    done (record d { data_entries = data'; const_entries = const'; evt_entries = evt' }, table3)
