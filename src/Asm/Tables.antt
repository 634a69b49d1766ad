-- ===== src/Asm/Tables.antt =====
-- assembler/SectionTable.c, assembler/DataTable.c and assembler/InstructionStream.c.
--
-- The arrays, which grow without bound, are lists; a failed allocation ends the process and is left
-- out. The sections are numbered as in headers/assembler/SectionTable.h.

pub mod Placed
use aru_xi.Base.{
  ℕ, ◌+◌, ◌^◌, ◌%◌, Bool, true, false, ◌==◌, if◌then◌else◌, Option, none, some, List, [], ◌∷◌, ◌++◌,
  u32,
}
use aru_xi.Base.Text.{Text}
use aru_xi.Asm.Operands.{Instr, Operand, null, absent, text}

pub record SectEntry : Type 0 where
  pub lp : ℕ
  pub size : ℕ
  pub present : Bool

pub record SectionTable : Type 0 where
  pub entries : ℕ → SectEntry
  pub active_section : ℕ

unfoldable pub init_section_table : SectionTable
init_section_table = record {
  entries = λ k. record { lp = 0; size = 0; present = false };
  active_section = 0;
}

abbrev pub update : (ℕ → SectEntry) → ℕ → SectEntry → ℕ → SectEntry
update entries k e j = if j == k then e else entries j

-- `entries[k].lp = lp`, `entries[k].present = true`
unfoldable pub set_lp : SectionTable → ℕ → ℕ → SectionTable
set_lp t k lp = record t { entries = update t.entries k (record (t.entries k) { lp = lp }) }

unfoldable pub activate : SectionTable → ℕ → SectionTable
activate t k = record t {
  entries = update t.entries k (record (t.entries k) { present = true });
  active_section = k;
}

abbrev pub active_lp : SectionTable → ℕ
active_lp t = (t.entries t.active_section).lp

-- The union `data`, whose bytes are left to the second pass where it is null.
pub data DataContent : Type 0 where
  no_data : DataContent
  str : Text → DataContent
  zeros : ℕ → DataContent
  values : ℕ → List ℕ → DataContent

pub record DataEntry : Type 0 where
  pub type : ℕ
  pub addr : ℕ
  pub size : ℕ
  pub source : Text
  pub content : DataContent

pub record DataTable : Type 0 where
  pub data_entries : List DataEntry
  pub const_entries : List DataEntry
  pub bss_entries : List DataEntry
  pub evt_entries : List DataEntry

unfoldable pub init_data_table : DataTable
init_data_table = record {
  data_entries = [];
  const_entries = [];
  bss_entries = [];
  evt_entries = [];
}

-- `initDataEntry`, whose parameters `addr` and `size` are 32 bits wide.
unfoldable pub init_data_entry : ℕ → ℕ → ℕ → Text → DataContent → DataEntry
init_data_entry type addr size source content = record {
  type = type;
  addr = addr;
  size = u32 size;
  source = source;
  content = content;
}

-- `addDataEntry`; an entry for the text section or the interrupt table is dropped.
unfoldable pub add_data_entry : DataTable → DataEntry → ℕ → DataTable
add_data_entry t e section =
    if section == 0
    then record t { data_entries = t.data_entries ++ (e ∷ []) }
    else (if section == 1
        then record t { const_entries = t.const_entries ++ (e ∷ []) }
        else (if section == 2
            then record t { bss_entries = t.bss_entries ++ (e ∷ []) }
            else (if section == 4
                then record t { evt_entries = t.evt_entries ++ (e ∷ []) }
                else t)))

abbrev pub entries_of : DataTable → ℕ → List DataEntry
entries_of t section =
    if section == 0
    then t.data_entries
    else (if section == 1
        then t.const_entries
        else (if section == 2 then t.bss_entries else (if section == 4 then t.evt_entries else [])))

unfoldable pub find_data_entry : List DataEntry → ℕ → Option DataEntry
find_data_entry [] addr = none
find_data_entry (e ∷ es) addr =
    let later = find_data_entry es addr in if e.addr == addr then some e else later

unfoldable pub get_data_entry : DataTable → ℕ → ℕ → Option DataEntry
get_data_entry t section addr = find_data_entry (entries_of t section) addr

unfoldable pub copy_operands : List Operand → List Operand
copy_operands [] = null ∷ []
copy_operands (null ∷ os) = null ∷ []
copy_operands (absent ∷ os) = absent ∷ copy_operands os
copy_operands (text s ∷ os) = text s ∷ copy_operands os

-- `initInstrObj`, whose operands end with the first null pointer, with the type that its caller then
-- leaves in `encoding`.
unfoldable pub init_instr_obj : ℕ → Text → List Operand → ℕ → Instr
init_instr_obj addr instr operands encoding = record {
  addr = u32 addr;
  encoding = encoding;
  instr = instr;
  operands = copy_operands operands;
}

unfoldable pub add_instr_obj : List Instr → Instr → List Instr
add_instr_obj stream i = stream ++ (i ∷ [])

unfoldable pub get_instr : List Instr → ℕ → Option Instr
get_instr [] addr = none
get_instr (i ∷ rest) addr =
    let later = get_instr rest addr in if i.addr == addr then some i else later
