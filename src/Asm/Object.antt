-- ===== src/Asm/Object.antt =====
-- assembler/generator.c and headers/aoef.h: the object file that the assembler writes.
--
-- An array of bytes is a list; the last byte of the string table, which is never written, is a
-- parameter, as is the word of a pointer where a symbol's value is read and the union holds one. A
-- write behind an allocated section, or the use of an instruction behind the stream, is the
-- result crashed; that generateEVT fetches a pointer behind the stream and does not use it, where there
-- is no exception table, is left out.
pub mod Layout
pub mod Names
pub mod Sections
pub mod Tests
pub mod Write
use aru_xi.Base.{
  ℕ, zero, suc, ◌+◌, ◌*◌, ◌%◌, ◌/◌, ◌^◌, Bool, true, false, not, ◌&&◌, ◌==◌, ltb, if◌then◌else◌,
  Option, none, some, List, [], ◌∷◌, ◌++◌, u8, u16, u32, length, bit_or,
}
use aru_xi.Base.Text.{Text, codes, str_eq}
use aru_xi.Asm.Operands.{Result, done, fatal, crashed, ◌>>=◌, Instr}
use aru_xi.Asm.Symbols.{SymbValue, expr, value, SymbEntry, SymbolTable, get_section, get_symb_entry}
use aru_xi.Asm.Tables.{
  SectEntry, SectionTable, DataContent, no_data, str, zeros, values, DataEntry, DataTable,
}
use aru_xi.Asm.SecondPass.{get_locality}

pub record AoeffHeader : Type 0 where
  pub h_type : ℕ
  pub h_entry : ℕ
  pub h_sect_off : ℕ
  pub h_sect_size : ℕ
  pub h_symb_off : ℕ
  pub h_symb_size : ℕ
  pub h_str_tab_off : ℕ
  pub h_str_tab_size : ℕ

pub record AoeffSectHeader : Type 0 where
  pub sh_sect_name : Text
  pub sh_sect_off : ℕ
  pub sh_sect_size : ℕ

pub record AoeffSymbEntry : Type 0 where
  pub se_symb_name : ℕ
  pub se_symb_val : ℕ
  pub se_symb_info : ℕ
  pub se_symb_sect : ℕ

pub record AoefBin : Type 0 where
  pub header : AoeffHeader
  pub sect_hdr_table : List AoeffSectHeader
  pub symb_ent_table : List AoeffSymbEntry
  pub st_strs : Text
  pub data_bytes : List ℕ
  pub const_bytes : List ℕ
  pub text_words : List ℕ
  pub evt_bytes : List ℕ

-- `sizeof` of the header, of a section header and of a symbol, whose third field is padded.
abbrev pub header_bytes : ℕ
header_bytes = 36

abbrev pub sect_header_bytes : ℕ
sect_header_bytes = 16

abbrev pub symb_entry_bytes : ℕ
symb_entry_bytes = 16

-- The names of the section with the strings' null bytes.
unfoldable pub strings_of : SymbolTable → Text
strings_of [] = []
strings_of (e ∷ table) = e.name ++ (0 ∷ strings_of table)

unfoldable pub size_from : ℕ → SymbolTable → ℕ
size_from size [] = size
size_from size (e ∷ table) = size_from (u32 (size + (length e.name + 1))) table

abbrev pub behind_first : SymbolTable → SymbolTable
behind_first [] = []
behind_first (e ∷ table) = table

-- The first symbol, that of the location pointer, is skipped.
unfoldable pub get_symbol_strings_size : SymbolTable → ℕ
get_symbol_strings_size table = u32 (size_from 0 (behind_first table) + 16)

abbrev pub end_strs : Text
end_strs = codes "END_AOEFF_STRS" ++ (0 ∷ [])

abbrev pub get_type : ℕ → ℕ
get_type flags = flags / 2 ^ 3 % 2

abbrev pub blank_symbol : AoeffSymbEntry
blank_symbol = record { se_symb_name = 0; se_symb_val = 0; se_symb_info = 0; se_symb_sect = 0 }

module _ (pointer : Text → ℕ) where
  unfoldable pub symb_val : SymbValue → ℕ
  symb_val (expr s) = pointer s
  symb_val (value v) = u32 v

  -- The symbols from the one whose name stands at the place `stridx`.
  unfoldable pub symbols_from : ℕ → SymbolTable → List AoeffSymbEntry
  symbols_from stridx [] = blank_symbol ∷ []
  symbols_from stridx (e ∷ table) =
      record {
        se_symb_name = stridx;
        se_symb_val = symb_val e.content;
        se_symb_info = bit_or (get_type e.flags * 2 ^ 4) (get_locality e.flags);
        se_symb_sect = get_section e.flags;
      }
      ∷ symbols_from (u32 (stridx + (length e.name + 1))) table

  unfoldable pub generate_symbol_table : ℕ → SymbolTable → List AoeffSymbEntry × Text
  generate_symbol_table unset table = (
    symbols_from 0 (behind_first table),
    strings_of (behind_first table) ++ (end_strs ++ (unset ∷ [])),
  )

abbrev pub sect_name : ℕ → Text
sect_name i =
    if i == 0
    then codes ".data"
    else (if i == 1
        then codes ".const"
        else (if i == 2
            then codes ".bss"
            else (if i == 3
                then codes ".text"
                else (if i == 4 then codes ".evt" else codes ".ivt"))))

-- The headers of the sections from `i` on, with the number that is left, and the closing one.
unfoldable pub headers_from : ℕ → ℕ → ℕ → (ℕ → SectEntry) → List AoeffSectHeader
headers_from zero i offset entries =
    record { sh_sect_name = codes "._none"; sh_sect_off = 0; sh_sect_size = 0 } ∷ []
headers_from (suc left) i offset entries =
    let e = entries i in
    let later =
      headers_from left (suc i) (if e.present then u32 (offset + e.size) else offset) entries in
    if e.present
    then record { sh_sect_name = sect_name i; sh_sect_off = offset; sh_sect_size = e.size } ∷ later
    else later

unfoldable pub generate_section_headers : AoeffHeader → SectionTable → List AoeffSectHeader
generate_section_headers h t = headers_from 6 0 (u32 (h.h_str_tab_off + h.h_str_tab_size)) t.entries

unfoldable pub find_header : Text → List AoeffSectHeader → Option AoeffSectHeader
find_header name [] = none
find_header name (h ∷ hs) =
    let later = find_header name hs in if str_eq name h.sh_sect_name then some h else later

-- The bytes of a little-endian value.
abbrev pub le_bytes : ℕ → ℕ → List ℕ
le_bytes zero v = []
le_bytes (suc width) v = u8 v ∷ le_bytes width (v / 2 ^ 8)

unfoldable pub bytes_of : ℕ → List ℕ → List ℕ
bytes_of width [] = []
bytes_of width (v ∷ vs) = le_bytes width v ++ bytes_of width vs

unfoldable pub zero_bytes : ℕ → List ℕ
zero_bytes zero = []
zero_bytes (suc n) = 0 ∷ zero_bytes n

abbrev pub width_of : ℕ → ℕ
width_of type = if type == 1 then 1 else (if type == 2 then 2 else 4)

unfoldable pub content_bytes : DataContent → List ℕ
content_bytes no_data = []
content_bytes (str s) = s ++ (0 ∷ [])
content_bytes (zeros n) = zero_bytes n
content_bytes (values type vs) = bytes_of (width_of type) vs

-- Reading past the content, or through the null pointer, crashes.
unfoldable pub copy_bytes : ℕ → List ℕ → Result (List ℕ)
copy_bytes zero bytes = done []
copy_bytes (suc n) [] = crashed
copy_bytes (suc n) (b ∷ bytes) = copy_bytes n bytes >>= λ rest. done (b ∷ rest)

unfoldable pub entries_bytes : List DataEntry → Result (List ℕ)
entries_bytes [] = done []
entries_bytes (e ∷ es) = do
  bytes ← copy_bytes e.size (content_bytes e.content)
  rest ← entries_bytes es
  done (bytes ++ rest)

abbrev pub within : ℕ → List ℕ → Result (List ℕ)
within size bytes = if ltb size (length bytes) then crashed else done bytes

unfoldable pub fill_section : Option AoeffSectHeader → List DataEntry → Result (List ℕ)
fill_section none es = done []
fill_section (some h) es =
    if h.sh_sect_size == 0 then done [] else (entries_bytes es >>= within h.sh_sect_size)

-- `generateData` and `generateConst`
unfoldable pub generate_section : Text → List AoeffSectHeader → List DataEntry → Result (List ℕ)
generate_section name headers es = fill_section (find_header name headers) es

-- The marks of the exception table and what stands between them are skipped.
unfoldable pub generate_text : Bool → List Instr → List ℕ
generate_text evt_instr [] = []
generate_text evt_instr (i ∷ is) =
    let rest = generate_text (if i.addr == 0 then not evt_instr else evt_instr) is in
    if i.addr == 0 then rest else (if evt_instr then rest else u32 i.encoding ∷ rest)

-- The address that an instruction is compared by: that of an end mark is set to the highest when the
-- walk reaches it, but not where the walk starts.
abbrev pub evt_addr : Bool → Instr → ℕ
evt_addr first i = if not first && (i.addr == 0) then 0xFFFFFFFF else i.addr

-- The instructions before a data entry at `addr`, and those that are left.
unfoldable pub evt_before : ℕ → Bool → List Instr → Result (List ℕ × Bool × List Instr)
evt_before addr first [] = crashed
evt_before addr first (i ∷ is) =
    let later = evt_before addr false is in
    if ltb (evt_addr first i) addr
    then (later >>= λ r. done (le_bytes 4 i.encoding ++ r.0, r.1, r.2))
    else done ([], first, i ∷ is)

unfoldable pub evt_entries_bytes : Bool → List Instr → List DataEntry → Result (List ℕ)
evt_entries_bytes first is [] = done []
evt_entries_bytes first is (e ∷ es) = do
  (before, first', is') ← evt_before e.addr first is
  bytes ← copy_bytes e.size (content_bytes e.content)
  rest ← evt_entries_bytes first' is' es
  done (before ++ (bytes ++ rest))

unfoldable pub behind_marker : List Instr → List Instr
behind_marker [] = []
behind_marker (i ∷ is) = let later = behind_marker is in if i.addr == 0 then is else later

-- The instructions behind the last data entry are not written. Where the marker is missing or last,
-- the source fetches a pointer behind the stream: without a data entry it is not used, and nothing is
-- written; with one its use is crashed.
unfoldable pub generate_evt : ℕ → List Instr → List DataEntry → Result (List ℕ)
generate_evt size stream es = evt_entries_bytes true (behind_marker stream) es >>= within size

unfoldable pub count_present : ℕ → ℕ → (ℕ → SectEntry) → ℕ
count_present zero i entries = 0
count_present (suc left) i entries =
    let later = count_present left (suc i) entries in
    if (entries i).present then suc later else later

abbrev pub entry_point : Option SymbEntry → Result SymbEntry
entry_point none = crashed
entry_point (some e) = done e

module _ (pointer : Text → ℕ) where
  unfoldable pub generate_header : Bool → SymbEntry → SymbolTable → SectionTable → AoeffHeader
  generate_header kern init table sections =
      let sect_entries = count_present 6 0 sections.entries + 1 in
      let symb_off = u32 (header_bytes + sect_header_bytes * sect_entries) in
      record {
        h_type = if kern then 1 else 0;
        h_entry = symb_val pointer init.content;
        h_sect_off = header_bytes;
        h_sect_size = sect_entries;
        h_symb_off = symb_off;
        h_symb_size = length table;
        h_str_tab_off = u32 (symb_off + symb_entry_bytes * length table);
        h_str_tab_size = get_symbol_strings_size table;
      }

  -- `hEntry` is read through the pointer that `getSymbEntry` returns.
  unfoldable pub generate_binary :
      ℕ → Bool → List Instr → SymbolTable → DataTable → SectionTable → Result AoefBin
  generate_binary unset kern stream table data_table sections = do
    init ← entry_point (get_symb_entry table (codes "_init"))
    let header = generate_header kern init table sections
    let symbols = generate_symbol_table pointer unset table
    let headers = generate_section_headers header sections
    data_bytes ← generate_section (codes ".data") headers data_table.data_entries
    const_bytes ← generate_section (codes ".const") headers data_table.const_entries
    evt_bytes ← generate_evt (sections.entries 4).size stream data_table.evt_entries
    done (record {
      header = header;
      sect_hdr_table = headers;
      symb_ent_table = symbols.0;
      st_strs = symbols.1;
      data_bytes = data_bytes;
      const_bytes = const_bytes;
      text_words = generate_text false stream;
      evt_bytes = evt_bytes;
    })
