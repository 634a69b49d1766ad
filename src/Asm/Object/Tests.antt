-- ===== src/Asm/Object/Tests.antt =====
-- A small object file of assembler/generator.c.
use aru_xi.Base.{ℕ, true, false, ◌≡◌, ◌+◌, refl, arith, List, [], ◌∷◌, ◌==◌, if◌then◌else◌, u32}
use aru_xi.Base.Text.{Text, codes, str_eq}
use aru_xi.Asm.Operands.{Result, done, fatal, crashed, null, Instr}
use aru_xi.Asm.Symbols.{SymbolTable, value, get_symb_entry}
use aru_xi.Asm.Tables.{SectionTable, values, DataTable}
use aru_xi.Asm.Object.{
  AoeffHeader, AoefBin, behind_first, strings_of, size_from, get_symbol_strings_size, symb_val,
  symbols_from, generate_symbol_table, headers_from, generate_section_headers, find_header,
  bytes_of, content_bytes, copy_bytes, entries_bytes, fill_section, generate_section, generate_text,
  evt_before, evt_entries_bytes, behind_marker, generate_evt, count_present, generate_header,
  generate_binary, sect_name,
}
use aru_xi.Asm.Object.Write.{str_n_cpy, header_image, sections_image, symbols_image, tables_image}
use aru_xi.Asm.Object.Names.{AreNamed, generate_symbol_table-AreNamed}
use aru_xi.Asm.Object.Layout.{IsFramed, generate_binary-IsFramed}
use aru_xi.Asm.Object.Sections.{placed_at, extents, find_header-generate_section_headers}

abbrev no_pointer : Text → ℕ
no_pointer s = 0

-- The location pointer, the entry point and a number.
abbrev table : SymbolTable
table =
    record { name = codes "@"; content = value 0; flags = 0x33 }
    ∷ record { name = codes "_init"; content = value 0x20190000; flags = 0x37 }
    ∷ record { name = codes "n"; content = value 7; flags = 0x09 }
    ∷ []

-- Three bytes of data, eight bytes in bss and one instruction.
abbrev sections : SectionTable
sections = record {
  entries = λ k.
      if k == 0
      then record { lp = 0x20090003; size = 3; present = true }
      else (if k == 2
          then record { lp = 0x20040008; size = 8; present = true }
          else (if k == 3
              then record { lp = 0x20190004; size = 4; present = true }
              else record { lp = 0; size = 0; present = false }));
  active_section = 3;
}

abbrev data_table : DataTable
data_table = record {
  data_entries =
      record {
        type = 1;
        addr = 0x20090000;
        size = 3;
        source = codes "1,2,n";
        content = values 1 (1 ∷ 2 ∷ 7 ∷ []);
      }
      ∷ [];
  const_entries = [];
  bss_entries = [];
  evt_entries = [];
}

abbrev stream : List Instr
stream =
    record { addr = 0x20190000; encoding = 0x80000000; instr = codes "nop"; operands = null ∷ [] }
    ∷ []

generate_symbol_table-AreNamed_example :
    AreNamed
      (generate_symbol_table no_pointer 0 table).1
      (generate_symbol_table no_pointer 0 table).0
      (behind_first table)
generate_symbol_table-AreNamed_example =
    generate_symbol_table-AreNamed no_pointer 0 table
      ((refl, (refl, (refl, (refl, (refl, tt))))), ((refl, tt), tt))
      (unfold strings_of in omega arith)

abbrev bin_of : Result AoefBin → AoefBin → AoefBin
bin_of (done b) other = b
bin_of fatal other = other
bin_of crashed other = other

abbrev nothing : AoefBin
nothing = record {
  header =
      generate_header no_pointer false (record { name = []; content = value 0; flags = 0 }) []
        sections;
  sect_hdr_table = [];
  symb_ent_table = [];
  st_strs = [];
  data_bytes = [];
  const_bytes = [];
  text_words = [];
  evt_bytes = [];
}

abbrev bin : AoefBin
bin = bin_of (generate_binary no_pointer 0 false stream table data_table sections) nothing

generate_binary-IsFramed_example : IsFramed 0 bin
unfolding evt_before evt_entries_bytes behind_marker generate_evt generate_binary generate_header
    generate_section generate_section_headers generate_symbol_table fill_section find_header
    headers_from entries_bytes copy_bytes content_bytes bytes_of symbols_from strings_of size_from
    get_symbol_strings_size symb_val count_present generate_text get_symb_entry str_eq tables_image
    header_image sections_image symbols_image str_n_cpy
generate_binary-IsFramed_example =
    generate_binary-IsFramed 0 no_pointer false stream table data_table sections bin refl
      (omega arith)

abbrev header : AoeffHeader
header = bin.header

find_header-generate_section_headers_example :
    find_header (sect_name 3) (generate_section_headers header sections)
    ≡ placed_at sections.entries 3
        (u32 (header.h_str_tab_off + header.h_str_tab_size + extents 3 0 sections.entries))
find_header-generate_section_headers_example =
    find_header-generate_section_headers header sections 3 (omega arith)
