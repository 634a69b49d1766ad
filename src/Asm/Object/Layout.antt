-- ===== src/Asm/Object/Layout.antt =====
-- The places that the header of an object file of assembler/generator.c gives.
use aru_xi.Base.{
  ℕ, zero, suc, ◌+◌, ◌*◌, ◌^◌, ◌<◌, Bool, false, List, [], ◌∷◌, ◌++◌, ◌≡◌, refl, ap, arith,
  Bool-cases, inl, inr, u32, length, length-append,
}
use aru_xi.Base.Text.{Text, codes}
use aru_xi.Asm.Operands.{done, Instr}
use aru_xi.Asm.Symbols.{SymbEntry, SymbolTable, get_symb_entry}
use aru_xi.Asm.Tables.{SectEntry, SectionTable, DataTable}
use aru_xi.Asm.Outcome.{Ensures, holds, broken, Ensures-done, Ensures-bind}
use aru_xi.Asm.Object.{
  AoeffSectHeader, AoeffSymbEntry, AoefBin, strings_of, size_from, get_symbol_strings_size,
  symbols_from, generate_symbol_table, headers_from, generate_section_headers, generate_section,
  bytes_of, count_present, generate_header, entry_point, generate_binary, generate_text,
  generate_evt, end_strs,
}
use aru_xi.Asm.Object.Write.{str_n_cpy, header_image, sections_image, symbols_image, tables_image}

size_from-length :
    (size : ℕ) (table : SymbolTable)
    → size < 2 ^ 32
    → size_from size table ≡ u32 (size + length (strings_of table))
unfolding size_from strings_of
size_from-length size [] h = omega arith
size_from-length size (e ∷ table) h =
    let step = size_from-length (u32 (size + (length e.name + 1))) table (omega arith) in
    let parts = length-append e.name (0 ∷ strings_of table) in omega arith

length-headers_from :
    (left i offset : ℕ) (entries : ℕ → SectEntry)
    → length (headers_from left i offset entries) ≡ suc (count_present left i entries)
unfolding headers_from count_present
length-headers_from zero i offset entries = refl
length-headers_from (suc left) i offset entries = elim (Bool-cases (entries i).present) [
  | inl here ↦
      rw here (ap suc (length-headers_from left (suc i) (u32 (offset + (entries i).size)) entries))
  | inr absent ↦ rw absent (length-headers_from left (suc i) offset entries)
]

length-symbols_from :
    (pointer : Text → ℕ) (stridx : ℕ) (table : SymbolTable)
    → length (symbols_from pointer stridx table) ≡ suc (length table)
unfolding symbols_from
length-symbols_from pointer stridx [] = refl
length-symbols_from pointer stridx (e ∷ table) =
    ap suc (length-symbols_from pointer (u32 (stridx + (length e.name + 1))) table)

length-str_n_cpy : (n : ℕ) (s : Text) → length (str_n_cpy n s) ≡ n
unfolding str_n_cpy
length-str_n_cpy zero s = refl
length-str_n_cpy (suc n) [] = ap suc (length-str_n_cpy n [])
length-str_n_cpy (suc n) (c ∷ s) = ap suc (length-str_n_cpy n s)

length-sections_image : (hs : List AoeffSectHeader) → length (sections_image hs) ≡ 16 * length hs
unfolding sections_image bytes_of
length-sections_image [] = refl
length-sections_image (h ∷ hs) =
    let rest = length-sections_image hs in
    let name = length-str_n_cpy 8 h.sh_sect_name in
    let parts =
      length-append (str_n_cpy 8 h.sh_sect_name)
        (bytes_of 4 (h.sh_sect_off ∷ h.sh_sect_size ∷ []) ++ sections_image hs) in
    omega arith

length-symbols_image :
    (unset : ℕ) (ss : List AoeffSymbEntry) → length (symbols_image unset ss) ≡ 16 * length ss
unfolding symbols_image bytes_of
length-symbols_image unset [] = refl
length-symbols_image unset (s ∷ ss) = omega (arith, length-symbols_image unset ss)

-- The tables stand where the header says, and the string table ends where it says.
abbrev pub IsFramed : ℕ → AoefBin → Type 0
IsFramed unset b =
    (length (header_image b.header) ≡ (b.header).h_sect_off)
    × (length (header_image b.header ++ sections_image b.sect_hdr_table) ≡ (b.header).h_symb_off)
    × (length (
          header_image b.header
          ++ (sections_image b.sect_hdr_table ++ symbols_image unset b.symb_ent_table))
        ≡ (b.header).h_str_tab_off)
    × (length (tables_image unset b) ≡ (b.header).h_str_tab_off + (b.header).h_str_tab_size)
    × (length b.sect_hdr_table ≡ (b.header).h_sect_size)
    × (length b.symb_ent_table ≡ (b.header).h_symb_size)

module _ (unset : ℕ) (pointer : Text → ℕ) (kern : Bool) where
  -- The result of `generateBinary` over its parts.
  abbrev packed :
      SymbEntry → SymbolTable → SectionTable → List ℕ → List ℕ → List ℕ → List ℕ → AoefBin
  packed init table sections data_bytes const_bytes text_words evt_bytes =
      let h = generate_header pointer kern init table sections in
      record {
        header = h;
        sect_hdr_table = generate_section_headers h sections;
        symb_ent_table = (generate_symbol_table pointer unset table).0;
        st_strs = (generate_symbol_table pointer unset table).1;
        data_bytes = data_bytes;
        const_bytes = const_bytes;
        text_words = text_words;
        evt_bytes = evt_bytes;
      }

  packed-IsFramed :
      (init lp : SymbEntry) (rest : SymbolTable) (sections : SectionTable)
      (data_bytes const_bytes text_words evt_bytes : List ℕ)
      → length (
          tables_image unset
            (packed init (lp ∷ rest) sections data_bytes const_bytes text_words evt_bytes))
        < 2 ^ 32
      → IsFramed unset
          (packed init (lp ∷ rest) sections data_bytes const_bytes text_words evt_bytes)
  unfolding generate_header generate_section_headers generate_symbol_table get_symbol_strings_size
      tables_image header_image bytes_of
  packed-IsFramed init lp rest sections data_bytes const_bytes text_words evt_bytes fit =
      let h = generate_header pointer kern init (lp ∷ rest) sections in
      let hs = generate_section_headers h sections in
      let ss = symbols_from pointer 0 rest in
      let strs = strings_of rest ++ (end_strs ++ (unset ∷ [])) in
      let a = length-headers_from 6 0 (u32 (h.h_str_tab_off + h.h_str_tab_size)) sections.entries in
      let b = length-symbols_from pointer 0 rest in
      let c = length-sections_image hs in
      let d = length-symbols_image unset ss in
      let e = length-append (strings_of rest) (end_strs ++ (unset ∷ [])) in
      let f = size_from-length 0 rest (omega arith) in
      let g = length-append (sections_image hs) (symbols_image unset ss ++ strs) in
      let g' = length-append (sections_image hs) (symbols_image unset ss) in
      let k = length-append (symbols_image unset ss) strs in
      (refl, omega arith, omega arith, omega arith, omega arith, omega arith)

  generate_binary-Ensures :
      (stream : List Instr) (table : SymbolTable) (data_table : DataTable) (sections : SectionTable)
      → Ensures
          (λ b. length (tables_image unset b) < 2 ^ 32 → IsFramed unset b)
          (generate_binary pointer unset kern stream table data_table sections)
  unfolding generate_binary get_symb_entry
  generate_binary-Ensures stream [] data_table sections = broken
  generate_binary-Ensures stream (lp ∷ rest) data_table sections =
      Ensures-bind (entry_point (get_symb_entry (lp ∷ rest) (codes "_init"))) (λ init.
        let h = generate_header pointer kern init (lp ∷ rest) sections in
        let hs = generate_section_headers h sections in
        Ensures-bind (generate_section (codes ".data") hs data_table.data_entries) (λ data_bytes.
          Ensures-bind (generate_section (codes ".const") hs data_table.const_entries)
            (λ const_bytes.
              Ensures-bind (generate_evt (sections.entries 4).size stream data_table.evt_entries)
                (λ evt_bytes. holds (
                  packed-IsFramed init lp rest sections data_bytes const_bytes
                    (generate_text false stream) evt_bytes)))))

  -- In a file whose tables end below 4 GB, the section headers, the symbols and the strings stand
  -- where its header says, as many as it says, and the string table ends where it says.
  pub generate_binary-IsFramed :
      (stream : List Instr) (table : SymbolTable) (data_table : DataTable) (sections : SectionTable)
      (b : AoefBin)
      → generate_binary pointer unset kern stream table data_table sections ≡ done b
      → length (tables_image unset b) < 2 ^ 32
      → IsFramed unset b
  generate_binary-IsFramed stream table data_table sections b e =
      Ensures-done {P = λ b. length (tables_image unset b) < 2 ^ 32 → IsFramed unset b}
        (generate_binary-Ensures stream table data_table sections) e
