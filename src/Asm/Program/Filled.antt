-- ===== src/Asm/Program/Filled.antt =====
-- The data sections of the object file, from the directives of assembler/lexer-parser.c through the
-- second pass to assembler/generator.c.
use aru_xi.Base.{
  ℕ, zero, suc, ◌+◌, ◌^◌, ◌<◌, ◌==◌, ltb, Bool, false, Option, none, some, List, [], ◌∷◌, ◌≡◌, refl,
  sym, ◌∙◌, ap, arith, Bool-cases, inl, inr, u32, length, length-append,
}
use aru_xi.Base.Text.{Text, codes}
use aru_xi.Asm.Operands.{done, Instr}
use aru_xi.Asm.Symbols.{SymbolTable, get_symb_entry}
use aru_xi.Asm.Encoder.{Evaluator}
use aru_xi.Asm.Tables.{DataContent, no_data, str, zeros, values, DataEntry, DataTable, SectionTable}
use aru_xi.Asm.Tables.Placed.{Placed}
use aru_xi.Asm.Stream.{encode}
use aru_xi.Asm.Outcome.{
  Ensures, holds, broken, Ensures-done, Ensures-bind, Ensures-chain, Ensures-if,
}
use aru_xi.Asm.Directives.Layout.{IsLaidOut}
use aru_xi.Asm.FirstPass.{Pass, section_start}
use aru_xi.Asm.FirstPass.Layout.{lines_step-Ensures}
use aru_xi.Asm.SecondPass.{
  close_table, measure, check_program, resolve_symbols, values_from, complete_content,
  complete_entries, complete_data,
}
use aru_xi.Asm.SecondPass.Fixed.{fix_instrs}
use aru_xi.Asm.Object.{
  AoeffSectHeader, AoefBin, find_header, content_bytes, copy_bytes, entries_bytes, fill_section,
  generate_section, generate_section_headers, generate_header, entry_point, generate_evt,
  generate_binary,
}
use aru_xi.Asm.Object.Sections.{placed_at, find_header-generate_section_headers}
use aru_xi.Asm.Program.{measure_all, clean_lines, second_pass, assemble}

-- What the entries take.
unfoldable total : List DataEntry → ℕ
total [] = 0
total (e ∷ es) = e.size + total es

Placed-total :
    (start : ℕ) (es : List DataEntry) (lp : ℕ)
    → start < 2 ^ 32
    → Placed start es lp
    → lp ≡ u32 (start + total es)
unfolding total
Placed-total start [] lp small h = omega arith
Placed-total start (e ∷ es) lp small h =
    let rest = Placed-total (u32 (start + e.size)) es lp (omega arith) h.1 in omega arith

copy_bytes-length : (n : ℕ) (bytes : List ℕ) → Ensures (λ r. length r ≡ n) (copy_bytes n bytes)
unfolding copy_bytes
copy_bytes-length zero bytes = holds refl
copy_bytes-length (suc n) [] = broken
copy_bytes-length (suc n) (b ∷ bytes) =
    Ensures-chain (copy_bytes-length n bytes) (λ r h. holds (ap suc h))

entries_bytes-length : (es : List DataEntry) → Ensures (λ r. length r ≡ total es) (entries_bytes es)
unfolding entries_bytes total
entries_bytes-length [] = holds refl
entries_bytes-length (e ∷ es) =
    Ensures-chain (copy_bytes-length e.size (content_bytes e.content)) (λ bytes h.
      Ensures-chain (entries_bytes-length es)
        (λ rest k. holds (omega (arith, length-append bytes rest))))

module _ (ev : Evaluator SymbolTable) where
  complete_content-keeps :
      (e : DataEntry) (c : DataContent) (table : SymbolTable)
      → Ensures (λ r. (r.0).size ≡ e.size) (complete_content ev e c table)
  unfolding complete_content
  complete_content-keeps e no_data table =
      Ensures-bind (values_from ev (suc (length e.source)) e.type e.source table) (λ r. holds refl)
  complete_content-keeps e (str s) table = holds refl
  complete_content-keeps e (zeros n) table = holds refl
  complete_content-keeps e (values t vs) table = holds refl

  complete_entries-keeps :
      (es : List DataEntry) (table : SymbolTable)
      → Ensures (λ r. total r.0 ≡ total es) (complete_entries ev es table)
  unfolding complete_entries total
  complete_entries-keeps [] table = holds refl
  complete_entries-keeps (e ∷ es) table =
      Ensures-chain (complete_content-keeps e e.content table)
        (λ r h. Ensures-chain (complete_entries-keeps es r.1) (λ s k. holds (omega arith)))

  complete_data-keeps :
      (d : DataTable) (table : SymbolTable)
      → Ensures
          (λ r.
            (total (r.0).data_entries ≡ total d.data_entries)
            × (total (r.0).const_entries ≡ total d.const_entries))
          (complete_data ev d table)
  unfolding complete_data
  complete_data-keeps d table = Ensures-chain (complete_entries-keeps d.data_entries table) (λ r h.
      Ensures-chain (complete_entries-keeps d.const_entries r.1)
        (λ s k. Ensures-bind (complete_entries ev d.evt_entries s.1) (λ u. holds (h, k))))

-- The size in a header, 0 for a section that is not there.
abbrev pub announced : Option AoeffSectHeader → ℕ
announced none = 0
announced (some h) = h.sh_sect_size

fill_section-announced :
    (h : Option AoeffSectHeader) (es : List DataEntry)
    → announced h ≡ (elim h [ none ↦ 0 | some x ↦ u32 (total es) ])
    → Ensures (λ r. announced h ≡ u32 (length r)) (fill_section h es)
unfolding fill_section
fill_section-announced none es e = holds refl
fill_section-announced (some h) es e = elim (Bool-cases (h.sh_sect_size == 0)) [
  | inl empty ↦ rw empty (holds (ground arith))
  | inr full ↦ rw full (
      Ensures-chain (entries_bytes-length es) (λ r k.
        Ensures-if (ltb h.sh_sect_size (length r)) (λ x. broken) (λ x. holds (e ∙ ap u32 (sym k)))))
]

placed_at-announced :
    (t : SectionTable) (k offset : ℕ) (es : List DataEntry) (h : Option AoeffSectHeader)
    → (t.entries k).size ≡ u32 (total es)
    → h ≡ placed_at t.entries k offset
    → announced h ≡ (elim h [ none ↦ 0 | some x ↦ u32 (total es) ])
placed_at-announced t k offset es h size e = rw e (elim (Bool-cases (t.entries k).present) [
  | inl here ↦ rw here size
  | inr absent ↦ rw absent refl
])

measure_all-size :
    (kern : Bool) (t : SectionTable) (k : ℕ) (es : List DataEntry)
    → section_start kern k < 2 ^ 32
    → Placed (section_start kern k) es (t.entries k).lp
    → ((measure_all kern t).entries k).size ≡ u32 (total es)
unfolding measure_all measure
measure_all-size kern t k es small h =
    let pointer = Placed-total (section_start kern k) es (t.entries k).lp small h in omega arith

close_table-IsLaidOut :
    (start : ℕ → ℕ) (p : Pass)
    → IsLaidOut start p.assembly
    → IsLaidOut start (close_table p).assembly
unfolding close_table
close_table-IsLaidOut start p h = elim (Bool-cases (p.evt_defined == 0xF0)) [
  | inl unclosed ↦ rw unclosed (λ k slot. h k slot)
  | inr closed ↦ rw closed h
]

-- The header of each data section announces what the section holds.
abbrev pub IsFilled : AoefBin → Type 0
IsFilled b =
    (announced (find_header (codes ".data") b.sect_hdr_table) ≡ u32 (length b.data_bytes))
    × (announced (find_header (codes ".const") b.sect_hdr_table) ≡ u32 (length b.const_bytes))

module _ (pointer : Text → ℕ) (unset : ℕ) (kern : Bool) where
  generate_binary-IsFilled :
      (stream : List Instr) (table : SymbolTable) (d : DataTable) (t : SectionTable)
      → (t.entries 0).size ≡ u32 (total d.data_entries)
      → (t.entries 1).size ≡ u32 (total d.const_entries)
      → Ensures IsFilled (generate_binary pointer unset kern stream table d t)
  unfolding generate_binary generate_section
  generate_binary-IsFilled stream table d t data_size const_size =
      Ensures-bind (entry_point (get_symb_entry table (codes "_init"))) (λ init.
        let h = generate_header pointer kern init table t in
        let hs = generate_section_headers h t in
        Ensures-chain
          (fill_section-announced (find_header (codes ".data") hs) d.data_entries (
            placed_at-announced t 0 _ d.data_entries (find_header (codes ".data") hs) data_size
              (find_header-generate_section_headers h t 0 (omega arith))))
          (λ data_bytes filled.
            Ensures-chain
              (fill_section-announced (find_header (codes ".const") hs) d.const_entries (
                placed_at-announced t 1 _ d.const_entries (find_header (codes ".const") hs)
                  const_size (find_header-generate_section_headers h t 1 (omega arith))))
              (λ const_bytes filled'.
                Ensures-bind (generate_evt (t.entries 4).size stream d.evt_entries)
                  (λ evt_bytes. holds (filled, filled')))))

module _ (ev : Evaluator SymbolTable) (strtof : Text → Option ℕ) (pointer : Text → ℕ)
    (unset : ℕ) where
  second_pass-IsFilled :
      (p : Pass)
      → IsLaidOut (section_start false) p.assembly
      → Ensures IsFilled (second_pass ev strtof pointer unset false p)
  unfolding second_pass
  second_pass-IsFilled p laid =
      let q = close_table p in
      let a = q.assembly in
      let laid' = close_table-IsLaidOut (section_start false) p laid in
      let data_size =
        measure_all-size false a.sections 0 (a.data_table).data_entries
          (unfold section_start in omega arith) (laid' 0 refl) in
      let const_size =
        measure_all-size false a.sections 1 (a.data_table).const_entries
          (unfold section_start in omega arith) (laid' 1 refl) in
      Ensures-bind (check_program false q) (λ ok.
        Ensures-bind (resolve_symbols ev a.symbols) (λ table.
          Ensures-chain (complete_data-keeps ev a.data_table table) (λ d keeps.
            Ensures-bind (fix_instrs a.stream) (λ fixed.
              Ensures-bind (encode ev fixed d.1) (λ encoded.
                generate_binary-IsFilled pointer unset false encoded.0 encoded.1 d.0
                  (measure_all false a.sections) (data_size ∙ ap u32 (sym keeps.0))
                  (const_size ∙ ap u32 (sym keeps.1)))))))

  -- When the assembler gets from the lines of a user program to an object file, the header of the
  -- data section, and that of the const section, has as its size the number of bytes that the file
  -- holds for it, and a section without header has none.
  pub assemble-IsFilled :
      (lines : List Text) (b : AoefBin)
      → assemble ev strtof pointer unset false lines ≡ done b
      → IsFilled b
  unfolding assemble
  assemble-IsFilled lines b = Ensures-done {P = IsFilled} (
      Ensures-chain (lines_step-Ensures ev strtof (clean_lines lines))
        (λ p laid. second_pass-IsFilled p laid))
