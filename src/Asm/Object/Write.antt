-- ===== src/Asm/Object/Write.antt =====
-- `writeBinary` of assembler/generator.c: the file is the list of its bytes.
use aru_xi.Base.{ℕ, zero, suc, ◌==◌, if◌then◌else◌, Option, none, some, List, [], ◌∷◌, ◌++◌, u8}
use aru_xi.Base.Text.{Text, codes}
use aru_xi.Asm.Operands.{Result, done, ◌>>=◌}
use aru_xi.Asm.Object.{
  AoeffHeader, AoeffSectHeader, AoeffSymbEntry, AoefBin, find_header, bytes_of, copy_bytes,
}

-- `strncpy(dest, s, n)`
unfoldable pub str_n_cpy : ℕ → Text → Text
str_n_cpy zero s = []
str_n_cpy (suc n) [] = 0 ∷ str_n_cpy n []
str_n_cpy (suc n) (c ∷ s) = c ∷ str_n_cpy n s

unfoldable pub header_image : AoeffHeader → List ℕ
header_image h =
    0xAE
    ∷ b'A'
    ∷ b'E'
    ∷ b'F'
    ∷ bytes_of 4 (
        h.h_type ∷ h.h_entry ∷ h.h_sect_off ∷ h.h_sect_size ∷ h.h_symb_off ∷ h.h_symb_size
        ∷ h.h_str_tab_off ∷ h.h_str_tab_size ∷ [])

unfoldable pub sections_image : List AoeffSectHeader → List ℕ
sections_image [] = []
sections_image (h ∷ hs) =
    str_n_cpy 8 h.sh_sect_name
    ++ (bytes_of 4 (h.sh_sect_off ∷ h.sh_sect_size ∷ []) ++ sections_image hs)

-- The three bytes behind the third field are not written by the program.
unfoldable pub symbols_image : ℕ → List AoeffSymbEntry → List ℕ
symbols_image unset [] = []
symbols_image unset (s ∷ ss) =
    bytes_of 4 (s.se_symb_name ∷ s.se_symb_val ∷ [])
    ++ ((u8 s.se_symb_info ∷ unset ∷ unset ∷ unset ∷ [])
        ++ (bytes_of 4 (s.se_symb_sect ∷ []) ++ symbols_image unset ss))

-- What stands before the sections.
unfoldable pub tables_image : ℕ → AoefBin → List ℕ
tables_image unset b =
    header_image b.header
    ++ (sections_image b.sect_hdr_table ++ (symbols_image unset b.symb_ent_table ++ b.st_strs))

-- `fwrite` of as many bytes as the header says.
unfoldable pub section_image : Option AoeffSectHeader → List ℕ → Result (List ℕ)
section_image none bytes = done []
section_image (some h) bytes =
    if h.sh_sect_size == 0 then done [] else copy_bytes h.sh_sect_size bytes

unfoldable pub write_binary : ℕ → AoefBin → Result (List ℕ)
write_binary unset b = do
  data_image ← section_image (find_header (codes ".data") b.sect_hdr_table) b.data_bytes
  const_image ← section_image (find_header (codes ".const") b.sect_hdr_table) b.const_bytes
  text_image ←
      section_image (find_header (codes ".text") b.sect_hdr_table) (bytes_of 4 b.text_words)
  evt_image ← section_image (find_header (codes ".evt") b.sect_hdr_table) b.evt_bytes
  done (tables_image unset b ++ (data_image ++ (const_image ++ (text_image ++ evt_image))))
