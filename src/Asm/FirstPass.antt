-- ===== src/Asm/FirstPass.antt =====
-- The first pass of assembler/assembler.c: the loop of `main` over the lines of the source, whose
-- comments and outer blanks `preprocess` has removed.
pub mod Layout
pub mod Tests
use aru_xi.Base.{
  ℕ, zero, suc, ◌+◌, ◌-◌, ◌*◌, ◌%◌, ◌^◌, Bool, true, false, not, ◌&&◌, ◌||◌, ◌==◌, ltb,
  if◌then◌else◌, Option, none, some, List, [], ◌∷◌, u32,
}
use Prim.Native.String.{String}
use aru_xi.Base.Text.{Text, codes}
use aru_xi.Asm.Operands.{Result, done, fatal, crashed, ◌>>=◌, null}
use aru_xi.Asm.Symbols.{
  SymbEntry, SymbolTable, value, init_symb_entry, add_symb_entry, init_symb_table, change_entry,
}
use aru_xi.Asm.Encoder.{Evaluator}
use aru_xi.Asm.Strtok.{strtok}
use aru_xi.Asm.Tables.{
  SectEntry, SectionTable, set_lp, init_section_table, active_lp, init_data_table, init_instr_obj,
  add_instr_obj,
}
use aru_xi.Asm.Names.{first_char}
use aru_xi.Asm.Directives.{Assembly, create_flags, blanks, unless}
use aru_xi.Asm.Directives.Data.{but_last}
use aru_xi.Asm.Directives.Handle.{handle_directive}
use aru_xi.Asm.Labels.{handle_label}
use aru_xi.Asm.Instructions.{rest_chars}
use aru_xi.Asm.Instructions.Handle.{handle_instruction}

-- `evt_defined` is 0, 0xF0 inside the exception table and 0xFF after it.
pub record Pass : Type 0 where
  pub assembly : Assembly
  pub evt_defined : ℕ

-- Where the sections start.
unfoldable pub section_start : Bool → ℕ → ℕ
section_start true k =
    if k == 0 || k == 1 || k == 2
    then 0xA0080000
    else (if k == 3 then 0xB8080000 else (if k == 4 then 0x00040000 else 0))
section_start false k =
    if k == 0 || k == 1
    then 0x20090000
    else (if k == 2 then 0x20040000 else (if k == 3 then 0x20190000 else 0))

abbrev pub lp_name : Text
lp_name = b'@' ∷ []

unfoldable pub start_pass : Bool → Pass
start_pass kern = record {
  assembly = record {
    symbols =
        add_symb_entry init_symb_table (init_symb_entry lp_name none 0 (create_flags 0 0 0 0 1 1));
    sections = record {
      entries = λ k. record (init_section_table.entries k) { lp = section_start kern k };
      active_section = 0;
    };
    data_table = init_data_table;
    stream = [];
    halt = false;
  };
  evt_defined = 0;
}

-- The symbol of the location pointer, which is the first of the table.
unfoldable pub point_symbol : Assembly → Assembly
point_symbol a = record a {
  symbols =
      change_entry
        (λ e. record e {
          content = value (active_lp a.sections);
          flags = create_flags 0 a.sections.active_section 0 0 1 1;
        })
        a.symbols lp_name;
}

unfoldable pub ends_with : ℕ → Text → Bool
ends_with c [] = false
ends_with c (d ∷ []) = d == c
ends_with c (d ∷ e ∷ s) = ends_with c (e ∷ s)

abbrev pub Rest : Type 0
Rest = Assembly × Option Text × Text

-- The token after a label, or the token itself.
unfoldable pub label_step : Text → Text → Assembly → Result Rest
label_step tok save a =
    if ends_with b':' tok
    then (handle_label a.symbols a.sections (but_last tok) save >>= λ r.
        done (record a { symbols = r.0 }, r.1, r.2))
    else done (a, some tok, save)

-- The word that the pointer moves by, in the exception table or in the text section.
unfoldable pub count_word : ℕ → Assembly → Assembly
count_word evt_defined a =
    let k = if evt_defined == 0xF0 then 4 else 3 in
    record a { sections = set_lp a.sections k (u32 ((a.sections.entries k).lp + 4)) }

abbrev pub marker : String → Assembly → Assembly
marker name a = record a {
  stream = add_instr_obj a.stream (init_instr_obj 0 (codes name) (null ∷ []) 0xFF);
}

-- The checks behind each line: no tables in user code, one exception table, and its marks.
unfoldable pub evt_step : Bool → Assembly → ℕ → Result Pass
evt_step kern a evt_defined =
    let section = a.sections.active_section in
    if not kern && (section == 4 || section == 5)
    then fatal
    else (if section == 4 && (evt_defined == 0xFF)
        then fatal
        else (if section == 4 && (evt_defined == 0)
            then done (record { assembly = marker "__EvtStart__" a; evt_defined = 0xF0 })
            else (if not (section == 4) && (evt_defined == 0xF0)
                then done (record { assembly = marker "__EvtEnd__" a; evt_defined = 0xFF })
                else done (record { assembly = a; evt_defined = evt_defined }))))

module _ (ev : Evaluator SymbolTable) (strtof : Text → Option ℕ) where
  unfoldable pub instruction_step : Text → Text → ℕ → Assembly → Result Assembly
  instruction_step tok save evt_defined a = do
    _ ← unless (ltb a.sections.active_section 3) (done tt)
    _ ← unless (not ((a.sections.entries 3).lp % 4 == 0)) (done tt)
    a' ← handle_instruction ev tok save a
    done (count_word evt_defined a')

  unfoldable pub statement : ℕ → Rest → Result Assembly
  statement evt_defined (a, none, save) = done a
  statement evt_defined (a, some tok, save) =
      if first_char tok == b'.'
      then handle_directive ev strtof (rest_chars tok) save a
      else instruction_step tok save evt_defined a

  abbrev pub has_token : Rest → Bool
  has_token (a, none, save) = false
  has_token (a, some tok, save) = true

  -- `.end` leaves the loop before the checks.
  unfoldable pub end_of_line : Bool → Pass → Rest → Assembly → Result Pass
  end_of_line kern p r a =
      if has_token r && a.halt
      then done (record p { assembly = a })
      else evt_step kern a p.evt_defined

  unfoldable pub line_from : Bool → Pass → Option Text × Text → Result Pass
  line_from kern p (none, save) = crashed
  line_from kern p (some tok, save) = label_step tok save (point_symbol p.assembly) >>= λ r.
      statement p.evt_defined r >>= λ a. end_of_line kern p r a

  unfoldable pub line_step : Bool → Pass → Text → Result Pass
  line_step kern p line = line_from kern p (strtok blanks line)

  -- The lines, until one has set `halt`.
  unfoldable pub lines_step : Bool → Pass → List Text → Result Pass
  lines_step kern p [] = done p
  lines_step kern p (line ∷ lines) = line_step kern p line >>= λ q. elim (q.assembly).halt [
    | true ↦ done q
    | false ↦ lines_step kern q lines
  ]
