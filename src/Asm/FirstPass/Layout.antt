-- ===== src/Asm/FirstPass/Layout.antt =====
-- The data of a user program after the first pass of assembler/assembler.c.
use aru_xi.Base.{
  ℕ, ◌%◌, Bool, true, false, not, ◌&&◌, ◌||◌, ◌==◌, ltb, Option, none, some, List, [], ◌∷◌, ◌≡◌,
  refl, arith, Bool-cases, inl, inr,
}
use aru_xi.Base.Text.{Text}
use aru_xi.Asm.Operands.{Result, done, ◌>>=◌}
use aru_xi.Asm.Symbols.{SymbolTable}
use aru_xi.Asm.Encoder.{Evaluator}
use aru_xi.Asm.Strtok.{strtok}
use aru_xi.Asm.Outcome.{
  Ensures, holds, ended, broken, Ensures-done, Ensures-bind, Ensures-chain, Ensures-if,
}
use aru_xi.Asm.Tables.{set_lp, entries_of, init_data_table}
use aru_xi.Asm.Names.{first_char}
use aru_xi.Asm.Directives.{Assembly, blanks, unless}
use aru_xi.Asm.Directives.Data.{but_last}
use aru_xi.Asm.Directives.Layout.{holds_data, IsLaidOut, handle_directive-Keeps}
use aru_xi.Asm.Labels.{handle_label}
use aru_xi.Asm.Instructions.{rest_chars}
use aru_xi.Asm.Instructions.Addresses.{SameElsewhere}
use aru_xi.Asm.Instructions.Extended.{handle_instruction-Extends}
use aru_xi.Asm.FirstPass.{
  Pass, Rest, section_start, start_pass, point_symbol, label_step, count_word, evt_step,
  instruction_step, statement, ends_with, has_token, end_of_line, line_from, line_step, lines_step,
}

apart : (k s : ℕ) → holds_data k ≡ true → holds_data s ≡ false → (k == s) ≡ false
apart k s h g = ground arith

-- The sections from the third on that are not the exception table hold no data.
code_section : (s : ℕ) → ltb s 3 ≡ false → (s == 4) ≡ false → holds_data s ≡ false
code_section s h g = ground arith

Ensures-unless :
    {A : Type 0} {P : A → Type 0} (b : Bool) (r : Result A)
    → (b ≡ false → Ensures P r)
    → Ensures P (unless b (done tt) >>= (λ (u : Unit {0}). r))
Ensures-unless true r h = ended
Ensures-unless false r h = h refl

no_entries : (k : ℕ) → entries_of init_data_table k ≡ []
unfolding init_data_table
no_entries k = ground arith

module _ (start : ℕ → ℕ) where
  SameElsewhere-IsLaidOut :
      (a a' : Assembly)
      → holds_data a.sections.active_section ≡ false
      → SameElsewhere a a'
      → IsLaidOut start a
      → IsLaidOut start a'
  SameElsewhere-IsLaidOut a a' code (same_data, same_section, same_lp) h k slot =
      let other = apart k a.sections.active_section slot code in
      rw (same_data, same_lp k other) (h k slot)

  count_word-IsLaidOut : (a : Assembly) → IsLaidOut start a → IsLaidOut start (count_word 0 a)
  unfolding count_word set_lp
  count_word-IsLaidOut a h k slot =
      let other : (k == 3) ≡ false = ground arith in rw other (h k slot)

  -- Laid out, and not in the exception table.
  abbrev IsUser : Assembly → Type 0
  IsUser a = IsLaidOut start a × ((a.sections.active_section == 4) ≡ false)

  module _ (ev : Evaluator SymbolTable) (strtof : Text → Option ℕ) where
    instruction_step-IsLaidOut :
        (tok save : Text) (a : Assembly)
        → IsUser a
        → Ensures (IsLaidOut start) (instruction_step ev strtof tok save 0 a)
    unfolding instruction_step
    instruction_step-IsLaidOut tok save a h =
        Ensures-unless (ltb a.sections.active_section 3) _ (λ late.
          Ensures-unless (not ((a.sections.entries 3).lp % 4 == 0)) _ (λ aligned.
            Ensures-chain (handle_instruction-Extends ev tok save a) (λ a' x. holds (
              count_word-IsLaidOut a' (
                SameElsewhere-IsLaidOut a a' (code_section a.sections.active_section late h.1) x.4
                  h.0)))))

    statement-IsLaidOut :
        (r : Rest) → IsUser r.0 → Ensures (IsLaidOut start) (statement ev strtof 0 r)
    unfolding statement
    statement-IsLaidOut (a, none, save) h = holds h.0
    statement-IsLaidOut (a, some tok, save) h =
        Ensures-if (first_char tok == b'.')
          (λ e. handle_directive-Keeps start ev strtof (rest_chars tok) save a h.0)
          (λ e. instruction_step-IsLaidOut tok save a h)

    statement-outside :
        (evt : ℕ) (r : Rest)
        → evt ≡ 0
        → IsUser r.0
        → Ensures (IsLaidOut start) (statement ev strtof evt r)
    statement-outside evt r e h = rw e (statement-IsLaidOut r h)

    -- A pass that goes on is outside the exception table.
    abbrev Continues : Pass → Type 0
    Continues p =
        IsLaidOut start p.assembly
        × ((p.assembly).halt ≡ false
            → (((p.assembly).sections.active_section == 4) ≡ false) × (p.evt_defined ≡ 0))

    evt_step-Continues : (a : Assembly) → IsLaidOut start a → Ensures Continues (evt_step false a 0)
    unfolding evt_step
    evt_step-Continues a h =
        let s = a.sections.active_section in
        Ensures-if (s == 4 || s == 5) (λ e. ended)
          (λ e.
            let user : (s == 4) ≡ false = ground arith in rw user (holds (h, λ on. (user, refl))))

    end_of_line-Continues :
        (p : Pass) (r : Rest) (a : Assembly)
        → p.evt_defined ≡ 0
        → IsLaidOut start a
        → Ensures Continues (end_of_line ev strtof false p r a)
    unfolding end_of_line
    end_of_line-Continues p r a zero_evt h =
        Ensures-if (has_token ev strtof r && a.halt) (λ e. holds (h, λ on. absurd (ground arith)))
          (λ e. rw zero_evt (evt_step-Continues a h))

    label_step-IsUser :
        (tok save : Text) (a : Assembly)
        → IsUser a
        → Ensures (λ (r : Rest). IsUser r.0) (label_step tok save a)
    unfolding label_step
    label_step-IsUser tok save a h =
        Ensures-if (ends_with b':' tok)
          (λ e. Ensures-bind (handle_label a.symbols a.sections (but_last tok) save) (λ r. holds h))
          (λ e. holds h)

    line_from-Continues :
        (p : Pass) (first : Option Text × Text)
        → Continues p
        → (p.assembly).halt ≡ false
        → Ensures Continues (line_from ev strtof false p first)
    unfolding line_from point_symbol
    line_from-Continues p (none, save) h on = broken
    line_from-Continues p (some tok, save) h on =
        let (user, zero_evt) = h.1 on in
        Ensures-chain (label_step-IsUser tok save (point_symbol p.assembly) (h.0, user)) (λ r k.
          Ensures-chain (statement-outside p.evt_defined r zero_evt k)
            (λ a l. end_of_line-Continues p r a zero_evt l))

    line_step-Continues :
        (p : Pass) (line : Text)
        → Continues p
        → (p.assembly).halt ≡ false
        → Ensures Continues (line_step ev strtof false p line)
    unfolding line_step
    line_step-Continues p line = line_from-Continues p (strtok blanks line)

    lines_step-Continues :
        (p : Pass) (lines : List Text)
        → Continues p
        → (p.assembly).halt ≡ false
        → Ensures (λ q. IsLaidOut start q.assembly) (lines_step ev strtof false p lines)
    unfolding lines_step
    lines_step-Continues p [] h on = holds h.0
    lines_step-Continues p (line ∷ lines) h on =
        Ensures-chain (line_step-Continues p line h on) (λ q k.
          elim (Bool-cases (q.assembly).halt) [
            | inl stop ↦ rw stop (holds k.0)
            | inr go ↦ rw go (lines_step-Continues q lines k go)
          ])

pub lines_step-Ensures :
    (ev : Evaluator SymbolTable) (strtof : Text → Option ℕ) (lines : List Text)
    → Ensures
        (λ p. IsLaidOut (section_start false) p.assembly)
        (lines_step ev strtof false (start_pass false) lines)
lines_step-Ensures ev strtof lines =
    lines_step-Continues (section_start false) ev strtof (start_pass false) lines
      (
        λ k slot. unfold start_pass in rw (no_entries k) refl,
        unfold start_pass in λ on. (refl, refl),
      )
      (unfold start_pass in refl)

-- After the first pass over the lines of a user program, whatever they are, the data entries of every
-- section stand one behind the other from the section's start to its location pointer.
pub lines_step-IsLaidOut :
    (ev : Evaluator SymbolTable) (strtof : Text → Option ℕ) (lines : List Text) (p : Pass)
    → lines_step ev strtof false (start_pass false) lines ≡ done p
    → IsLaidOut (section_start false) p.assembly
lines_step-IsLaidOut ev strtof lines p = Ensures-done (lines_step-Ensures ev strtof lines)
