-- ===== src/Asm/Directives/Layout.antt =====
-- Where the data directives of assembler/lexer-parser.c put what they reserve.
use aru_xi.Base.{
  ℕ, ◌+◌, ◌*◌, Bool, true, false, ◌==◌, ◌||◌, if◌then◌else◌, Option, [], ◌∷◌, ◌++◌, ◌≡◌, refl,
  arith, ==_iff, subst, Bool-cases, inl, inr, ltb, map, u32, length,
}
use aru_xi.Base.Text.{Text, to_lower}
use aru_xi.Asm.Operands.{Result, done}
use aru_xi.Asm.Symbols.{SymbolTable}
use aru_xi.Asm.Encoder.{Evaluator}
use aru_xi.Asm.Tables.{
  set_lp, activate, active_lp, DataContent, no_data, str, values, DataEntry, DataTable,
  init_data_entry, add_data_entry, entries_of,
}
use aru_xi.Asm.Strtok.{strtok, count_tokens}
use aru_xi.Asm.Outcome.{Ensures, holds, broken, Ensures-done, Ensures-bind}
use aru_xi.Asm.Tables.Placed.{Placed, Placed-append}
use aru_xi.Asm.Directives.{
  Assembly, comma, blanks, expect, expect_end, evaluated, crash_if, validate_section,
  validate_directive, Directive, data_dir, const_dir, bss_dir, text_dir, evt_dir, ivt_dir, set_dir,
  glob_dir, end_dir, string_dir, byte_dir, hword_dir, word_dir, float_dir, zero_dir, fill_dir,
  align_dir,
}
use aru_xi.Asm.Directives.Define.{set_directive, glob_directive}
use aru_xi.Asm.Directives.Data.{
  place, string_text, read_floats, string_directive, values_directive, float_directive,
  zero_directive, fill_directive,
}
use aru_xi.Asm.Directives.Handle.{end_directive, directive, handle_directive}

abbrev pub holds_data : ℕ → Bool
holds_data k = k == 0 || k == 1 || k == 2 || k == 4

-- In every section that holds data the entries follow one another from the section's start, and the
-- location pointer stands behind the last.
abbrev pub IsLaidOut : (ℕ → ℕ) → Assembly → Type 0
IsLaidOut start a =
    (k : ℕ)
    → holds_data k ≡ true
    → Placed (start k) (entries_of a.data_table k) (a.sections.entries k).lp

entries_of-add_data_entry :
    (t : DataTable) (e : DataEntry) (s k : ℕ)
    → holds_data k ≡ true
    → entries_of (add_data_entry t e s) k
      ≡ (if k == s then entries_of t k ++ (e ∷ []) else entries_of t k)
unfolding add_data_entry
entries_of-add_data_entry t e s k h = ground arith

module _ (start : ℕ → ℕ) where
  activate-IsLaidOut :
      (a : Assembly) (k : ℕ)
      → IsLaidOut start a
      → IsLaidOut start (record a { sections = activate a.sections k })
  unfolding activate
  activate-IsLaidOut a k h j slot = elim (Bool-cases (j == k)) [
    | inl same ↦
        let here : j ≡ k = (==_iff j k).0 same in
        rw same (
          subst (λ (i : ℕ). Placed (start j) (entries_of a.data_table j) (a.sections.entries i).lp)
            here (h j slot))
    | inr other ↦ rw other (h j slot)
  ]

  place-IsLaidOut :
      (type size : ℕ) (source : Text) (content : DataContent) (a : Assembly)
      → IsLaidOut start a
      → IsLaidOut start (place type size source content a)
  unfolding place set_lp
  place-IsLaidOut type size source content a h j slot =
      let s = a.sections.active_section in
      let e = init_data_entry type (active_lp a.sections) size source content in
      let added = entries_of-add_data_entry a.data_table e s j slot in
      elim (Bool-cases (j == s)) [
        | inl same ↦
            let here : j ≡ s = (==_iff j s).0 same in
            let before : Placed (start j) (entries_of a.data_table j) (active_lp a.sections) =
              subst
                (λ (i : ℕ). Placed (start j) (entries_of a.data_table j) (a.sections.entries i).lp)
                here (h j slot) in
            let after =
              Placed-append (start j) (entries_of a.data_table j) (active_lp a.sections) e before
                (unfold init_data_entry in refl) in
            let width : u32 (active_lp a.sections + e.size) ≡ u32 (active_lp a.sections + size) =
              unfold init_data_entry in omega arith in
            rw (added, same) (rw width at after)
        | inr other ↦ rw (added, other) (h j slot)
      ]

  abbrev Keeps : Result Assembly → Type 0
  Keeps r = Ensures (IsLaidOut start) r

  crash_if-Keeps : (b : Bool) (r : Result Assembly) → Keeps r → Keeps (crash_if b r)
  crash_if-Keeps true r h = broken
  crash_if-Keeps false r h = h

  module _ (ev : Evaluator SymbolTable) (strtof : Text → Option ℕ) (args : Text)
      (a : Assembly) where
    module _ (h : IsLaidOut start a) where
      string-Keeps : Keeps (string_directive args a)
      unfolding string_directive
      string-Keeps = Ensures-bind (validate_section string_dir a.sections.active_section) (λ u.
          Ensures-bind (string_text args)
            (λ s. holds (place-IsLaidOut 0 (length s + 1) s (str s) a h)))

      values-Keeps : (d : Directive) (type width : ℕ) → Keeps (values_directive d type width args a)
      unfolding values_directive
      values-Keeps d type width =
          Ensures-bind (validate_section d a.sections.active_section)
            (λ u. holds (place-IsLaidOut type (count_tokens comma args * width) args no_data a h))

      float-Keeps : Keeps (float_directive strtof args a)
      unfolding float_directive
      float-Keeps = Ensures-bind (validate_section float_dir a.sections.active_section) (λ u.
          Ensures-bind (read_floats strtof 5 args)
            (λ vs. holds (place-IsLaidOut 4 (length vs * 4) args (values 4 vs) a h)))

      zero-Keeps : Keeps (zero_directive ev args a)
      unfolding zero_directive
      zero-Keeps = Ensures-bind (validate_section zero_dir a.sections.active_section) (λ u.
          Ensures-bind (expect (strtok blanks args)) (λ t.
            Ensures-bind (ev.eval t.0 a.symbols) (λ r.
              Ensures-bind (evaluated r)
                (λ v. holds (place-IsLaidOut 1 v.0 args _ (record a { symbols = v.1 }) h)))))

      fill-Keeps : Keeps (fill_directive ev args a)
      unfolding fill_directive
      fill-Keeps = Ensures-bind (validate_section fill_dir a.sections.active_section) (λ u.
          Ensures-bind (expect (strtok comma args)) (λ t.
            Ensures-bind (expect (strtok blanks t.1)) (λ n. Ensures-bind (ev.eval t.0 []) (λ r.
              Ensures-bind (crash_if (ltb 0 (length r.1)) (evaluated (r.0, r.1)))
                (λ v. crash_if-Keeps (v.0 == 0) _ (holds (place-IsLaidOut 1 v.0 _ no_data a h)))))))

      directive-Keeps : (d : Directive) → Keeps (directive ev strtof d args a)
      unfolding directive
      directive-Keeps data_dir = holds (activate-IsLaidOut a 0 h)
      directive-Keeps const_dir = holds (activate-IsLaidOut a 1 h)
      directive-Keeps bss_dir = holds (activate-IsLaidOut a 2 h)
      directive-Keeps text_dir = holds (activate-IsLaidOut a 3 h)
      directive-Keeps evt_dir = holds (activate-IsLaidOut a 4 h)
      directive-Keeps ivt_dir = holds (activate-IsLaidOut a 5 h)
      directive-Keeps set_dir =
          Ensures-bind (set_directive ev a.symbols args a.sections.active_section) (λ t. holds h)
      directive-Keeps glob_dir =
          Ensures-bind (glob_directive a.symbols args a.sections.active_section) (λ t. holds h)
      directive-Keeps end_dir =
          unfold end_directive in
          Ensures-bind (expect_end (strtok (blanks ++ comma) args)) (λ u. holds h)
      directive-Keeps string_dir = string-Keeps
      directive-Keeps byte_dir = values-Keeps byte_dir 1 1
      directive-Keeps hword_dir = values-Keeps hword_dir 2 2
      directive-Keeps word_dir = values-Keeps word_dir 3 4
      directive-Keeps float_dir = float-Keeps
      directive-Keeps zero_dir = zero-Keeps
      directive-Keeps fill_dir = fill-Keeps
      directive-Keeps align_dir = holds h

  pub handle_directive-Keeps :
      (ev : Evaluator SymbolTable) (strtof : Text → Option ℕ) (name args : Text) (a : Assembly)
      → IsLaidOut start a
      → Ensures (IsLaidOut start) (handle_directive ev strtof name args a)
  unfolding handle_directive
  handle_directive-Keeps ev strtof name args a h =
      Ensures-bind (validate_directive (map to_lower name))
        (λ d. directive-Keeps ev strtof args a h d)

  -- Whatever the directive and its arguments, and whatever the evaluator does: where
  -- `handleDirective` goes on, the data of every section still follow one another from the section's
  -- start and its location pointer stands behind the last.
  pub handle_directive-IsLaidOut :
      (ev : Evaluator SymbolTable) (strtof : Text → Option ℕ) (name args : Text) (a a' : Assembly)
      → IsLaidOut start a
      → handle_directive ev strtof name args a ≡ done a'
      → IsLaidOut start a'
  handle_directive-IsLaidOut ev strtof name args a a' h =
      Ensures-done (handle_directive-Keeps ev strtof name args a h)
