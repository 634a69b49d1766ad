-- ===== src/Asm/SecondPass/Values.antt =====
-- The values that `completeData` of assembler/assembler.c writes.
use aru_xi.Base.{
  ℕ, zero, suc, ◌*◌, ◌/◌, ◌%◌, ◌^◌, ◌==◌, if◌then◌else◌, bit_and, Option, none, some, List, ◌≡◌,
  refl, sym, ◌∙◌, ap, arith, u32, length,
}
use aru_xi.Base.Bits.{bit_and_mask, bit_and_shift}
use aru_xi.Base.Text.{Text}
use aru_xi.Asm.Operands.{Result, done, fatal}
use aru_xi.Asm.Symbols.{SymbolTable}
use aru_xi.Asm.Encoder.{Evaluator}
use aru_xi.Asm.Strtok.{strtok, count_more, count_from, count_tokens}
use aru_xi.Asm.Tables.{DataEntry, no_data, values, init_data_entry}
use aru_xi.Asm.Outcome.{Ensures, holds, broken, Ensures-done, Ensures-bind, Ensures-chain}
use aru_xi.Asm.Directives.{comma, evaluated}
use aru_xi.Asm.SecondPass.{sized_value, values_more, values_from, complete_content}

masked : (w v : ℕ) → bit_and v (0xFF * 2 ^ w) ≡ v / 2 ^ w % 2 ^ 8 * 2 ^ w
masked w v = bit_and_shift w v 0xFF ∙ ap (λ (x : ℕ). x * 2 ^ w) (bit_and_mask 8 (v / 2 ^ w))

-- A byte is let through exactly when the bits 8 to 15 of its value are clear, and a half-word when
-- the bits 16 to 23 are, whatever the bits above; then the low bits are stored.
pub sized_value_lem :
    (v : ℕ)
    → (sized_value 1 v ≡ (if v / 2 ^ 8 % 2 ^ 8 == 0 then done (v % 2 ^ 8) else fatal))
      × (sized_value 2 v ≡ (if v / 2 ^ 16 % 2 ^ 8 == 0 then done (v % 2 ^ 16) else fatal))
unfolding sized_value
sized_value_lem v = let byte = masked 8 v in let half = masked 16 v in (ground arith, ground arith)

-- As many values as there are tokens.
abbrev Counts : ℕ → List ℕ × SymbolTable → Type 0
Counts n r = length r.0 ≡ n

module _ (ev : Evaluator SymbolTable) where
  values_more-count :
      (later : Text → SymbolTable → Result (List ℕ × SymbolTable)) (count : Text → ℕ)
      → ((s : Text) (table : SymbolTable) → Ensures (Counts (count s)) (later s table))
      → (type : ℕ) (t : Option Text × Text) (table : SymbolTable)
      → Ensures (Counts (count_more count t)) (values_more ev later type t table)
  unfolding values_more count_more
  values_more-count later count h type (none, rest) table = holds refl
  values_more-count later count h type (some t, rest) table = Ensures-bind (ev.eval t table) (λ r.
      Ensures-bind (evaluated r) (λ v.
        Ensures-bind (sized_value type v.0)
          (λ stored. Ensures-chain (h rest v.1) (λ vs n. holds (ap suc n)))))

  values_from-count :
      (fuel type : ℕ) (s : Text) (table : SymbolTable)
      → Ensures (Counts (count_from fuel comma s)) (values_from ev fuel type s table)
  unfolding values_from count_from
  values_from-count zero type s table = broken
  values_from-count (suc fuel) type s table =
      values_more-count (values_from ev fuel type) (count_from fuel comma)
        (values_from-count fuel type) type (strtok comma s) table

  -- The entry of a `.byte`, `.hword` or `.word`: the second pass writes values for as many elements
  -- as the first has reserved, no more and no fewer.
  pub complete_content-size :
      (type width addr : ℕ) (args : Text) (table : SymbolTable) (r : DataEntry × SymbolTable)
      → complete_content ev
          (init_data_entry type addr (count_tokens comma args * width) args no_data)
          no_data
          table
        ≡ done r
      → (vs : List ℕ) × ((r.0).content ≡ values type vs) × ((r.0).size ≡ u32 (length vs * width))
  unfolding complete_content init_data_entry count_tokens
  complete_content-size type width addr args table r =
      Ensures-done
        {P = λ r.
          (vs : List ℕ) × ((r.0).content ≡ values type vs) × ((r.0).size ≡ u32 (length vs * width))}
        (Ensures-chain (values_from-count (suc (length args)) type args table)
          (λ vs n. holds (vs.0, refl, ap (λ (k : ℕ). u32 (k * width)) (sym n))))
