-- ===== src/Asm/SecondPass/Forms.antt =====
-- The forms that `fixInstrs` of assembler/assembler.c gives the arithmetic instructions.
use aru_xi.Base.{
  ℕ, Bool, true, false, ◌||◌, ◌==◌, if◌then◌else◌, List, [], ◌∷◌, ◌≡◌, refl, Bool-cases, inl, inr,
}
use aru_xi.Base.Text.{Text, codes}
use aru_xi.Asm.Operands.{done, Operand, null, absent, text, Instr, operand}
use aru_xi.Asm.Names.{first_char, validate_register, is_valid_register}
use aru_xi.Asm.Stream.{set_operand, read_text}
use aru_xi.Asm.Instructions.Memory.{clear_hashes}
use aru_xi.Asm.Outcome.{
  Ensures, holds, ended, broken, Ensures-chain, Ensures-done, Ensures-if, Ensures-weaken,
}
use aru_xi.Asm.SecondPass.Fixed.{
  is_mvn, fix_move, fix_last, fix_three, fix_ir, fix_instr, fix_instrs,
}

-- The four places that the first pass gives an arithmetic instruction.
abbrev pub IsWaiting : Instr → Type 0
IsWaiting i =
    (i.encoding == 0x10) ≡ true
    → (xd : Operand) × (xs : Operand) × (last : Operand) × (i.operands ≡ xd ∷ xs ∷ last ∷ null ∷ [])

abbrev pub AllWaiting : List Instr → Type 0
AllWaiting [] = Unit
AllWaiting (i ∷ is) = IsWaiting i × AllWaiting is

-- An expression without its hashes, of which each has become a blank.
abbrev pub IsCleared : Text → Text → Type 0
IsCleared [] [] = Unit
IsCleared [] (d ∷ t) = ⊥
IsCleared (c ∷ s) [] = ⊥
IsCleared (c ∷ s) (d ∷ t) = (d ≡ (if c == b'#' then b' ' else c)) × IsCleared s t

-- The last source as it was written, the type that it makes, and what it is in the end.
pub data IsLast : Text → ℕ → Text → Type 0 where
  register : {q : Text} → is_valid_register q ≡ true → IsLast q 0x1 q
  immediate : {q z : Text} → is_valid_register q ≡ false → IsCleared q z → IsLast q 0x0 z

abbrev pub is_move : Text → Bool
is_move instr = first_char instr == b'n' || first_char instr == b'm'

-- The operands that are read, the type and the operands in the end. `mv` and `not` of a register
-- have it as the first source and XZ as the second, everything else that moves has XZ first; an
-- operation of three operands keeps its destination and first source, which are registers.
pub data HasForm (instr : Text) : List Operand → ℕ → List Operand → Type 0 where
  moved :
      {d o : Operand} {q : Text}
      → is_move instr ≡ true
      → is_mvn instr ≡ false
      → is_valid_register q ≡ true
      → HasForm instr (d ∷ text q ∷ o ∷ null ∷ []) 0x1 (d ∷ text q ∷ text (codes "xz") ∷ null ∷ [])
  negated :
      {d o : Operand} {q : Text}
      → is_move instr ≡ true
      → is_mvn instr ≡ true
      → is_valid_register q ≡ true
      → HasForm instr (d ∷ text q ∷ o ∷ null ∷ []) 0x1 (d ∷ text (codes "xz") ∷ text q ∷ null ∷ [])
  loaded :
      {d o : Operand} {q z : Text}
      → is_move instr ≡ true
      → is_valid_register q ≡ false
      → IsCleared q z
      → HasForm instr (d ∷ text q ∷ o ∷ null ∷ []) 0x0 (d ∷ text (codes "xz") ∷ text z ∷ null ∷ [])
  combined :
      {d s q z : Text} {encoding : ℕ}
      → is_move instr ≡ false
      → is_valid_register d ≡ true
      → is_valid_register s ≡ true
      → IsLast q encoding z
      → HasForm instr
          (text d ∷ text s ∷ text q ∷ null ∷ [])
          encoding
          (text d ∷ text s ∷ text z ∷ null ∷ [])

-- What an instruction has become: of the type that its operands say, at its place.
abbrev pub IsFixed : Instr → Instr → Type 0
IsFixed i i' =
    ((i.encoding == 0x10) ≡ false → i' ≡ i)
    × ((i.encoding == 0x10) ≡ true
        → (i'.addr ≡ i.addr)
          × (i'.instr ≡ i.instr)
          × HasForm i.instr i.operands i'.encoding i'.operands)

abbrev pub AllFixed : List Instr → List Instr → Type 0
AllFixed [] [] = Unit
AllFixed [] (i' ∷ is') = ⊥
AllFixed (i ∷ is) [] = ⊥
AllFixed (i ∷ is) (i' ∷ is') = IsFixed i i' × AllFixed is is'

clear_hashes-IsCleared : (s : Text) → IsCleared s (clear_hashes s)
unfolding clear_hashes
clear_hashes-IsCleared [] = tt
clear_hashes-IsCleared (c ∷ s) = (refl, clear_hashes-IsCleared s)

read_text-Ensures : (o : Operand) → Ensures (λ s. o ≡ text s) (read_text o)
unfolding read_text
read_text-Ensures null = broken
read_text-Ensures absent = broken
read_text-Ensures (text s) = holds refl

validate_register-Ensures :
    (s : Text) → Ensures (λ ok. is_valid_register s ≡ true) (validate_register s)
unfolding validate_register
validate_register-Ensures s = Ensures-if (is_valid_register s) (λ reg. holds reg) (λ other. ended)

-- Of an arithmetic instruction.
abbrev Sorted : Instr → Instr → Type 0
Sorted i i' =
    (i'.addr ≡ i.addr) × (i'.instr ≡ i.instr) × HasForm i.instr i.operands i'.encoding i'.operands

-- With the operands written out.
abbrev waiting : ℕ → ℕ → Text → Operand → Operand → Operand → Instr
waiting addr encoding instr xd xs last = record {
  addr = addr;
  encoding = encoding;
  instr = instr;
  operands = xd ∷ xs ∷ last ∷ null ∷ [];
}

module _ (addr enc : ℕ) (instr : Text) where
  fix_move-Sorted :
      (xd last : Operand) (q : Text)
      → is_move instr ≡ true
      → Sorted
          (waiting addr enc instr xd (text q) last)
          (fix_move q (waiting addr enc instr xd (text q) last))
  unfolding fix_move set_operand
  fix_move-Sorted xd last q move = elim (Bool-cases (is_valid_register q)) [
    | inl reg ↦ elim (Bool-cases (is_mvn instr)) [
      | inl mvn ↦ rw (reg, mvn) (refl, refl, negated move mvn reg)
      | inr other ↦ rw (reg, other) (refl, refl, moved move other reg)
    ]
    | inr imm ↦ rw imm (refl, refl, loaded move imm (clear_hashes-IsCleared q))
  ]

  fix_last-Sorted :
      (d s q : Text)
      → is_move instr ≡ false
      → is_valid_register d ≡ true
      → is_valid_register s ≡ true
      → Sorted
          (waiting addr enc instr (text d) (text s) (text q))
          (fix_last q (waiting addr enc instr (text d) (text s) (text q)))
  unfolding fix_last set_operand
  fix_last-Sorted d s q three hd hs = elim (Bool-cases (is_valid_register q)) [
    | inl reg ↦ rw reg (refl, refl, combined three hd hs (register reg))
    | inr imm ↦ rw imm (refl, refl, combined three hd hs (immediate imm (clear_hashes-IsCleared q)))
  ]

  fix_three-Sorted :
      (xd xs last : Operand)
      → is_move instr ≡ false
      → Ensures
          (Sorted (waiting addr enc instr xd xs last))
          (fix_three (waiting addr enc instr xd xs last))
  unfolding fix_three operand
  fix_three-Sorted xd xs last three = Ensures-chain (read_text-Ensures xd) (λ d is.
      Ensures-chain (validate_register-Ensures d) (λ ok hd.
        Ensures-chain (read_text-Ensures xs) (λ s is'.
          Ensures-chain (validate_register-Ensures s) (λ ok' hs.
            Ensures-chain (read_text-Ensures last)
              (λ q is''. rw (is, is', is'') (holds (fix_last-Sorted d s q three hd hs)))))))

  fix_ir-Sorted :
      (xd xs last : Operand)
      → Ensures
          (Sorted (waiting addr enc instr xd xs last))
          (fix_ir (waiting addr enc instr xd xs last))
  unfolding fix_ir operand
  fix_ir-Sorted xd xs last =
      Ensures-if (is_move instr)
        (λ moves.
          Ensures-chain (read_text-Ensures xs)
            (λ q is. rw is (holds (fix_move-Sorted xd last q moves))))
        (λ others. fix_three-Sorted xd xs last others)

fix_ir-waiting :
    (i : Instr) → IsWaiting i → (i.encoding == 0x10) ≡ true → Ensures (Sorted i) (fix_ir i)
fix_ir-waiting i h ir =
    let (xd, xs, last, shape) = h ir in
    rw shape (fix_ir-Sorted i.addr i.encoding i.instr xd xs last)

fix_instr-IsFixed : (i : Instr) → IsWaiting i → Ensures (IsFixed i) (fix_instr i)
unfolding fix_instr
fix_instr-IsFixed i h = elim (Bool-cases (i.encoding == 0x10)) [
  | inl ir ↦ rw ir (Ensures-weaken (fix_ir-waiting i h ir) (λ i' sorted. (λ e. cc, λ e. sorted)))
  | inr other ↦ rw other (holds (λ e. refl, λ e. cc))
]

fix_instrs-Ensures : (is : List Instr) → AllWaiting is → Ensures (AllFixed is) (fix_instrs is)
unfolding fix_instrs
fix_instrs-Ensures [] h = holds tt
fix_instrs-Ensures (i ∷ is) h =
    Ensures-chain (fix_instr-IsFixed i h.0)
      (λ i' fixed. Ensures-chain (fix_instrs-Ensures is h.1) (λ is' rest. holds (fixed, rest)))

-- Where `fixInstrs` gets through a stream whose arithmetic instructions have three operands and the
-- null pointer, every other instruction stays, and an arithmetic one keeps its address and name: with
-- a register as its last source, which it keeps, it is of the R-type, and with anything else, of
-- which each hash becomes a blank, of the I-type. Of the moves `mv` and `not` of a register have XZ
-- as the second source and the others as the first; the rest keep their first source, and it and
-- their destination are registers.
pub fix_instrs-AllFixed :
    (is is' : List Instr) → AllWaiting is → fix_instrs is ≡ done is' → AllFixed is is'
fix_instrs-AllFixed is is' h = Ensures-done (fix_instrs-Ensures is h)
