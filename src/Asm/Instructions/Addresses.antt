-- ===== src/Asm/Instructions/Addresses.antt =====
-- The addresses that assembler/lexer-parser.c gives to the objects of an instruction.
use aru_xi.Base.{
  ℕ, ◌+◌, ◌*◌, Bool, true, false, ◌==◌, Option, none, some, List, [], ◌∷◌, ◌++◌, ◌≡◌, refl, ◌∙◌, ap,
  arith, ==_iff, Bool-cases, ◌⊎◌, inl, inr, u32, sub32, length,
}
use mathlib.Core.List.{append_assoc}
use aru_xi.Base.Text.{Text, codes}
use aru_xi.Asm.Operands.{Operand, null, absent, text, Instr}
use aru_xi.Asm.Tables.{SectEntry, update, set_lp, active_lp, init_instr_obj, add_instr_obj}
use aru_xi.Asm.Directives.{Assembly}
use aru_xi.Asm.Instructions.{emit, named_reg}
use aru_xi.Asm.Instructions.Memory.{
  is_near, middle_operand, low_operand, move_lp, near_load, split_head, split_tail, split_load,
  split, load_value,
}

-- The objects have the addresses `lp + ahead`, `lp + ahead + 4`, ...
abbrev pub Sequential : ℕ → ℕ → List Instr → Type 0
Sequential lp ahead [] = Unit
Sequential lp ahead (i ∷ is) = (i.addr ≡ u32 (lp + ahead)) × Sequential lp (ahead + 4) is

-- Seven objects, of which the last has an address 20 bytes behind its place.
abbrev pub IsStray : ℕ → List Instr → Type 0
IsStray lp added =
    (pieces : List Instr) × (last : Instr) × (added ≡ pieces ++ (last ∷ []))
    × (length pieces ≡ 6)
    × Sequential lp 0 pieces
    × (last.addr ≡ u32 (lp + 44))

-- Data, active section and the pointers of the other sections stay.
abbrev pub SameElsewhere : Assembly → Assembly → Type 0
SameElsewhere a a' =
    (a'.data_table ≡ a.data_table)
    × (a'.sections.active_section ≡ a.sections.active_section)
    × ((k : ℕ)
        → (k == a.sections.active_section) ≡ false
        → (a'.sections.entries k).lp ≡ (a.sections.entries k).lp)

-- The stream has grown by objects that start at the location pointer, and the pointer, once the
-- caller has moved it by a word, has moved by a word for each object; nothing else has moved.
abbrev pub IsExtended : Assembly → Assembly → Type 0
IsExtended a a' =
    (added : List Instr) × (a'.stream ≡ a.stream ++ added)
    × (Sequential (active_lp a.sections) 0 added ⊎ IsStray (active_lp a.sections) added)
    × (u32 (active_lp a'.sections + 4) ≡ u32 (active_lp a.sections + 4 * length added))
    × SameElsewhere a a'

pub emit-IsExtended :
    (instr : Text) (operands : List Operand) (encoding : ℕ) (a : Assembly)
    → IsExtended a (emit 0 instr operands encoding a)
unfolding emit add_instr_obj init_instr_obj
emit-IsExtended instr operands encoding a = (
  init_instr_obj (active_lp a.sections + 0) instr operands encoding ∷ [],
  refl,
  inl (refl, tt),
  omega arith,
  (refl, refl, λ k other. refl),
)

update_self : (entries : ℕ → SectEntry) (s : ℕ) (e : SectEntry) → update entries s e s ≡ e
update_self entries s e = let same : (s == s) ≡ true = (==_iff s s).1 refl in rw same refl

active_lp-move_lp :
    (n : ℕ) (a : Assembly) → active_lp (move_lp n a).sections ≡ u32 (active_lp a.sections + n)
unfolding move_lp set_lp
active_lp-move_lp n a =
    ap (λ (e : SectEntry). e.lp) (update_self a.sections.entries a.sections.active_section _)

lp-move_lp :
    (n k : ℕ) (a : Assembly)
    → (k == a.sections.active_section) ≡ false
    → ((move_lp n a).sections.entries k).lp ≡ (a.sections.entries k).lp
unfolding move_lp set_lp
lp-move_lp n k a other = rw other refl

-- The five objects behind the first one of a split load.
abbrev five : Text → Option ℕ → ℕ → List Instr
five xd imm lp =
    init_instr_obj (lp + 4) (codes "lsl") (text xd ∷ text xd ∷ named_reg "#18" ∷ null ∷ []) 0x0
    ∷ init_instr_obj (lp + 8) (codes "mv")
        (named_reg "c0" ∷ named_reg "xz" ∷ middle_operand imm ∷ null ∷ []) 0x0
    ∷ init_instr_obj (lp + 12) (codes "lsl")
        (named_reg "c0" ∷ named_reg "c0" ∷ named_reg "#4" ∷ null ∷ []) 0x0
    ∷ init_instr_obj (lp + 16) (codes "or") (text xd ∷ text xd ∷ named_reg "c0" ∷ null ∷ []) 0x1
    ∷ init_instr_obj (lp + 20) (codes "add") (text xd ∷ text xd ∷ low_operand imm ∷ null ∷ []) 0x0
    ∷ []

split_tail-stream :
    (xd : Text) (imm : Option ℕ) (a : Assembly)
    → (split_tail xd imm a).stream ≡ a.stream ++ five xd imm (active_lp a.sections)
unfolding split_tail emit add_instr_obj
split_tail-stream xd imm a = simp append_assoc

module _ (xd : Text) (imm : Option ℕ) (instr : Text) (operands : List Operand) (encoding : ℕ) where
  module _ (a : Assembly) where
    abbrev pieces : Assembly
    pieces = move_lp 20 (split_tail xd imm (emit 0 instr operands encoding a))

    abbrev six : List Instr
    six =
        init_instr_obj (active_lp a.sections + 0) instr operands encoding
        ∷ five xd imm (active_lp a.sections)

    pieces-stream : pieces.stream ≡ a.stream ++ six
    unfolding move_lp emit add_instr_obj
    pieces-stream = split_tail-stream xd imm (emit 0 instr operands encoding a) ∙ simp append_assoc

    pieces-lp : active_lp pieces.sections ≡ u32 (active_lp a.sections + 20)
    pieces-lp =
        active_lp-move_lp 20 (split_tail xd imm (emit 0 instr operands encoding a))
        ∙ unfold split_tail emit in refl

    six-Sequential : Sequential (active_lp a.sections) 0 six
    unfolding init_instr_obj
    six-Sequential = (refl, (refl, (refl, (refl, (refl, (refl, tt))))))

    pieces-SameElsewhere : SameElsewhere a pieces
    pieces-SameElsewhere = (
      unfold move_lp split_tail emit in refl,
      unfold move_lp set_lp split_tail emit in refl,
      λ k other.
          lp-move_lp 20 k (split_tail xd imm (emit 0 instr operands encoding a))
            (unfold split_tail emit in other)
          ∙ unfold split_tail emit in refl,
    )

    split_literal-IsExtended : IsExtended a pieces
    split_literal-IsExtended =
        (six, pieces-stream, inl six-Sequential, rw pieces-lp (omega arith), pieces-SameElsewhere)

    abbrev loaded : Assembly
    loaded =
        emit 24 (codes "ld") (text xd ∷ text xd ∷ absent ∷ named_reg "xz" ∷ null ∷ []) 0x2 pieces

    abbrev last : Instr
    last =
        init_instr_obj (active_lp pieces.sections + 24) (codes "ld")
          (text xd ∷ text xd ∷ absent ∷ named_reg "xz" ∷ null ∷ []) 0x2

    loaded-SameElsewhere : SameElsewhere a (move_lp 4 loaded)
    loaded-SameElsewhere = (
      unfold move_lp emit in pieces-SameElsewhere.0,
      unfold move_lp set_lp emit in pieces-SameElsewhere.1,
      λ k other.
          lp-move_lp 4 k loaded (unfold emit in rw pieces-SameElsewhere.1 other)
          ∙ unfold emit in pieces-SameElsewhere.2 k other,
    )

    split_load-IsExtended : IsExtended a (split_load xd pieces)
    unfolding split_load
    split_load-IsExtended =
        let moved : active_lp loaded.sections ≡ u32 (active_lp a.sections + 20) =
          unfold emit in pieces-lp in
        (
          six ++ (last ∷ []),
          unfold move_lp emit add_instr_obj in
              (ap (λ (s : List Instr). s ++ (last ∷ [])) pieces-stream
                ∙ append_assoc a.stream six _),
          inr (
            six,
            last,
            refl,
            refl,
            six-Sequential,
            unfold init_instr_obj in rw pieces-lp (omega arith),
          ),
          rw (active_lp-move_lp 4 loaded, moved) (omega arith),
          loaded-SameElsewhere,
        )

split-IsExtended :
    (xd expr : Text) (literal : Bool) (imm : Option ℕ) (a : Assembly)
    → IsExtended a (split xd expr literal imm a)
unfolding split split_head
split-IsExtended xd expr true (some imm) a = split_literal-IsExtended xd (some imm) _ _ _ a
split-IsExtended xd expr true none a = split_literal-IsExtended xd none _ _ _ a
split-IsExtended xd expr false (some imm) a = split_load-IsExtended xd (some imm) _ _ _ a
split-IsExtended xd expr false none a = split_load-IsExtended xd none _ _ _ a

pub load_value-IsExtended :
    (instr xd expr : Text) (literal : Bool) (imm : Option ℕ) (a : Assembly)
    → IsExtended a (load_value instr xd expr literal imm a)
unfolding load_value near_load
load_value-IsExtended instr xd expr literal none a = split-IsExtended xd expr literal none a
load_value-IsExtended instr xd expr true (some imm) a = split-IsExtended xd expr true (some imm) a
load_value-IsExtended instr xd expr false (some imm) a =
    let offset = sub32 imm (a.sections.entries 3).lp in
    elim (Bool-cases (is_near offset)) [
      | inl near ↦ rw near (emit-IsExtended instr _ 0x2 a)
      | inr far ↦ rw far (split-IsExtended xd expr false (some imm) a)
    ]
