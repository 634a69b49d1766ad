-- ===== src/Asm/SecondPass/Fixed.antt =====
-- `fixInstrs` of assembler/assembler.c: the arithmetic instructions get their last form.
use aru_xi.Base.{ℕ, Bool, true, false, not, ◌&&◌, ◌||◌, ◌==◌, if◌then◌else◌, List, [], ◌∷◌}
use aru_xi.Base.Text.{Text, codes}
use aru_xi.Asm.Operands.{Result, done, fatal, ◌>>=◌, Operand, null, absent, text, Instr, operand}
use aru_xi.Asm.Names.{first_char, validate_register, is_valid_register}
use aru_xi.Asm.Stream.{set_operand, read_text}
use aru_xi.Asm.Instructions.Memory.{clear_hashes}

abbrev pub is_null : Operand → Bool
is_null null = true
is_null absent = false
is_null (text s) = false

-- The third character, which tells `mvn` from `mv` and `not`.
abbrev pub third_char : Text → ℕ
third_char [] = 0
third_char (a ∷ []) = 0
third_char (a ∷ b ∷ s) = first_char s

abbrev pub is_mvn : Text → Bool
is_mvn instr = (first_char instr == b'm') && (third_char instr == b'n')

abbrev pub xz : Operand
xz = text (codes "xz")

-- `not`, `mv` and `mvn`, with the source `q`.
unfoldable pub fix_move : Text → Instr → Instr
fix_move q i =
    if is_valid_register q
    then (if is_mvn i.instr
        then record i {
          encoding = 0x1;
          operands = set_operand (set_operand i.operands 2 (text q)) 1 xz;
        }
        else record i { encoding = 0x1; operands = set_operand i.operands 2 xz })
    else record i {
      encoding = 0x0;
      operands = set_operand (set_operand i.operands 2 (text (clear_hashes q))) 1 xz;
    }

-- The others, with the last source `q`.
unfoldable pub fix_last : Text → Instr → Instr
fix_last q i =
    if is_valid_register q
    then record i { encoding = 0x1 }
    else record i { encoding = 0x0; operands = set_operand i.operands 2 (text (clear_hashes q)) }

unfoldable pub fix_three : Instr → Result Instr
fix_three i = do
  xd ← read_text (operand i.operands 0)
  _ ← validate_register xd
  xs ← read_text (operand i.operands 1)
  _ ← validate_register xs
  q ← read_text (operand i.operands 2)
  done (fix_last q i)

unfoldable pub fix_ir : Instr → Result Instr
fix_ir i =
    if not (is_null (operand i.operands 3))
    then fatal
    else (if first_char i.instr == b'n' || first_char i.instr == b'm'
        then (read_text (operand i.operands 1) >>= λ q. done (fix_move q i))
        else fix_three i)

unfoldable pub fix_instr : Instr → Result Instr
fix_instr i = if i.encoding == 0x10 then fix_ir i else done i

unfoldable pub fix_instrs : List Instr → Result (List Instr)
fix_instrs [] = done []
fix_instrs (i ∷ is) = do i' ← fix_instr i; is' ← fix_instrs is; done (i' ∷ is')
