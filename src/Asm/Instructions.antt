-- ===== src/Asm/Instructions.antt =====
-- The instructions of assembler/lexer-parser.c, other than loads and stores.
--
-- A handler adds the objects of an instruction to the stream; the caller then moves the location
-- pointer by one word.

pub mod Memory
pub mod Handle
pub mod Addresses
pub mod Extended
pub mod Tests
use aru_xi.Base.{
  ℕ, zero, suc, ◌+◌, Bool, true, false, ◌||◌, ◌==◌, if◌then◌else◌, Option, none, some, List, [],
  ◌∷◌, ◌++◌,
}
use Prim.Native.String.{String}
use aru_xi.Base.Text.{Text, codes, str_eq}
use aru_xi.Asm.Operands.{
  Result, done, fatal, crashed, ◌>>=◌, Operand, null, absent, text, Instr, operand,
}
use aru_xi.Asm.Strtok.{strtok}
use aru_xi.Asm.Tables.{active_lp, init_instr_obj, add_instr_obj}
use aru_xi.Asm.Words.{valid_conds}
use aru_xi.Asm.Names.{first_char, is_among, validate_register}
use aru_xi.Asm.Directives.{Assembly, blanks, comma, expect, expect_end}

abbrev pub separators : Text
separators = blanks ++ comma

-- An object behind those of the stream, `ahead` bytes behind the location pointer.
unfoldable pub emit : ℕ → Text → List Operand → ℕ → Assembly → Assembly
emit ahead instr operands encoding a = record a {
  stream =
      add_instr_obj a.stream
        (init_instr_obj (active_lp a.sections + ahead) instr operands encoding);
}

abbrev pub named_reg : String → Operand
named_reg name = text (codes name)

-- The next register among the arguments.
unfoldable pub take_register : Text → Result (Text × Text)
take_register args = do
  (reg, rest) ← expect (strtok separators args)
  _ ← validate_register reg
  done (reg, rest)

-- `nop` in capitals is let through and has no operands.
unfoldable pub handle_i : Text → Text → Assembly → Result Assembly
handle_i instr args a =
    if str_eq instr (codes "nop")
    then (expect_end (strtok separators args) >>= λ ok.
        done (emit 0 instr (named_reg "xz" ∷ named_reg "xz" ∷ named_reg "#0" ∷ null ∷ []) 0x0 a))
    else done (emit 0 instr (null ∷ null ∷ null ∷ null ∷ []) 0x0 a)

-- What follows the third register is not looked at.
unfoldable pub handle_r : Text → Text → Assembly → Result Assembly
handle_r instr args a = do
  (xd, args1) ← take_register args
  (xs, args2) ← take_register args1
  (xr, args3) ← take_register args2
  done (emit 0 instr (text xd ∷ text xs ∷ text xr ∷ null ∷ []) 0x1 a)

abbrev pub or_absent : Option Text → Operand
or_absent none = absent
or_absent (some s) = text s

-- The destination; a comparison has none.
unfoldable pub ir_destination : Text → Text → Result (Text × Text)
ir_destination instr args =
    if first_char instr == b'c' then done (codes "xz", args) else take_register args

unfoldable pub handle_ir : Text → Text → Assembly → Result Assembly
handle_ir instr args a = do
  (xd, args1) ← ir_destination instr args
  (first, args2) ← expect (strtok separators args1)
  let second = strtok separators args2
  _ ← expect_end (strtok separators second.1)
  done (emit 0 instr (text xd ∷ text first ∷ or_absent second.0 ∷ null ∷ []) 0x10 a)

unfoldable pub not_immediate : Text → Result (Unit {0})
not_immediate s = if first_char s == b'#' then fatal else done tt

unfoldable pub handle_bi : Text → Text → Assembly → Result Assembly
handle_bi instr args a = do
  (target, rest) ← expect (strtok blanks args)
  _ ← not_immediate target
  _ ← expect_end (strtok separators rest)
  done (emit 0 instr (text target ∷ null ∷ []) 0x3 a)

unfoldable pub bu_register : Option Text → Result Operand
bu_register none = done (named_reg "lr")
bu_register (some xd) = validate_register xd >>= λ ok. done (text xd)

unfoldable pub handle_bu : Text → Text → Assembly → Result Assembly
handle_bu instr args a = do
  reg ← bu_register (strtok separators args).0
  done (emit 0 instr (reg ∷ null ∷ []) 0x4 a)

abbrev pub rest_chars : Text → Text
rest_chars [] = []
rest_chars (c ∷ s) = s

unfoldable pub handle_bc : Text → Text → Assembly → Result Assembly
handle_bc instr args a =
    if is_among valid_conds (rest_chars instr) then handle_bi instr args a else fatal

-- Only the instructions on special registers have an operand.
unfoldable pub s_operand : Text → Text → Result (Operand × Text)
s_operand instr args =
    if first_char instr == b'l' || first_char instr == b'm' || first_char instr == b'r'
    then (do
      (reg, rest) ← expect (strtok blanks args)
      _ ← validate_register reg
      done (text reg, rest))
    else done (null, args)

unfoldable pub handle_s : Text → Text → Assembly → Result Assembly
handle_s instr args a = do
  (reg, rest) ← s_operand instr args
  _ ← expect_end (strtok separators rest)
  done (emit 0 instr (reg ∷ null ∷ []) 0x5 a)
