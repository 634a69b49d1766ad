-- ===== src/Asm/Stream.antt =====
-- The loop `encode` of assembler/encoder.c over the instruction stream, with `encodeSpecial`, which
-- rewrites the instructions that an `ld` of a label was split into.
pub mod Decimal
pub mod Numerals
pub mod Pieces
pub mod Places
pub mod Tests
use aru_xi.Base.{
  ℕ, zero, suc, ◌+◌, ◌-◌, ◌*◌, ◌/◌, ◌%◌, ◌^◌, Bool, true, false, ◌==◌, ltb, if◌then◌else◌, Option,
  none, some, List, [], ◌∷◌, length, ◌>>>◌,
}
use aru_xi.Base.Text.{Text, codes, str_eq}
use aru_xi.Asm.Operands.{
  Result, done, fatal, crashed, ◌>>=◌, Operand, null, absent, text, Instr, operand,
}
use aru_xi.Asm.Encoder.{Evaluator, evaluate, encode_i, encode_one}

-- `instrStream->instructions[i]`; what lies behind the array is not read in a well-formed stream.
unfoldable pub instr_at : List Instr → ℕ → Result Instr
instr_at [] i = crashed
instr_at (x ∷ rest) zero = done x
instr_at (x ∷ rest) (suc i) = instr_at rest i

unfoldable pub set_instr : List Instr → ℕ → Instr → List Instr
set_instr [] i y = []
set_instr (x ∷ rest) zero y = y ∷ rest
set_instr (x ∷ rest) (suc i) y = x ∷ set_instr rest i y

unfoldable pub set_operand : List Operand → ℕ → Operand → List Operand
set_operand [] i o = []
set_operand (x ∷ rest) zero o = o ∷ rest
set_operand (x ∷ rest) (suc i) o = x ∷ set_operand rest i o

-- The digits of `%u`, before those in `behind`. Ten digits are enough for 32 bits.
unfoldable pub digits_of : ℕ → ℕ → Text → Text
digits_of zero n behind = behind
digits_of (suc fuel) n behind =
    let more = digits_of fuel (n / 10) ((b'0' + n % 10) ∷ behind) in
    if ltb n 10 then (b'0' + n) ∷ behind else more

unfoldable pub print_u : ℕ → Text
print_u n = digits_of 10 n []

-- `sprintf(s, "#%u", n)`
unfoldable pub print_imm : ℕ → Operand
print_imm n = text (b'#' ∷ print_u n)

-- `immh`, `immm` and `imml`.
unfoldable pub high_piece : ℕ → ℕ
high_piece imm = (imm >>> 18) % 2 ^ 14

unfoldable pub middle_piece : ℕ → ℕ
middle_piece imm = (imm >>> 4) % 2 ^ 14

unfoldable pub low_piece : ℕ → ℕ
low_piece imm = imm % 2 ^ 4

-- The test of a placeholder, and what takes its place.
unfoldable pub fill : Operand → ℕ → Instr → Result Instr
fill null n i = crashed
fill absent n i = crashed
fill (text s) n i =
    if str_eq s (codes "#o0")
    then done (record i { operands = set_operand i.operands 2 (print_imm n) })
    else fatal

unfoldable pub read_text : Operand → Result Text
read_text null = crashed
read_text absent = crashed
read_text (text s) = done s

module _ {S : Type 0} (ev : Evaluator S) where
  unfoldable pub encode_special : List Instr → ℕ → S → Result (List Instr × S)
  encode_special stream i st = do
    ld ← instr_at stream i
    expr ← if str_eq ld.instr (codes "ld") then read_text (operand ld.operands 2) else fatal
    (imm, st1) ← evaluate ev expr st
    let mv = record ld {
      instr = codes "mv";
      operands = set_operand ld.operands 2 (print_imm (high_piece imm));
    }
    middle ← instr_at stream (i + 2)
    filled ← fill (operand middle.operands 2) (middle_piece imm) middle
    last ← instr_at stream (i + 5)
    filled' ← fill (operand last.operands 2) (low_piece imm) last
    (word, st2) ← encode_i ev mv st1
    let head = set_instr stream i (record mv { encoding = word })
    done (set_instr (set_instr head (i + 2) filled) (i + 5) filled', st2)

  -- One round of the loop of `encode`. An instruction at address 0 is a placeholder of the tables.
  unfoldable pub encode_at : List Instr → ℕ → S → Result (List Instr × S)
  encode_at stream i st = do
    instr ← instr_at stream i
    let plain : Result (List Instr × S) =
        (encode_one ev instr st >>= λ r.
        done (set_instr stream i (record instr { encoding = r.0 }), r.1))
    if instr.addr == 0
        then done (stream, st)
        else (if instr.encoding == 0x11 then encode_special stream i st else plain)

  -- The rounds from `i` on, with the number that is left.
  unfoldable pub encode_from : ℕ → ℕ → List Instr → S → Result (List Instr × S)
  encode_from zero i stream st = done (stream, st)
  encode_from (suc left) i stream st =
      encode_at stream i st >>= λ r. encode_from left (suc i) r.0 r.1

  unfoldable pub encode : List Instr → S → Result (List Instr × S)
  encode stream st = encode_from (length stream) 0 stream st
