-- ===== src/Asm/Operands.antt =====
-- The operands of an instruction, as assembler/encoder.c reads them: registers.
pub mod Registers
use aru_xi.Base.{
  ℕ, zero, suc, ◌+◌, ◌-◌, ◌*◌, Bool, ◌&&◌, ◌||◌, ◌==◌, leb, if◌then◌else◌, List, [], ◌∷◌, u8,
}
use Prim.Native.String.{String}
use aru_xi.Base.Text.{Text, codes, str_case_eq}

-- `crashed` is a read through a null pointer.
pub data Result (A : Type 0) : Type 0 where
  done : A → Result A
  fatal crashed : Result A

infixl 5 ◌>>=◌
abbrev pub ◌>>=◌ : {A B : Type 0} → Result A → (A → Result B) → Result B
done a >>= f = f a
fatal >>= f = fatal
crashed >>= f = crashed

-- An entry of `operands`: the null pointer at its end, the mark 0xFEEDFAED, or a string.
pub data Operand : Type 0 where
  null absent : Operand
  text : Text → Operand

-- `instr_obj_t`; its `source` is only shown.
pub record Instr : Type 0 where
  pub addr : ℕ
  pub encoding : ℕ
  pub instr : Text
  pub operands : List Operand

unfoldable pub operand : List Operand → ℕ → Operand
operand [] i = null
operand (o ∷ os) zero = o
operand (o ∷ os) (suc i) = operand os i

abbrev pub is_digit : ℕ → Bool
is_digit c = leb b'0' c && leb c b'9'

unfoldable pub decimal : ℕ → Text → ℕ
decimal acc [] = acc
decimal acc (c ∷ s) =
    let rest = decimal (acc * 10 + (c - b'0')) s in if is_digit c then rest else acc

unfoldable pub skip_space : Text → Text
skip_space [] = []
skip_space (c ∷ s) =
    let rest = skip_space s in if (leb 9 c && leb c 13) || c == 32 then rest else c ∷ s

unfoldable pub signed_decimal : Text → ℕ
signed_decimal [] = 0
signed_decimal (c ∷ r) =
    if c == b'-'
    then u8 (256 - u8 (decimal 0 r))
    else (if c == b'+' then u8 (decimal 0 r) else u8 (decimal 0 (c ∷ r)))

-- `(uint8_t) atoi(s)`
unfoldable pub atoi8 : Text → ℕ
atoi8 s = signed_decimal (skip_space s)

abbrev pub named : Text → String → Bool
named s name = str_case_eq s (codes name)

-- `getRegisterEncoding` behind its first test.
unfoldable pub register_number : Text → ℕ
register_number reg =
    let by_letter : ℕ = elim reg [
      | [] ↦ 0
      | c ∷ r ↦
          if c == b'x' || c == b'X' || c == b'a' || c == b'A'
          then atoi8 r
          else (if c == b'c' || c == b'C'
              then u8 (atoi8 r + 12)
              else (if c == b's' || c == b'S' then u8 (atoi8 r + 17) else 0))
    ] in
    if named reg "xr"
    then 0
    else (if named reg "lr"
        then 28
        else (if named reg "xb"
            then 29
            else (if named reg "xz" then 30 else (if named reg "sp" then 31 else by_letter))))

unfoldable pub get_register_encoding : Operand → Result ℕ
get_register_encoding null = crashed
get_register_encoding absent = done 30
get_register_encoding (text reg) = done (register_number reg)
