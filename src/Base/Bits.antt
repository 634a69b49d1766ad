-- ===== src/Base/Bits.antt =====
-- `|`, `&` and shifts as arithmetic, at every width.
use Prim.Native.Nat.{
  ℕ, zero, suc, ◌+◌, ◌-◌, ◌*◌, ◌/◌, ◌%◌, ◌^◌, ◌≤◌, ◌<◌, min, max, bitwise, digits,
}
use Prim.Native.Nat.{bit_and, bit_or, bit_and-bitwise, bit_or-bitwise}
use mathlib.Core.Path.{◌≡◌, refl, ap, ◌∙◌}
use mathlib.Core.Logic.{◌≢◌}
use native.Mathlib.Nat.{mul_comm}
use native.Mathlib.Omega.{arith}
use native.Mathlib.Nat.{pow-suc, one-le-pow, div-div-eq-div-mul}
use aru_xi.Base.Word.{◌<<<◌}

-- What the two operations share: `op` on two binary digits, and `rest` of the second word where the
-- first has no digits left.
module _ (rest : ℕ → ℕ) (op : ℕ → ℕ → ℕ) where
  -- Fuel beyond the first word makes no difference.
  digits-surplus :
      (x y more less : ℕ)
      → x ≤ less
      → less ≤ more
      → digits rest op more x y ≡ digits rest op less x y
  digits-surplus zero y zero zero fit le = refl
  digits-surplus zero y zero (suc less) fit le = absurd (omega arith)
  digits-surplus zero y (suc more) zero fit le = refl
  digits-surplus zero y (suc more) (suc less) fit le = refl
  digits-surplus (suc x) y more zero fit le = absurd (omega arith)
  digits-surplus (suc x) y zero (suc less) fit le = absurd (omega arith)
  digits-surplus (suc x) y (suc more) (suc less) fit le =
      ap (λ (w : ℕ). w * 2 + op (suc x % 2) (y % 2))
        (digits-surplus (suc x / 2) (y / 2) more less (omega arith) (omega arith))

  bitwise-step :
      ((w : ℕ) → rest w ≡ rest (w / 2) * 2 + op 0 (w % 2))
      → (x y : ℕ) → bitwise rest op x y ≡ bitwise rest op (x / 2) (y / 2) * 2 + op (x % 2) (y % 2)
  bitwise-step base zero y = base y
  bitwise-step base (suc x) y =
      ap (λ (w : ℕ). w * 2 + op (suc x % 2) (y % 2))
        (digits-surplus (suc x / 2) (y / 2) x (suc x / 2) (omega arith) (omega arith))

pub bit_or_step : (x y : ℕ) → bit_or x y ≡ bit_or (x / 2) (y / 2) * 2 + max (x % 2) (y % 2)
bit_or_step x y = simp bit_or-bitwise (bitwise-step (λ w. w) max (λ w. omega arith) x y)

pub bit_and_step : (x y : ℕ) → bit_and x y ≡ bit_and (x / 2) (y / 2) * 2 + min (x % 2) (y % 2)
bit_and_step x y = simp bit_and-bitwise (bitwise-step (λ w. 0) min (λ w. omega arith) x y)

-- The binary digit at place `j`.
abbrev pub digit : ℕ → ℕ → ℕ
digit a j = a / 2 ^ j % 2

pub digit-suc : (a j : ℕ) → digit a (suc j) ≡ digit (a / 2) j
digit-suc a j = rw (pow-suc 2 j, mul_comm (2 ^ j) 2, ← div-div-eq-div-mul a 2 (2 ^ j))

pub digit-bit_or : (j a b : ℕ) → digit (bit_or a b) j ≡ max (digit a j) (digit b j)
digit-bit_or zero a b = omega (arith, bit_or_step a b)
digit-bit_or (suc j) a b =
    let half : bit_or a b / 2 ≡ bit_or (a / 2) (b / 2) = omega (arith, bit_or_step a b) in
    rw (digit-suc (bit_or a b) j, digit-suc a j, digit-suc b j, half)
      (digit-bit_or j (a / 2) (b / 2))

pub digit-bit_and : (j a b : ℕ) → digit (bit_and a b) j ≡ min (digit a j) (digit b j)
digit-bit_and zero a b = omega (arith, bit_and_step a b)
digit-bit_and (suc j) a b =
    let half : bit_and a b / 2 ≡ bit_and (a / 2) (b / 2) = omega (arith, bit_and_step a b) in
    rw (digit-suc (bit_and a b) j, digit-suc a j, digit-suc b j, half)
      (digit-bit_and j (a / 2) (b / 2))

pub digit-pow_self : (i : ℕ) → digit (2 ^ i) i ≡ 1
digit-pow_self zero = refl
digit-pow_self (suc i) =
    let half : 2 ^ suc i / 2 ≡ 2 ^ i = omega (arith, pow-suc 2 i) in
    rw (digit-suc (2 ^ suc i) i, half) (digit-pow_self i)

zero-digit : (j : ℕ) → digit 0 j ≡ 0
zero-digit zero = refl
zero-digit (suc j) = rw (digit-suc 0 j) (zero-digit j)

one-digit : (j : ℕ) → digit 1 (suc j) ≡ 0
one-digit j = rw (digit-suc 1 j) (zero-digit j)

pub digit-pow_ne : (i j : ℕ) → i ≢ j → digit (2 ^ i) j ≡ 0
digit-pow_ne zero zero ne = absurd (ne refl)
digit-pow_ne zero (suc j) ne = one-digit j
digit-pow_ne (suc i) zero ne = omega (arith, pow-suc 2 i)
digit-pow_ne (suc i) (suc j) ne =
    let half : 2 ^ suc i / 2 ≡ 2 ^ i = omega (arith, pow-suc 2 i) in
    rw (digit-suc (2 ^ suc i) j, half) (digit-pow_ne i j (λ e. ne (ap suc e)))

-- One more place doubles a shifted word.
doubled : (hi j : ℕ) → hi * 2 ^ suc j ≡ 2 * (hi * 2 ^ j)
doubled hi j = ap (λ (w : ℕ). hi * w) (pow-suc 2 j) ∙ ground arith

or_nothing : (bound x : ℕ) → x ≤ bound → bit_or x 0 ≡ x
or_nothing bound zero le = refl
or_nothing zero (suc x) le = absurd (omega arith)
or_nothing (suc bound) (suc x) le =
    let half = or_nothing bound (suc x / 2) (omega arith) in omega (arith, bit_or_step (suc x) 0)

and_nothing : (bound x : ℕ) → x ≤ bound → bit_and x 0 ≡ 0
and_nothing bound zero le = refl
and_nothing zero (suc x) le = absurd (omega arith)
and_nothing (suc bound) (suc x) le =
    let half = and_nothing bound (suc x / 2) (omega arith) in omega (arith, bit_and_step (suc x) 0)

-- Two fields are joined without carry when the lower one fits its width.
pub bit_or_fields :
    (width hi lo : ℕ) → lo < 2 ^ width → bit_or (hi <<< width) lo ≡ hi * 2 ^ width + lo
bit_or_fields zero hi lo fits =
    let gone : lo ≡ 0 = omega arith in
    rw (gone, or_nothing (hi <<< 0) (hi <<< 0) (omega arith)) (omega arith)
bit_or_fields (suc width) hi lo fits =
    let lower = bit_or_fields width hi (lo / 2) (omega (arith, pow-suc 2 width)) in
    let step = bit_or_step (hi * 2 ^ suc width) lo in let shifted = doubled hi width in ground arith

-- A word in two fields, under the mask of the lower one.
lower_field :
    (width hi lo : ℕ) → lo < 2 ^ width → bit_and (hi * 2 ^ width + lo) (2 ^ width - 1) ≡ lo
lower_field zero hi lo fits =
    and_nothing (hi * 2 ^ 0 + lo) (hi * 2 ^ 0 + lo) (omega arith) ∙ omega arith
lower_field (suc width) hi lo fits =
    let below = lower_field width hi (lo / 2) (omega (arith, pow-suc 2 width)) in
    let step = bit_and_step (hi * 2 ^ suc width + lo) (2 ^ suc width - 1) in
    let shifted = doubled hi width in ground (arith, pow-suc 2 width)

-- A word in two fields, under a mask of bits of the higher one.
higher_field :
    (width hi lo mask : ℕ)
    → lo < 2 ^ width
    → bit_and (hi * 2 ^ width + lo) (mask * 2 ^ width) ≡ bit_and hi mask * 2 ^ width
higher_field zero hi lo mask fits =
    let all : hi * 1 + lo ≡ hi = omega arith in
    let same : mask * 1 ≡ mask = omega arith in rw (all, same) (omega arith)
higher_field (suc width) hi lo mask fits =
    let below = higher_field width hi (lo / 2) mask (omega (arith, pow-suc 2 width)) in
    let step = bit_and_step (hi * 2 ^ suc width + lo) (mask * 2 ^ suc width) in
    let first = doubled hi width in
    let second = doubled mask width in
    let third = doubled (bit_and hi mask) width in ground (arith, pow-suc 2 width)

-- A mask of the low bits takes the remainder.
pub bit_and_mask : (width x : ℕ) → bit_and x (2 ^ width - 1) ≡ x % 2 ^ width
bit_and_mask width x =
    let fields = lower_field width (x / 2 ^ width) (x % 2 ^ width) in
    ground (arith, one-le-pow width 2)

-- A mask of higher bits looks only at those.
pub bit_and_shift :
    (width x mask : ℕ) → bit_and x (mask * 2 ^ width) ≡ bit_and (x / 2 ^ width) mask * 2 ^ width
bit_and_shift width x mask =
    let fields = higher_field width (x / 2 ^ width) (x % 2 ^ width) mask in
    ground (arith, one-le-pow width 2)
