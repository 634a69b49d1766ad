-- ===== src/Asm/Outcome.antt =====
-- Postconditions of what assembler/encoder.c and assembler/lexer-parser.c do where they go on.
use mathlib.Core.Path.{subst}
use aru_xi.Base.{Bool, true, false, if◌then◌else◌, ◌≡◌, refl}
use aru_xi.Asm.Operands.{Result, done, fatal, crashed, ◌>>=◌}

-- The result, if there is one, satisfies `P`.
pub data Ensures {A : Type 0} (P : A → Type 0) : Result A → Type 0 where
  holds : {a : A} → P a → Ensures P (done a)
  ended : Ensures P fatal
  broken : Ensures P crashed

pub Ensures-done :
    {A : Type 0} {P : A → Type 0} {r : Result A} {a : A} → Ensures P r → r ≡ done a → P a
Ensures-done {P} (holds h) e = subst P (cc) h
Ensures-done ended e = cc
Ensures-done broken e = cc

pub Ensures-bind :
    {A B : Type 0} {P : B → Type 0} (r : Result A) {f : A → Result B}
    → ((a : A) → Ensures P (f a))
    → Ensures P (r >>= f)
Ensures-bind (done a) h = h a
Ensures-bind fatal h = ended
Ensures-bind crashed h = broken

-- What is known of the first result is at hand in the second.
pub Ensures-chain :
    {A B : Type 0} {Q : A → Type 0} {P : B → Type 0} {r : Result A} {f : A → Result B}
    → Ensures Q r
    → ((a : A) → Q a → Ensures P (f a))
    → Ensures P (r >>= f)
Ensures-chain (holds {a} q) h = h a q
Ensures-chain ended h = ended
Ensures-chain broken h = broken

pub Ensures-if :
    {A : Type 0} {P : A → Type 0} (b : Bool) {x y : Result A}
    → (b ≡ true → Ensures P x)
    → (b ≡ false → Ensures P y)
    → Ensures P (if b then x else y)
Ensures-if true hx hy = hx refl
Ensures-if false hx hy = hy refl

pub Ensures-weaken :
    {A : Type 0} {P Q : A → Type 0} {r : Result A}
    → Ensures P r
    → ((a : A) → P a → Q a)
    → Ensures Q r
Ensures-weaken (holds {a} p) h = holds (h a p)
Ensures-weaken ended h = ended
Ensures-weaken broken h = broken
