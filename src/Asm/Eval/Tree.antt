-- ===== src/Asm/Eval/Tree.antt =====
-- What an expression of assembler/evaluator.c means: trees, their tokens with as few parentheses as
-- the precedences allow, and their values.
use aru_xi.Base.{ℕ, suc, ◌-◌, ◌^◌, if◌then◌else◌, leb, Option, none, some, List, [], ◌∷◌, ◌++◌, ◌≡◌}
use aru_xi.Base.Text.{Text, codes}
use aru_xi.Asm.Symbols.{SymbolTable}
use aru_xi.Asm.Lexer.{Token, int, symb, op, lparen, rparen, next_token}
use aru_xi.Asm.Eval.{neg32, apply_op, mark}

pub data BinOp : Type 0 where
  or xor and shl shr add sub mul div : BinOp

abbrev pub sign : BinOp → Text
sign or = codes "|"
sign xor = codes "^"
sign and = codes "&"
sign shl = codes "<<"
sign shr = codes ">>"
sign add = codes "+"
sign sub = codes "-"
sign mul = codes "*"
sign div = codes "/"

-- One below the precedence of the operator.
abbrev pub below : BinOp → ℕ
below or = 0
below xor = 1
below and = 2
below shl = 3
below shr = 3
below add = 4
below sub = 4
below mul = 5
below div = 5

abbrev pub level : BinOp → ℕ
level o = suc (below o)

pub data Expr : Type 0 where
  num : ℕ → Expr
  name : Text → Expr
  neg inv : Expr → Expr
  bin : BinOp → Expr → Expr → Expr

abbrev pub paren : List Token → List Token
paren ts = lparen ∷ (ts ++ rparen ∷ [])

-- The tokens of an expression where an operator of precedence `p` or less needs parentheses.
unfoldable pub tokens : ℕ → Expr → List Token
tokens p (num v) = int v ∷ []
tokens p (name s) = symb s ∷ []
tokens p (neg e) = op (codes "-") ∷ tokens 6 e
tokens p (inv e) = op (codes "~") ∷ tokens 6 e
tokens p (bin o a b) =
    let inner = tokens (below o) a ++ op (sign o) ∷ tokens (level o) b in
    if leb (level o) p then paren inner else inner

abbrev pub both : (ℕ → ℕ → Option ℕ) → Option ℕ → Option ℕ → Option ℕ
both f none y = none
both f (some l) none = none
both f (some l) (some r) = f l r

abbrev pub through : (ℕ → ℕ) → Option ℕ → Option ℕ
through f none = none
through f (some v) = some (f v)

module _ (env : Text → ℕ) where
  -- The value, where no division traps.
  unfoldable pub value_of : Expr → Option ℕ
  value_of (num v) = some v
  value_of (name s) = some (env s)
  value_of (neg e) = through neg32 (value_of e)
  value_of (inv e) = through (λ v. 2 ^ 32 - 1 - v) (value_of e)
  value_of (bin o a b) = both (apply_op (sign o)) (value_of a) (value_of b)

-- The table with every symbol of the expression marked as referenced, from left to right.
unfoldable pub mark_all : Expr → SymbolTable → SymbolTable
mark_all (num v) t = t
mark_all (name s) t = mark s t
mark_all (neg e) t = mark_all e t
mark_all (inv e) t = mark_all e t
mark_all (bin o a b) t = mark_all b (mark_all a t)

-- The lexer at `t`, with the text `s` behind it, comes past the tokens `ts` to `t'` and `s'`.
abbrev pub Yields : Token → Text → List Token → Token → Text → Type 0
Yields t s [] t' s' = (t ≡ t') × (s ≡ s')
Yields t s (x ∷ ts) t' s' = (t ≡ x) × Yields (next_token s).0 (next_token s).1 ts t' s'
