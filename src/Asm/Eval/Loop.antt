-- ===== src/Asm/Eval/Loop.antt =====
-- The loop of assembler/evaluator.c that climbs the precedences: its rounds, its end, its fuel.
use aru_xi.Base.{
  ℕ, suc, ◌+◌, ◌-◌, ◌*◌, ◌≤◌, ◌<◌, true, leb, if◌then◌else◌, Option, none, some, List, [], ◌∷◌,
  ◌++◌, ◌≡◌, refl, ◌∙◌, arith, lt→ltb,
}
use aru_xi.Base.Text.{Text, str_eq}
use aru_xi.Asm.Symbols.{SymbolTable}
use aru_xi.Asm.Lexer.{Token, end, int, symb, op, lparen, rparen, next_token}
use aru_xi.Asm.Eval.{
  returned, ◌>>=◌, State, Run, or_trap, precedence, apply_op, combine, loop_round, loop_step, parse,
  eval_at, eval_loop,
}
use aru_xi.Asm.Eval.Tree.{
  BinOp, sign, below, level, Expr, num, name, neg, inv, bin, tokens, both, value_of, mark_all,
  Yields,
}
use aru_xi.Asm.Eval.Known.{Known}

abbrev pub going : Token → Text → SymbolTable → State
going t s table = record { input = s; curr = t; table = table; can_eval = true }

abbrev pub token_level : Token → ℕ
token_level (op o) = precedence o
token_level t = 0

pub precedence-sign : (o : BinOp) → precedence (sign o) ≡ level o
unfolding precedence str_eq
precedence-sign BinOp.or = refl
precedence-sign BinOp.xor = refl
precedence-sign BinOp.and = refl
precedence-sign BinOp.shl = refl
precedence-sign BinOp.shr = refl
precedence-sign BinOp.add = refl
precedence-sign BinOp.sub = refl
precedence-sign BinOp.mul = refl
precedence-sign BinOp.div = refl

pub level-le : (o : BinOp) → leb (level o) 6 ≡ true
level-le BinOp.or = refl
level-le BinOp.xor = refl
level-le BinOp.and = refl
level-le BinOp.shl = refl
level-le BinOp.shr = refl
level-le BinOp.add = refl
level-le BinOp.sub = refl
level-le BinOp.mul = refl
level-le BinOp.div = refl

-- The rounds of the loop that stand between the first operand of an expression and its end.
unfoldable pub steps : ℕ → Expr → ℕ
steps p (bin o a b) = let more = suc (steps (below o) a) in if leb (level o) p then 0 else more
steps p _ = 0

-- Fuel that is enough.
unfoldable pub cost : Expr → ℕ
cost (num v) = 1
cost (name s) = 1
cost (neg e) = suc (cost e)
cost (inv e) = suc (cost e)
cost (bin o a b) = 4 + 2 * (cost a + cost b)

pub cost_pos : (e : Expr) → 1 ≤ cost e
unfolding cost
cost_pos (num v) = omega arith
cost_pos (name s) = omega arith
cost_pos (neg e) = omega arith
cost_pos (inv e) = omega arith
cost_pos (bin o a b) = omega arith

pub steps-le-cost : (p : ℕ) (e : Expr) → steps p e ≤ cost e
unfolding cost steps
steps-le-cost p (num v) = omega arith
steps-le-cost p (name s) = omega arith
steps-le-cost p (neg e) = omega arith
steps-le-cost p (inv e) = omega arith
steps-le-cost p (bin o a b) = ground (arith, steps-le-cost (below o) a)

pub Yields-append :
    (ts : List Token) (x : Token) (us : List Token) (t t' : Token) (s s' : Text)
    → Yields t s (ts ++ x ∷ us) t' s'
    → (s1 : Text) × Yields t s ts x s1 × Yields (next_token s1).0 (next_token s1).1 us t' s'
Yields-append [] x us t t' s s' h = (s, (h.0, refl), h.1)
Yields-append (y ∷ ts) x us t t' s s' h =
    let (s1, front, back) = Yields-append ts x us (next_token s).0 t' (next_token s).1 s' h.1 in
    (s1, (h.0, front), back)

-- `_eval` after its first unit of fuel.
abbrev pub run : ℕ → ℕ → State → Run
run n p st = parse n st >>= λ r. eval_loop n p r.0 r.1

pub loop_end :
    (k p v : ℕ) (t : Token) (s : Text) (table : SymbolTable)
    → token_level t ≤ p
    → eval_loop (suc k) p v (going t s table) ≡ returned (v, going t s table)
unfolding eval_loop loop_step
loop_end k p v (op o) s table h = ground arith
loop_end k p v end s table h = refl
loop_end k p v lparen s table h = refl
loop_end k p v rparen s table h = refl
loop_end k p v (int n) s table h = refl
loop_end k p v (symb n) s table h = refl

pub loop_on :
    (o : BinOp) (k p v : ℕ) (s : Text) (table : SymbolTable)
    → p < level o
    → eval_loop (suc k) p v (going (op (sign o)) s table)
      ≡ loop_round (eval_at k) (eval_loop k p) (sign o) v (going (op (sign o)) s table)
unfolding eval_loop loop_step
loop_on o k p v s table h = rw (precedence-sign o, lt→ltb p (level o) h) refl

-- What goes on with a value, and nothing after a trap.
abbrev pub after : Option ℕ → (ℕ → Run) → Run
after x k = or_trap x >>= k

pub after_cong : (x : Option ℕ) (k k' : ℕ → Run) → ((v : ℕ) → k v ≡ k' v) → after x k ≡ after x k'
after_cong none k k' h = refl
after_cong (some v) k k' h = h v

pub after-both :
    (f : ℕ → ℕ → Option ℕ) (x y : Option ℕ) (k : ℕ → Run)
    → after x (λ l. after y (λ r. after (f l r) k)) ≡ after (both f x y) k
after-both f none y k = refl
after-both f (some l) none k = refl
after-both f (some l) (some r) k = refl

pub after_returned :
    (x : Option ℕ) (st : State) (k : ℕ × State → Run)
    → ((or_trap x >>= (λ v. returned (v, st))) >>= k) ≡ after x (λ v. k (v, st))
after_returned none st k = refl
after_returned (some v) st k = refl

pub after-combine :
    (o : Text) (l : ℕ) (y : Option ℕ) (t : Token) (s : Text) (table : SymbolTable)
    (k : ℕ × State → Run)
    → ((after y (λ r. returned (r, going t s table)) >>= combine o l) >>= k)
      ≡ after y (λ r. after (apply_op o l r) (λ v. k (v, going t s table)))
unfolding combine
after-combine o l none t s table k = refl
after-combine o l (some r) t s table k = after_returned (apply_op o l r) (going t s table) k

module _ (env : Text → ℕ) where
  -- `parse` reads the expression as one operand.
  abbrev pub IsOperand : Expr → Type 0
  IsOperand e =
      (k : ℕ) (t t' : Token) (s s' : Text) (table : SymbolTable)
      → cost e ≤ k
      → Yields t s (tokens 6 e) t' s'
      → Known env table e
      → parse k (going t s table)
        ≡ after (value_of env e) (λ v. returned (v, going t' s' (mark_all e table)))

  -- `_eval` reads the expression and is then in its loop.
  abbrev pub Climbs : Expr → Type 0
  Climbs e =
      (q p k : ℕ) (t t' : Token) (s s' : Text) (table : SymbolTable)
      → p ≤ q
      → cost e ≤ k
      → Yields t s (tokens q e) t' s'
      → Known env table e
      → token_level t' ≤ suc q
      → run (steps q e + k) p (going t s table)
        ≡ after (value_of env e) (λ v. eval_loop k p v (going t' s' (mark_all e table)))

  pub eval_at-Climbs :
      (e : Expr) (p k : ℕ) (t t' : Token) (s s' : Text) (table : SymbolTable)
      → Climbs e
      → 2 * cost e + 2 ≤ k
      → Yields t s (tokens p e) t' s'
      → Known env table e
      → token_level t' ≤ p
      → eval_at k p (going t s table)
        ≡ after (value_of env e) (λ v. returned (v, going t' s' (mark_all e table)))
  unfolding eval_at
  eval_at-Climbs e p k t t' s s' table climbs fuel y known low =
      let m = k - 2 - steps p e in
      let spent = steps-le-cost p e in
      let split : k ≡ suc (steps p e + suc m) = omega arith in
      rw split (
        climbs p p (suc m) t t' s s' table (omega arith) (omega arith) y known (omega arith)
        ∙ after_cong (value_of env e) _ _ (λ v. loop_end m p v t' s' (mark_all e table) low))
