-- ===== src/Expression/Parser/Spine.antt =====
-- Reading a printed tree back, one construct at a time.
use ncore.Common.{
  ℕ, zero, suc, ◌+◌, ◌≤◌, ◌≡◌, refl, sym, ap, ◌∙◌, none, some, List, [], ◌∷◌, true, false, ltb,
  arith, Bool-cases, Option-cases, inl, inr,
}
use Prim.Native.Nat.{max}
use ncore.Expression.Tokens.{token_operator}
use ncore.Expression.Parser.{
  Operator, Engine, Node, Tokens, parsed, and_then, peek, at_end, nil_token, seen, continuation,
  ends, applies, is_too_deep, parse_expression, parse_binary_expression, binary_loop,
  is_type_operator, is_type_lparen, binary_op_node,
}
use ncore.Expression.Parser.Print.{token, print, nesting, weight}

-- What stands behind an operand: no parenthesis that would make a name a call, and no operator
-- that binds tighter than `q`.
abbrev pub NotCall : Tokens → Type 0
NotCall ts = elim (peek ts) [
  | at_end ↦ Unit
  | nil_token ↦ ⊥
  | seen t rest ↦ is_type_lparen t.type ≡ false
]

abbrev pub Follows : Engine → ℕ → Tokens → Type 0
Follows p q rest = NotCall rest × (continuation p (q + 1) rest ≡ ends)

abbrev pub IsFlat : Engine → ℕ → Type 0
IsFlat p depth = is_too_deep p depth ≡ false

pub IsFlat-le : (p : Engine) (d e : ℕ) → d ≤ e → IsFlat p e → IsFlat p d
unfolding is_too_deep
IsFlat-le p d e le h = ground (arith, le, h)

pub continuation_mono :
    (p : Engine) (q r : ℕ) (rest : Tokens)
    → q ≤ r
    → continuation p q rest ≡ ends
    → continuation p r rest ≡ ends
unfolding continuation
continuation_mono p q r [] le h = refl
continuation_mono p q r (none ∷ rest) le h = h
continuation_mono p q r (some t ∷ rest) le h = elim (Bool-cases (is_type_operator t.type)) [
  | inr other ↦ rw (other, continuation) refl
  | inl op_type ↦ elim (Option-cases (p.operators t.value)) [
    | inl unknown ↦ rw (op_type, continuation, unknown, continuation) refl
    | inr (op, known) ↦ elim (Bool-cases (ltb op.precedence r)) [
      | inl low ↦ rw (op_type, continuation, known, continuation, low, continuation) refl
      | inr high ↦
          let higher : ltb op.precedence q ≡ false = ground (arith, le, high) in
          absurd (
            applies_ne
              (sym (rw (op_type, continuation, known, continuation, higher, continuation) at h)))
    ]
  ]
]
  where
    applies_ne : {op : Operator} {ts : Tokens} → ¬ (ends ≡ applies op ts)
    applies_ne e = cc

-- From a tree's tokens the parser comes to its loop with that tree in hand.
abbrev pub ReadsAt : Engine → (ℕ → List ℕ) → ℕ → Node → ℕ → ℕ → ℕ → Tokens → Type 0
ReadsAt p show q t prec d fuel rest =
    (left : ℕ) × (fuel ≤ weight q t + left)
    × (parse_binary_expression p fuel d prec (print show q t rest)
        ≡ binary_loop p left d prec t rest)

abbrev pub IsRead : Engine → (ℕ → List ℕ) → Node → Type 0
IsRead p show t =
    (q prec d fuel : ℕ) (rest : Tokens)
    → prec ≤ q
    → IsFlat p (d + nesting q t)
    → Follows p q rest
    → weight q t ≤ fuel
    → ReadsAt p show q t prec d fuel rest

pub positive : (n : ℕ) → 1 ≤ n → (m : ℕ) × (n ≡ suc m)
positive zero h = absurd (omega (arith, h))
positive (suc m) h = (m, refl)

module _ (p : Engine) (show : ℕ → List ℕ) where
  pub loop-ends :
      (fuel d prec : ℕ) (t : Node) (rest : Tokens)
      → 1 ≤ fuel
      → continuation p prec rest ≡ ends
      → binary_loop p fuel d prec t rest ≡ parsed t rest
  unfolding parse_expression
  loop-ends zero d prec t rest some_fuel stop = absurd (omega (arith, some_fuel))
  loop-ends (suc fuel) d prec t rest some_fuel stop = rw (stop, binary_loop) refl

  loop-applies :
      (fuel d prec : ℕ) (op : Operator) (l : Node) (ts : Tokens)
      → p.operators op.name ≡ some op
      → prec ≤ op.precedence
      → binary_loop p (suc fuel) d prec l (token token_operator op.name ∷ ts)
        ≡ and_then
            (parse_binary_expression p fuel d (op.precedence + 1) ts)
            (λ right rest. binary_loop p fuel d prec (binary_op_node op l right) rest)
  unfolding parse_expression continuation
  loop-applies fuel d prec op l ts known le =
      let high : ltb op.precedence prec ≡ false = ground (arith, le) in
      rw (known, high, parse_expression) refl

  -- an operation without its parentheses
  pub operation_read :
      (op : Operator) (l r : Node)
      → IsRead p show l
      → IsRead p show r
      → p.operators op.name ≡ some op
      → (prec d fuel : ℕ) (rest : Tokens) → prec ≤ op.precedence
      → IsFlat p (d + max (nesting op.precedence l) (nesting (op.precedence + 1) r))
      → NotCall rest
      → continuation p (op.precedence + 1) rest ≡ ends
      → weight op.precedence l + weight (op.precedence + 1) r + 2 ≤ fuel
      → (left : ℕ) × (fuel ≤ weight op.precedence l + 1 + left)
        × (parse_binary_expression p fuel d prec (
              print show op.precedence l
                (token token_operator op.name ∷ print show (op.precedence + 1) r rest))
            ≡ binary_loop p left d prec (binary_op_node op l r) rest)
  unfolding continuation
  operation_read op l r read_l read_r known prec d fuel rest le flat no_call stop enough =
      let q = op.precedence in
      let ts = print show (q + 1) r rest in
      let same : ltb q (q + 1) ≡ true = ground arith in
      let next : continuation p (q + 1) (token token_operator op.name ∷ ts) ≡ ends =
        rw (known, same) refl in
      let first =
        read_l q prec d fuel (token token_operator op.name ∷ ts) le
          (IsFlat-le p _ _ (omega arith) flat) (refl, next) (omega (arith, enough)) in
      let (m, is_suc) = positive first.0 (omega (arith, first.1, enough)) in
      let second =
        read_r (q + 1) (q + 1) d m rest (omega arith) (IsFlat-le p _ _ (omega arith) flat)
          (no_call, continuation_mono p (q + 1) (q + 1 + 1) rest (omega arith) stop)
          (omega (arith, first.1, enough, is_suc)) in
      let ended =
        loop-ends second.0 d (q + 1) r rest (omega (arith, second.1, first.1, enough, is_suc))
          stop in
      (
        m,
        omega (arith, first.1, is_suc),
        first.2
            ∙ ap (λ f. binary_loop p f d prec l (token token_operator op.name ∷ ts)) is_suc
            ∙ loop-applies m d prec op l ts known le
            ∙ ap
                (λ x.
                  and_then x
                    (λ right rest'. binary_loop p m d prec (binary_op_node op l right) rest'))
                (second.2 ∙ ended),
      )
