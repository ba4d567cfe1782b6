-- ===== src/Expression/Parser/Operands.antt =====
-- Reading back the operands and operations of a tree.
use ncore.Common.{
  ℕ, zero, suc, ◌+◌, ◌-◌, ◌≤◌, ◌≡◌, refl, ap, ◌∙◌, none, some, List, [], ◌∷◌, ltb, arith,
  Bool-cases, inl, inr,
}
use Prim.Native.Nat.{max}
use ncore.Expression.Tokens.{token_operator}
use ncore.Expression.Parser.{
  Operator, Engine, Node, Tokens, parsed, and_then, continuation, ends, close_paren,
  parse_expression, parse_binary_expression, binary_loop, parse_primary_expression,
  identifier_or_call, number_node, string_node, identifier_node, binary_op_node,
}
use ncore.Expression.Parser.Print.{token, lparen, rparen, print, nesting, weight}
use ncore.Expression.Parser.Spine.{
  NotCall, IsFlat, IsFlat-le, IsRead, continuation_mono, loop-ends, operation_read,
}

module _ (p : Engine) (show : ℕ → List ℕ) where
  -- what a primary expression gives
  pub from_primary :
      (fuel d prec : ℕ) (t : Node) (ts rest : Tokens)
      → parse_primary_expression p fuel d ts ≡ parsed t rest
      → parse_binary_expression p (suc fuel) d prec ts ≡ binary_loop p fuel d prec t rest
  unfolding parse_expression
  from_primary fuel d prec t ts rest e =
      ap (λ x. and_then x (λ left rest'. binary_loop p fuel d prec left rest')) e

  pub number-IsRead : (x : ℕ) → p.parse_float (show x) ≡ some x → IsRead p show (number_node x)
  unfolding weight print parse_expression
  number-IsRead x sound q prec d zero rest le flat follows enough = absurd (omega (arith, enough))
  number-IsRead x sound q prec d (suc zero) rest le flat follows enough =
      absurd (omega (arith, enough))
  number-IsRead x sound q prec d (suc (suc fuel)) rest le flat follows enough = (
    suc fuel,
    omega arith,
    from_primary (suc fuel) d prec (number_node x) (print show q (number_node x) rest) rest
        (rw (sound, parse_primary_expression) refl),
  )

  pub string-IsRead : (s : List ℕ) → IsRead p show (string_node s)
  unfolding weight print parse_expression
  string-IsRead s q prec d zero rest le flat follows enough = absurd (omega (arith, enough))
  string-IsRead s q prec d (suc zero) rest le flat follows enough = absurd (omega (arith, enough))
  string-IsRead s q prec d (suc (suc fuel)) rest le flat follows enough = (
    suc fuel,
    omega arith,
    from_primary (suc fuel) d prec (string_node s) (print show q (string_node s) rest) rest refl,
  )

  identifier-NotCall :
      (fuel d : ℕ) (name : List ℕ) (rest : Tokens)
      → NotCall rest
      → identifier_or_call p (suc fuel) d name rest ≡ parsed (identifier_node name) rest
  unfolding parse_expression
  identifier-NotCall fuel d name [] h = refl
  identifier-NotCall fuel d name (none ∷ rest) h = absurd h
  identifier-NotCall fuel d name (some t ∷ rest) h = rw (h, identifier_or_call) refl

  pub identifier-IsRead : (name : List ℕ) → IsRead p show (identifier_node name)
  unfolding weight print parse_expression
  identifier-IsRead name q prec d zero rest le flat follows enough = absurd (omega (arith, enough))
  identifier-IsRead name q prec d (suc zero) rest le flat follows enough =
      absurd (omega (arith, enough))
  identifier-IsRead name q prec d (suc (suc zero)) rest le flat follows enough =
      absurd (omega (arith, enough))
  identifier-IsRead name q prec d (suc (suc (suc fuel))) rest le flat follows enough = (
    suc (suc fuel),
    omega arith,
    from_primary (suc (suc fuel)) d prec (identifier_node name)
        (print show q (identifier_node name) rest) rest
        (identifier-NotCall fuel d name rest follows.0),
  )

  -- an operation in its parentheses
  parenthesized :
      (fuel d prec left : ℕ) (t : Node) (ts rest : Tokens)
      → IsFlat p (d + 1)
      → 1 ≤ left
      → parse_binary_expression p fuel (d + 1) 0 ts ≡ binary_loop p left (d + 1) 0 t (rparen ∷ rest)
      → parse_binary_expression p (suc (suc (suc fuel))) d prec (lparen ∷ ts)
        ≡ binary_loop p (suc (suc fuel)) d prec t rest
  unfolding parse_expression continuation close_paren
  parenthesized fuel d prec left t ts rest flat some_left e =
      let inner : parse_expression p (suc fuel) d ts ≡ parsed t (rparen ∷ rest) =
        rw (flat, parse_expression)
          (e ∙ loop-ends p show left (d + 1) 0 t (rparen ∷ rest) some_left refl) in
      from_primary (suc (suc fuel)) d prec t (lparen ∷ ts) rest
        (ap (λ x. and_then x close_paren) inner)

  pub operation-IsRead :
      (op : Operator) (l r : Node)
      → IsRead p show l
      → IsRead p show r
      → p.operators op.name ≡ some op
      → IsRead p show (binary_op_node op l r)
  unfolding weight nesting print continuation
  operation-IsRead op l r read_l read_r known q prec d fuel rest le flat follows enough =
      elim (Bool-cases (ltb op.precedence q)) [
        | inr tight ↦
            let f : IsFlat p (d + max (nesting op.precedence l) (nesting (op.precedence + 1) r)) =
              (rw tight at flat) in
            let w : weight op.precedence l + weight (op.precedence + 1) r + 2 ≤ fuel =
              (rw tight at enough) in
            let high : q ≤ op.precedence = ground (arith, tight) in
            let o =
              operation_read p show op l r read_l read_r known prec d fuel rest
                (omega (arith, le, high)) f follows.0
                (continuation_mono p (q + 1) (op.precedence + 1) rest (omega (arith, high))
                  follows.1)
                w in
            rw tight (o.0, omega (arith, o.1), o.2)
        | inl loose ↦
            let f : IsFlat p
                (d + (max (nesting op.precedence l) (nesting (op.precedence + 1) r) + 1)) =
              (rw loose at flat) in
            let w : weight op.precedence l + weight (op.precedence + 1) r + 2 + 3 ≤ fuel =
              (rw loose at enough) in
            let inner : ℕ = fuel - 3 in
            let is_inner : fuel ≡ suc (suc (suc inner)) = omega (arith, w) in
            let o =
              operation_read p show op l r read_l read_r known 0 (d + 1) inner (rparen ∷ rest)
                (omega arith) (IsFlat-le p _ _ (omega arith) f) refl refl (omega (arith, w)) in
            let whole =
              parenthesized inner d prec o.0 (binary_op_node op l r) _ rest
                (IsFlat-le p _ _ (omega arith) f) (omega (arith, o.1, w)) o.2 in
            rw loose (
              suc (suc inner),
              omega (arith, is_inner),
              ap
                    (λ n. parse_binary_expression p n d prec (
                      lparen
                      ∷ print show op.precedence l (
                          token token_operator op.name
                          ∷ print show (op.precedence + 1) r (rparen ∷ rest))))
                    is_inner
                  ∙ whole,
            )
      ]

  -- an argument, up to the comma or the parenthesis behind it
  pub argument_read :
      (arg : Node) (d fuel : ℕ) (rest : Tokens)
      → IsRead p show arg
      → IsFlat p (d + (nesting 0 arg + 1))
      → NotCall rest
      → continuation p 0 rest ≡ ends
      → weight 0 arg + 2 ≤ fuel
      → parse_expression p fuel d (print show 0 arg rest) ≡ parsed arg rest
  unfolding parse_expression
  argument_read arg d zero rest read flat no_call stop enough = absurd (omega (arith, enough))
  argument_read arg d (suc fuel) rest read flat no_call stop enough =
      let shallow : IsFlat p (d + 1) = IsFlat-le p _ _ (omega arith) flat in
      let r =
        read 0 0 (d + 1) fuel rest (omega arith) (IsFlat-le p _ _ (omega arith) flat)
          (no_call, continuation_mono p 0 (0 + 1) rest (omega arith) stop)
          (omega (arith, enough)) in
      rw (shallow, parse_expression)
        (r.2 ∙ loop-ends p show r.0 (d + 1) 0 arg rest (omega (arith, r.1, enough)) stop)
