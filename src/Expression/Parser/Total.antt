-- ===== src/Expression/Parser/Total.antt =====
-- The parser ends without a panic on tokens that can be read and end in EOF.
use ncore.Common.{
  ℕ, zero, suc, ◌+◌, ◌*◌, ◌≤◌, ◌≡◌, refl, none, some, [], ◌∷◌, ltb, length, arith, Bool-cases,
  Option-cases, inl, inr,
}
use ncore.Expression.Parser.{
  Engine, Node, Tokens, Parsed, parsed, panicked, and_then, continuation, ends, nil_found, applies,
  is_too_deep, parse_expression, parse_binary_expression, binary_loop, parse_primary_expression,
  parse, is_type_operator, Continuation,
}
use ncore.Expression.Parser.{binary_op_node}
use ncore.Expression.Parser.Closed.{
  IsClosed, IsGood, IsGood-weaken, and_then-IsGood, IsClosed-rest, operator-not_eof,
}
use ncore.Expression.Parser.Operand.{IsTotal, primary-IsGood, identifier-IsGood, arguments-IsGood}

module _ (p : Engine) (fuel : ℕ) (total : IsTotal p fuel) where
  expression-IsGood :
      (depth : ℕ) (ts : Tokens)
      → IsClosed ts
      → 4 * length ts + 3 ≤ suc fuel
      → IsGood (length ts) (parse_expression p (suc fuel) depth ts)
  unfolding parse_expression
  expression-IsGood depth ts closed enough = elim (Bool-cases (is_too_deep p (depth + 1))) [
    | inl deep ↦ rw (deep, parse_expression) tt
    | inr flat ↦
        rw (flat, parse_expression) (total.1 (depth + 1) 0 ts closed (omega (arith, enough)))
  ]

  binary-IsGood :
      (depth precedence : ℕ) (ts : Tokens)
      → IsClosed ts
      → 4 * length ts + 2 ≤ suc fuel
      → IsGood (length ts) (parse_binary_expression p (suc fuel) depth precedence ts)
  unfolding parse_expression
  binary-IsGood depth precedence ts closed enough =
      and_then-IsGood (length ts) (length ts) (parse_primary_expression p fuel depth ts) _
        (total.3 depth ts closed (omega (arith, enough)))
        (λ left rest c l.
          IsGood-weaken (suc (length rest)) (length ts) _ (omega (arith, l))
            (total.2 depth precedence left rest c (omega (arith, l, enough))))

  -- An operator that is applied stands before other tokens.
  IsContinuation : Tokens → Continuation → Type 0
  IsContinuation ts c = elim c [
    | ends ↦ Unit
    | nil_found ↦ ⊥
    | applies op rest ↦ IsClosed rest × (suc (length rest) ≡ length ts)
  ]

  continuation-IsContinuation :
      (precedence : ℕ) (ts : Tokens)
      → IsClosed ts
      → IsContinuation ts (continuation p precedence ts)
  unfolding continuation IsContinuation
  continuation-IsContinuation precedence [] closed = absurd closed
  continuation-IsContinuation precedence (none ∷ ts) closed = absurd closed
  continuation-IsContinuation precedence (some t ∷ ts) closed =
      elim (Bool-cases (is_type_operator t.type)) [
        | inr other ↦ rw (other, continuation) tt
        | inl op_type ↦ elim (Option-cases (p.operators t.value)) [
          | inl unknown ↦ rw (op_type, continuation, unknown, continuation) tt
          | inr (op, known) ↦ elim (Bool-cases (ltb op.precedence precedence)) [
            | inl low ↦ rw (op_type, continuation, known, continuation, low, continuation) tt
            | inr high ↦
                rw (op_type, continuation, known, continuation, high, continuation)
                  (IsClosed-rest t ts (operator-not_eof t.type op_type) closed, refl)
          ]
        ]
      ]

  loop-IsGood :
      (depth precedence : ℕ) (left : Node) (ts : Tokens)
      → IsClosed ts
      → 4 * length ts + 1 ≤ suc fuel
      → IsGood (suc (length ts)) (binary_loop p (suc fuel) depth precedence left ts)
  unfolding parse_expression IsContinuation
  loop-IsGood depth precedence left ts closed enough =
      elim (continuation p precedence ts)
          as (λ c. IsContinuation ts c → IsGood (suc (length ts)) (loop_next c)) [
            | ends ↦ λ k. (closed, omega arith)
            | nil_found ↦ λ k. k
            | applies op rest ↦ λ k.
                and_then-IsGood (length rest) (suc (length ts))
                  (parse_binary_expression p fuel depth (op.precedence + 1) rest) _
                  (total.1 depth (op.precedence + 1) rest k.0 (omega (arith, k.1, enough)))
                  (λ right rest' c l.
                    IsGood-weaken (suc (length rest')) (suc (length ts)) _ (omega (arith, l, k.1))
                      (total.2 depth precedence _ rest' c (omega (arith, l, k.1, enough))))
          ]
        (continuation-IsContinuation precedence ts closed)
    where
      loop_next : Continuation → Parsed Node
      loop_next c = elim c [
        | ends ↦ parsed left ts
        | nil_found ↦ panicked
        | applies op rest ↦
            and_then (parse_binary_expression p fuel depth (op.precedence + 1) rest) (λ right rest'.
              binary_loop p fuel depth precedence (binary_op_node op left right) rest')
      ]

IsTotal-all : (p : Engine) (fuel : ℕ) → IsTotal p fuel
unfolding parse_expression
IsTotal-all p zero = (
  (λ depth ts closed enough. absurd (omega (arith, enough))),
  (λ depth precedence ts closed enough. absurd (omega (arith, enough))),
  (λ depth precedence left ts closed enough. absurd (omega (arith, enough))),
  (λ depth ts closed enough. absurd (omega (arith, enough))),
  (λ depth name ts closed enough. absurd (omega (arith, enough))),
  (λ depth some_read ts closed enough. absurd (omega (arith, enough))),
)
IsTotal-all p (suc fuel) =
    let total = IsTotal-all p fuel in
    (
      expression-IsGood p fuel total,
      binary-IsGood p fuel total,
      loop-IsGood p fuel total,
      primary-IsGood p fuel total,
      identifier-IsGood p fuel total,
      arguments-IsGood p fuel total,
    )

-- On tokens that are no nil pointers and end in EOF, with no EOF before, parse ends, within four calls for
-- each token and three more, and it returns a tree or an error: it reads no index out of range.
pub parse-IsGood :
    (p : Engine) (tokens : Tokens) → IsClosed tokens → IsGood (length tokens) (parse p tokens)
unfolding parse
parse-IsGood p tokens closed =
    (IsTotal-all p (4 * length tokens + 3)).0 0 tokens closed (omega arith)
