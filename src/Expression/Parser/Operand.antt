-- ===== src/Expression/Parser/Operand.antt =====
-- The operands and argument lists: no panic and enough fuel, when the calls below have both.
use ncore.Common.{
  ℕ, suc, ◌+◌, ◌*◌, ◌≤◌, ◌≡◌, refl, Option, none, some, List, [], ◌∷◌, Bool, true, false, length,
  arith, Bool-cases, Option-cases, inl, inr,
}
use ncore.Expression.Tokens.{
  TokenType, Token, token_number, token_string, token_identifier, token_lparen,
}
use ncore.Expression.Parser.{
  Engine, Node, Tokens, Parsed, parsed, failed, and_then, close_paren, parse_expression,
  parse_binary_expression, binary_loop, parse_primary_expression, identifier_or_call, arguments,
  is_type_lparen, is_type_rparen, is_type_comma,
}
use ncore.Expression.Parser.{number_node, string_node, node, invalid_number, unexpected_token}
use ncore.Expression.Tokens.Readers.{is_eof}
use ncore.Expression.Parser.Closed.{
  IsClosed, IsGood, and_then-IsGood, IsClosed-rest, rparen-not_eof, lparen-not_eof, comma-not_eof,
  close_paren-IsGood,
}

-- What each function does with enough fuel.
abbrev pub IsTotal : Engine → ℕ → Type 0
IsTotal p fuel =
    ((depth : ℕ) (ts : Tokens)
      → IsClosed ts
      → 4 * length ts + 3 ≤ fuel
      → IsGood (length ts) (parse_expression p fuel depth ts))
    × ((depth precedence : ℕ) (ts : Tokens)
        → IsClosed ts
        → 4 * length ts + 2 ≤ fuel
        → IsGood (length ts) (parse_binary_expression p fuel depth precedence ts))
    × ((depth precedence : ℕ) (left : Node) (ts : Tokens)
        → IsClosed ts
        → 4 * length ts + 1 ≤ fuel
        → IsGood (suc (length ts)) (binary_loop p fuel depth precedence left ts))
    × ((depth : ℕ) (ts : Tokens)
        → IsClosed ts
        → 4 * length ts + 1 ≤ fuel
        → IsGood (length ts) (parse_primary_expression p fuel depth ts))
    × ((depth : ℕ) (name : List ℕ) (ts : Tokens)
        → IsClosed ts
        → 4 * length ts + 1 ≤ fuel
        → IsGood (suc (length ts)) (identifier_or_call p fuel depth name ts))
    × ((depth : ℕ) (some_read : Bool) (ts : Tokens)
        → IsClosed ts
        → 4 * length ts + 4 ≤ fuel
        → IsGood (length ts) (arguments p fuel depth some_read ts))

module _ (p : Engine) (fuel : ℕ) (total : IsTotal p fuel) where
  number_result : Option ℕ → Tokens → Parsed Node
  number_result r ts = elim r [
    | none ↦ failed invalid_number
    | some value ↦ parsed (number_node value) ts
  ]

  number-IsGood :
      (t : Token) (ts : Tokens)
      → IsClosed ts
      → IsGood (suc (length ts)) (number_result (p.parse_float t.value) ts)
  unfolding number_result
  number-IsGood t ts closed = elim (Option-cases (p.parse_float t.value)) [
    | inl bad ↦ rw (bad, number_result) tt
    | inr (value, good) ↦ rw (good, number_result) (closed, omega arith)
  ]

  pub primary-IsGood :
      (depth : ℕ) (ts : Tokens)
      → IsClosed ts
      → 4 * length ts + 1 ≤ suc fuel
      → IsGood (length ts) (parse_primary_expression p (suc fuel) depth ts)
  unfolding parse_expression number_result
  primary-IsGood depth [] closed enough = absurd closed
  primary-IsGood depth (none ∷ ts) closed enough = absurd closed
  primary-IsGood depth (some t ∷ ts) closed enough =
      elim t.type
          as (λ k. (is_eof k ≡ false → IsClosed ts) → IsGood (suc (length ts)) (primary_of k)) [
            | token_number ↦ λ c. number-IsGood t ts (c refl)
            | token_string ↦ λ c. (c refl, omega arith)
            | token_identifier ↦ λ c. total.4 depth t.value ts (c refl) (omega (arith, enough))
            | token_lparen ↦ λ c.
                and_then-IsGood (length ts) (suc (length ts)) (parse_expression p fuel depth ts)
                  close_paren (total.0 depth ts (c refl) (omega (arith, enough)))
                  (λ expr rest d l.
                    close_paren-IsGood (suc (length ts)) expr rest d (omega (arith, l)))
            | _ ↦ λ c. tt
          ]
        (λ e. IsClosed-rest t ts e closed)
    where
      primary_of : TokenType → Parsed Node
      primary_of k = elim k [
        | token_number ↦ number_result (p.parse_float t.value) ts
        | token_string ↦ parsed (string_node t.value) ts
        | token_identifier ↦ identifier_or_call p fuel depth t.value ts
        | token_lparen ↦ and_then (parse_expression p fuel depth ts) close_paren
        | _ ↦ failed unexpected_token
      ]

  pub identifier-IsGood :
      (depth : ℕ) (name : List ℕ) (ts : Tokens)
      → IsClosed ts
      → 4 * length ts + 1 ≤ suc fuel
      → IsGood (suc (length ts)) (identifier_or_call p (suc fuel) depth name ts)
  unfolding parse_expression
  identifier-IsGood depth name [] closed enough = absurd closed
  identifier-IsGood depth name (none ∷ ts) closed enough = absurd closed
  identifier-IsGood depth name (some t ∷ ts) closed enough =
      elim (Bool-cases (is_type_lparen t.type)) [
        | inr other ↦ rw (other, parse_expression) (closed, omega arith)
        | inl opening ↦
            rw (opening, parse_expression)
              (and_then-IsGood (length ts) (suc (suc (length ts))) (arguments p fuel depth false ts)
                _
                (total.5 depth false ts (IsClosed-rest t ts (lparen-not_eof t.type opening) closed)
                  (omega (arith, enough)))
                (λ args rest c l. (c, omega (arith, l))))
      ]

  -- an argument, and those after it
  argument-IsGood :
      (depth n : ℕ) (ts : Tokens)
      → IsClosed ts
      → 4 * length ts + 3 ≤ fuel
      → length ts ≤ n
      → IsGood n (
          and_then (parse_expression p fuel depth ts) (λ arg rest.
            and_then
              (arguments p fuel depth true rest)
              (λ args rest'. parsed (node arg args) rest')))
  argument-IsGood depth n ts closed enough le =
      and_then-IsGood (length ts) n (parse_expression p fuel depth ts) _
        (total.0 depth ts closed enough)
        (λ arg rest c l.
          and_then-IsGood (length rest) n (arguments p fuel depth true rest) _
            (total.5 depth true rest c (omega (arith, l, enough)))
            (λ args rest' d m. (d, omega (arith, l, m, le))))

  pub arguments-IsGood :
      (depth : ℕ) (some_read : Bool) (ts : Tokens)
      → IsClosed ts
      → 4 * length ts + 4 ≤ suc fuel
      → IsGood (length ts) (arguments p (suc fuel) depth some_read ts)
  unfolding parse_expression
  arguments-IsGood depth some_read [] closed enough = absurd closed
  arguments-IsGood depth some_read (none ∷ ts) closed enough = absurd closed
  arguments-IsGood depth false (some t ∷ ts) closed enough =
      elim (Bool-cases (is_type_rparen t.type)) [
        | inl closing ↦
            rw (closing, parse_expression)
              (IsClosed-rest t ts (rparen-not_eof t.type closing) closed, omega arith)
        | inr other ↦
            rw (other, parse_expression)
              (argument-IsGood depth (suc (length ts)) (some t ∷ ts) closed (omega (arith, enough))
                (omega arith))
      ]
  arguments-IsGood depth true (some t ∷ ts) closed enough =
      elim (Bool-cases (is_type_rparen t.type)) [
        | inl closing ↦
            rw (closing, parse_expression)
              (IsClosed-rest t ts (rparen-not_eof t.type closing) closed, omega arith)
        | inr other ↦ elim (Bool-cases (is_type_comma t.type)) [
          | inr no_comma ↦ rw (other, parse_expression, no_comma, parse_expression) tt
          | inl comma ↦
              rw (other, parse_expression, comma, parse_expression)
                (argument-IsGood depth (suc (length ts)) ts
                  (IsClosed-rest t ts (comma-not_eof t.type comma) closed) (omega (arith, enough))
                  (omega arith))
        ]
      ]
