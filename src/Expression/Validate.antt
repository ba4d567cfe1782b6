-- ===== src/Expression/Validate.antt =====
-- validation/expression/expression.go: the checks before an expression is evaluated, and the default
-- operators.
-- A nil token is `none`, and its use `panics`. The counts of parentheses are integers.
pub mod Accepts
pub mod Groups
use ncore.Common.{
  ℕ, zero, suc, ◌+◌, Option, none, some, List, [], ◌∷◌, Bool, true, false, ltb, ◌==◌, ◌&&◌, ◌||◌,
  if◌then◌else◌, length,
}
use ncore.Common.Int.{ℤ, pos, negsuc, inc, dec}
use ncore.Expression.Tokens.{
  TokenType, Token, token_eof, token_number, token_string, token_identifier, token_operator,
  token_lparen, token_rparen, token_comma,
}
use ncore.Expression.Parser.{Operator, Tokens}

abbrev pub same_bytes : List ℕ → List ℕ → Bool
same_bytes [] [] = true
same_bytes [] (y ∷ ys) = false
same_bytes (x ∷ xs) [] = false
same_bytes (x ∷ xs) (y ∷ ys) = x == y && same_bytes xs ys

abbrev pub bytes_in : List ℕ → List (List ℕ) → Bool
bytes_in xs [] = false
bytes_in xs (ys ∷ yss) = same_bytes xs ys || bytes_in xs yss

-- a registered operator: its name and precedence
operator_of : List ℕ → ℕ → Option Operator
operator_of name precedence = some (record { name = name; precedence = precedence })

-- + - at 10; * / % at 20; == != at 7; > >= < <= at 8; && at 5; || at 4; ! at 3
unfoldable pub default_operators : List ℕ → Option Operator
unfolding operator_of
default_operators name =
    if bytes_in name ((43 ∷ []) ∷ (45 ∷ []) ∷ [])
    then operator_of name 10
    else if bytes_in name ((42 ∷ []) ∷ (47 ∷ []) ∷ (37 ∷ []) ∷ [])
    then operator_of name 20
    else if bytes_in name ((61 ∷ 61 ∷ []) ∷ (33 ∷ 61 ∷ []) ∷ [])
    then operator_of name 7
    else if bytes_in name ((62 ∷ []) ∷ (62 ∷ 61 ∷ []) ∷ (60 ∷ []) ∷ (60 ∷ 61 ∷ []) ∷ [])
    then operator_of name 8
    else if bytes_in name ((38 ∷ 38 ∷ []) ∷ [])
    then operator_of name 5
    else if bytes_in name ((124 ∷ 124 ∷ []) ∷ [])
    then operator_of name 4
    else if bytes_in name ((33 ∷ []) ∷ [])
    then operator_of name 3
    else none

-- the loop, with `depth` and `maxDepth`
unfoldable pub depth_loop : List ℕ → ℤ → ℕ → ℕ
depth_loop [] depth max_depth = max_depth
depth_loop (c ∷ expr) depth max_depth =
    let deeper : ℕ = elim (inc depth) [
      | pos n ↦ if ltb max_depth n then n else max_depth
      | negsuc n ↦ max_depth
    ] in
    if c == 40
    then depth_loop expr (inc depth) deeper
    else if c == 41
    then depth_loop expr (dec depth) max_depth
    else depth_loop expr depth max_depth

unfoldable pub get_expression_depth : List ℕ → ℕ
get_expression_depth expr = depth_loop expr (pos 0) 0

-- The outcome of a check: nil, one of its errors, or a panic.
pub data Verdict : Type 0 where
  valid : Verdict
  consecutive_operators unmatched_parenthesis unmatched_parentheses : Verdict
  empty_expression unmatched_closing bad_sequence bad_end : Verdict
  panics : Verdict

-- The loop of validateOperators, with lastWasOperator and parenCount
unfoldable pub operators_loop : Bool → ℤ → Tokens → Verdict
operators_loop last_was_operator (pos zero) [] = valid
operators_loop last_was_operator paren_count [] = unmatched_parentheses
operators_loop last_was_operator paren_count (none ∷ tokens) = panics
operators_loop last_was_operator paren_count (some t ∷ tokens) = elim t.type [
  | token_operator ↦
      if last_was_operator then consecutive_operators else operators_loop true paren_count tokens
  | token_lparen ↦ operators_loop last_was_operator (inc paren_count) tokens
  | token_rparen ↦ elim (dec paren_count) [
    | pos n ↦ operators_loop last_was_operator (pos n) tokens
    | negsuc n ↦ unmatched_parenthesis
  ]
  | _ ↦ operators_loop false paren_count tokens
]

unfoldable pub validate_operators : Tokens → Verdict
unfolding operators_loop
validate_operators tokens = operators_loop false (pos 0) tokens

unfoldable pub is_unary_operator : List ℕ → Bool
is_unary_operator operator = bytes_in operator ((33 ∷ []) ∷ (43 ∷ []) ∷ (45 ∷ []) ∷ [])

abbrev pub is_value : TokenType → Bool
is_value token_number = true
is_value token_string = true
is_value token_identifier = true
is_value _ = false

-- nil is `true`
unfoldable pub validate_token_sequence : Token → Token → Bool
unfolding is_unary_operator
validate_token_sequence prev curr = elim curr.type [
  | token_operator ↦ elim prev.type [
    | token_operator ↦ false
    | token_lparen ↦ is_unary_operator curr.value
    | _ ↦ true
  ]
  | token_rparen ↦ elim prev.type [ token_operator ↦ false | token_lparen ↦ false | _ ↦ true ]
  | token_number ↦ elim prev.type [
    | token_rparen ↦ false
    | other ↦ if is_value other then false else true
  ]
  | token_string ↦ elim prev.type [
    | token_rparen ↦ false
    | other ↦ if is_value other then false else true
  ]
  | token_identifier ↦ elim prev.type [
    | token_rparen ↦ false
    | other ↦ if is_value other then false else true
  ]
  | token_lparen ↦ elim prev.type [
    | token_rparen ↦ false
    | other ↦ if is_value other then false else true
  ]
  | token_comma ↦ elim prev.type [
    | token_operator ↦ false
    | token_lparen ↦ false
    | token_comma ↦ false
    | _ ↦ true
  ]
  | _ ↦ false
]

unfoldable pub is_valid_end_token : TokenType → Bool
is_valid_end_token token_rparen = true
is_valid_end_token t = is_value t

-- The end of validateStrictSyntax.
unfoldable pub strict_end : ℤ → Option Token → Verdict
strict_end (pos zero) none = valid
strict_end (pos zero) (some t) = if is_valid_end_token t.type then valid else bad_end
strict_end paren_count last_token = unmatched_parentheses

-- the check against the token before: `first` is i = 0, and a nil lastToken is read when i > 0
unfoldable pub sequence_check : Bool → Option Token → Token → Verdict
sequence_check true last_token t = valid
sequence_check false none t = panics
sequence_check false (some prev) t = if validate_token_sequence prev t then valid else bad_sequence

unfoldable pub strict_loop : Bool → ℤ → Option Token → Tokens → Verdict
strict_loop first paren_count last_token [] = strict_end paren_count last_token
strict_loop first paren_count last_token (none ∷ tokens) = panics
strict_loop first paren_count last_token (some t ∷ tokens) = elim t.type [
  | token_lparen ↦ elim (sequence_check first last_token t) [
    | valid ↦ strict_loop false (inc paren_count) (some t) tokens
    | other ↦ other
  ]
  | token_rparen ↦ elim (dec paren_count) [
    | pos n ↦ elim (sequence_check first last_token t) [
      | valid ↦ strict_loop false (pos n) (some t) tokens
      | other ↦ other
    ]
    | negsuc n ↦ unmatched_closing
  ]
  | _ ↦ strict_loop false paren_count last_token tokens
]

unfoldable pub validate_strict_syntax : Tokens → Verdict
unfolding strict_loop
validate_strict_syntax [] = empty_expression
validate_strict_syntax (t ∷ tokens) = strict_loop true (pos 0) none (t ∷ tokens)
