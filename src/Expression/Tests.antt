-- ===== src/Expression/Tests.antt =====
-- Expressions as bytes, and the witnesses.
use ncore.Common.{
  ℕ, ◌+◌, ◌≡◌, refl, Option, none, some, List, [], ◌∷◌, ◌++◌, true, false, replicate,
}
use ncore.Expression.Tokens.{
  token_eof, token_number, token_string, token_identifier, token_operator, token_lparen, lexed,
  still_running, tokenize, tokenize_loop, is_operator, is_compound,
}
use ncore.Expression.Tokens.Clash.{is_clash, has_clash, tokenize_loop-clash}
use ncore.Expression.Parser.{
  Operator, Engine, Node, parsed, failed, unexpected_token, depth_exceeded, number_node,
  identifier_node, binary_op_node, function_call_node, no_nodes, node, parse, compile, parse_result,
  continuation, is_too_deep,
}
use ncore.Expression.Parser.Print.{token, lparen, rparen, print, nesting, IsSound}
use ncore.Expression.Parser.RoundTrip.{parse-print}
use ncore.Expression.Parser.Compile.{IsAnswer, compile-IsAnswer}
use ncore.Expression.Validate.{
  valid, panics, bad_sequence, consecutive_operators, default_operators, get_expression_depth,
  depth_loop, validate_operators, validate_strict_syntax, sequence_check, validate_token_sequence,
}
use ncore.Expression.Validate.Accepts.{validate_operators-print}
use ncore.Expression.Validate.Groups.{validate_strict_syntax-panics}

-- With the texts of numbers of one digit, and MaxDepth 3.
abbrev digits : List ℕ → Option ℕ
digits (c ∷ []) = some c
digits _ = none

abbrev engine : Engine
engine = record { operators = default_operators; max_depth = 3; parse_float = digits }

-- a + b * 2
abbrev sum : List ℕ
sum = b'a' ∷ b' ' ∷ b'+' ∷ b' ' ∷ b'b' ∷ b'*' ∷ b'2' ∷ []

abbrev plus : Operator
plus = record { name = b'+' ∷ []; precedence = 10 }

abbrev times : Operator
times = record { name = b'*' ∷ []; precedence = 20 }

abbrev a : Node
a = identifier_node (b'a' ∷ [])

-- f(a, (a + 2) * a)
abbrev tree : Node
tree =
    function_call_node (b'f' ∷ [])
      (node a (node (binary_op_node times (binary_op_node plus a (number_node b'2')) a) no_nodes))

test_compile :
    compile engine 20 sum
    ≡ parse_result (
        parsed
          (binary_op_node plus a
            (binary_op_node times (identifier_node (b'b' ∷ [])) (number_node b'2')))
          (some (record { type = token_eof; value = []; line = 1; col = 8 }) ∷ []))
unfolding compile tokenize parse is_too_deep continuation default_operators
test_compile = refl

-- 'a\n' is a string of two bytes
test_escape :
    tokenize 9 (b'\'' ∷ b'a' ∷ 92 ∷ b'n' ∷ b'\'' ∷ [])
    ≡ lexed (
        some (record { type = token_string; value = b'a' ∷ 10 ∷ []; line = 1; col = 1 })
        ∷ some (record { type = token_eof; value = []; line = 1; col = 6 })
        ∷ [])
unfolding tokenize
test_escape = refl

-- A second operand is missing at the end.
test_missing : compile engine 20 (b'a' ∷ b'+' ∷ []) ≡ parse_result (failed unexpected_token)
unfolding compile tokenize parse is_too_deep continuation default_operators
test_missing = refl

-- Three parentheses and the expression itself are too deep.
test_deep :
    compile engine 20 (b'(' ∷ b'(' ∷ b'(' ∷ b'a' ∷ []) ≡ parse_result (failed depth_exceeded)
unfolding compile tokenize parse is_too_deep
test_deep = refl

test_depth : get_expression_depth (b'(' ∷ b'(' ∷ b')' ∷ b'(' ∷ b'(' ∷ []) ≡ 3
unfolding get_expression_depth depth_loop
test_depth = refl

-- (a)(a) in its tokens
test_groups :
    validate_strict_syntax (
      lparen
      ∷ token token_identifier (b'a' ∷ [])
      ∷ rparen
      ∷ token token_operator (b'*' ∷ [])
      ∷ lparen
      ∷ token token_identifier (b'a' ∷ [])
      ∷ rparen
      ∷ [])
    ≡ bad_sequence
unfolding validate_strict_syntax sequence_check validate_token_sequence
test_groups = refl

test_consecutive :
    validate_operators
      (token token_operator (b'-' ∷ []) ∷ lparen ∷ token token_operator (b'-' ∷ []) ∷ [])
    ≡ consecutive_operators
unfolding validate_operators
test_consecutive = refl

-- 1+-2: the tokens after ten rounds
test_clash :
    tokenize 10 (b'1' ∷ b'+' ∷ b'-' ∷ b'2' ∷ [])
    ≡ still_running (
        some (record { type = token_number; value = b'1' ∷ []; line = 1; col = 1 })
        ∷ replicate 9 none)
unfolding tokenize
test_clash = refl

plus_minus : is_clash b'+' b'-' ≡ true
unfolding is_clash is_operator is_compound
plus_minus = refl

tokenize_loop-clash_example :
    tokenize_loop 1000 (b'+' ∷ b'-' ∷ b'2' ∷ []) 1 2 [] ≡ still_running ([] ++ replicate 1000 none)
tokenize_loop-clash_example = tokenize_loop-clash 1000 b'+' b'-' (b'2' ∷ []) 1 2 [] plus_minus

sum-has_clash : has_clash sum ≡ false
unfolding has_clash is_operator
sum-has_clash = refl

compile-IsAnswer_example : IsAnswer (compile engine 8 sum)
compile-IsAnswer_example = compile-IsAnswer engine sum sum-has_clash

abbrev show_digit : ℕ → List ℕ
show_digit x = x ∷ []

tree-IsSound : IsSound engine show_digit tree
unfolding IsSound default_operators
tree-IsSound = (tt, ((refl, (refl, tt, refl), tt), tt))

tree-nesting : is_too_deep engine (nesting 0 tree + 1) ≡ false
unfolding is_too_deep nesting
tree-nesting = refl

parse-print_example :
    parse engine (print show_digit 0 tree (token token_eof [] ∷ []))
    ≡ parsed tree (token token_eof [] ∷ [])
parse-print_example = parse-print engine show_digit tree tree-IsSound tree-nesting

validate_operators-print_example :
    validate_operators (print show_digit 0 tree (token token_eof [] ∷ [])) ≡ valid
validate_operators-print_example = validate_operators-print show_digit tree

-- f(a)
validate_strict_syntax-panics_example :
    validate_strict_syntax (
      token token_identifier (b'f' ∷ []) ∷ []
      ++ lparen ∷ token token_identifier (b'a' ∷ []) ∷ rparen ∷ [])
    ≡ panics
validate_strict_syntax-panics_example =
    validate_strict_syntax-panics
      (record { type = token_lparen; value = b'(' ∷ []; line = 1; col = 1 })
      (token token_identifier (b'f' ∷ [])) [] (token token_identifier (b'a' ∷ []) ∷ rparen ∷ [])
      refl (refl, refl) tt
