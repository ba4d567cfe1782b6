-- ===== src/Expression/Validate/Accepts.antt =====
-- validateOperators and the tokens of syntax trees.
use ncore.Common.{
  ℕ, suc, ◌+◌, ◌≡◌, refl, ◌∙◌, List, [], ◌∷◌, Bool, true, false, ltb, Bool-cases, inl, inr,
}
use ncore.Common.Int.{pos}
use ncore.Expression.Tokens.{token_eof, token_operator}
use ncore.Expression.Parser.{
  Node, Nodes, Tokens, number_node, string_node, identifier_node, binary_op_node,
  function_call_node, no_nodes, node,
}
use ncore.Expression.Parser.Print.{token, rparen, print, print_arguments}
use ncore.Expression.Validate.{valid, operators_loop, validate_operators}

mutual
  unfolding operators_loop print

  -- A tree leaves no operator behind it, and its parentheses match.
  print-scanned :
      (show : ℕ → List ℕ) (q : ℕ) (t : Node) (last_was_operator : Bool) (count : ℕ) (rest : Tokens)
      → operators_loop last_was_operator (pos count) (print show q t rest)
        ≡ operators_loop false (pos count) rest
  print-scanned show q (number_node x) last count rest = refl
  print-scanned show q (string_node s) last count rest = refl
  print-scanned show q (identifier_node name) last count rest = refl
  print-scanned show q (binary_op_node op l r) last count rest =
      elim (Bool-cases (ltb op.precedence q)) [
        | inl loose ↦ rw loose (
            print-scanned show op.precedence l last (suc count)
              (token token_operator op.name ∷ print show (op.precedence + 1) r (rparen ∷ rest))
            ∙ print-scanned show (op.precedence + 1) r true (suc count) (rparen ∷ rest))
        | inr tight ↦ rw tight (
            print-scanned show op.precedence l last count
              (token token_operator op.name ∷ print show (op.precedence + 1) r rest)
            ∙ print-scanned show (op.precedence + 1) r true count rest)
      ]
  print-scanned show q (function_call_node name args) last count rest =
      print_arguments-scanned show false args count rest

  print_arguments-scanned :
      (show : ℕ → List ℕ) (some_read : Bool) (args : Nodes) (count : ℕ) (rest : Tokens)
      → operators_loop false (pos (suc count)) (print_arguments show some_read args rest)
        ≡ operators_loop false (pos count) rest
  print_arguments-scanned show some_read no_nodes count rest = refl
  print_arguments-scanned show false (node arg args) count rest =
      print-scanned show 0 arg false (suc count) (print_arguments show true args rest)
      ∙ print_arguments-scanned show true args count rest
  print_arguments-scanned show true (node arg args) count rest =
      print-scanned show 0 arg false (suc count) (print_arguments show true args rest)
      ∙ print_arguments-scanned show true args count rest

-- validateOperators accepts the tokens of every syntax tree, printed with parentheses only where the
-- precedences want them and followed by EOF.
pub validate_operators-print :
    (show : ℕ → List ℕ) (t : Node)
    → validate_operators (print show 0 t (token token_eof [] ∷ [])) ≡ valid
unfolding validate_operators operators_loop
validate_operators-print show t = print-scanned show 0 t false 0 (token token_eof [] ∷ [])
