-- ===== src/Expression/Evaluate/Tests.antt =====
-- Evaluation of concrete trees, and the witness.
use ncore.Common.{ℕ, ◌+◌, ◌≡◌, refl, none, some, List, [], ◌∷◌, ◌++◌, if◌then◌else◌}
use ncore.Expression.Value.{Value, text, basic}
use ncore.Expression.Parser.{
  Operator, Node, number_node, identifier_node, binary_op_node, function_call_node, no_nodes, node,
}
use ncore.Expression.Validate.{same_bytes}
use ncore.Expression.Evaluate.{
  Variables, Handlers, CallResult, gives, fails, evaluated, error, undefined_variable, left_operand,
  applying_operator, not_enough_arguments, evaluate,
}
use ncore.Expression.Evaluate.Postfix.{program, run, on_frames}
use ncore.Expression.Evaluate.Runs.{evaluate-run}

-- an operator that joins strings and knows nothing else
abbrev join : Value → Value → CallResult
join (text s) (text t) = gives (text (s ++ t))
join _ _ = fails "not strings"

-- a function of two parameters that gives the first
abbrev first_of_two : List Value → CallResult
first_of_two [] = fails "nothing"
first_of_two (v ∷ values) = gives v

-- The state is a clock, which each call of the function `n` reads and moves on.
abbrev handlers : Handlers ℕ
handlers = record {
  operator_handler = λ op left right w. (join left right, w);
  functions = λ name.
      if same_bytes name (b'f' ∷ [])
      then some (record {
        num_in = 2;
        validator = none;
        handler = λ args w. (some (first_of_two args), w);
      })
      else if same_bytes name (b'n' ∷ [])
      then some (record {
        num_in = 0;
        validator = none;
        handler = λ args w. (some (gives (basic w)), w + 1);
      })
      else none;
}

abbrev plus : Operator
plus = record { name = b'+' ∷ []; precedence = 10 }

-- x + f(x, n(), n())
abbrev tree : Node
tree = binary_op_node plus (identifier_node (b'x' ∷ [])) (
    function_call_node (b'f' ∷ []) (
      node (identifier_node (b'x' ∷ [])) (
        node (function_call_node (b'n' ∷ []) no_nodes)
          (node (function_call_node (b'n' ∷ []) no_nodes) no_nodes))))

abbrev bound : Variables
bound = (b'x' ∷ [], text (b'a' ∷ [])) ∷ []

test_value : evaluate handlers bound tree 5 ≡ (evaluated (text (b'a' ∷ b'a' ∷ [])), 7)
unfolding evaluate
test_value = refl

test_undefined :
    evaluate handlers [] tree 5 ≡ (error (left_operand (undefined_variable (b'x' ∷ []))), 5)
unfolding evaluate
test_undefined = refl

test_arguments :
    evaluate handlers bound
      (function_call_node (b'f' ∷ []) (node (function_call_node (b'n' ∷ []) no_nodes) no_nodes))
      5
    ≡ (error (not_enough_arguments (b'f' ∷ []) 2 1), 6)
unfolding evaluate
test_arguments = refl

test_operands :
    evaluate handlers bound (binary_op_node plus (number_node 1) (number_node 2)) 5
    ≡ (error (applying_operator (b'+' ∷ []) "not strings"), 5)
unfolding evaluate
test_operands = refl

evaluate-run_example :
    run handlers bound (program tree) [] 5 ≡ on_frames [] (evaluate handlers bound tree 5)
evaluate-run_example = evaluate-run handlers bound tree 5
