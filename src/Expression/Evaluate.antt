-- ===== src/Expression/Evaluate.antt =====
-- validation/expression/expression.go: Evaluate of the nodes of a syntax tree.
-- The handlers of operators and functions, and the validators, are registered by the callers: fields. What they
-- read and change besides their arguments, such as the clock that `now` reads, is a state `W`, which
-- goes through the evaluation in the order of the calls. A function's handler is called by reflection with
-- as many of the arguments as it has parameters; an argument that does not fit makes that call
-- panic. The text of an error of theirs is a string. A float64 is its 64
-- bits and the value `basic`. The engine of the context is the argument `e`.
pub mod Postfix
pub mod Parts
pub mod Runs
mod Tests
use ncore.Common.{
  ℕ, ◌+◌, String, Option, none, some, List, [], ◌∷◌, Bool, true, false, ltb, if◌then◌else◌, length,
  take,
}
use ncore.Expression.Value.{Value, text, basic}
use ncore.Expression.Parser.{
  Operator, Node, Nodes, number_node, string_node, identifier_node, binary_op_node,
  function_call_node, no_nodes, node,
}
use ncore.Expression.Validate.{same_bytes}

abbrev pub Variables : Type 0
Variables = List (List ℕ × Value)

-- `value, ok := variables[name]`
unfoldable pub variable : List ℕ → Variables → Option Value
variable name [] = none
variable name ((other, v) ∷ variables) =
    if same_bytes other name then some v else variable name variables

-- a value and no error, an error, or a panic
pub data CallResult : Type 0 where
  gives : Value → CallResult
  fails : String → CallResult
  call_panics : CallResult

-- `validator`: nil is `none`, and it returns the text of an error, if there is one. A handler whose
-- type has no result returns `none`.
pub record Function (W : Type 0) : Type 0 where
  pub num_in : ℕ
  pub validator : Option (List Value → W → Option String × W)
  pub handler : List Value → W → Option CallResult × W

-- the handler of an operator, and the functions map
pub record Handlers (W : Type 0) : Type 0 where
  pub operator_handler : Operator → Value → Value → W → CallResult × W
  pub functions : List ℕ → Option (Function W)

-- the errors, with what their texts name; three of them wrap another
pub data EvalError : Type 0 where
  undefined_variable : (name : List ℕ) → EvalError
  left_operand right_operand : (cause : EvalError) → EvalError
  applying_operator : (name : List ℕ) (message : String) → EvalError
  not_registered : (name : List ℕ) → EvalError
  argument : (index : ℕ) (function : List ℕ) (cause : EvalError) → EvalError
  invalid_arguments : (function : List ℕ) (message : String) → EvalError
  not_enough_arguments : (function : List ℕ) (expected got : ℕ) → EvalError
  returned_no_value : EvalError
  handler_error : (message : String) → EvalError

pub data Evaluated (A : Type 0) : Type 0 where
  evaluated : A → Evaluated A
  error : EvalError → Evaluated A
  panics : Evaluated A

-- "if err != nil": an error or a panic ends the evaluation
unfoldable pub if_evaluated :
    {A B W : Type 0} → Evaluated A × W → (A → W → Evaluated B × W) → Evaluated B × W
if_evaluated (evaluated a, w) next = next a w
if_evaluated (error e, w) next = (error e, w)
if_evaluated (panics, w) next = (panics, w)

-- an error wrapped by `%w`
unfoldable pub wrapped :
    {A W : Type 0} → (EvalError → EvalError) → Evaluated A × W → Evaluated A × W
wrapped wrap (evaluated a, w) = (evaluated a, w)
wrapped wrap (error e, w) = (error (wrap e), w)
wrapped wrap (panics, w) = (panics, w)

-- "Call function" and "Check error"
unfoldable pub call_handler : {W : Type 0} → Function W → List Value → W → Evaluated Value × W
call_handler f args w =
    let (results, w') = f.handler (take f.num_in args) w in
    elim results [
      | none ↦ (error returned_no_value, w')
      | some (gives v) ↦ (evaluated v, w')
      | some (fails message) ↦ (error (handler_error message), w')
      | some call_panics ↦ (panics, w')
    ]

-- "Check number of arguments"
unfoldable pub check_number :
    {W : Type 0} → List ℕ → Function W → List Value → W → Evaluated Value × W
unfolding call_handler
check_number name f args w =
    if ltb (length args) f.num_in
    then (error (not_enough_arguments name f.num_in (length args)), w)
    else call_handler f args w

-- "validate arguments"
unfoldable pub apply_function :
    {W : Type 0} → List ℕ → Function W → List Value → W → Evaluated Value × W
unfolding check_number
apply_function name f args w = elim f.validator [
  | none ↦ check_number name f args w
  | some validate ↦
      let (invalid, w') = validate args w in
      elim invalid [
        | some message ↦ (error (invalid_arguments name message), w')
        | none ↦ check_number name f args w'
      ]
]

unfoldable pub apply_operator :
    {W : Type 0} → Handlers W → Operator → Value → Value → W → Evaluated Value × W
apply_operator e op left right w =
    let (result, w') = e.operator_handler op left right w in
    elim result [
      | gives v ↦ (evaluated v, w')
      | fails message ↦ (error (applying_operator op.name message), w')
      | call_panics ↦ (panics, w')
    ]

unfoldable pub lookup_variable : List ℕ → Variables → Evaluated Value
unfolding variable
lookup_variable name variables = elim (variable name variables) [
  | none ↦ error (undefined_variable name)
  | some v ↦ evaluated v
]

unfoldable mutual
  unfolding apply_function apply_operator lookup_variable if_evaluated wrapped

  pub evaluate : {W : Type 0} → Handlers W → Variables → Node → W → Evaluated Value × W
  evaluate e variables (number_node x) w = (evaluated (basic x), w)
  evaluate e variables (string_node s) w = (evaluated (text s), w)
  evaluate e variables (identifier_node name) w = (lookup_variable name variables, w)
  evaluate e variables (binary_op_node op l r) w =
      if_evaluated (wrapped left_operand (evaluate e variables l w)) (λ left w₁.
        if_evaluated (wrapped right_operand (evaluate e variables r w₁))
          (λ right w₂. apply_operator e op left right w₂))
  evaluate e variables (function_call_node name args) w = elim (e.functions name) [
    | none ↦ (error (not_registered name), w)
    | some f ↦
        if_evaluated (evaluate_all e variables name 0 args w)
          (λ values w₁. apply_function name f values w₁)
  ]

  -- the loop over the arguments, from the index `i` on
  pub evaluate_all :
      {W : Type 0} → Handlers W → Variables → List ℕ → ℕ → Nodes → W → Evaluated (List Value) × W
  evaluate_all e variables name i no_nodes w = (evaluated [], w)
  evaluate_all e variables name i (node arg args) w =
      if_evaluated (wrapped (argument i name) (evaluate e variables arg w)) (λ v w₁.
        if_evaluated (evaluate_all e variables name (i + 1) args w₁)
          (λ values w₂. (evaluated (v ∷ values), w₂)))
