-- ===== src/Expression/Evaluate/Postfix.antt =====
-- Evaluation as a run of the tree's postfix program.
use ncore.Common.{ℕ, String, none, some, List, [], ◌∷◌, ◌++◌, ltb, if◌then◌else◌, length, take}
use ncore.Expression.Value.{Value, text, basic}
use ncore.Expression.Parser.{
  Operator, Node, Nodes, number_node, string_node, identifier_node, binary_op_node,
  function_call_node, no_nodes, node,
}
use ncore.Expression.Evaluate.{
  Variables, variable, CallResult, gives, fails, call_panics, Function, Handlers, EvalError,
  undefined_variable, left_operand, right_operand, applying_operator, not_registered, argument,
  invalid_arguments, not_enough_arguments, returned_no_value, handler_error, Evaluated, evaluated,
  error, panics, if_evaluated,
}

pub data Instruction : Type 0 where
  push : Value → Instruction
  load : List ℕ → Instruction
  operate : Operator → Instruction
  open_call : List ℕ → Instruction
  close_call : List ℕ → Instruction

-- Operands before their operator, from left to right, and arguments between the two marks of a call.
unfoldable mutual
  pub program : Node → List Instruction
  program (number_node x) = push (basic x) ∷ []
  program (string_node s) = push (text s) ∷ []
  program (identifier_node name) = load name ∷ []
  program (binary_op_node op l r) = program l ++ (program r ++ operate op ∷ [])
  program (function_call_node name args) = open_call name ∷ (programs args ++ close_call name ∷ [])

  pub programs : Nodes → List Instruction
  programs no_nodes = []
  programs (node arg args) = program arg ++ programs args

-- One list of values for each open call, the last value first.
abbrev pub Frames : Type 0
Frames = List (List Value)

abbrev pub put : Value → Frames → Frames
put v [] = (v ∷ []) ∷ []
put v (frame ∷ frames) = (v ∷ frame) ∷ frames

abbrev pub put_reversed : List Value → List Value → List Value
put_reversed [] frame = frame
put_reversed (v ∷ values) frame = put_reversed values (v ∷ frame)

-- the answer of a handler, for the frames below
unfoldable pub answer :
    {W : Type 0} → (String → EvalError) → CallResult → Frames → W → Evaluated Frames × W
answer wrap (gives v) frames w = (evaluated (put v frames), w)
answer wrap (fails message) frames w = (error (wrap message), w)
answer wrap call_panics frames w = (panics, w)

-- the call of a function whose arguments are valid, if there are at least as many as it has parameters
unfoldable pub call_valid :
    {W : Type 0} → List ℕ → Function W → List Value → Frames → W → Evaluated Frames × W
unfolding answer
call_valid name f args frames w =
    if ltb (length args) f.num_in
    then (error (not_enough_arguments name f.num_in (length args)), w)
    else (let (results, w') = f.handler (take f.num_in args) w in
        elim results [
          | none ↦ (error returned_no_value, w')
          | some result ↦ answer handler_error result frames w'
        ])

unfoldable pub call :
    {W : Type 0} → List ℕ → Function W → List Value → Frames → W → Evaluated Frames × W
unfolding call_valid
call name f args frames w = elim f.validator [
  | none ↦ call_valid name f args frames w
  | some validate ↦
      let (invalid, w') = validate args w in
      elim invalid [
        | some message ↦ (error (invalid_arguments name message), w')
        | none ↦ call_valid name f args frames w'
      ]
]

unfoldable pub execute :
    {W : Type 0} → Handlers W → Variables → Instruction → Frames → W → Evaluated Frames × W
unfolding call answer
execute e variables (push v) frames w = (evaluated (put v frames), w)
execute e variables (load name) frames w = elim (variable name variables) [
  | none ↦ (error (undefined_variable name), w)
  | some v ↦ (evaluated (put v frames), w)
]
execute e variables (operate op) ((right ∷ (left ∷ frame)) ∷ frames) w =
    let (result, w') = e.operator_handler op left right w in
    answer (applying_operator op.name) result (frame ∷ frames) w'
execute e variables (operate op) frames w = (panics, w)
execute e variables (open_call name) frames w = elim (e.functions name) [
  | none ↦ (error (not_registered name), w)
  | some f ↦ (evaluated ([] ∷ frames), w)
]
execute e variables (close_call name) [] w = (panics, w)
execute e variables (close_call name) (frame ∷ frames) w = elim (e.functions name) [
  | none ↦ (panics, w)
  | some f ↦ call name f (put_reversed frame []) frames w
]

unfoldable pub run :
    {W : Type 0} → Handlers W → Variables → List Instruction → Frames → W → Evaluated Frames × W
unfolding execute if_evaluated
run e variables [] frames w = (evaluated frames, w)
run e variables (i ∷ is) frames w =
    if_evaluated (execute e variables i frames w) (λ frames₁ w₁. run e variables is frames₁ w₁)

-- the error that the others wrap
unfoldable pub root : EvalError → EvalError
root (left_operand cause) = root cause
root (right_operand cause) = root cause
root (argument index function cause) = root cause
root (undefined_variable name) = undefined_variable name
root (applying_operator name message) = applying_operator name message
root (not_registered name) = not_registered name
root (invalid_arguments function message) = invalid_arguments function message
root (not_enough_arguments function expected got) = not_enough_arguments function expected got
root returned_no_value = returned_no_value
root (handler_error message) = handler_error message

-- A value is put on the frames; an error is that at the root.
unfoldable pub on_frames : {W : Type 0} → Frames → Evaluated Value × W → Evaluated Frames × W
unfolding root
on_frames frames (evaluated v, w) = (evaluated (put v frames), w)
on_frames frames (error e, w) = (error (root e), w)
on_frames frames (panics, w) = (panics, w)
