-- ===== src/Expression/Evaluate/Runs.antt =====
-- The run of a tree's postfix program is its evaluation.
use ncore.Common.{
  ℕ, ◌+◌, ◌≡◌, refl, ap, sym, ◌∙◌, Option, none, some, List, [], ◌∷◌, ◌++◌, append-nil,
  Option-cases, inl, inr,
}
use ncore.Expression.Value.{Value, text, basic}
use ncore.Expression.Parser.{
  Operator, Node, Nodes, number_node, string_node, identifier_node, binary_op_node,
  function_call_node, no_nodes, node,
}
use ncore.Expression.Evaluate.{
  Variables, variable, Function, Handlers, EvalError, left_operand, right_operand,
  applying_operator, not_registered, Evaluated, evaluated, error, panics, if_evaluated, wrapped,
  apply_function, apply_operator, lookup_variable, evaluate, evaluate_all,
}
use ncore.Expression.Evaluate.Postfix.{
  Instruction, push, load, operate, open_call, close_call, program, programs, Frames, put,
  put_reversed, answer, call, execute, run, root, on_frames,
}
use ncore.Expression.Evaluate.Parts.{
  if_evaluated-evaluated, put_frame, all_on_frame, put_reversed-append, part_first, argument_first,
  arguments_first, by_result, call-apply_function,
}

root_left : (err : EvalError) → root (left_operand err) ≡ root err
unfolding root
root_left err = refl

root_right : (err : EvalError) → root (right_operand err) ≡ root err
unfolding root
root_right err = refl

module _ {W : Type 0} (e : Handlers W) (variables : Variables) where
  run-append :
      (xs ys : List Instruction) (frames : Frames) (w : W)
      → run e variables (xs ++ ys) frames w
        ≡ if_evaluated (run e variables xs frames w) (λ frames₁ w₁. run e variables ys frames₁ w₁)
  unfolding run if_evaluated
  run-append [] ys frames w = refl
  run-append (i ∷ is) ys frames w =
      onward (execute e variables i frames w) (λ frames₁ w₁. run-append is ys frames₁ w₁)
    where
      onward :
          (m : Evaluated Frames × W)
          → ((frames₁ : Frames) (w₁ : W)
              → run e variables (is ++ ys) frames₁ w₁
                ≡ if_evaluated
                    (run e variables is frames₁ w₁)
                    (λ frames₂ w₂. run e variables ys frames₂ w₂))
          → if_evaluated m (λ frames₁ w₁. run e variables (is ++ ys) frames₁ w₁)
            ≡ if_evaluated
                (if_evaluated m (λ frames₁ w₁. run e variables is frames₁ w₁))
                (λ frames₁ w₁. run e variables ys frames₁ w₁)
      onward (evaluated frames₁, w₁) ih = ih frames₁ w₁
      onward (error err, w₁) ih = refl
      onward (panics, w₁) ih = refl

  run_one :
      (i : Instruction) (frames : Frames) (w : W)
      → run e variables (i ∷ []) frames w ≡ execute e variables i frames w
  unfolding run
  run_one i frames w = if_evaluated-evaluated (execute e variables i frames w)

  operate-apply_operator :
      (op : Operator) (left right : Value) (frames : Frames) (w : W)
      → run e variables (operate op ∷ []) (put right (put left frames)) w
        ≡ on_frames frames (apply_operator e op left right w)
  unfolding apply_operator execute
  operate-apply_operator op left right frames w =
      run_one (operate op) (put right (put left frames)) w
      ∙ by_frames frames
      ∙ by_result op frames (e.operator_handler op left right w)
    where
      by_frames :
          (frames : Frames)
          → execute e variables (operate op) (put right (put left frames)) w
            ≡ answer
                (applying_operator op.name)
                (e.operator_handler op left right w).0
                (put_frame frames)
                (e.operator_handler op left right w).1
      by_frames [] = refl
      by_frames (frame ∷ frames) = refl

  close-apply_function :
      (name : List ℕ) (f : Function W) (values : List Value) (frames : Frames) (w : W)
      → e.functions name ≡ some f
      → run e variables (close_call name ∷ []) (put_reversed values [] ∷ frames) w
        ≡ on_frames frames (apply_function name f values w)
  unfolding execute
  close-apply_function name f values frames w there =
      run_one (close_call name) (put_reversed values [] ∷ frames) w
      ∙ rw (execute, there) refl
      ∙ ap (λ args. call name f args frames w)
          (put_reversed-append values [] [] ∙ append-nil values)
      ∙ call-apply_function name f values frames w

  load-lookup_variable :
      (name : List ℕ) (frames : Frames) (w : W)
      → execute e variables (load name) frames w
        ≡ on_frames frames (lookup_variable name variables, w)
  unfolding execute lookup_variable on_frames root
  load-lookup_variable name frames w = elim (Option-cases (variable name variables)) [
    | inl away ↦ rw (execute, away, lookup_variable) refl
    | inr (v, there) ↦ rw (execute, there, lookup_variable) refl
  ]

  run_nothing :
      (frame : List Value) (frames : Frames) (w : W)
      → run e variables [] (frame ∷ frames) w ≡ (evaluated (frame ∷ frames), w)
  unfolding run
  run_nothing frame frames w = refl

  push_value :
      (v : Value) (frames : Frames) (w : W)
      → run e variables (push v ∷ []) frames w ≡ on_frames frames (evaluated v, w)
  unfolding execute on_frames
  push_value v frames w = run_one (push v) frames w

  open_missing :
      (name : List ℕ) (rest : List Instruction) (frames : Frames) (w : W)
      → e.functions name ≡ none
      → run e variables (open_call name ∷ rest) frames w
        ≡ on_frames frames (error (not_registered name), w)
  unfolding run execute if_evaluated on_frames root
  open_missing name rest frames w away = rw (execute, away) refl

  open_found :
      (name : List ℕ) (f : Function W) (rest : List Instruction) (frames : Frames) (w : W)
      → e.functions name ≡ some f
      → run e variables (open_call name ∷ rest) frames w ≡ run e variables rest ([] ∷ frames) w
  unfolding run execute if_evaluated
  open_found name f rest frames w there = rw (execute, there) refl

  call_of :
      (name : List ℕ) (args : Nodes) (w : W) (o : Option (Function W))
      → e.functions name ≡ o
      → evaluate e variables (function_call_node name args) w ≡ elim o [
        | none ↦ (error (not_registered name), w)
        | some f ↦
            if_evaluated
              (evaluate_all e variables name 0 args w)
              (λ values w₁. apply_function name f values w₁)
      ]
  unfolding evaluate
  call_of name args w o is =
      ap
        (λ (o : Option (Function W)). elim o [
          | none ↦ (error (not_registered name), w)
          | some f ↦
              if_evaluated (evaluate_all e variables name 0 args w)
                (λ values w₁. apply_function name f values w₁)
        ])
        is

  mutual
    unfolding program evaluate

    run-program :
        (t : Node) (frames : Frames) (w : W)
        → run e variables (program t) frames w ≡ on_frames frames (evaluate e variables t w)
    run-program (number_node x) frames w = push_value (basic x) frames w
    run-program (string_node s) frames w = push_value (text s) frames w
    run-program (identifier_node name) frames w =
        run_one (load name) frames w ∙ load-lookup_variable name frames w
    run-program (binary_op_node op l r) frames w =
        run-append (program l) (program r ++ operate op ∷ []) frames w
        ∙ ap
            (λ m.
              if_evaluated m
                (λ frames₁ w₁. run e variables (program r ++ operate op ∷ []) frames₁ w₁))
            (run-program l frames w)
        ∙ part_first frames frames (evaluate e variables l w)
            (λ left w₁.
              if_evaluated (wrapped right_operand (evaluate e variables r w₁))
                (λ right w₂. apply_operator e op left right w₂))
            (λ frames₁ w₁. run e variables (program r ++ operate op ∷ []) frames₁ w₁) left_operand
            root_left
            (λ left w₁.
              run-append (program r) (operate op ∷ []) (put left frames) w₁
              ∙ ap
                  (λ m. if_evaluated m (λ frames₂ w₂. run e variables (operate op ∷ []) frames₂ w₂))
                  (run-program r (put left frames) w₁)
              ∙ part_first frames (put left frames) (evaluate e variables r w₁)
                  (λ right w₂. apply_operator e op left right w₂)
                  (λ frames₂ w₂. run e variables (operate op ∷ []) frames₂ w₂) right_operand
                  root_right (λ right w₂. operate-apply_operator op left right frames w₂))
    run-program (function_call_node name args) frames w = elim (Option-cases (e.functions name)) [
      | inl away ↦
          open_missing name (programs args ++ close_call name ∷ []) frames w away
          ∙ ap (on_frames frames) (sym (call_of name args w none away))
      | inr (f, there) ↦
          open_found name f (programs args ++ close_call name ∷ []) frames w there
          ∙ run-append (programs args) (close_call name ∷ []) ([] ∷ frames) w
          ∙ ap
              (λ m.
                if_evaluated m (λ frames₁ w₁. run e variables (close_call name ∷ []) frames₁ w₁))
              (run-programs args name 0 [] frames w)
          ∙ arguments_first frames (evaluate_all e variables name 0 args w)
              (λ values w₁. apply_function name f values w₁)
              (λ frames₁ w₁. run e variables (close_call name ∷ []) frames₁ w₁)
              (λ values w₁. close-apply_function name f values frames w₁ there)
          ∙ ap (on_frames frames) (sym (call_of name args w (some f) there))
    ]

    run-programs :
        (args : Nodes) (name : List ℕ) (i : ℕ) (frame : List Value) (frames : Frames) (w : W)
        → run e variables (programs args) (frame ∷ frames) w
          ≡ all_on_frame frame frames (evaluate_all e variables name i args w)
    run-programs no_nodes name i frame frames w = run_nothing frame frames w
    run-programs (node arg args) name i frame frames w =
        run-append (program arg) (programs args) (frame ∷ frames) w
        ∙ ap (λ m. if_evaluated m (λ frames₁ w₁. run e variables (programs args) frames₁ w₁))
            (run-program arg (frame ∷ frames) w)
        ∙ argument_first frame frames (evaluate e variables arg w)
            (λ w₁. evaluate_all e variables name (i + 1) args w₁)
            (λ frames₁ w₁. run e variables (programs args) frames₁ w₁) i name
            (λ v w₁. run-programs args name (i + 1) (v ∷ frame) frames w₁)

-- From any state, with any variables and handlers, the evaluation of a tree and the run of its postfix
-- program end in the same state with the same value, or both panic, or both end with an error, where
-- the program's error is the one at the root of the wrapped errors. The program computes operands and
-- arguments once each, from left to right; it looks a function up before its arguments, shows all of
-- them to the validator, then compares their number with that of the parameters, and calls the
-- handler with as many of the first arguments.
pub evaluate-run :
    {W : Type 0} (e : Handlers W) (variables : Variables) (t : Node) (w : W)
    → run e variables (program t) [] w ≡ on_frames [] (evaluate e variables t w)
evaluate-run e variables t w = run-program e variables t [] w
