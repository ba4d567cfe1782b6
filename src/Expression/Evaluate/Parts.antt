-- ===== src/Expression/Evaluate/Parts.antt =====
-- What the parts of an evaluation leave on the frames of the postfix program.
use ncore.Common.{
  ℕ, ◌≡◌, refl, ap, sym, ◌∙◌, String, Option, none, some, List, [], ◌∷◌, ◌++◌, ltb, length, take,
  inl, inr, Bool-cases,
}
use ncore.Expression.Value.{Value}
use ncore.Expression.Parser.{Operator}
use ncore.Expression.Evaluate.{
  CallResult, gives, fails, call_panics, Function, EvalError, applying_operator, argument,
  invalid_arguments, returned_no_value, handler_error, Evaluated, evaluated, error, panics,
  if_evaluated, wrapped, call_handler, check_number, apply_function,
}
use ncore.Expression.Evaluate.Postfix.{
  Frames, put, put_reversed, answer, call_valid, call, root, on_frames,
}

pub if_evaluated-evaluated :
    {A W : Type 0} (m : Evaluated A × W) → if_evaluated m (λ a w. (evaluated a, w)) ≡ m
unfolding if_evaluated
if_evaluated-evaluated (evaluated a, w) = refl
if_evaluated-evaluated (error e, w) = refl
if_evaluated-evaluated (panics, w) = refl

-- `[]` stands for the frame of the whole expression before its first value.
abbrev pub put_frame : Frames → Frames
put_frame [] = [] ∷ []
put_frame (frame ∷ frames) = frame ∷ frames

-- the values of the arguments, on a frame
abbrev pub all_on_frame :
    {W : Type 0} → List Value → Frames → Evaluated (List Value) × W → Evaluated Frames × W
all_on_frame frame frames (evaluated values, w) =
    (evaluated (put_reversed values frame ∷ frames), w)
all_on_frame frame frames (error e, w) = (error (root e), w)
all_on_frame frame frames (panics, w) = (panics, w)

pub put_reversed-append :
    (xs frame ys : List Value)
    → put_reversed (put_reversed xs frame) ys ≡ put_reversed frame (xs ++ ys)
put_reversed-append [] frame ys = refl
put_reversed-append (x ∷ xs) frame ys = put_reversed-append xs (x ∷ frame) ys

module _ {W : Type 0} where
  -- a node whose first part gives the value `v`
  pub part_first :
      (below above : Frames) (m : Evaluated Value × W) (next : Value → W → Evaluated Value × W)
      (rest : Frames → W → Evaluated Frames × W) (wrap : EvalError → EvalError)
      → ((err : EvalError) → root (wrap err) ≡ root err)
      → ((v : Value) (w₁ : W) → rest (put v above) w₁ ≡ on_frames below (next v w₁))
      → if_evaluated (on_frames above m) rest ≡ on_frames below (if_evaluated (wrapped wrap m) next)
  unfolding if_evaluated on_frames wrapped
  part_first below above (evaluated v, w₁) next rest wrap same h = h v w₁
  part_first below above (error err, w₁) next rest wrap same h =
      ap (λ r. (error r, w₁)) (sym (same err))
  part_first below above (panics, w₁) next rest wrap same h = refl

  -- the values of the other arguments behind that of the first
  rest_behind :
      (v : Value) (frame : List Value) (frames : Frames) (m : Evaluated (List Value) × W)
      → all_on_frame (v ∷ frame) frames m
        ≡ all_on_frame frame frames (if_evaluated m (λ values w₂. (evaluated (v ∷ values), w₂)))
  unfolding if_evaluated
  rest_behind v frame frames (evaluated values, w) = refl
  rest_behind v frame frames (error e, w) = refl
  rest_behind v frame frames (panics, w) = refl

  pub argument_first :
      (frame : List Value) (frames : Frames) (m : Evaluated Value × W)
      (others : W → Evaluated (List Value) × W) (rest : Frames → W → Evaluated Frames × W) (i : ℕ)
      (name : List ℕ)
      → ((v : Value) (w₁ : W)
          → rest ((v ∷ frame) ∷ frames) w₁ ≡ all_on_frame (v ∷ frame) frames (others w₁))
      → if_evaluated (on_frames (frame ∷ frames) m) rest
        ≡ all_on_frame frame frames (
            if_evaluated
              (wrapped (argument i name) m)
              (λ v w₁. if_evaluated (others w₁) (λ values w₂. (evaluated (v ∷ values), w₂))))
  unfolding if_evaluated on_frames wrapped root
  argument_first frame frames (evaluated v, w₁) others rest i name h =
      h v w₁ ∙ rest_behind v frame frames (others w₁)
  argument_first frame frames (error err, w₁) others rest i name h = refl
  argument_first frame frames (panics, w₁) others rest i name h = refl

  pub arguments_first :
      (frames : Frames) (m : Evaluated (List Value) × W)
      (next : List Value → W → Evaluated Value × W) (rest : Frames → W → Evaluated Frames × W)
      → ((values : List Value) (w₁ : W)
          → rest (put_reversed values [] ∷ frames) w₁ ≡ on_frames frames (next values w₁))
      → if_evaluated (all_on_frame [] frames m) rest ≡ on_frames frames (if_evaluated m next)
  unfolding if_evaluated on_frames
  arguments_first frames (evaluated values, w₁) next rest h = h values w₁
  arguments_first frames (error err, w₁) next rest h = refl
  arguments_first frames (panics, w₁) next rest h = refl

  pub by_result :
      (op : Operator) (frames : Frames) (done : CallResult × W)
      → answer (applying_operator op.name) done.0 (put_frame frames) done.1
        ≡ on_frames frames (elim done.0 [
          | gives v ↦ (evaluated v, done.1)
          | fails message ↦ (error (applying_operator op.name message), done.1)
          | call_panics ↦ (panics, done.1)
        ])
  unfolding answer on_frames root
  by_result op [] (gives v, w) = refl
  by_result op (frame ∷ frames) (gives v, w) = refl
  by_result op frames (fails message, w) = refl
  by_result op frames (call_panics, w) = refl

  by_results :
      (frames : Frames) (results : Option CallResult) (w : W)
      → elim results [
        | none ↦ (error returned_no_value, w)
        | some result ↦ answer handler_error result frames w
      ]
        ≡ on_frames frames (elim results [
          | none ↦ (error returned_no_value, w)
          | some (gives v) ↦ (evaluated v, w)
          | some (fails message) ↦ (error (handler_error message), w)
          | some call_panics ↦ (panics, w)
        ])
  unfolding answer on_frames root
  by_results frames none w = refl
  by_results frames (some (gives v)) w = refl
  by_results frames (some (fails message)) w = refl
  by_results frames (some call_panics) w = refl

  call_valid-check_number :
      (name : List ℕ) (f : Function W) (args : List Value) (frames : Frames) (w : W)
      → call_valid name f args frames w ≡ on_frames frames (check_number name f args w)
  unfolding call_valid check_number call_handler on_frames root
  call_valid-check_number name f args frames w = elim (Bool-cases (ltb (length args) f.num_in)) [
    | inl few ↦ rw few refl
    | inr enough ↦ rw enough (
        by_results frames (f.handler (take f.num_in args) w).0 (f.handler (take f.num_in args) w).1)
  ]

  pub call-apply_function :
      (name : List ℕ) (f : Function W) (args : List Value) (frames : Frames) (w : W)
      → call name f args frames w ≡ on_frames frames (apply_function name f args w)
  unfolding call apply_function on_frames root
  call-apply_function name f args frames w = by_validator f.validator
    where
      by_answer :
          (a : Option String × W)
          → elim a.0 [
            | some message ↦ (error (invalid_arguments name message), a.1)
            | none ↦ call_valid name f args frames a.1
          ]
            ≡ on_frames frames (elim a.0 [
              | some message ↦ (error (invalid_arguments name message), a.1)
              | none ↦ check_number name f args a.1
            ])
      by_answer (some message, w') = refl
      by_answer (none, w') = call_valid-check_number name f args frames w'

      by_validator :
          (o : Option (List Value → W → Option String × W))
          → elim o [
            | none ↦ call_valid name f args frames w
            | some validate ↦ elim (validate args w).0 [
              | some message ↦ (error (invalid_arguments name message), (validate args w).1)
              | none ↦ call_valid name f args frames (validate args w).1
            ]
          ]
            ≡ on_frames frames (elim o [
              | none ↦ check_number name f args w
              | some validate ↦ elim (validate args w).0 [
                | some message ↦ (error (invalid_arguments name message), (validate args w).1)
                | none ↦ check_number name f args (validate args w).1
              ]
            ])
      by_validator none = call_valid-check_number name f args frames w
      by_validator (some validate) = by_answer (validate args w)
