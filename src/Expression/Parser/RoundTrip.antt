-- ===== src/Expression/Parser/RoundTrip.antt =====
-- The parser reads back what is printed.
use ncore.Common.{
  ℕ, zero, suc, ◌+◌, ◌-◌, ◌≤◌, ◌≡◌, refl, ap, ◌∙◌, none, some, List, [], ◌∷◌, Bool, true, false,
  ltb, arith, Bool-cases, inl, inr,
}
use ncore.Expression.Tokens.{token_eof, token_operator}
use ncore.Expression.Parser.{
  Engine, Node, Nodes, Tokens, Parsed, parsed, and_then, peek, at_end, nil_token, seen,
  continuation, ends, is_too_deep, parse_expression, parse_binary_expression, parse, arguments,
  is_type_rparen, number_node, string_node, identifier_node, binary_op_node, function_call_node,
  no_nodes, node,
}
use ncore.Expression.Parser.Print.{
  token, print, print_arguments, IsSound, AreSound, nesting, arguments_nesting, weight,
  arguments_weight, print-weight,
}
use ncore.Expression.Parser.Spine.{NotCall, IsFlat, IsFlat-le, IsRead}
use ncore.Expression.Parser.Operands.{
  from_primary, number-IsRead, string-IsRead, identifier-IsRead, operation-IsRead, argument_read,
}

module _ (p : Engine) (show : ℕ → List ℕ) where
  -- the list of arguments, from behind its parenthesis
  abbrev AreRead : Nodes → Type 0
  AreRead args =
      (d fuel : ℕ) (some_read : Bool) (rest : Tokens)
      → IsFlat p (d + arguments_nesting args)
      → arguments_weight args ≤ fuel
      → arguments p fuel d some_read (print_arguments show some_read args rest) ≡ parsed args rest

  no_arguments-AreRead : AreRead no_nodes
  unfolding arguments print_arguments arguments_weight
  no_arguments-AreRead d zero some_read rest flat enough = absurd (omega (arith, enough))
  no_arguments-AreRead d (suc fuel) some_read rest flat enough = refl

  -- The first token of a tree opens no list and closes none.
  abbrev IsOpening : Tokens → Type 0
  IsOpening ts = elim (peek ts) [
    | at_end ↦ ⊥
    | nil_token ↦ ⊥
    | seen t rest ↦ is_type_rparen t.type ≡ false
  ]

  print-IsOpening : (q : ℕ) (t : Node) (rest : Tokens) → IsOpening (print show q t rest)
  unfolding print
  print-IsOpening q (number_node x) rest = refl
  print-IsOpening q (string_node s) rest = refl
  print-IsOpening q (identifier_node name) rest = refl
  print-IsOpening q (function_call_node name args) rest = refl
  print-IsOpening q (binary_op_node op l r) rest = elim (Bool-cases (ltb op.precedence q)) [
    | inl loose ↦ rw loose refl
    | inr tight ↦ rw tight (
        print-IsOpening op.precedence l
          (token token_operator op.name ∷ print show (op.precedence + 1) r rest))
  ]

  -- the rest of a list: a comma or a parenthesis first
  print_arguments-NotCall :
      (args : Nodes) (rest : Tokens)
      → NotCall (print_arguments show true args rest)
        × (continuation p 0 (print_arguments show true args rest) ≡ ends)
  unfolding print_arguments continuation
  print_arguments-NotCall no_nodes rest = (refl, refl)
  print_arguments-NotCall (node arg args) rest = (refl, refl)

  arguments-opening :
      (fuel d : ℕ) (ts : Tokens)
      → IsOpening ts
      → arguments p (suc fuel) d false ts
        ≡ and_then (parse_expression p fuel d ts) (λ arg rest.
          and_then (arguments p fuel d true rest) (λ args rest'. parsed (node arg args) rest'))
  unfolding arguments
  arguments-opening fuel d [] h = absurd h
  arguments-opening fuel d (none ∷ ts) h = absurd h
  arguments-opening fuel d (some t ∷ ts) h = rw (h, arguments) refl

  list_from : ℕ → ℕ → Node → Tokens → Parsed Nodes
  list_from fuel d arg rest =
      and_then (arguments p fuel d true rest) (λ args rest'. parsed (node arg args) rest')

  more_arguments-AreRead :
      (arg : Node) (args : Nodes) → IsRead p show arg → AreRead args → AreRead (node arg args)
  unfolding arguments print_arguments arguments_weight arguments_nesting list_from
  more_arguments-AreRead arg args read reads d zero some_read rest flat enough =
      absurd (omega (arith, enough))
  more_arguments-AreRead arg args read reads d (suc fuel) some_read rest flat enough =
      let others = print_arguments show true args rest in
      let behind = print_arguments-NotCall args rest in
      let first =
        argument_read p show arg d fuel others read (IsFlat-le p _ _ (omega arith) flat) behind.0
          behind.1 (omega (arith, enough)) in
      let later =
        reads d fuel true rest (IsFlat-le p _ _ (omega arith) flat) (omega (arith, enough)) in
      let both : and_then (parse_expression p fuel d (print show 0 arg others)) (list_from fuel d)
          ≡ parsed (node arg args) rest =
        ap (λ x. and_then x (list_from fuel d)) first
        ∙ ap (λ x. and_then x (λ more rest'. parsed (node arg more) rest')) later in
      elim some_read
        as (λ b.
          arguments p (suc fuel) d b (print_arguments show b (node arg args) rest)
          ≡ parsed (node arg args) rest) [
            | true ↦ both
            | false ↦
                arguments-opening fuel d (print show 0 arg others) (print-IsOpening 0 arg others)
                ∙ both
          ]

  call-IsRead :
      (name : List ℕ) (args : Nodes) → AreRead args → IsRead p show (function_call_node name args)
  unfolding weight nesting print parse_expression
  call-IsRead name args reads q prec d fuel rest le flat follows enough =
      let inner : ℕ = fuel - 3 in
      let is_inner : fuel ≡ suc (suc (suc inner)) = omega (arith, enough) in
      let listed = reads d inner false rest flat (omega (arith, enough)) in
      (
        suc (suc inner),
        omega (arith, is_inner),
        ap
              (λ n.
                parse_binary_expression p n d prec
                  (print show q (function_call_node name args) rest))
              is_inner
            ∙ from_primary p show (suc (suc inner)) d prec (function_call_node name args)
                (print show q (function_call_node name args) rest) rest
                (ap (λ x. and_then x (λ more rest'. parsed (function_call_node name more) rest'))
                  listed),
      )

mutual
  unfolding IsSound

  print-IsRead : (p : Engine) (show : ℕ → List ℕ) (t : Node) → IsSound p show t → IsRead p show t
  print-IsRead p show (number_node x) sound = number-IsRead p show x sound
  print-IsRead p show (string_node s) sound = string-IsRead p show s
  print-IsRead p show (identifier_node name) sound = identifier-IsRead p show name
  print-IsRead p show (binary_op_node op l r) sound =
      operation-IsRead p show op l r (print-IsRead p show l sound.1) (print-IsRead p show r sound.2)
        sound.0
  print-IsRead p show (function_call_node name args) sound =
      call-IsRead p show name args (print-AreRead p show args sound)

  print-AreRead :
      (p : Engine) (show : ℕ → List ℕ) (args : Nodes) → AreSound p show args → AreRead p show args
  print-AreRead p show no_nodes sound = no_arguments-AreRead p show
  print-AreRead p show (node arg args) sound =
      more_arguments-AreRead p show arg args (print-IsRead p show arg sound.0)
        (print-AreRead p show args sound.1)

-- The tokens of a tree, printed with parentheses only where the precedences want them, and EOF, are parsed
-- to that tree, up to EOF: operators of one precedence group to the left, and those of a higher one first.
-- This is when each operator is the one registered under its name, ParseFloat reads back the text of
-- each number, and the parentheses and argument lists are not deeper than MaxDepth allows.
pub parse-print :
    (p : Engine) (show : ℕ → List ℕ) (t : Node)
    → IsSound p show t
    → is_too_deep p (nesting 0 t + 1) ≡ false
    → parse p (print show 0 t (token token_eof [] ∷ [])) ≡ parsed t (token token_eof [] ∷ [])
unfolding parse continuation
parse-print p show t sound flat =
    let eof = token token_eof [] ∷ [] in
    let enough = print-weight show 0 t eof in
    argument_read p show t 0 _ eof (print-IsRead p show t sound)
      (IsFlat-le p _ _ (omega arith) flat) refl refl (omega (arith, enough))
