-- ===== src/Expression/Parser/Print.antt =====
-- A syntax tree as tokens, with as few parentheses as the precedences allow.
-- `print show q t rest` has `t` where an operator must bind at least as tight as `q`, and `rest` behind.
use Prim.Native.Nat.{max}
use ncore.Common.{
  ℕ, ◌+◌, ◌*◌, ◌≤◌, ◌≡◌, Option, some, List, [], ◌∷◌, Bool, true, false, ltb, if◌then◌else◌, length,
  arith, Bool-cases, inl, inr,
}
use ncore.Expression.Tokens.{
  TokenType, Token, token_number, token_string, token_identifier, token_operator, token_lparen,
  token_rparen, token_comma,
}
use ncore.Expression.Parser.{
  Engine, Node, Nodes, Tokens, number_node, string_node, identifier_node, binary_op_node,
  function_call_node, no_nodes, node,
}

abbrev pub token : TokenType → List ℕ → Option Token
token type value = some (record { type = type; value = value; line = 1; col = 1 })

abbrev pub lparen : Option Token
lparen = token token_lparen (40 ∷ [])

abbrev pub rparen : Option Token
rparen = token token_rparen (41 ∷ [])

abbrev pub comma : Option Token
comma = token token_comma (44 ∷ [])

unfoldable mutual
  pub print : (ℕ → List ℕ) → ℕ → Node → Tokens → Tokens
  print show q (number_node x) rest = token token_number (show x) ∷ rest
  print show q (string_node s) rest = token token_string s ∷ rest
  print show q (identifier_node name) rest = token token_identifier name ∷ rest
  print show q (binary_op_node op l r) rest =
      if ltb op.precedence q
      then lparen
        ∷ print show op.precedence l
            (token token_operator op.name ∷ print show (op.precedence + 1) r (rparen ∷ rest))
      else print show op.precedence l
          (token token_operator op.name ∷ print show (op.precedence + 1) r rest)
  print show q (function_call_node name args) rest =
      token token_identifier name ∷ lparen ∷ print_arguments show false args rest

  pub print_arguments : (ℕ → List ℕ) → Bool → Nodes → Tokens → Tokens
  print_arguments show some_read no_nodes rest = rparen ∷ rest
  print_arguments show some_read (node arg args) rest =
      let printed = print show 0 arg (print_arguments show true args rest) in
      if some_read then comma ∷ printed else printed

-- Every operator is the one registered under its name, and every number is read back.
unfoldable mutual
  pub IsSound : Engine → (ℕ → List ℕ) → Node → Type 0
  IsSound p show (number_node x) = p.parse_float (show x) ≡ some x
  IsSound p show (string_node s) = Unit
  IsSound p show (identifier_node name) = Unit
  IsSound p show (binary_op_node op l r) =
      (p.operators op.name ≡ some op) × IsSound p show l × IsSound p show r
  IsSound p show (function_call_node name args) = AreSound p show args

  pub AreSound : Engine → (ℕ → List ℕ) → Nodes → Type 0
  AreSound p show no_nodes = Unit
  AreSound p show (node arg args) = IsSound p show arg × AreSound p show args

-- how many parentheses and argument lists stand around the innermost part
unfoldable mutual
  pub nesting : ℕ → Node → ℕ
  nesting q (number_node x) = 0
  nesting q (string_node s) = 0
  nesting q (identifier_node name) = 0
  nesting q (binary_op_node op l r) =
      let inner = max (nesting op.precedence l) (nesting (op.precedence + 1) r) in
      if ltb op.precedence q then inner + 1 else inner
  nesting q (function_call_node name args) = arguments_nesting args

  pub arguments_nesting : Nodes → ℕ
  arguments_nesting no_nodes = 0
  arguments_nesting (node arg args) = max (nesting 0 arg + 1) (arguments_nesting args)

-- the fuel that reading the tokens takes
unfoldable mutual
  pub weight : ℕ → Node → ℕ
  weight q (number_node x) = 2
  weight q (string_node s) = 2
  weight q (identifier_node name) = 3
  weight q (binary_op_node op l r) =
      let inner = weight op.precedence l + weight (op.precedence + 1) r + 2 in
      if ltb op.precedence q then inner + 3 else inner
  weight q (function_call_node name args) = arguments_weight args + 3

  pub arguments_weight : Nodes → ℕ
  arguments_weight no_nodes = 1
  arguments_weight (node arg args) = weight 0 arg + 3 + arguments_weight args

mutual
  unfolding print weight

  -- The tokens are enough for the fuel.
  pub print-weight :
      (show : ℕ → List ℕ) (q : ℕ) (t : Node) (rest : Tokens)
      → weight q t + 4 * length rest ≤ 4 * length (print show q t rest)
  print-weight show q (number_node x) rest = omega arith
  print-weight show q (string_node s) rest = omega arith
  print-weight show q (identifier_node name) rest = omega arith
  print-weight show q (binary_op_node op l r) rest =
      let right = print-weight show (op.precedence + 1) r in
      let left = print-weight show op.precedence l in
      elim (Bool-cases (ltb op.precedence q)) [
        | inl loose ↦ rw loose (
            omega (
              arith,
              right (rparen ∷ rest),
              left
                  (token token_operator op.name ∷ print show (op.precedence + 1) r (rparen ∷ rest)),
            ))
        | inr tight ↦ rw tight (
            omega (
              arith,
              right rest,
              left (token token_operator op.name ∷ print show (op.precedence + 1) r rest),
            ))
      ]
  print-weight show q (function_call_node name args) rest =
      omega (arith, print_arguments-weight show false args rest)

  print_arguments-weight :
      (show : ℕ → List ℕ) (some_read : Bool) (args : Nodes) (rest : Tokens)
      → arguments_weight args + 4 * length rest
        ≤ 4 * length (print_arguments show some_read args rest) + (if some_read then 0 else 3)
  print_arguments-weight show some_read no_nodes rest = omega arith
  print_arguments-weight show false (node arg args) rest = omega (
    arith,
    print_arguments-weight show true args rest,
    print-weight show 0 arg (print_arguments show true args rest),
  )
  print_arguments-weight show true (node arg args) rest = omega (
    arith,
    print_arguments-weight show true args rest,
    print-weight show 0 arg (print_arguments show true args rest),
  )
