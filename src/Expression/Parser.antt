-- ===== src/Expression/Parser.antt =====
-- validation/expression/expression.go: the parser.
-- A float64 is its 64 bits, a number, and strconv.ParseFloat is a field of the engine. The tokens
-- from p.current on are a list. The recursion runs on fuel, one unit for each call or round. p.depth is
-- an argument: it is put back when parseExpression returns, and is not read after an error.
-- A handler of an operator is left to the evaluation; precedences are natural numbers.
pub mod Closed
pub mod Operand
pub mod Total
pub mod Print
pub mod Spine
pub mod Operands
pub mod RoundTrip
pub mod Compile
use ncore.Common.{
  ℕ, zero, suc, ◌+◌, ◌*◌, Option, none, some, List, [], ◌∷◌, Bool, true, false, ltb, leb, not, ◌==◌,
  ◌&&◌, ◌||◌, if◌then◌else◌, length,
}
use ncore.Expression.Tokens.{
  TokenType, Token, token_eof, token_number, token_string, token_identifier, token_operator,
  token_lparen, token_rparen, token_comma, tokenize, lexed, lex_error, still_running,
}

pub record Operator : Type 0 where
  pub name : List ℕ
  pub precedence : ℕ

-- the operators map, MaxDepth, and strconv.ParseFloat
pub record Engine : Type 0 where
  pub operators : List ℕ → Option Operator
  pub max_depth : ℕ
  pub parse_float : List ℕ → Option ℕ

-- `Nodes` are the arguments of a call.
mutual
  pub data Node : Type 0 where
    number_node : ℕ → Node
    string_node : List ℕ → Node
    identifier_node : List ℕ → Node
    binary_op_node : Operator → Node → Node → Node
    function_call_node : List ℕ → Nodes → Node

  pub data Nodes : Type 0 where
    no_nodes : Nodes
    node : Node → Nodes → Nodes

abbrev pub Tokens : Type 0
Tokens = List (Option Token)

pub data ParseError : Type 0 where
  depth_exceeded invalid_number expected_rparen unexpected_token : ParseError
  unexpected_end expected_comma : ParseError

-- `panicked`: an index out of range, or a nil token
pub data Parsed (A : Type 0) : Type 0 where
  parsed : A → Tokens → Parsed A
  failed : ParseError → Parsed A
  panicked : Parsed A
  out_of_fuel : Parsed A

-- `if err != nil { return nil, err }`
abbrev pub and_then : {A B : Type 0} → Parsed A → (A → Tokens → Parsed B) → Parsed B
and_then (parsed a rest) next = next a rest
and_then (failed e) next = failed e
and_then panicked next = panicked
and_then out_of_fuel next = out_of_fuel

-- the current token
pub data Peek : Type 0 where
  at_end : Peek
  nil_token : Peek
  seen : Token → Tokens → Peek

abbrev pub peek : Tokens → Peek
peek [] = at_end
peek (none ∷ ts) = nil_token
peek (some t ∷ ts) = seen t ts

abbrev pub is_type_operator : TokenType → Bool
is_type_operator token_operator = true
is_type_operator _ = false

abbrev pub is_type_lparen : TokenType → Bool
is_type_lparen token_lparen = true
is_type_lparen _ = false

abbrev pub is_type_rparen : TokenType → Bool
is_type_rparen token_rparen = true
is_type_rparen _ = false

abbrev pub is_type_comma : TokenType → Bool
is_type_comma token_comma = true
is_type_comma _ = false

-- what the loop of parseBinaryExpression finds: the end of the operand, or an operator to apply
pub data Continuation : Type 0 where
  ends : Continuation
  nil_found : Continuation
  applies : Operator → Tokens → Continuation

unfoldable pub continuation : Engine → ℕ → Tokens → Continuation
continuation p precedence ts = elim (peek ts) [
  | at_end ↦ ends
  | nil_token ↦ nil_found
  | seen t rest ↦
      if is_type_operator t.type
      then (elim (p.operators t.value) [
        | none ↦ ends
        | some op ↦ if ltb op.precedence precedence then ends else applies op rest
      ])
      else ends
]

unfoldable pub is_too_deep : Engine → ℕ → Bool
is_too_deep p depth = ltb 0 p.max_depth && ltb p.max_depth depth

-- "expected )"
unfoldable pub close_paren : Node → Tokens → Parsed Node
close_paren expr ts = elim (peek ts) [
  | at_end ↦ failed expected_rparen
  | nil_token ↦ panicked
  | seen t rest ↦ if is_type_rparen t.type then parsed expr rest else failed expected_rparen
]

unfoldable mutual
  pub parse_expression : Engine → ℕ → ℕ → Tokens → Parsed Node
  parse_expression p zero depth ts = out_of_fuel
  parse_expression p (suc fuel) depth ts =
      if is_too_deep p (depth + 1)
      then failed depth_exceeded
      else parse_binary_expression p fuel (depth + 1) 0 ts

  pub parse_binary_expression : Engine → ℕ → ℕ → ℕ → Tokens → Parsed Node
  parse_binary_expression p zero depth precedence ts = out_of_fuel
  parse_binary_expression p (suc fuel) depth precedence ts =
      and_then (parse_primary_expression p fuel depth ts)
        (λ left rest. binary_loop p fuel depth precedence left rest)

  pub binary_loop : Engine → ℕ → ℕ → ℕ → Node → Tokens → Parsed Node
  binary_loop p zero depth precedence left ts = out_of_fuel
  binary_loop p (suc fuel) depth precedence left ts = elim (continuation p precedence ts) [
    | ends ↦ parsed left ts
    | nil_found ↦ panicked
    | applies op rest ↦
        and_then (parse_binary_expression p fuel depth (op.precedence + 1) rest)
          (λ right rest'. binary_loop p fuel depth precedence (binary_op_node op left right) rest')
  ]

  pub parse_primary_expression : Engine → ℕ → ℕ → Tokens → Parsed Node
  parse_primary_expression p zero depth ts = out_of_fuel
  parse_primary_expression p (suc fuel) depth [] = panicked
  parse_primary_expression p (suc fuel) depth (none ∷ ts) = panicked
  parse_primary_expression p (suc fuel) depth (some t ∷ ts) = elim t.type [
    | token_number ↦ elim (p.parse_float t.value) [
      | none ↦ failed invalid_number
      | some value ↦ parsed (number_node value) ts
    ]
    | token_string ↦ parsed (string_node t.value) ts
    | token_identifier ↦ identifier_or_call p fuel depth t.value ts
    | token_lparen ↦ and_then (parse_expression p fuel depth ts) close_paren
    | _ ↦ failed unexpected_token
  ]

  -- "Look ahead for function call"
  pub identifier_or_call : Engine → ℕ → ℕ → List ℕ → Tokens → Parsed Node
  identifier_or_call p zero depth name ts = out_of_fuel
  identifier_or_call p (suc fuel) depth name ts = elim (peek ts) [
    | at_end ↦ parsed (identifier_node name) ts
    | nil_token ↦ panicked
    | seen t rest ↦
        if is_type_lparen t.type
        then and_then (arguments p fuel depth false rest)
            (λ args rest'. parsed (function_call_node name args) rest')
        else parsed (identifier_node name) ts
  ]

  -- the loop of parseFunctionCall; `some_read`: len(args) > 0
  pub arguments : Engine → ℕ → ℕ → Bool → Tokens → Parsed Nodes
  arguments p zero depth some_read ts = out_of_fuel
  arguments p (suc fuel) depth some_read ts = elim (peek ts) [
    | at_end ↦ failed unexpected_end
    | nil_token ↦ panicked
    | seen t rest ↦
        if is_type_rparen t.type
        then parsed no_nodes rest
        else if some_read && not (is_type_comma t.type)
        then failed expected_comma
        else and_then (parse_expression p fuel depth (if some_read then rest else ts)) (λ arg rest'.
          and_then (arguments p fuel depth true rest')
            (λ args rest''. parsed (node arg args) rest''))
  ]

-- enough fuel for the tokens
unfoldable pub parse : Engine → Tokens → Parsed Node
unfolding parse_expression
parse p tokens = parse_expression p (4 * length tokens + 3) 0 tokens

-- "Tokenize expression" and "Parse tokens into AST"
pub data Compiled : Type 0 where
  tokenize_error : Compiled
  tokenizing : Compiled
  parse_result : Parsed Node → Compiled

unfoldable pub compile : Engine → ℕ → List ℕ → Compiled
compile p rounds expr = elim (tokenize rounds expr) [
  | lexed tokens ↦ parse_result (parse p tokens)
  | lex_error ↦ tokenize_error
  | still_running tokens ↦ tokenizing
]
