-- ===== src/Expression/Tokens.antt =====
-- validation/expression/expression.go: tokenize and its readers.
-- A string is the list of its bytes. The position in the input is the part that is left of it, and a
-- reader returns what it leaves. A token may be the nil pointer, `none`. The loop of tokenize runs on
-- fuel, one unit for each round; `still_running` has the tokens that the rounds have appended.
pub mod Clash
pub mod Readers
pub mod Ends
use ncore.Common.{
  ℕ, zero, suc, ◌+◌, ◌-◌, Option, none, some, List, [], ◌∷◌, ◌++◌, Bool, true, false, leb, not,
  ◌==◌, ◌&&◌, ◌||◌, if◌then◌else◌, length,
}

pub data TokenType : Type 0 where
  token_eof token_number token_string token_identifier token_operator : TokenType
  token_lparen token_rparen token_dot token_comma token_function : TokenType

pub record Token : Type 0 where
  pub type : TokenType
  pub value : List ℕ
  pub line : ℕ
  pub col : ℕ

unfoldable pub is_whitespace : ℕ → Bool
is_whitespace c = c == 32 || c == 9 || c == 10 || c == 13

unfoldable pub is_digit : ℕ → Bool
is_digit c = leb 48 c && leb c 57

unfoldable pub is_letter : ℕ → Bool
is_letter c = leb 97 c && leb c 122 || leb 65 c && leb c 90

unfoldable pub byte_in : ℕ → List ℕ → Bool
byte_in c [] = false
byte_in c (d ∷ ds) = c == d || byte_in c ds

-- "+-*/%=!<>|&"
abbrev pub operator_bytes : List ℕ
operator_bytes = 43 ∷ 45 ∷ 42 ∷ 47 ∷ 37 ∷ 61 ∷ 33 ∷ 60 ∷ 62 ∷ 124 ∷ 38 ∷ []

unfoldable pub is_operator : ℕ → Bool
unfolding byte_in
is_operator c = byte_in c operator_bytes

-- what a reader takes: the bytes of the token, and the rest
number_bytes : Bool → List ℕ → List ℕ × List ℕ
unfolding is_digit
number_bytes has_dot [] = ([], [])
number_bytes has_dot (char ∷ input) =
    let (bytes, rest) = number_bytes (has_dot || not (is_digit char)) input in
    if is_digit char || char == 46 && not has_dot then (char ∷ bytes, rest) else ([], char ∷ input)

unfoldable pub read_number : List ℕ → ℕ → ℕ → Token × List ℕ
unfolding number_bytes
read_number input line col =
    let (bytes, rest) = number_bytes false input in
    (record { type = token_number; value = bytes; line = line; col = col }, rest)

identifier_bytes : List ℕ → List ℕ × List ℕ
unfolding is_letter is_digit
identifier_bytes [] = ([], [])
identifier_bytes (char ∷ input) =
    let (bytes, rest) = identifier_bytes input in
    if is_letter char || is_digit char || char == 95
    then (char ∷ bytes, rest)
    else ([], char ∷ input)

unfoldable pub read_identifier : List ℕ → ℕ → ℕ → Token × List ℕ
unfolding identifier_bytes
read_identifier input line col =
    let (bytes, rest) = identifier_bytes input in
    (record { type = token_identifier; value = bytes; line = line; col = col }, rest)

-- `n`, `t`, `r`, the backslash and the two quotes
unfoldable pub escaped : ℕ → Option ℕ
escaped char =
    if char == 110
    then some 10
    else if char == 116
    then some 9
    else if char == 114
    then some 13
    else if char == 92 || char == 34 || char == 39
    then some char
    else none

-- with the bytes written so far; no result for a bad escape or a string that does not end
string_bytes : ℕ → List ℕ → List ℕ → Option (List ℕ × List ℕ)
unfolding escaped
string_bytes quote bytes [] = none
string_bytes quote bytes (char ∷ []) = if char == quote then some (bytes, []) else none
string_bytes quote bytes (char ∷ next ∷ input) = elim (char == quote) [
  | true ↦ some (bytes, next ∷ input)
  | false ↦ elim (char == 92) [
    | true ↦ elim (escaped next) [
      | none ↦ none
      | some b ↦ string_bytes quote (bytes ++ b ∷ []) input
    ]
    | false ↦ string_bytes quote (bytes ++ char ∷ []) (next ∷ input)
  ]
]

unfoldable pub read_string : List ℕ → ℕ → ℕ → Option (Token × List ℕ)
unfolding string_bytes
read_string [] line col = none
read_string (quote ∷ input) line col = elim (string_bytes quote [] input) [
  | none ↦ none
  | some r ↦ some (record { type = token_string; value = r.0; line = line; col = col }, r.1)
]

-- "==", "!=", ">=", "<=", "&&", "||"
unfoldable pub is_compound : ℕ → ℕ → Bool
is_compound a b =
    (a == 61 || a == 33 || a == 62 || a == 60) && b == 61
    || a == 38 && b == 38
    || a == 124 && b == 124

-- The rest is the whole input where the position does not move.
unfoldable pub read_operator : List ℕ → ℕ → ℕ → Option Token × List ℕ
unfolding is_compound is_operator
read_operator [] line col = (none, [])
read_operator (a ∷ []) line col =
    if is_operator a
    then (some (record { type = token_operator; value = a ∷ []; line = line; col = col }), [])
    else (none, a ∷ [])
read_operator (a ∷ b ∷ input) line col =
    if is_compound a b
    then (
      some (record { type = token_operator; value = a ∷ b ∷ []; line = line; col = col }),
      input,
    )
    else if not (is_operator a)
    then (none, a ∷ b ∷ input)
    else if is_operator b
    then (none, a ∷ b ∷ input)
    else (
      some (record { type = token_operator; value = a ∷ []; line = line; col = col }),
      b ∷ input,
    )

abbrev pub token_type : ℕ → TokenType
token_type c =
    if c == 40
    then token_lparen
    else if c == 41
    then token_rparen
    else if c == 46
    then token_dot
    else if c == 44
    then token_comma
    else token_operator

-- One round: an error, white space, or a token, with the line, the column and the rest.
pub data Round : Type 0 where
  bad_input : Round
  skipped : ℕ → ℕ → List ℕ → Round
  appended : Option Token → ℕ → ℕ → List ℕ → Round

-- `col += newPos - current`
abbrev pub read_to : Option Token → ℕ → ℕ → List ℕ → List ℕ → Round
read_to token line col input rest = appended token line (col + (length input - length rest)) rest

unfoldable pub round : ℕ → List ℕ → ℕ → ℕ → Round
unfolding is_whitespace is_digit is_letter is_operator read_number read_identifier read_string
    read_operator
round char input line col =
    let all = char ∷ input in
    let (number, after_number) = read_number all line col in
    let (identifier, after_identifier) = read_identifier all line col in
    let (operator, after_operator) = read_operator all line col in
    if is_whitespace char
    then (if char == 10 then skipped (line + 1) 1 input else skipped line (col + 1) input)
    else if is_digit char
    then read_to (some number) line col all after_number
    else if is_letter char
    then read_to (some identifier) line col all after_identifier
    else if char == 34 || char == 39
    then (elim (read_string all line col) [
      | none ↦ bad_input
      | some r ↦ read_to (some r.0) line col all r.1
    ])
    else if is_operator char
    then read_to operator line col all after_operator
    else if char == 40 || char == 41 || char == 46 || char == 44
    then appended
        (some (record { type = token_type char; value = char ∷ []; line = line; col = col })) line
        (col + 1) input
    else bad_input

pub data Lexed : Type 0 where
  lexed : List (Option Token) → Lexed
  lex_error : Lexed
  still_running : List (Option Token) → Lexed

unfoldable pub tokenize_loop : ℕ → List ℕ → ℕ → ℕ → List (Option Token) → Lexed
unfolding round
tokenize_loop zero input line col tokens = still_running tokens
tokenize_loop (suc fuel) [] line col tokens =
    lexed (tokens ++ some (record { type = token_eof; value = []; line = line; col = col }) ∷ [])
tokenize_loop (suc fuel) (char ∷ input) line col tokens = elim (round char input line col) [
  | bad_input ↦ lex_error
  | skipped line' col' rest ↦ tokenize_loop fuel rest line' col' tokens
  | appended token line' col' rest ↦ tokenize_loop fuel rest line' col' (tokens ++ token ∷ [])
]

unfoldable pub tokenize : ℕ → List ℕ → Lexed
unfolding tokenize_loop
tokenize fuel expr = tokenize_loop fuel expr 1 1 []
