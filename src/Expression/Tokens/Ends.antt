-- ===== src/Expression/Tokens/Ends.antt =====
-- When tokenize ends, and with what tokens.
use ncore.Common.{
  ℕ, zero, suc, ◌<◌, ◌≡◌, refl, sym, subst, Option, none, some, List, [], ◌∷◌, ◌++◌, true, false,
  not, ◌||◌, ◌==◌, length, arith, Bool-cases, inl, inr, All, All-append,
}
use ncore.Expression.Tokens.{
  Token, token_eof, is_whitespace, is_digit, is_letter, is_operator, read_number, read_identifier,
  read_string, token_type, Round, bad_input, skipped, appended, read_to, round, Lexed, lexed,
  lex_error, still_running, tokenize_loop, tokenize,
}
use ncore.Expression.Tokens.Clash.{has_clash, round-operator}
use ncore.Expression.Tokens.Readers.{
  IsRest, IsStringRead, is_present, is_eof, has_clash-tail, read_string-IsStringRead,
  read_number-IsRest, read_identifier-IsRest, read_operator-IsRest,
}

-- A round gives an error, or a token that is no nil pointer and less of the input.
abbrev IsProgress : List ℕ → Round → Type 0
IsProgress input r = elim r [
  | bad_input ↦ Unit
  | skipped line col rest ↦ IsRest input rest
  | appended token line col rest ↦ IsRest input rest × (is_present token ≡ true)
]

round-digit :
    (c : ℕ) (input : List ℕ) (line col : ℕ)
    → is_whitespace c ≡ false
    → is_digit c ≡ true
    → round c input line col
      ≡ read_to
          (some (read_number (c ∷ input) line col).0)
          line
          col
          (c ∷ input)
          (read_number (c ∷ input) line col).1
unfolding round
round-digit c input line col dark digit = rw (dark, digit) refl

round-letter :
    (c : ℕ) (input : List ℕ) (line col : ℕ)
    → is_whitespace c ≡ false
    → is_digit c ≡ false
    → is_letter c ≡ true
    → round c input line col
      ≡ read_to
          (some (read_identifier (c ∷ input) line col).0)
          line
          col
          (c ∷ input)
          (read_identifier (c ∷ input) line col).1
unfolding round
round-letter c input line col dark no_digit letter = rw (dark, no_digit, letter) refl

quote_round : List ℕ → ℕ → ℕ → Option (Token × List ℕ) → Round
quote_round input line col none = bad_input
quote_round input line col (some r) = read_to (some r.0) line col input r.1

round-quote :
    (c : ℕ) (input : List ℕ) (line col : ℕ)
    → is_whitespace c ≡ false
    → is_digit c ≡ false
    → is_letter c ≡ false
    → (c == 34 || c == 39) ≡ true
    → round c input line col ≡ quote_round (c ∷ input) line col (read_string (c ∷ input) line col)
unfolding round quote_round
round-quote c input line col dark no_digit no_letter quote =
    rw (dark, no_digit, no_letter, quote) refl

quote_round-IsProgress :
    (input all : List ℕ) (line col : ℕ) (r : Option (Token × List ℕ))
    → IsStringRead input r
    → IsProgress input (quote_round all line col r)
unfolding quote_round is_present
quote_round-IsProgress input all line col none h = tt
quote_round-IsProgress input all line col (some r) h = h

token_type-present : (c : ℕ) → not (is_eof (token_type c)) ≡ true
token_type-present c = ground arith

round-punct :
    (c : ℕ) (input : List ℕ) (line col : ℕ)
    → has_clash input ≡ false
    → is_whitespace c ≡ false
    → is_digit c ≡ false
    → is_letter c ≡ false
    → (c == 34 || c == 39) ≡ false
    → is_operator c ≡ false
    → IsProgress input (round c input line col)
unfolding round is_present
round-punct c input line col tail dark no_digit no_letter no_quote no_op =
    elim (Bool-cases (c == 40 || c == 41 || c == 46 || c == 44)) [
      | inl punct ↦
          rw (dark, no_digit, no_letter, no_quote, no_op, punct)
            ((omega arith, tail), token_type-present c)
      | inr other ↦ rw (dark, no_digit, no_letter, no_quote, no_op, other) tt
    ]

round-white :
    (c : ℕ) (input : List ℕ) (line col : ℕ)
    → has_clash input ≡ false
    → is_whitespace c ≡ true
    → IsProgress input (round c input line col)
unfolding round
round-white c input line col tail white = elim (Bool-cases (c == 10)) [
  | inl newline ↦ rw (white, newline) (omega arith, tail)
  | inr other ↦ rw (white, other) (omega arith, tail)
]

round-IsProgress :
    (c : ℕ) (input : List ℕ) (line col : ℕ)
    → has_clash (c ∷ input) ≡ false
    → IsProgress input (round c input line col)
unfolding is_present read_number read_identifier
round-IsProgress c input line col h =
    let tail = has_clash-tail c input h in
    elim (Bool-cases (is_whitespace c)) [
      | inl white ↦ round-white c input line col tail white
      | inr dark ↦ elim (Bool-cases (is_digit c)) [
        | inl digit ↦
            subst (IsProgress input) (sym (round-digit c input line col dark digit))
              (read_number-IsRest c input line col tail digit, refl)
        | inr no_digit ↦ elim (Bool-cases (is_letter c)) [
          | inl letter ↦
              subst (IsProgress input) (sym (round-letter c input line col dark no_digit letter))
                (read_identifier-IsRest c input line col tail letter, refl)
          | inr no_letter ↦ elim (Bool-cases (c == 34 || c == 39)) [
            | inl quote ↦
                subst (IsProgress input)
                  (sym (round-quote c input line col dark no_digit no_letter quote))
                  (quote_round-IsProgress input (c ∷ input) line col _
                    (read_string-IsStringRead c input line col tail))
            | inr no_quote ↦ elim (Bool-cases (is_operator c)) [
              | inl op ↦
                  subst (IsProgress input) (sym (round-operator c input line col op))
                    (read_operator-IsRest c input line col h op)
              | inr no_op ↦ round-punct c input line col tail dark no_digit no_letter no_quote no_op
            ]
          ]
        ]
      ]
    ]

-- Tokens that can be read, and EOF at the end.
unfoldable pub AreClosed : List (Option Token) → Type 0
AreClosed ts =
    (front : List (Option Token)) × (eof : Token) × (ts ≡ front ++ some eof ∷ [])
    × (eof.type ≡ token_eof)
    × All (λ t. is_present t ≡ true) front

abbrev pub IsEnd : Lexed → Type 0
IsEnd r = elim r [ lexed tokens ↦ AreClosed tokens | lex_error ↦ Unit | still_running tokens ↦ ⊥ ]

abbrev next_round : ℕ → List (Option Token) → Round → Lexed
next_round fuel tokens r = elim r [
  | bad_input ↦ lex_error
  | skipped line' col' rest ↦ tokenize_loop fuel rest line' col' tokens
  | appended t line' col' rest ↦ tokenize_loop fuel rest line' col' (tokens ++ t ∷ [])
]

tokenize_loop-IsEnd :
    (fuel : ℕ) (input : List ℕ) (line col : ℕ) (tokens : List (Option Token))
    → length input < fuel
    → has_clash input ≡ false
    → All (λ t. is_present t ≡ true) tokens
    → IsEnd (tokenize_loop fuel input line col tokens)
unfolding tokenize_loop AreClosed
tokenize_loop-IsEnd zero input line col tokens enough h p = absurd (omega (arith, enough))
tokenize_loop-IsEnd (suc fuel) [] line col tokens enough h p =
    (tokens, record { type = token_eof; value = []; line = line; col = col }, refl, refl, p)
tokenize_loop-IsEnd (suc fuel) (c ∷ input) line col tokens enough h p =
    elim (round c input line col) as (λ r. IsProgress input r → IsEnd (next_round fuel tokens r)) [
      | bad_input ↦ λ q. tt
      | skipped line' col' rest ↦
          λ q. tokenize_loop-IsEnd fuel rest line' col' tokens (omega (arith, enough, q.0)) q.1 p
      | appended t line' col' rest ↦ λ q.
          tokenize_loop-IsEnd fuel rest line' col' (tokens ++ t ∷ []) (omega (arith, enough, q.0.0))
            q.0.1 (All-append (λ t. is_present t ≡ true) tokens (t ∷ []) p (q.1, tt))
    ]
      (round-IsProgress c input line col h)

-- On an expression in which no two operator characters stand together that are not one operator,
-- tokenize ends after at most one round for each byte and one more, with an error or with tokens that
-- are no nil pointers, the last of them EOF.
pub tokenize-IsEnd :
    (expr : List ℕ) → has_clash expr ≡ false → IsEnd (tokenize (suc (length expr)) expr)
unfolding tokenize
tokenize-IsEnd expr h = tokenize_loop-IsEnd (suc (length expr)) expr 1 1 [] (omega arith) h tt
