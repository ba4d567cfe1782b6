-- ===== src/Expression/Parser/Compile.antt =====
-- tokenize and parse, as Evaluate and ValidateSyntax call them.
use ncore.Common.{
  ℕ, suc, ◌≡◌, sym, ap, subst, none, some, List, [], ◌∷◌, ◌++◌, true, false, length, arith, All,
}
use ncore.Expression.Tokens.{Token, lexed, lex_error, still_running, tokenize}
use ncore.Expression.Tokens.Clash.{has_clash}
use ncore.Expression.Tokens.Readers.{is_present, is_eof}
use ncore.Expression.Tokens.Ends.{AreClosed, IsEnd, tokenize-IsEnd}
use ncore.Expression.Parser.{
  Engine, Node, Tokens, Parsed, parsed, failed, panicked, out_of_fuel, parse, Compiled,
  tokenize_error, tokenizing, parse_result, compile,
}
use ncore.Expression.Parser.Closed.{IsClosed, IsGood}
use ncore.Expression.Parser.Total.{parse-IsGood}

IsClosed-end :
    (front : Tokens) (eof : Token)
    → is_eof eof.type ≡ true
    → All (λ t. is_present t ≡ true) front
    → IsClosed (front ++ some eof ∷ [])
unfolding is_present
IsClosed-end [] eof e h = e
IsClosed-end (none ∷ front) eof e h = absurd (cc)
IsClosed-end (some t ∷ []) eof e h = (ground (arith, h.0), e)
IsClosed-end (some t ∷ u ∷ front) eof e h =
    (ground (arith, h.0), IsClosed-end (u ∷ front) eof e h.1)

AreClosed-IsClosed : (ts : Tokens) → AreClosed ts → IsClosed ts
unfolding AreClosed
AreClosed-IsClosed ts h = subst IsClosed (sym h.2) (IsClosed-end h.0 h.1 (ap is_eof h.3) h.4)

-- An error of the tokenizer, a tree, or an error of the parser.
pub IsAnswer : Compiled → Type 0
IsAnswer c = elim c [
  | tokenize_error ↦ Unit
  | tokenizing ↦ ⊥
  | parse_result r ↦ elim r [
    | parsed tree rest ↦ Unit
    | failed e ↦ Unit
    | panicked ↦ ⊥
    | out_of_fuel ↦ ⊥
  ]
]

IsGood-IsAnswer : (n : ℕ) (r : Parsed Node) → IsGood n r → IsAnswer (parse_result r)
unfolding IsAnswer
IsGood-IsAnswer n (parsed tree rest) h = tt
IsGood-IsAnswer n (failed e) h = tt
IsGood-IsAnswer n panicked h = h
IsGood-IsAnswer n out_of_fuel h = h

-- An expression in which no two operator characters stand together that are not one operator is
-- tokenized and parsed with a tree or an error: the loops end, within one round of tokenize
-- for each byte and one more, no nil token is read, and no index is out of range.
pub compile-IsAnswer :
    (p : Engine) (expr : List ℕ)
    → has_clash expr ≡ false
    → IsAnswer (compile p (suc (length expr)) expr)
unfolding compile IsAnswer
compile-IsAnswer p expr h =
    elim (tokenize (suc (length expr)) expr)
        as (λ r.
          IsEnd r
          → IsAnswer (elim r [
            | lexed tokens ↦ parse_result (parse p tokens)
            | lex_error ↦ tokenize_error
            | still_running tokens ↦ tokenizing
          ])) [
            | lexed tokens ↦ λ closed.
                IsGood-IsAnswer (length tokens) (parse p tokens)
                  (parse-IsGood p tokens (AreClosed-IsClosed tokens closed))
            | lex_error ↦ λ q. tt
            | still_running tokens ↦ λ q. q
          ]
      (tokenize-IsEnd expr h)
