-- ===== src/Expression/Validate/Groups.antt =====
-- validateStrictSyntax and expressions that do not begin with a parenthesis.
use ncore.Common.{◌≡◌, refl, ◌∙◌, Option, none, some, [], ◌∷◌, ◌++◌, Bool, true, false, All}
use ncore.Common.Int.{pos, inc}
use ncore.Expression.Tokens.{TokenType, Token, token_lparen, token_rparen}
use ncore.Expression.Parser.{Tokens, is_type_lparen, is_type_rparen}
use ncore.Expression.Validate.{
  Verdict, valid, panics, unmatched_closing, strict_loop, sequence_check, validate_strict_syntax,
}

-- a token that is no parenthesis
abbrev pub IsPlain : Option Token → Type 0
IsPlain none = ⊥
IsPlain (some t) = (is_type_lparen t.type ≡ false) × (is_type_rparen t.type ≡ false)

-- a round of the loop on a token of the type `k`, with no parenthesis before it
abbrev round_of : Bool → Token → Tokens → TokenType → Verdict
round_of first t tokens k = elim k [
  | token_lparen ↦ elim (sequence_check first none t) [
    | valid ↦ strict_loop false (inc (pos 0)) (some t) tokens
    | other ↦ other
  ]
  | token_rparen ↦ unmatched_closing
  | _ ↦ strict_loop false (pos 0) none tokens
]

strict_loop-plain :
    (first : Bool) (t : Option Token) (tokens : Tokens)
    → IsPlain t
    → strict_loop first (pos 0) none (t ∷ tokens) ≡ strict_loop false (pos 0) none tokens
unfolding strict_loop
strict_loop-plain first none tokens h = absurd h
strict_loop-plain first (some t) tokens h =
    elim t.type
        as (λ k.
          is_type_lparen k ≡ false
          → is_type_rparen k ≡ false
          → round_of first t tokens k ≡ strict_loop false (pos 0) none tokens) [
            | token_lparen ↦ λ l r. absurd (cc)
            | token_rparen ↦ λ l r. absurd (cc)
            | _ ↦ λ l r. refl
          ]
      h.0 h.1

strict_loop-panics :
    (paren : Token) (front rest : Tokens)
    → is_type_lparen paren.type ≡ true
    → All IsPlain front
    → strict_loop false (pos 0) none (front ++ some paren ∷ rest) ≡ panics
unfolding strict_loop sequence_check
strict_loop-panics paren [] rest opening h =
    elim paren.type as (λ k. is_type_lparen k ≡ true → round_of false paren rest k ≡ panics) [
      | token_lparen ↦ λ l. refl
      | _ ↦ λ l. absurd (cc)
    ]
      opening
strict_loop-panics paren (t ∷ front) rest opening h =
    strict_loop-plain false t (front ++ some paren ∷ rest) h.0
    ∙ strict_loop-panics paren front rest opening h.1

-- The strict check of ValidateSyntax panics on every expression whose first parenthesis is an
-- opening one and not its first token, a call of a function for one: it reads the type
-- of lastToken, which is nil since only parentheses are put there.
pub validate_strict_syntax-panics :
    (paren : Token) (t : Option Token) (front rest : Tokens)
    → is_type_lparen paren.type ≡ true
    → IsPlain t
    → All IsPlain front
    → validate_strict_syntax (t ∷ front ++ some paren ∷ rest) ≡ panics
unfolding validate_strict_syntax
validate_strict_syntax-panics paren t front rest opening h hs =
    strict_loop-plain true t (front ++ some paren ∷ rest) h
    ∙ strict_loop-panics paren front rest opening hs
