-- ===== src/Expression/Parser/Closed.antt =====
-- Tokens that end in EOF, and what a parse leaves of them.
use ncore.Common.{
  ℕ, ◌≤◌, ◌<◌, ◌≡◌, refl, none, some, [], ◌∷◌, true, false, length, arith, Bool-cases, inl, inr,
}
use ncore.Expression.Tokens.{TokenType, Token, token_eof}
use ncore.Expression.Parser.{
  Node, Tokens, Parsed, parsed, failed, panicked, out_of_fuel, and_then, close_paren,
  is_type_operator, is_type_lparen, is_type_rparen, is_type_comma,
}
use ncore.Expression.Tokens.Readers.{is_eof}

-- No token is nil, and EOF is the last and only the last.
abbrev pub IsClosed : Tokens → Type 0
IsClosed [] = ⊥
IsClosed (none ∷ ts) = ⊥
IsClosed (some t ∷ []) = is_eof t.type ≡ true
IsClosed (some t ∷ u ∷ ts) = (is_eof t.type ≡ false) × IsClosed (u ∷ ts)

-- No panic and enough fuel; a result leaves fewer than `n` tokens.
abbrev pub IsGood : {A : Type 0} → ℕ → Parsed A → Type 0
IsGood n r = elim r [
  | parsed a rest ↦ IsClosed rest × (length rest < n)
  | failed e ↦ Unit
  | panicked ↦ ⊥
  | out_of_fuel ↦ ⊥
]

pub IsGood-weaken : {A : Type 0} (m n : ℕ) (r : Parsed A) → m ≤ n → IsGood m r → IsGood n r
IsGood-weaken m n (parsed a rest) le h = (h.0, omega (arith, le, h.1))
IsGood-weaken m n (failed e) le h = tt
IsGood-weaken m n panicked le h = h
IsGood-weaken m n out_of_fuel le h = h

pub and_then-IsGood :
    {A B : Type 0} (m n : ℕ) (r : Parsed A) (next : A → Tokens → Parsed B)
    → IsGood m r
    → ((a : A) (rest : Tokens) → IsClosed rest → length rest < m → IsGood n (next a rest))
    → IsGood n (and_then r next)
and_then-IsGood m n (parsed a rest) next h k = k a rest h.0 h.1
and_then-IsGood m n (failed e) next h k = tt
and_then-IsGood m n panicked next h k = h
and_then-IsGood m n out_of_fuel next h k = h

-- A token that is not EOF is followed by others.
pub IsClosed-rest :
    (t : Token) (ts : Tokens) → is_eof t.type ≡ false → IsClosed (some t ∷ ts) → IsClosed ts
IsClosed-rest t [] e h = absurd (cc)
IsClosed-rest t (u ∷ ts) e h = h.1

pub operator-not_eof : (t : TokenType) → is_type_operator t ≡ true → is_eof t ≡ false
operator-not_eof token_eof h = absurd (cc)
operator-not_eof _ h = refl

pub rparen-not_eof : (t : TokenType) → is_type_rparen t ≡ true → is_eof t ≡ false
rparen-not_eof token_eof h = absurd (cc)
rparen-not_eof _ h = refl

pub lparen-not_eof : (t : TokenType) → is_type_lparen t ≡ true → is_eof t ≡ false
lparen-not_eof token_eof h = absurd (cc)
lparen-not_eof _ h = refl

pub comma-not_eof : (t : TokenType) → is_type_comma t ≡ true → is_eof t ≡ false
comma-not_eof token_eof h = absurd (cc)
comma-not_eof _ h = refl

pub close_paren-IsGood :
    (n : ℕ) (expr : Node) (ts : Tokens)
    → IsClosed ts
    → length ts < n
    → IsGood n (close_paren expr ts)
unfolding close_paren
close_paren-IsGood n expr [] closed l = absurd closed
close_paren-IsGood n expr (none ∷ ts) closed l = absurd closed
close_paren-IsGood n expr (some t ∷ ts) closed l = elim (Bool-cases (is_type_rparen t.type)) [
  | inl closing ↦
      rw (closing, close_paren)
        (IsClosed-rest t ts (rparen-not_eof t.type closing) closed, omega (arith, l))
  | inr other ↦ rw (other, close_paren) tt
]
