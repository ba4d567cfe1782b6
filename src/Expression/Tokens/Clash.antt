-- ===== src/Expression/Tokens/Clash.antt =====
-- Where tokenize never ends.
use ncore.Common.{
  ℕ, zero, suc, ◌+◌, ◌-◌, ◌≡◌, refl, sym, ap, subst, ◌∙◌, Option, none, List, [], ◌∷◌, ◌++◌, Bool,
  true, false, not, ◌&&◌, ◌||◌, ◌==◌, length, append-nil, append_assoc, arith, Bool-cases, ==_sound,
  inl, inr, All, replicate,
}
use ncore.Expression.Tokens.{
  Token, is_whitespace, is_digit, is_letter, byte_in, is_operator, operator_bytes, is_compound,
  read_operator, appended, read_to, round, still_running, tokenize_loop,
}

-- two operator characters that are not one operator
unfoldable pub is_clash : ℕ → ℕ → Bool
is_clash a b = is_operator a && is_operator b && not (is_compound a b)

unfoldable pub has_clash : List ℕ → Bool
unfolding is_clash
has_clash [] = false
has_clash (a ∷ []) = false
has_clash (a ∷ b ∷ input) = is_clash a b || has_clash (b ∷ input)

byte_in-All {κ} : (P : ℕ → Type κ) (c : ℕ) (ds : List ℕ) → byte_in c ds ≡ true → All P ds → P c
unfolding byte_in
byte_in-All P c [] h all = absurd (cc)
byte_in-All P c (d ∷ ds) h all = elim (Bool-cases (c == d)) [
  | inl same ↦ subst P (sym (==_sound c d same)) all.0
  | inr other ↦ byte_in-All P c ds (ground (arith, h, other)) all.1
]

-- tokenize comes to the case of the operators.
abbrev IsPlain : ℕ → Type 0
IsPlain c =
    (is_whitespace c ≡ false)
    × (is_digit c ≡ false)
    × (is_letter c ≡ false)
    × ((c == 34 || c == 39) ≡ false)

pub is_operator-IsPlain : (c : ℕ) → is_operator c ≡ true → IsPlain c
unfolding is_operator is_whitespace is_digit is_letter
is_operator-IsPlain c h = byte_in-All IsPlain c operator_bytes h (
  (refl, refl, refl, refl),
  (
    (refl, refl, refl, refl),
    (
      (refl, refl, refl, refl),
      (
        (refl, refl, refl, refl),
        (
          (refl, refl, refl, refl),
          (
            (refl, refl, refl, refl),
            (
              (refl, refl, refl, refl),
              (
                (refl, refl, refl, refl),
                (
                  (refl, refl, refl, refl),
                  ((refl, refl, refl, refl), ((refl, refl, refl, refl), tt)),
                ),
              ),
            ),
          ),
        ),
      ),
    ),
  ),
)

pub round-operator :
    (a : ℕ) (input : List ℕ) (line col : ℕ)
    → is_operator a ≡ true
    → round a input line col
      ≡ read_to
          (read_operator (a ∷ input) line col).0
          line
          col
          (a ∷ input)
          (read_operator (a ∷ input) line col).1
unfolding round
round-operator a input line col h =
    let plain = is_operator-IsPlain a h in rw (plain.0, plain.1, plain.2, plain.3, h) refl

both_not : (x y z : Bool) → (x && y && not z) ≡ true → (x ≡ true) × (y ≡ true) × (z ≡ false)
both_not true true false h = (refl, refl, refl)
both_not true true true h = absurd (cc)
both_not true false z h = absurd (cc)
both_not false y z h = absurd (cc)

is_clash-parts :
    (a b : ℕ)
    → is_clash a b ≡ true
    → (is_operator a ≡ true) × (is_operator b ≡ true) × (is_compound a b ≡ false)
unfolding is_clash
is_clash-parts a b h = both_not (is_operator a) (is_operator b) (is_compound a b) h

read_operator-clash :
    (a b : ℕ) (input : List ℕ) (line col : ℕ)
    → is_clash a b ≡ true
    → read_operator (a ∷ b ∷ input) line col ≡ (none, a ∷ b ∷ input)
unfolding read_operator
read_operator-clash a b input line col h =
    let parts = is_clash-parts a b h in rw (parts.2, parts.0, parts.1) refl

-- Where the rest begins with two such characters, each round appends the nil token and stays.
round-clash :
    (a b : ℕ) (input : List ℕ) (line col : ℕ)
    → is_clash a b ≡ true
    → round a (b ∷ input) line col ≡ appended none line col (a ∷ b ∷ input)
round-clash a b input line col h =
    let all = a ∷ b ∷ input in
    let same_col : col + (length all - length all) ≡ col = omega arith in
    round-operator a (b ∷ input) line col (is_clash-parts a b h).0
    ∙ ap (λ (r : Option Token × List ℕ). read_to r.0 line col all r.1)
        (read_operator-clash a b input line col h)
    ∙ ap (λ c. appended none line c all) same_col

snoc-replicate : (n : ℕ) (t : Option Token) → replicate n t ++ t ∷ [] ≡ t ∷ replicate n t
snoc-replicate zero t = refl
snoc-replicate (suc n) t = ap (◌∷◌ t) (snoc-replicate n t)

-- Where the rest of the expression begins with two operator characters that are not one operator,
-- tokenize never gets past them: after any number of rounds it is still there, and each round
-- has appended one more nil token.
pub tokenize_loop-clash :
    (fuel a b : ℕ) (input : List ℕ) (line col : ℕ) (tokens : List (Option Token))
    → is_clash a b ≡ true
    → tokenize_loop fuel (a ∷ b ∷ input) line col tokens
      ≡ still_running (tokens ++ replicate fuel none)
unfolding tokenize_loop
tokenize_loop-clash zero a b input line col tokens h = ap still_running (sym (append-nil tokens))
tokenize_loop-clash (suc fuel) a b input line col tokens h =
    rw (round-clash a b input line col h, tokenize_loop)
      (tokenize_loop-clash fuel a b input line col (tokens ++ none ∷ []) h
        ∙ ap still_running (append_assoc tokens (none ∷ []) (replicate fuel none)))
