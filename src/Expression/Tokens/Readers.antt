-- ===== src/Expression/Tokens/Readers.antt =====
-- What the readers of tokenize leave of the input.
use ncore.Common.{
  ℕ, ◌≤◌, ◌≡◌, refl, Option, none, some, List, [], ◌∷◌, ◌++◌, Bool, true, false, not, ◌&&◌, ◌||◌,
  ◌==◌, length, arith, Bool-cases, Option-cases, inl, inr,
}
use ncore.Expression.Tokens.{
  TokenType, Token, token_eof, is_digit, is_letter, is_operator, number_bytes, read_number,
  identifier_bytes, read_identifier, escaped, string_bytes, read_string, is_compound, read_operator,
}
use ncore.Expression.Tokens.Clash.{is_clash, has_clash}

-- No clash in what is left, and no more of it.
abbrev pub IsRest : List ℕ → List ℕ → Type 0
IsRest input rest = (length rest ≤ length input) × (has_clash rest ≡ false)

pub has_clash-tail :
    (c : ℕ) (input : List ℕ) → has_clash (c ∷ input) ≡ false → has_clash input ≡ false
unfolding has_clash
has_clash-tail c [] h = refl
has_clash-tail c (d ∷ input) h = ground (arith, h)

number_bytes-IsRest :
    (has_dot : Bool) (input : List ℕ)
    → has_clash input ≡ false
    → IsRest input (number_bytes has_dot input).1
unfolding number_bytes
number_bytes-IsRest has_dot [] h = (omega arith, h)
number_bytes-IsRest has_dot (c ∷ input) h =
    let later =
      number_bytes-IsRest (has_dot || not (is_digit c)) input (has_clash-tail c input h) in
    elim (Bool-cases (is_digit c || c == 46 && not has_dot)) [
      | inl more ↦ rw (more, number_bytes) (omega (arith, later.0), later.1)
      | inr done ↦ rw (done, number_bytes) (omega arith, h)
    ]

identifier_bytes-IsRest :
    (input : List ℕ) → has_clash input ≡ false → IsRest input (identifier_bytes input).1
unfolding identifier_bytes
identifier_bytes-IsRest [] h = (omega arith, h)
identifier_bytes-IsRest (c ∷ input) h =
    let later = identifier_bytes-IsRest input (has_clash-tail c input h) in
    elim (Bool-cases (is_letter c || is_digit c || c == 95)) [
      | inl more ↦ rw (more, identifier_bytes) (omega (arith, later.0), later.1)
      | inr done ↦ rw (done, identifier_bytes) (omega arith, h)
    ]

abbrev pub IsReadTo {ℓ} : {R : Type ℓ} → List ℕ → Option (R × List ℕ) → Type 0
IsReadTo input r = elim r [ none ↦ Unit | some p ↦ IsRest input p.1 ]

IsReadTo-weaken {ℓ} :
    {R : Type ℓ} (input more : List ℕ) (r : Option (R × List ℕ))
    → length input ≤ length more
    → IsReadTo input r
    → IsReadTo more r
IsReadTo-weaken input more none le h = tt
IsReadTo-weaken input more (some p) le h = (omega (arith, le, h.0), h.1)

string_bytes-IsReadTo :
    (quote : ℕ) (bytes input : List ℕ)
    → has_clash input ≡ false
    → IsReadTo input (string_bytes quote bytes input)
unfolding string_bytes has_clash
string_bytes-IsReadTo quote bytes [] h = tt
string_bytes-IsReadTo quote bytes (c ∷ []) h = elim (Bool-cases (c == quote)) [
  | inl closing ↦ rw (closing, string_bytes) (omega arith, refl)
  | inr other ↦ rw (other, string_bytes) tt
]
string_bytes-IsReadTo quote bytes (c ∷ d ∷ input) h =
    let tail = has_clash-tail c (d ∷ input) h in
    elim (Bool-cases (c == quote)) [
      | inl closing ↦ rw (closing, string_bytes) (omega arith, tail)
      | inr other ↦ elim (Bool-cases (c == 92)) [
        | inr plain ↦
            rw (other, string_bytes, plain, string_bytes)
              (IsReadTo-weaken (d ∷ input) (c ∷ d ∷ input) _ (omega arith)
                (string_bytes-IsReadTo quote (bytes ++ c ∷ []) (d ∷ input) tail))
        | inl slash ↦ elim (Option-cases (escaped d)) [
          | inl bad ↦ rw (other, string_bytes, slash, string_bytes, bad, string_bytes) tt
          | inr (b, good) ↦
              rw (other, string_bytes, slash, string_bytes, good, string_bytes)
                (IsReadTo-weaken input (c ∷ d ∷ input) _ (omega arith) (
                  string_bytes-IsReadTo quote (bytes ++ b ∷ []) input
                    (has_clash-tail d input tail)))
        ]
      ]
    ]

abbrev pub is_eof : TokenType → Bool
is_eof token_eof = true
is_eof _ = false

-- neither nil nor EOF
unfoldable pub is_present : Option Token → Bool
is_present none = false
is_present (some t) = not (is_eof t.type)

abbrev pub IsStringRead : List ℕ → Option (Token × List ℕ) → Type 0
IsStringRead input r = elim r [
  | none ↦ Unit
  | some p ↦ IsRest input p.1 × (is_present (some p.0) ≡ true)
]

pub read_string-IsStringRead :
    (c : ℕ) (input : List ℕ) (line col : ℕ)
    → has_clash input ≡ false
    → IsStringRead input (read_string (c ∷ input) line col)
unfolding read_string is_present
read_string-IsStringRead c input line col h =
    let inner = string_bytes-IsReadTo c [] input h in
    elim (Option-cases (string_bytes c [] input)) [
      | inl bad ↦ rw (bad, read_string) tt
      | inr (r, good) ↦ rw (good, read_string) ((rw good at inner), refl)
    ]

pub read_number-IsRest :
    (c : ℕ) (input : List ℕ) (line col : ℕ)
    → has_clash input ≡ false
    → is_digit c ≡ true
    → IsRest input (read_number (c ∷ input) line col).1
unfolding read_number number_bytes
read_number-IsRest c input line col h digit =
    rw (digit, number_bytes) (number_bytes-IsRest (not true) input h)

pub read_identifier-IsRest :
    (c : ℕ) (input : List ℕ) (line col : ℕ)
    → has_clash input ≡ false
    → is_letter c ≡ true
    → IsRest input (read_identifier (c ∷ input) line col).1
unfolding read_identifier identifier_bytes
read_identifier-IsRest c input line col h letter =
    rw (letter, identifier_bytes) (identifier_bytes-IsRest input h)

clash_free : (x y z : Bool) → (x && y && not z) ≡ false → x ≡ true → z ≡ false → y ≡ false
clash_free x y z h e f = ground (arith, h, e, f)

first_false : (x y : Bool) → (x || y) ≡ false → x ≡ false
first_false true y h = absurd (cc)
first_false false y h = refl

single_operator :
    (c d : ℕ) (input : List ℕ)
    → has_clash (c ∷ d ∷ input) ≡ false
    → is_operator c ≡ true
    → is_compound c d ≡ false
    → is_operator d ≡ false
unfolding has_clash is_clash
single_operator c d input h op simple =
    clash_free (is_operator c) (is_operator d) (is_compound c d) (first_false _ _ h) op simple

pub read_operator-IsRest :
    (c : ℕ) (input : List ℕ) (line col : ℕ)
    → has_clash (c ∷ input) ≡ false
    → is_operator c ≡ true
    → IsRest input (read_operator (c ∷ input) line col).1
      × (is_present (read_operator (c ∷ input) line col).0 ≡ true)
unfolding read_operator has_clash is_present
read_operator-IsRest c [] line col h op = rw op ((omega arith, refl), refl)
read_operator-IsRest c (d ∷ input) line col h op =
    let tail = has_clash-tail c (d ∷ input) h in
    elim (Bool-cases (is_compound c d)) [
      | inl compound ↦ rw compound ((omega arith, has_clash-tail d input tail), refl)
      | inr simple ↦
          let single : is_operator d ≡ false = single_operator c d input h op simple in
          rw (simple, op, single) ((omega arith, tail), refl)
    ]
