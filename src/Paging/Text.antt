-- ===== src/Paging/Text.antt =====
-- Cursors have no white space, so that TrimSpace leaves them.
use ncore.Common.{ℕ, ◌+◌, ◌*◌, ◌/◌, ◌%◌, ◌≡◌, refl, ap, ◌∙◌, [], ◌∷◌, false, arith, All}
use ncore.Paging.{Bytes, is_space, trim_left, trim_right, trim_space, digit, encode_cursor}

abbrev pub HasNoSpace : Bytes → Type 0
HasNoSpace s = All (λ c. is_space c ≡ false) s

digit-not_space : (i : ℕ) → is_space (digit i) ≡ false
unfolding is_space digit
digit-not_space i = ground arith

padding-not_space : is_space 61 ≡ false
unfolding is_space
padding-not_space = refl

encode_cursor-HasNoSpace : (s : Bytes) → HasNoSpace (encode_cursor s)
unfolding encode_cursor
encode_cursor-HasNoSpace [] = tt
encode_cursor-HasNoSpace (a ∷ []) = (
  digit-not_space (a / 4),
  (digit-not_space (a % 4 * 16), (padding-not_space, (padding-not_space, tt))),
)
encode_cursor-HasNoSpace (a ∷ b ∷ []) = (
  digit-not_space (a / 4),
  (digit-not_space (a % 4 * 16 + b / 16), (digit-not_space (b % 16 * 4), (padding-not_space, tt))),
)
encode_cursor-HasNoSpace (a ∷ b ∷ c ∷ s) = (
  digit-not_space (a / 4),
  (
    digit-not_space (a % 4 * 16 + b / 16),
    (digit-not_space (b % 16 * 4 + c / 64), (digit-not_space (c % 64), encode_cursor-HasNoSpace s)),
  ),
)

trim_left_same : (s : Bytes) → HasNoSpace s → trim_left s ≡ s
unfolding trim_left
trim_left_same [] h = refl
trim_left_same (c ∷ s) h = rw (h.0, trim_left) refl

trim_right_same : (s : Bytes) → HasNoSpace s → trim_right s ≡ s
unfolding trim_right
trim_right_same [] h = refl
trim_right_same (c ∷ []) h = rw (h.0, trim_right) refl
trim_right_same (c ∷ d ∷ s) h =
    let later : trim_right (d ∷ s) ≡ d ∷ s = trim_right_same (d ∷ s) h.1 in
    rw (later, trim_right) refl

pub trim_space-encode_cursor : (s : Bytes) → trim_space (encode_cursor s) ≡ encode_cursor s
unfolding trim_space
trim_space-encode_cursor s =
    let plain = encode_cursor-HasNoSpace s in
    ap trim_right (trim_left_same (encode_cursor s) plain) ∙ trim_right_same (encode_cursor s) plain
