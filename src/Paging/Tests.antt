-- ===== src/Paging/Tests.antt =====
-- Pages of concrete items, and the witness.
use ncore.Common.{
  ℕ, ◌≡◌, refl, ap, subst, some, List, [], ◌∷◌, ◌++◌, true, false, if◌then◌else◌, take, drop,
}
use ncore.Common.Int.{pos}
use ncore.Paging.{
  Bytes, PagingFunc, forward, backward, encode_cursor, normalize_direction, normalize_params,
  paginate, is_equal,
}
use ncore.Paging.Walk.{IsFetching, walk, walk-all}

abbrev value_of : ℕ → Bytes
value_of x = x ∷ []

abbrev two : List ℕ
two = 10 ∷ 20 ∷ []

-- the items behind a cursor
abbrev behind : Bytes → List ℕ → List ℕ
behind cursor [] = []
behind cursor (x ∷ xs) =
    if is_equal (encode_cursor (value_of x)) cursor then xs else behind cursor xs

abbrev fetch_two : PagingFunc
fetch_two cursor k direction =
    some (take k (elim cursor [ [] ↦ two | ◌∷◌ c cs ↦ behind (c ∷ cs) two ]), pos 2)

-- two bytes, with one byte of padding
test_encode : encode_cursor (b'M' ∷ b'a' ∷ []) ≡ b'T' ∷ b'W' ∷ b'E' ∷ b'=' ∷ []
unfolding encode_cursor
test_encode = refl

test_normalize :
    normalize_params
      (record { cursor = 32 ∷ b'a' ∷ 10 ∷ []; limit = pos 1025; direction = b'U' ∷ b'p' ∷ [] })
    ≡ record { cursor = b'a' ∷ []; limit = pos 256; direction = forward }
unfolding normalize_params
test_normalize = refl

-- The first page of one item.
test_page :
    paginate value_of (record { cursor = []; limit = pos 1; direction = [] }) fetch_two
    ≡ some (record {
      items = 10 ∷ [];
      total = pos 2;
      cursor = [];
      next_cursor = encode_cursor (10 ∷ []);
      prev_cursor = [];
      has_next = true;
      has_prev = false;
    })
unfolding paginate
test_page = refl

-- A backward page that has a next page has no cursor for it.
test_backward :
    paginate value_of
      (record { cursor = encode_cursor (20 ∷ []); limit = pos 5; direction = backward })
      (λ cursor k d. some (10 ∷ [], pos 2))
    ≡ some (record {
      items = 10 ∷ [];
      total = pos 2;
      cursor = encode_cursor (20 ∷ []);
      next_cursor = [];
      prev_cursor = encode_cursor (10 ∷ []);
      has_next = true;
      has_prev = false;
    })
unfolding paginate
test_backward = refl

IsAnswer : ℕ → ℕ → List ℕ → Type 0
IsAnswer k x rest = fetch_two (encode_cursor (value_of x)) k forward ≡ some (take k rest, pos 2)

fetch_two-split : (before rest : List ℕ) (x k : ℕ) → two ≡ before ++ x ∷ rest → IsAnswer k x rest
unfolding IsAnswer encode_cursor
fetch_two-split [] rest x k e =
    let here : 10 ≡ x = cc in
    let after : 20 ∷ [] ≡ rest = cc in
    subst (λ ys. IsAnswer k x ys) after (subst (λ y. IsAnswer k y (20 ∷ [])) here refl)
fetch_two-split (a ∷ []) rest x k e =
    let here : 20 ≡ x = cc in
    let after : [] ≡ rest = cc in
    subst (λ ys. IsAnswer k x ys) after (subst (λ y. IsAnswer k y []) here refl)
fetch_two-split (a ∷ b ∷ before) rest x k e = absurd (too_long before (ap (drop 2) e))
  where
    too_long : (before : List ℕ) → ¬ ([] ≡ before ++ x ∷ rest)
    too_long [] h = cc
    too_long (c ∷ before) h = cc

two-IsFetching : IsFetching value_of fetch_two two (pos 2)
unfolding IsAnswer
two-IsFetching = ((λ k. refl), fetch_two-split)

default-forward : normalize_direction [] ≡ forward
unfolding normalize_direction
default-forward = refl

walk-all_example : walk value_of fetch_two (pos 1) [] 3 [] ≡ some two
walk-all_example = walk-all value_of fetch_two (pos 1) [] two (pos 2) two-IsFetching default-forward
