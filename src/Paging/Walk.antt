-- ===== src/Paging/Walk.antt =====
-- Following the cursors from page to page.
use ncore.Common.{
  ℕ, zero, suc, ◌+◌, ◌-◌, ◌≤◌, ◌<◌, ◌≡◌, refl, sym, ap, ◌∙◌, Option, none, some, List, [], ◌∷◌,
  ◌++◌, true, false, ltb, length, take, take-nil, take_of_length-le, length-take, append_assoc,
  length-append, arith, Bool-cases, inl, inr, ap₂,
}
use ncore.Common.Int.{ℤ}
use ncore.Paging.{
  Bytes, Result, PagingFunc, forward, trim_space, encode_cursor, normalize_direction,
  normalize_limit, normalize_params, last_of, cursor_at, page, paginate,
}
use ncore.Paging.Text.{trim_space-encode_cursor}

take-take : (n : ℕ) (xs : List ℕ) → take n (take (n + 1) xs) ≡ take n xs
take-take zero xs = refl
take-take (suc n) [] = ap (take (suc n)) (take-nil (suc n + 1))
take-take (suc n) (x ∷ xs) =
    let next : suc n + 1 ≡ suc (n + 1) = omega arith in
    ap (λ k. take (suc n) (take k (x ∷ xs))) next ∙ ap (◌∷◌ x) (take-take n xs)

normalize_limit-positive : (limit : ℤ) → 1 ≤ normalize_limit limit
unfolding normalize_limit
normalize_limit-positive limit = ground arith

-- the last item of a page that is not the last page, and what stands behind it
abbrev IsCut : ℕ → List ℕ → Type 0
IsCut n xs =
    (front : List ℕ) × (x : ℕ) × (rest : List ℕ) × (take (suc n) xs ≡ front ++ x ∷ [])
    × (last_of (take (suc n) xs) ≡ some x)
    × (xs ≡ front ++ x ∷ rest)

last_of-cons : (x y : ℕ) (xs ys : List ℕ) → last_of ys ≡ some y → last_of (x ∷ ys) ≡ some y
unfolding last_of
last_of-cons x y xs [] h = absurd (cc)
last_of-cons x y xs (z ∷ ys) h = h

take-IsCut : (n : ℕ) (xs : List ℕ) → n < length xs → IsCut n xs
unfolding last_of
take-IsCut n [] h = absurd (omega (arith, h))
take-IsCut zero (x ∷ xs) h = ([], x, xs, refl, refl, refl)
take-IsCut (suc n) (x ∷ xs) h =
    let (front, y, rest, e, last, whole) = take-IsCut n xs (omega (arith, h)) in
    (x ∷ front, y, rest, ap (◌∷◌ x) e, last_of-cons x y xs (take (suc n) xs) last, ap (◌∷◌ x) whole)

module _ (cursor_value : ℕ → Bytes) (fetch : PagingFunc) (limit : ℤ) (direction : Bytes) where
  abbrev pub page_at : Bytes → Option Result
  page_at cursor =
      paginate cursor_value (record { cursor = cursor; limit = limit; direction = direction }) fetch

  -- all pages from a cursor on: next_cursor is followed while has_next holds
  pub walk : ℕ → Bytes → Option (List ℕ)
  walk zero cursor = none
  walk (suc fuel) cursor = elim (page_at cursor) [
    | none ↦ none
    | some r ↦ elim r.has_next [
      | false ↦ some r.items
      | true ↦ elim (walk fuel r.next_cursor) [ none ↦ none | some rest ↦ some (r.items ++ rest) ]
    ]
  ]

  walk-last :
      (fuel : ℕ) (cursor : Bytes) (r : Result)
      → page_at cursor ≡ some r
      → r.has_next ≡ false
      → walk (suc fuel) cursor ≡ some r.items
  unfolding walk
  walk-last fuel cursor r e h = rw (e, walk, h, walk) refl

  walk-next :
      (fuel : ℕ) (cursor : Bytes) (r : Result) (rest : List ℕ)
      → page_at cursor ≡ some r
      → r.has_next ≡ true
      → walk fuel r.next_cursor ≡ some rest
      → walk (suc fuel) cursor ≡ some (r.items ++ rest)
  unfolding walk
  walk-next fuel cursor r rest e h later = rw (e, walk, h, walk, later, walk) refl

module _ (cursor_value : ℕ → Bytes) (cursor : Bytes) (n : ℕ) (found : List ℕ) (total : ℤ) where
  abbrev ahead_page : Result
  ahead_page = page cursor_value cursor n forward (found, total)

  page-last :
      ltb n (length found) ≡ false → (ahead_page.has_next ≡ false) × (ahead_page.items ≡ found)
  unfolding page
  page-last few = (few, rw few refl)

  page-next :
      ltb n (length found) ≡ true
      → (ahead_page.has_next ≡ true)
        × (ahead_page.items ≡ take n found)
        × (ahead_page.next_cursor ≡ cursor_at cursor_value true (last_of (take n found)))
  unfolding page
  page-next many = (many, rw many refl, rw many refl)

-- The function gives what stands behind the item of the cursor: all items for none.
abbrev pub IsFetching : (ℕ → Bytes) → PagingFunc → List ℕ → ℤ → Type 0
IsFetching cursor_value fetch all total =
    ((k : ℕ) → fetch [] k forward ≡ some (take k all, total))
    × ((before rest : List ℕ) (x k : ℕ)
        → all ≡ before ++ x ∷ rest
        → fetch (encode_cursor (cursor_value x)) k forward ≡ some (take k rest, total))

module _ (cursor_value : ℕ → Bytes) (fetch : PagingFunc) (limit : ℤ) (direction : Bytes)
    (all : List ℕ) (total : ℤ) (fetching : IsFetching cursor_value fetch all total)
    (ahead : normalize_direction direction ≡ forward) where
  abbrev n : ℕ
  n = normalize_limit limit

  -- The cursor stands before the items `rest`.
  abbrev IsAt : Bytes → List ℕ → Type 0
  IsAt cursor rest =
      (trim_space cursor ≡ cursor)
      × ((k : ℕ) → fetch cursor k forward ≡ some (take k rest, total))
      × ((before : List ℕ) × (all ≡ before ++ rest))

  abbrev page_from : Bytes → Bytes → Option (List ℕ × ℤ) → Option Result
  page_from cursor d answer = elim answer [
    | none ↦ none
    | some found ↦ some (page cursor_value cursor n d found)
  ]

  page_at-IsAt :
      (cursor : Bytes) (rest : List ℕ)
      → IsAt cursor rest
      → page_at cursor_value fetch limit direction cursor
        ≡ some (page cursor_value cursor n forward (take (n + 1) rest, total))
  unfolding paginate normalize_params
  page_at-IsAt cursor rest at =
      ap₂ (λ c d. page_from c d (fetch c (n + 1) d)) at.0 ahead
      ∙ ap (page_from cursor forward) (at.1 (n + 1))

  walk-rest :
      (fuel : ℕ) (cursor : Bytes) (rest : List ℕ)
      → IsAt cursor rest
      → length rest < fuel
      → walk cursor_value fetch limit direction fuel cursor ≡ some rest
  unfolding cursor_at
  walk-rest zero cursor rest at enough = absurd (omega (arith, enough))
  walk-rest (suc fuel) cursor rest at enough =
      let found = take (n + 1) rest in
      let e = page_at-IsAt cursor rest at in
      elim (Bool-cases (ltb n (length found))) [
        | inr few ↦
            let short : length rest ≤ n = ground (arith, few, length-take (n + 1) rest) in
            let last = page-last cursor_value cursor n found total few in
            walk-last cursor_value fetch limit direction fuel cursor
              (page cursor_value cursor n forward (found, total)) e last.0
            ∙ ap some (last.1 ∙ take_of_length-le (n + 1) rest (omega (arith, short)))
        | inl many ↦
            let long : n < length rest = ground (arith, many, length-take (n + 1) rest) in
            let m : ℕ = n - 1 in
            let is_suc : n ≡ suc m = omega (arith, normalize_limit-positive limit) in
            let next = page-next cursor_value cursor n found total many in
            let (front, x, behind, cut, last, whole) =
              take-IsCut m rest (omega (arith, long, is_suc)) in
            let taken : take n found ≡ front ++ x ∷ [] =
              take-take n rest ∙ ap (λ k. take k rest) is_suc ∙ cut in
            let at_x : last_of (take n found) ≡ some x =
              ap last_of (take-take n rest ∙ ap (λ k. take k rest) is_suc) ∙ last in
            let to : (page cursor_value cursor n forward (found, total)).next_cursor
                ≡ encode_cursor (cursor_value x) =
              next.2 ∙ ap (cursor_at cursor_value true) at_x in
            let before = at.2.0 ++ front in
            let split : all ≡ before ++ x ∷ behind =
              at.2.1
              ∙ ap (λ ys. at.2.0 ++ ys) whole
              ∙ sym (append_assoc at.2.0 front (x ∷ behind)) in
            let there : IsAt (encode_cursor (cursor_value x)) behind = (
              trim_space-encode_cursor (cursor_value x),
              (λ k. fetching.1 before behind x k split),
              (before ++ x ∷ [], split ∙ sym (append_assoc before (x ∷ []) behind)),
            ) in
            let shorter : length front + suc (length behind) ≡ length rest =
              sym (length-append front (x ∷ behind)) ∙ ap length (sym whole) in
            let later =
              walk-rest fuel (encode_cursor (cursor_value x)) behind there
                (omega (arith, shorter, enough)) in
            walk-next cursor_value fetch limit direction fuel cursor
              (page cursor_value cursor n forward (found, total)) behind e next.0
              (ap (walk cursor_value fetch limit direction fuel) to ∙ later)
            ∙ ap some (
                ap (λ ys. ys ++ behind) (next.1 ∙ taken)
                ∙ append_assoc front (x ∷ []) behind
                ∙ sym whole)
      ]

  -- Following next_cursor from the first page, as long as has_next holds, gives every item once and in
  -- order, in at most one page for each item and one more, whatever the limit asked for: when the
  -- direction is read as forward, and the function that is called gives what stands behind the
  -- item of the cursor, up to the number asked for.
  pub walk-all : walk cursor_value fetch limit direction (suc (length all)) [] ≡ some all
  unfolding trim_space
  walk-all = walk-rest (suc (length all)) [] all (refl, fetching.0, ([], refl)) (omega arith)
