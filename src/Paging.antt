-- ===== src/Paging.antt =====
-- paging/paging.go: NormalizeParams, EncodeCursor and Paginate.
-- A string is the list of its bytes, taken as ASCII: TrimSpace and ToLower know no other white space
-- or letters. What a PagingFunc returns is an argument, `none` for an error. DecodeCursor is called by no code
-- of the package.
pub mod Text
pub mod Walk
mod Tests
use ncore.Common.{
  ℕ, zero, suc, ◌+◌, ◌-◌, ◌*◌, ◌/◌, ◌%◌, Option, none, some, List, [], ◌∷◌, ◌++◌, Bool, true, false,
  ltb, leb, not, ◌==◌, ◌&&◌, ◌||◌, if◌then◌else◌, length, take, map,
}
use ncore.Common.Int.{ℤ, pos, negsuc, pos_part}

abbrev pub Bytes : Type 0
Bytes = List ℕ

abbrev pub is_equal : Bytes → Bytes → Bool
is_equal [] [] = true
is_equal [] (y ∷ ys) = false
is_equal (x ∷ xs) [] = false
is_equal (x ∷ xs) (y ∷ ys) = x == y && is_equal xs ys

unfoldable pub is_space : ℕ → Bool
is_space c = c == 32 || leb 9 c && leb c 13

unfoldable pub trim_left : Bytes → Bytes
unfolding is_space
trim_left [] = []
trim_left (c ∷ cs) = if is_space c then trim_left cs else c ∷ cs

unfoldable pub trim_right : Bytes → Bytes
unfolding is_space
trim_right [] = []
trim_right (c ∷ cs) = elim (trim_right cs) [
  | [] ↦ if is_space c then [] else c ∷ []
  | ◌∷◌ d ds ↦ c ∷ d ∷ ds
]

unfoldable pub trim_space : Bytes → Bytes
unfolding trim_left trim_right
trim_space s = trim_right (trim_left s)

abbrev pub to_lower : Bytes → Bytes
to_lower s = map (λ c. if leb 65 c && leb c 90 then c + 32 else c) s

abbrev pub forward : Bytes
forward = 102 ∷ 111 ∷ 114 ∷ 119 ∷ 97 ∷ 114 ∷ 100 ∷ []

abbrev pub backward : Bytes
backward = 98 ∷ 97 ∷ 99 ∷ 107 ∷ 119 ∷ 97 ∷ 114 ∷ 100 ∷ []

pub record Params : Type 0 where
  pub cursor : Bytes
  pub limit : ℤ
  pub direction : Bytes

unfoldable pub normalize_direction : Bytes → Bytes
unfolding trim_space
normalize_direction d =
    let lowered = to_lower (trim_space d) in
    if is_equal lowered forward
    then lowered
    else if is_equal lowered backward
    then lowered
    else forward

unfoldable pub normalize_limit : ℤ → ℕ
normalize_limit (pos zero) = 256
normalize_limit (pos (suc n)) = if ltb 1024 (suc n) then 256 else suc n
normalize_limit (negsuc n) = 256

unfoldable pub normalize_params : Params → Params
unfolding normalize_direction normalize_limit trim_space
normalize_params params = record {
  cursor = trim_space params.cursor;
  limit = pos (normalize_limit params.limit);
  direction = normalize_direction params.direction;
}

-- the alphabet of base64.URLEncoding
unfoldable pub digit : ℕ → ℕ
digit i =
    if ltb i 26
    then i + 65
    else if ltb i 52
    then i + 71
    else if ltb i 62
    then i - 4
    else if i == 62
    then 45
    else 95

unfoldable pub encode_cursor : Bytes → Bytes
unfolding digit
encode_cursor [] = []
encode_cursor (a ∷ []) = digit (a / 4) ∷ digit (a % 4 * 16) ∷ 61 ∷ 61 ∷ []
encode_cursor (a ∷ b ∷ []) =
    digit (a / 4) ∷ digit (a % 4 * 16 + b / 16) ∷ digit (b % 16 * 4) ∷ 61 ∷ []
encode_cursor (a ∷ b ∷ c ∷ s) =
    digit (a / 4)
    ∷ digit (a % 4 * 16 + b / 16)
    ∷ digit (b % 16 * 4 + c / 64)
    ∷ digit (c % 64)
    ∷ encode_cursor s

-- with the items as numbers, and the value of GetCursorValue of each
pub record Result : Type 0 where
  pub items : List ℕ
  pub total : ℤ
  pub cursor : Bytes
  pub next_cursor : Bytes
  pub prev_cursor : Bytes
  pub has_next : Bool
  pub has_prev : Bool

abbrev pub PagingFunc : Type 0
PagingFunc = Bytes → ℕ → Bytes → Option (List ℕ × ℤ)

-- the cursor of the item at an end of the page, when there is a page on that side
unfoldable pub cursor_at : (ℕ → Bytes) → Bool → Option ℕ → Bytes
unfolding encode_cursor
cursor_at cursor_value false item = []
cursor_at cursor_value true none = []
cursor_at cursor_value true (some item) = encode_cursor (cursor_value item)

abbrev pub first_of : List ℕ → Option ℕ
first_of [] = none
first_of (x ∷ xs) = some x

unfoldable pub last_of : List ℕ → Option ℕ
last_of [] = none
last_of (x ∷ []) = some x
last_of (x ∷ y ∷ xs) = last_of (y ∷ xs)

unfoldable pub reversed : List ℕ → List ℕ
reversed [] = []
reversed (x ∷ xs) = reversed xs ++ x ∷ []

abbrev pub is_empty : Bytes → Bool
is_empty [] = true
is_empty (c ∷ cs) = false

-- the page from what the function returns for one item more
unfoldable pub page : (ℕ → Bytes) → Bytes → ℕ → Bytes → List ℕ × ℤ → Result
unfolding cursor_at last_of reversed
page cursor_value cursor limit direction (found, total) =
    let more = ltb limit (length found) in
    let has_cursor = not (is_empty cursor) in
    let items = if more then take limit found else found in
    if is_equal direction backward
    then record {
      items = reversed items;
      total = total;
      cursor = cursor;
      next_cursor = cursor_at cursor_value more (last_of items);
      prev_cursor = cursor_at cursor_value has_cursor (first_of items);
      has_next = has_cursor;
      has_prev = more;
    }
    else record {
      items = items;
      total = total;
      cursor = cursor;
      next_cursor = cursor_at cursor_value more (last_of items);
      prev_cursor = cursor_at cursor_value has_cursor (first_of items);
      has_next = more;
      has_prev = has_cursor;
    }

unfoldable pub paginate : (ℕ → Bytes) → Params → PagingFunc → Option Result
unfolding normalize_params page
paginate cursor_value params paginate_func =
    let p = normalize_params params in
    elim (paginate_func p.cursor (pos_part p.limit + 1) p.direction) [
      | none ↦ none
      | some found ↦ some (page cursor_value p.cursor (pos_part p.limit) p.direction found)
    ]
