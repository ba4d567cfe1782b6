-- ===== src/Common/Lists.antt =====
-- Lists measured and indexed by native numbers, under the library's names.
use Prim.Native.Nat.{ℕ, zero, suc, ◌+◌, ◌-◌, ◌≤◌, ◌<◌, min}
use mathlib.Core.Path.{◌≡◌, refl, ap}
use mathlib.Core.Logic.{◌≢◌, ◌⊎◌, inl, inr}
use mathlib.Core.List.{List, [], ◌∷◌, ◌++◌}
use mathlib.Core.Option.{Option, none, some}
use native.Mathlib.Omega.{arith}

module _ {ℓ} {Item : Type ℓ} where
  abbrev pub length : List Item → ℕ
  length [] = 0
  length (x ∷ xs) = suc (length xs)

  abbrev pub get_elem? : List Item → ℕ → Option Item
  get_elem? [] i = none
  get_elem? (x ∷ xs) zero = some x
  get_elem? (x ∷ xs) (suc i) = get_elem? xs i

  -- Item write out of bounds changes nothing.
  abbrev pub set : List Item → ℕ → Item → List Item
  set [] i v = []
  set (x ∷ xs) zero v = v ∷ xs
  set (x ∷ xs) (suc i) v = x ∷ set xs i v

  abbrev pub take : ℕ → List Item → List Item
  take zero xs = []
  take (suc n) [] = []
  take (suc n) (x ∷ xs) = x ∷ take n xs

  abbrev pub drop : ℕ → List Item → List Item
  drop zero xs = xs
  drop (suc n) [] = []
  drop (suc n) (x ∷ xs) = drop n xs

  abbrev pub replicate : ℕ → Item → List Item
  replicate zero a = []
  replicate (suc n) a = a ∷ replicate n a

  abbrev pub head? : List Item → Option Item
  head? [] = none
  head? (x ∷ xs) = some x

  abbrev pub tail : List Item → List Item
  tail [] = []
  tail (x ∷ xs) = xs

  pub length-append : (xs ys : List Item) → length (xs ++ ys) ≡ length xs + length ys
  length-append [] ys = omega arith
  length-append (x ∷ xs) ys = omega (arith, length-append xs ys)

  pub length-set : (xs : List Item) (i : ℕ) (v : Item) → length (set xs i v) ≡ length xs
  length-set [] i v = refl
  length-set (x ∷ xs) zero v = refl
  length-set (x ∷ xs) (suc i) v = ap suc (length-set xs i v)

  pub get_elem?-set_self :
      (xs : List Item) (i : ℕ) (v : Item) → i < length xs → get_elem? (set xs i v) i ≡ some v
  get_elem?-set_self [] i v h = elim h [ ]
  get_elem?-set_self (x ∷ xs) zero v h = refl
  get_elem?-set_self (x ∷ xs) (suc i) v h = get_elem?-set_self xs i v (omega arith)

  pub get_elem?-set_ne :
      (xs : List Item) (i j : ℕ) (v : Item) → i ≢ j → get_elem? (set xs i v) j ≡ get_elem? xs j
  get_elem?-set_ne [] i j v h = refl
  get_elem?-set_ne (x ∷ xs) zero zero v h = absurd (h refl)
  get_elem?-set_ne (x ∷ xs) zero (suc j) v h = refl
  get_elem?-set_ne (x ∷ xs) (suc i) zero v h = refl
  get_elem?-set_ne (x ∷ xs) (suc i) (suc j) v h = get_elem?-set_ne xs i j v (λ e. h (ap suc e))

  pub get_elem?-some :
      (xs : List Item) (i : ℕ) → i < length xs → (x : Item) × (get_elem? xs i ≡ some x)
  get_elem?-some [] i h = elim h [ ]
  get_elem?-some (x ∷ xs) zero h = (x, refl)
  get_elem?-some (x ∷ xs) (suc i) h = get_elem?-some xs i (omega arith)

  pub get_elem?-bound :
      (xs : List Item) (i : ℕ) (x : Item) → get_elem? xs i ≡ some x → i < length xs
  get_elem?-bound [] i x h = cc
  get_elem?-bound (y ∷ xs) zero x h = omega arith
  get_elem?-bound (y ∷ xs) (suc i) x h = omega (arith, get_elem?-bound xs i x h)

  pub length-replicate : (n : ℕ) (a : Item) → length (replicate n a) ≡ n
  length-replicate zero a = refl
  length-replicate (suc n) a = ap suc (length-replicate n a)

  pub length-take : (n : ℕ) (xs : List Item) → length (take n xs) ≡ min n (length xs)
  length-take zero xs = omega arith
  length-take (suc n) [] = omega arith
  length-take (suc n) (x ∷ xs) = omega (arith, length-take n xs)

  pub length-drop : (n : ℕ) (xs : List Item) → length (drop n xs) ≡ length xs - n
  length-drop zero xs = omega arith
  length-drop (suc n) [] = omega arith
  length-drop (suc n) (x ∷ xs) = omega (arith, length-drop n xs)

  pub take-append-drop : (n : ℕ) (xs : List Item) → take n xs ++ drop n xs ≡ xs
  take-append-drop zero xs = refl
  take-append-drop (suc n) [] = refl
  take-append-drop (suc n) (x ∷ xs) = ap (◌∷◌ x) (take-append-drop n xs)

  pub take_of_length-le : (n : ℕ) (xs : List Item) → length xs ≤ n → take n xs ≡ xs
  take_of_length-le zero [] fits = refl
  take_of_length-le zero (item ∷ items) fits = absurd (omega arith)
  take_of_length-le (suc n) [] fits = refl
  take_of_length-le (suc n) (item ∷ items) fits =
      ap (◌∷◌ item) (take_of_length-le n items (omega arith))

  pub drop_of_length-le : (n : ℕ) (xs : List Item) → length xs ≤ n → drop n xs ≡ []
  drop_of_length-le zero [] h = refl
  drop_of_length-le zero (x ∷ xs) h = absurd (omega arith)
  drop_of_length-le (suc n) [] h = refl
  drop_of_length-le (suc n) (x ∷ xs) h = drop_of_length-le n xs (omega arith)

  pub take-nil : (n : ℕ) → ◌≡◌ {A = List Item} (take n []) []
  take-nil zero = refl
  take-nil (suc n) = refl

  pub drop-nil : (n : ℕ) → ◌≡◌ {A = List Item} (drop n []) []
  drop-nil zero = refl
  drop-nil (suc n) = refl

  -- `take` and `drop` over an append, at the number that the first part gives.
  pub take-append :
      (n k j : ℕ) (xs ys : List Item)
      → n ≡ k + j
      → k ≤ length xs
      → (k < length xs → j ≡ 0)
      → take n (xs ++ ys) ≡ take k xs ++ take j ys
  take-append n zero j [] ys e h z = ap (λ i. take i ys) (omega arith)
  take-append n (suc k) j [] ys e h z = elim h [ ]
  take-append n zero j (x ∷ xs) ys e h z =
      let j0 : j ≡ 0 = z (omega arith) in let n0 : n ≡ 0 = omega arith in rw (n0, j0)
  take-append zero (suc k) j (x ∷ xs) ys e h z = absurd (omega arith)
  take-append (suc n) (suc k) j (x ∷ xs) ys e h z =
      ap (◌∷◌ x) (take-append n k j xs ys (omega arith) (omega arith) (λ q. z (omega arith)))

  pub drop-append :
      (n k j : ℕ) (xs ys : List Item)
      → n ≡ k + j
      → k ≤ length xs
      → (k < length xs → j ≡ 0)
      → drop n (xs ++ ys) ≡ drop k xs ++ drop j ys
  drop-append n zero j [] ys e h z = ap (λ i. drop i ys) (omega arith)
  drop-append n (suc k) j [] ys e h z = elim h [ ]
  drop-append n zero j (x ∷ xs) ys e h z =
      let j0 : j ≡ 0 = z (omega arith) in let n0 : n ≡ 0 = omega arith in rw (n0, j0)
  drop-append zero (suc k) j (x ∷ xs) ys e h z = absurd (omega arith)
  drop-append (suc n) (suc k) j (x ∷ xs) ys e h z =
      drop-append n k j xs ys (omega arith) (omega arith) (λ q. z (omega arith))

  -- To split on a computed list and keep the equation.
  pub List-cases : (xs : List Item) → (xs ≡ []) ⊎ ((x : Item) × (ys : List Item) × (xs ≡ x ∷ ys))
  List-cases [] = inl refl
  List-cases (x ∷ xs) = inr (x, xs, refl)
