-- ===== src/Common/Members.antt =====
-- Membership in a list of references, as a test, and lists with no repetition.
use Prim.Native.Nat.{ℕ, ◌+◌}
use mathlib.Core.Path.{◌≡◌, refl, subst}
use mathlib.Core.Logic.{inl, inr}
use mathlib.Core.Bool.{Bool, true, false, ◌||◌}
use mathlib.Core.List.{List, [], ◌∷◌, ◌++◌}
use native.Mathlib.Omega.{arith}
use ncore.Common.Tests.{◌==◌, ==_refl, ==_sound, Bool-cases, if◌then◌else◌}
use ncore.Common.Lists.{length}

-- P holds of every entry.
abbrev pub All {ℓ κ} : {A : Type ℓ} → (A → Type κ) → List A → Type κ
All P [] = Unit
All P (x ∷ xs) = P x × All P xs

pub All-append {ℓ κ} :
    {A : Type ℓ} (P : A → Type κ) (xs ys : List A) → All P xs → All P ys → All P (xs ++ ys)
All-append P [] ys hx hy = hy
All-append P (x ∷ xs) ys hx hy = (hx.0, All-append P xs ys hx.1 hy)

pub All-left {ℓ κ} : {A : Type ℓ} (P : A → Type κ) (xs ys : List A) → All P (xs ++ ys) → All P xs
All-left P [] ys h = tt
All-left P (x ∷ xs) ys h = (h.0, All-left P xs ys h.1)

pub All-right {ℓ κ} : {A : Type ℓ} (P : A → Type κ) (xs ys : List A) → All P (xs ++ ys) → All P ys
All-right P [] ys h = h
All-right P (x ∷ xs) ys h = All-right P xs ys h.1

pub All-map {ℓ κ κ'} :
    {A : Type ℓ} (P : A → Type κ) (Q : A → Type κ') (f : (x : A) → P x → Q x) (xs : List A)
    → All P xs
    → All Q xs
All-map P Q f [] h = tt
All-map P Q f (x ∷ xs) h = (f x h.0, All-map P Q f xs h.1)

unfoldable pub has : ℕ → List ℕ → Bool
has r [] = false
has r (x ∷ xs) = x == r || has r xs

-- The first occurrence goes.
unfoldable pub erase : ℕ → List ℕ → List ℕ
erase r [] = []
erase r (x ∷ xs) = if x == r then xs else x ∷ erase r xs

abbrev pub IsNodup : List ℕ → Type 0
IsNodup [] = Unit
IsNodup (x ∷ xs) = (has x xs ≡ false) × IsNodup xs

pub has-append : (r : ℕ) (xs ys : List ℕ) → has r (xs ++ ys) ≡ (has r xs || has r ys)
unfolding has
has-append r [] ys = refl
has-append r (x ∷ xs) ys = ground (arith, has-append r xs ys)

pub erase_absent : (r : ℕ) (xs : List ℕ) → has r xs ≡ false → erase r xs ≡ xs
unfolding has erase
erase_absent r [] h = refl
erase_absent r (x ∷ xs) h = ground (arith, erase_absent r xs)

pub erase-append_left :
    (r : ℕ) (xs ys : List ℕ) → has r xs ≡ true → erase r (xs ++ ys) ≡ erase r xs ++ ys
unfolding has erase
erase-append_left r [] ys h = cc
erase-append_left r (x ∷ xs) ys h = ground (arith, erase-append_left r xs ys)

pub erase-append_right :
    (r : ℕ) (xs ys : List ℕ) → has r xs ≡ false → erase r (xs ++ ys) ≡ xs ++ erase r ys
unfolding has erase
erase-append_right r [] ys h = refl
erase-append_right r (x ∷ xs) ys h = ground (arith, erase-append_right r xs ys)

pub length-erase : (r : ℕ) (xs : List ℕ) → has r xs ≡ true → length (erase r xs) + 1 ≡ length xs
unfolding has erase
length-erase r [] h = cc
length-erase r (x ∷ xs) h = ground (arith, length-erase r xs)

pub has-erase :
    (r s : ℕ) (xs : List ℕ) → IsNodup xs → has s (erase r xs) ≡ (if r == s then false else has s xs)
unfolding has erase
has-erase r s [] h = ground arith
has-erase r s (x ∷ xs) h = ground (arith, has-erase r s xs h.1)

pub erase-IsNodup : (r : ℕ) (xs : List ℕ) → IsNodup xs → IsNodup (erase r xs)
unfolding has erase
erase-IsNodup r [] h = tt
erase-IsNodup r (x ∷ xs) h = ground (arith, has-erase r x xs h.1, erase-IsNodup r xs h.1)

pub All-has {κ} : (P : ℕ → Type κ) (r : ℕ) (xs : List ℕ) → All P xs → has r xs ≡ true → P r
unfolding has
All-has P r [] h e = absurd (cc)
All-has P r (x ∷ xs) h e = elim (Bool-cases (x == r)) [
  | inl same ↦ subst P (==_sound x r same) h.0
  | inr other ↦ All-has P r xs h.1 (ground arith)
]

pub IsNodup-disjoint :
    (r : ℕ) (xs ys : List ℕ) → IsNodup (xs ++ ys) → has r ys ≡ true → has r xs ≡ false
unfolding has
IsNodup-disjoint r [] ys n h = refl
IsNodup-disjoint r (x ∷ xs) ys n h = elim (Bool-cases (x == r)) [
  | inl same ↦ absurd (ground (arith, ==_sound x r same, has-append x xs ys))
  | inr other ↦ ground (arith, IsNodup-disjoint r xs ys n.1 h)
]

pub All-erase {κ} : (P : ℕ → Type κ) (r : ℕ) (xs : List ℕ) → All P xs → All P (erase r xs)
unfolding erase
All-erase P r [] h = tt
All-erase P r (x ∷ xs) h = elim (Bool-cases (x == r)) [
  | inl same ↦ rw same h.1
  | inr other ↦ rw other (h.0, All-erase P r xs h.1)
]

pub All-of_has {κ} : (P : ℕ → Type κ) (xs : List ℕ) → ((s : ℕ) → has s xs ≡ true → P s) → All P xs
unfolding has
All-of_has P [] h = tt
All-of_has P (x ∷ xs) h =
    (h x (ground (arith, ==_refl x)), All-of_has P xs (λ s p. h s (ground arith)))
