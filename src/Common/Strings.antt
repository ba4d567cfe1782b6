-- ===== src/Common/Strings.antt =====
-- Lists of strings: membership as a test, `sort.Strings`, and permutations.
use Prim.Native.String.{String, compare}
use mathlib.Core.Path.{◌≡◌, refl, ◌∙◌}
use mathlib.Core.Logic.{∥∥₁_elim}
use mathlib.Core.Bool.{Bool, true, false, ◌||◌}
use mathlib.Core.List.{List, [], ◌∷◌, ◌++◌, Perm, Permᴰ}
use mathlib.Core.List.Perm
use native.Mathlib.Omega.{arith}
use text.Mathlib.Text.{◌==◌, is_lt}
use text.Mathlib.TextEquality.{eq_iff}
use ncore.Common.Tests.{if◌then◌else◌}
use ncore.Common.Members.{All}

unfoldable pub contains : String → List String → Bool
contains x [] = false
contains x (y ∷ ys) = y == x || contains x ys

-- `sort.Strings`: strings that are equal are the same, so any sorting algorithm gives this list.
insert_sorted : String → List String → List String
insert_sorted x [] = x ∷ []
insert_sorted x (y ∷ ys) = if is_lt (compare y x) then y ∷ insert_sorted x ys else x ∷ (y ∷ ys)

unfoldable pub sort : List String → List String
unfolding insert_sorted
sort [] = []
sort (x ∷ xs) = insert_sorted x (sort xs)

insert_sorted-perm : (x : String) (ys : List String) → Perm (insert_sorted x ys) (x ∷ ys)
unfolding insert_sorted
insert_sorted-perm x [] = Perm.refl (x ∷ [])
insert_sorted-perm x (y ∷ ys) =
    elim (is_lt (compare y x))
      as (λ b. Perm (if b then y ∷ insert_sorted x ys else x ∷ (y ∷ ys)) (x ∷ (y ∷ ys))) [
        | true ↦ Perm.trans (Perm.cons y (insert_sorted-perm x ys)) (Perm.swap x y ys)
        | false ↦ Perm.refl (x ∷ (y ∷ ys))
      ]

pub sort-perm : (xs : List String) → Perm (sort xs) xs
unfolding sort
sort-perm [] = Perm.refl []
sort-perm (x ∷ xs) = Perm.trans (insert_sorted-perm x (sort xs)) (Perm.cons x (sort-perm xs))

Bool-set : IsSet Bool
Bool-set = hlevel

contains-permᴰ : (x : String) {xs ys : List String} → Permᴰ xs ys → contains x xs ≡ contains x ys
unfolding contains
contains-permᴰ x Permᴰ.nil = refl
contains-permᴰ x (Permᴰ.cons e p) = ground (arith, e, contains-permᴰ x p)
contains-permᴰ x (Permᴰ.swap e f) = ground (arith, e, f)
contains-permᴰ x (Permᴰ.trans p q) = contains-permᴰ x p ∙ contains-permᴰ x q

pub contains-perm : (x : String) {xs ys : List String} → Perm xs ys → contains x xs ≡ contains x ys
contains-perm x p = ∥∥₁_elim p (Bool-set _ _) (contains-permᴰ x)

pub contains-append :
    (x : String) (xs ys : List String) → contains x (xs ++ ys) ≡ (contains x xs || contains x ys)
unfolding contains
contains-append x [] ys = refl
contains-append x (y ∷ xs) ys = ground (arith, contains-append x xs ys)

pub contains_self : (x : String) (xs : List String) → contains x (x ∷ xs) ≡ true
unfolding contains
contains_self x xs = ground (arith, eq_iff x x)

All-insert_sorted {κ} :
    (P : String → Type κ) (x : String) (ys : List String)
    → P x
    → All P ys
    → All P (insert_sorted x ys)
unfolding insert_sorted
All-insert_sorted P x [] h t = (h, tt)
All-insert_sorted P x (y ∷ ys) h t =
    elim (is_lt (compare y x))
      as (λ b. All P (if b then y ∷ insert_sorted x ys else x ∷ (y ∷ ys))) [
        | true ↦ (t.0, All-insert_sorted P x ys h t.1)
        | false ↦ (h, t)
      ]

pub All-sort {κ} : (P : String → Type κ) (xs : List String) → All P xs → All P (sort xs)
unfolding sort
All-sort P [] h = tt
All-sort P (x ∷ xs) h = All-insert_sorted P x (sort xs) h.0 (All-sort P xs h.1)
