-- ===== src/Extension/InitOrder/Tests.antt =====
-- Runs of getInitOrder and checkDependencies on small graphs.
use ncore.Common.{
  ◌≡◌, ◌≢◌, refl, String, Option, none, some, List, [], ◌∷◌, true, All, contains, sort, lookup,
  Bool-cases, inl, inr, str_eq, subst, sym,
}
use ncore.Extension.InitOrder.{
  Graph, deps_of, can_initialize, visit, run_round, ok, cyclic, resolve, no_deps, with_deps,
  names_of, graph_of, get_init_order, check_dependencies, missing_dep, check_from,
}
use ncore.Extension.InitOrder.Sound.{IsInitOrder, start, next, InitEnds, get_init_order_sound}
use ncore.Extension.InitOrder.Complete.{get_init_order_complete, cyclic_waits}
use ncore.Extension.InitOrder.Check.{CheckEnds, check_dependencies_correct}
use mathlib.Core.List.{Perm}
use mathlib.Core.List.Perm

abbrev shop : Graph
shop = ("order", "user" ∷ "pay" ∷ []) ∷ ("pay", "user" ∷ []) ∷ ("user", []) ∷ []

abbrev ring_names : List String
ring_names = "a" ∷ "b" ∷ []

abbrev ring : Graph
ring = ("a", "b" ∷ []) ∷ ("b", "a" ∷ []) ∷ []

shop_order : get_init_order shop none ≡ ok ("user" ∷ "pay" ∷ "order" ∷ [])
unfolding get_init_order resolve run_round visit can_initialize deps_of no_deps with_deps lookup
    contains sort
shop_order = refl

ring_waits : get_init_order ring none ≡ cyclic ("a" ∷ "b" ∷ [])
unfolding get_init_order resolve run_round visit can_initialize deps_of no_deps with_deps lookup
    contains sort
ring_waits = refl

shop_checked :
    (check_dependencies shop ≡ none)
    × (check_dependencies (("x", "y" ∷ []) ∷ shop) ≡ some ("x", "y"))
unfolding check_dependencies check_from missing_dep lookup
shop_checked = (refl, refl)

shop-IsInitOrder : IsInitOrder shop ("user" ∷ "pay" ∷ "order" ∷ [])
unfolding deps_of lookup contains
shop-IsInitOrder =
    next {before = "user" ∷ "pay" ∷ []} "order"
      (next {before = "user" ∷ []} "pay" (next {before = []} "user" start tt refl) (refl, tt) refl)
      (refl, (refl, tt)) refl

shop-perm : Perm ("user" ∷ "pay" ∷ "order" ∷ []) (names_of shop)
shop-perm = Perm.trans (Perm.swap "pay" "user" ("order" ∷ [])) (
    Perm.trans (Perm.cons "pay" (Perm.swap "order" "user" []))
      (Perm.swap "order" "pay" ("user" ∷ [])))

get_init_order_sound_example : InitEnds shop (names_of shop) (get_init_order shop none)
get_init_order_sound_example = get_init_order_sound shop none

get_init_order_complete_example : (found : List String) × (get_init_order shop none ≡ ok found)
get_init_order_complete_example =
    get_init_order_complete shop none ("user" ∷ "pay" ∷ "order" ∷ []) shop-IsInitOrder shop-perm

found_known :
    (o : Option (List String)) (names : List String)
    → All (λ dep. contains dep names ≡ true) (elim o [ none ↦ [] | some deps ↦ deps ])
    → (o' : Option (List String)) → o' ≡ o
    → All (λ dep. contains dep names ≡ true) (elim o' [ none ↦ [] | some deps ↦ deps ])
found_known o names h o' e =
    subst
      (λ (p : Option (List String)).
        All (λ dep. contains dep names ≡ true) (elim p [ none ↦ [] | some deps ↦ deps ]))
      (sym e) h

ring_known :
    (x : String) → All (λ dep. contains dep (names_of ring) ≡ true) (deps_of (graph_of ring none) x)
unfolding deps_of lookup contains
ring_known x = elim (Bool-cases (str_eq "a" x)) [
  | inl first ↦
      found_known (some ("b" ∷ [])) (names_of ring) (refl, tt) (lookup x ring) (rw first refl)
  | inr away ↦ elim (Bool-cases (str_eq "b" x)) [
    | inl second ↦
        found_known (some ("a" ∷ [])) (names_of ring) (refl, tt) (lookup x ring)
          (rw (away, second) refl)
    | inr gone ↦ found_known none (names_of ring) tt (lookup x ring) (rw (away, gone) refl)
  ]
]

cyclic_waits_example :
    (ring_names ≢ [])
    × All
        (λ x.
          (dep : String) × (contains dep (deps_of ring x) ≡ true)
          × (contains dep ring_names ≡ true))
        ring_names
cyclic_waits_example = cyclic_waits ring none ("a" ∷ "b" ∷ []) ring_waits ring_known

check_dependencies_correct_example : CheckEnds shop shop (check_dependencies shop)
check_dependencies_correct_example = check_dependencies_correct shop
