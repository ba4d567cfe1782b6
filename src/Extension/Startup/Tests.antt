-- ===== src/Extension/Startup/Tests.antt =====
-- A graph without a cycle, of which getInitOrder finds an order.
use ncore.Common.{
  ◌≡◌, refl, sym, subst, String, Option, none, some, List, [], ◌∷◌, Bool-cases, inl, inr, true, All,
  contains, lookup, insert, delete, str_eq,
}
use ncore.Extension.InitOrder.{Graph, deps_of, ok, names_of, get_init_order}
use ncore.Extension.Cycles.{
  Visited, visited, done, over_deps, dfs, from_each, all_names, detect_circular_dependencies,
}
use ncore.Extension.Startup.{acyclic_starts}

abbrev shop : Graph
shop = ("order", "pay" ∷ []) ∷ ("pay", []) ∷ []

abbrev all_visited : Visited
all_visited = ("order", visited) ∷ ("pay", visited) ∷ []

searched : detect_circular_dependencies shop ≡ done all_visited
unfolding detect_circular_dependencies from_each over_deps dfs all_names deps_of lookup insert
    delete
searched = refl

shop_known : (x : String) → All (λ dep. contains dep (names_of shop) ≡ true) (deps_of shop x)
unfolding deps_of lookup contains
shop_known x = elim (Bool-cases (str_eq "order" x)) [
  | inl order ↦ known_by (some ("pay" ∷ [])) (refl, tt) (lookup x shop) (rw order refl)
  | inr away ↦ elim (Bool-cases (str_eq "pay" x)) [
    | inl pay ↦ known_by (some []) tt (lookup x shop) (rw (away, pay) refl)
    | inr gone ↦ known_by none tt (lookup x shop) (rw (away, gone) refl)
  ]
]
  where
    known_by :
        (o : Option (List String))
        → All (λ dep. contains dep (names_of shop) ≡ true) (elim o [ none ↦ [] | some deps ↦ deps ])
        → (found : Option (List String)) → found ≡ o
        → All
            (λ dep. contains dep (names_of shop) ≡ true)
            (elim found [ none ↦ [] | some deps ↦ deps ])
    known_by o h found e =
        subst
          (λ (p : Option (List String)).
            All (λ dep. contains dep (names_of shop) ≡ true)
              (elim p [ none ↦ [] | some deps ↦ deps ]))
          (sym e) h

acyclic_starts_example : (found : List String) × (get_init_order shop (some shop) ≡ ok found)
unfolding contains
acyclic_starts_example = acyclic_starts shop shop all_visited (refl, (refl, tt)) shop_known searched
