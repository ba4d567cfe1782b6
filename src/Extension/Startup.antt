-- ===== src/Extension/Startup.antt =====
-- The registry's search for cycles and the manager's getInitOrder, on the same graph.
mod Tests
use ncore.Common.{
  ◌≡◌, ◌≢◌, refl, sym, ap, ◌∙◌, subst, String, Option, none, some, List, [], ◌∷◌, ◌++◌, Bool, true,
  false, ◌||◌, arith, All, All-map, contains, contains-append, contains-perm, contains_self,
  Bool-cases, List-cases, inl, inr, eq_iff, if◌then◌else◌,
}
use ncore.Extension.InitOrder.{
  Graph, deps_of, can_initialize, InitResult, ok, cyclic, out_of_fuel, names_of, get_init_order,
}
use ncore.Extension.InitOrder.Sound.{
  IsInitOrder, start, next, IsBlocked, Stuck, InitEnds, get_init_order_sound,
}
use ncore.Extension.InitOrder.Complete.{All-contains, All-initialized, initialized}
use ncore.Extension.Cycles.{Visited, Search, done, detect_circular_dependencies}
use ncore.Extension.Cycles.Correct.{DetectEnds, detect_circular_dependencies_correct}

All-both {κ} :
    (P Q R : String → Type κ) (f : (x : String) → P x → Q x → R x) (xs : List String)
    → All P xs
    → All Q xs
    → All R xs
All-both P Q R f [] p q = tt
All-both P Q R f (x ∷ xs) p q = (f x p.0 q.0, All-both P Q R f xs p.1 q.1)

module _ (graph : Graph) (names remaining : List String) (stuck : Stuck graph names remaining)
    (known : (x : String) → All (λ dep. contains dep names ≡ true) (deps_of graph x)) where
  order_starts :
      {order : List String}
      → IsInitOrder graph order
      → (x : String) → contains x order ≡ true
      → can_initialize (deps_of graph x) stuck.order ≡ true
  unfolding contains
  order_starts start x h = absurd (cc)
  order_starts (next {before = before} name o deps e) x h = elim (Bool-cases (contains x before)) [
    | inl earlier ↦ order_starts o x earlier
    | inr last ↦
        let same : name ≡ x =
          (eq_iff name x).0
            (ground (arith, ap (contains x) e, contains-append x before (name ∷ []))) in
        subst (λ y. can_initialize (deps_of graph y) stuck.order ≡ true) same
          (All-initialized (deps_of graph name) stuck.order (
            All-both (λ d. contains d before ≡ true) (λ d. contains d names ≡ true)
              (λ d. contains d stuck.order ≡ true)
              (λ d early there.
                initialized graph names remaining stuck d there (order_starts o d early))
              (deps_of graph name) deps (known name)))
  ]

-- Where every dependency in the graph is an extension and detectCircularDependencies finds no cycle in it,
-- getInitOrder finds an order of the extensions that the graph has.
pub acyclic_starts :
    (extensions graph : Graph) (v : Visited)
    → All (λ name. contains name (names_of graph) ≡ true) (names_of extensions)
    → ((x : String) → All (λ dep. contains dep (names_of extensions) ≡ true) (deps_of graph x))
    → detect_circular_dependencies graph ≡ done v
    → (found : List String) × (get_init_order extensions (some graph) ≡ ok found)
acyclic_starts extensions graph v covered known acyclic =
    let (order, o, all) =
      subst (DetectEnds graph) acyclic (detect_circular_dependencies_correct graph) in
    conclude order o all (get_init_order extensions (some graph)) refl
      (get_init_order_sound extensions (some graph))
  where
    conclude :
        (order : List String)
        → IsInitOrder graph order
        → All (λ name. contains name order ≡ true) (names_of graph)
        → (r : InitResult) → get_init_order extensions (some graph) ≡ r
        → InitEnds graph (names_of extensions) r
        → (found : List String) × (get_init_order extensions (some graph) ≡ ok found)
    conclude order o all (ok found) e h = (found, e)
    conclude order o all (cyclic remaining) e h = elim (List-cases remaining) [
      | inl nothing ↦ absurd (h.some_left nothing)
      | inr (x, xs, first) ↦
          let waits : contains x remaining ≡ true = rw first (contains_self x xs) in
          let named : contains x (names_of extensions) ≡ true =
            sym (contains-perm x h.all_there)
            ∙ contains-append x h.order remaining
            ∙ ground arith in
          let there : contains x order ≡ true =
            All-contains (λ y. contains y order ≡ true) x (names_of graph) all
              (All-contains (λ y. contains y (names_of graph) ≡ true) x (names_of extensions)
                covered named) in
          let ready = order_starts graph (names_of extensions) remaining h known o x there in
          absurd (cc (All-contains (IsBlocked graph h.order) x remaining h.blocked waits))
    ]
    conclude order o all out_of_fuel e h = absurd h
