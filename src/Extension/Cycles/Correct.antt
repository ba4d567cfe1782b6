-- ===== src/Extension/Cycles/Correct.antt =====
-- What detectCircularDependencies answers: an order with all dependencies first, or a real cycle.
use ncore.Common.{
  ℕ, suc, ◌≤◌, ◌<◌, ◌≡◌, ◌≢◌, String, some, List, [], ◌∷◌, true, arith, lookup, contains,
  contains-append, All, All-map, Option-cases, inl, inr, eq_iff, length,
}
use ncore.Extension.InitOrder.{Graph, deps_of, names_of}
use ncore.Extension.InitOrder.Sound.{IsInitOrder, start}
use ncore.Extension.Cycles.{
  visiting, visited, Visited, Search, done, cycle, out_of_fuel, dfs, from_each, all_names,
  detect_circular_dependencies,
}
use ncore.Extension.Cycles.Trail.{Chain, Trail, unvisited, Grown, Grown-trans, unvisited-le}
use ncore.Extension.Cycles.Explore.{Ends, dfs-Ends}

abbrev Holds : List String → List String → Type 0
Holds nodes order = All (λ node. contains node order ≡ true) nodes

Ends-next :
    {graph : Graph} {v v' : Visited} {o o' : List String} (node : String) (nodes : List String)
    → Grown graph v o v' o'
    → contains node o' ≡ true
    → (r : Search) → Ends graph v' o' (Holds nodes) r
    → Ends graph v o (Holds (node ∷ nodes)) r
Ends-next node nodes g there (done w) (order', h, all) =
    (order', Grown-trans g h, (h.kept node there, all))
Ends-next node nodes g there (cycle a b) h = h
Ends-next node nodes g there out_of_fuel h = h

Grown-refl : {graph : Graph} {v : Visited} {o : List String} → Trail graph v o → Grown graph v o v o
Grown-refl t = record { trail = t; kept = λ x e. e; no_new = λ x e. e; marked = λ x e. e }

-- between two searches no node is being visited
from_each-Ends :
    (graph : Graph) (fuel : ℕ) (nodes : List String) (v : Visited) (order : List String)
    → unvisited (all_names graph) v < fuel
    → All (λ node. contains node (all_names graph) ≡ true) nodes
    → Trail graph v order
    → ((x : String) → lookup x v ≢ some visiting)
    → Ends graph v order (Holds nodes) (from_each fuel graph nodes v)
unfolding from_each
from_each-Ends graph fuel [] v order enough known t idle = (order, Grown-refl t, tt)
from_each-Ends graph fuel (node ∷ nodes) v order enough known t idle =
    elim (Option-cases (lookup node v)) [
      | inl fresh ↦
          rw (fresh, Ends)
            ((elim (dfs fuel graph node v)
                as (λ r.
                  Ends graph v order (λ o. contains node o ≡ true) r
                  → Ends graph v order (Holds (node ∷ nodes)) (elim r [
                    | done v' ↦ from_each fuel graph nodes v'
                    | cycle a b ↦ cycle a b
                    | out_of_fuel ↦ out_of_fuel
                  ])) [
                    | done v' ↦ λ q.
                        let (o', g, there) = q in
                        Ends-next node nodes g there (from_each fuel graph nodes v') (
                          from_each-Ends graph fuel nodes v' o'
                            (omega (arith, unvisited-le (all_names graph) v v' g.marked)) known.1
                            g.trail (λ x visit. idle x (g.no_new x visit)))
                    | cycle a b ↦ λ q. q
                    | out_of_fuel ↦ λ q. q
                  ])
              (dfs-Ends graph fuel node v order enough known.0 fresh t
                (λ x visit. absurd (idle x visit))))
      | inr (m, seen) ↦
          rw (seen, Ends)
            ((elim m
                as (λ mark.
                  lookup node v ≡ some mark
                  → Ends graph v order (Holds (node ∷ nodes)) (from_each fuel graph nodes v)) [
                    | visiting ↦ λ s. absurd (idle node s)
                    | visited ↦ λ s.
                        Ends-next node nodes (Grown-refl t) (t.sound node s)
                          (from_each fuel graph nodes v)
                          (from_each-Ends graph fuel nodes v order enough known.1 t idle)
                  ])
              seen)
    ]

unvisited-length : (xs : List String) → unvisited xs [] ≤ length xs
unfolding unvisited lookup
unvisited-length [] = omega arith
unvisited-length (x ∷ xs) = omega (arith, unvisited-length xs)

names-known :
    (graph : Graph) → All (λ node. contains node (all_names graph) ≡ true) (names_of graph)
unfolding all_names contains
names-known [] = tt
names-known ((name, deps) ∷ graph) = (
  ground (arith, eq_iff name name),
  All-map (λ x. contains x (all_names graph) ≡ true) _
      (λ x e. ground (arith, contains-append x deps (all_names graph), e)) (names_of graph)
      (names-known graph),
)

-- what each answer of detectCircularDependencies says
abbrev pub DetectEnds : Graph → Search → Type 0
DetectEnds graph (done v) =
    (order : List String) × IsInitOrder graph order × Holds (names_of graph) order
DetectEnds graph (cycle a b) = Chain graph b a × (contains b (deps_of graph a) ≡ true)
DetectEnds graph out_of_fuel = ⊥

conclude :
    (graph : Graph) (v : Visited) (r : Search)
    → Ends graph v [] (Holds (names_of graph)) r
    → DetectEnds graph r
conclude graph v (done w) (order, g, all) = (order, g.trail.ordered, all)
conclude graph v (cycle a b) h = h
conclude graph v out_of_fuel h = h

-- detectCircularDependencies always ends. Where it finds no cycle, there is an order that holds every
-- extension, each behind all of its dependencies; where it reports a cycle from one node to another,
-- the first depends on the second, and the second, by a chain of dependencies, on the first.
pub detect_circular_dependencies_correct :
    (graph : Graph) → DetectEnds graph (detect_circular_dependencies graph)
unfolding detect_circular_dependencies lookup contains
detect_circular_dependencies_correct graph =
    conclude graph [] (detect_circular_dependencies graph) (
      from_each-Ends graph (suc (length (all_names graph))) (names_of graph) [] []
        (omega (arith, unvisited-length (all_names graph))) (names-known graph)
        (record { ordered = start; sound = λ x e. absurd (cc); complete = λ x e. absurd (cc) })
        (λ x e. absurd (cc)))
