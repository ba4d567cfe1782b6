-- ===== src/Extension/Cycles.antt =====
-- extension/registry/registry.go, detectCircularDependencies.
-- The graph is a list of pairs, in the order in which Go's loop meets the nodes. `path` is only
-- written in the source, so it is left out, and a cycle is given by the two nodes of its message. The
-- recursion of `dfs` is on fuel: each call marks a node, so one unit for each name in the graph is
-- enough.
pub mod Trail
pub mod Explore
pub mod Correct
mod Tests
use ncore.Common.{
  ℕ, zero, suc, String, Option, none, some, List, [], ◌∷◌, ◌++◌, Dict, lookup, insert, length,
}
use ncore.Extension.InitOrder.{Graph, deps_of, names_of}

-- A missing key is 0, not visited.
pub data Mark : Type 0 where
  visiting visited : Mark

abbrev pub Visited : Type 0
Visited = Dict Mark

pub data Search : Type 0 where
  done : Visited → Search
  cycle : (node dep : String) → Search
  out_of_fuel : Search

-- `for _, dep := range graph[node]`, with `dfs` the recursive call, and what comes after it
unfoldable pub over_deps : (String → Visited → Search) → String → List String → Visited → Search
over_deps dfs node [] v = done (insert node visited v)
over_deps dfs node (dep ∷ deps) v = elim (lookup dep v) [
  | none ↦ elim (dfs dep v) [
    | done v' ↦ over_deps dfs node deps v'
    | cycle a b ↦ cycle a b
    | out_of_fuel ↦ out_of_fuel
  ]
  | some m ↦ elim m [ visiting ↦ cycle node dep | visited ↦ over_deps dfs node deps v ]
]

unfoldable pub dfs : ℕ → Graph → String → Visited → Search
dfs zero graph node v = out_of_fuel
dfs (suc fuel) graph node v =
    over_deps (dfs fuel graph) node (deps_of graph node) (insert node visiting v)

-- "Run DFS from each unvisited node"
unfoldable pub from_each : ℕ → Graph → List String → Visited → Search
from_each fuel graph [] v = done v
from_each fuel graph (node ∷ nodes) v = elim (lookup node v) [
  | none ↦ elim (dfs fuel graph node v) [
    | done v' ↦ from_each fuel graph nodes v'
    | cycle a b ↦ cycle a b
    | out_of_fuel ↦ out_of_fuel
  ]
  | some m ↦ from_each fuel graph nodes v
]

-- every name of the graph, as a node or as a dependency
unfoldable pub all_names : Graph → List String
all_names [] = []
all_names ((name, deps) ∷ graph) = name ∷ (deps ++ all_names graph)

unfoldable pub detect_circular_dependencies : Graph → Search
detect_circular_dependencies graph =
    from_each (suc (length (all_names graph))) graph (names_of graph) []
