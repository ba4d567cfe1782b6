-- ===== src/Extension/InitOrder.antt =====
-- extension/manager/utils.go, getInitOrder, and checkDependencies of extension/manager/lifecycle.go.
-- Go ranges over a map in any order: the extensions are a list of pairs of a name and what
-- `Dependencies()` returns, in the order in which the loop meets them, and the theorems hold for
-- each order. The set `initialized` is the list of its members. `remainingDeps` shares the array of
-- `withDeps`, but writes no entry that the loop has still to read.
pub mod Sound
pub mod Complete
pub mod Check
mod Tests
use ncore.Common.{
  ℕ, zero, suc, String, Option, none, some, List, [], ◌∷◌, ◌++◌, Bool, true, false, if◌then◌else◌,
  Dict, lookup, contains, sort, length, map,
}

abbrev pub Graph : Type 0
Graph = Dict (List String)

-- a missing name gives a nil slice
unfoldable pub deps_of : Graph → String → List String
deps_of graph name = elim (lookup name graph) [ none ↦ [] | some deps ↦ deps ]

-- the loop over the dependencies, which breaks at the first that is not initialized
unfoldable pub can_initialize : List String → List String → Bool
can_initialize [] initialized = true
can_initialize (dep ∷ deps) initialized =
    if contains dep initialized then can_initialize deps initialized else false

-- the variables of one round
pub record Round : Type 0 where
  pub order : List String
  pub initialized : List String
  pub remaining : List String
  pub progress : Bool

visit : Graph → String → Round → Round
visit graph name s =
    if can_initialize (deps_of graph name) s.initialized
    then record s {
      order = s.order ++ name ∷ [];
      initialized = name ∷ s.initialized;
      progress = true;
    }
    else record s { remaining = s.remaining ++ name ∷ [] }

-- `for _, name := range withDeps`
run_round : Graph → List String → Round → Round
run_round graph [] s = s
run_round graph (name ∷ names) s = run_round graph names (visit graph name s)

pub data InitResult : Type 0 where
  ok : List String → InitResult
  cyclic : List String → InitResult
  out_of_fuel : InitResult

abbrev first_round : List String → List String → Round
first_round order initialized = record {
  order = order;
  initialized = initialized;
  remaining = [];
  progress = false;
}

-- `for len(withDeps) > 0`
resolve : ℕ → Graph → List String → List String → List String → InitResult
resolve fuel graph [] order initialized = ok order
resolve zero graph (name ∷ names) order initialized = out_of_fuel
resolve (suc fuel) graph (name ∷ names) order initialized =
    let s = run_round graph (name ∷ names) (first_round order initialized) in
    let rest = resolve fuel graph s.remaining s.order s.initialized in
    if s.progress then rest else cyclic s.remaining

-- the names of the extensions with no dependency, and of the others
no_deps : Graph → List String → List String
no_deps graph [] = []
no_deps graph (name ∷ names) =
    let rest = no_deps graph names in
    elim (deps_of graph name) [ [] ↦ name ∷ rest | dep ∷ deps ↦ rest ]

with_deps : Graph → List String → List String
with_deps graph [] = []
with_deps graph (name ∷ names) =
    let rest = with_deps graph names in
    elim (deps_of graph name) [ [] ↦ rest | dep ∷ deps ↦ name ∷ rest ]

abbrev pub names_of : Graph → List String
names_of extensions = map (λ (e : String × List String). e.0) extensions

-- the graph given, or that of the extensions' own metadata
abbrev pub graph_of : Graph → Option Graph → Graph
graph_of extensions none = extensions
graph_of extensions (some graph) = graph

-- A round that makes progress leaves fewer names, so one round for each name is enough.
pub get_init_order : Graph → Option Graph → InitResult
get_init_order extensions dependency_graph =
    let graph = graph_of extensions dependency_graph in
    let names = names_of extensions in
    let waiting = with_deps graph names in
    resolve (suc (length waiting)) graph waiting (sort (no_deps graph names)) (no_deps graph names)

missing_dep : Graph → List String → Option String
missing_dep extensions [] = none
missing_dep extensions (dep ∷ deps) = elim (lookup dep extensions) [
  | none ↦ some dep
  | some _ ↦ missing_dep extensions deps
]

check_from : Graph → Graph → Option (String × String)
check_from extensions [] = none
check_from extensions ((name, deps) ∷ rest) = elim (missing_dep extensions deps) [
  | some dep ↦ some (name, dep)
  | none ↦ check_from extensions rest
]

-- the error names the extension and the dependency that is not available
pub check_dependencies : Graph → Option (String × String)
check_dependencies extensions = check_from extensions extensions
