-- ===== src/Extension/Resolve.antt =====
-- extension/registry/registry.go: the registry, its dependency graph and resolveDependencyGraph.
-- The registry is the package's map `extensionRegistry`, passed on as a value; `Clear` gives the empty
-- one. An entry is filed under its instance's name. Maps are lists of pairs in the order in
-- which the loops meet the entries. `coreModules` is empty in the source and
-- never written, so no node is skipped. The sort is stable here: with the entries of the map in
-- any order it gives each order that Go's unstable sort may give.
pub mod Shrinks
pub mod Mutual
mod Tests
use ncore.Common.{
  ℕ, ◌+◌, String, Option, none, some, List, [], ◌∷◌, ◌++◌, Bool, true, false, ◌&&◌, leb, ltb,
  str_eq, if◌then◌else◌, Dict, lookup, insert, exists, contains, length, map,
}
use ncore.Extension.InitOrder.{Graph, deps_of}
use ncore.Extension.Cycles.{Search, done, cycle, out_of_fuel, detect_circular_dependencies}

-- `dependencies` is what the instance's Dependencies() returns
pub record Entry : Type 0 where
  pub dependencies : List String
  pub group : String
  pub weak_dependencies : List String

abbrev pub Registry : Type 0
Registry = Dict Entry

pub register_to_group_with_weak_deps :
    String → List String → String → List String → Registry → Registry
register_to_group_with_weak_deps name dependencies group weak registry =
    insert name (record { dependencies = dependencies; group = group; weak_dependencies = weak })
      registry

pub register_to_group : String → List String → String → Registry → Registry
register_to_group name dependencies group registry =
    register_to_group_with_weak_deps name dependencies group [] registry

pub get_extensions_by_group : String → Registry → Registry
get_extensions_by_group group [] = []
get_extensions_by_group group ((name, entry) ∷ registry) =
    let rest = get_extensions_by_group group registry in
    if str_eq entry.group group then (name, entry) ∷ rest else rest

-- "only add those that exist"
pub existing : Registry → List String → List String
existing registry [] = []
existing registry (dep ∷ deps) =
    let rest = existing registry deps in if exists dep registry then dep ∷ rest else rest

-- the loop that builds the graph over the entries, with all of `registry` for the test
pub build_graph : Registry → Registry → Graph
build_graph registry [] = []
build_graph registry ((name, entry) ∷ entries) =
    (name, entry.dependencies ++ existing registry entry.weak_dependencies)
    ∷ build_graph registry entries

-- `newDeps`: the dependencies but `dep`
unfoldable pub without : String → List String → List String
without dep [] = []
without dep (d ∷ ds) = let rest = without dep ds in if str_eq d dep then rest else d ∷ rest

-- the loop over the dependencies of a node, for one entry of the registry: `deps` as they
-- were when the loop began, `current` as they are
pub break_weak : String → List String → List String → List String → List String
break_weak name weak [] current = current
break_weak name weak (dep ∷ deps) current =
    break_weak name weak deps
      (if str_eq dep name && contains dep weak then without dep current else current)

-- the loop over the nodes
pub break_nodes : String → List String → Graph → Graph
break_nodes name weak [] = []
break_nodes name weak ((node, deps) ∷ graph) =
    (node, break_weak name weak deps deps) ∷ break_nodes name weak graph

-- "Find non-core modules in cycles and break them"
pub break_weak_all : Registry → Graph → Graph
break_weak_all [] graph = graph
break_weak_all ((name, entry) ∷ registry) graph =
    break_weak_all registry (break_nodes name entry.weak_dependencies graph)

pub record NodeInfo : Type 0 where
  pub name : String
  pub deps : ℕ

abbrev infos : Graph → List NodeInfo
infos graph = map (λ (e : String × List String). record { name = e.0; deps = length e.1 }) graph

insert_node : NodeInfo → List NodeInfo → List NodeInfo
insert_node n [] = n ∷ []
insert_node n (m ∷ ms) = if ltb m.deps n.deps then m ∷ insert_node n ms else n ∷ (m ∷ ms)

pub sort_nodes : List NodeInfo → List NodeInfo
sort_nodes [] = []
sort_nodes (n ∷ ns) = insert_node n (sort_nodes ns)

-- "Check if these two nodes depend on each other", and the break
pub break_pair : NodeInfo → NodeInfo → Graph → Graph
break_pair node other graph =
    if contains other.name (deps_of graph node.name)
      && contains node.name (deps_of graph other.name)
    then (if leb node.deps other.deps
        then insert other.name (without node.name (deps_of graph other.name)) graph
        else insert node.name (without other.name (deps_of graph node.name)) graph)
    else graph

-- the inner loop, over the nodes behind `node`
pub break_with : NodeInfo → List NodeInfo → Graph → Graph
break_with node [] graph = graph
break_with node (other ∷ others) graph = break_with node others (break_pair node other graph)

-- the outer loop
pub break_pairs : List NodeInfo → Graph → Graph
break_pairs [] graph = graph
break_pairs (node ∷ nodes) graph = break_pairs nodes (break_with node nodes graph)

abbrev has_cycles : Search → Bool
has_cycles (done v) = false
has_cycles (cycle a b) = true
has_cycles out_of_fuel = false

pub resolve_dependency_graph : Registry → Graph → Graph
resolve_dependency_graph registry graph =
    if has_cycles (detect_circular_dependencies graph)
    then (let weakened = break_weak_all registry graph in
        if has_cycles (detect_circular_dependencies weakened)
        then break_pairs (sort_nodes (infos graph)) weakened
        else weakened)
    else graph

-- the graph that GetExtensionsAndDependencies returns
pub get_dependency_graph : Registry → Graph
get_dependency_graph registry = resolve_dependency_graph registry (build_graph registry registry)
