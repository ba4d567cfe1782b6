-- ===== src/Extension/Resolve/Tests.antt =====
-- Runs of the registry: two extensions that depend on each other, and three in a ring.
use ncore.Common.{◌≡◌, refl, [], ◌∷◌, true, lookup, insert, delete, contains}
use ncore.Extension.InitOrder.{Graph, deps_of}
use ncore.Extension.Cycles.{over_deps, dfs, from_each, all_names, detect_circular_dependencies}
use ncore.Extension.Resolve.{
  Registry, register_to_group_with_weak_deps, existing, build_graph, get_dependency_graph, without,
  break_weak, break_nodes, break_weak_all, insert_node, sort_nodes, infos, break_pair, break_with,
  break_pairs, resolve_dependency_graph,
}
use ncore.Extension.Resolve.Shrinks.{resolve_dependency_graph-Shrinks}
use ncore.Extension.Resolve.Mutual.{
  AreApart, break_weak_all_idle, resolve_dependency_graph-AreApart,
}

-- `a` asks for `b` weakly, and `b` for `a`
abbrev pair : Registry
unfolding register_to_group_with_weak_deps insert delete
pair =
    register_to_group_with_weak_deps "a" [] "core" ("b" ∷ "x" ∷ [])
      (register_to_group_with_weak_deps "b" ("a" ∷ []) "" [] [])

abbrev pair_graph : Graph
pair_graph = ("a", "b" ∷ []) ∷ ("b", "a" ∷ []) ∷ []

abbrev ring : Graph
ring = ("a", "b" ∷ []) ∷ ("b", "c" ∷ []) ∷ ("c", "a" ∷ []) ∷ []

built : build_graph pair pair ≡ pair_graph
unfolding build_graph existing lookup register_to_group_with_weak_deps insert delete
built = refl

-- the weak dependency of `a` stays and the other one goes
resolved : get_dependency_graph pair ≡ ("b", []) ∷ ("a", "b" ∷ []) ∷ []
unfolding get_dependency_graph resolve_dependency_graph build_graph existing lookup insert delete
    detect_circular_dependencies from_each over_deps dfs all_names deps_of break_weak_all
    break_nodes break_weak without contains sort_nodes insert_node break_pairs break_with break_pair
    register_to_group_with_weak_deps
resolved = refl

-- a ring of three stays as it is
ring_stays : resolve_dependency_graph [] ring ≡ ring
unfolding resolve_dependency_graph lookup insert delete detect_circular_dependencies from_each
    over_deps dfs all_names deps_of break_weak_all contains sort_nodes insert_node break_pairs
    break_with break_pair
ring_stays = refl

resolve_dependency_graph-Shrinks_example : contains "b" (deps_of pair_graph "a") ≡ true
unfolding resolve_dependency_graph lookup insert delete detect_circular_dependencies from_each
    over_deps dfs all_names deps_of break_weak_all break_nodes break_weak without contains
    sort_nodes insert_node break_pairs break_with break_pair register_to_group_with_weak_deps
resolve_dependency_graph-Shrinks_example =
    resolve_dependency_graph-Shrinks pair pair_graph "a" "b" refl

break_weak_all_idle_example : break_weak_all pair pair_graph ≡ pair_graph
unfolding contains register_to_group_with_weak_deps insert delete
break_weak_all_idle_example = break_weak_all_idle pair pair_graph (refl, (refl, tt))

resolve_dependency_graph-AreApart_example :
    AreApart (resolve_dependency_graph pair pair_graph) (sort_nodes (infos pair_graph))
unfolding lookup insert delete detect_circular_dependencies from_each over_deps dfs all_names
    deps_of break_weak_all break_nodes break_weak without contains register_to_group_with_weak_deps
resolve_dependency_graph-AreApart_example =
    resolve_dependency_graph-AreApart pair pair_graph refl refl
