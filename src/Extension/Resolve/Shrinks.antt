-- ===== src/Extension/Resolve/Shrinks.antt =====
-- resolveDependencyGraph only takes dependencies away.
use ncore.Common.{
  ◌≡◌, String, List, [], ◌∷◌, true, false, ◌&&◌, leb, str_eq, eq_iff, if◌then◌else◌, arith, lookup,
  insert, lookup-insert, contains, Bool-cases, inl, inr,
}
use ncore.Extension.InitOrder.{Graph, deps_of}
use ncore.Extension.Cycles.{detect_circular_dependencies}
use ncore.Extension.Resolve.{
  Registry, without, break_weak, break_nodes, break_weak_all, NodeInfo, sort_nodes, break_pair,
  break_with, break_pairs, infos, has_cycles, resolve_dependency_graph,
}

-- each dependency of the second graph is one of the first
abbrev pub Shrinks : Graph → Graph → Type 0
Shrinks graph graph' =
    (node dep : String)
    → contains dep (deps_of graph' node) ≡ true
    → contains dep (deps_of graph node) ≡ true

pub contains-without :
    (x dep : String) (ds : List String)
    → contains x (without dep ds) ≡ (if str_eq x dep then false else contains x ds)
unfolding without contains
contains-without x dep [] = ground arith
contains-without x dep (d ∷ ds) =
    ground (arith, contains-without x dep ds, eq_iff d dep, eq_iff x dep, eq_iff d x)

pub deps_of-insert :
    (x y : String) (ds : List String) (graph : Graph)
    → deps_of (insert x ds graph) y ≡ (if str_eq x y then ds else deps_of graph y)
unfolding deps_of
deps_of-insert x y ds graph = ground (arith, lookup-insert x y ds graph)

break_weak-contains :
    (name : String) (weak deps current : List String) (x : String)
    → contains x (break_weak name weak deps current) ≡ true
    → contains x current ≡ true
unfolding break_weak
break_weak-contains name weak [] current x h = h
break_weak-contains name weak (dep ∷ deps) current x h =
    let inner =
      break_weak-contains name weak deps
        (if str_eq dep name && contains dep weak then without dep current else current) x h in
    elim (Bool-cases (str_eq dep name && contains dep weak)) [
      | inl weak_dep ↦ ground (arith, inner, contains-without x dep current)
      | inr strong ↦ ground (arith, inner)
    ]

break_nodes-Shrinks :
    (name : String) (weak : List String) (graph : Graph)
    → Shrinks graph (break_nodes name weak graph)
unfolding break_nodes deps_of lookup
break_nodes-Shrinks name weak [] node dep h = h
break_nodes-Shrinks name weak ((n, deps) ∷ graph) node dep h = ground (
  arith,
  break_weak-contains name weak deps deps dep,
  break_nodes-Shrinks name weak graph node dep,
)

break_weak_all-Shrinks :
    (registry : Registry) (graph : Graph) → Shrinks graph (break_weak_all registry graph)
unfolding break_weak_all
break_weak_all-Shrinks [] graph node dep h = h
break_weak_all-Shrinks ((name, entry) ∷ registry) graph node dep h =
    break_nodes-Shrinks name entry.weak_dependencies graph node dep
      (break_weak_all-Shrinks registry (break_nodes name entry.weak_dependencies graph) node dep h)

pub insert-Shrinks :
    (graph : Graph) (x d : String) → Shrinks graph (insert x (without d (deps_of graph x)) graph)
insert-Shrinks graph x d node dep h = ground (
  arith,
  deps_of-insert x node (without d (deps_of graph x)) graph,
  contains-without dep d (deps_of graph x),
  eq_iff x node,
  h,
)

pub break_pair-Shrinks : (a b : NodeInfo) (graph : Graph) → Shrinks graph (break_pair a b graph)
unfolding break_pair
break_pair-Shrinks a b graph =
    elim (contains b.name (deps_of graph a.name) && contains a.name (deps_of graph b.name))
      as (λ both. Shrinks graph (
        if both
        then (if leb a.deps b.deps
            then insert b.name (without a.name (deps_of graph b.name)) graph
            else insert a.name (without b.name (deps_of graph a.name)) graph)
        else graph)) [
          | true ↦
              elim (leb a.deps b.deps)
                as (λ fewer. Shrinks graph (
                  if fewer
                  then insert b.name (without a.name (deps_of graph b.name)) graph
                  else insert a.name (without b.name (deps_of graph a.name)) graph)) [
                    | true ↦ insert-Shrinks graph b.name a.name
                    | false ↦ insert-Shrinks graph a.name b.name
                  ]
          | false ↦ λ node dep h. h
        ]

pub break_with-Shrinks :
    (a : NodeInfo) (bs : List NodeInfo) (graph : Graph) → Shrinks graph (break_with a bs graph)
unfolding break_with
break_with-Shrinks a [] graph node dep h = h
break_with-Shrinks a (b ∷ bs) graph node dep h =
    break_pair-Shrinks a b graph node dep
      (break_with-Shrinks a bs (break_pair a b graph) node dep h)

pub break_pairs-Shrinks :
    (nodes : List NodeInfo) (graph : Graph) → Shrinks graph (break_pairs nodes graph)
unfolding break_pairs
break_pairs-Shrinks [] graph node dep h = h
break_pairs-Shrinks (a ∷ nodes) graph node dep h =
    break_with-Shrinks a nodes graph node dep
      (break_pairs-Shrinks nodes (break_with a nodes graph) node dep h)

-- resolveDependencyGraph adds no dependency: each that a node has afterwards it had before.
pub resolve_dependency_graph-Shrinks :
    (registry : Registry) (graph : Graph) (node dep : String)
    → contains dep (deps_of (resolve_dependency_graph registry graph) node) ≡ true
    → contains dep (deps_of graph node) ≡ true
unfolding resolve_dependency_graph
resolve_dependency_graph-Shrinks registry graph node dep =
    elim (has_cycles (detect_circular_dependencies graph))
      as (λ b.
        contains dep (
            deps_of
              (if b
                then (if has_cycles (detect_circular_dependencies (break_weak_all registry graph))
                    then break_pairs (sort_nodes (infos graph)) (break_weak_all registry graph)
                    else break_weak_all registry graph)
                else graph)
              node)
          ≡ true
        → contains dep (deps_of graph node) ≡ true) [
          | false ↦ λ h. h
          | true ↦
              elim (has_cycles (detect_circular_dependencies (break_weak_all registry graph)))
                as (λ b.
                  contains dep (
                      deps_of
                        (if b
                          then break_pairs (sort_nodes (infos graph))
                              (break_weak_all registry graph)
                          else break_weak_all registry graph)
                        node)
                    ≡ true
                  → contains dep (deps_of graph node) ≡ true) [
                    | false ↦ λ h. break_weak_all-Shrinks registry graph node dep h
                    | true ↦ λ h. break_weak_all-Shrinks registry graph node dep (
                        break_pairs-Shrinks (sort_nodes (infos graph))
                          (break_weak_all registry graph) node dep h)
                  ]
        ]
