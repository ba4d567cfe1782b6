-- ===== src/Extension/Resolve/Mutual.antt =====
-- What resolveDependencyGraph breaks: pairs of nodes that depend on each other. Its first phase
-- reads the weak dependencies of the node that is depended on.
use ncore.Common.{
  ◌≡◌, refl, sym, ap, ◌∙◌, subst, String, List, [], ◌∷◌, true, false, ◌&&◌, leb, str_eq, eq_iff,
  arith, contains, All, All-map, Bool-cases, inl, inr,
}
use ncore.Extension.InitOrder.{Graph, deps_of}
use ncore.Extension.Cycles.{detect_circular_dependencies}
use ncore.Extension.Resolve.{
  Entry, Registry, without, break_weak, break_nodes, break_weak_all, NodeInfo, sort_nodes,
  break_pair, break_with, break_pairs, infos, has_cycles, resolve_dependency_graph,
}
use ncore.Extension.Resolve.Shrinks.{
  Shrinks, contains-without, deps_of-insert, break_with-Shrinks, break_pairs-Shrinks,
}

break_weak_idle :
    (name : String) (weak deps current : List String)
    → contains name weak ≡ false
    → break_weak name weak deps current ≡ current
unfolding break_weak
break_weak_idle name weak [] current h = refl
break_weak_idle name weak (dep ∷ deps) current h = elim (Bool-cases (str_eq dep name)) [
  | inl same ↦ ground (
    arith,
    break_weak_idle name weak deps current h,
    ap (λ d. contains d weak) ((eq_iff dep name).0 same),
  )
  | inr other ↦ ground (arith, break_weak_idle name weak deps current h)
]

break_nodes_idle :
    (name : String) (weak : List String) (graph : Graph)
    → contains name weak ≡ false
    → break_nodes name weak graph ≡ graph
unfolding break_nodes
break_nodes_idle name weak [] h = refl
break_nodes_idle name weak ((node, deps) ∷ graph) h =
    rw (break_weak_idle name weak deps deps h, break_nodes_idle name weak graph h) refl

-- Unless an extension names itself among its own weak dependencies, the first phase of
-- resolveDependencyGraph changes nothing, whatever weak dependencies the extensions have.
pub break_weak_all_idle :
    (registry : Registry) (graph : Graph)
    → All (λ (e : String × Entry). contains e.0 (e.1).weak_dependencies ≡ false) registry
    → break_weak_all registry graph ≡ graph
unfolding break_weak_all
break_weak_all_idle [] graph h = refl
break_weak_all_idle ((name, entry) ∷ registry) graph h =
    ap (break_weak_all registry) (break_nodes_idle name entry.weak_dependencies graph h.0)
    ∙ break_weak_all_idle registry graph h.1

-- the two nodes do not depend on each other
abbrev pub IsApart : Graph → NodeInfo → NodeInfo → Type 0
IsApart graph a b =
    (contains b.name (deps_of graph a.name) && contains a.name (deps_of graph b.name)) ≡ false

-- no two nodes of the list depend on each other
abbrev pub AreApart : Graph → List NodeInfo → Type 0
AreApart graph [] = Unit
AreApart graph (a ∷ nodes) = All (IsApart graph a) nodes × AreApart graph nodes

IsApart-shrunk :
    (graph graph' : Graph) (a b : NodeInfo)
    → Shrinks graph graph'
    → IsApart graph a b
    → IsApart graph' a b
IsApart-shrunk graph graph' a b s h = ground (arith, s a.name b.name, s b.name a.name)

break_pair-IsApart : (a b : NodeInfo) (graph : Graph) → IsApart (break_pair a b graph) a b
unfolding break_pair
break_pair-IsApart a b graph =
    elim (Bool-cases
      (contains b.name (deps_of graph a.name) && contains a.name (deps_of graph b.name))) [
        | inr apart ↦ rw apart apart
        | inl both ↦ elim (Bool-cases (leb a.deps b.deps)) [
          | inl fewer ↦ ground (
            arith,
            both,
            fewer,
            deps_of-insert b.name b.name (without a.name (deps_of graph b.name)) graph,
            contains-without a.name a.name (deps_of graph b.name),
            eq_iff a.name a.name,
            eq_iff b.name b.name,
          )
          | inr more ↦ ground (
            arith,
            both,
            more,
            deps_of-insert a.name a.name (without b.name (deps_of graph a.name)) graph,
            contains-without b.name b.name (deps_of graph a.name),
            eq_iff a.name a.name,
            eq_iff b.name b.name,
          )
        ]
      ]

break_with-IsApart :
    (a : NodeInfo) (bs : List NodeInfo) (graph : Graph) → All (IsApart (break_with a bs graph) a) bs
unfolding break_with
break_with-IsApart a [] graph = tt
break_with-IsApart a (b ∷ bs) graph = (
  IsApart-shrunk (break_pair a b graph) (break_with a bs (break_pair a b graph)) a b
      (break_with-Shrinks a bs (break_pair a b graph)) (break_pair-IsApart a b graph),
  break_with-IsApart a bs (break_pair a b graph),
)

break_pairs-AreApart :
    (nodes : List NodeInfo) (graph : Graph) → AreApart (break_pairs nodes graph) nodes
unfolding break_pairs
break_pairs-AreApart [] graph = tt
break_pairs-AreApart (a ∷ nodes) graph =
    let g = break_with a nodes graph in
    (
      All-map (IsApart g a) (IsApart (break_pairs nodes g) a)
          (λ b. IsApart-shrunk g (break_pairs nodes g) a b (break_pairs-Shrinks nodes g)) nodes
          (break_with-IsApart a nodes graph),
      break_pairs-AreApart nodes g,
    )

-- Where the graph has a cycle before the first phase and after it, no two of its nodes depend on
-- each other in the graph that resolveDependencyGraph returns.
pub resolve_dependency_graph-AreApart :
    (registry : Registry) (graph : Graph)
    → has_cycles (detect_circular_dependencies graph) ≡ true
    → has_cycles (detect_circular_dependencies (break_weak_all registry graph)) ≡ true
    → AreApart (resolve_dependency_graph registry graph) (sort_nodes (infos graph))
unfolding resolve_dependency_graph
resolve_dependency_graph-AreApart registry graph before after =
    let e : resolve_dependency_graph registry graph
        ≡ break_pairs (sort_nodes (infos graph)) (break_weak_all registry graph) =
      rw (before, after) refl in
    subst (λ g. AreApart g (sort_nodes (infos graph))) (sym e)
      (break_pairs-AreApart (sort_nodes (infos graph)) (break_weak_all registry graph))
