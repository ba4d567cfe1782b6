-- ===== src/Extension/Cycles/Explore.antt =====
-- What one call of dfs ends with.
use ncore.Common.{
  ℕ, zero, suc, ◌<◌, ◌≡◌, refl, sym, ap, ◌∙◌, subst, String, none, some, List, [], ◌∷◌, ◌++◌, true,
  arith, lookup, insert, lookup-insert, contains, contains-append, contains_self, append_assoc,
  append-nil, All, All-map, All-append, Bool-cases, Option-cases, inl, inr, str_eq, eq_iff,
}
use ncore.Extension.InitOrder.{Graph, deps_of}
use ncore.Extension.Cycles.{
  visiting, visited, Visited, Search, done, cycle, out_of_fuel, over_deps, dfs, all_names,
}
use ncore.Extension.Cycles.Trail.{
  Chain, here, onward, Trail, OnPath, unvisited, Grown, Grown-trans, unvisited-le, unvisited-lt,
  Trail-begin, Trail-end,
}

-- What a part of the search ends with, which is to visit `node`. The nodes of a cycle depend on
-- each other: the first on the second, and the second, by a chain, on the first.
abbrev pub Ends : Graph → Visited → List String → (List String → Type 0) → Search → Type 0
Ends graph v order Goal (done v') =
    (order' : List String) × Grown graph v order v' order' × Goal order'
Ends graph v order Goal (cycle a b) = Chain graph b a × (contains b (deps_of graph a) ≡ true)
Ends graph v order Goal out_of_fuel = ⊥

abbrev Explores : Graph → ℕ → Type 0
Explores graph fuel =
    (node : String) (v : Visited) (order : List String)
    → unvisited (all_names graph) v < fuel
    → contains node (all_names graph) ≡ true
    → lookup node v ≡ none
    → Trail graph v order
    → OnPath graph v node
    → Ends graph v order (λ o. contains node o ≡ true) (dfs fuel graph node v)

deps-all_names :
    (graph : Graph) (node dep : String)
    → contains dep (deps_of graph node) ≡ true
    → contains dep (all_names graph) ≡ true
unfolding contains all_names deps_of lookup
deps-all_names [] node dep h = absurd (cc)
deps-all_names ((name, deps) ∷ graph) node dep h =
    ground (arith, contains-append dep deps (all_names graph), deps-all_names graph node dep)

-- The end of the first part and the second part.
Ends-after :
    {graph : Graph} {v v' : Visited} {o o' : List String} (Goal : List String → Type 0)
    → Grown graph v o v' o'
    → (r : Search) → Ends graph v' o' Goal r
    → Ends graph v o Goal r
Ends-after Goal g (done w) (order', h, goal) = (order', Grown-trans g h, goal)
Ends-after Goal g (cycle a b) h = h
Ends-after Goal g out_of_fuel h = h

module _ (graph : Graph) (fuel : ℕ) (explores : Explores graph fuel) (node : String) where
  over_deps-Ends :
      (before deps : List String) (v : Visited) (order : List String)
      → deps_of graph node ≡ before ++ deps
      → All (λ dep. contains dep order ≡ true) before
      → unvisited (all_names graph) v < fuel
      → Trail graph v order
      → OnPath graph v node
      → Ends graph v order (λ o. contains node o ≡ true) (over_deps (dfs fuel graph) node deps v)
  unfolding over_deps
  over_deps-Ends before [] v order e h enough t p =
      let all =
        subst (All (λ dep. contains dep order ≡ true)) (sym (append-nil before) ∙ sym e) h in
      (
        order ++ node ∷ [],
        record {
          trail = Trail-end graph v order node all t;
          kept = λ x q. ground (arith, contains-append x order (node ∷ []));
          no_new = λ x q. ground (arith, lookup-insert node x visited v);
          marked = λ x q. ground (arith, lookup-insert node x visited v);
        },
        ground (arith, contains-append node order (node ∷ []), contains_self node []),
      )
  over_deps-Ends before (dep ∷ deps) v order e h enough t p =
      let Goal : List String → Type 0 = λ o. contains node o ≡ true in
      let edge : contains dep (deps_of graph node) ≡ true =
        ap (contains dep) e
        ∙ contains-append dep before (dep ∷ deps)
        ∙ ground (arith, contains_self dep deps) in
      let split : deps_of graph node ≡ (before ++ dep ∷ []) ++ deps =
        e ∙ sym (append_assoc before (dep ∷ []) deps) in
      elim (Option-cases (lookup dep v)) [
        | inl fresh ↦
            rw (fresh, Ends)
              ((elim (dfs fuel graph dep v)
                  as (λ r.
                    Ends graph v order (λ o. contains dep o ≡ true) r
                    → Ends graph v order Goal (elim r [
                      | done v' ↦ over_deps (dfs fuel graph) node deps v'
                      | cycle a b ↦ cycle a b
                      | out_of_fuel ↦ out_of_fuel
                    ])) [
                      | done v' ↦ λ q.
                          let (o', g, there) = q in
                          Ends-after Goal g (over_deps (dfs fuel graph) node deps v') (
                            over_deps-Ends (before ++ dep ∷ []) deps v' o' split
                              (All-append (λ d. contains d o' ≡ true) before (dep ∷ [])
                                (All-map (λ d. contains d order ≡ true) (λ d. contains d o' ≡ true)
                                  g.kept before h)
                                (there, tt))
                              (omega (arith, unvisited-le (all_names graph) v v' g.marked)) g.trail
                              (λ x visit. p x (g.no_new x visit)))
                      | cycle a b ↦ λ q. q
                      | out_of_fuel ↦ λ q. q
                    ])
                (explores dep v order enough (deps-all_names graph node dep edge) fresh t
                  (λ x visit. onward (p x visit) edge)))
        | inr (m, seen) ↦
            rw (seen, Ends)
              ((elim m
                  as (λ mark.
                    lookup dep v ≡ some mark
                    → Ends graph v order Goal (elim mark [
                      | visiting ↦ cycle node dep
                      | visited ↦ over_deps (dfs fuel graph) node deps v
                    ])) [
                      | visiting ↦ λ s. (p dep s, edge)
                      | visited ↦ λ s.
                          over_deps-Ends (before ++ dep ∷ []) deps v order split
                            (All-append (λ d. contains d order ≡ true) before (dep ∷ []) h
                              (t.sound dep s, tt))
                            enough t p
                    ])
                seen)
      ]

Ends-begin :
    (graph : Graph) (v : Visited) (order : List String) (node : String) (r : Search)
    → Ends graph (insert node visiting v) order (λ o. contains node o ≡ true) r
    → Ends graph v order (λ o. contains node o ≡ true) r
Ends-begin graph v order node (done w) (order', g, there) = (
  order',
  record {
    trail = g.trail;
    kept = g.kept;
    no_new = λ x q. ground (
      arith,
      lookup-insert node x visiting v,
      g.no_new x q,
      g.trail.complete node there,
      eq_iff node x,
    );
    marked = λ x q. ground (arith, lookup-insert node x visiting v, g.marked x q);
  },
  there,
)
Ends-begin graph v order node (cycle a b) h = h
Ends-begin graph v order node out_of_fuel h = h

-- every name can be explored from, with fuel for the names that are not visited
pub dfs-Ends : (graph : Graph) (fuel : ℕ) → Explores graph fuel
unfolding dfs
dfs-Ends graph zero node v order enough known fresh t p = elim enough [ ]
dfs-Ends graph (suc fuel) node v order enough known fresh t p =
    let v' = insert node visiting v in
    Ends-begin graph v order node (dfs (suc fuel) graph node v) (
      over_deps-Ends graph fuel (dfs-Ends graph fuel) node [] (deps_of graph node) v' order refl tt
        (omega (arith, unvisited-lt (all_names graph) v node visiting known fresh))
        (Trail-begin graph v order node fresh t)
        (λ x visit. elim (Bool-cases (str_eq node x)) [
          | inl same ↦ here (sym ((eq_iff node x).0 same))
          | inr other ↦ p x (ground (arith, lookup-insert node x visiting v, visit))
        ]))
