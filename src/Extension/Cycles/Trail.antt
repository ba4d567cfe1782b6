-- ===== src/Extension/Cycles/Trail.antt =====
-- The state of the search: the visited nodes in an order with all dependencies first, the nodes
-- being visited on one path, and the names that are not visited yet.
use ncore.Common.{
  ℕ, suc, ◌≤◌, ◌<◌, ◌≡◌, refl, String, none, some, List, [], ◌∷◌, ◌++◌, true, arith, lookup, insert,
  lookup-insert, contains, contains-append, All, Bool-cases, Option-cases, inl, inr, str_eq, eq_iff,
}
use ncore.Extension.InitOrder.{Graph, deps_of}
use ncore.Extension.InitOrder.Sound.{IsInitOrder, next}
use ncore.Extension.Cycles.{Mark, visiting, visited, Visited}

-- a chain of dependencies from the first to the second, of any length
pub data Chain (graph : Graph) : String → String → Type 0 where
  here : {a b : String} → a ≡ b → Chain graph a b
  onward :
      {a b c : String} → Chain graph a b → contains c (deps_of graph b) ≡ true → Chain graph a c

-- `order` is the visited nodes in the order in which their visits ended.
pub record Trail (graph : Graph) (v : Visited) (order : List String) : Type 0 where
  pub ordered : IsInitOrder graph order
  pub sound : (x : String) → lookup x v ≡ some visited → contains x order ≡ true
  pub complete : (x : String) → contains x order ≡ true → lookup x v ≡ some visited

-- from every node being visited there is a chain to `node`
abbrev pub OnPath : Graph → Visited → String → Type 0
OnPath graph v node = (x : String) → lookup x v ≡ some visiting → Chain graph x node

-- how many of the names are not visited yet
unfoldable pub unvisited : List String → Visited → ℕ
unvisited [] v = 0
unvisited (x ∷ xs) v = elim (lookup x v) [ none ↦ suc (unvisited xs v) | some m ↦ unvisited xs v ]

-- what a part of the search leaves of `v`
pub record Grown (graph : Graph) (v : Visited) (order : List String) (v' : Visited)
    (order' : List String) : Type 0 where
  pub trail : Trail graph v' order'
  pub kept : (x : String) → contains x order ≡ true → contains x order' ≡ true
  pub no_new : (x : String) → lookup x v' ≡ some visiting → lookup x v ≡ some visiting
  pub marked : (x : String) → lookup x v' ≡ none → lookup x v ≡ none

pub Grown-trans :
    {graph : Graph} {v v' v'' : Visited} {o o' o'' : List String}
    → Grown graph v o v' o'
    → Grown graph v' o' v'' o''
    → Grown graph v o v'' o''
Grown-trans g h = record {
  trail = h.trail;
  kept = λ x e. h.kept x (g.kept x e);
  no_new = λ x e. g.no_new x (h.no_new x e);
  marked = λ x e. g.marked x (h.marked x e);
}

pub unvisited-le :
    (xs : List String) (v v' : Visited)
    → ((x : String) → lookup x v' ≡ none → lookup x v ≡ none)
    → unvisited xs v' ≤ unvisited xs v
unfolding unvisited
unvisited-le [] v v' h = omega arith
unvisited-le (x ∷ xs) v v' h = elim (Option-cases (lookup x v')) [
  | inl fresh ↦ ground (arith, fresh, h x fresh, unvisited-le xs v v' h)
  | inr (m, seen) ↦ ground (arith, seen, unvisited-le xs v v' h)
]

-- A mark on a name that has none leaves fewer.
pub unvisited-lt :
    (xs : List String) (v : Visited) (x : String) (m : Mark)
    → contains x xs ≡ true
    → lookup x v ≡ none
    → unvisited xs (insert x m v) < unvisited xs v
unfolding unvisited contains
unvisited-lt [] v x m h e = absurd (cc)
unvisited-lt (y ∷ ys) v x m h e =
    let less : unvisited ys (insert x m v) ≤ unvisited ys v =
      unvisited-le ys v (insert x m v) (λ z q. ground (arith, lookup-insert x z m v)) in
    elim (Bool-cases (str_eq y x)) [
      | inl same ↦ ground (arith, less, lookup-insert x y m v, eq_iff y x, eq_iff x y)
      | inr other ↦ ground (
        arith,
        unvisited-lt ys v x m (ground arith) e,
        lookup-insert x y m v,
        eq_iff y x,
        eq_iff x y,
      )
    ]

-- The visit of `node` begins.
pub Trail-begin :
    (graph : Graph) (v : Visited) (order : List String) (node : String)
    → lookup node v ≡ none
    → Trail graph v order
    → Trail graph (insert node visiting v) order
Trail-begin graph v order node fresh t = record {
  ordered = t.ordered;
  sound = λ x e. t.sound x (ground (arith, lookup-insert node x visiting v));
  complete = λ x e. ground (arith, lookup-insert node x visiting v, t.complete x e, eq_iff node x);
}

-- The visit of `node` ends: its dependencies are visited.
pub Trail-end :
    (graph : Graph) (v : Visited) (order : List String) (node : String)
    → All (λ dep. contains dep order ≡ true) (deps_of graph node)
    → Trail graph v order
    → Trail graph (insert node visited v) (order ++ node ∷ [])
unfolding contains
Trail-end graph v order node deps t = record {
  ordered = next node t.ordered deps refl;
  sound = λ x e.
      ground
        (arith, lookup-insert node x visited v, contains-append x order (node ∷ []), t.sound x);
  complete = λ x e.
      ground
        (arith, lookup-insert node x visited v, contains-append x order (node ∷ []), t.complete x);
}
