-- ===== src/Extension/InitOrder/Sound.antt =====
-- What getInitOrder returns: every extension once, each behind its dependencies, or a set of
-- extensions that wait for one another or for one that is not there.
use mathlib.Core.List.{Perm, perm_middle}
use mathlib.Core.List.Perm
use ncore.Common.{
  ℕ, zero, suc, ◌+◌, ◌≤◌, ◌<◌, ◌≡◌, ◌≢◌, refl, sym, ap, ◌∙◌, String, Option, List, [], ◌∷◌, ◌++◌,
  true, false, append_assoc, append-nil, arith, length, length-append, All, All-map, All-append,
  contains, contains-append, contains-perm, sort, sort-perm, List-cases, All-sort, Bool-cases, inl,
  inr, if◌then◌else◌,
}
use ncore.Extension.InitOrder.{
  Graph, deps_of, can_initialize, Round, visit, run_round, InitResult, ok, cyclic, out_of_fuel,
  first_round, resolve, no_deps, with_deps, names_of, graph_of, get_init_order,
}

-- an order in which each name stands behind all of its dependencies
pub data IsInitOrder (graph : Graph) : List String → Type 0 where
  start : IsInitOrder graph []
  next :
      {before after : List String} (name : String)
      → IsInitOrder graph before
      → All (λ dep. contains dep before ≡ true) (deps_of graph name)
      → after ≡ before ++ name ∷ []
      → IsInitOrder graph after

-- some dependency of `name` is not initialized
abbrev pub IsBlocked : Graph → List String → String → Type 0
IsBlocked graph initialized name = can_initialize (deps_of graph name) initialized ≡ false

can_initialize-All :
    (deps initialized : List String)
    → can_initialize deps initialized ≡ true
    → All (λ dep. contains dep initialized ≡ true) deps
unfolding can_initialize
can_initialize-All [] initialized h = tt
can_initialize-All (dep ∷ deps) initialized h =
    (ground arith, can_initialize-All deps initialized (ground arith))

move_back :
    (order remaining rest : List String) (name : String)
    → Perm ((order ++ name ∷ []) ++ (remaining ++ rest)) (order ++ (remaining ++ name ∷ rest))
move_back order remaining rest name =
    rw (append_assoc order (name ∷ []) (remaining ++ rest))
      (Perm.append_left order (Perm.symm (perm_middle remaining rest)))

-- What holds between two names of a round. `rest` are the names still to be visited.
record RoundInv (graph : Graph) (names : List String) (total : ℕ) (s : Round) (rest : List String)
    : Type 0 where
  ordered : IsInitOrder graph s.order
  same : (x : String) → contains x s.initialized ≡ contains x s.order
  all_there : Perm (s.order ++ (s.remaining ++ rest)) names
  fewer : length s.remaining + length rest + (if s.progress then 1 else 0) ≤ total
  kept : s.progress ≡ false → length s.remaining + length rest ≡ total
  blocked : s.progress ≡ false → All (IsBlocked graph s.initialized) s.remaining

visit-RoundInv :
    (graph : Graph) (names : List String) (total : ℕ) (s : Round) (name : String)
    (rest : List String)
    → RoundInv graph names total s (name ∷ rest)
    → RoundInv graph names total (visit graph name s) rest
unfolding visit contains
visit-RoundInv graph names total s name rest v =
    elim (Bool-cases (can_initialize (deps_of graph name) s.initialized)) [
      | inl ready ↦ rw ready (record {
        ordered =
            next name v.ordered
              (All-map (λ dep. contains dep s.initialized ≡ true)
                (λ dep. contains dep s.order ≡ true) (λ dep e. sym (v.same dep) ∙ e)
                (deps_of graph name) (can_initialize-All _ _ ready))
              refl;
        same = λ x. ground (arith, contains-append x s.order (name ∷ []), v.same x);
        all_there = Perm.trans (move_back s.order s.remaining rest name) v.all_there;
        fewer = ground (arith, v.fewer);
        kept = λ e. absurd (cc);
        blocked = λ e. absurd (cc);
      })
      | inr waits ↦ rw waits (record {
        ordered = v.ordered;
        same = v.same;
        all_there = rw (append_assoc s.remaining (name ∷ []) rest) v.all_there;
        fewer = ground (arith, v.fewer, length-append s.remaining (name ∷ []));
        kept = λ e. omega (arith, v.kept e, length-append s.remaining (name ∷ []));
        blocked = λ e.
            All-append (IsBlocked graph s.initialized) s.remaining (name ∷ []) (v.blocked e)
              (waits, tt);
      })
    ]

run_round-RoundInv :
    (graph : Graph) (names : List String) (total : ℕ) (rest : List String) (s : Round)
    → RoundInv graph names total s rest
    → RoundInv graph names total (run_round graph rest s) []
unfolding run_round
run_round-RoundInv graph names total [] s v = v
run_round-RoundInv graph names total (name ∷ rest) s v =
    run_round-RoundInv graph names total rest (visit graph name s)
      (visit-RoundInv graph names total s name rest v)

can_initialize_same :
    (deps xs ys : List String)
    → ((x : String) → contains x xs ≡ contains x ys)
    → can_initialize deps xs ≡ can_initialize deps ys
unfolding can_initialize
can_initialize_same [] xs ys h = refl
can_initialize_same (dep ∷ deps) xs ys h = ground (arith, h dep, can_initialize_same deps xs ys h)

-- the extensions that no round can initialize, with those that are initialized before
pub record Stuck (graph : Graph) (names remaining : List String) : Type 0 where
  pub order : List String
  pub ordered : IsInitOrder graph order
  pub all_there : Perm (order ++ remaining) names
  pub some_left : remaining ≢ []
  pub blocked : All (IsBlocked graph order) remaining

-- what each result of getInitOrder says
abbrev pub InitEnds : Graph → List String → InitResult → Type 0
InitEnds graph names (ok order) = IsInitOrder graph order × Perm order names
InitEnds graph names (cyclic remaining) = Stuck graph names remaining
InitEnds graph names out_of_fuel = ⊥

-- what holds between two rounds
record LoopInv (graph : Graph) (names waiting order initialized : List String) : Type 0 where
  ordered : IsInitOrder graph order
  same : (x : String) → contains x initialized ≡ contains x order
  all_there : Perm (order ++ waiting) names

first_round-RoundInv :
    (graph : Graph) (names waiting order initialized : List String)
    → LoopInv graph names waiting order initialized
    → RoundInv graph names (length waiting) (first_round order initialized) waiting
first_round-RoundInv graph names waiting order initialized v = record {
  ordered = v.ordered;
  same = v.same;
  all_there = v.all_there;
  fewer = omega arith;
  kept = λ e. omega arith;
  blocked = λ e. tt;
}

resolve-InitEnds :
    (fuel : ℕ) (graph : Graph) (names waiting order initialized : List String)
    → length waiting < fuel
    → LoopInv graph names waiting order initialized
    → InitEnds graph names (resolve fuel graph waiting order initialized)
unfolding resolve
resolve-InitEnds zero graph names waiting order initialized f v = elim f [ ]
resolve-InitEnds (suc fuel) graph names [] order initialized f v =
    (v.ordered, rw (append-nil order) at v.all_there)
resolve-InitEnds (suc fuel) graph names (name ∷ waiting) order initialized f v =
    let s = run_round graph (name ∷ waiting) (first_round order initialized) in
    let h : RoundInv graph names (suc (length waiting)) s [] =
      run_round-RoundInv graph names (suc (length waiting)) (name ∷ waiting)
        (first_round order initialized)
        (first_round-RoundInv graph names (name ∷ waiting) order initialized v) in
    let there : Perm (s.order ++ s.remaining) names = rw (append-nil s.remaining) at h.all_there in
    elim (Bool-cases s.progress) [
      | inl more ↦ rw more (
          resolve-InitEnds fuel graph names s.remaining s.order s.initialized
            (ground (arith, h.fewer))
            (record { ordered = h.ordered; same = h.same; all_there = there }))
      | inr halt ↦ rw halt (record {
        order = s.order;
        ordered = h.ordered;
        all_there = there;
        some_left = λ e. omega (arith, h.kept halt, ap length e);
        blocked =
            All-map (IsBlocked graph s.initialized) (IsBlocked graph s.order)
              (λ x e. sym (can_initialize_same (deps_of graph x) s.initialized s.order h.same) ∙ e)
              s.remaining (h.blocked halt);
      })
    ]

free_first :
    (graph : Graph) (before xs : List String)
    → IsInitOrder graph before
    → All (λ x. deps_of graph x ≡ []) xs
    → IsInitOrder graph (before ++ xs)
free_first graph before [] o h = rw (append-nil before) o
free_first graph before (x ∷ xs) o h =
    let o' : IsInitOrder graph (before ++ x ∷ []) = next x o (rw h.0 tt) refl in
    rw (append_assoc before (x ∷ []) xs) at (free_first graph (before ++ x ∷ []) xs o' h.1)

no_deps-All :
    (graph : Graph) (names : List String) → All (λ x. deps_of graph x ≡ []) (no_deps graph names)
unfolding no_deps
no_deps-All graph [] = tt
no_deps-All graph (name ∷ names) = elim (List-cases (deps_of graph name)) [
  | inl none_there ↦ rw (none_there, no_deps) (none_there, no_deps-All graph names)
  | inr (dep, deps, some_there) ↦ rw (some_there, no_deps) (no_deps-All graph names)
]

classified :
    (graph : Graph) (names : List String)
    → Perm (no_deps graph names ++ with_deps graph names) names
unfolding no_deps with_deps
classified graph [] = Perm.refl []
classified graph (name ∷ names) = elim (List-cases (deps_of graph name)) [
  | inl none_there ↦ rw (none_there, no_deps, with_deps) (Perm.cons name (classified graph names))
  | inr (dep, deps, some_there) ↦
      rw (some_there, no_deps, with_deps)
        (Perm.trans (perm_middle (no_deps graph names) (with_deps graph names))
          (Perm.cons name (classified graph names)))
]

-- getInitOrder always ends. Where it succeeds, the order holds each extension exactly once, and each
-- stands behind all of its dependencies; where it fails, each of the extensions that it names has
-- a dependency that is none of those that can be initialized, and there is at least one.
pub get_init_order_sound :
    (extensions : Graph) (dependency_graph : Option Graph)
    → InitEnds
        (graph_of extensions dependency_graph)
        (names_of extensions)
        (get_init_order extensions dependency_graph)
unfolding get_init_order
get_init_order_sound extensions dependency_graph =
    let graph = graph_of extensions dependency_graph in
    let names = names_of extensions in
    resolve-InitEnds (suc (length (with_deps graph names))) graph names (with_deps graph names)
      (sort (no_deps graph names)) (no_deps graph names) (omega arith)
      (record {
        ordered =
            free_first graph [] (sort (no_deps graph names)) start (
              All-sort (λ x. deps_of graph x ≡ []) (no_deps graph names) (no_deps-All graph names));
        same = λ x. sym (contains-perm x (sort-perm (no_deps graph names)));
        all_there =
            Perm.trans (Perm.append_right (with_deps graph names) (sort-perm (no_deps graph names)))
              (classified graph names);
      })
