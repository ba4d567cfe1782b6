-- ===== src/Extension/InitOrder/Complete.antt =====
-- getInitOrder fails only where no order exists.
use mathlib.Core.List.{Perm}
use ncore.Common.{
  ◌≡◌, ◌≢◌, refl, sym, ap, ◌∙◌, String, Option, List, [], ◌∷◌, true, false, arith, All, All-map,
  contains, contains-append, contains-perm, Bool-cases, inl, inr, ◌||◌, eq_iff, List-cases, subst,
  str_eq, contains_self,
}
use ncore.Extension.InitOrder.{
  Graph, deps_of, can_initialize, InitResult, ok, cyclic, out_of_fuel, names_of, graph_of,
  get_init_order,
}
use ncore.Extension.InitOrder.Sound.{
  IsInitOrder, start, next, IsBlocked, Stuck, InitEnds, get_init_order_sound,
}

pub All-contains {κ} :
    (P : String → Type κ) (x : String) (xs : List String) → All P xs → contains x xs ≡ true → P x
unfolding contains
All-contains P x [] h e = absurd (cc)
All-contains P x (y ∷ xs) h e = elim (Bool-cases (str_eq y x)) [
  | inl same ↦ subst P ((eq_iff y x).0 same) h.0
  | inr other ↦ All-contains P x xs h.1 (ground arith)
]

pub All-initialized :
    (deps xs : List String)
    → All (λ dep. contains dep xs ≡ true) deps
    → can_initialize deps xs ≡ true
unfolding can_initialize
All-initialized [] xs h = refl
All-initialized (dep ∷ deps) xs h = ground (arith, h.0, All-initialized deps xs h.1)

module _ (graph : Graph) (names remaining : List String) (stuck : Stuck graph names remaining) where
  -- an extension that can be initialized is among those that were
  pub initialized :
      (x : String)
      → contains x names ≡ true
      → can_initialize (deps_of graph x) stuck.order ≡ true
      → contains x stuck.order ≡ true
  initialized x there ready = elim (Bool-cases (contains x remaining)) [
    | inl waits ↦
        absurd (cc (All-contains (IsBlocked graph stuck.order) x remaining stuck.blocked waits))
    | inr gone ↦
        ground (arith, contains-append x stuck.order remaining, contains-perm x stuck.all_there)
  ]

  -- in any order with all dependencies first, each extension can be initialized
  order_ready :
      {order : List String}
      → ((x : String) → contains x order ≡ true → contains x names ≡ true)
      → IsInitOrder graph order
      → (x : String) → contains x order ≡ true
      → can_initialize (deps_of graph x) stuck.order ≡ true
  unfolding contains
  order_ready inside start x h = absurd (cc)
  order_ready {order} inside (next {before = before} name o deps e) x h =
      let parts : (y : String) → contains y order ≡ (contains y before || contains y (name ∷ [])) =
        λ y. ap (contains y) e ∙ contains-append y before (name ∷ []) in
      let inside' : (y : String) → contains y before ≡ true → contains y names ≡ true =
        λ y q. inside y (ground (arith, parts y)) in
      let ih = order_ready inside' o in
      elim (Bool-cases (contains x before)) [
        | inl earlier ↦ ih x earlier
        | inr last ↦
            let same : name ≡ x = (eq_iff name x).0 (ground (arith, parts x)) in
            subst (λ y. can_initialize (deps_of graph y) stuck.order ≡ true) same
              (All-initialized (deps_of graph name) stuck.order (
                All-map (λ d. contains d before ≡ true) (λ d. contains d stuck.order ≡ true)
                  (λ d q. initialized d (inside' d q) (ih d q)) (deps_of graph name) deps))
      ]

-- If the extensions have any order in which each stands behind its dependencies, then getInitOrder
-- finds one.
pub get_init_order_complete :
    (extensions : Graph) (dependency_graph : Option Graph) (order : List String)
    → IsInitOrder (graph_of extensions dependency_graph) order
    → Perm order (names_of extensions)
    → (found : List String) × (get_init_order extensions dependency_graph ≡ ok found)
get_init_order_complete extensions dependency_graph order o p =
    conclude (get_init_order extensions dependency_graph) refl
      (get_init_order_sound extensions dependency_graph)
  where
    conclude :
        (r : InitResult)
        → get_init_order extensions dependency_graph ≡ r
        → InitEnds (graph_of extensions dependency_graph) (names_of extensions) r
        → (found : List String) × (get_init_order extensions dependency_graph ≡ ok found)
    conclude (ok found) e h = (found, e)
    conclude (cyclic remaining) e h = elim (List-cases remaining) [
      | inl nothing ↦ absurd (h.some_left nothing)
      | inr (x, xs, first) ↦
          let waits : contains x remaining ≡ true = rw first (contains_self x xs) in
          let known : contains x (names_of extensions) ≡ true =
            sym (contains-perm x h.all_there)
            ∙ contains-append x h.order remaining
            ∙ ground arith in
          let ready =
            order_ready (graph_of extensions dependency_graph) (names_of extensions) remaining h
              (λ y q. sym (contains-perm y p) ∙ q) o x (contains-perm x p ∙ known) in
          absurd (
            cc (
              All-contains (IsBlocked (graph_of extensions dependency_graph) h.order) x remaining
                h.blocked waits))
    ]
    conclude out_of_fuel e h = absurd h

-- an initialized dependency is missing
first_missing :
    (deps xs : List String)
    → can_initialize deps xs ≡ false
    → (dep : String) × (contains dep deps ≡ true) × (contains dep xs ≡ false)
unfolding can_initialize contains
first_missing [] xs h = absurd (cc)
first_missing (dep ∷ deps) xs h = elim (Bool-cases (contains dep xs)) [
  | inl there ↦ let (d, p, q) = first_missing deps xs (ground arith) in (d, ground arith, q)
  | inr away ↦ (dep, ground (arith, eq_iff dep dep), away)
]

-- Where every dependency is an extension and getInitOrder fails, each extension that it names
-- depends on one that it names, which may be itself.
pub cyclic_waits :
    (extensions : Graph) (dependency_graph : Option Graph) (remaining : List String)
    → get_init_order extensions dependency_graph ≡ cyclic remaining
    → ((x : String)
        → All
            (λ dep. contains dep (names_of extensions) ≡ true)
            (deps_of (graph_of extensions dependency_graph) x))
    → (remaining ≢ [])
      × All
          (λ x.
            (dep : String) × (contains dep (deps_of (graph_of extensions dependency_graph) x)
              ≡ true)
            × (contains dep remaining ≡ true))
          remaining
cyclic_waits extensions dependency_graph remaining e all_there =
    let graph = graph_of extensions dependency_graph in
    let stuck : Stuck graph (names_of extensions) remaining =
      subst (InitEnds graph (names_of extensions)) e
        (get_init_order_sound extensions dependency_graph) in
    (
      stuck.some_left,
      All-map (IsBlocked graph stuck.order) _
          (λ x blocked.
            let (dep, needed, away) = first_missing (deps_of graph x) stuck.order blocked in
            (
              dep,
              needed,
              ground (
                arith,
                All-contains (λ d. contains d (names_of extensions) ≡ true) dep (deps_of graph x)
                    (all_there x) needed,
                contains-append dep stuck.order remaining,
                contains-perm dep stuck.all_there,
              ),
            ))
          remaining stuck.blocked,
    )
