-- ===== src/Extension/InitOrder/Check.antt =====
-- checkDependencies decides whether every dependency is there.
use ncore.Common.{
  contains_self, ◌⊎◌, ◌≡◌, refl, ap, ◌∙◌, String, Option, none, some, List, [], ◌∷◌, Bool, true,
  false, arith, All, contains, inl, inr, lookup, Option-cases, subst,
}
use ncore.Extension.InitOrder.{Graph, names_of, missing_dep, check_from, check_dependencies}

-- one of the entries lists `dep` as a dependency of `name`
abbrev pub Declares : Graph → String → String → Type 0
Declares [] name dep = ⊥
Declares ((other, deps) ∷ rest) name dep =
    (other ≡ name) × (contains dep deps ≡ true) ⊎ Declares rest name dep

-- what each result of checkDependencies says
abbrev pub CheckEnds : Graph → Graph → Option (String × String) → Type 0
CheckEnds extensions entries none =
    All (λ (e : String × List String). All (λ dep. contains dep (names_of extensions) ≡ true) e.1)
      entries
CheckEnds extensions entries (some (name, dep)) =
    Declares entries name dep × (contains dep (names_of extensions) ≡ false)

abbrev is_there {ℓ} : {A : Type ℓ} → Option A → Bool
is_there none = false
is_there (some a) = true

contains-lookup : (k : String) (m : Graph) → contains k (names_of m) ≡ is_there (lookup k m)
unfolding contains lookup
contains-lookup k [] = refl
contains-lookup k ((j, v) ∷ m) = ground (arith, contains-lookup k m)

abbrev MissingEnds : Graph → List String → Option String → Type 0
MissingEnds extensions deps none = All (λ dep. contains dep (names_of extensions) ≡ true) deps
MissingEnds extensions deps (some dep) =
    (contains dep deps ≡ true) × (contains dep (names_of extensions) ≡ false)

missing_dep-MissingEnds :
    (extensions : Graph) (deps : List String)
    → MissingEnds extensions deps (missing_dep extensions deps)
unfolding missing_dep contains
missing_dep-MissingEnds extensions [] = tt
missing_dep-MissingEnds extensions (dep ∷ deps) = elim (Option-cases (lookup dep extensions)) [
  | inl away ↦
      rw (away, missing_dep)
        (contains_self dep deps, contains-lookup dep extensions ∙ ap is_there away)
  | inr (ds, there) ↦
      rw (there, missing_dep)
        (onward (contains-lookup dep extensions ∙ ap is_there there) (missing_dep extensions deps)
          (missing_dep-MissingEnds extensions deps))
]
  where
    onward :
        contains dep (names_of extensions) ≡ true
        → (r : Option String) → MissingEnds extensions deps r
        → MissingEnds extensions (dep ∷ deps) r
    onward there none h = (there, h)
    onward there (some d) h = (ground (arith, h.0), h.1)

check_from-CheckEnds :
    (extensions entries : Graph) → CheckEnds extensions entries (check_from extensions entries)
unfolding check_from
check_from-CheckEnds extensions [] = tt
check_from-CheckEnds extensions ((name, deps) ∷ rest) =
    let here = missing_dep-MissingEnds extensions deps in
    elim (Option-cases (missing_dep extensions deps)) [
      | inl all_there ↦
          rw (all_there, check_from)
            (onward (subst (MissingEnds extensions deps) all_there here)
              (check_from extensions rest) (check_from-CheckEnds extensions rest))
      | inr (dep, away) ↦
          let found = subst (MissingEnds extensions deps) away here in
          rw (away, check_from) (inl (refl, found.0), found.1)
    ]
  where
    onward :
        All (λ dep. contains dep (names_of extensions) ≡ true) deps
        → (r : Option (String × String)) → CheckEnds extensions rest r
        → CheckEnds extensions ((name, deps) ∷ rest) r
    onward here none h = (here, h)
    onward here (some (other, dep)) h = (inr h.0, h.1)

-- Where checkDependencies reports nothing, every dependency of every extension is an extension. What
-- it reports is an extension and one of the dependencies of this extension that is not an extension.
pub check_dependencies_correct :
    (extensions : Graph) → CheckEnds extensions extensions (check_dependencies extensions)
unfolding check_dependencies
check_dependencies_correct extensions = check_from-CheckEnds extensions extensions
