-- ===== src/Extension/Cycles/Tests.antt =====
-- Runs of detectCircularDependencies: a graph with a missing name, and one with a cycle.
use ncore.Common.{◌≡◌, refl, [], ◌∷◌, lookup, insert, delete}
use ncore.Extension.InitOrder.{Graph, deps_of}
use ncore.Extension.Cycles.{
  visited, done, cycle, over_deps, dfs, from_each, all_names, detect_circular_dependencies,
}
use ncore.Extension.Cycles.Correct.{DetectEnds, detect_circular_dependencies_correct}

abbrev shop : Graph
shop = ("order", "pay" ∷ "mail" ∷ []) ∷ ("pay", []) ∷ []

abbrev ring : Graph
ring = ("a", "b" ∷ []) ∷ ("b", "c" ∷ []) ∷ ("c", "b" ∷ []) ∷ []

searched :
    (detect_circular_dependencies shop
      ≡ done (("order", visited) ∷ ("mail", visited) ∷ ("pay", visited) ∷ []))
    × (detect_circular_dependencies ring ≡ cycle "c" "b")
unfolding detect_circular_dependencies from_each over_deps dfs all_names deps_of lookup insert
    delete
searched = (refl, refl)

detect_circular_dependencies_correct_example : DetectEnds ring (detect_circular_dependencies ring)
detect_circular_dependencies_correct_example = detect_circular_dependencies_correct ring
