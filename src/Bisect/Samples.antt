-- ===== src/Bisect/Samples.antt =====
-- Searches over small lists, and the theorems at them.
use mathlib.Core.List.{Sublist}
use devrepro_doctor.Prelude.{
  ◌+◌, ◌*◌, ◌≤◌, ◌≡◌, refl, String, Bool, true, false, ◌&&◌, none, some, List, [], ◌∷◌, arith,
  str_eq, length, any, All,
}
use devrepro_doctor.Bisect.{
  Dimension, MinimisationResult, bisect_dimensions, minimise_dimensions, complement, halve, ask,
  refine, try_chunks, try_complements, chunks_of, dimension_eq,
}
use devrepro_doctor.Bisect.Boundary.{
  IsBoundary, bisect_dimensions-IsBoundary, verdicts-bisect_dimensions,
}
use devrepro_doctor.Bisect.Minimal.{
  Outcome, minimise_dimensions-still_fails, minimise_dimensions-one_minimal,
}

abbrev dimension : String → Dimension
dimension name = record { name = name; working_value = some "a"; broken_value = some "b" }

abbrev four : List Dimension
four = dimension "PATH" ∷ dimension "LANG" ∷ dimension "node" ∷ dimension "flag" ∷ []

abbrev has : String → List Dimension → Bool
has name ds = any (λ d. str_eq d.name name) ds

-- Two dimensions that break the build together.
abbrev both : List Dimension → Bool
both ds = has "LANG" ds && has "flag" ds

abbrev one : List Dimension → Bool
one ds = has "node" ds

bisect_finds_node : bisect_dimensions one four ≡ record {
  culprit = some (dimension "node");
  verdicts = 4;
  trail =
      ([], false)
      ∷ ("PATH" ∷ "LANG" ∷ "node" ∷ "flag" ∷ [], true)
      ∷ ("PATH" ∷ "LANG" ∷ [], false)
      ∷ ("PATH" ∷ "LANG" ∷ "node" ∷ [], true)
      ∷ [];
  inconclusive_because = none;
}
unfolding bisect_dimensions halve ask
bisect_finds_node = refl

bisect_dimensions-IsBoundary_example :
    (c : Dimension) × ((bisect_dimensions one four).culprit ≡ some c)
    × ((bisect_dimensions one four).inconclusive_because ≡ none)
    × IsBoundary one four c
bisect_dimensions-IsBoundary_example = bisect_dimensions-IsBoundary one four (omega arith) refl refl

verdicts-bisect_dimensions_example : (bisect_dimensions both four).verdicts ≤ 2 + 2
verdicts-bisect_dimensions_example = verdicts-bisect_dimensions both 2 four (omega arith)

abbrev node_alone : List Dimension → Bool
node_alone ds = any (dimension_eq (dimension "node")) ds

minimise_dimensions-still_fails_example :
    (r : MinimisationResult) × (minimise_dimensions both 200 four ≡ some r)
    × Sublist r.minimal four
    × (r.verdicts ≤ 200 + 2 * length four)
    × Outcome both four r
minimise_dimensions-still_fails_example = minimise_dimensions-still_fails both 200 four

-- What a minimisation leaves of the list; nothing where it does not return.
found : MinimisationResult
unfolding minimise_dimensions refine try_chunks try_complements complement chunks_of ask
found = elim (minimise_dimensions both 200 four) [
  | some r ↦ r
  | none ↦ record { minimal = []; verdicts = 0; trail = []; inconclusive_because = none }
]

minimise_finds_both :
    (found.minimal ≡ dimension "LANG" ∷ dimension "flag" ∷ []) × (found.verdicts ≡ 19)
unfolding found
minimise_finds_both = (refl, refl)

minimise_dimensions-one_minimal_example :
    (both found.minimal ≡ true)
    × All (λ d. both (complement found.minimal (d ∷ [])) ≡ false) found.minimal
unfolding found
minimise_dimensions-one_minimal_example =
    minimise_dimensions-one_minimal both 200 four found refl refl refl
