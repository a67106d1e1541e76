-- ===== src/Bisect/Trail.antt =====
-- The trail of a search is a true record of what was asked and answered.
use devrepro_doctor.Prelude.{
  ℕ, zero, suc, ◌+◌, ◌≡◌, refl, String, Bool, Option, none, some, List, [], ◌∷◌, ◌++◌, arith,
  length, leb, map, not, either, either_option, if_ind, take, drop, ltb, ◌/◌, length-append, All,
  All-append,
}
use devrepro_doctor.Bisect.Search.{try_complements-eq-try_chunks}
use devrepro_doctor.Bisect.{
  Dimension, Asked, BisectResult, MinimisationResult, names_of, nothing_asked, ask, halve,
  bisect_dimensions, try_chunks, try_complements, refine, minimise_dimensions, chunks, complement,
  is_nonempty,
}

module _ (fails : List Dimension → Bool) where
  -- Each entry names a candidate and has its verdict.
  abbrev pub IsAnswer : List String × Bool → Type 0
  IsAnswer entry =
      (candidate : List Dimension) × (entry.0 ≡ names_of candidate) × (entry.1 ≡ fails candidate)

  pub record IsTrue (verdicts : ℕ) (trail : List (List String × Bool)) : Type 0 where
    pub counted : length trail ≡ verdicts
    pub answered : All IsAnswer trail

  abbrev IsTrueOf : Asked → Type 0
  IsTrueOf asked = IsTrue asked.verdicts asked.trail

  ask-IsTrue :
      (candidate : List Dimension) (asked : Asked)
      → IsTrueOf asked
      → IsTrueOf (ask fails candidate asked).1
  unfolding ask
  ask-IsTrue candidate asked h = record {
    counted = omega (
      arith,
      h.counted,
      length-append {0} asked.trail ((names_of candidate, fails candidate) ∷ []),
    );
    answered = All-append IsAnswer asked.trail _ h.answered ((candidate, refl, refl), tt);
  }

  halve-IsTrue :
      (fuel : ℕ) (lower remaining : List Dimension) (asked : Asked)
      → IsTrueOf asked
      → IsTrueOf (halve fails fuel lower remaining asked).1
  unfolding halve
  halve-IsTrue zero lower remaining asked h = h
  halve-IsTrue (suc fuel) lower remaining asked h =
      let half = length remaining / 2 in
      let candidate = lower ++ take half remaining in
      let asked' = (ask fails candidate asked).1 in
      let h' = ask-IsTrue candidate asked h in
      either {A = List Dimension × Asked} (λ r. IsTrueOf r.1) (ltb 1 (length remaining))
        (either {A = List Dimension × Asked} (λ r. IsTrueOf r.1) (ask fails candidate asked).0
          (halve-IsTrue fuel lower (take half remaining) asked' h')
          (halve-IsTrue fuel candidate (drop half remaining) asked' h'))
        h

  try_chunks-IsTrue :
      (cs : List (List Dimension)) (asked : Asked)
      → IsTrueOf asked
      → IsTrueOf (try_chunks fails cs asked).1
  unfolding try_chunks
  try_chunks-IsTrue [] asked h = h
  try_chunks-IsTrue (c ∷ cs) asked h =
      let h' = ask-IsTrue c asked h in
      either {A = Option (List Dimension) × Asked} (λ r. IsTrueOf r.1) (is_nonempty c)
        (either {A = Option (List Dimension) × Asked} (λ r. IsTrueOf r.1) (ask fails c asked).0 h'
          (try_chunks-IsTrue cs (ask fails c asked).1 h'))
        (try_chunks-IsTrue cs asked h)

  try_complements-IsTrue :
      (current : List Dimension) (cs : List (List Dimension)) (asked : Asked)
      → IsTrueOf asked
      → IsTrueOf (try_complements fails current cs asked).1
  try_complements-IsTrue current cs asked h =
      rw try_complements-eq-try_chunks (try_chunks-IsTrue (map (complement current) cs) asked h)

  -- The trail of a result, if there is one.
  abbrev pub HasTrueTrail : Option MinimisationResult → Type 0
  HasTrueTrail none = Unit
  HasTrueTrail (some r) = IsTrue r.verdicts r.trail

  refine-HasTrueTrail :
      (fuel k : ℕ) (current : List Dimension) (g : ℕ) (asked : Asked)
      → IsTrueOf asked
      → HasTrueTrail (refine fails fuel k current g asked)
  unfolding refine
  refine-HasTrueTrail zero k current g asked h = tt
  refine-HasTrueTrail (suc fuel) k current g asked h =
      let h' = try_chunks-IsTrue (chunks current g) asked h in
      let asked' = (try_chunks fails (chunks current g) asked).1 in
      let h'' = try_complements-IsTrue current (chunks current g) asked' h' in
      either HasTrueTrail (ltb 1 (length current))
        (either HasTrueTrail (leb k asked.verdicts) h (
          either_option HasTrueTrail (try_chunks fails (chunks current g) asked).0
            (either_option HasTrueTrail (try_complements fails current (chunks current g) asked').0
              (either HasTrueTrail (leb (length current) g) h''
                (refine-HasTrueTrail fuel k current _ _ h''))
              (λ rest. refine-HasTrueTrail fuel k rest _ _ h''))
            (λ chunk. refine-HasTrueTrail fuel k chunk _ _ h')))
        h

  nothing_asked-IsTrue : IsTrueOf nothing_asked
  nothing_asked-IsTrue = record { counted = refl; answered = tt }

  -- Whatever the verdicts, the trail of a bisection has one entry for each counted verdict, and each
  -- entry holds the names of a candidate with the answer that the callback gives for it.
  pub bisect_dimensions-IsTrue :
      (dimensions : List Dimension)
      → IsTrue
          (bisect_dimensions fails dimensions).verdicts
          (bisect_dimensions fails dimensions).trail
  unfolding bisect_dimensions
  bisect_dimensions-IsTrue [] = nothing_asked-IsTrue
  bisect_dimensions-IsTrue (d ∷ ds) =
      let h = ask-IsTrue [] nothing_asked nothing_asked-IsTrue in
      let h' = ask-IsTrue (d ∷ ds) _ h in
      let P : BisectResult → Type 0 = λ r. IsTrue r.verdicts r.trail in
      if_ind P (ask fails [] nothing_asked).0 h (
        if_ind P (not (ask fails (d ∷ ds) (ask fails [] nothing_asked).1).0) h'
          (halve-IsTrue (length (d ∷ ds)) [] (d ∷ ds) _ h'))

  -- The same of a minimisation.
  pub minimise_dimensions-HasTrueTrail :
      (max_verdicts : ℕ) (dimensions : List Dimension)
      → HasTrueTrail (minimise_dimensions fails max_verdicts dimensions)
  unfolding minimise_dimensions
  minimise_dimensions-HasTrueTrail k [] = nothing_asked-IsTrue
  minimise_dimensions-HasTrueTrail k (d ∷ ds) =
      let h = ask-IsTrue (d ∷ ds) nothing_asked nothing_asked-IsTrue in
      if_ind HasTrueTrail (not (ask fails (d ∷ ds) nothing_asked).0) h
        (refine-HasTrueTrail (k + 1) k (d ∷ ds) 2 _ h)
