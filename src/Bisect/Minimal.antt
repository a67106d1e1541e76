-- ===== src/Bisect/Minimal.antt =====
-- What `minimise_dimensions` returns: a part of the dimensions that still fails, from which, if the
-- search was not cut short, no single dimension can be taken away.
use mathlib.Core.List.{Sublist, nil-sublist}
use devrepro_doctor.Prelude.{
  ℕ, ◌+◌, ◌*◌, ◌≤◌, ◌<◌, ◌≡◌, ◌≢◌, refl, ◌∙◌, Bool, true, false, Option, none, some, List, [], ◌∷◌,
  arith, inl, inr, length, All, Bool-cases,
}
use devrepro_doctor.Bisect.{
  Dimension, Asked, MinimisationResult, Inconclusive, no_dimensions, not_reproduced, nothing_asked,
  minimised, ask, is_nonempty, complement, refine, minimise_dimensions,
}
use devrepro_doctor.Bisect.Search.{All-mono}
use devrepro_doctor.Bisect.Refining.{Ends, refine-IsReduced}

module _ (fails : List Dimension → Bool) where
  minimise_dimensions-refine :
      (k : ℕ) (d : Dimension) (ds : List Dimension)
      → fails (d ∷ ds) ≡ true
      → minimise_dimensions fails k (d ∷ ds)
        ≡ refine fails (k + 1) k (d ∷ ds) 2 (ask fails (d ∷ ds) nothing_asked).1
  unfolding minimise_dimensions ask
  minimise_dimensions-refine k d ds breaks = ground arith

  ends :
      (k : ℕ) (d : Dimension) (ds : List Dimension)
      → fails (d ∷ ds) ≡ true
      → Ends fails
          (k + 1)
          k
          (k + 2 * length (d ∷ ds))
          (d ∷ ds)
          (d ∷ ds)
          2
          (ask fails (d ∷ ds) nothing_asked).1
  unfolding ask
  ends k d ds breaks =
      refine-IsReduced fails (k + 1) k _ (d ∷ ds) 2 (ask fails (d ∷ ds) nothing_asked).1
        (omega arith) (omega arith) (omega arith) (omega arith) breaks

  no_dimensions_lem :
      (k : ℕ)
      → minimise_dimensions fails k [] ≡ some (minimised [] nothing_asked (some no_dimensions))
  unfolding minimise_dimensions
  no_dimensions_lem k = refl

  not_reproduced_lem :
      (k : ℕ) (d : Dimension) (ds : List Dimension)
      → fails (d ∷ ds) ≡ false
      → minimise_dimensions fails k (d ∷ ds)
        ≡ some (minimised [] (ask fails (d ∷ ds) nothing_asked).1 (some not_reproduced))
  unfolding minimise_dimensions ask
  not_reproduced_lem k d ds passes = ground arith

  -- How a minimisation ends: with nothing to minimise, with dimensions that together do not fail, or with
  -- some that do.
  pub data Outcome (dimensions : List Dimension) (r : MinimisationResult) : Type 0 where
    nothing_given :
        dimensions ≡ []
        → r.minimal ≡ []
        → r.inconclusive_because ≡ some no_dimensions
        → Outcome dimensions r
    not_failing :
        0 < length dimensions
        → fails dimensions ≡ false
        → r.minimal ≡ []
        → r.inconclusive_because ≡ some not_reproduced
        → Outcome dimensions r
    still_failing :
        0 < length dimensions
        → fails dimensions ≡ true
        → fails r.minimal ≡ true
        → Outcome dimensions r

  -- `minimise_dimensions` always returns, within `max_verdicts` and two verdicts for each dimension, and
  -- with dimensions of the list, in their order. Of an empty list, and of a list whose dimensions together
  -- do not fail, it returns none and says which of the two it was; otherwise those that it returns still
  -- fail together.
  pub minimise_dimensions-still_fails :
      (max_verdicts : ℕ) (dimensions : List Dimension)
      → (r : MinimisationResult) × (minimise_dimensions fails max_verdicts dimensions ≡ some r)
        × Sublist r.minimal dimensions
        × (r.verdicts ≤ max_verdicts + 2 * length dimensions)
        × Outcome dimensions r
  unfolding ask
  minimise_dimensions-still_fails k [] =
      (_, no_dimensions_lem k, nil-sublist _, omega arith, nothing_given refl refl refl)
  minimise_dimensions-still_fails k (d ∷ ds) = elim (Bool-cases (fails (d ∷ ds))) [
    | inr passes ↦ (
      _,
      not_reproduced_lem k d ds passes,
      nil-sublist _,
      omega arith,
      not_failing (omega arith) passes refl refl,
    )
    | inl fail ↦
        let (r, e, h) = ends k d ds fail in
        (
          r,
          minimise_dimensions-refine k d ds fail ∙ e,
          h.part.sublist,
          h.bounded,
          still_failing (omega arith) fail h.still_fails,
        )
  ]

  inconclusive-none :
      (why : Inconclusive) (r : MinimisationResult) {o : Option MinimisationResult} {asked : Asked}
      → o ≡ some (minimised [] asked (some why))
      → o ≡ some r
      → r.inconclusive_because ≢ none
  inconclusive-none why r p q e = ground arith

  works_of_nonempty :
      fails [] ≡ false
      → (c : List Dimension) → (is_nonempty c ≡ true → fails c ≡ false)
      → fails c ≡ false
  works_of_nonempty works [] h = works
  works_of_nonempty works (d ∷ ds) h = h refl

  -- If applying nothing works, a conclusive result of `minimise_dimensions` fails as a whole and works
  -- as soon as any one of its dimensions is taken away.
  pub minimise_dimensions-one_minimal :
      (max_verdicts : ℕ) (dimensions : List Dimension) (r : MinimisationResult)
      → fails [] ≡ false
      → minimise_dimensions fails max_verdicts dimensions ≡ some r
      → r.inconclusive_because ≡ none
      → (fails r.minimal ≡ true)
        × All (λ d. fails (complement r.minimal (d ∷ [])) ≡ false) r.minimal
  minimise_dimensions-one_minimal k [] r works returned conclusive =
      absurd (inconclusive-none no_dimensions r (no_dimensions_lem k) returned conclusive)
  minimise_dimensions-one_minimal k (d ∷ ds) r works returned conclusive =
      elim (Bool-cases (fails (d ∷ ds))) [
        | inr passes ↦ absurd (
            inconclusive-none not_reproduced r (not_reproduced_lem k d ds passes) returned
              conclusive)
        | inl breaks ↦
            let (r', e, h) = ends k d ds breaks in
            let same : r' ≡ r = cc (minimise_dimensions-refine k d ds breaks, e, returned) in
            (
              rw (← same) h.still_fails,
              rw (← same) (
                  All-mono _ _ r'.minimal
                    (λ x. works_of_nonempty works (complement r'.minimal (x ∷ [])))
                    (h.one_minimal (rw same conclusive))),
            )
      ]
