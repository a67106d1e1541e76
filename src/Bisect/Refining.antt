-- ===== src/Bisect/Refining.antt =====
-- The rounds of `minimise_dimensions`: a round that does not end the loop leaves less to do, and the loop ends
-- with a reduced part.
use devrepro_doctor.Prelude.{
  ℕ, zero, suc, ◌+◌, ◌-◌, ◌*◌, ◌≤◌, ◌<◌, ◌≡◌, ◌∙◌, max, min, Bool, true, false, none, some, List,
  map, arith, inl, inr, ltb, leb, length, All, Bool-cases, Option-cases,
}
use devrepro_doctor.Bisect.{
  Dimension, Asked, MinimisationResult, stopped_after, minimised, chunks, complement, try_chunks,
  try_complements, refine,
}
use devrepro_doctor.Bisect.Rounds.{
  after_chunks, after_complements, refine_short, refine_stop, refine_chunk, refine_complement,
  refine_finest, refine_finer,
}
use devrepro_doctor.Bisect.Search.{
  IsPart, IsPart-refl, All-map, All-everywhere, chunks_of-IsPart, complement-IsPart,
  try_chunks-some, try_complements-eq-try_chunks,
}
use devrepro_doctor.Bisect.Reduced.{
  IsReduced, IsReduced-part, IsOneMinimal-of_finest, IsOneMinimal-of_short, lt-after_chunks,
  after_chunks-le, after_complements_bounds,
}

module _ (fails : List Dimension → Bool) where
  abbrev pub Ends : ℕ → ℕ → ℕ → List Dimension → List Dimension → ℕ → Asked → Type 0
  Ends fuel k bound whole current g asked =
      (r : MinimisationResult) × (refine fails fuel k current g asked ≡ some r)
      × IsReduced fails bound whole r

  -- One round that does not end the loop by its own tests, given what the next rounds do.
  round-IsReduced :
      (fuel k bound : ℕ) (current : List Dimension) (g : ℕ) (asked : Asked)
      → k + 2 * length current ≤ bound
      → fails current ≡ true
      → ltb 1 (length current) ≡ true
      → leb k asked.verdicts ≡ false
      → ((next : List Dimension) (g' : ℕ) (asked' : Asked)
          → IsPart current next
          → asked.verdicts < asked'.verdicts
          → asked'.verdicts ≤ bound
          → fails next ≡ true
          → Ends fuel k bound current next g' asked')
      → Ends (suc fuel) k bound current current g asked
  round-IsReduced fuel k bound current g asked room still_fails long left again =
      elim (Option-cases (try_chunks fails (chunks current g) asked).0) [
        | inr (chunk, found) ↦
            let (part, breaks) =
              try_chunks-some fails (IsPart current) (chunks current g) asked chunk
                (chunks_of-IsPart _ _ current) found in
            let (r, e, reduced) =
              again chunk 2 (after_chunks fails current g asked) part later
                (omega (arith, unspent, after_chunks-le fails current g asked)) breaks in
            (r, refine_chunk fails fuel k current g asked chunk long left found ∙ e, reduced)
        | inl no_chunk ↦
            elim (Option-cases
              (try_complements fails current (chunks current g)
                (after_chunks fails current g asked)).0) [
                  | inr (rest, found) ↦
                      let (part, breaks) =
                        try_chunks-some fails (IsPart current) _ _ rest (complements_parts _)
                          (rw try_complements-eq-try_chunks at found) in
                      let (r, e, reduced) =
                        again rest (max 2 (g - 1)) (after_complements fails current g asked) part
                          latest within breaks in
                      (
                        r,
                        refine_complement fails fuel k current g asked rest long left no_chunk found
                            ∙ e,
                        reduced,
                      )
                  | inl no_complement ↦ elim (Bool-cases (leb (length current) g)) [
                    | inl finest ↦ (
                      minimised current (after_complements fails current g asked) none,
                      refine_finest fails fuel k current g asked long left no_chunk no_complement
                          finest,
                      record {
                        part = IsPart-refl current;
                        still_fails = still_fails;
                        one_minimal = λ _.
                            IsOneMinimal-of_finest fails current g
                              (after_chunks fails current g asked) (ground arith) no_complement;
                        bounded = within;
                      },
                    )
                    | inr coarse ↦
                        let (r, e, reduced) =
                          again current (min (length current) (g * 2))
                            (after_complements fails current g asked) (IsPart-refl current) latest
                            within still_fails in
                        (
                          r,
                          refine_finer fails fuel k current g asked long left no_chunk no_complement
                                coarse
                              ∙ e,
                          reduced,
                        )
                  ]
                ]
      ]
    where
      unspent : asked.verdicts < k
      unspent = ground arith

      later : asked.verdicts < (after_chunks fails current g asked).verdicts
      later = lt-after_chunks fails current g asked long

      latest : asked.verdicts < (after_complements fails current g asked).verdicts
      latest = omega (arith, later, after_complements_bounds fails current g asked)

      within : (after_complements fails current g asked).verdicts ≤ bound
      within = omega (
        arith,
        unspent,
        after_chunks-le fails current g asked,
        after_complements_bounds fails current g asked,
      )

      complements_parts :
          (cs : List (List Dimension)) → All (IsPart current) (map (complement current) cs)
      complements_parts cs =
          (All-map (IsPart current) (complement current) cs).1
            (All-everywhere (complement-IsPart current) cs)

  pub refine-IsReduced :
      (fuel k bound : ℕ) (current : List Dimension) (g : ℕ) (asked : Asked)
      → 0 < fuel
      → k < fuel + asked.verdicts
      → k + 2 * length current ≤ bound
      → asked.verdicts ≤ bound
      → fails current ≡ true
      → Ends fuel k bound current current g asked
  refine-IsReduced zero k bound current g asked fuelled enough room bounded still_fails =
      absurd (omega arith)
  refine-IsReduced (suc fuel) k bound current g asked fuelled enough room bounded still_fails =
      elim (Bool-cases (ltb 1 (length current))) [
        | inr short ↦ (
          minimised current asked none,
          refine_short fails fuel k current g asked short,
          record {
            part = IsPart-refl current;
            still_fails = still_fails;
            one_minimal = λ _. IsOneMinimal-of_short fails current (ground arith);
            bounded = bounded;
          },
        )
        | inl long ↦ elim (Bool-cases (leb k asked.verdicts)) [
          | inl spent ↦ (
            minimised current asked (some (stopped_after k)),
            refine_stop fails fuel k current g asked long spent,
            record {
              part = IsPart-refl current;
              still_fails = still_fails;
              one_minimal = λ e. cc;
              bounded = bounded;
            },
          )
          | inr left ↦
              let unspent : asked.verdicts < k = ground arith in
              round-IsReduced fuel k bound current g asked room still_fails long left
                λ next g' asked' part later within breaks.
                  let (r, e, reduced) =
                    refine-IsReduced fuel k bound next g' asked' (omega arith) (omega arith)
                      (omega (arith, part.shorter)) within breaks in
                  (r, e, IsReduced-part fails part reduced)
        ]
      ]
