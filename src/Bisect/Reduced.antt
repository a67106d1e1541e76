-- ===== src/Bisect/Reduced.antt =====
-- What a round of `minimise_dimensions` keeps and costs, and when nothing can be taken away from what is left.
use devrepro_doctor.Prelude.{
  ℕ, zero, suc, ◌+◌, ◌≤◌, ◌<◌, ◌≡◌, refl, sym, ap, ◌∙◌, Bool, true, false, none, List, [], ◌∷◌, map,
  arith, ltb, length, take, drop, All, str_eq_iff, opt_eq_iff,
}
use devrepro_doctor.Bisect.{
  Dimension, Asked, MinimisationResult, is_nonempty, chunk_size, chunks, chunks_of, complement,
  try_complements, dimension_eq,
}
use devrepro_doctor.Bisect.Rounds.{after_chunks, after_complements}
use devrepro_doctor.Bisect.Search.{
  IsPart, IsPart-trans, All-map, length-chunks_of, chunks_of-singletons, try_chunks-none,
  verdicts-try_chunks, lt-try_chunks, try_complements-eq-try_chunks,
}

pub chunk_size-fine :
    (current : List Dimension) (granularity : ℕ)
    → length current ≤ granularity
    → chunk_size current granularity ≡ 1
chunk_size-fine current granularity h = grind arith

pub is_nonempty-take :
    (n : ℕ) (d : Dimension) (ds : List Dimension) → 0 < n → is_nonempty (take n (d ∷ ds)) ≡ true
is_nonempty-take zero d ds h = absurd (omega arith)
is_nonempty-take (suc n) d ds h = refl

pub length-map : {A B : Type 0} (f : A → B) (xs : List A) → length (map f xs) ≡ length xs
length-map f [] = refl
length-map f (x ∷ xs) = ap suc (length-map f xs)

module _ (fails : List Dimension → Bool) where
  -- Taking any one dimension away makes the failure vanish, if something is left.
  abbrev pub IsOneMinimal : List Dimension → Type 0
  IsOneMinimal m =
      All (λ d. is_nonempty (complement m (d ∷ [])) ≡ true → fails (complement m (d ∷ [])) ≡ false)
        m

  -- The part of the result's promise that the loop keeps.
  pub record IsReduced (bound : ℕ) (current : List Dimension) (r : MinimisationResult)
      : Type 0 where
    pub part : IsPart current r.minimal
    pub still_fails : fails r.minimal ≡ true
    pub one_minimal : r.inconclusive_because ≡ none → IsOneMinimal r.minimal
    pub bounded : r.verdicts ≤ bound

  pub IsReduced-part :
      {k : ℕ} {a b : List Dimension} {r : MinimisationResult}
      → IsPart a b
      → IsReduced k b r
      → IsReduced k a r
  IsReduced-part p h = record {
    part = IsPart-trans p h.part;
    still_fails = h.still_fails;
    one_minimal = h.one_minimal;
    bounded = h.bounded;
  }

  -- At the finest granularity the complements that passed are those of single dimensions.
  pub IsOneMinimal-of_finest :
      (current : List Dimension) (g : ℕ) (asked : Asked)
      → length current ≤ g
      → (try_complements fails current (chunks current g) asked).0 ≡ none
      → IsOneMinimal current
  IsOneMinimal-of_finest current g asked finest none_fails =
      (All-map _ (λ d. d ∷ []) current).0 ((All-map _ (complement current) _).0 passed)
    where
      singles : chunks current g ≡ map (λ d. d ∷ []) current
      singles =
          rw (chunk_size-fine current g finest)
            (chunks_of-singletons (length current) current (omega arith))

      passed :
          All
            (λ c. is_nonempty c ≡ true → fails c ≡ false)
            (map (complement current) (map (λ d. d ∷ []) current))
      passed = try_chunks-none fails _ asked (
          rw (← singles) (
            sym
              (ap (λ r. r.0) (try_complements-eq-try_chunks fails current (chunks current g) asked))
            ∙ none_fails))

  -- What is no longer than one dimension is minimal.
  pub IsOneMinimal-of_short : (current : List Dimension) → length current ≤ 1 → IsOneMinimal current
  unfolding complement dimension_eq
  IsOneMinimal-of_short [] short = tt
  IsOneMinimal-of_short (d ∷ []) short = (
    λ left. ground (
      arith,
      (str_eq_iff d.name d.name).1 refl,
      (opt_eq_iff d.working_value d.working_value).1 refl,
      (opt_eq_iff d.broken_value d.broken_value).1 refl,
    ),
    tt,
  )
  IsOneMinimal-of_short (d ∷ e ∷ ds) short = absurd (omega arith)

  -- The first chunk is not empty, so something is asked.
  pub lt-try_chunks-chunks :
      (current : List Dimension) (g : ℕ) (asked : Asked)
      → 1 < length current
      → asked.verdicts < (after_chunks fails current g asked).verdicts
  unfolding chunks_of
  lt-try_chunks-chunks [] g asked h = absurd (omega arith)
  lt-try_chunks-chunks (d ∷ ds) g asked h =
      let size = chunk_size (d ∷ ds) g in
      lt-try_chunks fails (take size (d ∷ ds)) (chunks_of (length ds) size (drop size (d ∷ ds)))
        asked (is_nonempty-take size d ds (omega arith))

  module _ (current : List Dimension) (g : ℕ) (asked : Asked) where
    -- Each round costs at least one verdict, and at most two for each chunk.
    pub lt-after_chunks :
        ltb 1 (length current) ≡ true
        → asked.verdicts < (after_chunks fails current g asked).verdicts
    lt-after_chunks long = lt-try_chunks-chunks current g asked (ground arith)

    pub after_chunks-le :
        (after_chunks fails current g asked).verdicts ≤ asked.verdicts + length current
    after_chunks-le = omega (
      arith,
      (verdicts-try_chunks fails (chunks current g) asked).1,
      length-chunks_of (length current) (chunk_size current g) current,
    )

    pub after_complements_bounds :
        ((after_chunks fails current g asked).verdicts
          ≤ (after_complements fails current g asked).verdicts)
        × ((after_complements fails current g asked).verdicts
            ≤ (after_chunks fails current g asked).verdicts + length current)
    after_complements_bounds =
        let tries = map (complement current) (chunks current g) in
        omega (
          arith,
          ap (λ r. r.1.verdicts)
              (try_complements-eq-try_chunks fails current (chunks current g)
                (after_chunks fails current g asked)),
          verdicts-try_chunks fails tries (after_chunks fails current g asked),
          length-map (complement current) (chunks current g),
          length-chunks_of (length current) (chunk_size current g) current,
        )
