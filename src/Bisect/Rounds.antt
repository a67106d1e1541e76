-- ===== src/Bisect/Rounds.antt =====
-- The rounds of `minimise_dimensions`: one equation for each way through the loop's body.
use devrepro_doctor.Prelude.{
  ℕ, suc, ◌-◌, ◌*◌, ◌≡◌, max, min, Bool, true, false, none, some, List, arith, ltb, leb, length,
}
use devrepro_doctor.Bisect.{
  Dimension, Asked, stopped_after, minimised, chunks, try_chunks, try_complements, refine,
}

module _ (fails : List Dimension → Bool) where
  abbrev pub after_chunks : List Dimension → ℕ → Asked → Asked
  after_chunks current g asked = (try_chunks fails (chunks current g) asked).1

  abbrev pub after_complements : List Dimension → ℕ → Asked → Asked
  after_complements current g asked =
      (try_complements fails current (chunks current g) (after_chunks current g asked)).1

  module _ (fuel k : ℕ) (current : List Dimension) (g : ℕ) (asked : Asked) where
    pub refine_short :
        ltb 1 (length current) ≡ false
        → refine fails (suc fuel) k current g asked ≡ some (minimised current asked none)
    unfolding refine
    refine_short short = ground arith

    pub refine_stop :
        ltb 1 (length current) ≡ true
        → leb k asked.verdicts ≡ true
        → refine fails (suc fuel) k current g asked
          ≡ some (minimised current asked (some (stopped_after k)))
    unfolding refine
    refine_stop long spent = ground arith

    pub refine_chunk :
        (chunk : List Dimension)
        → ltb 1 (length current) ≡ true
        → leb k asked.verdicts ≡ false
        → (try_chunks fails (chunks current g) asked).0 ≡ some chunk
        → refine fails (suc fuel) k current g asked
          ≡ refine fails fuel k chunk 2 (after_chunks current g asked)
    unfolding refine
    refine_chunk chunk long left found = ground arith

    pub refine_complement :
        (rest : List Dimension)
        → ltb 1 (length current) ≡ true
        → leb k asked.verdicts ≡ false
        → (try_chunks fails (chunks current g) asked).0 ≡ none
        → (try_complements fails current (chunks current g) (after_chunks current g asked)).0
          ≡ some rest
        → refine fails (suc fuel) k current g asked
          ≡ refine fails fuel k rest (max 2 (g - 1)) (after_complements current g asked)
    unfolding refine
    refine_complement rest long left no_chunk found = ground arith

    pub refine_finest :
        ltb 1 (length current) ≡ true
        → leb k asked.verdicts ≡ false
        → (try_chunks fails (chunks current g) asked).0 ≡ none
        → (try_complements fails current (chunks current g) (after_chunks current g asked)).0 ≡ none
        → leb (length current) g ≡ true
        → refine fails (suc fuel) k current g asked
          ≡ some (minimised current (after_complements current g asked) none)
    unfolding refine
    refine_finest long left no_chunk no_complement finest = ground arith

    pub refine_finer :
        ltb 1 (length current) ≡ true
        → leb k asked.verdicts ≡ false
        → (try_chunks fails (chunks current g) asked).0 ≡ none
        → (try_complements fails current (chunks current g) (after_chunks current g asked)).0 ≡ none
        → leb (length current) g ≡ false
        → refine fails (suc fuel) k current g asked
          ≡ refine fails fuel k current
              (min (length current) (g * 2))
              (after_complements current g asked)
    unfolding refine
    refine_finer long left no_chunk no_complement coarse = ground arith
