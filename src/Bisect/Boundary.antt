-- ===== src/Bisect/Boundary.antt =====
-- What `bisect_dimensions` concludes: a boundary in the list of dimensions, in few verdicts.
use devrepro_doctor.Prelude.{
  ℕ, zero, suc, ◌+◌, ◌*◌, ◌/◌, ◌^◌, ◌≤◌, ◌<◌, ◌≡◌, refl, sym, ap, ◌∙◌, inl, inr, Bool, true, false,
  none, some, List, [], ◌∷◌, ◌++◌, append-nil, append_assoc, head?, arith, if◌then◌else◌, length,
  take, drop, Bool-cases, str_eq_iff, opt_eq_iff, any, ◌||◌, ◌↔◌, take-append-drop, length-take,
  length-drop,
}
use native.Mathlib.Nat.{pow-suc}
use devrepro_doctor.Bisect.{
  Dimension, Asked, nothing_asked, concluded, ask, halve, dimension_eq, bisect_dimensions,
}

pub dimension_eq_iff : (c d : Dimension) → (dimension_eq c d ≡ true) ↔ (c ≡ d)
unfolding dimension_eq
dimension_eq_iff c d = ground (
  arith,
  str_eq_iff c.name d.name,
  opt_eq_iff c.working_value d.working_value,
  opt_eq_iff c.broken_value d.broken_value,
)

any-append :
    (p : Dimension → Bool) (xs ys : List Dimension) → any p (xs ++ ys) ≡ (any p xs || any p ys)
any-append p [] ys = refl
any-append p (x ∷ xs) ys = ground (arith, any-append p xs ys)

module _ (fails : List Dimension → Bool) where
  -- Applying `before` works, and applying `culprit` as well breaks the build.
  pub record IsBoundary (dimensions : List Dimension) (culprit : Dimension) : Type 0 where
    pub before : List Dimension
    pub after : List Dimension
    pub split : dimensions ≡ before ++ culprit ∷ after
    pub works : fails before ≡ false
    pub breaks : fails (before ++ culprit ∷ []) ≡ true

  halve_step :
      (fuel : ℕ) (lower remaining : List Dimension) (asked : Asked)
      → 1 < length remaining
      → halve fails (suc fuel) lower remaining asked ≡ (
          let half = length remaining / 2 in
          let candidate = lower ++ take half remaining in
          let asked' = (ask fails candidate asked).1 in
          if fails candidate
          then halve fails fuel lower (take half remaining) asked'
          else halve fails fuel candidate (drop half remaining) asked')
  unfolding halve ask
  halve_step fuel lower remaining asked h = ground arith

  resplit :
      (n : ℕ) (lower remaining rest : List Dimension)
      → lower ++ (remaining ++ rest) ≡ lower ++ (take n remaining ++ (drop n remaining ++ rest))
  resplit n lower remaining rest =
      cc (take-append-drop n remaining, append_assoc (take n remaining) (drop n remaining) rest)

  -- The loop's invariant is that `lower` works and `lower ++ remaining` does not.
  halve-IsBoundary :
      (fuel : ℕ) (dimensions lower remaining rest : List Dimension) (asked : Asked)
      → dimensions ≡ lower ++ (remaining ++ rest)
      → 0 < length remaining
      → length remaining ≤ fuel + 1
      → fails lower ≡ false
      → fails (lower ++ remaining) ≡ true
      → (c : Dimension) × ((halve fails fuel lower remaining asked).0 ≡ c ∷ [])
        × IsBoundary dimensions c
  unfolding halve
  halve-IsBoundary fuel ds lower [] rest asked e some_left enough works breaks =
      absurd (omega arith)
  halve-IsBoundary zero ds lower (c ∷ []) rest asked e some_left enough works breaks =
      (c, refl, record { before = lower; after = rest; split = e; works = works; breaks = breaks })
  halve-IsBoundary (suc fuel) ds lower (c ∷ []) rest asked e some_left enough works breaks =
      (c, refl, record { before = lower; after = rest; split = e; works = works; breaks = breaks })
  halve-IsBoundary zero ds lower (c ∷ d ∷ r) rest asked e some_left enough works breaks =
      absurd (omega arith)
  halve-IsBoundary (suc fuel) ds lower (c ∷ d ∷ r) rest asked e some_left enough works breaks =
      let remaining = c ∷ d ∷ r in
      let half = length remaining / 2 in
      let candidate = lower ++ take half remaining in
      let asked' = (ask fails candidate asked).1 in
      rw (halve_step fuel lower remaining asked (omega arith))
        (elim (Bool-cases (fails candidate)) [
          | inl yes' ↦ rw yes' (
              halve-IsBoundary fuel ds lower (take half remaining) (drop half remaining ++ rest)
                asked' (e ∙ resplit half lower remaining rest)
                (omega (arith, length-take half remaining))
                (omega (arith, length-take half remaining)) works yes')
          | inr no' ↦ rw no' (
              halve-IsBoundary fuel ds candidate (drop half remaining) rest asked'
                (e
                  ∙ resplit half lower remaining rest
                  ∙ sym (append_assoc lower (take half remaining) (drop half remaining ++ rest)))
                (omega (arith, length-drop half remaining))
                (omega (arith, length-drop half remaining)) no'
                (cc (
                  take-append-drop half remaining,
                  append_assoc lower (take half remaining) (drop half remaining),
                )))
        ])

  halve-verdicts :
      (fuel k : ℕ) (lower remaining : List Dimension) (asked : Asked)
      → length remaining ≤ 2 ^ k
      → (halve fails fuel lower remaining asked).1.verdicts ≤ asked.verdicts + k
  unfolding halve ask
  halve-verdicts zero k lower remaining asked small = omega arith
  halve-verdicts (suc fuel) zero lower remaining asked small = ground arith
  halve-verdicts (suc fuel) (suc k) lower remaining asked small =
      let half = length remaining / 2 in
      let candidate = lower ++ take half remaining in
      let asked' = (ask fails candidate asked).1 in
      let twice : 2 ^ suc k ≡ 2 * 2 ^ k = simp pow-suc (omega arith) in
      ground (
        arith,
        halve-verdicts fuel k lower (take half remaining) asked'
            (omega (arith, twice, length-take half remaining)),
        halve-verdicts fuel k candidate (drop half remaining) asked'
            (omega (arith, twice, length-drop half remaining)),
      )

  -- Past both sanity checks the result is that of the loop.
  bisect_dimensions-halve :
      (d : Dimension) (ds : List Dimension)
      → fails [] ≡ false
      → fails (d ∷ ds) ≡ true
      → bisect_dimensions fails (d ∷ ds)
        ≡ concluded (
            halve fails
              (length (d ∷ ds))
              []
              (d ∷ ds)
              (ask fails (d ∷ ds) (ask fails [] nothing_asked).1).1)
  unfolding bisect_dimensions ask
  bisect_dimensions-halve d ds works breaks = ground arith

  -- If nothing applied works and everything applied fails, `bisect_dimensions` is conclusive: it
  -- returns a dimension `c` of the list such that applying what stands before `c` works and applying
  -- `c` as well fails. Nothing else is assumed of the verdicts.
  pub bisect_dimensions-IsBoundary :
      (dimensions : List Dimension)
      → 0 < length dimensions
      → fails [] ≡ false
      → fails dimensions ≡ true
      → (c : Dimension) × ((bisect_dimensions fails dimensions).culprit ≡ some c)
        × ((bisect_dimensions fails dimensions).inconclusive_because ≡ none)
        × IsBoundary dimensions c
  bisect_dimensions-IsBoundary [] some_left works breaks = absurd (omega arith)
  bisect_dimensions-IsBoundary (d ∷ ds) some_left works breaks =
      let dimensions = d ∷ ds in
      let asked = (ask fails dimensions (ask fails [] nothing_asked).1).1 in
      let (c, found, boundary) =
        halve-IsBoundary (length dimensions) dimensions [] dimensions [] asked
          (sym (append-nil dimensions)) (omega arith) (omega arith) works breaks in
      (
        c,
        rw (bisect_dimensions-halve d ds works breaks) (ap head? found),
        rw (bisect_dimensions-halve d ds works breaks),
        boundary,
      )

  -- A list of at most 2 ^ k dimensions takes at most k + 2 verdicts, whatever they are.
  pub verdicts-bisect_dimensions :
      (k : ℕ) (dimensions : List Dimension)
      → length dimensions ≤ 2 ^ k
      → (bisect_dimensions fails dimensions).verdicts ≤ k + 2
  unfolding bisect_dimensions ask
  verdicts-bisect_dimensions k [] small = omega arith
  verdicts-bisect_dimensions k (d ∷ ds) small =
      let dimensions = d ∷ ds in
      let asked = (ask fails dimensions (ask fails [] nothing_asked).1).1 in
      ground (arith, halve-verdicts (length dimensions) k [] dimensions asked small)

  -- If applying a set of dimensions fails exactly when it holds `c`, and `c` is in the list, then
  -- `bisect_dimensions` returns `c`.
  pub bisect_dimensions-single :
      (c : Dimension) (dimensions : List Dimension)
      → ((ds : List Dimension) → fails ds ≡ any (dimension_eq c) ds)
      → any (dimension_eq c) dimensions ≡ true
      → (bisect_dimensions fails dimensions).culprit ≡ some c
  bisect_dimensions-single c [] decides listed = cc
  bisect_dimensions-single c (d ∷ ds) decides listed =
      let (x, found, _, boundary) =
        bisect_dimensions-IsBoundary (d ∷ ds) (omega arith) (decides [])
          (decides (d ∷ ds) ∙ listed) in
      let last : dimension_eq c x ≡ true = ground (
        arith,
        any-append (dimension_eq c) boundary.before (x ∷ []),
        decides boundary.before,
        decides (boundary.before ++ x ∷ []),
        boundary.works,
        boundary.breaks,
      ) in
      found ∙ ap some (sym ((dimension_eq_iff c x).0 last))
