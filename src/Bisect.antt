-- ===== src/Bisect.antt =====
-- reproduce/bisect.py: the search for the dimension, or the smallest set of dimensions, that breaks
-- a build. The verdicts come from outside: `fails` is a parameter, the callback of the caller.
pub mod Boundary
pub mod Rounds
pub mod Search
pub mod Reduced
mod Refining
pub mod Minimal
pub mod Trail
mod Samples
use devrepro_doctor.Prelude.{
  ℕ, zero, suc, ◌+◌, ◌-◌, ◌*◌, ◌/◌, String, Bool, true, false, not, ◌&&◌, Option, none, some, List,
  [], ◌∷◌, ◌++◌, map, head?, min, max, ltb, leb, str_eq, opt_eq, if◌then◌else◌, length, take, drop,
  any, filter,
}

pub record Dimension : Type 0 where
  pub name : String
  pub working_value : Option String
  pub broken_value : Option String

-- The equality of the frozen dataclass, which `in` tests.
unfoldable pub dimension_eq : Dimension → Dimension → Bool
dimension_eq c d =
    str_eq c.name d.name
    && opt_eq c.working_value d.working_value
    && opt_eq c.broken_value d.broken_value

-- The two counters that `ask` closes over.
pub record Asked : Type 0 where
  pub verdicts : ℕ
  pub trail : List (List String × Bool)

abbrev pub nothing_asked : Asked
nothing_asked = record { verdicts = 0; trail = [] }

-- Each message of the source by a constructor.
pub data Inconclusive : Type 0 where
  no_dimensions baseline_fails not_reproduced : Inconclusive
  stopped_after : ℕ → Inconclusive

pub record BisectResult : Type 0 where
  pub culprit : Option Dimension
  pub verdicts : ℕ
  pub trail : List (List String × Bool)
  pub inconclusive_because : Option Inconclusive

pub record MinimisationResult : Type 0 where
  pub minimal : List Dimension
  pub verdicts : ℕ
  pub trail : List (List String × Bool)
  pub inconclusive_because : Option Inconclusive

unfoldable pub interacting : MinimisationResult → Bool
interacting r = ltb 1 (length r.minimal)

abbrev pub names_of : List Dimension → List String
names_of ds = map (λ d. d.name) ds

abbrev pub inconclusive : Asked → Inconclusive → BisectResult
inconclusive asked why = record {
  culprit = none;
  verdicts = asked.verdicts;
  trail = asked.trail;
  inconclusive_because = some why;
}

abbrev pub concluded : List Dimension × Asked → BisectResult
concluded r = record {
  culprit = head? r.0;
  verdicts = r.1.verdicts;
  trail = r.1.trail;
  inconclusive_because = none;
}

-- `current[i : i + size] for i in range(0, len(current), size)`, on fuel.
unfoldable pub chunks_of : ℕ → ℕ → List Dimension → List (List Dimension)
chunks_of zero size ds = []
chunks_of (suc fuel) size [] = []
chunks_of (suc fuel) size (d ∷ ds) = take size (d ∷ ds) ∷ chunks_of fuel size (drop size (d ∷ ds))

abbrev pub is_nonempty : List Dimension → Bool
is_nonempty [] = false
is_nonempty (d ∷ ds) = true

unfoldable pub complement : List Dimension → List Dimension → List Dimension
unfolding dimension_eq
complement current chunk = filter (λ d. not (any (dimension_eq d) chunk)) current

abbrev pub minimised : List Dimension → Asked → Option Inconclusive → MinimisationResult
minimised current asked why = record {
  minimal = current;
  verdicts = asked.verdicts;
  trail = asked.trail;
  inconclusive_because = why;
}

abbrev pub chunk_size : List Dimension → ℕ → ℕ
chunk_size current granularity = max 1 (length current / granularity)

abbrev pub chunks : List Dimension → ℕ → List (List Dimension)
chunks current granularity = chunks_of (length current) (chunk_size current granularity) current

module _ (fails : List Dimension → Bool) where
  -- `ask`: one more verdict, recorded at the end of the trail.
  unfoldable pub ask : List Dimension → Asked → Bool × Asked
  ask candidate asked = (
    fails candidate,
    record {
      verdicts = asked.verdicts + 1;
      trail = asked.trail ++ (names_of candidate, fails candidate) ∷ [];
    },
  )

  -- `while len(remaining) > 1`, on fuel: `remaining` and the verdicts when it ends.
  unfoldable pub halve : ℕ → List Dimension → List Dimension → Asked → List Dimension × Asked
  halve zero lower remaining asked = (remaining, asked)
  halve (suc fuel) lower remaining asked = elim (ltb 1 (length remaining)) [
    | false ↦ (remaining, asked)
    | true ↦
        let half = length remaining / 2 in
        let (answer, asked') = ask (lower ++ take half remaining) asked in
        elim answer [
          | true ↦ halve fuel lower (take half remaining) asked'
          | false ↦ halve fuel (lower ++ take half remaining) (drop half remaining) asked'
        ]
  ]

  -- The length of `remaining` at least halves, and at most rounds up, so `length` rounds are enough.
  unfoldable pub bisect_dimensions : List Dimension → BisectResult
  bisect_dimensions [] = inconclusive nothing_asked no_dimensions
  bisect_dimensions (d ∷ ds) =
      let dimensions = d ∷ ds in
      let (baseline, asked) = ask [] nothing_asked in
      if baseline
      then inconclusive asked baseline_fails
      else (let (everything, asked') = ask dimensions asked in
          if not everything
          then inconclusive asked' not_reproduced
          else concluded (halve (length dimensions) [] dimensions asked'))

  -- The first `for`: the first chunk that fails alone.
  unfoldable pub try_chunks : List (List Dimension) → Asked → Option (List Dimension) × Asked
  try_chunks [] asked = (none, asked)
  try_chunks (chunk ∷ chunks) asked = elim (is_nonempty chunk) [
    | false ↦ try_chunks chunks asked
    | true ↦
        let (answer, asked') = ask chunk asked in
        elim answer [ true ↦ (some chunk, asked') | false ↦ try_chunks chunks asked' ]
  ]

  -- The second `for`: the first complement that fails.
  unfoldable pub try_complements :
      List Dimension → List (List Dimension) → Asked → Option (List Dimension) × Asked
  try_complements current [] asked = (none, asked)
  try_complements current (chunk ∷ chunks) asked =
      let rest = complement current chunk in
      elim (is_nonempty rest) [
        | false ↦ try_complements current chunks asked
        | true ↦
            let (answer, asked') = ask rest asked in
            elim answer [
              | true ↦ (some rest, asked')
              | false ↦ try_complements current chunks asked'
            ]
      ]

  -- `while len(current) > 1`, on fuel; `none` means that the fuel ran out.
  unfoldable pub refine : ℕ → ℕ → List Dimension → ℕ → Asked → Option MinimisationResult
  refine zero max_verdicts current granularity asked = none
  refine (suc fuel) max_verdicts current granularity asked = elim (ltb 1 (length current)) [
    | false ↦ some (minimised current asked none)
    | true ↦ elim (leb max_verdicts asked.verdicts) [
      | true ↦ some (minimised current asked (some (stopped_after max_verdicts)))
      | false ↦
          let (found, asked') = try_chunks (chunks current granularity) asked in
          elim found [
            | some chunk ↦ refine fuel max_verdicts chunk 2 asked'
            | none ↦
                let (left, asked'') = try_complements current (chunks current granularity) asked' in
                elim left [
                  | some rest ↦ refine fuel max_verdicts rest (max 2 (granularity - 1)) asked''
                  | none ↦ elim (leb (length current) granularity) [
                    | true ↦ some (minimised current asked'' none)
                    | false ↦
                        refine fuel max_verdicts current (min (length current) (granularity * 2))
                          asked''
                  ]
                ]
          ]
    ]
  ]

  -- Each round asks for one verdict at least, so `max_verdicts + 1` rounds are enough.
  unfoldable pub minimise_dimensions : ℕ → List Dimension → Option MinimisationResult
  minimise_dimensions max_verdicts [] = some (minimised [] nothing_asked (some no_dimensions))
  minimise_dimensions max_verdicts (d ∷ ds) =
      let current = d ∷ ds in
      let (everything, asked) = ask current nothing_asked in
      if not everything
      then some (minimised [] asked (some not_reproduced))
      else refine (max_verdicts + 1) max_verdicts current 2 asked
