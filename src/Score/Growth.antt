-- ===== src/Score/Growth.antt =====
-- The bounds of the score, and that what a project declares more never lowers it.
use devrepro_doctor.Prelude.{
  ℕ, ◌+◌, ◌≤◌, min, ◌≡◌, refl, String, Bool, true, false, List, [], ◌∷◌, filter, length, any,
  if◌then◌else◌, All, arith, if_cases,
}
use devrepro_doctor.Agents.{some_of}
use devrepro_doctor.Score.{
  ProjectRequirement, ReproducibilityPoint, is_runtime, is_lock, is_pinned, is_devcontainer,
  is_docker, is_ci, tool_manager_files, declared_runtime, lock_coverage, determinism,
  container_definitions, tool_managers, ci_parity, compute_score,
}

abbrev points : ℕ → Bool → ℕ
points n b = if b then n else 0

-- A point's possible and earned.
abbrev IsWorth : ℕ → ℕ → ReproducibilityPoint → Type 0
IsWorth earned possible p = (p.earned ≡ earned) × (p.possible ≡ possible)

declared_runtime-IsWorth :
    (rs : List ProjectRequirement) → IsWorth (points 2 (some_of rs)) 2 (declared_runtime rs)
unfolding declared_runtime
declared_runtime-IsWorth [] = (refl, refl)
declared_runtime-IsWorth (r ∷ rs) = (refl, refl)

lock_coverage-IsWorth :
    (rs : List ProjectRequirement) → IsWorth (min 2 (length rs)) 2 (lock_coverage rs)
unfolding lock_coverage
lock_coverage-IsWorth rs = (refl, refl)

determinism-IsWorth :
    (rs : List ProjectRequirement) → IsWorth (points 1 (some_of rs)) 1 (determinism rs)
unfolding determinism
determinism-IsWorth [] = (refl, refl)
determinism-IsWorth (r ∷ rs) = (refl, refl)

container_definitions-IsWorth :
    (devc docker : Bool)
    → IsWorth (points 1 devc + points 1 docker) 2 (container_definitions devc docker)
unfolding container_definitions
container_definitions-IsWorth devc docker = (refl, refl)

tool_managers-IsWorth :
    (files : List String) → IsWorth (points 1 (some_of files)) 1 (tool_managers files)
unfolding tool_managers
tool_managers-IsWorth [] = (refl, refl)
tool_managers-IsWorth (f ∷ fs) = (refl, refl)

ci_parity-IsWorth :
    (rs : List ProjectRequirement) → IsWorth (points 1 (some_of rs)) 1 (ci_parity rs)
unfolding ci_parity
ci_parity-IsWorth [] = (refl, refl)
ci_parity-IsWorth (r ∷ rs) = (refl, refl)

points-bound : (n : ℕ) (b : Bool) → points n b ≤ n
points-bound n true = omega arith
points-bound n false = omega arith

-- The score of the requirements, criterion by criterion.
abbrev earned_of : (String → Bool) → List ProjectRequirement → ℕ
earned_of is_file rs =
    points 2 (some_of (filter is_runtime rs))
    + (min 2 (length (filter is_lock rs))
        + (points 1 (some_of (filter is_pinned rs))
            + ((points 1 (any is_devcontainer rs) + points 1 (any is_docker rs))
                + (points 1 (some_of (filter is_file tool_manager_files))
                    + (points 1 (some_of (filter is_ci rs)) + 0)))))

module _ (is_file : String → Bool) (rs : List ProjectRequirement) where
  total-compute_score : let score = compute_score is_file rs in score.total ≡ earned_of is_file rs
  unfolding compute_score
  total-compute_score =
      let runtime = declared_runtime-IsWorth (filter is_runtime rs) in
      let locks = lock_coverage-IsWorth (filter is_lock rs) in
      let pins = determinism-IsWorth (filter is_pinned rs) in
      let containers = container_definitions-IsWorth (any is_devcontainer rs) (any is_docker rs) in
      let managers = tool_managers-IsWorth (filter is_file tool_manager_files) in
      let ci = ci_parity-IsWorth (filter is_ci rs) in omega arith

  -- A project is scored out of 9 points and gets at most these; no criterion earns more than it is worth.
  pub compute_score-bounds :
      let score = compute_score is_file rs in
      (score.possible ≡ 9)
      × (score.total ≤ score.possible)
      × All (λ (p : ReproducibilityPoint). p.earned ≤ p.possible) score.points
  unfolding compute_score
  compute_score-bounds =
      let runtime = declared_runtime-IsWorth (filter is_runtime rs) in
      let locks = lock_coverage-IsWorth (filter is_lock rs) in
      let pins = determinism-IsWorth (filter is_pinned rs) in
      let containers = container_definitions-IsWorth (any is_devcontainer rs) (any is_docker rs) in
      let managers = tool_managers-IsWorth (filter is_file tool_manager_files) in
      let ci = ci_parity-IsWorth (filter is_ci rs) in
      let two = points-bound 2 (some_of (filter is_runtime rs)) in
      let pinned = points-bound 1 (some_of (filter is_pinned rs)) in
      let devc = points-bound 1 (any is_devcontainer rs) in
      let docker = points-bound 1 (any is_docker rs) in
      let files = points-bound 1 (some_of (filter is_file tool_manager_files)) in
      let parity = points-bound 1 (some_of (filter is_ci rs)) in
      (
        omega arith,
        omega arith,
        (
          omega arith,
          (omega arith, (omega arith, (omega arith, (omega arith, (omega arith, tt))))),
        ),
      )

points-le : (n : ℕ) (a b : Bool) → (a ≡ true → b ≡ true) → points n a ≤ points n b
points-le n true true h = omega arith
points-le n true false h = let e = h refl in cc e
points-le n false true h = omega arith
points-le n false false h = omega arith

module _ (p : ProjectRequirement → Bool) (r : ProjectRequirement)
    (rs : List ProjectRequirement) where
  some_of-filter-cons :
      (n : ℕ) → points n (some_of (filter p rs)) ≤ points n (some_of (filter p (r ∷ rs)))
  some_of-filter-cons n =
      points-le n (some_of (filter p rs)) (some_of (filter p (r ∷ rs)))
        (λ h. if_cases (λ qs. some_of qs ≡ true) (p r) (λ e. refl) (λ e. h))

  length-filter-cons : length (filter p rs) ≤ length (filter p (r ∷ rs))
  length-filter-cons =
      if_cases (λ (qs : List ProjectRequirement). length (filter p rs) ≤ length qs) (p r)
        (λ e. omega arith) (λ e. omega arith)

  any-cons : points 1 (any p rs) ≤ points 1 (any p (r ∷ rs))
  any-cons = points-le 1 (any p rs) (any p (r ∷ rs)) (λ h. ground (arith, h))

-- Sums whose parts do not shrink.
sums :
    (m : ℕ) {a a' k k' p p' d d' e e' c c' : ℕ}
    → a ≤ a'
    → k ≤ k'
    → p ≤ p'
    → d ≤ d'
    → e ≤ e'
    → c ≤ c'
    → a + (min 2 k + (p + ((d + e) + (m + (c + 0)))))
      ≤ a' + (min 2 k' + (p' + ((d' + e') + (m + (c' + 0)))))
sums m ha hk hp hd he hc = omega arith

-- One more requirement never lowers the score.
pub compute_score-grows :
    (is_file : String → Bool) (r : ProjectRequirement) (rs : List ProjectRequirement)
    → let before = compute_score is_file rs in
      let after = compute_score is_file (r ∷ rs) in before.total ≤ after.total
compute_score-grows is_file r rs =
    let before = total-compute_score is_file rs in
    let after = total-compute_score is_file (r ∷ rs) in
    let runtime = some_of-filter-cons is_runtime r rs 2 in
    let locks = length-filter-cons is_lock r rs in
    let pins = some_of-filter-cons is_pinned r rs 1 in
    let devc = any-cons is_devcontainer r rs in
    let docker = any-cons is_docker r rs in
    let ci = some_of-filter-cons is_ci r rs 1 in
    rw (before, after) (sums _ runtime locks pins devc docker ci)
