-- ===== src/Score.antt =====
-- rules/score.py: how completely a project declares its environment. Which of the tool managers' files stand
-- at the root is the parameter `is_file`.
pub mod Growth
mod Samples
use devrepro_doctor.Prelude.{
  ℕ, ◌+◌, min, String, Bool, true, false, not, ◌&&◌, ◌||◌, Option, none, some, List, [], ◌∷◌, ◌++◌,
  map, filter, length, any, str_eq, opt_eq, if◌then◌else◌,
}
use devrepro_doctor.Prelude.Printing.{show, text, join}
use devrepro_doctor.Versioning.{Text}
use devrepro_doctor.Versioning.Text.{codes}
use devrepro_doctor.Versioning.Spec.{text_eq, after_prefix}
use devrepro_doctor.Contract.{any_suffix}
use devrepro_doctor.Agents.{sum_of, some_of}

-- The fields that the score reads; the kind is its value.
pub record ProjectRequirement : Type 0 where
  pub ecosystem : String
  pub name : String
  pub kind : String
  pub source_file : String
  pub note : Option String

pub record ReproducibilityPoint : Type 0 where
  pub criterion : String
  pub earned : ℕ
  pub possible : ℕ
  pub explanation : String

pub record ReproducibilityScore : Type 0 where
  pub total : ℕ
  pub possible : ℕ
  pub points : List ReproducibilityPoint

abbrev pub tool_manager_files : List String
tool_manager_files =
    ".nvmrc" ∷ ".node-version" ∷ ".python-version" ∷ ".ruby-version" ∷ ".java-version"
    ∷ ".tool-versions" ∷ "mise.toml" ∷ "rust-toolchain" ∷ "rust-toolchain.toml" ∷ "global.json" ∷ []

-- `s.endswith(suffix)` and `s.startswith(prefix)`
abbrev pub ends_with : String → String → Bool
ends_with suffix s = any_suffix (text_eq (codes suffix)) (codes s)

abbrev pub starts_with : String → String → Bool
starts_with prefix s = elim (after_prefix (codes prefix) (codes s)) [
  | none ↦ false
  | some rest ↦ true
]

abbrev pub point : String → ℕ → ℕ → String → ReproducibilityPoint
point criterion earned possible explanation = record {
  criterion = criterion;
  earned = earned;
  possible = possible;
  explanation = explanation;
}

abbrev pub is_runtime : ProjectRequirement → Bool
is_runtime r = str_eq r.kind "runtime" && not (str_eq r.ecosystem "generic")

abbrev pub is_lock : ProjectRequirement → Bool
is_lock r = opt_eq r.note (some "lockfile present")

unfoldable pub is_pinned : ProjectRequirement → Bool
is_pinned r = any (λ file. ends_with file r.source_file) tool_manager_files

abbrev pub is_devcontainer : ProjectRequirement → Bool
is_devcontainer r = str_eq r.ecosystem "container" && str_eq r.name "devcontainer"

abbrev pub is_docker : ProjectRequirement → Bool
is_docker r =
    str_eq r.ecosystem "container"
    && (str_eq r.name "docker-build" || str_eq r.name "docker-compose")

unfoldable pub is_ci : ProjectRequirement → Bool
unfolding after_prefix
is_ci r = starts_with "ci:" r.name

abbrev pub names_of : List ProjectRequirement → List String
names_of rs = map (λ (r : ProjectRequirement). r.name) rs

abbrev pub or_none : String → String
or_none String.[] = "none"
or_none (String.◌∷◌ c s) = String.◌∷◌ c s

-- 1. Declared runtime versions
unfoldable pub declared_runtime : List ProjectRequirement → ReproducibilityPoint
unfolding show
declared_runtime runtime_reqs =
    if some_of runtime_reqs
    then point "declared-runtime-versions" 2 2 (
        text (
          show (length runtime_reqs)
          ∷ " runtime version requirement(s) declared in manifests"
          ∷ []))
    else point "declared-runtime-versions" 0 2
        "No runtime versions declared (e.g. requires-python, engines.node). Add them so machines converge on the same runtimes."

-- 2. Lockfiles
unfoldable pub lock_coverage : List ProjectRequirement → ReproducibilityPoint
lock_coverage lock_reqs = point "dependency-lock-coverage" (min 2 (length lock_reqs)) 2 (
    text (
      "Lockfiles found: "
      ∷ or_none (join ", " (names_of lock_reqs))
      ∷ ". Lockfiles pin exact dependency trees."
      ∷ []))

-- 3. Compiler/runtime determinism
unfoldable pub determinism : List ProjectRequirement → ReproducibilityPoint
unfolding show
determinism pinned_tool_files =
    if some_of pinned_tool_files
    then point "compiler-runtime-determinism" 1 1
        (text ("Tool-manager pin files found: " ∷ show (length pinned_tool_files) ∷ []))
    else point "compiler-runtime-determinism" 0 1
        "No .nvmrc/.tool-versions/rust-toolchain/global.json style pins; contributors may get different compiler/runtime versions."

-- 4. Container/devcontainer definitions
unfoldable pub container_definitions : Bool → Bool → ReproducibilityPoint
container_definitions devc docker =
    point "container-devcontainer-definitions" ((if devc then 1 else 0) + (if docker then 1 else 0))
      2
      (text (
        (if devc
          then "Devcontainer definition present — one-command reproducible editor environment."
          else "No devcontainer definition; consider adding .devcontainer/devcontainer.json.")
        ∷ (if docker then " Container build/compose files present." else "")
        ∷ []))

-- 5. Tool-manager files
unfoldable pub tool_managers : List String → ReproducibilityPoint
tool_managers tm_present =
    if some_of tm_present
    then point "tool-manager-files" 1 1
        (text ("Tool-manager files committed: " ∷ join ", " tm_present ∷ []))
    else point "tool-manager-files" 0 1
        "No tool-manager files committed (.tool-versions, mise.toml, ...)."

-- 6. CI parity
unfoldable pub ci_parity : List ProjectRequirement → ReproducibilityPoint
ci_parity ci_reqs =
    if some_of ci_reqs
    then point "ci-parity" 1 1
        (text ("CI workflows declare runtimes (" ∷ join ", " (names_of ci_reqs) ∷ ")" ∷ []))
    else point "ci-parity" 0 1
        "CI does not declare explicit runtime versions; local/CI drift is likely."

unfoldable pub score_points : (String → Bool) → List ProjectRequirement → List ReproducibilityPoint
unfolding declared_runtime lock_coverage determinism container_definitions tool_managers ci_parity
    is_pinned is_ci
score_points is_file requirements =
    declared_runtime (filter is_runtime requirements)
    ∷ lock_coverage (filter is_lock requirements)
    ∷ determinism (filter is_pinned requirements)
    ∷ container_definitions (any is_devcontainer requirements) (any is_docker requirements)
    ∷ tool_managers (filter is_file tool_manager_files)
    ∷ ci_parity (filter is_ci requirements)
    ∷ []

unfoldable pub compute_score : (String → Bool) → List ProjectRequirement → ReproducibilityScore
unfolding score_points
compute_score is_file requirements = record {
  total = sum_of (map (λ (p : ReproducibilityPoint). p.earned) (score_points is_file requirements));
  possible =
      sum_of (map (λ (p : ReproducibilityPoint). p.possible) (score_points is_file requirements));
  points = score_points is_file requirements;
}
