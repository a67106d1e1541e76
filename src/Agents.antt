-- ===== src/Agents.antt =====
-- agents/score.py: the readiness of a repository for an agent, as points out of a fixed number.
pub mod Radius
pub mod Briefing
pub mod Gate
pub mod Points
pub mod Refusal
mod Samples
use devrepro_doctor.Prelude.{
  ℕ, zero, suc, ◌+◌, ◌*◌, ◌/◌, ◌%◌, String, Bool, true, false, not, ◌&&◌, ◌||◌, List, [], ◌∷◌, map,
  filter, length, ltb, leb, ◌==◌, str_eq, if◌then◌else◌, contains, distinct, sort_strings,
}
use devrepro_doctor.Prelude.Printing.{show, text, join}

pub record ReadinessFactor : Type 0 where
  pub name : String
  pub earned : ℕ
  pub possible : ℕ
  pub explanation : String

pub record AgentReadiness : Type 0 where
  pub total : ℕ
  pub possible : ℕ
  pub factors : List ReadinessFactor

-- `AgentManifest`, `DeclaredCommand` and `CommandCheck`, as far as the score reads them.
pub record AgentManifest : Type 0 where
  pub path : String

pub record DeclaredCommand : Type 0 where
  pub program : String

pub record CommandCheck : Type 0 where
  pub command : DeclaredCommand
  pub status : String

-- `round(n / d)`: to the nearest number, a half to the even one. The source divides to a float; for the few points
-- of a readiness it lies on the same side of a half as the exact quotient.
abbrev pub round_ratio : ℕ → ℕ → ℕ
round_ratio n d =
    let quotient = n / d in
    let rest = n % d in
    if ltb (2 * rest) d
    then quotient
    else if ltb d (2 * rest)
    then quotient + 1
    else if quotient % 2 == 0
    then quotient
    else quotient + 1

unfoldable pub percent : AgentReadiness → ℕ
percent r = if r.possible == 0 then 0 else round_ratio (100 * r.total) r.possible

unfoldable pub grade : AgentReadiness → String
unfolding percent
grade r =
    if leb 90 (percent r)
    then "ready"
    else if leb 60 (percent r)
    then "workable"
    else if leb 30 (percent r)
    then "rough"
    else "unprepared"

abbrev pub some_of {ℓ} : {A : Type ℓ} → List A → Bool
some_of [] = false
some_of (x ∷ xs) = true

abbrev pub factor : String → ℕ → ℕ → String → ReadinessFactor
factor name earned possible explanation = record {
  name = name;
  earned = earned;
  possible = possible;
  explanation = explanation;
}

-- 1. Is there a manifest at all?
unfoldable pub manifest_present : List AgentManifest → ReadinessFactor
manifest_present manifests =
    if some_of manifests
    then factor "manifest-present" 3 3 (
        text (
          "Agent instructions found: "
          ∷ join ", " (map (λ (m : AgentManifest). m.path) manifests)
          ∷ "."
          ∷ []))
    else factor "manifest-present" 0 3
        "No AGENTS.md, CLAUDE.md or equivalent. An agent has to infer how to set up, build and test this project, which is where turns and tokens go."

-- The commands that name a program other than `cd` and `echo`.
abbrev pub runnable_of : List CommandCheck → List CommandCheck
runnable_of checks =
    filter
      (λ (c : CommandCheck). not (str_eq c.command.program "cd" || str_eq c.command.program "echo"))
      checks

abbrev pub with_status : String → List CommandCheck → List CommandCheck
with_status status checks = filter (λ (c : CommandCheck). str_eq c.status status) checks

-- 2. Does it declare anything runnable?
unfoldable pub commands_declared : List CommandCheck → ReadinessFactor
unfolding show
commands_declared runnable =
    if some_of runnable
    then factor "commands-declared" 2 2
        (text (show (length runnable) ∷ " command(s) declared." ∷ []))
    else factor "commands-declared" 0 2
        "The manifest declares no runnable commands, so it tells an agent nothing it can act on."

-- 3. Do those commands resolve on this machine?
unfoldable pub commands_resolve :
    List CommandCheck → List CommandCheck → List CommandCheck → ReadinessFactor
unfolding show sort_strings distinct
commands_resolve runnable missing off_path =
    if not (some_of runnable)
    then factor "commands-resolve" 0 4 "No commands to resolve."
    else if some_of missing
    then factor "commands-resolve" 0 4 (
        text (
          show (length missing)
          ∷ " declared command(s) name a program that is not installed: "
          ∷ join ", " (
              sort_strings
                (distinct str_eq (map (λ (c : CommandCheck). c.command.program) missing)))
          ∷ ". An agent fails on these immediately."
          ∷ []))
    else if some_of off_path
    then factor "commands-resolve" 2 4 (
        text (
          show (length off_path)
          ∷ " program(s) are installed but not on PATH in this shell. An agent cannot tell that apart from missing, and will try to install what is already there."
          ∷ []))
    else factor "commands-resolve" 4 4 "Every declared command resolves on this machine."

-- 4. Are the declared targets still real?
unfoldable pub commands_current {ℓ} : {S : Type ℓ} → List S → ReadinessFactor
unfolding show
commands_current stale =
    if some_of stale
    then factor "commands-current" 0 3 (
        text (
          show (length stale)
          ∷ " declared command(s) name a script or target this project no longer defines. The program exists, so nothing catches it until the agent runs it."
          ∷ []))
    else factor "commands-current" 3 3 "Declared targets all exist in the project."

-- 5. Does the manifest match what CI enforces?
unfoldable pub matches_ci : List String → ReadinessFactor
unfolding show
matches_ci drift =
    if some_of drift
    then factor "matches-ci" 0 3 (
        text (
          "CI enforces "
          ∷ show (length drift)
          ∷ " gate(s) no manifest mentions. An agent can run everything it was told to, see green, and still be failed by the pull request."
          ∷ []))
    else factor "matches-ci" 3 3 "The manifest covers every gate CI runs."

-- 6. Do the manifests agree with each other?
unfoldable pub manifests_agree {ℓ} : {D : Type ℓ} → List AgentManifest → List D → ReadinessFactor
unfolding show
manifests_agree manifests disagreements =
    if ltb (length manifests) 2
    then factor "manifests-agree" 2 2 "One manifest, so nothing can disagree with it."
    else if some_of disagreements
    then factor "manifests-agree" 0 2 (
        text (
          show (length disagreements)
          ∷ " command(s) appear in one manifest and not another. Which instructions an agent follows depends on its vendor."
          ∷ []))
    else factor "manifests-agree" 2 2 "All manifests declare the same commands."

abbrev pub sum_of : List ℕ → ℕ
sum_of [] = 0
sum_of (n ∷ ns) = n + sum_of ns

-- Of the stale commands and of the disagreements, the score reads how many there are.
unfoldable pub score_readiness {ℓ κ} :
    {S : Type ℓ} {D : Type κ}
    → List AgentManifest
    → List CommandCheck
    → List String
    → List S
    → List D
    → AgentReadiness
unfolding manifest_present commands_declared commands_resolve commands_current matches_ci
    manifests_agree
score_readiness manifests checks drift stale disagreements =
    let runnable = runnable_of checks in
    let factors =
      manifest_present manifests
      ∷ commands_declared runnable
      ∷ commands_resolve runnable (with_status "missing" checks) (with_status "not-on-path" checks)
      ∷ commands_current stale
      ∷ matches_ci drift
      ∷ manifests_agree manifests disagreements
      ∷ [] in
    record {
      total = sum_of (map (λ (f : ReadinessFactor). f.earned) factors);
      possible = sum_of (map (λ (f : ReadinessFactor). f.possible) factors);
      factors = factors;
    }
