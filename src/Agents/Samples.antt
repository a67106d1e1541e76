-- ===== src/Agents/Samples.antt =====
-- A repository with a manifest and one command off the PATH, and a shell with a production profile.
use devrepro_doctor.Prelude.{
  ◌≡◌, refl, String, Bool, true, false, some, List, [], ◌∷◌, map, str_eq, ◌==◌, sort_strings,
}
use devrepro_doctor.Versioning.{Text}
use devrepro_doctor.Versioning.Text.{codes}
use devrepro_doctor.Contract.Git.{RunResult}
use devrepro_doctor.Agents.{
  AgentReadiness, AgentManifest, CommandCheck, percent, grade, score_readiness,
}
use devrepro_doctor.Agents.Points.{score_readiness-full}
use devrepro_doctor.Agents.Radius.{
  Exposure, BlastRadius, looks_like_credential_name, points_at_production,
}
use devrepro_doctor.Agents.Briefing.{assess_blast_radius, highest_severity}
use devrepro_doctor.Agents.Gate.{evaluate_gate}
use devrepro_doctor.Agents.Refusal.{allowed-evaluate_gate, evaluate_gate-assess_blast_radius}

abbrev manifests : List AgentManifest
manifests = record { path = "AGENTS.md" } ∷ []

abbrev make : CommandCheck
make = record { command = record { program = "make" }; status = "not-on-path" }

abbrev readiness : AgentReadiness
readiness = score_readiness {S = String} {D = String} manifests (make ∷ []) [] [] []

abbrev quoted : Text → String
quoted name = "'prod-eu'"

-- Of all programs, only `kubectl` answers.
abbrev answers : List String → RunResult
answers [] = record { is_ok = false; stdout = [] }
answers (program ∷ arguments) = record {
  is_ok = str_eq program "kubectl";
  stdout = codes "prod-eu\n";
}

abbrev nothing : String → Bool
nothing file = false

abbrev shell : List (String × String)
shell = ("HOME", "/root") ∷ ("NODE_ENV", "Production") ∷ ("GH_TOKEN", "t") ∷ []

abbrev radius : List (String × String) → BlastRadius
radius env = assess_blast_radius quoted answers nothing false "." env

abbrev kinds : BlastRadius → List String
kinds r = map (λ (e : Exposure). e.kind) r.exposures

scores : (readiness.total ≡ 15) × (percent readiness ≡ 88) × (grade readiness ≡ "workable")
unfolding score_readiness percent grade
scores = (refl, refl, refl)

names :
    (looks_like_credential_name "NPM_PAT" ≡ true)
    × (looks_like_credential_name "SESSION_ID" ≡ false)
    × (looks_like_credential_name "My-Api-Key" ≡ true)
unfolding looks_like_credential_name
names = (refl, refl, refl)

exposes :
    (kinds (radius shell)
      ≡ "inherited-credentials" ∷ "production-target" ∷ "kubernetes-context" ∷ [])
    × (kinds (radius []) ≡ "kubernetes-context" ∷ [])
    × (highest_severity (radius shell) ≡ "high")
unfolding assess_blast_radius highest_severity sort_strings
exposes = (refl, refl, refl)

score_readiness-full_example : (readiness.total == readiness.possible) ≡ false
score_readiness-full_example =
    score_readiness-full {S = String} {D = String} manifests (make ∷ []) [] [] []

allowed-evaluate_gate_example :
    let verdict = evaluate_gate readiness (some (radius shell)) 60 false in verdict.allowed ≡ true
unfolding score_readiness percent
allowed-evaluate_gate_example = allowed-evaluate_gate readiness (some (radius shell)) 60 false

evaluate_gate-assess_blast_radius_example :
    let verdict = evaluate_gate readiness (some (radius [])) 60 true in verdict.allowed ≡ true
unfolding score_readiness percent points_at_production
evaluate_gate-assess_blast_radius_example =
    evaluate_gate-assess_blast_radius quoted answers nothing false "." [] readiness 60
