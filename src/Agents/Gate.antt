-- ===== src/Agents/Gate.antt =====
-- agents/gate.py: whether an agent's session may start. The threshold is a percentage, so it is not negative.
use devrepro_doctor.Prelude.{
  ℕ, String, Bool, not, ◌&&◌, Option, none, some, List, [], ◌∷◌, ◌++◌, map, filter, take, ltb,
  if◌then◌else◌,
}
use devrepro_doctor.Prelude.Printing.{show, text, join}
use devrepro_doctor.Versioning.Text.{codes}
use devrepro_doctor.Agents.{ReadinessFactor, AgentReadiness, percent, grade, some_of}
use devrepro_doctor.Agents.Radius.{Exposure, BlastRadius, has_part}

pub record GateVerdict : Type 0 where
  pub allowed : Bool
  pub score : ℕ
  pub threshold : ℕ
  pub reasons : List String

abbrev pub or_unknown : String → String
or_unknown String.[] = "unknown"
or_unknown (String.◌∷◌ c s) = String.◌∷◌ c s

-- The factors without all their points.
abbrev pub failing : AgentReadiness → List ReadinessFactor
failing r = filter (λ (f : ReadinessFactor). ltb f.earned f.possible) r.factors

unfoldable pub readiness_reasons : AgentReadiness → ℕ → List String
unfolding percent grade show
readiness_reasons r threshold =
    if ltb (percent r) threshold
    then text (
        "Agent readiness is "
        ∷ show (percent r)
        ∷ "% ("
        ∷ grade r
        ∷ "), below the "
        ∷ show threshold
        ∷ "% threshold. Weakest: "
        ∷ or_unknown (join ", " (take 3 (map (λ (f : ReadinessFactor). f.name) (failing r))))
        ∷ "."
        ∷ [])
      ∷ []
    else []

unfoldable pub is_production : Exposure → Bool
unfolding has_part
is_production e = has_part (codes "production") (codes e.kind)

unfoldable pub production_reasons : Option BlastRadius → Bool → List String
unfolding is_production
production_reasons none block_on_production = []
production_reasons (some radius) block_on_production =
    let production = filter is_production radius.exposures in
    if block_on_production && some_of production
    then text (
        "This shell carries production-adjacent context: "
        ∷ join "; " (take 2 (map (λ (e : Exposure). e.detail) production))
        ∷ ". An agent starting here can reach it."
        ∷ [])
      ∷ []
    else []

unfoldable pub evaluate_gate : AgentReadiness → Option BlastRadius → ℕ → Bool → GateVerdict
unfolding readiness_reasons production_reasons
evaluate_gate readiness blast_radius threshold block_on_production =
    let reasons =
      readiness_reasons readiness threshold
      ++ production_reasons blast_radius block_on_production in
    record {
      allowed = not (some_of reasons);
      score = percent readiness;
      threshold = threshold;
      reasons = reasons;
    }
