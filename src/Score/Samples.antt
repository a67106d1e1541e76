-- ===== src/Score/Samples.antt =====
-- A project with a runtime and a lock file, and then with a devcontainer too.
use devrepro_doctor.Prelude.{◌≤◌, ◌≡◌, refl, String, Bool, none, some, List, [], ◌∷◌, str_eq}
use devrepro_doctor.Score.{ProjectRequirement, ReproducibilityScore, compute_score}
use devrepro_doctor.Score.Growth.{compute_score-grows}

abbrev python : ProjectRequirement
python = record {
  ecosystem = "python";
  name = "python";
  kind = "runtime";
  source_file = ".python-version";
  note = none;
}

abbrev lock : ProjectRequirement
lock = record {
  ecosystem = "python";
  name = "uv.lock";
  kind = "tool";
  source_file = "uv.lock";
  note = some "lockfile present";
}

abbrev devcontainer : ProjectRequirement
devcontainer = record {
  ecosystem = "container";
  name = "devcontainer";
  kind = "tool";
  source_file = "devcontainer.json";
  note = none;
}

abbrev is_file : String → Bool
is_file name = str_eq name ".python-version"

abbrev score : List ProjectRequirement → ReproducibilityScore
score rs = compute_score is_file rs

abbrev two : List ProjectRequirement
two = python ∷ lock ∷ []

totals : (let s = score two in s.total ≡ 5) × (let s = score (devcontainer ∷ two) in s.total ≡ 6)
unfolding compute_score
totals = (refl, refl)

compute_score-grows_example :
    let before = score two in let after = score (devcontainer ∷ two) in before.total ≤ after.total
compute_score-grows_example = compute_score-grows is_file devcontainer two
