-- ===== src/Baselines/Samples.antt =====
-- A baseline that asks for node, a token and docker, and a machine that lacks the token.
use devrepro_doctor.Prelude.{
  ℕ, ◌≡◌, ◌≤◌, ◌↔◌, Bool, All, refl, String, true, List, [], ◌∷◌, map, contains,
}
use devrepro_doctor.Versioning.{satisfied_by}
use devrepro_doctor.Versioning.Text.{split_at}
use devrepro_doctor.Baselines.{
  Baseline, BaselineDiffEntry, BaselineDiff, blockers, warnings, diff_against_baseline,
}
use devrepro_doctor.Baselines.Met.{HasTool, diff_against_baseline_iff}

abbrev approved : Baseline
approved = record {
  baseline_id = "b1";
  tools = ("node", ">=20") ∷ ("go", "1.22.0") ∷ [];
  required_env_names = "TOKEN" ∷ [];
  require_docker = true;
  max_path_duplicates = 1;
}

abbrev machine_tools : List (String × String)
machine_tools = ("node", "20.11.0") ∷ ("go", "1.22.0") ∷ []

abbrev against : List String → ℕ → BaselineDiff
against names duplicates = diff_against_baseline approved machine_tools names true duplicates

abbrev named : List BaselineDiffEntry → List String
named es = map (λ (e : BaselineDiffEntry). e.name) es

finds :
    (named (blockers (against [] 3)) ≡ "TOKEN" ∷ [])
    × (named (warnings (against [] 3)) ≡ "duplicates" ∷ [])
unfolding diff_against_baseline split_at satisfied_by
finds = (refl, refl)

-- A range that cannot be read is met by its own text.
unread :
    blockers (
      diff_against_baseline
        (record approved { tools = ("node", "lts/*") ∷ []; required_env_names = [] })
        (("node", "lts/*") ∷ [])
        []
        true
        0)
    ≡ []
unfolding diff_against_baseline split_at satisfied_by
unread = refl

diff_against_baseline_iff_example :
    ((blockers (against ("TOKEN" ∷ []) 0) ≡ []) ↔ (
      All (HasTool machine_tools) approved.tools
      × All (λ name. contains name ("TOKEN" ∷ []) ≡ true) ("TOKEN" ∷ [])
      × (◌≡◌ {A = Bool} true true)))
    × ((warnings (against ("TOKEN" ∷ []) 0) ≡ []) ↔ (0 ≤ 1))
diff_against_baseline_iff_example =
    diff_against_baseline_iff approved machine_tools ("TOKEN" ∷ []) true 0
