-- ===== src/Baselines.antt =====
-- snapshots/baseline.py: a machine against the baseline of a project. The baseline's id, a hash, is a field.
pub mod Approval
pub mod Met
mod Samples
use devrepro_doctor.Prelude.{
  ℕ, String, Bool, true, false, not, ◌&&◌, ◌||◌, Option, none, some, List, [], ◌∷◌, ◌++◌, map,
  filter, ltb, str_eq, str_leb, if◌then◌else◌, lookup, contains, sort,
}
use devrepro_doctor.Prelude.Printing.{show, text}
use devrepro_doctor.Versioning.{satisfied_by}
use devrepro_doctor.Versioning.Text.{codes}
use devrepro_doctor.Versioning.Parse.{parse_version}
use devrepro_doctor.Versioning.Spec.{parse_spec}

pub record Baseline : Type 0 where
  pub baseline_id : String
  pub tools : List (String × String)
  pub required_env_names : List String
  pub require_docker : Bool
  pub max_path_duplicates : ℕ

pub record BaselineDiffEntry : Type 0 where
  pub component : String
  pub name : String
  pub severity : String
  pub project_impact : String
  pub expected : String
  pub actual : String

pub record BaselineDiff : Type 0 where
  pub baseline_id : String
  pub entries : List BaselineDiffEntry

abbrev pub with_severity : String → BaselineDiff → List BaselineDiffEntry
with_severity severity d = filter (λ (e : BaselineDiffEntry). str_eq e.severity severity) d.entries

abbrev pub blockers : BaselineDiff → List BaselineDiffEntry
blockers d = with_severity "blocker" d

abbrev pub warnings : BaselineDiff → List BaselineDiffEntry
warnings d = with_severity "warn" d

abbrev pub entry : String → String → String → String → String → String → BaselineDiffEntry
entry component name severity impact expected actual = record {
  component = component;
  name = name;
  severity = severity;
  project_impact = impact;
  expected = expected;
  actual = actual;
}

abbrev pub severity_of : Bool → String
severity_of ok = if ok then "ok" else "blocker"

-- The version is in the range; where one of them does not parse, the texts are compared.
unfoldable pub is_satisfied : String → String → Bool
unfolding parse_spec parse_version
is_satisfied spec actual = elim (parse_spec (codes spec)) [
  | none ↦ str_eq actual spec
  | some range ↦ elim (parse_version (codes actual)) [
    | none ↦ str_eq actual spec
    | some v ↦ satisfied_by range v
  ]
]

-- One turn of the loop over the tools.
unfoldable pub required_tool_entry : String → String → Option String → BaselineDiffEntry
unfolding is_satisfied
required_tool_entry tool spec none =
    entry "tool" tool "blocker"
      (text ("project requires " ∷ tool ∷ " " ∷ spec ∷ "; not found on this machine" ∷ [])) spec
      "absent"
required_tool_entry tool spec (some actual) =
    let ok = is_satisfied spec actual in
    entry "tool" tool (severity_of ok)
      (text (
        tool
        ∷ " "
        ∷ actual
        ∷ (if ok then " satisfies " else " does not satisfy required ")
        ∷ spec
        ∷ []))
      spec actual

-- `sorted` of the items of a dictionary.
abbrev pub item_leb : String × String → String × String → Bool
item_leb a b = if str_eq a.0 b.0 then str_leb a.1 b.1 else str_leb a.0 b.0

unfoldable pub env_entry : List String → String → BaselineDiffEntry
env_entry machine_env_names name =
    let present = contains name machine_env_names in
    entry "env" name (severity_of present)
      (if present
        then text ("required env var " ∷ name ∷ " is declared" ∷ [])
        else text ("required env var " ∷ name ∷ " is missing (value never inspected)" ∷ []))
      "declared" (if present then "declared" else "missing")

unfoldable pub docker_entries : Bool → Bool → List BaselineDiffEntry
docker_entries require_docker docker_available =
    if require_docker
    then entry "docker" "daemon" (severity_of docker_available)
        (if docker_available
          then "docker daemon reachable"
          else "project baseline requires docker; daemon not reachable")
        "available" (if docker_available then "available" else "unavailable")
      ∷ []
    else []

unfoldable pub duplicates_entries : ℕ → ℕ → List BaselineDiffEntry
unfolding show
duplicates_entries max_path_duplicates path_duplicates =
    if ltb max_path_duplicates path_duplicates
    then entry "path" "duplicates" "warn"
        (text (
          show path_duplicates
          ∷ " duplicate PATH entries exceed baseline maximum of "
          ∷ show max_path_duplicates
          ∷ []))
        (show max_path_duplicates) (show path_duplicates)
      ∷ []
    else []

unfoldable pub diff_against_baseline :
    Baseline → List (String × String) → List String → Bool → ℕ → BaselineDiff
unfolding required_tool_entry env_entry docker_entries duplicates_entries sort
diff_against_baseline baseline machine_tools machine_env_names docker_available path_duplicates =
    record {
      baseline_id = baseline.baseline_id;
      entries =
          map (λ (t : String × String). required_tool_entry t.0 t.1 (lookup t.0 machine_tools))
            (sort item_leb baseline.tools)
          ++ (map (env_entry machine_env_names) baseline.required_env_names
              ++ (docker_entries baseline.require_docker docker_available
                  ++ duplicates_entries baseline.max_path_duplicates path_duplicates));
    }
