-- ===== src/Rules.antt =====
-- rules/base.py: `check_version_requirement`, the logic that the rules on tools share. How Python quotes
-- a text is the parameter `repr`.
pub mod Verdict
pub mod Engine
pub mod Reporting
mod Samples
use Prim.Native.String.{◌++◌ as str_append}
use devrepro_doctor.Prelude.{
  String, Bool, true, false, Option, none, some, List, [], ◌∷◌, ◌++◌, if◌then◌else◌,
}
use devrepro_doctor.Remediation.{FindingState, pass, error, unknown}
use devrepro_doctor.Versioning.{Version, satisfied_by}
use devrepro_doctor.Versioning.Text.{codes}
use devrepro_doctor.Versioning.Parse.{◌>>=◌, parse_version}
use devrepro_doctor.Versioning.Spec.{parse_spec}

-- The evidence is the excerpt of its one item.
pub record Finding : Type 0 where
  pub rule_id : String
  pub state : FindingState
  pub summary : String
  pub evidence : String
  pub detected : Option String
  pub required : Option String
  pub component : Option String
  pub remediation_hint : Option String
  pub references : List String

pub record Active : Type 0 where
  pub name : String
  pub version : Option String

-- `None` where no tool is active, or where its version is missing or empty.
abbrev pub version_of : Option Active → Option String
version_of none = none
version_of (some tool) = elim tool.version [
  | none ↦ none
  | some String.[] ↦ none
  | some (String.◌∷◌ c s) ↦ some (String.◌∷◌ c s)
]

-- The body of the `try`: `none` where one of the texts raises ValueError.
unfoldable pub range_check : String → String → Option (Version × Bool)
unfolding parse_version parse_spec satisfied_by
range_check version required_spec = do
  v ← parse_version (codes version)
  spec ← parse_spec (codes required_spec)
  some (v, satisfied_by spec v)

abbrev pub or_text : String → String → String
or_text String.[] default = default
or_text (String.◌∷◌ c s) default = String.◌∷◌ c s

abbrev pub three : String → String → String → String
three a b c = str_append a (str_append b c)

module _ (repr : String → String)
    (rule_prefix tool_name required_spec source evidence_excerpt : String) where
  abbrev pub evidence : String
  evidence = or_text evidence_excerpt (str_append tool_name " version check")

  abbrev pub missing_finding : FindingState → Finding
  missing_finding missing_state = record {
    rule_id = str_append rule_prefix "/missing";
    state = missing_state;
    summary = three "Required tool '" tool_name (three "' (" required_spec ") not found on PATH.");
    evidence = evidence;
    detected = none;
    required = some required_spec;
    component = some tool_name;
    remediation_hint = some (
        three "Install " tool_name
          (three " " required_spec " via your preferred package manager or version manager."));
    references = str_append "declared in " source ∷ [];
  }

  abbrev pub unparseable_finding : String → Finding
  unparseable_finding version = record {
    rule_id = str_append rule_prefix "/version-unparseable";
    state = unknown;
    summary =
        three "Could not parse " tool_name
          (three " version " (repr version) (three " against " (repr required_spec) "."));
    evidence = evidence;
    detected = some version;
    required = some required_spec;
    component = some tool_name;
    remediation_hint = none;
    references = [];
  }

  abbrev pub known_bad_finding : String → String → Finding
  known_bad_finding version bad_spec = record {
    rule_id = str_append rule_prefix "/known-bad-version";
    state = error;
    summary =
        three tool_name " "
          (three version " matches a known-bad range (" (str_append bad_spec ")."));
    evidence = evidence;
    detected = some version;
    required = some (str_append "not " bad_spec);
    component = some tool_name;
    remediation_hint = some (three "Upgrade " tool_name " outside the known-bad range.");
    references = three "policy known_bad_versions[" tool_name "]" ∷ [];
  }

  abbrev pub range_finding : String → Bool → Finding
  range_finding version true = record {
    rule_id = str_append rule_prefix "/version-ok";
    state = pass;
    summary = three tool_name " " (three version " satisfies " (str_append required_spec "."));
    evidence = evidence;
    detected = some version;
    required = some required_spec;
    component = some tool_name;
    remediation_hint = none;
    references = [];
  }
  range_finding version false = record {
    rule_id = str_append rule_prefix "/version-mismatch";
    state = error;
    summary =
        three tool_name " "
          (three version " does not satisfy required range " (str_append required_spec "."));
    evidence = evidence;
    detected = some version;
    required = some required_spec;
    component = some tool_name;
    remediation_hint = some (
        three "Install a " tool_name (
          three " version within " required_spec
            " (use a version manager to avoid disturbing other projects)."));
    references = str_append "declared in " source ∷ [];
  }

  -- The loop over the known-bad ranges: the first that matches ends it, one that does not parse is passed
  -- over.
  unfoldable pub known_bad_findings : String → Version → List String → List Finding
  known_bad_findings version v [] = []
  known_bad_findings version v (bad_spec ∷ known_bad) =
      let rest = known_bad_findings version v known_bad in
      elim (parse_spec (codes bad_spec)) [
        | none ↦ rest
        | some spec ↦ if satisfied_by spec v then known_bad_finding version bad_spec ∷ [] else rest
      ]

  unfoldable pub check_version_requirement :
      Option Active → List String → FindingState → List Finding
  unfolding range_check known_bad_findings
  check_version_requirement active known_bad missing_state = elim (version_of active) [
    | none ↦ missing_finding missing_state ∷ []
    | some version ↦ elim (range_check version required_spec) [
      | none ↦ unparseable_finding version ∷ []
      | some (v, in_range) ↦
          known_bad_findings version v known_bad ++ range_finding version in_range ∷ []
    ]
  ]
