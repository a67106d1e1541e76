-- ===== src/Rules/Samples.antt =====
-- An active node 20.11.0, against a range it satisfies and a known-bad range it lies in.
use devrepro_doctor.Prelude.{
  ◌≡◌, ◌↔◌, refl, String, not, ◌||◌, Option, none, some, List, [], ◌∷◌, any, map,
}
use devrepro_doctor.Remediation.{FindingState, pass, error, unknown, blocked}
use devrepro_doctor.Versioning.{SpecSet, Op, satisfied_by}
use devrepro_doctor.Versioning.Text.{split_at}
use devrepro_doctor.Versioning.Parse.{release, clause, parse_version}
use devrepro_doctor.Versioning.Spec.{parse_spec}
use devrepro_doctor.Result.{ok, err}
use devrepro_doctor.Rules.Engine.{PackFunc, Packs, register, evaluate}
use devrepro_doctor.Rules.Reporting.{Occurs, IsReported, evaluate_iff}
use devrepro_doctor.Rules.{Finding, Active, check_version_requirement}
use devrepro_doctor.Rules.Verdict.{is_pass, is_error, lies_in, check_version_requirement-reports}

abbrev node : Active
node = record { name = "node"; version = some "20.11.0" }

abbrev quoted : String → String
quoted s = s

abbrev at_least_20 : SpecSet
at_least_20 = record { groups = (clause Op.ge (release (20 ∷ 0 ∷ 0 ∷ [])) ∷ []) ∷ [] }

abbrev check : Option Active → String → List String → List Finding
check active spec known_bad =
    check_version_requirement quoted "node" "node" spec "policy" "" active known_bad blocked

abbrev states : List Finding → List FindingState
states fs = map (λ (f : Finding). f.state) fs

runs :
    (states (check (some node) ">=20" ("=20.11.0" ∷ [])) ≡ error ∷ pass ∷ [])
    × (states (check (some node) ">=22" (">=" ∷ [])) ≡ error ∷ [])
    × (states (check none ">=22" []) ≡ blocked ∷ [])
    × (states (check (some node) "any" []) ≡ unknown ∷ [])
unfolding check_version_requirement split_at
runs = (refl, refl, refl, refl)

check_version_requirement-reports_example :
    (findings : List Finding) × (check (some node) ">=20" ("=20.11.0" ∷ []) ≡ findings)
    × (any is_pass findings ≡ satisfied_by at_least_20 (release (20 ∷ 11 ∷ 0 ∷ [])))
    × (any is_error findings ≡ (
        not (satisfied_by at_least_20 (release (20 ∷ 11 ∷ 0 ∷ [])))
        || any (lies_in (release (20 ∷ 11 ∷ 0 ∷ []))) ("=20.11.0" ∷ [])))
unfolding parse_version parse_spec split_at
check_version_requirement-reports_example =
    check_version_requirement-reports quoted "node" "node" ">=20" "policy" "" node ("=20.11.0" ∷ [])
      blocked "20.11.0" (release (20 ∷ 11 ∷ 0 ∷ [])) at_least_20 refl refl refl

-- Three packs, of which one raises.
abbrev finding : String → Finding
finding name = record {
  rule_id = name;
  state = pass;
  summary = name;
  evidence = "";
  detected = none;
  required = none;
  component = none;
  remediation_hint = none;
  references = [];
}

abbrev works : String → PackFunc String
works name ctx = ok (finding name ∷ [])

abbrev raises : PackFunc String
raises ctx = err (record { type_name = "KeyError"; message = "'x'" })

abbrev two_packs : Packs String
two_packs = ("node", works "node") ∷ ("go", works "go") ∷ []

abbrev rule_ids : List Finding → List String
rule_ids fs = map (λ (f : Finding). f.rule_id) fs

runs_all :
    (rule_ids (evaluate (register "java" raises two_packs) "ctx" none)
      ≡ "go" ∷ "rulepack/java/failed" ∷ "node" ∷ [])
    × (rule_ids (evaluate two_packs "ctx" (some ("php" ∷ "go" ∷ []))) ≡ "go" ∷ [])
unfolding evaluate register
runs_all = (refl, refl)

evaluate_iff_example :
    Occurs (finding "go") (evaluate (register "java" raises two_packs) "ctx" none)
    ↔ IsReported (register "java" raises two_packs) "ctx" none (finding "go")
evaluate_iff_example = evaluate_iff (register "java" raises two_packs) "ctx" none (finding "go")
