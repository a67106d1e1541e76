-- ===== src/Remediation/Samples.antt =====
-- Findings of a machine without the required node, a plan with commands, and an executor that records
-- what it ran.
use devrepro_doctor.Prelude.{
  ℕ, suc, ◌≡◌, refl, String, Bool, true, false, none, some, List, [], ◌∷◌, ◌++◌, map, str_eq,
  if◌then◌else◌,
}
use devrepro_doctor.Result.{ok, err}
use devrepro_doctor.Remediation.{
  ℤ, pos, Finding, FindingState, RiskLevel, Remediation, StepResult, executed, skipped_manual,
  failed, build_plan, execute_plan, remediation_refused, step,
}
use devrepro_doctor.Remediation.Plan.{IsPlan, build_plan-IsPlan}
use devrepro_doctor.Remediation.Execution.{execute_plan-keeps}
use devrepro_doctor.Remediation.Unrun.{execute_plan-build_plan}

abbrev no_node : Finding
no_node = record {
  rule_id = "node/missing";
  state = FindingState.error;
  required = some ">=20";
  component = some "node";
}

abbrev doubled_path : Finding
doubled_path = record {
  rule_id = "path/duplicates";
  state = FindingState.warn;
  required = none;
  component = none;
}

abbrev skewed_clock : Finding
skewed_clock = record {
  rule_id = "network/clock-skew";
  state = FindingState.pass;
  required = none;
  component = none;
}

abbrev findings : List Finding
findings = no_node ∷ doubled_path ∷ no_node ∷ skewed_clock ∷ []

abbrev ids : List Remediation → List String
ids plan = map (λ (s : Remediation). s.id) plan

plan_ids : ids (build_plan findings) ≡ "rem/path-remove-duplicates" ∷ "rem/install-node" ∷ []
unfolding build_plan
plan_ids = refl

-- A plan by hand: an automatable step of two commands, and a manual one.
abbrev flush : Remediation
flush = record (step "rem/flush" "Flush" RiskLevel.low "p" "c" "r" true "x") {
  commands = ("a" ∷ []) ∷ ("b" ∷ []) ∷ [];
}

abbrev wipe : Remediation
wipe = record (step "rem/wipe" "Wipe" RiskLevel.high "p" "c" "r" true "x") {
  commands = ("wipe" ∷ []) ∷ [];
}

abbrev is_command : String → List String → Bool
is_command name [] = false
is_command name (word ∷ words) = str_eq name word

-- The machine is the list of the commands run; every command but `a` fails.
abbrev recorder : List String → List (List String) → ℤ × List (List String)
recorder command log = (if is_command "a" command then pos 0 else pos 2, log ++ command ∷ [])

runs : execute_plan recorder none (flush ∷ wipe ∷ []) true [] ≡ (
  ok (
      record { id = "rem/flush"; status = executed; command = some ("a" ∷ []) }
      ∷ record { id = "rem/flush"; status = failed (pos 2); command = some ("b" ∷ []) }
      ∷ record { id = "rem/wipe"; status = skipped_manual; command = none }
      ∷ []),
  ("a" ∷ []) ∷ ("b" ∷ []) ∷ [],
)
unfolding execute_plan
runs = refl

build_plan-IsPlan_example : IsPlan findings (build_plan findings)
build_plan-IsPlan_example = build_plan-IsPlan findings

abbrev path_step : Remediation
path_step =
    step "rem/path-remove-duplicates" "Remove duplicate PATH entries" RiskLevel.safe
      "No running installer is modifying PATH"
      "Rewrite the user PATH variable keeping the first occurrence of each entry, preserving order."
      "Restore PATH from the backup file written next to the change log." true "path/duplicates"

-- The machine counts the commands that wipe it.
abbrev counter : List String → ℕ → ℤ × ℕ
counter command wiped = (pos 0, if is_command "wipe" command then suc wiped else wiped)

abbrev is_small : Remediation → ℕ → Bool × ℕ
is_small s wiped = (true, wiped)

abbrev NeverWiped : ℕ → Type 0
NeverWiped wiped = wiped ≡ 0

execute_plan-keeps_example :
    NeverWiped (execute_plan counter (some is_small) (flush ∷ wipe ∷ []) true 0).1
    × (execute_plan counter (some is_small) (flush ∷ wipe ∷ []) false 0
        ≡ (err remediation_refused, 0))
execute_plan-keeps_example =
    execute_plan-keeps counter (some is_small) NeverWiped (flush ∷ wipe ∷ []) 0 true (λ s w h. h)
      ((λ a b. ((λ w h. h), ((λ w h. h), tt))), ((λ a b. cc b), tt)) refl

execute_plan-build_plan_example :
    (results : List StepResult) × (log : List (List String)) × (execute_plan recorder none
        (build_plan findings)
        true
        []
      ≡ (ok results, log))
    × (execute_plan (λ command log. (pos 0, [])) none (build_plan findings) true []
        ≡ (ok results, log))
    × (map (λ (r : StepResult). r.id) results ≡ ids (build_plan findings))
execute_plan-build_plan_example =
    execute_plan-build_plan none recorder (λ command log. (pos 0, [])) findings []
