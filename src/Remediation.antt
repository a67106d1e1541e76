-- ===== src/Remediation.antt =====
-- remediation/planner.py: the plan that findings lead to, and its execution. The executor and the
-- check of the preconditions are the caller's and act on a machine of their own: they are parameters
-- that take the machine's state and return the new one.

pub mod Plan
pub mod Covering
pub mod Execution
pub mod Unrun
mod Samples
use Prim.Native.String.{◌++◌ as str_append}
use devrepro_doctor.Prelude.{
  ℕ, zero, suc, String, Bool, true, false, not, ◌&&◌, ◌||◌, Option, none, some, List, [], ◌∷◌, ◌++◌,
  str_eq, leb, if◌then◌else◌, any, sort,
}
use devrepro_doctor.Result.{Result, ok, err}
use text.Mathlib.Text.{starts_with}

-- A return code.
pub data ℤ : Type 0 where
  pos negsuc : ℕ → ℤ

-- core/models.py
pub data FindingState : Type 0 where
  pass info warn error blocked unknown : FindingState

pub data RiskLevel : Type 0 where
  safe low medium high : RiskLevel

pub record Finding : Type 0 where
  pub rule_id : String
  pub state : FindingState
  pub required : Option String
  pub component : Option String

pub record Remediation : Type 0 where
  pub id : String
  pub title : String
  pub risk : RiskLevel
  pub preconditions : List String
  pub changes : List String
  pub rollback : String
  pub automatable : Bool
  pub finding_ids : List String
  pub commands : List (List String)

abbrev pub ends_with : String → String → Bool
ends_with String.[] suffix = str_eq String.[] suffix
ends_with (String.◌∷◌ c s) suffix = str_eq (String.◌∷◌ c s) suffix || ends_with s suffix

-- `text or default`, where a missing text and the empty one are both falsy.
abbrev pub or_default : Option String → String → String
or_default none default = default
or_default (some String.[]) default = default
or_default (some (String.◌∷◌ c s)) default = String.◌∷◌ c s

-- A step as the planner makes it: for one finding, with one precondition and one change, no commands.
abbrev pub step :
    String → String → RiskLevel → String → String → String → Bool → String → Remediation
step id title risk precondition change rollback automatable rule_id = record {
  id = id;
  title = title;
  risk = risk;
  preconditions = precondition ∷ [];
  changes = change ∷ [];
  rollback = rollback;
  automatable = automatable;
  finding_ids = rule_id ∷ [];
  commands = [];
}

abbrev pub install_step : String → String → String → Remediation
install_step rule_id tool required =
    step (str_append "rem/install-" tool)
      (str_append "Install/align " (str_append tool " to required range")) medium
      (str_append "A package source for " (str_append tool " is reachable"))
      (str_append "Install " (
        str_append tool (
          str_append " within range " (
            str_append required
              " using a version manager where available (pyenv/nvm/rustup/sdkman). DevRepro prints the commands; it does not run installs automatically."))))
      "Version managers allow `switch` back to the previous version; system-wide installs must be rolled back manually."
      false rule_id

-- The step for a finding that is neither passed nor a remark, by the rule that made it.
unfoldable pub step_for : Finding → Option Remediation
step_for f =
    if str_eq f.rule_id "path/duplicates"
    then some (
        step "rem/path-remove-duplicates" "Remove duplicate PATH entries" safe
          "No running installer is modifying PATH"
          "Rewrite the user PATH variable keeping the first occurrence of each entry, preserving order."
          "Restore PATH from the backup file written next to the change log." true f.rule_id)
    else if str_eq f.rule_id "path/dead-entries"
    then some (
        step "rem/path-remove-dead" "Remove dead PATH entries" low
          "Entry does not exist on disk (verified at execution time)"
          "Remove PATH entries whose directories no longer exist."
          "Restore PATH from the backup file written next to the change log." true f.rule_id)
    else if ends_with f.rule_id "/version-mismatch" || ends_with f.rule_id "/missing"
    then some
        (install_step f.rule_id (or_default f.component "tool") (or_default f.required "declared"))
    else if starts_with f.rule_id "containers/docker-daemon"
    then some (
        step "rem/start-docker-daemon" "Start the Docker daemon" safe
          "Docker Desktop installed or docker.service present"
          "Start Docker Desktop (Windows/macOS) or systemctl start docker (Linux)."
          "Stop the daemon again (`systemctl stop docker` / quit Docker Desktop)." false f.rule_id)
    else if str_eq f.rule_id "wsl/no-default-distro"
    then some (
        step "rem/wsl-set-default" "Set the default WSL distro" safe
          "At least one WSL distro registered"
          "Run `wsl --set-default <distro>` for the first registered distro."
          "Run `wsl --set-default <previous>` (recorded in the change log)." true f.rule_id)
    else if str_eq f.rule_id "network/clock-skew"
    then some (
        step "rem/enable-time-sync" "Enable automatic time synchronization" low
          "Time service available (w32time/timedatectl)"
          "Enable NTP sync via OS settings; never touches TLS configuration."
          "Disable automatic time sync again via OS settings." false f.rule_id)
    else none

abbrev pub is_settled : FindingState → Bool
is_settled pass = true
is_settled info = true
is_settled _ = false

-- One turn of the loop over the findings; `seen` holds the ids of the plan.
unfoldable pub add_step : List Remediation → List String → Finding → List Remediation × List String
unfolding step_for
add_step plan seen f = if is_settled f.state then (plan, seen) else elim (step_for f) [
  | none ↦ (plan, seen)
  | some s ↦ if any (λ i. str_eq i s.id) seen then (plan, seen) else (plan ++ s ∷ [], s.id ∷ seen)
]

unfoldable pub add_steps : List Remediation → List String → List Finding → List Remediation
unfolding add_step
add_steps plan seen [] = plan
add_steps plan seen (f ∷ findings) =
    let next = add_step plan seen f in add_steps next.0 next.1 findings

abbrev pub rank : RiskLevel → ℕ
rank safe = 0
rank low = 1
rank medium = 2
rank high = 3

unfoldable pub build_plan : List Finding → List Remediation
unfolding add_steps sort
build_plan findings =
    sort (λ (a b : Remediation). leb (rank a.risk) (rank b.risk)) (add_steps [] [] findings)

-- `AUTOMATABLE_RISKS`
abbrev pub is_automatable_risk : RiskLevel → Bool
is_automatable_risk safe = true
is_automatable_risk low = true
is_automatable_risk _ = false

-- The results, each a dictionary in the source: the return code of a command, or why none was run.
pub data Status : Type 0 where
  executed skipped_manual skipped_preconditions no_commands : Status
  failed : ℤ → Status

pub record StepResult : Type 0 where
  pub id : String
  pub status : Status
  pub command : Option (List String)

pub data RemediationError : Type 0 where
  remediation_refused : RemediationError

-- `"executed" if rc == 0 else f"failed(rc={rc})"`
abbrev pub status_of : ℤ → Status
status_of (pos zero) = executed
status_of (pos (suc n)) = failed (pos (suc n))
status_of (negsuc n) = failed (negsuc n)

module _ {W : Type 0} (executor : List String → W → ℤ × W)
    (precondition_check : Option (Remediation → W → Bool × W)) where
  unfoldable pub run_commands : String → List (List String) → W → List StepResult × W
  run_commands id [] w = ([], w)
  run_commands id (command ∷ commands) w =
      let (rc, w') = executor command w in
      let (results, w'') = run_commands id commands w' in
      (record { id = id; status = status_of rc; command = some command } ∷ results, w'')

  abbrev pub note : String → Status → List StepResult
  note id status = record { id = id; status = status; command = none } ∷ []

  -- `precondition_check is None or precondition_check(step)`
  abbrev pub preconditions_hold : Remediation → W → Bool × W
  preconditions_hold s w = elim precondition_check [ none ↦ (true, w) | some check ↦ check s w ]

  -- The body of the loop for one step.
  unfoldable pub execute_step : Remediation → W → List StepResult × W
  unfolding run_commands
  execute_step s w =
      if not s.automatable || not (is_automatable_risk s.risk)
      then (note s.id skipped_manual, w)
      else let (holds, w') = preconditions_hold s w in
        if not holds then (note s.id skipped_preconditions, w') else elim s.commands [
          | [] ↦ (note s.id no_commands, w')
          | c ∷ cs ↦ run_commands s.id (c ∷ cs) w'
        ]

  unfoldable pub execute_steps : List Remediation → W → List StepResult × W
  unfolding execute_step
  execute_steps [] w = ([], w)
  execute_steps (s ∷ plan) w =
      let (results, w') = execute_step s w in
      let (more, w'') = execute_steps plan w' in (results ++ more, w'')

  unfoldable pub execute_plan :
      List Remediation → Bool → W → Result RemediationError (List StepResult) × W
  unfolding execute_steps
  execute_plan plan confirmed w =
      if not confirmed
      then (err remediation_refused, w)
      else let (results, w') = execute_steps plan w in (ok results, w')
