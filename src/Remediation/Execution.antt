-- ===== src/Remediation/Execution.antt =====
-- `execute_plan`: what the executor may touch, and what every step of a plan leaves in the results.
use devrepro_doctor.Prelude.{
  ◌≡◌, refl, String, Bool, true, false, not, ◌||◌, Option, List, [], ◌∷◌, ◌++◌, str_eq, str_eq_iff,
  if_ind, if_cases, any, All, arith,
}
use devrepro_doctor.Prelude.Sorting.{All-map}
use devrepro_doctor.Result.{ok, err}
use devrepro_doctor.Remediation.{
  ℤ, Remediation, StepResult, is_automatable_risk, run_commands, preconditions_hold, note,
  execute_step, execute_steps, execute_plan, remediation_refused, no_commands,
}

-- Some result has the id.
abbrev pub is_reported : String → List StepResult → Bool
is_reported id results = any (λ (r : StepResult). str_eq r.id id) results

is_reported-left :
    (id : String) (rs more : List StepResult)
    → is_reported id rs ≡ true
    → is_reported id (rs ++ more) ≡ true
is_reported-left id [] more h = cc h
is_reported-left id (r ∷ rs) more h = ground (arith, is_reported-left id rs more)

is_reported-right :
    (id : String) (rs more : List StepResult)
    → is_reported id more ≡ true
    → is_reported id (rs ++ more) ≡ true
is_reported-right id [] more h = h
is_reported-right id (r ∷ rs) more h = ground (arith, is_reported-right id rs more)

module _ {W : Type 0} (executor : List String → W → ℤ × W)
    (precondition_check : Option (Remediation → W → Bool × W)) where
  -- What the check of a step's preconditions keeps.
  abbrev pub CheckKeeps : (W → Type 0) → Type 0
  CheckKeeps P =
      (s : Remediation) (w : W) → P w → P (preconditions_hold executor precondition_check s w).1

  -- If the step is automatable and SAFE or LOW, its commands keep `P`.
  abbrev pub IsHarmless : (W → Type 0) → Remediation → Type 0
  IsHarmless P s =
      s.automatable ≡ true
      → is_automatable_risk s.risk ≡ true
      → All (λ command. (w : W) → P w → P (executor command w).1) s.commands

  run_commands-keeps :
      (P : W → Type 0) (id : String) (commands : List (List String)) (w : W)
      → All (λ command. (w : W) → P w → P (executor command w).1) commands
      → P w
      → P (run_commands executor precondition_check id commands w).1
  unfolding run_commands
  run_commands-keeps P id [] w hs p = p
  run_commands-keeps P id (c ∷ cs) w hs p =
      run_commands-keeps P id cs (executor c w).1 hs.1 (hs.0 w p)

  execute_step-keeps :
      (P : W → Type 0) (s : Remediation) (w : W)
      → CheckKeeps P
      → IsHarmless P s
      → P w
      → P (execute_step executor precondition_check s w).1
  unfolding execute_step
  execute_step-keeps P s w check harmless p =
      if_cases Kept (not s.automatable || not (is_automatable_risk s.risk)) (λ e. p)
        (λ runs.
          if_ind Kept (not holds.0) p' (finish s.commands (harmless (ground arith) (ground arith))))
    where
      Kept : List StepResult × W → Type 0
      Kept r = P r.1

      holds : Bool × W
      holds = preconditions_hold executor precondition_check s w

      p' : P holds.1
      p' = check s w p

      finish :
          (commands : List (List String))
          → All (λ command. (w : W) → P w → P (executor command w).1) commands
          → Kept (elim commands [
            | [] ↦ (note executor precondition_check s.id no_commands, holds.1)
            | c ∷ cs ↦ run_commands executor precondition_check s.id (c ∷ cs) holds.1
          ])
      finish [] hs = p'
      finish (c ∷ cs) hs = run_commands-keeps P s.id (c ∷ cs) holds.1 hs p'

  execute_steps-keeps :
      (P : W → Type 0) (plan : List Remediation) (w : W)
      → CheckKeeps P
      → All (IsHarmless P) plan
      → P w
      → P (execute_steps executor precondition_check plan w).1
  unfolding execute_steps
  execute_steps-keeps P [] w check hs p = p
  execute_steps-keeps P (s ∷ plan) w check hs p =
      execute_steps-keeps P plan (execute_step executor precondition_check s w).1 check hs.1
        (execute_step-keeps P s w check hs.0 p)

  -- Whatever holds of the machine stays true if the check of the preconditions keeps it and so do the
  -- commands of the steps of the plan that are automatable and SAFE or LOW: nothing else is executed.
  -- Without a confirmation the plan is refused and the machine stays as it is.
  pub execute_plan-keeps :
      (P : W → Type 0) (plan : List Remediation) (w : W) (confirmed : Bool)
      → CheckKeeps P
      → All (IsHarmless P) plan
      → P w
      → P (execute_plan executor precondition_check plan confirmed w).1
        × (execute_plan executor precondition_check plan false w ≡ (err remediation_refused, w))
  unfolding execute_plan
  execute_plan-keeps P plan w true check hs p = (execute_steps-keeps P plan w check hs p, refl)
  execute_plan-keeps P plan w false check hs p = (p, refl)

  is_reported-execute_step :
      (s : Remediation) (w : W)
      → is_reported s.id (execute_step executor precondition_check s w).0 ≡ true
  unfolding execute_step run_commands
  is_reported-execute_step s w = ground (arith, (str_eq_iff s.id s.id).1 refl)

  is_reported-execute_steps :
      (plan : List Remediation) (w : W)
      → All
          (λ (s : Remediation).
            is_reported s.id (execute_steps executor precondition_check plan w).0 ≡ true)
          plan
  unfolding execute_steps
  is_reported-execute_steps [] w = tt
  is_reported-execute_steps (s ∷ plan) w =
      let (results, w') = execute_step executor precondition_check s w in
      let more = (execute_steps executor precondition_check plan w').0 in
      (
        is_reported-left s.id results more (is_reported-execute_step s w),
        All-map (λ r h. is_reported-right r.id results more h) plan
            (is_reported-execute_steps plan w'),
      )

  -- A confirmed plan gives results, in which every step of the plan has an entry with its id, whatever
  -- came of it.
  pub is_reported-execute_plan :
      (plan : List Remediation) (w : W)
      → (results : List StepResult) × ((execute_plan executor precondition_check plan true w).0
          ≡ ok results)
        × All (λ (s : Remediation). is_reported s.id results ≡ true) plan
  unfolding execute_plan
  is_reported-execute_plan plan w =
      ((execute_steps executor precondition_check plan w).0, refl, is_reported-execute_steps plan w)
