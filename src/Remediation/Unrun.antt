-- ===== src/Remediation/Unrun.antt =====
-- `execute_plan` on the plans that `build_plan` makes.
use devrepro_doctor.Prelude.{
  ◌≡◌, refl, ap, String, Bool, true, false, not, ◌||◌, Option, none, some, List, [], ◌∷◌, All, map,
  if◌then◌else◌,
}
use devrepro_doctor.Result.{ok}
use devrepro_doctor.Remediation.{
  note, ℤ, Finding, Remediation, StepResult, execute_step, execute_steps, execute_plan, build_plan,
  is_automatable_risk, skipped_manual, skipped_preconditions, no_commands,
}
use devrepro_doctor.Remediation.Plan.{IsRestrained, build_plan-IsPlan}

module _ {W : Type 0} (precondition_check : Option (Remediation → W → Bool × W)) where
  abbrev is_manual : Remediation → Bool
  is_manual s = not s.automatable || not (is_automatable_risk s.risk)

  abbrev checked : Remediation → W → Bool × W
  checked s w = elim precondition_check [ none ↦ (true, w) | some check ↦ check s w ]

  -- The result of a step without commands: nothing of it depends on the executor.
  abbrev idle_step : Remediation → W → StepResult × W
  idle_step s w =
      let status =
        if is_manual s
        then skipped_manual
        else if not (checked s w).0
        then skipped_preconditions
        else no_commands in
      (
        record { id = s.id; status = status; command = none },
        if is_manual s then w else (checked s w).1,
      )

  abbrev idle_steps : List Remediation → W → List StepResult × W
  idle_steps [] w = ([], w)
  idle_steps (s ∷ plan) w =
      let (r, w') = idle_step s w in let (more, w'') = idle_steps plan w' in (r ∷ more, w'')

  ids-idle_steps :
      (plan : List Remediation) (w : W)
      → map (λ (r : StepResult). r.id) (idle_steps plan w).0 ≡ map (λ (s : Remediation). s.id) plan
  ids-idle_steps [] w = refl
  ids-idle_steps (s ∷ plan) w = ap (λ ids. s.id ∷ ids) (ids-idle_steps plan (idle_step s w).1)

  module _ (executor : List String → W → ℤ × W) where
    execute_step-idle :
        (s : Remediation) (w : W)
        → s.commands ≡ []
        → execute_step executor precondition_check s w ≡ ((idle_step s w).0 ∷ [], (idle_step s w).1)
    unfolding execute_step
    execute_step-idle s w idle = simp idle (by_cases (is_manual s) (not (checked s w).0))
      where
        by_cases :
            (manual refused : Bool)
            → ◌≡◌ {A = List StepResult × W}
                (if manual
                  then (note executor precondition_check s.id skipped_manual, w)
                  else if refused
                  then (
                    note executor precondition_check s.id skipped_preconditions,
                    (checked s w).1,
                  )
                  else (note executor precondition_check s.id no_commands, (checked s w).1))
                (
                  record {
                    id = s.id;
                    status =
                        if manual
                        then skipped_manual
                        else if refused
                        then skipped_preconditions
                        else no_commands;
                    command = none;
                  }
                      ∷ [],
                  if manual then w else (checked s w).1,
                )
        by_cases true refused = refl
        by_cases false true = refl
        by_cases false false = refl

    execute_steps-idle :
        (plan : List Remediation) (w : W)
        → All IsRestrained plan
        → execute_steps executor precondition_check plan w ≡ idle_steps plan w
    unfolding execute_steps
    execute_steps-idle [] w hs = refl
    execute_steps-idle (s ∷ plan) w hs =
        rw (execute_step-idle s w (hs.0.idle), execute_steps-idle plan (idle_step s w).1 hs.1)

  -- A confirmed plan that `build_plan` made gives the same results and leaves the same machine whatever
  -- the executor does, so none of its commands counts; the results are one for each step, in order.
  pub execute_plan-build_plan :
      (executor other : List String → W → ℤ × W) (findings : List Finding) (w : W)
      → (results : List StepResult) × (w' : W) × (execute_plan executor precondition_check
            (build_plan findings)
            true
            w
          ≡ (ok results, w'))
        × (execute_plan other precondition_check (build_plan findings) true w ≡ (ok results, w'))
        × (map (λ (r : StepResult). r.id) results
            ≡ map (λ (s : Remediation). s.id) (build_plan findings))
  unfolding execute_plan
  execute_plan-build_plan executor other findings w =
      let plan = build_plan findings in
      let hs = (build_plan-IsPlan findings).restrained in
      let (results, w') = idle_steps plan w in
      (
        results,
        w',
        rw (execute_steps-idle executor plan w hs),
        rw (execute_steps-idle other plan w hs),
        ids-idle_steps plan w,
      )
