-- ===== src/Remediation/Plan.antt =====
-- `build_plan`: the order of the plan, its ids, what it may automate, and that it covers the findings.
use devrepro_doctor.Prelude.{
  ◌≡◌, refl, sym, not, ◌&&◌, String, Bool, true, false, ◌||◌, Option, none, some, List, [], ◌∷◌,
  ◌++◌, str_eq, str_eq_iff, if◌then◌else◌, if_ind, if_cases, any, All, arith, inl, inr, All-append,
  Bool-cases,
}
use devrepro_doctor.Prelude.Sorting.{
  Pairwise-snoc, Pairwise, All-sort, Pairwise-sort, IsSorted-sort,
}
use devrepro_doctor.Remediation.{
  Finding, Remediation, step_for, add_step, add_steps, build_plan, is_settled, is_automatable_risk,
}
use devrepro_doctor.Remediation.Covering.{comes_before, is_covered, build_plan-covers}

-- A step that is automated is SAFE or LOW, and carries no command.
pub record IsRestrained (s : Remediation) : Type 0 where
  pub automated : (not s.automatable || is_automatable_risk s.risk) ≡ true
  pub idle : s.commands ≡ []

abbrev pub Differs : Remediation → Remediation → Type 0
Differs a b = str_eq a.id b.id ≡ false

pub record IsPlan (findings : List Finding) (plan : List Remediation) : Type 0 where
  pub sorted : Pairwise (λ a b. comes_before a b ≡ true) plan
  pub distinct : Pairwise Differs plan
  pub restrained : All IsRestrained plan
  pub covering : All (λ f. is_covered plan f ≡ true) findings

abbrev RestrainedIfAny : Option Remediation → Type 0
RestrainedIfAny none = Unit
RestrainedIfAny (some s) = IsRestrained s

abbrev is_empty : List (List String) → Bool
is_empty [] = true
is_empty (c ∷ cs) = false

idle-of : (cs : List (List String)) → is_empty cs ≡ true → cs ≡ []
idle-of [] h = refl
idle-of (c ∷ cs) h = cc h

abbrev passes : Option Remediation → Bool
passes none = true
passes (some s) = (not s.automatable || is_automatable_risk s.risk) && is_empty s.commands

step_for-IsRestrained : (f : Finding) → RestrainedIfAny (step_for f)
unfolding step_for
step_for-IsRestrained f = of_test (step_for f) (ground arith)
  where
    of_test : (o : Option Remediation) → passes o ≡ true → RestrainedIfAny o
    of_test none h = tt
    of_test (some s) h = record {
      automated = ground arith;
      idle = idle-of s.commands (ground arith);
    }

str_eq-flip : (s t : String) → str_eq s t ≡ false → str_eq t s ≡ false
str_eq-flip s t h = elim (Bool-cases (str_eq t s)) [
  | inl e ↦ absurd (cc (h, (str_eq_iff s t).1 (sym ((str_eq_iff t s).0 e))))
  | inr e ↦ e
]

-- `seen` holds the ids of the plan so far.
record IsTracked (plan : List Remediation) (seen : List String) : Type 0 where
  distinct : Pairwise Differs plan
  restrained : All IsRestrained plan
  known :
      (id : String)
      → any (λ i. str_eq i id) seen ≡ false
      → All (λ (s : Remediation). str_eq s.id id ≡ false) plan

abbrev Tracked : List Remediation × List String → Type 0
Tracked state = IsTracked state.0 state.1

or-false : (a b : Bool) → (a || b) ≡ false → (a ≡ false) × (b ≡ false)
or-false a b h = ground arith

IsTracked-snoc :
    (plan : List Remediation) (seen : List String) (s : Remediation)
    → IsTracked plan seen
    → IsRestrained s
    → any (λ i. str_eq i s.id) seen ≡ false
    → IsTracked (plan ++ s ∷ []) (s.id ∷ seen)
IsTracked-snoc plan seen s h ok new = record {
  distinct = Pairwise-snoc Differs plan s h.distinct (h.known s.id new);
  restrained = All-append IsRestrained plan (s ∷ []) h.restrained (ok, tt);
  known = λ id fresh.
      let (a, b) = or-false (str_eq s.id id) (any (λ i. str_eq i id) seen) fresh in
      All-append (λ (r : Remediation). str_eq r.id id ≡ false) plan (s ∷ []) (h.known id b) (a, tt);
}

add_step-IsTracked :
    (plan : List Remediation) (seen : List String) (f : Finding)
    → IsTracked plan seen
    → Tracked (add_step plan seen f)
unfolding add_step
add_step-IsTracked plan seen f h =
    if_ind Tracked (is_settled f.state) h (accept (step_for f) (step_for-IsRestrained f))
  where
    accept :
        (o : Option Remediation)
        → RestrainedIfAny o
        → Tracked (elim o [
          | none ↦ (plan, seen)
          | some s ↦
              if any (λ i. str_eq i s.id) seen then (plan, seen) else (plan ++ s ∷ [], s.id ∷ seen)
        ])
    accept none ok = h
    accept (some s) ok =
        if_cases Tracked (any (λ i. str_eq i s.id) seen) (λ e. h)
          (λ new. IsTracked-snoc plan seen s h ok new)

add_steps-IsTracked :
    (plan : List Remediation) (seen : List String) (findings : List Finding)
    → IsTracked plan seen
    → (known : List String) × IsTracked (add_steps plan seen findings) known
unfolding add_steps
add_steps-IsTracked plan seen [] h = (seen, h)
add_steps-IsTracked plan seen (f ∷ findings) h =
    let next = add_step plan seen f in
    add_steps-IsTracked next.0 next.1 findings (add_step-IsTracked plan seen f h)

-- The plan is sorted from SAFE to HIGH, has no id twice, automates nothing but SAFE and LOW steps, and
-- no step of it carries a command. Every finding that is neither passed nor a remark and has a step
-- finds the id of that step in the plan.
pub build_plan-IsPlan : (findings : List Finding) → IsPlan findings (build_plan findings)
unfolding build_plan
build_plan-IsPlan findings =
    let (_, h) =
      add_steps-IsTracked [] [] findings
        (record { distinct = tt; restrained = tt; known = λ id e. tt }) in
    let plan = add_steps [] [] findings in
    record {
      sorted = IsSorted-sort comes_before (λ a b c p q. ground arith) (λ a b p. ground arith) plan;
      distinct = Pairwise-sort comes_before Differs (λ a b. str_eq-flip a.id b.id) plan h.distinct;
      restrained = All-sort comes_before IsRestrained plan h.restrained;
      covering = build_plan-covers findings;
    }
