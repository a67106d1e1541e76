-- ===== src/Remediation/Covering.antt =====
-- `build_plan`: the findings that a plan covers.
use devrepro_doctor.Prelude.{
  ◌≡◌, refl, String, Bool, true, false, some, List, [], ◌∷◌, ◌++◌, str_eq, str_eq_iff,
  if◌then◌else◌, if_ind, if_cases, either_option, any, arith, inl, inr, Bool-cases, none,
  Option-cases, All, ◌||◌, leb, sort,
}
use devrepro_doctor.Prelude.Sorting.{any-sort, All-map}
use devrepro_doctor.Remediation.{
  Finding, Remediation, step_for, add_step, add_steps, build_plan, is_settled, rank,
}

abbrev pub comes_before : Remediation → Remediation → Bool
comes_before a b = leb (rank a.risk) (rank b.risk)

abbrev pub has_step : String → List Remediation → Bool
has_step id plan = any (λ (s : Remediation). str_eq s.id id) plan

has_step-append :
    (id : String) (plan more : List Remediation)
    → has_step id plan ≡ true
    → has_step id (plan ++ more) ≡ true
has_step-append id [] more h = cc h
has_step-append id (s ∷ plan) more h = ground (arith, has_step-append id plan more)

has_step-snoc :
    (id : String) (plan : List Remediation) (s : Remediation)
    → str_eq s.id id ≡ true
    → has_step id (plan ++ s ∷ []) ≡ true
has_step-snoc id [] s h = cc h
has_step-snoc id (r ∷ plan) s h = ground (arith, has_step-snoc id plan s h)

-- What `seen` holds is in the plan.
abbrev Present : List Remediation × List String → Type 0
Present state = (id : String) → any (λ i. str_eq i id) state.1 ≡ true → has_step id state.0 ≡ true

add_step-Present :
    (plan : List Remediation) (seen : List String) (f : Finding)
    → Present (plan, seen)
    → Present (add_step plan seen f)
unfolding add_step
add_step-Present plan seen f h =
    if_ind Present (is_settled f.state) h (either_option Present (step_for f) h accept)
  where
    accept :
        (s : Remediation)
        → Present
            (if any (λ i. str_eq i s.id) seen then (plan, seen) else (plan ++ s ∷ [], s.id ∷ seen))
    accept s = if_ind Present (any (λ i. str_eq i s.id) seen) h (λ id e.
        elim (Bool-cases (str_eq s.id id)) [
          | inl same ↦ has_step-snoc id plan s same
          | inr other ↦ has_step-append id plan (s ∷ []) (h id (ground arith))
        ])

-- A turn for a finding that has a step leaves one with its id in the plan, and keeps what is there.
add_step-adds :
    (plan : List Remediation) (seen : List String) (f : Finding) (s : Remediation)
    → is_settled f.state ≡ false
    → step_for f ≡ some s
    → Present (plan, seen)
    → has_step s.id (add_step plan seen f).0 ≡ true
unfolding add_step
add_step-adds plan seen f s open_finding has h =
    rw (open_finding, has)
      (if_cases (λ (p : List Remediation × List String). has_step s.id p.0 ≡ true)
        (any (λ i. str_eq i s.id) seen) {x = (plan, seen)} {y = (plan ++ s ∷ [], s.id ∷ seen)}
        (λ e. h s.id e) (λ e. has_step-snoc s.id plan s ((str_eq_iff s.id s.id).1 refl)))

add_step-keeps :
    (plan : List Remediation) (seen : List String) (f : Finding) (id : String)
    → has_step id plan ≡ true
    → has_step id (add_step plan seen f).0 ≡ true
unfolding add_step
add_step-keeps plan seen f id h = if_ind Kept (is_settled f.state) h (
    either_option Kept (step_for f) h
      (λ s. if_ind Kept (any (λ i. str_eq i s.id) seen) h (has_step-append id plan (s ∷ []) h)))
  where
    Kept : List Remediation × List String → Type 0
    Kept state = has_step id state.0 ≡ true

add_steps-keeps :
    (plan : List Remediation) (seen : List String) (findings : List Finding) (id : String)
    → has_step id plan ≡ true
    → has_step id (add_steps plan seen findings) ≡ true
unfolding add_steps
add_steps-keeps plan seen [] id h = h
add_steps-keeps plan seen (f ∷ findings) id h =
    let next = add_step plan seen f in
    add_steps-keeps next.0 next.1 findings id (add_step-keeps plan seen f id h)

-- What `build_plan` owes to a finding: nothing if it is passed, a remark, or has no step.
abbrev pub is_covered : List Remediation → Finding → Bool
is_covered plan f =
    is_settled f.state || elim (step_for f) [ none ↦ true | some s ↦ has_step s.id plan ]

is_covered-sort :
    (plan : List Remediation) (f : Finding)
    → is_covered plan f ≡ true
    → is_covered (sort comes_before plan) f ≡ true
is_covered-sort plan f h = elim (Option-cases (step_for f)) [
  | inl none_ ↦ ground arith
  | inr (s, has) ↦ ground (arith, any-sort comes_before (λ r. str_eq r.id s.id) plan)
]

is_covered-add_steps :
    (plan : List Remediation) (seen : List String) (findings : List Finding) (f : Finding)
    → Present (plan, seen)
    → is_covered (add_steps (add_step plan seen f).0 (add_step plan seen f).1 findings) f ≡ true
is_covered-add_steps plan seen findings f h = elim (Bool-cases (is_settled f.state)) [
  | inl settled ↦ ground arith
  | inr open_finding ↦ elim (Option-cases (step_for f)) [
    | inl none_ ↦ ground arith
    | inr (s, has) ↦
        let next = add_step plan seen f in
        ground (
          arith,
          add_steps-keeps next.0 next.1 findings s.id
              (add_step-adds plan seen f s open_finding has h),
        )
  ]
]

add_steps-covers :
    (plan : List Remediation) (seen : List String) (findings : List Finding)
    → Present (plan, seen)
    → All (λ f. is_covered (add_steps plan seen findings) f ≡ true) findings
unfolding add_steps
add_steps-covers plan seen [] h = tt
add_steps-covers plan seen (f ∷ findings) h =
    let next = add_step plan seen f in
    (
      is_covered-add_steps plan seen findings f h,
      add_steps-covers next.0 next.1 findings (add_step-Present plan seen f h),
    )

pub build_plan-covers :
    (findings : List Finding) → All (λ f. is_covered (build_plan findings) f ≡ true) findings
unfolding build_plan
build_plan-covers findings =
    All-map (λ f. is_covered-sort (add_steps [] [] findings) f) findings
      (add_steps-covers [] [] findings (λ id e. cc e))
