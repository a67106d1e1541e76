-- ===== src/Rules/Reporting.antt =====
-- What a run of the rule engine reports.
use devrepro_doctor.Prelude.{
  ◌≡◌, ◌↔◌, ◌⊎◌, inl, inr, refl, ◌∙◌, String, Bool, true, Option, none, some, List, [], ◌∷◌, ◌++◌,
  map, arith, str_eq, str_eq_iff, Bool-cases, Option-cases, lookup, contains,
}
use devrepro_doctor.Prelude.Members.{contains-sort_strings}
use devrepro_doctor.Result.{Result-cases, ok, err}
use devrepro_doctor.Rules.{Finding}
use devrepro_doctor.Rules.Engine.{
  Raised, PackFunc, Packs, pack_failed, pack_names, selected, pack_findings, evaluate_loop,
  evaluate,
}

abbrev pub Occurs : {A : Type 0} → A → List A → Type 0
Occurs x [] = ⊥
Occurs x (y ∷ ys) = (x ≡ y) ⊎ Occurs x ys

Occurs-append_iff :
    {A : Type 0} (x : A) (xs ys : List A) → Occurs x (xs ++ ys) ↔ (Occurs x xs ⊎ Occurs x ys)
Occurs-append_iff x [] ys = (λ h. inr h, λ h. elim h [ inl e ↦ absurd e | inr e ↦ e ])
Occurs-append_iff x (y ∷ xs) ys =
    let rest = Occurs-append_iff x xs ys in
    (
      λ h. elim h [
        | inl e ↦ inl (inl e)
        | inr e ↦ elim (rest.0 e) [ inl there ↦ inl (inr there) | inr behind ↦ inr behind ]
      ],
      λ h. elim h [
        | inl front ↦ elim front [ inl e ↦ inl e | inr there ↦ inr (rest.1 (inl there)) ]
        | inr behind ↦ inr (rest.1 (inr behind))
      ],
    )

-- Every pack is asked for where no pack is named.
abbrev pub is_asked : Option (List String) → String → Bool
is_asked none name = true
is_asked (some []) name = true
is_asked (some (n ∷ names)) name = contains name (n ∷ names)

module _ {Context : Type 0} where
  -- A finding that a pack which is asked for returned, or that tells that it raised.
  pub data IsReported (packs : Packs Context) (ctx : Context) (asked : Option (List String))
      (finding : Finding) : Type 0 where
    returned :
        (name : String) (func : PackFunc Context) (findings : List Finding)
        → is_asked asked name ≡ true
        → lookup name packs ≡ some func
        → func ctx ≡ ok findings
        → Occurs finding findings
        → IsReported packs ctx asked finding
    failed :
        (name : String) (func : PackFunc Context) (raised : Raised)
        → is_asked asked name ≡ true
        → lookup name packs ≡ some func
        → func ctx ≡ err raised
        → finding ≡ pack_failed name raised
        → IsReported packs ctx asked finding

  evaluate_loop-witness :
      (packs : Packs Context) (ctx : Context) (names : List String) (f : Finding)
      → Occurs f (evaluate_loop packs ctx names)
      → (name : String) × (contains name names ≡ true)
        × Occurs f (pack_findings name (lookup name packs) ctx)
  unfolding evaluate_loop
  evaluate_loop-witness packs ctx [] f h = absurd h
  evaluate_loop-witness packs ctx (n ∷ names) f h =
      elim ((Occurs-append_iff f (pack_findings n (lookup n packs) ctx) _).0 h) [
        | inl own ↦ (n, ground (arith, (str_eq_iff n n).1 refl), own)
        | inr later ↦
            let (name, there, own) = evaluate_loop-witness packs ctx names f later in
            (name, ground arith, own)
      ]

  evaluate_loop-of_pack :
      (packs : Packs Context) (ctx : Context) (names : List String) (f : Finding) (name : String)
      → contains name names ≡ true
      → Occurs f (pack_findings name (lookup name packs) ctx)
      → Occurs f (evaluate_loop packs ctx names)
  unfolding evaluate_loop
  evaluate_loop-of_pack packs ctx [] f name there own = cc there
  evaluate_loop-of_pack packs ctx (n ∷ names) f name there own =
      let both =
        Occurs-append_iff f (pack_findings n (lookup n packs) ctx)
          (evaluate_loop packs ctx names) in
      elim (Bool-cases (str_eq n name)) [
        | inl e ↦ both.1 (inl (rw (← (str_eq_iff n name).0 e) at own))
        | inr e ↦ both.1 (inr (evaluate_loop-of_pack packs ctx names f name (ground arith) own))
      ]

  contains-registered :
      (packs : Packs Context) (name : String) (func : PackFunc Context)
      → lookup name packs ≡ some func
      → contains name (map (λ (p : String × PackFunc Context). p.0) packs) ≡ true
  contains-registered [] name func h = cc h
  contains-registered ((other, g) ∷ packs) name func h = elim (Bool-cases (str_eq other name)) [
    | inl e ↦ ground arith
    | inr e ↦ ground (arith, contains-registered packs name func (rw e at h))
  ]

  contains-pack_names :
      (packs : Packs Context) (name : String) (func : PackFunc Context)
      → lookup name packs ≡ some func
      → contains name (pack_names packs) ≡ true
  unfolding pack_names
  contains-pack_names packs name func h =
      contains-sort_strings name (map (λ (p : String × PackFunc Context). p.0) packs)
      ∙ contains-registered packs name func h

  contains-selected :
      (asked : Option (List String)) (packs : Packs Context) (name : String)
      (func : PackFunc Context)
      → lookup name packs ≡ some func
      → is_asked asked name ≡ true
      → contains name (selected asked packs) ≡ true
  contains-selected none packs name func h e = contains-pack_names packs name func h
  contains-selected (some []) packs name func h e = contains-pack_names packs name func h
  contains-selected (some (n ∷ names)) packs name func h e = e

  is_asked-selected :
      (asked : Option (List String)) (packs : Packs Context) (name : String)
      → contains name (selected asked packs) ≡ true
      → is_asked asked name ≡ true
  is_asked-selected none packs name h = refl
  is_asked-selected (some []) packs name h = refl
  is_asked-selected (some (n ∷ names)) packs name h = h

  IsReported-of_pack :
      (packs : Packs Context) (ctx : Context) (asked : Option (List String)) (f : Finding)
      (name : String)
      → is_asked asked name ≡ true
      → Occurs f (pack_findings name (lookup name packs) ctx)
      → IsReported packs ctx asked f
  IsReported-of_pack packs ctx asked f name wanted own = elim (Option-cases (lookup name packs)) [
    | inl gone ↦ absurd (rw gone at own)
    | inr (func, there) ↦
        let own' : Occurs f (pack_findings name (some func) ctx) = rw there at own in
        elim (Result-cases (func ctx)) [
          | inl (findings, e) ↦
              let here : Occurs f findings = rw e at own' in
              returned name func findings wanted there e here
          | inr (raised, e) ↦
              let here : Occurs f (pack_failed name raised ∷ []) = rw e at own' in
              elim here [
                | inl same ↦ failed name func raised wanted there e same
                | inr never ↦ absurd never
              ]
        ]
  ]

  -- `evaluate` reports a finding just when a pack that is asked for, or any pack where none is named, is
  -- registered and returned it, or raised and it is the one of that failure: a pack that raises costs its own
  -- findings only, and no failure is passed over.
  pub evaluate_iff :
      (packs : Packs Context) (ctx : Context) (asked : Option (List String)) (finding : Finding)
      → Occurs finding (evaluate packs ctx asked) ↔ IsReported packs ctx asked finding
  unfolding evaluate
  evaluate_iff packs ctx asked finding = (
    λ h.
        let (name, there, own) = evaluate_loop-witness packs ctx (selected asked packs) finding h in
        IsReported-of_pack packs ctx asked finding name (is_asked-selected asked packs name there)
          own,
    λ r. elim r [
      | returned name func findings wanted there e own ↦
          evaluate_loop-of_pack packs ctx (selected asked packs) finding name
            (contains-selected asked packs name func there wanted) (rw (there, e) own)
      | failed name func raised wanted there e same ↦
          evaluate_loop-of_pack packs ctx (selected asked packs) finding name
            (contains-selected asked packs name func there wanted) (rw (there, e) (inl same))
    ],
  )
