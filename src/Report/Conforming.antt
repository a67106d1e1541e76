-- ===== src/Report/Conforming.antt =====
-- The reports that `check_report` finds no problem in.
use devrepro_doctor.Prelude.{
  ℕ, ◌+◌, ◌≡◌, refl, ap, ◌∙◌, String, Bool, true, false, ◌&&◌, Option, none, some, List, [], ◌∷◌,
  ◌++◌, if◌then◌else◌, contains,
}
use devrepro_doctor.Report.{
  Json, null, boolean, integer, float, string, array, object, Items, no_items, item, Members, Kind,
  get, is_instance, required_report_fields, required_finding_fields, finding_states, field_problem,
  field_problems, state_problem, evidence_problem, finding_problems, findings_problems, of_findings,
  check_report,
}

-- The field is there, with a value of its type.
abbrev pub is_typed : Kind → Option Json → Bool
is_typed kind none = false
is_typed kind (some value) = is_instance kind value

abbrev pub has_fields : Members → List (String × Kind) → Bool
has_fields payload [] = true
has_fields payload ((field, kind) ∷ required) =
    is_typed kind (get field payload) && has_fields payload required

abbrev pub is_known_state : Option Json → Bool
is_known_state (some (string state)) = contains state finding_states
is_known_state _ = true

abbrev pub is_evidence : Option Json → Bool
is_evidence (some (array no_items)) = false
is_evidence _ = true

-- An object with the required fields, a state of the contract, and evidence.
abbrev pub is_finding : Json → Bool
is_finding (object finding) =
    has_fields finding required_finding_fields
    && (is_known_state (get "state" finding) && is_evidence (get "evidence" finding))
is_finding _ = false

abbrev pub are_findings : Items → Bool
are_findings no_items = true
are_findings (item finding more) = is_finding finding && are_findings more

abbrev pub are_findings_of : Option Json → Bool
are_findings_of (some (array items)) = are_findings items
are_findings_of _ = true

abbrev pub is_clear : List String → Bool
is_clear [] = true
is_clear (problem ∷ problems) = false

is_clear-append : (xs ys : List String) → is_clear (xs ++ ys) ≡ (is_clear xs && is_clear ys)
is_clear-append [] ys = refl
is_clear-append (x ∷ xs) ys = refl

is_clear-unless : (b : Bool) (problem : String) → is_clear (if b then [] else problem ∷ []) ≡ b
is_clear-unless true problem = refl
is_clear-unless false problem = refl

module _ (repr : String → String) where
  is_clear-field_problem :
      (where_at field : String) (kind : Kind) (value : Option Json)
      → is_clear (field_problem repr where_at field kind value) ≡ is_typed kind value
  unfolding field_problem
  is_clear-field_problem where_at field kind none = refl
  is_clear-field_problem where_at field kind (some value) =
      is_clear-unless (is_instance kind value) _

  is_clear-field_problems :
      (payload : Members) (required : List (String × Kind)) (where_at : String)
      → is_clear (field_problems repr payload required where_at) ≡ has_fields payload required
  unfolding field_problems
  is_clear-field_problems payload [] where_at = refl
  is_clear-field_problems payload ((field, kind) ∷ required) where_at =
      is_clear-append (field_problem repr where_at field kind (get field payload))
        (field_problems repr payload required where_at)
      ∙ ap (λ b. b && is_clear (field_problems repr payload required where_at))
          (is_clear-field_problem where_at field kind (get field payload))
      ∙ ap (λ b. is_typed kind (get field payload) && b)
          (is_clear-field_problems payload required where_at)

  is_clear-state_problem :
      (where_at : String) (state : Option Json)
      → is_clear (state_problem repr where_at state) ≡ is_known_state state
  unfolding state_problem
  is_clear-state_problem where_at none = refl
  is_clear-state_problem where_at (some (string state)) =
      is_clear-unless (contains state finding_states) _
  is_clear-state_problem where_at (some null) = refl
  is_clear-state_problem where_at (some (boolean b)) = refl
  is_clear-state_problem where_at (some (integer n)) = refl
  is_clear-state_problem where_at (some (float s)) = refl
  is_clear-state_problem where_at (some (array items)) = refl
  is_clear-state_problem where_at (some (object fields)) = refl

  is_clear-evidence_problem :
      (where_at : String) (evidence : Option Json)
      → is_clear (evidence_problem repr where_at evidence) ≡ is_evidence evidence
  unfolding evidence_problem
  is_clear-evidence_problem where_at none = refl
  is_clear-evidence_problem where_at (some (array no_items)) = refl
  is_clear-evidence_problem where_at (some (array (item x more))) = refl
  is_clear-evidence_problem where_at (some null) = refl
  is_clear-evidence_problem where_at (some (boolean b)) = refl
  is_clear-evidence_problem where_at (some (integer n)) = refl
  is_clear-evidence_problem where_at (some (float s)) = refl
  is_clear-evidence_problem where_at (some (string s)) = refl
  is_clear-evidence_problem where_at (some (object fields)) = refl

  -- Both halves of a list of problems are clear when each is.
  is_clear-both :
      (xs ys : List String) {a b : Bool}
      → is_clear xs ≡ a
      → is_clear ys ≡ b
      → is_clear (xs ++ ys) ≡ (a && b)
  is_clear-both xs ys {a = a} hx hy =
      is_clear-append xs ys ∙ ap (λ x. x && is_clear ys) hx ∙ ap (λ y. a && y) hy

  is_clear-finding_problems :
      (where_at : String) (finding : Json)
      → is_clear (finding_problems repr where_at finding) ≡ is_finding finding
  unfolding finding_problems
  is_clear-finding_problems where_at (object finding) =
      is_clear-both (field_problems repr finding required_finding_fields where_at)
        (state_problem repr where_at (get "state" finding)
          ++ evidence_problem repr where_at (get "evidence" finding))
        (is_clear-field_problems finding required_finding_fields where_at)
        (is_clear-both (state_problem repr where_at (get "state" finding))
          (evidence_problem repr where_at (get "evidence" finding))
          (is_clear-state_problem where_at (get "state" finding))
          (is_clear-evidence_problem where_at (get "evidence" finding)))
  is_clear-finding_problems where_at null = refl
  is_clear-finding_problems where_at (boolean b) = refl
  is_clear-finding_problems where_at (integer n) = refl
  is_clear-finding_problems where_at (float s) = refl
  is_clear-finding_problems where_at (string s) = refl
  is_clear-finding_problems where_at (array items) = refl

  is_clear-findings_problems :
      (index : ℕ) (items : Items)
      → is_clear (findings_problems repr index items) ≡ are_findings items
  unfolding findings_problems
  is_clear-findings_problems index no_items = refl
  is_clear-findings_problems index (item finding more) =
      is_clear-both (finding_problems repr _ finding) (findings_problems repr (index + 1) more)
        (is_clear-finding_problems _ finding) (is_clear-findings_problems (index + 1) more)

  is_clear-of_findings :
      (findings : Option Json) → is_clear (of_findings repr findings) ≡ are_findings_of findings
  is_clear-of_findings none = refl
  is_clear-of_findings (some (array items)) = is_clear-findings_problems 0 items
  is_clear-of_findings (some null) = refl
  is_clear-of_findings (some (boolean b)) = refl
  is_clear-of_findings (some (integer n)) = refl
  is_clear-of_findings (some (float s)) = refl
  is_clear-of_findings (some (string s)) = refl
  is_clear-of_findings (some (object fields)) = refl

  -- `check_report` has nothing to say just when the report has every required field with a value of its type,
  -- and each of its findings is an object with its required fields, a state of the contract and some evidence.
  pub is_clear-check_report :
      (payload : Members)
      → is_clear (check_report repr payload)
        ≡ (has_fields payload required_report_fields && are_findings_of (get "findings" payload))
  unfolding check_report
  is_clear-check_report payload =
      is_clear-both (field_problems repr payload required_report_fields "report")
        (of_findings repr (get "findings" payload))
        (is_clear-field_problems payload required_report_fields "report")
        (is_clear-of_findings (get "findings" payload))
