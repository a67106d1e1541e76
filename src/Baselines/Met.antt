-- ===== src/Baselines/Met.antt =====
-- What a machine that meets the baseline of its project has.
use devrepro_doctor.Prelude.{
  ℕ, ◌≡◌, ◌≤◌, ◌↔◌, refl, ◌∙◌, sym, String, Bool, true, not, ◌&&◌, ◌||◌, none, some, List, [], ◌∷◌,
  All, all, leb, lookup, contains, arith, inl, inr, Option-cases, str_eq_iff,
}
use devrepro_doctor.Prelude.Reflection.{and_iff, all_iff}
use devrepro_doctor.Versioning.{Version, SpecSet, satisfied_by}
use devrepro_doctor.Versioning.Text.{codes}
use devrepro_doctor.Versioning.Parse.{parse_version}
use devrepro_doctor.Versioning.Spec.{parse_spec}
use devrepro_doctor.Baselines.{
  Baseline, BaselineDiffEntry, blockers, warnings, is_satisfied, diff_against_baseline,
}
use devrepro_doctor.Baselines.Approval.{is_none, has_tool, is_none-diff_against_baseline}

-- A version is within a range where both can be read and the range accepts it, and where one of them cannot
-- be read if it is the same text.
pub data IsWithin (spec actual : String) : Type 0 where
  accepted :
      (range : SpecSet) (version : Version)
      → parse_spec (codes spec) ≡ some range
      → parse_version (codes actual) ≡ some version
      → satisfied_by range version ≡ true
      → IsWithin spec actual
  same_for_no_range : parse_spec (codes spec) ≡ none → actual ≡ spec → IsWithin spec actual
  same_for_no_version : parse_version (codes actual) ≡ none → actual ≡ spec → IsWithin spec actual

-- The machine has the tool, in a version within the range.
abbrev pub HasTool : List (String × String) → String × String → Type 0
HasTool machine_tools t =
    (actual : String) × (lookup t.0 machine_tools ≡ some actual) × IsWithin t.1 actual

is_satisfied_iff : (spec actual : String) → (is_satisfied spec actual ≡ true) ↔ IsWithin spec actual
unfolding is_satisfied
is_satisfied_iff spec actual = elim (Option-cases (parse_spec (codes spec))) [
  | inl no_range ↦ (
    λ h. same_for_no_range no_range ((str_eq_iff actual spec).0 (ground arith)),
    λ w. elim w [
      | accepted range version reads_range reads_version ok ↦ absurd (ground arith)
      | same_for_no_range _ same ↦ ground (arith, (str_eq_iff actual spec).1 same)
      | same_for_no_version _ same ↦ ground (arith, (str_eq_iff actual spec).1 same)
    ],
  )
  | inr (range, has_range) ↦ elim (Option-cases (parse_version (codes actual))) [
    | inl no_version ↦ (
      λ h. same_for_no_version no_version ((str_eq_iff actual spec).0 (ground arith)),
      λ w. elim w [
        | accepted range version reads_range reads_version ok ↦ absurd (ground arith)
        | same_for_no_range _ same ↦ ground (arith, (str_eq_iff actual spec).1 same)
        | same_for_no_version _ same ↦ ground (arith, (str_eq_iff actual spec).1 same)
      ],
    )
    | inr (version, has_version) ↦ (
      λ h. accepted range version has_range has_version (ground arith),
      λ w. elim w [
        | accepted range version reads_range reads_version ok ↦ ground arith
        | same_for_no_range gone _ ↦ absurd (ground arith)
        | same_for_no_version gone _ ↦ absurd (ground arith)
      ],
    )
  ]
]

has_tool_iff :
    (machine_tools : List (String × String)) (t : String × String)
    → (has_tool machine_tools t ≡ true) ↔ HasTool machine_tools t
has_tool_iff machine_tools t = elim (Option-cases (lookup t.0 machine_tools)) [
  | inl gone ↦ (λ h. absurd (ground arith), λ (actual, there, within). absurd (ground arith))
  | inr (found, there) ↦ (
    λ h. (found, there, (is_satisfied_iff t.1 found).0 (ground arith)),
    λ (actual, here, within). ground (arith, (is_satisfied_iff t.1 actual).1 within),
  )
]

is_none_iff : (es : List BaselineDiffEntry) → (is_none es ≡ true) ↔ (es ≡ [])
is_none_iff [] = (λ e. refl, λ e. refl)
is_none_iff (e ∷ es) = (λ h. cc h, λ h. cc h)

module _ (baseline : Baseline) (machine_tools : List (String × String))
    (machine_env_names : List String) (docker_available : Bool) (path_duplicates : ℕ) where
  -- A machine has no blocker just when it has every tool of the baseline in a version within its range,
  -- declares every required variable, and has docker if the baseline requires it; it has no warning just when
  -- its PATH has no more duplicates than the baseline allows. A version is within a range that accepts it;
  -- where the range or the version cannot be read, within one of the same text.
  pub diff_against_baseline_iff :
      let difference =
        diff_against_baseline baseline machine_tools machine_env_names docker_available
          path_duplicates in
      ((blockers difference ≡ []) ↔ (
        All (HasTool machine_tools) baseline.tools
        × All (λ name. contains name machine_env_names ≡ true) baseline.required_env_names
        × ((not baseline.require_docker || docker_available) ≡ true)))
      × ((warnings difference ≡ []) ↔ (path_duplicates ≤ baseline.max_path_duplicates))
  diff_against_baseline_iff =
      let (no_blocker, no_warning) =
        is_none-diff_against_baseline baseline machine_tools machine_env_names docker_available
          path_duplicates in
      let difference =
        diff_against_baseline baseline machine_tools machine_env_names docker_available
          path_duplicates in
      let tools =
        all_iff (has_tool machine_tools) (HasTool machine_tools) (has_tool_iff machine_tools)
          baseline.tools in
      let names =
        all_iff (λ name. contains name machine_env_names)
          (λ name. contains name machine_env_names ≡ true) (λ name. (λ h. h, λ h. h))
          baseline.required_env_names in
      let outer = and_iff (all (has_tool machine_tools) baseline.tools) (
        all (λ name. contains name machine_env_names) baseline.required_env_names
        && (not baseline.require_docker || docker_available)) in
      let inner =
        and_iff (all (λ name. contains name machine_env_names) baseline.required_env_names)
          (not baseline.require_docker || docker_available) in
      (
        (
          λ h.
              let (own, more) = outer.0 (sym no_blocker ∙ (is_none_iff _).1 h) in
              let (declared, docker) = inner.0 more in (tools.0 own, names.0 declared, docker),
          λ (own, declared, docker).
              (is_none_iff _).0
                (no_blocker ∙ outer.1 (tools.1 own, inner.1 (names.1 declared, docker))),
        ),
        (
          λ h.
              let few : leb path_duplicates baseline.max_path_duplicates ≡ true =
                sym no_warning ∙ (is_none_iff _).1 h in
              ground (arith, few),
          λ h. (is_none_iff _).0 (no_warning ∙ ground (arith, h)),
        ),
      )
