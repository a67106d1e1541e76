-- ===== src/Rules/Verdict.antt =====
-- What a list of findings of `check_version_requirement` says of the version.
use devrepro_doctor.Prelude.{
  ◌≡◌, ◌≢◌, refl, sym, subst, String, Bool, true, false, not, ◌||◌, Option, none, some, List, [],
  ◌∷◌, ◌++◌, any, arith,
}
use devrepro_doctor.Remediation.{FindingState, pass, error}
use devrepro_doctor.Versioning.{Version, SpecSet, satisfied_by}
use devrepro_doctor.Versioning.Text.{codes}
use devrepro_doctor.Versioning.Parse.{parse_version}
use devrepro_doctor.Versioning.Spec.{parse_spec}
use devrepro_doctor.Rules.{
  Finding, Active, range_check, range_finding, known_bad_findings, check_version_requirement,
}

abbrev pub is_pass : Finding → Bool
is_pass f = elim f.state [ pass ↦ true | _ ↦ false ]

abbrev pub is_error : Finding → Bool
is_error f = elim f.state [ error ↦ true | _ ↦ false ]

-- The version lies in the range; a range that does not parse has no versions.
abbrev pub lies_in : Version → String → Bool
lies_in v spec = elim (parse_spec (codes spec)) [ none ↦ false | some s ↦ satisfied_by s v ]

module _ (repr : String → String)
    (rule_prefix tool_name required_spec source evidence_excerpt : String) where
  known_bad-pass :
      (version : String) (v : Version) (known_bad : List String)
      → any is_pass (
          known_bad_findings repr rule_prefix tool_name required_spec source evidence_excerpt
            version v known_bad)
        ≡ false
  unfolding known_bad_findings
  known_bad-pass version v [] = refl
  known_bad-pass version v (bad ∷ known_bad) = ground (arith, known_bad-pass version v known_bad)

  known_bad-error :
      (version : String) (v : Version) (known_bad : List String)
      → any is_error (
          known_bad_findings repr rule_prefix tool_name required_spec source evidence_excerpt
            version v known_bad)
        ≡ any (lies_in v) known_bad
  unfolding known_bad_findings
  known_bad-error version v [] = refl
  known_bad-error version v (bad ∷ known_bad) = ground (arith, known_bad-error version v known_bad)

  any-append :
      (p : Finding → Bool) (xs ys : List Finding) → any p (xs ++ ys) ≡ (any p xs || any p ys)
  any-append p [] ys = refl
  any-append p (x ∷ xs) ys = ground (arith, any-append p xs ys)

  range_check-parsed :
      (version : String) (v : Version) (in_range : SpecSet)
      → parse_version (codes version) ≡ some v
      → parse_spec (codes required_spec) ≡ some in_range
      → range_check version required_spec ≡ some (v, satisfied_by in_range v)
  unfolding range_check
  range_check-parsed version v in_range reads range = rw (reads, range)

  empty-fails : {v : Version} → parse_version (codes String.[]) ≢ some v
  unfolding parse_version
  empty-fails e = cc e

  -- For an active tool whose version and required range both parse, a finding PASS is reported exactly
  -- when the version satisfies the range, and a finding ERROR exactly when it does not or when it lies
  -- in one of the known-bad ranges; a known-bad range that does not parse counts for nothing.
  pub check_version_requirement-reports :
      (active : Active) (known_bad : List String) (missing_state : FindingState) (version : String)
      (v : Version) (range : SpecSet)
      → active.version ≡ some version
      → parse_version (codes version) ≡ some v
      → parse_spec (codes required_spec) ≡ some range
      → (findings : List Finding) × (check_version_requirement repr rule_prefix tool_name
            required_spec source evidence_excerpt
            (some active)
            known_bad
            missing_state
          ≡ findings)
        × (any is_pass findings ≡ satisfied_by range v)
        × (any is_error findings ≡ (not (satisfied_by range v) || any (lies_in v) known_bad))
  unfolding check_version_requirement
  check_version_requirement-reports active known_bad missing_state String.[] v range has reads
        parses =
      absurd (empty-fails reads)
  check_version_requirement-reports active known_bad missing_state (String.◌∷◌ c s) v range has
        reads parses =
      let version = String.◌∷◌ c s in
      let bad =
        known_bad_findings repr rule_prefix tool_name required_spec source evidence_excerpt version
          v known_bad in
      let last =
        range_finding repr rule_prefix tool_name required_spec source evidence_excerpt version
          (satisfied_by range v) in
      (
        bad ++ last ∷ [],
        subst
            (λ (o : Option String).
              check_version_requirement repr rule_prefix tool_name required_spec source
                evidence_excerpt (some (record { name = active.name; version = o })) known_bad
                missing_state
              ≡ bad ++ last ∷ [])
            (sym has)
            (rw (range_check-parsed version v range reads parses, check_version_requirement) refl),
        ground (arith, any-append is_pass bad (last ∷ []), known_bad-pass version v known_bad),
        ground (arith, any-append is_error bad (last ∷ []), known_bad-error version v known_bad),
      )
