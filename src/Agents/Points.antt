-- ===== src/Agents/Points.antt =====
-- How many points a repository gets, and when it gets them all.
use devrepro_doctor.Prelude.{
  ℕ, ◌+◌, ◌*◌, ◌≤◌, ◌≡◌, refl, sym, subst, ap, ◌∙◌, String, Bool, not, ◌&&◌, ◌||◌, List, [], ◌∷◌,
  length, ltb, ◌==◌, if◌then◌else◌, All, arith, Bool-cases, inl, inr,
}
use devrepro_doctor.Agents.{
  ReadinessFactor, AgentReadiness, AgentManifest, CommandCheck, percent, round_ratio, some_of,
  manifest_present, runnable_of, with_status, commands_declared, commands_resolve, commands_current,
  matches_ci, manifests_agree, score_readiness,
}

-- A factor is worth so many points and has no more.
abbrev IsWorth : ℕ → ReadinessFactor → Type 0
IsWorth points f = (f.possible ≡ points) × (f.earned ≤ f.possible)

manifest_present-IsWorth : (manifests : List AgentManifest) → IsWorth 3 (manifest_present manifests)
unfolding manifest_present
manifest_present-IsWorth [] = (refl, omega arith)
manifest_present-IsWorth (m ∷ ms) = (refl, omega arith)

commands_declared-IsWorth : (checks : List CommandCheck) → IsWorth 2 (commands_declared checks)
unfolding commands_declared
commands_declared-IsWorth [] = (refl, omega arith)
commands_declared-IsWorth (c ∷ cs) = (refl, omega arith)

commands_resolve-IsWorth :
    (runnable missing off_path : List CommandCheck)
    → IsWorth 4 (commands_resolve runnable missing off_path)
unfolding commands_resolve
commands_resolve-IsWorth [] missing off_path = (refl, omega arith)
commands_resolve-IsWorth (c ∷ cs) (m ∷ ms) off_path = (refl, omega arith)
commands_resolve-IsWorth (c ∷ cs) [] (o ∷ os) = (refl, omega arith)
commands_resolve-IsWorth (c ∷ cs) [] [] = (refl, omega arith)

commands_current-IsWorth {ℓ} : {S : Type ℓ} (stale : List S) → IsWorth 3 (commands_current stale)
unfolding commands_current
commands_current-IsWorth [] = (refl, omega arith)
commands_current-IsWorth (s ∷ ss) = (refl, omega arith)

matches_ci-IsWorth : (drift : List String) → IsWorth 3 (matches_ci drift)
unfolding matches_ci
matches_ci-IsWorth [] = (refl, omega arith)
matches_ci-IsWorth (s ∷ ss) = (refl, omega arith)

manifests_agree-IsWorth {ℓ} :
    {D : Type ℓ} (manifests : List AgentManifest) (disagreements : List D)
    → IsWorth 2 (manifests_agree manifests disagreements)
unfolding manifests_agree
manifests_agree-IsWorth manifests [] = elim (Bool-cases (ltb (length manifests) 2)) [
  | inl e ↦ rw e (refl, omega arith)
  | inr e ↦ rw e (refl, omega arith)
]
manifests_agree-IsWorth manifests (d ∷ ds) = elim (Bool-cases (ltb (length manifests) 2)) [
  | inl e ↦ rw e (refl, omega arith)
  | inr e ↦ rw e (refl, omega arith)
]

percent_of_17 : (total : ℕ) → total ≤ 17 → round_ratio (100 * total) 17 ≤ 100
percent_of_17 total h = ground arith

percent-bounds : (r : AgentReadiness) → r.possible ≡ 17 → r.total ≤ r.possible → percent r ≤ 100
unfolding percent
percent-bounds r worth part =
    subst (λ q. (if q == 0 then 0 else round_ratio (100 * r.total) q) ≤ 100) (sym worth)
      (percent_of_17 r.total (omega arith))

abbrev points : ℕ → Bool → ℕ
points n b = if b then n else 0

earned-manifest_present :
    (manifests : List AgentManifest)
    → let f = manifest_present manifests in f.earned ≡ points 3 (some_of manifests)
unfolding manifest_present
earned-manifest_present [] = refl
earned-manifest_present (m ∷ ms) = refl

earned-commands_declared :
    (checks : List CommandCheck)
    → let f = commands_declared checks in f.earned ≡ points 2 (some_of checks)
unfolding commands_declared
earned-commands_declared [] = refl
earned-commands_declared (c ∷ cs) = refl

abbrev resolve_points : Bool → Bool → Bool → ℕ
resolve_points runnable missing off_path =
    if not runnable then 0 else if missing then 0 else if off_path then 2 else 4

earned-commands_resolve :
    (runnable missing off_path : List CommandCheck)
    → let f = commands_resolve runnable missing off_path in
      f.earned ≡ resolve_points (some_of runnable) (some_of missing) (some_of off_path)
unfolding commands_resolve
earned-commands_resolve [] missing off_path = refl
earned-commands_resolve (c ∷ cs) (m ∷ ms) off_path = refl
earned-commands_resolve (c ∷ cs) [] (o ∷ os) = refl
earned-commands_resolve (c ∷ cs) [] [] = refl

earned-commands_current {ℓ} :
    {S : Type ℓ} (stale : List S)
    → let f = commands_current stale in f.earned ≡ points 3 (not (some_of stale))
unfolding commands_current
earned-commands_current [] = refl
earned-commands_current (s ∷ ss) = refl

earned-matches_ci :
    (drift : List String) → let f = matches_ci drift in f.earned ≡ points 3 (not (some_of drift))
unfolding matches_ci
earned-matches_ci [] = refl
earned-matches_ci (s ∷ ss) = refl

earned-manifests_agree {ℓ} :
    {D : Type ℓ} (manifests : List AgentManifest) (disagreements : List D)
    → let f = manifests_agree manifests disagreements in
      f.earned ≡ points 2 (ltb (length manifests) 2 || not (some_of disagreements))
unfolding manifests_agree
earned-manifests_agree manifests [] = elim (Bool-cases (ltb (length manifests) 2)) [
  | inl e ↦ rw e refl
  | inr e ↦ rw e refl
]
earned-manifests_agree manifests (d ∷ ds) = elim (Bool-cases (ltb (length manifests) 2)) [
  | inl e ↦ rw e refl
  | inr e ↦ rw e refl
]

abbrev all_points : Bool → Bool → Bool → Bool → Bool → Bool → Bool → ℕ
all_points manifest runnable missing off_path stale drift agree =
    points 3 manifest
    + (points 2 runnable
        + (resolve_points runnable missing off_path
            + (points 3 (not stale) + (points 3 (not drift) + (points 2 agree + 0)))))

full :
    (manifest runnable missing off_path stale drift single disagree : Bool)
    → (all_points manifest runnable missing off_path stale drift (single || not disagree) == 17) ≡ (
        manifest
        && (runnable
            && (not missing
                && (not off_path && (not stale && (not drift && (single || not disagree)))))))
full manifest runnable missing off_path stale drift single disagree = ground arith

module _ {ℓ κ} {S : Type ℓ} {D : Type κ} (manifests : List AgentManifest)
    (checks : List CommandCheck) (drift : List String) (stale : List S)
    (disagreements : List D) where
  -- A repository is scored out of 17 points. No factor earns more than it is worth, nor does the sum of
  -- them, and the percentage is at most 100.
  pub score_readiness-bounds :
      let readiness = score_readiness manifests checks drift stale disagreements in
      (readiness.possible ≡ 17)
      × (readiness.total ≤ readiness.possible)
      × All (λ (f : ReadinessFactor). f.earned ≤ f.possible) readiness.factors
      × (percent readiness ≤ 100)
  unfolding score_readiness
  score_readiness-bounds =
      let present = manifest_present-IsWorth manifests in
      let declared = commands_declared-IsWorth (runnable_of checks) in
      let resolve =
        commands_resolve-IsWorth (runnable_of checks) (with_status "missing" checks)
          (with_status "not-on-path" checks) in
      let current = commands_current-IsWorth stale in
      let ci = matches_ci-IsWorth drift in
      let agree = manifests_agree-IsWorth manifests disagreements in
      let readiness = score_readiness manifests checks drift stale disagreements in
      let worth : readiness.possible ≡ 17 = omega arith in
      let part : readiness.total ≤ readiness.possible = omega arith in
      (
        worth,
        part,
        (present.1, (declared.1, (resolve.1, (current.1, (ci.1, (agree.1, tt)))))),
        percent-bounds readiness worth part,
      )

  -- The commands resolve, the targets are current, CI is covered and the manifests agree.
  abbrev pub is_flawless : Bool
  is_flawless =
      some_of manifests
      && (some_of (runnable_of checks)
          && (not (some_of (with_status "missing" checks))
              && (not (some_of (with_status "not-on-path" checks))
                  && (not (some_of stale)
                      && (not (some_of drift)
                          && (ltb (length manifests) 2 || not (some_of disagreements)))))))

  -- A repository gets all the points just when it has a manifest and a runnable command, no command is
  -- missing or off the PATH, no target is stale, CI has no gate that no manifest mentions, and there are no
  -- two manifests that disagree.
  pub score_readiness-full :
      let readiness = score_readiness manifests checks drift stale disagreements in
      (readiness.total == readiness.possible) ≡ is_flawless
  unfolding score_readiness
  score_readiness-full =
      let readiness = score_readiness manifests checks drift stale disagreements in
      let runnable = runnable_of checks in
      let missing = with_status "missing" checks in
      let off_path = with_status "not-on-path" checks in
      let agree = ltb (length manifests) 2 || not (some_of disagreements) in
      let sum : readiness.total
          ≡ all_points (some_of manifests) (some_of runnable) (some_of missing) (some_of off_path)
              (some_of stale) (some_of drift) agree =
        cc (
          earned-manifest_present manifests,
          earned-commands_declared runnable,
          earned-commands_resolve runnable missing off_path,
          earned-commands_current stale,
          earned-matches_ci drift,
          earned-manifests_agree manifests disagreements,
        ) in
      ap (λ n. n == readiness.possible) sum
      ∙ ap
          (λ n.
            all_points (some_of manifests) (some_of runnable) (some_of missing) (some_of off_path)
              (some_of stale) (some_of drift) agree
            == n)
          score_readiness-bounds.0
      ∙ full (some_of manifests) (some_of runnable) (some_of missing) (some_of off_path)
          (some_of stale) (some_of drift) (ltb (length manifests) 2) (some_of disagreements)
