-- ===== src/Agents/Refusal.antt =====
-- When `evaluate_gate` lets a session start.
use devrepro_doctor.Prelude.{
  ℕ, ◌≡◌, refl, ap, ◌∙◌, String, Bool, true, false, not, ◌&&◌, ◌||◌, Option, none, some, List, [],
  ◌∷◌, ◌++◌, map, any, filter, length, ltb, leb, if_ind, if◌then◌else◌, arith, Bool-cases, inl, inr,
}
use devrepro_doctor.Versioning.{Text}
use devrepro_doctor.Versioning.Text.{strip}
use devrepro_doctor.Contract.Git.{RunResult, git, split_lines}
use devrepro_doctor.Agents.{AgentReadiness, percent, some_of}
use devrepro_doctor.Agents.Radius.{
  Exposure, BlastRadius, env_target_vars, ambient_credential_files, points_at_production,
}
use devrepro_doctor.Agents.Briefing.{
  exposed_if, credentials, production_target, shown_target, kubernetes_context, ambient,
  uncommitted, unpushed, ahead_of, git_state, credential_like, credential_exposure,
  production_exposure, ambient_exposure, privilege_exposure, assess_blast_radius,
}
use devrepro_doctor.Agents.Gate.{
  readiness_reasons, is_production, production_reasons, evaluate_gate,
}

-- The briefing, if there is one, has an exposure of a production kind.
abbrev pub is_exposed : Option BlastRadius → Bool
is_exposed none = false
is_exposed (some radius) = any is_production radius.exposures

some_of-append {ℓ} : {A : Type ℓ} (xs ys : List A) → some_of (xs ++ ys) ≡ (some_of xs || some_of ys)
some_of-append [] ys = refl
some_of-append (x ∷ xs) ys = refl

some_of-filter {ℓ} : {A : Type ℓ} (p : A → Bool) (xs : List A) → some_of (filter p xs) ≡ any p xs
some_of-filter p [] = refl
some_of-filter p (x ∷ xs) = elim (Bool-cases (p x)) [
  | inl e ↦ rw e refl
  | inr e ↦ rw e (some_of-filter p xs)
]

some_of-one {ℓ} : {A : Type ℓ} (b : Bool) (x : A) → some_of (if b then x ∷ [] else []) ≡ b
some_of-one true x = refl
some_of-one false x = refl

some_of-readiness_reasons :
    (r : AgentReadiness) (threshold : ℕ)
    → some_of (readiness_reasons r threshold) ≡ ltb (percent r) threshold
unfolding readiness_reasons
some_of-readiness_reasons r threshold = some_of-one (ltb (percent r) threshold) _

some_of-production_reasons :
    (radius : Option BlastRadius) (block : Bool)
    → some_of (production_reasons radius block) ≡ (block && is_exposed radius)
unfolding production_reasons
some_of-production_reasons none block = ground arith
some_of-production_reasons (some radius) block =
    some_of-one (block && some_of (filter is_production radius.exposures)) _
    ∙ ap (λ b. block && b) (some_of-filter is_production radius.exposures)

-- A session is let in just when the readiness reaches the threshold and, if production blocks, the briefing
-- has no exposure of a production kind.
pub allowed-evaluate_gate :
    (r : AgentReadiness) (radius : Option BlastRadius) (threshold : ℕ) (block : Bool)
    → let verdict = evaluate_gate r radius threshold block in
      verdict.allowed ≡ (leb threshold (percent r) && not (block && is_exposed radius))
unfolding evaluate_gate
allowed-evaluate_gate r radius threshold block = ground (
  arith,
  some_of-append (readiness_reasons r threshold) (production_reasons radius block),
  some_of-readiness_reasons r threshold,
  some_of-production_reasons radius block,
)

any-append {ℓ} :
    {A : Type ℓ} (p : A → Bool) (xs ys : List A) → any p (xs ++ ys) ≡ (any p xs || any p ys)
any-append p [] ys = refl
any-append p (x ∷ xs) ys = ground (arith, any-append p xs ys)

-- Which of the exposures are of a production kind.
any-exposed_if :
    (b : Bool) (e : Exposure) → any is_production (exposed_if b e) ≡ (b && is_production e)
any-exposed_if true e = ground arith
any-exposed_if false e = refl

none_if :
    (b : Bool) (e : Exposure) → is_production e ≡ false → any is_production (exposed_if b e) ≡ false
none_if true e h = ground arith
none_if false e h = refl

or_false : (b : Bool) → (b || false) ≡ b
or_false true = refl
or_false false = refl

-- Of two lists of exposures, the first without one of a production kind, or the second.
none_before :
    (xs ys : List Exposure) (b : Bool)
    → any is_production xs ≡ false
    → any is_production ys ≡ b
    → any is_production (xs ++ ys) ≡ b
none_before xs ys b hx hy =
    any-append is_production xs ys ∙ ap (λ x. x || any is_production ys) hx ∙ hy

none_after :
    (xs ys : List Exposure) (b : Bool)
    → any is_production xs ≡ b
    → any is_production ys ≡ false
    → any is_production (xs ++ ys) ≡ b
none_after xs ys b hx hy =
    any-append is_production xs ys
    ∙ ap (λ y. any is_production xs || y) hy
    ∙ or_false (any is_production xs)
    ∙ hx

module _ (repr : Text → String) (run : List String → RunResult) (exists : String → Bool)
    (is_root : Bool) (root : String) (env : List (String × String)) where
  work_exposed : let work = git_state run root in any is_production work.1.1 ≡ false
  unfolding git_state is_production
  work_exposed =
      let status = run (git root ("status" ∷ "--porcelain" ∷ [])) in
      let changed = length (filter (λ line. some_of (strip line)) (split_lines status.stdout)) in
      let ahead = ahead_of (run (git root ("rev-list" ∷ "--count" ∷ "@{upstream}..HEAD" ∷ []))) in
      if_ind (λ (st : ℕ × (ℕ × List Exposure)). any is_production st.1.1 ≡ false) (not status.is_ok)
        refl
        (none_before (exposed_if (ltb 0 changed) (uncommitted changed))
          (exposed_if (ltb 0 ahead) (unpushed ahead)) false
          (none_if (ltb 0 changed) (uncommitted changed) refl)
          (none_if (ltb 0 ahead) (unpushed ahead) refl))

  ambient_exposed : any is_production (ambient_exposure exists) ≡ false
  unfolding ambient_exposure is_production
  ambient_exposed =
      let present =
        map (λ (file : String × String). file.1)
          (filter (λ (file : String × String). exists file.0) ambient_credential_files) in
      none_if (some_of present) (ambient present) refl

  targeted : (b : Bool) → (b && true) ≡ b
  targeted true = refl
  targeted false = refl

  production_exposed :
      any is_production (production_exposure repr run env)
      ≡ any (points_at_production env) env_target_vars
  unfolding production_exposure is_production
  production_exposed =
      let pointing = filter (points_at_production env) env_target_vars in
      let target = production_target (map (shown_target env) pointing) in
      let context = run ("kubectl" ∷ "config" ∷ "current-context" ∷ []) in
      let name = strip context.stdout in
      let cluster = context.is_ok && some_of name in
      none_after (exposed_if (some_of pointing) target)
        (exposed_if cluster (kubernetes_context repr name))
        (any (points_at_production env) env_target_vars)
        (any-exposed_if (some_of pointing) target
          ∙ targeted (some_of pointing)
          ∙ some_of-filter (points_at_production env) env_target_vars)
        (none_if cluster (kubernetes_context repr name) refl)

  -- With production blocking, a session is let in just when the readiness reaches the threshold and none of
  -- the variables that name a deployment target points at production: of the whole briefing, what
  -- `git` and `kubectl` print, the credentials and the privileges do not count.
  pub evaluate_gate-assess_blast_radius :
      (r : AgentReadiness) (threshold : ℕ)
      → let verdict =
          evaluate_gate r
            (some (assess_blast_radius repr run exists is_root root env))
            threshold
            true in
        verdict.allowed
        ≡ (leb threshold (percent r) && not (any (points_at_production env) env_target_vars))
  unfolding assess_blast_radius is_production
  evaluate_gate-assess_blast_radius r threshold =
      let radius = assess_blast_radius repr run exists is_root root env in
      let work = git_state run root in
      let names = credential_like env in
      let shell = production_exposure repr run env in
      let rest = ambient_exposure exists ++ privilege_exposure is_root in
      let ambients : any is_production (ambient_exposure exists) ≡ false = ambient_exposed in
      let others : any is_production rest ≡ false =
        none_before (ambient_exposure exists) (privilege_exposure is_root) false ambients
          (none_if is_root _ refl) in
      let exposed : any is_production radius.exposures
          ≡ any (points_at_production env) env_target_vars =
        none_before work.1.1 (credential_exposure names ++ (shell ++ rest)) _ work_exposed (
          none_before (credential_exposure names) (shell ++ rest) _
            (none_if (some_of names) (credentials names) refl)
            (none_after shell rest _ production_exposed others)) in
      allowed-evaluate_gate r (some radius) threshold true
      ∙ ap (λ b. leb threshold (percent r) && not b) exposed
