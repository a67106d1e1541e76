-- ===== src/Baselines/Approval.antt =====
-- When the entries of a difference hold no blocker and no warning, by the tests of the code.
use devrepro_doctor.Prelude.{
  ℕ, ◌≡◌, refl, ap, ◌∙◌, String, Bool, true, false, not, ◌&&◌, ◌||◌, Option, none, some, List, [],
  ◌∷◌, ◌++◌, map, filter, any, all, ltb, leb, str_eq, lookup, contains, sort, arith, Bool-cases,
  if_ind, if_cases, inl, inr,
}
use devrepro_doctor.Prelude.Sorting.{all-sort}
use devrepro_doctor.Baselines.{
  Baseline, BaselineDiffEntry, severity_of, blockers, warnings, is_satisfied, required_tool_entry,
  item_leb, env_entry, docker_entries, duplicates_entries, diff_against_baseline,
}

abbrev pub is_none : List BaselineDiffEntry → Bool
is_none [] = true
is_none (e ∷ es) = false

abbrev blocks : BaselineDiffEntry → Bool
blocks e = str_eq e.severity "blocker"

abbrev warns : BaselineDiffEntry → Bool
warns e = str_eq e.severity "warn"

-- The machine has the tool, and the test of its version passes.
abbrev pub is_met : Option String → String → Bool
is_met none spec = false
is_met (some actual) spec = is_satisfied spec actual

abbrev pub has_tool : List (String × String) → String × String → Bool
has_tool machine_tools t = is_met (lookup t.0 machine_tools) t.1

is_none-filter :
    (p : BaselineDiffEntry → Bool) (es : List BaselineDiffEntry)
    → is_none (filter p es) ≡ not (any p es)
is_none-filter p [] = refl
is_none-filter p (e ∷ es) = elim (Bool-cases (p e)) [
  | inl h ↦ rw h refl
  | inr h ↦ rw h (is_none-filter p es)
]

any-append :
    (p : BaselineDiffEntry → Bool) (xs ys : List BaselineDiffEntry)
    → any p (xs ++ ys) ≡ (any p xs || any p ys)
any-append p [] ys = refl
any-append p (x ∷ xs) ys = ground (arith, any-append p xs ys)

-- What no entry of a list does.
any-map {ℓ} :
    {A : Type ℓ} (p : BaselineDiffEntry → Bool) (f : A → BaselineDiffEntry) (q : A → Bool)
    → ((x : A) → p (f x) ≡ not (q x))
    → (xs : List A) → any p (map f xs) ≡ not (all q xs)
any-map p f q h [] = refl
any-map p f q h (x ∷ xs) = ground (arith, h x, any-map p f q h xs)

blocks-severity_of : (ok : Bool) → str_eq (severity_of ok) "blocker" ≡ not ok
blocks-severity_of true = refl
blocks-severity_of false = refl

blocks-required_tool_entry :
    (tool spec : String) (actual : Option String)
    → blocks (required_tool_entry tool spec actual) ≡ not (is_met actual spec)
unfolding required_tool_entry
blocks-required_tool_entry tool spec none = refl
blocks-required_tool_entry tool spec (some actual) = blocks-severity_of (is_satisfied spec actual)

blocks-env_entry :
    (names : List String) (name : String)
    → blocks (env_entry names name) ≡ not (contains name names)
unfolding env_entry
blocks-env_entry names name = blocks-severity_of (contains name names)

blocks-docker_entries :
    (required available : Bool)
    → any blocks (docker_entries required available) ≡ not (not required || available)
unfolding docker_entries
blocks-docker_entries true true = refl
blocks-docker_entries true false = refl
blocks-docker_entries false available = refl

blocks-duplicates_entries :
    (most duplicates : ℕ) → any blocks (duplicates_entries most duplicates) ≡ false
unfolding duplicates_entries
blocks-duplicates_entries most duplicates =
    if_ind (λ es. any blocks es ≡ false) (ltb most duplicates) refl refl

warns-severity_of : (ok : Bool) → str_eq (severity_of ok) "warn" ≡ false
warns-severity_of true = refl
warns-severity_of false = refl

warns-required_tool_entry :
    (tool spec : String) (actual : Option String)
    → warns (required_tool_entry tool spec actual) ≡ false
unfolding required_tool_entry
warns-required_tool_entry tool spec none = refl
warns-required_tool_entry tool spec (some actual) = warns-severity_of (is_satisfied spec actual)

warns-docker_entries :
    (required available : Bool) → any warns (docker_entries required available) ≡ false
unfolding docker_entries
warns-docker_entries true true = refl
warns-docker_entries true false = refl
warns-docker_entries false available = refl

warns-duplicates_entries :
    (most duplicates : ℕ) → any warns (duplicates_entries most duplicates) ≡ ltb most duplicates
unfolding duplicates_entries
warns-duplicates_entries most duplicates =
    if_cases (λ es. any warns es ≡ ltb most duplicates) (ltb most duplicates)
      (λ h. ground (arith, h)) (λ h. ground (arith, h))

any-map-none {ℓ} :
    {A : Type ℓ} (p : BaselineDiffEntry → Bool) (f : A → BaselineDiffEntry)
    → ((x : A) → p (f x) ≡ false)
    → (xs : List A) → any p (map f xs) ≡ false
any-map-none p f h [] = refl
any-map-none p f h (x ∷ xs) = ground (arith, h x, any-map-none p f h xs)

module _ (baseline : Baseline) (machine_tools : List (String × String))
    (machine_env_names : List String) (docker_available : Bool) (path_duplicates : ℕ) where
  abbrev tools_compared : List BaselineDiffEntry
  tools_compared =
      map (λ (t : String × String). required_tool_entry t.0 t.1 (lookup t.0 machine_tools))
        (sort item_leb baseline.tools)

  abbrev env_entries : List BaselineDiffEntry
  env_entries = map (env_entry machine_env_names) baseline.required_env_names

  abbrev all_entries : List BaselineDiffEntry
  all_entries =
      tools_compared
      ++ (env_entries
          ++ (docker_entries baseline.require_docker docker_available
              ++ duplicates_entries baseline.max_path_duplicates path_duplicates))

  any-all_entries :
      (p : BaselineDiffEntry → Bool)
      → any p all_entries ≡ (
          any p tools_compared
          || (any p env_entries
              || (any p (docker_entries baseline.require_docker docker_available)
                  || any p (duplicates_entries baseline.max_path_duplicates path_duplicates))))
  any-all_entries p =
      let docker = docker_entries baseline.require_docker docker_available in
      let path = duplicates_entries baseline.max_path_duplicates path_duplicates in
      any-append p tools_compared (env_entries ++ (docker ++ path))
      ∙ ap (λ b. any p tools_compared || b)
          (any-append p env_entries (docker ++ path)
            ∙ ap (λ b. any p env_entries || b) (any-append p docker path))

  pub is_none-diff_against_baseline :
      let difference =
        diff_against_baseline baseline machine_tools machine_env_names docker_available
          path_duplicates in
      (is_none (blockers difference) ≡ (
        all (has_tool machine_tools) baseline.tools
        && (all (λ name. contains name machine_env_names) baseline.required_env_names
            && (not baseline.require_docker || docker_available))))
      × (is_none (warnings difference) ≡ leb path_duplicates baseline.max_path_duplicates)
  unfolding diff_against_baseline env_entry
  is_none-diff_against_baseline =
      let tool : String × String → BaselineDiffEntry =
        λ t. required_tool_entry t.0 t.1 (lookup t.0 machine_tools) in
      let tools =
        any-map blocks tool (has_tool machine_tools)
          (λ t. blocks-required_tool_entry t.0 t.1 (lookup t.0 machine_tools))
          (sort item_leb baseline.tools) in
      let names =
        any-map blocks (env_entry machine_env_names) (λ name. contains name machine_env_names)
          (blocks-env_entry machine_env_names) baseline.required_env_names in
      let calm_tools =
        any-map-none warns tool (λ t. warns-required_tool_entry t.0 t.1 (lookup t.0 machine_tools))
          (sort item_leb baseline.tools) in
      let calm_names =
        any-map-none warns (env_entry machine_env_names)
          (λ name. warns-severity_of (contains name machine_env_names))
          baseline.required_env_names in
      (
        is_none-filter blocks all_entries
            ∙ ap not (any-all_entries blocks)
            ∙ ground (
              arith,
              tools,
              names,
              all-sort item_leb (has_tool machine_tools) baseline.tools,
              blocks-docker_entries baseline.require_docker docker_available,
              blocks-duplicates_entries baseline.max_path_duplicates path_duplicates,
            ),
        is_none-filter warns all_entries
            ∙ ap not (any-all_entries warns)
            ∙ ground (
              arith,
              calm_tools,
              calm_names,
              warns-docker_entries baseline.require_docker docker_available,
              warns-duplicates_entries baseline.max_path_duplicates path_duplicates,
            ),
      )
