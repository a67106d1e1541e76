-- ===== src/Agents/Briefing.antt =====
-- agents/blast_radius.py: `assess_blast_radius` and its parts. Each part returns what the source appends to
-- the list of exposures.
use devrepro_doctor.Prelude.{
  ℕ, ◌+◌, ◌*◌, ◌-◌, String, Bool, true, false, not, ◌&&◌, none, some, List, [], ◌∷◌, ◌++◌, map,
  filter, length, any, all, take, ltb, str_eq, if◌then◌else◌, lookup, sort_strings,
}
use devrepro_doctor.Prelude.Printing.{show, text, join}
use devrepro_doctor.Versioning.{Text}
use devrepro_doctor.Versioning.Text.{strip, is_digit}
use devrepro_doctor.Contract.Git.{RunResult, split_lines, git}
use devrepro_doctor.Agents.{some_of}
use devrepro_doctor.Agents.Radius.{
  Exposure, BlastRadius, looks_like_credential_name, env_target_vars, ambient_credential_files,
  names_production, points_at_production,
}

abbrev pub exposed_if : Bool → Exposure → List Exposure
exposed_if true exposure = exposure ∷ []
exposed_if false exposure = []

-- `int(text)` of digits.
abbrev pub number : ℕ → Text → ℕ
number n [] = n
number n (c ∷ cs) = number (10 * n + (c - b'0')) cs

abbrev pub uncommitted : ℕ → Exposure
uncommitted count = record {
  kind = "uncommitted-work";
  severity = if ltb count 20 then "medium" else "high";
  summary = text (show count ∷ " uncommitted change(s) in the working tree." ∷ []);
  detail =
      "An agent that resets, checks out or cleans will destroy work that exists nowhere else. Commit or stash before handing the repository over.";
  evidence = some (text (show count ∷ " entries from `git status --porcelain`" ∷ []));
}

abbrev pub unpushed : ℕ → Exposure
unpushed count = record {
  kind = "unpushed-commits";
  severity = "medium";
  summary = text (show count ∷ " commit(s) not pushed to the upstream branch." ∷ []);
  detail = "These exist only on this machine. A hard reset or a force-push by an agent loses them.";
  evidence = some "git rev-list --count @{upstream}..HEAD";
}

-- How many commits `git` counts, or none where it does not say.
abbrev pub ahead_of : RunResult → ℕ
ahead_of rev =
    let answer = strip rev.stdout in
    if rev.is_ok && (some_of answer && all is_digit answer) then number 0 answer else 0

-- `_git_state`: the uncommitted files, the unpushed commits, and what they expose.
unfoldable pub git_state : (List String → RunResult) → String → ℕ × (ℕ × List Exposure)
unfolding strip split_lines
git_state run root =
    let status = run (git root ("status" ∷ "--porcelain" ∷ [])) in
    let changed = length (filter (λ line. some_of (strip line)) (split_lines status.stdout)) in
    let ahead = ahead_of (run (git root ("rev-list" ∷ "--count" ∷ "@{upstream}..HEAD" ∷ []))) in
    if not status.is_ok then (0, (0, [])) else (
      changed,
      (
        ahead,
        exposed_if (ltb 0 changed) (uncommitted changed)
            ++ exposed_if (ltb 0 ahead) (unpushed ahead),
      ),
    )

abbrev pub credentials : List String → Exposure
credentials names = record {
  kind = "inherited-credentials";
  severity = if ltb 3 (length names) then "high" else "medium";
  summary = text (show (length names) ∷ " credential-shaped variable(s) in this environment." ∷ []);
  detail =
      "Every subprocess an agent starts inherits these. Anything it runs -- a build script, a test, a package postinstall -- can use them. Values are never read by devrepro; only the names are listed.";
  evidence = some (join ", " (take 8 names));
}

unfoldable pub credential_like : List (String × String) → List String
unfolding looks_like_credential_name
credential_like env =
    sort_strings
      (filter looks_like_credential_name (map (λ (entry : String × String). entry.0) env))

abbrev pub credential_exposure : List String → List Exposure
credential_exposure names = exposed_if (some_of names) (credentials names)

abbrev pub production_target : List String → Exposure
production_target pointing = record {
  kind = "production-target";
  severity = "high";
  summary = "This shell is configured against a production target.";
  detail =
      "An agent inherits this. A command that would be harmless against a development environment is not harmless here -- this is the configuration behind the published incidents where an agent deleted a production database.";
  evidence = some (join "; " pointing);
}

abbrev pub kubernetes_context : (Text → String) → Text → Exposure
kubernetes_context repr name = record {
  kind = "kubernetes-context";
  severity = if names_production name then "high" else "info";
  summary = text ("kubectl is pointed at " ∷ repr name ∷ "." ∷ []);
  detail = text (
      "Any kubectl an agent runs goes to this cluster."
      ∷ (if names_production name
          then " The context name suggests production."
          else " The name does not look like production, but confirm it.")
      ∷ []);
  evidence = some "kubectl config current-context";
}

abbrev pub shown_target : List (String × String) → String → String
shown_target env var = elim (lookup var env) [
  | none ↦ var
  | some value ↦ text (var ∷ "=" ∷ value ∷ [])
]

unfoldable pub production_exposure :
    (Text → String) → (List String → RunResult) → List (String × String) → List Exposure
unfolding points_at_production strip
production_exposure repr run env =
    let pointing = filter (points_at_production env) env_target_vars in
    let context = run ("kubectl" ∷ "config" ∷ "current-context" ∷ []) in
    let name = strip context.stdout in
    exposed_if (some_of pointing) (production_target (map (shown_target env) pointing))
    ++ exposed_if (context.is_ok && some_of name) (kubernetes_context repr name)

abbrev pub ambient : List String → Exposure
ambient present = record {
  kind = "ambient-credentials";
  severity = "medium";
  summary =
      text (show (length present) ∷ " authenticated CLI credential store(s) on this machine." ∷ []);
  detail =
      "An agent does not need a token in the environment to use these; the CLI reads them from disk. Nothing in the shell reveals that the authority is present.";
  evidence = some (join ", " present);
}

-- `_ambient_credentials`, with what exists in the home directory.
unfoldable pub ambient_exposure : (String → Bool) → List Exposure
ambient_exposure exists =
    let present =
      map (λ (file : String × String). file.1)
        (filter (λ (file : String × String). exists file.0) ambient_credential_files) in
    exposed_if (some_of present) (ambient present)

abbrev pub privilege_exposure : Bool → List Exposure
privilege_exposure is_root = exposed_if is_root (record {
  kind = "elevated-privileges";
  severity = "high";
  summary = "Running as root.";
  detail =
      "An agent's mistakes are unbounded by file permissions here. There is rarely a reason to develop as root, and every reason not to hand root to an autonomous process.";
  evidence = some "os.geteuid() == 0";
})

-- The environment's variables are distinct.
unfoldable pub assess_blast_radius :
    (Text → String)
    → (List String → RunResult)
    → (String → Bool)
    → Bool
    → String
    → List (String × String)
    → BlastRadius
unfolding git_state credential_like production_exposure ambient_exposure
assess_blast_radius repr run exists is_root root env =
    let (uncommitted_files, (unpushed_commits, work)) = git_state run root in
    let names = credential_like env in
    record {
      root = root;
      exposures =
          work
          ++ (credential_exposure names
              ++ (production_exposure repr run env
                  ++ (ambient_exposure exists ++ privilege_exposure is_root)));
      uncommitted_files = uncommitted_files;
      unpushed_commits = unpushed_commits;
      credential_names = names;
    }

abbrev pub has_severity : String → BlastRadius → Bool
has_severity level radius = any (λ (e : Exposure). str_eq e.severity level) radius.exposures

unfoldable pub highest_severity : BlastRadius → String
highest_severity radius =
    if has_severity "high" radius
    then "high"
    else if has_severity "medium" radius
    then "medium"
    else if has_severity "info" radius
    then "info"
    else "none"
