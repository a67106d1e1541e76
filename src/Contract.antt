-- ===== src/Contract.antt =====
-- project/contract.py: which files declare what the environment must provide. A text that is matched is the
-- list of its code points; a pattern of the table has `*` and plain characters only.
pub mod Git
pub mod Collect
pub mod Changes
pub mod Relevance
pub mod Glob
mod Samples
use Prim.Native.String.{◌++◌ as str_append}
use devrepro_doctor.Prelude.{
  ℕ, String, Bool, true, false, not, ◌&&◌, ◌||◌, Option, none, some, List, [], ◌∷◌, ◌++◌, ◌==◌, leb,
  str_eq, str_leb, if◌then◌else◌, any, map, drop, lookup, sort,
}
use devrepro_doctor.Versioning.{Text, compare_lists, is_gt}
use devrepro_doctor.Versioning.Text.{codes, strip, onto_first}
use devrepro_doctor.Versioning.Spec.{after_prefix, text_eq}

-- Some end of the text passes.
abbrev pub any_suffix : (Text → Bool) → Text → Bool
any_suffix passes [] = passes []
any_suffix passes (c ∷ cs) = passes (c ∷ cs) || any_suffix passes cs

-- `fnmatch.fnmatch`: `*` stands for any text, with slashes in it.
unfoldable pub glob : Text → Text → Bool
glob [] [] = true
glob [] (c ∷ cs) = false
glob (p ∷ ps) text =
    if p == b'*'
    then any_suffix (glob ps) text
    else elim text [ [] ↦ false | c ∷ cs ↦ p == c && glob ps cs ]

-- `CONTRACT_PATTERNS`: each pattern with its kind, the first match wins.
abbrev pub contract_patterns : List (String × String)
contract_patterns =
    (".devrepro.toml", "policy")
    ∷ ("**/.devrepro.toml", "policy")
    ∷ ("**/package-lock.json", "lockfile")
    ∷ ("**/pnpm-lock.yaml", "lockfile")
    ∷ ("**/yarn.lock", "lockfile")
    ∷ ("**/bun.lockb", "lockfile")
    ∷ ("**/poetry.lock", "lockfile")
    ∷ ("**/uv.lock", "lockfile")
    ∷ ("**/Pipfile.lock", "lockfile")
    ∷ ("**/Cargo.lock", "lockfile")
    ∷ ("**/composer.lock", "lockfile")
    ∷ ("**/Gemfile.lock", "lockfile")
    ∷ ("**/go.sum", "lockfile")
    ∷ ("**/pyproject.toml", "manifest")
    ∷ ("**/package.json", "manifest")
    ∷ ("**/go.mod", "manifest")
    ∷ ("**/Cargo.toml", "manifest")
    ∷ ("**/composer.json", "manifest")
    ∷ ("**/Gemfile", "manifest")
    ∷ ("**/pom.xml", "manifest")
    ∷ ("**/build.gradle", "manifest")
    ∷ ("**/build.gradle.kts", "manifest")
    ∷ ("**/*.csproj", "manifest")
    ∷ ("**/global.json", "manifest")
    ∷ ("**/requirements*.txt", "manifest")
    ∷ ("**/.nvmrc", "toolchain-pin")
    ∷ ("**/.node-version", "toolchain-pin")
    ∷ ("**/.python-version", "toolchain-pin")
    ∷ ("**/.ruby-version", "toolchain-pin")
    ∷ ("**/.java-version", "toolchain-pin")
    ∷ ("**/.tool-versions", "toolchain-pin")
    ∷ ("**/mise.toml", "toolchain-pin")
    ∷ ("**/.mise.toml", "toolchain-pin")
    ∷ ("**/rust-toolchain", "toolchain-pin")
    ∷ ("**/rust-toolchain.toml", "toolchain-pin")
    ∷ (".github/workflows/*.yml", "ci")
    ∷ (".github/workflows/*.yaml", "ci")
    ∷ (".gitlab-ci.yml", "ci")
    ∷ ("azure-pipelines.yml", "ci")
    ∷ ("Jenkinsfile", "ci")
    ∷ ("**/Dockerfile", "container")
    ∷ ("**/Dockerfile.*", "container")
    ∷ ("**/docker-compose*.yml", "container")
    ∷ ("**/compose*.yml", "container")
    ∷ ("**/devcontainer.json", "container")
    ∷ ("**/.env.example", "env-names")
    ∷ ("**/.env.sample", "env-names")
    ∷ ("AGENTS.md", "agent-manifest")
    ∷ ("CLAUDE.md", "agent-manifest")
    ∷ (".cursorrules", "agent-manifest")
    ∷ []

-- `path.replace("\\", "/")`
abbrev pub slashes : Text → Text
slashes text = map (λ c. if c == b'\\' then b'/' else c) text

-- `text.removeprefix("./")`
abbrev pub without_dot : Text → Text
without_dot [] = []
without_dot (c ∷ []) = c ∷ []
without_dot (c ∷ d ∷ cs) = if c == b'.' && d == b'/' then cs else c ∷ d ∷ cs

-- `text.rsplit("/", 1)[-1]`
unfoldable pub base_name : Text → Text
base_name [] = []
base_name (c ∷ cs) =
    let rest = base_name cs in
    if any (λ d. d == b'/') cs then rest else if c == b'/' then cs else c ∷ cs

-- What follows `**/` in a pattern that starts with it.
abbrev pub anywhere : Text → Option Text
anywhere (a ∷ b ∷ c ∷ rest) = if a == b'*' && b == b'*' && c == b'/' then some rest else none
anywhere _ = none

-- One turn of the loop of `classify_contract_path`.
unfoldable pub matches_pattern : Text → Text → Text → Bool
unfolding glob
matches_pattern path name pattern =
    glob pattern path
    || (elim (anywhere pattern) [ none ↦ false | some rest ↦ glob rest name ])
    || (not (any (λ c. c == b'/') pattern) && glob pattern name)

unfoldable pub first_kind : Text → Text → List (String × String) → Option String
unfolding matches_pattern
first_kind path name [] = none
first_kind path name ((pattern, kind) ∷ patterns) =
    let rest = first_kind path name patterns in
    if matches_pattern path name (codes pattern) then some kind else rest

unfoldable pub classify_contract_path : Text → Option String
unfolding first_kind base_name
classify_contract_path path =
    let normalised = without_dot (slashes path) in
    first_kind normalised (base_name normalised) contract_patterns
