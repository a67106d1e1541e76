-- ===== src/Agents/Radius.antt =====
-- agents/blast_radius.py: what an agent could reach from a shell. The programs that it runs answer through
-- a parameter, as do the home directory and the effective user; Python's `repr` of a text is a parameter.
-- Values and names are ASCII.
use devrepro_doctor.Prelude.{
  ℕ, ◌+◌, String, Bool, true, false, ◌&&◌, ◌||◌, Option, none, some, List, [], ◌∷◌, ◌++◌, map, any,
  leb, ◌==◌, if◌then◌else◌, lookup,
}
use devrepro_doctor.Prelude.Printing.{text}
use devrepro_doctor.Versioning.{Text}
use devrepro_doctor.Versioning.Text.{codes}
use devrepro_doctor.Versioning.Spec.{after_prefix}
use devrepro_doctor.Contract.{any_suffix}
use devrepro_doctor.Agents.{some_of}

pub record Exposure : Type 0 where
  pub kind : String
  pub severity : String
  pub summary : String
  pub detail : String
  pub evidence : Option String

pub record BlastRadius : Type 0 where
  pub root : String
  pub exposures : List Exposure
  pub uncommitted_files : ℕ
  pub unpushed_commits : ℕ
  pub credential_names : List String

abbrev pub lower : Text → Text
lower s = map (λ c. if leb b'A' c && leb c b'Z' then c + 32 else c) s

-- `part in text`
unfoldable pub has_part : Text → Text → Bool
unfolding after_prefix
has_part part s =
    any_suffix (λ rest. elim (after_prefix part rest) [ none ↦ false | some after ↦ true ]) s

-- The alternatives of `CREDENTIAL_NAME_PATTERN`, with its optional separators written out, but for `_pat$`.
abbrev pub separated : String → List String → List String
separated before [] = []
separated before (after ∷ more) =
    text (before ∷ after ∷ [])
    ∷ text (before ∷ "_" ∷ after ∷ [])
    ∷ text (before ∷ "-" ∷ after ∷ [])
    ∷ separated before more

abbrev pub credential_parts : List String
credential_parts =
    ("password" ∷ "passwd" ∷ "secret" ∷ "token" ∷ "credential" ∷ [])
    ++ (separated "api" ("key" ∷ [])
        ++ (separated "private" ("key" ∷ [])
            ++ (separated "access" ("key" ∷ [])
                ++ (separated "session" ("token" ∷ "key" ∷ "secret" ∷ [])
                    ++ separated "auth" ("token" ∷ "key" ∷ [])))))

-- `$` stands before the end, or before a newline there.
abbrev pub is_end : Option Text → Bool
is_end none = false
is_end (some []) = true
is_end (some (c ∷ [])) = c == 10
is_end (some (c ∷ d ∷ cs)) = false

unfoldable pub looks_like_credential_name : String → Bool
unfolding has_part after_prefix
looks_like_credential_name name =
    let lowered = lower (codes name) in
    any (λ part. has_part (codes part) lowered) credential_parts
    || any_suffix (λ rest. is_end (after_prefix (codes "_pat") rest)) lowered

abbrev pub production_markers : List String
production_markers = "prod" ∷ "production" ∷ "live" ∷ "prd" ∷ []

abbrev pub env_target_vars : List String
env_target_vars =
    "NODE_ENV" ∷ "RAILS_ENV" ∷ "DJANGO_SETTINGS_MODULE" ∷ "ASPNETCORE_ENVIRONMENT" ∷ "APP_ENV"
    ∷ "ENVIRONMENT" ∷ "DEPLOY_ENV" ∷ "STAGE" ∷ "AWS_PROFILE" ∷ "AWS_DEFAULT_PROFILE"
    ∷ "GOOGLE_CLOUD_PROJECT" ∷ "AZURE_SUBSCRIPTION_ID" ∷ "VERCEL_ENV" ∷ "FLY_APP_NAME" ∷ []

abbrev pub ambient_credential_files : List (String × String)
ambient_credential_files =
    (".aws/credentials", "AWS CLI credentials")
    ∷ (".config/gcloud/credentials.db", "gcloud credentials")
    ∷ (".azure/msal_token_cache.json", "Azure CLI token cache")
    ∷ (".kube/config", "Kubernetes cluster credentials")
    ∷ (".docker/config.json", "Docker registry credentials")
    ∷ (".npmrc", "npm registry token")
    ∷ (".pypirc", "PyPI upload credentials")
    ∷ []

abbrev pub names_production : Text → Bool
names_production value = any (λ marker. has_part (codes marker) (lower value)) production_markers

-- The shell's variable names a production target; a value that is empty does not.
unfoldable pub points_at_production : List (String × String) → String → Bool
unfolding has_part
points_at_production env var = elim (lookup var env) [
  | none ↦ false
  | some value ↦ some_of (codes value) && names_production (codes value)
]
