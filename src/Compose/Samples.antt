-- ===== src/Compose/Samples.antt =====
-- A repository that extends a team and an organisation, where the team points back at the repository,
-- and the policies of the test of the source for a nearer layer.
use devrepro_doctor.Prelude.{◌≡◌, refl, String, some, List, [], ◌∷◌, str_eq, if◌then◌else◌, All}
use devrepro_doctor.Result.{Result, ok, err}
use devrepro_doctor.Compose.{PolicyError, missing_parent, chain}
use devrepro_doctor.Compose.Fuel.{chain-returns}
use devrepro_doctor.Compose.Layers.{IsChain, chain-IsChain}
use devrepro_doctor.Compose.Merge.{
  Policy, range, default_policy, merge, merge_layers, nothing_merged,
}
use devrepro_doctor.Compose.Merge.Nearest.{Agrees, mentions, merge_layers-Agrees}
use devrepro_doctor.Compose.Merge.Names.{IsAttributed, merge-IsAttributed}

abbrev extends_of : String → Result PolicyError (List String)
extends_of path =
    if str_eq path "repo"
    then ok ("team" ∷ "org" ∷ [])
    else if str_eq path "team"
    then ok ("org" ∷ "repo" ∷ [])
    else if str_eq path "org"
    then ok []
    else err missing_parent

cycle : chain extends_of "repo" ≡ some (ok ("repo" ∷ "team" ∷ "org" ∷ []))
unfolding chain
cycle = refl

missing : chain extends_of "elsewhere" ≡ some (err missing_parent)
unfolding chain
missing = refl

chain-returns_example : (r : Result PolicyError (List String)) × (chain extends_of "repo" ≡ some r)
chain-returns_example = chain-returns extends_of "repo"

chain-IsChain_example : IsChain extends_of "repo" ("repo" ∷ "team" ∷ "org" ∷ [])
unfolding chain
chain-IsChain_example = chain-IsChain extends_of "repo" ("repo" ∷ "team" ∷ "org" ∷ []) refl

abbrev repo : Policy
repo = record default_policy {
  required_runtimes = ("node", ">=20") ∷ [];
  required_env_names = "DATABASE_URL" ∷ [];
}

abbrev org : Policy
org = record default_policy {
  required_runtimes = ("node", ">=22") ∷ ("python", ">=3.12") ∷ [];
  required_tools = ("git", ">=2.40") ∷ [];
  required_env_names = "HTTP_PROXY" ∷ "DATABASE_URL" ∷ [];
}

abbrev parsed : List (String × Policy)
parsed = ("this project", repo) ∷ ("org paved road", org) ∷ []

abbrev show_versions : List String → String
show_versions vs = "(…)"

runs :
    ((merge show_versions parsed).0.required_runtimes
      ≡ ("node", ">=20") ∷ ("python", ">=3.12") ∷ [])
    × ((merge show_versions parsed).0.required_env_names ≡ "DATABASE_URL" ∷ "HTTP_PROXY" ∷ [])
    × ((merge show_versions parsed).1
        ≡ record {
          key = "required_runtimes.node";
          value = ">=20";
          layer = "this project";
          overrides = "org paved road" ∷ [];
        }
          ∷ record {
            key = "required_runtimes.python";
            value = ">=3.12";
            layer = "org paved road";
            overrides = [];
          }
          ∷ record {
            key = "required_tools.git";
            value = ">=2.40";
            layer = "org paved road";
            overrides = [];
          }
          ∷ [])
unfolding merge
runs = (refl, refl, refl)

merge_layers-Agrees_example :
    Agrees
      ("required_runtimes", "node")
      (merge_layers nothing_merged parsed)
      (("this project", range ">=20") ∷ ("org paved road", range ">=22") ∷ [])
unfolding mentions
merge_layers-Agrees_example = merge_layers-Agrees ("required_runtimes", "node") parsed

merge-IsAttributed_example : All (IsAttributed show_versions parsed) (merge show_versions parsed).1
merge-IsAttributed_example = merge-IsAttributed show_versions parsed
