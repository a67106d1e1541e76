-- ===== src/Contract/Collect.antt =====
-- project/contract.py: `contract_changes`, and the rules that they make relevant.
use devrepro_doctor.Prelude.{
  String, Bool, not, Option, none, some, List, [], ◌∷◌, ◌++◌, str_eq, str_leb, if◌then◌else◌, any,
  lookup, sort,
}
use devrepro_doctor.Versioning.{Text, compare_lists, is_gt}
use devrepro_doctor.Versioning.Spec.{text_eq}
use devrepro_doctor.Contract.{classify_contract_path}
use devrepro_doctor.Contract.Git.{RunResult, changed_files}

-- `RELEVANT_PREFIXES`: no prefixes mean that everything is relevant.
abbrev pub relevant_prefixes : List (String × List String)
relevant_prefixes =
    ("policy", [])
    ∷ (
      "lockfile",
      "lockfiles" ∷ "python" ∷ "node" ∷ "go" ∷ "rust" ∷ "php" ∷ "ruby" ∷ "java" ∷ "dotnet" ∷ "path"
          ∷ [],
    )
    ∷ (
      "manifest",
      "lockfiles" ∷ "python" ∷ "node" ∷ "go" ∷ "rust" ∷ "php" ∷ "ruby" ∷ "java" ∷ "dotnet" ∷ "cpp"
          ∷ "path" ∷ [],
    )
    ∷ (
      "toolchain-pin",
      "lockfiles" ∷ "python" ∷ "node" ∷ "go" ∷ "rust" ∷ "php" ∷ "ruby" ∷ "java" ∷ "dotnet" ∷ "path"
          ∷ "shell" ∷ [],
    )
    ∷ ("ci", "python" ∷ "node" ∷ "go" ∷ "rust" ∷ "java" ∷ "dotnet" ∷ "containers" ∷ "network" ∷ [])
    ∷ ("container", "containers" ∷ "wsl" ∷ "virt" ∷ [])
    ∷ ("env-names", "env" ∷ [])
    ∷ ("agent-manifest", "agents" ∷ "hygiene" ∷ "path" ∷ [])
    ∷ []

pub record ContractChange : Type 0 where
  pub path : Text
  pub kind : String

-- The loop of `contract_changes`, from the paths seen so far.
unfoldable pub collect_changes : List Text → List Text → List ContractChange
collect_changes seen [] = []
collect_changes seen (path ∷ paths) =
    let same = collect_changes seen paths in
    let more = collect_changes (path ∷ seen) paths in
    elim (classify_contract_path path) [
      | none ↦ same
      | some kind ↦
          if any (λ p. text_eq p path) seen
          then same
          else record { path = path; kind = kind } ∷ more
    ]

-- The key `(kind, path)`.
abbrev pub change_leb : ContractChange → ContractChange → Bool
change_leb a b =
    if str_eq a.kind b.kind
    then not (is_gt (compare_lists a.path b.path))
    else str_leb a.kind b.kind

-- The changes among the changed paths, sorted.
unfoldable pub changes_of : List Text → List ContractChange
unfolding collect_changes sort
changes_of paths = sort change_leb (collect_changes [] paths)

unfoldable pub contract_changes :
    (List String → RunResult) → String → Option String → List ContractChange
unfolding changes_of changed_files
contract_changes run root base = changes_of (changed_files run root base)

-- The loop of `relevant_rule_prefixes`: `none` means that everything is relevant.
unfoldable pub add_prefixes : List String → List ContractChange → Option (List String)
add_prefixes prefixes [] = some prefixes
add_prefixes prefixes (change ∷ changes) = elim (lookup change.kind relevant_prefixes) [
  | none ↦ none
  | some mapped ↦ elim mapped [ [] ↦ none | p ∷ ps ↦ add_prefixes (prefixes ++ p ∷ ps) changes ]
]

unfoldable pub relevant_rule_prefixes : List ContractChange → Option (List String)
unfolding add_prefixes
relevant_rule_prefixes changes = add_prefixes [] changes
