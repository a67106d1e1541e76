-- ===== src/Contract/Samples.antt =====
-- A repository in which a lock file, a Dockerfile and a source file changed.
use devrepro_doctor.Prelude.{◌≡◌, refl, String, true, false, ◌&&◌, none, some, List, [], ◌∷◌, All}
use devrepro_doctor.Prelude.Sorting.{Pairwise}
use devrepro_doctor.Versioning.{Text}
use devrepro_doctor.Versioning.Text.{codes}
use devrepro_doctor.Contract.{classify_contract_path}
use devrepro_doctor.Contract.Collect.{ContractChange, contract_changes, relevant_rule_prefixes}
use devrepro_doctor.Contract.Git.{RunResult, changed_files}
use devrepro_doctor.Contract.Changes.{
  is_reported, is_listed, is_contract, IsClassified, AreApart, contract_changes-AreChanges,
}
use devrepro_doctor.Contract.Relevance.{selects, selects-relevant_rule_prefixes}

abbrev lock : Text
lock = codes "app/uv.lock"

abbrev image : Text
image = codes "Dockerfile"

abbrev code : Text
code = codes "app/main.py"

abbrev lock_change : ContractChange
lock_change = record { path = lock; kind = "lockfile" }

abbrev image_change : ContractChange
image_change = record { path = image; kind = "container" }

-- `git` on a tree with a renamed file and an untracked one.
abbrev printed : List String → RunResult
printed arguments = record {
  is_ok = true;
  stdout = codes "R  a.txt -> app/uv.lock\n?? Dockerfile\n";
}

abbrev broken : List String → RunResult
broken arguments = record { is_ok = false; stdout = [] }

classifies :
    (classify_contract_path lock ≡ some "lockfile")
    × (classify_contract_path code ≡ none)
    × (classify_contract_path (codes ".\\.github\\workflows\\ci.yml") ≡ some "ci")
unfolding classify_contract_path
classifies = (refl, refl, refl)

changes : contract_changes printed "." none ≡ image_change ∷ lock_change ∷ []
unfolding contract_changes classify_contract_path
changes = refl

lists :
    (changed_files printed "." none ≡ lock ∷ image ∷ [])
    × (changed_files broken "." (some "main") ≡ [])
unfolding changed_files
lists = (refl, refl)

contract_changes-AreChanges_example :
    let changed = contract_changes printed "." none in
    ((path : Text)
      → is_reported path changed
        ≡ (is_listed path (changed_files printed "." none) && is_contract path))
    × All IsClassified changed
    × Pairwise AreApart changed
contract_changes-AreChanges_example = contract_changes-AreChanges printed "." none

selects-relevant_rule_prefixes_example :
    selects "node" (relevant_rule_prefixes (image_change ∷ lock_change ∷ [])) ≡ true
selects-relevant_rule_prefixes_example =
    selects-relevant_rule_prefixes "node" (image_change ∷ lock_change ∷ [])
