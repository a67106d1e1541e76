-- ===== src/Contract/Git.antt =====
-- project/contract.py: `changed_files`, from the texts that git prints, which the parameter `run` answers.
use Prim.Native.String.{◌++◌ as str_append}
use devrepro_doctor.Prelude.{
  ℕ, String, Bool, false, not, ◌&&◌, ◌||◌, Option, none, some, List, [], ◌∷◌, ◌==◌, leb,
  if◌then◌else◌, drop,
}
use devrepro_doctor.Versioning.{Text}
use devrepro_doctor.Versioning.Text.{codes, strip, onto_first}
use devrepro_doctor.Versioning.Spec.{after_prefix}

-- The characters that `splitlines` breaks at, in ASCII.
abbrev pub is_break : ℕ → Bool
is_break c = (leb 10 c && leb c 13) || (leb 28 c && leb c 30)

abbrev pub starts_with_newline : Text → Bool
starts_with_newline [] = false
starts_with_newline (c ∷ cs) = c == 10

-- `text.splitlines()`: a carriage return before a newline is one break with it.
unfoldable pub split_lines : Text → List Text
split_lines [] = []
split_lines (c ∷ cs) =
    let rest = split_lines cs in
    if c == 13 && starts_with_newline cs
    then rest
    else if is_break c
    then [] ∷ rest
    else onto_first c rest

-- `_RENAME`: what follows the first ` -> `.
unfoldable pub after_arrow : Text → Option Text
unfolding after_prefix
after_arrow [] = none
after_arrow (c ∷ cs) =
    let later = after_arrow cs in
    elim (after_prefix (codes " -> ") (c ∷ cs)) [ some rest ↦ some rest | none ↦ later ]

-- `CommandResult`, of what it is asked.
pub record RunResult : Type 0 where
  pub is_ok : Bool
  pub stdout : Text

-- The lines of `git diff --name-only`.
unfoldable pub diff_paths : List Text → List Text
unfolding strip
diff_paths [] = []
diff_paths (line ∷ lines) =
    let rest = diff_paths lines in elim (strip line) [ [] ↦ rest | c ∷ cs ↦ (c ∷ cs) ∷ rest ]

-- The lines of `git status --porcelain`: two letters and a space, then the path, or both of a rename.
unfoldable pub status_paths : List Text → List Text
unfolding strip after_arrow
status_paths [] = []
status_paths (line ∷ lines) =
    let rest = status_paths lines in
    elim (strip (drop 3 line)) [
      | [] ↦ rest
      | c ∷ cs ↦ elim (after_arrow (c ∷ cs)) [
        | some path ↦ strip path ∷ rest
        | none ↦ (c ∷ cs) ∷ rest
      ]
    ]

abbrev pub git : String → List String → List String
git root arguments = "git" ∷ "-C" ∷ root ∷ arguments

unfoldable pub status_changes : RunResult → List Text
unfolding status_paths split_lines
status_changes result = if not result.is_ok then [] else status_paths (split_lines result.stdout)

unfoldable pub changed_files : (List String → RunResult) → String → Option String → List Text
unfolding status_changes diff_paths split_lines
changed_files run root none =
    status_changes (run (git root ("status" ∷ "--porcelain" ∷ "--untracked-files=all" ∷ [])))
changed_files run root (some String.[]) =
    status_changes (run (git root ("status" ∷ "--porcelain" ∷ "--untracked-files=all" ∷ [])))
changed_files run root (some (String.◌∷◌ c s)) =
    let base = String.◌∷◌ c s in
    let three_dot = run (git root ("diff" ∷ "--name-only" ∷ str_append base "...HEAD" ∷ [])) in
    let two_dot = run (git root ("diff" ∷ "--name-only" ∷ base ∷ [])) in
    let result = if three_dot.is_ok then three_dot else two_dot in
    if not result.is_ok then [] else diff_paths (split_lines result.stdout)
