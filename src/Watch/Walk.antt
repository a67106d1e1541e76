-- ===== src/Watch/Walk.antt =====
-- watch.py: `watched_paths`, the walk that looks for the contract's files. A tree is what `iterdir` lists, in its
-- order; a directory that cannot be listed is an empty one. Paths are relative to the root and POSIX.
use Prim.Native.String.{◌++◌ as str_append}
use Prim.Native.Nat.{Ordering}
use devrepro_doctor.Prelude.{
  ℕ, zero, suc, ◌+◌, String, Bool, true, false, not, ◌&&◌, ◌||◌, none, some, List, [], ◌∷◌, ◌++◌,
  any, ltb, if◌then◌else◌, contains, sort,
}
use devrepro_doctor.Versioning.{Text, compare_lists}
use devrepro_doctor.Versioning.Text.{codes, split_at}
use devrepro_doctor.Contract.{glob, contract_patterns, anywhere}

mutual
  pub data Entry : Type 0 where
    file : String → Entry
    folder : String → Entries → Entry

  pub data Entries : Type 0 where
    end : Entries
    entry : Entry → Entries → Entries

abbrev pub skip_dirs : List String
skip_dirs =
    ".git" ∷ ".hg" ∷ ".svn" ∷ "node_modules" ∷ ".venv" ∷ "venv" ∷ "__pycache__" ∷ "target" ∷ "dist"
    ∷ "build" ∷ ".tox" ∷ ".mypy_cache" ∷ ".pytest_cache" ∷ "vendor" ∷ []

abbrev pub max_depth : ℕ
max_depth = 4

-- One turn of the loop of `_matches_contract`.
unfoldable pub matches_here : Text → Text → Bool
unfolding glob
matches_here relative pattern =
    glob pattern relative
    || (glob (codes "**/" ++ pattern) relative
        || (elim (anywhere pattern) [ none ↦ false | some rest ↦ glob rest relative ]))

unfoldable pub matches_contract : String → Bool
unfolding matches_here
matches_contract relative =
    any (λ (row : String × String). matches_here (codes relative) (codes row.0)) contract_patterns

-- The path of an entry of a directory; the root's is empty.
abbrev pub child : String → String → String
child String.[] name = name
child (String.◌∷◌ c s) name = str_append (String.◌∷◌ c s) (str_append "/" name)

-- What the stack holds: a directory and its depth.
pub record Frame : Type 0 where
  pub path : String
  pub depth : ℕ
  pub entries : Entries

abbrev pub descends : ℕ → String → Bool
descends depth name = ltb depth max_depth && not (contains name skip_dirs)

-- The loop over the entries of a directory; the stack's top is the head.
unfoldable pub scan : String → ℕ → Entries → List Frame → List String → List Frame × List String
scan path depth end stack found = (stack, found)
scan path depth (entry (file name) more) stack found =
    let with_it = scan path depth more stack (found ++ child path name ∷ []) in
    let without = scan path depth more stack found in
    if matches_contract (child path name) then with_it else without
scan path depth (entry (folder name inside) more) stack found =
    let with_it =
      scan path depth more
        (record { path = child path name; depth = depth + 1; entries = inside } ∷ stack) found in
    let without = scan path depth more stack found in
    if descends depth name then with_it else without

-- The loop over the stack. Each turn takes a directory off, so the number of directories is enough fuel.
unfoldable pub walk : ℕ → List Frame → List String → List String
unfolding scan
walk zero stack found = found
walk (suc fuel) [] found = found
walk (suc fuel) (frame ∷ stack) found =
    let next = scan frame.path frame.depth frame.entries stack found in walk fuel next.0 next.1

abbrev pub directories : Entries → ℕ
directories end = 0
directories (entry (file name) more) = directories more
directories (entry (folder name inside) more) = suc (directories inside + directories more)

-- Paths compare by their parts.
abbrev pub parts_leb : List Text → List Text → Bool
parts_leb [] ys = true
parts_leb (x ∷ xs) [] = false
parts_leb (x ∷ xs) (y ∷ ys) = elim (compare_lists x y) [
  | Ordering.lt ↦ true
  | Ordering.gt ↦ false
  | Ordering.eq ↦ parts_leb xs ys
]

abbrev pub path_leb : String → String → Bool
path_leb a b = parts_leb (split_at b'/' (codes a)) (split_at b'/' (codes b))

unfoldable pub watched_paths : Entries → List String
unfolding walk sort
watched_paths root =
    sort path_leb
      (walk (suc (directories root)) (record { path = ""; depth = 0; entries = root } ∷ []) [])
