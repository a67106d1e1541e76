-- ===== src/Watch/Reach.antt =====
-- Which files `watched_paths` finds.
use devrepro_doctor.Prelude.{
  ℕ, zero, suc, ◌+◌, ◌≤◌, ◌≡◌, refl, ap, ◌∙◌, String, Bool, true, false, not, ◌&&◌, ◌||◌, List, [],
  ◌∷◌, ◌++◌, ltb, str_eq, if_cases, contains, arith,
}
use devrepro_doctor.Prelude.Members.{contains-snoc}
use devrepro_doctor.Prelude.Sorting.{any-sort}
use devrepro_doctor.Watch.Walk.{
  Entries, file, folder, end, entry, Frame, matches_contract, child, descends, scan, walk,
  skip_dirs, directories, path_leb, watched_paths,
}

-- The path is that of a file of the contract which stands in the directory, or in one that it descends to: the
-- depth is below the bound and no directory on the way is one of those that are skipped.
abbrev pub is_reached : String → String → ℕ → Entries → Bool
is_reached target path depth end = false
is_reached target path depth (entry (file name) more) =
    (matches_contract (child path name) && str_eq (child path name) target)
    || is_reached target path depth more
is_reached target path depth (entry (folder name inside) more) =
    (ltb depth 4
      && not (contains name skip_dirs)
      && is_reached target (child path name) (depth + 1) inside)
    || is_reached target path depth more

abbrev reached_in : String → List Frame → Bool
reached_in target [] = false
reached_in target (f ∷ stack) =
    is_reached target f.path f.depth f.entries || reached_in target stack

abbrev to_visit : List Frame → ℕ
to_visit [] = 0
to_visit (f ∷ stack) = suc (directories f.entries) + to_visit stack

-- What is found, and what will be reached from the stack.
abbrev reach : String → List Frame × List String → Bool
reach target (stack, found) = contains target found || reached_in target stack

-- What a turn of the loop over the entries does to what is reached.
module _ (a here later rest : Bool) {test : Bool} where
  taken :
      test ≡ true → ((a || here) || (later || rest)) ≡ (a || (((test && here) || later) || rest))
  taken e = ground arith

  entered :
      test ≡ true → (a || (later || (here || rest))) ≡ (a || (((test && here) || later) || rest))
  entered e = ground arith

  passed : test ≡ false → (a || (later || rest)) ≡ (a || (((test && here) || later) || rest))
  passed e = ground arith

reach-scan :
    (target path : String) (depth : ℕ) (es : Entries) (stack : List Frame) (found : List String)
    → reach target (scan path depth es stack found)
      ≡ (contains target found || (is_reached target path depth es || reached_in target stack))
unfolding scan
reach-scan target path depth end stack found = refl
reach-scan target path depth (entry (file name) more) stack found =
    let here = child path name in
    let later = is_reached target path depth more in
    let rest = reached_in target stack in
    if_cases
      (λ next. reach target next ≡ (
        contains target found
        || (is_reached target path depth (entry (file name) more) || reached_in target stack)))
      (matches_contract here)
      (λ e.
        reach-scan target path depth more stack (found ++ here ∷ [])
        ∙ ap (λ b. b || (later || rest)) (contains-snoc target here found)
        ∙ taken (contains target found) (str_eq here target) later rest e)
      (λ e.
        reach-scan target path depth more stack found
        ∙ passed (contains target found) (str_eq here target) later rest e)
reach-scan target path depth (entry (folder name inside) more) stack found =
    let frame : Frame = record { path = child path name; depth = depth + 1; entries = inside } in
    let inner = is_reached target (child path name) (depth + 1) inside in
    let later = is_reached target path depth more in
    let rest = reached_in target stack in
    if_cases
      (λ next. reach target next ≡ (
        contains target found
        || (is_reached target path depth (entry (folder name inside) more)
            || reached_in target stack)))
      (descends depth name)
      (λ e.
        reach-scan target path depth more (frame ∷ stack) found
        ∙ entered (contains target found) inner later rest e)
      (λ e.
        reach-scan target path depth more stack found
        ∙ passed (contains target found) inner later rest e)

to_visit-scan :
    (path : String) (depth : ℕ) (es : Entries) (stack : List Frame) (found : List String)
    → to_visit (scan path depth es stack found).0 ≤ directories es + to_visit stack
unfolding scan
to_visit-scan path depth end stack found = omega arith
to_visit-scan path depth (entry (file name) more) stack found =
    if_cases
      (λ (next : List Frame × List String). to_visit next.0 ≤ directories more + to_visit stack)
      (matches_contract (child path name))
      (λ e. to_visit-scan path depth more stack (found ++ child path name ∷ []))
      (λ e. to_visit-scan path depth more stack found)
to_visit-scan path depth (entry (folder name inside) more) stack found =
    let frame : Frame = record { path = child path name; depth = depth + 1; entries = inside } in
    let deeper = to_visit-scan path depth more (frame ∷ stack) found in
    let beside = to_visit-scan path depth more stack found in
    if_cases
      (λ (next : List Frame × List String).
        to_visit next.0 ≤ suc (directories inside + directories more) + to_visit stack)
      (descends depth name) (λ e. omega arith) (λ e. omega arith)

contains-walk :
    (target : String) (fuel : ℕ) (stack : List Frame) (found : List String)
    → to_visit stack ≤ fuel
    → contains target (walk fuel stack found) ≡ (contains target found || reached_in target stack)
unfolding walk
contains-walk target zero [] found enough = ground arith
contains-walk target zero (f ∷ stack) found enough = absurd (omega arith)
contains-walk target (suc fuel) [] found enough = ground arith
contains-walk target (suc fuel) (f ∷ stack) found enough =
    let next = scan f.path f.depth f.entries stack found in
    let less = to_visit-scan f.path f.depth f.entries stack found in
    contains-walk target fuel next.0 next.1 (omega arith)
    ∙ reach-scan target f.path f.depth f.entries stack found

or_false : (b : Bool) → (b || false) ≡ b
or_false true = refl
or_false false = refl

-- A path is watched just when it is that of a file of the contract at the root or in a directory at most
-- four levels down, on the way to which no directory is one of those that are skipped: the walk ends with every
-- such file found, in whatever order the directories are listed.
pub contains-watched_paths :
    (target : String) (root : Entries)
    → contains target (watched_paths root) ≡ is_reached target "" 0 root
unfolding watched_paths
contains-watched_paths target root =
    let start : Frame = record { path = ""; depth = 0; entries = root } in
    any-sort path_leb (λ p. str_eq p target) (walk (suc (directories root)) (start ∷ []) [])
    ∙ contains-walk target (suc (directories root)) (start ∷ []) [] (omega arith)
    ∙ or_false (is_reached target "" 0 root)
