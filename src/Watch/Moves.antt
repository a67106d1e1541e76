-- ===== src/Watch/Moves.antt =====
-- Which paths `_diff` and `_merge` name.
use devrepro_doctor.Prelude.{
  ◌≡◌, refl, ◌∙◌, String, Bool, true, false, not, ◌&&◌, ◌||◌, Option, none, some, List, [], ◌∷◌,
  ◌++◌, str_eq, opt_eq, filter, lookup, contains, distinct, inl, inr, Bool-cases, arith,
}
use devrepro_doctor.Prelude.Members.{
  contains-append, contains-sort_strings, contains-distinct, contains-filter, contains_self,
}
use devrepro_doctor.Watch.{Reading, Change, is_empty, is_change, paths_of, sorted_set, diff, merge}

-- The change names the path, as added, removed or modified.
abbrev pub names : String → Change → Bool
names path c = contains path c.added || (contains path c.removed || contains path c.modified)

-- The path's digest differs between the readings, or only one of them has it.
abbrev pub moves : String → Reading → Reading → Bool
moves path before after = not (opt_eq (lookup path before) (lookup path after))

contains-sorted_set : (x : String) (xs : List String) → contains x (sorted_set xs) ≡ contains x xs
unfolding sorted_set
contains-sorted_set x xs = contains-sort_strings x (distinct str_eq xs) ∙ contains-distinct x xs

abbrev is_read : Option String → Bool
is_read none = false
is_read (some d) = true

contains-paths_of :
    (path : String) (reading : Reading)
    → contains path (paths_of reading) ≡ is_read (lookup path reading)
contains-paths_of path [] = refl
contains-paths_of path ((p, d) ∷ rest) = elim (Bool-cases (str_eq p path)) [
  | inl e ↦ ground arith
  | inr e ↦ ground (arith, contains-paths_of path rest)
]

-- Two digests differ in one of three ways.
one_way :
    (a b : Option String)
    → ((not (is_read a) && is_read b)
        || ((not (is_read b) && is_read a) || ((is_read b && not (opt_eq a b)) && is_read a)))
      ≡ not (opt_eq a b)
one_way none none = refl
one_way none (some b) = refl
one_way (some a) none = refl
one_way (some a) (some b) = ground arith

-- A path is named by the difference of two readings just when it moves between them.
pub names-diff :
    (path : String) (before after : Reading)
    → names path (diff before after) ≡ moves path before after
unfolding diff
names-diff path before after =
    let old = paths_of before in
    let new = paths_of after in
    let added =
      contains-sorted_set path (filter (λ p. not (contains p old)) new)
      ∙ contains-filter path (λ p. not (contains p old)) new in
    let removed =
      contains-sorted_set path (filter (λ p. not (contains p new)) old)
      ∙ contains-filter path (λ p. not (contains p new)) old in
    let differs : String → Bool =
      λ p. contains p new && not (opt_eq (lookup p before) (lookup p after)) in
    let modified =
      contains-sorted_set path (filter differs old) ∙ contains-filter path differs old in
    ground (
      arith,
      added,
      removed,
      modified,
      contains-paths_of path before,
      contains-paths_of path after,
      one_way (lookup path before) (lookup path after),
    )

pub names-merge :
    (path : String) (first second : Change)
    → names path (merge first second) ≡ (names path first || names path second)
unfolding merge
names-merge path first second = ground (
  arith,
  contains-sorted_set path (first.added ++ second.added),
  contains-append path first.added second.added,
  contains-sorted_set path (first.removed ++ second.removed),
  contains-append path first.removed second.removed,
  contains-sorted_set path (first.modified ++ second.modified),
  contains-append path first.modified second.modified,
)

is_empty-contains :
    (path : String) (xs : List String) → is_empty xs ≡ true → contains path xs ≡ false
is_empty-contains path [] h = refl
is_empty-contains path (x ∷ xs) h = cc

-- A change that is none names no path.
pub names-not : (path : String) (c : Change) → is_change c ≡ false → names path c ≡ false
names-not path c h = ground (
  arith,
  is_empty-contains path c.added,
  is_empty-contains path c.removed,
  is_empty-contains path c.modified,
)

named_head : (xs : List String) → is_empty xs ≡ false → (path : String) × (contains path xs ≡ true)
named_head [] h = cc
named_head (x ∷ xs) h = (x, (contains_self (x ∷ xs)).0)

-- A change that is one names some path.
pub names_some : (c : Change) → is_change c ≡ true → (path : String) × (names path c ≡ true)
names_some c h = elim (Bool-cases (is_empty c.added)) [
  | inr e ↦ let (path, here) = named_head c.added e in (path, ground arith)
  | inl no_added ↦ elim (Bool-cases (is_empty c.removed)) [
    | inr e ↦ let (path, here) = named_head c.removed e in (path, ground arith)
    | inl no_removed ↦
        let (path, here) = named_head c.modified (ground arith) in (path, ground arith)
  ]
]
