-- ===== src/Compose/Pending.antt =====
-- project/compose.py: the files that wait on the frontier of `_chain`, and those that were seen, after a turn.
use devrepro_doctor.Prelude.{
  contains, ℕ, ◌≡◌, refl, ap, ◌∙◌, String, true, ◌||◌, some, List, [], ◌∷◌, ◌++◌, map, arith,
  Bool-cases, inl, inr, head?, str_eq,
}
use devrepro_doctor.Compose.{at_depth}
use devrepro_doctor.Prelude.Members.{contains-append, contains-same}

pub head-seen :
    (x start : String) (xs ys : List String)
    → contains x xs ≡ true
    → head? (xs ++ x ∷ ys) ≡ some start
    → head? (xs ++ ys) ≡ some start
head-seen x start [] ys m h = cc m
head-seen x start (z ∷ xs) ys m h = h

pub head-moved :
    (x start : String) (xs ys zs : List String)
    → head? (xs ++ x ∷ ys) ≡ some start
    → head? ((xs ++ x ∷ []) ++ zs) ≡ some start
head-moved x start [] ys zs h = h
head-moved x start (z ∷ xs) ys zs h = h

abbrev pub names : List (String × ℕ) → List String
names frontier = map (λ (e : String × ℕ). e.0) frontier

names-append :
    (depth : ℕ) (frontier : List (String × ℕ)) (paths : List String)
    → names (frontier ++ at_depth depth paths) ≡ names frontier ++ paths
names-append depth [] [] = refl
names-append depth [] (p ∷ ps) = ap (λ t. p ∷ t) (names-append depth [] ps)
names-append depth (e ∷ es) ps = ap (λ t. e.0 ∷ t) (names-append depth es ps)

pending-append :
    (x : String) (depth : ℕ) (frontier : List (String × ℕ)) (paths : List String)
    → contains x (names (frontier ++ at_depth depth paths))
      ≡ (contains x (names frontier) || contains x paths)
pending-append x depth frontier paths =
    ap (contains x) (names-append depth frontier paths) ∙ contains-append x (names frontier) paths

pub contains_skipped :
    (path x : String) (seen rest : List String)
    → contains path seen ≡ true
    → (contains x seen || (str_eq path x || contains x rest)) ≡ true
    → (contains x seen || contains x rest) ≡ true
contains_skipped path x seen rest old h = elim (Bool-cases (str_eq path x)) [
  | inl e ↦ ground (arith, contains-same path x seen e old)
  | inr e ↦ ground arith
]

pub contains_grown :
    (path x : String) (depth : ℕ) (frontier : List (String × ℕ)) (seen parents : List String)
    → (contains x seen || (str_eq path x || contains x (names frontier))) ≡ true
    → (contains x (path ∷ seen) || contains x (names (frontier ++ at_depth depth parents))) ≡ true
contains_grown path x depth frontier seen parents h =
    ground (arith, pending-append x depth frontier parents)

pub contains_grown_parent :
    (path x : String) (depth : ℕ) (frontier : List (String × ℕ)) (seen parents : List String)
    → contains x parents ≡ true
    → (contains x (path ∷ seen) || contains x (names (frontier ++ at_depth depth parents))) ≡ true
contains_grown_parent path x depth frontier seen parents h =
    ground (arith, pending-append x depth frontier parents)

pub same-snoc :
    (path x : String) (seen ordered : List String)
    → contains x ordered ≡ contains x seen
    → contains x (ordered ++ path ∷ []) ≡ contains x (path ∷ seen)
same-snoc path x seen ordered h = ground (arith, contains-append x ordered (path ∷ []))
