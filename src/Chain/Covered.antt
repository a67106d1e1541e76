-- ===== src/Chain/Covered.antt =====
-- What `verify_chain` finds of the snapshots that no entry names.
use devrepro_doctor.Prelude.{
  All, ◌≡◌, ◌↔◌, refl, sym, ap, ◌∙◌, String, Bool, true, false, not, ◌||◌, none, List, [], ◌∷◌, map,
  arith, str_eq, inl, inr, Bool-cases, str_leb, any, filter, sort_strings, insert_sorted,
}
use devrepro_doctor.Chain.{
  Bytes, ChainEntry, chain_filename, ends_with, unchained_problems, unchained_snapshot,
}

any-insert_sorted :
    (p : String → Bool) (x : String) (xs : List String)
    → any p (insert_sorted str_leb x xs) ≡ (p x || any p xs)
unfolding insert_sorted
any-insert_sorted p x [] = refl
any-insert_sorted p x (y ∷ ys) = ground (arith, any-insert_sorted p x ys)

any-sort_strings : (p : String → Bool) (xs : List String) → any p (sort_strings xs) ≡ any p xs
unfolding sort_strings
any-sort_strings p [] = refl
any-sort_strings p (x ∷ xs) =
    any-insert_sorted p x (sort_strings xs) ∙ ap (λ b. p x || b) (any-sort_strings p xs)

map-filter-nil_iff :
    {B : Type 0} (f : String → B) (p : String → Bool) (xs : List String)
    → (map f (filter p xs) ≡ []) ↔ (any p xs ≡ false)
map-filter-nil_iff f p [] = (λ _. refl, λ _. refl)
map-filter-nil_iff f p (x ∷ xs) = elim (Bool-cases (p x)) [
  | inl yes' ↦ rw yes' (λ e. cc, λ e. cc)
  | inr no' ↦ rw no' (map-filter-nil_iff f p xs)
]

abbrev is_uncovered : List ChainEntry → String → Bool
is_uncovered entries name =
    not (str_eq name chain_filename || any (λ entry. str_eq entry.filename name) entries)

abbrev snapshot_names : String → List (String × Bytes) → List String
snapshot_names suffix files = filter (λ name. ends_with name suffix) (map (λ f. f.0) files)

unchained-nil_iff :
    (suffix : String) (files : List (String × Bytes)) (entries : List ChainEntry)
    → (unchained_problems suffix files entries ≡ [])
      ↔ (any (is_uncovered entries) (snapshot_names suffix files) ≡ false)
unfolding unchained_problems
unchained-nil_iff suffix files entries =
    let names = snapshot_names suffix files in
    let iff =
      map-filter-nil_iff (λ name. record { kind = unchained_snapshot name; seq = none })
        (is_uncovered entries) (sort_strings names) in
    let same = any-sort_strings (is_uncovered entries) names in
    (λ h. sym same ∙ iff.0 h, λ h. iff.1 (same ∙ h))

-- A file is not a snapshot, or it is the chain, or an entry names it.
abbrev pub is_recorded : String → List ChainEntry → String × Bytes → Bool
is_recorded suffix entries file =
    not (ends_with file.0 suffix)
    || (str_eq file.0 chain_filename || any (λ entry. str_eq entry.filename file.0) entries)

uncovered-false_iff :
    (suffix : String) (files : List (String × Bytes)) (entries : List ChainEntry)
    → (any (is_uncovered entries) (snapshot_names suffix files) ≡ false)
      ↔ All (λ f. is_recorded suffix entries f ≡ true) files
uncovered-false_iff suffix [] entries = (λ h. tt, λ h. refl)
uncovered-false_iff suffix ((name, content) ∷ files) entries =
    let rest = uncovered-false_iff suffix files entries in
    elim (Bool-cases (ends_with name suffix)) [
      | inl e ↦ (
        λ h.
            let (own, more) = or-false (is_uncovered entries name) _ (rw e at h) in
            (ground arith, rest.0 more),
        λ (own, more). rw e (ground (arith, rest.1 more)),
      )
      | inr e ↦ (λ h. (ground arith, rest.0 (rw e at h)), λ (own, more). rw e (rest.1 more))
    ]
  where
    or-false : (a b : Bool) → (a || b) ≡ false → (a ≡ false) × (b ≡ false)
    or-false a b h = ground arith

pub unchained_problems-nil_iff :
    (suffix : String) (files : List (String × Bytes)) (entries : List ChainEntry)
    → (unchained_problems suffix files entries ≡ [])
      ↔ All (λ f. is_recorded suffix entries f ≡ true) files
unchained_problems-nil_iff suffix files entries =
    let nil = unchained-nil_iff suffix files entries in
    let covered = uncovered-false_iff suffix files entries in
    (λ h. covered.0 (nil.0 h), λ h. nil.1 (covered.1 h))
