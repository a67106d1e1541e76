-- ===== src/Contract/Changes.antt =====
-- The changes that `contract_changes` reports: of which paths, with which kinds, and each once.
use devrepro_doctor.Prelude.{
  ◌≡◌, refl, sym, String, ap, ◌∙◌, subst, Bool, true, false, ◌&&◌, not, Option, none, some, List,
  [], ◌∷◌, any, All, inl, inr, Bool-cases, Option-cases, arith, if_ind, if◌then◌else◌,
}
use devrepro_doctor.Prelude.Sorting.{Pairwise, All-sort, Pairwise-sort, any-sort}
use devrepro_doctor.Versioning.{Text}
use devrepro_doctor.Versioning.Spec.{text_eq}
use devrepro_doctor.Contract.{classify_contract_path}
use devrepro_doctor.Contract.Collect.{
  ContractChange, collect_changes, changes_of, contract_changes, change_leb,
}
use devrepro_doctor.Contract.Git.{RunResult, changed_files}

text_eq_self : (a : Text) → text_eq a a ≡ true
text_eq_self [] = refl
text_eq_self (c ∷ cs) = ground (arith, text_eq_self cs)

text_eq-same : (a b : Text) → text_eq a b ≡ true → a ≡ b
text_eq-same [] [] h = refl
text_eq-same [] (d ∷ ds) h = cc
text_eq-same (c ∷ cs) [] h = cc
text_eq-same (c ∷ cs) (d ∷ ds) h =
    let head : c ≡ d = ground arith in let tail : cs ≡ ds = text_eq-same cs ds (ground arith) in cc

text_eq_flip : (a b : Text) → text_eq a b ≡ text_eq b a
text_eq_flip [] [] = refl
text_eq_flip [] (d ∷ ds) = refl
text_eq_flip (c ∷ cs) [] = refl
text_eq_flip (c ∷ cs) (d ∷ ds) = ground (arith, text_eq_flip cs ds)

-- The path is among the paths, and is one of the contract's files.
abbrev pub is_listed : Text → List Text → Bool
is_listed path paths = any (λ p. text_eq p path) paths

abbrev pub is_some : Option String → Bool
is_some none = false
is_some (some kind) = true

abbrev pub is_contract : Text → Bool
is_contract path = is_some (classify_contract_path path)

abbrev pub is_reported : Text → List ContractChange → Bool
is_reported path changes = any (λ (c : ContractChange). text_eq c.path path) changes

-- The kind of a change is that of its path.
abbrev pub IsClassified : ContractChange → Type 0
IsClassified c = classify_contract_path c.path ≡ some c.kind

abbrev pub AreApart : ContractChange → ContractChange → Type 0
AreApart a b = text_eq a.path b.path ≡ false

is_contract-same : (a b : Text) → text_eq a b ≡ true → is_contract a ≡ is_contract b
is_contract-same a b h = ap is_contract (text_eq-same a b h)

is_listed-same :
    (a b : Text) (paths : List Text) → text_eq a b ≡ true → is_listed a paths ≡ is_listed b paths
is_listed-same a b paths h = ap (λ x. is_listed x paths) (text_eq-same a b h)

-- One turn of the loop, by what the path is.
collect_changes-none :
    (seen : List Text) (p : Text) (ps : List Text)
    → classify_contract_path p ≡ none
    → collect_changes seen (p ∷ ps) ≡ collect_changes seen ps
unfolding collect_changes
collect_changes-none seen p ps e = rw (e, collect_changes) refl

collect_changes-some :
    (seen : List Text) (p : Text) (ps : List Text) (kind : String)
    → classify_contract_path p ≡ some kind
    → collect_changes seen (p ∷ ps) ≡ (
        if is_listed p seen
        then collect_changes seen ps
        else record { path = p; kind = kind } ∷ collect_changes (p ∷ seen) ps)
unfolding collect_changes
collect_changes-some seen p ps kind e = rw (e, collect_changes) refl

is_reported-collect_changes :
    (path : Text) (seen paths : List Text)
    → is_reported path (collect_changes seen paths)
      ≡ (is_listed path paths && (is_contract path && not (is_listed path seen)))
unfolding collect_changes
is_reported-collect_changes path seen [] = refl
is_reported-collect_changes path seen (p ∷ ps) = elim (Option-cases (classify_contract_path p)) [
  | inl e ↦
      let step = ap (is_reported path) (collect_changes-none seen p ps e) in
      elim (Bool-cases (text_eq p path)) [
        | inl same ↦
            let out : is_contract path ≡ false =
              sym (is_contract-same p path same) ∙ ap is_some e in
            ground (arith, step, is_reported-collect_changes path seen ps)
        | inr other ↦ ground (arith, step, is_reported-collect_changes path seen ps)
      ]
  | inr (kind, e) ↦
      let step = ap (is_reported path) (collect_changes-some seen p ps kind e) in
      elim (Bool-cases (text_eq p path)) [
        | inl same ↦
            let part : is_contract path ≡ true =
              sym (is_contract-same p path same) ∙ ap is_some e in
            let old : is_listed p seen ≡ is_listed path seen = is_listed-same p path seen same in
            ground (
              arith,
              step,
              is_reported-collect_changes path seen ps,
              is_reported-collect_changes path (p ∷ seen) ps,
            )
        | inr other ↦ ground (
          arith,
          step,
          is_reported-collect_changes path seen ps,
          is_reported-collect_changes path (p ∷ seen) ps,
        )
      ]
]

collect_changes-IsClassified :
    (seen paths : List Text) → All IsClassified (collect_changes seen paths)
unfolding collect_changes
collect_changes-IsClassified seen [] = tt
collect_changes-IsClassified seen (p ∷ ps) = elim (Option-cases (classify_contract_path p)) [
  | inl e ↦
      subst (All IsClassified) (sym (collect_changes-none seen p ps e))
        (collect_changes-IsClassified seen ps)
  | inr (kind, e) ↦ subst (All IsClassified) (sym (collect_changes-some seen p ps kind e)) (
      if_ind (All IsClassified) (is_listed p seen) (collect_changes-IsClassified seen ps)
        (e, collect_changes-IsClassified (p ∷ seen) ps))
]

-- A path that is not reported is apart from every change.
not_reported :
    (path : Text) (changes : List ContractChange)
    → is_reported path changes ≡ false
    → All (λ (c : ContractChange). text_eq path c.path ≡ false) changes
not_reported path [] h = tt
not_reported path (c ∷ cs) h =
    (ground (arith, text_eq_flip path c.path), not_reported path cs (ground arith))

collect_changes-AreApart : (seen paths : List Text) → Pairwise AreApart (collect_changes seen paths)
unfolding collect_changes
collect_changes-AreApart seen [] = tt
collect_changes-AreApart seen (p ∷ ps) = elim (Option-cases (classify_contract_path p)) [
  | inl e ↦
      subst (Pairwise AreApart) (sym (collect_changes-none seen p ps e))
        (collect_changes-AreApart seen ps)
  | inr (kind, e) ↦
      let rest = collect_changes (p ∷ seen) ps in
      let new : is_reported p rest ≡ false =
        ground (arith, is_reported-collect_changes p (p ∷ seen) ps, text_eq_self p) in
      subst (Pairwise AreApart) (sym (collect_changes-some seen p ps kind e)) (
        if_ind (Pairwise AreApart) (is_listed p seen) (collect_changes-AreApart seen ps)
          (not_reported p rest new, collect_changes-AreApart (p ∷ seen) ps))
]

changes_of-AreChanges :
    (paths : List Text)
    → ((path : Text)
        → is_reported path (changes_of paths) ≡ (is_listed path paths && is_contract path))
      × All IsClassified (changes_of paths)
      × Pairwise AreApart (changes_of paths)
unfolding changes_of
changes_of-AreChanges paths = (
  λ path.
      any-sort change_leb (λ (c : ContractChange). text_eq c.path path) (collect_changes [] paths)
      ∙ ground (arith, is_reported-collect_changes path [] paths),
  All-sort change_leb IsClassified (collect_changes [] paths)
      (collect_changes-IsClassified [] paths),
  Pairwise-sort change_leb AreApart (λ a b h. sym (text_eq_flip a.path b.path) ∙ h)
      (collect_changes [] paths) (collect_changes-AreApart [] paths),
)

-- A path is reported by `contract_changes` just when `changed_files` lists it and it is one of the
-- contract's files; every change has the kind that `classify_contract_path` gives its path; and no two
-- changes have the same path.
pub contract_changes-AreChanges :
    (run : List String → RunResult) (root : String) (base : Option String)
    → let changes = contract_changes run root base in
      ((path : Text)
        → is_reported path changes
          ≡ (is_listed path (changed_files run root base) && is_contract path))
      × All IsClassified changes
      × Pairwise AreApart changes
unfolding contract_changes
contract_changes-AreChanges run root base = changes_of-AreChanges (changed_files run root base)
