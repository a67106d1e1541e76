-- ===== src/Monorepo/Compatible.antt =====
-- Which declarations of a repository do not conflict.
use devrepro_doctor.Prelude.{
  ◌≡◌, ◌≢◌, ◌↔◌, refl, ◌∙◌, sym, String, Bool, true, false, not, ◌||◌, Option, none, some, List, [],
  ◌∷◌, all, any, arith, inl, inr, Bool-cases, Option-cases, str_eq, str_eq_iff, contains,
}
use devrepro_doctor.Prelude.Sorting.{Pairwise}
use devrepro_doctor.Prelude.Reflection.{and_iff, or_iff, all_iff, any-witness, any-of_member}
use devrepro_doctor.Versioning.{Version, SpecSet, satisfied_by}
use devrepro_doctor.Versioning.Text.{codes}
use devrepro_doctor.Versioning.Parse.{parse_version}
use devrepro_doctor.Versioning.Spec.{parse_spec}
use devrepro_doctor.Monorepo.{
  NestedConflict, Declared, Manifest, declared_by, is_nested, candidates, is_common, ranges_overlap,
  range_conflict, pair_conflicts, detect_conflicts,
}
use devrepro_doctor.Monorepo.Agreement.{
  has_none, agree, agree_same, all_pairs, has_none-detect_conflicts,
}
use devrepro_doctor.Monorepo.Nested.{AreNested, is_nested_iff}

-- Two declarations that may stand together: of different tools, of directories apart, or with ranges that can
-- be read and accept the same sampled version.
pub data AreCompatible (a b : Declared) : Type 0 where
  other_tools : a.tool ≢ b.tool → AreCompatible a b
  apart : (AreNested a.rel b.rel → ⊥) → AreCompatible a b
  common :
      (sample : String) (version : Version) (range range' : SpecSet)
      → contains sample candidates ≡ true
      → parse_version (codes sample) ≡ some version
      → parse_spec (codes a.spec) ≡ some range
      → parse_spec (codes b.spec) ≡ some range'
      → satisfied_by range version ≡ true
      → satisfied_by range' version ≡ true
      → AreCompatible a b

abbrev do_overlap : Option SpecSet → Option SpecSet → Bool
do_overlap (some ra) (some rb) = ranges_overlap ra rb
do_overlap _ _ = false

has_none-range_conflict :
    (a b : Declared) (ra rb : Option SpecSet)
    → has_none (range_conflict a b ra rb) ≡ do_overlap ra rb
unfolding range_conflict
has_none-range_conflict a b none none = refl
has_none-range_conflict a b none (some rb) = refl
has_none-range_conflict a b (some ra) none = refl
has_none-range_conflict a b (some ra) (some rb) = elim (Bool-cases (ranges_overlap ra rb)) [
  | inl e ↦ rw e refl
  | inr e ↦ rw e refl
]

agree_lem :
    (a b : Declared)
    → agree a b ≡ (
        not (is_nested a.rel b.rel)
        || do_overlap (parse_spec (codes a.spec)) (parse_spec (codes b.spec)))
unfolding pair_conflicts
agree_lem a b = elim (Bool-cases (is_nested a.rel b.rel)) [
  | inl e ↦
      rw e (has_none-range_conflict a b (parse_spec (codes a.spec)) (parse_spec (codes b.spec)))
  | inr e ↦ rw e refl
]

is_common-some :
    (ra rb : SpecSet) (sample : String)
    → is_common ra rb sample ≡ true
    → (v : Version) × (parse_version (codes sample) ≡ some v)
      × (satisfied_by ra v ≡ true)
      × (satisfied_by rb v ≡ true)
unfolding is_common
is_common-some ra rb sample h = elim (Option-cases (parse_version (codes sample))) [
  | inl gone ↦ absurd (ground arith)
  | inr (v, there) ↦ (v, there, ground arith, ground arith)
]

common-is_common :
    (ra rb : SpecSet) (sample : String) (v : Version)
    → parse_version (codes sample) ≡ some v
    → satisfied_by ra v ≡ true
    → satisfied_by rb v ≡ true
    → is_common ra rb sample ≡ true
unfolding is_common
common-is_common ra rb sample v reads first second = ground arith

do_overlap-common :
    (a b : Declared)
    → do_overlap (parse_spec (codes a.spec)) (parse_spec (codes b.spec)) ≡ true
    → AreCompatible a b
unfolding ranges_overlap
do_overlap-common a b h = elim (Option-cases (parse_spec (codes a.spec))) [
  | inl gone ↦ absurd (ground arith)
  | inr (ra, reads) ↦ elim (Option-cases (parse_spec (codes b.spec))) [
    | inl gone ↦ absurd (ground arith)
    | inr (rb, reads') ↦
        let overlap : any (is_common ra rb) candidates ≡ true = rw (reads, reads') at h in
        let (sample, listed, it) = any-witness (is_common ra rb) candidates overlap in
        let (v, version, first, second) = is_common-some ra rb sample it in
        common sample v ra rb listed version reads reads' first second
  ]
]

common-do_overlap :
    (a b : Declared) (sample : String) (ra rb : SpecSet)
    → contains sample candidates ≡ true
    → is_common ra rb sample ≡ true
    → parse_spec (codes a.spec) ≡ some ra
    → parse_spec (codes b.spec) ≡ some rb
    → do_overlap (parse_spec (codes a.spec)) (parse_spec (codes b.spec)) ≡ true
unfolding ranges_overlap
common-do_overlap a b sample ra rb listed it reads reads' =
    rw (reads, reads') (any-of_member (is_common ra rb) sample candidates listed it)

agree_same_iff : (a b : Declared) → (agree_same a b ≡ true) ↔ AreCompatible a b
agree_same_iff a b =
    let overlap = do_overlap (parse_spec (codes a.spec)) (parse_spec (codes b.spec)) in
    let nested = is_nested_iff a.rel b.rel in
    (
      λ h. elim ((or_iff (not (str_eq a.tool b.tool)) (agree a b)).0 h) [
        | inl other ↦ other_tools λ same.
            let equal : str_eq a.tool b.tool ≡ true = (str_eq_iff a.tool b.tool).1 same in
            absurd (ground arith)
        | inr fits ↦
            elim ((or_iff (not (is_nested a.rel b.rel)) overlap).0 (sym (agree_lem a b) ∙ fits)) [
              | inl away ↦ apart λ n.
                  let inside : is_nested a.rel b.rel ≡ true = nested.1 n in absurd (ground arith)
              | inr meets ↦ do_overlap-common a b meets
            ]
      ],
      λ c. elim c [
        | other_tools different ↦ elim (Bool-cases (str_eq a.tool b.tool)) [
          | inl e ↦ absurd (different ((str_eq_iff a.tool b.tool).0 e))
          | inr e ↦ ground arith
        ]
        | apart away ↦ elim (Bool-cases (is_nested a.rel b.rel)) [
          | inl e ↦ absurd (away (nested.0 e))
          | inr e ↦ ground (arith, agree_lem a b)
        ]
        | common sample v ra rb listed version reads reads' first second ↦
            let it = common-is_common ra rb sample v version first second in
            let meets = common-do_overlap a b sample ra rb listed it reads reads' in
            ground (arith, agree_lem a b, meets)
      ],
    )

all_pairs_iff : (ds : List Declared) → (all_pairs agree_same ds ≡ true) ↔ Pairwise AreCompatible ds
all_pairs_iff [] = (λ h. tt, λ h. refl)
all_pairs_iff (d ∷ ds) =
    let both = and_iff (all (agree_same d) ds) (all_pairs agree_same ds) in
    let own = all_iff (agree_same d) (AreCompatible d) (agree_same_iff d) ds in
    let rest = all_pairs_iff ds in
    (
      λ h. let (first, more) = both.0 h in (own.0 first, rest.0 more),
      λ (first, more). both.1 (own.1 first, rest.1 more),
    )

has_none_iff : (cs : List NestedConflict) → (has_none cs ≡ true) ↔ (cs ≡ [])
has_none_iff [] = (λ h. refl, λ h. refl)
has_none_iff (c ∷ cs) = (λ h. cc h, λ h. cc h)

-- `_detect_conflicts` reports nothing just when any two declarations of the manifests are compatible: they are of
-- different tools; or of directories neither of which is the root or contains the other; or both of their ranges
-- can be read and accept one of the sampled versions. The grouping by tool loses no pair and adds none.
pub detect_conflicts_iff :
    (manifests : List Manifest)
    → (detect_conflicts manifests ≡ []) ↔ Pairwise AreCompatible (declared_by manifests)
detect_conflicts_iff manifests =
    let same = has_none-detect_conflicts manifests in
    let nil = has_none_iff (detect_conflicts manifests) in
    let pairs = all_pairs_iff (declared_by manifests) in
    (λ h. pairs.0 (sym same ∙ nil.1 h), λ h. nil.0 (same ∙ pairs.1 h))
