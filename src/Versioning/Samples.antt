-- ===== src/Versioning/Samples.antt =====
-- Runs of `satisfies` that the repository's own tests make, and the theorems at small versions.
use Prim.Native.Nat.{Ordering}
use devrepro_doctor.Prelude.{
  String, ◌≡◌, refl, Bool, true, false, Option, none, some, List, [], ◌∷◌,
}
use devrepro_doctor.Versioning.{
  Version, Op, SpecClause, SpecSet, cmp_versions, compare_lists, pad, compare_tags,
}
use devrepro_doctor.Versioning.Text.{codes, split_at}
use devrepro_doctor.Versioning.Keys.{eq, lt}
use devrepro_doctor.Versioning.Order.{
  cmp_nums, compose, cmp_versions-tag_rank, cmp_versions_trans, trailing_zero, tagged_release,
}
use devrepro_doctor.Versioning.Parse.{
  parse_version, release, clause, partial_clauses, leading_number,
}
use devrepro_doctor.Versioning.Partial.{accepted, partial_clauses-major}
use devrepro_doctor.Versioning.Spec.{satisfies}

abbrev check : String → String → Option Bool
check version spec = satisfies (codes version) (codes spec)

checks :
    (check "3.12.4" ">=3.11,<3.14" ≡ some true)
    × (check "18.19.0" ">=20 || 18" ≡ some true)
    × (check "16.20.2" "<=16" ≡ some true)
    × (check "1.0.0-rc.1" "<1.0.0" ≡ some true)
    × (check "1.0.0" "<1.0.0" ≡ some false)
    × (check "2.55.0.windows.3" "*" ≡ some true)
    × (check "x" ">=1" ≡ none)
    × (check "1.2" ">=" ≡ none)
    × (check "18.4.0" "<18" ≡ some true)
    × (check "16.0.0" ">16" ≡ some true)
    × (parse_version (codes "12.-a") ≡ some (record { nums = 1 ∷ []; tag = some (codes "2.-a") }))
unfolding satisfies split_at
checks = (refl, refl, refl, refl, refl, refl, refl, refl, refl, refl, refl)

abbrev clauses_18 : List SpecClause
clauses_18 =
    clause Op.ge (release (18 ∷ 0 ∷ 0 ∷ [])) ∷ clause Op.lt (release (19 ∷ 0 ∷ 0 ∷ [])) ∷ []

abbrev at_least_20 : SpecSet
at_least_20 = record { groups = (clause Op.ge (release (20 ∷ 0 ∷ 0 ∷ [])) ∷ []) ∷ [] }

abbrev v1_2 : Version
v1_2 = release (1 ∷ 2 ∷ [])

abbrev v1_2_rc : Version
v1_2_rc = record { nums = 1 ∷ 2 ∷ 0 ∷ []; tag = some (codes "rc.1") }

abbrev v1_10 : Version
v1_10 = release (1 ∷ 10 ∷ [])

cmp_versions-tag_rank_example :
    cmp_versions v1_2_rc v1_2 ≡ (elim (cmp_nums (1 ∷ 2 ∷ 0 ∷ []) (1 ∷ 2 ∷ [])) [
      | Ordering.lt ↦ Ordering.lt
      | Ordering.eq ↦ compare_lists (0 ∷ codes "rc.1") (1 ∷ [])
      | Ordering.gt ↦ Ordering.gt
    ])
cmp_versions-tag_rank_example = cmp_versions-tag_rank v1_2_rc v1_2

cmp_versions_trans_example :
    cmp_versions v1_2_rc v1_10 ≡ compose (cmp_versions v1_2_rc v1_2) (cmp_versions v1_2 v1_10)
unfolding cmp_versions compare_lists pad compare_tags
cmp_versions_trans_example = cmp_versions_trans v1_2_rc v1_2 v1_10 (λ e. cc e) (λ e. cc e)

trailing_zero_example :
    (cmp_versions v1_2 (release (1 ∷ 2 ∷ 0 ∷ [])) ≡ Ordering.eq)
    × (eq v1_2 (release (1 ∷ 2 ∷ 0 ∷ [])) ≡ false)
    × (lt v1_2 (release (1 ∷ 2 ∷ 0 ∷ [])) ≡ true)
trailing_zero_example = trailing_zero v1_2

partial_clauses-major_example :
    (cs : List SpecClause) × (partial_clauses (some Op.lt) (codes "18") ≡ some cs)
    × (accepted cs (release (18 ∷ 4 ∷ 0 ∷ [])) ≡ true)
unfolding leading_number
partial_clauses-major_example =
    partial_clauses-major (some Op.lt) (codes "18") 18 18 4 0 (λ e. cc e) refl

tagged_release_example :
    (cmp_versions v1_2_rc (release (1 ∷ 2 ∷ 0 ∷ [])) ≡ Ordering.lt)
    × (lt (release (1 ∷ 2 ∷ 0 ∷ [])) v1_2_rc ≡ true)
    × (lt v1_2_rc (release (1 ∷ 2 ∷ 0 ∷ [])) ≡ false)
    × (eq v1_2_rc (release (1 ∷ 2 ∷ 0 ∷ [])) ≡ false)
tagged_release_example = tagged_release (1 ∷ 2 ∷ 0 ∷ []) (codes "rc.1")
