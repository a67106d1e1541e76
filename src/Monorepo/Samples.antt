-- ===== src/Monorepo/Samples.antt =====
-- A repository whose root and packages ask for node and python.
use devrepro_doctor.Prelude.{◌≡◌, ◌↔◌, refl, String, true, some, List, [], ◌∷◌, map}
use devrepro_doctor.Versioning.{satisfied_by}
use devrepro_doctor.Versioning.Text.{split_at, codes}
use devrepro_doctor.Versioning.Spec.{satisfies}
use devrepro_doctor.Monorepo.{NestedConflict, Manifest, declared_by, detect_conflicts}
use devrepro_doctor.Prelude.Sorting.{Pairwise}
use devrepro_doctor.Monorepo.Compatible.{AreCompatible, detect_conflicts_iff}

abbrev manifests : String → String → List Manifest
manifests root child =
    (".", ("node", root) ∷ []) ∷ ("web", ("python", ">=3.12") ∷ ("node", child) ∷ []) ∷ []

abbrev details : List Manifest → List String
details ms = map (λ (c : NestedConflict). c.detail) (detect_conflicts ms)

finds :
    (details (manifests ">=18" "=20.0.0") ≡ [])
    × (details (manifests ">=20" "<18")
        ≡ "no version satisfies both parent and child constraints" ∷ [])
    × (details (manifests ">=20" "lts/*")
        ≡ "version specs could not be compared automatically" ∷ [])
unfolding detect_conflicts split_at satisfied_by
finds = (refl, refl, refl)

-- 23.1.0 is in both ranges, but none of the sampled versions is.
samples_miss :
    (satisfies (codes "23.1.0") (codes ">=23.0.0,<24.0.0") ≡ some true)
    × (satisfies (codes "23.1.0") (codes ">=23.1.0") ≡ some true)
    × (details (manifests ">=23.0.0,<24.0.0" ">=23.1.0")
        ≡ "no version satisfies both parent and child constraints" ∷ [])
unfolding detect_conflicts split_at satisfied_by satisfies
samples_miss = (refl, refl, refl)

detect_conflicts_iff_example :
    (detect_conflicts (manifests ">=18" "=20.0.0") ≡ [])
    ↔ Pairwise AreCompatible (declared_by (manifests ">=18" "=20.0.0"))
detect_conflicts_iff_example = detect_conflicts_iff (manifests ">=18" "=20.0.0")
