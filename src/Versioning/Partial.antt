-- ===== src/Versioning/Partial.antt =====
-- What a clause over a partial version, `>=18` or `16.2`, accepts of the releases x.y.z.
use Prim.Native.Nat.{compare, Ordering}
use devrepro_doctor.Prelude.{
  ℕ, ◌+◌, ◌≡◌, ◌≢◌, refl, Bool, false, ◌||◌, Option, none, some, List, [], ◌∷◌, arith, ◌==◌, leb,
  ltb, all, if◌then◌else◌,
}
use devrepro_doctor.Versioning.{
  Text, Version, Op, SpecClause, star, ge, le, ne, eq_eq, eq, gt, lt, cmp_versions,
  clause_satisfied_by,
}
use devrepro_doctor.Versioning.Order.{cmp_nums, cmp_versions-cmp_nums, compare_tags-none}
use devrepro_doctor.Versioning.Parse.{release, leading_number, partial_clauses, partial_range}

abbrev pub accepted : List SpecClause → Version → Bool
accepted clauses v = all (λ c. clause_satisfied_by c v) clauses

-- What `op major` accepts of a release by its first component.
abbrev pub accepts_major : Option Op → ℕ → ℕ → Bool
accepts_major (some lt) major x = leb x major
accepts_major (some le) major x = leb x major
accepts_major (some gt) major x = leb major x
accepts_major (some ge) major x = leb major x
accepts_major (some ne) major x = false
accepts_major op major x = x == major

cmp_release :
    (x y z a : ℕ)
    → cmp_versions (release (x ∷ y ∷ z ∷ [])) (release (a ∷ 0 ∷ 0 ∷ [])) ≡ (elim (compare x a) [
      | Ordering.lt ↦ Ordering.lt
      | Ordering.gt ↦ Ordering.gt
      | Ordering.eq ↦ if ltb 0 y || ltb 0 z then Ordering.gt else Ordering.eq
    ])
unfolding cmp_nums
cmp_release x y z a = ground (
  arith,
  cmp_versions-cmp_nums (release (x ∷ y ∷ z ∷ [])) (release (a ∷ 0 ∷ 0 ∷ [])),
  compare_tags-none,
)

partial_range-major :
    (op : Option Op) (major : ℕ) (text : Text) (x y z : ℕ)
    → op ≢ some ne
    → (cs : List SpecClause) × (partial_range op major none text ≡ some cs)
      × (accepted cs (release (x ∷ y ∷ z ∷ [])) ≡ accepts_major op major x)
unfolding partial_range clause_satisfied_by
partial_range-major none major text x y z h =
    (_, refl, ground (arith, cmp_release x y z major, cmp_release x y z (major + 1)))
partial_range-major (some ne) major text x y z h = absurd (h refl)
partial_range-major (some star) major text x y z h =
    (_, refl, ground (arith, cmp_release x y z major, cmp_release x y z (major + 1)))
partial_range-major (some ge) major text x y z h =
    (_, refl, ground (arith, cmp_release x y z major))
partial_range-major (some le) major text x y z h =
    (_, refl, ground (arith, cmp_release x y z (major + 1)))
partial_range-major (some eq_eq) major text x y z h =
    (_, refl, ground (arith, cmp_release x y z major, cmp_release x y z (major + 1)))
partial_range-major (some eq) major text x y z h =
    (_, refl, ground (arith, cmp_release x y z major, cmp_release x y z (major + 1)))
partial_range-major (some gt) major text x y z h =
    (_, refl, ground (arith, cmp_release x y z major))
partial_range-major (some lt) major text x y z h =
    (_, refl, ground (arith, cmp_release x y z (major + 1)))

-- A clause whose version is one number `major` accepts a release x.y.z by x alone: none, `*`, `=` and
-- `==` accept x = major, `>=` accepts major ≤ x and `<=` accepts x ≤ major; but `>` accepts major ≤ x
-- and `<` accepts x ≤ major as well.
pub partial_clauses-major :
    (op : Option Op) (text : Text) (major x y z : ℕ)
    → op ≢ some ne
    → leading_number text ≡ some (major, [])
    → (cs : List SpecClause) × (partial_clauses op text ≡ some cs)
      × (accepted cs (release (x ∷ y ∷ z ∷ [])) ≡ accepts_major op major x)
unfolding partial_clauses
partial_clauses-major op text major x y z h leads =
    let (cs, e, same) = partial_range-major op major text x y z h in
    (cs, rw (leads, partial_clauses) e, same)
