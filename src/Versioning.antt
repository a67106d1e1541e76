-- ===== src/Versioning.antt =====
-- core/versioning.py: versions, their order, and the clauses of a version range. A text is the list of
-- its code points, and is ASCII; `raw`, which only the printing of a version reads, is left out.
pub mod Keys
pub mod Order
pub mod Text
pub mod Parse
pub mod Spec
pub mod Partial
pub mod Groups
mod Samples
use Prim.Native.Nat.{compare, Ordering}
use devrepro_doctor.Prelude.{
  ℕ, zero, suc, ◌-◌, max, Bool, true, false, not, ◌&&◌, Option, none, some, List, [], ◌∷◌, ◌++◌,
  ◌==◌, if◌then◌else◌, length, all, any,
}

abbrev pub Text : Type 0
Text = List ℕ

pub record Version : Type 0 where
  pub nums : List ℕ
  pub tag : Option Text

-- The comparison of two tuples, or of two texts: the first difference decides, then the length.
unfoldable pub compare_lists : List ℕ → List ℕ → Ordering
compare_lists [] [] = Ordering.eq
compare_lists [] (y ∷ ys) = Ordering.lt
compare_lists (x ∷ xs) [] = Ordering.gt
compare_lists (x ∷ xs) (y ∷ ys) = elim (compare x y) [
  | Ordering.lt ↦ Ordering.lt
  | Ordering.eq ↦ compare_lists xs ys
  | Ordering.gt ↦ Ordering.gt
]

abbrev pub is_eq : Ordering → Bool
is_eq Ordering.eq = true
is_eq _ = false

abbrev pub is_lt : Ordering → Bool
is_lt Ordering.lt = true
is_lt _ = false

abbrev pub is_gt : Ordering → Bool
is_gt Ordering.gt = true
is_gt _ = false

abbrev pub zeros : ℕ → List ℕ
zeros zero = []
zeros (suc n) = 0 ∷ zeros n

unfoldable pub pad : List ℕ → List ℕ → List ℕ × List ℕ
pad a b =
    let n = max (length a) (length b) in (a ++ zeros (n - length a), b ++ zeros (n - length b))

-- The tags, where the numbers are equal: a version with a tag comes before the release.
unfoldable pub compare_tags : Option Text → Option Text → Ordering
unfolding compare_lists
compare_tags none none = Ordering.eq
compare_tags none (some t) = Ordering.gt
compare_tags (some s) none = Ordering.lt
compare_tags (some s) (some t) = compare_lists s t

-- `_cmp_versions`: -1, 0 and 1 are `lt`, `eq` and `gt`.
unfoldable pub cmp_versions : Version → Version → Ordering
unfolding compare_lists pad compare_tags
cmp_versions a b =
    let (an, bn) = pad a.nums b.nums in
    elim (compare_lists an bn) [
      | Ordering.lt ↦ Ordering.lt
      | Ordering.gt ↦ Ordering.gt
      | Ordering.eq ↦ compare_tags a.tag b.tag
    ]

-- The operators of a clause: `*`, `>=`, `<=`, `!=`, `==`, `=`, `>`, `<`.
pub data Op : Type 0 where
  star ge le ne eq_eq eq gt lt : Op

pub record SpecClause : Type 0 where
  pub op : Op
  pub version : Version

abbrev pub holds : Op → Ordering → Bool
holds star c = true
holds ge c = not (is_lt c)
holds le c = not (is_gt c)
holds gt c = is_gt c
holds lt c = is_lt c
holds ne c = not (is_eq c)
holds eq_eq c = is_eq c
holds eq c = is_eq c

unfoldable pub clause_satisfied_by : SpecClause → Version → Bool
unfolding cmp_versions
clause_satisfied_by clause candidate = holds clause.op (cmp_versions candidate clause.version)

-- A disjunction of conjunctions of clauses.
pub record SpecSet : Type 0 where
  pub groups : List (List SpecClause)

unfoldable pub satisfied_by : SpecSet → Version → Bool
unfolding clause_satisfied_by
satisfied_by spec candidate =
    any (λ group. all (λ clause. clause_satisfied_by clause candidate) group) spec.groups
