-- ===== src/Versioning/Order.antt =====
-- The order of versions: `_cmp_versions` against a comparison without padding, its laws, and how it
-- differs from the comparison by keys.
use Prim.Native.Nat.{compare, Ordering}
use devrepro_doctor.Prelude.{
  ℕ, suc, ◌-◌, ◌≡◌, ◌≢◌, refl, max, true, false, Option, none, some, List, [], ◌∷◌, ◌++◌,
  append-nil, arith, length,
}
use devrepro_doctor.Versioning.{
  Text, Version, compare_lists, compare_tags, zeros, pad, cmp_versions,
}
use devrepro_doctor.Versioning.Keys

-- Missing components are zero.
unfoldable pub cmp_nums : List ℕ → List ℕ → Ordering
cmp_nums [] [] = Ordering.eq
cmp_nums [] (y ∷ ys) = elim (compare 0 y) [
  | Ordering.lt ↦ Ordering.lt
  | Ordering.eq ↦ cmp_nums [] ys
  | Ordering.gt ↦ Ordering.gt
]
cmp_nums (x ∷ xs) [] = elim (compare x 0) [
  | Ordering.lt ↦ Ordering.lt
  | Ordering.eq ↦ cmp_nums xs []
  | Ordering.gt ↦ Ordering.gt
]
cmp_nums (x ∷ xs) (y ∷ ys) = elim (compare x y) [
  | Ordering.lt ↦ Ordering.lt
  | Ordering.eq ↦ cmp_nums xs ys
  | Ordering.gt ↦ Ordering.gt
]

abbrev pub flip : Ordering → Ordering
flip Ordering.lt = Ordering.gt
flip Ordering.eq = Ordering.eq
flip Ordering.gt = Ordering.lt

left_zeros : (b : List ℕ) → compare_lists (zeros (length b)) b ≡ cmp_nums [] b
unfolding compare_lists cmp_nums
left_zeros [] = refl
left_zeros (y ∷ ys) = ground (arith, left_zeros ys)

right_zeros : (a : List ℕ) → compare_lists a (zeros (length a)) ≡ cmp_nums a []
unfolding compare_lists cmp_nums
right_zeros [] = refl
right_zeros (x ∷ xs) = ground (arith, right_zeros xs)

pad_lem : (a b : List ℕ) → compare_lists (pad a b).0 (pad a b).1 ≡ cmp_nums a b
unfolding pad compare_lists cmp_nums
pad_lem [] b =
    let long : max 0 (length b) - 0 ≡ length b = omega arith in
    let short : max 0 (length b) - length b ≡ 0 = omega arith in
    rw (long, short, append-nil) (left_zeros b)
pad_lem (x ∷ xs) [] =
    let long : max (suc (length xs)) 0 - suc (length xs) ≡ 0 = omega arith in
    let short : max (suc (length xs)) 0 - 0 ≡ suc (length xs) = omega arith in
    rw (long, short, append-nil) (right_zeros (x ∷ xs))
pad_lem (x ∷ xs) (y ∷ ys) =
    let n = max (suc (length xs)) (suc (length ys)) in
    let m = max (length xs) (length ys) in
    let left : n - suc (length xs) ≡ m - length xs = omega arith in
    let right : n - suc (length ys) ≡ m - length ys = omega arith in
    rw (left, right) (ground (arith, pad_lem xs ys))

cmp_nums-flip : (a b : List ℕ) → cmp_nums b a ≡ flip (cmp_nums a b)
unfolding cmp_nums
cmp_nums-flip [] [] = refl
cmp_nums-flip [] (y ∷ ys) = ground (arith, cmp_nums-flip [] ys)
cmp_nums-flip (x ∷ xs) [] = ground (arith, cmp_nums-flip xs [])
cmp_nums-flip (x ∷ xs) (y ∷ ys) = ground (arith, cmp_nums-flip xs ys)

compare_lists-flip : (a b : List ℕ) → compare_lists b a ≡ flip (compare_lists a b)
unfolding compare_lists
compare_lists-flip [] [] = refl
compare_lists-flip [] (y ∷ ys) = refl
compare_lists-flip (x ∷ xs) [] = refl
compare_lists-flip (x ∷ xs) (y ∷ ys) = ground (arith, compare_lists-flip xs ys)

-- The composite of two comparisons, where none goes up.
abbrev pub compose : Ordering → Ordering → Ordering
compose Ordering.gt _ = Ordering.gt
compose _ Ordering.gt = Ordering.gt
compose Ordering.eq o = o
compose Ordering.lt _ = Ordering.lt

cmp_nums_trans :
    (a b c : List ℕ)
    → cmp_nums a b ≢ Ordering.gt
    → cmp_nums b c ≢ Ordering.gt
    → cmp_nums a c ≡ compose (cmp_nums a b) (cmp_nums b c)
unfolding cmp_nums
cmp_nums_trans [] [] [] p q = refl
cmp_nums_trans [] [] (z ∷ zs) p q = ground (arith)
cmp_nums_trans [] (y ∷ ys) [] p q = ground (arith, cmp_nums_trans [] ys [])
cmp_nums_trans [] (y ∷ ys) (z ∷ zs) p q = ground (arith, cmp_nums_trans [] ys zs)
cmp_nums_trans (x ∷ xs) [] [] p q = ground (arith, cmp_nums_trans xs [] [])
cmp_nums_trans (x ∷ xs) [] (z ∷ zs) p q = ground (arith, cmp_nums_trans xs [] zs)
cmp_nums_trans (x ∷ xs) (y ∷ ys) [] p q = ground (arith, cmp_nums_trans xs ys [])
cmp_nums_trans (x ∷ xs) (y ∷ ys) (z ∷ zs) p q = ground (arith, cmp_nums_trans xs ys zs)

compare_lists_trans :
    (a b c : List ℕ)
    → compare_lists a b ≢ Ordering.gt
    → compare_lists b c ≢ Ordering.gt
    → compare_lists a c ≡ compose (compare_lists a b) (compare_lists b c)
unfolding compare_lists
compare_lists_trans [] [] [] p q = refl
compare_lists_trans [] [] (z ∷ zs) p q = refl
compare_lists_trans [] (y ∷ ys) [] p q = absurd (q refl)
compare_lists_trans [] (y ∷ ys) (z ∷ zs) p q = ground arith
compare_lists_trans (x ∷ xs) [] c p q = absurd (p refl)
compare_lists_trans (x ∷ xs) (y ∷ ys) [] p q = absurd (q refl)
compare_lists_trans (x ∷ xs) (y ∷ ys) (z ∷ zs) p q = ground (arith, compare_lists_trans xs ys zs)

pub compare_tags-none : compare_tags none none ≡ Ordering.eq
unfolding compare_tags
compare_tags-none = refl

compare_tags-flip : (s t : Option Text) → compare_tags t s ≡ flip (compare_tags s t)
unfolding compare_tags
compare_tags-flip none none = refl
compare_tags-flip none (some t) = refl
compare_tags-flip (some s) none = refl
compare_tags-flip (some s) (some t) = compare_lists-flip s t

compare_tags_trans :
    (s t u : Option Text)
    → compare_tags s t ≢ Ordering.gt
    → compare_tags t u ≢ Ordering.gt
    → compare_tags s u ≡ compose (compare_tags s t) (compare_tags t u)
unfolding compare_tags
compare_tags_trans none none none p q = refl
compare_tags_trans none none (some u) p q = absurd (q refl)
compare_tags_trans none (some t) u p q = absurd (p refl)
compare_tags_trans (some s) none none p q = refl
compare_tags_trans (some s) none (some u) p q = absurd (q refl)
compare_tags_trans (some s) (some t) none p q = ground arith
compare_tags_trans (some s) (some t) (some u) p q = compare_lists_trans s t u p q

pub cmp_versions-cmp_nums :
    (a b : Version)
    → cmp_versions a b ≡ (elim (cmp_nums a.nums b.nums) [
      | Ordering.lt ↦ Ordering.lt
      | Ordering.gt ↦ Ordering.gt
      | Ordering.eq ↦ compare_tags a.tag b.tag
    ])
unfolding cmp_versions
cmp_versions-cmp_nums a b = ground (arith, pad_lem a.nums b.nums)

-- Tags as lists of one order: a release is after every tag, and two tags are compared as texts.
abbrev pub tag_rank : Option Text → List ℕ
tag_rank none = 1 ∷ []
tag_rank (some t) = 0 ∷ t

compare_tags-tag_rank :
    (s t : Option Text) → compare_tags s t ≡ compare_lists (tag_rank s) (tag_rank t)
unfolding compare_tags compare_lists
compare_tags-tag_rank none none = refl
compare_tags-tag_rank none (some t) = refl
compare_tags-tag_rank (some s) none = refl
compare_tags-tag_rank (some s) (some t) = refl

-- `_cmp_versions` compares the numbers with missing components read as zero, and only if these are
-- equal the tags: a version with a tag comes before the release without one, and two tags are compared
-- character by character, a tag before the longer ones that it begins.
pub cmp_versions-tag_rank :
    (a b : Version)
    → cmp_versions a b ≡ (elim (cmp_nums a.nums b.nums) [
      | Ordering.lt ↦ Ordering.lt
      | Ordering.gt ↦ Ordering.gt
      | Ordering.eq ↦ compare_lists (tag_rank a.tag) (tag_rank b.tag)
    ])
cmp_versions-tag_rank a b =
    ground (arith, cmp_versions-cmp_nums a b, compare_tags-tag_rank a.tag b.tag)

-- Comparing the other way round gives the opposite answer, so every version equals itself.
pub cmp_versions-flip : (a b : Version) → cmp_versions b a ≡ flip (cmp_versions a b)
cmp_versions-flip a b = ground (
  arith,
  cmp_versions-cmp_nums a b,
  cmp_versions-cmp_nums b a,
  cmp_nums-flip a.nums b.nums,
  compare_tags-flip a.tag b.tag,
)

-- `_cmp_versions` is transitive: where no step goes up, the comparison of the ends is `eq` if both steps
-- are, and `lt` otherwise.
pub cmp_versions_trans :
    (a b c : Version)
    → cmp_versions a b ≢ Ordering.gt
    → cmp_versions b c ≢ Ordering.gt
    → cmp_versions a c ≡ compose (cmp_versions a b) (cmp_versions b c)
cmp_versions_trans a b c p q = ground (
  arith,
  cmp_versions-cmp_nums a b,
  cmp_versions-cmp_nums b c,
  cmp_versions-cmp_nums a c,
  cmp_nums_trans a.nums b.nums c.nums,
  compare_tags_trans a.tag b.tag c.tag,
)

cmp_nums-zero : (xs : List ℕ) → cmp_nums xs (xs ++ 0 ∷ []) ≡ Ordering.eq
unfolding cmp_nums
cmp_nums-zero [] = refl
cmp_nums-zero (x ∷ xs) = ground (arith, cmp_nums-zero xs)

compare_lists-zero : (xs : List ℕ) → compare_lists xs (xs ++ 0 ∷ []) ≡ Ordering.lt
unfolding compare_lists
compare_lists-zero [] = refl
compare_lists-zero (x ∷ xs) = ground (arith, compare_lists-zero xs)

compare_tags_refl : (t : Option Text) → compare_tags t t ≡ Ordering.eq
compare_tags_refl t = ground (arith, compare_tags-flip t t)

-- The two comparisons disagree on every version: with a further component zero `_cmp_versions` finds
-- it equal, while `__eq__` finds it different and `__lt__` smaller.
pub trailing_zero :
    (v : Version)
    → (let w = record v { nums = v.nums ++ 0 ∷ [] } in
        (cmp_versions v w ≡ Ordering.eq) × (Keys.eq v w ≡ false) × (Keys.lt v w ≡ true))
unfolding Keys.eq Keys.lt
trailing_zero v = (
  ground (
    arith,
    cmp_versions-cmp_nums v (record v { nums = v.nums ++ 0 ∷ [] }),
    cmp_nums-zero v.nums,
    compare_tags_refl v.tag,
  ),
  ground (arith, compare_lists-zero v.nums),
  ground (arith, compare_lists-zero v.nums),
)

compare_tags-some : (t : Text) → compare_tags (some t) none ≡ Ordering.lt
unfolding compare_tags
compare_tags-some t = refl

-- Of two versions with the same numbers, one with a tag and one without, `_cmp_versions` puts the one
-- with the tag first and `<` of the class puts it last; they are never equal.
pub tagged_release :
    (nums : List ℕ) (tag : Text)
    → (let bare : Version = record { nums = nums; tag = none } in
        let tagged : Version = record { nums = nums; tag = some tag } in
        (cmp_versions tagged bare ≡ Ordering.lt)
        × (Keys.lt bare tagged ≡ true)
        × (Keys.lt tagged bare ≡ false)
        × (Keys.eq tagged bare ≡ false))
unfolding Keys.eq Keys.lt
tagged_release nums tag =
    let same : compare_lists nums nums ≡ Ordering.eq =
      ground (arith, compare_lists-flip nums nums) in
    let same_nums : cmp_nums nums nums ≡ Ordering.eq = ground (arith, cmp_nums-flip nums nums) in
    let bare : Version = record { nums = nums; tag = none } in
    let tagged : Version = record { nums = nums; tag = some tag } in
    (
      ground (arith, cmp_versions-cmp_nums tagged bare, compare_tags-some tag, same_nums),
      ground (arith, same),
      ground (arith, same),
      ground (arith, same),
    )
