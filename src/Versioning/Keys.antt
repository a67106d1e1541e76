-- ===== src/Versioning/Keys.antt =====
-- The methods of `Version` that compare by `_key`, without padding.
use Prim.Native.Nat.{compare, Ordering}
use devrepro_doctor.Prelude.{ℕ, Bool, not, none, some, List, []}
use devrepro_doctor.Versioning.{Version, compare_lists, is_eq, is_lt, is_gt}

-- `_key`: the numbers as they were written, whether there is a tag, and the tag.
pub record Key : Type 0 where
  pub nums : List ℕ
  pub tagged : ℕ
  pub tag : List ℕ

abbrev pub key : Version → Key
key v = record {
  nums = v.nums;
  tagged = elim v.tag [ none ↦ 0 | some t ↦ 1 ];
  tag = elim v.tag [ none ↦ [] | some t ↦ t ];
}

-- The order of keys as tuples.
unfoldable pub compare_keys : Key → Key → Ordering
compare_keys a b = elim (compare_lists a.nums b.nums) [
  | Ordering.lt ↦ Ordering.lt
  | Ordering.gt ↦ Ordering.gt
  | Ordering.eq ↦ elim (compare a.tagged b.tagged) [
    | Ordering.lt ↦ Ordering.lt
    | Ordering.gt ↦ Ordering.gt
    | Ordering.eq ↦ compare_lists a.tag b.tag
  ]
]

-- `__eq__`, `__lt__`, `__le__`, `__gt__` and `__ge__`.
unfoldable pub eq : Version → Version → Bool
unfolding compare_keys
eq a b = is_eq (compare_keys (key a) (key b))

unfoldable pub lt : Version → Version → Bool
unfolding compare_keys
lt a b = is_lt (compare_keys (key a) (key b))

unfoldable pub le : Version → Version → Bool
unfolding compare_keys
le a b = not (is_gt (compare_keys (key a) (key b)))

unfoldable pub gt : Version → Version → Bool
unfolding compare_keys
gt a b = is_gt (compare_keys (key a) (key b))

unfoldable pub ge : Version → Version → Bool
unfolding compare_keys
ge a b = not (is_lt (compare_keys (key a) (key b)))
