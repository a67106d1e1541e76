-- ===== src/Prelude/Members.antt =====
-- Membership of texts in lists, as `in` tests it.
use mathlib.Core.Path.{◌≡◌, refl, ap, subst}
use mathlib.Core.Logic.{inl, inr}
use mathlib.Core.Bool.{Bool, true, false, ◌||◌, ◌&&◌}
use mathlib.Core.List.{List, [], ◌∷◌, ◌++◌}
use Prim.Native.String.{String}
use native.Mathlib.Omega.{arith}
use text.Mathlib.Text.{◌==◌ as str_eq}
use text.Mathlib.TextEquality.{eq_iff as str_eq_iff}
use devrepro_doctor.Prelude.Tests.{Bool-cases}
use devrepro_doctor.Prelude.Lists.{All, any, filter}
use devrepro_doctor.Prelude.Sorting.{All-map, any-sort}
use devrepro_doctor.Prelude.Texts.{contains, distinct, sort_strings, str_leb}

pub contains-append :
    (x : String) (xs ys : List String) → contains x (xs ++ ys) ≡ (contains x xs || contains x ys)
contains-append x [] ys = refl
contains-append x (y ∷ xs) ys = ground (arith, contains-append x xs ys)

pub contains-widen :
    (x y : String) (xs : List String) → contains x xs ≡ true → contains x (y ∷ xs) ≡ true
contains-widen x y xs h = ground arith

pub contains_self : (xs : List String) → All (λ x. contains x xs ≡ true) xs
contains_self [] = tt
contains_self (x ∷ xs) = (
  ground (arith, (str_eq_iff x x).1 refl),
  All-map (λ y h. contains-widen y x xs h) xs (contains_self xs),
)

pub contains-not :
    (x : String) (xs : List String) → contains x xs ≡ false → All (λ y. str_eq y x ≡ false) xs
contains-not x [] h = tt
contains-not x (y ∷ xs) h = (ground arith, contains-not x xs (ground arith))

-- A text equal to a member is a member.
pub contains-same :
    (x y : String) (xs : List String)
    → str_eq x y ≡ true
    → contains x xs ≡ true
    → contains y xs ≡ true
contains-same x y xs e h = subst (λ z. contains z xs ≡ true) ((str_eq_iff x y).0 e) h

pub contains-snoc :
    (x y : String) (xs : List String) → contains x (xs ++ y ∷ []) ≡ (contains x xs || str_eq y x)
contains-snoc x y [] = ground arith
contains-snoc x y (z ∷ xs) = ground (arith, contains-snoc x y xs)

pub contains-sort_strings :
    (x : String) (xs : List String) → contains x (sort_strings xs) ≡ contains x xs
unfolding sort_strings
contains-sort_strings x xs = any-sort str_leb (λ y. str_eq y x) xs

pub contains-distinct :
    (x : String) (xs : List String) → contains x (distinct str_eq xs) ≡ contains x xs
unfolding distinct
contains-distinct x [] = refl
contains-distinct x (y ∷ ys) = elim (Bool-cases (any (λ z. str_eq z y) ys)) [
  | inl old ↦ elim (Bool-cases (str_eq y x)) [
    | inl e ↦ ground (arith, contains-distinct x ys, contains-same y x ys e old)
    | inr e ↦ ground (arith, contains-distinct x ys)
  ]
  | inr new ↦ ground (arith, contains-distinct x ys)
]

pub contains-filter :
    (x : String) (keep : String → Bool) (xs : List String)
    → contains x (filter keep xs) ≡ (keep x && contains x xs)
contains-filter x keep [] = ground arith
contains-filter x keep (y ∷ ys) = elim (Bool-cases (str_eq y x)) [
  | inl e ↦ ground (arith, contains-filter x keep ys, ap keep ((str_eq_iff y x).0 e))
  | inr e ↦ ground (arith, contains-filter x keep ys)
]
