-- ===== src/Prelude/Texts.antt =====
-- Lists of texts: sorting, and dictionaries as association lists in which the first entry counts.
use Prim.Native.String.{String, compare}
use mathlib.Core.Bool.{Bool}
use mathlib.Core.Option.{Option, none, some}
use mathlib.Core.List.{List, [], ◌∷◌}
use text.Mathlib.Text.{◌==◌ as str_eq, is_le}
use devrepro_doctor.Prelude.Tests.{if◌then◌else◌}
use devrepro_doctor.Prelude.Lists.{any}

-- Texts compare by code points, as in the source.
abbrev pub str_leb : String → String → Bool
str_leb s t = is_le (compare s t)

-- `sorted`: a stable insertion sort by a test for `≤`.
module _ {ℓ} {A : Type ℓ} (le : A → A → Bool) where
  unfoldable pub insert_sorted : A → List A → List A
  insert_sorted x [] = x ∷ []
  insert_sorted x (y ∷ ys) = if le x y then x ∷ y ∷ ys else y ∷ insert_sorted x ys

  unfoldable pub sort : List A → List A
  unfolding insert_sorted
  sort [] = []
  sort (x ∷ xs) = insert_sorted x (sort xs)

unfoldable pub sort_strings : List String → List String
unfolding sort
sort_strings xs = sort str_leb xs

abbrev pub lookup {ℓ} : {V : Type ℓ} → String → List (String × V) → Option V
lookup k [] = none
lookup k ((j, v) ∷ m) = if str_eq j k then some v else lookup k m

-- The members of a set, each once.
unfoldable pub distinct : {K : Type 0} → (K → K → Bool) → List K → List K
distinct eq [] = []
distinct eq (x ∷ xs) = let rest = distinct eq xs in if any (λ y. eq y x) xs then rest else x ∷ rest

abbrev pub contains : String → List String → Bool
contains x xs = any (λ y. str_eq y x) xs
