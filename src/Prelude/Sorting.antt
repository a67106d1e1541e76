-- ===== src/Prelude/Sorting.antt =====
-- What a stable insertion sort keeps: what holds of all items or of any two, and the order it makes.
use mathlib.Core.Path.{◌≡◌, refl}
use mathlib.Core.Bool.{Bool, true, false, ◌||◌, ◌&&◌}
use mathlib.Core.List.{List, [], ◌∷◌, ◌++◌}
use native.Mathlib.Omega.{arith}
use devrepro_doctor.Prelude.Tests.{if_ind, if_cases}
use devrepro_doctor.Prelude.Lists.{All, All-append, any, all}
use devrepro_doctor.Prelude.Texts.{insert_sorted, sort}

-- A relation between each item and each later one.
abbrev pub Pairwise : {A : Type 0} → (A → A → Type 0) → List A → Type 0
Pairwise R [] = Unit
Pairwise R (x ∷ xs) = All (R x) xs × Pairwise R xs

pub All-map :
    {A : Type 0} {P Q : A → Type 0} (f : (x : A) → P x → Q x) (xs : List A) → All P xs → All Q xs
All-map f [] hs = tt
All-map f (x ∷ xs) hs = (f x hs.0, All-map f xs hs.1)

module _ {A : Type 0} (le : A → A → Bool) where
  pub All-insert_sorted :
      (P : A → Type 0) (x : A) (xs : List A) → P x → All P xs → All P (insert_sorted le x xs)
  unfolding insert_sorted
  All-insert_sorted P x [] px hs = (px, tt)
  All-insert_sorted P x (y ∷ ys) px hs =
      if_ind (All P) (le x y) (px, hs) (hs.0, All-insert_sorted P x ys px hs.1)

  pub All-sort : (P : A → Type 0) (xs : List A) → All P xs → All P (sort le xs)
  unfolding sort
  All-sort P [] hs = tt
  All-sort P (x ∷ xs) hs = All-insert_sorted P x (sort le xs) hs.0 (All-sort P xs hs.1)

  pub any-insert_sorted :
      (p : A → Bool) (x : A) (xs : List A) → any p (insert_sorted le x xs) ≡ (p x || any p xs)
  unfolding insert_sorted
  any-insert_sorted p x [] = refl
  any-insert_sorted p x (y ∷ ys) =
      if_ind (λ zs. any p zs ≡ (p x || (p y || any p ys))) (le x y) refl
        (ground (arith, any-insert_sorted p x ys))

  pub any-sort : (p : A → Bool) (xs : List A) → any p (sort le xs) ≡ any p xs
  unfolding sort
  any-sort p [] = refl
  any-sort p (x ∷ xs) = ground (arith, any-insert_sorted p x (sort le xs), any-sort p xs)

  pub all-insert_sorted :
      (p : A → Bool) (x : A) (xs : List A) → all p (insert_sorted le x xs) ≡ (p x && all p xs)
  unfolding insert_sorted
  all-insert_sorted p x [] = refl
  all-insert_sorted p x (y ∷ ys) =
      if_ind (λ zs. all p zs ≡ (p x && (p y && all p ys))) (le x y) refl
        (ground (arith, all-insert_sorted p x ys))

  pub all-sort : (p : A → Bool) (xs : List A) → all p (sort le xs) ≡ all p xs
  unfolding sort
  all-sort p [] = refl
  all-sort p (x ∷ xs) = ground (arith, all-insert_sorted p x (sort le xs), all-sort p xs)

  module _ (R : A → A → Type 0) (flip : (x y : A) → R x y → R y x) where
    Pairwise-insert_sorted :
        (x : A) (xs : List A) → All (R x) xs → Pairwise R xs → Pairwise R (insert_sorted le x xs)
    unfolding insert_sorted
    Pairwise-insert_sorted x [] hx hs = (tt, tt)
    Pairwise-insert_sorted x (y ∷ ys) hx hs =
        if_ind (Pairwise R) (le x y) (hx, hs)
          (All-insert_sorted (R y) x ys (flip x y hx.0) hs.0, Pairwise-insert_sorted x ys hx.1 hs.1)

    pub Pairwise-sort : (xs : List A) → Pairwise R xs → Pairwise R (sort le xs)
    unfolding sort
    Pairwise-sort [] hs = tt
    Pairwise-sort (x ∷ xs) hs =
        Pairwise-insert_sorted x (sort le xs) (All-sort (R x) xs hs.0) (Pairwise-sort xs hs.1)

  module _ (trans : (x y z : A) → le x y ≡ true → le y z ≡ true → le x z ≡ true)
      (total : (x y : A) → le x y ≡ false → le y x ≡ true) where
    IsSorted-insert_sorted :
        (x : A) (xs : List A)
        → Pairwise (λ a b. le a b ≡ true) xs
        → Pairwise (λ a b. le a b ≡ true) (insert_sorted le x xs)
    unfolding insert_sorted
    IsSorted-insert_sorted x [] hs = (tt, tt)
    IsSorted-insert_sorted x (y ∷ ys) hs =
        if_cases (Pairwise (λ a b. le a b ≡ true)) (le x y)
          (λ e. ((e, All-map (λ z h. trans x y z e h) ys hs.0), hs))
          (λ e. (
            All-insert_sorted (λ b. le y b ≡ true) x ys (total x y e) hs.0,
            IsSorted-insert_sorted x ys hs.1,
          ))

    pub IsSorted-sort : (xs : List A) → Pairwise (λ a b. le a b ≡ true) (sort le xs)
    unfolding sort
    IsSorted-sort [] = tt
    IsSorted-sort (x ∷ xs) = IsSorted-insert_sorted x (sort le xs) (IsSorted-sort xs)

pub Pairwise-snoc :
    {A : Type 0} (R : A → A → Type 0) (xs : List A) (y : A)
    → Pairwise R xs
    → All (λ x. R x y) xs
    → Pairwise R (xs ++ y ∷ [])
Pairwise-snoc R [] y hs new = (tt, tt)
Pairwise-snoc R (x ∷ xs) y hs new =
    (All-append (R x) xs (y ∷ []) hs.0 (new.0, tt), Pairwise-snoc R xs y hs.1 new.1)
