-- ===== src/Bisect/Search.antt =====
-- The two `for` loops of `minimise_dimensions`: what they try, and what they cost.
use mathlib.Core.List.{Sublist, sublist-append_left, sublist-append_right}
use mathlib.Core.List.Sublist
use devrepro_doctor.Prelude.{
  ℕ, zero, suc, ◌+◌, ◌≤◌, ◌<◌, ◌≡◌, ◌↔◌, inl, inr, refl, ap, subst, Bool, true, false, none, some,
  List, [], ◌∷◌, map, arith, length, take, drop, filter, All, Bool-cases, take-append-drop,
  length-take, length-drop, length-filter-le,
}
use devrepro_doctor.Bisect.{
  Dimension, Asked, ask, chunks_of, is_nonempty, complement, try_chunks, try_complements,
}

pub take-sublist {ℓ} : {A : Type ℓ} (n : ℕ) (xs : List A) → Sublist (take n xs) xs
take-sublist n xs =
    subst (Sublist (take n xs)) (take-append-drop n xs)
      (sublist-append_left (take n xs) (drop n xs))

pub drop-sublist {ℓ} : {A : Type ℓ} (n : ℕ) (xs : List A) → Sublist (drop n xs) xs
drop-sublist n xs =
    subst (Sublist (drop n xs)) (take-append-drop n xs)
      (sublist-append_right (take n xs) (drop n xs))

pub filter-sublist {ℓ} : {A : Type ℓ} (p : A → Bool) (xs : List A) → Sublist (filter p xs) xs
filter-sublist p [] = Sublist.refl []
filter-sublist p (x ∷ xs) = elim (Bool-cases (p x)) [
  | inl keep ↦ rw keep (Sublist.cons-cons x (filter-sublist p xs))
  | inr skip ↦ rw skip (Sublist.cons x (filter-sublist p xs))
]

-- A part of `current` that is no longer than it.
pub record IsPart (current part : List Dimension) : Type 0 where
  pub sublist : Sublist part current
  pub shorter : length part ≤ length current

pub IsPart-trans : {a b c : List Dimension} → IsPart a b → IsPart b c → IsPart a c
IsPart-trans p q = record { sublist = Sublist.trans q.sublist p.sublist; shorter = omega arith }

pub IsPart-refl : (a : List Dimension) → IsPart a a
IsPart-refl a = record { sublist = Sublist.refl a; shorter = omega arith }

pub All-mono :
    {A : Type 0} (P Q : A → Type 0) (xs : List A) → ((x : A) → P x → Q x) → All P xs → All Q xs
All-mono P Q [] f h = tt
All-mono P Q (x ∷ xs) f h = (f x h.0, All-mono P Q xs f h.1)

pub All-everywhere : {A : Type 0} {P : A → Type 0} → ((x : A) → P x) → (xs : List A) → All P xs
All-everywhere f [] = tt
All-everywhere f (x ∷ xs) = (f x, All-everywhere f xs)

pub All-map :
    {A B : Type 0} (P : B → Type 0) (f : A → B) (xs : List A)
    → All P (map f xs) ↔ All (λ x. P (f x)) xs
All-map P f [] = (λ h. h, λ h. h)
All-map P f (x ∷ xs) = (λ h. (h.0, (All-map P f xs).0 h.1), λ h. (h.0, (All-map P f xs).1 h.1))

pub chunks_of-IsPart :
    (fuel size : ℕ) (ds : List Dimension) → All (IsPart ds) (chunks_of fuel size ds)
unfolding chunks_of
chunks_of-IsPart zero size ds = tt
chunks_of-IsPart (suc fuel) size [] = tt
chunks_of-IsPart (suc fuel) size (d ∷ ds) =
    let all = d ∷ ds in
    let rest : IsPart all (drop size all) = record {
      sublist = drop-sublist size all;
      shorter = omega (arith, length-drop size all);
    } in
    (
      record { sublist = take-sublist size all; shorter = omega (arith, length-take size all) },
      All-mono (IsPart (drop size all)) (IsPart all) (chunks_of fuel size (drop size all))
          (λ part p. IsPart-trans rest p) (chunks_of-IsPart fuel size (drop size all)),
    )

pub length-chunks_of :
    (fuel size : ℕ) (ds : List Dimension) → length (chunks_of fuel size ds) ≤ fuel
unfolding chunks_of
length-chunks_of zero size ds = omega arith
length-chunks_of (suc fuel) size [] = omega arith
length-chunks_of (suc fuel) size (d ∷ ds) =
    omega (arith, length-chunks_of fuel size (drop size (d ∷ ds)))

-- Chunks of one item each.
pub chunks_of-singletons :
    (fuel : ℕ) (ds : List Dimension) → length ds ≤ fuel → chunks_of fuel 1 ds ≡ map (λ d. d ∷ []) ds
unfolding chunks_of
chunks_of-singletons zero [] h = refl
chunks_of-singletons zero (d ∷ ds) h = absurd (omega arith)
chunks_of-singletons (suc fuel) [] h = refl
chunks_of-singletons (suc fuel) (d ∷ ds) h =
    ap (λ t. (d ∷ []) ∷ t) (chunks_of-singletons fuel ds (omega arith))

pub complement-IsPart : (current chunk : List Dimension) → IsPart current (complement current chunk)
unfolding complement
complement-IsPart current chunk = record {
  sublist = filter-sublist _ current;
  shorter = length-filter-le _ current;
}

module _ (fails : List Dimension → Bool) where
  pub try_chunks-some :
      (P : List Dimension → Type 0) (cs : List (List Dimension)) (asked : Asked)
      (found : List Dimension)
      → All P cs
      → (try_chunks fails cs asked).0 ≡ some found
      → P found × (fails found ≡ true)
  unfolding try_chunks ask
  try_chunks-some P [] asked found h e = cc
  try_chunks-some P (c ∷ cs) asked found h e = ground (
    arith,
    try_chunks-some P cs asked found h.1,
    try_chunks-some P cs (ask fails c asked).1 found h.1,
  )

  -- Nothing found: every list that was tried passed.
  pub try_chunks-none :
      (cs : List (List Dimension)) (asked : Asked)
      → (try_chunks fails cs asked).0 ≡ none
      → All (λ c. is_nonempty c ≡ true → fails c ≡ false) cs
  unfolding try_chunks ask
  try_chunks-none [] asked e = tt
  try_chunks-none (c ∷ cs) asked e = (
    λ run. ground (arith),
    ground (arith, try_chunks-none cs asked, try_chunks-none cs (ask fails c asked).1),
  )

  pub verdicts-try_chunks :
      (cs : List (List Dimension)) (asked : Asked)
      → (asked.verdicts ≤ (try_chunks fails cs asked).1.verdicts)
        × ((try_chunks fails cs asked).1.verdicts ≤ asked.verdicts + length cs)
  unfolding try_chunks ask
  verdicts-try_chunks [] asked = omega arith
  verdicts-try_chunks (c ∷ cs) asked =
      ground (arith, verdicts-try_chunks cs asked, verdicts-try_chunks cs (ask fails c asked).1)

  pub lt-try_chunks :
      (c : List Dimension) (cs : List (List Dimension)) (asked : Asked)
      → is_nonempty c ≡ true
      → asked.verdicts < (try_chunks fails (c ∷ cs) asked).1.verdicts
  unfolding try_chunks ask
  lt-try_chunks c cs asked h = ground (arith, verdicts-try_chunks cs (ask fails c asked).1)

  pub try_complements-eq-try_chunks :
      (current : List Dimension) (cs : List (List Dimension)) (asked : Asked)
      → try_complements fails current cs asked
        ≡ try_chunks fails (map (complement current) cs) asked
  unfolding try_complements try_chunks
  try_complements-eq-try_chunks current [] asked = refl
  try_complements-eq-try_chunks current (c ∷ cs) asked = ground (
    arith,
    try_complements-eq-try_chunks current cs asked,
    try_complements-eq-try_chunks current cs (ask fails (complement current c) asked).1,
  )
