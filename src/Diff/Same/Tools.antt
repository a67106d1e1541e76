-- ===== src/Diff/Same/Tools.antt =====
-- What holds of every key of two dictionaries, from what holds of the sorted set of their keys.
use devrepro_doctor.Prelude.{
  ◌≡◌, ◌↔◌, refl, sym, ap, ◌∙◌, Bool, true, ◌&&◌, Option, none, List, [], ◌∷◌, ◌++◌, any, all, map,
  arith, Bool-cases, inl, inr, distinct, ◌⊎◌, sort,
}
use devrepro_doctor.Prelude.Sorting.{all-sort}
use devrepro_doctor.Diff.{find_last}
use devrepro_doctor.Diff.Same.{all-append}

all-of : {K : Type 0} (p : K → Bool) (xs : List K) → ((k : K) → p k ≡ true) → all p xs ≡ true
all-of p [] h = refl
all-of p (x ∷ xs) h = ground (arith, h x, all-of p xs h)

module _ {K : Type 0} (eq : K → K → Bool) (eq-path : (k l : K) → eq k l ≡ true → k ≡ l) where
  all-member :
      (p : K → Bool) (x : K) (xs : List K)
      → any (λ y. eq y x) xs ≡ true
      → all p xs ≡ true
      → p x ≡ true
  all-member p x [] m h = cc m
  all-member p x (y ∷ xs) m h = elim (Bool-cases (eq y x)) [
    | inl e ↦ sym (ap p (eq-path y x e)) ∙ ground arith
    | inr e ↦ all-member p x xs (ground arith) (ground arith)
  ]

  all-distinct : (p : K → Bool) (xs : List K) → all p (distinct eq xs) ≡ true → all p xs ≡ true
  unfolding distinct
  all-distinct p [] h = refl
  all-distinct p (x ∷ xs) h = elim (Bool-cases (any (λ y. eq y x) xs)) [
    | inl old ↦
        let rest : all p xs ≡ true = all-distinct p xs (ground arith) in
        ground (arith, all-member p x xs old rest, rest)
    | inr new ↦
        let both : (p x && all p (distinct eq xs)) ≡ true = ground arith in
        ground (arith, all-distinct p xs (ground arith))
  ]

  module _ {I V : Type 0} (key : I → K) (value : I → V) where
    holds-or_missing :
        (p : K → Bool) (k : K) (items : List I)
        → all p (map key items) ≡ true
        → (p k ≡ true) ⊎ (find_last eq key value k items ≡ none)
    holds-or_missing p k [] h = inr refl
    holds-or_missing p k (x ∷ items) h = elim (holds-or_missing p k items (ground arith)) [
      | inl good ↦ inl good
      | inr missing ↦ elim (Bool-cases (eq (key x) k)) [
        | inl e ↦ inl (sym (ap p (eq-path (key x) k e)) ∙ ground arith)
        | inr e ↦ inr (ground arith)
      ]
    ]

    -- A test of what two dictionaries hold under a key passes for every key if it does for all keys of
    -- their sorted set, and passes where both hold nothing.
    pub every_key :
        (le : K → K → Bool) (test : Option V → Option V → Bool) (a b : List I)
        → test none none ≡ true
        → (all
              (λ k. test (find_last eq key value k a) (find_last eq key value k b))
              (sort le (distinct eq (map key a ++ map key b)))
            ≡ true)
          ↔ ((k : K) → test (find_last eq key value k a) (find_last eq key value k b) ≡ true)
    every_key le test a b nothing = (forward, λ h. all-of passes (sort le (distinct eq keys)) h)
      where
        passes : K → Bool
        passes k = test (find_last eq key value k a) (find_last eq key value k b)

        keys : List K
        keys = map key a ++ map key b

        forward : all passes (sort le (distinct eq keys)) ≡ true → (k : K) → passes k ≡ true
        forward h k =
            let unsorted : all passes (distinct eq keys) ≡ true =
              sym (all-sort le passes (distinct eq keys)) ∙ h in
            let halves =
              sym (all-append passes (map key a) (map key b)) ∙ all-distinct passes keys unsorted in
            elim (holds-or_missing passes k a (ground arith)) [
              | inl good ↦ good
              | inr a_missing ↦ elim (holds-or_missing passes k b (ground arith)) [
                | inl good ↦ good
                | inr b_missing ↦ rw (a_missing, b_missing) nothing
              ]
            ]
