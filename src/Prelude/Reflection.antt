-- ===== src/Prelude/Reflection.antt =====
-- Tests that decide what they stand for, on lists and joined by `&&` and `||`.
use devrepro_doctor.Prelude.{
  ◌≡◌, ◌↔◌, ◌⊎◌, inl, inr, refl, String, Bool, true, false, ◌&&◌, ◌||◌, List, [], ◌∷◌, all, any,
  All, arith, Bool-cases, contains, str_eq, str_eq_iff,
}

pub and_iff : (a b : Bool) → ((a && b) ≡ true) ↔ ((a ≡ true) × (b ≡ true))
and_iff a b = (λ h. (ground arith, ground arith), λ h. ground (arith, h.0, h.1))

pub or_iff : (a b : Bool) → ((a || b) ≡ true) ↔ ((a ≡ true) ⊎ (b ≡ true))
or_iff true b = (λ h. inl refl, λ h. refl)
or_iff false b = (λ h. inr h, λ h. elim h [ inl e ↦ cc e | inr e ↦ e ])

pub all_iff :
    {A : Type 0} (p : A → Bool) (P : A → Type 0)
    → ((x : A) → (p x ≡ true) ↔ P x)
    → (xs : List A) → (all p xs ≡ true) ↔ All P xs
all_iff p P h [] = (λ e. tt, λ e. refl)
all_iff p P h (x ∷ xs) =
    let both = and_iff (p x) (all p xs) in
    let rest = all_iff p P h xs in
    (
      λ e. let (own, more) = both.0 e in ((h x).0 own, rest.0 more),
      λ (own, more). both.1 ((h x).1 own, rest.1 more),
    )

pub any-witness :
    (p : String → Bool) (xs : List String)
    → any p xs ≡ true
    → (x : String) × (contains x xs ≡ true) × (p x ≡ true)
any-witness p [] h = cc h
any-witness p (x ∷ xs) h = elim (Bool-cases (p x)) [
  | inl e ↦ (x, ground (arith, (str_eq_iff x x).1 refl), e)
  | inr e ↦ let (y, there, holds) = any-witness p xs (ground arith) in (y, ground arith, holds)
]

pub any-of_member :
    (p : String → Bool) (x : String) (xs : List String)
    → contains x xs ≡ true
    → p x ≡ true
    → any p xs ≡ true
any-of_member p x [] h e = cc h
any-of_member p x (y ∷ xs) h e = elim (Bool-cases (str_eq y x)) [
  | inl same ↦
      let it : y ≡ x = (str_eq_iff y x).0 same in
      let here : p y ≡ true = cc (it, e) in ground (arith, here)
  | inr other ↦ ground (arith, any-of_member p x xs)
]
