-- ===== src/Result.antt =====
-- A result that may be an error of a type of its own: how the models of code that raises return.
use devrepro_doctor.Prelude.{◌≡◌, refl, ◌⊎◌, inl, inr}

pub data Result {ε α} (E : Type ε) (A : Type α) : Type (ε ⊔ α) where
  err : E → Result E A
  ok : A → Result E A

-- What runs next, unless an exception was raised.
infixl 5 ◌>>=◌
abbrev pub ◌>>=◌ {ε α β} :
    {E : Type ε} {A : Type α} {B : Type β} → Result E A → (A → Result E B) → Result E B
raised >>= next = elim raised [ err e ↦ err e | ok value ↦ next value ]

pub >>=-eq-ok {ε α β} :
    {E : Type ε} {A : Type α} {B : Type β} (outcome : Result E A) (next : A → Result E B) {b : B}
    → (outcome >>= next) ≡ ok b
    → (value : A) × (outcome ≡ ok value) × (next value ≡ ok b)
>>=-eq-ok (err e) next same = cc
>>=-eq-ok (ok value) next same = (value, refl, same)

pub Result-cases {ε α} :
    {E : Type ε} {A : Type α} (r : Result E A) → ((a : A) × (r ≡ ok a)) ⊎ ((e : E) × (r ≡ err e))
Result-cases (ok a) = inl (a, refl)
Result-cases (err e) = inr (e, refl)
