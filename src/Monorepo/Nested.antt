-- ===== src/Monorepo/Nested.antt =====
-- Which directories of a repository are nested.
use Prim.Native.String.{◌++◌ as str_append}
use devrepro_doctor.Prelude.{
  ◌≡◌, ◌↔◌, refl, ap, String, true, some, [], ◌∷◌, ◌++◌, ◌==◌, ==_iff, arith, inl, inr, Bool-cases,
  Option-cases, str_eq_iff,
}
use devrepro_doctor.Prelude.Reflection.{or_iff}
use devrepro_doctor.Versioning.{Text}
use devrepro_doctor.Versioning.Text.{codes}
use devrepro_doctor.Versioning.Spec.{after_prefix}
use devrepro_doctor.Score.{starts_with}
use devrepro_doctor.Monorepo.{is_nested}

-- A path that begins with a directory and a slash.
abbrev pub IsUnder : String → String → Type 0
IsUnder directory path = (rest : Text) × (codes path ≡ codes (str_append directory "/") ++ rest)

-- One of two directories is the root of the repository, or contains the other.
pub data AreNested (a b : String) : Type 0 where
  first_root : a ≡ "." → AreNested a b
  second_root : b ≡ "." → AreNested a b
  first_inside : IsUnder b a → AreNested a b
  second_inside : IsUnder a b → AreNested a b

after_prefix-append : (p s : Text) → after_prefix p (p ++ s) ≡ some s
unfolding after_prefix
after_prefix-append [] s = refl
after_prefix-append (x ∷ p) s = ground (arith, (==_iff x x).1 refl, after_prefix-append p s)

after_prefix-some : (p s rest : Text) → after_prefix p s ≡ some rest → s ≡ p ++ rest
unfolding after_prefix
after_prefix-some [] s rest h = cc h
after_prefix-some (x ∷ p) [] rest h = cc h
after_prefix-some (x ∷ p) (c ∷ s) rest h = elim (Bool-cases (x == c)) [
  | inl same ↦
      let it : x ≡ c = (==_iff x c).0 same in
      let more : s ≡ p ++ rest = after_prefix-some p s rest (ground arith) in cc (it, more)
  | inr other ↦ absurd (ground arith)
]

starts_with_iff :
    (directory path : String)
    → (starts_with (str_append directory "/") path ≡ true) ↔ IsUnder directory path
starts_with_iff directory path =
    let prefix = codes (str_append directory "/") in
    elim (Option-cases (after_prefix prefix (codes path))) [
      | inl gone ↦ (
        λ h. absurd (ground arith),
        λ (rest, e).
            absurd (cc (gone, ap (after_prefix prefix) e, after_prefix-append prefix rest)),
      )
      | inr (rest, there) ↦
          (λ h. (rest, after_prefix-some prefix (codes path) rest there), λ u. ground arith)
    ]

pub is_nested_iff : (a b : String) → (is_nested a b ≡ true) ↔ AreNested a b
unfolding is_nested
is_nested_iff a b = (
  λ h. elim ((or_iff _ _).0 h) [
    | inl e ↦ first_root ((str_eq_iff a ".").0 e)
    | inr h ↦ elim ((or_iff _ _).0 h) [
      | inl e ↦ second_root ((str_eq_iff b ".").0 e)
      | inr h ↦ elim ((or_iff _ _).0 h) [
        | inl e ↦ first_inside ((starts_with_iff b a).0 e)
        | inr e ↦ second_inside ((starts_with_iff a b).0 e)
      ]
    ]
  ],
  λ n. elim n [
    | first_root e ↦ ground (arith, (str_eq_iff a ".").1 e)
    | second_root e ↦ ground (arith, (str_eq_iff b ".").1 e)
    | first_inside u ↦ ground (arith, (starts_with_iff b a).1 u)
    | second_inside u ↦ ground (arith, (starts_with_iff a b).1 u)
  ],
)
