-- ===== src/Diff/Same.antt =====
-- When a comparison has nothing to report but entries `same`.
pub mod Tools
pub mod Sections
pub mod Agreement
use devrepro_doctor.Prelude.{
  ◌≡◌, ◌↔◌, refl, sym, ap, ◌∙◌, subst, String, Bool, true, false, not, ◌&&◌, ◌||◌, Option, none,
  some, List, [], ◌∷◌, ◌++◌, str_eq, str_eq_iff, if◌then◌else◌, if_ind, any, all, All, map, arith,
  Bool-cases, inl, inr, ◌⊎◌, opt_eq, opt_eq_iff, sort_strings, sort, str_leb,
}
use devrepro_doctor.Diff.{
  DiffEntry, Classification, same, Value, absent, text, flag, value_eq, bool_eq, texts_eq,
}

abbrev pub is_same_class : Classification → Bool
is_same_class same = true
is_same_class _ = false

abbrev pub is_same : DiffEntry → Bool
is_same e = is_same_class e.classification

pub all-append :
    {A : Type 0} (p : A → Bool) (xs ys : List A) → all p (xs ++ ys) ≡ (all p xs && all p ys)
all-append p [] ys = refl
all-append p (x ∷ xs) ys = ground (arith, all-append p xs ys)

pub value_eq_iff : (a b : Value) → (value_eq a b ≡ true) ↔ (a ≡ b)
value_eq_iff absent absent = (λ h. refl, λ e. refl)
value_eq_iff absent (text t) = (λ h. cc, λ e. cc)
value_eq_iff absent (flag b) = (λ h. cc, λ e. cc)
value_eq_iff (text s) absent = (λ h. cc, λ e. cc)
value_eq_iff (text s) (text t) = (λ h. cc ((str_eq_iff s t).0 h), λ e. (str_eq_iff s t).1 (cc))
value_eq_iff (text s) (flag b) = (λ h. cc, λ e. cc)
value_eq_iff (flag a) absent = (λ h. cc, λ e. cc)
value_eq_iff (flag a) (text t) = (λ h. cc, λ e. cc)
value_eq_iff (flag true) (flag true) = (λ h. refl, λ e. refl)
value_eq_iff (flag true) (flag false) = (λ h. cc, λ e. cc)
value_eq_iff (flag false) (flag true) = (λ h. cc, λ e. cc)
value_eq_iff (flag false) (flag false) = (λ h. refl, λ e. refl)

pub texts_eq_iff : (ss ts : List String) → (texts_eq ss ts ≡ true) ↔ (ss ≡ ts)
texts_eq_iff [] [] = (λ h. refl, λ e. refl)
texts_eq_iff [] (t ∷ ts) = (λ h. cc, λ e. cc)
texts_eq_iff (s ∷ ss) [] = (λ h. cc, λ e. cc)
texts_eq_iff (s ∷ ss) (t ∷ ts) = (
  λ h.
      let first : s ≡ t = (str_eq_iff s t).0 (ground arith) in
      let rest : ss ≡ ts = (texts_eq_iff ss ts).0 (ground arith) in cc (first, rest),
  λ e. ground (arith, (str_eq_iff s t).1 (cc e), (texts_eq_iff ss ts).1 (cc e)),
)
