-- ===== src/Contract/Glob.antt =====
-- What `fnmatch` accepts: the texts that a pattern becomes when every `*` is replaced by some text.
use devrepro_doctor.Prelude.{
  ℕ, ◌≡◌, refl, sym, ap, subst, Bool, true, false, ◌&&◌, [], ◌∷◌, ◌++◌, ◌==◌, if◌then◌else◌, inl,
  inr, Bool-cases, arith, ◌↔◌,
}
use devrepro_doctor.Versioning.{Text}
use devrepro_doctor.Contract.{any_suffix, glob}

-- The text is the pattern with texts for its stars.
unfoldable pub IsInstance : Text → Text → Type 0
IsInstance [] text = text ≡ []
IsInstance (p ∷ ps) text =
    if p == b'*'
    then ((skipped : Text) × (rest : Text) × (text ≡ skipped ++ rest) × IsInstance ps rest)
    else ((rest : Text) × (text ≡ p ∷ rest) × IsInstance ps rest)

any_suffix-found :
    (passes : Text → Bool) (text : Text)
    → any_suffix passes text ≡ true
    → (skipped : Text) × (rest : Text) × (text ≡ skipped ++ rest) × (passes rest ≡ true)
any_suffix-found passes [] h = ([], [], refl, h)
any_suffix-found passes (c ∷ cs) h = elim (Bool-cases (passes (c ∷ cs))) [
  | inl here ↦ ([], c ∷ cs, refl, here)
  | inr later ↦
      let (skipped, rest, split, there) = any_suffix-found passes cs (ground arith) in
      (c ∷ skipped, rest, ap (λ t. c ∷ t) split, there)
]

any_suffix-append :
    (passes : Text → Bool) (skipped rest : Text)
    → passes rest ≡ true
    → any_suffix passes (skipped ++ rest) ≡ true
any_suffix-append passes [] [] h = h
any_suffix-append passes [] (c ∷ cs) h = ground arith
any_suffix-append passes (c ∷ skipped) rest h =
    ground (arith, any_suffix-append passes skipped rest h)

choice :
    {A B : Type 0} (b : Bool) {x y : Bool}
    → (x ≡ true → A)
    → (y ≡ true → B)
    → (if b then x else y) ≡ true
    → if b then A else B
choice true on off h = on h
choice false on off h = off h

chosen :
    {A B : Type 0} (b : Bool) {x y : Bool}
    → (A → x ≡ true)
    → (B → y ≡ true)
    → (if b then A else B)
    → (if b then x else y) ≡ true
chosen true on off h = on h
chosen false on off h = off h

same_head : (p c : ℕ) (ps cs : Text) → (p == c && glob ps cs) ≡ true → (p ≡ c) × (glob ps cs ≡ true)
same_head p c ps cs h = (ground arith, ground arith)

glob-IsInstance : (pattern text : Text) → glob pattern text ≡ true → IsInstance pattern text
unfolding glob IsInstance
glob-IsInstance [] [] h = refl
glob-IsInstance [] (c ∷ cs) h = cc
glob-IsInstance (p ∷ ps) [] h =
    choice (p == b'*')
      (λ e.
        let (skipped, rest, split, there) = any_suffix-found (glob ps) [] e in
        (skipped, rest, split, glob-IsInstance ps rest there))
      (λ e. cc) h
glob-IsInstance (p ∷ ps) (c ∷ cs) h =
    choice (p == b'*')
      (λ e.
        let (skipped, rest, split, there) = any_suffix-found (glob ps) (c ∷ cs) e in
        (skipped, rest, split, glob-IsInstance ps rest there))
      (λ e.
        let (head, tail) = same_head p c ps cs e in
        (cs, ap (λ x. x ∷ cs) (sym head), glob-IsInstance ps cs tail))
      h

IsInstance-glob : (pattern text : Text) → IsInstance pattern text → glob pattern text ≡ true
unfolding glob IsInstance
IsInstance-glob [] text h = rw h refl
IsInstance-glob (p ∷ ps) text h =
    chosen (p == b'*')
      (λ (skipped, rest, split, there).
        subst (λ t. any_suffix (glob ps) t ≡ true) (sym split)
          (any_suffix-append (glob ps) skipped rest (IsInstance-glob ps rest there)))
      (λ (rest, split, there).
        subst (λ t. (elim t [ [] ↦ false | c ∷ cs ↦ p == c && glob ps cs ]) ≡ true) (sym split)
          (ground (arith, IsInstance-glob ps rest there)))
      h

-- `fnmatch` with `*` accepts a text just when the text is the pattern with some text in the place of
-- every `*`.
pub glob_iff : (pattern text : Text) → (glob pattern text ≡ true) ↔ IsInstance pattern text
glob_iff pattern text = (glob-IsInstance pattern text, IsInstance-glob pattern text)
