-- ===== src/Versioning/Groups.antt =====
-- `||` in a range is a disjunction.
use devrepro_doctor.Prelude.{
  ◌≡◌, ◌≢◌, refl, Bool, true, not, ◌||◌, none, some, List, [], ◌∷◌, ◌++◌, arith, ◌==◌, all,
  Option-cases, inl, inr,
}
use devrepro_doctor.Versioning.{
  Text, Version, SpecClause, SpecSet, clause_satisfied_by, satisfied_by,
}
use devrepro_doctor.Versioning.Text.{split_at, split_bars}
use devrepro_doctor.Versioning.Spec.{parse_clauses, parse_groups, parse_spec}

-- No `|` stands in the text.
abbrev pub has_no_bar : Text → Bool
has_no_bar s = all (λ c. not (c == b'|')) s

split_bars-append :
    (s t : Text) → has_no_bar s ≡ true → split_bars (s ++ b'|' ∷ b'|' ∷ t) ≡ s ∷ split_bars t
unfolding split_bars
split_bars-append [] t h = refl
split_bars-append (c ∷ []) t h = ground arith
split_bars-append (c ∷ d ∷ cs) t h = ground (arith, split_bars-append (d ∷ cs) t)

parse_groups-cons :
    (s : Text) (parts : List Text) (c : SpecClause) (cs : List SpecClause)
    (gs : List (List SpecClause))
    → parse_clauses (split_at b',' s) ≡ some (c ∷ cs)
    → parse_groups parts ≡ some gs
    → parse_groups (s ∷ parts) ≡ some ((c ∷ cs) ∷ gs)
unfolding parse_groups
parse_groups-cons s parts c cs gs first rest = rw (first, rest)

parse_spec-groups :
    (t : Text) (g : List SpecClause) (gs : List (List SpecClause))
    → parse_groups (split_bars t) ≡ some (g ∷ gs)
    → parse_spec t ≡ some (record { groups = g ∷ gs })
unfolding parse_spec
parse_spec-groups t g gs h = rw h

parse_spec-none : (t : Text) → parse_groups (split_bars t) ≡ none → parse_spec t ≡ none
unfolding parse_spec
parse_spec-none t h = rw h

-- A range `s||t`, where `s` has no `|` and at least one clause and `t` has at least one group, parses if
-- both sides do, and a version satisfies it exactly when it satisfies all the clauses of `s` or the
-- range `t`.
pub satisfied_by-bars :
    (s t : Text) (c : SpecClause) (cs : List SpecClause) (spec : SpecSet) (v : Version)
    → has_no_bar s ≡ true
    → parse_clauses (split_at b',' s) ≡ some (c ∷ cs)
    → parse_groups (split_bars t) ≢ some []
    → parse_spec t ≡ some spec
    → (both : SpecSet) × (parse_spec (s ++ b'|' ∷ b'|' ∷ t) ≡ some both)
      × (satisfied_by both v
          ≡ (all (λ clause. clause_satisfied_by clause v) (c ∷ cs) || satisfied_by spec v))
unfolding satisfied_by
satisfied_by-bars s t c cs spec v plain clauses some_group parses =
    elim (Option-cases (parse_groups (split_bars t))) [
      | inl bad ↦ cc (parse_spec-none t bad)
      | inr ([], good) ↦ absurd (some_group good)
      | inr (g ∷ gs, good) ↦
          let whole : parse_groups (split_bars (s ++ b'|' ∷ b'|' ∷ t)) ≡ some ((c ∷ cs) ∷ g ∷ gs) =
            rw (
              split_bars-append s t plain,
              parse_groups-cons s (split_bars t) c cs (g ∷ gs) clauses good,
            ) in
          let right : spec ≡ record { groups = g ∷ gs } = cc (parse_spec-groups t g gs good) in
          (
            record { groups = (c ∷ cs) ∷ g ∷ gs },
            parse_spec-groups (s ++ b'|' ∷ b'|' ∷ t) (c ∷ cs) (g ∷ gs) whole,
            rw right,
          )
    ]
