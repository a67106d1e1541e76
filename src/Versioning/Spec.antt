-- ===== src/Versioning/Spec.antt =====
-- `parse_spec` and `satisfies`: the clauses and the groups of a range.
use devrepro_doctor.Prelude.{
  String, Bool, true, false, ◌&&◌, ◌||◌, Option, none, some, List, [], ◌∷◌, ◌++◌, ◌==◌,
  if◌then◌else◌, any,
}
use devrepro_doctor.Versioning.{
  Text, Op, SpecClause, SpecSet, star, ge, le, ne, eq_eq, eq, gt, lt, satisfied_by,
}
use devrepro_doctor.Versioning.Text.{codes, lstrip, strip, split_at, split_bars}
use devrepro_doctor.Versioning.Parse.{
  ◌>>=◌, or_else, release, clause, parse_version, partial_clauses,
}

abbrev pub text_eq : Text → Text → Bool
text_eq [] [] = true
text_eq (c ∷ cs) (d ∷ ds) = c == d && text_eq cs ds
text_eq _ _ = false

-- What follows a prefix.
unfoldable pub after_prefix : Text → Text → Option Text
after_prefix [] text = some text
after_prefix (p ∷ ps) [] = none
after_prefix (p ∷ ps) (c ∷ cs) = let rest = after_prefix ps cs in if p == c then rest else none

-- `\s*(?P<ver>.+)$`, where the text has no spaces at its end: `.` matches no newline.
unfoldable pub match_ver : Option Op → Text → Option (Option Op × Text)
unfolding lstrip
match_ver op rest = elim (lstrip rest) [
  | [] ↦ none
  | c ∷ cs ↦ if any (λ d. d == 10) (c ∷ cs) then none else some (op, c ∷ cs)
]

-- An operator as an alternative of the expression.
unfoldable pub try_op : Op → String → Text → Option (Option Op × Text)
unfolding after_prefix match_ver
try_op op sign text = do rest ← after_prefix (codes sign) text; match_ver (some op) rest

-- `_CLAUSE_RE`: the operators in their order, and none at last.
unfoldable pub match_clause : Text → Option (Option Op × Text)
unfolding try_op
match_clause text = or_else (try_op star "*" text) (
    or_else (try_op ge ">=" text) (
      or_else (try_op le "<=" text) (
        or_else (try_op ne "!=" text) (
          or_else (try_op eq_eq "==" text) (
            or_else (try_op eq "=" text) (
              or_else (try_op gt ">" text)
                (or_else (try_op lt "<" text) (match_ver none text))))))))

-- The body of the inner loop, for a clause that is stripped and not empty.
unfoldable pub parse_clause : Text → Option (List SpecClause)
unfolding match_clause partial_clauses
parse_clause text =
    if text_eq text (b'*' ∷ [])
    then some (clause star (release (0 ∷ [])) ∷ [])
    else do (op, ver) ← match_clause text; partial_clauses op ver

unfoldable pub parse_clauses : List Text → Option (List SpecClause)
unfolding parse_clause strip
parse_clauses [] = some []
parse_clauses (raw_clause ∷ raw_clauses) =
    let rest = parse_clauses raw_clauses in
    elim (strip raw_clause) [
      | [] ↦ rest
      | c ∷ cs ↦ do clauses ← parse_clause (c ∷ cs); more ← rest; some (clauses ++ more)
    ]

unfoldable pub parse_groups : List Text → Option (List (List SpecClause))
unfolding parse_clauses
parse_groups [] = some []
parse_groups (raw_group ∷ raw_groups) = do
  clauses ← parse_clauses (split_at b',' raw_group)
  groups ← parse_groups raw_groups
  some (elim clauses [ [] ↦ groups | c ∷ cs ↦ (c ∷ cs) ∷ groups ])

abbrev pub any_version : List (List SpecClause)
any_version = (clause star (release (0 ∷ [])) ∷ []) ∷ []

unfoldable pub parse_spec : Text → Option SpecSet
unfolding parse_groups split_bars
parse_spec spec = do
  groups ← parse_groups (split_bars spec)
  some (record { groups = elim groups [ [] ↦ any_version | g ∷ gs ↦ g ∷ gs ] })

-- `none` where the source raises ValueError.
unfoldable pub satisfies : Text → Text → Option Bool
unfolding parse_spec parse_version satisfied_by
satisfies version spec =
    let bare = strip spec in
    if text_eq bare (codes "*") || text_eq bare [] || text_eq bare (codes "any")
    then some true
    else do s ← parse_spec spec; v ← parse_version version; some (satisfied_by s v)
