-- ===== src/Versioning/Parse.antt =====
-- The parsers: the regular expressions by their candidates in the order of backtracking, `none` where
-- the source raises ValueError.
use devrepro_doctor.Prelude.{
  ℕ, zero, suc, ◌+◌, ◌-◌, ◌*◌, Bool, false, ◌&&◌, ◌||◌, Option, none, some, List, [], ◌∷◌, ◌++◌,
  ◌==◌, if◌then◌else◌, all, length, map,
}
use devrepro_doctor.Versioning.{Text, Version, Op, SpecClause, ge, le, ne, eq_eq, gt, lt}
use devrepro_doctor.Versioning.Text.{is_digit, is_alnum, strip}

infixl 5 ◌>>=◌
abbrev pub ◌>>=◌ : {A B : Type 0} → Option A → (A → Option B) → Option B
none >>= f = none
some a >>= f = f a

abbrev pub or_else : {A : Type 0} → Option A → Option A → Option A
or_else none o = o
or_else (some a) o = some a

-- `\d+` at the start, after a number read so far: each value with what is left, the longest first.
unfoldable pub digit_splits : ℕ → Text → List (ℕ × Text)
digit_splits acc [] = []
digit_splits acc (c ∷ cs) =
    let n = acc * 10 + (c - b'0') in
    let longer = digit_splits n cs in if is_digit c then longer ++ (n, cs) ∷ [] else []

-- The matches that go on after one number, if a dot follows it.
unfoldable pub further : (Text → List (List ℕ × Text)) → ℕ → Text → List (List ℕ × Text)
further more n [] = []
further more n (c ∷ cs) =
    let rest = more cs in if c == b'.' then map (λ (r : List ℕ × Text). (n ∷ r.0, r.1)) rest else []

-- For each first number, the longer matches before the one that ends with it.
unfoldable pub extend : (Text → List (List ℕ × Text)) → List (ℕ × Text) → List (List ℕ × Text)
unfolding further
extend more [] = []
extend more ((n, rest) ∷ others) = further more n rest ++ ((n ∷ [], rest) ∷ extend more others)

-- `\d+(?:\.\d+)*` at the start. Each number takes a character at least, so the length is enough fuel.
unfoldable pub nums_splits : ℕ → Text → List (List ℕ × Text)
unfolding digit_splits extend
nums_splits zero text = []
nums_splits (suc fuel) text = extend (nums_splits fuel) (digit_splits 0 text)

unfoldable pub is_tag : Text → Bool
unfolding is_alnum
is_tag [] = false
is_tag (c ∷ cs) = is_alnum c && all (λ d. is_alnum d || d == b'.' || d == b'-') cs

-- `(?P<tag>…)?$`: the tag that takes all that is left.
abbrev pub match_tag : Text → Option (Option Text)
match_tag [] = some none
match_tag (c ∷ cs) = if is_tag (c ∷ cs) then some (some (c ∷ cs)) else none

-- `[.\-+]?` before it.
unfoldable pub match_tail : Text → Option (Option Text)
unfolding is_tag
match_tail [] = some none
match_tail (c ∷ cs) =
    if c == b'.' || c == b'-' || c == b'+'
    then or_else (match_tag cs) (match_tag (c ∷ cs))
    else match_tag (c ∷ cs)

-- The first candidate that the rest of the expression accepts.
unfoldable pub first_match : List (List ℕ × Text) → Option Version
unfolding match_tail
first_match [] = none
first_match ((nums, rest) ∷ more) = elim (match_tail rest) [
  | some tag ↦ some (record { nums = nums; tag = tag })
  | none ↦ first_match more
]

-- `v?`
abbrev pub drop_v : Text → Text
drop_v [] = []
drop_v (c ∷ cs) = if c == b'v' then cs else c ∷ cs

-- `Version(raw)`
unfoldable pub parse_version : Text → Option Version
unfolding first_match nums_splits strip
parse_version raw = let text = drop_v (strip raw) in first_match (nums_splits (length text) text)

-- `(\d+)` at the start, the longest match.
unfoldable pub leading_number : Text → Option (ℕ × Text)
unfolding digit_splits
leading_number text = elim (digit_splits 0 text) [ [] ↦ none | r ∷ _ ↦ some r ]

-- `(?:\.(\d+))?`
abbrev pub dotted_number : Text → Option ℕ × Text
dotted_number [] = (none, [])
dotted_number (c ∷ cs) =
    if c == b'.'
    then elim (leading_number cs) [ none ↦ (none, c ∷ cs) | some (n, rest) ↦ (some n, rest) ]
    else (none, c ∷ cs)

abbrev pub release : List ℕ → Version
release nums = record { nums = nums; tag = none }

abbrev pub clause : Op → Version → SpecClause
clause op v = record { op = op; version = v }

abbrev pub or_zero : Option ℕ → ℕ
or_zero none = 0
or_zero (some n) = n

-- `[SpecClause(op, Version(ver_text))]`
unfoldable pub literal_clause : Op → Text → Option (List SpecClause)
unfolding parse_version
literal_clause op ver_text = do v ← parse_version ver_text; some (clause op v ∷ [])

-- `op or "=="`
abbrev pub or_equal : Option Op → Op
or_equal none = eq_eq
or_equal (some op) = op

-- The clauses of a version of one or two components; the operator is `none` where it is empty.
unfoldable pub partial_range : Option Op → ℕ → Option ℕ → Text → Option (List SpecClause)
unfolding literal_clause
partial_range (some lt) major none ver_text =
    some (clause lt (release ((major + 1) ∷ 0 ∷ 0 ∷ [])) ∷ [])
partial_range (some le) major none ver_text =
    some (clause lt (release ((major + 1) ∷ 0 ∷ 0 ∷ [])) ∷ [])
partial_range (some lt) major (some m) ver_text = literal_clause lt ver_text
partial_range (some le) major (some m) ver_text = literal_clause le ver_text
partial_range (some gt) major minor ver_text =
    some (clause ge (release (major ∷ or_zero minor ∷ 0 ∷ [])) ∷ [])
partial_range (some ge) major minor ver_text =
    some (clause ge (release (major ∷ or_zero minor ∷ 0 ∷ [])) ∷ [])
partial_range (some ne) major minor ver_text = literal_clause ne ver_text
partial_range op major minor ver_text = some (
    clause ge (release (major ∷ or_zero minor ∷ 0 ∷ []))
    ∷ clause lt (release ((major + 1) ∷ 0 ∷ 0 ∷ []))
    ∷ [])

-- `_partial_clauses`
unfoldable pub partial_clauses : Option Op → Text → Option (List SpecClause)
unfolding leading_number literal_clause partial_range
partial_clauses op ver_text = elim (leading_number ver_text) [
  | none ↦ literal_clause (or_equal op) ver_text
  | some (major, rest) ↦
      let (minor, rest') = dotted_number rest in
      let (patch, _) = dotted_number rest' in
      elim minor [
        | none ↦ partial_range op major none ver_text
        | some m ↦ elim patch [
          | none ↦ partial_range op major (some m) ver_text
          | some p ↦ literal_clause (or_equal op) ver_text
        ]
      ]
]
