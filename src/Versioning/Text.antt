-- ===== src/Versioning/Text.antt =====
-- The operations on text that the parsers use: `strip`, `split`, and the character classes of the
-- regular expressions, over ASCII.
use Prim.Native.Char.{code}
use devrepro_doctor.Prelude.{
  ℕ, String, Bool, ◌&&◌, ◌||◌, List, [], ◌∷◌, ◌==◌, leb, ◌≡◌, refl, if◌then◌else◌,
}
use devrepro_doctor.Versioning.{Text}

abbrev pub codes : String → Text
codes String.[] = []
codes (String.◌∷◌ c s) = code c ∷ codes s

-- `\s` and what `strip` takes off.
unfoldable pub is_space : ℕ → Bool
is_space c = (leb 9 c && leb c 13) || (leb 28 c && leb c 32)

-- `\d`
abbrev pub is_digit : ℕ → Bool
is_digit c = leb b'0' c && leb c b'9'

-- `[0-9A-Za-z]`
unfoldable pub is_alnum : ℕ → Bool
is_alnum c = is_digit c || (leb b'A' c && leb c b'Z') || (leb b'a' c && leb c b'z')

unfoldable pub lstrip : Text → Text
unfolding is_space
lstrip [] = []
lstrip (c ∷ cs) = let rest = lstrip cs in if is_space c then rest else c ∷ cs

-- Drops the spaces at the end: a space stays if something else stands behind it.
unfoldable pub rstrip : Text → Text
unfolding is_space
rstrip [] = []
rstrip (c ∷ cs) = elim (rstrip cs) [ [] ↦ if is_space c then [] else c ∷ [] | d ∷ ds ↦ c ∷ d ∷ ds ]

unfoldable pub strip : Text → Text
unfolding lstrip rstrip
strip s = rstrip (lstrip s)

abbrev pub onto_first : ℕ → List Text → List Text
onto_first c [] = (c ∷ []) ∷ []
onto_first c (part ∷ parts) = (c ∷ part) ∷ parts

-- `s.split(c)` at one character.
unfoldable pub split_at : ℕ → Text → List Text
split_at sep [] = [] ∷ []
split_at sep (c ∷ cs) =
    let parts = split_at sep cs in if c == sep then [] ∷ parts else onto_first c parts

-- `s.split("||")`
unfoldable pub split_bars : Text → List Text
split_bars [] = [] ∷ []
split_bars (c ∷ []) = (c ∷ []) ∷ []
split_bars (c ∷ d ∷ cs) =
    let parts = split_bars cs in
    let rest = split_bars (d ∷ cs) in
    if c == b'|' && d == b'|' then [] ∷ parts else onto_first c rest

splits :
    (split_bars (codes "a||b|||c") ≡ codes "a" ∷ codes "b" ∷ codes "|c" ∷ [])
    × (strip (codes "  a b \n") ≡ codes "a b")
unfolding split_bars strip
splits = (refl, refl)
