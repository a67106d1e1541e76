-- ===== src/Prelude/Printing.antt =====
-- Texts made of others: numbers in decimal, and the joining of texts.
use Prim.Native.Nat.{ℕ, zero, suc, ◌/◌, ◌%◌}
use Prim.Native.String.{String, ◌++◌ as str_append}
use mathlib.Core.List.{List, [], ◌∷◌}
use devrepro_doctor.Prelude.Tests.{ltb, ◌==◌, if◌then◌else◌}

abbrev pub digit : ℕ → String
digit n =
    if n == 0
    then "0"
    else if n == 1
    then "1"
    else if n == 2
    then "2"
    else if n == 3
    then "3"
    else if n == 4
    then "4"
    else if n == 5
    then "5"
    else if n == 6
    then "6"
    else if n == 7
    then "7"
    else if n == 8
    then "8"
    else "9"

-- A number in decimal; each digit takes one of the fuel, so a number is enough for itself.
unfoldable pub decimal : ℕ → ℕ → String
decimal zero n = digit n
decimal (suc fuel) n =
    let front = decimal fuel (n / 10) in
    if ltb n 10 then digit n else str_append front (digit (n % 10))

-- `str(n)`
unfoldable pub show : ℕ → String
unfolding decimal
show n = decimal n n

-- An f-string of its parts.
abbrev pub text : List String → String
text [] = ""
text (part ∷ parts) = str_append part (text parts)

-- `separator.join(parts)`
abbrev pub join : String → List String → String
join separator [] = ""
join separator (part ∷ []) = part
join separator (part ∷ next ∷ parts) =
    str_append part (str_append separator (join separator (next ∷ parts)))
