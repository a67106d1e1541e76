-- ===== src/Contract/Relevance.antt =====
-- The rules that `relevant_rule_prefixes` selects for some changes.
use devrepro_doctor.Prelude.{
  ◌≡◌, String, Bool, true, ◌||◌, Option, none, some, List, [], ◌∷◌, ◌++◌, any, lookup, contains,
  arith,
}
use devrepro_doctor.Prelude.Members.{contains-append}
use devrepro_doctor.Contract.Collect.{
  ContractChange, relevant_prefixes, add_prefixes, relevant_rule_prefixes,
}

-- The rules with the prefix are to be run.
abbrev pub selects : String → Option (List String) → Bool
selects prefix none = true
selects prefix (some prefixes) = contains prefix prefixes

-- The table gives the prefix for the kind, or everything.
abbrev pub is_relevant_kind : String → Option (List String) → Bool
is_relevant_kind prefix none = true
is_relevant_kind prefix (some []) = true
is_relevant_kind prefix (some (p ∷ ps)) = contains prefix (p ∷ ps)

abbrev pub is_relevant : String → ContractChange → Bool
is_relevant prefix change = is_relevant_kind prefix (lookup change.kind relevant_prefixes)

module _ (prefix : String) (prefixes : List String) (changes : List ContractChange)
    (later : (more : List String)
      → selects prefix (add_prefixes (prefixes ++ more) changes)
        ≡ (contains prefix (prefixes ++ more) || any (is_relevant prefix) changes)) where
  -- One turn of the loop, on any answer of the table.
  selects_turn :
      (answer : Option (List String))
      → selects prefix (elim answer [
        | none ↦ none
        | some mapped ↦ elim mapped [
          | [] ↦ none
          | p ∷ ps ↦ add_prefixes (prefixes ++ p ∷ ps) changes
        ]
      ])
        ≡ (contains prefix prefixes
            || (is_relevant_kind prefix answer || any (is_relevant prefix) changes))
  selects_turn none = ground arith
  selects_turn (some []) = ground arith
  selects_turn (some (p ∷ ps)) =
      ground (arith, later (p ∷ ps), contains-append prefix prefixes (p ∷ ps))

selects-add_prefixes :
    (prefix : String) (prefixes : List String) (changes : List ContractChange)
    → selects prefix (add_prefixes prefixes changes)
      ≡ (contains prefix prefixes || any (is_relevant prefix) changes)
unfolding add_prefixes
selects-add_prefixes prefix prefixes [] = ground arith
selects-add_prefixes prefix prefixes (change ∷ changes) =
    selects_turn prefix prefixes changes
      (λ more. selects-add_prefixes prefix (prefixes ++ more) changes)
      (lookup change.kind relevant_prefixes)

-- The rules with a prefix are to be run just when the kind of some change has the prefix in the table,
-- has no prefixes there, or is not in the table.
pub selects-relevant_rule_prefixes :
    (prefix : String) (changes : List ContractChange)
    → selects prefix (relevant_rule_prefixes changes) ≡ any (is_relevant prefix) changes
unfolding relevant_rule_prefixes
selects-relevant_rule_prefixes prefix changes = selects-add_prefixes prefix [] changes
