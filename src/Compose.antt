-- ===== src/Compose.antt =====
-- project/compose.py: the chain of policy files that `extends` makes, and the merge of their policies.
-- Reading and resolving files is the caller's: `extends_of` is a parameter, by the path of a file.
mod Turns
pub mod Fuel
mod Pending
pub mod Layers
pub mod Merge
mod Samples
use devrepro_doctor.Prelude.{
  contains, ℕ, zero, suc, ◌+◌, String, Bool, true, false, not, ◌&&◌, ◌||◌, Option, none, some, List,
  [], ◌∷◌, ◌++◌, str_eq, leb, if◌then◌else◌, any, map, lookup, sort, str_leb,
}
use devrepro_doctor.Result.{Result, ok, err}

abbrev pub max_policy_depth : ℕ
max_policy_depth = 8

pub data PolicyError : Type 0 where
  too_deep invalid_file invalid_extends missing_parent : PolicyError

abbrev pub at_depth : ℕ → List String → List (String × ℕ)
at_depth depth paths = map (λ (path : String). (path, depth)) paths

module _ (extends_of : String → Result PolicyError (List String)) where
  -- The loop of `_chain`: `none` if the fuel runs out.
  unfoldable pub chain_loop :
      ℕ → List (String × ℕ) → List String → List String → Option (Result PolicyError (List String))
  chain_loop fuel [] seen ordered = some (ok ordered)
  chain_loop zero (entry ∷ frontier) seen ordered = none
  chain_loop (suc fuel) ((current, depth) ∷ frontier) seen ordered = elim (contains current seen) [
    | true ↦ chain_loop fuel frontier seen ordered
    | false ↦ elim (leb max_policy_depth depth) [
      | true ↦ some (err too_deep)
      | false ↦ elim (extends_of current) [
        | err e ↦ some (err e)
        | ok parents ↦
            chain_loop fuel (frontier ++ at_depth (depth + 1) parents) (current ∷ seen)
              (ordered ++ current ∷ [])
      ]
    ]
  ]

  abbrev pub sum : List ℕ → ℕ
  sum [] = 0
  sum (n ∷ ns) = n + sum ns

  -- How many entries a file puts on the frontier, itself and the parents `levels` further up included.
  abbrev pub entries : ℕ → String → ℕ
  entries zero path = 1
  entries (suc levels) path = elim (extends_of path) [
    | err e ↦ 1
    | ok parents ↦ suc (sum (map (entries levels) parents))
  ]

  -- `_chain`
  unfoldable pub chain : String → Option (Result PolicyError (List String))
  unfolding chain_loop
  chain start = chain_loop (entries max_policy_depth start) ((start, 0) ∷ []) [] []
