-- ===== src/Compose/Fuel.antt =====
-- The loop of `_chain` ends: the entries that a frontier can lead to bound the number of its turns.
use devrepro_doctor.Prelude.{
  contains, ℕ, zero, suc, ◌+◌, ◌-◌, ◌≤◌, ◌≡◌, refl, sym, ap, inl, inr, String, some, List, [], ◌∷◌,
  ◌++◌, map, arith, leb, Bool-cases,
}
use devrepro_doctor.Result.{Result-cases, Result, ok, err}
use devrepro_doctor.Compose.Turns.{turn-seen, turn-deep, turn-err, turn-ok}
use devrepro_doctor.Compose.{
  PolicyError, max_policy_depth, at_depth, too_deep, chain_loop, sum, entries, chain,
}

module _ (extends_of : String → Result PolicyError (List String)) where
  abbrev weigh : String × ℕ → ℕ
  weigh (path, depth) = entries extends_of (max_policy_depth - depth) path

  abbrev weight : List (String × ℕ) → ℕ
  weight [] = 0
  weight (entry ∷ frontier) = weigh entry + weight frontier

  weight-append : (xs ys : List (String × ℕ)) → weight (xs ++ ys) ≡ weight xs + weight ys
  weight-append [] ys = omega arith
  weight-append (x ∷ xs) ys = omega (arith, weight-append xs ys)

  weight-at_depth :
      (depth levels : ℕ) (paths : List String)
      → max_policy_depth - depth ≡ levels
      → weight (at_depth depth paths) ≡ sum extends_of (map (entries extends_of levels) paths)
  weight-at_depth depth levels [] h = refl
  weight-at_depth depth levels (p ∷ ps) h =
      omega (arith, ap (λ n. entries extends_of n p) h, weight-at_depth depth levels ps h)

  entries-positive : (levels : ℕ) (path : String) → 1 ≤ entries extends_of levels path
  entries-positive zero path = omega arith
  entries-positive (suc levels) path = ground arith

  entries-ok :
      (path : String) (levels : ℕ) (parents : List String)
      → extends_of path ≡ ok parents
      → entries extends_of (suc levels) path
        ≡ suc (sum extends_of (map (entries extends_of levels) parents))
  entries-ok path levels parents reads = rw (reads, entries)

  weigh-step :
      (path : String) (depth levels : ℕ) (parents : List String)
      → max_policy_depth - depth ≡ suc levels
      → extends_of path ≡ ok parents
      → weigh (path, depth) ≡ suc (weight (at_depth (depth + 1) parents))
  weigh-step path depth levels parents left reads =
      let below : max_policy_depth - (depth + 1) ≡ levels = omega arith in
      rw (left, entries-ok path levels parents reads)
        (ap suc (sym (weight-at_depth (depth + 1) levels parents below)))

  -- Enough fuel for the frontier.
  chain_loop-returns :
      (fuel : ℕ) (frontier : List (String × ℕ)) (seen ordered : List String)
      → weight frontier ≤ fuel
      → (r : Result PolicyError (List String)) × (chain_loop extends_of fuel frontier seen ordered
          ≡ some r)
  unfolding chain_loop
  chain_loop-returns fuel [] seen ordered h = (ok ordered, refl)
  chain_loop-returns zero ((path, depth) ∷ frontier) seen ordered h =
      absurd (omega (arith, h, entries-positive (max_policy_depth - depth) path))
  chain_loop-returns (suc fuel) ((path, depth) ∷ frontier) seen ordered h =
      let positive = entries-positive (max_policy_depth - depth) path in
      elim (Bool-cases (contains path seen)) [
        | inl old ↦
            rw (turn-seen extends_of fuel path depth frontier seen ordered old)
              (chain_loop-returns fuel frontier seen ordered (omega (arith, h, positive)))
        | inr new ↦ elim (Bool-cases (leb max_policy_depth depth)) [
          | inl deep ↦
              (err too_deep, turn-deep extends_of fuel path depth frontier seen ordered new deep)
          | inr shallow ↦ elim (Result-cases (extends_of path)) [
            | inr (e, reads) ↦ (
              err e,
              turn-err extends_of fuel path depth frontier seen ordered e new shallow reads,
            )
            | inl (parents, reads) ↦
                let more = weight-append frontier (at_depth (depth + 1) parents) in
                let left : max_policy_depth - depth ≡ suc (max_policy_depth - (depth + 1)) =
                  ground arith in
                let less =
                  weigh-step path depth (max_policy_depth - (depth + 1)) parents left reads in
                rw
                  (turn-ok extends_of fuel path depth frontier seen ordered parents new shallow
                    reads)
                  (chain_loop-returns fuel (frontier ++ at_depth (depth + 1) parents) (path ∷ seen)
                    (ordered ++ path ∷ []) (omega (arith, h, more, less)))
          ]
        ]
      ]

  -- `_chain` ends on every input: whatever the files say, cycles included, it gives a list or an error.
  pub chain-returns :
      (start : String) → (r : Result PolicyError (List String)) × (chain extends_of start ≡ some r)
  unfolding chain
  chain-returns start =
      chain_loop-returns (entries extends_of max_policy_depth start) ((start, 0) ∷ []) [] []
        (omega arith)
