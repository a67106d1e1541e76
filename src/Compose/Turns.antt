-- ===== src/Compose/Turns.antt =====
-- The turns of the loop of `_chain`, by what the first entry of the frontier is.
use devrepro_doctor.Prelude.{
  contains, ℕ, suc, ◌+◌, ◌≡◌, String, true, false, some, List, [], ◌∷◌, ◌++◌, leb,
}
use devrepro_doctor.Result.{Result, ok, err}
use devrepro_doctor.Compose.{PolicyError, max_policy_depth, at_depth, too_deep, chain_loop}

module _ (extends_of : String → Result PolicyError (List String)) (fuel : ℕ) (path : String)
    (depth : ℕ) (frontier : List (String × ℕ)) (seen ordered : List String) where
  pub turn-seen :
      contains path seen ≡ true
      → chain_loop extends_of (suc fuel) ((path, depth) ∷ frontier) seen ordered
        ≡ chain_loop extends_of fuel frontier seen ordered
  unfolding chain_loop
  turn-seen old = rw (old, chain_loop)

  pub turn-deep :
      contains path seen ≡ false
      → leb max_policy_depth depth ≡ true
      → chain_loop extends_of (suc fuel) ((path, depth) ∷ frontier) seen ordered
        ≡ some (err too_deep)
  unfolding chain_loop
  turn-deep new deep = rw (new, deep, chain_loop)

  pub turn-err :
      (e : PolicyError)
      → contains path seen ≡ false
      → leb max_policy_depth depth ≡ false
      → extends_of path ≡ err e
      → chain_loop extends_of (suc fuel) ((path, depth) ∷ frontier) seen ordered ≡ some (err e)
  unfolding chain_loop
  turn-err e new shallow reads = rw (new, shallow, reads, chain_loop)

  pub turn-ok :
      (parents : List String)
      → contains path seen ≡ false
      → leb max_policy_depth depth ≡ false
      → extends_of path ≡ ok parents
      → chain_loop extends_of (suc fuel) ((path, depth) ∷ frontier) seen ordered
        ≡ chain_loop extends_of fuel
            (frontier ++ at_depth (depth + 1) parents)
            (path ∷ seen)
            (ordered ++ path ∷ [])
  unfolding chain_loop
  turn-ok parents new shallow reads = rw (new, shallow, reads, chain_loop)
