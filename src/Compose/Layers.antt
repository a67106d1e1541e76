-- ===== src/Compose/Layers.antt =====
-- What `_chain` returns: the files that the start leads to by `extends`, each once and the start first.
use devrepro_doctor.Prelude.{
  contains, ℕ, zero, suc, ◌+◌, ◌<◌, ◌≡◌, refl, sym, ap, ◌∙◌, subst, String, true, false, ◌||◌, some,
  List, [], ◌∷◌, ◌++◌, arith, leb, Bool-cases, inl, inr, head?, append-nil, All, All-append, str_eq,
}
use devrepro_doctor.Prelude.Sorting.{Pairwise-snoc, Pairwise, All-map}
use devrepro_doctor.Result.{Result-cases, Result, ok}
use devrepro_doctor.Compose.{PolicyError, max_policy_depth, at_depth, chain_loop, entries, chain}
use devrepro_doctor.Prelude.Members.{contains_self, contains-not}
use devrepro_doctor.Compose.Turns.{turn-seen, turn-deep, turn-err, turn-ok}
use devrepro_doctor.Compose.Pending.{
  head-seen, head-moved, contains_skipped, contains_grown, contains_grown_parent, same-snoc, names,
}

module _ (extends_of : String → Result PolicyError (List String)) (start : String) where
  -- A file that the start leads to in so many steps of `extends`.
  pub data Reaches : ℕ → String → Type 0 where
    itself : Reaches 0 start
    extended :
        (depth : ℕ) (path parent : String) (parents : List String)
        → Reaches depth path
        → extends_of path ≡ ok parents
        → contains parent parents ≡ true
        → Reaches (depth + 1) parent

  -- The file was read, and all that it extends is among the files.
  abbrev pub IsClosed : List String → String → Type 0
  IsClosed files path =
      (parents : List String) × (extends_of path ≡ ok parents)
      × All (λ parent. contains parent files ≡ true) parents

  abbrev pub IsReached : String → Type 0
  IsReached path = (depth : ℕ) × (depth < max_policy_depth) × Reaches depth path

  pub record IsChain (files : List String) : Type 0 where
    pub first : head? files ≡ some start
    pub distinct : Pairwise (λ a b. str_eq a b ≡ false) files
    pub closed : All (IsClosed files) files
    pub reached : All IsReached files

  abbrev IsExpanded : List String → List (String × ℕ) → String → Type 0
  IsExpanded seen frontier path =
      (parents : List String) × (extends_of path ≡ ok parents)
      × All (λ parent. (contains parent seen || contains parent (names frontier)) ≡ true) parents

  -- Between two turns of the loop.
  record IsSearch (frontier : List (String × ℕ)) (seen ordered : List String) : Type 0 where
    first : head? (ordered ++ names frontier) ≡ some start
    same : (path : String) → contains path ordered ≡ contains path seen
    distinct : Pairwise (λ a b. str_eq a b ≡ false) ordered
    expanded : All (IsExpanded seen frontier) ordered
    reached : All IsReached ordered
    waiting : All (λ (e : String × ℕ). Reaches e.1 e.0) frontier

  IsSearch-seen :
      (path : String) (depth : ℕ) (frontier : List (String × ℕ)) (seen ordered : List String)
      → contains path seen ≡ true
      → IsSearch ((path, depth) ∷ frontier) seen ordered
      → IsSearch frontier seen ordered
  IsSearch-seen path depth frontier seen ordered old h = record {
    first = head-seen path start ordered (names frontier) (h.same path ∙ old) h.first;
    same = h.same;
    distinct = h.distinct;
    expanded =
        All-map
          (λ p (parents, reads, there). (
            parents,
            reads,
            All-map (λ q t. contains_skipped path q seen (names frontier) old t) parents there,
          ))
          ordered h.expanded;
    reached = h.reached;
    waiting = h.waiting.1;
  }

  waiting-at :
      (depth : ℕ) (path : String) (parents some_parents : List String)
      → Reaches depth path
      → extends_of path ≡ ok parents
      → All (λ parent. contains parent parents ≡ true) some_parents
      → All (λ (e : String × ℕ). Reaches e.1 e.0) (at_depth (depth + 1) some_parents)
  waiting-at depth path parents [] reaches reads hs = tt
  waiting-at depth path parents (p ∷ ps) reaches reads hs = (
    extended depth path p parents reaches reads hs.0,
    waiting-at depth path parents ps reaches reads hs.1,
  )

  IsSearch-ok :
      (path : String) (depth : ℕ) (frontier : List (String × ℕ))
      (seen ordered parents : List String)
      → contains path seen ≡ false
      → leb max_policy_depth depth ≡ false
      → extends_of path ≡ ok parents
      → IsSearch ((path, depth) ∷ frontier) seen ordered
      → IsSearch (frontier ++ at_depth (depth + 1) parents) (path ∷ seen) (ordered ++ path ∷ [])
  IsSearch-ok path depth frontier seen ordered parents new shallow reads h = record {
    first =
        head-moved path start ordered (names frontier)
          (names (frontier ++ at_depth (depth + 1) parents)) h.first;
    same = λ x. same-snoc path x seen ordered (h.same x);
    distinct =
        Pairwise-snoc (λ a b. str_eq a b ≡ false) ordered path h.distinct
          (contains-not path ordered (h.same path ∙ new));
    expanded =
        All-append (IsExpanded (path ∷ seen) (frontier ++ at_depth (depth + 1) parents)) ordered
          (path ∷ [])
          (All-map
            (λ p (ps, r, there). (
              ps,
              r,
              All-map (λ q t. contains_grown path q (depth + 1) frontier seen parents t) ps there,
            ))
            ordered h.expanded)
          (
            (
              parents,
              reads,
              All-map (λ q t. contains_grown_parent path q (depth + 1) frontier seen parents t)
                  parents (contains_self parents),
            ),
            tt,
          );
    reached =
        All-append IsReached ordered (path ∷ []) h.reached ((depth, ground arith, h.waiting.0), tt);
    waiting =
        All-append (λ (e : String × ℕ). Reaches e.1 e.0) frontier (at_depth (depth + 1) parents)
          h.waiting.1
          (waiting-at depth path parents parents h.waiting.0 reads (contains_self parents));
  }

  IsChain-of_search : (seen ordered : List String) → IsSearch [] seen ordered → IsChain ordered
  IsChain-of_search seen ordered h = record {
    first = sym (ap head? (append-nil ordered)) ∙ h.first;
    distinct = h.distinct;
    closed =
        All-map
          (λ p (parents, reads, there).
            (parents, reads, All-map (λ q t. ground (arith, h.same q)) parents there))
          ordered h.expanded;
    reached = h.reached;
  }

  chain_loop-IsChain :
      (fuel : ℕ) (frontier : List (String × ℕ)) (seen ordered files : List String)
      → IsSearch frontier seen ordered
      → chain_loop extends_of fuel frontier seen ordered ≡ some (ok files)
      → IsChain files
  unfolding chain_loop
  chain_loop-IsChain fuel [] seen ordered files h e =
      subst IsChain (cc e) (IsChain-of_search seen ordered h)
  chain_loop-IsChain zero (entry ∷ frontier) seen ordered files h e = cc e
  chain_loop-IsChain (suc fuel) ((path, depth) ∷ frontier) seen ordered files h e =
      elim (Bool-cases (contains path seen)) [
        | inl old ↦
            chain_loop-IsChain fuel frontier seen ordered files
              (IsSearch-seen path depth frontier seen ordered old h)
              (sym (turn-seen extends_of fuel path depth frontier seen ordered old) ∙ e)
        | inr new ↦ elim (Bool-cases (leb max_policy_depth depth)) [
          | inl deep ↦ cc (turn-deep extends_of fuel path depth frontier seen ordered new deep, e)
          | inr shallow ↦ elim (Result-cases (extends_of path)) [
            | inr (f, reads) ↦
                cc
                  (turn-err extends_of fuel path depth frontier seen ordered f new shallow reads, e)
            | inl (parents, reads) ↦
                chain_loop-IsChain fuel (frontier ++ at_depth (depth + 1) parents) (path ∷ seen)
                  (ordered ++ path ∷ []) files
                  (IsSearch-ok path depth frontier seen ordered parents new shallow reads h)
                  (sym (
                      turn-ok extends_of fuel path depth frontier seen ordered parents new shallow
                        reads)
                    ∙ e)
          ]
        ]
      ]

  -- If `_chain` returns files, the start is the first, none stands there twice, each could be read and
  -- has all that it extends among them, and each is reached from the start in fewer than eight steps.
  pub chain-IsChain :
      (files : List String) → chain extends_of start ≡ some (ok files) → IsChain files
  unfolding chain
  chain-IsChain files e =
      chain_loop-IsChain (entries extends_of max_policy_depth start) ((start, 0) ∷ []) [] [] files
        (record {
          first = refl;
          same = λ x. refl;
          distinct = tt;
          expanded = tt;
          reached = tt;
          waiting = (itself, tt);
        })
        e
