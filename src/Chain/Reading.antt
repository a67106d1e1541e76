-- ===== src/Chain/Reading.antt =====
-- What `read_chain` reads: an entry of each line that is not blank.
use devrepro_doctor.Prelude.{
  ◌↔◌, map, ℕ, ◌+◌, ◌≡◌, refl, ap, String, true, false, not, none, some, List, [], ◌∷◌, arith, inl,
  inr, Bool-cases, Option-cases, filter,
}
use devrepro_doctor.Result.{ok, >>=-eq-ok}
use devrepro_doctor.Chain.{ChainEntry, Codec, Directory, read_lines, read_chain}

module _ (codec : Codec) where
  -- A line that reads is blank, or holds the first entry.
  pub data Line (number : ℕ) (line : String) (lines : List String) (entries : List ChainEntry)
      : Type 0 where
    blank :
        codec.is_blank line ≡ true
        → read_lines codec (number + 1) lines ≡ ok entries
        → Line number line lines entries
    entry :
        (e : ChainEntry) (es : List ChainEntry)
        → codec.is_blank line ≡ false
        → codec.loads line ≡ some e
        → read_lines codec (number + 1) lines ≡ ok es
        → entries ≡ e ∷ es
        → Line number line lines entries

  pub read_lines-Line :
      (number : ℕ) (line : String) (lines : List String) (entries : List ChainEntry)
      → read_lines codec number (line ∷ lines) ≡ ok entries
      → Line number line lines entries
  unfolding read_lines
  read_lines-Line number line lines entries h = elim (Bool-cases (codec.is_blank line)) [
    | inl yes' ↦ blank yes' (ground arith)
    | inr no' ↦ elim (Option-cases (codec.loads line)) [
      | inl bad ↦ absurd (ground arith)
      | inr (e, good) ↦
          let (es, rest, same) =
            >>=-eq-ok (read_lines codec (number + 1) lines) (λ es. ok (e ∷ es)) {b = entries}
              (ground arith) in
          entry e es no' good rest (ground arith)
    ]
  ]

  -- A chain that reads has one entry for each line that is not blank: no line is skipped because it
  -- cannot be loaded.
  read_lines_complete :
      (number : ℕ) (lines : List String) (entries : List ChainEntry)
      → read_lines codec number lines ≡ ok entries
      → map codec.loads (filter (λ line. not (codec.is_blank line)) lines) ≡ map some entries
  unfolding read_lines
  read_lines_complete number [] [] h = refl
  read_lines_complete number [] (e ∷ es) h = cc
  read_lines_complete number (line ∷ lines) entries h =
      elim (read_lines-Line number line lines entries h) [
        | blank yes' rest ↦ rw yes' (read_lines_complete (number + 1) lines entries rest)
        | entry e es no' good rest same ↦
            rw (no', same, good)
              (ap (λ t. some e ∷ t) (read_lines_complete (number + 1) lines es rest))
      ]

  read_lines-of_loads :
      (number : ℕ) (lines : List String) (entries : List ChainEntry)
      → map codec.loads (filter (λ line. not (codec.is_blank line)) lines) ≡ map some entries
      → read_lines codec number lines ≡ ok entries
  unfolding read_lines
  read_lines-of_loads number [] [] h = refl
  read_lines-of_loads number [] (e ∷ es) h = cc
  read_lines-of_loads number (line ∷ lines) [] h = elim (Bool-cases (codec.is_blank line)) [
    | inl yes' ↦ rw yes' (read_lines-of_loads (number + 1) lines [] (rw yes' at h))
    | inr no' ↦ absurd (ground arith)
  ]
  read_lines-of_loads number (line ∷ lines) (e ∷ es) h = elim (Bool-cases (codec.is_blank line)) [
    | inl yes' ↦ rw yes' (read_lines-of_loads (number + 1) lines (e ∷ es) (rw yes' at h))
    | inr no' ↦
        let both : (codec.loads line ≡ some e)
            × (map codec.loads (filter (λ l. not (codec.is_blank l)) lines) ≡ map some es) =
          (ground arith, ground arith) in
        ground (arith, both.0, read_lines-of_loads (number + 1) lines es both.1)
  ]

  -- The entries of a directory: none where there is no chain, else those that its lines load as, one for each
  -- line that is not blank.
  pub data Records (directory : Directory) (entries : List ChainEntry) : Type 0 where
    absent : directory.chain ≡ none → entries ≡ [] → Records directory entries
    written :
        (lines : List String)
        → directory.chain ≡ some lines
        → directory.readable ≡ true
        → map codec.loads (filter (λ line. not (codec.is_blank line)) lines) ≡ map some entries
        → Records directory entries

  pub read_chain_iff :
      (directory : Directory) (entries : List ChainEntry)
      → (read_chain codec directory ≡ ok entries) ↔ Records directory entries
  unfolding read_chain
  read_chain_iff directory entries = (
    λ h. elim (Option-cases directory.chain) [
      | inl missing ↦ absent missing (ground arith)
      | inr (lines, there) ↦ elim (Bool-cases directory.readable) [
        | inl readable ↦
            written lines there readable (read_lines_complete 1 lines entries (ground arith))
        | inr locked ↦ absurd (ground arith)
      ]
    ],
    λ r. elim r [
      | absent missing none_ ↦ ground arith
      | written lines there readable loads ↦
          rw (there, readable) (read_lines-of_loads 1 lines entries loads)
    ],
  )
