-- ===== src/Chain/Append.antt =====
-- What `append_entry` does to a directory, on success and on error.
use devrepro_doctor.Prelude.{
  ℕ, ◌+◌, ◌≡◌, refl, String, true, false, Option, none, some, List, [], ◌∷◌, ◌++◌, arith,
  str_eq_iff, inl, inr, Option-cases, length, lookup,
}
use devrepro_doctor.Result.{ok, err}
use devrepro_doctor.Chain.{
  Bytes, ChainEntry, ChainError, Codec, Directory, head_from, read_lines, read_chain, lines_of,
  new_entry, append_entry,
}
use devrepro_doctor.Chain.Reading.{blank, entry, read_lines-Line}
use devrepro_doctor.Chain.Intact.{HasFile, Commits, IsLinked}

-- The documented behaviour of json at an entry: the dumped line is loaded again, and is not blank.
pub record IsFaithful (codec : Codec) (entry : ChainEntry) : Type 0 where
  pub loads_back : codec.loads (codec.dumps entry) ≡ some entry
  pub not_blank : codec.is_blank (codec.dumps entry) ≡ false

pub head_from-append :
    (last : String) (xs : List ChainEntry) (e : ChainEntry)
    → head_from last (xs ++ e ∷ []) ≡ e.digest_of_entry
unfolding head_from
head_from-append last [] e = refl
head_from-append last (x ∷ xs) e = head_from-append x.digest_of_entry xs e

module _ (codec : Codec) where
  -- An append that fails leaves the directory as it was.
  pub append_entry-unchanged :
      (directory : Directory) (name : String) (content : Option Bytes) (recorded_at : String)
      (e : ChainError)
      → (append_entry codec directory name content recorded_at).0 ≡ err e
      → (append_entry codec directory name content recorded_at).1 ≡ directory
  unfolding append_entry
  append_entry-unchanged directory name none recorded_at e h = refl
  append_entry-unchanged directory name (some content) recorded_at e h = ground arith

  module _ (e : ChainEntry) (faithful : IsFaithful codec e) where
    read_lines-append :
        (number : ℕ) (lines : List String) (entries : List ChainEntry)
        → read_lines codec number lines ≡ ok entries
        → read_lines codec number (lines ++ codec.dumps e ∷ []) ≡ ok (entries ++ e ∷ [])
    unfolding read_lines
    read_lines-append number [] entries h =
        rw (faithful.not_blank, faithful.loads_back) (ground arith)
    read_lines-append number (line ∷ lines) entries h =
        elim (read_lines-Line codec number line lines entries h) [
          | blank yes' rest ↦ rw yes' (read_lines-append (number + 1) lines entries rest)
          | entry x es no' good rest same ↦
              rw (no', same, good, read_lines-append (number + 1) lines es rest)
        ]

    pub reads_on :
        (directory : Directory) (existing : List ChainEntry)
        → directory.readable ≡ true
        → read_chain codec directory ≡ ok existing
        → read_chain codec
            (record directory { chain = some (lines_of directory.chain ++ codec.dumps e ∷ []) })
          ≡ ok (existing ++ e ∷ [])
    unfolding read_chain
    reads_on directory existing readable reads = elim (Option-cases directory.chain) [
      | inl missing ↦
          rw (missing, readable)
            (read_lines-append 1 [] existing (unfold read_lines in ground arith))
      | inr (lines, there) ↦
          rw (there, readable) (read_lines-append 1 lines existing (ground arith))
    ]

  -- What an append returns, and the directory that it leaves.
  pub append_entry_lem :
      (directory : Directory) (existing : List ChainEntry) (name : String) (content : Bytes)
      (recorded_at : String)
      → read_chain codec directory ≡ ok existing
      → directory.writable ≡ true
      → (let e = new_entry codec existing name content recorded_at in
          append_entry codec directory name (some content) recorded_at ≡ (
            ok e,
            record directory { chain = some (lines_of directory.chain ++ codec.dumps e ∷ []) },
          ))
  unfolding append_entry
  append_entry_lem directory existing name content recorded_at reads writable =
      rw (reads, writable, append_entry)

  module _ (files : List (String × Bytes)) (name : String) (content : Bytes) where
    abbrev pub stored : List (String × Bytes)
    stored = files ++ (name, content) ∷ []

    lookup-stored :
        (fs : List (String × Bytes)) (k : String) (c : Bytes)
        → lookup k fs ≡ some c
        → lookup k (fs ++ (name, content) ∷ []) ≡ some c
    lookup-stored [] k c h = cc
    lookup-stored ((j, d) ∷ fs) k c h = ground (arith, lookup-stored fs k c)

    pub lookup-stored_new :
        (fs : List (String × Bytes))
        → lookup name fs ≡ none
        → lookup name (fs ++ (name, content) ∷ []) ≡ some content
    lookup-stored_new [] h = ground (arith, str_eq_iff name name)
    lookup-stored_new ((j, d) ∷ fs) h = ground (arith, lookup-stored_new fs)

    -- Storing a further snapshot keeps the links, and the new entry extends them.
    pub IsLinked-append :
        (index : ℕ) (prev : String) (entries : List ChainEntry) (e : ChainEntry)
        → IsLinked codec files index prev entries
        → e.seq ≡ index + length entries
        → e.prev ≡ head_from prev entries
        → Commits codec e
        → HasFile codec stored e
        → IsLinked codec stored index prev (entries ++ e ∷ [])
    unfolding head_from
    IsLinked-append index prev [] e h seq link own file = (omega (arith, seq), link, own, file, tt)
    IsLinked-append index prev (x ∷ xs) e (gap, before, commits, there, h) seq link own file = (
      gap,
      before,
      commits,
      record {
        content = there.content;
        stored = lookup-stored files x.filename there.content there.stored;
        matches = there.matches;
      },
      IsLinked-append (index + 1) x.digest_of_entry xs e h (omega (arith, seq)) link own file,
    )
