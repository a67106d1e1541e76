-- ===== src/Chain/Recording.antt =====
-- Recording a snapshot: its file is stored in the directory, and then appended to the chain.
use devrepro_doctor.Prelude.{
  All, All-append, ◌≡◌, refl, sym, ap, subst, String, true, ◌||◌, none, some, List, [], ◌∷◌, ◌++◌,
  arith, str_eq, str_eq_iff, lookup, any,
}
use devrepro_doctor.Result.{ok}
use devrepro_doctor.Chain.{
  Bytes, ChainEntry, Codec, Directory, genesis, head_digest, read_chain, lines_of, new_entry,
  append_entry,
}
use devrepro_doctor.Chain.Covered.{is_recorded}
use devrepro_doctor.Chain.Reading.{read_chain_iff}
use devrepro_doctor.Chain.Intact.{HasFile, IsIntact}
use devrepro_doctor.Chain.Append.{
  IsFaithful, head_from-append, reads_on, append_entry_lem, lookup-stored_new, IsLinked-append,
}

any-named-append :
    (name : String) (xs ys : List ChainEntry)
    → any (λ entry. str_eq entry.filename name) (xs ++ ys) ≡ (
        any (λ entry. str_eq entry.filename name) xs
        || any (λ entry. str_eq entry.filename name) ys)
any-named-append name [] ys = refl
any-named-append name (x ∷ xs) ys = ground (arith, any-named-append name xs ys)

-- With the new entry in the chain, what was recorded stays so, and its own file is.
recorded_on :
    (suffix : String) (entries : List ChainEntry) (e : ChainEntry) (files : List (String × Bytes))
    → All (λ f. is_recorded suffix entries f ≡ true) files
    → All (λ f. is_recorded suffix (entries ++ e ∷ []) f ≡ true) files
recorded_on suffix entries e [] h = tt
recorded_on suffix entries e ((name, content) ∷ files) (own, more) = (
  ground (arith, any-named-append name entries (e ∷ [])),
  recorded_on suffix entries e files more,
)

recorded_new :
    (suffix : String) (entries : List ChainEntry) (e : ChainEntry) (content : Bytes)
    → is_recorded suffix (entries ++ e ∷ []) (e.filename, content) ≡ true
recorded_new suffix entries e content =
    ground (arith, any-named-append e.filename entries (e ∷ []), str_eq_iff e.filename e.filename)

-- Recording keeps a directory intact. If the directory is intact, the snapshot's name is not in use, the
-- chain can be read and written and the new entry's line loads as that entry, then storing the
-- snapshot and appending it to the chain returns an entry, leaves an intact directory whose chain has
-- that entry behind, and the entry's digest is the new head.
pub append_entry-IsIntact :
    (codec : Codec) (directory : Directory) (suffix : String) (existing : List ChainEntry)
    (name : String) (content : Bytes) (recorded_at : String)
    → IsFaithful codec (new_entry codec existing name content recorded_at)
    → IsIntact codec directory suffix existing
    → directory.readable ≡ true
    → directory.writable ≡ true
    → lookup name directory.files ≡ none
    → (let stored = record directory { files = directory.files ++ (name, content) ∷ [] } in
        (e : ChainEntry) × ((append_entry codec stored name (some content) recorded_at).0 ≡ ok e)
        × IsIntact codec
            (append_entry codec stored name (some content) recorded_at).1
            suffix
            (existing ++ e ∷ [])
        × (head_digest (existing ++ e ∷ []) ≡ e.digest_of_entry))
unfolding new_entry read_chain head_digest
append_entry-IsIntact codec directory suffix existing name content recorded_at faithful h readable
      writable fresh =
    let stored = record directory { files = directory.files ++ (name, content) ∷ [] } in
    let e = new_entry codec existing name content recorded_at in
    let next = record stored { chain = some (lines_of directory.chain ++ codec.dumps e ∷ []) } in
    let reads : read_chain codec stored ≡ ok existing =
      (read_chain_iff codec directory existing).1 h.reads in
    let done = append_entry_lem codec stored existing name content recorded_at reads writable in
    let file : HasFile codec stored.files e = record {
      content = content;
      stored = lookup-stored_new codec directory.files name content directory.files fresh;
      matches = refl;
    } in
    let intact : IsIntact codec next suffix (existing ++ e ∷ []) = record {
      reads =
          (read_chain_iff codec next (existing ++ e ∷ [])).0
            (reads_on codec e faithful stored existing readable reads);
      linked =
          IsLinked-append codec directory.files name content 1 genesis existing e h.linked
            (omega arith) refl refl file;
      covered =
          All-append (λ f. is_recorded suffix (existing ++ e ∷ []) f ≡ true) directory.files
            ((name, content) ∷ []) (recorded_on suffix existing e directory.files h.covered)
            (recorded_new suffix existing e content, tt);
    } in
    (
      e,
      ap (λ r. r.0) done,
      subst (λ r. IsIntact codec r suffix (existing ++ e ∷ [])) (sym (ap (λ r. r.1) done)) intact,
      head_from-append genesis existing e,
    )
