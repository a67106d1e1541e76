-- ===== src/Chain/Intact.antt =====
-- What a chain without problems is, and that `verify_chain` decides it.
use devrepro_doctor.Prelude.{
  All, ℕ, ◌+◌, ◌≡◌, ◌↔◌, refl, String, Bool, true, false, not, some, List, [], ◌∷◌, ◌++◌, arith,
  str_eq_iff, ==_iff, inl, inr, Option-cases, length, lookup,
}
use devrepro_doctor.Result.{ok, Result-cases}
use devrepro_doctor.Chain.{
  Bytes, ChainEntry, ChainProblem, ChainVerification, Codec, Directory, Problem, genesis,
  head_digest, entry_digest, read_chain, when, file_problems, link_problems, unchained_problems,
  verify_chain, is_empty,
}
use devrepro_doctor.Chain.Reading.{Records, read_chain_iff}
use devrepro_doctor.Chain.Covered.{is_recorded, unchained_problems-nil_iff}

pub append-nil_iff {ℓ} : {A : Type ℓ} (xs ys : List A) → ((xs ++ ys) ≡ []) ↔ ((xs ≡ []) × (ys ≡ []))
append-nil_iff [] ys = (λ h. (refl, h), λ h. h.1)
append-nil_iff (x ∷ xs) ys = (λ h. cc, λ h. cc h.0)

module _ (codec : Codec) where
  -- The snapshot that an entry names is there, with the digest that the entry has for it.
  pub record HasFile (files : List (String × Bytes)) (entry : ChainEntry) : Type 0 where
    pub content : Bytes
    pub stored : lookup entry.filename files ≡ some content
    pub matches : codec.sha256 content ≡ entry.digest

  -- The entry commits to its own contents.
  abbrev pub Commits : ChainEntry → Type 0
  Commits entry =
      entry_digest codec entry.seq entry.recorded_at entry.filename entry.digest entry.prev
      ≡ entry.digest_of_entry

  -- Numbered without gaps from an index, each entry committing to the one before it.
  abbrev pub IsLinked : List (String × Bytes) → ℕ → String → List ChainEntry → Type 0
  IsLinked files index prev [] = Unit
  IsLinked files index prev (entry ∷ entries) =
      (entry.seq ≡ index)
      × (entry.prev ≡ prev)
      × Commits entry
      × HasFile files entry
      × IsLinked files (index + 1) entry.digest_of_entry entries

  when-nil_iff : (b : Bool) (kind : Problem) (seq : ℕ) → (when (not b) kind seq ≡ []) ↔ (b ≡ true)
  when-nil_iff true kind seq = (λ _. refl, λ _. refl)
  when-nil_iff false kind seq = (λ e. cc, λ e. cc)

  pub file_problems-nil_iff :
      (files : List (String × Bytes)) (entry : ChainEntry)
      → (file_problems codec files entry ≡ []) ↔ HasFile files entry
  unfolding file_problems
  file_problems-nil_iff files entry = elim (Option-cases (lookup entry.filename files)) [
    | inl gone ↦ (λ h. ground arith, λ h. ground (arith, h.stored))
    | inr (content, there) ↦ (
      λ h. record {
        content = content;
        stored = there;
        matches =
            (str_eq_iff (codec.sha256 content) entry.digest).0
              ((when-nil_iff _ _ _).0 (rw (there, file_problems) at h));
      },
      λ h. ground (arith, h.stored, h.matches, str_eq_iff (codec.sha256 h.content) entry.digest),
    )
  ]

  pub link_problems-nil_iff :
      (files : List (String × Bytes)) (index : ℕ) (prev : String) (entries : List ChainEntry)
      → (link_problems codec files index prev entries ≡ []) ↔ IsLinked files index prev entries
  unfolding link_problems
  link_problems-nil_iff files index prev [] = (λ _. tt, λ _. refl)
  link_problems-nil_iff files index prev (e ∷ es) =
      let digest = entry_digest codec e.seq e.recorded_at e.filename e.digest e.prev in
      let rest = link_problems-nil_iff files (index + 1) e.digest_of_entry es in
      (
        λ h.
            let (gap, h) = (append-nil_iff _ _).0 h in
            let (link, h) = (append-nil_iff _ _).0 h in
            let (own, h) = (append-nil_iff _ _).0 h in
            let (file, h) = (append-nil_iff _ _).0 h in
            (
              (==_iff e.seq index).0 ((when-nil_iff _ _ _).0 gap),
              (str_eq_iff e.prev prev).0 ((when-nil_iff _ _ _).0 link),
              (str_eq_iff digest e.digest_of_entry).0 ((when-nil_iff _ _ _).0 own),
              (file_problems-nil_iff files e).0 file,
              rest.0 h,
            ),
        λ (gap, link, own, file, h). (append-nil_iff _ _).1 (
          (when-nil_iff _ _ _).1 ((==_iff e.seq index).1 gap),
          (append-nil_iff _ _).1 (
            (when-nil_iff _ _ _).1 ((str_eq_iff e.prev prev).1 link),
            (append-nil_iff _ _).1 (
              (when-nil_iff _ _ _).1 ((str_eq_iff digest e.digest_of_entry).1 own),
              (append-nil_iff _ _).1 ((file_problems-nil_iff files e).1 file, rest.1 h),
            ),
          ),
        ),
      )

  -- What a good report says of a directory.
  pub record IsIntact (directory : Directory) (suffix : String) (entries : List ChainEntry)
      : Type 0 where
    pub reads : Records codec directory entries
    pub linked : IsLinked directory.files 1 genesis entries
    pub covered : All (λ f. is_recorded suffix entries f ≡ true) directory.files

  verify_chain-ok :
      (directory : Directory) (suffix : String) (entries : List ChainEntry)
      → read_chain codec directory ≡ ok entries
      → verify_chain codec directory suffix ≡ (
          let problems =
            link_problems codec directory.files 1 genesis entries
            ++ unchained_problems suffix directory.files entries in
          ok (record {
            is_ok = is_empty problems;
            checked = length entries;
            head = head_digest entries;
            problems = problems;
          }))
  unfolding verify_chain
  verify_chain-ok directory suffix entries e = rw e refl

  is_empty-nil_iff : (ps : List ChainProblem) → (is_empty ps ≡ true) ↔ (ps ≡ [])
  is_empty-nil_iff [] = (λ _. refl, λ _. refl)
  is_empty-nil_iff (p ∷ ps) = (λ e. cc, λ e. cc)

  -- `verify_chain` returns a report without a problem exactly when the directory is intact, for some list of
  -- entries: it is what the lines of the chain that are not blank load as, or empty where there is no chain; it
  -- is numbered from 1 without gaps, and each entry commits to its contents and to the entry before it and names
  -- a file that is there with the entry's digest; and every file with the suffix, but the chain itself, is named
  -- by one of them.
  pub verify_chain_iff :
      (directory : Directory) (suffix : String)
      → ((v : ChainVerification) × (verify_chain codec directory suffix ≡ ok v) × (v.is_ok ≡ true))
        ↔ ((entries : List ChainEntry) × IsIntact directory suffix entries)
  unfolding verify_chain
  verify_chain_iff directory suffix = (
    λ (v, e, good). elim (Result-cases (read_chain codec directory)) [
      | inr (f, fails) ↦ absurd (ground arith)
      | inl (entries, reads) ↦
          let problems =
            link_problems codec directory.files 1 genesis entries
            ++ unchained_problems suffix directory.files entries in
          let none : problems ≡ [] =
            (is_empty-nil_iff problems).0
              (ground (arith, e, good, verify_chain-ok directory suffix entries reads)) in
          let (links, covered) = (append-nil_iff _ _).0 none in
          (
            entries,
            record {
              reads = (read_chain_iff codec directory entries).0 reads;
              linked = (link_problems-nil_iff directory.files 1 genesis entries).0 links;
              covered = (unchained_problems-nil_iff suffix directory.files entries).0 covered;
            },
          )
    ],
    λ (entries, h).
        let none = (append-nil_iff _ _).1 (
          (link_problems-nil_iff directory.files 1 genesis entries).1 h.linked,
          (unchained_problems-nil_iff suffix directory.files entries).1 h.covered,
        ) in
        let reads = (read_chain_iff codec directory entries).1 h.reads in
        (_, verify_chain-ok directory suffix entries reads, (is_empty-nil_iff _).1 none),
  )
