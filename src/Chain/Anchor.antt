-- ===== src/Chain/Anchor.antt =====
-- What the links of a chain give: an anchored head fixes the history, and a gap is seen.
use devrepro_doctor.Prelude.{
  ℕ, ◌+◌, ◌<◌, ◌≡◌, ◌≢◌, ◌⊎◌, refl, sym, ◌∙◌, String, List, [], ◌∷◌, ◌++◌, arith, inl, inr, length,
  length-append, append_assoc,
}
use native.Mathlib.Decide.{ℕ_discrete}
use devrepro_doctor.Chain.{Bytes, ChainEntry, Codec, genesis, head_from, head_digest, entry_digest}
use devrepro_doctor.Chain.Intact.{Commits, IsLinked}

-- Two contents with one digest.
pub record Collision (codec : Codec) : Type 0 where
  pub left : Bytes
  pub right : Bytes
  pub differ : left ≢ right
  pub digests : codec.sha256 left ≡ codec.sha256 right

Bytes-discrete : Discrete Bytes
Bytes-discrete = hlevel ℕ_discrete

module _ (codec : Codec) where
  abbrev pub payload_of : ChainEntry → Bytes
  payload_of e = codec.payload e.seq e.recorded_at e.filename e.digest e.prev

  -- The canonical JSON determines what it was made of.
  pub record IsCanonical : Type 0 where
    pub seq : (a b : ChainEntry) → payload_of a ≡ payload_of b → a.seq ≡ b.seq
    pub recorded_at :
        (a b : ChainEntry) → payload_of a ≡ payload_of b → a.recorded_at ≡ b.recorded_at
    pub filename : (a b : ChainEntry) → payload_of a ≡ payload_of b → a.filename ≡ b.filename
    pub digest : (a b : ChainEntry) → payload_of a ≡ payload_of b → a.digest ≡ b.digest
    pub prev : (a b : ChainEntry) → payload_of a ≡ payload_of b → a.prev ≡ b.prev

  -- Entries with one digest have one payload, or show a collision.
  payload_or_Collision :
      (a b : ChainEntry)
      → Commits codec a
      → Commits codec b
      → a.digest_of_entry ≡ b.digest_of_entry
      → (payload_of a ≡ payload_of b) ⊎ Collision codec
  unfolding entry_digest
  payload_or_Collision a b ca cb same = elim (Bytes-discrete (payload_of a) (payload_of b)) [
    | yes p ↦ inl p
    | no n ↦ inr (record {
      left = payload_of a;
      right = payload_of b;
      differ = n;
      digests = ca ∙ same ∙ sym cb;
    })
  ]

  -- The last entry of a linked chain: its digest is the head, and its number is known.
  last_entry :
      (files : List (String × Bytes)) (index : ℕ) (prev : String) (x : ChainEntry)
      (xs : List ChainEntry)
      → IsLinked codec files index prev (x ∷ xs)
      → (e : ChainEntry) × (head_from prev (x ∷ xs) ≡ e.digest_of_entry)
        × Commits codec e
        × (e.seq + 1 ≡ index + length (x ∷ xs))
  unfolding head_from
  last_entry files index prev x [] (gap, link, own, file, rest) = (x, refl, own, omega (arith, gap))
  last_entry files index prev x (y ∷ ys) (gap, link, own, file, rest) =
      let (e, head, own', seq) = last_entry files (index + 1) x.digest_of_entry y ys rest in
      (e, head, own', omega (arith, seq))

  module _ (canonical : IsCanonical) where
    same_entries :
        (files files' : List (String × Bytes)) (index : ℕ) (p q : String) (a b : List ChainEntry)
        → IsLinked codec files index p a
        → IsLinked codec files' index q b
        → length a ≡ length b
        → head_from p a ≡ head_from q b
        → ((p ≡ q) × (a ≡ b)) ⊎ Collision codec
    unfolding head_from
    same_entries files files' index p q [] [] la lb n head = inl (head, refl)
    same_entries files files' index p q [] (y ∷ ys) la lb n head = absurd (omega (arith, n))
    same_entries files files' index p q (x ∷ xs) [] la lb n head = absurd (omega (arith, n))
    same_entries files files' index p q (x ∷ xs) (y ∷ ys) (gap, link, own, file, la)
          (gap', link', own', file', lb) n head =
        elim (same_entries files files' (index + 1) x.digest_of_entry y.digest_of_entry xs ys la lb
          (omega (arith, n)) head) [
            | inr c ↦ inr c
            | inl (digests, rest) ↦ elim (payload_or_Collision x y own own' digests) [
              | inr c ↦ inr c
              | inl payloads ↦ inl (
                sym link ∙ canonical.prev x y payloads ∙ link',
                cc (
                  canonical.seq x y payloads,
                  canonical.recorded_at x y payloads,
                  canonical.filename x y payloads,
                  canonical.digest x y payloads,
                  canonical.prev x y payloads,
                  digests,
                  rest,
                ),
              )
            ]
          ]

    -- An anchored head fixes the history: two linked chains that are not empty and have the same head are
    -- the same list of entries, or show two different contents with one SHA-256 digest. The directories
    -- may differ.
    pub IsLinked-anchors :
        (files files' : List (String × Bytes)) (a b : List ChainEntry)
        → 0 < length a
        → 0 < length b
        → IsLinked codec files 1 genesis a
        → IsLinked codec files' 1 genesis b
        → head_digest a ≡ head_digest b
        → (a ≡ b) ⊎ Collision codec
    unfolding head_digest
    IsLinked-anchors files files' [] b na nb la lb head = absurd (omega arith)
    IsLinked-anchors files files' (x ∷ xs) [] na nb la lb head = absurd (omega arith)
    IsLinked-anchors files files' (x ∷ xs) (y ∷ ys) na nb la lb head =
        let (e, ends, own, seq) = last_entry files 1 genesis x xs la in
        let (e', ends', own', seq') = last_entry files' 1 genesis y ys lb in
        elim (payload_or_Collision e e' own own' (sym ends ∙ head ∙ ends')) [
          | inr c ↦ inr c
          | inl payloads ↦
              elim (same_entries files files' 1 genesis genesis (x ∷ xs) (y ∷ ys) la lb
                (omega (arith, seq, seq', canonical.seq e e' payloads)) head) [
                  | inr c ↦ inr c
                  | inl (_, same) ↦ inl same
                ]
        ]

  -- The number of an entry is its place.
  seq_of_place :
      (files : List (String × Bytes)) (index : ℕ) (prev : String) (before : List ChainEntry)
      (e : ChainEntry) (after : List ChainEntry)
      → IsLinked codec files index prev (before ++ e ∷ after)
      → e.seq ≡ index + length before
  seq_of_place files index prev [] e after h = omega (arith, h.0)
  seq_of_place files index prev (x ∷ xs) e after h =
      omega (arith, seq_of_place files (index + 1) x.digest_of_entry xs e after h.4)

  -- A removal from inside a chain is seen: if a chain is linked and at least one entry is taken out of
  -- it before its last one, what is left is not linked, whatever the snapshot files are by then.
  pub removal-not-IsLinked :
      (files files' : List (String × Bytes)) (before removed : List ChainEntry) (e : ChainEntry)
      (after : List ChainEntry)
      → 0 < length removed
      → IsLinked codec files 1 genesis (before ++ (removed ++ e ∷ after))
      → ¬ IsLinked codec files' 1 genesis (before ++ e ∷ after)
  removal-not-IsLinked files files' before removed e after some_removed h h' = absurd (
      omega (
        arith,
        seq_of_place files' 1 genesis before e after h',
        seq_of_place files 1 genesis (before ++ removed) e after (rw append_assoc h),
        length-append {0} before removed,
      ))

  -- A removal from the end is not seen: what stands before it is still linked.
  pub truncation-IsLinked :
      (files : List (String × Bytes)) (index : ℕ) (prev : String) (kept removed : List ChainEntry)
      → IsLinked codec files index prev (kept ++ removed)
      → IsLinked codec files index prev kept
  truncation-IsLinked files index prev [] removed h = tt
  truncation-IsLinked files index prev (x ∷ xs) removed h =
      (h.0, h.1, h.2, h.3, truncation-IsLinked files (index + 1) x.digest_of_entry xs removed h.4)
