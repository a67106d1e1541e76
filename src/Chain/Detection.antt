-- ===== src/Chain/Detection.antt =====
-- What the verification of the links sees, and what it cannot see.
use devrepro_doctor.Prelude.{◌<◌, ◌≡◌, ◌≢◌, ◌⊎◌, String, List, [], ◌∷◌, ◌++◌, length}
use devrepro_doctor.Chain.{Bytes, ChainEntry, Codec, genesis, head_digest, link_problems}
use devrepro_doctor.Chain.Intact.{link_problems-nil_iff}
use devrepro_doctor.Chain.Anchor.{
  Collision, IsCanonical, IsLinked-anchors, removal-not-IsLinked, truncation-IsLinked,
}

module _ (codec : Codec) where
  -- An anchored head fixes the history: two chains that are not empty, whose links verify without a
  -- problem and whose heads are the same, are the same list of entries, or show two different contents
  -- with one SHA-256 digest. The snapshot files beside them may differ; the canonical JSON of an entry is
  -- assumed to determine its fields.
  pub head_digest-anchors :
      (canonical : IsCanonical codec) (files files' : List (String × Bytes)) (a b : List ChainEntry)
      → 0 < length a
      → 0 < length b
      → link_problems codec files 1 genesis a ≡ []
      → link_problems codec files' 1 genesis b ≡ []
      → head_digest a ≡ head_digest b
      → (a ≡ b) ⊎ Collision codec
  head_digest-anchors canonical files files' a b na nb la lb head =
      IsLinked-anchors codec canonical files files' a b na nb
        ((link_problems-nil_iff codec files 1 genesis a).0 la)
        ((link_problems-nil_iff codec files' 1 genesis b).0 lb) head

  -- A removal from inside a chain is seen: if the links of a chain verify without a problem and at least
  -- one entry is taken out of it before its last one, the links of what is left show a problem, whatever
  -- the snapshot files are by then.
  pub link_problems_removed :
      (files files' : List (String × Bytes)) (before removed : List ChainEntry) (e : ChainEntry)
      (after : List ChainEntry)
      → 0 < length removed
      → link_problems codec files 1 genesis (before ++ (removed ++ e ∷ after)) ≡ []
      → link_problems codec files' 1 genesis (before ++ e ∷ after) ≢ []
  link_problems_removed files files' before removed e after some_removed whole left =
      removal-not-IsLinked codec files files' before removed e after some_removed
        ((link_problems-nil_iff codec files 1 genesis (before ++ (removed ++ e ∷ after))).0 whole)
        ((link_problems-nil_iff codec files' 1 genesis (before ++ e ∷ after)).0 left)

  -- A removal from the end is not seen: if the links of a chain verify without a problem, so do those of
  -- every beginning of it.
  pub link_problems_kept :
      (files : List (String × Bytes)) (kept removed : List ChainEntry)
      → link_problems codec files 1 genesis (kept ++ removed) ≡ []
      → link_problems codec files 1 genesis kept ≡ []
  link_problems_kept files kept removed whole =
      (link_problems-nil_iff codec files 1 genesis kept).1 (
        truncation-IsLinked codec files 1 genesis kept removed
          ((link_problems-nil_iff codec files 1 genesis (kept ++ removed)).0 whole))
