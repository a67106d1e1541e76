-- ===== src/Chain/Samples.antt =====
-- A codec that runs, a small history, and the theorems at it.
use Prim.Native.Char.{code}
use text.Mathlib.TextEquality.{codes_equal}
use devrepro_doctor.Prelude.{
  ℕ, suc, ◌+◌, ◌%◌, ◌≡◌, ◌⊎◌, ◌↔◌, refl, String, true, false, none, some, List, [], ◌∷◌, arith,
  ◌==◌, str_eq, if◌then◌else◌, sort_strings,
}
use devrepro_doctor.Result.{ok, err}
use devrepro_doctor.Chain.{
  Bytes, ChainEntry, ChainVerification, Codec, Directory, genesis, head_digest, entry_digest,
  malformed_line, read_lines, read_chain, new_entry, append_entry, verify_chain, link_problems,
  unchained_problems,
}
use devrepro_doctor.Chain.Intact.{link_problems-nil_iff, IsLinked, IsIntact, verify_chain_iff}
use devrepro_doctor.Chain.Append.{IsFaithful}
use devrepro_doctor.Chain.Reading.{written}
use devrepro_doctor.Chain.Recording.{append_entry-IsIntact}
use devrepro_doctor.Chain.Anchor.{Collision, IsCanonical}
use devrepro_doctor.Chain.Detection.{head_digest-anchors}

-- A text in front of further numbers, with an end mark.
abbrev block : String → List ℕ → List ℕ
block String.[] rest = 0 ∷ rest
block (String.◌∷◌ c s) rest = suc (code c) ∷ block s rest

block_injective : (s t : String) (r r' : List ℕ) → block s r ≡ block t r' → (s ≡ t) × (r ≡ r')
block_injective String.[] String.[] r r' h = (refl, cc)
block_injective String.[] (String.◌∷◌ d t) r r' h = absurd (ground arith)
block_injective (String.◌∷◌ c s) String.[] r r' h = absurd (ground arith)
block_injective (String.◌∷◌ c s) (String.◌∷◌ d t) r r' h =
    let same : c ≡ d = codes_equal c d (ground arith) in
    let (texts, rests) = block_injective s t r r' (ground arith) in (cc (same, texts), rests)

tail_eq : {x y : ℕ} {xs ys : List ℕ} → x ∷ xs ≡ y ∷ ys → xs ≡ ys
tail_eq h = cc

abbrev sum : List ℕ → ℕ
sum [] = 0
sum (n ∷ ns) = n + sum ns

-- A digest of two values.
abbrev parity : Bytes → String
parity bytes = if sum bytes % 2 == 0 then "even" else "odd"

abbrev first : ChainEntry
first = record {
  seq = 1;
  recorded_at = "mon";
  filename = "a.json";
  digest = "odd";
  prev = "genesis";
  digest_of_entry = "even";
}

abbrev second : ChainEntry
second = record {
  seq = 2;
  recorded_at = "tue";
  filename = "b.json";
  digest = "even";
  prev = "even";
  digest_of_entry = "odd";
}

abbrev codec : Codec
codec = record {
  sha256 = parity;
  payload = λ seq at name digest prev. seq ∷ block at (block name (block digest (block prev [])));
  dumps = λ e. if e.seq == 1 then "first" else "second";
  loads = λ line.
      if str_eq line "first"
      then some first
      else if str_eq line "second"
      then some second
      else none;
  is_blank = λ line. str_eq line "";
}

codec-IsCanonical : IsCanonical codec
codec-IsCanonical = record {
  seq = λ a b h. ground arith;
  recorded_at = λ a b h. (texts a b h).0;
  filename = λ a b h. (texts a b h).1;
  digest = λ a b h. (texts a b h).2;
  prev = λ a b h. (texts a b h).3;
}
  where
    texts :
        (a b : ChainEntry)
        → codec.payload a.seq a.recorded_at a.filename a.digest a.prev
          ≡ codec.payload b.seq b.recorded_at b.filename b.digest b.prev
        → (a.recorded_at ≡ b.recorded_at)
          × (a.filename ≡ b.filename)
          × (a.digest ≡ b.digest)
          × (a.prev ≡ b.prev)
    texts a b h =
        let (at, h) = block_injective a.recorded_at b.recorded_at _ _ (tail_eq h) in
        let (name, h) = block_injective a.filename b.filename _ _ h in
        let (digest, h) = block_injective a.digest b.digest _ _ h in
        let (prev, h) = block_injective a.prev b.prev _ _ h in (at, name, digest, prev)

abbrev start : Directory
start = record {
  chain = some ("first" ∷ "" ∷ []);
  readable = true;
  writable = true;
  files = ("a.json", 7 ∷ []) ∷ [];
}

runs : Unit {0}
unfolding verify_chain read_chain read_lines link_problems unchained_problems head_digest
    append_entry new_entry sort_strings
runs = tt

start_verifies :
    verify_chain codec start ".json"
    ≡ ok (record { is_ok = true; checked = 1; head = "even"; problems = [] })
unfolding runs
start_verifies = refl

start-IsIntact : IsIntact codec start ".json" (first ∷ [])
unfolding runs
start-IsIntact = record {
  reads = written ("first" ∷ "" ∷ []) refl refl refl;
  linked = (refl, refl, refl, record { content = 7 ∷ []; stored = refl; matches = refl }, tt);
  covered = (refl, tt);
}

second-IsFaithful : IsFaithful codec (new_entry codec (first ∷ []) "b.json" (4 ∷ []) "tue")
unfolding runs
second-IsFaithful = record { loads_back = refl; not_blank = refl }

verify_chain_iff_example :
    ((v : ChainVerification) × (verify_chain codec start ".json" ≡ ok v) × (v.is_ok ≡ true))
    ↔ ((entries : List ChainEntry) × IsIntact codec start ".json" entries)
verify_chain_iff_example = verify_chain_iff codec start ".json"

append_entry-IsIntact_example :
    (let stored = record start { files = ("a.json", 7 ∷ []) ∷ ("b.json", 4 ∷ []) ∷ [] } in
      (e : ChainEntry) × ((append_entry codec stored "b.json" (some (4 ∷ [])) "tue").0 ≡ ok e)
      × IsIntact codec
          (append_entry codec stored "b.json" (some (4 ∷ [])) "tue").1
          ".json"
          (first ∷ e ∷ [])
      × (head_digest (first ∷ e ∷ []) ≡ e.digest_of_entry))
append_entry-IsIntact_example =
    append_entry-IsIntact codec start ".json" (first ∷ []) "b.json" (4 ∷ []) "tue" second-IsFaithful
      start-IsIntact refl refl refl

abbrev locked : Directory
locked = record start { writable = false }

-- A line that cannot be loaded is an error with its number.
malformed : read_lines codec 1 ("first" ∷ "" ∷ "fir" ∷ []) ≡ err (malformed_line 3)
unfolding runs
malformed = refl

abbrev both_files : List (String × Bytes)
both_files = ("a.json", 7 ∷ []) ∷ ("b.json", 4 ∷ []) ∷ []

both-IsLinked : IsLinked codec both_files 1 genesis (first ∷ second ∷ [])
unfolding entry_digest
both-IsLinked = (
  refl,
  refl,
  refl,
  record { content = 7 ∷ []; stored = refl; matches = refl },
  (refl, refl, refl, record { content = 4 ∷ []; stored = refl; matches = refl }, tt),
)

both-linked : link_problems codec both_files 1 genesis (first ∷ second ∷ []) ≡ []
both-linked =
    (link_problems-nil_iff codec both_files 1 genesis (first ∷ second ∷ [])).1 both-IsLinked

head_digest-anchors_example :
    (◌≡◌ {A = List ChainEntry} (first ∷ second ∷ []) (first ∷ second ∷ [])) ⊎ Collision codec
head_digest-anchors_example =
    head_digest-anchors codec codec-IsCanonical both_files both_files (first ∷ second ∷ [])
      (first ∷ second ∷ []) (omega arith) (omega arith) both-linked both-linked refl
