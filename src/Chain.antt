-- ===== src/Chain.antt =====
-- snapshots/chain.py: the hash chain over the snapshot history. The directory is a value, a method
-- that writes to it returns the new one, and `ChainError` is a result. What hashlib and json compute
-- is the parameter `Codec`.
pub mod Covered
pub mod Reading
pub mod Intact
pub mod Append
pub mod Recording
pub mod Anchor
pub mod Detection
mod Samples
use Prim.Native.String.{len, slice}
use devrepro_doctor.Prelude.{
  ℕ, zero, suc, ◌+◌, ◌-◌, String, Bool, true, false, not, ◌&&◌, ◌||◌, Option, none, some, List, [],
  ◌∷◌, ◌++◌, map, ◌==◌, str_eq, if◌then◌else◌, length, any, filter, sort_strings, lookup,
}
use devrepro_doctor.Result.{Result, ok, err, ◌>>=◌}

abbrev pub Bytes : Type 0
Bytes = List ℕ

pub record ChainEntry : Type 0 where
  pub seq : ℕ
  pub recorded_at : String
  pub filename : String
  pub digest : String
  pub prev : String
  pub digest_of_entry : String

pub data ChainError : Type 0 where
  cannot_read_chain cannot_read_snapshot cannot_append : ChainError
  malformed_line : ℕ → ChainError

abbrev pub chain_filename : String
chain_filename = "chain.jsonl"

abbrev pub genesis : String
genesis = "genesis"

-- What the code takes from hashlib and json.
pub record Codec : Type 0 where
  -- `hashlib.sha256(data).hexdigest()`
  pub sha256 : Bytes → String
  -- the canonical JSON of an entry's contents, encoded: seq, recorded_at, filename, digest, prev
  pub payload : ℕ → String → String → String → String → Bytes
  -- the line that is written for an entry
  pub dumps : ChainEntry → String
  -- the entry that a line holds; `none` where json or the reads of its fields raise
  pub loads : String → Option ChainEntry
  -- `not line.strip()`
  pub is_blank : String → Bool

-- The history directory: the lines of the chain file, if there is one, whether the operating system
-- lets it be read and appended to, and the other files by name.
pub record Directory : Type 0 where
  pub chain : Option (List String)
  pub readable : Bool
  pub writable : Bool
  pub files : List (String × Bytes)

-- `glob("*" + suffix)` keeps the names that end so.
unfoldable pub ends_with : String → String → Bool
ends_with name suffix = str_eq (slice name (len name - len suffix) (len name)) suffix

pub data Problem : Type 0 where
  sequence_gap : (index : ℕ) → Problem
  broken_link entry_altered : Problem
  missing_snapshot snapshot_altered unchained_snapshot : (filename : String) → Problem

-- The text of `detail` is determined by the kind and its arguments.
pub record ChainProblem : Type 0 where
  pub kind : Problem
  pub seq : Option ℕ

pub record ChainVerification : Type 0 where
  pub is_ok : Bool
  pub checked : ℕ
  pub head : String
  pub problems : List ChainProblem

unfoldable pub head_from : String → List ChainEntry → String
head_from last [] = last
head_from last (entry ∷ entries) = head_from entry.digest_of_entry entries

unfoldable pub head_digest : List ChainEntry → String
unfolding head_from
head_digest entries = head_from genesis entries

abbrev pub is_empty {ℓ} : {A : Type ℓ} → List A → Bool
is_empty [] = true
is_empty (x ∷ xs) = false

abbrev pub lines_of : Option (List String) → List String
lines_of none = []
lines_of (some lines) = lines

abbrev pub when : Bool → Problem → ℕ → List ChainProblem
when true kind seq = record { kind = kind; seq = some seq } ∷ []
when false kind seq = []

-- The files of the directory that the chain does not mention.
unfoldable pub unchained_problems :
    String → List (String × Bytes) → List ChainEntry → List ChainProblem
unfolding ends_with
unchained_problems suffix files entries =
    map (λ name. record { kind = unchained_snapshot name; seq = none })
      (filter
        (λ name.
          not (str_eq name chain_filename || any (λ entry. str_eq entry.filename name) entries))
        (sort_strings (filter (λ name. ends_with name suffix) (map (λ f. f.0) files))))

module _ (codec : Codec) where
  unfoldable pub entry_digest : ℕ → String → String → String → String → String
  entry_digest seq recorded_at filename digest prev =
      codec.sha256 (codec.payload seq recorded_at filename digest prev)

  -- A blank line is passed over; a malformed one is an error with its number.
  unfoldable pub read_lines : ℕ → List String → Result ChainError (List ChainEntry)
  read_lines number [] = ok []
  read_lines number (line ∷ lines) =
      let rest = read_lines (number + 1) lines in
      if codec.is_blank line then rest else elim (codec.loads line) [
        | none ↦ err (malformed_line number)
        | some entry ↦ do entries ← rest; ok (entry ∷ entries)
      ]

  unfoldable pub read_chain : Directory → Result ChainError (List ChainEntry)
  read_chain directory = elim directory.chain [
    | none ↦ ok []
    | some lines ↦ if directory.readable then read_lines 1 lines else err cannot_read_chain
  ]

  unfoldable pub new_entry : List ChainEntry → String → Bytes → String → ChainEntry
  unfolding entry_digest head_digest
  new_entry existing name content recorded_at =
      let seq = length existing + 1 in
      let digest = codec.sha256 content in
      let prev = head_digest existing in
      record {
        seq = seq;
        recorded_at = recorded_at;
        filename = name;
        digest = digest;
        prev = prev;
        digest_of_entry = entry_digest seq recorded_at name digest prev;
      }

  -- `content` is what `read_bytes` of the snapshot gives, `none` where it raises.
  unfoldable pub append_entry :
      Directory → String → Option Bytes → String → Result ChainError ChainEntry × Directory
  append_entry directory name none recorded_at = (err cannot_read_snapshot, directory)
  append_entry directory name (some content) recorded_at = elim (read_chain directory) [
    | err e ↦ (err e, directory)
    | ok existing ↦
        let entry = new_entry existing name content recorded_at in
        if directory.writable
        then (
          ok entry,
          record directory { chain = some (lines_of directory.chain ++ codec.dumps entry ∷ []) },
        )
        else (err cannot_append, directory)
  ]

  -- The last check of the loop's body: the snapshot file itself.
  unfoldable pub file_problems : List (String × Bytes) → ChainEntry → List ChainProblem
  file_problems files entry = elim (lookup entry.filename files) [
    | none ↦ record { kind = missing_snapshot entry.filename; seq = some entry.seq } ∷ []
    | some content ↦
        when (not (str_eq (codec.sha256 content) entry.digest)) (snapshot_altered entry.filename)
          entry.seq
  ]

  -- The loop of `verify_chain`, from an index and the digest that `prev` should have.
  unfoldable pub link_problems :
      List (String × Bytes) → ℕ → String → List ChainEntry → List ChainProblem
  unfolding entry_digest file_problems
  link_problems files index expected_prev [] = []
  link_problems files index expected_prev (entry ∷ entries) =
      when (not (entry.seq == index)) (sequence_gap index) entry.seq
      ++ (when (not (str_eq entry.prev expected_prev)) broken_link entry.seq
          ++ (when
                (not (
                  str_eq
                    (entry_digest entry.seq entry.recorded_at entry.filename entry.digest
                      entry.prev)
                    entry.digest_of_entry))
                entry_altered entry.seq
              ++ (file_problems files entry
                  ++ link_problems files (index + 1) entry.digest_of_entry entries)))

  unfoldable pub verify_chain : Directory → String → Result ChainError ChainVerification
  verify_chain directory suffix = do
    entries ← read_chain directory
    let problems =
        link_problems directory.files 1 genesis entries
        ++ unchained_problems suffix directory.files entries
    ok (record {
      is_ok = is_empty problems;
      checked = length entries;
      head = head_digest entries;
      problems = problems;
    })
