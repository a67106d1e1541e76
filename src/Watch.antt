-- ===== src/Watch.antt =====
-- watch.py: what moved between two polls of the contract's files, and the loop that waits until they sit
-- still. A poll is what the loop reads then: the digests of the files and the clock, in whole ticks; so the
-- list of the polls stands for `max_polls`, `clock`, `sleeper` and the file system. `on_change` is recorded
-- as the list of the changes that it was called with.
pub mod Moves
pub mod Loop
pub mod Timing
pub mod Walk
pub mod Reach
mod Samples
use devrepro_doctor.Prelude.{
  ℕ, ◌+◌, String, Bool, true, false, not, ◌&&◌, ◌||◌, Option, none, some, List, [], ◌∷◌, ◌++◌, map,
  filter, length, leb, str_eq, opt_eq, if◌then◌else◌, lookup, contains, distinct, sort_strings,
}

-- A digest for each watched file, by its path.
abbrev pub Reading : Type 0
Reading = List (String × String)

-- `out[path] = digest`.
abbrev pub put : String → String → Reading → Reading
put path digest [] = (path, digest) ∷ []
put path digest ((p, d) ∷ rest) =
    let after = put path digest rest in if str_eq p path then (p, digest) ∷ rest else (p, d) ∷ after

-- The loop of `fingerprint`, with the digest of a file's bytes, where they can be read.
abbrev pub fingerprint_loop : (String → Option String) → Reading → List String → Reading
fingerprint_loop digest out [] = out
fingerprint_loop digest out (path ∷ paths) = elim (digest path) [
  | none ↦ fingerprint_loop digest out paths
  | some d ↦ fingerprint_loop digest (put path d out) paths
]

unfoldable pub fingerprint : (String → Option String) → List String → Reading
fingerprint digest paths = fingerprint_loop digest [] paths

pub record Change : Type 0 where
  pub added : List String
  pub removed : List String
  pub modified : List String

-- `bool(change)`
abbrev pub is_empty : List String → Bool
is_empty [] = true
is_empty (x ∷ xs) = false

abbrev pub is_change : Change → Bool
is_change c = not (is_empty c.added) || (not (is_empty c.removed) || not (is_empty c.modified))

abbrev pub paths_of : Reading → List String
paths_of reading = map (λ (entry : String × String). entry.0) reading

-- `tuple(sorted(...))` of a set.
unfoldable pub sorted_set : List String → List String
unfolding sort_strings distinct
sorted_set xs = sort_strings (distinct str_eq xs)

unfoldable pub diff : Reading → Reading → Change
unfolding sorted_set
diff before after =
    let old = paths_of before in
    let new = paths_of after in
    record {
      added = sorted_set (filter (λ path. not (contains path old)) new);
      removed = sorted_set (filter (λ path. not (contains path new)) old);
      modified = sorted_set (
          filter
            (λ path. contains path new && not (opt_eq (lookup path before) (lookup path after)))
            old);
    }

unfoldable pub merge : Change → Change → Change
unfolding sorted_set
merge first second = record {
  added = sorted_set (first.added ++ second.added);
  removed = sorted_set (first.removed ++ second.removed);
  modified = sorted_set (first.modified ++ second.modified);
}

-- What a turn of the loop reads.
pub record Poll : Type 0 where
  pub current : Reading
  pub clock : ℕ

-- The variables of the loop, and the calls of `on_change`.
pub record State : Type 0 where
  pub baseline : Reading
  pub pending : Option Change
  pub settled_at : ℕ
  pub calls : List Change

abbrev pub add_pending : Option Change → Change → Change
add_pending none change = change
add_pending (some pending) change = merge pending change

-- The waiting change is handed over.
abbrev pub hand_over : State → Change → State
hand_over st pending = record {
  baseline = st.baseline;
  pending = none;
  settled_at = st.settled_at;
  calls = st.calls ++ pending ∷ [];
}

-- The `elif` of the loop: a turn that sees no movement, by what waits.
unfoldable pub settle : State → Option Change → ℕ → State
settle st none now = st
settle st (some pending) now = if leb st.settled_at now then hand_over st pending else st

-- One turn of the loop.
unfoldable pub poll_once : ℕ → State → Poll → State
unfolding diff settle
poll_once quiet_period st poll =
    let change = diff st.baseline poll.current in
    if is_change change
    then record {
      baseline = poll.current;
      pending = some (add_pending st.pending change);
      settled_at = poll.clock + quiet_period;
      calls = st.calls;
    }
    else settle st st.pending poll.clock

abbrev pub poll_all : ℕ → State → List Poll → State
poll_all quiet_period st [] = st
poll_all quiet_period st (poll ∷ polls) =
    poll_all quiet_period (poll_once quiet_period st poll) polls

abbrev pub started : Reading → State
started first = record { baseline = first; pending = none; settled_at = 0; calls = [] }

unfoldable pub watch_state : ℕ → Reading → List Poll → State
unfolding poll_once
watch_state quiet_period first polls = poll_all quiet_period (started first) polls

-- `watch` returns how often it called `on_change`.
unfoldable pub watch : ℕ → Reading → List Poll → ℕ
unfolding watch_state
watch quiet_period first polls = let st = watch_state quiet_period first polls in length st.calls
