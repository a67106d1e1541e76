-- ===== src/Watch/Loop.antt =====
-- What the loop of `watch` owes its caller: every movement is handed over, once it has settled.
use devrepro_doctor.Prelude.{
  ℕ, ◌+◌, ◌≡◌, refl, sym, ap, subst, String, Bool, true, false, not, ◌||◌, Option, none, some, List,
  [], ◌∷◌, ◌++◌, any, leb, lookup, opt_eq, opt_eq_iff, inl, inr, Bool-cases, Option-cases, arith,
  if_cases,
}
use devrepro_doctor.Watch.{
  Reading, Change, is_change, diff, Poll, State, add_pending, hand_over, settle, poll_once,
  poll_all, started, watch_state,
}
use devrepro_doctor.Watch.Moves.{names, moves, names-diff, names-merge, names-not}

-- The path is named in a call of `on_change`.
abbrev pub is_handed_over : String → State → Bool
is_handed_over path st = any (names path) st.calls

abbrev pub names_pending : String → Option Change → Bool
names_pending path none = false
names_pending path (some change) = names path change

-- The path is named in a call of `on_change`, or waits for the next one.
abbrev pub is_kept : String → State → Bool
is_kept path st = is_handed_over path st || names_pending path st.pending

-- The path moves between two of the readings that follow each other.
abbrev pub moves_in : String → Reading → List Poll → Bool
moves_in path before [] = false
moves_in path before (poll ∷ polls) =
    moves path before poll.current || moves_in path poll.current polls

pub any-append :
    (p : Change → Bool) (xs ys : List Change) → any p (xs ++ ys) ≡ (any p xs || any p ys)
any-append p [] ys = refl
any-append p (x ∷ xs) ys = ground (arith, any-append p xs ys)

names_pending-add :
    (path : String) (pending : Option Change) (change : Change)
    → names path (add_pending pending change) ≡ (names_pending path pending || names path change)
names_pending-add path none change = refl
names_pending-add path (some p) change = names-merge path p change

-- A turn that sees a movement.
poll_once-moved :
    (quiet : ℕ) (st : State) (poll : Poll)
    → is_change (diff st.baseline poll.current) ≡ true
    → poll_once quiet st poll ≡ record {
      baseline = poll.current;
      pending = some (add_pending st.pending (diff st.baseline poll.current));
      settled_at = poll.clock + quiet;
      calls = st.calls;
    }
unfolding poll_once
poll_once-moved quiet st poll h = rw (h, poll_once) refl

-- A turn that sees none.
poll_once-still :
    (quiet : ℕ) (st : State) (poll : Poll)
    → is_change (diff st.baseline poll.current) ≡ false
    → poll_once quiet st poll ≡ settle st st.pending poll.clock
unfolding poll_once
poll_once-still quiet st poll h = rw (h, poll_once) refl

-- What holds after a turn holds after each of its four outcomes.
module _ (P : State → Type 0) (quiet : ℕ) (st : State) (poll : Poll) where
  pub poll_once-cases :
      (is_change (diff st.baseline poll.current) ≡ true
        → P (record {
          baseline = poll.current;
          pending = some (add_pending st.pending (diff st.baseline poll.current));
          settled_at = poll.clock + quiet;
          calls = st.calls;
        }))
      → (is_change (diff st.baseline poll.current) ≡ false → st.pending ≡ none → P st)
      → ((pending : Change)
          → is_change (diff st.baseline poll.current) ≡ false
          → st.pending ≡ some pending
          → leb st.settled_at poll.clock ≡ true
          → P (hand_over st pending))
      → ((pending : Change)
          → is_change (diff st.baseline poll.current) ≡ false
          → st.pending ≡ some pending
          → leb st.settled_at poll.clock ≡ false
          → P st)
      → P (poll_once quiet st poll)
  unfolding settle
  poll_once-cases moved idle settled early =
      elim (Bool-cases (is_change (diff st.baseline poll.current))) [
        | inl e ↦ subst P (sym (poll_once-moved quiet st poll e)) (moved e)
        | inr e ↦ subst P (sym (poll_once-still quiet st poll e)) (elim (Option-cases st.pending) [
          | inl none_left ↦
              subst (λ o. P (settle st o poll.clock)) (sym none_left) (idle e none_left)
          | inr (pending, waits) ↦
              subst (λ o. P (settle st o poll.clock)) (sym waits)
                (if_cases P (leb st.settled_at poll.clock) (settled pending e waits)
                  (early pending e waits))
        ])
      ]

-- A turn keeps what is named, and adds what moves.
is_kept-poll_once :
    (path : String) (quiet : ℕ) (st : State) (poll : Poll)
    → is_kept path (poll_once quiet st poll)
      ≡ (is_kept path st || moves path st.baseline poll.current)
is_kept-poll_once path quiet st poll =
    let change = diff st.baseline poll.current in
    poll_once-cases
      (λ after. is_kept path after ≡ (is_kept path st || moves path st.baseline poll.current)) quiet
      st poll
      (λ e.
        ground (
          arith,
          names_pending-add path st.pending change,
          names-diff path st.baseline poll.current,
        ))
      (λ e waits. ground (arith, names-not path change e, names-diff path st.baseline poll.current))
      (λ pending e waits t. ground (
        arith,
        names-not path change e,
        names-diff path st.baseline poll.current,
        ap (names_pending path) waits,
        any-append (names path) st.calls (pending ∷ []),
      ))
      (λ pending e waits t.
        ground (arith, names-not path change e, names-diff path st.baseline poll.current))

-- A turn's baseline agrees with its reading.
baseline-poll_once :
    (path : String) (quiet : ℕ) (st : State) (poll : Poll)
    → let after = poll_once quiet st poll in lookup path after.baseline ≡ lookup path poll.current
baseline-poll_once path quiet st poll =
    let change = diff st.baseline poll.current in
    let still : is_change change ≡ false → lookup path st.baseline ≡ lookup path poll.current = λ e.
      (opt_eq_iff (lookup path st.baseline) (lookup path poll.current)).0
        (ground (arith, names-not path change e, names-diff path st.baseline poll.current)) in
    poll_once-cases (λ (after : State). lookup path after.baseline ≡ lookup path poll.current) quiet
      st poll (λ e. refl) (λ e waits. still e) (λ pending e waits t. still e)
      (λ pending e waits t. still e)

is_kept-poll_all :
    (path : String) (quiet : ℕ) (st : State) (before : Reading) (polls : List Poll)
    → lookup path st.baseline ≡ lookup path before
    → is_kept path (poll_all quiet st polls) ≡ (is_kept path st || moves_in path before polls)
is_kept-poll_all path quiet st before [] same = ground arith
is_kept-poll_all path quiet st before (poll ∷ polls) same =
    let after = poll_once quiet st poll in
    let here : moves path st.baseline poll.current ≡ moves path before poll.current =
      ap (λ o. not (opt_eq o (lookup path poll.current))) same in
    ground (
      arith,
      is_kept-poll_once path quiet st poll,
      here,
      is_kept-poll_all path quiet after poll.current polls (baseline-poll_once path quiet st poll),
    )

-- A path is named in a call of `on_change`, or in the change that waits for the next call, just when its
-- digest differs between two readings that follow each other: no movement is lost and none is made up,
-- whatever the clock shows.
pub is_kept-watch_state :
    (path : String) (quiet : ℕ) (first : Reading) (polls : List Poll)
    → is_kept path (watch_state quiet first polls) ≡ moves_in path first polls
unfolding watch_state
is_kept-watch_state path quiet first polls =
    is_kept-poll_all path quiet (started first) first polls refl

-- The reading of the last poll.
abbrev pub last_reading : Reading → List Poll → Reading
last_reading first [] = first
last_reading first (poll ∷ polls) = last_reading poll.current polls

pub baseline-poll_all :
    (path : String) (quiet : ℕ) (st : State) (before : Reading) (polls : List Poll)
    → lookup path st.baseline ≡ lookup path before
    → let end = poll_all quiet st polls in
      lookup path end.baseline ≡ lookup path (last_reading before polls)
baseline-poll_all path quiet st before [] same = same
baseline-poll_all path quiet st before (poll ∷ polls) same =
    baseline-poll_all path quiet (poll_once quiet st poll) poll.current polls
      (baseline-poll_once path quiet st poll)

-- One more poll is one more turn.
pub poll_all-snoc :
    (quiet : ℕ) (st : State) (polls : List Poll) (poll : Poll)
    → poll_all quiet st (polls ++ poll ∷ []) ≡ poll_once quiet (poll_all quiet st polls) poll
poll_all-snoc quiet st [] poll = refl
poll_all-snoc quiet st (p ∷ polls) poll = poll_all-snoc quiet (poll_once quiet st p) polls poll
