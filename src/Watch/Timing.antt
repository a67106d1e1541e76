-- ===== src/Watch/Timing.antt =====
-- When the loop of `watch` calls `on_change`: after a quiet period, and then surely.
use devrepro_doctor.Prelude.{
  ℕ, suc, ◌+◌, ◌≤◌, ◌≡◌, refl, sym, ap, ◌∙◌, subst, String, Bool, true, false, not, Option, none,
  some, List, [], ◌∷◌, ◌++◌, length, if◌then◌else◌, lookup, opt_eq, arith,
}
use devrepro_doctor.Watch.{
  Reading, Change, is_change, diff, Poll, State, add_pending, hand_over, poll_all, started,
  watch_state, watch,
}
use devrepro_doctor.Watch.Moves.{names, names-not, names_some, moves, names-diff}
use devrepro_doctor.Watch.Loop.{
  any-append, is_kept, names_pending, poll_once-cases, poll_all-snoc, baseline-poll_all,
  last_reading, is_handed_over, moves_in, is_kept-watch_state,
}

-- The clock at the last poll whose reading differs from the one before, if there is one from `before` on.
abbrev pub last_move : Option ℕ → Reading → List Poll → Option ℕ
last_move last before [] = last
last_move last before (poll ∷ polls) =
    let moved = last_move (some poll.clock) poll.current polls in
    let still = last_move last before polls in
    if is_change (diff before poll.current) then moved else still

-- Nothing waits when nothing has moved; else the loop settles a quiet period after the last movement.
abbrev pub IsTimed : ℕ → Option ℕ → State → Type 0
IsTimed quiet none st = st.pending ≡ none
IsTimed quiet (some t) st = st.settled_at ≡ t + quiet

-- Handing over keeps the timing.
IsTimed-hand_over :
    (quiet : ℕ) (last : Option ℕ) (st : State) (pending : Change)
    → IsTimed quiet last st
    → IsTimed quiet last (hand_over st pending)
IsTimed-hand_over quiet none st pending h = refl
IsTimed-hand_over quiet (some t) st pending h = h

module _ (moved still : Option ℕ) (quiet : ℕ) (end : State) where
  IsTimed-moved :
      (b : Bool)
      → b ≡ true
      → IsTimed quiet moved end
      → IsTimed quiet (if b then moved else still) end
  IsTimed-moved true e h = h
  IsTimed-moved false e h = cc

  IsTimed-still :
      (b : Bool)
      → b ≡ false
      → IsTimed quiet still end
      → IsTimed quiet (if b then moved else still) end
  IsTimed-still true e h = cc
  IsTimed-still false e h = h

IsTimed-poll_all :
    (quiet : ℕ) (last : Option ℕ) (st : State) (polls : List Poll)
    → IsTimed quiet last st
    → IsTimed quiet (last_move last st.baseline polls) (poll_all quiet st polls)
IsTimed-poll_all quiet last st [] h = h
IsTimed-poll_all quiet last st (poll ∷ polls) h =
    let change = diff st.baseline poll.current in
    let moved = last_move (some poll.clock) poll.current polls in
    let still = last_move last st.baseline polls in
    let after : State = record {
      baseline = poll.current;
      pending = some (add_pending st.pending change);
      settled_at = poll.clock + quiet;
      calls = st.calls;
    } in
    poll_once-cases
      (λ next.
        IsTimed quiet (if is_change change then moved else still) (poll_all quiet next polls))
      quiet st poll
      (λ e.
        IsTimed-moved moved still quiet (poll_all quiet after polls) (is_change change) e
          (IsTimed-poll_all quiet (some poll.clock) after polls refl))
      (λ e waits.
        IsTimed-still moved still quiet (poll_all quiet st polls) (is_change change) e
          (IsTimed-poll_all quiet last st polls h))
      (λ pending e waits t.
        IsTimed-still moved still quiet (poll_all quiet (hand_over st pending) polls)
          (is_change change) e
          (IsTimed-poll_all quiet last (hand_over st pending) polls
            (IsTimed-hand_over quiet last st pending h)))
      (λ pending e waits t.
        IsTimed-still moved still quiet (poll_all quiet st polls) (is_change change) e
          (IsTimed-poll_all quiet last st polls h))

IsTimed-waiting :
    (quiet : ℕ) (last : Option ℕ) (st : State) (pending : Change)
    → st.pending ≡ some pending
    → IsTimed quiet last st
    → (t : ℕ) × (last ≡ some t) × (st.settled_at ≡ t + quiet)
IsTimed-waiting quiet none st pending waits h = cc
IsTimed-waiting quiet (some t) st pending waits h = (t, refl, h)

-- The quiet period after the last movement is over.
abbrev pub IsOver : ℕ → Option ℕ → ℕ → Type 0
IsOver quiet none now = Unit
IsOver quiet (some t) now = t + quiet ≤ now

-- A turn in which nothing moves, after some polls.
module _ (quiet : ℕ) (first : Reading) (polls : List Poll) (poll : Poll) where
  abbrev before : State
  before = poll_all quiet (started first) polls

  moves_before :
      (path : String)
      → moves path before.baseline poll.current ≡ moves path (last_reading first polls) poll.current
  moves_before path =
      ap (λ o. not (opt_eq o (lookup path poll.current)))
        (baseline-poll_all path quiet (started first) first polls refl)

  -- `on_change` is called at a poll only if the files are then as at the poll before, some poll has seen a
  -- movement, and the clock is at least the quiet period past the last one.
  pub watch_settled :
      watch quiet first (polls ++ poll ∷ []) ≡ suc (watch quiet first polls)
      → ((path : String) → moves path (last_reading first polls) poll.current ≡ false)
        × ((t : ℕ) × (last_move none first polls ≡ some t) × (t + quiet ≤ poll.clock))
  unfolding watch watch_state
  watch_settled called =
      poll_once-cases
        (λ (after : State).
          length after.calls ≡ suc (length before.calls)
          → ((path : String) → moves path (last_reading first polls) poll.current ≡ false)
            × ((t : ℕ) × (last_move none first polls ≡ some t) × (t + quiet ≤ poll.clock)))
        quiet before poll (λ e more. absurd (omega arith)) (λ e waits more. absurd (omega arith))
        (λ pending e waits late more.
          let timed = IsTimed-poll_all quiet none (started first) polls refl in
          let (t, moved, settles) =
            IsTimed-waiting quiet (last_move none first polls) before pending waits timed in
          (
            λ path.
                sym (moves_before path)
                ∙ (sym (names-diff path before.baseline poll.current)
                    ∙ names-not path (diff before.baseline poll.current) e),
            (t, moved, ground arith),
          ))
        (λ pending e waits early more. absurd (omega arith))
        (sym (ap (λ (st : State). length st.calls) (poll_all-snoc quiet (started first) polls poll))
          ∙ called)

  -- Once nothing moves at a poll and its clock is at least the quiet period past the last movement, the
  -- paths that `on_change` has been called with are all that ever moved.
  pub watch_delivers :
      (path : String)
      → ((p : String) → moves p (last_reading first polls) poll.current ≡ false)
      → IsOver quiet (last_move none first polls) poll.clock
      → is_handed_over path (watch_state quiet first (polls ++ poll ∷ []))
        ≡ moves_in path first polls
  unfolding watch_state
  watch_delivers path still over =
      let timed = IsTimed-poll_all quiet none (started first) polls refl in
      let kept : is_kept path before ≡ moves_in path first polls =
        is_kept-watch_state path quiet first polls in
      ap (is_handed_over path) (poll_all-snoc quiet (started first) polls poll)
      ∙ poll_once-cases (λ (after : State). is_handed_over path after ≡ is_kept path before) quiet
          before poll
          (λ e.
            let (p, named) = names_some (diff before.baseline poll.current) e in
            absurd (cc (named, names-diff p before.baseline poll.current, moves_before p, still p)))
          (λ e waits. ground (arith, ap (names_pending path) waits))
          (λ pending e waits late. ground (
            arith,
            ap (names_pending path) waits,
            any-append (names path) before.calls (pending ∷ []),
          ))
          (λ pending e waits early.
            let (t, moved, settles) =
              IsTimed-waiting quiet (last_move none first polls) before pending waits timed in
            let late : t + quiet ≤ poll.clock =
              subst (λ last. IsOver quiet last poll.clock) moved over in
            absurd (ground arith))
      ∙ kept
