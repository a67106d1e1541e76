-- ===== src/Watch/Samples.antt =====
-- A lock file that is rewritten twice in one burst, a manifest that appears, and the quiet after it.
use devrepro_doctor.Prelude.{
  ℕ, ◌+◌, ◌≤◌, ◌≡◌, refl, String, true, false, none, some, List, [], ◌∷◌, ◌++◌, arith, lookup,
  opt_eq_iff, contains,
}
use devrepro_doctor.Watch.{Reading, Poll, fingerprint, diff, watch, watch_state}
use devrepro_doctor.Versioning.{compare_lists}
use devrepro_doctor.Versioning.Text.{split_at}
use devrepro_doctor.Watch.Walk.{file, folder, Entries, end, entry, matches_contract, watched_paths}
use devrepro_doctor.Watch.Reach.{contains-watched_paths}
use devrepro_doctor.Watch.Moves.{moves}
use devrepro_doctor.Watch.Loop.{is_kept, is_handed_over, is_kept-watch_state}
use devrepro_doctor.Watch.Timing.{last_move, watch_settled, watch_delivers}

abbrev old : Reading
old = ("uv.lock", "a0") ∷ []

abbrev half : Reading
half = ("uv.lock", "a1") ∷ []

abbrev new : Reading
new = ("package.json", "c0") ∷ ("uv.lock", "a2") ∷ []

abbrev at : ℕ → Reading → Poll
at clock current = record { current = current; clock = clock }

-- The quiet period is 15 ticks.
abbrev burst : List Poll
burst = at 10 half ∷ at 20 new ∷ at 30 new ∷ []

abbrev after_burst : Poll
after_burst = at 40 new

fingerprints : fingerprint (λ path. some path) ("uv.lock" ∷ []) ≡ ("uv.lock", "uv.lock") ∷ []
unfolding fingerprint
fingerprints = refl

differs :
    diff old new ≡ record { added = "package.json" ∷ []; removed = []; modified = "uv.lock" ∷ [] }
unfolding diff
differs = refl

calls_once : (watch 15 old burst ≡ 0) × (watch 15 old (burst ++ after_burst ∷ []) ≡ 1)
unfolding watch
calls_once = (refl, refl)

is_kept-watch_state_example : is_kept "package.json" (watch_state 15 old burst) ≡ true
is_kept-watch_state_example = is_kept-watch_state "package.json" 15 old burst

watch_settled_example :
    ((path : String) → moves path new new ≡ false)
    × ((t : ℕ) × (last_move none old burst ≡ some t) × (t + 15 ≤ 40))
unfolding watch diff
watch_settled_example = watch_settled 15 old burst after_burst refl

unmoved : (path : String) → moves path new new ≡ false
unmoved path = ground (arith, (opt_eq_iff (lookup path new) (lookup path new)).1 refl)

watch_delivers_example :
    is_handed_over "uv.lock" (watch_state 15 old (burst ++ after_burst ∷ [])) ≡ true
unfolding diff
watch_delivers_example = watch_delivers 15 old burst after_burst "uv.lock" unmoved (omega arith)

-- A workspace with a lock file, a package, an installed package, and a package too deep.
abbrev web_files : Entries
web_files = entry (file "package.json") end

abbrev within : String → Entries → Entries
within name inside = entry (folder name inside) end

abbrev tree : Entries
tree = entry (file "uv.lock") (
    entry (file "main.py") (
      entry (folder "web" web_files) (
        entry (folder "node_modules" web_files)
          (within "a" (within "b" (within "c" (within "d" (within "e" web_files))))))))

finds : watched_paths tree ≡ "uv.lock" ∷ "web/package.json" ∷ []
unfolding watched_paths matches_contract split_at compare_lists
finds = refl

contains-watched_paths_example : contains "web/package.json" (watched_paths tree) ≡ true
unfolding matches_contract
contains-watched_paths_example = contains-watched_paths "web/package.json" tree
