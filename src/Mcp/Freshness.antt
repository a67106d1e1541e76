-- ===== src/Mcp/Freshness.antt =====
-- How old the reports are that the cache gives, and of which root they are.
use devrepro_doctor.Prelude.{
  ℕ, ◌+◌, ◌<◌, ◌≡◌, refl, sym, ◌∙◌, Bool, true, false, Option, none, some, List, [], ◌∷◌, ltb,
  if◌then◌else◌, All, arith, Option-cases, inl, inr, if_cases,
}
use devrepro_doctor.Mcp.{ReportCache, empty_cache, fresh_report, get_report}

-- A call of the cache: when, for which root, and whether it asks for a scan.
pub record Call (Root : Type 0) : Type 0 where
  pub now : ℕ
  pub root : Root
  pub refresh : Bool

module _ {Root Report : Type 0} (scanner : Root → ℕ → Report) (cache_seconds : ℕ) where
  abbrev pub get_all : ReportCache Report → List (Call Root) → List (Call Root × (Report × Bool))
  get_all cache [] = []
  get_all cache (call ∷ calls) =
      let done = get_report scanner cache_seconds call.now call.root call.refresh cache in
      (call, done.0) ∷ get_all done.1 calls

  -- What the cache holds is the scan of some root at the time that it holds.
  abbrev IsScanned : Option Report → Option ℕ → Type 0
  IsScanned (some report) (some t) = (r : Root) × (report ≡ scanner r t)
  IsScanned _ _ = Unit

  -- An answer that is fresh is the scan of the root that was asked for, at the time of the call; one that is not was
  -- not asked to be, and is the scan of some root less than the limit ago.
  abbrev pub IsAnswer : Call Root × (Report × Bool) → Type 0
  IsAnswer (call, (report, true)) = report ≡ scanner call.root call.now
  IsAnswer (call, (report, false)) =
      (call.refresh ≡ false)
      × ((r : Root) × (t : ℕ) × (report ≡ scanner r t) × (call.now < t + cache_seconds))

  picked :
      (b : Bool) (held report : Report)
      → (if b then some held else none) ≡ some report
      → (b ≡ true) × (held ≡ report)
  picked true held report e = (refl, cc e)
  picked false held report e = cc e

  fresh_report-IsScanned :
      (now : ℕ) (held : Option Report) (taken_at : Option ℕ) (report : Report)
      → IsScanned held taken_at
      → fresh_report cache_seconds now held taken_at ≡ some report
      → (r : Root) × (t : ℕ) × (report ≡ scanner r t) × (now < t + cache_seconds)
  fresh_report-IsScanned now none taken_at report scanned e = cc
  fresh_report-IsScanned now (some held) none report scanned e = cc
  fresh_report-IsScanned now (some held) (some t) report (r, is_scan) e =
      let (early, same) = picked (ltb now (t + cache_seconds)) held report e in
      (r, t, sym same ∙ is_scan, ground arith)

  -- Both after a turn: the answer, and what the cache holds then.
  abbrev IsTurn : Call Root → (Report × Bool) × ReportCache Report → Type 0
  IsTurn call (given, cache) = IsAnswer (call, given) × IsScanned cache.report cache.taken_at

  get_report-IsTurn :
      (call : Call Root) (cache : ReportCache Report)
      → IsScanned cache.report cache.taken_at
      → IsTurn call (get_report scanner cache_seconds call.now call.root call.refresh cache)
  unfolding get_report
  get_report-IsTurn call cache scanned =
      if_cases (IsTurn call) call.refresh (λ e. (refl, (call.root, refl)))
        (λ e.
          elim (Option-cases (fresh_report cache_seconds call.now cache.report cache.taken_at)) [
            | inl empty ↦ rw empty (refl, (call.root, refl))
            | inr (report, held) ↦ rw held (
              (e, fresh_report-IsScanned call.now cache.report cache.taken_at report scanned held),
              scanned,
            )
          ])

  get_all-IsScanned :
      (cache : ReportCache Report) (calls : List (Call Root))
      → IsScanned cache.report cache.taken_at
      → All IsAnswer (get_all cache calls)
  get_all-IsScanned cache [] scanned = tt
  get_all-IsScanned cache (call ∷ calls) scanned =
      let turn = get_report-IsTurn call cache scanned in
      let done = get_report scanner cache_seconds call.now call.root call.refresh cache in
      (turn.0, get_all-IsScanned done.1 calls turn.1)

  -- In any sequence of calls of the cache, from an empty one on, each that gives a fresh report gives the scan, made
  -- then, of the root that it asks for; each other did not ask for a scan, and gives one, of some root, that is younger
  -- than `cache_seconds`.
  pub get_all-IsAnswer : (calls : List (Call Root)) → All IsAnswer (get_all empty_cache calls)
  get_all-IsAnswer calls = get_all-IsScanned empty_cache calls tt

  -- The cache does not look at the root: a call for one root within `cache_seconds` of a scan of another, without
  -- `refresh`, is answered with the scan of the other.
  pub get_report-crosses :
      (cache : ReportCache Report) (scanned_at now : ℕ) (scanned asked : Root)
      → now < scanned_at + cache_seconds
      → let first = get_report scanner cache_seconds scanned_at scanned true cache in
        let second = get_report scanner cache_seconds now asked false first.1 in
        second.0 ≡ (scanner scanned scanned_at, false)
  unfolding get_report
  get_report-crosses cache scanned_at now scanned asked early =
      let fresh : ltb now (scanned_at + cache_seconds) ≡ true = ground arith in rw fresh refl
