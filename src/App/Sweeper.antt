-- ===== src/App/Sweeper.antt =====
-- packages/app/src/sweeper.ts: the mark that `sweepOne` sets on an advance whose reclaim is on its way.
use arkade_taxi.Prelude.{
  Bool, not, ◌&&◌, Option, none, some, Text, Result, ok, ◌>>=◌, if◌then◌else◌, is_some,
}
use arkade_taxi.Core.Types.{recovering, state_eq}
use arkade_taxi.Core.Submission.{submitted}
use arkade_taxi.Database.Advances.{StoredAdvance}
use arkade_taxi.Database.Advances.Store.{Store, AdvanceFailure, get}
use arkade_taxi.Database.Advances.Lockup.{update}

-- `{ ...recorded, recoveryPhase: "submitted" }`
abbrev pub marked : StoredAdvance → StoredAdvance
marked s = record s {
  progress = record s.progress {
    recovery = record s.progress.recovery { recovery_phase = some submitted };
  };
}

abbrev pub needs_mark : StoredAdvance → Bool
needs_mark s = state_eq s.core.state recovering && not (is_some s.progress.recovery.recovery_phase)

unfoldable pub mark_found : Option StoredAdvance → Store → Result AdvanceFailure Store
mark_found none db = ok db
mark_found (some s) db = if needs_mark s then update (marked s) db else ok db

-- The advance is read, and written back at once.
unfoldable pub mark_submitted : Text → Store → Result AdvanceFailure Store
mark_submitted id db = do found ← get db id; mark_found found db
