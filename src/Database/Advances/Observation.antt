-- ===== src/Database/Advances/Observation.antt =====
-- packages/db/src/advances.ts: what a watcher of the chain records of an advance's spend.
use arkade_taxi.Prelude.{
  ℕ, Bool, false, not, ◌&&◌, ◌||◌, Option, none, some, Text, Result, ok, err, ◌>>=◌, ◌>>◌, throw_if,
  if◌then◌else◌, leb, filter, text_eq, is_some,
}
use arkade_taxi.Prelude.Int.{pos, Number, int}
use arkade_taxi.Core.Types.{
  AdvanceState, locking, locked, recovering, recycled, purchased, refunded, recovered, state_eq,
}
use arkade_taxi.Core.Ledger.{is_txid}
use arkade_taxi.Database.Rows.{CustodyFailure, Tables}
use arkade_taxi.Database.Custody.{open_custody_row}
use arkade_taxi.Database.Advances.{StoredAdvance, AdvanceRow}
use arkade_taxi.Database.Advances.Store.{
  ReservationRow, Store, AdvanceFailure, custody_refused, invalid_hash, invalid_clock,
  observation_lost, has_row_id, in_state, is_value, touched, get, changes_one, update_advances,
  pause,
}
use arkade_taxi.Database.Advances.Submission.{with_failure}
use arkade_taxi.Database.Advances.Recovery.{or_missing, recovery_unleased}
use arkade_taxi.Database.Advances.Lockup.{seen_at}
use arkade_taxi.Database.Advances.Messages.{
  spend_unknown, covenant_unrolled, disagreement_code, watcher_actor, Tip, conflict_detail,
  candidate_detail, reason_detail,
}

-- The states that a watcher expects, and those that a spend ends in.
pub data LiveState : Type 0 where
  live_locking live_locked live_recovering : LiveState

abbrev pub live_state : LiveState → AdvanceState
live_state live_locking = locking
live_state live_locked = locked
live_state live_recovering = recovering

pub data Outcome : Type 0 where
  by_recycle by_purchase by_refund by_recovery : Outcome

abbrev pub outcome_state : Outcome → AdvanceState
outcome_state by_recycle = recycled
outcome_state by_purchase = purchased
outcome_state by_refund = refunded
outcome_state by_recovery = recovered

abbrev pub is_outcome : AdvanceState → Bool
is_outcome s =
    state_eq s recycled || state_eq s purchased || state_eq s refunded || state_eq s recovered

abbrev pub is_live_state : AdvanceState → Bool
is_live_state s = state_eq s locking || state_eq s locked || state_eq s recovering

pub data SpendResult : Type 0 where
  recorded duplicate retry disagreement : SpendResult

-- `Number.isSafeInteger(value) && value >= 0`, and the value
abbrev pub safe : Number → Result AdvanceFailure ℕ
safe (int (pos n)) = if leb n 9_007_199_254_740_991 then ok n else err invalid_clock
safe _ = err invalid_clock

-- The columns of the stable tip.
abbrev pub unstable : AdvanceRow → AdvanceRow
unstable r = record r {
  observation = record r.observation {
    observation_stable_tip_hash = none;
    observation_stable_tip_height = none;
    observation_stable_count = 0;
  };
}

abbrev pub tipped : Text → ℕ → AdvanceRow → AdvanceRow
tipped hash height r = record r {
  observation = record r.observation {
    observation_tip_hash = some hash;
    observation_tip_height = some height;
  };
}

unfoldable pub disputed : Text → ℕ → AdvanceRow → AdvanceRow
unfolding touched
disputed detail at r = touched at (with_failure (some disagreement_code) (some detail) (unstable r))

unfoldable pub mark_observation_disagreement : Text → Text → ℕ → ℕ → Store → Store
mark_observation_disagreement id detail at wall_clock db =
    pause watcher_actor wall_clock (update_advances (has_row_id id) (disputed detail at) db)

-- `WHERE` and `SET` of a spend that is recorded.
unfoldable pub is_unspent_in : Text → AdvanceState → AdvanceRow → Bool
is_unspent_in id s r = has_row_id id r && in_state s r && not (is_some r.spent_txid)

unfoldable pub spent_as : Outcome → Text → ℕ → Text → ℕ → AdvanceRow → AdvanceRow
unfolding touched
spent_as outcome txid at hash height r = touched at (
    with_failure none none (
      recovery_unleased (
        unstable (
          tipped hash height (
            seen_at at (record r {
              state = outcome_state outcome;
              spent_txid = some txid;
              recovery = record r.recovery { recovery_next_attempt_at = none };
            }))))))

abbrev pub compatible_drift : LiveState → AdvanceState → Bool
compatible_drift live_locking current = state_eq current locked || state_eq current recovering
compatible_drift live_locked current = state_eq current recovering
compatible_drift live_recovering current = false

abbrev pub or_custody : Result CustodyFailure Tables → Result AdvanceFailure Tables
or_custody (ok ledger) = ok ledger
or_custody (err thrown) = err (custody_refused thrown)

-- The liability that a reclaim leaves, opened in the transaction that records it.
unfoldable pub open_liability :
    Outcome → StoredAdvance → Number → Option Number → Tables → Result AdvanceFailure Tables
open_liability by_recovery current at window ledger =
    or_custody (open_custody_row ledger current.core at window)
open_liability _ current at window ledger = ok ledger

abbrev pub is_for_other : Text → ReservationRow → Bool
is_for_other id q = not (text_eq q.advance_id id)

-- The transaction from its update on. `window` is the custody window that the repository is given.
unfoldable pub settle :
    Text
    → LiveState
    → Outcome
    → Text
    → Number
    → ℕ
    → Text
    → ℕ
    → Option Number
    → StoredAdvance
    → Store
    → Result AdvanceFailure (SpendResult × Store)
settle id expected outcome txid at clock hash height window current db = do
  throw_if (not (changes_one (is_unspent_in id (live_state expected)) db)) observation_lost
  ledger ← open_liability outcome current at window db.ledger
  ok (
    recorded,
    record (update_advances (is_unspent_in id (live_state expected))
        (spent_as outcome txid clock hash height) db) {
          ledger = ledger;
          operator_inputs = filter (is_for_other id) db.operator_inputs;
        },
  )

unfoldable pub spend_current :
    Text
    → LiveState
    → Outcome
    → Text
    → Number
    → ℕ
    → Text
    → ℕ
    → Option Number
    → ℕ
    → StoredAdvance
    → Store
    → Result AdvanceFailure (SpendResult × Store)
spend_current id expected outcome txid at clock hash height window wall_clock current db =
    let state = current.core.state in
    if state_eq state (outcome_state outcome) && is_value current.core.spent_txid txid
    then ok (duplicate, db)
    else if not (state_eq state (live_state expected)) && compatible_drift expected state
    then ok (retry, db)
    else if is_outcome state || not (state_eq state (live_state expected))
    then ok (
      disagreement,
      mark_observation_disagreement id
          (conflict_detail txid (outcome_state outcome) hash height current.core.spent_txid state)
          clock wall_clock db,
    )
    else settle id expected outcome txid at clock hash height window current db

unfoldable pub record_spend_observation :
    Text
    → LiveState
    → Outcome
    → Text
    → Number
    → Text
    → Number
    → Option Number
    → ℕ
    → Store
    → Result AdvanceFailure (SpendResult × Store)
record_spend_observation id expected outcome txid at hash tip_height window wall_clock db = do
  throw_if (not (is_txid txid) || not (is_txid hash)) invalid_hash
  clock ← safe at
  height ← safe tip_height
  found ← get db id
  current ← or_missing found
  spend_current id expected outcome txid at clock hash height window wall_clock current db

unfoldable pub is_unknown_in : Text → AdvanceState → AdvanceRow → Bool
is_unknown_in id s r =
    has_row_id id r && in_state s r && is_value r.observation.failure_code spend_unknown

unfoldable pub known_again : ℕ → AdvanceRow → AdvanceRow
unfolding touched
known_again at r = touched at (with_failure none none (unstable r))

unfoldable pub clear_spend_unknown : Text → AdvanceState → ℕ → Store → Store
clear_spend_unknown id expected at = update_advances (is_unknown_in id expected) (known_again at)

abbrev pub is_row_in : Text → AdvanceState → AdvanceRow → Bool
is_row_in id s r = has_row_id id r && in_state s r

unfoldable pub questioned : Text → Text → ℕ → AdvanceRow → AdvanceRow
unfolding touched
questioned code detail at r = touched at (with_failure (some code) (some detail) (unstable r))

unfoldable pub record_spend_unknown :
    Text → Option Text → Text → ℕ → Tip → ℕ → Store → Result AdvanceFailure Store
record_spend_unknown id txid reason at tip wall_clock db = do
  found ← get db id
  current ← or_missing found
  let state = current.core.state in
      ok (
        if not (is_live_state state)
        then db
        else pause watcher_actor wall_clock (
            update_advances (is_row_in id state)
              (questioned spend_unknown (candidate_detail txid tip reason) at) db))

unfoldable pub record_covenant_unrolled :
    Text → Text → ℕ → Tip → Store → Result AdvanceFailure Store
record_covenant_unrolled id reason at tip db = do
  found ← get db id
  current ← or_missing found
  let state = current.core.state in
      ok (
        if not (is_live_state state)
        then db
        else update_advances (is_row_in id state)
            (questioned covenant_unrolled (reason_detail reason tip) at) db)

unfoldable pub record_spend_disagreement :
    Text → Text → ℕ → Tip → ℕ → Store → Result AdvanceFailure Store
record_spend_disagreement id reason at tip wall_clock db = do
  found ← get db id
  current ← or_missing found
  ok (mark_observation_disagreement id (reason_detail reason tip) at wall_clock db)
