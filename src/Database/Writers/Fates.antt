-- ===== src/Database/Writers/Fates.antt =====
-- packages/db, packages/app: the fate of an advance under any sequence of the calls that write to its table.
use arkade_taxi.Prelude.{
  ℕ, ◌≡◌, refl, true, false, some, List, [], ◌∷◌, Text, Result, ok, err, find,
}
use arkade_taxi.Core.Types.{quoted}
use arkade_taxi.Core.Ledger.{is_terminal}
use arkade_taxi.Database.Advances.{AdvanceRow}
use arkade_taxi.Database.Advances.Store.{Store, AdvanceFailure, has_row_id, in_state}
use arkade_taxi.Database.Advances.Commands.{stored}
use arkade_taxi.Database.Advances.Moves.{still, agreement, signed_lockup, is_unsigned}
use arkade_taxi.Database.Advances.Tables.{Moved, unmoved}
use arkade_taxi.Database.Advances.History.{RowAfter, after_move}
use arkade_taxi.Database.Advances.Fates.{
  RowRun, rests, runs, execute-row, RowRun-agreement, RowRun-final, RowRun-signed,
}
use arkade_taxi.Database.Reservations.{Desk, expire_receive_quotes}
use arkade_taxi.Database.Reservations.Reserving.{ReserveError, reserve_quote}
use arkade_taxi.Database.Reservations.Locking.{
  ClaimAnswer, ClaimFailure, claim_lockup, release_for_advance,
}
use arkade_taxi.Database.Reservations.Claims.{aged}
use arkade_taxi.Database.Fills.{lock_liability, cancel_liability}
use arkade_taxi.App.Sweeper.{mark_submitted}
use arkade_taxi.Database.Writers.{
  Write, advances, marks, reserves, claims, expires, expires_receive_quotes, releases,
  records_conflict, locks_liability, cancels_liability, or_same, answered_by, perform, perform_all,
}
use arkade_taxi.Database.Writers.Moved.{
  Holds, holds, or_same-Holds, MovesFrom, aged-Moved, claim_lockup-Holds, release-Holds,
  conflict-Moved, lock_liability-Holds, cancel_liability-Holds, reserve-find,
}
use arkade_taxi.Database.Writers.Marked.{mark_submitted-row}

-- The row of an id after some calls: it is still there, and has moved step by step.
abbrev pub RunAfter : Desk → Text → AdvanceRow → Type 0
RunAfter after id r =
    (r' : AdvanceRow) × (find (has_row_id id) after.store.advances ≡ some r') × RowRun r r'

one_step :
    (after : Desk) (id : Text) {r : AdvanceRow} → RowAfter after.store id r → RunAfter after id r
one_step after id (r', found, m) = (r', found, runs m rests)

Moved-run :
    (before after : Desk) (id : Text) {r : AdvanceRow}
    → Moved before.store after.store
    → find (has_row_id id) before.store.advances ≡ some r
    → RunAfter after id r
Moved-run before after id m found =
    one_step after id (after_move before.store after.store id m found)

marks-row :
    (db : Store) (call : Result AdvanceFailure Store) (id : Text) {r : AdvanceRow}
    → ((after : Store) → call ≡ ok after → RowAfter after id r)
    → find (has_row_id id) db.advances ≡ some r
    → RowAfter (stored db call) id r
marks-row db (ok after) id step found = step after refl
marks-row db (err thrown) id {r} step found = (r, found, still r)

reserves-row :
    (desk : Desk) (call : Result ReserveError Desk) (id : Text) {r : AdvanceRow}
    → ((after : Desk) → call ≡ ok after → find (has_row_id id) after.store.advances ≡ some r)
    → find (has_row_id id) desk.store.advances ≡ some r
    → RunAfter (or_same desk call) id r
reserves-row desk (ok after) id {r} step found = (r, step after refl, rests)
reserves-row desk (err thrown) id {r} step found = (r, found, rests)

claims-row :
    (at : ℕ) (desk : Desk) (call : Result ClaimFailure (ClaimAnswer × Desk)) (id : Text)
    {r : AdvanceRow}
    → Holds (MovesFrom (aged at desk)) call
    → find (has_row_id id) desk.store.advances ≡ some r
    → RunAfter (answered_by desk call) id r
claims-row at desk (err thrown) id {r} h found = (r, found, rests)
claims-row at desk (ok answer) id (holds m) found =
    let (q, expired_row, first) =
      after_move desk.store (aged at desk).store id
        (unfold expire_receive_quotes in aged-Moved at (expire_receive_quotes at desk)) found in
    let (r', found', second) = after_move (aged at desk).store answer.1.store id m expired_row in
    (r', found', runs first (runs second rests))

perform-row :
    (w : Write) (desk : Desk) (id : Text) {r : AdvanceRow}
    → find (has_row_id id) desk.store.advances ≡ some r
    → RunAfter (perform w desk) id r
unfolding perform
perform-row (advances c) desk id found =
    one_step (perform (advances c) desk) id (execute-row c desk.store id found)
perform-row (marks k) desk id found = one_step (perform (marks k) desk) id (
    marks-row desk.store (mark_submitted k desk.store) id
      (λ after e. mark_submitted-row k desk.store after id e found) found)
perform-row (reserves request) desk id {r} found =
    reserves-row desk (reserve_quote request desk) id
      (λ after e. reserve-find request desk after id r e found) found
perform-row (claims k lockup_id digest envelope at) desk id found =
    claims-row at desk (claim_lockup k lockup_id digest envelope at desk) id
      (claim_lockup-Holds k lockup_id digest envelope at desk) found
perform-row (expires at) desk id found =
    Moved-run desk (perform (expires at) desk) id (aged-Moved at desk) found
perform-row (expires_receive_quotes at) desk id {r} found =
    (r, unfold expire_receive_quotes in found, rests)
perform-row (releases k) desk id found =
    Moved-run desk (perform (releases k) desk) id
      (or_same-Holds (Moved desk.store) desk.store (release_for_advance k desk.store)
        (unmoved desk.store) (release-Holds k desk.store))
      found
perform-row (records_conflict k detail at wall) desk id found =
    Moved-run desk (perform (records_conflict k detail at wall) desk) id
      (conflict-Moved k detail at wall desk.store) found
perform-row (locks_liability bindings fill txid o now) desk id found =
    Moved-run desk (perform (locks_liability bindings fill txid o now) desk) id
      (or_same-Holds (Moved desk.store) desk.store
        (lock_liability bindings fill txid o now desk.store) (unmoved desk.store)
        (lock_liability-Holds bindings fill txid o now desk.store))
      found
perform-row (cancels_liability bindings fill code now) desk id found =
    Moved-run desk (perform (cancels_liability bindings fill code now) desk) id
      (or_same-Holds (Moved desk.store) desk.store
        (cancel_liability bindings fill code now desk.store) (unmoved desk.store)
        (cancel_liability-Holds bindings fill code now desk.store))
      found

joined : {r q s : AdvanceRow} → RowRun r q → RowRun q s → RowRun r s
joined rests run = run
joined (runs m first) run = runs m (joined first run)

pub perform_all-row :
    (ws : List Write) (desk : Desk) (id : Text) {r : AdvanceRow}
    → find (has_row_id id) desk.store.advances ≡ some r
    → RunAfter (perform_all ws desk) id r
unfolding perform_all
perform_all-row [] desk id {r} found = (r, found, rests)
perform_all-row (w ∷ ws) desk id found =
    let (q, found', first) = perform-row w desk id found in
    let (r', found'', run) = perform_all-row ws (perform w desk) id found' in
    (r', found'', joined first run)

-- A settled advance is final: once its state is terminal and its spend is recorded, no sequence of calls
-- changes the state or the spend. The calls are those of the repository of the advances, the reservations' and
-- the fills' writes to its table, and the sweeper's one use of `update`.
pub perform_all-final :
    (ws : List Write) (desk : Desk) (id txid : Text) (r : AdvanceRow)
    → find (has_row_id id) desk.store.advances ≡ some r
    → is_terminal r.state ≡ true
    → r.spent_txid ≡ some txid
    → (r' : AdvanceRow) × (find (has_row_id id) (perform_all ws desk).store.advances ≡ some r')
      × (r'.state ≡ r.state)
      × (r'.spent_txid ≡ some txid)
perform_all-final ws desk id txid r e h spent =
    let (r', found, run) = perform_all-row ws desk id e in
    let (state, spent') = RowRun-final txid run h spent in (r', found, state, spent')

-- The operator signs a lockup once: when a quote was taken up and its submission is not in the phase
-- `claimed`, no sequence of calls puts it into that phase or replaces the transaction and the checkpoints that
-- were signed, not even a retry after a failure. The calls are those of the repository of the advances, the
-- reservations' and the fills' writes to its table, and the sweeper's one use of `update`.
pub perform_all-signed_once :
    (ws : List Write) (desk : Desk) (id : Text) (r : AdvanceRow)
    → find (has_row_id id) desk.store.advances ≡ some r
    → in_state quoted r ≡ false
    → is_unsigned r ≡ false
    → (r' : AdvanceRow) × (find (has_row_id id) (perform_all ws desk).store.advances ≡ some r')
      × (signed_lockup r' ≡ signed_lockup r)
      × (is_unsigned r' ≡ false)
perform_all-signed_once ws desk id r e past h =
    let (r', found, run) = perform_all-row ws desk id e in
    let (same, next) = RowRun-signed run past h in (r', found, same, next)

-- What the parties of an advance agreed on is never rewritten: under any sequence of calls the advance stays
-- in the table, and reads back with the same kind, keys, exit delay, sats, asset, fares with their
-- currencies and assets, claim mode, locktime, expiries, address, lockup and coins. The calls are those of the
-- repository of the advances, the reservations' and the fills' writes to its table, and the sweeper's one use
-- of `update`.
pub perform_all-agreement :
    (ws : List Write) (desk : Desk) (id : Text) (r : AdvanceRow)
    → find (has_row_id id) desk.store.advances ≡ some r
    → (r' : AdvanceRow) × (find (has_row_id id) (perform_all ws desk).store.advances ≡ some r')
      × (agreement r' ≡ agreement r)
perform_all-agreement ws desk id r e =
    let (r', found, run) = perform_all-row ws desk id e in (r', found, RowRun-agreement run)
