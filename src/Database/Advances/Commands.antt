-- ===== src/Database/Advances/Commands.antt =====
-- packages/db/src/advances.ts: the calls of the repository that change a row, as commands on the store.
-- `update`, which replaces a row by any other, is not among them: its one use is a
-- command of Database/Writers.
use arkade_taxi.Prelude.{ℕ, Option, List, Text, Result, ok, err}
use arkade_taxi.Prelude.Int.{Number}
use arkade_taxi.Core.Types.{AdvanceState, Outpoint}
use arkade_taxi.Core.Submission.{SubmissionPhase}
use arkade_taxi.Database.Advances.{StoredAdvance}
use arkade_taxi.Database.Advances.Store.{Store, AdvanceFailure}
use arkade_taxi.Database.Advances.Submission.{
  expedite_submission, claim_submission_lease, renew_submission_lease, record_prepared_submission,
  record_submission_response, record_submission_finalized, record_submission_attempt_failure,
  record_permanent_submission_failure,
}
use arkade_taxi.Database.Advances.Recovery.{
  PreparedRecoveryRecord, expedite_recovery, claim_recovery_lease,
  record_recovery_preparation_failure, renew_recovery_lease, record_recovery_response,
  record_recovery_attempt_failure, record_permanent_recovery_failure, record_recovery_submission,
  claim_recovery,
}
use arkade_taxi.Database.Advances.Lockup.{
  insert, record_lockup_submission, record_lockup_failure, record_lockup_observed,
  record_covenant_renewed,
}
use arkade_taxi.Database.Advances.Messages.{Tip}
use arkade_taxi.Database.Advances.Observation.{
  LiveState, Outcome, record_spend_observation, clear_spend_unknown, record_spend_unknown,
  record_covenant_unrolled, record_spend_disagreement,
}
use arkade_taxi.Database.Advances.Stable.{record_stable_spend_observation}

-- One call with its arguments. Where the source reads `Date.now()`, the time is the last argument.
pub data Command : Type 0 where
  inserts : StoredAdvance → Command
  expedites_submission : (id : Text) (at : ℕ) → Command
  claims_submission : (id owner token : Text) (at until : ℕ) → Command
  renews_submission : (id owner token : Text) (phase : SubmissionPhase) (at until : ℕ) → Command
  prepares : (id owner token tx : Text) (checkpoints : List Text) (at : ℕ) → Command
  responds : (id owner token txid tx : Text) (checkpoints : List Text) (at : ℕ) → Command
  finalizes : (id owner token : Text) (at : ℕ) → Command
  delays_submission : (id owner token code detail : Text) (at next : ℕ) → Command
  fails_submission : (id owner token code detail : Text) (at wall : ℕ) → Command
  expedites_recovery : (id : Text) (at : ℕ) → Command
  claims_recovery :
      (id owner token : Text) (at until : ℕ) (plan : Option PreparedRecoveryRecord) → Command
  fails_preparation : (id code detail : Text) (at wall : ℕ) → Command
  renews_recovery : (id owner token : Text) (at until : ℕ) → Command
  answers : (id owner token txid tx : Text) (checkpoints : List Text) (at : ℕ) → Command
  delays_recovery : (id owner token code detail : Text) (at next : ℕ) → Command
  fails_recovery : (id owner token code detail : Text) (at wall : ℕ) → Command
  sends_recovery : (id txid : Text) (at : ℕ) → Command
  reclaims : (id : Text) (at : ℕ) → Command
  sends_lockup : (id txid : Text) (at : ℕ) → Command
  fails_lockup : (id code detail : Text) (at : ℕ) → Command
  observes_lockup : (id : Text) (o : Outpoint) (at : ℕ) → Command
  renews_covenant : (id : Text) (o : Outpoint) (at : ℕ) → Command
  observes_spend :
      (id : Text) (expected : LiveState) (outcome : Outcome) (txid : Text) (at : Number)
      (hash : Text) (height : Number) (window : Option Number) (wall : ℕ)
      → Command
  clears_unknown : (id : Text) (expected : AdvanceState) (at : ℕ) → Command
  marks_unknown :
      (id : Text) (txid : Option Text) (reason : Text) (at : ℕ) (tip : Tip) (wall : ℕ) → Command
  marks_unrolled : (id reason : Text) (at : ℕ) (tip : Tip) → Command
  marks_disagreement : (id reason : Text) (at : ℕ) (tip : Tip) (wall : ℕ) → Command
  observes_tip :
      (id : Text) (outcome : Outcome) (txid : Text) (at : ℕ) (hash : Text) (height time : Number)
      (wall : ℕ)
      → Command

-- The store after a call: one that throws leaves it.
abbrev pub stored : Store → Result AdvanceFailure Store → Store
stored db (ok after) = after
stored db (err thrown) = db

abbrev pub stored_beside {ℓ} : {A : Type ℓ} → Store → Result AdvanceFailure (A × Store) → Store
stored_beside db (ok (answer, after)) = after
stored_beside db (err thrown) = db

unfoldable pub execute : Command → Store → Store
execute (inserts a) db = stored db (insert a db)
execute (expedites_submission id at) db = stored_beside db (expedite_submission id at db)
execute (claims_submission id owner token at until) db =
    (claim_submission_lease id owner token at until db).1
execute (renews_submission id owner token phase at until) db =
    (renew_submission_lease id owner token phase at until db).1
execute (prepares id owner token tx checkpoints at) db =
    (record_prepared_submission id owner token tx checkpoints at db).1
execute (responds id owner token txid tx checkpoints at) db =
    (record_submission_response id owner token txid tx checkpoints at db).1
execute (finalizes id owner token at) db = (record_submission_finalized id owner token at db).1
execute (delays_submission id owner token code detail at next) db =
    (record_submission_attempt_failure id owner token code detail at next db).1
execute (fails_submission id owner token code detail at wall) db =
    (record_permanent_submission_failure id owner token code detail at wall db).1
execute (expedites_recovery id at) db = stored_beside db (expedite_recovery id at db)
execute (claims_recovery id owner token at until plan) db =
    stored_beside db (claim_recovery_lease id owner token at until plan db)
execute (fails_preparation id code detail at wall) db =
    (record_recovery_preparation_failure id code detail at wall db).1
execute (renews_recovery id owner token at until) db =
    (renew_recovery_lease id owner token at until db).1
execute (answers id owner token txid tx checkpoints at) db =
    (record_recovery_response id owner token txid tx checkpoints at db).1
execute (delays_recovery id owner token code detail at next) db =
    (record_recovery_attempt_failure id owner token code detail at next db).1
execute (fails_recovery id owner token code detail at wall) db =
    (record_permanent_recovery_failure id owner token code detail at wall db).1
execute (sends_recovery id txid at) db = stored db (record_recovery_submission id txid at db)
execute (reclaims id at) db = stored_beside db (claim_recovery id at db)
execute (sends_lockup id txid at) db = stored db (record_lockup_submission id txid at db)
execute (fails_lockup id code detail at) db = record_lockup_failure id code detail at db
execute (observes_lockup id o at) db = stored_beside db (record_lockup_observed id o at db)
execute (renews_covenant id o at) db = (record_covenant_renewed id o at db).1
execute (observes_spend id expected outcome txid at hash height window wall) db =
    stored_beside db
      (record_spend_observation id expected outcome txid at hash height window wall db)
execute (clears_unknown id expected at) db = clear_spend_unknown id expected at db
execute (marks_unknown id txid reason at tip wall) db =
    stored db (record_spend_unknown id txid reason at tip wall db)
execute (marks_unrolled id reason at tip) db =
    stored db (record_covenant_unrolled id reason at tip db)
execute (marks_disagreement id reason at tip wall) db =
    stored db (record_spend_disagreement id reason at tip wall db)
execute (observes_tip id outcome txid at hash height time wall) db =
    stored_beside db (record_stable_spend_observation id outcome txid at hash height time wall db)
