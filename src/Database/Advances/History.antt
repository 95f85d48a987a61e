-- ===== src/Database/Advances/History.antt =====
-- packages/db/src/advances.ts: the row that a call leaves of an advance.
use arkade_taxi.Prelude.{
  ◌≡◌, sym, inl, inr, Bool, true, ◌||◌, some, List, [], ◌∷◌, Text, find, any, text_eq, text_eq_iff,
  arith, Result-cases, Bool-cases, subst,
}
use arkade_taxi.Core.Submission.{claimed}
use arkade_taxi.Database.Advances.{StoredAdvance, AdvanceRow}
use arkade_taxi.Database.Advances.Writing.{to_params}
use arkade_taxi.Database.Advances.Store.{Store, has_row_id}
use arkade_taxi.Database.Advances.Submission.{
  is_held_in, record_prepared_submission, claim_submission_lease, renew_submission_lease,
  record_submission_response, record_submission_finalized, record_submission_attempt_failure,
  record_permanent_submission_failure,
}
use arkade_taxi.Database.Advances.Recovery.{
  record_recovery_preparation_failure, renew_recovery_lease, record_recovery_response,
  record_recovery_attempt_failure, record_permanent_recovery_failure, record_recovery_submission,
  is_unrecovered,
}
use arkade_taxi.Database.Advances.Lockup.{
  params_or_throw, meets_index, insert, record_lockup_submission, record_lockup_failure,
  record_covenant_renewed,
}
use arkade_taxi.Database.Advances.Observation.{clear_spend_unknown}
use arkade_taxi.Database.Advances.Commands.{
  Command, inserts, expedites_submission, claims_submission, renews_submission, prepares, responds,
  finalizes, delays_submission, fails_submission, expedites_recovery, claims_recovery,
  fails_preparation, renews_recovery, answers, delays_recovery, fails_recovery, sends_recovery,
  reclaims, sends_lockup, fails_lockup, observes_lockup, renews_covenant, observes_spend,
  clears_unknown, marks_unknown, marks_unrolled, marks_disagreement, observes_tip, stored, execute,
}
use arkade_taxi.Database.Advances.Moves.{RowMove}
use arkade_taxi.Database.Advances.RowMoves.{
  submission_leased-move, lease_extended-move, submission_prepared-move, submission_responded-move,
  submission_finalized-move, submission_delayed-move, submission_failed-move,
  preparation_failed-move, recovery_extended-move, recovery_answered-move, recovery_delayed-move,
  recovery_ended-move, recovery_sent-move, lockup_sent-move, lockup_failed-move,
  covenant_renewed-move, known_again-move,
}
use arkade_taxi.Database.Advances.Tables.{
  Moved, stored-Moved, stored_beside-Moved, update_advances-Moved, run_update-Moved,
  run_and_pause-Moved, update_or_missing-Stores, find-RowsMove,
}
use arkade_taxi.Database.Advances.Execution.{
  expedite_submission-Stores, expedite_recovery-Stores, claim_recovery_lease-Stores,
  claim_recovery-Stores, record_lockup_observed-Stores, record_spend-Stores, record_unknown-Stores,
  record_unrolled-Stores, record_disagreement-Stores, record_stable-Stores,
}

-- What a call makes of the row of an id: it is still there, and has moved.
abbrev pub RowAfter : Store → Text → AdvanceRow → Type 0
RowAfter after id r =
    (r' : AdvanceRow) × (find (has_row_id id) after.advances ≡ some r') × RowMove r r'

pub after_move :
    (db after : Store) (id : Text) {r : AdvanceRow}
    → Moved db after
    → find (has_row_id id) db.advances ≡ some r
    → RowAfter after id r
after_move db after id m e = find-RowsMove id db.advances after.advances m.rows e

find-any :
    (id : Text) (p : AdvanceRow → Bool) (rows : List AdvanceRow) {r : AdvanceRow}
    → find (has_row_id id) rows ≡ some r
    → any (λ q. has_row_id id q || p q) rows ≡ true
find-any id p [] e = cc
find-any id p (q ∷ qs) e = elim (Bool-cases (has_row_id id q)) [
  | inl hit ↦ ground arith
  | inr miss ↦ ground (arith, find-any id p qs (rw miss at e))
]

pub insert-row :
    (a : StoredAdvance) (db : Store) (id : Text) {r : AdvanceRow}
    → find (has_row_id id) db.advances ≡ some r
    → find (has_row_id id) (stored db (insert a db)).advances ≡ some r
unfolding insert
insert-row a db id {r} e = elim (Result-cases (params_or_throw (to_params a))) [
  | inr (thrown, t) ↦ rw t e
  | inl (row, t) ↦
      elim (Bool-cases (any (λ q. has_row_id row.id q || meets_index row q) db.advances)) [
        | inl clash ↦ rw (t, clash) e
        | inr fresh ↦
            rw (t, fresh)
              (elim (Bool-cases (text_eq row.id id)) [
                | inl same ↦
                    let clash : any (λ q. has_row_id row.id q || meets_index row q) db.advances
                        ≡ true =
                      subst (λ k. any (λ q. has_row_id k q || meets_index row q) db.advances ≡ true)
                        (sym ((text_eq_iff row.id id).0 same))
                        (find-any id (meets_index row) db.advances e) in
                    absurd (ground arith)
                | inr other ↦ rw other e
              ])
      ]
]

-- Every call but an insertion moves the rows in place.
abbrev pub IsInsertion : Command → Type 0
IsInsertion (inserts a) = Unit
IsInsertion _ = ⊥

pub execute-Moved : (c : Command) (db : Store) → ¬ (IsInsertion c) → Moved db (execute c db)
unfolding execute
execute-Moved (inserts a) db h = absurd (h tt)
execute-Moved (expedites_submission id at) db h =
    stored_beside-Moved db _ (expedite_submission-Stores id at db)
execute-Moved (claims_submission id owner token at until) db h =
    unfold claim_submission_lease in
    update_advances-Moved _ _ (λ r h. submission_leased-move owner token until r) db
execute-Moved (renews_submission id owner token phase at until) db h =
    unfold renew_submission_lease in run_update-Moved _ _ (λ r h. lease_extended-move until r) db
execute-Moved (prepares id owner token tx checkpoints at) db h =
    unfold record_prepared_submission in
    run_update-Moved (is_held_in id owner token claimed) _
      (λ r h. submission_prepared-move id owner token tx checkpoints at r h) db
execute-Moved (responds id owner token txid tx checkpoints at) db h =
    unfold record_submission_response in
    run_update-Moved _ _ (λ r h. submission_responded-move txid tx checkpoints at r) db
execute-Moved (finalizes id owner token at) db h =
    unfold record_submission_finalized in
    run_update-Moved _ _ (λ r h. submission_finalized-move at r) db
execute-Moved (delays_submission id owner token code detail at next) db h =
    unfold record_submission_attempt_failure in
    run_update-Moved _ _ (λ r h. submission_delayed-move code detail at (some next) r) db
execute-Moved (fails_submission id owner token code detail at wall) db h =
    unfold record_permanent_submission_failure in
    run_and_pause-Moved _ _ (λ r h. submission_failed-move code detail at r) _ wall db
execute-Moved (expedites_recovery id at) db h =
    stored_beside-Moved db _ (expedite_recovery-Stores id at db)
execute-Moved (claims_recovery id owner token at until plan) db h =
    stored_beside-Moved db _ (claim_recovery_lease-Stores id owner token at until plan db)
execute-Moved (fails_preparation id code detail at wall) db h =
    unfold record_recovery_preparation_failure in
    run_and_pause-Moved (is_unrecovered id) _ (λ r h. preparation_failed-move id code detail at r h)
      _ wall db
execute-Moved (renews_recovery id owner token at until) db h =
    unfold renew_recovery_lease in run_update-Moved _ _ (λ r h. recovery_extended-move until r) db
execute-Moved (answers id owner token txid tx checkpoints at) db h =
    unfold record_recovery_response in
    run_update-Moved _ _ (λ r h. recovery_answered-move txid tx checkpoints at r) db
execute-Moved (delays_recovery id owner token code detail at next) db h =
    unfold record_recovery_attempt_failure in
    run_update-Moved _ _ (λ r h. recovery_delayed-move code detail at (some next) r) db
execute-Moved (fails_recovery id owner token code detail at wall) db h =
    unfold record_permanent_recovery_failure in
    run_and_pause-Moved _ _ (λ r h. recovery_ended-move code detail at r) _ wall db
execute-Moved (sends_recovery id txid at) db h =
    unfold record_recovery_submission in
    stored-Moved db _ (update_or_missing-Stores _ _ (λ r h. recovery_sent-move txid at r) db)
execute-Moved (reclaims id at) db h = stored_beside-Moved db _ (claim_recovery-Stores id at db)
execute-Moved (sends_lockup id txid at) db h =
    unfold record_lockup_submission in
    stored-Moved db _ (update_or_missing-Stores _ _ (λ r h. lockup_sent-move txid at r) db)
execute-Moved (fails_lockup id code detail at) db h =
    unfold record_lockup_failure in
    update_advances-Moved _ _ (λ r h. lockup_failed-move code detail at r) db
execute-Moved (observes_lockup id o at) db h =
    stored_beside-Moved db _ (record_lockup_observed-Stores id o at db)
execute-Moved (renews_covenant id o at) db h =
    unfold record_covenant_renewed in run_update-Moved _ _ (λ r h. covenant_renewed-move o at r) db
execute-Moved (observes_spend id l o txid at hash height window wall) db h =
    stored_beside-Moved db _ (record_spend-Stores id l o txid at hash height window wall db)
execute-Moved (clears_unknown id expected at) db h =
    unfold clear_spend_unknown in update_advances-Moved _ _ (λ r h. known_again-move at r) db
execute-Moved (marks_unknown id txid reason at tip wall) db h =
    stored-Moved db _ (record_unknown-Stores id txid reason at tip wall db)
execute-Moved (marks_unrolled id reason at tip) db h =
    stored-Moved db _ (record_unrolled-Stores id reason at tip db)
execute-Moved (marks_disagreement id reason at tip wall) db h =
    stored-Moved db _ (record_disagreement-Stores id reason at tip wall db)
execute-Moved (observes_tip id o txid at hash height time wall) db h =
    stored_beside-Moved db _ (record_stable-Stores id o txid at hash height time wall db)
