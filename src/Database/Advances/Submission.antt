-- ===== src/Database/Advances/Submission.antt =====
-- packages/db/src/advances.ts: the worker that submits a lockup, its lease and its phases.
use arkade_taxi.Prelude.{
  ℕ, ◌+◌, Bool, not, ◌&&◌, ◌||◌, Option, none, some, List, [], ◌∷◌, Text, Result, ok, ◌>>=◌,
  if◌then◌else◌, is_some,
}
use arkade_taxi.Core.Types.{locking, state_eq}
use arkade_taxi.Core.Submission.{SubmissionPhase, claimed, prepared, responded, finalized, failed}
use arkade_taxi.Database.Advances.{text_of, StoredAdvance, AdvanceRow}
use arkade_taxi.Database.Advances.Store.{
  Store, AdvanceFailure, has_row_id, in_state, in_phase, is_value, is_past, is_later, touched, get,
  changes_one, update_advances, run_update, run_and_pause, returned,
}

pub data ExpediteResult : Type 0 where
  expedited not_found incompatible live_lease : ExpediteResult

abbrev pub is_open_phase : Option SubmissionPhase → Bool
is_open_phase p = in_phase claimed p || in_phase prepared p || in_phase responded p

-- The lease columns after a holder has let go.
abbrev pub unleased : AdvanceRow → AdvanceRow
unleased r = record r {
  submission = record r.submission {
    submission_lease_owner = none;
    submission_lease_token = none;
    submission_lease_until = none;
  };
}

abbrev pub with_failure : Option Text → Option Text → AdvanceRow → AdvanceRow
with_failure code detail r = record r {
  observation = record r.observation { failure_code = code; failure_detail = detail };
}

-- `WHERE` and `SET` of the retry of a failed submission.
unfoldable pub is_retryable : Text → AdvanceRow → Bool
is_retryable id r =
    has_row_id id r
    && in_state locking r
    && in_phase failed r.submission.submission_phase
    && is_some r.submission.prepared_ark_tx
    && is_some r.submission.prepared_checkpoints_json
    && (not (is_some r.submission.server_final_ark_tx)
        || (is_some r.submission.server_checkpoints_json && is_some r.submission.ark_txid))
    && not (is_some r.submission.submission_lease_owner)

unfoldable pub retried : ℕ → AdvanceRow → AdvanceRow
unfolding touched
retried at r = touched at (record r {
  submission = record r.submission {
    submission_phase =
        some (if is_some r.submission.server_final_ark_tx then responded else prepared);
    submission_next_attempt_at = some at;
  };
})

abbrev pub is_lease_free : Text → ℕ → AdvanceRow → Bool
is_lease_free id at r =
    has_row_id id r
    && in_state locking r
    && is_open_phase r.submission.submission_phase
    && (not (is_some r.submission.submission_lease_owner)
        || is_past r.submission.submission_lease_until at)

unfoldable pub is_expeditable : Text → ℕ → AdvanceRow → Bool
is_expeditable id at r = is_lease_free id at r

unfoldable pub expedited_at : ℕ → AdvanceRow → AdvanceRow
unfolding touched
expedited_at at r =
    touched at
      (record r { submission = record r.submission { submission_next_attempt_at = some at } })

-- An `UPDATE` of a retry, and the answer that its count of changes gives.
abbrev pub expedite_where :
    (AdvanceRow → Bool) → (AdvanceRow → AdvanceRow) → Store → ExpediteResult × Store
expedite_where p f db =
    (if changes_one p db then expedited else incompatible, update_advances p f db)

-- `leaseOwner !== undefined && (leaseUntil === undefined || leaseUntil > at)`
abbrev pub is_live : Option Text → Option ℕ → ℕ → Bool
is_live owner until at = is_some owner && (not (is_some until) || is_later until at)

unfoldable pub expedite_current : Text → ℕ → StoredAdvance → Store → ExpediteResult × Store
expedite_current id at a db =
    let s = a.progress.submission in
    if state_eq a.core.state locking && in_phase failed s.submission_phase
    then expedite_where (is_retryable id) (retried at) db
    else if not (state_eq a.core.state locking) || not (is_open_phase s.submission_phase)
    then (incompatible, db)
    else if is_live s.submission_lease_owner s.submission_lease_until at
    then (live_lease, db)
    else expedite_where (is_expeditable id at) (expedited_at at) db

unfoldable pub expedite_submission :
    Text → ℕ → Store → Result AdvanceFailure (ExpediteResult × Store)
expedite_submission id at db = do
  current ← get db id
  elim current [ none ↦ ok (not_found, db) | some a ↦ ok (expedite_current id at a db) ]

-- `WHERE` and `SET` of `claimSubmissionLease`, which is no transaction: its change stands also where
-- the row then fails to read.
unfoldable pub is_submission_claimable : Text → ℕ → AdvanceRow → Bool
is_submission_claimable id at r =
    is_lease_free id at r
    && (not (is_some r.submission.submission_next_attempt_at)
        || is_past r.submission.submission_next_attempt_at at)

unfoldable pub submission_leased : Text → Text → ℕ → AdvanceRow → AdvanceRow
submission_leased owner token until r = record r {
  submission = record r.submission {
    submission_lease_owner = some owner;
    submission_lease_token = some token;
    submission_lease_until = some until;
  };
}

unfoldable pub claim_submission_lease :
    Text → Text → Text → ℕ → ℕ → Store → Result AdvanceFailure (Option StoredAdvance) × Store
claim_submission_lease id owner token at lease_until db = (
  returned (is_submission_claimable id at) (submission_leased owner token lease_until) db,
  update_advances (is_submission_claimable id at) (submission_leased owner token lease_until) db,
)

-- What the statements of the lease's holder ask of the row.
abbrev pub is_submission_held : Text → Text → Text → AdvanceRow → Bool
is_submission_held id owner token r =
    has_row_id id r
    && in_state locking r
    && is_value r.submission.submission_lease_owner owner
    && is_value r.submission.submission_lease_token token

abbrev pub is_held_in : Text → Text → Text → SubmissionPhase → AdvanceRow → Bool
is_held_in id owner token phase r =
    is_submission_held id owner token r && in_phase phase r.submission.submission_phase

unfoldable pub is_renewable : Text → Text → Text → SubmissionPhase → ℕ → AdvanceRow → Bool
is_renewable id owner token phase at r =
    is_held_in id owner token phase r && is_later r.submission.submission_lease_until at

unfoldable pub lease_extended : ℕ → AdvanceRow → AdvanceRow
lease_extended until r = record r {
  submission = record r.submission { submission_lease_until = some until };
}

unfoldable pub renew_submission_lease :
    Text → Text → Text → SubmissionPhase → ℕ → ℕ → Store → Bool × Store
renew_submission_lease id owner token phase at lease_until =
    run_update (is_renewable id owner token phase at) (lease_extended lease_until)

unfoldable pub submission_prepared : Text → List Text → ℕ → AdvanceRow → AdvanceRow
unfolding touched
submission_prepared ark_tx checkpoints at r = touched at (record r {
  submission = record r.submission {
    submission_phase = some prepared;
    prepared_ark_tx = some ark_tx;
    prepared_checkpoints_json = some (text_of checkpoints);
  };
})

unfoldable pub record_prepared_submission :
    Text → Text → Text → Text → List Text → ℕ → Store → Bool × Store
record_prepared_submission id owner token ark_tx checkpoints at =
    run_update (is_held_in id owner token claimed) (submission_prepared ark_tx checkpoints at)

unfoldable pub submission_responded : Text → Text → List Text → ℕ → AdvanceRow → AdvanceRow
unfolding touched
submission_responded ark_txid final_ark_tx checkpoints at r = touched at (record r {
  submission = record r.submission {
    submission_phase = some responded;
    ark_txid = some ark_txid;
    server_final_ark_tx = some final_ark_tx;
    server_checkpoints_json = some (text_of checkpoints);
  };
})

unfoldable pub record_submission_response :
    Text → Text → Text → Text → Text → List Text → ℕ → Store → Bool × Store
record_submission_response id owner token ark_txid final_ark_tx checkpoints at =
    run_update (is_held_in id owner token prepared)
      (submission_responded ark_txid final_ark_tx checkpoints at)

unfoldable pub submission_finalized : ℕ → AdvanceRow → AdvanceRow
unfolding touched
submission_finalized at r = touched at (
    with_failure none none (
      unleased (record r {
        submission = record r.submission {
          submission_phase = some finalized;
          finalized_at = some at;
        };
      })))

unfoldable pub record_submission_finalized : Text → Text → Text → ℕ → Store → Bool × Store
record_submission_finalized id owner token at =
    run_update (is_held_in id owner token responded) (submission_finalized at)

-- `SET` of a failure that is tried again, and of one that is not.
unfoldable pub submission_delayed : Text → Text → ℕ → Option ℕ → AdvanceRow → AdvanceRow
unfolding touched
submission_delayed code detail at next r = touched at (
    with_failure (some code) (some detail) (
      unleased (record r {
        submission = record r.submission {
          submission_attempts = r.submission.submission_attempts + 1;
          submission_last_attempt_at = some at;
          submission_next_attempt_at = next;
        };
      })))

unfoldable pub record_submission_attempt_failure :
    Text → Text → Text → Text → Text → ℕ → ℕ → Store → Bool × Store
record_submission_attempt_failure id owner token code detail at next_attempt_at =
    run_update (is_submission_held id owner token)
      (submission_delayed code detail at (some next_attempt_at))

unfoldable pub submission_failed : Text → Text → ℕ → AdvanceRow → AdvanceRow
unfolding submission_delayed
submission_failed code detail at r =
    submission_delayed code detail at none
      (record r { submission = record r.submission { submission_phase = some failed } })

abbrev submission_actor : Text
submission_actor = b's' ∷ b'u' ∷ b'b' ∷ b'm' ∷ b'i' ∷ b's' ∷ b's' ∷ b'i' ∷ b'o' ∷ b'n' ∷ []

unfoldable pub record_permanent_submission_failure :
    Text → Text → Text → Text → Text → ℕ → ℕ → Store → Bool × Store
record_permanent_submission_failure id owner token code detail at wall_clock =
    run_and_pause (is_submission_held id owner token) (submission_failed code detail at)
      submission_actor wall_clock
