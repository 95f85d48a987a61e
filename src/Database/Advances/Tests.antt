-- ===== src/Database/Advances/Tests.antt =====
-- packages/db/src/advances.ts: the theorems at one advance of the table.
use arkade_taxi.Database.Advances.Leases.{claim_submission_lease-exclusive}
use arkade_taxi.Database.Advances.Submission.{
  is_submission_claimable, submission_leased, claim_submission_lease,
}
use arkade_taxi.Database.Advances.Settlement.{Settled, record_spend_observation-Settled}
use arkade_taxi.Database.Advances.Liability.{row_id}
use arkade_taxi.Database.Custody.{opened_row, open_custody_row}
use arkade_taxi.Prelude.{
  ℕ, ◌≡◌, refl, arith, false, none, some, List, [], ◌∷◌, Text, ok, map, Result, filter,
}
use arkade_taxi.Prelude.Int.{pos, int}
use arkade_taxi.Core.Types.{AdvanceState, locking, locked, time, Policy}
use arkade_taxi.Core.Submission.{SubmissionState, prepared}
use arkade_taxi.Core.Ledger.{validate_funding_snapshot, advance_kind, validate_joint_snapshot}
use arkade_taxi.Core.Exposure.{compute_exposure, sweepable}
use arkade_taxi.Core.Tests.{advance, repeat}
use arkade_taxi.Database.Rows.{clock, meets_checks}
use arkade_taxi.Database.Keyed.{IsKeyed}
use arkade_taxi.Database.Advances.{StoredAdvance, AdvanceRow}
use arkade_taxi.Database.Advances.Writing.{
  to_params, row_of, submission_params, recovery_params, observation_params,
}
use arkade_taxi.Database.Advances.Reading.{from_row, submission_in, recovery_in, observation_in}
use arkade_taxi.Database.Advances.RoundTrip.{as_stored, from_row-to_params}
use arkade_taxi.Database.Advances.Store.{
  Store, AdvanceFailure, update_advances, returned, get, changes_one,
}
use arkade_taxi.Database.Advances.Observation.{
  live_locked, by_recovery, record_spend_observation, recorded, SpendResult, is_unspent_in,
  spent_as, spend_current, settle, open_liability,
}
use arkade_taxi.Database.Advances.Views.{read_rows, exposure_totals, list_sweepable}
use arkade_taxi.Database.Advances.Mirrors.{core_of, HasKind, exposure_totals-compute_exposure}
use arkade_taxi.Database.Advances.Due.{is_covenant, list_sweepable-sweepable}

abbrev pub no_progress : SubmissionState
no_progress = record {
  submission = record {
    submission_key = none;
    signed_envelope_digest = none;
    submission_phase = some prepared;
    signed_lockup_envelope = none;
    prepared_ark_tx = some (b't' ∷ []);
    prepared_checkpoints = some ((b'c' ∷ []) ∷ []);
    server_final_ark_tx = none;
    server_checkpoints = none;
    submission_lease_owner = none;
    submission_lease_token = none;
    submission_lease_until = none;
    submission_attempts = some 0;
    submission_last_attempt_at = none;
    submission_next_attempt_at = none;
    finalized_at = none;
    ark_txid = none;
    submitted_at = none;
  };
  recovery = record {
    recovery_txid = none;
    recovery_submitted_at = none;
    recovery_phase = none;
    recovery_graph_digest = none;
    recovery_expected_txid = none;
    recovery_prepared_ark_tx = none;
    recovery_prepared_checkpoints = none;
    recovery_response_ark_tx = none;
    recovery_response_checkpoints = none;
    recovery_lease_owner = none;
    recovery_lease_token = none;
    recovery_lease_until = none;
    recovery_attempts = none;
    recovery_last_attempt_at = none;
    recovery_next_attempt_at = none;
  };
  observation = record {
    last_observed_at = none;
    observation_tip_hash = none;
    observation_tip_height = none;
    observation_stable_tip_hash = none;
    observation_stable_tip_height = none;
    observation_stable_count = none;
    failure_code = none;
    failure_detail = none;
  };
}

abbrev pub terms : Policy
terms = record {
  paused = false;
  max_outstanding_sats = pos 1000;
  max_per_payment_topup_sats = pos 330;
  max_concurrent_advances = 3;
  locktime_margin_blocks = 144;
  locktime_margin_seconds = 86_400;
  asset_rules = [];
  quote_ttl_seconds = 60;
}

abbrev pub stored_in : AdvanceState → StoredAdvance
stored_in s = record { core = advance s; progress = no_progress }

abbrev pub id : Text
id = b'1' ∷ []

abbrev pub spend_txid : Text
spend_txid = repeat 64 b'e'

abbrev pub row_in : AdvanceState → AdvanceRow
row_in s = row_of (stored_in s)

abbrev pub store_of : AdvanceRow → Store
store_of r = record {
  advances = r ∷ [];
  operator_inputs =
      record {
        outpoint_txid = repeat 64 b'a';
        outpoint_vout = int (pos 1);
        advance_id = id;
        batch_expiry_kind = some time;
        batch_expiry_value = some (pos 700_000_000);
        created_at = 100;
      }
      ∷ [];
  policy = terms;
  revision = 0;
  ledger = record { custody = []; release_inputs = []; audit = [] };
}

written : to_params (stored_in locked) ≡ ok (row_in locked)
unfolding to_params validate_funding_snapshot advance_kind validate_joint_snapshot
written = refl

from_row-to_params_example : from_row (row_in locked) ≡ ok (as_stored (stored_in locked))
from_row-to_params_example = from_row-to_params (stored_in locked) (row_in locked) written

has_kind : HasKind (row_in locked)
unfolding row_of
has_kind e = cc

rows_read : read_rows (row_in locked ∷ []) ≡ ok (as_stored (stored_in locked) ∷ [])
unfolding read_rows
rows_read = rw from_row-to_params_locked refl
  where
    from_row-to_params_locked : from_row (row_in locked) ≡ ok (as_stored (stored_in locked))
    from_row-to_params_locked = from_row-to_params (stored_in locked) (row_in locked) written

exposure_totals-compute_exposure_example :
    ((exposure_totals (row_in locked ∷ [])).0
      ≡ (compute_exposure (map core_of (as_stored (stored_in locked) ∷ []))).outstanding_sats)
    × ((exposure_totals (row_in locked ∷ [])).1
        ≡ (compute_exposure (map core_of (as_stored (stored_in locked) ∷ []))).locked_count)
exposure_totals-compute_exposure_example =
    exposure_totals-compute_exposure (row_in locked ∷ []) (as_stored (stored_in locked) ∷ [])
      rows_read (has_kind, tt)

list_sweepable-sweepable_example :
    (due : List StoredAdvance) × (list_sweepable
        (pos 900)
        (some (pos 600_000_001))
        (row_in locked ∷ [])
      ≡ ok due)
    × (map core_of due
        ≡ sweepable
            (filter is_covenant (map core_of (as_stored (stored_in locked) ∷ [])))
            (pos 900)
            (some (pos 600_000_001)))
list_sweepable-sweepable_example =
    list_sweepable-sweepable (pos 900) (some (pos 600_000_001)) (row_in locked ∷ [])
      (as_stored (stored_in locked) ∷ []) rows_read (has_kind, tt)

store-IsKeyed : IsKeyed row_id (store_of (row_in locked)).advances
store-IsKeyed = (refl, tt)

-- A reclaim that is seen at 130, with a custody window of a minute.
abbrev observed : Result AdvanceFailure (SpendResult × Store)
observed =
    record_spend_observation id live_locked by_recovery spend_txid (int (pos 130)) spend_txid
      (int (pos 7)) (some (int (pos 60))) 0 (store_of (row_in locked))

abbrev moved_store : Store
moved_store =
    update_advances (is_unspent_in id locked) (spent_as by_recovery spend_txid 130 spend_txid 7)
      (store_of (row_in locked))

abbrev after_spend : Store
after_spend = record moved_store {
  operator_inputs = [];
  ledger = record {
    custody = opened_row (advance locked) 130 60 ∷ [];
    release_inputs = [];
    audit = [];
  };
}

spend_seen : observed ≡ ok (recorded, after_spend)
unfolding record_spend_observation get row_of from_row submission_in submission_params recovery_in
    recovery_params spend_current settle changes_one is_unspent_in open_liability open_custody_row
    clock meets_checks opened_row
spend_seen = refl

record_spend_observation-Settled_example :
    (now : ℕ) × (clock (int (pos 130)) ≡ ok now)
    × Settled id live_locked by_recovery spend_txid now
        (some (int (pos 60)))
        (store_of (row_in locked))
        after_spend
record_spend_observation-Settled_example =
    record_spend_observation-Settled id live_locked by_recovery spend_txid (int (pos 130))
      spend_txid (int (pos 7)) (some (int (pos 60))) 0 (store_of (row_in locked)) after_spend
      store-IsKeyed spend_seen

abbrev worker : Text
worker = b'w' ∷ []

abbrev leased_store : Store
leased_store =
    update_advances (is_submission_claimable id 110) (submission_leased worker worker 140)
      (store_of (row_in locking))

abbrev leased_advance : StoredAdvance
leased_advance = record (as_stored (stored_in locking)) {
  progress = record no_progress {
    submission = record no_progress.submission {
      submission_attempts = none;
      submission_lease_owner = some worker;
      submission_lease_token = some worker;
      submission_lease_until = some 140;
    };
  };
}

lease_given :
    claim_submission_lease id worker worker 110 140 (store_of (row_in locking))
    ≡ (ok (some leased_advance), leased_store)
unfolding claim_submission_lease returned is_submission_claimable row_of submission_params from_row
    submission_leased submission_in recovery_in recovery_params observation_in observation_params
lease_given = refl

locking-IsKeyed : IsKeyed row_id (store_of (row_in locking)).advances
locking-IsKeyed = (refl, tt)

claim_submission_lease-exclusive_example :
    (claim_submission_lease id (b'x' ∷ []) worker 139 200 leased_store).0 ≡ ok none
claim_submission_lease-exclusive_example =
    claim_submission_lease-exclusive id worker worker 110 140 (store_of (row_in locking))
      leased_store leased_advance locking-IsKeyed lease_given (b'x' ∷ []) worker 139 200
      (omega arith)
