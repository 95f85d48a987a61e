-- ===== src/Database/Advances/Reading.antt =====
-- packages/db/src/advances.ts, `fromRow`: the advance that a row is read back as.
use arkade_taxi.Prelude.{Result, ok, ◌>>=◌, ◌>>◌, throw_if}
use arkade_taxi.Core.Submission.{Submission, Recovery, Observation}
use arkade_taxi.Database.Advances.{
  StoredAdvance, SubmissionColumns, RecoveryColumns, ObservationColumns, AdvanceRow,
}
use arkade_taxi.Database.Advances.Fields.{
  RowError, missing_funding_snapshot, missing_exit_params, required, has_sponsor,
  bad_expiry_columns, outpoints_in, string_array, kind_in, fare_in_row, deadline_in,
  recovery_deadline_in, asset_in, receiver_fare_in, outpoint_in, counter_in,
}

unfoldable pub submission_in : SubmissionColumns → Result RowError Submission
submission_in c = do
  prepared_list ← string_array c.prepared_checkpoints_json
  server_list ← string_array c.server_checkpoints_json
  ok (record {
    submission_key = c.submission_key;
    signed_envelope_digest = c.signed_envelope_digest;
    submission_phase = c.submission_phase;
    signed_lockup_envelope = c.signed_lockup_envelope;
    prepared_ark_tx = c.prepared_ark_tx;
    prepared_checkpoints = prepared_list;
    server_final_ark_tx = c.server_final_ark_tx;
    server_checkpoints = server_list;
    submission_lease_owner = c.submission_lease_owner;
    submission_lease_token = c.submission_lease_token;
    submission_lease_until = c.submission_lease_until;
    submission_attempts = counter_in c.submission_attempts;
    submission_last_attempt_at = c.submission_last_attempt_at;
    submission_next_attempt_at = c.submission_next_attempt_at;
    finalized_at = c.finalized_at;
    ark_txid = c.ark_txid;
    submitted_at = c.submitted_at;
  })

unfoldable pub recovery_in : RecoveryColumns → Result RowError Recovery
recovery_in c = do
  prepared_list ← string_array c.recovery_prepared_checkpoints_json
  response_list ← string_array c.recovery_response_checkpoints_json
  ok (record {
    recovery_txid = c.recovery_txid;
    recovery_submitted_at = c.recovery_submitted_at;
    recovery_phase = c.recovery_phase;
    recovery_graph_digest = c.recovery_graph_digest;
    recovery_expected_txid = c.recovery_expected_txid;
    recovery_prepared_ark_tx = c.recovery_prepared_ark_tx;
    recovery_prepared_checkpoints = prepared_list;
    recovery_response_ark_tx = c.recovery_response_ark_tx;
    recovery_response_checkpoints = response_list;
    recovery_lease_owner = c.recovery_lease_owner;
    recovery_lease_token = c.recovery_lease_token;
    recovery_lease_until = c.recovery_lease_until;
    recovery_attempts = counter_in c.recovery_attempts;
    recovery_last_attempt_at = c.recovery_last_attempt_at;
    recovery_next_attempt_at = c.recovery_next_attempt_at;
  })

unfoldable pub observation_in : ObservationColumns → Observation
observation_in c = record {
  last_observed_at = c.last_observed_at;
  observation_tip_hash = c.observation_tip_hash;
  observation_tip_height = c.observation_tip_height;
  observation_stable_tip_hash = c.observation_stable_tip_hash;
  observation_stable_tip_height = c.observation_stable_tip_height;
  observation_stable_count = counter_in c.observation_stable_count;
  failure_code = c.failure_code;
  failure_detail = c.failure_detail;
}

unfoldable pub from_row : AdvanceRow → Result RowError StoredAdvance
from_row r = do
  throw_if (bad_expiry_columns (has_sponsor r.kind) r.batch_expiry_kind r.batch_expiry_value)
      missing_funding_snapshot
  json ← required r.operator_inputs_json missing_funding_snapshot
  tx ← required r.unsigned_lockup_tx missing_funding_snapshot
  tx_id ← required r.unsigned_lockup_id missing_funding_snapshot
  signer_key ← required r.exit_signer_key missing_exit_params
  delay_type ← required r.exit_delay_type missing_exit_params
  delay_value ← required r.exit_delay_value missing_exit_params
  inputs ← outpoints_in json
  fare ← fare_in_row r.fare_currency r.fare_asset_txid r.fare_asset_group_index r.fare_units
  receiver_fare ← receiver_fare_in r.receiver_fare_currency r.receiver_fare_units
  submission ← submission_in r.submission
  recovery ← recovery_in r.recovery
  ok (record {
    core = record {
      funding = record {
        batch_expiry = deadline_in r.batch_expiry_kind r.batch_expiry_value;
        recovery_locktime = recovery_deadline_in r.recovery_locktime_kind r.locktime;
        operator_inputs = inputs;
        unsigned_lockup_tx = tx;
        unsigned_lockup_id = tx_id;
      };
      id = r.id;
      state = r.state;
      kind = kind_in r.kind;
      receiver_key = r.receiver_key;
      sender_key = r.sender_key;
      operator_key = r.operator_key;
      operator_signer_key = signer_key;
      exit_delay = record { value = delay_value; type = delay_type };
      dust = r.dust;
      topup = r.topup;
      payment_sats = r.payment_sats;
      asset_id = asset_in r.asset_txid r.asset_group_index;
      asset_units = r.asset_units;
      recovery_recipient = r.recovery_recipient;
      claim_mode = r.claim_mode;
      locktime = r.locktime;
      covenant_address = r.covenant_address;
      fare = fare;
      receiver_fare = receiver_fare;
      outpoint = outpoint_in r.outpoint_txid r.outpoint_vout;
      spent_txid = r.spent_txid;
      renewals = counter_in r.renewals;
      last_renewed_at = r.last_renewed_at;
      created_at = r.created_at;
      updated_at = r.updated_at;
      expires_at = r.expires_at;
    };
    progress = record {
      submission = submission;
      recovery = recovery;
      observation = observation_in r.observation;
    };
  })
