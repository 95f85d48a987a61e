-- ===== src/Database/Advances/Writing.antt =====
-- packages/db/src/advances.ts, `toParams`: the columns that an advance is written to.
use arkade_taxi.Prelude.{
  Bool, false, not, ◌||◌, Option, none, some, [], ◌∷◌, Text, Bytes, ℕ, Result, ok, err, ◌>>◌,
  throw_if, if◌then◌else◌, is_some, get_or,
}
use arkade_taxi.Prelude.Int.{ℤ, pos, Number, leb_ℤ}
use arkade_taxi.Core.Fares.{AssetIdRef, FareSpec, sats_fare, asset_fare}
use arkade_taxi.Core.Types.{
  covenant, Outpoint, DeadlineKind, ExpiryDeadline, ReceiverFare, sats_units, asset_units_of,
}
use arkade_taxi.Core.Submission.{Submission, Recovery, Observation}
use arkade_taxi.Core.Ledger.{LedgerError, validate_funding_snapshot}
use arkade_taxi.Database.Rows.{Currency, in_sats, in_asset}
use arkade_taxi.Database.Custody.{map_option}
use arkade_taxi.Database.Advances.{
  JsonText, text_of, StoredAdvance, SubmissionColumns, RecoveryColumns, ObservationColumns,
  AdvanceRow,
}

pub data ParamsError : Type 0 where
  bad_snapshot : LedgerError → ParamsError
  bad_asset_quantity : ParamsError

abbrev pub snapshot_checked : Result LedgerError (Unit {0}) → Result ParamsError (Unit {0})
snapshot_checked (ok done) = ok done
snapshot_checked (err thrown) = err (bad_snapshot thrown)

abbrev is_not_positive : Option ℤ → Bool
is_not_positive none = false
is_not_positive (some units) = leb_ℤ units (pos 0)

-- `assetId` and `assetUnits` stand together, and the units are positive.
abbrev pub bad_quantity : Option AssetIdRef → Option ℤ → Bool
bad_quantity id units =
    (if is_some id then not (is_some units) else is_some units) || is_not_positive units

abbrev pub asset_txid_of : Option AssetIdRef → Option Bytes
asset_txid_of = map_option (λ (i : AssetIdRef). i.txid)

abbrev pub group_index_of : Option AssetIdRef → Option ℕ
group_index_of = map_option (λ (i : AssetIdRef). i.group_index)

abbrev pub fare_currency_of : FareSpec → Currency
fare_currency_of (sats_fare _) = in_sats
fare_currency_of (asset_fare _ _) = in_asset

abbrev pub fare_units_of : FareSpec → ℤ
fare_units_of (sats_fare units) = units
fare_units_of (asset_fare _ units) = units

abbrev pub fare_asset_of : FareSpec → Option AssetIdRef
fare_asset_of (sats_fare _) = none
fare_asset_of (asset_fare id _) = some id

abbrev pub sats_name : Text
sats_name = b's' ∷ b'a' ∷ b't' ∷ b's' ∷ []

abbrev pub asset_name : Text
asset_name = b'a' ∷ b's' ∷ b's' ∷ b'e' ∷ b't' ∷ []

abbrev pub receiver_currency : ReceiverFare → Text
receiver_currency (sats_units _) = sats_name
receiver_currency (asset_units_of _) = asset_name

abbrev pub receiver_units : ReceiverFare → ℤ
receiver_units (sats_units units) = units
receiver_units (asset_units_of units) = units

abbrev pub outpoint_txid_of : Option Outpoint → Option Text
outpoint_txid_of = map_option (λ (o : Outpoint). o.txid)

abbrev pub outpoint_vout_of : Option Outpoint → Option Number
outpoint_vout_of = map_option (λ (o : Outpoint). o.vout)

abbrev pub deadline_kind_of : Option ExpiryDeadline → Option DeadlineKind
deadline_kind_of = map_option (λ (d : ExpiryDeadline). d.kind)

abbrev pub deadline_value_of : Option ExpiryDeadline → Option ℤ
deadline_value_of = map_option (λ (d : ExpiryDeadline). d.value)

-- `JSON.stringify`, where there is something to write
abbrev pub json_of {ℓ} : {A : Type ℓ} → Option A → Option (JsonText A)
json_of = map_option text_of

unfoldable pub submission_params : Submission → SubmissionColumns
submission_params s = record {
  submission_key = s.submission_key;
  signed_envelope_digest = s.signed_envelope_digest;
  submission_phase = s.submission_phase;
  signed_lockup_envelope = s.signed_lockup_envelope;
  prepared_ark_tx = s.prepared_ark_tx;
  prepared_checkpoints_json = json_of s.prepared_checkpoints;
  server_final_ark_tx = s.server_final_ark_tx;
  server_checkpoints_json = json_of s.server_checkpoints;
  submission_lease_owner = s.submission_lease_owner;
  submission_lease_token = s.submission_lease_token;
  submission_lease_until = s.submission_lease_until;
  submission_attempts = get_or s.submission_attempts 0;
  submission_last_attempt_at = s.submission_last_attempt_at;
  submission_next_attempt_at = s.submission_next_attempt_at;
  finalized_at = s.finalized_at;
  ark_txid = s.ark_txid;
  submitted_at = s.submitted_at;
}

unfoldable pub recovery_params : Recovery → RecoveryColumns
recovery_params r = record {
  recovery_txid = r.recovery_txid;
  recovery_submitted_at = r.recovery_submitted_at;
  recovery_phase = r.recovery_phase;
  recovery_graph_digest = r.recovery_graph_digest;
  recovery_expected_txid = r.recovery_expected_txid;
  recovery_prepared_ark_tx = r.recovery_prepared_ark_tx;
  recovery_prepared_checkpoints_json = json_of r.recovery_prepared_checkpoints;
  recovery_response_ark_tx = r.recovery_response_ark_tx;
  recovery_response_checkpoints_json = json_of r.recovery_response_checkpoints;
  recovery_lease_owner = r.recovery_lease_owner;
  recovery_lease_token = r.recovery_lease_token;
  recovery_lease_until = r.recovery_lease_until;
  recovery_attempts = get_or r.recovery_attempts 0;
  recovery_last_attempt_at = r.recovery_last_attempt_at;
  recovery_next_attempt_at = r.recovery_next_attempt_at;
}

unfoldable pub observation_params : Observation → ObservationColumns
observation_params o = record {
  last_observed_at = o.last_observed_at;
  observation_tip_hash = o.observation_tip_hash;
  observation_tip_height = o.observation_tip_height;
  observation_stable_tip_hash = o.observation_stable_tip_hash;
  observation_stable_tip_height = o.observation_stable_tip_height;
  observation_stable_count = get_or o.observation_stable_count 0;
  failure_code = o.failure_code;
  failure_detail = o.failure_detail;
}

unfoldable pub row_of : StoredAdvance → AdvanceRow
row_of s =
    let a = s.core in
    record {
      id = a.id;
      state = a.state;
      kind = some (get_or a.kind covenant);
      receiver_key = a.receiver_key;
      sender_key = a.sender_key;
      operator_key = a.operator_key;
      exit_signer_key = some a.operator_signer_key;
      exit_delay_type = some a.exit_delay.type;
      exit_delay_value = some a.exit_delay.value;
      dust = a.dust;
      topup = a.topup;
      payment_sats = a.payment_sats;
      asset_txid = asset_txid_of a.asset_id;
      asset_group_index = group_index_of a.asset_id;
      asset_units = a.asset_units;
      claim_mode = a.claim_mode;
      recovery_recipient = a.recovery_recipient;
      locktime = a.locktime;
      covenant_address = a.covenant_address;
      fare_currency = fare_currency_of a.fare;
      fare_units = fare_units_of a.fare;
      fare_asset_txid = asset_txid_of (fare_asset_of a.fare);
      fare_asset_group_index = group_index_of (fare_asset_of a.fare);
      receiver_fare_currency = map_option receiver_currency a.receiver_fare;
      receiver_fare_units = map_option receiver_units a.receiver_fare;
      outpoint_txid = outpoint_txid_of a.outpoint;
      outpoint_vout = outpoint_vout_of a.outpoint;
      spent_txid = a.spent_txid;
      renewals = get_or a.renewals 0;
      last_renewed_at = a.last_renewed_at;
      created_at = a.created_at;
      updated_at = a.updated_at;
      expires_at = a.expires_at;
      batch_expiry_kind = deadline_kind_of a.funding.batch_expiry;
      batch_expiry_value = deadline_value_of a.funding.batch_expiry;
      recovery_locktime_kind = deadline_kind_of a.funding.recovery_locktime;
      operator_inputs_json = some (text_of a.funding.operator_inputs);
      unsigned_lockup_tx = some a.funding.unsigned_lockup_tx;
      unsigned_lockup_id = some a.funding.unsigned_lockup_id;
      submission = submission_params s.progress.submission;
      recovery = recovery_params s.progress.recovery;
      observation = observation_params s.progress.observation;
    }

unfoldable pub to_params : StoredAdvance → Result ParamsError AdvanceRow
to_params s = do
  snapshot_checked (validate_funding_snapshot s.core)
  throw_if (bad_quantity s.core.asset_id s.core.asset_units) bad_asset_quantity
  ok (row_of s)
