-- ===== src/Database/Advances.antt =====
-- packages/db/src/advances.ts and the table `advances` of packages/db/src/schema.ts: a row, the
-- statements that read and update rows, and the tables that the repository writes beside its own.
-- A column that may be null is an `Option`, and integers beyond the 64 bits of SQLite are left out.
-- A column of JSON text holds the value that its text denotes, or is malformed.
pub mod Writing
pub mod Fields
pub mod Reading
pub mod Store
pub mod Submission
pub mod Recovery
pub mod Lockup
pub mod Messages
pub mod Observation
pub mod Stable
pub mod Commands
pub mod Moves
pub mod RowMoves
pub mod Tables
pub mod Execution
pub mod History
pub mod Fates
pub mod Inversion
pub mod Views
pub mod Mirrors
pub mod Due
pub mod Liability
pub mod Settlement
pub mod Leases
pub mod Tests
pub mod RoundTrip
use arkade_taxi.Prelude.{ℕ, Option, List, Text, Bytes}
use arkade_taxi.Prelude.Int.{ℤ, Number}
use arkade_taxi.Core.Fares.{ResolvedClaimMode}
use arkade_taxi.Core.Types.{
  AdvanceState, Outpoint, DeadlineKind, AdvanceKind, TimelockType, RecoveryRecipient, Advance,
}
use arkade_taxi.Core.Submission.{SubmissionPhase, RecoveryPhase, SubmissionState}
use arkade_taxi.Database.Rows.{Currency}

pub data JsonText {ℓ} (A : Type ℓ) : Type ℓ where
  malformed : JsonText A
  text_of : A → JsonText A

-- The whole of an `Advance`: the fields that packages/core reads, and those of its `SubmissionState`.
pub record StoredAdvance : Type 0 where
  pub core : Advance
  pub progress : SubmissionState

pub record SubmissionColumns : Type 0 where
  pub submission_key : Option Text
  pub signed_envelope_digest : Option Text
  pub submission_phase : Option SubmissionPhase
  pub signed_lockup_envelope : Option Text
  pub prepared_ark_tx : Option Text
  pub prepared_checkpoints_json : Option (JsonText (List Text))
  pub server_final_ark_tx : Option Text
  pub server_checkpoints_json : Option (JsonText (List Text))
  pub submission_lease_owner : Option Text
  pub submission_lease_token : Option Text
  pub submission_lease_until : Option ℕ
  pub submission_attempts : ℕ
  pub submission_last_attempt_at : Option ℕ
  pub submission_next_attempt_at : Option ℕ
  pub finalized_at : Option ℕ
  pub ark_txid : Option Text
  pub submitted_at : Option ℕ

pub record RecoveryColumns : Type 0 where
  pub recovery_txid : Option Text
  pub recovery_submitted_at : Option ℕ
  pub recovery_phase : Option RecoveryPhase
  pub recovery_graph_digest : Option Text
  pub recovery_expected_txid : Option Text
  pub recovery_prepared_ark_tx : Option Text
  pub recovery_prepared_checkpoints_json : Option (JsonText (List Text))
  pub recovery_response_ark_tx : Option Text
  pub recovery_response_checkpoints_json : Option (JsonText (List Text))
  pub recovery_lease_owner : Option Text
  pub recovery_lease_token : Option Text
  pub recovery_lease_until : Option ℕ
  pub recovery_attempts : ℕ
  pub recovery_last_attempt_at : Option ℕ
  pub recovery_next_attempt_at : Option ℕ

pub record ObservationColumns : Type 0 where
  pub last_observed_at : Option ℕ
  pub observation_tip_hash : Option Text
  pub observation_tip_height : Option ℕ
  pub observation_stable_tip_hash : Option Text
  pub observation_stable_tip_height : Option ℕ
  pub observation_stable_count : ℕ
  pub failure_code : Option Text
  pub failure_detail : Option Text

-- A row. The decimal text of `receiver_fare_units` is the integer that it denotes.
pub record AdvanceRow : Type 0 where
  pub id : Text
  pub state : AdvanceState
  pub kind : Option AdvanceKind
  pub receiver_key : Bytes
  pub sender_key : Bytes
  pub operator_key : Bytes
  pub exit_signer_key : Option Bytes
  pub exit_delay_type : Option TimelockType
  pub exit_delay_value : Option ℤ
  pub dust : ℤ
  pub topup : ℤ
  pub payment_sats : Option ℤ
  pub asset_txid : Option Bytes
  pub asset_group_index : Option ℕ
  pub asset_units : Option ℤ
  pub claim_mode : Option ResolvedClaimMode
  pub recovery_recipient : Option RecoveryRecipient
  pub locktime : ℤ
  pub covenant_address : Text
  pub fare_currency : Currency
  pub fare_units : ℤ
  pub fare_asset_txid : Option Bytes
  pub fare_asset_group_index : Option ℕ
  pub receiver_fare_currency : Option Text
  pub receiver_fare_units : Option ℤ
  pub outpoint_txid : Option Text
  pub outpoint_vout : Option Number
  pub spent_txid : Option Text
  pub renewals : ℕ
  pub last_renewed_at : Option ℕ
  pub created_at : ℕ
  pub updated_at : ℕ
  pub expires_at : ℕ
  pub batch_expiry_kind : Option DeadlineKind
  pub batch_expiry_value : Option ℤ
  pub recovery_locktime_kind : Option DeadlineKind
  pub operator_inputs_json : Option (JsonText (List Outpoint))
  pub unsigned_lockup_tx : Option Text
  pub unsigned_lockup_id : Option Text
  pub submission : SubmissionColumns
  pub recovery : RecoveryColumns
  pub observation : ObservationColumns
