-- ===== src/Core/Submission.antt =====
-- packages/core/src/types.ts: the fields of `SubmissionState`, which the workers keep beside an advance.
-- The one interface of the source is three records here: what the submission, the recovery and the
-- observation of an advance have come to.
use arkade_taxi.Prelude.{ℕ, Option, List, Text}

pub data SubmissionPhase : Type 0 where
  claimed prepared responded finalized failed legacy : SubmissionPhase

pub data RecoveryPhase : Type 0 where
  recovery_prepared submitted recovery_failed recovery_legacy : RecoveryPhase

pub record Submission : Type 0 where
  pub submission_key : Option Text
  pub signed_envelope_digest : Option Text
  pub submission_phase : Option SubmissionPhase
  pub signed_lockup_envelope : Option Text
  pub prepared_ark_tx : Option Text
  pub prepared_checkpoints : Option (List Text)
  pub server_final_ark_tx : Option Text
  pub server_checkpoints : Option (List Text)
  pub submission_lease_owner : Option Text
  pub submission_lease_token : Option Text
  pub submission_lease_until : Option ℕ
  pub submission_attempts : Option ℕ
  pub submission_last_attempt_at : Option ℕ
  pub submission_next_attempt_at : Option ℕ
  pub finalized_at : Option ℕ
  pub ark_txid : Option Text
  pub submitted_at : Option ℕ

pub record Recovery : Type 0 where
  pub recovery_txid : Option Text
  pub recovery_submitted_at : Option ℕ
  pub recovery_phase : Option RecoveryPhase
  pub recovery_graph_digest : Option Text
  pub recovery_expected_txid : Option Text
  pub recovery_prepared_ark_tx : Option Text
  pub recovery_prepared_checkpoints : Option (List Text)
  pub recovery_response_ark_tx : Option Text
  pub recovery_response_checkpoints : Option (List Text)
  pub recovery_lease_owner : Option Text
  pub recovery_lease_token : Option Text
  pub recovery_lease_until : Option ℕ
  pub recovery_attempts : Option ℕ
  pub recovery_last_attempt_at : Option ℕ
  pub recovery_next_attempt_at : Option ℕ

pub record Observation : Type 0 where
  pub last_observed_at : Option ℕ
  pub observation_tip_hash : Option Text
  pub observation_tip_height : Option ℕ
  pub observation_stable_tip_hash : Option Text
  pub observation_stable_tip_height : Option ℕ
  pub observation_stable_count : Option ℕ
  pub failure_code : Option Text
  pub failure_detail : Option Text

pub record SubmissionState : Type 0 where
  pub submission : Submission
  pub recovery : Recovery
  pub observation : Observation
