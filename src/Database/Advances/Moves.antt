-- ===== src/Database/Advances/Moves.antt =====
-- packages/db/src/advances.ts: what one statement may make of one row.
use arkade_taxi.Prelude.{
  ℕ, ◌≡◌, refl, ap, ◌∙◌, Bool, false, Option, some, List, Text, Bytes, Result,
}
use arkade_taxi.Prelude.Int.{ℤ}
use arkade_taxi.Core.Fares.{AssetIdRef, FareSpec, ResolvedClaimMode}
use arkade_taxi.Core.Types.{
  AdvanceState, quoted, locking, locked, recovering, expired, AdvanceKind, TimelockType,
  RecoveryRecipient, Outpoint, ReceiverFare, ExpiryDeadline,
}
use arkade_taxi.Core.Submission.{SubmissionPhase, claimed}
use arkade_taxi.Database.Advances.{JsonText, AdvanceRow}
use arkade_taxi.Database.Advances.Fields.{
  RowError, kind_in, asset_in, fare_in_row, receiver_fare_in, deadline_in, recovery_deadline_in,
}
use arkade_taxi.Database.Advances.Store.{in_state, in_phase}
use arkade_taxi.Database.Advances.Observation.{LiveState, live_state, Outcome, outcome_state}

-- What the parties agreed, as it reads back: what the covenant, its address and the debt are built from.
pub record Agreement : Type 0 where
  pub kind : Option AdvanceKind
  pub receiver_key : Bytes
  pub sender_key : Bytes
  pub operator_key : Bytes
  pub exit_signer_key : Option Bytes
  pub exit_delay_type : Option TimelockType
  pub exit_delay_value : Option ℤ
  pub dust : ℤ
  pub topup : ℤ
  pub payment_sats : Option ℤ
  pub asset_id : Option AssetIdRef
  pub asset_units : Option ℤ
  pub claim_mode : Option ResolvedClaimMode
  pub recovery_recipient : Option RecoveryRecipient
  pub locktime : ℤ
  pub covenant_address : Text
  pub fare : Result RowError FareSpec
  pub receiver_fare : Result RowError (Option ReceiverFare)
  pub batch_expiry : Option ExpiryDeadline
  pub recovery_locktime : Option ExpiryDeadline
  pub operator_inputs_json : Option (JsonText (List Outpoint))
  pub unsigned_lockup_tx : Option Text
  pub unsigned_lockup_id : Option Text
  pub created_at : ℕ
  pub expires_at : ℕ

abbrev pub agreement : AdvanceRow → Agreement
agreement r = record {
  kind = kind_in r.kind;
  receiver_key = r.receiver_key;
  sender_key = r.sender_key;
  operator_key = r.operator_key;
  exit_signer_key = r.exit_signer_key;
  exit_delay_type = r.exit_delay_type;
  exit_delay_value = r.exit_delay_value;
  dust = r.dust;
  topup = r.topup;
  payment_sats = r.payment_sats;
  asset_id = asset_in r.asset_txid r.asset_group_index;
  asset_units = r.asset_units;
  claim_mode = r.claim_mode;
  recovery_recipient = r.recovery_recipient;
  locktime = r.locktime;
  covenant_address = r.covenant_address;
  fare = fare_in_row r.fare_currency r.fare_asset_txid r.fare_asset_group_index r.fare_units;
  receiver_fare = receiver_fare_in r.receiver_fare_currency r.receiver_fare_units;
  batch_expiry = deadline_in r.batch_expiry_kind r.batch_expiry_value;
  recovery_locktime = recovery_deadline_in r.recovery_locktime_kind r.locktime;
  operator_inputs_json = r.operator_inputs_json;
  unsigned_lockup_tx = r.unsigned_lockup_tx;
  unsigned_lockup_id = r.unsigned_lockup_id;
  created_at = r.created_at;
  expires_at = r.expires_at;
}

-- What the operator has signed for the lockup.
abbrev pub signed_lockup : AdvanceRow → Option Text × Option (JsonText (List Text))
signed_lockup r = (r.submission.prepared_ark_tx, r.submission.prepared_checkpoints_json)

abbrev pub is_unsigned : AdvanceRow → Bool
is_unsigned r = in_phase claimed r.submission.submission_phase

-- How the store moves a state.
pub data Moves (s : AdvanceState) : AdvanceState → Type 0 where
  stays : Moves s s
  takes : s ≡ quoted → Moves s locking
  lapses : s ≡ quoted → Moves s expired
  gives_up : s ≡ locking → Moves s expired
  locks : s ≡ locking → Moves s locked
  recovers : s ≡ locked → Moves s recovering
  settles : (l : LiveState) (o : Outcome) → s ≡ live_state l → Moves s (outcome_state o)

pub record RowMove (r r' : AdvanceRow) : Type 0 where
  pub same_id : r'.id ≡ r.id
  pub agreed : agreement r' ≡ agreement r
  pub moves : Moves r.state r'.state
  pub spent_once : (txid : Text) → r.spent_txid ≡ some txid → r'.spent_txid ≡ some txid
  pub signed_once :
      in_state quoted r ≡ false
      → is_unsigned r ≡ false
      → (signed_lockup r' ≡ signed_lockup r) × (is_unsigned r' ≡ false)

-- What most statements leave alone.
pub record Kept : Type 0 where
  pub id : Text
  pub agreement : Agreement
  pub spent_txid : Option Text
  pub signed : Option Text × Option (JsonText (List Text))
  pub phase : Option SubmissionPhase

abbrev pub kept : AdvanceRow → Kept
kept r = record {
  id = r.id;
  agreement = agreement r;
  spent_txid = r.spent_txid;
  signed = signed_lockup r;
  phase = r.submission.submission_phase;
}

pub moving : (r r' : AdvanceRow) → kept r' ≡ kept r → Moves r.state r'.state → RowMove r r'
moving r r' e m = record {
  same_id = ap (λ (k : Kept). k.id) e;
  agreed = ap (λ (k : Kept). k.agreement) e;
  moves = m;
  spent_once = λ txid h. ap (λ (k : Kept). k.spent_txid) e ∙ h;
  signed_once =
      λ _ h. (ap (λ (k : Kept). k.signed) e, ap (λ (k : Kept). in_phase claimed k.phase) e ∙ h);
}

pub still : (r : AdvanceRow) → RowMove r r
still r = moving r r refl stays
