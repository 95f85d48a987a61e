-- ===== src/Core/Types.antt =====
-- packages/core/src/types.ts, and the covenant's parameters of packages/covenant/src/params.ts.
-- Times and counters are natural numbers, amounts are ℤ, an optional field is an `Option`. The
-- runtime tests of a field's `typeof` hold by its type here.
use arkade_taxi.Prelude.{ℕ, ◌≡◌, ◌↔◌, Bool, true, false, ◌==◌, Option, List, Text, Bytes, arith}
use arkade_taxi.Prelude.Int.{ℤ, Number}
use arkade_taxi.Core.Fares.{AssetIdRef, AssetRule, FareSpec, ResolvedClaimMode, RequestedMode}

pub data AdvanceState : Type 0 where
  quoted locking locked recovering recycled purchased refunded recovered expired : AdvanceState

-- `===` on states, which are strings in the source.
abbrev pub state_index : AdvanceState → ℕ
state_index quoted = 0
state_index locking = 1
state_index locked = 2
state_index recovering = 3
state_index recycled = 4
state_index purchased = 5
state_index refunded = 6
state_index recovered = 7
state_index expired = 8

abbrev pub state_eq : AdvanceState → AdvanceState → Bool
state_eq a b = state_index a == state_index b

pub record Outpoint : Type 0 where
  pub txid : Text
  pub vout : Number

pub data DeadlineKind : Type 0 where
  height time : DeadlineKind

abbrev pub kind_eq : DeadlineKind → DeadlineKind → Bool
kind_eq height height = true
kind_eq height time = false
kind_eq time height = false
kind_eq time time = true

pub record ExpiryDeadline : Type 0 where
  pub kind : DeadlineKind
  pub value : ℤ

pub record FundingSnapshot : Type 0 where
  pub batch_expiry : Option ExpiryDeadline
  pub recovery_locktime : Option ExpiryDeadline
  pub operator_inputs : List Outpoint
  pub unsigned_lockup_tx : Text
  pub unsigned_lockup_id : Text

pub data TimelockType : Type 0 where
  blocks seconds : TimelockType

-- `RelativeTimelock` of the SDK, a value and its unit.
pub record RelativeTimelock : Type 0 where
  pub value : ℤ
  pub type : TimelockType

pub data AdvanceKind : Type 0 where
  covenant sponsored : AdvanceKind

pub data RecoveryRecipient : Type 0 where
  to_sender to_receiver : RecoveryRecipient

pub data ReceiverFare : Type 0 where
  sats_units asset_units_of : ℤ → ReceiverFare

pub record DustCovenantParams : Type 0 where
  pub receiver_key : Bytes
  pub sender_key : Bytes
  pub operator_key : Bytes
  pub operator_signer_key : Bytes
  pub exit_delay : RelativeTimelock
  pub dust : ℤ
  pub topup : ℤ
  pub payment_sats : Option ℤ
  pub asset_id : Option AssetIdRef
  pub locktime : ℤ
  pub recovery_recipient : Option RecoveryRecipient
  pub claim_mode : Option ResolvedClaimMode
  pub receiver_fare : Option ReceiverFare

-- `Advance`, without the fields of `SubmissionState`: those belong to the submission worker, and
-- nothing under packages/core reads or writes them.
pub record Advance : Type 0 where
  pub funding : FundingSnapshot
  pub id : Text
  pub state : AdvanceState
  pub kind : Option AdvanceKind
  pub receiver_key : Bytes
  pub sender_key : Bytes
  pub operator_key : Bytes
  pub operator_signer_key : Bytes
  pub exit_delay : RelativeTimelock
  pub dust : ℤ
  pub topup : ℤ
  pub payment_sats : Option ℤ
  pub asset_id : Option AssetIdRef
  pub asset_units : Option ℤ
  pub recovery_recipient : Option RecoveryRecipient
  pub claim_mode : Option ResolvedClaimMode
  pub locktime : ℤ
  pub covenant_address : Text
  pub fare : FareSpec
  pub receiver_fare : Option ReceiverFare
  pub outpoint : Option Outpoint
  pub spent_txid : Option Text
  pub renewals : Option ℕ
  pub last_renewed_at : Option ℕ
  pub created_at : ℕ
  pub updated_at : ℕ
  pub expires_at : ℕ

pub record Policy : Type 0 where
  pub paused : Bool
  pub max_outstanding_sats : ℤ
  pub max_per_payment_topup_sats : ℤ
  pub max_concurrent_advances : ℕ
  pub locktime_margin_blocks : ℕ
  pub locktime_margin_seconds : ℕ
  pub asset_rules : List AssetRule
  pub quote_ttl_seconds : ℕ

pub record Exposure : Type 0 where
  pub outstanding_sats : ℤ
  pub locked_count : ℕ
  pub oldest_unswept_locktime : Option ℤ

pub record QuoteRequest : Type 0 where
  pub receiver_key : Bytes
  pub sender_key : Bytes
  pub asset_id : Option AssetIdRef
  pub claim_mode : Option RequestedMode
  pub sender_sats : ℤ
  pub payment_sats : Option ℤ
  pub asset_units : Option ℤ
  pub fare_id : Option Text

pub data AdmissionWarning : Type 0 where
  custody_funds_lent custody_funds_lent_unrecoverable exposure_nearing_cap : ℤ → AdmissionWarning

-- What a decision that admits carries.
pub record Terms : Type 0 where
  pub topup : ℤ
  pub payment_sats : Option ℤ
  pub fare : FareSpec
  pub claim : ResolvedClaimMode
  pub warnings : List AdmissionWarning

pub state_eq_iff : (a b : AdvanceState) → (state_eq a b ≡ true) ↔ (a ≡ b)
state_eq_iff a b = ground arith

pub kind_eq_iff : (a b : DeadlineKind) → (kind_eq a b ≡ true) ↔ (a ≡ b)
kind_eq_iff a b = ground arith
