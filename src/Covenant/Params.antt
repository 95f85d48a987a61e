-- ===== src/Covenant/Params.antt =====
-- packages/covenant/src/params.ts: which parameters make a covenant. What the Bitcoin library says of
-- a public key, and the SDK of a timelock, are the two parameters of the section.
pub mod Validity
use arkade_taxi.Prelude.{
  Bool, true, false, not, ◌&&◌, ◌||◌, Option, none, some, List, [], ◌∷◌, Bytes, Result, ok, err,
  ◌>>=◌, ◌>>◌, throw_if, if◌then◌else◌, ◌==◌, ◌^◌, ◌-◌, is_some, get_or, length,
}
use arkade_taxi.Prelude.Int.{ℤ, pos, ◌+ℤ◌, ltb_ℤ, leb_ℤ, eqb_ℤ}
use arkade_taxi.Core.Fares.{ResolvedClaimMode, to_recycle, to_purchase}
use arkade_taxi.Core.Types.{
  TimelockType, blocks, seconds, RelativeTimelock, RecoveryRecipient, to_sender, to_receiver,
  ReceiverFare, sats_units, asset_units_of, DustCovenantParams,
}

-- `a.every((byte, i) => byte === b[i])`
abbrev pub every_same : Bytes → Bytes → Bool
every_same [] _ = true
every_same (_ ∷ _) [] = false
every_same (x ∷ xs) (y ∷ ys) = x == y && every_same xs ys

unfoldable pub equal_keys : Bytes → Bytes → Bool
equal_keys a b = length a == length b && every_same a b

abbrev pub max_i64 : ℤ
max_i64 = pos (2 ^ 63 - 1)

pub data CovenantError : Type 0 where
  key_length bad_key bad_dust bad_vtxo_min topup_outside not_whole_dust : CovenantError
  payment_not_bitcoin payment_not_positive keys_not_distinct exit_unusable : CovenantError
  zero_locktime locktime_not_time fare_without_asset fare_not_recycle fare_not_receiver :
      CovenantError
  negative_fare fare_too_large recovery_without_asset : CovenantError

-- `p.dust + (p.paymentSats ?? 0n)`
unfoldable pub lockup_sats : DustCovenantParams → ℤ
lockup_sats p = p.dust +ℤ get_or p.payment_sats (pos 0)

unfoldable pub loan_sats : DustCovenantParams → ℤ
loan_sats p = p.topup

pub record RecycleFare : Type 0 where
  pub operator_sats : ℤ
  pub asset_fare : ℤ

-- What a receiver's fare adds to the repayment, in sats, and what it takes of the asset.
abbrev pub sats_part : Option ReceiverFare → ℤ → ℤ
sats_part none topup = topup
sats_part (some (sats_units units)) topup = topup +ℤ units
sats_part (some (asset_units_of _)) topup = topup

abbrev pub asset_part : Option ReceiverFare → ℤ
asset_part none = pos 0
asset_part (some (sats_units _)) = pos 0
asset_part (some (asset_units_of units)) = units

unfoldable pub recycle_fare : DustCovenantParams → RecycleFare
recycle_fare p = record {
  operator_sats = sats_part p.receiver_fare p.topup;
  asset_fare = asset_part p.receiver_fare;
}

unfoldable pub exit_timelock : ℤ → RelativeTimelock
exit_timelock delay = record {
  value = delay;
  type = if ltb_ℤ delay (pos 512) then blocks else seconds;
}

abbrev pub type_eq : TimelockType → TimelockType → Bool
type_eq blocks blocks = true
type_eq blocks seconds = false
type_eq seconds blocks = false
type_eq seconds seconds = true

abbrev pub is_recycle : Option ResolvedClaimMode → Bool
is_recycle none = false
is_recycle (some to_recycle) = true
is_recycle (some to_purchase) = false

abbrev pub is_to_receiver : Option RecoveryRecipient → Bool
is_to_receiver none = false
is_to_receiver (some to_sender) = false
is_to_receiver (some to_receiver) = true

abbrev pub fare_units : ReceiverFare → ℤ
fare_units (sats_units units) = units
fare_units (asset_units_of units) = units

unfoldable pub check_amounts : DustCovenantParams → ℤ → Result CovenantError (Unit {0})
check_amounts p vtxo_min_amount = do
  throw_if (leb_ℤ p.dust (pos 0)) bad_dust
  throw_if (leb_ℤ vtxo_min_amount (pos 0)) bad_vtxo_min
  throw_if (ltb_ℤ p.topup vtxo_min_amount || ltb_ℤ p.dust p.topup) topup_outside
  throw_if (not (eqb_ℤ p.topup p.dust)) not_whole_dust
  throw_if (is_some p.payment_sats && (is_some p.asset_id || not (eqb_ℤ p.topup p.dust)))
      payment_not_bitcoin
  throw_if (is_some p.payment_sats && leb_ℤ (get_or p.payment_sats (pos 0)) (pos 0))
      payment_not_positive

unfoldable pub check_distinct : DustCovenantParams → Result CovenantError (Unit {0})
check_distinct p = do
  throw_if
      (equal_keys p.receiver_key p.operator_key
        || equal_keys p.receiver_key p.sender_key
        || equal_keys p.sender_key p.operator_key)
      keys_not_distinct
  throw_if (equal_keys p.sender_key p.operator_signer_key) keys_not_distinct
  throw_if (equal_keys p.receiver_key p.operator_signer_key) keys_not_distinct

unfoldable pub check_fare :
    DustCovenantParams → Option ReceiverFare → Result CovenantError (Unit {0})
check_fare p none = ok tt
check_fare p (some fare) = do
  throw_if (not (is_some p.asset_id)) fare_without_asset
  throw_if (not (is_recycle p.claim_mode)) fare_not_recycle
  throw_if (not (is_to_receiver p.recovery_recipient)) fare_not_receiver
  throw_if (ltb_ℤ (fare_units fare) (pos 0)) negative_fare
  throw_if (ltb_ℤ max_i64 (fare_units fare)) fare_too_large

module _ (valid_pubkey : Bytes → Bool) (has_sequence : RelativeTimelock → Bool) where
  -- `timelockToSequence` returns, or throws.
  unfoldable pub exit_delay_encodable : ℤ → Bool
  unfolding exit_timelock
  exit_delay_encodable delay =
      if leb_ℤ delay (pos 0) then false else has_sequence (exit_timelock delay)

  -- One round of the loop over the keys.
  unfoldable pub check_key : Bytes → Result CovenantError (Unit {0})
  check_key k = do
    throw_if (not (length k == 32)) key_length
    throw_if (not (valid_pubkey k)) bad_key

  unfoldable pub check_keys : List Bytes → Result CovenantError (Unit {0})
  check_keys [] = ok tt
  check_keys (k ∷ ks) = check_key k >> check_keys ks

  unfoldable pub check_times : DustCovenantParams → Result CovenantError (Unit {0})
  unfolding exit_delay_encodable exit_timelock
  check_times p = do
    throw_if
        (not (exit_delay_encodable p.exit_delay.value)
          || not (type_eq p.exit_delay.type (exit_timelock p.exit_delay.value).type))
        exit_unusable
    throw_if (eqb_ℤ p.locktime (pos 0)) zero_locktime
    throw_if (ltb_ℤ p.locktime (pos 500_000_000)) locktime_not_time

  unfoldable pub validate_params : DustCovenantParams → ℤ → Result CovenantError (Unit {0})
  validate_params p vtxo_min_amount = do
    check_keys (p.receiver_key ∷ p.sender_key ∷ p.operator_key ∷ p.operator_signer_key ∷ [])
    check_amounts p vtxo_min_amount
    check_distinct p
    check_times p
    check_fare p p.receiver_fare
    throw_if (is_to_receiver p.recovery_recipient && not (is_some p.asset_id))
        recovery_without_asset
