-- ===== src/Database/Advances/Fields.antt =====
-- packages/db/src/advances.ts, `fromRow`: a field of an advance, from its columns.
use arkade_taxi.Prelude.{
  ℕ, Bool, false, not, ◌&&◌, ◌||◌, Option, none, some, List, Text, Bytes, Result, ok, err,
  if◌then◌else◌, ltb, all, text_eq, is_some, get_or,
}
use arkade_taxi.Prelude.Int.{ℤ, pos, Number, int}
use arkade_taxi.Core.Fares.{AssetIdRef, FareSpec, sats_fare, asset_fare}
use arkade_taxi.Core.Types.{
  Outpoint, AdvanceKind, sponsored, DeadlineKind, ExpiryDeadline, ReceiverFare, sats_units,
  asset_units_of,
}
use arkade_taxi.Core.Ledger.{is_sponsored, is_empty, is_valid_input}
use arkade_taxi.Database.Rows.{Currency, in_sats, in_asset}
use arkade_taxi.Database.Advances.{JsonText, malformed, text_of}
use arkade_taxi.Database.Advances.Writing.{sats_name, asset_name}

pub data RowError : Type 0 where
  missing_funding_snapshot missing_exit_params malformed_operator_inputs : RowError
  malformed_checkpoints missing_receiver_units unknown_receiver_currency : RowError
  missing_fare_asset : RowError

-- `value === null` throws.
abbrev pub required {ℓ} : {A : Type ℓ} → Option A → RowError → Result RowError A
required none e = err e
required (some a) e = ok a

abbrev pub has_sponsor : Option AdvanceKind → Bool
has_sponsor none = false
has_sponsor (some k) = is_sponsored k

-- The first test of the funding columns.
abbrev pub bad_expiry_columns : Bool → Option DeadlineKind → Option ℤ → Bool
bad_expiry_columns is_direct kind value =
    if is_direct then not (is_some kind && is_some value) else is_some kind || is_some value

abbrev pub outpoints_in : JsonText (List Outpoint) → Result RowError (List Outpoint)
outpoints_in malformed = err malformed_operator_inputs
outpoints_in (text_of parsed) =
    if is_empty parsed || not (all is_valid_input parsed)
    then err malformed_operator_inputs
    else ok parsed

-- `stringArray`, for a column that is not null
abbrev pub string_array : Option (JsonText (List Text)) → Result RowError (Option (List Text))
string_array none = ok none
string_array (some malformed) = err malformed_checkpoints
string_array (some (text_of strings)) = ok (some strings)

abbrev pub kind_in : Option AdvanceKind → Option AdvanceKind
kind_in kind = if has_sponsor kind then some sponsored else none

abbrev pub fare_asset_in : Option Bytes → Option ℕ → ℤ → Result RowError FareSpec
fare_asset_in none index units = err missing_fare_asset
fare_asset_in (some txid) index units =
    ok (asset_fare (record { txid = txid; group_index = get_or index 0 }) units)

abbrev pub fare_in_row : Currency → Option Bytes → Option ℕ → ℤ → Result RowError FareSpec
fare_in_row in_sats txid index units = ok (sats_fare units)
fare_in_row in_asset txid index units = fare_asset_in txid index units

abbrev pub deadline_in : Option DeadlineKind → Option ℤ → Option ExpiryDeadline
deadline_in (some kind) (some value) = some (record { kind = kind; value = value })
deadline_in _ value = none

abbrev pub recovery_deadline_in : Option DeadlineKind → ℤ → Option ExpiryDeadline
recovery_deadline_in none locktime = none
recovery_deadline_in (some kind) locktime = some (record { kind = kind; value = locktime })

abbrev pub asset_in : Option Bytes → Option ℕ → Option AssetIdRef
asset_in none index = none
asset_in (some txid) index = some (record { txid = txid; group_index = get_or index 0 })

abbrev pub receiver_fare_named : Text → ℤ → Result RowError (Option ReceiverFare)
receiver_fare_named currency units =
    if text_eq currency sats_name
    then ok (some (sats_units units))
    else if text_eq currency asset_name
    then ok (some (asset_units_of units))
    else err unknown_receiver_currency

abbrev pub receiver_fare_in : Option Text → Option ℤ → Result RowError (Option ReceiverFare)
receiver_fare_in none units = ok none
receiver_fare_in (some currency) none = err missing_receiver_units
receiver_fare_in (some currency) (some units) = receiver_fare_named currency units

-- `Number(null)` is 0.
abbrev pub outpoint_in : Option Text → Option Number → Option Outpoint
outpoint_in none vout = none
outpoint_in (some txid) vout = some (record { txid = txid; vout = get_or vout (int (pos 0)) })

-- A counter of 0 is left absent.
abbrev pub counter_in : ℕ → Option ℕ
counter_in n = if ltb 0 n then some n else none
