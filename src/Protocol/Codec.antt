-- ===== src/Protocol/Codec.antt =====
-- packages/protocol/src/codec.ts: the codecs between wire JSON and domain values. A thrown error is a
-- value of `Failure`; the label of the field that the message names is left out.
pub mod RoundTrip
pub mod QuoteParams
use Prim.Native.String.{String}
use arkade_taxi.Prelude.{
  ℕ, ◌-◌, ◌%◌, ◌^◌, Bool, true, false, not, ◌||◌, Option, none, some, [], ◌∷◌, Text, Bytes, Result,
  ok, err, ◌>>=◌, ◌>>◌, throw_if, if◌then◌else◌, ◌==◌, leb, all, length, text_eq,
}
use arkade_taxi.Prelude.Int.{ℤ, pos, negsuc, int, leb_ℤ}
use arkade_taxi.Prelude.Decimal.{to_decimal, parse_decimal, is_decimal}
use arkade_taxi.Prelude.Hex.{is_hex, concat_hex, parse_pairs}
use arkade_taxi.Core.Fares.{AssetIdRef, ResolvedClaimMode, to_recycle, to_purchase}
use arkade_taxi.Core.Types.{
  TimelockType, blocks, seconds, RelativeTimelock, RecoveryRecipient, to_sender, to_receiver,
  ReceiverFare, sats_units, asset_units_of, DustCovenantParams,
}
use arkade_taxi.Protocol.Json.{
  Json, undefined, num, str, obj, end, field, is_object, get, put_opt, exact_keys,
}
use Prim.Native.Char.{code}

pub data Failure : Type 0 where
  not_hex_string odd_length not_lowercase_hex not_decimal_string empty_amount not_decimal : Failure
  negative_amount bad_group_index not_object wrong_keys bad_unit not_positive bad_recipient :
      Failure
  bad_claim_mode bad_currency bad_tag missing_asset : Failure
  bad_array key_length node_length version_mismatch empty_packet : Failure
  txid_length bad_vout unsafe_value empty_tree_or_leaf bad_expiry_kind bad_expiry : Failure

-- The code units of a literal, which is ASCII here.
abbrev pub text : String → Text
text String.[] = []
text (String.◌∷◌ c s) = code c ∷ text s

unfoldable pub hex_to_bytes : Json → Result Failure Bytes
hex_to_bytes (str s) = do
  throw_if (not (length s % 2 == 0)) odd_length
  throw_if (not (all is_hex s)) not_lowercase_hex
  ok (parse_pairs s)
hex_to_bytes _ = err not_hex_string

unfoldable pub bytes_to_hex : Bytes → Json
bytes_to_hex b = str (concat_hex b)

abbrev pub is_empty_text : Text → Bool
is_empty_text [] = true
is_empty_text (_ ∷ _) = false

unfoldable pub sats_from_wire : Json → Result Failure ℤ
sats_from_wire (str s) = do
  throw_if (is_empty_text s) empty_amount
  throw_if (not (is_decimal s)) not_decimal
  ok (pos (parse_decimal s))
sats_from_wire _ = err not_decimal_string

unfoldable pub sats_to_wire : ℤ → Result Failure Json
sats_to_wire (pos n) = ok (str (to_decimal n))
sats_to_wire (negsuc _) = err negative_amount

abbrev pub max_safe_integer : ℕ
max_safe_integer = 2 ^ 53 - 1

unfoldable pub group_index_from_wire : Json → Result Failure ℕ
group_index_from_wire (num (int (pos n))) =
    if leb n max_safe_integer then ok n else err bad_group_index
group_index_from_wire _ = err bad_group_index

unfoldable pub asset_id_from_wire : Json → Result Failure AssetIdRef
asset_id_from_wire a = do
  throw_if (not (is_object a)) not_object
  txid ← hex_to_bytes (get "txid" a)
  group_index ← group_index_from_wire (get "groupIndex" a)
  ok (record { txid = txid; group_index = group_index })

unfoldable pub asset_id_to_wire : AssetIdRef → Result Failure Json
asset_id_to_wire a = do
  group_index ← group_index_from_wire (num (int (pos a.group_index)))
  ok (
      obj
        (field "txid" (bytes_to_hex a.txid) (field "groupIndex" (num (int (pos group_index))) end)))

-- The names of the units, the recipients, the modes and the currencies on the wire.
abbrev pub unit_name : TimelockType → Text
unit_name blocks = text "blocks"
unit_name seconds = text "seconds"

abbrev pub is_name : String → Json → Bool
is_name name (str s) = text_eq s (text name)
is_name name _ = false

unfoldable pub unit_from_wire : Json → Result Failure TimelockType
unit_from_wire j =
    if is_name "blocks" j
    then ok blocks
    else if is_name "seconds" j
    then ok seconds
    else err bad_unit

unfoldable pub exit_delay_from_wire : Json → Result Failure RelativeTimelock
exit_delay_from_wire value = do
  throw_if (not (is_object value)) not_object
  throw_if (not (exact_keys ("value" ∷ "type" ∷ []) value)) wrong_keys
  type ← unit_from_wire (get "type" value)
  delay ← sats_from_wire (get "value" value)
  throw_if (leb_ℤ delay (pos 0)) not_positive
  ok (record { value = delay; type = type })

unfoldable pub exit_delay_to_wire : RelativeTimelock → Result Failure Json
exit_delay_to_wire d = do
  value ← sats_to_wire d.value
  ok (obj (field "value" value (field "type" (str (unit_name d.type)) end)))

unfoldable pub recipient_from_wire : Json → Result Failure RecoveryRecipient
recipient_from_wire j =
    if is_name "sender" j
    then ok to_sender
    else if is_name "receiver" j
    then ok to_receiver
    else err bad_recipient

unfoldable pub recipient_to_wire : RecoveryRecipient → Result Failure Json
recipient_to_wire to_sender = ok (str (text "sender"))
recipient_to_wire to_receiver = ok (str (text "receiver"))

unfoldable pub claim_mode_from_wire : Json → Result Failure ResolvedClaimMode
claim_mode_from_wire j =
    if is_name "recycle" j
    then ok to_recycle
    else if is_name "purchase" j
    then ok to_purchase
    else err bad_claim_mode

unfoldable pub claim_mode_to_wire : ResolvedClaimMode → Result Failure Json
claim_mode_to_wire to_recycle = ok (str (text "recycle"))
claim_mode_to_wire to_purchase = ok (str (text "purchase"))

unfoldable pub receiver_fare_from_wire : Json → Result Failure ReceiverFare
receiver_fare_from_wire j = do
  throw_if (not (is_name "sats" (get "currency" j) || is_name "asset" (get "currency" j)))
      bad_currency
  units ← sats_from_wire (get "units" j)
  ok (if is_name "sats" (get "currency" j) then sats_units units else asset_units_of units)

receiver_fare_object : String → ℤ → Result Failure Json
receiver_fare_object currency units = do
  value ← sats_to_wire units
  ok (obj (field "currency" (str (text currency)) (field "units" value end)))

unfoldable pub receiver_fare_to_wire : ReceiverFare → Result Failure Json
unfolding receiver_fare_object
receiver_fare_to_wire (sats_units units) = receiver_fare_object "sats" units
receiver_fare_to_wire (asset_units_of units) = receiver_fare_object "asset" units

-- `if (p.k !== undefined) out.k = decode(p.k)`
unfoldable pub optional {ℓ} :
    {A : Type ℓ} → (Json → Result Failure A) → Json → Result Failure (Option A)
optional decode undefined = ok none
optional decode j = decode j >>= λ a. ok (some a)

-- `if (p.k !== undefined) out.k = encode(p.k)`
unfoldable pub optional_to {ℓ} :
    {A : Type ℓ} → (A → Result Failure Json) → Option A → Result Failure (Option Json)
optional_to encode none = ok none
optional_to encode (some a) = encode a >>= λ j. ok (some j)

unfoldable pub quote_params_from_wire : Json → Result Failure DustCovenantParams
quote_params_from_wire p = do
  throw_if (not (is_object p)) not_object
  receiver_key ← hex_to_bytes (get "receiverKey" p)
  sender_key ← hex_to_bytes (get "senderKey" p)
  operator_key ← hex_to_bytes (get "operatorKey" p)
  operator_signer_key ← hex_to_bytes (get "operatorSignerKey" p)
  dust ← sats_from_wire (get "dust" p)
  topup ← sats_from_wire (get "topup" p)
  locktime ← sats_from_wire (get "locktime" p)
  exit_delay ← exit_delay_from_wire (get "exitDelay" p)
  payment_sats ← optional sats_from_wire (get "paymentSats" p)
  asset_id ← optional asset_id_from_wire (get "assetId" p)
  recovery_recipient ← optional recipient_from_wire (get "recoveryRecipient" p)
  claim_mode ← optional claim_mode_from_wire (get "claimMode" p)
  receiver_fare ← optional receiver_fare_from_wire (get "receiverFare" p)
  ok (record {
    receiver_key = receiver_key;
    sender_key = sender_key;
    operator_key = operator_key;
    operator_signer_key = operator_signer_key;
    exit_delay = exit_delay;
    dust = dust;
    topup = topup;
    payment_sats = payment_sats;
    asset_id = asset_id;
    locktime = locktime;
    recovery_recipient = recovery_recipient;
    claim_mode = claim_mode;
    receiver_fare = receiver_fare;
  })

unfoldable pub quote_params_to_wire : DustCovenantParams → Result Failure Json
quote_params_to_wire p = do
  dust ← sats_to_wire p.dust
  topup ← sats_to_wire p.topup
  locktime ← sats_to_wire p.locktime
  exit_delay ← exit_delay_to_wire p.exit_delay
  payment_sats ← optional_to sats_to_wire p.payment_sats
  asset_id ← optional_to asset_id_to_wire p.asset_id
  recovery_recipient ← optional_to recipient_to_wire p.recovery_recipient
  claim_mode ← optional_to claim_mode_to_wire p.claim_mode
  receiver_fare ← optional_to receiver_fare_to_wire p.receiver_fare
  ok (
      obj (
        put_opt "receiverFare" receiver_fare (
          put_opt "claimMode" claim_mode (
            put_opt "recoveryRecipient" recovery_recipient (
              put_opt "assetId" asset_id (
                put_opt "paymentSats" payment_sats (
                  field "receiverKey" (bytes_to_hex p.receiver_key) (
                    field "senderKey" (bytes_to_hex p.sender_key) (
                      field "operatorKey" (bytes_to_hex p.operator_key) (
                        field "operatorSignerKey" (bytes_to_hex p.operator_signer_key) (
                          field "dust" dust (
                            field "topup" topup (
                              field "locktime" locktime
                                (field "exitDelay" exit_delay end))))))))))))))
