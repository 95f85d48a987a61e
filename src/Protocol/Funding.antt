-- ===== src/Protocol/Funding.antt =====
-- packages/protocol/src/codec.ts: the codec of a coin that funds a lockup.
pub mod RoundTrip
use arkade_taxi.Prelude.{
  Bool, true, false, not, ◌||◌, Option, none, some, [], ◌∷◌, Text, Bytes, Result, ok, err, ◌>>=◌,
  ◌>>◌, throw_if, if◌then◌else◌, ◌==◌, length,
}
use arkade_taxi.Prelude.Int.{ℤ, pos, Number, in_range, ltb_ℤ, leb_ℤ}
use arkade_taxi.Core.Types.{DeadlineKind, height, time, ExpiryDeadline}
use arkade_taxi.Core.Ledger.{is_empty}
use arkade_taxi.Protocol.Json.{Json, undefined, num, str, obj, end, field, get, put_opt}
use arkade_taxi.Protocol.Codec.{
  Failure, not_object, not_hex_string, txid_length, bad_vout, unsafe_value, empty_tree_or_leaf,
  bad_expiry_kind, bad_expiry, text, is_name, hex_to_bytes, bytes_to_hex, sats_from_wire,
  sats_to_wire, max_safe_integer, optional, optional_to,
}

pub record FundingInputValue : Type 0 where
  pub txid : Text
  pub vout : Number
  pub value : ℤ
  pub tap_tree : Bytes
  pub spend_leaf : Bytes
  pub asset_packet : Option Bytes
  pub expiry : ExpiryDeadline

-- An object that is no array.
abbrev pub is_record : Json → Bool
is_record (obj _) = true
is_record _ = false

-- 32 bytes in hexadecimal, kept as the string.
unfoldable pub txid_from_wire : Json → Result Failure Text
txid_from_wire (str s) = do
  bytes ← hex_to_bytes (str s)
  throw_if (not (length bytes == 32)) txid_length
  ok s
txid_from_wire _ = err not_hex_string

unfoldable pub vout_from_wire : Json → Result Failure Number
vout_from_wire (num n) = if in_range 0xffff_ffff n then ok n else err bad_vout
vout_from_wire _ = err bad_vout

unfoldable pub kind_from_wire : Json → Result Failure DeadlineKind
kind_from_wire j =
    if is_name "time" j
    then ok time
    else if is_name "height" j
    then ok height
    else err bad_expiry_kind

abbrev pub kind_to_wire : DeadlineKind → Json
kind_to_wire height = str (text "height")
kind_to_wire time = str (text "time")

unfoldable pub expiry_from_wire : Json → Result Failure ExpiryDeadline
expiry_from_wire e = do
  kind ← kind_from_wire (get "kind" e)
  value ← sats_from_wire (get "value" e)
  throw_if (leb_ℤ value (pos 0) || ltb_ℤ (pos max_safe_integer) value) bad_expiry
  ok (record { kind = kind; value = value })

unfoldable pub funding_input_from_wire : Json → Result Failure FundingInputValue
funding_input_from_wire w = do
  throw_if (not (is_record w)) not_object
  txid ← txid_from_wire (get "txid" w)
  vout ← vout_from_wire (get "vout" w)
  value ← sats_from_wire (get "value" w)
  throw_if (ltb_ℤ (pos max_safe_integer) value) unsafe_value
  tap_tree ← hex_to_bytes (get "tapTree" w)
  spend_leaf ← hex_to_bytes (get "spendLeaf" w)
  throw_if (is_empty tap_tree || is_empty spend_leaf) empty_tree_or_leaf
  expiry ← expiry_from_wire (get "expiry" w)
  asset_packet ← optional hex_to_bytes (get "assetPacket" w)
  ok (record {
    txid = txid;
    vout = vout;
    value = value;
    tap_tree = tap_tree;
    spend_leaf = spend_leaf;
    asset_packet = asset_packet;
    expiry = expiry;
  })

unfoldable pub packet_to_wire : Bytes → Result Failure Json
packet_to_wire b = ok (bytes_to_hex b)

-- The object is decoded once before it is returned, so that none is sent that its reader refuses.
unfoldable pub funding_input_to_wire : FundingInputValue → Result Failure Json
funding_input_to_wire input = do
  value ← sats_to_wire input.value
  deadline ← sats_to_wire input.expiry.value
  asset_packet ← optional_to packet_to_wire input.asset_packet
  let wire = obj (
        put_opt "assetPacket" asset_packet (
          field "txid" (str input.txid) (
            field "vout" (num input.vout) (
              field "value" value (
                field "tapTree" (bytes_to_hex input.tap_tree) (
                  field "spendLeaf" (bytes_to_hex input.spend_leaf) (
                    field "expiry"
                      (obj (
                        field "kind" (kind_to_wire input.expiry.kind) (field "value" deadline end)))
                      end))))))) in
      funding_input_from_wire wire >>= λ _. ok wire
