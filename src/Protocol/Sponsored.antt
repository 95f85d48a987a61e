-- ===== src/Protocol/Sponsored.antt =====
-- packages/protocol/src/codec.ts: the codecs of a sponsored send's parameters and of a resolved fare.
pub mod RoundTrip
use arkade_taxi.Prelude.{
  ℕ, Bool, true, false, not, Option, none, some, [], ◌∷◌, Bytes, Result, ok, err, ◌>>=◌, ◌>>◌,
  throw_if, if◌then◌else◌, leb,
}
use arkade_taxi.Prelude.Int.{ℤ, pos, negsuc, int}
use arkade_taxi.Core.Fares.{AssetIdRef, FareSpec, sats_fare, asset_fare}
use arkade_taxi.Protocol.Json.{
  Json, undefined, null, bool, num, str, arr, obj, end, field, is_object, get, put_opt,
}
use arkade_taxi.Protocol.Codec.{
  Failure, not_object, bad_tag, missing_asset, text, is_name, hex_to_bytes, bytes_to_hex,
  sats_from_wire, sats_to_wire, asset_id_from_wire, asset_id_to_wire, optional, optional_to,
}

-- The packet that a sponsored send carries beside its outputs.
pub record ExtraPacket : Type 0 where
  pub type : ℕ
  pub payload : Bytes

pub record SponsoredParamsValue : Type 0 where
  pub receiver_key : Bytes
  pub sender_key : Bytes
  pub operator_key : Bytes
  pub dust : ℤ
  pub contribution : ℤ
  pub payment_sats : Option ℤ
  pub asset_id : Option AssetIdRef
  pub extra_packet : Option ExtraPacket

-- `!Number.isInteger(n) || n < 0 || n > 255`
unfoldable pub tag_from_wire : Json → Result Failure ℕ
tag_from_wire (num (int (pos n))) = if leb n 255 then ok n else err bad_tag
tag_from_wire _ = err bad_tag

unfoldable pub extra_packet_from_wire : Json → Result Failure ExtraPacket
extra_packet_from_wire e = do
  throw_if (not (is_object e)) not_object
  type ← tag_from_wire (get "type" e)
  payload ← hex_to_bytes (get "payload" e)
  ok (record { type = type; payload = payload })

unfoldable pub extra_packet_to_wire : ExtraPacket → Result Failure Json
extra_packet_to_wire e =
    ok (obj (field "type" (num (int (pos e.type))) (field "payload" (bytes_to_hex e.payload) end)))

unfoldable pub sponsored_params_from_wire : Json → Result Failure SponsoredParamsValue
sponsored_params_from_wire p = do
  throw_if (not (is_object p)) not_object
  receiver_key ← hex_to_bytes (get "receiverKey" p)
  sender_key ← hex_to_bytes (get "senderKey" p)
  operator_key ← hex_to_bytes (get "operatorKey" p)
  dust ← sats_from_wire (get "dust" p)
  contribution ← sats_from_wire (get "contribution" p)
  payment_sats ← optional sats_from_wire (get "paymentSats" p)
  asset_id ← optional asset_id_from_wire (get "assetId" p)
  extra_packet ← optional extra_packet_from_wire (get "extraPacket" p)
  ok (record {
    receiver_key = receiver_key;
    sender_key = sender_key;
    operator_key = operator_key;
    dust = dust;
    contribution = contribution;
    payment_sats = payment_sats;
    asset_id = asset_id;
    extra_packet = extra_packet;
  })

unfoldable pub sponsored_params_to_wire : SponsoredParamsValue → Result Failure Json
sponsored_params_to_wire p = do
  dust ← sats_to_wire p.dust
  contribution ← sats_to_wire p.contribution
  payment_sats ← optional_to sats_to_wire p.payment_sats
  asset_id ← optional_to asset_id_to_wire p.asset_id
  extra_packet ← optional_to extra_packet_to_wire p.extra_packet
  ok (
      obj (
        put_opt "extraPacket" extra_packet (
          put_opt "assetId" asset_id (
            put_opt "paymentSats" payment_sats (
              field "receiverKey" (bytes_to_hex p.receiver_key) (
                field "senderKey" (bytes_to_hex p.sender_key) (
                  field "operatorKey" (bytes_to_hex p.operator_key)
                    (field "dust" dust (field "contribution" contribution end)))))))))

-- `FareSpec` is the argument's type without an asset fare that names no asset.
unfoldable pub fare_to_wire : FareSpec → Result Failure Json
fare_to_wire (sats_fare units) = do
  value ← sats_to_wire units
  ok (obj (field "currency" (str (text "sats")) (field "units" value end)))
fare_to_wire (asset_fare id units) = do
  value ← sats_to_wire units
  asset_id ← asset_id_to_wire id
  ok (
      obj (
        field "currency" (str (text "asset")) (field "units" value (field "assetId" asset_id end))))

-- `!v`, of an asset id: what is not there, null, false, zero or the empty string.
abbrev pub is_falsy : Json → Bool
is_falsy undefined = true
is_falsy null = true
is_falsy (bool b) = not b
is_falsy (num (int (pos ℕ.zero))) = true
is_falsy (str []) = true
is_falsy _ = false

unfoldable pub fare_from_wire : Json → Result Failure FareSpec
fare_from_wire w = do
  units ← sats_from_wire (get "units" w)
  let sats = ok (sats_fare units) in
      let asset =
        throw_if (is_falsy (get "assetId" w)) missing_asset
        >> asset_id_from_wire (get "assetId" w)
        >>= λ id. ok (asset_fare id units) in
      if is_name "asset" (get "currency" w) then asset else sats
