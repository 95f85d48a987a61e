-- ===== src/Protocol/Sponsored/RoundTrip.antt =====
-- packages/protocol/src/codec.ts: sponsored parameters and fares, written and read back.
use arkade_taxi.Prelude.{◌≡◌, refl, true, IsBytes, ok, leb}
use arkade_taxi.Prelude.Int.{ℤ, pos, int, ◌≤ℤ◌}
use arkade_taxi.Core.Fares.{FareSpec, sats_fare, asset_fare}
use arkade_taxi.Protocol.Json.{Json, str, num, obj, end, field, put_opt, lookup-put_opt}
use arkade_taxi.Protocol.Codec.{
  text, bytes_to_hex, sats_from_wire, sats_to_wire, asset_id_from_wire, asset_id_to_wire, optional,
}
use arkade_taxi.Protocol.Codec.RoundTrip.{
  hex_to_bytes-bytes_to_hex, sats-Decodes, asset_id-Decodes, asset_id_json, encode-asset_id,
  decode-asset_id, optional-Decodes, IsAssetId, OnSome, Decodes,
}
use arkade_taxi.Protocol.Sponsored.{
  ExtraPacket, SponsoredParamsValue, tag_from_wire, extra_packet_from_wire, extra_packet_to_wire,
  sponsored_params_from_wire, sponsored_params_to_wire, fare_to_wire, fare_from_wire,
}

abbrev pub IsExtraPacket : ExtraPacket → Type 0
IsExtraPacket e = (leb e.type 255 ≡ true) × IsBytes e.payload

extra_packet_json : ExtraPacket → Json
extra_packet_json e =
    obj (field "type" (num (int (pos e.type))) (field "payload" (bytes_to_hex e.payload) end))

decode-extra_packet :
    (e : ExtraPacket) → IsExtraPacket e → extra_packet_from_wire (extra_packet_json e) ≡ ok e
unfolding extra_packet_from_wire tag_from_wire extra_packet_json
decode-extra_packet e (ht, hb) = rw (ht, hex_to_bytes-bytes_to_hex e.payload hb) refl

extra_packet-Decodes :
    (e : ExtraPacket) → IsExtraPacket e → Decodes extra_packet_to_wire extra_packet_from_wire e
unfolding extra_packet_to_wire optional extra_packet_json
extra_packet-Decodes e h =
    (extra_packet_json e, refl, decode-extra_packet e h, rw (decode-extra_packet e h) refl)

-- What the wire can carry.
pub record IsEncodable (p : SponsoredParamsValue) : Type 0 where
  pub receiver_key : IsBytes p.receiver_key
  pub sender_key : IsBytes p.sender_key
  pub operator_key : IsBytes p.operator_key
  pub dust : pos 0 ≤ℤ p.dust
  pub contribution : pos 0 ≤ℤ p.contribution
  pub payment_sats : OnSome (λ (z : ℤ). pos 0 ≤ℤ z) p.payment_sats
  pub asset_id : OnSome IsAssetId p.asset_id
  pub extra_packet : OnSome IsExtraPacket p.extra_packet

-- Sponsored parameters whose keys and payload are bytes, whose amounts are not negative, whose group
-- index is a safe integer and whose tag is a byte are written, and read back as themselves.
pub sponsored_params_from_wire-sponsored_params_to_wire :
    (p : SponsoredParamsValue)
    → IsEncodable p
    → (w : Json) × (sponsored_params_to_wire p ≡ ok w) × (sponsored_params_from_wire w ≡ ok p)
unfolding sponsored_params_to_wire sponsored_params_from_wire
sponsored_params_from_wire-sponsored_params_to_wire p h =
    let (dust, dust_to, dust_from, _) = sats-Decodes p.dust h.dust in
    let (contribution, contribution_to, contribution_from, _) =
      sats-Decodes p.contribution h.contribution in
    let (payment_sats, payment_sats_to, payment_sats_from) =
      optional-Decodes sats_to_wire sats_from_wire _ sats-Decodes p.payment_sats h.payment_sats in
    let (asset_id, asset_id_to, asset_id_from) =
      optional-Decodes asset_id_to_wire asset_id_from_wire _ asset_id-Decodes p.asset_id
        h.asset_id in
    let (packet, packet_to, packet_from) =
      optional-Decodes extra_packet_to_wire extra_packet_from_wire _ extra_packet-Decodes
        p.extra_packet h.extra_packet in
    let w = obj (
      put_opt "extraPacket" packet (
        put_opt "assetId" asset_id (
          put_opt "paymentSats" payment_sats (
            field "receiverKey" (bytes_to_hex p.receiver_key) (
              field "senderKey" (bytes_to_hex p.sender_key) (
                field "operatorKey" (bytes_to_hex p.operator_key)
                  (field "dust" dust (field "contribution" contribution end)))))))) in
    (
      w,
      rw (dust_to, contribution_to, payment_sats_to, asset_id_to, packet_to) refl,
      simp (
        lookup-put_opt,
        hex_to_bytes-bytes_to_hex p.receiver_key h.receiver_key,
        hex_to_bytes-bytes_to_hex p.sender_key h.sender_key,
        hex_to_bytes-bytes_to_hex p.operator_key h.operator_key,
        dust_from,
        contribution_from,
        payment_sats_from,
        asset_id_from,
        packet_from,
      ),
    )

abbrev pub IsFare : FareSpec → Type 0
IsFare (sats_fare units) = pos 0 ≤ℤ units
IsFare (asset_fare id units) = IsAssetId id × (pos 0 ≤ℤ units)

-- A resolved fare that is not negative, in an asset of bytes with a safe group index if it is in an
-- asset, is written, and read back as itself.
pub fare_from_wire-fare_to_wire :
    (f : FareSpec) → IsFare f → (w : Json) × (fare_to_wire f ≡ ok w) × (fare_from_wire w ≡ ok f)
unfolding fare_from_wire fare_to_wire asset_id_json
fare_from_wire-fare_to_wire (sats_fare units) h =
    let (value, value_to, value_from, _) = sats-Decodes units h in
    let w = obj (field "currency" (str (text "sats")) (field "units" value end)) in
    (w, rw value_to refl, rw value_from refl)
fare_from_wire-fare_to_wire (asset_fare id units) (hi, h) =
    let (value, value_to, value_from, _) = sats-Decodes units h in
    let w = obj (
      field "currency" (str (text "asset"))
        (field "units" value (field "assetId" (asset_id_json id) end))) in
    (w, rw (value_to, encode-asset_id id hi) refl, rw (value_from, decode-asset_id id hi) refl)
