-- ===== src/Protocol/Codec/QuoteParams.antt =====
-- packages/protocol/src/codec.ts, `quoteParamsToWire` and `quoteParamsFromWire`.
use arkade_taxi.Prelude.{◌≡◌, refl, Option, IsBytes, ok}
use arkade_taxi.Prelude.Int.{ℤ, pos, ◌≤ℤ◌, ◌<ℤ◌}
use arkade_taxi.Core.Types.{DustCovenantParams}
use arkade_taxi.Protocol.Json.{Json, obj, end, field, Fields, put_opt, lookup-put_opt}
use arkade_taxi.Protocol.Codec.{
  bytes_to_hex, sats_from_wire, sats_to_wire, asset_id_from_wire, asset_id_to_wire,
  recipient_from_wire, recipient_to_wire, claim_mode_from_wire, claim_mode_to_wire,
  receiver_fare_from_wire, receiver_fare_to_wire, quote_params_from_wire, quote_params_to_wire,
}
use arkade_taxi.Protocol.Codec.RoundTrip.{
  hex_to_bytes-bytes_to_hex, sats-Decodes, asset_id-Decodes, exit_delay-Decodes, recipient-Decodes,
  claim_mode-Decodes, receiver_fare-Decodes, optional-Decodes, optional-Decodes_all, IsAssetId,
  IsReceiverFare, OnSome,
}

-- What the wire can carry: keys of bytes, amounts that are not negative, a positive exit delay, and a
-- group index that a JavaScript number holds.
pub record IsEncodable (p : DustCovenantParams) : Type 0 where
  pub receiver_key : IsBytes p.receiver_key
  pub sender_key : IsBytes p.sender_key
  pub operator_key : IsBytes p.operator_key
  pub operator_signer_key : IsBytes p.operator_signer_key
  pub dust : pos 0 ≤ℤ p.dust
  pub topup : pos 0 ≤ℤ p.topup
  pub locktime : pos 0 ≤ℤ p.locktime
  pub exit_delay : pos 0 <ℤ p.exit_delay.value
  pub payment_sats : OnSome (λ (z : ℤ). pos 0 ≤ℤ z) p.payment_sats
  pub asset_id : OnSome IsAssetId p.asset_id
  pub receiver_fare : OnSome IsReceiverFare p.receiver_fare

module _ (p : DustCovenantParams) (dust topup locktime exit_delay : Json)
    (payment_sats asset_id recipient claim_mode fare : Option Json) where
  wire_fields : Fields
  wire_fields = field "receiverKey" (bytes_to_hex p.receiver_key) (
      field "senderKey" (bytes_to_hex p.sender_key) (
        field "operatorKey" (bytes_to_hex p.operator_key) (
          field "operatorSignerKey" (bytes_to_hex p.operator_signer_key) (
            field "dust" dust (
              field "topup" topup
                (field "locktime" locktime (field "exitDelay" exit_delay end)))))))

  wire_object : Json
  unfolding wire_fields
  wire_object = obj (
      put_opt "receiverFare" fare (
        put_opt "claimMode" claim_mode (
          put_opt "recoveryRecipient" recipient
            (put_opt "assetId" asset_id (put_opt "paymentSats" payment_sats wire_fields)))))

-- Covenant parameters that the wire can carry are written, and read back as themselves, with the same
-- fields absent.
pub quote_params_from_wire-quote_params_to_wire :
    (p : DustCovenantParams)
    → IsEncodable p
    → (w : Json) × (quote_params_to_wire p ≡ ok w) × (quote_params_from_wire w ≡ ok p)
unfolding quote_params_to_wire quote_params_from_wire wire_object wire_fields
quote_params_from_wire-quote_params_to_wire p h =
    let (dust, dust_to, dust_from, _) = sats-Decodes p.dust h.dust in
    let (topup, topup_to, topup_from, _) = sats-Decodes p.topup h.topup in
    let (locktime, locktime_to, locktime_from, _) = sats-Decodes p.locktime h.locktime in
    let (exit_delay, exit_delay_to, exit_delay_from, _) =
      exit_delay-Decodes p.exit_delay h.exit_delay in
    let (payment_sats, payment_sats_to, payment_sats_from) =
      optional-Decodes sats_to_wire sats_from_wire _ sats-Decodes p.payment_sats h.payment_sats in
    let (asset_id, asset_id_to, asset_id_from) =
      optional-Decodes asset_id_to_wire asset_id_from_wire _ asset_id-Decodes p.asset_id
        h.asset_id in
    let (recipient, recipient_to, recipient_from) =
      optional-Decodes_all recipient_to_wire recipient_from_wire recipient-Decodes
        p.recovery_recipient in
    let (claim_mode, claim_mode_to, claim_mode_from) =
      optional-Decodes_all claim_mode_to_wire claim_mode_from_wire claim_mode-Decodes
        p.claim_mode in
    let (fare, fare_to, fare_from) =
      optional-Decodes receiver_fare_to_wire receiver_fare_from_wire _ receiver_fare-Decodes
        p.receiver_fare h.receiver_fare in
    (
      wire_object p dust topup locktime exit_delay payment_sats asset_id recipient claim_mode fare,
      rw
          (
            dust_to, topup_to, locktime_to, exit_delay_to, payment_sats_to, asset_id_to,
            recipient_to, claim_mode_to, fare_to,
          )
          refl,
      simp (
        lookup-put_opt,
        hex_to_bytes-bytes_to_hex p.receiver_key h.receiver_key,
        hex_to_bytes-bytes_to_hex p.sender_key h.sender_key,
        hex_to_bytes-bytes_to_hex p.operator_key h.operator_key,
        hex_to_bytes-bytes_to_hex p.operator_signer_key h.operator_signer_key,
        dust_from,
        topup_from,
        locktime_from,
        exit_delay_from,
        payment_sats_from,
        asset_id_from,
        recipient_from,
        claim_mode_from,
        fare_from,
      ),
    )
