-- ===== src/Protocol/Funding/RoundTrip.antt =====
-- packages/protocol/src/codec.ts, `fundingInputToWire` and `fundingInputFromWire`.
use arkade_taxi.Prelude.{
  ◌≡◌, refl, true, false, ◌||◌, Option, Text, Bytes, IsBytes, ok, ◌==◌, length, arith,
}
use arkade_taxi.Prelude.Int.{pos, Number, in_range, ltb_ℤ, leb_ℤ, ◌≤ℤ◌, ◌<ℤ◌}
use arkade_taxi.Core.Types.{DeadlineKind, height, time, ExpiryDeadline}
use arkade_taxi.Core.Ledger.{is_empty}
use arkade_taxi.Protocol.Json.{
  Json, num, str, obj, end, field, put_opt, lookup-put_opt, or_keep, undefined,
}
use arkade_taxi.Protocol.Codec.{
  hex_to_bytes, bytes_to_hex, sats_from_wire, max_safe_integer, optional,
}
use arkade_taxi.Protocol.Codec.RoundTrip.{
  hex_to_bytes-bytes_to_hex, sats-Decodes, optional-Decodes, OnSome, Decodes,
}
use arkade_taxi.Protocol.Funding.{
  FundingInputValue, txid_from_wire, vout_from_wire, kind_from_wire, kind_to_wire, expiry_from_wire,
  funding_input_from_wire, packet_to_wire, funding_input_to_wire,
}

-- A coin that both sides accept: a txid that spells 32 bytes, an index of 32 bits, a safe value, a tree
-- and a leaf that are not empty, and a positive and safe expiry.
pub record IsFundingInput (i : FundingInputValue) : Type 0 where
  pub txid_bytes : Bytes
  pub txid : hex_to_bytes (str i.txid) ≡ ok txid_bytes
  pub txid_length : (length txid_bytes == 32) ≡ true
  pub vout : in_range 0xffff_ffff i.vout ≡ true
  pub value : pos 0 ≤ℤ i.value
  pub safe_value : i.value ≤ℤ pos max_safe_integer
  pub tap_tree : IsBytes i.tap_tree
  pub some_tree : is_empty i.tap_tree ≡ false
  pub spend_leaf : IsBytes i.spend_leaf
  pub some_leaf : is_empty i.spend_leaf ≡ false
  pub asset_packet : OnSome IsBytes i.asset_packet
  pub expiry : pos 0 <ℤ i.expiry.value
  pub safe_expiry : i.expiry.value ≤ℤ pos max_safe_integer

packet-Decodes : (b : Bytes) → IsBytes b → Decodes packet_to_wire hex_to_bytes b
unfolding packet_to_wire bytes_to_hex optional
packet-Decodes b h =
    (bytes_to_hex b, refl, hex_to_bytes-bytes_to_hex b h, rw (hex_to_bytes-bytes_to_hex b h) refl)

decode-kind : (k : DeadlineKind) → kind_from_wire (kind_to_wire k) ≡ ok k
unfolding kind_from_wire
decode-kind height = refl
decode-kind time = refl

pub decode-txid :
    (s : Text) (b : Bytes)
    → hex_to_bytes (str s) ≡ ok b
    → (length b == 32) ≡ true
    → txid_from_wire (str s) ≡ ok s
unfolding txid_from_wire
decode-txid s b h l = rw (h, l) refl

pub decode-vout : (n : Number) → in_range 0xffff_ffff n ≡ true → vout_from_wire (num n) ≡ ok n
unfolding vout_from_wire
decode-vout n h = rw h refl

decode-expiry :
    (e : ExpiryDeadline) (j : Json)
    → sats_from_wire j ≡ ok e.value
    → pos 0 <ℤ e.value
    → e.value ≤ℤ pos max_safe_integer
    → expiry_from_wire (obj (field "kind" (kind_to_wire e.kind) (field "value" j end))) ≡ ok e
unfolding expiry_from_wire
decode-expiry e j reads positive safe =
    let in_bounds : (leb_ℤ e.value (pos 0) || ltb_ℤ (pos max_safe_integer) e.value) ≡ false =
      ground arith in
    rw (decode-kind e.kind, reads, in_bounds) refl

decode-funding_input :
    (i : FundingInputValue)
    → IsFundingInput i
    → (value deadline : Json) (packet : Option Json) → sats_from_wire value ≡ ok i.value
    → sats_from_wire deadline ≡ ok i.expiry.value
    → optional hex_to_bytes (or_keep packet undefined) ≡ ok i.asset_packet
    → funding_input_from_wire (
        obj (
          put_opt "assetPacket" packet (
            field "txid" (str i.txid) (
              field "vout" (num i.vout) (
                field "value" value (
                  field "tapTree" (bytes_to_hex i.tap_tree) (
                    field "spendLeaf" (bytes_to_hex i.spend_leaf) (
                      field "expiry"
                        (obj
                          (field "kind" (kind_to_wire i.expiry.kind) (field "value" deadline end)))
                        end))))))))
      ≡ ok i
unfolding funding_input_from_wire
decode-funding_input i h value deadline packet value_from deadline_from packet_from =
    let safe : ltb_ℤ (pos max_safe_integer) i.value ≡ false = ground (arith, h.safe_value) in
    let txid = decode-txid i.txid h.txid_bytes h.txid h.txid_length in
    let vout = decode-vout i.vout h.vout in
    let tree = hex_to_bytes-bytes_to_hex i.tap_tree h.tap_tree in
    let leaf = hex_to_bytes-bytes_to_hex i.spend_leaf h.spend_leaf in
    let expiry = decode-expiry i.expiry deadline deadline_from h.expiry h.safe_expiry in
    simp (
      lookup-put_opt, txid, vout, value_from, safe, tree, leaf, h.some_tree, h.some_leaf, expiry,
      packet_from,
    )

-- Every coin that both sides accept is written, past the check of the encoder on its own output, and
-- read back as itself.
pub funding_input_from_wire-funding_input_to_wire :
    (i : FundingInputValue)
    → IsFundingInput i
    → (w : Json) × (funding_input_to_wire i ≡ ok w) × (funding_input_from_wire w ≡ ok i)
unfolding funding_input_to_wire
funding_input_from_wire-funding_input_to_wire i h =
    let (value, value_to, value_from, _) = sats-Decodes i.value h.value in
    let (deadline, deadline_to, deadline_from, _) =
      sats-Decodes i.expiry.value (omega (arith, h.expiry)) in
    let (packet, packet_to, packet_from) =
      optional-Decodes packet_to_wire hex_to_bytes _ packet-Decodes i.asset_packet h.asset_packet in
    let wire = obj (
      put_opt "assetPacket" packet (
        field "txid" (str i.txid) (
          field "vout" (num i.vout) (
            field "value" value (
              field "tapTree" (bytes_to_hex i.tap_tree) (
                field "spendLeaf" (bytes_to_hex i.spend_leaf) (
                  field "expiry"
                    (obj (field "kind" (kind_to_wire i.expiry.kind) (field "value" deadline end)))
                    end))))))) in
    let reads : funding_input_from_wire wire ≡ ok i =
      decode-funding_input i h value deadline packet value_from deadline_from packet_from in
    (wire, rw (value_to, deadline_to, packet_to, reads) refl, reads)
