-- ===== src/Protocol/Spend/RoundTrip.antt =====
-- packages/protocol/src/codec.ts, `covenantSpendInputToWire` and `covenantSpendInputFromWire`.
use arkade_taxi.Prelude.{
  ◌≡◌, refl, true, false, Option, none, some, List, [], ◌∷◌, Bytes, IsBytes, ok, ◌==◌, ltb, leb,
  length, All, arith,
}
use arkade_taxi.Prelude.Int.{pos, in_range, leb_ℤ, ◌<ℤ◌}
use arkade_taxi.Core.Ledger.{is_empty}
use arkade_taxi.Protocol.Json.{Json, undefined, str, or_keep, lookup-put_opt, exact_keys_with}
use arkade_taxi.Protocol.Codec.{
  Failure, key_length, node_length, hex_to_bytes, bytes_to_hex, sats_from_wire, optional,
}
use arkade_taxi.Protocol.Codec.RoundTrip.{
  hex_to_bytes-bytes_to_hex, sats-Decodes, optional-Decodes, OnSome, Decodes,
}
use arkade_taxi.Protocol.Sponsored.{tag_from_wire}
use arkade_taxi.Protocol.Funding.{packet_to_wire}
use arkade_taxi.Protocol.Funding.RoundTrip.{decode-txid, decode-vout}
use arkade_taxi.Protocol.Spend.{
  ControlBlock, CovenantSpendInputValue, bytes32_from_wire, nodes_from_wire, merkle_path_from_wire,
  control_from_wire, last_byte, even_part, packet_from_wire, spend_keys,
  covenant_spend_input_from_wire, nodes_to_wire, control_to_wire, spend_object,
  covenant_spend_input_to_wire,
}

abbrev pub IsBytes32 : Bytes → Type 0
IsBytes32 b = IsBytes b × ((length b == 32) ≡ true)

abbrev pub IsPacket : Bytes → Type 0
IsPacket b = IsBytes b × (is_empty b ≡ false)

-- A spent coin that both sides accept.
pub record IsSpendInput (i : CovenantSpendInputValue) : Type 0 where
  pub txid_bytes : Bytes
  pub txid : hex_to_bytes (str i.txid) ≡ ok txid_bytes
  pub txid_length : (length txid_bytes == 32) ≡ true
  pub vout : in_range 0xffff_ffff i.vout ≡ true
  pub value : pos 0 <ℤ i.value
  pub tap_tree : IsPacket i.tap_tree
  pub leaf : IsBytes i.leaf
  pub leaf_length : ltb (length i.leaf) 2 ≡ false
  pub version : leb i.control.version 255 ≡ true
  pub internal_key : IsBytes32 i.control.internal_key
  pub merkle_path : All IsBytes32 i.control.merkle_path
  pub leaf_version : (even_part i.control.version == last_byte i.leaf) ≡ true
  pub asset_packet : OnSome IsPacket i.asset_packet

packet-Decodes : (b : Bytes) → IsPacket b → Decodes packet_to_wire packet_from_wire b
unfolding packet_to_wire packet_from_wire bytes_to_hex optional
packet-Decodes b (h, l) =
    let reads = hex_to_bytes-bytes_to_hex b h in
    (bytes_to_hex b, refl, rw (reads, l) refl, rw (reads, l) refl)

decode-bytes32 :
    (f : Failure) (b : Bytes) → IsBytes32 b → bytes32_from_wire f (bytes_to_hex b) ≡ ok b
unfolding bytes32_from_wire
decode-bytes32 f b (h, l) = rw (hex_to_bytes-bytes_to_hex b h, l) refl

decode-nodes : (ns : List Bytes) → All IsBytes32 ns → nodes_from_wire (nodes_to_wire ns) ≡ ok ns
unfolding nodes_from_wire nodes_to_wire
decode-nodes [] h = refl
decode-nodes (n ∷ ns) (h, hs) = rw (decode-bytes32 node_length n h, decode-nodes ns hs) refl

decode-control :
    (c : ControlBlock)
    → leb c.version 255 ≡ true
    → IsBytes32 c.internal_key
    → All IsBytes32 c.merkle_path
    → control_from_wire (control_to_wire c) ≡ ok c
unfolding control_from_wire control_to_wire tag_from_wire merkle_path_from_wire
decode-control c v k p =
    rw (v, decode-bytes32 key_length c.internal_key k, decode-nodes c.merkle_path p) refl

spend_object-keys :
    (i : CovenantSpendInputValue) (value : Json) (packet : Option Json)
    → exact_keys_with spend_keys ("assetPacket" ∷ []) (spend_object i value packet) ≡ true
unfolding spend_object
spend_object-keys i value none = refl
spend_object-keys i value (some packet) = refl

decode-spend_object :
    (i : CovenantSpendInputValue)
    → IsSpendInput i
    → (value : Json) (packet : Option Json) → sats_from_wire value ≡ ok i.value
    → optional packet_from_wire (or_keep packet undefined) ≡ ok i.asset_packet
    → covenant_spend_input_from_wire (spend_object i value packet) ≡ ok i
unfolding covenant_spend_input_from_wire spend_object
decode-spend_object i h value packet value_from packet_from =
    let positive : leb_ℤ i.value (pos 0) ≡ false = ground (arith, h.value) in
    let keys = spend_object-keys i value packet in
    let txid = decode-txid i.txid h.txid_bytes h.txid h.txid_length in
    let vout = decode-vout i.vout h.vout in
    let tree = hex_to_bytes-bytes_to_hex i.tap_tree h.tap_tree.0 in
    let some_tree = h.tap_tree.1 in
    let leaf = hex_to_bytes-bytes_to_hex i.leaf h.leaf in
    let control = decode-control i.control h.version h.internal_key h.merkle_path in
    rw keys (
      simp (
        lookup-put_opt, txid, vout, value_from, positive, tree, leaf, some_tree, h.leaf_length,
        control, h.leaf_version, packet_from,
      ))

-- Every spent coin that both sides accept - a txid of 32 bytes, an index of 32 bits, a positive value, a
-- tree, a leaf whose version is the control block's, keys and nodes of 32 bytes - is written, past the
-- check of the encoder on its own output, and read back as itself.
pub covenant_spend_input_from_wire-covenant_spend_input_to_wire :
    (i : CovenantSpendInputValue)
    → IsSpendInput i
    → (w : Json) × (covenant_spend_input_to_wire i ≡ ok w)
      × (covenant_spend_input_from_wire w ≡ ok i)
unfolding covenant_spend_input_to_wire
covenant_spend_input_from_wire-covenant_spend_input_to_wire i h =
    let (value, value_to, value_from, _) = sats-Decodes i.value (omega (arith, h.value)) in
    let (packet, packet_to, packet_from) =
      optional-Decodes packet_to_wire packet_from_wire _ packet-Decodes i.asset_packet
        h.asset_packet in
    let reads = decode-spend_object i h value packet value_from packet_from in
    (spend_object i value packet, rw (value_to, packet_to, reads) refl, reads)
