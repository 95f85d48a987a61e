-- ===== src/Protocol/Spend.antt =====
-- packages/protocol/src/codec.ts: the codec of a covenant coin that is spent. The tests of prototypes and
-- property descriptors hold of every parsed JSON value.
pub mod RoundTrip
use Prim.Native.String.{String}
use arkade_taxi.Prelude.{
  ℕ, ◌-◌, ◌%◌, Bool, true, false, not, ◌||◌, Option, none, some, List, [], ◌∷◌, Text, Bytes, Result,
  ok, err, ◌>>=◌, ◌>>◌, throw_if, if◌then◌else◌, ◌==◌, ltb, length,
}
use arkade_taxi.Prelude.Int.{ℤ, pos, Number, int, leb_ℤ}
use arkade_taxi.Core.Ledger.{is_empty}
use arkade_taxi.Protocol.Json.{
  Json, Items, nil, cons, undefined, num, str, arr, obj, end, field, get, put_opt, exact_keys,
  exact_keys_with,
}
use arkade_taxi.Protocol.Codec.{
  Failure, not_object, wrong_keys, bad_array, key_length, node_length, version_mismatch,
  empty_packet, not_positive, empty_tree_or_leaf, hex_to_bytes, bytes_to_hex, sats_from_wire,
  sats_to_wire, optional, optional_to,
}
use arkade_taxi.Protocol.Sponsored.{tag_from_wire}
use arkade_taxi.Protocol.Funding.{is_record, txid_from_wire, vout_from_wire, packet_to_wire}

pub record ControlBlock : Type 0 where
  pub version : ℕ
  pub internal_key : Bytes
  pub merkle_path : List Bytes

pub record CovenantSpendInputValue : Type 0 where
  pub txid : Text
  pub vout : Number
  pub value : ℤ
  pub tap_tree : Bytes
  pub control : ControlBlock
  pub leaf : Bytes
  pub asset_packet : Option Bytes

-- 32 bytes, or the failure given.
unfoldable pub bytes32_from_wire : Failure → Json → Result Failure Bytes
bytes32_from_wire failure j = do
  bytes ← hex_to_bytes j
  throw_if (not (length bytes == 32)) failure
  ok bytes

unfoldable pub nodes_from_wire : Items → Result Failure (List Bytes)
nodes_from_wire nil = ok []
nodes_from_wire (cons j js) = do
  node ← bytes32_from_wire node_length j
  nodes ← nodes_from_wire js
  ok (node ∷ nodes)

unfoldable pub merkle_path_from_wire : Json → Result Failure (List Bytes)
merkle_path_from_wire (arr js) = nodes_from_wire js
merkle_path_from_wire _ = err bad_array

abbrev pub control_keys : List String
control_keys = "version" ∷ "internalKey" ∷ "merklePath" ∷ []

unfoldable pub control_from_wire : Json → Result Failure ControlBlock
control_from_wire c = do
  throw_if (not (is_record c)) not_object
  throw_if (not (exact_keys control_keys c)) wrong_keys
  version ← tag_from_wire (get "version" c)
  internal_key ← bytes32_from_wire key_length (get "internalKey" c)
  merkle_path ← merkle_path_from_wire (get "merklePath" c)
  ok (record { version = version; internal_key = internal_key; merkle_path = merkle_path })

-- The last byte; the leaf has two or more where it is read.
abbrev pub last_byte : Bytes → ℕ
last_byte [] = 0
last_byte (b ∷ []) = b
last_byte (_ ∷ c ∷ bs) = last_byte (c ∷ bs)

-- `version & 0xfe`, of a byte
abbrev pub even_part : ℕ → ℕ
even_part version = version - version % 2

unfoldable pub packet_from_wire : Json → Result Failure Bytes
packet_from_wire j = do packet ← hex_to_bytes j; throw_if (is_empty packet) empty_packet; ok packet

abbrev pub spend_keys : List String
spend_keys = "txid" ∷ "vout" ∷ "value" ∷ "tapTree" ∷ "selectedLeaf" ∷ "controlBlock" ∷ []

unfoldable pub covenant_spend_input_from_wire : Json → Result Failure CovenantSpendInputValue
covenant_spend_input_from_wire w = do
  throw_if (not (is_record w)) not_object
  throw_if (not (exact_keys_with spend_keys ("assetPacket" ∷ []) w)) wrong_keys
  txid ← txid_from_wire (get "txid" w)
  vout ← vout_from_wire (get "vout" w)
  value ← sats_from_wire (get "value" w)
  throw_if (leb_ℤ value (pos 0)) not_positive
  tap_tree ← hex_to_bytes (get "tapTree" w)
  leaf ← hex_to_bytes (get "selectedLeaf" w)
  throw_if (is_empty tap_tree || ltb (length leaf) 2) empty_tree_or_leaf
  control ← control_from_wire (get "controlBlock" w)
  throw_if (not (even_part control.version == last_byte leaf)) version_mismatch
  asset_packet ← optional packet_from_wire (get "assetPacket" w)
  ok (record {
    txid = txid;
    vout = vout;
    value = value;
    tap_tree = tap_tree;
    control = control;
    leaf = leaf;
    asset_packet = asset_packet;
  })

unfoldable pub nodes_to_wire : List Bytes → Items
nodes_to_wire [] = nil
nodes_to_wire (n ∷ ns) = cons (bytes_to_hex n) (nodes_to_wire ns)

unfoldable pub control_to_wire : ControlBlock → Json
control_to_wire c = obj (
    field "version" (num (int (pos c.version))) (
      field "internalKey" (bytes_to_hex c.internal_key)
        (field "merklePath" (arr (nodes_to_wire c.merkle_path)) end)))

-- The object that the encoder builds.
unfoldable pub spend_object : CovenantSpendInputValue → Json → Option Json → Json
spend_object input value asset_packet = obj (
    put_opt "assetPacket" asset_packet (
      field "txid" (str input.txid) (
        field "vout" (num input.vout) (
          field "value" value (
            field "tapTree" (bytes_to_hex input.tap_tree) (
              field "selectedLeaf" (bytes_to_hex input.leaf)
                (field "controlBlock" (control_to_wire input.control) end)))))))

unfoldable pub covenant_spend_input_to_wire : CovenantSpendInputValue → Result Failure Json
covenant_spend_input_to_wire input = do
  value ← sats_to_wire input.value
  asset_packet ← optional_to packet_to_wire input.asset_packet
  checked ← covenant_spend_input_from_wire (spend_object input value asset_packet)
  ok (spend_object input value asset_packet)
