-- ===== src/Protocol/Codec/RoundTrip.antt =====
-- packages/protocol/src/codec.ts: the encoders and their decoders, field by field.
use arkade_taxi.Prelude.{
  ℕ, ◌≡◌, refl, ap, sym, ◌*◌, ◌%◌, Bool, true, false, not, Option, none, some, [], ◌∷◌, Text, Bytes,
  IsBytes, Result, ok, throw_if, ◌==◌, leb, all, length, arith, >>-eq-ok, throw_if-eq-ok,
  ok-injective,
}
use arkade_taxi.Prelude.Int.{ℤ, pos, negsuc, int, leb_ℤ, ◌≤ℤ◌, ◌<ℤ◌}
use arkade_taxi.Prelude.Decimal.{
  to_decimal, is_decimal, parse_decimal-to_decimal, to_decimal-is_decimal,
}
use arkade_taxi.Prelude.Hex.{
  is_hex, parse_pairs, parse_pairs-concat_hex, concat_hex-is_hex, length-concat_hex,
  concat_hex-parse_pairs, parse_pairs-IsBytes,
}
use arkade_taxi.Core.Fares.{AssetIdRef, ResolvedClaimMode, to_recycle, to_purchase}
use arkade_taxi.Core.Types.{
  TimelockType, blocks, seconds, RelativeTimelock, RecoveryRecipient, to_sender, to_receiver,
  ReceiverFare, sats_units, asset_units_of,
}
use arkade_taxi.Protocol.Json.{Json, undefined, num, str, obj, end, field, or_keep}
use Prim.Native.String.{String}
use arkade_taxi.Protocol.Codec.{
  text, unit_name, unit_from_wire, Failure, odd_length, not_lowercase_hex, hex_to_bytes,
  bytes_to_hex, is_empty_text, sats_from_wire, sats_to_wire, max_safe_integer,
  group_index_from_wire, asset_id_from_wire, asset_id_to_wire, exit_delay_from_wire,
  exit_delay_to_wire, recipient_from_wire, recipient_to_wire, claim_mode_from_wire,
  claim_mode_to_wire, receiver_fare_from_wire, receiver_fare_to_wire, optional, optional_to,
}

even : (n : ℕ) → ((2 * n) % 2 == 0) ≡ true
even n = ground arith

-- Bytes written as hexadecimal are read back as the same bytes.
pub hex_to_bytes-bytes_to_hex : (b : Bytes) → IsBytes b → hex_to_bytes (bytes_to_hex b) ≡ ok b
unfolding hex_to_bytes bytes_to_hex
hex_to_bytes-bytes_to_hex b h =
    rw (length-concat_hex b h, even (length b), concat_hex-is_hex b h, parse_pairs-concat_hex b h)
      refl

not-false : (b : Bool) → not b ≡ false → b ≡ true
not-false b h = ground arith

==-eq : (a b : ℕ) → (a == b) ≡ true → a ≡ b
==-eq a b h = ground arith

-- A string that is read as bytes is the only spelling of them: the bytes are bytes, and writing them
-- gives the string again.
pub bytes_to_hex-hex_to_bytes :
    (s : Text) (b : Bytes) → hex_to_bytes (str s) ≡ ok b → IsBytes b × (bytes_to_hex b ≡ str s)
unfolding hex_to_bytes bytes_to_hex
bytes_to_hex-hex_to_bytes s b h =
    let first = >>-eq-ok (throw_if (not (length s % 2 == 0)) odd_length) _ h in
    let second = >>-eq-ok (throw_if (not (all is_hex s)) not_lowercase_hex) _ first.1 in
    let even_length = not-false _ (throw_if-eq-ok _ _ first.0) in
    let digits = not-false _ (throw_if-eq-ok _ _ second.0) in
    let is_b : parse_pairs s ≡ b = ok-injective second.1 in
    rw (sym is_b) (
      parse_pairs-IsBytes s digits,
      ap str (concat_hex-parse_pairs s digits (==-eq _ _ even_length)),
    )

-- An encoder that succeeds on a value, with something its decoder reads as that value.
abbrev pub Decodes {ℓ} :
    {A : Type ℓ} → (A → Result Failure Json) → (Json → Result Failure A) → A → Type ℓ
Decodes encode decode a =
    (j : Json) × (encode a ≡ ok j) × (decode j ≡ ok a) × (optional decode j ≡ ok (some a))

not-empty : (s : Text) → is_decimal s ≡ true → is_empty_text s ≡ false
unfolding is_decimal
not-empty [] h = cc
not-empty (_ ∷ _) h = refl

decode-sats : (n : ℕ) → sats_from_wire (str (to_decimal n)) ≡ ok (pos n)
unfolding sats_from_wire
decode-sats n =
    rw
      (
        not-empty (to_decimal n) (to_decimal-is_decimal n),
        to_decimal-is_decimal n,
        parse_decimal-to_decimal n,
      )
      refl

-- An amount that is not negative is written, and read back as itself.
pub sats-Decodes : (z : ℤ) → pos 0 ≤ℤ z → Decodes sats_to_wire sats_from_wire z
unfolding sats_to_wire optional
sats-Decodes (pos n) h = (str (to_decimal n), refl, decode-sats n, rw (decode-sats n) refl)
sats-Decodes (negsuc n) h = absurd (omega arith)

abbrev pub IsAssetId : AssetIdRef → Type 0
IsAssetId a = IsBytes a.txid × (leb a.group_index max_safe_integer ≡ true)

-- The object that the encoder builds.
unfoldable pub asset_id_json : AssetIdRef → Json
asset_id_json a =
    obj
      (field "txid" (bytes_to_hex a.txid) (field "groupIndex" (num (int (pos a.group_index))) end))

pub decode-asset_id : (a : AssetIdRef) → IsAssetId a → asset_id_from_wire (asset_id_json a) ≡ ok a
unfolding asset_id_from_wire group_index_from_wire asset_id_json
decode-asset_id a (hb, hn) = rw (hex_to_bytes-bytes_to_hex a.txid hb, hn) refl

pub encode-asset_id : (a : AssetIdRef) → IsAssetId a → asset_id_to_wire a ≡ ok (asset_id_json a)
unfolding asset_id_to_wire group_index_from_wire asset_id_json
encode-asset_id a h = rw (h.1) refl

-- An asset id of bytes with a safe group index is written, and read back as itself.
pub asset_id-Decodes :
    (a : AssetIdRef) → IsAssetId a → Decodes asset_id_to_wire asset_id_from_wire a
unfolding optional asset_id_json
asset_id-Decodes a h =
    (asset_id_json a, encode-asset_id a h, decode-asset_id a h, rw (decode-asset_id a h) refl)

exit_delay_json : ℕ → TimelockType → Json
exit_delay_json n t =
    obj (field "value" (str (to_decimal n)) (field "type" (str (unit_name t)) end))

decode-unit : (t : TimelockType) → unit_from_wire (str (unit_name t)) ≡ ok t
unfolding unit_from_wire
decode-unit blocks = refl
decode-unit seconds = refl

decode-exit_delay :
    (n : ℕ) (t : TimelockType)
    → pos 0 <ℤ pos n
    → exit_delay_from_wire (exit_delay_json n t) ≡ ok (record { value = pos n; type = t })
unfolding exit_delay_from_wire exit_delay_json
decode-exit_delay n t h =
    let positive : leb_ℤ (pos n) (pos 0) ≡ false = ground arith in
    rw (decode-unit t, decode-sats n, positive) refl

exit_delay_of-Decodes :
    (v : ℤ) (t : TimelockType)
    → pos 0 <ℤ v
    → Decodes exit_delay_to_wire exit_delay_from_wire (record { value = v; type = t })
unfolding exit_delay_to_wire sats_to_wire optional exit_delay_json
exit_delay_of-Decodes (pos n) t h =
    (exit_delay_json n t, refl, decode-exit_delay n t h, rw (decode-exit_delay n t h) refl)
exit_delay_of-Decodes (negsuc n) t h = absurd (omega arith)

-- An exit delay that is positive is written, and read back as itself.
pub exit_delay-Decodes :
    (d : RelativeTimelock) → pos 0 <ℤ d.value → Decodes exit_delay_to_wire exit_delay_from_wire d
exit_delay-Decodes d h = exit_delay_of-Decodes d.value d.type h

pub recipient-Decodes : (r : RecoveryRecipient) → Decodes recipient_to_wire recipient_from_wire r
unfolding recipient_to_wire recipient_from_wire optional
recipient-Decodes to_sender = (_, refl, refl, refl)
recipient-Decodes to_receiver = (_, refl, refl, refl)

pub claim_mode-Decodes : (m : ResolvedClaimMode) → Decodes claim_mode_to_wire claim_mode_from_wire m
unfolding claim_mode_to_wire claim_mode_from_wire optional
claim_mode-Decodes to_recycle = (_, refl, refl, refl)
claim_mode-Decodes to_purchase = (_, refl, refl, refl)

abbrev pub IsReceiverFare : ReceiverFare → Type 0
IsReceiverFare (sats_units units) = pos 0 ≤ℤ units
IsReceiverFare (asset_units_of units) = pos 0 ≤ℤ units

receiver_fare_json : String → ℕ → Json
receiver_fare_json currency n =
    obj (field "currency" (str (text currency)) (field "units" (str (to_decimal n)) end))

decode-sats_units :
    (n : ℕ) → receiver_fare_from_wire (receiver_fare_json "sats" n) ≡ ok (sats_units (pos n))
unfolding receiver_fare_from_wire receiver_fare_json
decode-sats_units n = rw (decode-sats n) refl

decode-asset_units :
    (n : ℕ) → receiver_fare_from_wire (receiver_fare_json "asset" n) ≡ ok (asset_units_of (pos n))
unfolding receiver_fare_from_wire receiver_fare_json
decode-asset_units n = rw (decode-sats n) refl

pub receiver_fare-Decodes :
    (f : ReceiverFare) → IsReceiverFare f → Decodes receiver_fare_to_wire receiver_fare_from_wire f
unfolding receiver_fare_to_wire sats_to_wire optional receiver_fare_json
receiver_fare-Decodes (sats_units (pos n)) h =
    (receiver_fare_json "sats" n, refl, decode-sats_units n, rw (decode-sats_units n) refl)
receiver_fare-Decodes (asset_units_of (pos n)) h =
    (receiver_fare_json "asset" n, refl, decode-asset_units n, rw (decode-asset_units n) refl)
receiver_fare-Decodes (sats_units (negsuc n)) h = absurd (omega arith)
receiver_fare-Decodes (asset_units_of (negsuc n)) h = absurd (omega arith)

-- A predicate on what an optional field holds.
abbrev pub OnSome {ℓ κ} : {A : Type ℓ} → (A → Type κ) → Option A → Type κ
OnSome P none = Unit
OnSome P (some a) = P a

abbrev pub DecodesOption {ℓ} :
    {A : Type ℓ} → (A → Result Failure Json) → (Json → Result Failure A) → Option A → Type ℓ
DecodesOption encode decode o =
    (j : Option Json) × (optional_to encode o ≡ ok j)
    × (optional decode (or_keep j undefined) ≡ ok o)

pub optional-Decodes {ℓ κ} :
    {A : Type ℓ} (encode : A → Result Failure Json) (decode : Json → Result Failure A)
    (P : A → Type κ)
    → ((a : A) → P a → Decodes encode decode a)
    → (o : Option A) → OnSome P o
    → DecodesOption encode decode o
unfolding optional_to optional
optional-Decodes encode decode P h none p = (none, refl, refl)
optional-Decodes encode decode P h (some a) p = let (j, e, _, d) = h a p in (some j, rw e refl, d)

pub optional-Decodes_all {ℓ} :
    {A : Type ℓ} (encode : A → Result Failure Json) (decode : Json → Result Failure A)
    → ((a : A) → Decodes encode decode a)
    → (o : Option A) → DecodesOption encode decode o
unfolding optional_to optional
optional-Decodes_all encode decode h none = (none, refl, refl)
optional-Decodes_all encode decode h (some a) = let (j, e, _, d) = h a in (some j, rw e refl, d)
