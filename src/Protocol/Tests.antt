-- ===== src/Protocol/Tests.antt =====
-- packages/protocol/src/codec.ts: the theorems at sample values.
use arkade_taxi.Prelude.{ℕ, true, ltb, ◌≡◌, refl, none, some, [], ◌∷◌, IsBytes, ok, arith}
use arkade_taxi.Prelude.Int.{pos, int}
use arkade_taxi.Core.Fares.{to_recycle}
use arkade_taxi.Core.Types.{seconds, to_receiver, sats_units, DustCovenantParams}
use arkade_taxi.Core.Tests.{token_a, repeat}
use arkade_taxi.Protocol.Json.{Json, str}
use arkade_taxi.Protocol.Codec.{
  hex_to_bytes, bytes_to_hex, quote_params_from_wire, quote_params_to_wire,
}
use arkade_taxi.Protocol.Codec.RoundTrip.{bytes_to_hex-hex_to_bytes}
use arkade_taxi.Protocol.Codec.QuoteParams.{
  IsEncodable, quote_params_from_wire-quote_params_to_wire,
}
use arkade_taxi.Protocol.Spend.{
  CovenantSpendInputValue, covenant_spend_input_from_wire, covenant_spend_input_to_wire,
}
use arkade_taxi.Protocol.Spend.RoundTrip.{
  IsSpendInput, covenant_spend_input_from_wire-covenant_spend_input_to_wire,
}

bytes_to_hex-hex_to_bytes_example :
    IsBytes (171 ∷ []) × (bytes_to_hex (171 ∷ []) ≡ str (b'a' ∷ b'b' ∷ []))
unfolding hex_to_bytes
bytes_to_hex-hex_to_bytes_example = bytes_to_hex-hex_to_bytes (b'a' ∷ b'b' ∷ []) (171 ∷ []) refl

abbrev params : DustCovenantParams
params = record {
  receiver_key = 1 ∷ [];
  sender_key = 2 ∷ [];
  operator_key = 3 ∷ [];
  operator_signer_key = 4 ∷ [];
  exit_delay = record { value = pos 1024; type = seconds };
  dust = pos 330;
  topup = pos 330;
  payment_sats = none;
  asset_id = some token_a;
  locktime = pos 600_000_000;
  recovery_recipient = some to_receiver;
  claim_mode = some to_recycle;
  receiver_fare = some (sats_units (pos 5));
}

params-IsEncodable : IsEncodable params
params-IsEncodable = record {
  receiver_key = (refl, tt);
  sender_key = (refl, tt);
  operator_key = (refl, tt);
  operator_signer_key = (refl, tt);
  dust = omega arith;
  topup = omega arith;
  locktime = omega arith;
  exit_delay = omega arith;
  payment_sats = tt;
  asset_id = ((refl, (refl, tt)), refl);
  receiver_fare = omega arith;
}

quote_params_from_wire-quote_params_to_wire_example :
    (w : Json) × (quote_params_to_wire params ≡ ok w) × (quote_params_from_wire w ≡ ok params)
quote_params_from_wire-quote_params_to_wire_example =
    quote_params_from_wire-quote_params_to_wire params params-IsEncodable

abbrev spent_coin : CovenantSpendInputValue
spent_coin = record {
  txid = repeat 64 b'a';
  vout = int (pos 0);
  value = pos 330;
  tap_tree = 1 ∷ [];
  control = record { version = 193; internal_key = repeat 32 2; merkle_path = repeat 32 7 ∷ [] };
  leaf = 81 ∷ 192 ∷ [];
  asset_packet = some (9 ∷ []);
}

bytes32 : (n : ℕ) → ltb n 256 ≡ true → IsBytes (repeat 32 n)
bytes32 n h = ground arith

spent_coin-IsSpendInput : IsSpendInput spent_coin
unfolding hex_to_bytes
spent_coin-IsSpendInput = record {
  txid_bytes = repeat 32 170;
  txid = refl;
  txid_length = refl;
  vout = refl;
  value = omega arith;
  tap_tree = ((refl, tt), refl);
  leaf = (refl, (refl, tt));
  leaf_length = refl;
  version = refl;
  internal_key = (bytes32 2 refl, refl);
  merkle_path = ((bytes32 7 refl, refl), tt);
  leaf_version = refl;
  asset_packet = ((refl, tt), refl);
}

covenant_spend_input_from_wire-covenant_spend_input_to_wire_example :
    (w : Json) × (covenant_spend_input_to_wire spent_coin ≡ ok w)
    × (covenant_spend_input_from_wire w ≡ ok spent_coin)
covenant_spend_input_from_wire-covenant_spend_input_to_wire_example =
    covenant_spend_input_from_wire-covenant_spend_input_to_wire spent_coin spent_coin-IsSpendInput
