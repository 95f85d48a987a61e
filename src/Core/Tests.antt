-- ===== src/Core/Tests.antt =====
-- packages/core: advances, rules and quotes to try the operations on.
mod Advances
mod Quotes
use arkade_taxi.Prelude.{ℕ, zero, suc, true, Option, none, some, List, [], ◌∷◌}
use arkade_taxi.Prelude.Int.{pos, int}
use arkade_taxi.Core.Fares.{
  AssetIdRef, FareOption, proportional, flat, same_asset, sats, sats_fare, recycle, either,
  to_recycle, AssetRule, bitcoin, asset, any_asset,
}
use arkade_taxi.Core.Types.{
  AdvanceState, quoted, time, height, ExpiryDeadline, FundingSnapshot, Outpoint, seconds, Advance,
  Policy, QuoteRequest,
}

-- `n` copies of a code unit.
abbrev pub repeat : ℕ → ℕ → List ℕ
repeat zero c = []
repeat (suc n) c = c ∷ repeat n c

abbrev pub coin : Outpoint
coin = record { txid = repeat 64 b'a'; vout = int (pos 1) }

abbrev pub snapshot : FundingSnapshot
snapshot = record {
  batch_expiry = none;
  recovery_locktime = some (record { kind = time; value = pos 600_000_000 });
  operator_inputs = coin ∷ [];
  unsigned_lockup_tx = b'c' ∷ [];
  unsigned_lockup_id = b'd' ∷ [];
}

-- A covenant advance of one dust unit.
abbrev pub advance : AdvanceState → Advance
advance state = record {
  funding = snapshot;
  id = b'1' ∷ [];
  state = state;
  kind = none;
  receiver_key = 1 ∷ [];
  sender_key = 2 ∷ [];
  operator_key = 3 ∷ [];
  operator_signer_key = 4 ∷ [];
  exit_delay = record { value = pos 1024; type = seconds };
  dust = pos 330;
  topup = pos 330;
  payment_sats = none;
  asset_id = none;
  asset_units = none;
  recovery_recipient = none;
  claim_mode = some to_recycle;
  locktime = pos 600_000_000;
  covenant_address = [];
  fare = sats_fare (pos 10);
  receiver_fare = none;
  outpoint = none;
  spent_txid = none;
  renewals = none;
  last_renewed_at = none;
  created_at = 100;
  updated_at = 100;
  expires_at = 160;
}

abbrev pub token_a : AssetIdRef
token_a = record { txid = 171 ∷ 5 ∷ []; group_index = 0 }

abbrev pub flat_fare : FareOption
flat_fare = record { id = b'f' ∷ []; currency = sats; pricing = flat (pos 10) }

-- One percent of the units, from 1 to 50.
abbrev pub rate_fare : FareOption
rate_fare = record {
  id = b'r' ∷ [];
  currency = same_asset;
  pricing = proportional (pos 100) (pos 1) (some (pos 50));
}

abbrev pub bitcoin_rule : AssetRule
bitcoin_rule = record {
  asset_id = bitcoin;
  enabled = true;
  fares = flat_fare ∷ [];
  claim = either;
  max_topup_sats = none;
}

abbrev pub token_rule : AssetRule
token_rule = record {
  asset_id = asset token_a;
  enabled = true;
  fares = flat_fare ∷ rate_fare ∷ [];
  claim = recycle;
  max_topup_sats = none;
}

abbrev pub any_rule : AssetRule
any_rule = record {
  asset_id = any_asset;
  enabled = true;
  fares = flat_fare ∷ [];
  claim = recycle;
  max_topup_sats = none;
}

abbrev pub rules : List AssetRule
rules = bitcoin_rule ∷ any_rule ∷ token_rule ∷ []
