-- ===== src/Database/Reservations/Tests.antt =====
-- packages/db/src/reservations.ts: a quote that is reserved.
use arkade_taxi.Database.Advances.Reading.{from_row, submission_in, recovery_in, observation_in}
use arkade_taxi.Database.Advances.Store.{get, update_advances, changes_one, touched}
use arkade_taxi.Prelude.{◌≡◌, ◌≤◌, true, refl, none, some, [], ◌∷◌, ok, Text}
use arkade_taxi.Prelude.Int.{pos, int, ◌≤ℤ◌, ◌+ℤ◌}
use arkade_taxi.Core.Types.{quoted, time}
use arkade_taxi.Core.Fares.{rule_for}
use arkade_taxi.Database.Rows.{update_where}
use arkade_taxi.Database.Advances.Views.{exposure_totals, is_at_risk}
use arkade_taxi.Core.Ledger.{validate_funding_snapshot, advance_kind, validate_joint_snapshot}
use arkade_taxi.Core.Tests.{advance, coin, repeat, rules}
use arkade_taxi.Database.Advances.Writing.{
  to_params, row_of, submission_params, recovery_params, observation_params,
}
use arkade_taxi.Database.Advances.Lockup.{insert}
use arkade_taxi.Database.Advances.Tests.{no_progress, terms}
use arkade_taxi.Database.Reservations.{
  Desk, HeldCoin, all_reserved_outpoints, expire_receive_quotes, total_exposure, lapsed,
  expire_advances,
}
use arkade_taxi.Database.Reservations.Reserving.{
  ReserveQuoteRequest, reserve_quote, take_place, insert_coins, reservation_row, is_held,
  admit_topup,
}
use arkade_taxi.Database.Reservations.Locking.{
  claim_lockup, claim_current, claim_quoted, take_up, answered, claimed_advance, taken_up,
  submission_key_of, is_claimable,
}
use arkade_taxi.Database.Reservations.Caps.{claim_lockup-keeps_caps}
use arkade_taxi.Database.Keyed.{IsKeyed}
use arkade_taxi.Database.Advances.Liability.{row_id}
use arkade_taxi.Database.Advances.RoundTrip.{as_stored}
use arkade_taxi.Database.Advances.{StoredAdvance}
use arkade_taxi.Database.Reservations.Coins.{IsApart, reserve_quote-IsApart}

abbrev fill_coin : HeldCoin
fill_coin = record {
  coin = record { txid = repeat 64 b'f'; vout = int (pos 0) };
  holder = b'f' ∷ [];
}

-- Nothing is stored yet, and a fill holds a coin.
abbrev pub desk : Desk
desk = record {
  store = record {
    advances = [];
    operator_inputs = [];
    policy = record terms { asset_rules = rules };
    revision = 4;
    ledger = record { custody = []; release_inputs = []; audit = [] };
  };
  receive_quotes = [];
  receive_coins = [];
  proceeds_coins = [];
  fill_coins = fill_coin ∷ [];
}

abbrev request : ReserveQuoteRequest
request = record {
  advance = record { core = advance quoted; progress = no_progress };
  expected_policy_revision = 4;
  recovery_execution_budget = some (record { kind = time; value = pos 1000 });
  expected_reserved_outpoints = some (fill_coin.coin ∷ []);
}

abbrev pub reserved : Desk
reserved = record desk {
  store = record desk.store {
    advances = row_of request.advance ∷ [];
    operator_inputs =
        record {
          outpoint_txid = coin.txid;
          outpoint_vout = coin.vout;
          advance_id = b'1' ∷ [];
          batch_expiry_kind = none;
          batch_expiry_value = none;
          created_at = 100;
        }
        ∷ [];
  };
}

quote_reserved : reserve_quote request desk ≡ ok reserved
unfolding reserve_quote take_place insert_coins reservation_row is_held admit_topup to_params row_of
    insert all_reserved_outpoints expire_receive_quotes total_exposure validate_funding_snapshot
    advance_kind validate_joint_snapshot rule_for ◌+ℤ◌ exposure_totals update_where
quote_reserved = refl

apart : IsApart (all_reserved_outpoints desk)
unfolding all_reserved_outpoints
apart = (refl, tt)

reserve_quote-IsApart_example : IsApart (all_reserved_outpoints reserved)
reserve_quote-IsApart_example = reserve_quote-IsApart request desk reserved apart quote_reserved

abbrev pub key : Text
key = submission_key_of (b'1' ∷ []) (b'd' ∷ [])

abbrev pub digest : Text
digest = b'e' ∷ []

abbrev pub locked_up : Desk
locked_up = record reserved {
  store = record reserved.store {
    advances = taken_up key digest digest 110 (row_of request.advance) ∷ [];
  };
}

-- The advance as the table holds it, then taken up.
abbrev pub taken : StoredAdvance
taken = claimed_advance key digest digest 110 (as_stored request.advance)

pub quote_claimed :
    claim_lockup (b'1' ∷ []) (b'd' ∷ []) digest digest 110 reserved
    ≡ ok (answered true taken, locked_up)
unfolding claim_lockup get expire_advances update_advances update_where expire_receive_quotes row_of
    from_row submission_in submission_params recovery_in recovery_params claim_current claim_quoted
    ◌+ℤ◌ total_exposure exposure_totals is_at_risk advance_kind validate_funding_snapshot
    validate_joint_snapshot observation_in changes_one touched observation_params claimed_advance
    is_claimable submission_key_of take_up taken_up lapsed
quote_claimed = refl

pub keyed : IsKeyed row_id reserved.store.advances
keyed = (refl, tt)

claim_lockup-keeps_caps_example :
    ((total_exposure locked_up).0 ≤ℤ locked_up.store.policy.max_outstanding_sats)
    × ((total_exposure locked_up).1 ≤ locked_up.store.policy.max_concurrent_advances)
claim_lockup-keeps_caps_example =
    claim_lockup-keeps_caps (b'1' ∷ []) (b'd' ∷ []) digest digest 110 taken reserved locked_up keyed
      quote_claimed
