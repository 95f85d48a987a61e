-- ===== src/Database/Tests.antt =====
-- packages/db/src/custody.ts: the theorems at one liability that is opened, claimed, bound and paid.
use arkade_taxi.Prelude.{◌≡◌, refl, true, some, [], ◌∷◌, Text, ok}
use arkade_taxi.Prelude.Int.{pos, int}
use arkade_taxi.Core.Types.{recovering, Advance}
use arkade_taxi.Core.Tests.{advance, coin, repeat}
use arkade_taxi.Database.Rows.{
  Tables, CustodyRow, get, clock, check_txid, point, points, meets_checks, update_where,
}
use arkade_taxi.Database.Custody.{
  opened_row, open_custody_row, is_claimable, leased, claim_release, is_leased_by, is_bindable,
  expecting, bind_inputs, insert_inputs, bind_release_inputs, is_payable, paid, record_released,
}
use arkade_taxi.Database.Custody.Steps.{opens, claims, binds, records}
use arkade_taxi.Database.Custody.Settled.{
  Run, rests, runs, debt_of, is_settled, Run-debt_of, Run-settled,
}
use arkade_taxi.Database.Custody.Claims.{IsKeyed, Run-IsKeyed, claim_release-exclusive}
use arkade_taxi.Database.Custody.Coins.{IsDistinct, Run-IsDistinct}

-- An advance whose payer locked 100 sats beside it.
abbrev reclaimed : Advance
reclaimed = record (advance recovering) { payment_sats = some (pos 100) }

abbrev id : Text
id = b'1' ∷ []

abbrev worker : Text
worker = b'w' ∷ []

abbrev release_txid : Text
release_txid = repeat 64 b'e'

abbrev nothing : Tables
nothing = record { custody = []; release_inputs = []; audit = [] }

abbrev row : CustodyRow
row = opened_row reclaimed 100 60

abbrev with : CustodyRow → Tables
with r = record { custody = r ∷ []; release_inputs = []; audit = [] }

abbrev bound : CustodyRow
bound = expecting release_txid (leased worker worker 120 row)

abbrev with_coin : Tables
with_coin = record (with bound) {
  release_inputs =
      record {
        outpoint_txid = repeat 64 b'a';
        outpoint_vout = 1;
        advance_id = id;
        created_at = 111;
      }
      ∷ [];
}

abbrev settled : CustodyRow
settled = paid release_txid 112 bound

opened : open_custody_row nothing reclaimed (int (pos 100)) (some (int (pos 60))) ≡ ok (with row)
unfolding open_custody_row clock meets_checks opened_row
opened = refl

claimed :
    claim_release (with row) id worker worker (int (pos 110)) (int (pos 120))
    ≡ ok (with (leased worker worker 120 row))
unfolding claim_release clock get is_claimable update_where opened_row leased
claimed = refl

binding :
    bind_release_inputs
      (with (leased worker worker 120 row))
      id
      worker
      worker
      (coin ∷ [])
      release_txid
      (int (pos 111))
    ≡ ok (true, with_coin)
unfolding bind_release_inputs bind_inputs insert_inputs points point check_txid clock is_bindable
    is_leased_by update_where opened_row leased expecting
binding = refl

paying :
    record_released with_coin id worker worker release_txid (int (pos 112))
    ≡ ok (true, with settled)
unfolding record_released check_txid clock is_payable is_leased_by update_where opened_row leased
    expecting paid
paying = refl

bound-Run : Run (with row) with_coin
bound-Run =
    runs (runs rests (claims id worker worker (int (pos 110)) (int (pos 120)) claimed))
      (binds id worker worker (coin ∷ []) release_txid (int (pos 111)) true binding)

full-Run : Run (with row) (with settled)
full-Run = runs bound-Run (records id worker worker release_txid (int (pos 112)) true paying)

found : get (with row) id ≡ some row
unfolding get opened_row
found = refl

Run-debt_of_example :
    (r : CustodyRow) × (get (with settled) id ≡ some r) × (debt_of r ≡ debt_of row)
Run-debt_of_example = Run-debt_of id full-Run found

found_settled : get (with settled) id ≡ some settled
unfolding get opened_row leased expecting paid
found_settled = refl

is_final : is_settled settled.state ≡ true
unfolding paid
is_final = refl

replayed :
    open_custody_row (with settled) reclaimed (int (pos 130)) (some (int (pos 60)))
    ≡ ok (with settled)
unfolding open_custody_row clock meets_checks opened_row leased expecting paid
replayed = refl

-- The reclaim runs once more.
replay : Run (with settled) (with settled)
replay = runs rests (opens reclaimed (int (pos 130)) (some (int (pos 60))) replayed)

Run-settled_example : get (with settled) id ≡ some settled
Run-settled_example = Run-settled id replay found_settled is_final

first-Run : Run nothing with_coin
first-Run =
    runs
      (runs (runs rests (opens reclaimed (int (pos 100)) (some (int (pos 60))) opened))
        (claims id worker worker (int (pos 110)) (int (pos 120)) claimed))
      (binds id worker worker (coin ∷ []) release_txid (int (pos 111)) true binding)

Run-IsDistinct_example : IsDistinct (with_coin).release_inputs
Run-IsDistinct_example = Run-IsDistinct first-Run tt

Run-IsKeyed_example : IsKeyed (with_coin).custody
Run-IsKeyed_example = Run-IsKeyed first-Run tt

-- A second worker, long after the first one's lease has run out.
claim_release-exclusive_example : ¬ (
    claim_release
      (with (leased worker worker 120 row))
      id
      release_txid
      worker
      (int (pos 500))
      (int (pos 600))
    ≡ ok nothing)
claim_release-exclusive_example =
    claim_release-exclusive (with row) (with (leased worker worker 120 row)) nothing id worker
      worker release_txid worker (int (pos 110)) (int (pos 120)) (int (pos 500)) (int (pos 600))
      (refl, tt) claimed

bound_checks : meets_checks bound ≡ true
unfolding meets_checks opened_row leased expecting
bound_checks = refl
