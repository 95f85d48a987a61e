-- ===== src/Database/Writers/Tests.antt =====
-- packages/db, packages/app: the theorems on the writers of the advances at one advance of the table.
use arkade_taxi.Prelude.{◌≡◌, refl, true, false, none, some, List, [], ◌∷◌, ok, find}
use arkade_taxi.Prelude.Int.{pos, int}
use arkade_taxi.Core.Types.{locking, recycled, quoted}
use arkade_taxi.Core.Ledger.{is_terminal}
use arkade_taxi.Core.Tests.{coin}
use arkade_taxi.Database.Advances.{AdvanceRow}
use arkade_taxi.Database.Advances.Writing.{row_of, submission_params}
use arkade_taxi.Database.Advances.Store.{Store, has_row_id, in_state}
use arkade_taxi.Database.Advances.Observation.{live_locked, by_recycle}
use arkade_taxi.Database.Advances.Commands.{observes_lockup, reclaims, observes_spend}
use arkade_taxi.Database.Advances.Moves.{agreement, signed_lockup, is_unsigned}
use arkade_taxi.Database.Advances.Tests.{id, spend_txid, row_in, store_of}
use arkade_taxi.Database.Reservations.{Desk}
use arkade_taxi.Database.Reservations.Locking.{answered, claim_lockup}
use arkade_taxi.Database.Reservations.Tests.{
  digest, locked_up, taken, reserved, quote_claimed, keyed,
}
use arkade_taxi.Database.Writers.{Write, advances, marks, claims, expires, releases, perform_all}
use arkade_taxi.Database.Writers.Fates.{
  perform_all-final, perform_all-signed_once, perform_all-agreement,
}
use arkade_taxi.Database.Writers.Once.{claim_lockup-once}

abbrev desk_of : Store → Desk
desk_of db = record {
  store = db;
  receive_quotes = [];
  receive_coins = [];
  proceeds_coins = [];
  fill_coins = [];
}

-- A lockup that is seen and marked, then claimed for recovery while a second claim of its quote comes in, then
-- seen spent by the receiver.
abbrev calls : List Write
calls =
    advances (observes_lockup id coin 110)
    ∷ marks id
    ∷ claims id digest digest digest 115
    ∷ advances (reclaims id 120)
    ∷ expires 125
    ∷ advances (
        observes_spend id live_locked by_recycle spend_txid (int (pos 130)) spend_txid (int (pos 7))
          none 0)
    ∷ releases id
    ∷ []

abbrev sent : Desk
sent = desk_of (store_of (row_in locking))

in_store : find (has_row_id id) sent.store.advances ≡ some (row_in locking)
unfolding row_of
in_store = refl

perform_all-agreement_example :
    (r' : AdvanceRow) × (find (has_row_id id) (perform_all calls sent).store.advances ≡ some r')
    × (agreement r' ≡ agreement (row_in locking))
perform_all-agreement_example = perform_all-agreement calls sent id (row_in locking) in_store

past_quoted : in_state quoted (row_in locking) ≡ false
unfolding row_of
past_quoted = refl

signed : is_unsigned (row_in locking) ≡ false
unfolding row_of submission_params
signed = refl

perform_all-signed_once_example :
    (r' : AdvanceRow) × (find (has_row_id id) (perform_all calls sent).store.advances ≡ some r')
    × (signed_lockup r' ≡ signed_lockup (row_in locking))
    × (is_unsigned r' ≡ false)
perform_all-signed_once_example =
    perform_all-signed_once calls sent id (row_in locking) in_store past_quoted signed

-- The row after the spend.
abbrev settled : AdvanceRow
settled = record (row_in locking) { state = recycled; spent_txid = some spend_txid }

abbrev closed : Desk
closed = desk_of (store_of settled)

settled_in_store : find (has_row_id id) closed.store.advances ≡ some settled
unfolding row_of
settled_in_store = refl

terminal : is_terminal settled.state ≡ true
unfolding is_terminal
terminal = refl

perform_all-final_example :
    (r' : AdvanceRow) × (find (has_row_id id) (perform_all calls closed).store.advances ≡ some r')
    × (r'.state ≡ recycled)
    × (r'.spent_txid ≡ some spend_txid)
perform_all-final_example =
    perform_all-final calls closed id spend_txid settled settled_in_store terminal refl

-- What is written between the two claims of a quote.
abbrev between : List Write
between = advances (observes_lockup id coin 112) ∷ marks id ∷ expires 115 ∷ releases id ∷ []

claim_lockup-once_example : ¬ (
    claim_lockup (b'1' ∷ []) (b'd' ∷ []) digest digest 120 (perform_all between locked_up)
    ≡ ok (answered true taken, locked_up))
claim_lockup-once_example =
    claim_lockup-once (b'1' ∷ []) (b'd' ∷ []) digest digest 110 taken reserved locked_up keyed
      quote_claimed between (b'd' ∷ []) digest digest 120 taken locked_up
