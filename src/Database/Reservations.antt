-- ===== src/Database/Reservations.antt =====
-- packages/db/src/reservations.ts: the operator's coins that quotes hold, and the tables that hold coins
-- beside them: of the receive quotes the columns that are read here, of the coins that other flows hold
-- the outpoint and the flow's own id.
pub mod Reserving
pub mod Locking
pub mod Coins
pub mod Claims
pub mod Caps
pub mod Tests
use arkade_taxi.Prelude.{
  ℕ, suc, ◌+◌, Bool, true, false, not, ◌&&◌, ◌||◌, Option, none, some, List, [], ◌∷◌, ◌++◌, map,
  Text, if◌then◌else◌, leb, ◌==◌, any, filter, length, text_eq,
}
use arkade_taxi.Prelude.Int.{ℤ, pos, ◌+ℤ◌, Number}
use arkade_taxi.Core.Types.{Outpoint, quoted, expired}
use arkade_taxi.Database.Rows.{update_where, changes}
use arkade_taxi.Database.Advances.{AdvanceRow}
use arkade_taxi.Database.Advances.Store.{Store, ReservationRow, in_state, touched, update_advances}
use arkade_taxi.Database.Advances.Lockup.{same_number}
use arkade_taxi.Database.Advances.Views.{exposure_totals}

pub data ReceiveQuoteState : Type 0 where
  receive_quoted receive_bound receive_expired : ReceiveQuoteState

abbrev pub is_receive_quoted : ReceiveQuoteState → Bool
is_receive_quoted receive_quoted = true
is_receive_quoted receive_bound = false
is_receive_quoted receive_expired = false

abbrev pub is_receive_expired : ReceiveQuoteState → Bool
is_receive_expired receive_quoted = false
is_receive_expired receive_bound = false
is_receive_expired receive_expired = true

pub record ReceiveQuoteRow : Type 0 where
  pub id : Text
  pub state : ReceiveQuoteState
  pub loan_sats : ℤ
  pub expires_at : ℕ

-- A coin that a receive quote, a proceeds job or a fill holds.
pub record HeldCoin : Type 0 where
  pub coin : Outpoint
  pub holder : Text

pub record Desk : Type 0 where
  pub store : Store
  pub receive_quotes : List ReceiveQuoteRow
  pub receive_coins : List HeldCoin
  pub proceeds_coins : List HeldCoin
  pub fill_coins : List HeldCoin

abbrev pub same_coin : Outpoint → Outpoint → Bool
same_coin a b = text_eq a.txid b.txid && same_number a.vout b.vout

abbrev pub coin_of : ReservationRow → Outpoint
coin_of q = record { txid = q.outpoint_txid; vout = q.outpoint_vout }

abbrev pub held_coin : HeldCoin → Outpoint
held_coin h = h.coin

-- The `UNION ALL` of the four tables; its order is left out.
unfoldable pub all_reserved_outpoints : Desk → List Outpoint
all_reserved_outpoints desk =
    map coin_of desk.store.operator_inputs
    ++ (map held_coin desk.proceeds_coins
        ++ (map held_coin desk.fill_coins ++ map held_coin desk.receive_coins))

abbrev pub loans : List ReceiveQuoteRow → ℤ
loans [] = pos 0
loans (q ∷ qs) = if is_receive_quoted q.state then q.loan_sats +ℤ loans qs else loans qs

abbrev pub open_quotes : List ReceiveQuoteRow → ℕ
open_quotes qs = length (filter (λ q. is_receive_quoted q.state) qs)

unfoldable pub total_exposure : Desk → ℤ × ℕ
total_exposure desk =
    let (sats, count) = exposure_totals desk.store.advances in
    (sats +ℤ loans desk.receive_quotes, count + open_quotes desk.receive_quotes)

abbrev pub is_lapsed_quote : ℕ → ReceiveQuoteRow → Bool
is_lapsed_quote at q = is_receive_quoted q.state && leb q.expires_at at

abbrev pub lapsed_quote : ReceiveQuoteRow → ReceiveQuoteRow
lapsed_quote q = record q { state = receive_expired }

-- `holder IN (SELECT id … WHERE state = 'expired' AND expires_at <= ?)`
abbrev pub is_released_by : ℕ → List ReceiveQuoteRow → HeldCoin → Bool
is_released_by at quotes h =
    any (λ q. text_eq q.id h.holder && is_receive_expired q.state && leb q.expires_at at) quotes

unfoldable pub expire_receive_quotes : ℕ → Desk → Desk
expire_receive_quotes at desk =
    let quotes = update_where (is_lapsed_quote at) lapsed_quote desk.receive_quotes in
    record desk {
      receive_quotes = quotes;
      receive_coins = filter (λ h. not (is_released_by at quotes h)) desk.receive_coins;
    }

-- The two statements of `#expireAdvances`, whose answer is the number of rows that the first changes.
abbrev pub is_lapsed : ℕ → AdvanceRow → Bool
is_lapsed at r = in_state quoted r && leb r.expires_at at

unfoldable pub lapsed : ℕ → AdvanceRow → AdvanceRow
unfolding touched
lapsed at r = touched at (record r { state = expired })

abbrev pub is_freed_by : ℕ → List AdvanceRow → ReservationRow → Bool
is_freed_by at rows q =
    any (λ r. text_eq r.id q.advance_id && in_state expired r && leb r.expires_at at) rows

unfoldable pub expire_advances : ℕ → Desk → ℕ × Desk
expire_advances at desk =
    let aged = update_advances (is_lapsed at) (lapsed at) desk.store in
    (
      changes (is_lapsed at) desk.store.advances,
      record desk {
        store = record aged {
          operator_inputs =
              filter (λ q. not (is_freed_by at aged.advances q)) desk.store.operator_inputs;
        };
      },
    )
