-- ===== src/Database/Writers.antt =====
-- packages/db, packages/app: every call of the program that writes to the table of the advances, whatever
-- file it stands in, as commands on the store and what stands beside it, and sequences of them.
pub mod Moved
pub mod ReadBack
pub mod Marked
pub mod Fates
pub mod Once
mod Tests
use arkade_taxi.Prelude.{ℕ, List, [], ◌∷◌, Text, Result, ok, err}
use arkade_taxi.Core.Types.{Outpoint}
use arkade_taxi.Database.Advances.Store.{Store}
use arkade_taxi.Database.Advances.Commands.{Command, execute, stored}
use arkade_taxi.Database.Reservations.{Desk, expire_receive_quotes, expire_advances}
use arkade_taxi.Database.Reservations.Reserving.{ReserveError, ReserveQuoteRequest, reserve_quote}
use arkade_taxi.Database.Reservations.Locking.{
  ClaimAnswer, ClaimFailure, claim_lockup, release_for_advance, ReleaseError,
  record_lockup_conflict,
}
use arkade_taxi.Database.Fills.{Fill, Binding, FillFailure, lock_liability, cancel_liability}
use arkade_taxi.App.Sweeper.{mark_submitted}

pub data Write : Type 0 where
  advances : Command → Write
  marks : (id : Text) → Write
  reserves : ReserveQuoteRequest → Write
  claims : (id lockup_id digest envelope : Text) (at : ℕ) → Write
  expires : (at : ℕ) → Write
  expires_receive_quotes : (at : ℕ) → Write
  releases : (id : Text) → Write
  records_conflict : (id detail : Text) (at wall : ℕ) → Write
  locks_liability : List Binding → Fill → (txid : Text) (o : Outpoint) (now : ℕ) → Write
  cancels_liability : List Binding → Fill → (code : Text) (now : ℕ) → Write

-- A call that throws changes nothing.
abbrev pub or_same {ℓ κ} : {E : Type ℓ} {A : Type κ} → A → Result E A → A
or_same a (ok after) = after
or_same a (err _) = a

abbrev pub answered_by : Desk → Result ClaimFailure (ClaimAnswer × Desk) → Desk
answered_by desk (ok answer) = answer.1
answered_by desk (err _) = desk

abbrev pub with_store : Desk → Store → Desk
with_store desk after = record desk { store = after }

unfoldable pub perform : Write → Desk → Desk
perform (advances c) desk = with_store desk (execute c desk.store)
perform (marks id) desk = with_store desk (stored desk.store (mark_submitted id desk.store))
perform (reserves request) desk = or_same desk (reserve_quote request desk)
perform (claims id lockup_id digest envelope at) desk =
    answered_by desk (claim_lockup id lockup_id digest envelope at desk)
perform (expires at) desk = (expire_advances at desk).1
perform (expires_receive_quotes at) desk = expire_receive_quotes at desk
perform (releases id) desk =
    with_store desk (or_same desk.store (release_for_advance id desk.store))
perform (records_conflict id detail at wall) desk =
    with_store desk (record_lockup_conflict id detail at wall desk.store)
perform (locks_liability bindings fill txid o now) desk =
    with_store desk (or_same desk.store (lock_liability bindings fill txid o now desk.store))
perform (cancels_liability bindings fill code now) desk =
    with_store desk (or_same desk.store (cancel_liability bindings fill code now desk.store))

-- Calls in the order in which they run.
unfoldable pub perform_all : List Write → Desk → Desk
perform_all [] desk = desk
perform_all (w ∷ ws) desk = perform_all ws (perform w desk)
