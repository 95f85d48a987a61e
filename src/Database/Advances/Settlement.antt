-- ===== src/Database/Advances/Settlement.antt =====
-- packages/db/src/advances.ts, `recordSpendObservation`: what a spend that is recorded leaves behind.
use arkade_taxi.Core.Ledger.{is_txid}
use arkade_taxi.Prelude.{
  ℕ, ◌≡◌, ◌≢◌, refl, ap, sym, ◌∙◌, inl, inr, true, false, not, ◌&&◌, ◌||◌, Option, none, some, Text,
  ok, throw_if, >>-eq-ok, >>=-eq-ok, throw_if-eq-ok, ok-injective, find, any, arith, Bool-cases,
  subst, is_some, Result,
}
use arkade_taxi.Prelude.Int.{Number}
use arkade_taxi.Core.Types.{AdvanceState, state_eq, state_eq_iff}
use arkade_taxi.Database.Rows.{clock}
use arkade_taxi.Database.Advances.{StoredAdvance, AdvanceRow}
use arkade_taxi.Database.Advances.Reading.{from_row}
use arkade_taxi.Database.Advances.Store.{
  Store, AdvanceFailure, has_row_id, get, changes_one, update_advances, observation_lost,
  invalid_hash, touched, is_value,
}
use arkade_taxi.Database.Advances.Recovery.{or_missing}
use arkade_taxi.Database.Advances.Observation.{
  LiveState, live_state, Outcome, by_recovery, outcome_state, is_outcome, compatible_drift,
  SpendResult, recorded, duplicate, retry, disagreement, is_unspent_in, spent_as, open_liability,
  settle, spend_current, safe, record_spend_observation,
}
use arkade_taxi.Database.Keyed.{IsKeyed, counted-found, find-updated}
use arkade_taxi.Database.Advances.Liability.{
  row_id, is_reserved_for, none_reserved, IsOwed, get-found, safe-clock, open_liability-IsOwed,
}

-- What a recorded spend has done.
pub record Settled (id : Text) (l : LiveState) (o : Outcome) (txid : Text) (now : ℕ)
    (window : Option Number) (db after : Store) : Type 0 where
  pub row : AdvanceRow
  pub row_after : AdvanceRow
  pub found : find (has_row_id id) db.advances ≡ some row
  pub found_after : find (has_row_id id) after.advances ≡ some row_after
  pub was_live : row.state ≡ live_state l
  pub was_unspent : row.spent_txid ≡ none
  pub is_settled : row_after.state ≡ outcome_state o
  pub is_spent : row_after.spent_txid ≡ some txid
  pub freed : any (is_reserved_for id) after.operator_inputs ≡ false
  pub owed :
      o ≡ by_recovery
      → (a : StoredAdvance) × (from_row row ≡ ok a) × IsOwed a.core now window after.ledger

unspent_none : (o : Option Text) → is_some o ≡ false → o ≡ none
unspent_none none h = refl
unspent_none (some t) h = cc

spent_as-id :
    (o : Outcome) (txid : Text) (at : ℕ) (hash : Text) (height : ℕ) (r : AdvanceRow)
    → (spent_as o txid at hash height r).id ≡ r.id
unfolding spent_as touched
spent_as-id o txid at hash height r = refl

spent_as-settles :
    (o : Outcome) (txid : Text) (at : ℕ) (hash : Text) (height : ℕ) (r : AdvanceRow)
    → ((spent_as o txid at hash height r).state ≡ outcome_state o)
      × ((spent_as o txid at hash height r).spent_txid ≡ some txid)
unfolding spent_as touched
spent_as-settles o txid at hash height r = (refl, refl)

unspent-names :
    (id : Text) (s : AdvanceState) (r : AdvanceRow)
    → is_unspent_in id s r ≡ true
    → has_row_id id r ≡ true
unfolding is_unspent_in
unspent-names id s r h = ground arith

unspent-row :
    (id : Text) (s : AdvanceState) (r : AdvanceRow)
    → is_unspent_in id s r ≡ true
    → (r.state ≡ s) × (r.spent_txid ≡ none)
unfolding is_unspent_in
unspent-row id s r h =
    ((state_eq_iff r.state s).0 (ground arith), unspent_none r.spent_txid (ground arith))

settle-Settled :
    (id : Text) (l : LiveState) (o : Outcome) (txid : Text) (at : Number) (now : ℕ) (hash : Text)
    (height : ℕ) (window : Option Number) (a : StoredAdvance) (r : AdvanceRow) (db after : Store)
    → IsKeyed row_id db.advances
    → find (has_row_id id) db.advances ≡ some r
    → from_row r ≡ ok a
    → clock at ≡ ok now
    → settle id l o txid at now hash height window a db ≡ ok (recorded, after)
    → Settled id l o txid now window db after
unfolding settle update_advances changes_one
settle-Settled id l o txid at now hash height window a r db after keyed found read time e =
    let p = is_unspent_in id (live_state l) in
    let f = spent_as o txid now hash height in
    let (one, e1) = >>-eq-ok (throw_if (not (changes_one p db)) observation_lost) _ e in
    let (ledger, opened, e2) = >>=-eq-ok (open_liability o a at window db.ledger) _ e1 in
    let stored = ap (λ (t : SpendResult × Store). t.1) (ok-injective e2) in
    let picked : p r ≡ true =
      counted-found row_id id p (unspent-names id (live_state l)) db.advances keyed found
        (ground (arith, throw_if-eq-ok _ _ one)) in
    let (live, unspent) = unspent-row id (live_state l) r picked in
    let (state, spent) = spent_as-settles o txid now hash height r in
    record {
      row = r;
      row_after = f r;
      found = found;
      found_after =
          ap (λ (t : Store). find (has_row_id id) t.advances) (sym stored)
          ∙ find-updated row_id id p f db.advances (spent_as-id o txid now hash height) found
          ∙ rw picked refl;
      was_live = live;
      was_unspent = unspent;
      is_settled = state;
      is_spent = spent;
      freed =
          ap (λ (t : Store). any (is_reserved_for id) t.operator_inputs) (sym stored)
          ∙ none_reserved id db.operator_inputs;
      owed = λ same. (
        a,
        read,
        subst (λ (t : Store). IsOwed a.core now window t.ledger) stored
            (open_liability-IsOwed o a at now window db.ledger ledger time opened same),
      );
    }

-- Only the last branch answers `recorded`.
spend_current-settle :
    (id : Text) (l : LiveState) (o : Outcome) (txid : Text) (at : Number) (now : ℕ) (hash : Text)
    (height : ℕ) (window : Option Number) (wall : ℕ) (a : StoredAdvance) (db after : Store)
    → spend_current id l o txid at now hash height window wall a db ≡ ok (recorded, after)
    → settle id l o txid at now hash height window a db ≡ ok (recorded, after)
unfolding spend_current
spend_current-settle id l o txid at now hash height window wall a db after e =
    let s = a.core.state in
    let repeated = state_eq s (outcome_state o) && is_value a.core.spent_txid txid in
    let drifted = not (state_eq s (live_state l)) && compatible_drift l s in
    let settled = is_outcome s || not (state_eq s (live_state l)) in
    elim (Bool-cases repeated) [
      | inl t ↦ absurd (other duplicate db (cc) (rw t at e))
      | inr f ↦ elim (Bool-cases drifted) [
        | inl t ↦ absurd (other retry db (cc) (rw (f, t) at e))
        | inr g ↦ elim (Bool-cases settled) [
          | inl t ↦ absurd (other disagreement _ (cc) (rw (f, g, t) at e))
          | inr h ↦ rw (f, g, h) at e
        ]
      ]
    ]
  where
    other :
        (answer : SpendResult) (db' : Store)
        → answer ≢ recorded
        → Path
            (Result AdvanceFailure (SpendResult × Store))
            (ok (answer, db'))
            (ok (recorded, after))
        → ⊥
    other answer db' h e = h (ap (λ (t : SpendResult × Store). t.0) (ok-injective e))

-- A spend that is recorded found the advance live and unspent, in the state that the watcher expected,
-- and has settled it: its row has the outcome and the spending transaction, none of the operator's coins
-- is reserved for it any more, and a reclaim leaves the receiver's liability in the ledger, unless the
-- table refuses the row as one that its checks exclude. The table's ids are distinct.
pub record_spend_observation-Settled :
    (id : Text) (l : LiveState) (o : Outcome) (txid : Text) (at : Number) (hash : Text)
    (height : Number) (window : Option Number) (wall : ℕ) (db after : Store)
    → IsKeyed row_id db.advances
    → record_spend_observation id l o txid at hash height window wall db ≡ ok (recorded, after)
    → (now : ℕ) × (clock at ≡ ok now) × Settled id l o txid now window db after
unfolding record_spend_observation
record_spend_observation-Settled id l o txid at hash height window wall db after keyed e =
    let (_, e1) = >>-eq-ok (throw_if (not (is_txid txid) || not (is_txid hash)) invalid_hash) _ e in
    let (now, time, e2) = >>=-eq-ok (safe at) _ e1 in
    let (tip, _, e3) = >>=-eq-ok (safe height) _ e2 in
    let (found, there, e4) = >>=-eq-ok (get db id) _ e3 in
    let (a, is_found, e5) = >>=-eq-ok (or_missing found) _ e4 in
    let (r, in_table, read) = get-found db id (there ∙ ap ok (or_missing-some found is_found)) in
    let settled = spend_current-settle id l o txid at now hash tip window wall a db after e5 in
    (
      now,
      safe-clock at time,
      settle-Settled id l o txid at now hash tip window a r db after keyed in_table read
          (safe-clock at time) settled,
    )
  where
    or_missing-some :
        (found : Option StoredAdvance) {a : StoredAdvance}
        → or_missing found ≡ ok a
        → found ≡ some a
    or_missing-some none h = cc
    or_missing-some (some b) h = ap some (ok-injective h)
