-- ===== src/Database/Advances/Liability.antt =====
-- packages/db/src/advances.ts, `recordSpendObservation`: the coins that it frees and the liability that it
-- opens.
use arkade_taxi.Prelude.{
  ℕ, ◌≡◌, refl, ap, ◌∙◌, ◌⊎◌, inl, inr, Bool, true, false, Option, none, some, List, [], ◌∷◌, Text,
  ok, err, >>=-eq-ok, ok-injective, find, any, filter, text_eq, text_eq_iff, arith, Bool-cases,
  subst, Result, Result-cases, Option-cases, leb,
}
use arkade_taxi.Prelude.Int.{Number, int, pos, negsuc, non_integer}
use arkade_taxi.Core.Types.{Advance}
use arkade_taxi.Database.Rows.{Tables, has_id, meets_checks, clock, CustodyFailure}
use arkade_taxi.Database.Custody.{open_custody_row, opened_row, window_of}
use arkade_taxi.Database.Advances.{StoredAdvance, AdvanceRow}
use arkade_taxi.Database.Advances.Fields.{RowError}
use arkade_taxi.Database.Advances.Reading.{from_row}
use arkade_taxi.Database.Advances.Store.{
  Store, AdvanceFailure, unreadable, custody_refused, invalid_clock, ReservationRow, has_row_id,
  get,
}
use arkade_taxi.Database.Advances.Observation.{
  Outcome, by_recycle, by_purchase, by_refund, by_recovery, is_for_other, open_liability, safe,
}

abbrev pub row_id : AdvanceRow → Text
row_id r = r.id

abbrev pub is_reserved_for : Text → ReservationRow → Bool
is_reserved_for id q = text_eq q.advance_id id

pub none_reserved :
    (id : Text) (rows : List ReservationRow)
    → any (is_reserved_for id) (filter (is_for_other id) rows) ≡ false
none_reserved id [] = refl
none_reserved id (q ∷ qs) = ground (arith, none_reserved id qs)

-- A liability of the advance is in the ledger, or its row is one that the table's checks refuse.
abbrev pub IsOwed : Advance → ℕ → Option Number → Tables → Type 0
IsOwed a now window ledger =
    (any (has_id a.id) ledger.custody ≡ true)
    ⊎ ((seconds : ℕ) × (window_of window ≡ ok seconds)
        × (meets_checks (opened_row a now seconds) ≡ false))

opened_same_id : (a : Advance) (now seconds : ℕ) → (opened_row a now seconds).advance_id ≡ a.id
unfolding opened_row
opened_same_id a now seconds = refl

open-IsOwed :
    (ledger after : Tables) (a : Advance) (at : Number) (now : ℕ) (window : Option Number)
    → clock at ≡ ok now
    → open_custody_row ledger a at window ≡ ok after
    → IsOwed a now window after
unfolding open_custody_row
open-IsOwed ledger after a at now window read e =
    let (seconds, valid, e1) = >>=-eq-ok (window_of window) _ e in
    let e2 = rw read at e1 in
    elim (Bool-cases (any (has_id a.id) ledger.custody)) [
      | inl there ↦ inl (
          subst (λ (t : Tables). any (has_id a.id) t.custody ≡ true) (ok-injective (rw there at e2))
            there)
      | inr absent ↦ elim (Bool-cases (meets_checks (opened_row a now seconds))) [
        | inr refused ↦ inr (seconds, valid, refused)
        | inl meets ↦ inl (
            subst (λ (t : Tables). any (has_id a.id) t.custody ≡ true)
              (ok-injective (rw (absent, meets) at e2))
              (rw (opened_same_id a now seconds) (ground (arith, (text_eq_iff a.id a.id).1 refl))))
      ]
    ]

pub get-found :
    (db : Store) (id : Text) {a : StoredAdvance}
    → get db id ≡ ok (some a)
    → (r : AdvanceRow) × (find (has_row_id id) db.advances ≡ some r) × (from_row r ≡ ok a)
unfolding get
get-found db id {a} e = elim (Option-cases (find (has_row_id id) db.advances)) [
  | inl missing ↦ absurd (not_missing (rw (missing, get) at e))
  | inr (r, found) ↦ elim (Result-cases (from_row r)) [
    | inl (s, read) ↦ (r, found, cc (rw (found, read, get) at e))
    | inr (thrown, read) ↦ absurd (not_thrown thrown (rw (found, read, get) at e))
  ]
]
  where
    not_missing : Path (Result AdvanceFailure (Option StoredAdvance)) (ok none) (ok (some a)) → ⊥
    not_missing h = cc

    not_thrown :
        (thrown : RowError)
        → Path
            (Result AdvanceFailure (Option StoredAdvance))
            (err (unreadable thrown))
            (ok (some a))
        → ⊥
    not_thrown thrown h = cc

pub safe-clock : (at : Number) {n : ℕ} → safe at ≡ ok n → clock at ≡ ok n
unfolding clock
safe-clock (int (pos m)) {n} e = elim (Bool-cases (leb m 9_007_199_254_740_991)) [
  | inl small ↦ rw small (ap ok (ok-injective (rw small at e)))
  | inr big ↦ absurd (refused (rw big at e))
]
  where
    refused : Path (Result AdvanceFailure ℕ) (err invalid_clock) (ok n) → ⊥
    refused h = cc
safe-clock (int (negsuc m)) e = cc
safe-clock non_integer e = cc

pub open_liability-IsOwed :
    (o : Outcome) (s : StoredAdvance) (at : Number) (now : ℕ) (window : Option Number)
    (ledger after : Tables)
    → clock at ≡ ok now
    → open_liability o s at window ledger ≡ ok after
    → o ≡ by_recovery
    → IsOwed s.core now window after
unfolding open_liability
open_liability-IsOwed by_recovery s at now window ledger after read e same =
    elim (Result-cases (open_custody_row ledger s.core at window)) [
      | inl (l, opened) ↦
          open-IsOwed ledger after s.core at now window read
            (opened ∙ ap ok (ok-injective (rw opened at e)))
      | inr (thrown, opened) ↦ absurd (refused thrown (rw opened at e))
    ]
  where
    refused :
        (thrown : CustodyFailure)
        → Path (Result AdvanceFailure Tables) (err (custody_refused thrown)) (ok after)
        → ⊥
    refused thrown h = cc
open_liability-IsOwed by_recycle s at now window ledger after read e same = cc
open_liability-IsOwed by_purchase s at now window ledger after read e same = cc
open_liability-IsOwed by_refund s at now window ledger after read e same = cc
