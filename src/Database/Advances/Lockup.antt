-- ===== src/Database/Advances/Lockup.antt =====
-- packages/db/src/advances.ts: insertion and replacement of an advance, and its lockup as it is sent,
-- fails, is observed and is renewed.
use arkade_taxi.Prelude.{
  ℕ, ◌+◌, Bool, false, not, ◌&&◌, ◌||◌, Option, none, some, ◌∷◌, Text, Result, ok, err, ◌>>=◌, ◌>>◌,
  throw_if, any, get_or,
}
use arkade_taxi.Prelude.Int.{Number, eqb_ℤ, int, non_integer}
use arkade_taxi.Core.Types.{locking, locked, Outpoint}
use arkade_taxi.Database.Advances.{StoredAdvance, AdvanceRow}
use arkade_taxi.Database.Advances.Writing.{ParamsError, to_params}
use arkade_taxi.Database.Advances.Store.{
  Store, AdvanceFailure, unwritable, duplicate_key, has_row_id, is_value, in_state, touched,
  update_advances, run_update,
}
use arkade_taxi.Database.Advances.Submission.{with_failure}
use arkade_taxi.Database.Advances.Recovery.{is_covenant_kind, update_or_missing}

abbrev pub params_or_throw : Result ParamsError AdvanceRow → Result AdvanceFailure AdvanceRow
params_or_throw (ok r) = ok r
params_or_throw (err thrown) = err (unwritable thrown)

abbrev pub same_number : Number → Number → Bool
same_number (int a) (int b) = eqb_ℤ a b
same_number (int a) non_integer = false
same_number non_integer b = false

abbrev pub is_vout : Option Number → Number → Bool
is_vout none n = false
is_vout (some m) n = same_number m n

-- The row keeps the outpoint.
abbrev pub is_on : Text → Number → AdvanceRow → Bool
is_on txid vout r = is_value r.outpoint_txid txid && is_vout r.outpoint_vout vout

-- The unique index of the outpoint, which null does not take part in.
abbrev pub meets_index : AdvanceRow → AdvanceRow → Bool
meets_index new r = elim new.outpoint_txid [
  | none ↦ false
  | some txid ↦ elim new.outpoint_vout [ none ↦ false | some vout ↦ is_on txid vout r ]
]

-- The primary key and the unique index refuse a row; the checks of the table are left out.
unfoldable pub insert : StoredAdvance → Store → Result AdvanceFailure Store
insert a db = do
  r ← params_or_throw (to_params a)
  throw_if (any (λ q. has_row_id r.id q || meets_index r q) db.advances) duplicate_key
  ok (record db { advances = r ∷ db.advances })

-- Every column but the key is written.
unfoldable pub update : StoredAdvance → Store → Result AdvanceFailure Store
update a db = do
  r ← params_or_throw (to_params a)
  throw_if
      (any (has_row_id r.id) db.advances
        && any (λ q. not (has_row_id r.id q) && meets_index r q) db.advances)
      duplicate_key
  update_or_missing (has_row_id r.id) (λ q. r) db

unfoldable pub lockup_sent : Text → ℕ → AdvanceRow → AdvanceRow
unfolding touched
lockup_sent txid at r = touched at (record r {
  submission = record r.submission { ark_txid = some (get_or r.submission.ark_txid txid) };
})

unfoldable pub is_sendable : Text → AdvanceRow → Bool
is_sendable id r = has_row_id id r && (in_state locking r || in_state locked r)

unfoldable pub record_lockup_submission : Text → Text → ℕ → Store → Result AdvanceFailure Store
record_lockup_submission id txid at = update_or_missing (is_sendable id) (lockup_sent txid at)

unfoldable pub lockup_failed : Text → Text → ℕ → AdvanceRow → AdvanceRow
unfolding touched
lockup_failed code detail at r = touched at (with_failure (some code) (some detail) r)

abbrev pub is_locking : Text → AdvanceRow → Bool
is_locking id r = has_row_id id r && in_state locking r

unfoldable pub record_lockup_failure : Text → Text → Text → ℕ → Store → Store
record_lockup_failure id code detail at =
    update_advances (is_locking id) (lockup_failed code detail at)

-- The column `last_observed_at`.
abbrev pub seen_at : ℕ → AdvanceRow → AdvanceRow
seen_at at r = record r { observation = record r.observation { last_observed_at = some at } }

abbrev pub standing_on : Outpoint → AdvanceRow → AdvanceRow
standing_on o r = record r { outpoint_txid = some o.txid; outpoint_vout = some o.vout }

unfoldable pub lockup_observed : Outpoint → ℕ → AdvanceRow → AdvanceRow
unfolding touched
lockup_observed o at r = touched at (
    with_failure none none (
      seen_at at (
        standing_on o (record r {
          state = locked;
          submission = record r.submission {
            ark_txid = some (get_or r.submission.ark_txid o.txid);
          };
        }))))

-- Another row that keeps the outpoint: the unique index refuses the update, which throws.
abbrev pub is_taken : Text → Outpoint → Store → Bool
is_taken id o db = any (λ r. not (has_row_id id r) && is_on o.txid o.vout r) db.advances

unfoldable pub record_lockup_observed :
    Text → Outpoint → ℕ → Store → Result AdvanceFailure (Bool × Store)
record_lockup_observed id o at db = do
  throw_if (any (is_locking id) db.advances && is_taken id o db) duplicate_key
  ok (run_update (is_locking id) (lockup_observed o at) db)

unfoldable pub covenant_renewed : Outpoint → ℕ → AdvanceRow → AdvanceRow
unfolding touched
covenant_renewed o at r = touched at (
    with_failure none none (
      seen_at at
        (standing_on o (record r { renewals = r.renewals + 1; last_renewed_at = some at }))))

-- The `WHERE` reads the table too: a successor that another row keeps is refused.
unfoldable pub is_renewing : Text → Outpoint → Store → AdvanceRow → Bool
is_renewing id o db r =
    has_row_id id r && in_state locked r && is_covenant_kind r.kind && not (is_taken id o db)

unfoldable pub record_covenant_renewed : Text → Outpoint → ℕ → Store → Bool × Store
record_covenant_renewed id o at db = run_update (is_renewing id o db) (covenant_renewed o at) db
