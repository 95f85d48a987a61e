-- ===== src/Database/Fills.antt =====
-- packages/db/src/fills.ts: what a fill writes to the advance of its receive quote. Of a fill the two
-- fields that are read here, and of the receive quotes those in state `bound`, with the fill they name.
use arkade_taxi.Prelude.{
  Bool, false, not, ◌&&◌, ◌||◌, Option, none, some, List, Text, ℕ, Result, ok, err, ◌>>◌, throw_if,
  if◌then◌else◌, find, filter, text_eq,
}
use arkade_taxi.Core.Types.{
  locking, locked, recovering, recycled, purchased, refunded, recovered, expired, Outpoint,
}
use arkade_taxi.Database.Advances.{AdvanceRow}
use arkade_taxi.Database.Advances.Store.{
  Store, has_row_id, in_state, is_value, touched, update_advances, changes_one,
}
use arkade_taxi.Database.Advances.Lockup.{is_locking, is_on, is_taken, standing_on, seen_at}
use arkade_taxi.Database.Advances.Submission.{with_failure}
use arkade_taxi.Database.Advances.Observation.{is_for_other}

pub record Fill : Type 0 where
  pub id : Text
  pub quote_id : Text

pub record Binding : Type 0 where
  pub quote_id : Text
  pub bound_fill_id : Text

pub data FillFailure : Type 0 where
  binding_disagrees advance_missing observation_disagrees not_locking outpoint_taken : FillFailure

-- `#assertBound`
unfoldable pub is_bound : List Binding → Fill → Bool
is_bound bindings fill = elim (find (λ b. text_eq b.quote_id fill.quote_id) bindings) [
  | none ↦ false
  | some b ↦ text_eq b.bound_fill_id fill.id
]

-- The `SET` of `#lockLiability`.
unfoldable pub liability_locked : Text → Outpoint → ℕ → AdvanceRow → AdvanceRow
unfolding touched
liability_locked txid o now r = touched now (
    with_failure none none (
      seen_at now (
        standing_on o (record r {
          state = locked;
          submission = record r.submission { ark_txid = some txid };
        }))))

-- The states that are past `locking`.
abbrev pub is_past_locking : AdvanceRow → Bool
is_past_locking r =
    in_state locked r
    || in_state recovering r
    || in_state recycled r
    || in_state purchased r
    || in_state refunded r
    || in_state recovered r

abbrev pub is_same_lockup : Text → Outpoint → AdvanceRow → Bool
is_same_lockup txid o r =
    is_past_locking r && is_value r.submission.ark_txid txid && is_on o.txid o.vout r

-- What follows the look-up; the unique index of the outpoint may refuse the update.
unfoldable pub lock_found :
    Text → Text → Outpoint → ℕ → Option AdvanceRow → Store → Result FillFailure Store
lock_found quote_id txid o now none db = err advance_missing
lock_found quote_id txid o now (some r) db =
    if in_state locking r
    then (do
      throw_if (is_taken quote_id o db) outpoint_taken
      ok (update_advances (is_locking quote_id) (liability_locked txid o now) db))
    else (do throw_if (not (is_same_lockup txid o r)) observation_disagrees; ok db)

unfoldable pub lock_liability :
    List Binding → Fill → Text → Outpoint → ℕ → Store → Result FillFailure Store
lock_liability bindings fill txid o now db = do
  throw_if (not (is_bound bindings fill)) binding_disagrees
  lock_found fill.quote_id txid o now (find (has_row_id fill.quote_id) db.advances) db

-- The `SET` of `#cancelLiability`.
unfoldable pub liability_cancelled : Text → ℕ → AdvanceRow → AdvanceRow
unfolding touched
liability_cancelled code now r = touched now (record r {
  state = expired;
  submission = record r.submission {
    submission_lease_owner = none;
    submission_lease_token = none;
    submission_lease_until = none;
    submission_next_attempt_at = none;
  };
  observation = record r.observation { failure_code = some code };
})

unfoldable pub cancel_liability : List Binding → Fill → Text → ℕ → Store → Result FillFailure Store
cancel_liability bindings fill code now db = do
  throw_if (not (is_bound bindings fill)) binding_disagrees
  throw_if (not (changes_one (is_locking fill.quote_id) db)) not_locking
  ok (record (update_advances (is_locking fill.quote_id) (liability_cancelled code now) db) {
    operator_inputs = filter (is_for_other fill.quote_id) db.operator_inputs;
  })
