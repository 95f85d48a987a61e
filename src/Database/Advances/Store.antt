-- ===== src/Database/Advances/Store.antt =====
-- packages/db/src/advances.ts: the tables that its statements read and change, the statement forms that
-- they share, and the pause of packages/db/src/policy.ts. A transaction that throws leaves the tables as
-- they were, which is the `err` of a call.
use arkade_taxi.Prelude.{
  ℕ, ◌+◌, Bool, true, false, Option, none, some, List, [], ◌∷◌, Text, Result, ok, err,
  if◌then◌else◌, ltb, leb, ◌==◌, find, text_eq,
}
use arkade_taxi.Prelude.Int.{ℤ, Number}
use arkade_taxi.Core.Types.{AdvanceState, state_eq, DeadlineKind, Policy}
use arkade_taxi.Core.Ledger.{LedgerError}
use arkade_taxi.Core.Submission.{
  SubmissionPhase, claimed, prepared, responded, finalized, failed, legacy, RecoveryPhase,
  recovery_prepared, submitted, recovery_failed, recovery_legacy,
}
use arkade_taxi.Database.Rows.{Tables, CustodyFailure, update_where, changes}
use arkade_taxi.Database.Advances.{StoredAdvance, AdvanceRow}
use arkade_taxi.Database.Advances.Fields.{RowError}
use arkade_taxi.Database.Advances.Reading.{from_row}
use arkade_taxi.Database.Advances.Writing.{ParamsError}

-- A row of the table `operator_input_reservations`, whose primary key is the outpoint.
pub record ReservationRow : Type 0 where
  pub outpoint_txid : Text
  pub outpoint_vout : Number
  pub advance_id : Text
  pub batch_expiry_kind : Option DeadlineKind
  pub batch_expiry_value : Option ℤ
  pub created_at : ℕ

pub record Store : Type 0 where
  pub advances : List AdvanceRow
  pub operator_inputs : List ReservationRow
  pub policy : Policy
  pub revision : ℕ
  pub ledger : Tables

pub data AdvanceFailure : Type 0 where
  unreadable : RowError → AdvanceFailure
  unwritable : ParamsError → AdvanceFailure
  unfunded : LedgerError → AdvanceFailure
  custody_refused : CustodyFailure → AdvanceFailure
  advance_not_found duplicate_key no_prepared_recovery : AdvanceFailure
  invalid_hash invalid_clock observation_lost : AdvanceFailure

abbrev pub has_row_id : Text → AdvanceRow → Bool
has_row_id id r = text_eq r.id id

abbrev pub in_state : AdvanceState → AdvanceRow → Bool
in_state s r = state_eq r.state s

-- `===` on phases, which are strings in the source.
abbrev pub phase_index : SubmissionPhase → ℕ
phase_index claimed = 0
phase_index prepared = 1
phase_index responded = 2
phase_index finalized = 3
phase_index failed = 4
phase_index legacy = 5

abbrev pub in_phase : SubmissionPhase → Option SubmissionPhase → Bool
in_phase p none = false
in_phase p (some q) = phase_index q == phase_index p

abbrev pub recovery_phase_index : RecoveryPhase → ℕ
recovery_phase_index recovery_prepared = 0
recovery_phase_index submitted = 1
recovery_phase_index recovery_failed = 2
recovery_phase_index recovery_legacy = 3

abbrev pub in_recovery_phase : RecoveryPhase → Option RecoveryPhase → Bool
in_recovery_phase p none = false
in_recovery_phase p (some q) = recovery_phase_index q == recovery_phase_index p

-- `column = ?` on texts, which null never meets.
abbrev pub is_value : Option Text → Text → Bool
is_value none s = false
is_value (some t) s = text_eq t s

-- `column <= ?` and `column > ?` on times.
abbrev pub is_past : Option ℕ → ℕ → Bool
is_past none at = false
is_past (some t) at = leb t at

abbrev pub is_later : Option ℕ → ℕ → Bool
is_later none at = false
is_later (some t) at = ltb at t

-- `max(a, b)`
abbrev pub later : ℕ → ℕ → ℕ
later a b = if ltb a b then b else a

-- `updated_at = max(updated_at, ?)`
unfoldable pub touched : ℕ → AdvanceRow → AdvanceRow
touched at r = record r { updated_at = later r.updated_at at }

-- `db.get(id)` of the repository.
unfoldable pub get : Store → Text → Result AdvanceFailure (Option StoredAdvance)
get db id = elim (find (has_row_id id) db.advances) [
  | none ↦ ok none
  | some r ↦ elim (from_row r) [ err thrown ↦ err (unreadable thrown) | ok a ↦ ok (some a) ]
]

unfoldable pub update_advances : (AdvanceRow → Bool) → (AdvanceRow → AdvanceRow) → Store → Store
update_advances p f db = record db { advances = update_where p f db.advances }

-- `.run(…).changes === 1`
unfoldable pub changes_one : (AdvanceRow → Bool) → Store → Bool
changes_one p db = changes p db.advances == 1

-- One `UPDATE` on its own, and whether it changed one row.
unfoldable pub run_update : (AdvanceRow → Bool) → (AdvanceRow → AdvanceRow) → Store → Bool × Store
run_update p f db = (changes_one p db, update_advances p f db)

abbrev pub paused_field : Text
paused_field = b'p' ∷ b'a' ∷ b'u' ∷ b's' ∷ b'e' ∷ b'd' ∷ []

abbrev pub true_text : Text
true_text = b't' ∷ b'r' ∷ b'u' ∷ b'e' ∷ []

abbrev pub false_text : Text
false_text = b'f' ∷ b'a' ∷ b'l' ∷ b's' ∷ b'e' ∷ []

-- `new PolicyRepository(db).update({ paused: true }, actor)`: a policy that is paused stays as it is.
-- `Date.now()` of the audit entry is the second argument.
unfoldable pub pause : Text → ℕ → Store → Store
pause actor wall_clock db = if db.policy.paused then db else record db {
  policy = record db.policy { paused = true };
  revision = db.revision + 1;
  ledger = record db.ledger {
    audit =
        record {
          changed_at = wall_clock;
          field = paused_field;
          old_value = false_text;
          new_value = true_text;
          actor = actor;
        }
        ∷ db.ledger.audit;
  };
}

-- An update that pauses the service where it changes a row.
unfoldable pub run_and_pause :
    (AdvanceRow → Bool) → (AdvanceRow → AdvanceRow) → Text → ℕ → Store → Bool × Store
run_and_pause p f actor wall_clock db = (
  changes_one p db,
  if changes_one p db
      then pause actor wall_clock (update_advances p f db)
      else update_advances p f db,
)

-- What `RETURNING *` hands out: the row after the update, read back.
unfoldable pub returned :
    (AdvanceRow → Bool)
    → (AdvanceRow → AdvanceRow)
    → Store
    → Result AdvanceFailure (Option StoredAdvance)
returned p f db = elim (find p db.advances) [
  | none ↦ ok none
  | some r ↦ elim (from_row (f r)) [ err thrown ↦ err (unreadable thrown) | ok a ↦ ok (some a) ]
]
