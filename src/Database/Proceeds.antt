-- ===== src/Database/Proceeds.antt =====
-- packages/db/src/proceeds.ts: the jobs that settle the operator's proceeds, over the coins they hold. Of a
-- plan the fields besides its inputs are kept as their text.
pub mod Jobs
pub mod Calls
pub mod Submitted
pub mod Single
pub mod Coins
mod Tests
use arkade_taxi.Prelude.{
  ℕ, Bool, true, false, not, ◌&&◌, ◌||◌, Option, none, some, List, [], ◌∷◌, Text, Result, ok, err,
  ◌>>=◌, ◌>>◌, throw_if, if◌then◌else◌, ltb, leb, ◌==◌, any, filter, find, map, text_eq, is_some,
}
use arkade_taxi.Prelude.Int.{in_range}
use arkade_taxi.Core.Types.{Outpoint}
use arkade_taxi.Core.Ledger.{is_txid}
use arkade_taxi.Database.Rows.{update_where, changes}
use arkade_taxi.Database.Advances.Store.{is_value}
use arkade_taxi.Database.Reservations.{
  Desk, HeldCoin, same_coin, coin_of, held_coin, expire_receive_quotes,
}
use arkade_taxi.Database.Reservations.Reserving.{is_stale_selection}

pub data JobState : Type 0 where
  pending settling quarantined complete : JobState

pub data SubmissionStage : Type 0 where
  unsubmitted entered : SubmissionStage

pub record ProceedsPlan : Type 0 where
  pub inputs : List Outpoint
  pub fields : Text

pub record JobRow : Type 0 where
  pub id : Text
  pub plan : ProceedsPlan
  pub state : JobState
  pub blocker : Option Text
  pub commitment_txid : Option Text
  pub submission_state : SubmissionStage
  pub lease_owner : Option Text
  pub lease_until : Option ℕ
  pub created_at : ℕ

pub record LocalIntent : Type 0 where
  pub job_id : Text
  pub digest : Text

-- The tables of the jobs; the coins of `proceeds_inputs` are the desk's.
pub record Office : Type 0 where
  pub jobs : List JobRow
  pub intents : List LocalIntent
  pub desk : Desk

pub data ProceedsError : Type 0 where
  lease_lost submission_evidence_missing submission_ambiguous intent_unbound : ProceedsError
  already_active reservation_changed inputs_empty input_reserved : ProceedsError
  commitment_invalid constraint_failed : ProceedsError

abbrev pub is_complete : JobState → Bool
is_complete pending = false
is_complete settling = false
is_complete quarantined = false
is_complete complete = true

abbrev pub is_entered : SubmissionStage → Bool
is_entered unsubmitted = false
is_entered entered = true

abbrev pub is_job : Text → JobRow → Bool
is_job id j = text_eq j.id id

abbrev pub is_active : JobRow → Bool
is_active j = not (is_complete j.state)

unfoldable pub active : Office → Option JobRow
active office = find is_active office.jobs

unfoldable pub get_job : Office → Text → Option JobRow
get_job office id = find (is_job id) office.jobs

abbrev pub is_over : Option ℕ → ℕ → Bool
is_over none now = true
is_over (some until) now = ltb until now

abbrev pub is_on_at : Option ℕ → ℕ → Bool
is_on_at none now = false
is_on_at (some until) now = leb now until

unfoldable pub is_claimable_job : Text → Text → ℕ → JobRow → Bool
is_claimable_job id owner now j =
    is_job id j && is_active j && (is_over j.lease_until now || is_value j.lease_owner owner)

unfoldable pub leased_job : Text → ℕ → JobRow → JobRow
leased_job owner until j = record j { lease_owner = some owner; lease_until = some until }

abbrev pub update_jobs : (JobRow → Bool) → (JobRow → JobRow) → Office → Office
update_jobs p f office = record office { jobs = update_where p f office.jobs }

-- Whether one row was changed, and the tables.
unfoldable pub claim_job : Text → Text → ℕ → ℕ → Office → Bool × Office
claim_job id owner now until office = (
  changes (is_claimable_job id owner now) office.jobs == 1,
  update_jobs (is_claimable_job id owner now) (leased_job owner until) office,
)

unfoldable pub holds_lease : Text → Text → ℕ → JobRow → Bool
holds_lease id owner now j =
    is_job id j && is_value j.lease_owner owner && is_on_at j.lease_until now && is_active j

unfoldable pub assert_lease : Text → Text → ℕ → Office → Result ProceedsError (Unit {0})
assert_lease id owner now office =
    throw_if (not (any (holds_lease id owner now) office.jobs)) lease_lost

abbrev pub digests_of : Text → List LocalIntent → List Text
digests_of id intents = map (λ i. i.digest) (filter (λ i. text_eq i.job_id id) intents)

-- The digests are listed in the order of their rows, not sorted.
unfoldable pub submission_evidence :
    Text → Office → Result ProceedsError (SubmissionStage × List Text)
submission_evidence id office = elim (find (is_job id) office.jobs) [
  | none ↦ err submission_evidence_missing
  | some j ↦ ok (j.submission_state, digests_of id office.intents)
]

-- `INSERT OR IGNORE`: a row that is there, or that the table's check refuses, is passed over.
unfoldable pub remember : Text → Text → List LocalIntent → List LocalIntent
remember id digest intents =
    if not (is_txid digest) || any (text_eq digest) (digests_of id intents)
    then intents
    else record { job_id = id; digest = digest } ∷ intents

unfoldable pub remember_local_intent : Text → Text → ℕ → Text → Office → Result ProceedsError Office
remember_local_intent id owner now digest office = do
  assert_lease id owner now office
  evidence ← submission_evidence id office
  throw_if (is_entered evidence.0) submission_ambiguous
  ok (record office { intents = remember id digest office.intents })

unfoldable pub entered_job : JobRow → JobRow
entered_job j = record j { submission_state = entered }

unfoldable pub enter_submission : Text → Text → ℕ → Text → Office → Result ProceedsError Office
enter_submission id owner now digest office = do
  assert_lease id owner now office
  evidence ← submission_evidence id office
  throw_if (is_entered evidence.0) submission_ambiguous
  throw_if (not (any (text_eq digest) evidence.1)) intent_unbound
  ok (update_jobs (is_job id) entered_job office)
