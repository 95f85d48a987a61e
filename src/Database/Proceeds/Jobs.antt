-- ===== src/Database/Proceeds/Jobs.antt =====
-- packages/db/src/proceeds.ts: how a job is created, updated and ended, and the calls as commands.
use arkade_taxi.Prelude.{
  ℕ, Bool, true, false, not, ◌&&◌, ◌||◌, Option, none, some, List, [], ◌∷◌, Text, Result, ok, err,
  ◌>>=◌, ◌>>◌, throw_if, if◌then◌else◌, any, filter, text_eq, is_some,
}
use arkade_taxi.Prelude.Int.{in_range}
use arkade_taxi.Core.Types.{Outpoint}
use arkade_taxi.Core.Ledger.{is_txid}
use arkade_taxi.Database.Rows.{update_where}
use arkade_taxi.Database.Reservations.{
  Desk, HeldCoin, same_coin, coin_of, held_coin, expire_receive_quotes,
}
use arkade_taxi.Database.Reservations.Reserving.{is_stale_selection}
use arkade_taxi.Database.Proceeds.{
  JobState, ProceedsPlan, JobRow, Office, ProceedsError, is_entered, is_job, is_active, active,
  get_job, update_jobs, claim_job, remember_local_intent, enter_submission, pending, settling,
  quarantined, complete, unsubmitted, already_active, reservation_changed, inputs_empty,
  input_reserved, commitment_invalid, constraint_failed,
}

-- The loop over the plan's inputs, whose table has the outpoint as its key and checks the index.
unfoldable pub hold_inputs :
    Text → Desk → List Outpoint → List HeldCoin → Result ProceedsError (List HeldCoin)
hold_inputs id desk [] held = ok held
hold_inputs id desk (c ∷ cs) held = do
  throw_if (any (λ q. same_coin c (coin_of q)) desk.store.operator_inputs) input_reserved
  throw_if (any (λ h. same_coin c (held_coin h)) desk.fill_coins) input_reserved
  throw_if (any (λ h. same_coin c (held_coin h)) desk.receive_coins) input_reserved
  throw_if (not (in_range 0xffff_ffff c.vout) || any (λ h. same_coin c (held_coin h)) held)
      constraint_failed
  hold_inputs id desk cs (record { coin = c; holder = id } ∷ held)

unfoldable pub new_job : Text → ProceedsPlan → ℕ → JobRow
new_job id plan at = record {
  id = id;
  plan = plan;
  state = pending;
  blocker = none;
  commitment_txid = none;
  submission_state = unsubmitted;
  lease_owner = none;
  lease_until = none;
  created_at = at;
}

abbrev pub has_no_inputs : List Outpoint → Bool
has_no_inputs [] = true
has_no_inputs (_ ∷ _) = false

unfoldable pub create :
    Text → ProceedsPlan → ℕ → Option (List Outpoint) → Office → Result ProceedsError Office
create id plan at expected_reserved office = do
  throw_if (is_some (active office)) already_active
  throw_if (is_stale_selection expected_reserved (expire_receive_quotes at office.desk))
      reservation_changed
  throw_if (has_no_inputs plan.inputs) inputs_empty
  throw_if (any (is_job id) office.jobs) constraint_failed
  held ←
      hold_inputs id (expire_receive_quotes at office.desk) plan.inputs
        (expire_receive_quotes at office.desk).proceeds_coins
  ok (record office {
    jobs = new_job id plan at ∷ office.jobs;
    desk = record (expire_receive_quotes at office.desk) { proceeds_coins = held };
  })

-- The states that `update` takes are all but `complete`.
pub data OpenState : Type 0 where
  to_pending to_settling to_quarantined : OpenState

abbrev pub open_state : OpenState → JobState
open_state to_pending = pending
open_state to_settling = settling
open_state to_quarantined = quarantined

abbrev pub coalesce : Option Text → Option Text → Option Text
coalesce none old = old
coalesce (some new) old = some new

unfoldable pub updated_job : OpenState → Option Text → Option Text → JobRow → JobRow
updated_job s blocker txid j = record j {
  state = open_state s;
  blocker = blocker;
  commitment_txid = coalesce txid j.commitment_txid;
}

unfoldable pub update_job : Text → OpenState → Option Text → Option Text → Office → Office
update_job id s blocker txid office =
    update_jobs (λ j. is_job id j && is_active j) (updated_job s blocker txid) office

-- The coins that other jobs hold.
abbrev pub held_by_others : Text → List HeldCoin → List HeldCoin
held_by_others id held = filter (λ h. not (text_eq h.holder id)) held

abbrev pub release : Text → Desk → Desk
release id desk = record desk { proceeds_coins = held_by_others id desk.proceeds_coins }

abbrev pub is_cancellable : Option JobRow → Bool
is_cancellable none = false
is_cancellable (some j) = is_active j && not (is_entered j.submission_state)

unfoldable pub cancel : Text → Office → Bool × Office
cancel id office =
    if is_cancellable (get_job office id)
    then (
      true,
      record {
        jobs = filter (λ j. not (is_job id j)) office.jobs;
        intents = filter (λ i. not (text_eq i.job_id id)) office.intents;
        desk = release id office.desk;
      },
    )
    else (false, office)

unfoldable pub completed_job : Text → JobRow → JobRow
completed_job txid j = record j { state = complete; blocker = none; commitment_txid = some txid }

unfoldable pub complete_job : Text → Text → Office → Result ProceedsError Office
complete_job id txid office = do
  throw_if (not (is_txid txid)) commitment_invalid
  ok (record office {
    jobs = update_where (is_job id) (completed_job txid) office.jobs;
    desk = release id office.desk;
  })

-- One call with its arguments.
pub data JobCommand : Type 0 where
  claims : (id owner : Text) (now until : ℕ) → JobCommand
  remembers : (id owner : Text) (now : ℕ) (digest : Text) → JobCommand
  enters : (id owner : Text) (now : ℕ) (digest : Text) → JobCommand
  creates :
      (id : Text) (plan : ProceedsPlan) (at : ℕ) (reserved : Option (List Outpoint)) → JobCommand
  updates : (id : Text) (s : OpenState) (blocker txid : Option Text) → JobCommand
  cancels : (id : Text) → JobCommand
  completes : (id txid : Text) → JobCommand

-- A call that throws changes nothing.
abbrev pub or_unchanged : Result ProceedsError Office → Office → Office
or_unchanged (ok after) office = after
or_unchanged (err _) office = office

unfoldable pub run_job : JobCommand → Office → Office
run_job (claims id owner now until) office = (claim_job id owner now until office).1
run_job (remembers id owner now digest) office =
    or_unchanged (remember_local_intent id owner now digest office) office
run_job (enters id owner now digest) office =
    or_unchanged (enter_submission id owner now digest office) office
run_job (creates id plan at reserved) office =
    or_unchanged (create id plan at reserved office) office
run_job (updates id s blocker txid) office = update_job id s blocker txid office
run_job (cancels id) office = (cancel id office).1
run_job (completes id txid) office = or_unchanged (complete_job id txid office) office

unfoldable pub run_jobs : List JobCommand → Office → Office
run_jobs [] office = office
run_jobs (c ∷ cs) office = run_jobs cs (run_job c office)
