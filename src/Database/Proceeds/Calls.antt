-- ===== src/Database/Proceeds/Calls.antt =====
-- packages/db/src/proceeds.ts: what each call makes of the table of jobs.
use arkade_taxi.Prelude.{
  ℕ, ◌≡◌, ap, sym, false, not, Option, List, ◌∷◌, Text, ok, throw_if, >>-eq-ok, >>=-eq-ok,
  throw_if-eq-ok, ok-injective, any, text_eq, is_some,
}
use arkade_taxi.Core.Types.{Outpoint}
use arkade_taxi.Core.Ledger.{is_txid}
use arkade_taxi.Database.Rows.{update_where}
use arkade_taxi.Database.Reservations.{expire_receive_quotes}
use arkade_taxi.Database.Reservations.Reserving.{is_stale_selection}
use arkade_taxi.Database.Proceeds.{
  Office, is_entered, is_job, active, assert_lease, submission_evidence, remember_local_intent,
  entered_job, enter_submission, ProceedsPlan, already_active, reservation_changed, inputs_empty,
  constraint_failed, submission_ambiguous, intent_unbound, commitment_invalid,
}
use arkade_taxi.Database.Proceeds.Jobs.{
  hold_inputs, new_job, has_no_inputs, create, completed_job, complete_job,
}

pub create-jobs :
    (id : Text) (plan : ProceedsPlan) (at : ℕ) (reserved : Option (List Outpoint))
    (office after : Office)
    → create id plan at reserved office ≡ ok after
    → (is_some (active office) ≡ false)
      × (any (is_job id) office.jobs ≡ false)
      × (after.jobs ≡ new_job id plan at ∷ office.jobs)
unfolding create
create-jobs id plan at reserved office after e =
    let (idle, e1) = >>-eq-ok (throw_if (is_some (active office)) already_active) _ e in
    let (_, e2) =
      >>-eq-ok
        (throw_if (is_stale_selection reserved (expire_receive_quotes at office.desk))
          reservation_changed)
        _ e1 in
    let (_, e3) = >>-eq-ok (throw_if (has_no_inputs plan.inputs) inputs_empty) _ e2 in
    let (free, e4) = >>-eq-ok (throw_if (any (is_job id) office.jobs) constraint_failed) _ e3 in
    let (held, _, e5) =
      >>=-eq-ok
        (hold_inputs id (expire_receive_quotes at office.desk) plan.inputs
          (expire_receive_quotes at office.desk).proceeds_coins)
        _ e4 in
    (
      throw_if-eq-ok _ _ idle,
      throw_if-eq-ok _ _ free,
      ap (λ (o : Office). o.jobs) (sym (ok-injective e5)),
    )

pub remember-jobs :
    (other owner : Text) (now : ℕ) (digest : Text) (office after : Office)
    → remember_local_intent other owner now digest office ≡ ok after
    → after.jobs ≡ office.jobs
unfolding remember_local_intent
remember-jobs other owner now digest office after e =
    let (_, e1) = >>-eq-ok (assert_lease other owner now office) _ e in
    let (evidence, _, e2) = >>=-eq-ok (submission_evidence other office) _ e1 in
    let (_, e3) = >>-eq-ok (throw_if (is_entered evidence.0) submission_ambiguous) _ e2 in
    ap (λ (o : Office). o.jobs) (sym (ok-injective e3))

pub enter-jobs :
    (other owner : Text) (now : ℕ) (digest : Text) (office after : Office)
    → enter_submission other owner now digest office ≡ ok after
    → after.jobs ≡ update_where (is_job other) entered_job office.jobs
unfolding enter_submission
enter-jobs other owner now digest office after e =
    let (_, e1) = >>-eq-ok (assert_lease other owner now office) _ e in
    let (evidence, _, e2) = >>=-eq-ok (submission_evidence other office) _ e1 in
    let (_, e3) = >>-eq-ok (throw_if (is_entered evidence.0) submission_ambiguous) _ e2 in
    let (_, e4) = >>-eq-ok (throw_if (not (any (text_eq digest) evidence.1)) intent_unbound) _ e3 in
    ap (λ (o : Office). o.jobs) (sym (ok-injective e4))

pub complete-jobs :
    (other txid : Text) (office after : Office)
    → complete_job other txid office ≡ ok after
    → after.jobs ≡ update_where (is_job other) (completed_job txid) office.jobs
unfolding complete_job
complete-jobs other txid office after e =
    let (_, e1) = >>-eq-ok (throw_if (not (is_txid txid)) commitment_invalid) _ e in
    ap (λ (o : Office). o.jobs) (sym (ok-injective e1))
