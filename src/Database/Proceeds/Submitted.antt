-- ===== src/Database/Proceeds/Submitted.antt =====
-- packages/db/src/proceeds.ts: what becomes of a job that was submitted.
use arkade_taxi.Prelude.{
  ℕ, ◌≡◌, refl, ap, sym, ◌∙◌, Bool, true, false, not, ◌&&◌, Option, some, none, List, [], ◌∷◌, Text,
  Result, ok, err, any, filter, find, arith, inl, inr, Bool-cases, subst, text_eq, text_eq_iff,
}
use arkade_taxi.Core.Types.{Outpoint}
use arkade_taxi.Database.Rows.{update_where}
use arkade_taxi.Database.Keyed.{find-updated, find-none}
use arkade_taxi.Database.Proceeds.{
  JobRow, Office, entered, is_entered, is_job, is_active, get_job, is_claimable_job, leased_job,
  claim_job, entered_job, ProceedsPlan, ProceedsError,
}
use arkade_taxi.Database.Proceeds.Jobs.{
  new_job, create, updated_job, update_job, is_cancellable, cancel, completed_job, JobCommand,
  claims, remembers, enters, creates, updates, cancels, completes, or_unchanged, run_job, run_jobs,
}
use arkade_taxi.Database.Proceeds.Calls.{create-jobs, remember-jobs, enter-jobs, complete-jobs}

abbrev job_id : JobRow → Text
job_id j = j.id

-- The job stands under its id, submitted and with its plan.
abbrev pub IsKept : Text → ProceedsPlan → List JobRow → Type 0
IsKept id plan jobs =
    (j : JobRow) × (find (is_job id) jobs ≡ some j)
    × (j.submission_state ≡ entered)
    × (j.plan ≡ plan)

module _ (id : Text) (plan : ProceedsPlan) where
  updated-IsKept :
      (p : JobRow → Bool) (f : JobRow → JobRow) (jobs : List JobRow)
      → ((j : JobRow) → (f j).id ≡ j.id)
      → ((j : JobRow) → j.submission_state ≡ entered → (f j).submission_state ≡ entered)
      → ((j : JobRow) → (f j).plan ≡ j.plan)
      → IsKept id plan jobs
      → IsKept id plan (update_where p f jobs)
  updated-IsKept p f jobs same_id stays same_plan (j, found, sent, planned) =
      let moved = find-updated job_id id p f jobs same_id found in
      elim (Bool-cases (p j)) [
        | inl hit ↦ (f j, moved ∙ rw hit refl, stays j sent, same_plan j ∙ planned)
        | inr miss ↦ (j, moved ∙ rw miss refl, sent, planned)
      ]

  added-IsKept :
      (other : Text) (p : ProceedsPlan) (at : ℕ) (jobs : List JobRow)
      → any (is_job other) jobs ≡ false
      → IsKept id plan jobs
      → IsKept id plan (new_job other p at ∷ jobs)
  unfolding new_job
  added-IsKept other p at jobs free (j, found, sent, planned) =
      elim (Bool-cases (text_eq other id)) [
        | inr apart ↦ (j, rw apart found, sent, planned)
        | inl same ↦
            let none_there : find (is_job id) jobs ≡ none =
              find-none (is_job id) jobs
                (subst (λ t. any (is_job t) jobs ≡ false) ((text_eq_iff other id).0 same) free) in
            absurd (not_some (sym none_there ∙ found))
      ]
    where
      not_some : {q : JobRow} → Path (Option JobRow) none (some q) → ⊥
      not_some h = cc

  find-filter :
      (other : Text) (jobs : List JobRow)
      → text_eq other id ≡ false
      → find (is_job id) (filter (λ j. not (is_job other j)) jobs) ≡ find (is_job id) jobs
  find-filter other [] apart = refl
  find-filter other (j ∷ js) apart = elim (Bool-cases (is_job other j)) [
    | inr miss ↦ elim (Bool-cases (is_job id j)) [
      | inl here ↦ rw (miss, here) refl
      | inr away ↦ rw (miss, away) (find-filter other js apart)
    ]
    | inl hit ↦
        let away : is_job id j ≡ false =
          subst (λ t. text_eq t id ≡ false) (sym ((text_eq_iff j.id other).0 hit)) apart in
        rw (hit, away) (find-filter other js apart)
  ]

  create-IsKept :
      (other : Text) (p : ProceedsPlan) (at : ℕ) (reserved : Option (List Outpoint))
      (office after : Office)
      → create other p at reserved office ≡ ok after
      → IsKept id plan office.jobs
      → IsKept id plan after.jobs
  create-IsKept other p at reserved office after e h =
      let (_, free, made) = create-jobs other p at reserved office after e in
      subst (IsKept id plan) (sym made) (added-IsKept other p at office.jobs free h)

  cancel-IsKept :
      (other : Text) (office : Office)
      → IsKept id plan office.jobs
      → IsKept id plan (cancel other office).1.jobs
  unfolding cancel get_job
  cancel-IsKept other office (j, found, sent, planned) =
      elim (Bool-cases (is_cancellable (find (is_job other) office.jobs))) [
        | inr kept ↦ rw kept (j, found, sent, planned)
        | inl gone ↦ elim (Bool-cases (text_eq other id)) [
          | inr apart ↦ rw gone (j, find-filter other office.jobs apart ∙ found, sent, planned)
          | inl same ↦
              let here : find (is_job other) office.jobs ≡ some j =
                subst (λ t. find (is_job t) office.jobs ≡ some j)
                  (sym ((text_eq_iff other id).0 same)) found in
              absurd (not_sent j sent (rw here at gone))
        ]
      ]
    where
      not_sent :
          (q : JobRow)
          → q.submission_state ≡ entered
          → (is_active q && not (is_entered q.submission_state)) ≡ true
          → ⊥
      not_sent q s h = absurd (ground (arith, ap is_entered s))

  -- A call that answers with the tables or throws.
  or_unchanged-IsKept :
      (answer : Result ProceedsError Office) (office : Office)
      → ((after : Office) → answer ≡ ok after → IsKept id plan after.jobs)
      → IsKept id plan office.jobs
      → IsKept id plan (or_unchanged answer office).jobs
  or_unchanged-IsKept (ok after) office step h = step after refl
  or_unchanged-IsKept (err _) office step h = h

  run_job-IsKept :
      (c : JobCommand) (office : Office)
      → IsKept id plan office.jobs
      → IsKept id plan (run_job c office).jobs
  unfolding run_job claim_job leased_job update_job updated_job entered_job completed_job
  run_job-IsKept (claims other owner now until) office h =
      updated-IsKept (is_claimable_job other owner now) (leased_job owner until) office.jobs
        (λ j. refl) (λ j s. s) (λ j. refl) h
  run_job-IsKept (remembers other owner now digest) office h =
      or_unchanged-IsKept _ office
        (λ after e.
          subst (IsKept id plan) (sym (remember-jobs other owner now digest office after e)) h)
        h
  run_job-IsKept (enters other owner now digest) office h =
      or_unchanged-IsKept _ office
        (λ after e.
          subst (IsKept id plan) (sym (enter-jobs other owner now digest office after e)) (
            updated-IsKept (is_job other) entered_job office.jobs (λ j. refl) (λ j s. refl)
              (λ j. refl) h))
        h
  run_job-IsKept (creates other p at reserved) office h =
      or_unchanged-IsKept _ office (λ after e. create-IsKept other p at reserved office after e h) h
  run_job-IsKept (updates other s blocker txid) office h =
      updated-IsKept (λ j. is_job other j && is_active j) (updated_job s blocker txid) office.jobs
        (λ j. refl) (λ j s. s) (λ j. refl) h
  run_job-IsKept (cancels other) office h = cancel-IsKept other office h
  run_job-IsKept (completes other txid) office h =
      or_unchanged-IsKept _ office
        (λ after e. subst (IsKept id plan) (sym (complete-jobs other txid office after e)) (
          updated-IsKept (is_job other) (completed_job txid) office.jobs (λ j. refl) (λ j s. s)
            (λ j. refl) h))
        h

  -- A job whose submission was entered is never dropped: after any calls, of any workers and on any jobs,
  -- it stands under its id, still entered and with its plan.
  pub run_jobs-IsKept :
      (cs : List JobCommand) (office : Office)
      → IsKept id plan office.jobs
      → IsKept id plan (run_jobs cs office).jobs
  unfolding run_jobs
  run_jobs-IsKept [] office h = h
  run_jobs-IsKept (c ∷ cs) office h =
      run_jobs-IsKept cs (run_job c office) (run_job-IsKept c office h)
