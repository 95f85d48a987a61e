-- ===== src/Database/Proceeds/Single.antt =====
-- packages/db/src/proceeds.ts: one job at a time.
use arkade_taxi.Prelude.{
  ◌≡◌, refl, sym, Bool, true, false, not, ◌&&◌, List, [], ◌∷◌, Text, Result, ok, err, any, filter,
  find, arith, inl, inr, Bool-cases, subst, is_some,
}
use arkade_taxi.Database.Rows.{update_where}
use arkade_taxi.Database.Proceeds.{
  JobRow, Office, is_job, is_active, active, get_job, is_claimable_job, leased_job, claim_job,
  entered_job, ProceedsError,
}
use arkade_taxi.Database.Proceeds.Jobs.{
  updated_job, update_job, is_cancellable, cancel, completed_job, JobCommand, claims, remembers,
  enters, creates, updates, cancels, completes, or_unchanged, run_job, run_jobs,
}
use arkade_taxi.Database.Proceeds.Calls.{create-jobs, remember-jobs, enter-jobs, complete-jobs}

-- At most one job is not complete.
abbrev pub IsSingle : List JobRow → Type 0
IsSingle [] = Unit
IsSingle (j ∷ js) = ((is_active j && any is_active js) ≡ false) × IsSingle js

module _ (p : JobRow → Bool) (f : JobRow → JobRow)
    (closes : (j : JobRow) → p j ≡ true → is_active (f j) ≡ true → is_active j ≡ true) where
  idle-updated :
      (jobs : List JobRow)
      → any is_active jobs ≡ false
      → any is_active (update_where p f jobs) ≡ false
  unfolding update_where
  idle-updated [] h = refl
  idle-updated (j ∷ js) h = elim (Bool-cases (p j)) [
    | inr miss ↦ rw miss (ground (arith, idle-updated js))
    | inl hit ↦ rw hit (ground (arith, idle-updated js, closes j hit))
  ]

  updated-IsSingle : (jobs : List JobRow) → IsSingle jobs → IsSingle (update_where p f jobs)
  unfolding update_where
  updated-IsSingle [] h = tt
  updated-IsSingle (j ∷ js) (one, h) = elim (Bool-cases (p j)) [
    | inr miss ↦ (rw miss (ground (arith, idle-updated js)), updated-IsSingle js h)
    | inl hit ↦ (rw hit (ground (arith, idle-updated js, closes j hit)), updated-IsSingle js h)
  ]

module _ (p : JobRow → Bool) where
  idle-filter :
      (jobs : List JobRow) → any is_active jobs ≡ false → any is_active (filter p jobs) ≡ false
  idle-filter [] h = refl
  idle-filter (j ∷ js) h = elim (Bool-cases (p j)) [
    | inr miss ↦ rw miss (idle-filter js (ground arith))
    | inl hit ↦ rw hit (ground (arith, idle-filter js))
  ]

  filter-IsSingle : (jobs : List JobRow) → IsSingle jobs → IsSingle (filter p jobs)
  filter-IsSingle [] h = tt
  filter-IsSingle (j ∷ js) (one, h) = elim (Bool-cases (p j)) [
    | inr miss ↦ rw miss (filter-IsSingle js h)
    | inl hit ↦ rw hit (ground (arith, idle-filter js), filter-IsSingle js h)
  ]

idle-find :
    (jobs : List JobRow) → is_some (find is_active jobs) ≡ false → any is_active jobs ≡ false
idle-find [] h = refl
idle-find (j ∷ js) h = elim (Bool-cases (is_active j)) [
  | inl hit ↦ absurd (not_none (rw hit at h))
  | inr miss ↦ rw miss (idle-find js (rw miss at h))
]
  where
    not_none : Path Bool true false → ⊥
    not_none e = cc

or_unchanged-IsSingle :
    (answer : Result ProceedsError Office) (office : Office)
    → ((after : Office) → answer ≡ ok after → IsSingle after.jobs)
    → IsSingle office.jobs
    → IsSingle (or_unchanged answer office).jobs
or_unchanged-IsSingle (ok after) office step h = step after refl
or_unchanged-IsSingle (err _) office step h = h

cancel-IsSingle :
    (id : Text) (office : Office) → IsSingle office.jobs → IsSingle (cancel id office).1.jobs
unfolding cancel
cancel-IsSingle id office h = elim (Bool-cases (is_cancellable (get_job office id))) [
  | inl gone ↦
      subst IsSingle (rw gone refl) (filter-IsSingle (λ j. not (is_job id j)) office.jobs h)
  | inr kept ↦ subst IsSingle (rw kept refl) h
]

run_job-IsSingle :
    (c : JobCommand) (office : Office) → IsSingle office.jobs → IsSingle (run_job c office).jobs
unfolding run_job claim_job leased_job update_job updated_job entered_job completed_job active
run_job-IsSingle (claims id owner now until) office h =
    updated-IsSingle (is_claimable_job id owner now) (leased_job owner until) (λ j _ a. a)
      office.jobs h
run_job-IsSingle (remembers id owner now digest) office h =
    or_unchanged-IsSingle _ office
      (λ after e. subst IsSingle (sym (remember-jobs id owner now digest office after e)) h) h
run_job-IsSingle (enters id owner now digest) office h =
    or_unchanged-IsSingle _ office
      (λ after e.
        subst IsSingle (sym (enter-jobs id owner now digest office after e))
          (updated-IsSingle (is_job id) entered_job (λ j _ a. a) office.jobs h))
      h
run_job-IsSingle (creates id plan at reserved) office h =
    or_unchanged-IsSingle _ office
      (λ after e.
        let (idle, _, made) = create-jobs id plan at reserved office after e in
        subst IsSingle (sym made) (ground (arith, idle-find office.jobs idle), h))
      h
run_job-IsSingle (updates id s blocker txid) office h =
    updated-IsSingle (λ j. is_job id j && is_active j) (updated_job s blocker txid)
      (λ j hit _. ground arith) office.jobs h
run_job-IsSingle (cancels id) office h = cancel-IsSingle id office h
run_job-IsSingle (completes id txid) office h =
    or_unchanged-IsSingle _ office
      (λ after e. subst IsSingle (sym (complete-jobs id txid office after e)) (
        updated-IsSingle (is_job id) (completed_job txid) (λ j _ a. absurd (not_closed a))
          office.jobs h))
      h
  where
    not_closed : Path Bool false true → ⊥
    not_closed e = cc

-- One job at a time: where at most one job is not complete, that holds after any calls.
pub run_jobs-IsSingle :
    (cs : List JobCommand) (office : Office)
    → IsSingle office.jobs
    → IsSingle (run_jobs cs office).jobs
unfolding run_jobs
run_jobs-IsSingle [] office h = h
run_jobs-IsSingle (c ∷ cs) office h =
    run_jobs-IsSingle cs (run_job c office) (run_job-IsSingle c office h)
