-- ===== src/Database/Advances/Execution.antt =====
-- packages/db/src/advances.ts: every call makes moves of the rows that are there.
use arkade_taxi.Prelude.{
  ℕ, not, ◌&&◌, ◌||◌, Option, none, some, Text, ok, if◌then◌else◌, get_or, any, throw_if,
}
use arkade_taxi.Prelude.Int.{Number}
use arkade_taxi.Core.Types.{state_eq, locking, locked, recovering, Outpoint}
use arkade_taxi.Core.Ledger.{is_txid, validate_funding_snapshot}
use arkade_taxi.Core.Submission.{failed, recovery_prepared, Observation}
use arkade_taxi.Database.Advances.{StoredAdvance}
use arkade_taxi.Database.Advances.Store.{
  Store, duplicate_key, observation_lost, invalid_hash, returned, in_phase, in_recovery_phase, get,
  changes_one, is_value,
}
use arkade_taxi.Database.Advances.Submission.{
  not_found, incompatible, live_lease, is_retryable, retried, is_expeditable, expedited_at,
  is_open_phase, is_live, expedite_current, expedite_submission,
}
use arkade_taxi.Database.Advances.Recovery.{
  PreparedRecoveryRecord, is_recovery_free, recovery_expedited, expedite_current_recovery,
  expedite_recovery, is_unrecovered, recovery_begun, is_recovery_claimable, recovery_leased,
  or_missing, or_unfunded, is_reclaimable, reclaim_begun, begin_recovery, claim_recovery_lease,
  claim_recovery,
}
use arkade_taxi.Database.Advances.Lockup.{
  lockup_observed, is_locking, is_taken, record_lockup_observed,
}
use arkade_taxi.Database.Advances.Observation.{
  LiveState, live_state, Outcome, outcome_state, open_liability, safe, is_unspent_in, spent_as,
  disputed, is_row_in, duplicate, retry, disagreement, settle, spend_current,
  record_spend_observation, mark_observation_disagreement, is_outcome, compatible_drift,
  record_spend_unknown, record_covenant_unrolled, record_spend_disagreement, is_live_state,
}
use arkade_taxi.Database.Advances.Messages.{
  Tip, conflict_detail, watcher_actor, malformed_persisted, malformed_tip,
}
use arkade_taxi.Database.Advances.Stable.{
  StableResult, ignored, contradicted, is_following, followed, is_weighed, weighed, disagree,
  follow, weigh, stable_current, record_stable_spend_observation, tip_in, persisted_tip, is_stale,
  same_tip, is_disputed, is_below, is_settled_row,
}
use arkade_taxi.Database.Advances.RowMoves.{
  expedited_at-move, retried-move, recovery_expedited-move, recovery_begun-move,
  recovery_leased-move, lockup_observed-move, spent_as-move, disputed-move, questioned-move,
  followed-move, weighed-move, reclaim_begun-move,
}
use arkade_taxi.Database.Advances.Tables.{
  Moved, MovedBeside, unmoved, update_advances-Moved, run_update-Moved, expedite_where-Moved,
  pause-Moved, if-Moved, if-Moved_beside, Stores, returns, StoresBeside, throws_beside,
  returns_beside, then-Stores, then-StoresBeside, if-StoresBeside, update_and_get-Stores,
}

unmoved_beside {ℓ} : {A : Type ℓ} (db : Store) (answer : A) → MovedBeside db (answer, db)
unmoved_beside db answer = record { after = unmoved db }

expedite_current-Moved :
    (id : Text) (at : ℕ) (a : StoredAdvance) (db : Store)
    → MovedBeside db (expedite_current id at a db)
unfolding expedite_current
expedite_current-Moved id at a db =
    let s = a.progress.submission in
    if-Moved_beside (state_eq a.core.state locking && in_phase failed s.submission_phase) db _ _
      (expedite_where-Moved (is_retryable id) (retried at) (λ r h. retried-move at r) db)
      (if-Moved_beside
        (not (state_eq a.core.state locking) || not (is_open_phase s.submission_phase)) db _ _
        (unmoved_beside db incompatible)
        (if-Moved_beside (is_live s.submission_lease_owner s.submission_lease_until at) db _ _
          (unmoved_beside db live_lease)
          (expedite_where-Moved (is_expeditable id at) (expedited_at at)
            (λ r h. expedited_at-move at r) db)))

pub expedite_submission-Stores :
    (id : Text) (at : ℕ) (db : Store) → StoresBeside db (expedite_submission id at db)
unfolding expedite_submission
expedite_submission-Stores id at db = then-StoresBeside db (get db id) _ (λ current.
    elim current
      as (λ k.
        StoresBeside db
          (elim k [ none ↦ ok (not_found, db) | some a ↦ ok (expedite_current id at a db) ])) [
            | none ↦ returns_beside (unmoved db)
            | some a ↦ returns_beside ((expedite_current-Moved id at a db).after)
          ])

expedite_current_recovery-Moved :
    (id : Text) (at : ℕ) (a : StoredAdvance) (db : Store)
    → MovedBeside db (expedite_current_recovery id at a db)
unfolding expedite_current_recovery
expedite_current_recovery-Moved id at a db =
    let s = a.progress.recovery in
    if-Moved_beside
      (not (state_eq a.core.state recovering)
        || not (in_recovery_phase recovery_prepared s.recovery_phase))
      db _ _ (unmoved_beside db incompatible)
      (if-Moved_beside (is_live s.recovery_lease_owner s.recovery_lease_until at) db _ _
        (unmoved_beside db live_lease)
        (expedite_where-Moved (is_recovery_free id at) (recovery_expedited at)
          (λ r h. recovery_expedited-move at r) db))

pub expedite_recovery-Stores :
    (id : Text) (at : ℕ) (db : Store) → StoresBeside db (expedite_recovery id at db)
unfolding expedite_recovery
expedite_recovery-Stores id at db = then-StoresBeside db (get db id) _ (λ current.
    elim current
      as (λ k. StoresBeside db (elim k [
        | none ↦ ok (not_found, db)
        | some a ↦ ok (expedite_current_recovery id at a db)
      ])) [
        | none ↦ returns_beside (unmoved db)
        | some a ↦ returns_beside ((expedite_current_recovery-Moved id at a db).after)
      ])

begin_recovery-Stores :
    (id owner token : Text) (at until : ℕ) (plan : Option PreparedRecoveryRecord)
    (current : StoredAdvance) (db : Store)
    → StoresBeside db (begin_recovery id owner token at until plan current db)
unfolding begin_recovery
begin_recovery-Stores id owner token at until none current db = throws_beside
begin_recovery-Stores id owner token at until (some plan) current db =
    then-StoresBeside db (or_unfunded (validate_funding_snapshot current.core)) _ (λ u.
      update_and_get-Stores (is_unrecovered id) (recovery_begun plan owner token until at)
        (λ r h. recovery_begun-move id plan owner token until at r h) id db)

pub claim_recovery_lease-Stores :
    (id owner token : Text) (at until : ℕ) (plan : Option PreparedRecoveryRecord) (db : Store)
    → StoresBeside db (claim_recovery_lease id owner token at until plan db)
unfolding claim_recovery_lease
claim_recovery_lease-Stores id owner token at until plan db =
    then-StoresBeside db (get db id) _ (λ found.
      then-StoresBeside db (or_missing found) _ (λ current.
        if-StoresBeside (state_eq current.core.state locked) db _ _
          (begin_recovery-Stores id owner token at until plan current db)
          (if-StoresBeside
            (not (state_eq current.core.state recovering)
              || not (in_recovery_phase recovery_prepared current.progress.recovery.recovery_phase))
            db _ _ (returns_beside {answer = (none, db)} (unmoved db))
            (update_and_get-Stores (is_recovery_claimable id at) (recovery_leased owner token until)
              (λ r h. recovery_leased-move owner token until r) id db))))

pub claim_recovery-Stores :
    (id : Text) (at : ℕ) (db : Store) → StoresBeside db (claim_recovery id at db)
unfolding claim_recovery
claim_recovery-Stores id at db =
    then-StoresBeside db (returned (is_reclaimable id) (reclaim_begun at) db) _ (λ a.
      returns_beside {answer = (a, _)} (
        update_advances-Moved (is_reclaimable id) (reclaim_begun at)
          (λ r h. reclaim_begun-move id at r h) db))

pub record_lockup_observed-Stores :
    (id : Text) (o : Outpoint) (at : ℕ) (db : Store)
    → StoresBeside db (record_lockup_observed id o at db)
unfolding record_lockup_observed
record_lockup_observed-Stores id o at db =
    then-StoresBeside db
      (throw_if (any (is_locking id) db.advances && is_taken id o db) duplicate_key) _
      (λ u. returns_beside (
        run_update-Moved (is_locking id) (lockup_observed o at)
          (λ r h. lockup_observed-move id o at r h) db))

mark_disagreement-Moved :
    (id detail : Text) (at wall : ℕ) (db : Store)
    → Moved db (mark_observation_disagreement id detail at wall db)
unfolding mark_observation_disagreement
mark_disagreement-Moved id detail at wall db =
    pause-Moved watcher_actor wall db _
      (update_advances-Moved _ _ (λ r h. disputed-move detail at r) db)

settle-Stores :
    (id : Text) (l : LiveState) (o : Outcome) (txid : Text) (at : Number) (clock : ℕ) (hash : Text)
    (height : ℕ) (window : Option Number) (current : StoredAdvance) (db : Store)
    → StoresBeside db (settle id l o txid at clock hash height window current db)
unfolding settle
settle-Stores id l o txid at clock hash height window current db =
    then-StoresBeside db
      (throw_if (not (changes_one (is_unspent_in id (live_state l)) db)) observation_lost) _
      (λ u. then-StoresBeside db (open_liability o current at window db.ledger) _ (λ ledger.
        returns_beside (record {
          rows =
              (update_advances-Moved (is_unspent_in id (live_state l))
                (spent_as o txid clock hash height)
                (λ r h. spent_as-move id l o txid clock hash height r h) db).rows;
        })))

spend_current-Stores :
    (id : Text) (l : LiveState) (o : Outcome) (txid : Text) (at : Number) (clock : ℕ) (hash : Text)
    (height : ℕ) (window : Option Number) (wall : ℕ) (current : StoredAdvance) (db : Store)
    → StoresBeside db (spend_current id l o txid at clock hash height window wall current db)
unfolding spend_current
spend_current-Stores id l o txid at clock hash height window wall current db =
    let state = current.core.state in
    if-StoresBeside (state_eq state (outcome_state o) && is_value current.core.spent_txid txid) db _
      _ (returns_beside {answer = (duplicate, db)} (unmoved db))
      (if-StoresBeside (not (state_eq state (live_state l)) && compatible_drift l state) db _ _
        (returns_beside {answer = (retry, db)} (unmoved db))
        (if-StoresBeside (is_outcome state || not (state_eq state (live_state l))) db _ _
          (returns_beside
            {answer = (
              disagreement,
              mark_observation_disagreement id
                  (conflict_detail txid (outcome_state o) hash height current.core.spent_txid state)
                  clock wall db,
            )}
            (mark_disagreement-Moved id _ clock wall db))
          (settle-Stores id l o txid at clock hash height window current db)))

pub record_spend-Stores :
    (id : Text) (l : LiveState) (o : Outcome) (txid : Text) (at : Number) (hash : Text)
    (height : Number) (window : Option Number) (wall : ℕ) (db : Store)
    → StoresBeside db (record_spend_observation id l o txid at hash height window wall db)
unfolding record_spend_observation
record_spend-Stores id l o txid at hash height window wall db =
    then-StoresBeside db (throw_if (not (is_txid txid) || not (is_txid hash)) invalid_hash) _ (λ u.
      then-StoresBeside db (safe at) _ (λ clock. then-StoresBeside db (safe height) _ (λ tip.
        then-StoresBeside db (get db id) _ (λ found.
          then-StoresBeside db (or_missing found) _ (λ current.
            spend_current-Stores id l o txid at clock hash tip window wall current db)))))

pub record_unknown-Stores :
    (id : Text) (txid : Option Text) (reason : Text) (at : ℕ) (tip : Tip) (wall : ℕ) (db : Store)
    → Stores db (record_spend_unknown id txid reason at tip wall db)
unfolding record_spend_unknown
record_unknown-Stores id txid reason at tip wall db = then-Stores db (get db id) _ (λ found.
    then-Stores db (or_missing found) _ (λ current. returns (
      if-Moved (not (is_live_state current.core.state)) db _ _ (unmoved db) (
        pause-Moved watcher_actor wall db _
          (update_advances-Moved _ _ (λ r h. questioned-move _ _ at r) db)))))

pub record_unrolled-Stores :
    (id reason : Text) (at : ℕ) (tip : Tip) (db : Store)
    → Stores db (record_covenant_unrolled id reason at tip db)
unfolding record_covenant_unrolled
record_unrolled-Stores id reason at tip db = then-Stores db (get db id) _ (λ found.
    then-Stores db (or_missing found) _ (λ current. returns (
      if-Moved (not (is_live_state current.core.state)) db _ _ (unmoved db) (
        update_advances-Moved (is_row_in id current.core.state) _ (λ r h. questioned-move _ _ at r)
          db))))

pub record_disagreement-Stores :
    (id reason : Text) (at : ℕ) (tip : Tip) (wall : ℕ) (db : Store)
    → Stores db (record_spend_disagreement id reason at tip wall db)
unfolding record_spend_disagreement
record_disagreement-Stores id reason at tip wall db = then-Stores db (get db id) _ (λ found.
    then-Stores db (or_missing found) _
      (λ current. returns (mark_disagreement-Moved id _ at wall db)))

disagree-Moved :
    (id : Text) (o : Outcome) (txid reason : Text) (at wall : ℕ) (db : Store)
    → MovedBeside db (disagree id o txid reason at wall db)
unfolding disagree
disagree-Moved id o txid reason at wall db =
    let m =
      update_advances-Moved (is_settled_row id o txid) (disputed reason at)
        (λ r h. disputed-move reason at r) db in
    if-Moved_beside (changes_one (is_settled_row id o txid) db) db (contradicted, _) (ignored, _)
      (record { after = pause-Moved watcher_actor wall db _ m }) (record { after = m })

follow-Moved :
    (id : Text) (o : Outcome) (txid : Text) (at : ℕ) (tip previous : Tip) (wall : ℕ) (db : Store)
    → MovedBeside db (follow id o txid at tip previous wall db)
unfolding follow
follow-Moved id o txid at tip previous wall db =
    if-Moved_beside (is_stale tip previous) db _ _ (disagree-Moved id o txid _ at wall db) (
      if-Moved_beside (same_tip previous tip) db _ _ (unmoved_beside db ignored) (record {
        after =
            update_advances-Moved (is_following id o txid previous) (followed tip at)
              (λ r h. followed-move tip at r) db;
      }))

weigh-Moved :
    (id : Text) (o : Outcome) (txid : Text) (at : ℕ) (tip previous : Tip) (obs : Observation)
    (wall : ℕ) (db : Store)
    → MovedBeside db (weigh id o txid at tip previous obs wall db)
unfolding weigh
weigh-Moved id o txid at tip previous obs wall db =
    if-Moved_beside (is_below tip previous) db _ _ (disagree-Moved id o txid _ at wall db) (record {
      after =
          update_advances-Moved
            (is_weighed id o txid previous (get_or obs.observation_stable_count 0))
            (weighed _ tip _ at) (λ r h. weighed-move _ tip _ at r) db;
    })

stable_current-Moved :
    (id : Text) (o : Outcome) (txid : Text) (at : ℕ) (tip : Option Tip) (wall : ℕ)
    (current : StoredAdvance) (db : Store)
    → MovedBeside db (stable_current id o txid at tip wall current db)
unfolding stable_current
stable_current-Moved id o txid at tip wall current db =
    if-Moved_beside
      (not (state_eq current.core.state (outcome_state o))
        || not (is_value current.core.spent_txid txid))
      db _ _ (unmoved_beside db ignored)
      (with_tips tip (persisted_tip current.progress.observation))
  where
    judge : Tip → Tip → StableResult × Store
    judge t p =
        if not (is_disputed current.progress.observation.failure_code)
        then follow id o txid at t p wall db
        else weigh id o txid at t p current.progress.observation wall db

    with_tips :
        (named kept_tip : Option Tip)
        → MovedBeside {A = StableResult} db (elim named [
          | none ↦ disagree id o txid malformed_tip at wall db
          | some t ↦ elim kept_tip [
            | none ↦ disagree id o txid malformed_persisted at wall db
            | some p ↦ judge t p
          ]
        ])
    with_tips none kept_tip = disagree-Moved id o txid _ at wall db
    with_tips (some t) none = disagree-Moved id o txid _ at wall db
    with_tips (some t) (some p) =
        if-Moved_beside (not (is_disputed current.progress.observation.failure_code)) db _ _
          (follow-Moved id o txid at t p wall db)
          (weigh-Moved id o txid at t p current.progress.observation wall db)

pub record_stable-Stores :
    (id : Text) (o : Outcome) (txid : Text) (at : ℕ) (hash : Text) (height time : Number) (wall : ℕ)
    (db : Store)
    → StoresBeside db (record_stable_spend_observation id o txid at hash height time wall db)
unfolding record_stable_spend_observation
record_stable-Stores id o txid at hash height time wall db =
    then-StoresBeside db (get db id) _ (λ found.
      then-StoresBeside db (or_missing found) _ (λ current.
        returns_beside
          ((stable_current-Moved id o txid at (tip_in at hash height time) wall current db).after)))
