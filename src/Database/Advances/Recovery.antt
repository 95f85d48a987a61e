-- ===== src/Database/Advances/Recovery.antt =====
-- packages/db/src/advances.ts: the worker that reclaims a lockup, its lease and its phases.
use arkade_taxi.Prelude.{
  ℕ, ◌+◌, Bool, true, false, not, ◌&&◌, ◌||◌, Option, none, some, List, [], ◌∷◌, Text, Result, ok,
  err, ◌>>=◌, ◌>>◌, throw_if, if◌then◌else◌, is_some, get_or, ◌==◌,
}
use arkade_taxi.Core.Types.{locked, recovering, state_eq, AdvanceKind, covenant, sponsored}
use arkade_taxi.Core.Ledger.{LedgerError, validate_funding_snapshot}
use arkade_taxi.Core.Submission.{recovery_prepared, submitted, recovery_failed}
use arkade_taxi.Database.Rows.{changes}
use arkade_taxi.Database.Advances.{text_of, StoredAdvance, AdvanceRow}
use arkade_taxi.Database.Advances.Store.{
  Store, AdvanceFailure, unfunded, advance_not_found, no_prepared_recovery, has_row_id, in_state,
  in_recovery_phase, is_value, is_past, is_later, touched, get, changes_one, update_advances,
  run_update, run_and_pause, returned,
}
use arkade_taxi.Database.Advances.Submission.{
  ExpediteResult, not_found, incompatible, live_lease, expedite_where, is_live, with_failure,
}

pub record PreparedRecoveryRecord : Type 0 where
  pub digest : Text
  pub expected_txid : Text
  pub ark_tx : Text
  pub checkpoints : List Text

abbrev pub or_missing : Option StoredAdvance → Result AdvanceFailure StoredAdvance
or_missing none = err advance_not_found
or_missing (some a) = ok a

abbrev pub or_unfunded : Result LedgerError (Unit {0}) → Result AdvanceFailure (Unit {0})
or_unfunded (ok done) = ok done
or_unfunded (err thrown) = err (unfunded thrown)

-- The lease columns after a holder has let go.
abbrev pub recovery_unleased : AdvanceRow → AdvanceRow
recovery_unleased r = record r {
  recovery = record r.recovery {
    recovery_lease_owner = none;
    recovery_lease_token = none;
    recovery_lease_until = none;
  };
}

abbrev pub is_in_recovery : Text → AdvanceRow → Bool
is_in_recovery id r =
    has_row_id id r
    && in_state recovering r
    && in_recovery_phase recovery_prepared r.recovery.recovery_phase

abbrev pub is_recovery_free : Text → ℕ → AdvanceRow → Bool
is_recovery_free id at r =
    is_in_recovery id r
    && (not (is_some r.recovery.recovery_lease_owner) || is_past r.recovery.recovery_lease_until at)

unfoldable pub recovery_expedited : ℕ → AdvanceRow → AdvanceRow
unfolding touched
recovery_expedited at r =
    touched at (record r { recovery = record r.recovery { recovery_next_attempt_at = some at } })

unfoldable pub expedite_current_recovery : Text → ℕ → StoredAdvance → Store → ExpediteResult × Store
expedite_current_recovery id at a db =
    let s = a.progress.recovery in
    if not (state_eq a.core.state recovering)
      || not (in_recovery_phase recovery_prepared s.recovery_phase)
    then (incompatible, db)
    else if is_live s.recovery_lease_owner s.recovery_lease_until at
    then (live_lease, db)
    else expedite_where (is_recovery_free id at) (recovery_expedited at) db

unfoldable pub expedite_recovery : Text → ℕ → Store → Result AdvanceFailure (ExpediteResult × Store)
expedite_recovery id at db = do
  current ← get db id
  elim current [ none ↦ ok (not_found, db) | some a ↦ ok (expedite_current_recovery id at a db) ]

-- `WHERE` and `SET` of the claim that starts a recovery.
unfoldable pub is_unrecovered : Text → AdvanceRow → Bool
is_unrecovered id r =
    has_row_id id r && in_state locked r && not (is_some r.recovery.recovery_phase)

unfoldable pub recovery_begun :
    PreparedRecoveryRecord → Text → Text → ℕ → ℕ → AdvanceRow → AdvanceRow
unfolding touched
recovery_begun plan owner token until at r = touched at (record r {
  state = recovering;
  recovery = record r.recovery {
    recovery_phase = some recovery_prepared;
    recovery_graph_digest = some plan.digest;
    recovery_expected_txid = some plan.expected_txid;
    recovery_prepared_ark_tx = some plan.ark_tx;
    recovery_prepared_checkpoints_json = some (text_of plan.checkpoints);
    recovery_lease_owner = some owner;
    recovery_lease_token = some token;
    recovery_lease_until = some until;
    recovery_next_attempt_at = none;
  };
})

-- `WHERE` and `SET` of the claim that takes a recovery over.
unfoldable pub is_recovery_claimable : Text → ℕ → AdvanceRow → Bool
is_recovery_claimable id at r =
    is_recovery_free id at r
    && (not (is_some r.recovery.recovery_next_attempt_at)
        || is_past r.recovery.recovery_next_attempt_at at)

unfoldable pub recovery_leased : Text → Text → ℕ → AdvanceRow → AdvanceRow
recovery_leased owner token until r = record r {
  recovery = record r.recovery {
    recovery_lease_owner = some owner;
    recovery_lease_token = some token;
    recovery_lease_until = some until;
  };
}

-- `return changed === 1 ? this.get(id) : undefined`, in the transaction of the update
unfoldable pub update_and_get :
    (AdvanceRow → Bool)
    → (AdvanceRow → AdvanceRow)
    → Text
    → Store
    → Result AdvanceFailure (Option StoredAdvance × Store)
update_and_get p f id db =
    if changes_one p db
    then (get (update_advances p f db) id >>= λ a. ok (a, update_advances p f db))
    else ok (none, update_advances p f db)

unfoldable pub begin_recovery :
    Text
    → Text
    → Text
    → ℕ
    → ℕ
    → Option PreparedRecoveryRecord
    → StoredAdvance
    → Store
    → Result AdvanceFailure (Option StoredAdvance × Store)
begin_recovery id owner token at lease_until none current db = err no_prepared_recovery
begin_recovery id owner token at lease_until (some plan) current db = do
  or_unfunded (validate_funding_snapshot current.core)
  update_and_get (is_unrecovered id) (recovery_begun plan owner token lease_until at) id db

unfoldable pub claim_recovery_lease :
    Text
    → Text
    → Text
    → ℕ
    → ℕ
    → Option PreparedRecoveryRecord
    → Store
    → Result AdvanceFailure (Option StoredAdvance × Store)
claim_recovery_lease id owner token at lease_until plan db = do
  found ← get db id
  current ← or_missing found
  if state_eq current.core.state locked
      then begin_recovery id owner token at lease_until plan current db
      else if not (state_eq current.core.state recovering)
          || not (in_recovery_phase recovery_prepared current.progress.recovery.recovery_phase)
      then ok (none, db)
      else update_and_get (is_recovery_claimable id at) (recovery_leased owner token lease_until) id
          db

abbrev pub attempted : ℕ → Option ℕ → AdvanceRow → AdvanceRow
attempted at next r = record r {
  recovery = record r.recovery {
    recovery_attempts = r.recovery.recovery_attempts + 1;
    recovery_last_attempt_at = some at;
    recovery_next_attempt_at = next;
  };
}

abbrev pub in_failed_recovery : AdvanceRow → AdvanceRow
in_failed_recovery r = record r {
  recovery = record r.recovery { recovery_phase = some recovery_failed };
}

unfoldable pub preparation_failed : Text → Text → ℕ → AdvanceRow → AdvanceRow
unfolding touched
preparation_failed code detail at r = touched at (
    with_failure (some code) (some detail)
      (attempted at none (in_failed_recovery (record r { state = recovering }))))

abbrev recovery_actor : Text
recovery_actor = b'r' ∷ b'e' ∷ b'c' ∷ b'o' ∷ b'v' ∷ b'e' ∷ b'r' ∷ b'y' ∷ []

unfoldable pub record_recovery_preparation_failure :
    Text → Text → Text → ℕ → ℕ → Store → Bool × Store
record_recovery_preparation_failure id code detail at wall_clock =
    run_and_pause (is_unrecovered id) (preparation_failed code detail at) recovery_actor wall_clock

abbrev is_recovery_owned : Text → Text → AdvanceRow → Bool
is_recovery_owned owner token r =
    is_value r.recovery.recovery_lease_owner owner && is_value r.recovery.recovery_lease_token token

-- What the statements of the lease's holder ask of the row.
abbrev pub is_recovery_held : Text → Text → Text → AdvanceRow → Bool
is_recovery_held id owner token r = is_in_recovery id r && is_recovery_owned owner token r

unfoldable pub is_recovery_renewable : Text → Text → Text → ℕ → AdvanceRow → Bool
is_recovery_renewable id owner token at r =
    is_recovery_held id owner token r && is_later r.recovery.recovery_lease_until at

unfoldable pub recovery_extended : ℕ → AdvanceRow → AdvanceRow
recovery_extended until r = record r {
  recovery = record r.recovery { recovery_lease_until = some until };
}

unfoldable pub renew_recovery_lease : Text → Text → Text → ℕ → ℕ → Store → Bool × Store
renew_recovery_lease id owner token at lease_until =
    run_update (is_recovery_renewable id owner token at) (recovery_extended lease_until)

-- `WHERE` and `SET` of `recordRecoveryResponse`.
unfoldable pub is_answered : Text → Text → Text → Text → AdvanceRow → Bool
is_answered id owner token txid r =
    is_recovery_held id owner token r && is_value r.recovery.recovery_expected_txid txid

unfoldable pub recovery_answered : Text → Text → List Text → ℕ → AdvanceRow → AdvanceRow
unfolding touched
recovery_answered txid signed_ark_tx signed_checkpoints at r = touched at (
    with_failure none none (
      recovery_unleased (record r {
        recovery = record r.recovery {
          recovery_phase = some submitted;
          recovery_txid = some txid;
          recovery_submitted_at = some at;
          recovery_response_ark_tx = some signed_ark_tx;
          recovery_response_checkpoints_json = some (text_of signed_checkpoints);
          recovery_next_attempt_at = none;
        };
      })))

unfoldable pub record_recovery_response :
    Text → Text → Text → Text → Text → List Text → ℕ → Store → Bool × Store
record_recovery_response id owner token txid signed_ark_tx signed_checkpoints at =
    run_update (is_answered id owner token txid)
      (recovery_answered txid signed_ark_tx signed_checkpoints at)

unfoldable pub recovery_delayed : Text → Text → ℕ → Option ℕ → AdvanceRow → AdvanceRow
unfolding touched
recovery_delayed code detail at next r =
    touched at (with_failure (some code) (some detail) (recovery_unleased (attempted at next r)))

unfoldable pub record_recovery_attempt_failure :
    Text → Text → Text → Text → Text → ℕ → ℕ → Store → Bool × Store
record_recovery_attempt_failure id owner token code detail at next_attempt_at =
    run_update (is_recovery_held id owner token)
      (recovery_delayed code detail at (some next_attempt_at))

-- `WHERE` and `SET` of `recordPermanentRecoveryFailure`, in whatever phase the recovery is.
unfoldable pub is_recovery_failing : Text → Text → Text → AdvanceRow → Bool
is_recovery_failing id owner token r =
    has_row_id id r && in_state recovering r && is_recovery_owned owner token r

unfoldable pub recovery_ended : Text → Text → ℕ → AdvanceRow → AdvanceRow
unfolding recovery_delayed
recovery_ended code detail at r = recovery_delayed code detail at none (in_failed_recovery r)

unfoldable pub record_permanent_recovery_failure :
    Text → Text → Text → Text → Text → ℕ → ℕ → Store → Bool × Store
record_permanent_recovery_failure id owner token code detail at wall_clock =
    run_and_pause (is_recovery_failing id owner token) (recovery_ended code detail at)
      recovery_actor wall_clock

unfoldable pub recovery_sent : Text → ℕ → AdvanceRow → AdvanceRow
unfolding touched
recovery_sent txid at r = touched at (record r {
  recovery = record r.recovery { recovery_txid = some (get_or r.recovery.recovery_txid txid) };
})

-- `if (….changes === 0) throw …`
unfoldable pub update_or_missing :
    (AdvanceRow → Bool) → (AdvanceRow → AdvanceRow) → Store → Result AdvanceFailure Store
update_or_missing p f db = do
  throw_if (changes p db.advances == 0) advance_not_found
  ok (update_advances p f db)

unfoldable pub record_recovery_submission : Text → Text → ℕ → Store → Result AdvanceFailure Store
record_recovery_submission id txid at = update_or_missing (has_row_id id) (recovery_sent txid at)

abbrev pub is_covenant_kind : Option AdvanceKind → Bool
is_covenant_kind none = false
is_covenant_kind (some covenant) = true
is_covenant_kind (some sponsored) = false

-- `WHERE` and `SET` of `claimRecovery`.
unfoldable pub is_reclaimable : Text → AdvanceRow → Bool
is_reclaimable id r = has_row_id id r && in_state locked r && is_covenant_kind r.kind

unfoldable pub reclaim_begun : ℕ → AdvanceRow → AdvanceRow
unfolding touched
reclaim_begun at r = touched at (record r {
  state = recovering;
  recovery = record r.recovery { recovery_submitted_at = some at };
})

-- The claim is a transaction, which a row that fails to read undoes.
unfoldable pub claim_recovery :
    Text → ℕ → Store → Result AdvanceFailure (Option StoredAdvance × Store)
claim_recovery id at db = do
  a ← returned (is_reclaimable id) (reclaim_begun at) db
  ok (a, update_advances (is_reclaimable id) (reclaim_begun at) db)
