-- ===== src/Database/Reservations/Locking.antt =====
-- packages/db/src/reservations.ts: `claimLockup`, which takes a quote up, and the calls that let coins go.
use arkade_taxi.Prelude.{
  ℕ, Bool, true, false, not, ◌&&◌, ◌||◌, none, some, List, [], ◌∷◌, ◌++◌, Text, Result, ok, err,
  ◌>>=◌, ◌>>◌, throw_if, if◌then◌else◌, ltb, leb, ◌==◌, filter, length, map, text_eq, is_some,
  Option,
}
use arkade_taxi.Prelude.Int.{◌+ℤ◌, ltb_ℤ}
use arkade_taxi.Core.Types.{quoted, locking, locked, expired, state_eq, Outpoint, Advance}
use arkade_taxi.Core.Submission.{claimed}
use arkade_taxi.Core.Ledger.{advance_kind, is_sponsored, is_terminal, validate_funding_snapshot}
use arkade_taxi.Database.Advances.{StoredAdvance, AdvanceRow}
use arkade_taxi.Database.Advances.Store.{
  Store, ReservationRow, AdvanceFailure, has_row_id, in_state, is_value, later, touched, get,
  changes_one, update_advances, pause,
}
use arkade_taxi.Database.Advances.Lockup.{record_lockup_failure}
use arkade_taxi.Database.Advances.Recovery.{or_missing, or_unfunded}
use arkade_taxi.Database.Advances.Observation.{is_for_other}
use arkade_taxi.Database.Reservations.{
  Desk, coin_of, total_exposure, expire_receive_quotes, expire_advances, held_coin,
}
use arkade_taxi.Database.Reservations.Reserving.{distinct_count, is_other_set}

pub data LockupClaimError : Type 0 where
  not_found quote_expired invalid_state funding_reservation_invalid : LockupClaimError
  exceeds_max_outstanding max_concurrent_advances envelope_conflict : LockupClaimError

-- What the transaction throws: it is undone then, and not where it returns an error.
pub data ClaimFailure : Type 0 where
  over_limit : LockupClaimError → ClaimFailure
  store_failed : AdvanceFailure → ClaimFailure

pub data ClaimAnswer : Type 0 where
  rejected : LockupClaimError → ClaimAnswer
  answered : (claim_is_new : Bool) → StoredAdvance → ClaimAnswer

abbrev lockup_prefix : Text
lockup_prefix = b'l' ∷ b'o' ∷ b'c' ∷ b'k' ∷ b'u' ∷ b'p' ∷ b':' ∷ []

unfoldable pub submission_key_of : Text → Text → Text
submission_key_of id lockup_id = lockup_prefix ++ id ++ b':' ∷ lockup_id

-- `WHERE` and `SET` of the claim.
unfoldable pub is_claimable : Text → ℕ → AdvanceRow → Bool
is_claimable id at r = has_row_id id r && in_state quoted r && ltb at r.expires_at

unfoldable pub taken_up : Text → Text → Text → ℕ → AdvanceRow → AdvanceRow
unfolding touched
taken_up key digest envelope at r = touched at (record r {
  state = locking;
  submission = record r.submission {
    submission_key = some key;
    signed_envelope_digest = some digest;
    submission_phase = some claimed;
    signed_lockup_envelope = some envelope;
    submitted_at = some at;
  };
})

-- The advance that the claim answers with.
unfoldable pub claimed_advance : Text → Text → Text → ℕ → StoredAdvance → StoredAdvance
claimed_advance key digest envelope at s = record {
  core = record s.core { state = locking; updated_at = later at s.core.updated_at };
  progress = record s.progress {
    submission = record s.progress.submission {
      submission_key = some key;
      signed_envelope_digest = some digest;
      submission_phase = some claimed;
      signed_lockup_envelope = some envelope;
      submitted_at = some at;
    };
  };
}

-- `#list(id)`, but for its order
abbrev pub coins_of : Text → List ReservationRow → List Outpoint
coins_of id rows = map coin_of (filter (λ q. text_eq q.advance_id id) rows)

abbrev pub is_badly_reserved : Advance → Text → List ReservationRow → Bool
is_badly_reserved a id rows =
    not (distinct_count a.funding.operator_inputs == length a.funding.operator_inputs)
    || is_other_set a.funding.operator_inputs (coins_of id rows)

abbrev pub or_store_failed {ℓ} : {A : Type ℓ} → Result AdvanceFailure A → Result ClaimFailure A
or_store_failed (ok a) = ok a
or_store_failed (err thrown) = err (store_failed thrown)

unfoldable pub take_up : Text → Text → Text → ℕ → StoredAdvance → Desk → ClaimAnswer × Desk
take_up id digest envelope at s desk =
    let key = submission_key_of id s.core.funding.unsigned_lockup_id in
    let after = record desk {
      store = update_advances (is_claimable id at) (taken_up key digest envelope at) desk.store;
    } in
    if is_badly_reserved s.core id desk.store.operator_inputs
    then (rejected funding_reservation_invalid, desk)
    else (
      if changes_one (is_claimable id at) desk.store
          then answered true (claimed_advance key digest envelope at s)
          else rejected invalid_state,
      after,
    )

unfoldable pub claim_quoted :
    Text → Text → Text → ℕ → StoredAdvance → Desk → Result ClaimFailure (ClaimAnswer × Desk)
claim_quoted id digest envelope at s desk = do
  throw_if (ltb_ℤ desk.store.policy.max_outstanding_sats ((total_exposure desk).0 +ℤ s.core.topup))
      (over_limit exceeds_max_outstanding)
  throw_if (leb desk.store.policy.max_concurrent_advances (total_exposure desk).1)
      (over_limit max_concurrent_advances)
  or_store_failed (or_unfunded (validate_funding_snapshot s.core))
  ok (take_up id digest envelope at s desk)

unfoldable pub claim_current :
    Text → Text → Text → Text → ℕ → StoredAdvance → Desk → Result ClaimFailure (ClaimAnswer × Desk)
claim_current id lockup_id digest envelope at s desk =
    if state_eq s.core.state expired
    then ok (rejected quote_expired, desk)
    else if not (text_eq s.core.funding.unsigned_lockup_id lockup_id)
    then ok (rejected envelope_conflict, desk)
    else if state_eq s.core.state locking || state_eq s.core.state locked
    then ok (
      if is_value s.progress.submission.signed_envelope_digest digest
            && is_value s.progress.submission.signed_lockup_envelope envelope
          then answered false s
          else rejected envelope_conflict,
      desk,
    )
    else if not (state_eq s.core.state quoted)
    then ok (rejected invalid_state, desk)
    else claim_quoted id digest envelope at s desk

unfoldable pub claim_lockup :
    Text → Text → Text → Text → ℕ → Desk → Result ClaimFailure (ClaimAnswer × Desk)
claim_lockup id lockup_id digest envelope at before =
    let desk = (expire_advances at (expire_receive_quotes at before)).1 in
    (or_store_failed (get desk.store id) >>= λ found. elim found [
      | none ↦ ok (rejected not_found, desk)
      | some s ↦ claim_current id lockup_id digest envelope at s desk
    ])

unfoldable pub may_release : StoredAdvance → Bool
may_release s =
    let a = s.core in
    if state_eq a.state expired
    then leb a.expires_at a.updated_at
    else if is_sponsored (advance_kind a)
    then state_eq a.state locked && is_some a.outpoint
    else is_terminal a.state
      && is_some a.spent_txid
      && is_some s.progress.observation.last_observed_at

pub data ReleaseError : Type 0 where
  cannot_release : ReleaseError
  release_failed : AdvanceFailure → ReleaseError

abbrev pub or_release_failed {ℓ} : {A : Type ℓ} → Result AdvanceFailure A → Result ReleaseError A
or_release_failed (ok a) = ok a
or_release_failed (err thrown) = err (release_failed thrown)

unfoldable pub release_for_advance : Text → Store → Result ReleaseError Store
release_for_advance id db = do
  found ← or_release_failed (get db id)
  s ← or_release_failed (or_missing found)
  throw_if (not (may_release s)) cannot_release
  ok (record db { operator_inputs = filter (is_for_other id) db.operator_inputs })

abbrev conflict_code : Text
conflict_code =
    b'r' ∷ b'e' ∷ b's' ∷ b'e' ∷ b'r' ∷ b'v' ∷ b'e' ∷ b'd' ∷ b'_' ∷ b'i' ∷ b'n' ∷ b'p' ∷ b'u' ∷ b't'
    ∷ b'_' ∷ b'c' ∷ b'o' ∷ b'n' ∷ b'f' ∷ b'l' ∷ b'i' ∷ b'c' ∷ b't' ∷ []

abbrev pub reconciler_actor : Text
reconciler_actor =
    b'l' ∷ b'o' ∷ b'c' ∷ b'k' ∷ b'u' ∷ b'p' ∷ b'-' ∷ b'r' ∷ b'e' ∷ b'c' ∷ b'o' ∷ b'n' ∷ b'c' ∷ b'i'
    ∷ b'l' ∷ b'e' ∷ b'r' ∷ []

unfoldable pub record_lockup_conflict : Text → Text → ℕ → ℕ → Store → Store
record_lockup_conflict id detail at wall_clock db =
    pause reconciler_actor wall_clock (record_lockup_failure id conflict_code detail at db)

abbrev max_safe : ℕ
max_safe = 9_007_199_254_740_991

-- Nothing stands for the error that an invalid clock throws.
unfoldable pub expire_quotes : ℕ → Desk → Option (ℕ × Desk)
expire_quotes at desk = if ltb max_safe at then none else some (expire_advances at desk)

-- The rows are listed in their order, not sorted.
unfoldable pub list_reserved_outpoints : Desk → List Outpoint
list_reserved_outpoints desk =
    map coin_of desk.store.operator_inputs ++ map held_coin desk.proceeds_coins

unfoldable pub list_for_advance : Text → Desk → List Outpoint
list_for_advance id desk = coins_of id desk.store.operator_inputs
