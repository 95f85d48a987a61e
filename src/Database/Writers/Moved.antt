-- ===== src/Database/Writers/Moved.antt =====
-- packages/db, packages/app: what each call that writes to the table of the advances makes of a row.
use arkade_taxi.Prelude.{
  ℕ, ◌≡◌, refl, Bool, true, false, not, ◌||◌, Option, some, none, List, Text, Result, ok, err,
  ◌>>=◌, throw_if, if◌then◌else◌, find, text_eq, leb, arith, subst, inl, inr, Bool-cases,
  Result-cases,
}
use arkade_taxi.Core.Types.{quoted, locking, locked, expired, state_eq, state_eq_iff, Outpoint}
use arkade_taxi.Database.Advances.{StoredAdvance, AdvanceRow}
use arkade_taxi.Database.Advances.Store.{
  Store, AdvanceFailure, in_state, touched, get, has_row_id, changes_one,
}
use arkade_taxi.Database.Advances.Lockup.{insert, record_lockup_failure, is_locking, is_taken}
use arkade_taxi.Database.Advances.Recovery.{or_missing, or_unfunded}
use arkade_taxi.Core.Ledger.{validate_funding_snapshot}
use arkade_taxi.Prelude.Int.{◌+ℤ◌, ltb_ℤ}
use arkade_taxi.Database.Advances.Moves.{RowMove, moving, takes, lapses, gives_up, locks}
use arkade_taxi.Database.Advances.RowMoves.{lockup_failed-move}
use arkade_taxi.Database.Advances.Tables.{Moved, unmoved, update_advances-Moved, pause-Moved}
use arkade_taxi.Database.Advances.History.{insert-row}
use arkade_taxi.Database.Reservations.{
  Desk, expire_receive_quotes, expire_advances, is_lapsed, lapsed, total_exposure,
}
use arkade_taxi.Database.Reservations.Reserving.{
  ReserveError, ReserveQuoteRequest, reserve_quote, inserted,
}
use arkade_taxi.Database.Reservations.Locking.{
  ClaimAnswer, is_claimable, taken_up, take_up, claim_quoted, claim_current, claim_lockup,
  release_for_advance, record_lockup_conflict, reconciler_actor, or_store_failed, is_badly_reserved,
  rejected, not_found, submission_key_of, over_limit, exceeds_max_outstanding,
  max_concurrent_advances, or_release_failed, may_release, cannot_release,
}
use arkade_taxi.Database.Reservations.Coins.{take_place-parts, reserve_quote-take_place}
use arkade_taxi.Database.Reservations.Claims.{aged}
use arkade_taxi.Database.Fills.{
  Fill, Binding, liability_locked, liability_cancelled, lock_found, lock_liability,
  cancel_liability, outpoint_taken, is_same_lockup, observation_disagrees, is_bound,
  binding_disagrees, not_locking,
}
use arkade_taxi.Database.Writers.{or_same}

-- What holds of a call's answer, where it gives one.
pub data Holds {E A : Type 0} (P : A → Type 0) : Result E A → Type 0 where
  fails : {thrown : E} → Holds P (err thrown)
  holds : {a : A} → P a → Holds P (ok a)

module _ {E A : Type 0} (P : A → Type 0) where
  pub then-Holds {μ} :
      {B : Type μ} (call : Result E B) (next : B → Result E A)
      → ((b : B) → call ≡ ok b → Holds P (next b))
      → Holds P (call >>= next)
  then-Holds (ok b) next h = h b refl
  then-Holds (err thrown) next h = fails

  pub if-Holds :
      (c : Bool) (a b : Result E A) → Holds P a → Holds P b → Holds P (if c then a else b)
  if-Holds true a b h k = h
  if-Holds false a b h k = k

  pub or_same-Holds : (a : A) (call : Result E A) → P a → Holds P call → P (or_same a call)
  or_same-Holds a (ok after) h (holds k) = k
  or_same-Holds a (err thrown) h k = h

pub lapsed-move : (at : ℕ) (r : AdvanceRow) → is_lapsed at r ≡ true → RowMove r (lapsed at r)
unfolding lapsed touched
lapsed-move at r h = moving r _ refl (lapses ((state_eq_iff r.state quoted).0 (ground arith)))

pub taken_up-move :
    (id key digest envelope : Text) (at : ℕ) (r : AdvanceRow)
    → is_claimable id at r ≡ true
    → RowMove r (taken_up key digest envelope at r)
unfolding taken_up touched is_claimable
taken_up-move id key digest envelope at r h = record {
  same_id = refl;
  agreed = refl;
  moves = takes ((state_eq_iff r.state quoted).0 (ground arith));
  spent_once = λ txid e. e;
  signed_once = λ past k. absurd (ground arith);
}

liability_locked-move :
    (id txid : Text) (o : Outpoint) (now : ℕ) (r : AdvanceRow)
    → is_locking id r ≡ true
    → RowMove r (liability_locked txid o now r)
unfolding liability_locked touched
liability_locked-move id txid o now r h =
    moving r _ refl (locks ((state_eq_iff r.state locking).0 (ground arith)))

liability_cancelled-move :
    (id code : Text) (now : ℕ) (r : AdvanceRow)
    → is_locking id r ≡ true
    → RowMove r (liability_cancelled code now r)
unfolding liability_cancelled touched
liability_cancelled-move id code now r h =
    moving r _ refl (gives_up ((state_eq_iff r.state locking).0 (ground arith)))

pub aged-Moved : (at : ℕ) (desk : Desk) → Moved desk.store (expire_advances at desk).1.store
unfolding expire_advances
aged-Moved at desk = record {
  rows = (update_advances-Moved (is_lapsed at) (lapsed at) (lapsed-move at) desk.store).rows;
}

-- What a claim leaves, against the desk once what has lapsed is expired.
abbrev pub MovesFrom : Desk → ClaimAnswer × Desk → Type 0
MovesFrom desk answer = Moved desk.store answer.1.store

take_up-Moved :
    (id digest envelope : Text) (at : ℕ) (s : StoredAdvance) (desk : Desk)
    → MovesFrom desk (take_up id digest envelope at s desk)
unfolding take_up
take_up-Moved id digest envelope at s desk =
    elim (Bool-cases (is_badly_reserved s.core id desk.store.operator_inputs)) [
      | inl bad ↦ rw bad (unmoved desk.store)
      | inr good ↦ rw good (
          update_advances-Moved (is_claimable id at)
            (taken_up (submission_key_of id s.core.funding.unsigned_lockup_id) digest envelope at)
            (taken_up-move id (submission_key_of id s.core.funding.unsigned_lockup_id) digest
              envelope at)
            desk.store)
    ]

claim_quoted-Holds :
    (id digest envelope : Text) (at : ℕ) (s : StoredAdvance) (desk : Desk)
    → Holds (MovesFrom desk) (claim_quoted id digest envelope at s desk)
unfolding claim_quoted
claim_quoted-Holds id digest envelope at s desk =
    let P = MovesFrom desk in
    let policy = desk.store.policy in
    then-Holds P
      (throw_if (ltb_ℤ policy.max_outstanding_sats ((total_exposure desk).0 +ℤ s.core.topup))
        (over_limit exceeds_max_outstanding))
      _
      (λ _ _.
        then-Holds P
          (throw_if (leb policy.max_concurrent_advances (total_exposure desk).1)
            (over_limit max_concurrent_advances))
          _
          (λ _ _.
            then-Holds P (or_store_failed (or_unfunded (validate_funding_snapshot s.core))) _
              (λ _ _. holds (take_up-Moved id digest envelope at s desk))))

claim_current-Holds :
    (id lockup_id digest envelope : Text) (at : ℕ) (s : StoredAdvance) (desk : Desk)
    → Holds (MovesFrom desk) (claim_current id lockup_id digest envelope at s desk)
unfolding claim_current
claim_current-Holds id lockup_id digest envelope at s desk =
    let P = MovesFrom desk in
    let same : Moved desk.store desk.store = unmoved desk.store in
    if-Holds P (state_eq s.core.state expired) _ _ (holds same) (
      if-Holds P (not (text_eq s.core.funding.unsigned_lockup_id lockup_id)) _ _ (holds same) (
        if-Holds P (state_eq s.core.state locking || state_eq s.core.state locked) _ _ (holds same)
          (if-Holds P (not (state_eq s.core.state quoted)) _ _ (holds same)
            (claim_quoted-Holds id digest envelope at s desk))))

pub claim_lockup-Holds :
    (id lockup_id digest envelope : Text) (at : ℕ) (before : Desk)
    → Holds (MovesFrom (aged at before)) (claim_lockup id lockup_id digest envelope at before)
unfolding claim_lockup
claim_lockup-Holds id lockup_id digest envelope at before =
    let desk = aged at before in
    then-Holds (MovesFrom desk) (or_store_failed (get desk.store id)) _ (λ found _.
      elim found
        as (λ f. Holds (MovesFrom desk) (elim f [
          | none ↦ ok (rejected not_found, desk)
          | some s ↦ claim_current id lockup_id digest envelope at s desk
        ])) [
          | none ↦ holds (unmoved desk.store)
          | some s ↦ claim_current-Holds id lockup_id digest envelope at s desk
        ])

pub release-Holds : (id : Text) (db : Store) → Holds (Moved db) (release_for_advance id db)
unfolding release_for_advance
release-Holds id db = then-Holds (Moved db) (or_release_failed (get db id)) _ (λ found _.
    then-Holds (Moved db) (or_release_failed (or_missing found)) _ (λ s _.
      then-Holds (Moved db) (throw_if (not (may_release s)) cannot_release) _
        (λ _ _. holds (record { rows = (unmoved db).rows }))))

pub conflict-Moved :
    (id detail : Text) (at wall : ℕ) (db : Store)
    → Moved db (record_lockup_conflict id detail at wall db)
unfolding record_lockup_conflict record_lockup_failure
conflict-Moved id detail at wall db =
    pause-Moved reconciler_actor wall db _
      (update_advances-Moved _ _ (λ r h. lockup_failed-move _ detail at r) db)

lock_found-Holds :
    (id txid : Text) (o : Outpoint) (now : ℕ) (found : Option AdvanceRow) (db : Store)
    → Holds (Moved db) (lock_found id txid o now found db)
unfolding lock_found
lock_found-Holds id txid o now none db = fails
lock_found-Holds id txid o now (some r) db =
    if-Holds (Moved db) (in_state locking r) _ _
      (then-Holds (Moved db) (throw_if (is_taken id o db) outpoint_taken) _ (λ _ _. holds (
        update_advances-Moved (is_locking id) (liability_locked txid o now)
          (liability_locked-move id txid o now) db)))
      (then-Holds (Moved db) (throw_if (not (is_same_lockup txid o r)) observation_disagrees) _
        (λ _ _. holds (unmoved db)))

pub lock_liability-Holds :
    (bindings : List Binding) (fill : Fill) (txid : Text) (o : Outpoint) (now : ℕ) (db : Store)
    → Holds (Moved db) (lock_liability bindings fill txid o now db)
unfolding lock_liability
lock_liability-Holds bindings fill txid o now db =
    then-Holds (Moved db) (throw_if (not (is_bound bindings fill)) binding_disagrees) _ (λ _ _.
      lock_found-Holds fill.quote_id txid o now (find (has_row_id fill.quote_id) db.advances) db)

pub cancel_liability-Holds :
    (bindings : List Binding) (fill : Fill) (code : Text) (now : ℕ) (db : Store)
    → Holds (Moved db) (cancel_liability bindings fill code now db)
unfolding cancel_liability
cancel_liability-Holds bindings fill code now db =
    then-Holds (Moved db) (throw_if (not (is_bound bindings fill)) binding_disagrees) _ (λ _ _.
      then-Holds (Moved db) (throw_if (not (changes_one (is_locking fill.quote_id) db)) not_locking)
        _
        (λ _ _. holds (record {
          rows =
              (update_advances-Moved (is_locking fill.quote_id) (liability_cancelled code now)
                (liability_cancelled-move fill.quote_id code now) db).rows;
        })))

-- A row is found as it was.
abbrev pub Finds : Text → AdvanceRow → Desk → Type 0
Finds id r desk = find (has_row_id id) desk.store.advances ≡ some r

inserted-find :
    (s : StoredAdvance) (db store : Store) (id : Text) {r : AdvanceRow}
    → inserted (insert s db) ≡ ok store
    → find (has_row_id id) db.advances ≡ some r
    → find (has_row_id id) store.advances ≡ some r
inserted-find s db store id {r} e found = elim (Result-cases (insert s db)) [
  | inl (made, t) ↦
      let same : made ≡ store = cc (rw t at e) in
      subst (λ (d : Store). find (has_row_id id) d.advances ≡ some r) same
        (rw t at (insert-row s db id found))
  | inr (thrown, t) ↦ absurd (not_thrown thrown (rw t at e))
]
  where
    not_thrown :
        (thrown : AdvanceFailure)
        → Path (Result ReserveError Store) (inserted (err thrown)) (ok store)
        → ⊥
    not_thrown thrown h = cc

pub reserve-find :
    (request : ReserveQuoteRequest) (desk after : Desk) (id : Text) (r : AdvanceRow)
    → reserve_quote request desk ≡ ok after
    → Finds id r desk
    → Finds id r after
reserve-find request desk after id r e found =
    let s = request.advance in
    let (_, store, made, rows, _, done) =
      take_place-parts s _ (expire_receive_quotes s.core.created_at desk) after
        (reserve_quote-take_place request desk after e) in
    subst (λ (d : Desk). find (has_row_id id) d.store.advances ≡ some r) done
      (inserted-find s desk.store store id (unfold expire_receive_quotes in made) found)
