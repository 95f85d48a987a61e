-- ===== src/Database/Reservations/Claims.antt =====
-- packages/db/src/reservations.ts: what a claim that is new has found and done.
use arkade_taxi.Database.Advances.Reading.{from_row}
use arkade_taxi.Prelude.{
  ℕ, suc, ◌≤◌, ◌≡◌, refl, ap, Bool, true, false, not, ◌||◌, some, none, Text, Result, ok, err,
  throw_if, >>-eq-ok, throw_if-eq-ok, ok-injective, if◌then◌else◌, Result-cases, arith, inl, inr,
  Bool-cases, find, text_eq, leb,
}
use arkade_taxi.Prelude.Int.{◌+ℤ◌, ◌≤ℤ◌, ltb_ℤ}
use arkade_taxi.Core.Types.{quoted, locking, locked, expired, state_eq}
use arkade_taxi.Core.Ledger.{validate_funding_snapshot}
use arkade_taxi.Database.Keyed.{IsKeyed, counted-found, update_where-IsKeyed}
use arkade_taxi.Database.Advances.{StoredAdvance, AdvanceRow}
use arkade_taxi.Database.Advances.Store.{
  AdvanceFailure, touched, get, changes_one, update_advances, has_row_id,
}
use arkade_taxi.Database.Advances.Recovery.{or_unfunded}
use arkade_taxi.Database.Advances.Liability.{row_id, get-found}
use arkade_taxi.Database.Reservations.{
  Desk, total_exposure, expire_receive_quotes, expire_advances, is_lapsed, lapsed,
}
use arkade_taxi.Database.Reservations.Locking.{
  ClaimAnswer, ClaimFailure, rejected, answered, is_claimable, taken_up, take_up, claim_quoted,
  claim_current, claim_lockup, or_store_failed, store_failed, not_found, LockupClaimError,
  envelope_conflict, over_limit, exceeds_max_outstanding, max_concurrent_advances,
  is_badly_reserved, submission_key_of,
}

pub claimable-names :
    (id : Text) (at : ℕ) (r : AdvanceRow) → is_claimable id at r ≡ true → has_row_id id r ≡ true
unfolding is_claimable
claimable-names id at r h = ground arith

-- The store after a claim of the desk.
abbrev pub after_claim : Text → ℕ → Text → Text → Text → Desk → Desk
after_claim id at key digest envelope desk = record desk {
  store = update_advances (is_claimable id at) (taken_up key digest envelope at) desk.store;
}

take_up-new :
    (id digest envelope : Text) (at : ℕ) (s t : StoredAdvance) (desk after : Desk)
    → take_up id digest envelope at s desk ≡ (answered true t, after)
    → (changes_one (is_claimable id at) desk.store ≡ true)
      × (after_claim id at
            (submission_key_of id s.core.funding.unsigned_lockup_id)
            digest
            envelope
            desk
          ≡ after)
unfolding take_up
take_up-new id digest envelope at s t desk after e =
    elim (Bool-cases (is_badly_reserved s.core id desk.store.operator_inputs)) [
      | inl bad ↦ absurd (not_new _ (ap (λ x. x.0) (rw bad at e)))
      | inr good ↦ elim (Bool-cases (changes_one (is_claimable id at) desk.store)) [
        | inl one ↦ (one, ap (λ x. x.1) (rw (good, one) at e))
        | inr zero ↦ absurd (not_new _ (ap (λ x. x.0) (rw (good, zero) at e)))
      ]
    ]
  where
    not_new : (reason : _) → Path ClaimAnswer (rejected reason) (answered true t) → ⊥
    not_new reason h = cc

pub claim_quoted-new :
    (id digest envelope : Text) (at : ℕ) (s t : StoredAdvance) (desk after : Desk)
    → claim_quoted id digest envelope at s desk ≡ ok (answered true t, after)
    → ((total_exposure desk).0 +ℤ s.core.topup ≤ℤ desk.store.policy.max_outstanding_sats)
      × (suc (total_exposure desk).1 ≤ desk.store.policy.max_concurrent_advances)
      × (take_up id digest envelope at s desk ≡ (answered true t, after))
unfolding claim_quoted
claim_quoted-new id digest envelope at s t desk after e =
    let policy = desk.store.policy in
    let (sats, e1) =
      >>-eq-ok
        (throw_if (ltb_ℤ policy.max_outstanding_sats ((total_exposure desk).0 +ℤ s.core.topup))
          (over_limit exceeds_max_outstanding))
        _ e in
    let (count, e2) =
      >>-eq-ok
        (throw_if (leb policy.max_concurrent_advances (total_exposure desk).1)
          (over_limit max_concurrent_advances))
        _ e1 in
    let (_, e3) =
      >>-eq-ok (or_store_failed (or_unfunded (validate_funding_snapshot s.core))) _ e2 in
    let within = throw_if-eq-ok _ _ sats in
    let below = throw_if-eq-ok _ _ count in (ground arith, ground arith, ok-injective e3)

rejected-new :
    (reason : LockupClaimError) (desk : Desk) (t : StoredAdvance) (after : Desk)
    → Path
        (Result ClaimFailure (ClaimAnswer × Desk))
        (ok (rejected reason, desk))
        (ok (answered true t, after))
    → ⊥
rejected-new reason desk t after h = cc

claim_current-new :
    (id lockup_id digest envelope : Text) (at : ℕ) (s t : StoredAdvance) (desk after : Desk)
    → claim_current id lockup_id digest envelope at s desk ≡ ok (answered true t, after)
    → (state_eq s.core.state quoted ≡ true)
      × (claim_quoted id digest envelope at s desk ≡ ok (answered true t, after))
unfolding claim_current
claim_current-new id lockup_id digest envelope at s t desk after e =
    elim (Bool-cases (state_eq s.core.state expired)) [
      | inl late ↦ absurd (rejected-new _ desk t after (rw late at e))
      | inr live ↦ elim (Bool-cases (not (text_eq s.core.funding.unsigned_lockup_id lockup_id))) [
        | inl other ↦ absurd (rejected-new _ desk t after (rw (live, other) at e))
        | inr named ↦
            elim (Bool-cases (state_eq s.core.state locking || state_eq s.core.state locked)) [
              | inl taken ↦ absurd (repeated _ (rw (live, named, taken) at e))
              | inr free ↦ elim (Bool-cases (not (state_eq s.core.state quoted))) [
                | inl closed ↦
                    absurd (rejected-new _ desk t after (rw (live, named, free, closed) at e))
                | inr open_quote ↦ (ground arith, rw (live, named, free, open_quote) at e)
              ]
            ]
      ]
    ]
  where
    repeated :
        (b : Bool)
        → Path
            (Result ClaimFailure (ClaimAnswer × Desk))
            (ok (if b then answered false s else rejected envelope_conflict, desk))
            (ok (answered true t, after))
        → ⊥
    repeated true h = cc
    repeated false h = rejected-new envelope_conflict desk t after h

pub claim_lockup-new :
    (id lockup_id digest envelope : Text) (at : ℕ) (t : StoredAdvance) (before after : Desk)
    → claim_lockup id lockup_id digest envelope at before ≡ ok (answered true t, after)
    → (s : StoredAdvance) × (get (expire_advances at (expire_receive_quotes at before)).1.store id
        ≡ ok (some s))
      × (state_eq s.core.state quoted ≡ true)
      × (claim_quoted id digest envelope at s
            (expire_advances at (expire_receive_quotes at before)).1
          ≡ ok (answered true t, after))
unfolding claim_lockup
claim_lockup-new id lockup_id digest envelope at t before after e =
    let desk = (expire_advances at (expire_receive_quotes at before)).1 in
    elim (Result-cases (get desk.store id)) [
      | inr (thrown, got) ↦ absurd (not_thrown thrown (rw (got, claim_lockup) at e))
      | inl (none, got) ↦ absurd (rejected-new not_found desk t after (rw (got, claim_lockup) at e))
      | inl (some s, got) ↦
          let (open_quote, claims) =
            claim_current-new id lockup_id digest envelope at s t desk after
              (rw (got, claim_lockup) at e) in
          (s, got, open_quote, claims)
    ]
  where
    not_thrown :
        (thrown : AdvanceFailure)
        → Path
            (Result ClaimFailure (ClaimAnswer × Desk))
            (err (store_failed thrown))
            (ok (answered true t, after))
        → ⊥
    not_thrown thrown h = cc

lapsed-id : (at : ℕ) (r : AdvanceRow) → (lapsed at r).id ≡ r.id
unfolding lapsed touched
lapsed-id at r = refl

pub expired-IsKeyed :
    (at : ℕ) (before : Desk)
    → IsKeyed row_id before.store.advances
    → IsKeyed row_id (expire_advances at (expire_receive_quotes at before)).1.store.advances
unfolding expire_advances expire_receive_quotes update_advances lapsed touched
expired-IsKeyed at before u =
    update_where-IsKeyed row_id (is_lapsed at) (lapsed at) (lapsed-id at) before.store.advances u

pub taken-id :
    (key digest envelope : Text) (at : ℕ) (r : AdvanceRow)
    → (taken_up key digest envelope at r).id ≡ r.id
unfolding taken_up touched
taken-id key digest envelope at r = refl

-- The tables once what has lapsed is expired, as a claim reads them.
abbrev pub aged : ℕ → Desk → Desk
aged at before = (expire_advances at (expire_receive_quotes at before)).1

-- A claim that is new: the advance that it read, the row that it changed, and what it left.
pub claim-row :
    (id lockup_id digest envelope : Text) (at : ℕ) (t : StoredAdvance) (before after : Desk)
    → IsKeyed row_id before.store.advances
    → claim_lockup id lockup_id digest envelope at before ≡ ok (answered true t, after)
    → (s : StoredAdvance) × (r : AdvanceRow) × (find (has_row_id id) (aged at before).store.advances
        ≡ some r)
      × (from_row r ≡ ok s)
      × (is_claimable id at r ≡ true)
      × (claim_quoted id digest envelope at s (aged at before) ≡ ok (answered true t, after))
      × (after_claim id at
            (submission_key_of id s.core.funding.unsigned_lockup_id)
            digest
            envelope
            (aged at before)
          ≡ after)
unfolding changes_one
claim-row id lockup_id digest envelope at t before after u e =
    let (s, got, _, e1) = claim_lockup-new id lockup_id digest envelope at t before after e in
    let (_, _, e2) = claim_quoted-new id digest envelope at s t (aged at before) after e1 in
    let (one, done) = take_up-new id digest envelope at s t (aged at before) after e2 in
    let (r, found, read) = get-found (aged at before).store id got in
    (
      s,
      r,
      found,
      read,
      counted-found row_id id (is_claimable id at) (claimable-names id at)
          (aged at before).store.advances (expired-IsKeyed at before u) found one,
      e1,
      done,
    )
