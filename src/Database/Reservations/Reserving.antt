-- ===== src/Database/Reservations/Reserving.antt =====
-- packages/db/src/reservations.ts, `reserveQuote`: a quote takes its place under the operator's limits, and
-- its coins.
use arkade_taxi.Prelude.{
  ℕ, Bool, true, false, not, ◌&&◌, ◌||◌, Option, none, some, List, [], ◌∷◌, Result, ok, err, ◌>>=◌,
  ◌>>◌, throw_if, if◌then◌else◌, leb, ◌==◌, any, all, length, get_or, suc,
}
use arkade_taxi.Prelude.Int.{ℤ, pos, ◌+ℤ◌, ◌-ℤ◌, ltb_ℤ, leb_ℤ}
use arkade_taxi.Core.Fares.{AssetRule, rule_for}
use arkade_taxi.Core.Types.{
  quoted, state_eq, Outpoint, DeadlineKind, height, time, kind_eq, ExpiryDeadline, Advance, Policy,
}
use arkade_taxi.Core.Ledger.{LedgerError, advance_kind, is_sponsored, validate_funding_snapshot}
use arkade_taxi.Database.Advances.{StoredAdvance}
use arkade_taxi.Database.Advances.Writing.{deadline_kind_of, deadline_value_of}
use arkade_taxi.Database.Advances.Store.{Store, ReservationRow, AdvanceFailure}
use arkade_taxi.Database.Advances.Lockup.{insert}
use arkade_taxi.Database.Reservations.{
  Desk, same_coin, coin_of, held_coin, all_reserved_outpoints, total_exposure,
  expire_receive_quotes,
}

pub data QuoteAdmissionCode : Type 0 where
  paused asset_not_served topup_exceeds_max_per_payment no_locktime_headroom : QuoteAdmissionCode
  exceeds_max_outstanding max_concurrent_advances : QuoteAdmissionCode

pub data ReserveError : Type 0 where
  policy_changed coin_reserved recovery_budget_invalid not_quoted : ReserveError
  bad_funding : LedgerError → ReserveError
  refused : QuoteAdmissionCode → ReserveError
  not_inserted : AdvanceFailure → ReserveError

pub record ReserveQuoteRequest : Type 0 where
  pub advance : StoredAdvance
  pub expected_policy_revision : ℕ
  pub recovery_execution_budget : Option ExpiryDeadline
  pub expected_reserved_outpoints : Option (List Outpoint)

-- The size of a `Set` of the coins' texts.
abbrev pub distinct_count : List Outpoint → ℕ
distinct_count [] = 0
distinct_count (c ∷ cs) =
    let rest = distinct_count cs in if any (same_coin c) cs then rest else suc rest

-- The list of reserved coins is no longer the one that the caller selected against.
abbrev pub is_other_set : List Outpoint → List Outpoint → Bool
is_other_set expected current =
    not (length current == distinct_count expected)
    || not (all (λ c. any (same_coin c) expected) current)

abbrev pub is_stale_selection : Option (List Outpoint) → Desk → Bool
is_stale_selection none desk = false
is_stale_selection (some expected) desk = is_other_set expected (all_reserved_outpoints desk)

abbrev pub is_bad_budget : Option ExpiryDeadline → Option ExpiryDeadline → ℕ → ℕ → Bool
is_bad_budget none budget margin created_at = true
is_bad_budget (some recovery) none margin created_at = true
is_bad_budget (some recovery) (some budget) margin created_at =
    not (kind_eq recovery.kind time)
    || not (kind_eq budget.kind time)
    || ltb_ℤ budget.value (pos 0)
    || leb_ℤ (pos margin) budget.value
    || leb_ℤ recovery.value (pos created_at)

abbrev pub margin_in : DeadlineKind → Policy → ℤ
margin_in height policy = pos policy.locktime_margin_blocks
margin_in time policy = pos policy.locktime_margin_seconds

abbrev pub lacks_headroom : Advance → Policy → Bool
lacks_headroom a policy = elim a.funding.batch_expiry [
  | none ↦ false
  | some expiry ↦
      not (is_sponsored (advance_kind a))
      && ltb_ℤ (expiry.value -ℤ a.locktime) (margin_in expiry.kind policy)
]

abbrev pub served_rule : Option AssetRule → Result ReserveError AssetRule
served_rule none = err (refused asset_not_served)
served_rule (some rule) = if rule.enabled then ok rule else err (refused asset_not_served)

abbrev pub checked_funding : Result LedgerError (Unit {0}) → Result ReserveError (Unit {0})
checked_funding (ok done) = ok done
checked_funding (err thrown) = err (bad_funding thrown)

abbrev pub inserted : Result AdvanceFailure Store → Result ReserveError Store
inserted (ok store) = ok store
inserted (err thrown) = err (not_inserted thrown)

-- The four look-ups of one input.
unfoldable pub is_held : Desk → Outpoint → Bool
is_held desk c =
    any (λ q. same_coin c (coin_of q)) desk.store.operator_inputs
    || any (λ h. same_coin c (held_coin h)) desk.proceeds_coins
    || any (λ h. same_coin c (held_coin h)) desk.receive_coins
    || any (λ h. same_coin c (held_coin h)) desk.fill_coins

unfoldable pub reservation_row : StoredAdvance → Outpoint → ReservationRow
reservation_row s c = record {
  outpoint_txid = c.txid;
  outpoint_vout = c.vout;
  advance_id = s.core.id;
  batch_expiry_kind = deadline_kind_of s.core.funding.batch_expiry;
  batch_expiry_value = deadline_value_of s.core.funding.batch_expiry;
  created_at = s.core.created_at;
}

-- The loop of insertions: the primary key refuses a coin that is there.
unfoldable pub insert_coins :
    StoredAdvance → List Outpoint → List ReservationRow → Result ReserveError (List ReservationRow)
insert_coins s [] rows = ok rows
insert_coins s (c ∷ cs) rows = do
  throw_if (any (λ q. same_coin c (coin_of q)) rows) coin_reserved
  insert_coins s cs (reservation_row s c ∷ rows)

unfoldable pub admit_topup : Advance → AssetRule → Policy → Result ReserveError (Unit {0})
admit_topup a rule policy =
    throw_if
      (leb_ℤ a.topup (pos 0)
        || ltb_ℤ a.dust a.topup
        || ltb_ℤ (get_or rule.max_topup_sats policy.max_per_payment_topup_sats) a.topup)
      (refused topup_exceeds_max_per_payment)

-- The transaction from the limits on.
unfoldable pub take_place : StoredAdvance → Policy → Desk → Result ReserveError Desk
take_place s policy desk = do
  throw_if (ltb_ℤ policy.max_outstanding_sats ((total_exposure desk).0 +ℤ s.core.topup))
      (refused exceeds_max_outstanding)
  throw_if (leb policy.max_concurrent_advances (total_exposure desk).1)
      (refused max_concurrent_advances)
  throw_if (any (is_held desk) s.core.funding.operator_inputs) coin_reserved
  store ← inserted (insert s desk.store)
  rows ← insert_coins s s.core.funding.operator_inputs store.operator_inputs
  ok (record desk { store = record store { operator_inputs = rows } })

unfoldable pub reserve_quote : ReserveQuoteRequest → Desk → Result ReserveError Desk
reserve_quote request before = do
  let s = request.advance in
      let desk = expire_receive_quotes s.core.created_at before in
      let policy = desk.store.policy in
      (do
        throw_if (not (desk.store.revision == request.expected_policy_revision)) policy_changed
        throw_if (is_stale_selection request.expected_reserved_outpoints desk) coin_reserved
        throw_if (not (state_eq s.core.state quoted)) not_quoted
        checked_funding (validate_funding_snapshot s.core)
        throw_if
            (not (is_sponsored (advance_kind s.core))
              && is_bad_budget s.core.funding.recovery_locktime request.recovery_execution_budget
                  policy.locktime_margin_seconds s.core.created_at)
            recovery_budget_invalid
        throw_if policy.paused (refused paused)
        rule ← served_rule (rule_for policy.asset_rules s.core.asset_id)
        admit_topup s.core rule policy
        throw_if (lacks_headroom s.core policy) (refused no_locktime_headroom)
        take_place s policy desk)
