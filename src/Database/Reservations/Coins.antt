-- ===== src/Database/Reservations/Coins.antt =====
-- packages/db/src/reservations.ts: no coin is held twice, by one flow or by two.
use arkade_taxi.Prelude.{
  ◌≡◌, refl, ap, sym, ◌∙◌, Bool, false, not, ◌||◌, ◌&&◌, List, [], ◌∷◌, ◌++◌, map, Result, ok, err,
  throw_if, >>-eq-ok, >>=-eq-ok, throw_if-eq-ok, ok-injective, any, filter, arith, inl, inr,
  Bool-cases, subst, Result-cases, ℕ, leb, ◌==◌,
}
use arkade_taxi.Prelude.Int.{ltb_ℤ, ◌+ℤ◌}
use arkade_taxi.Core.Ledger.{is_sponsored, advance_kind, validate_funding_snapshot}
use arkade_taxi.Core.Types.{Outpoint, Policy, quoted, state_eq}
use arkade_taxi.Core.Fares.{rule_for}
use arkade_taxi.Database.Advances.{StoredAdvance}
use arkade_taxi.Database.Advances.Writing.{to_params}
use arkade_taxi.Database.Advances.Store.{Store, ReservationRow, AdvanceFailure, duplicate_key}
use arkade_taxi.Database.Advances.Lockup.{insert, params_or_throw}
use arkade_taxi.Database.Reservations.{
  Desk, HeldCoin, same_coin, coin_of, held_coin, all_reserved_outpoints, expire_receive_quotes,
  total_exposure,
}
use arkade_taxi.Database.Reservations.Reserving.{
  ReserveError, ReserveQuoteRequest, coin_reserved, is_held, reservation_row, insert_coins,
  inserted, take_place, reserve_quote, checked_funding, served_rule, admit_topup, refused,
  exceeds_max_outstanding, max_concurrent_advances, policy_changed, is_stale_selection, not_quoted,
  is_bad_budget, recovery_budget_invalid, paused, lacks_headroom, no_locktime_headroom,
}

-- No coin stands twice.
abbrev pub IsApart : List Outpoint → Type 0
IsApart [] = Unit
IsApart (c ∷ cs) = (any (same_coin c) cs ≡ false) × IsApart cs

-- A list with some entries left out.
data Part : List Outpoint → List Outpoint → Type 0 where
  nothing : Part [] []
  kept : {c : Outpoint} {ys xs : List Outpoint} → Part ys xs → Part (c ∷ ys) (c ∷ xs)
  dropped : {c : Outpoint} {ys xs : List Outpoint} → Part ys xs → Part ys (c ∷ xs)

any-Part :
    (p : Outpoint → Bool) {ys xs : List Outpoint} → Part ys xs → any p xs ≡ false → any p ys ≡ false
any-Part p nothing h = h
any-Part p (kept {c} part) h = ground (arith, any-Part p part)
any-Part p (dropped {c} part) h = any-Part p part (ground arith)

IsApart-Part : {ys xs : List Outpoint} → Part ys xs → IsApart xs → IsApart ys
IsApart-Part nothing h = h
IsApart-Part (kept {c} part) (free, h) = (any-Part (same_coin c) part free, IsApart-Part part h)
IsApart-Part (dropped part) (free, h) = IsApart-Part part h

Part-same : (xs : List Outpoint) → Part xs xs
Part-same [] = nothing
Part-same (c ∷ cs) = kept (Part-same cs)

Part-behind : (xs : List Outpoint) {zs ys : List Outpoint} → Part zs ys → Part (xs ++ zs) (xs ++ ys)
Part-behind [] part = part
Part-behind (c ∷ cs) part = kept (Part-behind cs part)

Part-filter :
    (p : HeldCoin → Bool) (hs : List HeldCoin)
    → Part (map held_coin (filter p hs)) (map held_coin hs)
Part-filter p [] = nothing
Part-filter p (h ∷ hs) = elim (Bool-cases (p h)) [
  | inl hit ↦ rw hit (kept (Part-filter p hs))
  | inr miss ↦ rw miss (dropped (Part-filter p hs))
]

pub expire-IsApart :
    (at : ℕ) (desk : Desk)
    → IsApart (all_reserved_outpoints desk)
    → IsApart (all_reserved_outpoints (expire_receive_quotes at desk))
unfolding all_reserved_outpoints expire_receive_quotes
expire-IsApart at desk h =
    IsApart-Part
      (Part-behind (map coin_of desk.store.operator_inputs) (
        Part-behind (map held_coin desk.proceeds_coins)
          (Part-behind (map held_coin desk.fill_coins) (Part-filter _ desk.receive_coins))))
      h

pub any-append :
    (p : Outpoint → Bool) (xs ys : List Outpoint) → any p (xs ++ ys) ≡ (any p xs || any p ys)
any-append p [] ys = refl
any-append p (x ∷ xs) ys = ground (arith, any-append p xs ys)

pub any-coin_of :
    (c : Outpoint) (rows : List ReservationRow)
    → any (same_coin c) (map coin_of rows) ≡ any (λ q. same_coin c (coin_of q)) rows
any-coin_of c [] = refl
any-coin_of c (q ∷ qs) = ap (λ b. same_coin c (coin_of q) || b) (any-coin_of c qs)

pub any-held_coin :
    (c : Outpoint) (hs : List HeldCoin)
    → any (same_coin c) (map held_coin hs) ≡ any (λ h. same_coin c (held_coin h)) hs
any-held_coin c [] = refl
any-held_coin c (h ∷ hs) = ap (λ b. same_coin c (held_coin h) || b) (any-held_coin c hs)

-- The coins that the other flows hold.
abbrev elsewhere : Desk → List Outpoint
elsewhere desk =
    map held_coin desk.proceeds_coins
    ++ (map held_coin desk.fill_coins ++ map held_coin desk.receive_coins)

not_elsewhere :
    (desk : Desk) (c : Outpoint)
    → is_held desk c ≡ false
    → any (same_coin c) (elsewhere desk) ≡ false
unfolding is_held
not_elsewhere desk c h =
    any-append (same_coin c) (map held_coin desk.proceeds_coins) _
    ∙ rw
        (
          any-append (same_coin c) (map held_coin desk.fill_coins)
              (map held_coin desk.receive_coins),
          any-held_coin c desk.proceeds_coins,
          any-held_coin c desk.fill_coins,
          any-held_coin c desk.receive_coins,
        )
        (ground arith)

insert_coins-IsApart :
    (s : StoredAdvance) (desk : Desk) (cs : List Outpoint) (rows rows' : List ReservationRow)
    → any (is_held desk) cs ≡ false
    → insert_coins s cs rows ≡ ok rows'
    → IsApart (map coin_of rows ++ elsewhere desk)
    → IsApart (map coin_of rows' ++ elsewhere desk)
unfolding insert_coins reservation_row
insert_coins-IsApart s desk [] rows rows' free e h =
    subst (λ l. IsApart (map coin_of l ++ elsewhere desk)) (ok-injective e) h
insert_coins-IsApart s desk (c ∷ cs) rows rows' free e h =
    let (fresh, rest) =
      >>-eq-ok (throw_if (any (λ q. same_coin c (coin_of q)) rows) coin_reserved) _ e in
    let absent : any (same_coin c) (map coin_of rows) ≡ false =
      any-coin_of c rows ∙ throw_if-eq-ok _ _ fresh in
    let apart : any (same_coin c) (map coin_of rows ++ elsewhere desk) ≡ false =
      any-append (same_coin c) (map coin_of rows) (elsewhere desk)
      ∙ rw (absent, not_elsewhere desk c (ground arith)) refl in
    insert_coins-IsApart s desk cs (reservation_row s c ∷ rows) rows' (ground arith) rest (apart, h)

insert-coins :
    (s : StoredAdvance) (db store : Store)
    → inserted (insert s db) ≡ ok store
    → store.operator_inputs ≡ db.operator_inputs
unfolding insert
insert-coins s db store e = elim (Result-cases (insert s db)) [
  | inr (thrown, t) ↦ absurd (not_thrown thrown (rw t at e))
  | inl (made, t) ↦
      let same : made ≡ store = ok-injective (rw t at e) in
      let (r, _, t1) = >>=-eq-ok (params_or_throw (to_params s)) _ t in
      let (_, t2) = >>-eq-ok (throw_if _ duplicate_key) _ t1 in
      ap (λ (d : Store). d.operator_inputs) (sym (ok-injective t2 ∙ same))
]
  where
    not_thrown :
        (thrown : AdvanceFailure)
        → Path (Result ReserveError Store) (inserted (err thrown)) (ok store)
        → ⊥
    not_thrown thrown h = cc

-- What a quote that takes its place has passed, and what it leaves.
pub take_place-parts :
    (s : StoredAdvance) (policy : Policy) (desk after : Desk)
    → take_place s policy desk ≡ ok after
    → (any (is_held desk) s.core.funding.operator_inputs ≡ false)
      × (store : Store) × (inserted (insert s desk.store) ≡ ok store)
      × (rows : List ReservationRow) × (insert_coins s s.core.funding.operator_inputs
            store.operator_inputs
          ≡ ok rows)
      × (record desk { store = record store { operator_inputs = rows } } ≡ after)
unfolding take_place
take_place-parts s policy desk after e =
    let (_, e1) =
      >>-eq-ok
        (throw_if (ltb_ℤ policy.max_outstanding_sats ((total_exposure desk).0 +ℤ s.core.topup))
          (refused exceeds_max_outstanding))
        _ e in
    let (_, e2) =
      >>-eq-ok
        (throw_if (leb policy.max_concurrent_advances (total_exposure desk).1)
          (refused max_concurrent_advances))
        _ e1 in
    let (free, e3) =
      >>-eq-ok (throw_if (any (is_held desk) s.core.funding.operator_inputs) coin_reserved) _ e2 in
    let (store, made, e4) = >>=-eq-ok (inserted (insert s desk.store)) _ e3 in
    let (rows, placed, e5) =
      >>=-eq-ok (insert_coins s s.core.funding.operator_inputs store.operator_inputs) _ e4 in
    (throw_if-eq-ok _ _ free, store, made, rows, placed, ok-injective e5)

take_place-IsApart :
    (s : StoredAdvance) (policy : Policy) (desk after : Desk)
    → take_place s policy desk ≡ ok after
    → IsApart (all_reserved_outpoints desk)
    → IsApart (all_reserved_outpoints after)
unfolding all_reserved_outpoints
take_place-IsApart s policy desk after e h =
    let (free, store, made, rows, placed, done) = take_place-parts s policy desk after e in
    subst (λ (d : Desk). IsApart (map coin_of d.store.operator_inputs ++ elsewhere d)) done
      (insert_coins-IsApart s desk s.core.funding.operator_inputs store.operator_inputs rows free
        placed (rw (insert-coins s desk.store store made) h))

pub reserve_quote-take_place :
    (request : ReserveQuoteRequest) (before after : Desk)
    → reserve_quote request before ≡ ok after
    → take_place request.advance
        (expire_receive_quotes request.advance.core.created_at before).store.policy
        (expire_receive_quotes request.advance.core.created_at before)
      ≡ ok after
unfolding reserve_quote
reserve_quote-take_place request before after e =
    let s = request.advance in
    let desk = expire_receive_quotes s.core.created_at before in
    let policy = desk.store.policy in
    let (_, e1) =
      >>-eq-ok
        (throw_if (not (desk.store.revision == request.expected_policy_revision)) policy_changed) _
        e in
    let (_, e2) =
      >>-eq-ok
        (throw_if (is_stale_selection request.expected_reserved_outpoints desk) coin_reserved) _
        e1 in
    let (_, e3) = >>-eq-ok (throw_if (not (state_eq s.core.state quoted)) not_quoted) _ e2 in
    let (_, e4) = >>-eq-ok (checked_funding (validate_funding_snapshot s.core)) _ e3 in
    let (_, e5) =
      >>-eq-ok
        (throw_if
          (not (is_sponsored (advance_kind s.core))
            && is_bad_budget s.core.funding.recovery_locktime request.recovery_execution_budget
                policy.locktime_margin_seconds s.core.created_at)
          recovery_budget_invalid)
        _ e4 in
    let (_, e6) = >>-eq-ok (throw_if policy.paused (refused paused)) _ e5 in
    let (rule, _, e7) =
      >>=-eq-ok (served_rule (rule_for policy.asset_rules s.core.asset_id)) _ e6 in
    let (_, e8) = >>-eq-ok (admit_topup s.core rule policy) _ e7 in
    let (_, e9) =
      >>-eq-ok (throw_if (lacks_headroom s.core policy) (refused no_locktime_headroom)) _ e8 in
    e9

-- A quote that is reserved takes no coin that is held already, by an advance, a receive quote, a proceeds
-- job or a fill, and no coin twice: where no coin was held twice before, none is afterwards.
pub reserve_quote-IsApart :
    (request : ReserveQuoteRequest) (desk after : Desk)
    → IsApart (all_reserved_outpoints desk)
    → reserve_quote request desk ≡ ok after
    → IsApart (all_reserved_outpoints after)
reserve_quote-IsApart request before after h e =
    let at = request.advance.core.created_at in
    take_place-IsApart request.advance _ (expire_receive_quotes at before) after
      (reserve_quote-take_place request before after e) (expire-IsApart at before h)
