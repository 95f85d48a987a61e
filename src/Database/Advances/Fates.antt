-- ===== src/Database/Advances/Fates.antt =====
-- packages/db/src/advances.ts: what becomes of a row, and the table of transitions of
-- packages/core/src/ledger.ts that it keeps to.
use arkade_taxi.Prelude.{
  ◌≡◌, refl, ap, sym, ◌∙◌, ◌⊎◌, inl, inr, true, false, some, Text, find, subst,
}
use arkade_taxi.Core.Types.{
  AdvanceState, quoted, locking, locked, recovering, recycled, purchased, refunded, expired,
  state_eq,
}
use arkade_taxi.Core.Ledger.{is_terminal}
use arkade_taxi.Core.Ledger.Lifecycle.{
  Edge, taken, lapsed, observed, receiver_recycles, receiver_purchases, sender_refunds,
  deadline_passed, reclaimed,
}
use arkade_taxi.Database.Advances.{StoredAdvance, AdvanceRow}
use arkade_taxi.Database.Advances.Store.{Store, has_row_id, in_state}
use arkade_taxi.Database.Advances.Observation.{
  LiveState, live_locking, live_locked, live_recovering, live_state, Outcome, by_recycle,
  by_purchase, by_refund, by_recovery, outcome_state,
}
use arkade_taxi.Database.Advances.Commands.{Command, inserts, execute}
use arkade_taxi.Database.Advances.Moves.{
  Moves, stays, takes, lapses, gives_up, locks, recovers, settles, RowMove, still, agreement,
  signed_lockup, is_unsigned,
}
use arkade_taxi.Database.Advances.History.{
  RowAfter, after_move, insert-row, IsInsertion, execute-Moved,
}

IsInsertion-cases : (c : Command) → ((a : StoredAdvance) × (c ≡ inserts a)) ⊎ (¬ (IsInsertion c))
IsInsertion-cases (inserts a) = inl (a, refl)
IsInsertion-cases _ = inr (λ h. h)

pub execute-row :
    (c : Command) (db : Store) (id : Text) {r : AdvanceRow}
    → find (has_row_id id) db.advances ≡ some r
    → RowAfter (execute c db) id r
execute-row c db id {r} e = elim (IsInsertion-cases c) [
  | inl (a, is_insertion) ↦ (r, rw is_insertion (unfold execute in insert-row a db id e), still r)
  | inr h ↦ after_move db (execute c db) id (execute-Moved c db h) e
]

-- Moves, one after the other.
pub data RowRun : AdvanceRow → AdvanceRow → Type 0 where
  rests : {r : AdvanceRow} → RowRun r r
  runs : {r q s : AdvanceRow} → RowMove r q → RowRun q s → RowRun r s

pub RowRun-agreement : {r r' : AdvanceRow} → RowRun r r' → agreement r' ≡ agreement r
RowRun-agreement rests = refl
RowRun-agreement (runs m run) = RowRun-agreement run ∙ m.agreed

terminal-Moves : (s t : AdvanceState) → is_terminal s ≡ true → Moves s t → t ≡ s
unfolding is_terminal
terminal-Moves s _ h stays = refl
terminal-Moves s _ h (takes e) = absurd (cc (ap is_terminal e))
terminal-Moves s _ h (lapses e) = absurd (cc (ap is_terminal e))
terminal-Moves s _ h (gives_up e) = absurd (cc (ap is_terminal e))
terminal-Moves s _ h (locks e) = absurd (cc (ap is_terminal e))
terminal-Moves s _ h (recovers e) = absurd (cc (ap is_terminal e))
terminal-Moves s _ h (settles l o e) = absurd (live_not_terminal l (sym (ap is_terminal e) ∙ h))
  where
    live_not_terminal : (l : LiveState) → is_terminal (live_state l) ≡ true → ⊥
    live_not_terminal live_locking h = cc
    live_not_terminal live_locked h = cc
    live_not_terminal live_recovering h = cc

pub RowRun-final :
    {r r' : AdvanceRow} (txid : Text)
    → RowRun r r'
    → is_terminal r.state ≡ true
    → r.spent_txid ≡ some txid
    → (r'.state ≡ r.state) × (r'.spent_txid ≡ some txid)
RowRun-final txid rests h e = (refl, e)
RowRun-final {r} txid (runs {q} m run) h e =
    let same : q.state ≡ r.state = terminal-Moves r.state q.state h m.moves in
    let (state, spent) =
      RowRun-final txid run (subst (λ s. is_terminal s ≡ true) (sym same) h)
        (m.spent_once txid e) in
    (state ∙ same, spent)

quoted-Moves :
    (s t : AdvanceState) → state_eq s quoted ≡ false → Moves s t → state_eq t quoted ≡ false
quoted-Moves s _ h stays = h
quoted-Moves s _ h (takes e) = refl
quoted-Moves s _ h (lapses e) = refl
quoted-Moves s _ h (gives_up e) = refl
quoted-Moves s _ h (locks e) = refl
quoted-Moves s _ h (recovers e) = refl
quoted-Moves s _ h (settles l by_recycle e) = refl
quoted-Moves s _ h (settles l by_purchase e) = refl
quoted-Moves s _ h (settles l by_refund e) = refl
quoted-Moves s _ h (settles l by_recovery e) = refl

pub RowRun-not_quoted :
    {r r' : AdvanceRow} → RowRun r r' → in_state quoted r ≡ false → in_state quoted r' ≡ false
RowRun-not_quoted rests h = h
RowRun-not_quoted {r} (runs {q} m run) h =
    RowRun-not_quoted run (quoted-Moves r.state q.state h m.moves)

pub RowRun-signed :
    {r r' : AdvanceRow}
    → RowRun r r'
    → in_state quoted r ≡ false
    → is_unsigned r ≡ false
    → (signed_lockup r' ≡ signed_lockup r) × (is_unsigned r' ≡ false)
RowRun-signed rests past h = (refl, h)
RowRun-signed {r} (runs {q} m run) past h =
    let (same, next) = m.signed_once past h in
    let (same', next') = RowRun-signed run (quoted-Moves r.state q.state past m.moves) next in
    (same' ∙ same, next')

-- A path along the table of transitions.
pub data Reaches (s : AdvanceState) : AdvanceState → Type 0 where
  here : Reaches s s
  onward : {t u : AdvanceState} → Reaches s t → Edge t u → Reaches s u

-- The steps that the table does not have: a claim or a refund that is seen while the operator reclaims,
-- and a lockup that is given up before it is locked.
pub data IsBeyond : AdvanceState → AdvanceState → Type 0 where
  recycled_first : IsBeyond recovering recycled
  purchased_first : IsBeyond recovering purchased
  refunded_first : IsBeyond recovering refunded
  given_up : IsBeyond locking expired

abbrev pub Refines : AdvanceState → AdvanceState → Type 0
Refines s t = Reaches s t ⊎ IsBeyond s t

into_recovering : {s t : AdvanceState} → Edge s t → t ≡ recovering → s ≡ locked
into_recovering deadline_passed e = refl
into_recovering taken e = cc
into_recovering lapsed e = cc
into_recovering observed e = cc
into_recovering receiver_recycles e = cc
into_recovering receiver_purchases e = cc
into_recovering sender_refunds e = cc
into_recovering reclaimed e = cc

into_locking : {s t : AdvanceState} → Edge s t → t ≡ locking → s ≡ quoted
into_locking taken e = refl
into_locking deadline_passed e = cc
into_locking lapsed e = cc
into_locking observed e = cc
into_locking receiver_recycles e = cc
into_locking receiver_purchases e = cc
into_locking sender_refunds e = cc
into_locking reclaimed e = cc

-- The last edge of a path.
last_edge :
    {s t : AdvanceState} → Reaches s t → (s ≡ t) ⊎ ((u : AdvanceState) × Reaches s u × Edge u t)
last_edge here = inl refl
last_edge (onward {t = v} h e) = inr (v, h, e)

-- From `recovering` the ends of `locked` are reached, unless the path begins there.
beside_recovering :
    (s t : AdvanceState)
    → Reaches s recovering
    → Edge locked t
    → IsBeyond recovering t
    → Refines s t
beside_recovering s t h e beyond = elim (last_edge h) [
  | inl same ↦ inr (subst (λ u. IsBeyond u t) (sym same) beyond)
  | inr (u, before, step) ↦ inl (onward (subst (Reaches s) (into_recovering step refl) before) e)
]

beside_locking : (s : AdvanceState) → Reaches s locking → Refines s expired
beside_locking s h = elim (last_edge h) [
  | inl same ↦ inr (subst (λ u. IsBeyond u expired) (sym same) given_up)
  | inr (u, before, step) ↦ inl (onward (subst (Reaches s) (into_locking step refl) before) lapsed)
]

settles-Refines :
    (s : AdvanceState) (l : LiveState) (o : Outcome)
    → Reaches s (live_state l)
    → Refines s (outcome_state o)
settles-Refines s live_locking by_recycle h = inl (onward (onward h observed) receiver_recycles)
settles-Refines s live_locking by_purchase h = inl (onward (onward h observed) receiver_purchases)
settles-Refines s live_locking by_refund h = inl (onward (onward h observed) sender_refunds)
settles-Refines s live_locking by_recovery h =
    inl (onward (onward (onward h observed) deadline_passed) reclaimed)
settles-Refines s live_locked by_recycle h = inl (onward h receiver_recycles)
settles-Refines s live_locked by_purchase h = inl (onward h receiver_purchases)
settles-Refines s live_locked by_refund h = inl (onward h sender_refunds)
settles-Refines s live_locked by_recovery h = inl (onward (onward h deadline_passed) reclaimed)
settles-Refines s live_recovering by_recycle h =
    beside_recovering s recycled h receiver_recycles recycled_first
settles-Refines s live_recovering by_purchase h =
    beside_recovering s purchased h receiver_purchases purchased_first
settles-Refines s live_recovering by_refund h =
    beside_recovering s refunded h sender_refunds refunded_first
settles-Refines s live_recovering by_recovery h = inl (onward h reclaimed)

Moves-Refines : (s t u : AdvanceState) → Reaches s t → Moves t u → Refines s u
Moves-Refines s t _ h stays = inl h
Moves-Refines s t _ h (takes e) = inl (onward (subst (Reaches s) e h) taken)
Moves-Refines s t _ h (lapses e) = inl (onward (subst (Reaches s) e h) lapsed)
Moves-Refines s t _ h (gives_up e) = beside_locking s (subst (Reaches s) e h)
Moves-Refines s t _ h (locks e) = inl (onward (subst (Reaches s) e h) observed)
Moves-Refines s t _ h (recovers e) = inl (onward (subst (Reaches s) e h) deadline_passed)
Moves-Refines s t _ h (settles l o e) = settles-Refines s l o (subst (Reaches s) e h)

beyond-terminal : {s t : AdvanceState} → IsBeyond s t → is_terminal t ≡ true
unfolding is_terminal
beyond-terminal recycled_first = refl
beyond-terminal purchased_first = refl
beyond-terminal refunded_first = refl
beyond-terminal given_up = refl

pub RowRun-Refines :
    (s : AdvanceState) {r r' : AdvanceRow} → RowRun r r' → Refines s r.state → Refines s r'.state
RowRun-Refines s rests h = h
RowRun-Refines s {r} (runs {q} m run) (inl h) =
    RowRun-Refines s run (Moves-Refines s r.state q.state h m.moves)
RowRun-Refines s {r} (runs {q} m run) (inr beyond) = RowRun-Refines s run (
    inr (
      subst (IsBeyond s) (sym (terminal-Moves r.state q.state (beyond-terminal beyond) m.moves))
        beyond))
