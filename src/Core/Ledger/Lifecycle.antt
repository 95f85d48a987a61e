-- ===== src/Core/Ledger/Lifecycle.antt =====
-- The life of an advance: the edges of the table, and chains of transitions.
use arkade_taxi.Prelude.{
  ℕ, zero, suc, ◌+◌, ◌≤◌, ◌≡◌, refl, ap, sym, ◌∙◌, ◌≢◌, ◌↔◌, ◌⊎◌, inl, inr, true, false, not, ok,
  >>-eq-ok, throw_if, throw_if-eq-ok, ok-injective, if◌then◌else◌, arith, subst,
}
use arkade_taxi.Core.Types.{
  AdvanceState, quoted, locking, locked, recovering, recycled, purchased, refunded, recovered,
  expired, state_eq, state_eq_iff, AdvanceKind, covenant, sponsored, Advance,
}
use arkade_taxi.Core.Ledger.{
  advance_kind, is_sponsored, is_exposed, can_transition, is_terminal, is_expired, transition,
  covenant_params_of, validate_funding_snapshot, illegal_transition,
}
use arkade_taxi.Core.Ledger.Snapshot.{IsFundable, validate_funding_snapshot_iff}

-- What moves an advance on.
pub data Edge : AdvanceState → AdvanceState → Type 0 where
  taken : Edge quoted locking
  lapsed : Edge quoted expired
  observed : Edge locking locked
  receiver_recycles : Edge locked recycled
  receiver_purchases : Edge locked purchased
  sender_refunds : Edge locked refunded
  deadline_passed : Edge locked recovering
  reclaimed : Edge recovering recovered

Edge-can_transition : {s t : AdvanceState} → Edge s t → can_transition s t ≡ true
unfolding can_transition
Edge-can_transition taken = refl
Edge-can_transition lapsed = refl
Edge-can_transition observed = refl
Edge-can_transition receiver_recycles = refl
Edge-can_transition receiver_purchases = refl
Edge-can_transition sender_refunds = refl
Edge-can_transition deadline_passed = refl
Edge-can_transition reclaimed = refl

can_transition-Edge : (s t : AdvanceState) → can_transition s t ≡ true → Edge s t
unfolding can_transition
can_transition-Edge quoted locking h = taken
can_transition-Edge quoted expired h = lapsed
can_transition-Edge locking locked h = observed
can_transition-Edge locked recycled h = receiver_recycles
can_transition-Edge locked purchased h = receiver_purchases
can_transition-Edge locked refunded h = sender_refunds
can_transition-Edge locked recovering h = deadline_passed
can_transition-Edge recovering recovered h = reclaimed
can_transition-Edge _ _ h = cc

-- What a transition asks of the advance beside the edge: only locking reads the snapshot.
abbrev pub Ready : AdvanceState → Advance → Type 0
Ready locking a = IsFundable (advance_kind a) a
Ready _ a = Unit

-- The advance after a transition.
abbrev pub moved : Advance → AdvanceState → ℕ → Advance
moved a to at = record a { state = to; updated_at = at }

snapshot_guard :
    (to : AdvanceState) (a : Advance)
    → ((if state_eq to locking then validate_funding_snapshot a else ok tt) ≡ ok tt) ↔ Ready to a
snapshot_guard locking a = validate_funding_snapshot_iff a
snapshot_guard _ a = (λ _. tt, λ _. refl)

-- A transition succeeds exactly along an edge of the table and, into `locking`, with a snapshot that
-- the advance's rail may lock with; it then changes the state and the time of update and no more.
pub transition_iff :
    (a b : Advance) (to : AdvanceState) (at : ℕ)
    → (transition a to at ≡ ok b) ↔ (Edge a.state to × Ready to a × (b ≡ moved a to at))
unfolding transition
transition_iff a b to at = (
  λ e.
      let (legal, rest) =
        >>-eq-ok (throw_if (not (can_transition a.state to)) (illegal_transition a.state to)) _ e in
      let (ready, done) =
        >>-eq-ok (if state_eq to locking then validate_funding_snapshot a else ok tt) _ rest in
      (
        can_transition-Edge a.state to (ground (arith, throw_if-eq-ok _ _ legal)),
        (snapshot_guard to a).0 ready,
        sym (ok-injective done),
      ),
  λ (edge, ready, same). rw (Edge-can_transition edge, (snapshot_guard to a).1 ready, same),
)

-- The list of terminal states and the table agree: a state is terminal exactly when no transition
-- leaves it.
pub is_terminal_iff :
    (s : AdvanceState) → (is_terminal s ≡ true) ↔ ((t : AdvanceState) → can_transition s t ≡ false)
unfolding is_terminal can_transition
is_terminal_iff quoted = (λ h. cc, λ h. cc (h locking))
is_terminal_iff locking = (λ h. cc, λ h. cc (h locked))
is_terminal_iff locked = (λ h. cc, λ h. cc (h recycled))
is_terminal_iff recovering = (λ h. cc, λ h. cc (h recovered))
is_terminal_iff _ = (λ _ t. refl, λ _. refl)

-- A chain of transitions, each at its own time, by its length.
pub data Life (a : Advance) : ℕ → Advance → Type 0 where
  begins : Life a zero a
  goes_on :
      {n : ℕ} {b c : Advance} (to : AdvanceState) (at : ℕ)
      → Life a n b
      → transition b to at ≡ ok c
      → Life a (suc n) c

-- How far along a state is.
abbrev rank : AdvanceState → ℕ
rank quoted = 0
rank locking = 1
rank locked = 2
rank recovering = 3
rank recycled = 3
rank purchased = 3
rank refunded = 3
rank recovered = 4
rank expired = 1

Edge-rank : {s t : AdvanceState} → Edge s t → suc (rank s) ≤ rank t
Edge-rank taken = omega arith
Edge-rank lapsed = omega arith
Edge-rank observed = omega arith
Edge-rank receiver_recycles = omega arith
Edge-rank receiver_purchases = omega arith
Edge-rank sender_refunds = omega arith
Edge-rank deadline_passed = omega arith
Edge-rank reclaimed = omega arith

rank-le : (s : AdvanceState) → rank s ≤ 4
rank-le s = ground arith

transition-rank :
    (a b : Advance) (to : AdvanceState) (at : ℕ)
    → transition a to at ≡ ok b
    → suc (rank a.state) ≤ rank b.state
transition-rank a b to at e =
    let (edge, _, same) = (transition_iff a b to at).0 e in
    subst (λ s. suc (rank a.state) ≤ rank s) (sym (ap (λ c. c.state) same)) (Edge-rank edge)

Life-rank : {a b : Advance} {n : ℕ} → Life a n b → n + rank a.state ≤ rank b.state
Life-rank begins = omega arith
Life-rank {a} (goes_on {n} {b} {c} to at life e) =
    omega (arith, Life-rank life, transition-rank b c to at e)

-- No advance makes more than four transitions, whatever is asked of it.
pub Life-length : {a b : Advance} {n : ℕ} → Life a n b → n ≤ 4
Life-length {a} {b} life = omega (arith, Life-rank life, rank-le b.state)

-- What an advance that has left `quoted` stands on.
abbrev pub IsFunded : Advance → Type 0
IsFunded a = (a.state ≡ quoted) ⊎ (a.state ≡ expired) ⊎ IsFundable (advance_kind a) a

IsFundable-moved :
    (k : AdvanceKind) (a : Advance) (to : AdvanceState) (at : ℕ)
    → IsFundable k a
    → IsFundable k (moved a to at)
IsFundable-moved sponsored a to at h = h
IsFundable-moved covenant a to at h = h

advance_kind-moved :
    (a : Advance) (to : AdvanceState) (at : ℕ) → advance_kind (moved a to at) ≡ advance_kind a
unfolding advance_kind
advance_kind-moved a to at = refl

IsFunded-moved :
    (a : Advance) (to : AdvanceState) (at : ℕ)
    → IsFundable (advance_kind a) a
    → IsFunded (moved a to at)
IsFunded-moved a to at h =
    inr (inr (rw (advance_kind-moved a to at) (IsFundable-moved (advance_kind a) a to at h)))

left_quote :
    (a : Advance)
    → a.state ≢ quoted
    → a.state ≢ expired
    → IsFunded a
    → IsFundable (advance_kind a) a
left_quote a q x (inl h) = absurd (q h)
left_quote a q x (inr (inl h)) = absurd (x h)
left_quote a q x (inr (inr h)) = h

Edge-IsFunded :
    (a : Advance) {s t : AdvanceState} (at : ℕ)
    → Edge s t
    → a.state ≡ s
    → Ready t a
    → IsFunded a
    → IsFunded (moved a t at)
Edge-IsFunded a at taken e ready h = IsFunded-moved a locking at ready
Edge-IsFunded a at lapsed e ready h = inr (inl refl)
Edge-IsFunded a at observed e ready h = IsFunded-moved a locked at (left_quote a (cc) (cc) h)
Edge-IsFunded a at receiver_recycles e ready h =
    IsFunded-moved a recycled at (left_quote a (cc) (cc) h)
Edge-IsFunded a at receiver_purchases e ready h =
    IsFunded-moved a purchased at (left_quote a (cc) (cc) h)
Edge-IsFunded a at sender_refunds e ready h =
    IsFunded-moved a refunded at (left_quote a (cc) (cc) h)
Edge-IsFunded a at deadline_passed e ready h =
    IsFunded-moved a recovering at (left_quote a (cc) (cc) h)
Edge-IsFunded a at reclaimed e ready h = IsFunded-moved a recovered at (left_quote a (cc) (cc) h)

transition-IsFunded :
    (a b : Advance) (to : AdvanceState) (at : ℕ)
    → IsFunded a
    → transition a to at ≡ ok b
    → IsFunded b
transition-IsFunded a b to at h e =
    let (edge, ready, same) = (transition_iff a b to at).0 e in
    subst IsFunded (sym same) (Edge-IsFunded a at edge refl ready h)

-- From a quote on, an advance that is neither still quoted nor expired has a funding snapshot that
-- its rail may lock with.
pub Life-IsFunded : {a b : Advance} {n : ℕ} → a.state ≡ quoted → Life a n b → IsFunded b
Life-IsFunded h begins = inl h
Life-IsFunded h (goes_on {b} {c} to at life e) =
    transition-IsFunded b c to at (Life-IsFunded h life) e

params-moved :
    (a : Advance) (to : AdvanceState) (at : ℕ)
    → covenant_params_of (moved a to at) ≡ covenant_params_of a
unfolding covenant_params_of
params-moved a to at = refl

-- No chain of transitions moves the covenant, and with it its address: the parameters that the
-- covenant is rebuilt from stay what they were.
pub Life-covenant_params_of :
    {a b : Advance} {n : ℕ} → Life a n b → covenant_params_of b ≡ covenant_params_of a
Life-covenant_params_of begins = refl
Life-covenant_params_of (goes_on {b} {c} to at life e) =
    let (_, _, same) = (transition_iff b c to at).0 e in
    ap covenant_params_of same ∙ params-moved b to at ∙ Life-covenant_params_of life

Edge-is_exposed :
    (a : Advance) {s t : AdvanceState} (at : ℕ)
    → Edge s t
    → is_exposed (moved a t at)
      ≡ (if is_sponsored (advance_kind a) then state_eq t locking else not (is_terminal t))
unfolding is_exposed is_terminal
Edge-is_exposed a at taken = refl
Edge-is_exposed a at lapsed = refl
Edge-is_exposed a at observed = refl
Edge-is_exposed a at receiver_recycles = refl
Edge-is_exposed a at receiver_purchases = refl
Edge-is_exposed a at sender_refunds = refl
Edge-is_exposed a at deadline_passed = refl
Edge-is_exposed a at reclaimed = refl

-- After a transition a covenant advance is capital at risk unless its state is terminal, and a
-- sponsored one only in `locking`, until its payment is observed.
pub transition-is_exposed :
    (a b : Advance) (to : AdvanceState) (at : ℕ)
    → transition a to at ≡ ok b
    → is_exposed b
      ≡ (if is_sponsored (advance_kind a) then state_eq to locking else not (is_terminal to))
transition-is_exposed a b to at e =
    let (edge, _, same) = (transition_iff a b to at).0 e in
    ap is_exposed same ∙ Edge-is_exposed a at edge

-- A quote whose window has passed can be expired at once.
pub is_expired-transition :
    (a : Advance) (now : ℕ)
    → is_expired a now ≡ true
    → transition a expired now ≡ ok (moved a expired now)
unfolding is_expired
is_expired-transition a now h =
    let quote : a.state ≡ quoted = (state_eq_iff a.state quoted).0 (ground arith) in
    (transition_iff a (moved a expired now) expired now).1
      (subst (λ s. Edge s expired) (sym quote) lapsed, tt, refl)
