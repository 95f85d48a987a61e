-- ===== src/Core/Exposure/Due.antt =====
-- packages/core/src/exposure.ts: which lockups `sweepable` lets through.
use arkade_taxi.Prelude.{
  ◌≡◌, refl, sym, ◌∙◌, ◌↔◌, inl, inr, true, false, Option, none, some, arith, Option-cases, ◌&&◌,
}
use arkade_taxi.Prelude.Int.{ℤ, ◌≤ℤ◌, eqb_ℤ, eqb_ℤ_sound, eqb_ℤ_refl}
use arkade_taxi.Core.Types.{
  locked, state_eq, state_eq_iff, DeadlineKind, height, time, kind_eq_iff, ExpiryDeadline, Advance,
}
use arkade_taxi.Core.Exposure.{is_due, has_passed, in_domain, clock_of}

-- The deadline stands in the domain of the coins' expiry, or in time where no expiry is kept.
abbrev pub InDomain : Option ExpiryDeadline → DeadlineKind → Type 0
InDomain none k = k ≡ time
InDomain (some e) k = k ≡ e.kind

-- The clock of the deadline's domain is known and has reached it.
abbrev pub HasPassed : DeadlineKind → ℤ → ℤ → Option ℤ → Type 0
HasPassed height v current_height median_time = v ≤ℤ current_height
HasPassed time v current_height median_time = (m : ℤ) × (median_time ≡ some m) × (v ≤ℤ m)

-- A lockup whose own deadline has passed on its own clock.
abbrev pub IsDue : ℤ → Option ℤ → Advance → Type 0
IsDue current_height median_time a =
    (d : ExpiryDeadline) × (a.funding.recovery_locktime ≡ some d)
    × (a.state ≡ locked)
    × InDomain a.funding.batch_expiry d.kind
    × (d.value ≡ a.locktime)
    × HasPassed d.kind d.value current_height median_time

in_domain_iff :
    (e : Option ExpiryDeadline) (k : DeadlineKind) → (in_domain e k ≡ true) ↔ InDomain e k
in_domain_iff none k = kind_eq_iff k time
in_domain_iff (some e) k = kind_eq_iff k e.kind

has_passed_iff :
    (k : DeadlineKind) (v current_height : ℤ) (median_time : Option ℤ)
    → (has_passed (clock_of k current_height median_time) v ≡ true)
      ↔ HasPassed k v current_height median_time
has_passed_iff height v h m = ground arith
has_passed_iff time v h none = (λ e. cc, λ (x, e, _). cc)
has_passed_iff time v h (some m) = (λ e. (m, refl, ground arith), λ (x, e, le). ground arith)

is_due-none :
    (h : ℤ) (m : Option ℤ) (a : Advance) → a.funding.recovery_locktime ≡ none → is_due h m a ≡ false
unfolding is_due
is_due-none h m a e = rw (e, is_due)

is_due-some :
    (h : ℤ) (m : Option ℤ) (a : Advance) (d : ExpiryDeadline)
    → a.funding.recovery_locktime ≡ some d
    → is_due h m a ≡ (
        state_eq a.state locked
        && in_domain a.funding.batch_expiry d.kind
        && eqb_ℤ d.value a.locktime
        && has_passed (clock_of d.kind h m) d.value)
unfolding is_due
is_due-some h m a d e = rw (e, is_due)

-- A lockup is due exactly when it is locked, its deadline is its locktime, stands in the domain of its
-- coins and has been reached by the clock of that domain. Without a median time none is due by time.
pub is_due_iff :
    (current_height : ℤ) (median_time : Option ℤ) (a : Advance)
    → (is_due current_height median_time a ≡ true) ↔ IsDue current_height median_time a
is_due_iff h m a = (
  λ t. elim (Option-cases a.funding.recovery_locktime) [
    | inl e ↦ cc (sym (is_due-none h m a e) ∙ t)
    | inr (d, e) ↦
        let s = sym (is_due-some h m a d e) ∙ t in
        (
          d,
          e,
          (state_eq_iff a.state locked).0 (ground arith),
          (in_domain_iff a.funding.batch_expiry d.kind).0 (ground arith),
          eqb_ℤ_sound d.value a.locktime (ground arith),
          (has_passed_iff d.kind d.value h m).0 (ground arith),
        )
  ],
  λ (d, e, is_locked, dom, value, passed).
      is_due-some h m a d e
      ∙ rw
          (
            (state_eq_iff a.state locked).1 is_locked,
            (in_domain_iff a.funding.batch_expiry d.kind).1 dom,
            (has_passed_iff d.kind d.value h m).1 passed,
          )
          (ground (arith, value, eqb_ℤ_refl a.locktime)),
)
