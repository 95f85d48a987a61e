-- ===== src/Core/Exposure/Sweep.antt =====
-- What `sweepable` hands to the sweeper: which lockups, and in which order.
use mathlib.Core.List.{Perm}
use arkade_taxi.Prelude.{
  ◌≡◌, ◌≢◌, refl, sym, ◌∙◌, ◌⊎◌, inl, inr, false, Option, none, some, List, [], ◌∷◌, arith, All,
  filter, Option-cases, Bool-cases, text_lt, Text, ap, subst,
}
use arkade_taxi.Prelude.Int.{ℤ, ◌<ℤ◌, ltb_ℤ, eqb_ℤ, eqb_ℤ_sound, eqb_ℤ_refl}
use arkade_taxi.Core.Types.{DeadlineKind, height, time, ExpiryDeadline, Advance}
use arkade_taxi.Core.Exposure.{
  Sign, before, same, after, then_by, compare_due, sort_by, is_due, sweepable, recovery_kind,
  expiry_value, compare_kinds, compare_sats, compare_ids,
}
use arkade_taxi.Core.Exposure.Order.{compare_due-IsConsistent, opposite, ids_flip}
use arkade_taxi.Core.Exposure.Sorting.{IsOrdered, sort_by-perm, sort_by-IsOrdered}
use arkade_taxi.Core.Exposure.Due.{IsDue, is_due_iff}

-- The entries that are due are picked, each as often as it is listed, and the others are left out.
pub data Picks (h : ℤ) (m : Option ℤ) : List Advance → List Advance → Type 0 where
  nothing : Picks h m [] []
  picked :
      {a : Advance} {as' due : List Advance}
      → IsDue h m a
      → Picks h m as' due
      → Picks h m (a ∷ as') (a ∷ due)
  left :
      {a : Advance} {as' due : List Advance}
      → ¬ (IsDue h m a)
      → Picks h m as' due
      → Picks h m (a ∷ as') due

filter-Picks :
    (h : ℤ) (m : Option ℤ) (advances : List Advance)
    → Picks h m advances (filter (is_due h m) advances)
filter-Picks h m [] = nothing
filter-Picks h m (a ∷ rest) = elim (Bool-cases (is_due h m a)) [
  | inl due ↦ rw due (picked ((is_due_iff h m a).0 due) (filter-Picks h m rest))
  | inr early ↦
      rw early (left (λ d. cc (sym early ∙ (is_due_iff h m a).1 d)) (filter-Picks h m rest))
]

-- The domain of the deadline, where one is kept, and the value that the coins expire at.
abbrev pub deadline_domain : Option ExpiryDeadline → DeadlineKind
deadline_domain none = time
deadline_domain (some d) = d.kind

abbrev pub coins_expire : Option ExpiryDeadline → ℤ → ℤ
coins_expire none locktime = locktime
coins_expire (some e) locktime = e.value

-- Heights go before times; in one domain the earlier expiry goes first, then the lower locktime, then the
-- id that is not the greater one.
pub data GoesBefore (x y : Advance) : Type 0 where
  by_domain :
      deadline_domain x.funding.recovery_locktime ≡ height
      → deadline_domain y.funding.recovery_locktime ≡ time
      → GoesBefore x y
  by_expiry :
      deadline_domain x.funding.recovery_locktime ≡ deadline_domain y.funding.recovery_locktime
      → coins_expire x.funding.batch_expiry x.locktime
        <ℤ coins_expire y.funding.batch_expiry y.locktime
      → GoesBefore x y
  by_locktime :
      deadline_domain x.funding.recovery_locktime ≡ deadline_domain y.funding.recovery_locktime
      → coins_expire x.funding.batch_expiry x.locktime
        ≡ coins_expire y.funding.batch_expiry y.locktime
      → x.locktime <ℤ y.locktime
      → GoesBefore x y
  by_id :
      deadline_domain x.funding.recovery_locktime ≡ deadline_domain y.funding.recovery_locktime
      → coins_expire x.funding.batch_expiry x.locktime
        ≡ coins_expire y.funding.batch_expiry y.locktime
      → x.locktime ≡ y.locktime
      → text_lt y.id x.id ≡ false
      → GoesBefore x y

recovery_kind-domain : (a : Advance) → recovery_kind a ≡ deadline_domain a.funding.recovery_locktime
recovery_kind-domain a = elim (Option-cases a.funding.recovery_locktime) [
  | inl e ↦ rw e refl
  | inr (d, e) ↦ rw e refl
]

expiry_value-expire :
    (a : Advance) → expiry_value a ≡ coins_expire a.funding.batch_expiry a.locktime
expiry_value-expire a = elim (Option-cases a.funding.batch_expiry) [
  | inl e ↦ rw e refl
  | inr (d, e) ↦ rw e refl
]

kinds-order :
    (x y : DeadlineKind) → ((x ≡ height) × (y ≡ time)) ⊎ (x ≡ y) ⊎ (compare_kinds x y ≡ after)
kinds-order height height = inr (inl refl)
kinds-order height time = inl (refl, refl)
kinds-order time height = inr (inr refl)
kinds-order time time = inr (inl refl)

sats-order : (x y : ℤ) → (x <ℤ y) ⊎ (x ≡ y) ⊎ (compare_sats x y ≡ after)
sats-order x y = elim (Bool-cases (eqb_ℤ x y)) [
  | inl same_value ↦ inr (inl (eqb_ℤ_sound x y same_value))
  | inr apart ↦ elim (Bool-cases (ltb_ℤ x y)) [
    | inl less ↦ inl (ground arith)
    | inr more ↦ inr (inr (rw (apart, more) refl))
  ]
]

kinds-same : (x y : DeadlineKind) → x ≡ y → compare_kinds x y ≡ same
kinds-same x y e = ground arith

sats-same : (x y : ℤ) → x ≡ y → compare_sats x y ≡ same
sats-same x y e = rw e (rw (eqb_ℤ_refl y) refl)

stop : (a b : Sign) → a ≡ after → then_by a b ≢ after → ⊥
stop a b e h = h (rw e refl)

next_one : (a b : Sign) → a ≡ same → then_by a b ≢ after → b ≢ after
next_one a b e h k = h (rw e k)

ids-order : (x y : Text) → compare_ids x y ≢ after → text_lt y x ≡ false
ids-order x y h = elim (Bool-cases (text_lt y x)) [
  | inr e ↦ e
  | inl e ↦ elim (Bool-cases (text_lt x y)) [
    | inr f ↦ absurd (h (rw (f, e) refl))
    | inl f ↦
        let first : compare_ids x y ≡ before = rw f refl in
        let second : compare_ids y x ≡ before = rw e refl in
        absurd (not_both (sym second ∙ ids_flip x y ∙ ap opposite first))
  ]
]
  where
    not_both : Path Sign before after → ⊥
    not_both k = cc

not_after-GoesBefore : (x y : Advance) → compare_due x y ≢ after → GoesBefore x y
unfolding compare_due
not_after-GoesBefore x y h =
    let dom = recovery_kind-domain in
    let exp = expiry_value-expire in
    elim (kinds-order (recovery_kind x) (recovery_kind y)) [
      | inl (low, high) ↦ by_domain (sym (dom x) ∙ low) (sym (dom y) ∙ high)
      | inr (inr behind_it) ↦ absurd (stop _ _ behind_it h)
      | inr (inl domains) ↦
          let d = sym (dom x) ∙ domains ∙ dom y in
          let h1 = next_one _ _ (kinds-same _ _ domains) h in
          elim (sats-order (expiry_value x) (expiry_value y)) [
            | inl less ↦ by_expiry d (
                subst (λ v. v <ℤ coins_expire y.funding.batch_expiry y.locktime) (exp x)
                  (subst (λ v. expiry_value x <ℤ v) (exp y) less))
            | inr (inr behind_it) ↦ absurd (stop _ _ behind_it h1)
            | inr (inl expiries) ↦
                let e = sym (exp x) ∙ expiries ∙ exp y in
                let h2 = next_one _ _ (sats-same _ _ expiries) h1 in
                elim (sats-order x.locktime y.locktime) [
                  | inl less ↦ by_locktime d e less
                  | inr (inr behind_it) ↦ absurd (stop _ _ behind_it h2)
                  | inr (inl locktimes) ↦
                      by_id d e locktimes
                        (ids-order x.id y.id (next_one _ _ (sats-same _ _ locktimes) h2))
                ]
          ]
    ]

All-GoesBefore :
    (x : Advance) (ys : List Advance)
    → All (λ y. compare_due x y ≢ after) ys
    → All (GoesBefore x) ys
All-GoesBefore x [] h = tt
All-GoesBefore x (y ∷ ys) (first, h) = (not_after-GoesBefore x y first, All-GoesBefore x ys h)

-- Each entry goes before all later ones.
abbrev pub IsInOrder : List Advance → Type 0
IsInOrder [] = Unit
IsInOrder (x ∷ xs) = All (GoesBefore x) xs × IsInOrder xs

IsOrdered-IsInOrder : (xs : List Advance) → IsOrdered compare_due xs → IsInOrder xs
IsOrdered-IsInOrder [] h = tt
IsOrdered-IsInOrder (x ∷ xs) (first, h) = (All-GoesBefore x xs first, IsOrdered-IsInOrder xs h)

-- The sweeper is handed exactly the lockups that are due, each as often as it is listed, and in order:
-- deadlines by height go before those by time, then the coins that expire earlier, then the lower
-- locktime, then the smaller id. Due is a lockup that is locked, whose deadline is its locktime, in the
-- domain of its coins' expiry, and has been reached by the clock of that domain.
pub sweepable_lem :
    (advances : List Advance) (current_height : ℤ) (median_time : Option ℤ)
    → (due : List Advance) × Picks current_height median_time advances due
      × Perm (sweepable advances current_height median_time) due
      × IsInOrder (sweepable advances current_height median_time)
sweepable_lem advances current_height median_time =
    let due = filter (is_due current_height median_time) advances in
    unfold sweepable in
    (
      due,
      filter-Picks current_height median_time advances,
      sort_by-perm compare_due due,
      IsOrdered-IsInOrder (sort_by compare_due due)
          (sort_by-IsOrdered compare_due compare_due-IsConsistent due),
    )
