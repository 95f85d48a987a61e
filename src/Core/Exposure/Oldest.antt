-- ===== src/Core/Exposure/Oldest.antt =====
-- The earliest locktime of `computeExposure`, over the locked advances at risk.
use mathlib.Core.List.{List}
use arkade_taxi.Prelude.{
  ◌≡◌, ◌≢◌, refl, sym, ◌∙◌, ◌⊎◌, inl, inr, Bool, true, false, ◌&&◌, Option, none, some, [], ◌∷◌,
  arith, if◌then◌else◌, Bool-cases, All, length, filter, ltb,
}
use arkade_taxi.Prelude.Int.{ℤ, ◌≤ℤ◌, ltb_ℤ}
use arkade_taxi.Core.Types.{Advance, DeadlineKind, height, time, kind_eq, kind_eq_iff}
use arkade_taxi.Core.Ledger.{is_exposed}
use arkade_taxi.Core.Exposure.{
  Tally, is_locked, domain, add_kind, older, count_advance, tally_from, start, compute_exposure,
}

-- Some entry of a list.
abbrev pub Any : {A : Type 0} → (A → Type 0) → List A → Type 0
Any P [] = ⊥
Any P (x ∷ xs) = P x ⊎ Any P xs

-- The advances whose locktimes count.
abbrev pub is_waiting : Advance → Bool
is_waiting a = is_exposed a && is_locked a

-- What the earliest locktime says of those advances: there is one exactly when there are such
-- advances and all stand in one domain, and it is the least of theirs.
abbrev pub IsOldest : List Advance → Option ℤ → Type 0
IsOldest waiting none =
    (waiting ≡ []) ⊎ (Any (λ a. domain a ≡ height) waiting × Any (λ a. domain a ≡ time) waiting)
IsOldest waiting (some m) =
    ((k : DeadlineKind) × All (λ a. domain a ≡ k) waiting)
    × All (λ a. m ≤ℤ a.locktime) waiting
    × Any (λ a. a.locktime ≡ m) waiting

count_advance_skipped :
    (a : Advance) (t : Tally)
    → is_waiting a ≡ false
    → ((count_advance a t).oldest ≡ t.oldest) × ((count_advance a t).kinds ≡ t.kinds)
unfolding count_advance
count_advance_skipped a t h = ground arith

count_advance_noted :
    (a : Advance) (t : Tally)
    → is_waiting a ≡ true
    → ((count_advance a t).kinds ≡ add_kind (domain a) t.kinds)
      × ((count_advance a t).oldest ≡ (
          if ltb 1 (length (add_kind (domain a) t.kinds)) then none else older t.oldest a.locktime))
unfolding count_advance
count_advance_noted a t h = ground arith

-- Both domains have been met.
abbrev IsMixed : Tally → Type 0
IsMixed t = ((t.kinds ≡ height ∷ time ∷ []) ⊎ (t.kinds ≡ time ∷ height ∷ [])) × (t.oldest ≡ none)

add_kind_mixed :
    (k : DeadlineKind) (ks : List DeadlineKind)
    → (ks ≡ height ∷ time ∷ []) ⊎ (ks ≡ time ∷ height ∷ [])
    → (add_kind k ks ≡ ks) × (ltb 1 (length ks) ≡ true)
add_kind_mixed height ks (inl e) = rw e (refl, refl)
add_kind_mixed height ks (inr e) = rw e (refl, refl)
add_kind_mixed time ks (inl e) = rw e (refl, refl)
add_kind_mixed time ks (inr e) = rw e (refl, refl)

count_advance-IsMixed : (a : Advance) (t : Tally) → IsMixed t → IsMixed (count_advance a t)
count_advance-IsMixed a t (both, e) = elim (Bool-cases (is_waiting a)) [
  | inl noted ↦
      let (kinds, oldest) = count_advance_noted a t noted in
      let (same, two) = add_kind_mixed (domain a) t.kinds both in
      (rw (kinds, same) both, oldest ∙ rw (same, two))
  | inr skipped ↦
      let (oldest, kinds) = count_advance_skipped a t skipped in (rw kinds both, oldest ∙ e)
]

tally_from_mixed : (as' : List Advance) (t : Tally) → IsMixed t → (tally_from t as').oldest ≡ none
unfolding tally_from
tally_from_mixed [] t (_, e) = e
tally_from_mixed (a ∷ rest) t h =
    tally_from_mixed rest (count_advance a t) (count_advance-IsMixed a t h)

-- One domain has been met, and `m` is the least locktime so far.
abbrev IsUniform : DeadlineKind → ℤ → Tally → Type 0
IsUniform k m t = (t.kinds ≡ k ∷ []) × (t.oldest ≡ some m)

abbrev lesser : ℤ → ℤ → ℤ
lesser locktime m = if ltb_ℤ locktime m then locktime else m

count_advance_same :
    (a : Advance) (t : Tally) (k : DeadlineKind) (m : ℤ)
    → is_waiting a ≡ true
    → domain a ≡ k
    → IsUniform k m t
    → IsUniform k (lesser a.locktime m) (count_advance a t)
count_advance_same a t k m h d (e, o) =
    let (kinds, oldest) = count_advance_noted a t h in
    let one : add_kind (domain a) t.kinds ≡ k ∷ [] = rw (d, e) (add_kind_same k) in
    (kinds ∙ one, oldest ∙ rw (one, o) (older_lesser m a.locktime))
  where
    add_kind_same : (k : DeadlineKind) → add_kind k (k ∷ []) ≡ k ∷ []
    add_kind_same height = refl
    add_kind_same time = refl

    older_lesser : (m l : ℤ) → older (some m) l ≡ some (lesser l m)
    older_lesser m l = ground arith

count_advance_other :
    (a : Advance) (t : Tally) (k : DeadlineKind) (m : ℤ)
    → is_waiting a ≡ true
    → domain a ≢ k
    → IsUniform k m t
    → IsMixed (count_advance a t)
count_advance_other a t k m h d (e, o) =
    let (kinds, oldest) = count_advance_noted a t h in
    let (both, two) = add_kind_other (domain a) k d in (rw (kinds, e) both, oldest ∙ rw (e, two))
  where
    add_kind_other :
        (j k : DeadlineKind)
        → j ≢ k
        → ((add_kind j (k ∷ []) ≡ height ∷ time ∷ []) ⊎ (add_kind j (k ∷ []) ≡ time ∷ height ∷ []))
          × (ltb 1 (length (add_kind j (k ∷ []))) ≡ true)
    add_kind_other height height d = absurd (d refl)
    add_kind_other height time d = (inl refl, refl)
    add_kind_other time height d = (inr refl, refl)
    add_kind_other time time d = absurd (d refl)

-- What the rest of the loop makes of the least locktime so far.
abbrev Continues : DeadlineKind → ℤ → List Advance → Option ℤ → Type 0
Continues k m waiting none = Any (λ a. domain a ≢ k) waiting
Continues k m waiting (some r) =
    All (λ a. domain a ≡ k) waiting
    × (r ≤ℤ m)
    × All (λ a. r ≤ℤ a.locktime) waiting
    × ((r ≡ m) ⊎ Any (λ a. a.locktime ≡ r) waiting)

lesser_bounds : (l m : ℤ) → (lesser l m ≤ℤ m) × (lesser l m ≤ℤ l)
lesser_bounds l m = ground arith

lesser_cases : (l m : ℤ) → (lesser l m ≡ l) ⊎ (lesser l m ≡ m)
lesser_cases l m = elim (Bool-cases (ltb_ℤ l m)) [ inl e ↦ inl (rw e) | inr e ↦ inr (rw e) ]

Continues-cons :
    (k : DeadlineKind) (m : ℤ) (a : Advance) (waiting : List Advance) (r : Option ℤ)
    → domain a ≡ k
    → Continues k (lesser a.locktime m) waiting r
    → Continues k m (a ∷ waiting) r
Continues-cons k m a waiting none d h = inr h
Continues-cons k m a waiting (some r) d (same, le, below, least) =
    let (le_m, le_l) = lesser_bounds a.locktime m in
    (
      (d, same),
      omega arith,
      (omega arith, below),
      elim least [
        | inr listed ↦ inr (inr listed)
        | inl e ↦ elim (lesser_cases a.locktime m) [
          | inl first ↦ inr (inl (sym (e ∙ first)))
          | inr old ↦ inl (e ∙ old)
        ]
      ],
    )

tally_from_uniform :
    (as' : List Advance) (t : Tally) (k : DeadlineKind) (m : ℤ)
    → IsUniform k m t
    → Continues k m (filter is_waiting as') (tally_from t as').oldest
unfolding tally_from
tally_from_uniform [] t k m (_, e) = rw e (tt, omega arith, tt, inl refl)
tally_from_uniform (a ∷ rest) t k m h = elim (Bool-cases (is_waiting a)) [
  | inr skipped ↦
      let (oldest, kinds) = count_advance_skipped a t skipped in
      rw skipped (tally_from_uniform rest (count_advance a t) k m (kinds ∙ h.0, oldest ∙ h.1))
  | inl noted ↦ elim (Bool-cases (kind_eq (domain a) k)) [
    | inl same ↦
        let d = (kind_eq_iff (domain a) k).0 same in
        rw noted (
          Continues-cons k m a (filter is_waiting rest) _ d (
            tally_from_uniform rest (count_advance a t) k (lesser a.locktime m)
              (count_advance_same a t k m noted d h)))
    | inr different ↦
        let d : domain a ≢ k = λ e. cc ((kind_eq_iff (domain a) k).1 e) in
        rw
          (noted, tally_from_mixed rest (count_advance a t) (count_advance_other a t k m noted d h))
          (inl d)
  ]
]

Any-map :
    {A : Type 0} {P Q : A → Type 0} (f : (x : A) → P x → Q x) (xs : List A) → Any P xs → Any Q xs
Any-map f [] h = absurd h
Any-map f (x ∷ xs) (inl h) = inl (f x h)
Any-map f (x ∷ xs) (inr h) = inr (Any-map f xs h)

other_domain : (j : DeadlineKind) → j ≢ height → j ≡ time
other_domain height h = absurd (h refl)
other_domain time h = refl

other_domain' : (j : DeadlineKind) → j ≢ time → j ≡ height
other_domain' height h = refl
other_domain' time h = absurd (h refl)

IsOldest-cons :
    (k : DeadlineKind) (a : Advance) (waiting : List Advance) (r : Option ℤ)
    → domain a ≡ k
    → Continues k a.locktime waiting r
    → IsOldest (a ∷ waiting) r
IsOldest-cons k a waiting (some r) d (same, le, below, least) =
    ((k, (d, same)), (le, below), elim least [ inl e ↦ inl (sym e) | inr listed ↦ inr listed ])
IsOldest-cons height a waiting none d h =
    inr (inl d, inr (Any-map (λ b. other_domain (domain b)) waiting h))
IsOldest-cons time a waiting none d h =
    inr (inr (Any-map (λ b. other_domain' (domain b)) waiting h), inl d)

count_advance_first :
    (a : Advance) (t : Tally)
    → is_waiting a ≡ true
    → t.kinds ≡ []
    → t.oldest ≡ none
    → IsUniform (domain a) a.locktime (count_advance a t)
count_advance_first a t h e o =
    let (kinds, oldest) = count_advance_noted a t h in (kinds ∙ rw e, oldest ∙ rw (e, o))

tally_from-IsOldest :
    (as' : List Advance) (t : Tally)
    → t.kinds ≡ []
    → t.oldest ≡ none
    → IsOldest (filter is_waiting as') (tally_from t as').oldest
unfolding tally_from
tally_from-IsOldest [] t e o = rw o (inl refl)
tally_from-IsOldest (a ∷ rest) t e o = elim (Bool-cases (is_waiting a)) [
  | inr skipped ↦
      let (oldest, kinds) = count_advance_skipped a t skipped in
      rw skipped (tally_from-IsOldest rest (count_advance a t) (kinds ∙ e) (oldest ∙ o))
  | inl noted ↦ rw noted (
      IsOldest-cons (domain a) a (filter is_waiting rest) _ refl (
        tally_from_uniform rest (count_advance a t) (domain a) a.locktime
          (count_advance_first a t noted e o)))
]

-- The earliest locktime is the least of the locktimes of the locked advances at risk where there are
-- some and all stand in one domain; it is absent where there are none, or where a height and a time
-- stand among them, which cannot be compared.
pub compute_exposure-IsOldest :
    (advances : List Advance)
    → IsOldest (filter is_waiting advances) (compute_exposure advances).oldest_unswept_locktime
unfolding compute_exposure
compute_exposure-IsOldest advances = tally_from-IsOldest advances start refl refl
