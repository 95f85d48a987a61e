-- ===== src/Core/Exposure.antt =====
-- packages/core/src/exposure.ts: what is at risk now, and which lockups can be swept.
pub mod Totals
pub mod Oldest
pub mod Order
pub mod Sorting
pub mod Due
pub mod Sweep
use arkade_taxi.Prelude.{
  ℕ, ◌+◌, Bool, false, not, ◌&&◌, Option, none, some, List, [], ◌∷◌, Text, if◌then◌else◌, ltb, any,
  length, filter, text_lt,
}
use arkade_taxi.Prelude.Int.{ℤ, pos, ◌+ℤ◌, ltb_ℤ, leb_ℤ, eqb_ℤ}
use arkade_taxi.Core.Types.{
  locked, state_eq, DeadlineKind, height, time, kind_eq, ExpiryDeadline, Advance, Exposure,
}
use arkade_taxi.Core.Ledger.{is_exposed}

unfoldable pub is_locked : Advance → Bool
is_locked a = state_eq a.state locked

-- `d?.kind ?? e?.kind ?? "time"`
abbrev pub kind_or : Option ExpiryDeadline → DeadlineKind → DeadlineKind
kind_or none k = k
kind_or (some d) k = d.kind

-- The domain that a locked advance's locktime belongs to.
abbrev pub domain : Advance → DeadlineKind
domain a = kind_or a.funding.batch_expiry (kind_or a.funding.recovery_locktime time)

-- `Set.add`
abbrev pub add_kind : DeadlineKind → List DeadlineKind → List DeadlineKind
add_kind k ks = if any (kind_eq k) ks then ks else k ∷ ks

-- The variables of the loop.
pub record Tally : Type 0 where
  pub sats : ℤ
  pub count : ℕ
  pub oldest : Option ℤ
  pub kinds : List DeadlineKind

-- `oldest === null || locktime < oldest`, then the assignment
abbrev pub older : Option ℤ → ℤ → Option ℤ
older none locktime = some locktime
older (some m) locktime = if ltb_ℤ locktime m then some locktime else some m

-- The part of a round that looks at locktimes, with the kind already added.
abbrev pub note_locktime : Advance → Tally → Tally
note_locktime a t = record t {
  oldest = if ltb 1 (length t.kinds) then none else older t.oldest a.locktime;
}

-- One round of the loop.
unfoldable pub count_advance : Advance → Tally → Tally
unfolding is_locked
count_advance a t =
    let counted = record t { sats = t.sats +ℤ a.topup; count = t.count + 1 } in
    if not (is_exposed a)
    then t
    else if not (is_locked a)
    then counted
    else note_locktime a (record counted { kinds = add_kind (domain a) t.kinds })

unfoldable pub tally_from : Tally → List Advance → Tally
tally_from t [] = t
tally_from t (a ∷ rest) = tally_from (count_advance a t) rest

abbrev pub start : Tally
start = record { sats = pos 0; count = 0; oldest = none; kinds = [] }

unfoldable pub compute_exposure : List Advance → Exposure
compute_exposure advances =
    let t = tally_from start advances in
    record { outstanding_sats = t.sats; locked_count = t.count; oldest_unswept_locktime = t.oldest }

-- `clock !== undefined && value <= clock`
abbrev pub has_passed : Option ℤ → ℤ → Bool
has_passed none value = false
has_passed (some clock) value = leb_ℤ value clock

-- The recovery deadline stands in the domain of the coins' expiry, or in time where none is kept.
abbrev pub in_domain : Option ExpiryDeadline → DeadlineKind → Bool
in_domain none k = kind_eq k time
in_domain (some e) k = kind_eq k e.kind

abbrev pub clock_of : DeadlineKind → ℤ → Option ℤ → Option ℤ
clock_of height current_height median_time = some current_height
clock_of time current_height median_time = median_time

-- The test that `filter` is given.
unfoldable pub is_due : ℤ → Option ℤ → Advance → Bool
unfolding is_locked
is_due current_height median_time a = elim a.funding.recovery_locktime [
  | none ↦ false
  | some recovery ↦
      is_locked a
      && in_domain a.funding.batch_expiry recovery.kind
      && eqb_ℤ recovery.value a.locktime
      && has_passed (clock_of recovery.kind current_height median_time) recovery.value
]

-- The sign that a comparator returns.
pub data Sign : Type 0 where
  before same after : Sign

-- `x.recoveryLocktime!.kind`: what `filter` has let through has one.
abbrev pub recovery_kind : Advance → DeadlineKind
recovery_kind a = kind_or a.funding.recovery_locktime time

-- `x.batchExpiry?.value ?? x.locktime`
abbrev pub expiry_value : Advance → ℤ
expiry_value a = elim a.funding.batch_expiry [ none ↦ a.locktime | some e ↦ e.value ]

abbrev pub compare_kinds : DeadlineKind → DeadlineKind → Sign
compare_kinds height height = same
compare_kinds height time = before
compare_kinds time height = after
compare_kinds time time = same

-- `if (x !== y) return x < y ? -1 : 1`
abbrev pub compare_sats : ℤ → ℤ → Sign
compare_sats x y = if eqb_ℤ x y then same else if ltb_ℤ x y then before else after

-- `x < y ? -1 : x > y ? 1 : 0`
abbrev pub compare_ids : Text → Text → Sign
compare_ids x y = if text_lt x y then before else if text_lt y x then after else same

-- The second comparison where the first says nothing.
abbrev pub then_by : Sign → Sign → Sign
then_by before s = before
then_by same s = s
then_by after s = after

-- The comparator that `sort` is given.
unfoldable pub compare_due : Advance → Advance → Sign
compare_due x y = then_by (compare_kinds (recovery_kind x) (recovery_kind y)) (
    then_by (compare_sats (expiry_value x) (expiry_value y))
      (then_by (compare_sats x.locktime y.locktime) (compare_ids x.id y.id)))

module _ {ℓ} {A : Type ℓ} (cmp : A → A → Sign) where
  -- `Array.prototype.sort` is stable: an entry goes in front of those that it does not come after.
  unfoldable pub insert_by : A → List A → List A
  insert_by x [] = x ∷ []
  insert_by x (y ∷ ys) = elim (cmp x y) [
    | after ↦ y ∷ insert_by x ys
    | before ↦ x ∷ y ∷ ys
    | same ↦ x ∷ y ∷ ys
  ]

  unfoldable pub sort_by : List A → List A
  sort_by [] = []
  sort_by (x ∷ xs) = insert_by x (sort_by xs)

unfoldable pub sweepable : List Advance → ℤ → Option ℤ → List Advance
unfolding is_due compare_due sort_by insert_by
sweepable advances current_height median_time =
    sort_by compare_due (filter (is_due current_height median_time) advances)
