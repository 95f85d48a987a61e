-- ===== src/Core/Exposure/Totals.antt =====
-- The sums of `computeExposure`: what is lent, and on how many advances.
use arkade_taxi.Prelude.{
  ℕ, suc, ◌+◌, ◌≤◌, ◌≡◌, ap, sym, ◌∙◌, true, Option, List, [], ◌∷◌, ok, arith, inl, inr,
  if◌then◌else◌, Bool-cases,
}
use arkade_taxi.Prelude.Int.{ℤ, pos, ◌+ℤ◌, ◌≤ℤ◌, int_laws}
use arkade_taxi.Core.Types.{Advance, QuoteRequest, Policy, Terms}
use arkade_taxi.Core.Ledger.{is_exposed}
use arkade_taxi.Core.Exposure.{Tally, count_advance, tally_from, start, compute_exposure}
use arkade_taxi.Core.Admission.{LendingGate, admit}
use arkade_taxi.Core.Admission.Decision.{admit_iff}

-- The sats of the loans that are at risk, and their number.
abbrev pub total_topups : List Advance → ℤ
total_topups [] = pos 0
total_topups (a ∷ rest) = if is_exposed a then a.topup +ℤ total_topups rest else total_topups rest

abbrev pub exposed_count : List Advance → ℕ
exposed_count [] = 0
exposed_count (a ∷ rest) = if is_exposed a then suc (exposed_count rest) else exposed_count rest

count_advance-sums :
    (a : Advance) (t : Tally)
    → ((count_advance a t).sats ≡ (if is_exposed a then t.sats +ℤ a.topup else t.sats))
      × ((count_advance a t).count ≡ (if is_exposed a then t.count + 1 else t.count))
unfolding count_advance
count_advance-sums a t = ground arith

tally_from-sats :
    (as' : List Advance) (t : Tally) → (tally_from t as').sats ≡ t.sats +ℤ total_topups as'
unfolding tally_from
tally_from-sats [] t = omega int_laws
tally_from-sats (a ∷ rest) t = elim (Bool-cases (is_exposed a)) [
  | inl exposed ↦
      let counted : (count_advance a t).sats ≡ t.sats +ℤ a.topup =
        rw exposed at ((count_advance-sums a t).0) in
      tally_from-sats rest (count_advance a t)
      ∙ ap (λ s. s +ℤ total_topups rest) counted
      ∙ rw exposed (omega int_laws)
  | inr not_exposed ↦
      let counted : (count_advance a t).sats ≡ t.sats =
        rw not_exposed at ((count_advance-sums a t).0) in
      tally_from-sats rest (count_advance a t)
      ∙ ap (λ s. s +ℤ total_topups rest) counted
      ∙ rw not_exposed
]

tally_from-count :
    (as' : List Advance) (t : Tally) → (tally_from t as').count ≡ t.count + exposed_count as'
unfolding tally_from
tally_from-count [] t = omega arith
tally_from-count (a ∷ rest) t =
    ground (arith, tally_from-count rest (count_advance a t), count_advance-sums a t)

-- What is outstanding is the sum of the loans of exactly the advances at risk, and the count is their
-- number.
pub compute_exposure_sums :
    (advances : List Advance)
    → ((compute_exposure advances).outstanding_sats ≡ total_topups advances)
      × ((compute_exposure advances).locked_count ≡ exposed_count advances)
unfolding compute_exposure
compute_exposure_sums advances =
    (tally_from-sats advances start ∙ omega int_laws, tally_from-count advances start ∙ omega arith)

-- A quote admitted against the exposure of the open advances leaves room for its own: with an advance
-- of the admitted loan taken up among them, what is outstanding is still within the operator's cap
-- and the number at risk within its limit.
pub admit_keeps_caps :
    (req : QuoteRequest) (policy : Policy) (open_advances : List Advance) (dust vtxo_min_amount : ℤ)
    (lending : Option LendingGate) (t : Terms) (a : Advance)
    → admit req policy (compute_exposure open_advances) dust vtxo_min_amount lending ≡ ok t
    → is_exposed a ≡ true
    → a.topup ≡ t.topup
    → ((compute_exposure (a ∷ open_advances)).outstanding_sats ≤ℤ policy.max_outstanding_sats)
      × ((compute_exposure (a ∷ open_advances)).locked_count ≤ policy.max_concurrent_advances)
admit_keeps_caps req policy open_advances dust vtxo_min_amount lending t a e exposed lent =
    let (rule, fare, claim, v, same) =
      (admit_iff req policy (compute_exposure open_advances) dust vtxo_min_amount lending t).0 e in
    let (sats, count) = compute_exposure_sums open_advances in
    let (sats', count') = compute_exposure_sums (a ∷ open_advances) in
    let dust_lent : a.topup ≡ dust = lent ∙ ap (λ (u : Terms). u.topup) same in
    let outstanding : (compute_exposure (a ∷ open_advances)).outstanding_sats
        ≡ (compute_exposure open_advances).outstanding_sats +ℤ dust =
      sats' ∙ rw (exposed, dust_lent, sats) (omega int_laws) in
    let number : (compute_exposure (a ∷ open_advances)).locked_count
        ≡ suc ((compute_exposure open_advances).locked_count) =
      count' ∙ rw exposed (ap suc (sym count)) in
    (rw outstanding v.limited.outstanding, rw number v.limited.concurrent)
