-- ===== src/Core/Admission/Limits.antt =====
-- What the checks of `admit` on amounts let through.
use arkade_taxi.Prelude.{
  ◌<◌, ◌≡◌, ◌↔◌, ◌⊎◌, inl, inr, false, none, ok, arith, get_or, Bool-cases, Option-cases,
}
use arkade_taxi.Prelude.Int.{ℤ, pos, ◌+ℤ◌, eqb_ℤ, eqb_ℤ_sound, ◌≤ℤ◌, ◌<ℤ◌}
use arkade_taxi.Core.Fares.{AssetRule}
use arkade_taxi.Core.Types.{Policy, Exposure, QuoteRequest}
use arkade_taxi.Core.Admission.{bad_payment, check_limits}

-- The limits on one more loan of `dust` sats under a rule.
pub record IsWithinLimits (rule : AssetRule) (policy : Policy) (exposure : Exposure)
    (dust vtxo_min_amount : ℤ) : Type 0 where
  pub per_payment : dust ≤ℤ get_or rule.max_topup_sats policy.max_per_payment_topup_sats
  pub outstanding : exposure.outstanding_sats +ℤ dust ≤ℤ policy.max_outstanding_sats
  pub concurrent : exposure.locked_count < policy.max_concurrent_advances
  pub exitable : vtxo_min_amount ≤ℤ dust

pub check_limits_sound :
    (rule : AssetRule) (policy : Policy) (exposure : Exposure) (dust vtxo_min_amount : ℤ)
    → check_limits rule policy exposure dust vtxo_min_amount ≡ ok tt
    → IsWithinLimits rule policy exposure dust vtxo_min_amount
unfolding check_limits
check_limits_sound rule policy exposure dust vtxo_min_amount h = ground arith

pub check_limits_complete :
    (rule : AssetRule) (policy : Policy) (exposure : Exposure) (dust vtxo_min_amount : ℤ)
    → IsWithinLimits rule policy exposure dust vtxo_min_amount
    → check_limits rule policy exposure dust vtxo_min_amount ≡ ok tt
unfolding check_limits
check_limits_complete rule policy exposure dust vtxo_min_amount v = ground arith

-- The sats that ride beside the loan: none asked for and none sent, or an amount that is large
-- enough to be a coin, too small to be one that could leave alone, and covered by the sender.
abbrev pub IsPayable : QuoteRequest → ℤ → ℤ → ℤ → Type 0
IsPayable req payment dust vtxo_min_amount =
    ((payment ≡ pos 0) × (req.payment_sats ≡ none))
    ⊎ ((vtxo_min_amount ≤ℤ payment) × (payment <ℤ dust) × (payment ≤ℤ req.sender_sats))

pub bad_payment_iff :
    (req : QuoteRequest) (payment dust vtxo_min_amount : ℤ)
    → (bad_payment req payment dust vtxo_min_amount ≡ false)
      ↔ IsPayable req payment dust vtxo_min_amount
unfolding bad_payment
bad_payment_iff req payment dust vtxo_min_amount = (
  λ h. elim (Bool-cases (eqb_ℤ payment (pos 0))) [
    | inl nothing ↦ elim (Option-cases req.payment_sats) [
      | inl omitted ↦ inl (eqb_ℤ_sound payment (pos 0) nothing, omitted)
      | inr (p, given) ↦ inr (ground arith)
    ]
    | inr something ↦ inr (ground arith)
  ],
  λ h. ground arith,
)
