-- ===== src/Core/Admission.antt =====
-- packages/core/src/admission.ts: whether a quote is admitted, and on what terms.
pub mod Limits
pub mod Decision
use arkade_taxi.Prelude.{
  Bool, true, false, not, ◌&&◌, ◌||◌, Option, none, some, List, [], ◌∷◌, ◌++◌, Result, ok, err,
  ◌>>=◌, ◌>>◌, throw_if, if◌then◌else◌, leb, get_or, is_some,
}
use arkade_taxi.Prelude.Int.{ℤ, pos, ◌+ℤ◌, ◌-ℤ◌, ◌*ℤ◌, ltb_ℤ, leb_ℤ, eqb_ℤ}
use arkade_taxi.Core.Fares.{
  AssetRule, FareSpec, FareError, ClaimReason, ResolvedClaimMode, to_recycle, to_purchase, rule_for,
  select_fare, resolve_fare, resolve_claim_mode,
}
use arkade_taxi.Core.Types.{
  Policy, Exposure, QuoteRequest, AdmissionWarning, custody_funds_lent,
  custody_funds_lent_unrecoverable, exposure_nearing_cap, Terms,
}
use arkade_taxi.Core.Solvency.{CustodySolvency}

pub record LendingGate : Type 0 where
  pub solvency : CustodySolvency
  pub unrecoverable : Bool

-- The reasons of a refusal.
pub data Reason : Type 0 where
  paused custody_shortfall asset_not_served asset_disabled invalid_payment_sats : Reason
  topup_exceeds_max_per_payment exceeds_max_outstanding max_concurrent_advances : Reason
  topup_outside_covenant_range fare_unavailable : Reason
  claim_refused : ClaimReason → Reason

-- `lending?.solvency.shortfall`
abbrev pub has_shortfall : Option LendingGate → Bool
has_shortfall none = false
has_shortfall (some lending) = lending.solvency.shortfall

abbrev pub or_refuse {ℓ} : {A : Type ℓ} → Option A → Reason → Result Reason A
or_refuse none reason = err reason
or_refuse (some a) reason = ok a

-- What rides beside the advance: the exact sats asked for or all of the sender's, and for an asset
-- nothing.
abbrev pub payment_of : QuoteRequest → ℤ
payment_of req = if is_some req.asset_id then pos 0 else get_or req.payment_sats req.sender_sats

unfoldable pub bad_payment : QuoteRequest → ℤ → ℤ → ℤ → Bool
bad_payment req payment dust vtxo_min_amount =
    (not (eqb_ℤ payment (pos 0)) || is_some req.payment_sats)
    && (ltb_ℤ payment vtxo_min_amount || leb_ℤ dust payment || ltb_ℤ req.sender_sats payment)

-- The four limits on what is lent.
unfoldable pub check_limits : AssetRule → Policy → Exposure → ℤ → ℤ → Result Reason (Unit {0})
check_limits rule policy exposure dust vtxo_min_amount = do
  throw_if (ltb_ℤ (get_or rule.max_topup_sats policy.max_per_payment_topup_sats) dust)
      topup_exceeds_max_per_payment
  throw_if (ltb_ℤ policy.max_outstanding_sats (exposure.outstanding_sats +ℤ dust))
      exceeds_max_outstanding
  throw_if (leb policy.max_concurrent_advances exposure.locked_count) max_concurrent_advances
  throw_if (ltb_ℤ dust vtxo_min_amount || ltb_ℤ dust dust) topup_outside_covenant_range

-- `catch (error) { if (error instanceof FareError) … }`: nothing else is thrown here.
abbrev pub or_unavailable : Result FareError FareSpec → Result Reason FareSpec
or_unavailable (ok fare) = ok fare
or_unavailable (err _) = err fare_unavailable

unfoldable pub quoted_fare : AssetRule → QuoteRequest → ℤ → Result FareError FareSpec
quoted_fare rule req topup = do
  option ← select_fare rule req.fare_id
  resolve_fare option
      (record { topup_sats = topup; asset_units = req.asset_units; asset_id = req.asset_id })

abbrev pub or_claim_refused : Result ClaimReason ResolvedClaimMode → Result Reason ResolvedClaimMode
or_claim_refused (ok claim) = ok claim
or_claim_refused (err reason) = err (claim_refused reason)

abbrev pub headroom : Policy → Exposure → ℤ → ℤ
headroom policy exposure topup = policy.max_outstanding_sats -ℤ (exposure.outstanding_sats +ℤ topup)

unfoldable pub cap_warning : Policy → Exposure → ℤ → List AdmissionWarning
cap_warning policy exposure topup =
    if ltb_ℤ (headroom policy exposure topup *ℤ pos 10) policy.max_outstanding_sats
    then exposure_nearing_cap (headroom policy exposure topup) ∷ []
    else []

abbrev pub is_purchase_claim : ResolvedClaimMode → Bool
is_purchase_claim to_recycle = false
is_purchase_claim to_purchase = true

unfoldable pub lending_warning : Option LendingGate → ℤ → ResolvedClaimMode → List AdmissionWarning
lending_warning none topup claim = []
lending_warning (some lending) topup claim =
    let coverage = lending.solvency.coverage_sats -ℤ topup in
    if ltb_ℤ coverage (pos 0)
    then (if lending.unrecoverable || is_purchase_claim claim
        then custody_funds_lent_unrecoverable coverage
        else custody_funds_lent coverage)
      ∷ []
    else []

-- From the fare on.
unfoldable pub admit_priced :
    QuoteRequest → Policy → Exposure → ℤ → Option LendingGate → AssetRule → Result Reason Terms
admit_priced req policy exposure dust lending rule = do
  fare ← or_unavailable (quoted_fare rule req dust)
  claim ← or_claim_refused (resolve_claim_mode rule.claim req.claim_mode)
  ok (record {
    topup = dust;
    payment_sats = if ltb_ℤ (pos 0) (payment_of req) then some (payment_of req) else none;
    fare = fare;
    claim = claim;
    warnings = cap_warning policy exposure dust ++ lending_warning lending dust claim;
  })

-- The checks under a rule that come before the fare.
unfoldable pub check_request :
    QuoteRequest → Policy → Exposure → ℤ → ℤ → AssetRule → Result Reason (Unit {0})
check_request req policy exposure dust vtxo_min_amount rule = do
  throw_if (not rule.enabled) asset_disabled
  throw_if (is_some req.asset_id && is_some req.payment_sats) invalid_payment_sats
  throw_if (bad_payment req (payment_of req) dust vtxo_min_amount) invalid_payment_sats
  check_limits rule policy exposure dust vtxo_min_amount

unfoldable pub admit :
    QuoteRequest → Policy → Exposure → ℤ → ℤ → Option LendingGate → Result Reason Terms
admit req policy exposure dust vtxo_min_amount lending = do
  throw_if policy.paused paused
  throw_if (has_shortfall lending) custody_shortfall
  rule ← or_refuse (rule_for policy.asset_rules req.asset_id) asset_not_served
  check_request req policy exposure dust vtxo_min_amount rule
  admit_priced req policy exposure dust lending rule
