-- ===== src/Core/Admission/Decision.antt =====
-- When `admit` admits a quote, and what the terms then are.
use arkade_taxi.Prelude.{
  ◌≡◌, sym, ap, ◌∙◌, ◌↔◌, ◌⊎◌, inl, inr, true, false, Option, none, some, ◌++◌, ok, arith, ◌>>◌,
  throw_if, throw_if-eq-ok, >>-eq-ok, >>=-eq-ok, ok-injective, Result-cases, if◌then◌else◌,
}
use arkade_taxi.Prelude.Int.{ℤ, pos, ltb_ℤ}
use arkade_taxi.Core.Fares.{AssetRule, FareSpec, ResolvedClaimMode, rule_for, resolve_claim_mode}
use arkade_taxi.Core.Types.{Policy, Exposure, QuoteRequest, Terms}
use arkade_taxi.Core.Admission.{
  LendingGate, Reason, paused, custody_shortfall, asset_not_served, has_shortfall, or_refuse,
  payment_of, check_request, admit_priced, quoted_fare, cap_warning, lending_warning, admit,
}
use arkade_taxi.Core.Admission.Limits.{
  IsWithinLimits, IsPayable, check_limits_sound, check_limits_complete, bad_payment_iff,
}

module _ (req : QuoteRequest) (policy : Policy) (exposure : Exposure) (dust vtxo_min_amount : ℤ)
    (lending : Option LendingGate) where
  -- All that an admitted quote rests on.
  pub record IsAdmissible (rule : AssetRule) (fare : FareSpec) (claim : ResolvedClaimMode)
      : Type 0 where
    pub running : policy.paused ≡ false
    pub solvent : has_shortfall lending ≡ false
    pub governed : rule_for policy.asset_rules req.asset_id ≡ some rule
    pub enabled : rule.enabled ≡ true
    pub bitcoin_only : (req.asset_id ≡ none) ⊎ (req.payment_sats ≡ none)
    pub payable : IsPayable req (payment_of req) dust vtxo_min_amount
    pub limited : IsWithinLimits rule policy exposure dust vtxo_min_amount
    pub priced : quoted_fare rule req dust ≡ ok fare
    pub permitted : resolve_claim_mode rule.claim req.claim_mode ≡ ok claim

  -- The terms of an admitted quote: one whole dust unit is lent, and a payment rides beside it.
  abbrev pub terms_of : FareSpec → ResolvedClaimMode → Terms
  terms_of fare claim = record {
    topup = dust;
    payment_sats = if ltb_ℤ (pos 0) (payment_of req) then some (payment_of req) else none;
    fare = fare;
    claim = claim;
    warnings = cap_warning policy exposure dust ++ lending_warning lending dust claim;
  }

  or_refuse-eq-ok :
      (o : Option AssetRule) (reason : Reason) {r : AssetRule}
      → or_refuse o reason ≡ ok r
      → o ≡ some r
  or_refuse-eq-ok none reason h = cc
  or_refuse-eq-ok (some r) reason h = cc

  check_request_iff :
      (rule : AssetRule)
      → (check_request req policy exposure dust vtxo_min_amount rule ≡ ok tt) ↔ (
          (rule.enabled ≡ true)
          × ((req.asset_id ≡ none) ⊎ (req.payment_sats ≡ none))
          × IsPayable req (payment_of req) dust vtxo_min_amount
          × IsWithinLimits rule policy exposure dust vtxo_min_amount)
  unfolding check_request
  check_request_iff rule =
      let (payable, payable') = bad_payment_iff req (payment_of req) dust vtxo_min_amount in
      (
        λ h. (
          ground arith,
          ground arith,
          payable (ground arith),
          check_limits_sound rule policy exposure dust vtxo_min_amount (ground arith),
        ),
        λ (enabled, bitcoin_only, ok_payment, limited). ground (
          arith,
          payable' ok_payment,
          enabled,
          bitcoin_only,
          check_limits_complete rule policy exposure dust vtxo_min_amount limited,
        ),
      )

  admit_priced_sound :
      (rule : AssetRule) {t : Terms}
      → admit_priced req policy exposure dust lending rule ≡ ok t
      → (fare : FareSpec) × (claim : ResolvedClaimMode) × (quoted_fare rule req dust ≡ ok fare)
        × (resolve_claim_mode rule.claim req.claim_mode ≡ ok claim)
        × (t ≡ terms_of fare claim)
  unfolding admit_priced
  admit_priced_sound rule h = elim (Result-cases (quoted_fare rule req dust)) [
    | inr (e, failed) ↦ cc (rw failed at h)
    | inl (fare, priced) ↦ elim (Result-cases (resolve_claim_mode rule.claim req.claim_mode)) [
      | inr (e, failed) ↦ cc (rw (priced, failed) at h)
      | inl (claim, permitted) ↦
          (fare, claim, priced, permitted, sym (ok-injective (rw (priced, permitted) at h)))
    ]
  ]

  -- The terms rest on a rule, a fare of it and a claim mode.
  abbrev pub IsAdmitted : Terms → Type 0
  IsAdmitted t =
      (rule : AssetRule) × (fare : FareSpec) × (claim : ResolvedClaimMode) × IsAdmissible rule fare
        claim
      × (t ≡ terms_of fare claim)

  admit_under_sound :
      (rule : AssetRule) (t : Terms)
      → policy.paused ≡ false
      → has_shortfall lending ≡ false
      → rule_for policy.asset_rules req.asset_id ≡ some rule
      → (check_request req policy exposure dust vtxo_min_amount rule
          >> admit_priced req policy exposure dust lending rule)
        ≡ ok t
      → IsAdmitted t
  admit_under_sound rule t running solvent governed h =
      let (checked, rest) =
        >>-eq-ok (check_request req policy exposure dust vtxo_min_amount rule) _ h in
      let (enabled, bitcoin_only, payable, limited) = (check_request_iff rule).0 checked in
      let (fare, claim, priced, permitted, same) = admit_priced_sound rule rest in
      (
        rule,
        fare,
        claim,
        record {
          running = running;
          solvent = solvent;
          governed = governed;
          enabled = enabled;
          bitcoin_only = bitcoin_only;
          payable = payable;
          limited = limited;
          priced = priced;
          permitted = permitted;
        },
        same,
      )

  admit_sound :
      (t : Terms) → admit req policy exposure dust vtxo_min_amount lending ≡ ok t → IsAdmitted t
  unfolding admit
  admit_sound t h =
      let (running, h₁) = >>-eq-ok (throw_if policy.paused paused) _ h in
      let (solvent, h₂) = >>-eq-ok (throw_if (has_shortfall lending) custody_shortfall) _ h₁ in
      let (rule, governed, h₃) =
        >>=-eq-ok (or_refuse (rule_for policy.asset_rules req.asset_id) asset_not_served) _ h₂ in
      admit_under_sound rule t (throw_if-eq-ok _ _ running) (throw_if-eq-ok _ _ solvent)
        (or_refuse-eq-ok _ _ governed) h₃

  admit_priced_complete :
      (rule : AssetRule) (fare : FareSpec) (claim : ResolvedClaimMode)
      → IsAdmissible rule fare claim
      → admit_priced req policy exposure dust lending rule ≡ ok (terms_of fare claim)
  unfolding admit_priced
  admit_priced_complete rule fare claim v = rw (v.priced, v.permitted)

  admit_complete :
      (rule : AssetRule) (fare : FareSpec) (claim : ResolvedClaimMode)
      → IsAdmissible rule fare claim
      → admit req policy exposure dust vtxo_min_amount lending ≡ ok (terms_of fare claim)
  unfolding admit
  admit_complete rule fare claim v = simp (
    v.running,
    v.solvent,
    v.governed,
    (check_request_iff rule).1 (v.enabled, v.bitcoin_only, v.payable, v.limited),
    admit_priced_complete rule fare claim v,
  )

  -- A quote is admitted exactly when the operator is running and solvent, an enabled rule governs the
  -- transfer, only a bitcoin transfer asks for a payment, the payment and the loan are within their
  -- limits, the fare asked for has a price and the claim mode is permitted. The terms are then one
  -- dust unit lent, the payment beside it where it is positive, that fare, that mode and the
  -- warnings.
  pub admit_iff :
      (t : Terms) → (admit req policy exposure dust vtxo_min_amount lending ≡ ok t) ↔ IsAdmitted t
  admit_iff t = (
    admit_sound t,
    λ (rule, fare, claim, v, same). admit_complete rule fare claim v ∙ ap ok (sym same),
  )
