-- ===== src/Core/Tests/Quotes.antt =====
-- packages/core/src/fares.ts and admission.ts: the theorems at sample rules and quotes.
use arkade_taxi.Prelude.{◌≡◌, ◌≤◌, ◌⊎◌, refl, false, none, some, [], ◌∷◌, ok, arith}
use arkade_taxi.Prelude.Int.{pos, ◌≤ℤ◌, ◌*ℤ◌, ◌/ℤ◌, ◌+ℤ◌, ◌-ℤ◌}
use arkade_taxi.Prelude.Decimal.{to_decimal}
use arkade_taxi.Core.Fares.{
  same_asset_id, asset_id_key, rule_for, select_fare, resolve_fare, FareContext, asset_fare,
  sats_fare, validate_fare_option, price, fare_in, fare_base, clamp_units, is_blank,
  resolve_claim_mode, to_recycle,
}
use arkade_taxi.Core.Fares.Rules.{Listed, Governs, rule_for_sound}
use arkade_taxi.Core.Fares.Pricing.{
  IsSound, Fits, Prices, resolve_fare_iff, resolve_fare_bounds, resolve_fare_rate,
}
use arkade_taxi.Core.Types.{Policy, QuoteRequest, Terms, locking, locked}
use arkade_taxi.Core.Ledger.{is_exposed, advance_kind}
use arkade_taxi.Core.Exposure.{compute_exposure, tally_from, count_advance, is_locked}
use arkade_taxi.Core.Exposure.Totals.{admit_keeps_caps}
use arkade_taxi.Core.Admission.{
  admit, admit_priced, check_request, check_limits, bad_payment, quoted_fare, cap_warning,
  lending_warning,
}
use arkade_taxi.Core.Admission.Decision.{IsAdmitted, admit_iff}
use arkade_taxi.Core.Tests.{advance, token_a, rules, token_rule, rate_fare}

finds : rule_for rules (some token_a) ≡ some token_rule
unfolding rule_for same_asset_id asset_id_key to_decimal
finds = refl

rule_for_sound_example : Listed token_rule rules × Governs rules (some token_a) token_rule
rule_for_sound_example =
    rule_for_sound rules (tt, (tt, ((refl, (refl, tt)), tt))) (some token_a) token_rule
      (refl, (refl, tt)) finds

-- A transfer of 1234 units.
abbrev transfer : FareContext
transfer = record { topup_sats = pos 330; asset_units = some (pos 1234); asset_id = some token_a }

resolves : resolve_fare rate_fare transfer ≡ ok (asset_fare token_a (pos 12))
unfolding resolve_fare validate_fare_option price fare_in fare_base clamp_units is_blank ◌*ℤ◌ ◌/ℤ◌
resolves = refl

resolve_fare_iff_example :
    (is_blank rate_fare.id ≡ false)
    × IsSound rate_fare.currency rate_fare.pricing
    × Fits rate_fare.currency rate_fare.pricing transfer
resolve_fare_iff_example =
    (resolve_fare_iff rate_fare transfer).0 (asset_fare token_a (pos 12), resolves)

resolve_fare_bounds_example : Prices rate_fare.pricing (pos 12)
resolve_fare_bounds_example = resolve_fare_bounds rate_fare transfer resolves

resolve_fare_rate_example : (pos 12 ≡ pos 1) ⊎ (pos 12 *ℤ pos 10000 ≤ℤ pos 1234 *ℤ pos 100)
unfolding fare_base
resolve_fare_rate_example =
    resolve_fare_rate rate_fare transfer (pos 100) (pos 1) (pos 1234) (some (pos 50)) resolves refl
      refl (omega arith)

abbrev policy : Policy
policy = record {
  paused = false;
  max_outstanding_sats = pos 1000;
  max_per_payment_topup_sats = pos 330;
  max_concurrent_advances = 3;
  locktime_margin_blocks = 6;
  locktime_margin_seconds = 600;
  asset_rules = rules;
  quote_ttl_seconds = 60;
}

-- 100 sats ride beside the dust unit.
abbrev request : QuoteRequest
request = record {
  receiver_key = 1 ∷ [];
  sender_key = 2 ∷ [];
  asset_id = none;
  claim_mode = none;
  sender_sats = pos 200;
  payment_sats = some (pos 100);
  asset_units = none;
  fare_id = none;
}

abbrev terms : Terms
terms = record {
  topup = pos 330;
  payment_sats = some (pos 100);
  fare = sats_fare (pos 10);
  claim = to_recycle;
  warnings = [];
}

admits :
    admit request policy (compute_exposure (advance locked ∷ [])) (pos 330) (pos 1) none ≡ ok terms
unfolding admit admit_priced check_request check_limits bad_payment quoted_fare cap_warning
    lending_warning rule_for select_fare resolve_fare validate_fare_option price fare_in fare_base
    is_blank resolve_claim_mode compute_exposure tally_from count_advance is_exposed advance_kind
    is_locked ◌+ℤ◌ ◌-ℤ◌ ◌*ℤ◌
admits = refl

admit_iff_example :
    IsAdmitted request policy (compute_exposure (advance locked ∷ [])) (pos 330) (pos 1) none terms
admit_iff_example =
    (admit_iff request policy (compute_exposure (advance locked ∷ [])) (pos 330) (pos 1) none
        terms).0
      admits

admit_keeps_caps_example :
    ((compute_exposure (advance locking ∷ advance locked ∷ [])).outstanding_sats ≤ℤ pos 1000)
    × ((compute_exposure (advance locking ∷ advance locked ∷ [])).locked_count ≤ 3)
unfolding is_exposed advance_kind
admit_keeps_caps_example =
    admit_keeps_caps request policy (advance locked ∷ []) (pos 330) (pos 1) none terms
      (advance locking) admits refl refl
