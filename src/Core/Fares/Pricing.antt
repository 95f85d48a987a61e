-- ===== src/Core/Fares/Pricing.antt =====
-- What a resolved fare amounts to (`resolveFare`), and when an option can be charged at all.
use arkade_taxi.Prelude.{
  ◌≡◌, refl, ◌↔◌, ◌⊎◌, inl, inr, true, false, Option, none, some, ok, arith, ok-injective,
  >>=-eq-ok, >>-eq-ok, throw_if, throw_if-eq-ok, subst, sym, ◌∙◌, is_some, is_some-witness,
  Bool-cases,
}
use arkade_taxi.Prelude.Int.{ℤ, pos, negsuc, ◌*ℤ◌, ◌/ℤ◌, ◌≤ℤ◌, ltb_ℤ}
use arkade_taxi.Core.Fares.{
  FareCurrency, sats, same_asset, token, FarePricing, flat, proportional, FareOption, FareSpec,
  sats_fare, asset_fare, FareContext, is_blank, clamp_units, fare_base, price, fare_in,
  validate_pricing, validate_fare_option, resolve_fare, empty_id,
}

abbrev pub units_of : FareSpec → ℤ
units_of (sats_fare units) = units
units_of (asset_fare _ units) = units

abbrev pub BelowMax : Option ℤ → ℤ → Type 0
BelowMax none v = Unit
BelowMax (some m) v = v ≤ℤ m

-- The amounts that a pricing can come to.
abbrev pub Prices : FarePricing → ℤ → Type 0
Prices (flat units) v = (v ≡ units) × (pos 0 ≤ℤ v)
Prices (proportional bps lo hi) v = (pos 0 ≤ℤ v) × (lo ≤ℤ v) × BelowMax hi v

-- What an operator may offer: a proportional fare has a base, a rate of at most the whole, and bounds
-- in order.
abbrev pub IsSound : FareCurrency → FarePricing → Type 0
IsSound c (flat units) = pos 0 ≤ℤ units
IsSound (token _) (proportional bps lo hi) = ⊥
IsSound _ (proportional bps lo hi) =
    (pos 0 ≤ℤ bps) × (bps ≤ℤ pos 10000) × (pos 0 ≤ℤ lo) × BelowMax hi lo

-- What the transfer must bring for the currency to be charged.
abbrev pub Fits : FareCurrency → FarePricing → FareContext → Type 0
Fits sats p ctx = Unit
Fits (token _) p ctx = Unit
Fits same_asset (flat _) ctx = is_some ctx.asset_id ≡ true
Fits same_asset (proportional _ _ _) ctx =
    (is_some ctx.asset_id ≡ true) × (is_some ctx.asset_units ≡ true)

validate_pricing_iff :
    (c : FareCurrency) (p : FarePricing) → (validate_pricing c p ≡ ok tt) ↔ IsSound c p
unfolding validate_pricing
validate_pricing_iff sats (flat u) = ground arith
validate_pricing_iff sats (proportional bps lo none) = ground arith
validate_pricing_iff sats (proportional bps lo (some hi)) = ground arith
validate_pricing_iff same_asset (flat u) = ground arith
validate_pricing_iff same_asset (proportional bps lo none) = ground arith
validate_pricing_iff same_asset (proportional bps lo (some hi)) = ground arith
validate_pricing_iff (token a) (flat u) = ground arith
validate_pricing_iff (token a) (proportional bps lo hi) = ground arith

clamp_units-Prices :
    (bps raw lo : ℤ) (hi : Option ℤ)
    → pos 0 ≤ℤ lo
    → BelowMax hi lo
    → Prices (proportional bps lo hi) (clamp_units raw lo hi)
unfolding clamp_units
clamp_units-Prices bps raw lo none h k = ground arith
clamp_units-Prices bps raw lo (some m) h k = ground arith

fare_in-units :
    (c : FareCurrency) (ctx : FareContext) (v : ℤ) {spec : FareSpec}
    → fare_in c ctx v ≡ ok spec
    → units_of spec ≡ v
unfolding fare_in
fare_in-units sats ctx v h = ground arith
fare_in-units (token a) ctx v h = ground arith
fare_in-units same_asset ctx v h = ground arith

price_proportional :
    (c : FareCurrency) (bps lo : ℤ) (hi : Option ℤ) (ctx : FareContext) {v : ℤ}
    → price c (proportional bps lo hi) ctx ≡ ok v
    → (base : ℤ) × (fare_base c ctx ≡ ok base) × (clamp_units ((base *ℤ bps) /ℤ 10000) lo hi ≡ v)
unfolding price
price_proportional c bps lo hi ctx e =
    let (base, found, priced) = >>=-eq-ok (fare_base c ctx) _ e in
    (base, found, ok-injective priced)

price-Prices :
    (c : FareCurrency) (p : FarePricing) (ctx : FareContext) {v : ℤ}
    → IsSound c p
    → price c p ctx ≡ ok v
    → Prices p v
unfolding price
price-Prices c (flat units) ctx h e = ground arith
price-Prices (token a) (proportional bps lo hi) ctx h e = absurd h
price-Prices sats (proportional bps lo hi) ctx (_, _, h, k) e =
    let (base, _, clamped) = price_proportional sats bps lo hi ctx e in
    subst (Prices (proportional bps lo hi)) clamped
      (clamp_units-Prices bps ((base *ℤ bps) /ℤ 10000) lo hi h k)
price-Prices same_asset (proportional bps lo hi) ctx (_, _, h, k) e =
    let (base, _, clamped) = price_proportional same_asset bps lo hi ctx e in
    subst (Prices (proportional bps lo hi)) clamped
      (clamp_units-Prices bps ((base *ℤ bps) /ℤ 10000) lo hi h k)

-- What `resolveFare` does, step by step, when it returns.
resolve_fare-steps :
    (option : FareOption) (ctx : FareContext) {spec : FareSpec}
    → resolve_fare option ctx ≡ ok spec
    → (v : ℤ) × (is_blank option.id ≡ false)
      × IsSound option.currency option.pricing
      × (price option.currency option.pricing ctx ≡ ok v)
      × (fare_in option.currency ctx v ≡ ok spec)
unfolding resolve_fare validate_fare_option
resolve_fare-steps option ctx e =
    let (valid, rest) = >>-eq-ok (validate_fare_option option) _ e in
    let (named, sound) = >>-eq-ok (throw_if (is_blank option.id) empty_id) _ valid in
    let (v, priced, charged) = >>=-eq-ok (price option.currency option.pricing ctx) _ rest in
    (v, throw_if-eq-ok _ _ named, (validate_pricing_iff _ _).0 sound, priced, charged)

-- A resolved fare is never negative, and lies within the bounds of the option: a flat fare is the
-- stated number of units, a proportional one is at least the minimum and at most the maximum.
pub resolve_fare_bounds :
    (option : FareOption) (ctx : FareContext) {spec : FareSpec}
    → resolve_fare option ctx ≡ ok spec
    → Prices option.pricing (units_of spec)
resolve_fare_bounds option ctx e =
    let (v, _, sound, priced, charged) = resolve_fare-steps option ctx e in
    rw (fare_in-units option.currency ctx v charged)
      (price-Prices option.currency option.pricing ctx sound priced)

-- Truncating division never rounds a number that is not negative up.
rate_floor :
    (base bps : ℤ)
    → pos 0 ≤ℤ base
    → pos 0 ≤ℤ bps
    → ((base *ℤ bps) /ℤ 10000) *ℤ pos 10000 ≤ℤ base *ℤ bps
unfolding ◌*ℤ◌ ◌/ℤ◌
rate_floor (pos b) (pos r) h k = ground arith
rate_floor (pos b) (negsuc r) h k = ground arith
rate_floor (negsuc b) r h k = ground arith

times_mono : (a b : ℤ) → a ≤ℤ b → a *ℤ pos 10000 ≤ℤ b *ℤ pos 10000
unfolding ◌*ℤ◌
times_mono (pos a) (pos b) h = ground arith
times_mono (pos a) (negsuc b) h = absurd (omega arith)
times_mono (negsuc a) (pos b) h = ground arith
times_mono (negsuc a) (negsuc b) h = ground arith

clamp_units-rate :
    (raw lo : ℤ) (hi : Option ℤ)
    → BelowMax hi lo
    → (clamp_units raw lo hi ≡ lo) ⊎ (clamp_units raw lo hi ≤ℤ raw)
unfolding clamp_units
clamp_units-rate raw lo none h = elim (Bool-cases (ltb_ℤ raw lo)) [
  | inl low ↦ inl (rw low)
  | inr high ↦ inr (rw high (omega arith))
]
clamp_units-rate raw lo (some m) h = elim (Bool-cases (ltb_ℤ raw lo)) [
  | inl low ↦ inl (ground arith)
  | inr high ↦ inr (ground arith)
]

IsSound-proportional :
    (c : FareCurrency) (bps lo : ℤ) (hi : Option ℤ)
    → IsSound c (proportional bps lo hi)
    → (pos 0 ≤ℤ bps) × BelowMax hi lo
IsSound-proportional sats bps lo hi (h, _, _, k) = (h, k)
IsSound-proportional same_asset bps lo hi (h, _, _, k) = (h, k)
IsSound-proportional (token _) bps lo hi h = absurd h

-- Where the base is not negative, a proportional fare above its minimum charges no more than the
-- stated rate: ten thousand times the units is at most the base times the basis points.
pub resolve_fare_rate :
    (option : FareOption) (ctx : FareContext) (bps lo base : ℤ) (hi : Option ℤ) {spec : FareSpec}
    → resolve_fare option ctx ≡ ok spec
    → option.pricing ≡ proportional bps lo hi
    → fare_base option.currency ctx ≡ ok base
    → pos 0 ≤ℤ base
    → (units_of spec ≡ lo) ⊎ (units_of spec *ℤ pos 10000 ≤ℤ base *ℤ bps)
resolve_fare_rate option ctx bps lo base hi {spec} e rate found h =
    let (v, _, sound, priced, charged) = resolve_fare-steps option ctx e in
    let (base', found', clamped) =
      price_proportional option.currency bps lo hi ctx (rw rate at priced) in
    let (rate_ok, bounds) = IsSound-proportional option.currency bps lo hi (rw rate at sound) in
    let same : base' ≡ base = ok-injective (sym found' ∙ found) in
    let value : units_of spec ≡ clamp_units ((base *ℤ bps) /ℤ 10000) lo hi =
      fare_in-units option.currency ctx v charged ∙ rw (← clamped, same) in
    rw value (elim (clamp_units-rate ((base *ℤ bps) /ℤ 10000) lo hi bounds) [
      | inl minimum ↦ inl minimum
      | inr below ↦ inr (
          omega (
            arith,
            times_mono (clamp_units ((base *ℤ bps) /ℤ 10000) lo hi) ((base *ℤ bps) /ℤ 10000) below,
            rate_floor base bps h rate_ok,
          ))
    ])

fare_in_total :
    (c : FareCurrency) (p : FarePricing) (ctx : FareContext) (v : ℤ)
    → Fits c p ctx
    → (spec : FareSpec) × (fare_in c ctx v ≡ ok spec)
unfolding fare_in
fare_in_total sats p ctx v h = (sats_fare v, refl)
fare_in_total (token a) p ctx v h = (asset_fare a v, refl)
fare_in_total same_asset (flat u) ctx v h =
    let (a, found) = is_some-witness ctx.asset_id h in (asset_fare a v, rw found)
fare_in_total same_asset (proportional bps lo hi) ctx v (h, _) =
    let (a, found) = is_some-witness ctx.asset_id h in (asset_fare a v, rw found)

price_total :
    (c : FareCurrency) (p : FarePricing) (ctx : FareContext)
    → IsSound c p
    → Fits c p ctx
    → (v : ℤ) × (price c p ctx ≡ ok v)
unfolding price fare_base
price_total c (flat u) ctx h k = (u, refl)
price_total sats (proportional bps lo hi) ctx h k =
    (clamp_units ((ctx.topup_sats *ℤ bps) /ℤ 10000) lo hi, refl)
price_total (token a) (proportional bps lo hi) ctx h k = absurd h
price_total same_asset (proportional bps lo hi) ctx h (_, k) =
    let (units, found) = is_some-witness ctx.asset_units k in
    (clamp_units ((units *ℤ bps) /ℤ 10000) lo hi, rw found)

priced-Fits :
    (c : FareCurrency) (p : FarePricing) (ctx : FareContext) {v : ℤ} {spec : FareSpec}
    → price c p ctx ≡ ok v
    → fare_in c ctx v ≡ ok spec
    → Fits c p ctx
unfolding price fare_in
priced-Fits sats p ctx h k = tt
priced-Fits (token a) p ctx h k = tt
priced-Fits same_asset (flat u) ctx h k = ground arith
priced-Fits same_asset (proportional bps lo hi) ctx h k = ground arith

-- A fare can be resolved exactly when the option has an id that is not blank, is one that an operator
-- may offer, and the transfer brings what its currency needs; in every other case the call throws.
pub resolve_fare_iff :
    (option : FareOption) (ctx : FareContext)
    → ((spec : FareSpec) × (resolve_fare option ctx ≡ ok spec)) ↔ (
        (is_blank option.id ≡ false)
        × IsSound option.currency option.pricing
        × Fits option.currency option.pricing ctx)
unfolding resolve_fare validate_fare_option
resolve_fare_iff option ctx = (
  λ (spec, e).
      let (v, named, sound, priced, charged) = resolve_fare-steps option ctx e in
      (named, sound, priced-Fits option.currency option.pricing ctx priced charged),
  λ (named, sound, fits).
      let (v, priced) = price_total option.currency option.pricing ctx sound fits in
      let (spec, charged) = fare_in_total option.currency option.pricing ctx v fits in
      (spec, rw (named, (validate_pricing_iff _ _).1 sound, priced) charged),
)
