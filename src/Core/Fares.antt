-- ===== src/Core/Fares.antt =====
-- packages/core/src/fares.ts: fare options, their pricing, and the rule that governs a transfer.
-- `bigint` and the whole number `bps` are ℤ; a thrown `FareError` is a value of `FareError`.
pub mod Keys
pub mod Rules
pub mod Pricing
pub mod Claims
use arkade_taxi.Prelude.{
  ℕ, Bool, true, false, ◌&&◌, ◌||◌, Option, none, some, List, [], ◌∷◌, ◌++◌, Text, Bytes, Result,
  ok, err, ◌>>=◌, ◌>>◌, throw_if, if◌then◌else◌, ◌==◌, leb, find, all, text_eq,
}
use arkade_taxi.Prelude.Int.{ℤ, pos, ◌*ℤ◌, ◌/ℤ◌, ltb_ℤ}
use arkade_taxi.Prelude.Decimal.{to_decimal}
use arkade_taxi.Prelude.Hex.{concat_hex}

-- `AssetIdRef` of packages/covenant/src/params.ts.
pub record AssetIdRef : Type 0 where
  pub txid : Bytes
  pub group_index : ℕ

pub data FareCurrency : Type 0 where
  sats : FareCurrency
  same_asset : FareCurrency
  token : AssetIdRef → FareCurrency

pub data FarePricing : Type 0 where
  flat : ℤ → FarePricing
  -- `bps`, `minUnits`, `maxUnits`
  proportional : ℤ → ℤ → Option ℤ → FarePricing

pub record FareOption : Type 0 where
  pub id : Text
  pub currency : FareCurrency
  pub pricing : FarePricing

pub data FareSpec : Type 0 where
  sats_fare : ℤ → FareSpec
  asset_fare : AssetIdRef → ℤ → FareSpec

pub data ClaimMode : Type 0 where
  recycle purchase either : ClaimMode

pub data ResolvedClaimMode : Type 0 where
  to_recycle to_purchase : ResolvedClaimMode

-- What a caller may hand in where the type says `ResolvedClaimMode`: the wire codec refuses the
-- third, and a path that skips it does not.
pub data RequestedMode : Type 0 where
  mode : ResolvedClaimMode → RequestedMode
  unknown_mode : Text → RequestedMode

pub data ClaimReason : Type 0 where
  unknown_claim_mode claim_mode_not_allowed : ClaimReason

-- `requested ?? (permitted === "either" ? "recycle" : permitted)`
abbrev resolved_mode : ClaimMode → Option ResolvedClaimMode → ResolvedClaimMode
resolved_mode permitted (some requested) = requested
resolved_mode recycle none = to_recycle
resolved_mode purchase none = to_purchase
resolved_mode either none = to_recycle

-- `permitted !== "either" && resolved !== permitted`
abbrev not_permitted : ClaimMode → ResolvedClaimMode → Bool
not_permitted either _ = false
not_permitted recycle to_recycle = false
not_permitted recycle to_purchase = true
not_permitted purchase to_recycle = true
not_permitted purchase to_purchase = false

abbrev allow_mode : ClaimMode → ResolvedClaimMode → Result ClaimReason ResolvedClaimMode
allow_mode permitted resolved =
    if not_permitted permitted resolved then err claim_mode_not_allowed else ok resolved

unfoldable pub resolve_claim_mode :
    ClaimMode → Option RequestedMode → Result ClaimReason ResolvedClaimMode
resolve_claim_mode permitted (some (unknown_mode _)) = err unknown_claim_mode
resolve_claim_mode permitted (some (mode requested)) =
    allow_mode permitted (resolved_mode permitted (some requested))
resolve_claim_mode permitted none = allow_mode permitted (resolved_mode permitted none)

-- The `assetId` of a rule: `null`, an asset, or `"*"`.
pub data RuleAsset : Type 0 where
  bitcoin : RuleAsset
  asset : AssetIdRef → RuleAsset
  any_asset : RuleAsset

pub record AssetRule : Type 0 where
  pub asset_id : RuleAsset
  pub enabled : Bool
  pub fares : List FareOption
  pub claim : ClaimMode
  pub max_topup_sats : Option ℤ

-- `${hex of the txid}:${groupIndex}`
unfoldable pub asset_id_key : AssetIdRef → Text
asset_id_key id = concat_hex id.txid ++ b':' ∷ to_decimal id.group_index

unfoldable pub same_asset_id : AssetIdRef → AssetIdRef → Bool
same_asset_id a b = text_eq (asset_id_key a) (asset_id_key b)

abbrev pub is_bitcoin_rule : AssetRule → Bool
is_bitcoin_rule r = elim r.asset_id [ bitcoin ↦ true | asset _ ↦ false | any_asset ↦ false ]

abbrev pub is_any_rule : AssetRule → Bool
is_any_rule r = elim r.asset_id [ bitcoin ↦ false | asset _ ↦ false | any_asset ↦ true ]

abbrev pub is_rule_of : AssetIdRef → AssetRule → Bool
is_rule_of id r = elim r.asset_id [
  | bitcoin ↦ false
  | asset a ↦ same_asset_id a id
  | any_asset ↦ false
]

-- `a ?? b` on two lookups
abbrev or_else : Option AssetRule → Option AssetRule → Option AssetRule
or_else (some r) _ = some r
or_else none other = other

unfoldable pub rule_for : List AssetRule → Option AssetIdRef → Option AssetRule
rule_for rules none = find is_bitcoin_rule rules
rule_for rules (some id) = or_else (find (is_rule_of id) rules) (find is_any_rule rules)

-- The messages of `FareError`, by what they say.
pub data FareError : Type 0 where
  empty_id negative_flat token_not_flat bad_bps negative_min max_below_min : FareError
  no_asset_to_price token_never_proportional no_asset_to_charge : FareError
  no_fare_offered unknown_fare : FareError

-- White space and line ends, as `trim` removes them.
is_space : ℕ → Bool
is_space c =
    (leb 9 c && leb c 13)
    || c == 32
    || c == 160
    || c == 5760
    || (leb 8192 c && leb c 8202)
    || c == 8232
    || c == 8233
    || c == 8239
    || c == 8287
    || c == 12288
    || c == 65279

-- `s.trim() === ""`
unfoldable pub is_blank : Text → Bool
unfolding is_space
is_blank s = all is_space s

abbrev is_token : FareCurrency → Bool
is_token sats = false
is_token same_asset = false
is_token (token _) = true

-- `maxUnits !== null && maxUnits < minUnits`
abbrev max_below : Option ℤ → ℤ → Bool
max_below none min_units = false
max_below (some max_units) min_units = ltb_ℤ max_units min_units

validate_pricing : FareCurrency → FarePricing → Result FareError (Unit {0})
validate_pricing currency (flat units) = throw_if (ltb_ℤ units (pos 0)) negative_flat
validate_pricing currency (proportional bps min_units max_units) = do
  throw_if (is_token currency) token_not_flat
  throw_if (ltb_ℤ bps (pos 0) || ltb_ℤ (pos 10000) bps) bad_bps
  throw_if (ltb_ℤ min_units (pos 0)) negative_min
  throw_if (max_below max_units min_units) max_below_min

unfoldable pub validate_fare_option : FareOption → Result FareError (Unit {0})
unfolding validate_pricing
validate_fare_option option = do
  throw_if (is_blank option.id) empty_id
  validate_pricing option.currency option.pricing

pub record FareContext : Type 0 where
  pub topup_sats : ℤ
  pub asset_units : Option ℤ
  pub asset_id : Option AssetIdRef

unfoldable pub fare_base : FareCurrency → FareContext → Result FareError ℤ
fare_base sats ctx = ok ctx.topup_sats
fare_base same_asset ctx = elim ctx.asset_units [ none ↦ err no_asset_to_price | some u ↦ ok u ]
fare_base (token _) ctx = err token_never_proportional

-- The share of `base` at `bps`, rounded down, raised to `minUnits`, then lowered to `maxUnits`.
unfoldable pub clamp_units : ℤ → ℤ → Option ℤ → ℤ
clamp_units raw min_units max_units =
    let floored = if ltb_ℤ raw min_units then min_units else raw in
    elim max_units [ none ↦ floored | some m ↦ if ltb_ℤ m floored then m else floored ]

unfoldable pub price : FareCurrency → FarePricing → FareContext → Result FareError ℤ
unfolding clamp_units fare_base
price currency (flat units) ctx = ok units
price currency (proportional bps min_units max_units) ctx = do
  base ← fare_base currency ctx
  ok (clamp_units ((base *ℤ bps) /ℤ 10000) min_units max_units)

unfoldable pub fare_in : FareCurrency → FareContext → ℤ → Result FareError FareSpec
fare_in sats ctx units = ok (sats_fare units)
fare_in (token id) ctx units = ok (asset_fare id units)
fare_in same_asset ctx units = elim ctx.asset_id [
  | none ↦ err no_asset_to_charge
  | some id ↦ ok (asset_fare id units)
]

unfoldable pub resolve_fare : FareOption → FareContext → Result FareError FareSpec
unfolding validate_fare_option price fare_in
resolve_fare option ctx = do
  validate_fare_option option
  units ← price option.currency option.pricing ctx
  fare_in option.currency ctx units

abbrev has_id : Text → FareOption → Bool
has_id id f = text_eq f.id id

select_from : List FareOption → Option Text → Result FareError FareOption
select_from [] _ = err no_fare_offered
select_from (f ∷ _) none = ok f
select_from (f ∷ fs) (some id) = elim (find (has_id id) (f ∷ fs)) [
  | none ↦ err unknown_fare
  | some chosen ↦ ok chosen
]

unfoldable pub select_fare : AssetRule → Option Text → Result FareError FareOption
unfolding select_from
select_fare rule requested_id = select_from rule.fares requested_id

unfoldable pub fare_needs_sender_sats : FareSpec → Bool
fare_needs_sender_sats (sats_fare _) = true
fare_needs_sender_sats (asset_fare _ _) = false
