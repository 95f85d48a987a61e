-- ===== src/Core/Solvency.antt =====
-- packages/core/src/solvency.ts: whether every custody liability can still be honoured.
pub mod Cover
use arkade_taxi.Prelude.{
  Bool, true, false, not, ◌||◌, Option, none, some, List, [], ◌∷◌, map, if◌then◌else◌, filter,
  get_or, length, ltb, Text, text_eq,
}
use arkade_taxi.Prelude.Int.{ℤ, pos, ◌+ℤ◌, ◌-ℤ◌, ltb_ℤ}
use arkade_taxi.Core.Fares.{AssetIdRef, asset_id_key, ResolvedClaimMode, to_recycle, to_purchase}
use arkade_taxi.Core.Types.{Advance}
use arkade_taxi.Core.Ledger.{is_exposed, is_sponsored, advance_kind}

pub record AssetAmount : Type 0 where
  pub asset_id : AssetIdRef
  pub units : ℤ

pub record CustodyOwed : Type 0 where
  pub owed_sats : ℤ
  pub assets : List AssetAmount

pub record CustodySolvency : Type 0 where
  pub coverage_sats : ℤ
  pub coverage_assets : List AssetAmount
  pub owed_sats : ℤ
  pub lendable_sats : ℤ
  pub receivable_sats : ℤ
  pub short_assets : List AssetIdRef
  pub shortfall : Bool

-- `claimMode === "purchase"`
abbrev pub is_purchase : Option ResolvedClaimMode → Bool
is_purchase none = false
is_purchase (some to_recycle) = false
is_purchase (some to_purchase) = true

-- What the loop skips.
unfoldable pub is_no_receivable : Advance → Bool
is_no_receivable a = not (is_exposed a) || is_sponsored (advance_kind a) || is_purchase a.claim_mode

unfoldable pub receivables_from : ℤ → List Advance → ℤ
receivables_from sats [] = sats
receivables_from sats (a ∷ rest) =
    receivables_from (if is_no_receivable a then sats else sats +ℤ a.topup) rest

unfoldable pub compute_receivables : List Advance → ℤ
unfolding receivables_from
compute_receivables advances = receivables_from (pos 0) advances

-- `new Map(entries)`, then `get`: of two entries with one key the later stands.
unfoldable pub held_units : List AssetAmount → Text → Option ℤ
held_units [] key = none
held_units (a ∷ rest) key = elim (held_units rest key) [
  | some units ↦ some units
  | none ↦ if text_eq (asset_id_key a.asset_id) key then some a.units else none
]

-- What is held of an owed asset, less what is owed.
unfoldable pub coverage_of : List AssetAmount → AssetAmount → AssetAmount
unfolding held_units
coverage_of held owed = record {
  asset_id = owed.asset_id;
  units = get_or (held_units held (asset_id_key owed.asset_id)) (pos 0) -ℤ owed.units;
}

abbrev pub is_short : AssetAmount → Bool
is_short a = ltb_ℤ a.units (pos 0)

unfoldable pub assess_solvency : CustodyOwed → ℤ → List AssetAmount → ℤ → CustodySolvency
unfolding coverage_of
assess_solvency owed lendable_sats held receivable_sats =
    let coverage_assets = map (coverage_of held) owed.assets in
    let short_assets = map (λ (a : AssetAmount). a.asset_id) (filter is_short coverage_assets) in
    record {
      coverage_sats = lendable_sats -ℤ owed.owed_sats;
      coverage_assets = coverage_assets;
      owed_sats = owed.owed_sats;
      lendable_sats = lendable_sats;
      receivable_sats = receivable_sats;
      short_assets = short_assets;
      shortfall =
          ltb 0 (length short_assets) || ltb_ℤ (lendable_sats +ℤ receivable_sats) owed.owed_sats;
    }
