-- ===== src/Core/Fares/Keys.antt =====
-- The key of an asset id (`assetIdKey`) and the comparison by it (`sameAsset`).
use arkade_taxi.Prelude.{
  ◌≡◌, refl, ap, sym, ◌∙◌, ◌↔◌, true, [], ◌∷◌, ◌++◌, Text, IsBytes, all, arith, text_eq_iff,
}
use arkade_taxi.Prelude.Decimal.{to_decimal-injective}
use arkade_taxi.Prelude.Hex.{
  is_hex, concat_hex, parse_pairs, parse_pairs-concat_hex, concat_hex-is_hex,
}
use arkade_taxi.Core.Fares.{AssetIdRef, asset_id_key, same_asset_id}

-- A colon is no hexadecimal digit, so it ends the first part.
split_at_colon :
    (s t u v : Text)
    → all is_hex s ≡ true
    → all is_hex t ≡ true
    → s ++ b':' ∷ u ≡ t ++ b':' ∷ v
    → (s ≡ t) × (u ≡ v)
split_at_colon [] [] u v h k e = (refl, cc)
split_at_colon [] (d ∷ t) u v h k e = ground arith
split_at_colon (c ∷ s) [] u v h k e = ground arith
split_at_colon (c ∷ s) (d ∷ t) u v h k e = ground (arith, split_at_colon s t u v)

module _ (a b : AssetIdRef) (ha : IsBytes a.txid) (hb : IsBytes b.txid) where
  pub asset_id_key-injective : asset_id_key a ≡ asset_id_key b → a ≡ b
  unfolding asset_id_key
  asset_id_key-injective e =
      let (hex, index) =
        split_at_colon (concat_hex a.txid) (concat_hex b.txid) _ _ (concat_hex-is_hex a.txid ha)
          (concat_hex-is_hex b.txid hb) e in
      let txid : a.txid ≡ b.txid =
        sym (parse_pairs-concat_hex a.txid ha)
        ∙ ap parse_pairs hex
        ∙ parse_pairs-concat_hex b.txid hb in
      let group : a.group_index ≡ b.group_index = to_decimal-injective _ _ index in
      λ i. record { txid = txid i; group_index = group i }

  -- On asset ids whose txid is a byte array, `sameAsset` holds exactly when txid and group index
  -- agree: the key never confuses two assets.
  pub same_asset_id_iff : (same_asset_id a b ≡ true) ↔ (a ≡ b)
  unfolding same_asset_id
  same_asset_id_iff = (
    λ h. asset_id_key-injective ((text_eq_iff _ _).0 h),
    λ e. (text_eq_iff _ _).1 (ap asset_id_key e),
  )
