-- ===== src/Database/Records.antt =====
-- packages/db/src/custody.ts: a row as the record that `get` hands out.
use arkade_taxi.Prelude.{
  ℕ, ◌≡◌, Bool, true, Option, none, some, List, [], ◌∷◌, Text, Bytes, if◌then◌else◌, ltb, filter,
  text_eq, text_lt, get_or, arith,
}
use arkade_taxi.Prelude.Int.{ℤ}
use arkade_taxi.Core.Fares.{AssetIdRef}
use arkade_taxi.Database.Rows.{
  CustodyState, is_releasing, Currency, CustodyRow, ReleaseInput, Tables, Point, meets_checks,
}

pub record RowFare : Type 0 where
  pub currency : Currency
  pub units : Option ℤ

pub record Lease : Type 0 where
  pub owner : Text
  pub token : Text
  pub until : ℕ

pub record CustodyRecord : Type 0 where
  pub advance_id : Text
  pub owner_key : Bytes
  pub asset_id : Option AssetIdRef
  pub asset_units : Option ℤ
  pub owed_sats : ℤ
  pub loan_sats : ℤ
  pub fare : Option RowFare
  pub state : CustodyState
  pub held_at : ℕ
  pub expires_at : ℕ
  pub release_inputs : List Point
  pub release_expected_txid : Option Text
  pub release_lease : Option Lease
  pub release_txid : Option Text
  pub released_at : Option ℕ
  pub swept_at : Option ℕ
  pub swept_actor : Option Text

abbrev point_before : Point → Point → Bool
point_before a b = if text_eq a.txid b.txid then ltb a.vout b.vout else text_lt a.txid b.txid

abbrev insert_point : Point → List Point → List Point
insert_point p [] = p ∷ []
insert_point p (q ∷ qs) =
    let rest = insert_point p qs in if point_before q p then q ∷ rest else p ∷ q ∷ qs

abbrev sorted_points : List ReleaseInput → List Point
sorted_points [] = []
sorted_points (i ∷ is) =
    insert_point (record { txid = i.outpoint_txid; vout = i.outpoint_vout }) (sorted_points is)

abbrev is_of : Text → ReleaseInput → Bool
is_of id i = text_eq i.advance_id id

-- `SELECT … WHERE advance_id = ? ORDER BY txid, vout`
unfoldable pub inputs : Tables → Text → List Point
inputs db id = sorted_points (filter (is_of id) db.release_inputs)

-- A column that is read where another is not null; `Number(null)` is 0.
abbrev pub number_beside {ℓ} : {A : Type ℓ} → Option A → Option ℕ → Option ℕ
number_beside none n = none
number_beside (some _) n = some (get_or n 0)

abbrev asset_of : Option Bytes → Option ℕ → Option AssetIdRef
asset_of none n = none
asset_of (some txid) n = some (record { txid = txid; group_index = get_or n 0 })

abbrev units_beside : Option Bytes → Option ℤ → Option ℤ
units_beside none u = none
units_beside (some _) u = u

abbrev fare_of : Option Currency → Option ℤ → Option RowFare
fare_of none u = none
fare_of (some currency) u = some (record { currency = currency; units = u })

abbrev lease_of : Option Text → Option Text → Option ℕ → Option Lease
lease_of (some owner) (some token) until =
    some (record { owner = owner; token = token; until = get_or until 0 })
lease_of _ _ until = none

unfoldable pub decode : Tables → CustodyRow → CustodyRecord
decode db r = record {
  advance_id = r.advance_id;
  owner_key = r.owner_key;
  asset_id = asset_of r.asset_txid r.asset_group_index;
  asset_units = units_beside r.asset_txid r.asset_units;
  owed_sats = r.owed_sats;
  loan_sats = r.loan_sats;
  fare = fare_of r.fare_currency r.fare_units;
  state = r.state;
  held_at = r.held_at;
  expires_at = r.expires_at;
  release_inputs = if is_releasing r.state then inputs db r.advance_id else [];
  release_expected_txid = r.release_expected_txid;
  release_lease = lease_of r.release_lease_owner r.release_lease_token r.release_lease_until;
  release_txid = r.release_txid;
  released_at = number_beside r.release_txid r.released_at;
  swept_at = number_beside r.swept_actor r.swept_at;
  swept_actor = r.swept_actor;
}

-- The group index, where a record names an asset.
abbrev pub group_index_of : Option AssetIdRef → Option ℕ
group_index_of none = none
group_index_of (some a) = some a.group_index

-- A record says what the row says, where the row meets the checks of its table: units without an asset, a
-- time without a transaction and a write-off without its actor cannot stand in it.
pub decode-meets_checks :
    (db : Tables) (r : CustodyRow)
    → meets_checks r ≡ true
    → ((decode db r).asset_units ≡ r.asset_units)
      × (group_index_of (decode db r).asset_id ≡ r.asset_group_index)
      × ((decode db r).released_at ≡ r.released_at)
      × ((decode db r).swept_at ≡ r.swept_at)
unfolding decode meets_checks
decode-meets_checks db r h = (ground arith, ground arith, ground arith, ground arith)
