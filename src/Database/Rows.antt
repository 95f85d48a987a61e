-- ===== src/Database/Rows.antt =====
-- packages/db/src/custody.ts and the tables of packages/db/src/schema.ts that it uses: rows, checks,
-- and the statements that read and update them. A column that may be null is an `Option`; integers
-- beyond the 64 bits of SQLite are left out.
use arkade_taxi.Prelude.{
  ℕ, Bool, true, false, not, ◌&&◌, ◌||◌, Option, none, some, List, [], ◌∷◌, Text, Bytes, Result, ok,
  err, ◌>>=◌, ◌>>◌, throw_if, if◌then◌else◌, ltb, leb, find, filter, length, text_eq, is_some,
}
use arkade_taxi.Prelude.Int.{ℤ, pos, Number, int, ltb_ℤ, leb_ℤ}
use arkade_taxi.Core.Types.{Outpoint}
use arkade_taxi.Core.Ledger.{is_txid}

pub data CustodyState : Type 0 where
  held releasing released forfeit : CustodyState

abbrev pub is_held : CustodyState → Bool
is_held s = elim s [ held ↦ true | releasing ↦ false | released ↦ false | forfeit ↦ false ]

abbrev pub is_releasing : CustodyState → Bool
is_releasing s = elim s [ held ↦ false | releasing ↦ true | released ↦ false | forfeit ↦ false ]

abbrev pub is_released : CustodyState → Bool
is_released s = elim s [ held ↦ false | releasing ↦ false | released ↦ true | forfeit ↦ false ]

abbrev pub is_forfeit : CustodyState → Bool
is_forfeit s = elim s [ held ↦ false | releasing ↦ false | released ↦ false | forfeit ↦ true ]

pub data Currency : Type 0 where
  in_sats in_asset : Currency

-- A row of the table `custody`; a column that may be null is an `Option`.
pub record CustodyRow : Type 0 where
  pub advance_id : Text
  pub owner_key : Bytes
  pub asset_txid : Option Bytes
  pub asset_group_index : Option ℕ
  pub asset_units : Option ℤ
  pub owed_sats : ℤ
  pub loan_sats : ℤ
  pub fare_currency : Option Currency
  pub fare_units : Option ℤ
  pub state : CustodyState
  pub held_at : ℕ
  pub expires_at : ℕ
  pub release_lease_owner : Option Text
  pub release_lease_token : Option Text
  pub release_lease_until : Option ℕ
  pub release_expected_txid : Option Text
  pub release_txid : Option Text
  pub released_at : Option ℕ
  pub swept_at : Option ℕ
  pub swept_actor : Option Text

-- A row of the table `custody_release_inputs`, whose primary key is the outpoint.
pub record ReleaseInput : Type 0 where
  pub outpoint_txid : Text
  pub outpoint_vout : ℕ
  pub advance_id : Text
  pub created_at : ℕ

-- A row of the audit trail `policy_audit`.
pub record AuditEntry : Type 0 where
  pub changed_at : ℕ
  pub field : Text
  pub old_value : Text
  pub new_value : Text
  pub actor : Text

pub record Tables : Type 0 where
  pub custody : List CustodyRow
  pub release_inputs : List ReleaseInput
  pub audit : List AuditEntry

pub data CustodyFailure : Type 0 where
  custody_not_found custody_release_in_progress custody_released : CustodyFailure
  custody_window_open custody_window_unconfigured : CustodyFailure
  custody_swept : Text → ℕ → CustodyFailure
  custody_release_input_conflict invalid_value binds_no_input no_actor : CustodyFailure

-- `Number.isSafeInteger(value) && value >= 0`, and the value
unfoldable pub clock : Number → Result CustodyFailure ℕ
clock (int (pos n)) = if leb n 9_007_199_254_740_991 then ok n else err invalid_value
clock _ = err invalid_value

unfoldable pub check_txid : Text → Result CustodyFailure (Unit {0})
check_txid value = throw_if (not (is_txid value)) invalid_value

-- An outpoint that is valid, without the wrapper of its number.
pub record Point : Type 0 where
  pub txid : Text
  pub vout : ℕ

abbrev vout_of : Number → Result CustodyFailure ℕ
vout_of (int (pos n)) = if leb n 0xffff_ffff then ok n else err invalid_value
vout_of _ = err invalid_value

unfoldable pub point : Outpoint → Result CustodyFailure Point
unfolding check_txid
point value = do
  vout ← vout_of value.vout
  check_txid value.txid
  ok (record { txid = value.txid; vout = vout })

-- `inputs.map(point)`
unfoldable pub points : List Outpoint → Result CustodyFailure (List Point)
points [] = ok []
points (x ∷ xs) = do p ← point x; ps ← points xs; ok (p ∷ ps)

abbrev pub same_null {ℓ κ} : {A : Type ℓ} {B : Type κ} → Option A → Option B → Bool
same_null a b = if is_some a then is_some b else not (is_some b)

abbrev is_positive : Option ℤ → Bool
is_positive none = true
is_positive (some units) = ltb_ℤ (pos 0) units

-- The checks of the table `custody`.
unfoldable pub meets_checks : CustodyRow → Bool
meets_checks r =
    is_positive r.asset_units
    && leb_ℤ (pos 0) r.owed_sats
    && leb_ℤ (pos 0) r.loan_sats
    && same_null r.asset_txid r.asset_group_index
    && same_null r.asset_txid r.asset_units
    && same_null r.fare_currency r.fare_units
    && same_null r.swept_at r.swept_actor
    && same_null r.release_txid r.released_at
    && (not (is_forfeit r.state) || is_some r.swept_at)
    && (not (is_released r.state) || (is_some r.release_txid && not (is_some r.swept_at)))
    && (not (is_releasing r.state) || is_some r.release_expected_txid)
    && ltb r.held_at r.expires_at

abbrev pub has_id : Text → CustodyRow → Bool
has_id id r = text_eq r.advance_id id

unfoldable pub get : Tables → Text → Option CustodyRow
get db id = find (has_id id) db.custody

module _ {ℓ} {A : Type ℓ} where
  -- `UPDATE … SET … WHERE …`, and the number of rows that it changes
  unfoldable pub update_where : (A → Bool) → (A → A) → List A → List A
  update_where p f [] = []
  update_where p f (r ∷ rs) = (if p r then f r else r) ∷ update_where p f rs

  abbrev pub changes : (A → Bool) → List A → ℕ
  changes p rs = length (filter p rs)
