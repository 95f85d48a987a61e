-- ===== src/Database/Custody.antt =====
-- packages/db/src/custody.ts: what is owed to the receivers of reclaimed advances. The two tables and
-- the audit trail are lists; a statement of the source is a filter, an update or an insertion on them,
-- with the primary keys and the checks of packages/db/src/schema.ts. A transaction that throws leaves
-- the tables as they were, which is the `err` of a call.
pub mod Steps
pub mod Settled
pub mod Coins
pub mod Claims
use arkade_taxi.Prelude.{
  ℕ, ◌+◌, Bool, true, false, not, ◌&&◌, ◌||◌, Option, none, some, List, [], ◌∷◌, Text, Bytes,
  Result, ok, err, ◌>>=◌, ◌>>◌, throw_if, if◌then◌else◌, ◌==◌, ltb, leb, any, find, filter, length,
  text_eq, is_some, get_or,
}
use arkade_taxi.Prelude.Int.{ℤ, pos, Number, int, in_range, ltb_ℤ, leb_ℤ}
use arkade_taxi.Core.Fares.{AssetIdRef, is_blank}
use arkade_taxi.Core.Types.{
  Outpoint, RecoveryRecipient, to_sender, to_receiver, ReceiverFare, sats_units, asset_units_of,
  Advance,
}
use arkade_taxi.Core.Ledger.{is_txid, is_empty}
use arkade_taxi.Database.Rows.{
  is_held, is_releasing, is_released, Currency, CustodyRow, ReleaseInput, Tables, CustodyFailure,
  clock, check_txid, Point, points, meets_checks, has_id, get, update_where, changes, held,
  releasing, released, forfeit, in_sats, in_asset, custody_not_found, custody_release_in_progress,
  custody_released, custody_window_open, custody_window_unconfigured,
  custody_release_input_conflict, binds_no_input, no_actor, custody_swept,
}

abbrev currency_of : ReceiverFare → Currency
currency_of (sats_units _) = in_sats
currency_of (asset_units_of _) = in_asset

abbrev units_of : ReceiverFare → ℤ
units_of (sats_units units) = units
units_of (asset_units_of units) = units

abbrev pub map_option {ℓ κ} : {A : Type ℓ} {B : Type κ} → (A → B) → Option A → Option B
map_option f none = none
map_option f (some a) = some (f a)

-- `advance.recoveryRecipient === "receiver" ? advance.receiverKey : advance.senderKey`
abbrev owner_of : Advance → Bytes
owner_of a = elim a.recovery_recipient [
  | none ↦ a.sender_key
  | some to_sender ↦ a.sender_key
  | some to_receiver ↦ a.receiver_key
]

unfoldable pub opened_row : Advance → ℕ → ℕ → CustodyRow
opened_row a at window_seconds = record {
  advance_id = a.id;
  owner_key = owner_of a;
  asset_txid = map_option (λ (i : AssetIdRef). i.txid) a.asset_id;
  asset_group_index = map_option (λ (i : AssetIdRef). i.group_index) a.asset_id;
  asset_units = a.asset_units;
  owed_sats = get_or a.payment_sats (pos 0);
  loan_sats = a.topup;
  fare_currency = map_option currency_of a.receiver_fare;
  fare_units = map_option units_of a.receiver_fare;
  state = held;
  held_at = at;
  expires_at = at + window_seconds;
  release_lease_owner = none;
  release_lease_token = none;
  release_lease_until = none;
  release_expected_txid = none;
  release_txid = none;
  released_at = none;
  swept_at = none;
  swept_actor = none;
}

abbrev pub window_of : Option Number → Result CustodyFailure ℕ
window_of (some (int (pos n))) =
    if leb 1 n && leb n 9_007_199_254_740_991 then ok n else err custody_window_unconfigured
window_of _ = err custody_window_unconfigured

-- `INSERT OR IGNORE`: a row that breaks the primary key or a check is not inserted.
unfoldable pub open_custody_row :
    Tables → Advance → Number → Option Number → Result CustodyFailure Tables
open_custody_row db a at window_seconds = do
  window ← window_of window_seconds
  now ← clock at
  let row = opened_row a now window in
      ok (
        if any (has_id a.id) db.custody || not (meets_checks row)
        then db
        else record db { custody = row ∷ db.custody })

abbrev pub or_not_found : Option CustodyRow → Result CustodyFailure CustodyRow
or_not_found none = err custody_not_found
or_not_found (some row) = ok row

-- `if (current.sweptAt !== undefined) throw …`
abbrev pub check_swept : CustodyRow → Result CustodyFailure (Unit {0})
check_swept r = elim r.swept_actor [
  | none ↦ ok tt
  | some actor ↦ err (custody_swept actor (get_or r.swept_at 0))
]

abbrev pub is_free : Option ℕ → ℕ → Bool
is_free none now = true
is_free (some until) now = ltb until now

-- The `WHERE` of `claimRelease`.
unfoldable pub is_claimable : Text → ℕ → CustodyRow → Bool
is_claimable id now r =
    has_id id r && is_held r.state && not (is_some r.swept_at) && is_free r.release_lease_until now

unfoldable pub leased : Text → Text → ℕ → CustodyRow → CustodyRow
leased owner token until r = record r {
  state = releasing;
  release_lease_owner = some owner;
  release_lease_token = some token;
  release_lease_until = some until;
  release_expected_txid = some (b'p' ∷ b'e' ∷ b'n' ∷ b'd' ∷ b'i' ∷ b'n' ∷ b'g' ∷ []);
}

unfoldable pub claim_release :
    Tables → Text → Text → Text → Number → Number → Result CustodyFailure Tables
claim_release db id owner token now until = do
  at ← clock now
  deadline ← clock until
  current ← or_not_found (get db id)
  check_swept current
  throw_if (is_released current.state) custody_released
  throw_if (not (changes (is_claimable id at) db.custody == 1)) custody_release_in_progress
  ok (record db {
    custody = update_where (is_claimable id at) (leased owner token deadline) db.custody;
  })

abbrev pub is_text : Option Text → Text → Bool
is_text none s = false
is_text (some t) s = text_eq t s

-- The `WHERE` of the statements that the holder of the lease runs.
unfoldable pub is_leased_by : Text → Text → Text → CustodyRow → Bool
is_leased_by id owner token r =
    has_id id r
    && is_releasing r.state
    && is_text r.release_lease_owner owner
    && is_text r.release_lease_token token

abbrev pub is_unswept : CustodyRow → Bool
is_unswept r = not (is_some r.swept_at)

abbrev pub is_other : Text → ReleaseInput → Bool
is_other id i = not (text_eq i.advance_id id)

-- The primary key of an input.
abbrev pub is_at : Text → ℕ → ReleaseInput → Bool
is_at txid vout i = text_eq i.outpoint_txid txid && i.outpoint_vout == vout

-- The loop of insertions: a coin that is bound already ends it.
unfoldable pub insert_inputs :
    Text → ℕ → List Point → List ReleaseInput → Result CustodyFailure (List ReleaseInput)
insert_inputs id at [] table = ok table
insert_inputs id at (p ∷ ps) table = do
  throw_if (any (is_at p.txid p.vout) table) custody_release_input_conflict
  insert_inputs id at ps (
      record { outpoint_txid = p.txid; outpoint_vout = p.vout; advance_id = id; created_at = at }
      ∷ table)

unfoldable pub expecting : Text → CustodyRow → CustodyRow
expecting txid r = record r { release_expected_txid = some txid }

-- The `WHERE` of `bindReleaseInputs`.
unfoldable pub is_bindable : Text → Text → Text → CustodyRow → Bool
is_bindable id owner token r = is_leased_by id owner token r && is_unswept r

-- The transaction of `bindReleaseInputs` from its first change on.
unfoldable pub bind_inputs :
    Tables → Text → Text → Text → List Point → Text → ℕ → Result CustodyFailure (Bool × Tables)
bind_inputs db id owner token bound expected_txid now = do
  table ← insert_inputs id now bound (filter (is_other id) db.release_inputs)
  ok (
    true,
    record db {
      custody = update_where (is_bindable id owner token) (expecting expected_txid) db.custody;
      release_inputs = table;
    },
  )

unfoldable pub bind_release_inputs :
    Tables
    → Text
    → Text
    → Text
    → List Outpoint
    → Text
    → Number
    → Result CustodyFailure (Bool × Tables)
bind_release_inputs db id owner token inputs expected_txid at = do
  check_txid expected_txid
  now ← clock at
  bound ← points inputs
  throw_if (is_empty bound) binds_no_input
  if changes (is_bindable id owner token) db.custody == 1
      then bind_inputs db id owner token bound expected_txid now
      else ok (false, db)

unfoldable pub paid : Text → ℕ → CustodyRow → CustodyRow
paid txid at r = record r {
  state = released;
  release_txid = some txid;
  released_at = some at;
  release_lease_owner = none;
  release_lease_token = none;
  release_lease_until = none;
}

-- The `WHERE` of `recordReleased`.
unfoldable pub is_payable : Text → Text → Text → Text → CustodyRow → Bool
is_payable id owner token release_txid r =
    is_leased_by id owner token r && is_text r.release_expected_txid release_txid && is_unswept r

unfoldable pub record_released :
    Tables → Text → Text → Text → Text → Number → Result CustodyFailure (Bool × Tables)
record_released db id owner token release_txid at = do
  check_txid release_txid
  now ← clock at
  ok (
      if changes (is_payable id owner token release_txid) db.custody == 1
      then (
        true,
        record db {
          custody =
              update_where (is_payable id owner token release_txid) (paid release_txid now)
                db.custody;
          release_inputs = filter (is_other id) db.release_inputs;
        },
      )
      else (false, db))

unfoldable pub returned : CustodyRow → CustodyRow
returned r = record r {
  state = held;
  release_lease_owner = none;
  release_lease_token = none;
  release_lease_until = none;
  release_expected_txid = none;
}

unfoldable pub abandon_release : Tables → Text → Text → Text → Number → Result CustodyFailure Tables
abandon_release db id owner token at = do
  now ← clock at
  ok (record db {
    custody = update_where (is_leased_by id owner token) returned db.custody;
    release_inputs =
        if changes (is_leased_by id owner token) db.custody == 1
        then filter (is_other id) db.release_inputs
        else db.release_inputs;
  })

unfoldable pub is_forfeitable : Text → CustodyRow → Bool
is_forfeitable id r = has_id id r && is_held r.state && not (is_some r.swept_at)

unfoldable pub swept : Text → ℕ → CustodyRow → CustodyRow
swept actor at r = record r { state = forfeit; swept_actor = some actor; swept_at = some at }

abbrev pub write_off_action : Text
write_off_action =
    b'c' ∷ b'u' ∷ b's' ∷ b't' ∷ b'o' ∷ b'd' ∷ b'y' ∷ b'-' ∷ b'w' ∷ b'r' ∷ b'i' ∷ b't' ∷ b'e' ∷ b'-'
    ∷ b'o' ∷ b'f' ∷ b'f' ∷ []

abbrev pub operation_field : Text
operation_field = b'o' ∷ b'p' ∷ b'e' ∷ b'r' ∷ b'a' ∷ b't' ∷ b'i' ∷ b'o' ∷ b'n' ∷ []

-- `Date.now()` of the audit entry is the last argument.
unfoldable pub write_off : Tables → Text → Text → Number → ℕ → Result CustodyFailure Tables
write_off db id actor at wall_clock = do
  now ← clock at
  throw_if (is_blank actor) no_actor
  current ← or_not_found (get db id)
  check_swept current
  throw_if (is_released current.state) custody_released
  throw_if (is_releasing current.state) custody_release_in_progress
  throw_if (ltb now current.expires_at) custody_window_open
  throw_if (not (changes (is_forfeitable id) db.custody == 1)) custody_release_in_progress
  ok (record db {
    custody = update_where (is_forfeitable id) (swept actor now) db.custody;
    audit =
        record {
          changed_at = wall_clock;
          field = operation_field;
          old_value = [];
          new_value = write_off_action;
          actor = actor;
        }
        ∷ db.audit;
  })
