-- ===== src/Database/Advances/RoundTrip.antt =====
-- packages/db/src/advances.ts: what is written for an advance reads back as that advance.
use arkade_taxi.Prelude.{
  ℕ, zero, suc, if◌then◌else◌, ◌≡◌, refl, sym, false, not, Option, none, some, List, Text, ok, err,
  throw_if, >>-eq-ok, throw_if-eq-ok, ok-injective, arith, get_or, Result,
}
use arkade_taxi.Prelude.Int.{ℤ}
use arkade_taxi.Core.Fares.{AssetIdRef, FareSpec, sats_fare, asset_fare}
use arkade_taxi.Core.Types.{
  Outpoint, AdvanceKind, covenant, sponsored, ExpiryDeadline, ReceiverFare, sats_units,
  asset_units_of, Advance,
}
use arkade_taxi.Core.Submission.{Submission, Recovery, Observation}
use arkade_taxi.Core.Ledger.{
  LedgerError, advance_kind, is_sponsored, is_missing, validate_funding_snapshot,
  validate_joint_snapshot,
}
use arkade_taxi.Database.Custody.{map_option}
use arkade_taxi.Database.Advances.{text_of, StoredAdvance, AdvanceRow}
use arkade_taxi.Database.Advances.Writing.{
  snapshot_checked, asset_txid_of, group_index_of, fare_currency_of, fare_units_of, fare_asset_of,
  receiver_currency, receiver_units, outpoint_txid_of, outpoint_vout_of, deadline_kind_of,
  deadline_value_of, json_of, submission_params, recovery_params, observation_params, row_of,
  to_params,
}
use arkade_taxi.Database.Advances.Fields.{
  has_sponsor, bad_expiry_columns, outpoints_in, string_array, kind_in, fare_in_row, deadline_in,
  recovery_deadline_in, asset_in, receiver_fare_in, outpoint_in, counter_in,
}
use arkade_taxi.Database.Advances.Reading.{submission_in, recovery_in, observation_in, from_row}

-- A counter of 0 and none at all are one thing to the store.
abbrev pub without_zero : Option ℕ → Option ℕ
without_zero none = none
without_zero (some zero) = none
without_zero (some (suc n)) = some (suc n)

-- An advance without a kind is a covenant advance.
abbrev pub without_covenant : Option AdvanceKind → Option AdvanceKind
without_covenant none = none
without_covenant (some covenant) = none
without_covenant (some sponsored) = some sponsored

-- The row keeps one locktime, for the covenant and for the deadline.
abbrev pub dated : ℤ → ExpiryDeadline → ExpiryDeadline
dated locktime d = record d { value = locktime }

-- An advance as the store keeps it.
abbrev pub as_stored : StoredAdvance → StoredAdvance
as_stored s = record {
  core = record s.core {
    kind = without_covenant s.core.kind;
    renewals = without_zero s.core.renewals;
    funding = record s.core.funding {
      recovery_locktime = map_option (dated s.core.locktime) s.core.funding.recovery_locktime;
    };
  };
  progress = record {
    submission = record s.progress.submission {
      submission_attempts = without_zero s.progress.submission.submission_attempts;
    };
    recovery = record s.progress.recovery {
      recovery_attempts = without_zero s.progress.recovery.recovery_attempts;
    };
    observation = record s.progress.observation {
      observation_stable_count = without_zero s.progress.observation.observation_stable_count;
    };
  };
}

counter_in-get_or : (o : Option ℕ) → counter_in (get_or o 0) ≡ without_zero o
counter_in-get_or none = refl
counter_in-get_or (some zero) = refl
counter_in-get_or (some (suc n)) = ground arith

string_array-json_of : (o : Option (List Text)) → string_array (json_of o) ≡ ok o
string_array-json_of none = refl
string_array-json_of (some strings) = refl

kind_in-get_or : (o : Option AdvanceKind) → kind_in (some (get_or o covenant)) ≡ without_covenant o
kind_in-get_or none = refl
kind_in-get_or (some covenant) = refl
kind_in-get_or (some sponsored) = refl

outpoint_in-of : (o : Option Outpoint) → outpoint_in (outpoint_txid_of o) (outpoint_vout_of o) ≡ o
outpoint_in-of none = refl
outpoint_in-of (some o) = refl

pub asset_in-of : (i : Option AssetIdRef) → asset_in (asset_txid_of i) (group_index_of i) ≡ i
asset_in-of none = refl
asset_in-of (some i) = refl

pub deadline_in-of :
    (d : Option ExpiryDeadline) → deadline_in (deadline_kind_of d) (deadline_value_of d) ≡ d
deadline_in-of none = refl
deadline_in-of (some d) = refl

recovery_deadline_in-of :
    (d : Option ExpiryDeadline) (locktime : ℤ)
    → recovery_deadline_in (deadline_kind_of d) locktime ≡ map_option (dated locktime) d
recovery_deadline_in-of none locktime = refl
recovery_deadline_in-of (some d) locktime = refl

pub fare_in_row-of :
    (f : FareSpec)
    → fare_in_row
        (fare_currency_of f)
        (asset_txid_of (fare_asset_of f))
        (group_index_of (fare_asset_of f))
        (fare_units_of f)
      ≡ ok f
fare_in_row-of (sats_fare units) = refl
fare_in_row-of (asset_fare i units) = refl

pub receiver_fare_in-of :
    (f : Option ReceiverFare)
    → receiver_fare_in (map_option receiver_currency f) (map_option receiver_units f) ≡ ok f
receiver_fare_in-of none = refl
receiver_fare_in-of (some (sats_units units)) = refl
receiver_fare_in-of (some (asset_units_of units)) = refl

submission_in-params :
    (s : Submission)
    → submission_in (submission_params s)
      ≡ ok (record s { submission_attempts = without_zero s.submission_attempts })
unfolding submission_in submission_params
submission_in-params s = simp (string_array-json_of, counter_in-get_or)

recovery_in-params :
    (r : Recovery)
    → recovery_in (recovery_params r)
      ≡ ok (record r { recovery_attempts = without_zero r.recovery_attempts })
unfolding recovery_in recovery_params
recovery_in-params r = simp (string_array-json_of, counter_in-get_or)

observation_in-params :
    (o : Observation)
    → observation_in (observation_params o)
      ≡ record o { observation_stable_count = without_zero o.observation_stable_count }
unfolding observation_in observation_params
observation_in-params o = simp counter_in-get_or

expiry_columns-of :
    (k : AdvanceKind) (d : Option ExpiryDeadline)
    → (if is_sponsored k then is_missing d else not (is_missing d)) ≡ false
    → bad_expiry_columns (is_sponsored k) (deadline_kind_of d) (deadline_value_of d) ≡ false
expiry_columns-of covenant none h = refl
expiry_columns-of covenant (some d) h = cc
expiry_columns-of sponsored none h = cc
expiry_columns-of sponsored (some d) h = refl

snapshot_checked-ok :
    (call : Result LedgerError (Unit {0})) → snapshot_checked call ≡ ok tt → call ≡ ok tt
snapshot_checked-ok (err thrown) h = cc
snapshot_checked-ok (ok tt) h = refl

outpoints_in-text_of :
    (a : Advance)
    → validate_joint_snapshot a ≡ ok tt
    → outpoints_in (text_of a.funding.operator_inputs) ≡ ok a.funding.operator_inputs
unfolding validate_joint_snapshot
outpoints_in-text_of a h = ground arith

-- What the check of the snapshot leaves to the columns.
snapshot_columns :
    (a : Advance)
    → validate_funding_snapshot a ≡ ok tt
    → (bad_expiry_columns
          (has_sponsor (some (get_or a.kind covenant)))
          (deadline_kind_of a.funding.batch_expiry)
          (deadline_value_of a.funding.batch_expiry)
        ≡ false)
      × (outpoints_in (text_of a.funding.operator_inputs) ≡ ok a.funding.operator_inputs)
unfolding validate_funding_snapshot advance_kind
snapshot_columns a h =
    let (expiry, rest) = >>-eq-ok (throw_if _ _) _ h in
    let (_, joint) = >>-eq-ok (throw_if _ _) _ rest in
    (
      expiry_columns-of (advance_kind a) a.funding.batch_expiry (throw_if-eq-ok _ _ expiry),
      outpoints_in-text_of a joint,
    )

-- An advance that the store writes is read back as it was, for a counter of 0, which is then absent, a
-- kind `covenant`, which is then unsaid, and the deadline's value, which is then the locktime.
pub from_row-to_params :
    (s : StoredAdvance) (r : AdvanceRow) → to_params s ≡ ok r → from_row r ≡ ok (as_stored s)
unfolding to_params from_row row_of
from_row-to_params s r e =
    let (checked, rest) = >>-eq-ok (snapshot_checked (validate_funding_snapshot s.core)) _ e in
    let (_, written) = >>-eq-ok (throw_if _ _) _ rest in
    let valid : validate_funding_snapshot s.core ≡ ok tt = snapshot_checked-ok _ checked in
    let (expiry, inputs) = snapshot_columns s.core valid in
    let same : r ≡ row_of s = sym (ok-injective written) in
    rw same (
      simp (
        expiry, inputs, fare_in_row-of, receiver_fare_in-of, submission_in-params,
        recovery_in-params, observation_in-params, outpoint_in-of, asset_in-of, deadline_in-of,
        recovery_deadline_in-of, kind_in-get_or, counter_in-get_or,
      ))
