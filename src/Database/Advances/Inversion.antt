-- ===== src/Database/Advances/Inversion.antt =====
-- packages/db/src/advances.ts: what a row that reads back says of the advance.
use arkade_taxi.Prelude.{
  ◌≡◌, ap, sym, false, ok, throw_if, >>=-eq-ok, >>-eq-ok, throw_if-eq-ok, ok-injective,
}
use arkade_taxi.Core.Types.{Advance}
use arkade_taxi.Database.Advances.{StoredAdvance, AdvanceRow}
use arkade_taxi.Database.Advances.Fields.{
  required, missing_funding_snapshot, missing_exit_params, has_sponsor, bad_expiry_columns,
  outpoints_in, fare_in_row, receiver_fare_in, deadline_in, recovery_deadline_in, kind_in,
}
use arkade_taxi.Database.Advances.Reading.{submission_in, recovery_in, from_row}

-- The fields that the store's queries look at.
pub record Reads (r : AdvanceRow) (a : Advance) : Type 0 where
  pub id : a.id ≡ r.id
  pub state : a.state ≡ r.state
  pub topup : a.topup ≡ r.topup
  pub locktime : a.locktime ≡ r.locktime
  pub spent : a.spent_txid ≡ r.spent_txid
  pub kind : a.kind ≡ kind_in r.kind
  pub batch : a.funding.batch_expiry ≡ deadline_in r.batch_expiry_kind r.batch_expiry_value
  pub deadline :
      a.funding.recovery_locktime ≡ recovery_deadline_in r.recovery_locktime_kind r.locktime
  pub columns :
      bad_expiry_columns (has_sponsor r.kind) r.batch_expiry_kind r.batch_expiry_value ≡ false

pub from_row-Reads : (r : AdvanceRow) (s : StoredAdvance) → from_row r ≡ ok s → Reads r s.core
unfolding from_row
from_row-Reads r s e =
    let (guard, e1) = >>-eq-ok (throw_if _ missing_funding_snapshot) _ e in
    let (json, _, e2) = >>=-eq-ok (required r.operator_inputs_json missing_funding_snapshot) _ e1 in
    let (_, _, e3) = >>=-eq-ok (required r.unsigned_lockup_tx missing_funding_snapshot) _ e2 in
    let (_, _, e4) = >>=-eq-ok (required r.unsigned_lockup_id missing_funding_snapshot) _ e3 in
    let (_, _, e5) = >>=-eq-ok (required r.exit_signer_key missing_exit_params) _ e4 in
    let (_, _, e6) = >>=-eq-ok (required r.exit_delay_type missing_exit_params) _ e5 in
    let (_, _, e7) = >>=-eq-ok (required r.exit_delay_value missing_exit_params) _ e6 in
    let (_, _, e8) = >>=-eq-ok (outpoints_in json) _ e7 in
    let (_, _, e9) =
      >>=-eq-ok
        (fare_in_row r.fare_currency r.fare_asset_txid r.fare_asset_group_index r.fare_units) _
        e8 in
    let (_, _, e10) =
      >>=-eq-ok (receiver_fare_in r.receiver_fare_currency r.receiver_fare_units) _ e9 in
    let (_, _, e11) = >>=-eq-ok (submission_in r.submission) _ e10 in
    let (_, _, e12) = >>=-eq-ok (recovery_in r.recovery) _ e11 in
    let same = sym (ok-injective e12) in
    record {
      id = ap (λ (t : StoredAdvance). t.core.id) same;
      state = ap (λ (t : StoredAdvance). t.core.state) same;
      topup = ap (λ (t : StoredAdvance). t.core.topup) same;
      locktime = ap (λ (t : StoredAdvance). t.core.locktime) same;
      spent = ap (λ (t : StoredAdvance). t.core.spent_txid) same;
      kind = ap (λ (t : StoredAdvance). t.core.kind) same;
      batch = ap (λ (t : StoredAdvance). t.core.funding.batch_expiry) same;
      deadline = ap (λ (t : StoredAdvance). t.core.funding.recovery_locktime) same;
      columns = throw_if-eq-ok _ _ guard;
    }
