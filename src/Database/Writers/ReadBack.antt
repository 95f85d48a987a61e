-- ===== src/Database/Writers/ReadBack.antt =====
-- packages/db/src/advances.ts: a row that is read and written back keeps what the parties agreed on, the spend
-- and what was signed.
use arkade_taxi.Prelude.{
  ◌≡◌, refl, ap, sym, ◌∙◌, none, some, List, Text, Bytes, Option, Result, ok, err, throw_if,
  >>-eq-ok, >>=-eq-ok, ok-injective, inl, inr, Bool-cases, subst, get_or, all, not, ◌||◌,
}
use arkade_taxi.Prelude.Int.{ℤ}
use arkade_taxi.Core.Fares.{FareSpec}
use arkade_taxi.Core.Types.{
  Outpoint, TimelockType, AdvanceKind, covenant, sponsored, DeadlineKind, ReceiverFare,
}
use arkade_taxi.Database.Advances.{
  JsonText, text_of, malformed, StoredAdvance, SubmissionColumns, AdvanceRow,
}
use arkade_taxi.Core.Submission.{Submission, Recovery}
use arkade_taxi.Core.Ledger.{is_empty, is_valid_input}
use arkade_taxi.Database.Advances.Writing.{json_of, deadline_kind_of, row_of, submission_params}
use arkade_taxi.Database.Advances.Fields.{
  RowError, required, bad_expiry_columns, has_sponsor, missing_funding_snapshot,
  missing_exit_params, kind_in, asset_in, fare_in_row, receiver_fare_in, deadline_in,
  recovery_deadline_in, outpoint_in, counter_in, outpoints_in, string_array,
  malformed_operator_inputs,
}
use arkade_taxi.Database.Advances.Reading.{from_row, submission_in, recovery_in, observation_in}
use arkade_taxi.Database.Advances.RoundTrip.{
  asset_in-of, deadline_in-of, fare_in_row-of, receiver_fare_in-of,
}
use arkade_taxi.Database.Advances.Moves.{kept}

written {ℓ} :
    {A : Type ℓ} (o : Option A) (thrown : RowError) {a : A} → required o thrown ≡ ok a → some a ≡ o
written none thrown h = cc
written (some b) thrown h = sym (ap some (ok-injective h))

kind-again : (k : Option AdvanceKind) → kind_in (some (get_or (kind_in k) covenant)) ≡ kind_in k
kind-again none = refl
kind-again (some covenant) = refl
kind-again (some sponsored) = refl

outpoints-text :
    (json : JsonText (List Outpoint)) (inputs : List Outpoint)
    → outpoints_in json ≡ ok inputs
    → text_of inputs ≡ json
outpoints-text malformed inputs h = cc
outpoints-text (text_of parsed) inputs h =
    elim (Bool-cases (is_empty parsed || not (all is_valid_input parsed))) [
      | inl bad ↦ absurd (thrown_not (rw bad at h))
      | inr good ↦ ap text_of (sym (ok-injective (rw good at h)))
    ]
  where
    thrown_not :
        Path (Result RowError (List Outpoint)) (err malformed_operator_inputs) (ok inputs) → ⊥
    thrown_not k = cc

strings-text :
    (json : Option (JsonText (List Text))) (strings : Option (List Text))
    → string_array json ≡ ok strings
    → json_of strings ≡ json
strings-text none strings h = subst (λ s. json_of s ≡ none) (ok-injective h) refl
strings-text (some malformed) strings h = cc
strings-text (some (text_of l)) strings h =
    subst (λ s. json_of s ≡ some (text_of l)) (ok-injective h) refl

deadline-again :
    (k : Option DeadlineKind) (locktime : ℤ)
    → recovery_deadline_in (deadline_kind_of (recovery_deadline_in k locktime)) locktime
      ≡ recovery_deadline_in k locktime
deadline-again none locktime = refl
deadline-again (some k) locktime = refl

submission-signed :
    (c : SubmissionColumns) (s : Submission)
    → submission_in c ≡ ok s
    → (s.submission_phase ≡ c.submission_phase)
      × (s.prepared_ark_tx ≡ c.prepared_ark_tx)
      × (json_of s.prepared_checkpoints ≡ c.prepared_checkpoints_json)
unfolding submission_in
submission-signed c s e =
    let (strings, read, e1) = >>=-eq-ok (string_array c.prepared_checkpoints_json) _ e in
    let (_, _, e2) = >>=-eq-ok (string_array c.server_checkpoints_json) _ e1 in
    let same = sym (ok-injective e2) in
    (
      ap (λ (t : Submission). t.submission_phase) same,
      ap (λ (t : Submission). t.prepared_ark_tx) same,
      ap (λ (t : Submission). json_of t.prepared_checkpoints) same
          ∙ strings-text c.prepared_checkpoints_json strings read,
    )

-- The advance that a row reads back as, from the parts that may fail.
abbrev read_back :
    AdvanceRow
    → Bytes
    → TimelockType
    → ℤ
    → Text
    → Text
    → List Outpoint
    → FareSpec
    → Option ReceiverFare
    → Submission
    → Recovery
    → StoredAdvance
read_back r key delay_type delay_value tx tx_id inputs fare receiver sub rec = record {
  core = record {
    funding = record {
      batch_expiry = deadline_in r.batch_expiry_kind r.batch_expiry_value;
      recovery_locktime = recovery_deadline_in r.recovery_locktime_kind r.locktime;
      operator_inputs = inputs;
      unsigned_lockup_tx = tx;
      unsigned_lockup_id = tx_id;
    };
    id = r.id;
    state = r.state;
    kind = kind_in r.kind;
    receiver_key = r.receiver_key;
    sender_key = r.sender_key;
    operator_key = r.operator_key;
    operator_signer_key = key;
    exit_delay = record { value = delay_value; type = delay_type };
    dust = r.dust;
    topup = r.topup;
    payment_sats = r.payment_sats;
    asset_id = asset_in r.asset_txid r.asset_group_index;
    asset_units = r.asset_units;
    recovery_recipient = r.recovery_recipient;
    claim_mode = r.claim_mode;
    locktime = r.locktime;
    covenant_address = r.covenant_address;
    fare = fare;
    receiver_fare = receiver;
    outpoint = outpoint_in r.outpoint_txid r.outpoint_vout;
    spent_txid = r.spent_txid;
    renewals = counter_in r.renewals;
    last_renewed_at = r.last_renewed_at;
    created_at = r.created_at;
    updated_at = r.updated_at;
    expires_at = r.expires_at;
  };
  progress = record {
    submission = sub;
    recovery = rec;
    observation = observation_in r.observation;
  };
}

pub row_of-kept :
    (r : AdvanceRow) (s : StoredAdvance) → from_row r ≡ ok s → kept (row_of s) ≡ kept r
unfolding from_row row_of submission_params
row_of-kept r s e =
    let (_, e1) =
      >>-eq-ok
        (throw_if (bad_expiry_columns (has_sponsor r.kind) r.batch_expiry_kind r.batch_expiry_value)
          missing_funding_snapshot)
        _ e in
    let (json, has_json, e2) =
      >>=-eq-ok (required r.operator_inputs_json missing_funding_snapshot) _ e1 in
    let (tx, has_tx, e3) =
      >>=-eq-ok (required r.unsigned_lockup_tx missing_funding_snapshot) _ e2 in
    let (tx_id, has_id, e4) =
      >>=-eq-ok (required r.unsigned_lockup_id missing_funding_snapshot) _ e3 in
    let (key, has_key, e5) = >>=-eq-ok (required r.exit_signer_key missing_exit_params) _ e4 in
    let (type, has_type, e6) = >>=-eq-ok (required r.exit_delay_type missing_exit_params) _ e5 in
    let (value, has_value, e7) = >>=-eq-ok (required r.exit_delay_value missing_exit_params) _ e6 in
    let (inputs, has_inputs, e8) = >>=-eq-ok (outpoints_in json) _ e7 in
    let (fare, has_fare, e9) =
      >>=-eq-ok
        (fare_in_row r.fare_currency r.fare_asset_txid r.fare_asset_group_index r.fare_units) _
        e8 in
    let (receiver, has_receiver, e10) =
      >>=-eq-ok (receiver_fare_in r.receiver_fare_currency r.receiver_fare_units) _ e9 in
    let (sub, has_sub, e11) = >>=-eq-ok (submission_in r.submission) _ e10 in
    let (rec, _, e12) = >>=-eq-ok (recovery_in r.recovery) _ e11 in
    let (phase, prepared, checkpoints) = submission-signed r.submission sub has_sub in
    subst (λ (t : StoredAdvance). kept (row_of t) ≡ kept r)
      {x = read_back r key type value tx tx_id inputs fare receiver sub rec} (ok-injective e12)
      (λ i. record {
        id = r.id;
        agreement = record {
          kind = kind-again r.kind i;
          receiver_key = r.receiver_key;
          sender_key = r.sender_key;
          operator_key = r.operator_key;
          exit_signer_key = written r.exit_signer_key _ has_key i;
          exit_delay_type = written r.exit_delay_type _ has_type i;
          exit_delay_value = written r.exit_delay_value _ has_value i;
          dust = r.dust;
          topup = r.topup;
          payment_sats = r.payment_sats;
          asset_id = asset_in-of (asset_in r.asset_txid r.asset_group_index) i;
          asset_units = r.asset_units;
          claim_mode = r.claim_mode;
          recovery_recipient = r.recovery_recipient;
          locktime = r.locktime;
          covenant_address = r.covenant_address;
          fare = (fare_in_row-of fare ∙ sym has_fare) i;
          receiver_fare = (receiver_fare_in-of receiver ∙ sym has_receiver) i;
          batch_expiry = deadline_in-of (deadline_in r.batch_expiry_kind r.batch_expiry_value) i;
          recovery_locktime = deadline-again r.recovery_locktime_kind r.locktime i;
          operator_inputs_json =
              (ap some (outpoints-text json inputs has_inputs)
                  ∙ written r.operator_inputs_json _ has_json)
                i;
          unsigned_lockup_tx = written r.unsigned_lockup_tx _ has_tx i;
          unsigned_lockup_id = written r.unsigned_lockup_id _ has_id i;
          created_at = r.created_at;
          expires_at = r.expires_at;
        };
        spent_txid = r.spent_txid;
        signed = (prepared i, checkpoints i);
        phase = phase i;
      })
