-- ===== src/Covenant/Tests.antt =====
-- packages/covenant/src/params.ts: the theorems at sample parameters. Every key of 32 bytes is taken
-- for valid, and every timelock of fewer than 2 ^ 25 seconds for encodable.
use arkade_taxi.Prelude.{◌≡◌, refl, Bool, true, none, some, Bytes, ok}
use arkade_taxi.Prelude.Int.{pos, ◌≤ℤ◌, ◌+ℤ◌, ltb_ℤ}
use arkade_taxi.Core.Fares.{to_recycle}
use arkade_taxi.Core.Types.{seconds, RelativeTimelock, to_receiver, sats_units, DustCovenantParams}
use arkade_taxi.Core.Tests.{repeat, token_a}
use arkade_taxi.Covenant.Params.{
  equal_keys, lockup_sats, loan_sats, recycle_fare, exit_timelock, exit_delay_encodable, check_key,
  check_keys, check_amounts, check_distinct, check_times, check_fare, validate_params,
}
use arkade_taxi.Covenant.Params.Validity.{
  IsCovenant, validate_params_iff, Repays, lockup_covers_loan,
}

abbrev any_key : Bytes → Bool
any_key k = true

abbrev short_delay : RelativeTimelock → Bool
short_delay d = ltb_ℤ d.value (pos 33_554_432)

-- An asset lockup of one dust unit, whose receiver pays 5 sats.
abbrev params : DustCovenantParams
params = record {
  receiver_key = repeat 32 1;
  sender_key = repeat 32 2;
  operator_key = repeat 32 3;
  operator_signer_key = repeat 32 4;
  exit_delay = record { value = pos 1024; type = seconds };
  dust = pos 330;
  topup = pos 330;
  payment_sats = none;
  asset_id = some token_a;
  locktime = pos 600_000_000;
  recovery_recipient = some to_receiver;
  claim_mode = some to_recycle;
  receiver_fare = some (sats_units (pos 5));
}

accepted : validate_params any_key short_delay params (pos 1) ≡ ok tt
unfolding validate_params check_keys check_key check_amounts check_distinct check_times check_fare
    equal_keys exit_timelock exit_delay_encodable
accepted = refl

validate_params_iff_example : IsCovenant any_key short_delay params (pos 1)
validate_params_iff_example = (validate_params_iff any_key short_delay params (pos 1)).0 accepted

lockup_covers_loan_example :
    (loan_sats params ≡ params.dust)
    × (lockup_sats params ≡ loan_sats params +ℤ pos 0)
    × (loan_sats params ≤ℤ lockup_sats params)
    × Repays params.receiver_fare params.dust (recycle_fare params)
    × (loan_sats params ≤ℤ (recycle_fare params).operator_sats)
    × (pos 0 ≤ℤ (recycle_fare params).asset_fare)
lockup_covers_loan_example = lockup_covers_loan any_key short_delay params (pos 1) accepted
