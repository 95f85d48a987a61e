-- ===== src/Core/Ledger/Snapshot.antt =====
-- Which funding snapshots `validateFundingSnapshot` lets an advance lock with.
use arkade_taxi.Prelude.{
  ℕ, ◌≤◌, ◌≡◌, refl, ◌≢◌, ◌⊎◌, inl, inr, ◌↔◌, true, false, Option, none, some, List, [], ◌∷◌, ok,
  arith, All, all, length,
}
use arkade_taxi.Prelude.Int.{
  ℤ, pos, negsuc, Number, int, non_integer, in_range, eqb_ℤ_refl, ◌≤ℤ◌, ◌<ℤ◌,
}
use arkade_taxi.Prelude.Hex.{is_hex}
use arkade_taxi.Core.Types.{
  Outpoint, time, kind_eq_iff, ExpiryDeadline, FundingSnapshot, AdvanceKind, covenant, sponsored,
  Advance,
}
use arkade_taxi.Core.Ledger.{
  advance_kind, is_valid_input, bad_recovery, validate_joint_snapshot, validate_funding_snapshot,
}

-- An outpoint: 64 lowercase hexadecimal digits, and an index that fits 32 bits.
pub record IsOutpoint (o : Outpoint) : Type 0 where
  pub digits : length o.txid ≡ 64
  pub hex : all is_hex o.txid ≡ true
  pub index : ℕ
  pub vout : o.vout ≡ int (pos index)
  pub fits : index ≤ 0xffff_ffff

-- The coins and the transaction that both rails need.
pub record IsJoint (f : FundingSnapshot) : Type 0 where
  pub tx : f.unsigned_lockup_tx ≢ []
  pub tx_id : f.unsigned_lockup_id ≢ []
  pub inputs : f.operator_inputs ≢ []
  pub outpoints : All IsOutpoint f.operator_inputs

-- A deadline on the clock, after the advance was made, that is also the covenant's locktime.
abbrev pub IsDeadline : Option ExpiryDeadline → ℤ → ℕ → Type 0
IsDeadline none locktime created_at = ⊥
IsDeadline (some d) locktime created_at =
    (d.kind ≡ time)
    × (d.value ≡ locktime)
    × (pos 500_000_000 ≤ℤ d.value)
    × (pos created_at <ℤ d.value)

-- What each rail records at lockup: a sponsored advance the expiry of its coins, a covenant advance
-- a deadline and no expiry.
abbrev pub IsFundable : AdvanceKind → Advance → Type 0
IsFundable sponsored a = (a.funding.batch_expiry ≢ none) × IsJoint a.funding
IsFundable covenant a =
    (a.funding.batch_expiry ≡ none)
    × IsDeadline a.funding.recovery_locktime a.locktime a.created_at
    × IsJoint a.funding

in_range_iff :
    (max : ℕ) (n : Number) → (in_range max n ≡ true) ↔ ((i : ℕ) × (n ≡ int (pos i)) × (i ≤ max))
in_range_iff max (int (pos i)) = (λ h. (i, refl, ground arith), λ (j, e, h). ground arith)
in_range_iff max (int (negsuc i)) = (λ h. cc, λ (j, e, h). cc)
in_range_iff max non_integer = (λ h. cc, λ (j, e, h). cc)

is_valid_input_iff : (o : Outpoint) → (is_valid_input o ≡ true) ↔ IsOutpoint o
is_valid_input_iff o =
    let (to, from) = in_range_iff 0xffff_ffff o.vout in
    (
      λ h.
          let (i, e, k) = to (ground arith) in
          record { digits = ground arith; hex = ground arith; index = i; vout = e; fits = k },
      λ v. ground (arith, from (v.index, v.vout, v.fits), v.digits, v.hex),
    )

all-valid_iff : (os : List Outpoint) → (all is_valid_input os ≡ true) ↔ All IsOutpoint os
all-valid_iff [] = (λ _. tt, λ _. refl)
all-valid_iff (o ∷ os) =
    let (to, from) = is_valid_input_iff o in
    let (to_all, from_all) = all-valid_iff os in
    (
      λ h. (to (ground arith), to_all (ground arith)),
      λ (v, vs). ground (arith, from v, from_all vs),
    )

validate_joint_snapshot_iff :
    (a : Advance) → (validate_joint_snapshot a ≡ ok tt) ↔ IsJoint a.funding
unfolding validate_joint_snapshot
validate_joint_snapshot_iff a =
    let (to, from) = all-valid_iff a.funding.operator_inputs in
    (
      λ h. record {
        tx = ground arith;
        tx_id = ground arith;
        inputs = ground arith;
        outpoints = to (ground arith);
      },
      λ v. ground (arith, from v.outpoints, v.tx, v.tx_id, v.inputs),
    )

bad_recovery_iff :
    (d : Option ExpiryDeadline) (locktime : ℤ) (created_at : ℕ)
    → (bad_recovery d locktime created_at ≡ false) ↔ IsDeadline d locktime created_at
bad_recovery_iff none locktime created_at = (λ h. cc, λ h. absurd h)
bad_recovery_iff (some d) locktime created_at =
    let (kind, kind') = kind_eq_iff d.kind time in
    (
      λ h. ground (arith, kind),
      λ (k, v, h, l). ground (arith, kind' k, eqb_ℤ_refl locktime, v, h, l),
    )

kind-cases : (k : AdvanceKind) → (k ≡ sponsored) ⊎ (k ≡ covenant)
kind-cases sponsored = inl refl
kind-cases covenant = inr refl

validate_sponsored :
    (a : Advance)
    → advance_kind a ≡ sponsored
    → (validate_funding_snapshot a ≡ ok tt) ↔ IsFundable sponsored a
unfolding validate_funding_snapshot
validate_sponsored a e =
    let (to, from) = validate_joint_snapshot_iff a in
    (λ h. (ground arith, to (ground arith)), λ (k, v). ground (arith, from v, k))

validate_covenant :
    (a : Advance)
    → advance_kind a ≡ covenant
    → (validate_funding_snapshot a ≡ ok tt) ↔ IsFundable covenant a
unfolding validate_funding_snapshot
validate_covenant a e =
    let (to, from) = validate_joint_snapshot_iff a in
    let (deadline, deadline') =
      bad_recovery_iff a.funding.recovery_locktime a.locktime a.created_at in
    (
      λ h. (ground arith, deadline (ground arith), to (ground arith)),
      λ (k, d, v). ground (arith, from v, deadline' d, k),
    )

-- The check that stands before `locking` passes exactly for the snapshots that the advance's rail may
-- lock with: a sponsored advance has an expiry, a covenant advance has no expiry and a deadline that
-- is wall-clock time, at least 500000000, later than its creation and equal to the covenant's
-- locktime; both have a transaction, its id, and one or more coins, each a valid outpoint.
pub validate_funding_snapshot_iff :
    (a : Advance) → (validate_funding_snapshot a ≡ ok tt) ↔ IsFundable (advance_kind a) a
validate_funding_snapshot_iff a = elim (kind-cases (advance_kind a)) [
  | inl e ↦ rw e (validate_sponsored a e)
  | inr e ↦ rw e (validate_covenant a e)
]
