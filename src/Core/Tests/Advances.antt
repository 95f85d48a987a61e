-- ===== src/Core/Tests/Advances.antt =====
-- packages/core/src/ledger.ts, exposure.ts and solvency.ts: the theorems at the sample advances.
use arkade_taxi.Prelude.{◌≡◌, ◌≤◌, refl, some, [], ◌∷◌, ok, All, filter, List}
use arkade_taxi.Prelude.Int.{pos, ◌≤ℤ◌, ◌+ℤ◌, ◌-ℤ◌}
use arkade_taxi.Prelude.Decimal.{to_decimal}
use arkade_taxi.Core.Fares.{asset_id_key}
use mathlib.Core.List.{Perm}
use arkade_taxi.Core.Types.{quoted, locking, locked, recycled, Advance}
use arkade_taxi.Core.Ledger.{
  transition, can_transition, is_exposed, validate_funding_snapshot, validate_joint_snapshot,
  advance_kind,
}
use arkade_taxi.Core.Ledger.Snapshot.{validate_funding_snapshot_iff, IsFundable}
use arkade_taxi.Core.Ledger.Lifecycle.{
  Edge, Ready, moved, Life, begins, goes_on, IsFunded, transition_iff, Life-length, Life-IsFunded,
}
use arkade_taxi.Core.Exposure.{compute_exposure, sweepable}
use arkade_taxi.Core.Exposure.Totals.{compute_exposure_sums}
use arkade_taxi.Core.Exposure.Oldest.{IsOldest, is_waiting, compute_exposure-IsOldest}
use arkade_taxi.Core.Exposure.Sweep.{Picks, IsInOrder, sweepable_lem}
use arkade_taxi.Core.Solvency.{CustodyOwed, compute_receivables, assess_solvency}
use arkade_taxi.Core.Solvency.Cover.{
  IsCovered, assess_solvency-shortfall_iff, compute_receivables-Receives, Receives,
}
use arkade_taxi.Core.Tests.{advance, token_a}

abbrev taken : Advance
taken = moved (advance quoted) locking 120

abbrev settled : Advance
settled = moved taken locked 130

locks : transition (advance quoted) locking 120 ≡ ok taken
unfolding transition can_transition validate_funding_snapshot validate_joint_snapshot advance_kind
locks = refl

observes : transition taken locked 130 ≡ ok settled
unfolding transition can_transition
observes = refl

life : Life (advance quoted) 2 settled
life = goes_on locked 130 (goes_on locking 120 begins locks) observes

transition_iff_example :
    Edge quoted locking
    × Ready locking (advance quoted)
    × (taken ≡ moved (advance quoted) locking 120)
transition_iff_example = (transition_iff (advance quoted) taken locking 120).0 locks

validate_funding_snapshot_iff_example : IsFundable (advance_kind (advance quoted)) (advance quoted)
unfolding validate_funding_snapshot validate_joint_snapshot advance_kind
validate_funding_snapshot_iff_example = (validate_funding_snapshot_iff (advance quoted)).0 refl

Life-IsFunded_example : IsFunded settled
Life-IsFunded_example = Life-IsFunded refl life

Life-length_example : 2 ≤ 4
Life-length_example = Life-length life

sweepable_lem_example :
    (due : List Advance) × Picks
      (pos 800_000)
      (some (pos 600_000_001))
      (advance locked ∷ advance recycled ∷ [])
      due
    × Perm
        (sweepable (advance locked ∷ advance recycled ∷ []) (pos 800_000) (some (pos 600_000_001)))
        due
    × IsInOrder
        (sweepable (advance locked ∷ advance recycled ∷ []) (pos 800_000) (some (pos 600_000_001)))
sweepable_lem_example =
    sweepable_lem (advance locked ∷ advance recycled ∷ []) (pos 800_000) (some (pos 600_000_001))

compute_exposure-IsOldest_example :
    IsOldest
      (filter is_waiting (advance locked ∷ advance locking ∷ []))
      (compute_exposure (advance locked ∷ advance locking ∷ [])).oldest_unswept_locktime
compute_exposure-IsOldest_example =
    compute_exposure-IsOldest (advance locked ∷ advance locking ∷ [])

compute_exposure_sums_example :
    ((compute_exposure (advance locked ∷ advance quoted ∷ [])).outstanding_sats ≡ pos 330)
    × ((compute_exposure (advance locked ∷ advance quoted ∷ [])).locked_count ≡ 1)
unfolding is_exposed ◌+ℤ◌
compute_exposure_sums_example = compute_exposure_sums (advance locked ∷ advance quoted ∷ [])

compute_receivables-Receives_example :
    Receives
      (advance locked ∷ advance recycled ∷ [])
      (compute_receivables (advance locked ∷ advance recycled ∷ []))
compute_receivables-Receives_example =
    compute_receivables-Receives (advance locked ∷ advance recycled ∷ [])

abbrev owed : CustodyOwed
owed = record { owed_sats = pos 500; assets = record { asset_id = token_a; units = pos 7 } ∷ [] }

assess_solvency-shortfall_iff_example :
    All (IsCovered (record { asset_id = token_a; units = pos 9 } ∷ [])) (owed.assets)
    × (pos 500 ≤ℤ pos 630)
unfolding assess_solvency asset_id_key to_decimal ◌+ℤ◌ ◌-ℤ◌
assess_solvency-shortfall_iff_example =
    (assess_solvency-shortfall_iff owed (pos 300)
        (record { asset_id = token_a; units = pos 9 } ∷ []) (pos 330)).0
      refl
