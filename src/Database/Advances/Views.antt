-- ===== src/Database/Advances/Views.antt =====
-- packages/db/src/advances.ts: the queries of the repository that change nothing.
use arkade_taxi.Prelude.{
  ℕ, suc, Bool, false, not, ◌&&◌, ◌||◌, Option, none, some, List, [], ◌∷◌, Result, ok, err, ◌>>=◌,
  if◌then◌else◌, filter, is_some, ltb, find,
}
use arkade_taxi.Prelude.Int.{ℤ, pos, ◌+ℤ◌, leb_ℤ}
use arkade_taxi.Core.Types.{
  AdvanceState, Outpoint, locking, locked, recovering, DeadlineKind, height, time, kind_eq,
}
use arkade_taxi.Core.Exposure.{
  Sign, same, before, after, then_by, compare_sats, compare_ids, sort_by,
}
use arkade_taxi.Database.Advances.{StoredAdvance, AdvanceRow}
use arkade_taxi.Database.Advances.Fields.{RowError, has_sponsor}
use arkade_taxi.Database.Advances.Reading.{from_row}
use arkade_taxi.Database.Advances.Store.{in_state}
use arkade_taxi.Database.Advances.Recovery.{is_covenant_kind}
use arkade_taxi.Database.Advances.Lockup.{is_on}

-- `.all().map(fromRow)`
unfoldable pub read_rows : List AdvanceRow → Result RowError (List StoredAdvance)
read_rows [] = ok []
read_rows (r ∷ rs) = do s ← from_row r; ss ← read_rows rs; ok (s ∷ ss)

unfoldable pub by_state : AdvanceState → List AdvanceRow → Result RowError (List StoredAdvance)
by_state s rows = read_rows (filter (in_state s) rows)

unfoldable pub sponsored_locked : List AdvanceRow → Result RowError (List StoredAdvance)
sponsored_locked rows = read_rows (filter (λ r. in_state locked r && has_sponsor r.kind) rows)

-- `#byOutpoint.get(…)`, and the row read back
unfoldable pub by_outpoint : Outpoint → List AdvanceRow → Result RowError (Option StoredAdvance)
by_outpoint o rows = elim (find (is_on o.txid o.vout) rows) [
  | none ↦ ok none
  | some r ↦ elim (from_row r) [ err thrown ↦ err thrown | ok a ↦ ok (some a) ]
]

-- The `WHERE` of `exposureTotals`.
unfoldable pub is_at_risk : AdvanceRow → Bool
is_at_risk r =
    in_state locking r || (is_covenant_kind r.kind && (in_state locked r || in_state recovering r))

abbrev pub sum_topups : List AdvanceRow → ℤ
sum_topups [] = pos 0
sum_topups (r ∷ rs) = r.topup +ℤ sum_topups rs

abbrev pub count_rows : List AdvanceRow → ℕ
count_rows [] = 0
count_rows (r ∷ rs) = suc (count_rows rs)

-- `coalesce(sum(topup), 0)` and `count(*)` of the rows at risk
unfoldable pub exposure_totals : List AdvanceRow → ℤ × ℕ
exposure_totals rows = (sum_topups (filter is_at_risk rows), count_rows (filter is_at_risk rows))

unfoldable pub sum_topup_by_state : AdvanceState → List AdvanceRow → ℤ
sum_topup_by_state s rows = sum_topups (filter (in_state s) rows)

-- `listMissingFundingSnapshotIds` and `assertExitParamsPresent`
unfoldable pub lacks_funding : AdvanceRow → Bool
lacks_funding r =
    (has_sponsor r.kind
      && (not (is_some r.batch_expiry_kind) || not (is_some r.batch_expiry_value)))
    || (not (has_sponsor r.kind) && is_some r.batch_expiry_kind)
    || not (is_some r.operator_inputs_json)
    || not (is_some r.unsigned_lockup_tx)
    || not (is_some r.unsigned_lockup_id)

unfoldable pub lacks_exit_params : AdvanceRow → Bool
lacks_exit_params r =
    not (is_some r.exit_signer_key)
    || not (is_some r.exit_delay_type)
    || not (is_some r.exit_delay_value)

-- `a = b` on columns that may be null, and `a = 'height'`
abbrev pub same_kind : Option DeadlineKind → Option DeadlineKind → Bool
same_kind none _ = false
same_kind (some k) none = false
same_kind (some k) (some l) = kind_eq k l

abbrev pub is_kind : DeadlineKind → Option DeadlineKind → Bool
is_kind k none = false
is_kind k (some l) = kind_eq l k

-- `locktime <= ?`, which null never meets
abbrev pub is_reached : ℤ → Option ℤ → Bool
is_reached locktime none = false
is_reached locktime (some clock) = leb_ℤ locktime clock

-- The `WHERE` of `listSweepable`.
unfoldable pub is_sweepable_row : ℤ → Option ℤ → AdvanceRow → Bool
is_sweepable_row current_height median_time r =
    in_state locked r
    && is_covenant_kind r.kind
    && (same_kind r.recovery_locktime_kind r.batch_expiry_kind
        || (not (is_some r.batch_expiry_kind) && is_kind time r.recovery_locktime_kind))
    && ((is_kind height r.recovery_locktime_kind && leb_ℤ r.locktime current_height)
        || (is_kind time r.recovery_locktime_kind && is_reached r.locktime median_time))

-- `CASE … WHEN 'height' THEN 0 ELSE 1 END`
abbrev pub kind_rank : Option DeadlineKind → ℕ
kind_rank none = 1
kind_rank (some height) = 0
kind_rank (some time) = 1

abbrev pub compare_ranks : ℕ → ℕ → Sign
compare_ranks m n = if ltb m n then before else if ltb n m then after else same

-- `coalesce(batch_expiry_value, locktime)`
abbrev pub expiry_of : AdvanceRow → ℤ
expiry_of r = elim r.batch_expiry_value [ none ↦ r.locktime | some v ↦ v ]

-- The `ORDER BY` of `listSweepable`. Ids are compared by their code units; SQLite's order by bytes is the
-- same on ASCII.
unfoldable pub compare_rows : AdvanceRow → AdvanceRow → Sign
compare_rows x y =
    then_by
      (compare_ranks (kind_rank x.recovery_locktime_kind) (kind_rank y.recovery_locktime_kind))
      (then_by (compare_sats (expiry_of x) (expiry_of y))
        (then_by (compare_sats x.locktime y.locktime) (compare_ids x.id y.id)))

unfoldable pub list_sweepable :
    ℤ → Option ℤ → List AdvanceRow → Result RowError (List StoredAdvance)
list_sweepable current_height median_time rows =
    read_rows (sort_by compare_rows (filter (is_sweepable_row current_height median_time) rows))
