-- ===== src/Database/Advances/Mirrors.antt =====
-- packages/db/src/advances.ts against packages/core/src/exposure.ts: the queries that compute in SQL what
-- the core computes on advances.
use arkade_taxi.Prelude.{
  suc, ◌≡◌, ◌≢◌, refl, ap, ap₂, sym, ◌∙◌, inl, inr, not, Option, none, some, List, [], ◌∷◌, map, ok,
  filter, >>=-eq-ok, ok-injective, arith, Bool-cases, All, subst,
}
use arkade_taxi.Prelude.Int.{pos, ◌+ℤ◌}
use arkade_taxi.Core.Types.{Advance, AdvanceKind, covenant, sponsored}
use arkade_taxi.Core.Ledger.{advance_kind, is_sponsored, is_exposed}
use arkade_taxi.Core.Exposure.{compute_exposure}
use arkade_taxi.Core.Exposure.Totals.{total_topups, exposed_count, compute_exposure_sums}
use arkade_taxi.Database.Advances.{StoredAdvance, AdvanceRow}
use arkade_taxi.Database.Advances.Fields.{has_sponsor, kind_in}
use arkade_taxi.Database.Advances.Reading.{from_row}
use arkade_taxi.Database.Advances.Recovery.{is_covenant_kind}
use arkade_taxi.Database.Advances.Inversion.{Reads, from_row-Reads}
use arkade_taxi.Database.Advances.Views.{
  read_rows, is_at_risk, sum_topups, count_rows, exposure_totals,
}

-- The column `kind` is not null, as the schema has it.
abbrev pub HasKind : AdvanceRow → Type 0
HasKind r = r.kind ≢ none

abbrev pub core_of : StoredAdvance → Advance
core_of s = s.core

pub kind-mirror :
    (k : Option AdvanceKind) (a : Advance)
    → k ≢ none
    → a.kind ≡ kind_in k
    → (is_sponsored (advance_kind a) ≡ has_sponsor k) × (is_covenant_kind k ≡ not (has_sponsor k))
unfolding advance_kind
kind-mirror none a h e = absurd (h refl)
kind-mirror (some covenant) a h e = (rw e refl, refl)
kind-mirror (some sponsored) a h e = (rw e refl, refl)

is_exposed-mirror :
    (r : AdvanceRow) (a : Advance) → Reads r a → HasKind r → is_exposed a ≡ is_at_risk r
unfolding is_exposed is_at_risk
is_exposed-mirror r a m h =
    let (kind, column) = kind-mirror r.kind a h m.kind in rw (kind, column, m.state) (ground arith)

total_topups-mirror :
    (rows : List AdvanceRow) (advances : List StoredAdvance)
    → read_rows rows ≡ ok advances
    → All HasKind rows
    → (total_topups (map core_of advances) ≡ sum_topups (filter is_at_risk rows))
      × (exposed_count (map core_of advances) ≡ count_rows (filter is_at_risk rows))
unfolding read_rows
total_topups-mirror [] advances e h =
    subst (λ l. (total_topups (map core_of l) ≡ pos 0) × (exposed_count (map core_of l) ≡ 0))
      (ok-injective e) (refl, refl)
total_topups-mirror (r ∷ rs) advances e (k, h) =
    let (s, read, e1) = >>=-eq-ok (from_row r) _ e in
    let (ss, rest, e2) = >>=-eq-ok (read_rows rs) _ e1 in
    let (sats, count) = total_topups-mirror rs ss rest h in
    let m = from_row-Reads r s read in
    let risk : is_exposed s.core ≡ is_at_risk r = is_exposed-mirror r s.core m k in
    subst
      (λ l.
        (total_topups (map core_of l) ≡ sum_topups (filter is_at_risk (r ∷ rs)))
        × (exposed_count (map core_of l) ≡ count_rows (filter is_at_risk (r ∷ rs))))
      (ok-injective e2)
      (elim (Bool-cases (is_at_risk r)) [
        | inl yes_risk ↦ (
          rw (risk, yes_risk) (ap₂ (λ x y. x +ℤ y) m.topup sats),
          rw (risk, yes_risk) (ap suc count),
        )
        | inr no_risk ↦ (rw (risk, no_risk) sats, rw (risk, no_risk) count)
      ])

-- The totals that the database adds up are those that the core computes on the advances that the rows
-- read back as: the same sats and the same number, where every row has its kind.
pub exposure_totals-compute_exposure :
    (rows : List AdvanceRow) (advances : List StoredAdvance)
    → read_rows rows ≡ ok advances
    → All HasKind rows
    → ((exposure_totals rows).0 ≡ (compute_exposure (map core_of advances)).outstanding_sats)
      × ((exposure_totals rows).1 ≡ (compute_exposure (map core_of advances)).locked_count)
unfolding exposure_totals
exposure_totals-compute_exposure rows advances e h =
    let (sats, count) = total_topups-mirror rows advances e h in
    let (sats', count') = compute_exposure_sums (map core_of advances) in
    (sym (sats' ∙ sats), sym (count' ∙ count))
