-- ===== src/Database/Advances/Due.antt =====
-- packages/db/src/advances.ts against packages/core/src/exposure.ts: the query for the lockups that can
-- be swept, and the function of the core.
use arkade_taxi.Prelude.{
  ◌≡◌, refl, ap, sym, ◌∙◌, inl, inr, Bool, true, false, not, ◌&&◌, Option, none, some, List, [],
  ◌∷◌, map, ok, filter, >>=-eq-ok, ok-injective, arith, Bool-cases, Option-cases, All, subst,
}
use arkade_taxi.Prelude.Int.{ℤ, eqb_ℤ_refl}
use arkade_taxi.Core.Types.{Advance, AdvanceKind, covenant, sponsored, DeadlineKind, height, time}
use arkade_taxi.Core.Ledger.{advance_kind, is_sponsored}
use arkade_taxi.Core.Exposure.{
  Sign, before, same, after, compare_due, insert_by, sort_by, is_due, sweepable, compare_kinds,
  expiry_value, kind_or, is_locked,
}
use arkade_taxi.Database.Advances.{StoredAdvance, AdvanceRow}
use arkade_taxi.Database.Advances.Fields.{has_sponsor, bad_expiry_columns, recovery_deadline_in}
use arkade_taxi.Database.Advances.Reading.{from_row}
use arkade_taxi.Database.Advances.Recovery.{is_covenant_kind}
use arkade_taxi.Database.Advances.Inversion.{Reads, from_row-Reads}
use arkade_taxi.Database.Advances.Views.{
  read_rows, is_sweepable_row, compare_rows, list_sweepable, kind_rank, compare_ranks, expiry_of,
}
use arkade_taxi.Database.Advances.Mirrors.{HasKind, core_of, kind-mirror}

abbrev pub is_covenant : Advance → Bool
is_covenant a = not (is_sponsored (advance_kind a))

no_expiry :
    (k : Option DeadlineKind) (v : Option ℤ)
    → bad_expiry_columns false k v ≡ false
    → (k ≡ none) × (v ≡ none)
no_expiry none none h = (refl, refl)
no_expiry none (some v) h = cc
no_expiry (some k) v h = cc

-- A covenant row, with the columns of its expiry null.
covenant_columns :
    (r : AdvanceRow) (a : Advance)
    → Reads r a
    → is_covenant_kind r.kind ≡ true
    → (r.batch_expiry_kind ≡ none) × (r.batch_expiry_value ≡ none)
covenant_columns r a m h = no_expiry r.batch_expiry_kind r.batch_expiry_value (
    sym (ap (λ b. bad_expiry_columns b r.batch_expiry_kind r.batch_expiry_value) (direct r.kind h))
    ∙ m.columns)
  where
    direct : (k : Option AdvanceKind) → is_covenant_kind k ≡ true → has_sponsor k ≡ false
    direct none h = cc
    direct (some covenant) h = refl
    direct (some sponsored) h = cc

due-mirror :
    (h : ℤ) (m : Option ℤ) (r : AdvanceRow) (a : Advance)
    → Reads r a
    → is_covenant_kind r.kind ≡ true
    → is_sweepable_row h m r ≡ is_due h m a
unfolding is_sweepable_row is_due is_locked
due-mirror h m r a reads k =
    let (kind, value) = covenant_columns r a reads k in
    elim (Option-cases r.recovery_locktime_kind) [
      | inl e ↦ rw (k, reads.deadline, e, kind) (ground arith)
      | inr (height, e) ↦ rw (k, reads.deadline, e, kind, reads.batch) (ground arith)
      | inr (time, e) ↦
          rw (k, reads.deadline, e, kind, reads.batch, reads.state, reads.locktime)
            (ground (arith, eqb_ℤ_refl r.locktime, m))
    ]

not_covenant :
    (h : ℤ) (m : Option ℤ) (r : AdvanceRow)
    → is_covenant_kind r.kind ≡ false
    → is_sweepable_row h m r ≡ false
unfolding is_sweepable_row
not_covenant h m r e = ground arith

rank-kinds :
    (k l : Option DeadlineKind) (x y : ℤ)
    → compare_ranks (kind_rank k) (kind_rank l)
      ≡ compare_kinds
          (kind_or (recovery_deadline_in k x) time)
          (kind_or (recovery_deadline_in l y) time)
rank-kinds none none x y = refl
rank-kinds none (some height) x y = refl
rank-kinds none (some time) x y = refl
rank-kinds (some height) none x y = refl
rank-kinds (some height) (some height) x y = refl
rank-kinds (some height) (some time) x y = refl
rank-kinds (some time) none x y = refl
rank-kinds (some time) (some height) x y = refl
rank-kinds (some time) (some time) x y = refl

-- A covenant row and the advance that it reads back as.
abbrev Pair : AdvanceRow → StoredAdvance → Type 0
Pair r s = (from_row r ≡ ok s) × (is_covenant_kind r.kind ≡ true)

expiry-mirror : (r : AdvanceRow) (s : StoredAdvance) → Pair r s → expiry_value s.core ≡ expiry_of r
expiry-mirror r s (read, k) =
    let m = from_row-Reads r s read in
    let (kind, value) = covenant_columns r s.core m k in rw (m.batch, kind, value) m.locktime

abbrev compare_stored : StoredAdvance → StoredAdvance → Sign
compare_stored s t = compare_due s.core t.core

compare-mirror :
    (r q : AdvanceRow) (s t : StoredAdvance)
    → Pair r s
    → Pair q t
    → compare_rows r q ≡ compare_stored s t
unfolding compare_rows compare_due
compare-mirror r q s t p p' =
    let m = from_row-Reads r s p.0 in
    let n = from_row-Reads q t p'.0 in
    rw
      (
        expiry-mirror r s p,
        expiry-mirror q t p',
        m.deadline,
        n.deadline,
        m.locktime,
        n.locktime,
        m.id,
        n.id,
        rank-kinds r.recovery_locktime_kind q.recovery_locktime_kind r.locktime q.locktime,
      )
      refl

abbrev Pairs : List AdvanceRow → List StoredAdvance → Type 0
Pairs [] [] = Unit
Pairs [] (_ ∷ _) = ⊥
Pairs (_ ∷ _) [] = ⊥
Pairs (r ∷ rs) (s ∷ ss) = Pair r s × Pairs rs ss

read_rows-Pairs :
    (rs : List AdvanceRow) (ss : List StoredAdvance) → Pairs rs ss → read_rows rs ≡ ok ss
unfolding read_rows
read_rows-Pairs [] [] p = refl
read_rows-Pairs [] (s ∷ ss) p = absurd p
read_rows-Pairs (r ∷ rs) [] p = absurd p
read_rows-Pairs (r ∷ rs) (s ∷ ss) ((read, k), p) = rw (read, read_rows-Pairs rs ss p) refl

insert_by-Pairs :
    (r : AdvanceRow) (s : StoredAdvance) (rs : List AdvanceRow) (ss : List StoredAdvance)
    → Pair r s
    → Pairs rs ss
    → Pairs (insert_by compare_rows r rs) (insert_by compare_stored s ss)
unfolding insert_by
insert_by-Pairs r s [] [] p ps = (p, tt)
insert_by-Pairs r s [] (t ∷ ts) p ps = absurd ps
insert_by-Pairs r s (q ∷ qs) [] p ps = absurd ps
insert_by-Pairs r s (q ∷ qs) (t ∷ ts) p (p', ps) =
    subst
      (λ sign.
        Pairs
          (elim sign [
            | after ↦ q ∷ insert_by compare_rows r qs
            | before ↦ r ∷ q ∷ qs
            | same ↦ r ∷ q ∷ qs
          ])
          (insert_by compare_stored s (t ∷ ts)))
      (sym (compare-mirror r q s t p p'))
      (placed (insert_by-Pairs r s qs ts p ps) (compare_stored s t))
  where
    placed :
        Pairs (insert_by compare_rows r qs) (insert_by compare_stored s ts)
        → (sign : Sign)
        → Pairs
            (elim sign [
              | after ↦ q ∷ insert_by compare_rows r qs
              | before ↦ r ∷ q ∷ qs
              | same ↦ r ∷ q ∷ qs
            ])
            (elim sign [
              | after ↦ t ∷ insert_by compare_stored s ts
              | before ↦ s ∷ t ∷ ts
              | same ↦ s ∷ t ∷ ts
            ])
    placed deeper after = (p', deeper)
    placed deeper before = (p, (p', ps))
    placed deeper same = (p, (p', ps))

sort_by-Pairs :
    (rs : List AdvanceRow) (ss : List StoredAdvance)
    → Pairs rs ss
    → Pairs (sort_by compare_rows rs) (sort_by compare_stored ss)
unfolding sort_by
sort_by-Pairs [] [] p = tt
sort_by-Pairs [] (s ∷ ss) p = absurd p
sort_by-Pairs (r ∷ rs) [] p = absurd p
sort_by-Pairs (r ∷ rs) (s ∷ ss) (p, ps) =
    insert_by-Pairs r s (sort_by compare_rows rs) (sort_by compare_stored ss) p
      (sort_by-Pairs rs ss ps)

map-insert_by :
    (s : StoredAdvance) (ss : List StoredAdvance)
    → map core_of (insert_by compare_stored s ss) ≡ insert_by compare_due s.core (map core_of ss)
unfolding insert_by
map-insert_by s [] = refl
map-insert_by s (t ∷ ts) = placed (map-insert_by s ts) (compare_due s.core t.core)
  where
    placed :
        map core_of (insert_by compare_stored s ts) ≡ insert_by compare_due s.core (map core_of ts)
        → (sign : Sign)
        → map core_of (elim sign [
          | after ↦ t ∷ insert_by compare_stored s ts
          | before ↦ s ∷ t ∷ ts
          | same ↦ s ∷ t ∷ ts
        ])
          ≡ elim sign [
            | after ↦ t.core ∷ insert_by compare_due s.core (map core_of ts)
            | before ↦ s.core ∷ t.core ∷ map core_of ts
            | same ↦ s.core ∷ t.core ∷ map core_of ts
          ]
    placed deeper after = ap (λ l. t.core ∷ l) deeper
    placed deeper before = refl
    placed deeper same = refl

map-sort_by :
    (ss : List StoredAdvance)
    → map core_of (sort_by compare_stored ss) ≡ sort_by compare_due (map core_of ss)
unfolding sort_by
map-sort_by [] = refl
map-sort_by (s ∷ ss) =
    map-insert_by s (sort_by compare_stored ss) ∙ ap (insert_by compare_due s.core) (map-sort_by ss)

module _ (h : ℤ) (m : Option ℤ) where
  abbrev is_due_covenant : StoredAdvance → Bool
  is_due_covenant s = is_covenant s.core && is_due h m s.core

  map-filter :
      (ss : List StoredAdvance)
      → map core_of (filter is_due_covenant ss)
        ≡ filter (is_due h m) (filter is_covenant (map core_of ss))
  map-filter [] = refl
  map-filter (s ∷ ss) = elim (Bool-cases (is_covenant s.core)) [
    | inr e ↦ rw e (map-filter ss)
    | inl e ↦ elim (Bool-cases (is_due h m s.core)) [
      | inl d ↦ rw (e, d) (ap (λ l. s.core ∷ l) (map-filter ss))
      | inr d ↦ rw (e, d) (map-filter ss)
    ]
  ]

  sweepable-mirror :
      (r : AdvanceRow) (s : StoredAdvance)
      → from_row r ≡ ok s
      → HasKind r
      → (is_sweepable_row h m r ≡ is_due_covenant s)
        × (is_due_covenant s ≡ true → is_covenant_kind r.kind ≡ true)
  sweepable-mirror r s read k =
      let reads = from_row-Reads r s read in
      let (kind, column) = kind-mirror r.kind s.core k reads.kind in
      let equal : is_covenant s.core ≡ is_covenant_kind r.kind = ap not kind ∙ sym column in
      elim (Bool-cases (is_covenant_kind r.kind)) [
        | inl e ↦ (rw (equal, e) (due-mirror h m r s.core reads e), λ d. e)
        | inr e ↦ (rw (equal, e) (not_covenant h m r e), λ d. absurd (cc (rw (equal, e) at d)))
      ]

  filter-Pairs :
      (rows : List AdvanceRow) (advances : List StoredAdvance)
      → read_rows rows ≡ ok advances
      → All HasKind rows
      → Pairs (filter (is_sweepable_row h m) rows) (filter is_due_covenant advances)
  unfolding read_rows
  filter-Pairs [] advances e k =
      subst (λ l. Pairs [] (filter is_due_covenant l)) (ok-injective e) tt
  filter-Pairs (r ∷ rs) advances e (k, ks) =
      let (s, read, e1) = >>=-eq-ok (from_row r) _ e in
      let (ss, rest, e2) = >>=-eq-ok (read_rows rs) _ e1 in
      let (equal, kind) = sweepable-mirror r s read k in
      subst (λ l. Pairs (filter (is_sweepable_row h m) (r ∷ rs)) (filter is_due_covenant l))
        (ok-injective e2)
        (elim (Bool-cases (is_due_covenant s)) [
          | inl d ↦ rw (equal, d) ((read, kind d), filter-Pairs rs ss rest ks)
          | inr d ↦ rw (equal, d) (filter-Pairs rs ss rest ks)
        ])

  -- Where every row reads back and has its kind, the query for the lockups that can be swept reads back
  -- too, and gives what the core's function gives on the covenant advances of the table: the same ones
  -- in the same order.
  pub list_sweepable-sweepable :
      (rows : List AdvanceRow) (advances : List StoredAdvance)
      → read_rows rows ≡ ok advances
      → All HasKind rows
      → (due : List StoredAdvance) × (list_sweepable h m rows ≡ ok due)
        × (map core_of due ≡ sweepable (filter is_covenant (map core_of advances)) h m)
  unfolding list_sweepable sweepable
  list_sweepable-sweepable rows advances e k =
      let due = filter is_due_covenant advances in
      let pairs = filter-Pairs rows advances e k in
      (
        sort_by compare_stored due,
        read_rows-Pairs _ (sort_by compare_stored due) (sort_by-Pairs _ due pairs),
        map-sort_by due ∙ ap (sort_by compare_due) (map-filter advances),
      )
