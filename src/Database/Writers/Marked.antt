-- ===== src/Database/Writers/Marked.antt =====
-- packages/app/src/sweeper.ts: what the mark on a reclaimed advance makes of the table.
use arkade_taxi.Prelude.{
  ◌≡◌, refl, ap, sym, ◌∙◌, true, false, none, some, List, [], ◌∷◌, Text, Option, Result, ok, err,
  find, throw_if, >>-eq-ok, >>=-eq-ok, ok-injective, inl, inr, Bool-cases, subst, text_eq,
  text_eq_iff, any, not, ◌&&◌, ◌==◌, Result-cases, if◌then◌else◌,
}
use arkade_taxi.Database.Advances.{StoredAdvance, AdvanceRow}
use arkade_taxi.Core.Ledger.{validate_funding_snapshot}
use arkade_taxi.Database.Advances.Writing.{
  ParamsError, snapshot_checked, bad_quantity, bad_asset_quantity, to_params, row_of,
}
use arkade_taxi.Database.Advances.Reading.{from_row}
use arkade_taxi.Database.Advances.Moves.{Moves, RowMove, moving, still, stays}
use arkade_taxi.Database.Advances.Inversion.{from_row-Reads}
use arkade_taxi.Database.Advances.Liability.{get-found}
use arkade_taxi.Database.Advances.History.{RowAfter}
use arkade_taxi.Database.Advances.Store.{
  Store, AdvanceFailure, get, has_row_id, update_advances, duplicate_key, advance_not_found,
}
use arkade_taxi.Database.Advances.Lockup.{params_or_throw, update, meets_index}
use arkade_taxi.Database.Advances.Recovery.{update_or_missing}
use arkade_taxi.Database.Rows.{update_where, changes}
use arkade_taxi.App.Sweeper.{marked, needs_mark, mark_found, mark_submitted}
use arkade_taxi.Database.Writers.ReadBack.{row_of-kept}

-- The mark leaves what is kept, and the state.
pub marked-move :
    (r : AdvanceRow) (s : StoredAdvance) → from_row r ≡ ok s → RowMove r (row_of (marked s))
unfolding row_of
marked-move r s e =
    let m = from_row-Reads r s e in
    moving r (row_of (marked s)) (row_of-kept r s e) (subst (Moves r.state) (sym m.state) stays)

to_params-row :
    (s : StoredAdvance) (row : AdvanceRow) → params_or_throw (to_params s) ≡ ok row → row ≡ row_of s
unfolding to_params
to_params-row s row e = elim (Result-cases (to_params s)) [
  | inr (thrown, t) ↦ absurd (not_thrown thrown (rw (t, to_params) at e))
  | inl (made, t) ↦
      let (_, t1) = >>-eq-ok (snapshot_checked (validate_funding_snapshot s.core)) _ t in
      let (_, t2) =
        >>-eq-ok (throw_if (bad_quantity s.core.asset_id s.core.asset_units) bad_asset_quantity) _
          t1 in
      sym (ok-injective t2 ∙ ok-injective (rw (t, to_params) at e))
]
  where
    not_thrown :
        (thrown : ParamsError)
        → Path (Result AdvanceFailure AdvanceRow) (params_or_throw (err thrown)) (ok row)
        → ⊥
    not_thrown thrown h = cc

-- The row found under an id, once the rows of an id are replaced by a row of that id.
find-replaced :
    (id : Text) (row : AdvanceRow) (rows : List AdvanceRow) {r : AdvanceRow}
    → find (has_row_id id) rows ≡ some r
    → (find (has_row_id id) (update_where (has_row_id row.id) (λ q. row) rows)
        ≡ some (if text_eq r.id row.id then row else r))
      × (r.id ≡ id)
unfolding update_where
find-replaced id row [] e = cc
find-replaced id row (q ∷ qs) {r} e = elim (Bool-cases (text_eq q.id id)) [
  | inl here ↦
      let e' = rw here at e in
      let is_r : q ≡ r = cc in
      let key : q.id ≡ id = (text_eq_iff q.id id).0 here in
      elim (Bool-cases (text_eq q.id row.id)) [
        | inl hit ↦
            let same : text_eq row.id id ≡ true =
              (text_eq_iff row.id id).1 (sym ((text_eq_iff q.id row.id).0 hit) ∙ key) in
            let hit' : text_eq r.id row.id ≡ true =
              subst (λ t. text_eq t.id row.id ≡ true) is_r hit in
            (rw (hit, same, hit') refl, subst (λ t. t.id ≡ id) is_r key)
        | inr miss ↦
            let miss' : text_eq r.id row.id ≡ false =
              subst (λ t. text_eq t.id row.id ≡ false) is_r miss in
            (rw (miss, here, miss') (ap some is_r), subst (λ t. t.id ≡ id) is_r key)
      ]
  | inr away ↦
      let (rest, key) = find-replaced id row qs (rw away at e) in
      elim (Bool-cases (text_eq q.id row.id)) [
        | inl hit ↦
            let other : text_eq row.id id ≡ false =
              subst (λ t. text_eq t id ≡ false) ((text_eq_iff q.id row.id).0 hit) away in
            (rw (hit, other) rest, key)
        | inr miss ↦ (rw (miss, away) rest, key)
      ]
]

replaced-row :
    (id k : Text) (row : AdvanceRow) (rows : List AdvanceRow) {r0 r : AdvanceRow}
    → find (has_row_id id) rows ≡ some r0
    → RowMove r0 row
    → find (has_row_id k) rows ≡ some r
    → (r' : AdvanceRow) × (find (has_row_id k) (update_where (has_row_id row.id) (λ q. row) rows)
        ≡ some r')
      × RowMove r r'
replaced-row id k row rows {r0} {r} found0 move found =
    let (_, key0) = find-replaced id row rows found0 in
    let (place, key) = find-replaced k row rows found in
    elim (Bool-cases (text_eq r.id row.id)) [
      | inr miss ↦ (r, place ∙ rw miss refl, still r)
      | inl hit ↦
          let one_id : id ≡ k =
            sym key0 ∙ sym move.same_id ∙ sym ((text_eq_iff r.id row.id).0 hit) ∙ key in
          let there : find (has_row_id k) rows ≡ some r0 =
            subst (λ t. find (has_row_id t) rows ≡ some r0) one_id found0 in
          let same : r0 ≡ r = cc in (row, place ∙ rw hit refl, subst (λ q. RowMove q row) same move)
    ]

mark_found-row :
    (id : Text) (found : Option StoredAdvance) (db after : Store) (k : Text) {r : AdvanceRow}
    → get db id ≡ ok found
    → mark_found found db ≡ ok after
    → find (has_row_id k) db.advances ≡ some r
    → RowAfter after k r
unfolding mark_found update update_or_missing update_advances row_of
mark_found-row id none db after k {r} got e found = (
  r,
  subst (λ (d : Store). find (has_row_id k) d.advances ≡ some r) (ok-injective e) found,
  still r,
)
mark_found-row id (some s) db after k {r} got e found = elim (Bool-cases (needs_mark s)) [
  | inr no_need ↦ (
    r,
    subst (λ (d : Store). find (has_row_id k) d.advances ≡ some r) (ok-injective (rw no_need at e))
        found,
    still r,
  )
  | inl need ↦
      let (row, made, e1) = >>=-eq-ok (params_or_throw (to_params (marked s))) _ (rw need at e) in
      let (_, e2) =
        >>-eq-ok
          (throw_if
            (any (has_row_id row.id) db.advances
              && any (λ q. not (has_row_id row.id q) && meets_index row q) db.advances)
            duplicate_key)
          _ e1 in
      let (_, e3) =
        >>-eq-ok (throw_if (changes (has_row_id row.id) db.advances == 0) advance_not_found) _ e2 in
      let (r0, found0, read) = get-found db id got in
      let move : RowMove r0 row =
        subst (RowMove r0) (sym (to_params-row (marked s) row made)) (marked-move r0 s read) in
      let (r', found', m) = replaced-row id k row db.advances found0 move found in
      (
        r',
        subst (λ (d : Store). find (has_row_id k) d.advances ≡ some r') (ok-injective e3) found',
        m,
      )
]

pub mark_submitted-row :
    (id : Text) (db after : Store) (k : Text) {r : AdvanceRow}
    → mark_submitted id db ≡ ok after
    → find (has_row_id k) db.advances ≡ some r
    → RowAfter after k r
unfolding mark_submitted
mark_submitted-row id db after k e found =
    let (a, got, e1) = >>=-eq-ok (get db id) _ e in mark_found-row id a db after k got e1 found
