-- ===== src/Database/Advances/Tables.antt =====
-- packages/db/src/advances.ts: what a call makes of the rows of the table, put together from its
-- statements.
use arkade_taxi.Prelude.{
  ℕ, ◌≡◌, refl, ap, subst, Bool, true, false, some, List, [], ◌∷◌, Text, Result, ok, err, ◌>>=◌,
  if◌then◌else◌, find, text_eq, arith, inl, inr, Bool-cases,
}
use arkade_taxi.Database.Rows.{update_where}
use arkade_taxi.Database.Advances.{AdvanceRow}
use arkade_taxi.Database.Advances.Store.{
  Store, AdvanceFailure, has_row_id, changes_one, update_advances, pause, run_update, run_and_pause,
}
use arkade_taxi.Database.Advances.Submission.{expedite_where}
use arkade_taxi.Database.Advances.Recovery.{update_and_get, update_or_missing}
use arkade_taxi.Database.Advances.Commands.{stored, stored_beside}
use arkade_taxi.Database.Advances.Moves.{RowMove, still}

-- Row by row, in the same order.
abbrev pub RowsMove : List AdvanceRow → List AdvanceRow → Type 0
RowsMove [] [] = Unit
RowsMove [] (_ ∷ _) = ⊥
RowsMove (_ ∷ _) [] = ⊥
RowsMove (r ∷ rs) (r' ∷ rs') = RowMove r r' × RowsMove rs rs'

pub record Moved (db after : Store) : Type 0 where
  pub rows : RowsMove db.advances after.advances

-- The store beside an answer.
pub record MovedBeside {ℓ} {A : Type ℓ} (db : Store) (answer : A × Store) : Type 0 where
  pub after : Moved db answer.1

pub RowsMove-still : (rows : List AdvanceRow) → RowsMove rows rows
RowsMove-still [] = tt
RowsMove-still (r ∷ rs) = (still r, RowsMove-still rs)

pub unmoved : (db : Store) → Moved db db
unmoved db = record { rows = RowsMove-still db.advances }

module _ (p : AdvanceRow → Bool) (f : AdvanceRow → AdvanceRow)
    (h : (r : AdvanceRow) → p r ≡ true → RowMove r (f r)) where
  RowMove-if : (r : AdvanceRow) → RowMove r (if p r then f r else r)
  RowMove-if r = elim (Bool-cases (p r)) [ inl e ↦ rw e (h r e) | inr e ↦ rw e (still r) ]

  pub update_where-RowsMove : (rows : List AdvanceRow) → RowsMove rows (update_where p f rows)
  unfolding update_where
  update_where-RowsMove [] = tt
  update_where-RowsMove (r ∷ rs) = (RowMove-if r, update_where-RowsMove rs)

  pub update_advances-Moved : (db : Store) → Moved db (update_advances p f db)
  unfolding update_advances
  update_advances-Moved db = record { rows = update_where-RowsMove db.advances }

  pub run_update-Moved : (db : Store) → Moved db (run_update p f db).1
  unfolding run_update
  run_update-Moved db = update_advances-Moved db

  pub expedite_where-Moved : (db : Store) → MovedBeside db (expedite_where p f db)
  expedite_where-Moved db = record { after = update_advances-Moved db }

pub pause-advances :
    (actor : Text) (wall : ℕ) (db : Store) → (pause actor wall db).advances ≡ db.advances
unfolding pause
pause-advances actor wall db = ground arith

pub pause-Moved :
    (actor : Text) (wall : ℕ) (db after : Store)
    → Moved db after
    → Moved db (pause actor wall after)
pause-Moved actor wall db after m = record { rows = rw (pause-advances actor wall after) m.rows }

-- Both branches of an `if`.
pub if-Moved : (c : Bool) (db a b : Store) → Moved db a → Moved db b → Moved db (if c then a else b)
if-Moved true db a b m n = m
if-Moved false db a b m n = n

pub if-Moved_beside {ℓ} :
    {A : Type ℓ} (c : Bool) (db : Store) (a b : A × Store)
    → MovedBeside db a
    → MovedBeside db b
    → MovedBeside db (if c then a else b)
if-Moved_beside true db a b m n = m
if-Moved_beside false db a b m n = n

module _ (p : AdvanceRow → Bool) (f : AdvanceRow → AdvanceRow)
    (h : (r : AdvanceRow) → p r ≡ true → RowMove r (f r)) where
  pub run_and_pause-Moved :
      (actor : Text) (wall : ℕ) (db : Store) → Moved db (run_and_pause p f actor wall db).1
  unfolding run_and_pause
  run_and_pause-Moved actor wall db =
      let m = update_advances-Moved p f h db in
      if-Moved (changes_one p db) db _ _ (pause-Moved actor wall db _ m) m

-- A call that may throw: what it stores where it returns.
pub data Stores (db : Store) : Result AdvanceFailure Store → Type 0 where
  throws : {thrown : AdvanceFailure} → Stores db (err thrown)
  returns : {after : Store} → Moved db after → Stores db (ok after)

pub data StoresBeside {ℓ} {A : Type ℓ} (db : Store)
    : Result AdvanceFailure (A × Store) → Type ℓ where
  throws_beside : {thrown : AdvanceFailure} → StoresBeside db (err thrown)
  returns_beside : {answer : A × Store} → Moved db answer.1 → StoresBeside db (ok answer)

pub stored-Moved :
    (db : Store) (call : Result AdvanceFailure Store) → Stores db call → Moved db (stored db call)
stored-Moved db (ok after) (returns m) = m
stored-Moved db (err thrown) m = unmoved db

pub stored_beside-Moved {ℓ} :
    {A : Type ℓ} (db : Store) (call : Result AdvanceFailure (A × Store))
    → StoresBeside db call
    → Moved db (stored_beside db call)
stored_beside-Moved db (ok answer) (returns_beside m) = m
stored_beside-Moved db (err thrown) m = unmoved db

pub then-Stores {ℓ} :
    {B : Type ℓ} (db : Store) (call : Result AdvanceFailure B)
    (next : B → Result AdvanceFailure Store)
    → ((b : B) → Stores db (next b))
    → Stores db (call >>= next)
then-Stores db (ok b) next h = h b
then-Stores db (err thrown) next h = throws

pub then-StoresBeside {ℓ κ} :
    {A : Type ℓ} {B : Type κ} (db : Store) (call : Result AdvanceFailure B)
    (next : B → Result AdvanceFailure (A × Store))
    → ((b : B) → StoresBeside db (next b))
    → StoresBeside db (call >>= next)
then-StoresBeside db (ok b) next h = h b
then-StoresBeside db (err thrown) next h = throws_beside

pub if-StoresBeside {ℓ} :
    {A : Type ℓ} (c : Bool) (db : Store) (a b : Result AdvanceFailure (A × Store))
    → StoresBeside db a
    → StoresBeside db b
    → StoresBeside db (if c then a else b)
if-StoresBeside true db a b m n = m
if-StoresBeside false db a b m n = n

module _ (p : AdvanceRow → Bool) (f : AdvanceRow → AdvanceRow)
    (h : (r : AdvanceRow) → p r ≡ true → RowMove r (f r)) where
  pub update_or_missing-Stores : (db : Store) → Stores db (update_or_missing p f db)
  unfolding update_or_missing
  update_or_missing-Stores db = then-Stores db _ _ (λ u. returns (update_advances-Moved p f h db))

  pub update_and_get-Stores : (id : Text) (db : Store) → StoresBeside db (update_and_get p f id db)
  unfolding update_and_get
  update_and_get-Stores id db =
      let m = update_advances-Moved p f h db in
      if-StoresBeside (changes_one p db) db _ _ (then-StoresBeside db _ _ (λ a. returns_beside m))
        (returns_beside m)

-- A row keeps its place, and moves.
pub find-RowsMove :
    (id : Text) (rows rows' : List AdvanceRow) {r : AdvanceRow}
    → RowsMove rows rows'
    → find (has_row_id id) rows ≡ some r
    → (r' : AdvanceRow) × (find (has_row_id id) rows' ≡ some r') × RowMove r r'
find-RowsMove id [] rows' m e = cc
find-RowsMove id (q ∷ qs) [] m e = absurd m
find-RowsMove id (q ∷ qs) (q' ∷ qs') {r} (m, ms) e =
    let same : has_row_id id q' ≡ has_row_id id q = ap (λ t. text_eq t id) m.same_id in
    elim (Bool-cases (has_row_id id q)) [
      | inl hit ↦
          let e' = rw hit at e in
          let is_r : q ≡ r = cc in (q', rw (same, hit) refl, subst (λ s. RowMove s q') is_r m)
      | inr miss ↦ rw (same, miss) (find-RowsMove id qs qs' ms (rw miss at e))
    ]
