-- ===== src/Database/Custody/Settled.antt =====
-- packages/db/src/custody.ts: sequences of operations and the liabilities they act on.
use arkade_taxi.Prelude.{
  ℕ, ◌≡◌, refl, ap, sym, subst, ◌∙◌, Bool, true, false, not, ◌||◌, Option, some, List, [], ◌∷◌,
  Text, Bytes, ok, >>=-eq-ok, ok-injective, find, any, arith, Bool-cases, text_eq_sound, inl, inr,
}
use arkade_taxi.Prelude.Int.{ℤ, Number}
use arkade_taxi.Core.Types.{Advance}
use arkade_taxi.Database.Rows.{
  CustodyState, is_released, is_forfeit, Currency, CustodyRow, Tables, has_id, get, clock,
  meets_checks,
}
use arkade_taxi.Database.Custody.{
  window_of, opened_row, open_custody_row, leased, expecting, paid, returned, swept,
}
use arkade_taxi.Database.Custody.Steps.{
  Step, opens, claims, binds, records, abandons, writes_off, RowStep, stays, is_claimed, is_bound,
  is_paid, is_returned, is_written_off, find-update_where, claim-IsUpdate, bind-IsUpdate,
  record-IsUpdate, abandon-IsUpdate, write_off-IsUpdate, IsUpdate,
}

any-find :
    (p : CustodyRow → Bool) (rows : List CustodyRow) {r : CustodyRow}
    → find p rows ≡ some r
    → any p rows ≡ true
any-find p [] e = cc
any-find p (q ∷ qs) e = elim (Bool-cases (p q)) [
  | inl hit ↦ rw hit refl
  | inr miss ↦ rw miss (any-find p qs (rw miss at e))
]

pub opened_id : (a : Advance) (at window : ℕ) → (opened_row a at window).advance_id ≡ a.id
unfolding opened_row
opened_id a at window = refl

-- A row in front whose id is taken by none of the others is not the one found.
find-behind :
    (id : Text) (new : CustodyRow) (rows : List CustodyRow) {r : CustodyRow}
    → any (has_id new.advance_id) rows ≡ false
    → find (has_id id) rows ≡ some r
    → find (has_id id) (new ∷ rows) ≡ some r
find-behind id new rows free e = elim (Bool-cases (has_id id new)) [
  | inl hit ↦
      let same : new.advance_id ≡ id = text_eq_sound new.advance_id id hit in
      cc (sym (subst (λ i. any (has_id i) rows ≡ false) same free) ∙ any-find (has_id id) rows e)
  | inr miss ↦ rw miss e
]

open-get :
    (db db' : Tables) (a : Advance) (at : Number) (window : Option Number) (id : Text)
    {r : CustodyRow}
    → open_custody_row db a at window ≡ ok db'
    → find (has_id id) db.custody ≡ some r
    → find (has_id id) db'.custody ≡ some r
unfolding open_custody_row
open-get db db' a at window id {r} e found =
    let (w, _, e1) = >>=-eq-ok (window_of window) _ e in
    let (now, _, e2) = >>=-eq-ok (clock at) _ e1 in
    elim (Bool-cases (any (has_id a.id) db.custody || not (meets_checks (opened_row a now w)))) [
      | inl ignored ↦
          subst (λ (t : Tables). find (has_id id) t.custody ≡ some r)
            (ok-injective (rw ignored at e2)) found
      | inr inserted ↦
          subst (λ (t : Tables). find (has_id id) t.custody ≡ some r)
            (ok-injective (rw inserted at e2))
            (find-behind id (opened_row a now w) db.custody (rw (opened_id a now w) (ground arith))
              found)
    ]

update-get :
    (db db' : Tables) (id : Text) {r : CustodyRow}
    → IsUpdate db.custody db'.custody
    → get db id ≡ some r
    → (r' : CustodyRow) × (get db' id ≡ some r') × RowStep r r'
unfolding get
update-get db db' id (p, f, h, e) found = rw e (find-update_where p f h id db.custody found)

-- No operation loses a row: what it makes of one is a step of that row.
pub Step-RowStep :
    {db db' : Tables} (id : Text) {r : CustodyRow}
    → Step db db'
    → get db id ≡ some r
    → (r' : CustodyRow) × (get db' id ≡ some r') × RowStep r r'
unfolding get
Step-RowStep {db} {db'} id {r} (opens a at window e) found =
    (r, open-get db db' a at window id e found, stays)
Step-RowStep {db} {db'} id (claims i owner token now until e) found =
    update-get db db' id (claim-IsUpdate db db' i owner token now until e) found
Step-RowStep {db} {db'} id (binds i owner token inputs txid at won e) found =
    update-get db db' id (bind-IsUpdate db db' i owner token inputs txid at won e) found
Step-RowStep {db} {db'} id (records i owner token txid at won e) found =
    update-get db db' id (record-IsUpdate db db' i owner token txid at won e) found
Step-RowStep {db} {db'} id (abandons i owner token at e) found =
    update-get db db' id (abandon-IsUpdate db db' i owner token at e) found
Step-RowStep {db} {db'} id (writes_off i actor at wall e) found =
    update-get db db' id (write_off-IsUpdate db db' i actor at wall e) found

-- What a row says is owed, to whom and since when.
pub record Debt : Type 0 where
  pub owner_key : Bytes
  pub asset_txid : Option Bytes
  pub asset_group_index : Option ℕ
  pub asset_units : Option ℤ
  pub owed_sats : ℤ
  pub loan_sats : ℤ
  pub fare_currency : Option Currency
  pub fare_units : Option ℤ
  pub held_at : ℕ
  pub expires_at : ℕ

abbrev pub debt_of : CustodyRow → Debt
debt_of r = record {
  owner_key = r.owner_key;
  asset_txid = r.asset_txid;
  asset_group_index = r.asset_group_index;
  asset_units = r.asset_units;
  owed_sats = r.owed_sats;
  loan_sats = r.loan_sats;
  fare_currency = r.fare_currency;
  fare_units = r.fare_units;
  held_at = r.held_at;
  expires_at = r.expires_at;
}

RowStep-debt : {r r' : CustodyRow} → RowStep r r' → debt_of r' ≡ debt_of r
unfolding leased expecting paid returned swept
RowStep-debt stays = refl
RowStep-debt (is_claimed _ _ _ _) = refl
RowStep-debt (is_bound _ _) = refl
RowStep-debt (is_paid _ _ _) = refl
RowStep-debt (is_returned _) = refl
RowStep-debt (is_written_off _ _ _) = refl

abbrev pub is_settled : CustodyState → Bool
is_settled s = is_released s || is_forfeit s

RowStep-settled : {r r' : CustodyRow} → is_settled r.state ≡ true → RowStep r r' → r' ≡ r
RowStep-settled h stays = refl
RowStep-settled h (is_claimed _ _ _ e) = absurd (ground arith)
RowStep-settled h (is_bound _ e) = absurd (ground arith)
RowStep-settled h (is_paid _ _ e) = absurd (ground arith)
RowStep-settled h (is_returned e) = absurd (ground arith)
RowStep-settled h (is_written_off _ _ e) = absurd (ground arith)

-- Any number of operations, one after the other.
pub data Run (db : Tables) : Tables → Type 0 where
  rests : Run db db
  runs : {db' db'' : Tables} → Run db db' → Step db' db'' → Run db db''

-- Whatever operations run, a liability is never lost and never altered: its row stays, with the same
-- owner, asset, units, sats, fare, opening time and deadline.
pub Run-debt_of :
    {db db' : Tables} (id : Text) {r : CustodyRow}
    → Run db db'
    → get db id ≡ some r
    → (r' : CustodyRow) × (get db' id ≡ some r') × (debt_of r' ≡ debt_of r)
Run-debt_of id {r} rests found = (r, found, refl)
Run-debt_of id {r} (runs run step) found =
    let (q, before, same) = Run-debt_of id run found in
    let (r', after, row) = Step-RowStep id step before in (r', after, RowStep-debt row ∙ same)

-- A row that is released or written off is final: no sequence of operations changes it.
pub Run-settled :
    {db db' : Tables} (id : Text) {r : CustodyRow}
    → Run db db'
    → get db id ≡ some r
    → is_settled r.state ≡ true
    → get db' id ≡ some r
Run-settled id rests found h = found
Run-settled id {r} (runs run step) found h =
    let (r', after, row) = Step-RowStep id step (Run-settled id run found h) in
    after ∙ ap some (RowStep-settled h row)
