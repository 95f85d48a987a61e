-- ===== src/Database/Custody/Steps.antt =====
-- packages/db/src/custody.ts: one operation, and what it makes of the rows.
use arkade_taxi.Prelude.{
  ℕ, ◌≡◌, refl, ap, sym, subst, Bool, true, false, not, Option, some, List, [], ◌∷◌, Text, ok,
  throw_if, >>=-eq-ok, >>-eq-ok, ok-injective, if◌then◌else◌, ◌==◌, ltb, find, filter, arith,
  Bool-cases, text_eq, inl, inr,
}
use arkade_taxi.Prelude.Int.{Number}
use arkade_taxi.Core.Types.{Outpoint, Advance}
use arkade_taxi.Core.Ledger.{is_empty}
use arkade_taxi.Core.Fares.{is_blank}
use arkade_taxi.Database.Rows.{
  CustodyState, held, releasing, is_held, is_releasing, is_released, CustodyRow, Tables, has_id,
  get, update_where, changes, Point, no_actor, custody_window_open, clock, check_txid, points,
  binds_no_input, custody_release_in_progress, custody_released,
}
use arkade_taxi.Database.Custody.{
  or_not_found, check_swept, open_custody_row, is_claimable, leased, claim_release, is_leased_by,
  expecting, is_bindable, bind_inputs, bind_release_inputs, is_payable, paid, record_released,
  returned, abandon_release, is_forfeitable, swept, write_off, insert_inputs, is_other,
}

-- One operation on the tables that succeeds.
pub data Step (db db' : Tables) : Type 0 where
  opens :
      (a : Advance) (at : Number) (window : Option Number)
      → open_custody_row db a at window ≡ ok db'
      → Step db db'
  claims :
      (id owner token : Text) (now until : Number)
      → claim_release db id owner token now until ≡ ok db'
      → Step db db'
  binds :
      (id owner token : Text) (inputs : List Outpoint) (txid : Text) (at : Number) (won : Bool)
      → bind_release_inputs db id owner token inputs txid at ≡ ok (won, db')
      → Step db db'
  records :
      (id owner token txid : Text) (at : Number) (won : Bool)
      → record_released db id owner token txid at ≡ ok (won, db')
      → Step db db'
  abandons :
      (id owner token : Text) (at : Number)
      → abandon_release db id owner token at ≡ ok db'
      → Step db db'
  writes_off :
      (id actor : Text) (at : Number) (wall : ℕ)
      → write_off db id actor at wall ≡ ok db'
      → Step db db'

-- What an operation makes of one row.
pub data RowStep (r : CustodyRow) : CustodyRow → Type 0 where
  stays : RowStep r r
  is_claimed :
      (owner token : Text) (until : ℕ) → r.state ≡ held → RowStep r (leased owner token until r)
  is_bound : (txid : Text) → r.state ≡ releasing → RowStep r (expecting txid r)
  is_paid : (txid : Text) (at : ℕ) → r.state ≡ releasing → RowStep r (paid txid at r)
  is_returned : r.state ≡ releasing → RowStep r (returned r)
  is_written_off : (actor : Text) (at : ℕ) → r.state ≡ held → RowStep r (swept actor at r)

pub RowStep-id : {r r' : CustodyRow} → RowStep r r' → r'.advance_id ≡ r.advance_id
unfolding leased expecting paid returned swept
RowStep-id stays = refl
RowStep-id (is_claimed _ _ _ _) = refl
RowStep-id (is_bound _ _) = refl
RowStep-id (is_paid _ _ _) = refl
RowStep-id (is_returned _) = refl
RowStep-id (is_written_off _ _ _) = refl

-- The table after an update, by what the update makes of the rows it picks.
module _ (p : CustodyRow → Bool) (f : CustodyRow → CustodyRow)
    (h : (r : CustodyRow) → p r ≡ true → RowStep r (f r)) where
  pub RowStep-if : (r : CustodyRow) → RowStep r (if p r then f r else r)
  RowStep-if r = elim (Bool-cases (p r)) [ inl e ↦ rw e (h r e) | inr e ↦ rw e stays ]

  pub find-update_where :
      (id : Text) (rows : List CustodyRow) {r : CustodyRow}
      → find (has_id id) rows ≡ some r
      → (r' : CustodyRow) × (find (has_id id) (update_where p f rows) ≡ some r') × RowStep r r'
  unfolding update_where
  find-update_where id [] e = cc
  find-update_where id (q ∷ qs) {r} e =
      let same : has_id id (if p q then f q else q) ≡ has_id id q =
        ap (λ t. text_eq t id) (RowStep-id (RowStep-if q)) in
      elim (Bool-cases (has_id id q)) [
        | inl hit ↦
            let e' = rw hit at e in
            let is_r : q ≡ r = cc in
            (
              if p q then f q else q,
              rw (same, hit) refl,
              subst (λ s. RowStep s (if p q then f q else q)) is_r (RowStep-if q),
            )
        | inr miss ↦ rw (same, miss) (find-update_where id qs (rw miss at e))
      ]

-- An update of rows, each by a step of its own.
abbrev pub IsUpdate : List CustodyRow → List CustodyRow → Type 0
IsUpdate before after =
    (p : CustodyRow → Bool) × (f : CustodyRow → CustodyRow) × ((r : CustodyRow)
      → p r ≡ true
      → RowStep r (f r))
    × (after ≡ update_where p f before)

is_held-eq : (s : CustodyState) → is_held s ≡ true → s ≡ held
is_held-eq s h = ground arith

is_releasing-eq : (s : CustodyState) → is_releasing s ≡ true → s ≡ releasing
is_releasing-eq s h = ground arith

pub claimed_row :
    (id owner token : Text) (now until : ℕ) (r : CustodyRow)
    → is_claimable id now r ≡ true
    → RowStep r (leased owner token until r)
unfolding is_claimable
claimed_row id owner token now until r h =
    is_claimed owner token until (is_held-eq r.state (ground arith))

leased-releasing :
    (id owner token : Text) (r : CustodyRow)
    → is_leased_by id owner token r ≡ true
    → r.state ≡ releasing
unfolding is_leased_by
leased-releasing id owner token r h = is_releasing-eq r.state (ground arith)

update_none : (rows : List CustodyRow) → rows ≡ update_where (λ _. false) (λ r. r) rows
unfolding update_where
update_none [] = refl
update_none (r ∷ rs) = ap (λ t. r ∷ t) (update_none rs)

no-IsUpdate : (rows : List CustodyRow) → IsUpdate rows rows
no-IsUpdate rows = ((λ _. false), (λ r. r), (λ r h. cc), update_none rows)

pub claim-IsUpdate :
    (db db' : Tables) (id owner token : Text) (now until : Number)
    → claim_release db id owner token now until ≡ ok db'
    → IsUpdate db.custody db'.custody
unfolding claim_release
claim-IsUpdate db db' id owner token now until e =
    let (at, _, e1) = >>=-eq-ok (clock now) _ e in
    let (deadline, _, e2) = >>=-eq-ok (clock until) _ e1 in
    let (current, _, e3) = >>=-eq-ok (or_not_found (get db id)) _ e2 in
    let (_, e4) = >>-eq-ok (check_swept current) _ e3 in
    let (_, e5) = >>-eq-ok (throw_if (is_released current.state) custody_released) _ e4 in
    let (_, e6) =
      >>-eq-ok
        (throw_if (not (changes (is_claimable id at) db.custody == 1)) custody_release_in_progress)
        _ e5 in
    (
      is_claimable id at,
      leased owner token deadline,
      claimed_row id owner token at deadline,
      sym (ap (λ (t : Tables). t.custody) (ok-injective e6)),
    )

bound-IsUpdate :
    (db db' : Tables) (id owner token : Text) (bound : List Point) (txid : Text) (now : ℕ)
    (won : Bool)
    → bind_inputs db id owner token bound txid now ≡ ok (won, db')
    → IsUpdate db.custody db'.custody
unfolding bind_inputs is_bindable
bound-IsUpdate db db' id owner token bound txid now won e =
    let (table, _, done) =
      >>=-eq-ok (insert_inputs id now bound (filter (is_other id) db.release_inputs)) _ e in
    (
      is_bindable id owner token,
      expecting txid,
      (λ r h. is_bound txid (leased-releasing id owner token r (ground arith))),
      sym (ap (λ (t : Bool × Tables). t.1.custody) (ok-injective done)),
    )

pub bind-IsUpdate :
    (db db' : Tables) (id owner token : Text) (inputs : List Outpoint) (txid : Text) (at : Number)
    (won : Bool)
    → bind_release_inputs db id owner token inputs txid at ≡ ok (won, db')
    → IsUpdate db.custody db'.custody
unfolding bind_release_inputs
bind-IsUpdate db db' id owner token inputs txid at won e =
    let (_, e1) = >>-eq-ok (check_txid txid) _ e in
    let (now, _, e2) = >>=-eq-ok (clock at) _ e1 in
    let (bound, _, e3) = >>=-eq-ok (points inputs) _ e2 in
    let (_, e4) = >>-eq-ok (throw_if (is_empty bound) binds_no_input) _ e3 in
    elim (Bool-cases (changes (is_bindable id owner token) db.custody == 1)) [
      | inl one ↦ bound-IsUpdate db db' id owner token bound txid now won (rw one at e4)
      | inr none_changed ↦
          subst (λ (t : Tables). IsUpdate db.custody t.custody)
            (ap (λ (t : Bool × Tables). t.1) (ok-injective (rw none_changed at e4)))
            (no-IsUpdate db.custody)
    ]

pub record-IsUpdate :
    (db db' : Tables) (id owner token txid : Text) (at : Number) (won : Bool)
    → record_released db id owner token txid at ≡ ok (won, db')
    → IsUpdate db.custody db'.custody
unfolding record_released is_payable
record-IsUpdate db db' id owner token txid at won e =
    let (_, e1) = >>-eq-ok (check_txid txid) _ e in
    let (now, _, e2) = >>=-eq-ok (clock at) _ e1 in
    elim (Bool-cases (changes (is_payable id owner token txid) db.custody == 1)) [
      | inl one ↦ (
        is_payable id owner token txid,
        paid txid now,
        (λ r h. is_paid txid now (leased-releasing id owner token r (ground arith))),
        sym (ap (λ (t : Bool × Tables). t.1.custody) (ok-injective (rw one at e2))),
      )
      | inr none_changed ↦
          subst (λ (t : Tables). IsUpdate db.custody t.custody)
            (ap (λ (t : Bool × Tables). t.1) (ok-injective (rw none_changed at e2)))
            (no-IsUpdate db.custody)
    ]

pub abandon-IsUpdate :
    (db db' : Tables) (id owner token : Text) (at : Number)
    → abandon_release db id owner token at ≡ ok db'
    → IsUpdate db.custody db'.custody
unfolding abandon_release
abandon-IsUpdate db db' id owner token at e =
    let (now, _, e1) = >>=-eq-ok (clock at) _ e in
    (
      is_leased_by id owner token,
      returned,
      (λ r h. is_returned (leased-releasing id owner token r h)),
      sym (ap (λ (t : Tables). t.custody) (ok-injective e1)),
    )

forfeited_row :
    (id actor : Text) (at : ℕ) (r : CustodyRow)
    → is_forfeitable id r ≡ true
    → RowStep r (swept actor at r)
unfolding is_forfeitable
forfeited_row id actor at r h = is_written_off actor at (is_held-eq r.state (ground arith))

pub write_off-IsUpdate :
    (db db' : Tables) (id actor : Text) (at : Number) (wall : ℕ)
    → write_off db id actor at wall ≡ ok db'
    → IsUpdate db.custody db'.custody
unfolding write_off
write_off-IsUpdate db db' id actor at wall e =
    let (now, _, e1) = >>=-eq-ok (clock at) _ e in
    let (_, e2) = >>-eq-ok (throw_if (is_blank actor) no_actor) _ e1 in
    let (current, _, e3) = >>=-eq-ok (or_not_found (get db id)) _ e2 in
    let (_, e4) = >>-eq-ok (check_swept current) _ e3 in
    let (_, e5) = >>-eq-ok (throw_if (is_released current.state) custody_released) _ e4 in
    let (_, e6) =
      >>-eq-ok (throw_if (is_releasing current.state) custody_release_in_progress) _ e5 in
    let (_, e7) = >>-eq-ok (throw_if (ltb now current.expires_at) custody_window_open) _ e6 in
    let (_, e8) =
      >>-eq-ok
        (throw_if (not (changes (is_forfeitable id) db.custody == 1)) custody_release_in_progress) _
        e7 in
    (
      is_forfeitable id,
      swept actor now,
      forfeited_row id actor now,
      sym (ap (λ (t : Tables). t.custody) (ok-injective e8)),
    )
