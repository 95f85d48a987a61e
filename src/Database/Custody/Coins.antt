-- ===== src/Database/Custody/Coins.antt =====
-- packages/db/src/custody.ts: the coins that releases bind.
use arkade_taxi.Prelude.{
  ℕ, ◌≡◌, refl, ap, subst, Bool, false, not, ◌||◌, Option, List, [], ◌∷◌, Text, ok, throw_if,
  >>=-eq-ok, >>-eq-ok, throw_if-eq-ok, ok-injective, ◌==◌, ltb, filter, any, arith, Bool-cases, inl,
  inr,
}
use arkade_taxi.Prelude.Int.{Number}
use arkade_taxi.Core.Types.{Outpoint, Advance}
use arkade_taxi.Core.Ledger.{is_empty}
use arkade_taxi.Core.Fares.{is_blank}
use arkade_taxi.Database.Rows.{
  ReleaseInput, Tables, Point, has_id, get, clock, check_txid, points, binds_no_input, no_actor,
  is_releasing, is_released, custody_released, custody_release_in_progress, custody_window_open,
  custody_release_input_conflict, changes, meets_checks,
}
use arkade_taxi.Database.Custody.{
  window_of, opened_row, open_custody_row, or_not_found, check_swept, is_claimable, claim_release,
  is_bindable, bind_inputs, bind_release_inputs, is_payable, record_released, is_leased_by,
  abandon_release, is_forfeitable, write_off, insert_inputs, is_other, is_at,
}
use arkade_taxi.Database.Custody.Steps.{Step, opens, claims, binds, records, abandons, writes_off}
use arkade_taxi.Database.Custody.Settled.{Run, rests, runs}

-- No outpoint stands twice in the table.
abbrev pub IsDistinct : List ReleaseInput → Type 0
IsDistinct [] = Unit
IsDistinct (i ∷ is) = (any (is_at i.outpoint_txid i.outpoint_vout) is ≡ false) × IsDistinct is

any-filter :
    (p q : ReleaseInput → Bool) (is : List ReleaseInput)
    → any p is ≡ false
    → any p (filter q is) ≡ false
any-filter p q [] h = refl
any-filter p q (i ∷ is) h = ground (arith, any-filter p q is)

filter-IsDistinct :
    (q : ReleaseInput → Bool) (is : List ReleaseInput) → IsDistinct is → IsDistinct (filter q is)
filter-IsDistinct q [] h = tt
filter-IsDistinct q (i ∷ is) (free, rest) = elim (Bool-cases (q i)) [
  | inl kept ↦ rw kept (any-filter _ q is free, filter-IsDistinct q is rest)
  | inr dropped ↦ rw dropped (filter-IsDistinct q is rest)
]

insert_inputs-IsDistinct :
    (id : Text) (at : ℕ) (ps : List Point) (table : List ReleaseInput) {result : List ReleaseInput}
    → IsDistinct table
    → insert_inputs id at ps table ≡ ok result
    → IsDistinct result
unfolding insert_inputs
insert_inputs-IsDistinct id at [] table h e = subst IsDistinct (ok-injective e) h
insert_inputs-IsDistinct id at (p ∷ ps) table h e =
    let (free, rest) =
      >>-eq-ok (throw_if (any (is_at p.txid p.vout) table) custody_release_input_conflict) _ e in
    insert_inputs-IsDistinct id at ps _ (throw_if-eq-ok _ _ free, h) rest

-- Two tables with the same inputs.
abbrev KeepsInputs : Tables → Tables → Type 0
KeepsInputs db db' = db.release_inputs ≡ db'.release_inputs

open-KeepsInputs :
    (db db' : Tables) (a : Advance) (at : Number) (window : Option Number)
    → open_custody_row db a at window ≡ ok db'
    → KeepsInputs db db'
unfolding open_custody_row
open-KeepsInputs db db' a at window e =
    let (w, _, e1) = >>=-eq-ok (window_of window) _ e in
    let (now, _, e2) = >>=-eq-ok (clock at) _ e1 in
    elim (Bool-cases (any (has_id a.id) db.custody || not (meets_checks (opened_row a now w)))) [
      | inl ignored ↦ ap (λ (t : Tables). t.release_inputs) (ok-injective (rw ignored at e2))
      | inr inserted ↦ ap (λ (t : Tables). t.release_inputs) (ok-injective (rw inserted at e2))
    ]

claim-KeepsInputs :
    (db db' : Tables) (id owner token : Text) (now until : Number)
    → claim_release db id owner token now until ≡ ok db'
    → KeepsInputs db db'
unfolding claim_release
claim-KeepsInputs db db' id owner token now until e =
    let (at, _, e1) = >>=-eq-ok (clock now) _ e in
    let (deadline, _, e2) = >>=-eq-ok (clock until) _ e1 in
    let (current, _, e3) = >>=-eq-ok (or_not_found (get db id)) _ e2 in
    let (_, e4) = >>-eq-ok (check_swept current) _ e3 in
    let (_, e5) = >>-eq-ok (throw_if (is_released current.state) custody_released) _ e4 in
    let (_, e6) =
      >>-eq-ok
        (throw_if (not (changes (is_claimable id at) db.custody == 1)) custody_release_in_progress)
        _ e5 in
    ap (λ (t : Tables). t.release_inputs) (ok-injective e6)

write_off-KeepsInputs :
    (db db' : Tables) (id actor : Text) (at : Number) (wall : ℕ)
    → write_off db id actor at wall ≡ ok db'
    → KeepsInputs db db'
unfolding write_off
write_off-KeepsInputs db db' id actor at wall e =
    let (now, _, e1) = >>=-eq-ok (clock at) _ e in
    let (_, e2) = >>-eq-ok (throw_if (is_blank actor) no_actor) _ e1 in
    let (current, _, e3) = >>=-eq-ok (or_not_found (get db id)) _ e2 in
    let (_, e4) = >>-eq-ok (check_swept current) _ e3 in
    let (_, e5) = >>-eq-ok (throw_if (is_released current.state) custody_released) _ e4 in
    let (_, e6) =
      >>-eq-ok (throw_if (is_releasing current.state) custody_release_in_progress) _ e5 in
    let (_, e7) = >>-eq-ok (throw_if (ltb now current.expires_at) custody_window_open) _ e6 in
    let (_, e8) =
      >>-eq-ok
        (throw_if (not (changes (is_forfeitable id) db.custody == 1)) custody_release_in_progress) _
        e7 in
    ap (λ (t : Tables). t.release_inputs) (ok-injective e8)

bind-IsDistinct :
    (db db' : Tables) (id owner token : Text) (inputs : List Outpoint) (txid : Text) (at : Number)
    (won : Bool)
    → bind_release_inputs db id owner token inputs txid at ≡ ok (won, db')
    → IsDistinct db.release_inputs
    → IsDistinct db'.release_inputs
unfolding bind_release_inputs bind_inputs
bind-IsDistinct db db' id owner token inputs txid at won e h =
    let (_, e1) = >>-eq-ok (check_txid txid) _ e in
    let (now, _, e2) = >>=-eq-ok (clock at) _ e1 in
    let (bound, _, e3) = >>=-eq-ok (points inputs) _ e2 in
    let (_, e4) = >>-eq-ok (throw_if (is_empty bound) binds_no_input) _ e3 in
    elim (Bool-cases (changes (is_bindable id owner token) db.custody == 1)) [
      | inl one ↦
          let (table, inserted, done) =
            >>=-eq-ok (insert_inputs id now bound (filter (is_other id) db.release_inputs)) _
              (rw one at e4) in
          subst IsDistinct (ap (λ (t : Bool × Tables). t.1.release_inputs) (ok-injective done)) (
            insert_inputs-IsDistinct id now bound _
              (filter-IsDistinct (is_other id) db.release_inputs h) inserted)
      | inr none_changed ↦
          subst IsDistinct
            (ap (λ (t : Bool × Tables). t.1.release_inputs) (ok-injective (rw none_changed at e4)))
            h
    ]

record-IsDistinct :
    (db db' : Tables) (id owner token txid : Text) (at : Number) (won : Bool)
    → record_released db id owner token txid at ≡ ok (won, db')
    → IsDistinct db.release_inputs
    → IsDistinct db'.release_inputs
unfolding record_released
record-IsDistinct db db' id owner token txid at won e h =
    let (_, e1) = >>-eq-ok (check_txid txid) _ e in
    let (now, _, e2) = >>=-eq-ok (clock at) _ e1 in
    elim (Bool-cases (changes (is_payable id owner token txid) db.custody == 1)) [
      | inl one ↦
          subst IsDistinct
            (ap (λ (t : Bool × Tables). t.1.release_inputs) (ok-injective (rw one at e2)))
            (filter-IsDistinct (is_other id) db.release_inputs h)
      | inr none_changed ↦
          subst IsDistinct
            (ap (λ (t : Bool × Tables). t.1.release_inputs) (ok-injective (rw none_changed at e2)))
            h
    ]

abandon-IsDistinct :
    (db db' : Tables) (id owner token : Text) (at : Number)
    → abandon_release db id owner token at ≡ ok db'
    → IsDistinct db.release_inputs
    → IsDistinct db'.release_inputs
unfolding abandon_release
abandon-IsDistinct db db' id owner token at e h =
    let (now, _, e1) = >>=-eq-ok (clock at) _ e in
    elim (Bool-cases (changes (is_leased_by id owner token) db.custody == 1)) [
      | inl one ↦
          subst IsDistinct (ap (λ (t : Tables). t.release_inputs) (ok-injective (rw one at e1)))
            (filter-IsDistinct (is_other id) db.release_inputs h)
      | inr none_changed ↦
          subst IsDistinct
            (ap (λ (t : Tables). t.release_inputs) (ok-injective (rw none_changed at e1))) h
    ]

Step-IsDistinct :
    {db db' : Tables} → Step db db' → IsDistinct db.release_inputs → IsDistinct db'.release_inputs
Step-IsDistinct {db} {db'} (opens a at window e) h =
    subst IsDistinct (open-KeepsInputs db db' a at window e) h
Step-IsDistinct {db} {db'} (claims i owner token now until e) h =
    subst IsDistinct (claim-KeepsInputs db db' i owner token now until e) h
Step-IsDistinct {db} {db'} (binds i owner token inputs txid at won e) h =
    bind-IsDistinct db db' i owner token inputs txid at won e h
Step-IsDistinct {db} {db'} (records i owner token txid at won e) h =
    record-IsDistinct db db' i owner token txid at won e h
Step-IsDistinct {db} {db'} (abandons i owner token at e) h =
    abandon-IsDistinct db db' i owner token at e h
Step-IsDistinct {db} {db'} (writes_off i actor at wall e) h =
    subst IsDistinct (write_off-KeepsInputs db db' i actor at wall e) h

-- No coin is ever bound twice: where no outpoint stands twice among the release inputs, as in the
-- empty table, none does after any sequence of operations.
pub Run-IsDistinct :
    {db db' : Tables} → Run db db' → IsDistinct db.release_inputs → IsDistinct db'.release_inputs
Run-IsDistinct rests h = h
Run-IsDistinct (runs run step) h = Step-IsDistinct step (Run-IsDistinct run h)
