-- ===== src/Database/Custody/Claims.antt =====
-- packages/db/src/custody.ts, `claimRelease`, and the primary key of the table.
use arkade_taxi.Prelude.{
  ℕ, ◌≡◌, refl, ap, sym, subst, ◌∙◌, Bool, true, false, not, ◌||◌, Option, none, some, List, [],
  ◌∷◌, Text, ok, throw_if, >>=-eq-ok, >>-eq-ok, throw_if-eq-ok, ok-injective, if◌then◌else◌, ◌==◌,
  find, any, arith, Bool-cases, text_eq, text_eq_sound, inl, inr,
}
use arkade_taxi.Prelude.Int.{Number}
use arkade_taxi.Core.Types.{Advance}
use arkade_taxi.Database.Rows.{
  CustodyRow, Tables, has_id, get, update_where, clock, is_released, custody_released,
  custody_release_in_progress, changes, meets_checks,
}
use arkade_taxi.Database.Custody.{
  window_of, opened_row, open_custody_row, or_not_found, check_swept, is_claimable, leased,
  claim_release,
}
use arkade_taxi.Database.Custody.Steps.{
  Step, opens, claims, binds, records, abandons, writes_off, RowStep, RowStep-if, RowStep-id,
  claimed_row, IsUpdate, claim-IsUpdate, bind-IsUpdate, record-IsUpdate, abandon-IsUpdate,
  write_off-IsUpdate,
}
use arkade_taxi.Database.Custody.Settled.{Run, rests, runs, opened_id}

-- No id stands twice in the table.
abbrev pub IsKeyed : List CustodyRow → Type 0
IsKeyed [] = Unit
IsKeyed (r ∷ rs) = (any (has_id r.advance_id) rs ≡ false) × IsKeyed rs

any-counted :
    (p : CustodyRow → Bool) (rows : List CustodyRow)
    → (changes p rows == 1) ≡ true
    → any p rows ≡ true
any-counted p [] h = cc
any-counted p (r ∷ rs) h = elim (Bool-cases (p r)) [
  | inl hit ↦ rw hit refl
  | inr miss ↦ rw miss (any-counted p rs (rw miss at h))
]

any-implies :
    (p q : CustodyRow → Bool) (rows : List CustodyRow)
    → ((r : CustodyRow) → p r ≡ true → q r ≡ true)
    → any p rows ≡ true
    → any q rows ≡ true
any-implies p q [] h e = cc
any-implies p q (r ∷ rs) h e = elim (Bool-cases (p r)) [
  | inl hit ↦ rw (h r hit) refl
  | inr miss ↦ ground (arith, any-implies p q rs h (rw miss at e))
]

-- In a keyed table, what holds of some row with an id holds of the row found under it.
found-holds :
    (id : Text) (p : CustodyRow → Bool) (rows : List CustodyRow) {r : CustodyRow}
    → ((q : CustodyRow) → p q ≡ true → has_id id q ≡ true)
    → IsKeyed rows
    → find (has_id id) rows ≡ some r
    → any p rows ≡ true
    → p r ≡ true
found-holds id p [] h k e a = cc
found-holds id p (q ∷ qs) {r} h (free, k) e a = elim (Bool-cases (has_id id q)) [
  | inl hit ↦
      let e' = rw hit at e in
      let is_r : q ≡ r = cc in
      let same : q.advance_id ≡ id = text_eq_sound q.advance_id id hit in
      elim (Bool-cases (p q)) [
        | inl holds ↦ subst (λ s. p s ≡ true) is_r holds
        | inr fails ↦ cc (
            sym (subst (λ i. any (has_id i) qs ≡ false) same free)
            ∙ any-implies p (has_id id) qs h (rw fails at a))
      ]
  | inr miss ↦ elim (Bool-cases (p q)) [
    | inl holds ↦ cc (sym miss ∙ h q holds)
    | inr fails ↦ found-holds id p qs h k (rw miss at e) (rw fails at a)
  ]
]

module _ (p : CustodyRow → Bool) (f : CustodyRow → CustodyRow)
    (h : (r : CustodyRow) → p r ≡ true → RowStep r (f r)) where
  id_kept : (i : Text) (q : CustodyRow) → has_id i (if p q then f q else q) ≡ has_id i q
  id_kept i q = ap (λ t. text_eq t i) (RowStep-id (RowStep-if p f h q))

  any-update_where :
      (i : Text) (rows : List CustodyRow)
      → any (has_id i) (update_where p f rows) ≡ any (has_id i) rows
  unfolding update_where
  any-update_where i [] = refl
  any-update_where i (q ∷ qs) = rw (id_kept i q, any-update_where i qs) refl

  update_where-IsKeyed : (rows : List CustodyRow) → IsKeyed rows → IsKeyed (update_where p f rows)
  unfolding update_where
  update_where-IsKeyed [] k = tt
  update_where-IsKeyed (q ∷ qs) (free, k) = (
    any-update_where _ qs
        ∙ subst (λ i. any (has_id i) qs ≡ false) (sym (RowStep-id (RowStep-if p f h q))) free,
    update_where-IsKeyed qs k,
  )

  -- A row found under an id and picked by an update is found changed.
  find-picked :
      (id : Text) (rows : List CustodyRow) {r : CustodyRow}
      → find (has_id id) rows ≡ some r
      → p r ≡ true
      → find (has_id id) (update_where p f rows) ≡ some (f r)
  unfolding update_where
  find-picked id [] e picked = cc
  find-picked id (q ∷ qs) {r} e picked = elim (Bool-cases (has_id id q)) [
    | inl hit ↦
        let e' = rw hit at e in let is_r : q ≡ r = cc in rw (id_kept id q, hit, is_r, picked) refl
    | inr miss ↦ rw (id_kept id q, miss) (find-picked id qs (rw miss at e) picked)
  ]

found_row : (o : Option CustodyRow) {r : CustodyRow} → or_not_found o ≡ ok r → o ≡ some r
found_row none e = cc
found_row (some q) e = ap some (ok-injective e)

one_change : (b : Bool) → not b ≡ false → b ≡ true
one_change b h = ground arith

-- What a claim that succeeds has found and done.
claim_release-ok :
    (db db' : Tables) (id owner token : Text) (now until : Number)
    → claim_release db id owner token now until ≡ ok db'
    → (at deadline : ℕ) × (current : CustodyRow) × (get db id ≡ some current)
      × (any (is_claimable id at) db.custody ≡ true)
      × (db'.custody ≡ update_where (is_claimable id at) (leased owner token deadline) db.custody)
unfolding claim_release
claim_release-ok db db' id owner token now until e =
    let (at, _, e1) = >>=-eq-ok (clock now) _ e in
    let (deadline, _, e2) = >>=-eq-ok (clock until) _ e1 in
    let (current, found, e3) = >>=-eq-ok (or_not_found (get db id)) _ e2 in
    let (_, e4) = >>-eq-ok (check_swept current) _ e3 in
    let (_, e5) = >>-eq-ok (throw_if (is_released current.state) custody_released) _ e4 in
    let (one, e6) =
      >>-eq-ok
        (throw_if (not (changes (is_claimable id at) db.custody == 1)) custody_release_in_progress)
        _ e5 in
    (
      at,
      deadline,
      current,
      found_row (get db id) found,
      any-counted (is_claimable id at) db.custody (one_change _ (throw_if-eq-ok _ _ one)),
      sym (ap (λ (t : Tables). t.custody) (ok-injective e6)),
    )

claimable_id :
    (id : Text) (at : ℕ) (r : CustodyRow) → is_claimable id at r ≡ true → has_id id r ≡ true
unfolding is_claimable
claimable_id id at r h = ground arith

leased_unclaimable :
    (id owner token : Text) (at until : ℕ) (r : CustodyRow)
    → ¬ (is_claimable id at (leased owner token until r) ≡ true)
unfolding is_claimable leased
leased_unclaimable id owner token at until r h = ground arith

-- Of two claims of one liability, made one after the other with nothing between them, the second fails,
-- whichever workers make them and at whatever times. No id stands twice in the table.
pub claim_release-exclusive :
    (db db' db'' : Tables) (id owner token owner' token' : Text) (now until now' until' : Number)
    → IsKeyed db.custody
    → claim_release db id owner token now until ≡ ok db'
    → ¬ (claim_release db' id owner' token' now' until' ≡ ok db'')
unfolding get
claim_release-exclusive db db' db'' id owner token owner' token' now until now' until' k first
      second =
    let (at, deadline, current, found, some_claimable, update) =
      claim_release-ok db db' id owner token now until first in
    let (at', deadline', current', found', some_claimable', update') =
      claim_release-ok db' db'' id owner' token' now' until' second in
    let p = is_claimable id at in
    let f = leased owner token deadline in
    let h = claimed_row id owner token at deadline in
    let picked = found-holds id p db.custody (claimable_id id at) k found some_claimable in
    let after : find (has_id id) db'.custody ≡ some (f current) =
      rw update (find-picked p f h id db.custody found picked) in
    let keyed : IsKeyed db'.custody = rw update (update_where-IsKeyed p f h db.custody k) in
    leased_unclaimable id owner token at' deadline current (
      found-holds id (is_claimable id at') db'.custody (claimable_id id at') keyed after
        some_claimable')

open-IsKeyed :
    (db db' : Tables) (a : Advance) (at : Number) (window : Option Number)
    → open_custody_row db a at window ≡ ok db'
    → IsKeyed db.custody
    → IsKeyed db'.custody
unfolding open_custody_row
open-IsKeyed db db' a at window e k =
    let (w, _, e1) = >>=-eq-ok (window_of window) _ e in
    let (now, _, e2) = >>=-eq-ok (clock at) _ e1 in
    elim (Bool-cases (any (has_id a.id) db.custody || not (meets_checks (opened_row a now w)))) [
      | inl ignored ↦ subst (λ (t : Tables). IsKeyed t.custody) (ok-injective (rw ignored at e2)) k
      | inr inserted ↦
          subst (λ (t : Tables). IsKeyed t.custody) (ok-injective (rw inserted at e2))
            (rw (opened_id a now w) (ground arith), k)
    ]

IsUpdate-IsKeyed :
    (before after : List CustodyRow) → IsUpdate before after → IsKeyed before → IsKeyed after
IsUpdate-IsKeyed before after (p, f, h, e) k = rw e (update_where-IsKeyed p f h before k)

Step-IsKeyed : {db db' : Tables} → Step db db' → IsKeyed db.custody → IsKeyed db'.custody
Step-IsKeyed {db} {db'} (opens a at window e) k = open-IsKeyed db db' a at window e k
Step-IsKeyed {db} {db'} (claims i owner token now until e) k =
    IsUpdate-IsKeyed _ _ (claim-IsUpdate db db' i owner token now until e) k
Step-IsKeyed {db} {db'} (binds i owner token inputs txid at won e) k =
    IsUpdate-IsKeyed _ _ (bind-IsUpdate db db' i owner token inputs txid at won e) k
Step-IsKeyed {db} {db'} (records i owner token txid at won e) k =
    IsUpdate-IsKeyed _ _ (record-IsUpdate db db' i owner token txid at won e) k
Step-IsKeyed {db} {db'} (abandons i owner token at e) k =
    IsUpdate-IsKeyed _ _ (abandon-IsUpdate db db' i owner token at e) k
Step-IsKeyed {db} {db'} (writes_off i actor at wall e) k =
    IsUpdate-IsKeyed _ _ (write_off-IsUpdate db db' i actor at wall e) k

-- An advance is owed for once: where no id stands twice in the table, as in the empty one, none does
-- after any sequence of operations, a reclaim that is replayed included.
pub Run-IsKeyed : {db db' : Tables} → Run db db' → IsKeyed db.custody → IsKeyed db'.custody
Run-IsKeyed rests k = k
Run-IsKeyed (runs run step) k = Step-IsKeyed step (Run-IsKeyed run k)
