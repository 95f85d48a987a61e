-- ===== src/Database/Advances/Leases.antt =====
-- packages/db/src/advances.ts: one worker at a time submits a lockup.
use arkade_taxi.Prelude.{
  ℕ, ◌<◌, ◌≡◌, refl, ap, sym, ◌∙◌, Bool, true, false, Option, none, some, Text, Result, ok, find,
  inl, inr, Option-cases, subst, arith,
}
use arkade_taxi.Database.Rows.{update_where}
use arkade_taxi.Database.Keyed.{
  IsKeyed, picked-found, fails-found, find-updated, update_where-IsKeyed, find-none,
}
use arkade_taxi.Database.Advances.{StoredAdvance, AdvanceRow}
use arkade_taxi.Database.Advances.Store.{
  Store, AdvanceFailure, has_row_id, returned, update_advances,
}
use arkade_taxi.Database.Advances.Submission.{
  is_submission_claimable, submission_leased, claim_submission_lease,
}
use arkade_taxi.Database.Advances.Liability.{row_id}

claimable-names :
    (id : Text) (at : ℕ) (r : AdvanceRow)
    → is_submission_claimable id at r ≡ true
    → has_row_id id r ≡ true
unfolding is_submission_claimable
claimable-names id at r h = ground arith

leased-id :
    (owner token : Text) (until : ℕ) (r : AdvanceRow)
    → (submission_leased owner token until r).id ≡ r.id
unfolding submission_leased
leased-id owner token until r = refl

leased-held :
    (id owner token : Text) (until at : ℕ) (r : AdvanceRow)
    → at < until
    → is_submission_claimable id at (submission_leased owner token until r) ≡ false
unfolding is_submission_claimable submission_leased
leased-held id owner token until at r h = ground arith

returned-found :
    (p : AdvanceRow → Bool) (f : AdvanceRow → AdvanceRow) (db : Store) {a : StoredAdvance}
    → returned p f db ≡ ok (some a)
    → (r : AdvanceRow) × (find p db.advances ≡ some r)
unfolding returned
returned-found p f db {a} e = elim (Option-cases (find p db.advances)) [
  | inr found ↦ found
  | inl missing ↦ absurd (not_some (rw (missing, returned) at e))
]
  where
    not_some : Path (Result AdvanceFailure (Option StoredAdvance)) (ok none) (ok (some a)) → ⊥
    not_some h = cc

returned-none :
    (p : AdvanceRow → Bool) (f : AdvanceRow → AdvanceRow) (db : Store)
    → find p db.advances ≡ none
    → returned p f db ≡ ok none
unfolding returned
returned-none p f db e = rw (e, returned) refl

-- The lease of a submission is exclusive: once a worker was given the advance, no claim that is made next,
-- by any worker, the same one included, is given it at a time before the lease runs out. The table's ids
-- are distinct.
pub claim_submission_lease-exclusive :
    (id owner token : Text) (at until : ℕ) (db after : Store) (a : StoredAdvance)
    → IsKeyed row_id db.advances
    → claim_submission_lease id owner token at until db ≡ (ok (some a), after)
    → (owner' token' : Text) (at' until' : ℕ) → at' < until
    → (claim_submission_lease id owner' token' at' until' after).0 ≡ ok none
unfolding claim_submission_lease update_advances
claim_submission_lease-exclusive id owner token at until db after a keyed e owner' token' at' until'
      early =
    let p = is_submission_claimable id at in
    let f = submission_leased owner token until in
    let (r, picked) = returned-found p f db (ap (λ t. t.0) e) in
    let (found, holds) =
      picked-found row_id id p db.advances (claimable-names id at) keyed picked in
    let rows : after.advances ≡ update_where p f db.advances = sym (ap (λ t. t.1.advances) e) in
    let found' : find (has_row_id id) after.advances ≡ some (f r) =
      ap (find (has_row_id id)) rows
      ∙ find-updated row_id id p f db.advances (leased-id owner token until) found
      ∙ rw holds refl in
    let keyed' : IsKeyed row_id after.advances =
      subst (IsKeyed row_id) (sym rows)
        (update_where-IsKeyed row_id p f (leased-id owner token until) db.advances keyed) in
    returned-none (is_submission_claimable id at') _ after (
      find-none (is_submission_claimable id at') after.advances (
        fails-found row_id id (is_submission_claimable id at') after.advances
          (claimable-names id at') keyed' found' (leased-held id owner token until at' r early)))
