-- ===== src/Database/Writers/Once.antt =====
-- packages/db/src/reservations.ts: a quote is claimed once, whatever is written to the table in between.
use arkade_taxi.Prelude.{ℕ, ◌≡◌, refl, ◌∙◌, true, false, some, List, Text, ok, find, subst, arith}
use arkade_taxi.Core.Types.{quoted, state_eq}
use arkade_taxi.Database.Keyed.{IsKeyed, find-updated}
use arkade_taxi.Database.Advances.{StoredAdvance, AdvanceRow}
use arkade_taxi.Database.Advances.Store.{has_row_id, in_state, touched, update_advances}
use arkade_taxi.Database.Advances.Liability.{row_id, get-found}
use arkade_taxi.Database.Advances.Inversion.{from_row-Reads}
use arkade_taxi.Database.Advances.History.{after_move}
use arkade_taxi.Database.Advances.Fates.{rests, runs, RowRun-not_quoted}
use arkade_taxi.Database.Reservations.{Desk, expire_receive_quotes}
use arkade_taxi.Database.Reservations.Locking.{
  answered, claim_lockup, is_claimable, taken_up, submission_key_of,
}
use arkade_taxi.Database.Reservations.Claims.{aged, claim-row, claim_lockup-new, taken-id}
use arkade_taxi.Database.Writers.{Write, perform_all}
use arkade_taxi.Database.Writers.Moved.{aged-Moved}
use arkade_taxi.Database.Writers.Fates.{perform_all-row}

taken-past :
    (key digest envelope : Text) (at : ℕ) (r : AdvanceRow)
    → in_state quoted (taken_up key digest envelope at r) ≡ false
unfolding taken_up touched
taken-past key digest envelope at r = refl

-- The row that a new claim leaves is past `quoted`.
claimed-past :
    (id lockup_id digest envelope : Text) (at : ℕ) (t : StoredAdvance) (before after : Desk)
    → IsKeyed row_id before.store.advances
    → claim_lockup id lockup_id digest envelope at before ≡ ok (answered true t, after)
    → (r : AdvanceRow) × (find (has_row_id id) after.store.advances ≡ some r)
      × (in_state quoted r ≡ false)
unfolding update_advances
claimed-past id lockup_id digest envelope at t before after u e =
    let (s, r, found, _, claims, _, done) =
      claim-row id lockup_id digest envelope at t before after u e in
    let key = submission_key_of id s.core.funding.unsigned_lockup_id in
    let f = taken_up key digest envelope at in
    (
      f r,
      subst (λ (d : Desk). find (has_row_id id) d.store.advances ≡ some (f r)) done
          (find-updated row_id id (is_claimable id at) f (aged at before).store.advances
              (taken-id key digest envelope at) found
            ∙ rw claims refl),
      taken-past key digest envelope at r,
    )

-- No claim of an advance that is past `quoted` is new.
past-unclaimed :
    (id lockup_id digest envelope : Text) (at : ℕ) (t : StoredAdvance) (desk later : Desk)
    (r : AdvanceRow)
    → find (has_row_id id) desk.store.advances ≡ some r
    → in_state quoted r ≡ false
    → ¬ (claim_lockup id lockup_id digest envelope at desk ≡ ok (answered true t, later))
past-unclaimed id lockup_id digest envelope at t desk later r found past e =
    let (s, got, open_quote, _) = claim_lockup-new id lockup_id digest envelope at t desk later e in
    let (q, found_q, read) = get-found (aged at desk).store id got in
    let (r', found', m) =
      after_move desk.store (aged at desk).store id
        (unfold expire_receive_quotes in aged-Moved at (expire_receive_quotes at desk)) found in
    let same : q ≡ r' = cc in
    let past' : in_state quoted r' ≡ false = RowRun-not_quoted (runs m rests) past in
    let reads = (from_row-Reads q s read).state in
    let open_row : in_state quoted r' ≡ true =
      subst (λ (x : AdvanceRow). in_state quoted x ≡ true) same
        (subst (λ x. state_eq x quoted ≡ true) reads open_quote) in
    ground arith

-- A quote is taken up once: after a claim of an advance that is new, no later claim of the same advance is
-- new, whichever transaction it names and at whatever time, and whatever was written to the table of the
-- advances in between: by the calls of its repository, by the reservations and the fills, or by the sweeper's
-- one use of `update`. The ids are distinct in the table that the first claim finds.
pub claim_lockup-once :
    (id lockup_id digest envelope : Text) (at : ℕ) (t : StoredAdvance) (before after : Desk)
    → IsKeyed row_id before.store.advances
    → claim_lockup id lockup_id digest envelope at before ≡ ok (answered true t, after)
    → (ws : List Write) (lockup_id' digest' envelope' : Text) (at' : ℕ) (t' : StoredAdvance)
      (later : Desk)
    → ¬ (
        claim_lockup id lockup_id' digest' envelope' at' (perform_all ws after)
        ≡ ok (answered true t', later))
claim_lockup-once id lockup_id digest envelope at t before after u e ws lockup_id' digest' envelope'
      at' t' later =
    let (r, found, past) = claimed-past id lockup_id digest envelope at t before after u e in
    let (r', found', run) = perform_all-row ws after id found in
    past-unclaimed id lockup_id' digest' envelope' at' t' (perform_all ws after) later r' found'
      (RowRun-not_quoted run past)
