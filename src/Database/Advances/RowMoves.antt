-- ===== src/Database/Advances/RowMoves.antt =====
-- packages/db/src/advances.ts: every `SET` of the repository makes a move of a row that its `WHERE`
-- picks.
use arkade_taxi.Prelude.{
  ℕ, ◌≡◌, refl, ◌∙◌, Bool, true, false, Option, none, some, List, Text, arith, inl, inr, Bool-cases,
  is_some,
}
use arkade_taxi.Core.Types.{AdvanceState, locking, locked, state_eq_iff, Outpoint}
use arkade_taxi.Core.Submission.{claimed}
use arkade_taxi.Database.Advances.{AdvanceRow}
use arkade_taxi.Database.Advances.Store.{in_state, touched}
use arkade_taxi.Database.Advances.Submission.{
  retried, expedited_at, submission_leased, is_held_in, lease_extended, submission_prepared,
  submission_responded, submission_finalized, submission_delayed, submission_failed,
}
use arkade_taxi.Database.Advances.Recovery.{
  PreparedRecoveryRecord, is_unrecovered, recovery_expedited, recovery_begun, recovery_leased,
  preparation_failed, recovery_extended, recovery_answered, recovery_delayed, recovery_ended,
  recovery_sent, is_reclaimable, reclaim_begun,
}
use arkade_taxi.Database.Advances.Lockup.{
  lockup_sent, lockup_failed, is_locking, lockup_observed, covenant_renewed,
}
use arkade_taxi.Database.Advances.Messages.{Tip}
use arkade_taxi.Database.Advances.Observation.{
  LiveState, live_state, Outcome, disputed, is_unspent_in, spent_as, known_again, questioned,
}
use arkade_taxi.Database.Advances.Stable.{followed, weighed}
use arkade_taxi.Database.Advances.Moves.{
  Moves, stays, locks, recovers, settles, RowMove, moving, is_unsigned, signed_lockup, agreement,
}

pub expedited_at-move : (at : ℕ) (r : AdvanceRow) → RowMove r (expedited_at at r)
unfolding expedited_at touched
expedited_at-move at r = moving r _ refl stays

pub submission_leased-move :
    (owner token : Text) (until : ℕ) (r : AdvanceRow)
    → RowMove r (submission_leased owner token until r)
unfolding submission_leased
submission_leased-move owner token until r = moving r _ refl stays

pub lease_extended-move : (until : ℕ) (r : AdvanceRow) → RowMove r (lease_extended until r)
unfolding lease_extended
lease_extended-move until r = moving r _ refl stays

pub submission_delayed-move :
    (code detail : Text) (at : ℕ) (next : Option ℕ) (r : AdvanceRow)
    → RowMove r (submission_delayed code detail at next r)
unfolding submission_delayed touched
submission_delayed-move code detail at next r = moving r _ refl stays

pub recovery_expedited-move : (at : ℕ) (r : AdvanceRow) → RowMove r (recovery_expedited at r)
unfolding recovery_expedited touched
recovery_expedited-move at r = moving r _ refl stays

pub recovery_leased-move :
    (owner token : Text) (until : ℕ) (r : AdvanceRow)
    → RowMove r (recovery_leased owner token until r)
unfolding recovery_leased
recovery_leased-move owner token until r = moving r _ refl stays

pub recovery_extended-move : (until : ℕ) (r : AdvanceRow) → RowMove r (recovery_extended until r)
unfolding recovery_extended
recovery_extended-move until r = moving r _ refl stays

pub recovery_answered-move :
    (txid tx : Text) (checkpoints : List Text) (at : ℕ) (r : AdvanceRow)
    → RowMove r (recovery_answered txid tx checkpoints at r)
unfolding recovery_answered touched
recovery_answered-move txid tx checkpoints at r = moving r _ refl stays

pub recovery_delayed-move :
    (code detail : Text) (at : ℕ) (next : Option ℕ) (r : AdvanceRow)
    → RowMove r (recovery_delayed code detail at next r)
unfolding recovery_delayed touched
recovery_delayed-move code detail at next r = moving r _ refl stays

pub recovery_ended-move :
    (code detail : Text) (at : ℕ) (r : AdvanceRow) → RowMove r (recovery_ended code detail at r)
unfolding recovery_ended recovery_delayed touched
recovery_ended-move code detail at r = moving r _ refl stays

pub recovery_sent-move :
    (txid : Text) (at : ℕ) (r : AdvanceRow) → RowMove r (recovery_sent txid at r)
unfolding recovery_sent touched
recovery_sent-move txid at r = moving r _ refl stays

pub lockup_sent-move : (txid : Text) (at : ℕ) (r : AdvanceRow) → RowMove r (lockup_sent txid at r)
unfolding lockup_sent touched
lockup_sent-move txid at r = moving r _ refl stays

pub lockup_failed-move :
    (code detail : Text) (at : ℕ) (r : AdvanceRow) → RowMove r (lockup_failed code detail at r)
unfolding lockup_failed touched
lockup_failed-move code detail at r = moving r _ refl stays

pub covenant_renewed-move :
    (o : Outpoint) (at : ℕ) (r : AdvanceRow) → RowMove r (covenant_renewed o at r)
unfolding covenant_renewed touched
covenant_renewed-move o at r = moving r _ refl stays

pub disputed-move : (detail : Text) (at : ℕ) (r : AdvanceRow) → RowMove r (disputed detail at r)
unfolding disputed touched
disputed-move detail at r = moving r _ refl stays

pub known_again-move : (at : ℕ) (r : AdvanceRow) → RowMove r (known_again at r)
unfolding known_again touched
known_again-move at r = moving r _ refl stays

pub questioned-move :
    (code detail : Text) (at : ℕ) (r : AdvanceRow) → RowMove r (questioned code detail at r)
unfolding questioned touched
questioned-move code detail at r = moving r _ refl stays

pub followed-move : (tip : Tip) (at : ℕ) (r : AdvanceRow) → RowMove r (followed tip at r)
unfolding followed touched
followed-move tip at r = moving r _ refl stays

pub weighed-move :
    (is_cleared : Bool) (tip : Tip) (count at : ℕ) (r : AdvanceRow)
    → RowMove r (weighed is_cleared tip count at r)
unfolding weighed touched
weighed-move is_cleared tip count at r = moving r _ refl stays

in_state-eq : (s : AdvanceState) (r : AdvanceRow) → in_state s r ≡ true → r.state ≡ s
in_state-eq s r h = (state_eq_iff r.state s).0 h

-- A phase that another than `claimed` follows.
signing :
    (r r' : AdvanceRow)
    → r'.id ≡ r.id
    → agreement r' ≡ agreement r
    → Moves r.state r'.state
    → r'.spent_txid ≡ r.spent_txid
    → (is_unsigned r ≡ false → signed_lockup r' ≡ signed_lockup r)
    → is_unsigned r' ≡ false
    → RowMove r r'
signing r r' same_id agreed m spent tx phase = record {
  same_id = same_id;
  agreed = agreed;
  moves = m;
  spent_once = λ txid h. spent ∙ h;
  signed_once = λ _ h. (tx h, phase);
}

pub retried-move : (at : ℕ) (r : AdvanceRow) → RowMove r (retried at r)
unfolding retried touched
retried-move at r =
    signing r _ refl refl stays refl (λ h. refl)
      (elim (Bool-cases (is_some r.submission.server_final_ark_tx)) [
        | inl e ↦ rw e refl
        | inr e ↦ rw e refl
      ])

pub submission_prepared-move :
    (id owner token tx : Text) (checkpoints : List Text) (at : ℕ) (r : AdvanceRow)
    → is_held_in id owner token claimed r ≡ true
    → RowMove r (submission_prepared tx checkpoints at r)
unfolding submission_prepared touched
submission_prepared-move id owner token tx checkpoints at r held =
    signing r _ refl refl stays refl (λ h. absurd (ground arith)) refl

pub submission_responded-move :
    (txid tx : Text) (checkpoints : List Text) (at : ℕ) (r : AdvanceRow)
    → RowMove r (submission_responded txid tx checkpoints at r)
unfolding submission_responded touched
submission_responded-move txid tx checkpoints at r =
    signing r _ refl refl stays refl (λ h. refl) refl

pub submission_finalized-move : (at : ℕ) (r : AdvanceRow) → RowMove r (submission_finalized at r)
unfolding submission_finalized touched
submission_finalized-move at r = signing r _ refl refl stays refl (λ h. refl) refl

pub submission_failed-move :
    (code detail : Text) (at : ℕ) (r : AdvanceRow) → RowMove r (submission_failed code detail at r)
unfolding submission_failed submission_delayed touched
submission_failed-move code detail at r = signing r _ refl refl stays refl (λ h. refl) refl

pub recovery_begun-move :
    (id : Text) (plan : PreparedRecoveryRecord) (owner token : Text) (until at : ℕ) (r : AdvanceRow)
    → is_unrecovered id r ≡ true
    → RowMove r (recovery_begun plan owner token until at r)
unfolding recovery_begun touched is_unrecovered
recovery_begun-move id plan owner token until at r h =
    moving r _ refl (recovers (in_state-eq locked r (ground arith)))

pub preparation_failed-move :
    (id code detail : Text) (at : ℕ) (r : AdvanceRow)
    → is_unrecovered id r ≡ true
    → RowMove r (preparation_failed code detail at r)
unfolding preparation_failed touched is_unrecovered
preparation_failed-move id code detail at r h =
    moving r _ refl (recovers (in_state-eq locked r (ground arith)))

pub reclaim_begun-move :
    (id : Text) (at : ℕ) (r : AdvanceRow)
    → is_reclaimable id r ≡ true
    → RowMove r (reclaim_begun at r)
unfolding reclaim_begun touched is_reclaimable
reclaim_begun-move id at r h = moving r _ refl (recovers (in_state-eq locked r (ground arith)))

pub lockup_observed-move :
    (id : Text) (o : Outpoint) (at : ℕ) (r : AdvanceRow)
    → is_locking id r ≡ true
    → RowMove r (lockup_observed o at r)
unfolding lockup_observed touched
lockup_observed-move id o at r h = moving r _ refl (locks (in_state-eq locking r (ground arith)))

unspent : (o : Option Text) (txid : Text) → is_some o ≡ false → o ≡ some txid → ⊥
unspent none txid h e = cc
unspent (some t) txid h e = cc

pub spent_as-move :
    (id : Text) (l : LiveState) (o : Outcome) (txid : Text) (at : ℕ) (hash : Text) (height : ℕ)
    (r : AdvanceRow)
    → is_unspent_in id (live_state l) r ≡ true
    → RowMove r (spent_as o txid at hash height r)
unfolding spent_as touched is_unspent_in
spent_as-move id l o txid at hash height r h = record {
  same_id = refl;
  agreed = refl;
  moves = settles l o (in_state-eq (live_state l) r (ground arith));
  spent_once = λ t e. absurd (unspent r.spent_txid t (ground arith) e);
  signed_once = λ _ k. (refl, k);
}
