-- ===== src/Database/Reservations/Caps.antt =====
-- packages/db/src/reservations.ts: the limits on what is lent, over a claim.
use arkade_taxi.Prelude.{
  ℕ, suc, ◌≤◌, ◌≡◌, refl, ap, sym, ◌∙◌, Bool, true, false, some, List, [], ◌∷◌, Text, ok, any,
  filter, arith, inl, inr, Bool-cases, subst, find, text_eq, text_eq_iff,
}
use arkade_taxi.Prelude.Int.{ℤ, ◌+ℤ◌, ◌≤ℤ◌, int_laws}
use arkade_taxi.Database.Rows.{update_where}
use arkade_taxi.Database.Keyed.{IsKeyed}
use arkade_taxi.Database.Advances.{StoredAdvance, AdvanceRow}
use arkade_taxi.Database.Advances.Store.{touched, changes_one, update_advances, has_row_id}
use arkade_taxi.Database.Advances.Views.{is_at_risk, sum_topups, count_rows, exposure_totals}
use arkade_taxi.Database.Advances.Liability.{row_id}
use arkade_taxi.Database.Advances.Inversion.{from_row-Reads}
use arkade_taxi.Database.Reservations.{Desk, total_exposure, loans}
use arkade_taxi.Database.Reservations.Locking.{
  answered, is_claimable, taken_up, claim_lockup, submission_key_of,
}
use arkade_taxi.Database.Reservations.Claims.{
  claimable-names, aged, claim-row, claim_quoted-new, expired-IsKeyed,
}

update_where-same {ℓ} :
    {A : Type ℓ} (p : A → Bool) (f : A → A) (rows : List A)
    → any p rows ≡ false
    → update_where p f rows ≡ rows
unfolding update_where
update_where-same p f [] h = refl
update_where-same p f (r ∷ rs) h = elim (Bool-cases (p r)) [
  | inl hit ↦ absurd (ground arith)
  | inr miss ↦ rw miss (ap (λ l. r ∷ l) (update_where-same p f rs (rw miss at h)))
]

add_comm : (a b : ℤ) → a +ℤ b ≡ b +ℤ a
add_comm a b = omega int_laws

add_assoc : (a b c : ℤ) → a +ℤ (b +ℤ c) ≡ a +ℤ b +ℤ c
add_assoc a b c = omega int_laws

moved_last : (a b c : ℤ) → a +ℤ b +ℤ c ≡ a +ℤ c +ℤ b
moved_last a b c = omega int_laws

module _ (id : Text) (at : ℕ) (key digest envelope : Text) where
  claimable-free : (r : AdvanceRow) → is_claimable id at r ≡ true → is_at_risk r ≡ false
  unfolding is_claimable is_at_risk
  claimable-free r h = ground arith

  taken-at_risk : (r : AdvanceRow) → is_at_risk (taken_up key digest envelope at r) ≡ true
  unfolding is_at_risk taken_up touched
  taken-at_risk r = refl

  taken-topup : (r : AdvanceRow) → (taken_up key digest envelope at r).topup ≡ r.topup
  unfolding taken_up touched
  taken-topup r = refl

  claimable-only :
      (rows : List AdvanceRow)
      → any (has_row_id id) rows ≡ false
      → any (is_claimable id at) rows ≡ false
  claimable-only [] h = refl
  claimable-only (r ∷ rs) h = elim (Bool-cases (is_claimable id at r)) [
    | inl hit ↦ absurd (ground (arith, claimable-names id at r hit))
    | inr miss ↦ rw miss (claimable-only rs (ground arith))
  ]

  abbrev moved : List AdvanceRow → List AdvanceRow
  moved rows = update_where (is_claimable id at) (taken_up key digest envelope at) rows

  -- A claim adds the one advance to the totals.
  moved-totals :
      (rows : List AdvanceRow) {r : AdvanceRow}
      → IsKeyed row_id rows
      → find (has_row_id id) rows ≡ some r
      → is_claimable id at r ≡ true
      → (sum_topups (filter is_at_risk (moved rows))
          ≡ sum_topups (filter is_at_risk rows) +ℤ r.topup)
        × (count_rows (filter is_at_risk (moved rows)) ≡ suc (count_rows (filter is_at_risk rows)))
  unfolding update_where
  moved-totals [] u e c = cc
  moved-totals (q ∷ qs) {r} (free, u) e c = elim (Bool-cases (has_row_id id q)) [
    | inl here ↦
        let e' = rw here at e in
        let is_r : q ≡ r = cc in
        let claims : is_claimable id at q ≡ true =
          subst (λ t. is_claimable id at t ≡ true) (sym is_r) c in
        let none_left : any (has_row_id id) qs ≡ false =
          subst (λ t. any (λ s. text_eq (row_id s) t) qs ≡ false) ((text_eq_iff q.id id).0 here)
            free in
        let rest : moved qs ≡ qs =
          update_where-same (is_claimable id at) (taken_up key digest envelope at) qs
            (claimable-only qs none_left) in
        (
          rw claims (
              rw (taken-at_risk q, rest, claimable-free q claims, taken-topup q)
                (add_comm q.topup _ ∙ ap (λ t. sum_topups (filter is_at_risk qs) +ℤ t.topup) is_r)),
          rw (claims, taken-at_risk q, rest, claimable-free q claims) refl,
        )
    | inr other ↦
        let (sats, count) = moved-totals qs u (rw other at e) c in
        let stays : is_claimable id at q ≡ false = ground (arith, claimable-names id at q) in
        elim (Bool-cases (is_at_risk q)) [
          | inl risk ↦ (
            rw (stays, risk, sats) (add_assoc q.topup (sum_topups (filter is_at_risk qs)) r.topup),
            rw (stays, risk, count) refl,
          )
          | inr free_of ↦ (rw (stays, free_of) sats, rw (stays, free_of) count)
        ]
  ]

-- A claim that is new keeps the operator's limits: after it, the sats at risk, those of open receive quotes
-- included, are at most the policy's, and their number likewise. The table's ids are distinct.
pub claim_lockup-keeps_caps :
    (id lockup_id digest envelope : Text) (at : ℕ) (t : StoredAdvance) (before after : Desk)
    → IsKeyed row_id before.store.advances
    → claim_lockup id lockup_id digest envelope at before ≡ ok (answered true t, after)
    → ((total_exposure after).0 ≤ℤ after.store.policy.max_outstanding_sats)
      × ((total_exposure after).1 ≤ after.store.policy.max_concurrent_advances)
unfolding total_exposure exposure_totals update_advances changes_one
claim_lockup-keeps_caps id lockup_id digest envelope at t before after u e =
    let desk = aged at before in
    let rows = desk.store.advances in
    let (s, r, found, read, claims, e1, done) =
      claim-row id lockup_id digest envelope at t before after u e in
    let (sats, count, _) = claim_quoted-new id digest envelope at s t desk after e1 in
    let key = submission_key_of id s.core.funding.unsigned_lockup_id in
    let keyed = expired-IsKeyed at before u in
    let (more, number) = moved-totals id at key digest envelope rows keyed found claims in
    let lent = (from_row-Reads r s read).topup in
    subst
      (λ (d : Desk).
        ((total_exposure d).0 ≤ℤ d.store.policy.max_outstanding_sats)
        × ((total_exposure d).1 ≤ d.store.policy.max_concurrent_advances))
      done
      (
        subst (λ x. x ≤ℤ desk.store.policy.max_outstanding_sats)
            (moved_last _ (loans desk.receive_quotes) _
              ∙ ap (λ x. x +ℤ loans desk.receive_quotes)
                  (ap (λ x. sum_topups (filter is_at_risk rows) +ℤ x) lent ∙ sym more))
            sats,
        rw number (ground arith),
      )
