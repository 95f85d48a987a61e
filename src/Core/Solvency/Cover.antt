-- ===== src/Core/Solvency/Cover.antt =====
-- What `assessSolvency` calls a shortfall, and what `computeReceivables` counts.
use arkade_taxi.Prelude.{
  ℕ, suc, ◌≢◌, ◌≡◌, refl, sym, ◌∙◌, ◌↔◌, ◌⊎◌, true, false, ◌||◌, Option, none, some, List, [], ◌∷◌,
  map, arith, Bool-cases, All, inl, inr, filter, length, ltb, get_or, subst,
}
use arkade_taxi.Prelude.Int.{ℤ, pos, ◌+ℤ◌, ◌≤ℤ◌, int_laws, -ℤ_parts}
use arkade_taxi.Core.Fares.{asset_id_key, ResolvedClaimMode, to_recycle, to_purchase}
use arkade_taxi.Core.Types.{
  Advance, AdvanceKind, covenant, sponsored, AdvanceState, quoted, locking, locked, recovering,
  recycled, purchased, refunded, recovered, expired, state_eq,
}
use arkade_taxi.Core.Ledger.{is_exposed, advance_kind, is_sponsored}
use arkade_taxi.Core.Solvency.{
  AssetAmount, CustodyOwed, held_units, coverage_of, is_short, assess_solvency, is_no_receivable,
  receivables_from, compute_receivables, is_purchase,
}

-- The units owed of an asset are held.
abbrev pub IsCovered : List AssetAmount → AssetAmount → Type 0
IsCovered held owed = owed.units ≤ℤ get_or (held_units held (asset_id_key owed.asset_id)) (pos 0)

is_short_iff :
    (held : List AssetAmount) (owed : AssetAmount)
    → (is_short (coverage_of held owed) ≡ false) ↔ IsCovered held owed
unfolding coverage_of
is_short_iff held owed =
    let parts =
      -ℤ_parts (get_or (held_units held (asset_id_key owed.asset_id)) (pos 0)) owed.units in
    (λ h. ground (arith, parts), λ h. ground (arith, parts))

not-ltb_pos : (n : ℕ) → ltb 0 (suc n) ≢ false
not-ltb_pos n h = ground arith

none_short_iff :
    (held assets : List AssetAmount)
    → (ltb 0 (
          length (
            map
              (λ (a : AssetAmount). a.asset_id)
              (filter is_short (map (coverage_of held) assets))))
        ≡ false)
      ↔ All (IsCovered held) assets
none_short_iff held [] = (λ _. tt, λ _. refl)
none_short_iff held (o ∷ rest) =
    let (to, from) = is_short_iff held o in
    let (to_all, from_all) = none_short_iff held rest in
    elim (Bool-cases (is_short (coverage_of held o))) [
      | inl short ↦ (
        λ h. absurd (not-ltb_pos _ (rw short at h)),
        λ (covered, _). cc (sym short ∙ from covered),
      )
      | inr enough ↦ (λ h. (to enough, to_all (rw enough at h)), λ (_, h). rw enough (from_all h))
    ]

-- There is no shortfall exactly when the units owed of each asset are held, and the sats owed are
-- within what is lendable and still to come back.
pub assess_solvency-shortfall_iff :
    (owed : CustodyOwed) (lendable_sats : ℤ) (held : List AssetAmount) (receivable_sats : ℤ)
    → ((assess_solvency owed lendable_sats held receivable_sats).shortfall ≡ false)
      ↔ (All (IsCovered held) owed.assets × (owed.owed_sats ≤ℤ lendable_sats +ℤ receivable_sats))
unfolding assess_solvency
assess_solvency-shortfall_iff owed lendable_sats held receivable_sats =
    let (to, from) = none_short_iff held owed.assets in
    (λ h. (to (ground arith), ground arith), λ (covered, sats). rw (from covered) (ground arith))

-- A loan that comes back as coins: it is out, in a covenant of the operator, and the receiver's claim does
-- not keep its carrier.
pub record IsReceivable (a : Advance) : Type 0 where
  pub out : (a.state ≡ locking) ⊎ (a.state ≡ locked) ⊎ (a.state ≡ recovering)
  pub in_covenant : a.kind ≢ some sponsored
  pub repaid : a.claim_mode ≢ some to_purchase

-- The loans that come back, added up.
pub data Receives : List Advance → ℤ → Type 0 where
  nothing : Receives [] (pos 0)
  counted :
      {a : Advance} {rest : List Advance} {sats : ℤ}
      → IsReceivable a
      → Receives rest sats
      → Receives (a ∷ rest) (a.topup +ℤ sats)
  skipped :
      {a : Advance} {rest : List Advance} {sats : ℤ}
      → ¬ (IsReceivable a)
      → Receives rest sats
      → Receives (a ∷ rest) sats

is_purchase_iff : (m : Option ResolvedClaimMode) → (is_purchase m ≡ false) ↔ (m ≢ some to_purchase)
is_purchase_iff none = (λ h e. cc, λ h. refl)
is_purchase_iff (some to_recycle) = (λ h e. cc, λ h. refl)
is_purchase_iff (some to_purchase) = (λ h. cc, λ h. absurd (h refl))

is_sponsored_iff :
    (k : Option AdvanceKind) → (is_sponsored (get_or k covenant) ≡ false) ↔ (k ≢ some sponsored)
is_sponsored_iff none = (λ h e. cc, λ h. refl)
is_sponsored_iff (some covenant) = (λ h e. cc, λ h. refl)
is_sponsored_iff (some sponsored) = (λ h. cc, λ h. absurd (h refl))

is_out_iff :
    (s : AdvanceState)
    → ((state_eq s locking || state_eq s locked || state_eq s recovering) ≡ true)
      ↔ ((s ≡ locking) ⊎ (s ≡ locked) ⊎ (s ≡ recovering))
is_out_iff quoted = (λ h. cc, λ h. elim h [ inl e ↦ cc | inr (inl e) ↦ cc | inr (inr e) ↦ cc ])
is_out_iff locking = (λ h. inl refl, λ h. refl)
is_out_iff locked = (λ h. inr (inl refl), λ h. refl)
is_out_iff recovering = (λ h. inr (inr refl), λ h. refl)
is_out_iff recycled = (λ h. cc, λ h. elim h [ inl e ↦ cc | inr (inl e) ↦ cc | inr (inr e) ↦ cc ])
is_out_iff purchased = (λ h. cc, λ h. elim h [ inl e ↦ cc | inr (inl e) ↦ cc | inr (inr e) ↦ cc ])
is_out_iff refunded = (λ h. cc, λ h. elim h [ inl e ↦ cc | inr (inl e) ↦ cc | inr (inr e) ↦ cc ])
is_out_iff recovered = (λ h. cc, λ h. elim h [ inl e ↦ cc | inr (inl e) ↦ cc | inr (inr e) ↦ cc ])
is_out_iff expired = (λ h. cc, λ h. elim h [ inl e ↦ cc | inr (inl e) ↦ cc | inr (inr e) ↦ cc ])

is_no_receivable_iff : (a : Advance) → (is_no_receivable a ≡ false) ↔ IsReceivable a
unfolding is_no_receivable is_exposed advance_kind
is_no_receivable_iff a =
    let (to_kind, from_kind) = is_sponsored_iff a.kind in
    let (to_mode, from_mode) = is_purchase_iff a.claim_mode in
    let (to_out, from_out) = is_out_iff a.state in
    (
      λ h. record {
        out = to_out (ground arith);
        in_covenant = to_kind (ground arith);
        repaid = to_mode (ground arith);
      },
      λ r. rw (from_kind r.in_covenant, from_mode r.repaid, from_out r.out) refl,
    )

receivables_from-Receives :
    (advances : List Advance) (sats : ℤ)
    → (back : ℤ) × Receives advances back × (receivables_from sats advances ≡ sats +ℤ back)
unfolding receivables_from
receivables_from-Receives [] sats = (pos 0, nothing, omega int_laws)
receivables_from-Receives (a ∷ rest) sats = elim (Bool-cases (is_no_receivable a)) [
  | inl none_back ↦
      let (back, r, e) = receivables_from-Receives rest sats in
      (back, skipped (λ i. cc (sym none_back ∙ (is_no_receivable_iff a).1 i)) r, rw none_back e)
  | inr comes ↦
      let (back, r, e) = receivables_from-Receives rest (sats +ℤ a.topup) in
      (a.topup +ℤ back, counted ((is_no_receivable_iff a).0 comes) r, rw comes (e ∙ omega int_laws))
]

-- What is expected back is the sum of the loans that are out, in covenants and not under a purchase claim:
-- a sponsored advance has no repayment, and a purchase gives its carrier away.
pub compute_receivables-Receives :
    (advances : List Advance) → Receives advances (compute_receivables advances)
unfolding compute_receivables
compute_receivables-Receives advances =
    let (back, r, e) = receivables_from-Receives advances (pos 0) in
    subst (Receives advances) (sym (e ∙ omega int_laws)) r
