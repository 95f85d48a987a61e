-- ===== src/Core/Fares/Claims.antt =====
-- Which claim leaf a quote commits to (`resolveClaimMode`).
use arkade_taxi.Prelude.{◌≡◌, refl, ◌↔◌, Option, none, some, ok, ok-injective, subst}
use arkade_taxi.Core.Fares.{
  ClaimMode, recycle, purchase, either, ResolvedClaimMode, to_recycle, to_purchase, RequestedMode,
  mode, unknown_mode, allow_mode, resolve_claim_mode,
}

-- What a rule lets a covenant commit to.
pub data Permits : ClaimMode → ResolvedClaimMode → Type 0 where
  recycle_only : Permits recycle to_recycle
  purchase_only : Permits purchase to_purchase
  either_one : {m : ResolvedClaimMode} → Permits either m

-- Among what is permitted, a request is taken as it is, and no request is recycle wherever the rule
-- permits it.
pub data Chooses : ClaimMode → Option RequestedMode → ResolvedClaimMode → Type 0 where
  requested : {p : ClaimMode} {m : ResolvedClaimMode} → Chooses p (some (mode m)) m
  by_default : {p : ClaimMode} → Permits p to_recycle → Chooses p none to_recycle
  the_other : Chooses purchase none to_purchase

allow_mode_sound :
    (p : ClaimMode) (r m : ResolvedClaimMode) → allow_mode p r ≡ ok m → (r ≡ m) × Permits p m
allow_mode_sound recycle to_recycle to_recycle e = (refl, recycle_only)
allow_mode_sound purchase to_purchase to_purchase e = (refl, purchase_only)
allow_mode_sound either r m e = (ok-injective e, either_one)
allow_mode_sound _ _ _ e = cc

allow_mode_complete : (p : ClaimMode) (m : ResolvedClaimMode) → Permits p m → allow_mode p m ≡ ok m
allow_mode_complete recycle m recycle_only = refl
allow_mode_complete purchase m purchase_only = refl
allow_mode_complete either m either_one = refl

resolve_claim_mode_sound :
    (p : ClaimMode) (r : Option RequestedMode) (m : ResolvedClaimMode)
    → resolve_claim_mode p r ≡ ok m
    → Permits p m × Chooses p r m
unfolding resolve_claim_mode
resolve_claim_mode_sound p (some (unknown_mode _)) m e = cc
resolve_claim_mode_sound p (some (mode q)) m e =
    let (same, permitted) = allow_mode_sound p q m e in
    (permitted, subst (λ n. Chooses p (some (mode q)) n) same requested)
resolve_claim_mode_sound recycle none to_recycle e = (recycle_only, by_default recycle_only)
resolve_claim_mode_sound recycle none to_purchase e = cc
resolve_claim_mode_sound purchase none to_purchase e = (purchase_only, the_other)
resolve_claim_mode_sound purchase none to_recycle e = cc
resolve_claim_mode_sound either none to_recycle e = (either_one, by_default either_one)
resolve_claim_mode_sound either none to_purchase e = cc

resolve_claim_mode_complete :
    {p : ClaimMode} {r : Option RequestedMode} {m : ResolvedClaimMode}
    → Chooses p r m
    → Permits p m
    → resolve_claim_mode p r ≡ ok m
unfolding resolve_claim_mode
resolve_claim_mode_complete {p} {m} requested h = allow_mode_complete p m h
resolve_claim_mode_complete (by_default recycle_only) h = refl
resolve_claim_mode_complete (by_default either_one) h = refl
resolve_claim_mode_complete the_other h = refl

-- A mode is resolved exactly when the rule permits it and it is the one asked for or, where none
-- was asked for, recycle if the rule permits that and purchase if not. No other request succeeds.
pub resolve_claim_mode_iff :
    (p : ClaimMode) (r : Option RequestedMode) (m : ResolvedClaimMode)
    → (resolve_claim_mode p r ≡ ok m) ↔ (Permits p m × Chooses p r m)
resolve_claim_mode_iff p r m = (
  resolve_claim_mode_sound p r m,
  λ (permitted, chosen). resolve_claim_mode_complete chosen permitted,
)
