-- ===== src/Core/Exposure/Order.antt =====
-- The comparator that `sweepable` sorts by.
use arkade_taxi.Prelude.{
  ℕ, ◌≡◌, ◌≢◌, refl, ap₂, subst, sym, ◌∙◌, [], ◌∷◌, Text, arith, if◌then◌else◌, ltb, ◌==◌,
}
use arkade_taxi.Prelude.Int.{ℤ}
use arkade_taxi.Core.Types.{DeadlineKind, Advance}
use arkade_taxi.Core.Exposure.{
  Sign, before, same, after, compare_kinds, compare_sats, compare_ids, then_by, compare_due,
  recovery_kind, expiry_value,
}

abbrev pub opposite : Sign → Sign
opposite before = after
opposite same = same
opposite after = before

-- What `sort` asks of a comparator: swapping the arguments swaps the sign, and along a chain that
-- never falls the first strict step decides.
pub record IsConsistent {A : Type 0} (cmp : A → A → Sign) : Type 0 where
  pub flip : (x y : A) → cmp y x ≡ opposite (cmp x y)
  pub chain :
      (x y z : A) → cmp x y ≢ after → cmp y z ≢ after → cmp x z ≡ then_by (cmp x y) (cmp y z)

then_by_flip : (a b : Sign) → then_by (opposite a) (opposite b) ≡ opposite (then_by a b)
then_by_flip before b = refl
then_by_flip same b = refl
then_by_flip after b = refl

-- The chain law of a comparison that falls back on another.
then_by_chain :
    (a a' b b' : Sign) (a'' b'' : Sign)
    → (a ≢ after → a' ≢ after → a'' ≡ then_by a a')
    → (b ≢ after → b' ≢ after → b'' ≡ then_by b b')
    → then_by a b ≢ after
    → then_by a' b' ≢ after
    → then_by a'' b'' ≡ then_by (then_by a b) (then_by a' b')
then_by_chain after a' b b' a'' b'' h k p q = absurd (p refl)
then_by_chain before after b b' a'' b'' h k p q = absurd (q refl)
then_by_chain same after b b' a'' b'' h k p q = absurd (q refl)
then_by_chain before before b b' a'' b'' h k p q = rw (h (λ e. cc) (λ e. cc))
then_by_chain before same b b' a'' b'' h k p q = rw (h (λ e. cc) (λ e. cc))
then_by_chain same before before b' a'' b'' h k p q = rw (h (λ e. cc) (λ e. cc))
then_by_chain same before same b' a'' b'' h k p q = rw (h (λ e. cc) (λ e. cc))
then_by_chain same before after b' a'' b'' h k p q = absurd (p refl)
then_by_chain same same b b' a'' b'' h k p q = rw (h (λ e. cc) (λ e. cc)) (k p q)

module _ {A B : Type 0} (f : A → B) {cmp : B → B → Sign} (c : IsConsistent cmp) where
  IsConsistent-on : IsConsistent (λ x y. cmp (f x) (f y))
  IsConsistent-on = record {
    flip = λ x y. c.flip (f x) (f y);
    chain = λ x y z. c.chain (f x) (f y) (f z);
  }

module _ {A : Type 0} {cmp cmp' : A → A → Sign} (c : IsConsistent cmp)
    (c' : IsConsistent cmp') where
  IsConsistent-then_by : IsConsistent (λ x y. then_by (cmp x y) (cmp' x y))
  IsConsistent-then_by = record {
    flip = λ x y. rw (c.flip x y, c'.flip x y) (then_by_flip (cmp x y) (cmp' x y));
    chain = λ x y z.
        then_by_chain (cmp x y) (cmp y z) (cmp' x y) (cmp' y z) (cmp x z) (cmp' x z) (c.chain x y z)
          (c'.chain x y z);
  }

kinds_flip : (x y : DeadlineKind) → compare_kinds y x ≡ opposite (compare_kinds x y)
kinds_flip x y = ground arith

kinds_chain :
    (x y z : DeadlineKind)
    → compare_kinds x y ≢ after
    → compare_kinds y z ≢ after
    → compare_kinds x z ≡ then_by (compare_kinds x y) (compare_kinds y z)
kinds_chain x y z h k = ground arith

sats_flip : (x y : ℤ) → compare_sats y x ≡ opposite (compare_sats x y)
sats_flip x y = ground arith

sats_chain :
    (x y z : ℤ)
    → compare_sats x y ≢ after
    → compare_sats y z ≢ after
    → compare_sats x z ≡ then_by (compare_sats x y) (compare_sats y z)
sats_chain x y z h k = ground arith

-- The order of two code units.
abbrev compare_units : ℕ → ℕ → Sign
compare_units x y = if x == y then same else if ltb x y then before else after

units_flip : (x y : ℕ) → compare_units y x ≡ opposite (compare_units x y)
units_flip x y = ground arith

units_chain :
    (x y z : ℕ)
    → compare_units x y ≢ after
    → compare_units y z ≢ after
    → compare_units x z ≡ then_by (compare_units x y) (compare_units y z)
units_chain x y z h k = ground arith

compare_ids_cons :
    (x y : ℕ) (s t : Text)
    → compare_ids (x ∷ s) (y ∷ t) ≡ then_by (compare_units x y) (compare_ids s t)
compare_ids_cons x y s t = ground arith

pub ids_flip : (s t : Text) → compare_ids t s ≡ opposite (compare_ids s t)
ids_flip [] [] = refl
ids_flip [] (y ∷ t) = refl
ids_flip (x ∷ s) [] = refl
ids_flip (x ∷ s) (y ∷ t) =
    rw (compare_ids_cons x y s t, compare_ids_cons y x t s, units_flip x y, ids_flip s t)
      (then_by_flip (compare_units x y) (compare_ids s t))

ids_chain :
    (s t u : Text)
    → compare_ids s t ≢ after
    → compare_ids t u ≢ after
    → compare_ids s u ≡ then_by (compare_ids s t) (compare_ids t u)
ids_chain [] [] [] h k = refl
ids_chain [] [] (z ∷ u) h k = refl
ids_chain [] (y ∷ t) [] h k = absurd (k refl)
ids_chain [] (y ∷ t) (z ∷ u) h k = refl
ids_chain (x ∷ s) [] u h k = absurd (h refl)
ids_chain (x ∷ s) (y ∷ t) [] h k = absurd (k refl)
ids_chain (x ∷ s) (y ∷ t) (z ∷ u) h k =
    compare_ids_cons x z s u
    ∙ then_by_chain (compare_units x y) (compare_units y z) (compare_ids s t) (compare_ids t u)
        (compare_units x z) (compare_ids s u) (units_chain x y z) (ids_chain s t u)
        (subst (λ c. c ≢ after) (compare_ids_cons x y s t) h)
        (subst (λ c. c ≢ after) (compare_ids_cons y z t u) k)
    ∙ ap₂ then_by (sym (compare_ids_cons x y s t)) (sym (compare_ids_cons y z t u))

-- The comparator of `sweepable` is consistent.
pub compare_due-IsConsistent : IsConsistent compare_due
unfolding compare_due
compare_due-IsConsistent =
    IsConsistent-then_by
      (IsConsistent-on recovery_kind (record { flip = kinds_flip; chain = kinds_chain }))
      (IsConsistent-then_by
        (IsConsistent-on expiry_value (record { flip = sats_flip; chain = sats_chain }))
        (IsConsistent-then_by
          (IsConsistent-on (λ (a : Advance). a.locktime)
            (record { flip = sats_flip; chain = sats_chain }))
          (IsConsistent-on (λ (a : Advance). a.id)
            (record { flip = ids_flip; chain = ids_chain }))))
