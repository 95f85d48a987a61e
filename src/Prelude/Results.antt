-- ===== src/Prelude/Results.antt =====
-- A call that returns or throws.
use mathlib.Core.Path.{◌≡◌, refl}
use mathlib.Core.Logic.{◌⊎◌, inl, inr}
use mathlib.Core.Bool.{Bool, true, false}

pub data Result {ℓ κ} (E : Type ℓ) (A : Type κ) : Type (ℓ ⊔ κ) where
  err : E → Result E A
  ok : A → Result E A

-- `if (c) throw e;`
abbrev pub throw_if {ℓ} : {E : Type ℓ} → Bool → E → Result E (Unit {0})
throw_if false e = ok tt
throw_if true e = err e

infixl 5 ◌>>=◌ ◌>>◌
-- The statements after a call: a throw ends them.
abbrev pub ◌>>=◌ {ℓ κ μ} :
    {E : Type ℓ} {A : Type κ} {B : Type μ} → Result E A → (A → Result E B) → Result E B
err thrown >>= next = err thrown
ok value >>= next = next value

abbrev pub ◌>>◌ {ℓ μ} : {E : Type ℓ} {B : Type μ} → Result E (Unit {0}) → Result E B → Result E B
call >> next = call >>= λ _. next

pub throw_if-eq-ok {ℓ} : {E : Type ℓ} (c : Bool) (e : E) → throw_if c e ≡ ok tt → c ≡ false
throw_if-eq-ok false e h = refl
throw_if-eq-ok true e h = cc

pub ok-injective {ℓ κ} :
    {E : Type ℓ} {A : Type κ} {a b : A} → Path (Result E A) (ok a) (ok b) → a ≡ b
ok-injective h = cc

pub >>-eq-ok {ℓ μ} :
    {E : Type ℓ} {B : Type μ} (call : Result E (Unit {0})) (next : Result E B) {b : B}
    → (call >> next) ≡ ok b
    → (call ≡ ok tt) × (next ≡ ok b)
>>-eq-ok (err thrown) next h = cc
>>-eq-ok (ok tt) next h = (refl, h)

pub >>=-eq-ok {ℓ κ μ} :
    {E : Type ℓ} {A : Type κ} {B : Type μ} (call : Result E A) (next : A → Result E B) {b : B}
    → (call >>= next) ≡ ok b
    → (a : A) × (call ≡ ok a) × (next a ≡ ok b)
>>=-eq-ok (err thrown) next h = cc
>>=-eq-ok (ok value) next h = (value, refl, h)

-- A call throws or returns.
pub Result-cases {ℓ κ} :
    {E : Type ℓ} {A : Type κ} (call : Result E A)
    → ((value : A) × (call ≡ ok value)) ⊎ ((thrown : E) × (call ≡ err thrown))
Result-cases (err thrown) = inr (thrown, refl)
Result-cases (ok value) = inl (value, refl)
