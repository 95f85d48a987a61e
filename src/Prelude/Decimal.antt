-- ===== src/Prelude/Decimal.antt =====
-- `BigInt.prototype.toString(10)` and `BigInt(s)` on a string of decimal digits.
use Prim.Native.Nat.{ℕ, zero, suc, ◌+◌, ◌-◌, ◌*◌, ◌/◌, ◌%◌, ◌<◌}
use mathlib.Core.Path.{◌≡◌, refl, sym, ap, ◌∙◌}
use mathlib.Core.Logic.{inl, inr}
use mathlib.Core.Bool.{Bool, true, false, ◌&&◌}
use mathlib.Core.List.{[], ◌∷◌}
use native.Mathlib.Omega.{arith}
use arkade_taxi.Prelude.Tests.{ltb, leb, if◌then◌else◌, Bool-cases}
use arkade_taxi.Prelude.Lists.{Text, all}

-- The digits of `n` before `acc`; one round of fuel for each digit.
digits_from : ℕ → ℕ → Text → Text
digits_from zero n acc = acc
digits_from (suc fuel) n acc =
    let rest = digits_from fuel (n / 10) ((b'0' + n % 10) ∷ acc) in
    if ltb n 10 then (b'0' + n) ∷ acc else rest

unfoldable pub to_decimal : ℕ → Text
unfolding digits_from
to_decimal n = digits_from (suc n) n []

parse_from : ℕ → Text → ℕ
parse_from v [] = v
parse_from v (c ∷ s) = parse_from (v * 10 + (c - b'0')) s

unfoldable pub parse_decimal : Text → ℕ
unfolding parse_from
parse_decimal s = parse_from 0 s

abbrev pub is_digit : ℕ → Bool
is_digit c = leb b'0' c && leb c b'9'

-- `/^[0-9]+$/`
unfoldable pub is_decimal : Text → Bool
is_decimal [] = false
is_decimal (c ∷ s) = all is_digit (c ∷ s)

parse_from-digits_from :
    (fuel n : ℕ) (acc : Text) → n < fuel → parse_from 0 (digits_from fuel n acc) ≡ parse_from n acc
unfolding parse_from digits_from
parse_from-digits_from zero n acc h = elim h [ ]
parse_from-digits_from (suc fuel) n acc h = elim (Bool-cases (ltb n 10)) [
  | inl small ↦ rw small (ap (λ v. parse_from v acc) (omega arith))
  | inr big ↦ rw big (
      parse_from-digits_from fuel (n / 10) ((b'0' + n % 10) ∷ acc) (ground arith)
      ∙ ap (λ v. parse_from v acc) (omega arith))
]

-- Reading back what was printed gives the number.
pub parse_decimal-to_decimal : (n : ℕ) → parse_decimal (to_decimal n) ≡ n
unfolding parse_decimal to_decimal parse_from
parse_decimal-to_decimal n = parse_from-digits_from (suc n) n [] (omega arith)

digits_from-is_digit :
    (fuel n : ℕ) (acc : Text)
    → n < fuel
    → all is_digit acc ≡ true
    → is_decimal (digits_from fuel n acc) ≡ true
unfolding digits_from is_decimal
digits_from-is_digit zero n acc h k = elim h [ ]
digits_from-is_digit (suc fuel) n acc h k = elim (Bool-cases (ltb n 10)) [
  | inl small ↦ rw small (ground arith)
  | inr big ↦
      rw big
        (digits_from-is_digit fuel (n / 10) ((b'0' + n % 10) ∷ acc) (ground arith) (ground arith))
]

-- What is printed is one digit or more, and nothing else.
pub to_decimal-is_decimal : (n : ℕ) → is_decimal (to_decimal n) ≡ true
unfolding to_decimal
to_decimal-is_decimal n = digits_from-is_digit (suc n) n [] (omega arith) refl

pub to_decimal-injective : (m n : ℕ) → to_decimal m ≡ to_decimal n → m ≡ n
to_decimal-injective m n h =
    sym (parse_decimal-to_decimal m) ∙ ap parse_decimal h ∙ parse_decimal-to_decimal n
