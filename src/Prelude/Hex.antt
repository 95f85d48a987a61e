-- ===== src/Prelude/Hex.antt =====
-- Lowercase hexadecimal: a byte as two digits, and back.
use Prim.Native.Nat.{ℕ, ◌+◌, ◌-◌, ◌*◌, ◌/◌, ◌%◌}
use mathlib.Core.Path.{◌≡◌, refl, ap, ap₂}
use mathlib.Core.Bool.{Bool, true, ◌&&◌, ◌||◌}
use mathlib.Core.List.{[], ◌∷◌, ◌++◌}
use native.Mathlib.Omega.{arith}
use arkade_taxi.Prelude.Tests.{ltb, leb, if◌then◌else◌}
use arkade_taxi.Prelude.Lists.{Text, Bytes, IsBytes, all, length}

-- A digit below 16, as `toString(16)` writes it.
abbrev pub hex_digit : ℕ → ℕ
hex_digit d = if ltb d 10 then b'0' + d else b'a' + (d - 10)

-- `[0-9a-f]`
abbrev pub is_hex : ℕ → Bool
is_hex c = (leb b'0' c && leb c b'9') || (leb b'a' c && leb c b'f')

-- `parseInt` of one hexadecimal digit.
abbrev pub hex_value : ℕ → ℕ
hex_value c = if leb c b'9' then c - b'0' else c - b'a' + 10

-- `byte.toString(16)`, for a byte.
abbrev pub byte_to_string16 : ℕ → Text
byte_to_string16 b =
    if ltb b 16 then hex_digit b ∷ [] else hex_digit (b / 16) ∷ hex_digit (b % 16) ∷ []

-- `s.padStart(2, "0")`, for a string that is not empty.
abbrev pub pad_start2 : Text → Text
pad_start2 (c ∷ []) = b'0' ∷ c ∷ []
pad_start2 s = s

pub pad_start2-byte :
    (b : ℕ)
    → ltb b 256 ≡ true
    → pad_start2 (byte_to_string16 b) ≡ hex_digit (b / 16) ∷ hex_digit (b % 16) ∷ []
pad_start2-byte b h = ground arith

pub hex_value-hex_digit : (d : ℕ) → ltb d 16 ≡ true → hex_value (hex_digit d) ≡ d
hex_value-hex_digit d h = ground arith

pub hex_digit-is_hex : (d : ℕ) → ltb d 16 ≡ true → is_hex (hex_digit d) ≡ true
hex_digit-is_hex d h = ground arith

pub hex_digit-hex_value : (c : ℕ) → is_hex c ≡ true → hex_digit (hex_value c) ≡ c
hex_digit-hex_value c h = ground arith

pub hex_value-lt : (c : ℕ) → is_hex c ≡ true → ltb (hex_value c) 16 ≡ true
hex_value-lt c h = ground arith

-- The digits of each byte, one after the other.
abbrev pub concat_hex : Bytes → Text
concat_hex [] = []
concat_hex (b ∷ bs) = pad_start2 (byte_to_string16 b) ++ concat_hex bs

-- `parseInt(s.slice(i * 2, i * 2 + 2), 16)` for each `i` below half the length.
abbrev pub parse_pairs : Text → Bytes
parse_pairs (c ∷ d ∷ s) = (hex_value c * 16 + hex_value d) ∷ parse_pairs s
parse_pairs _ = []

pub concat_hex-cons :
    (b : ℕ) (bs : Bytes)
    → ltb b 256 ≡ true
    → concat_hex (b ∷ bs) ≡ hex_digit (b / 16) ∷ hex_digit (b % 16) ∷ concat_hex bs
concat_hex-cons b bs h = ap (λ s. s ++ concat_hex bs) (pad_start2-byte b h)

byte_split : (b : ℕ) → (b / 16) * 16 + b % 16 ≡ b
byte_split b = omega arith

pub parse_pairs-concat_hex : (bs : Bytes) → IsBytes bs → parse_pairs (concat_hex bs) ≡ bs
parse_pairs-concat_hex [] h = refl
parse_pairs-concat_hex (b ∷ bs) (hb, h) = rw (concat_hex-cons b bs hb) (
    ap₂ ◌∷◌
      (rw (hex_value-hex_digit (b / 16) (ground arith), hex_value-hex_digit (b % 16) (ground arith))
        (byte_split b))
      (parse_pairs-concat_hex bs h))

pub concat_hex-is_hex : (bs : Bytes) → IsBytes bs → all is_hex (concat_hex bs) ≡ true
concat_hex-is_hex [] h = refl
concat_hex-is_hex (b ∷ bs) (hb, h) =
    rw
      (
        concat_hex-cons b bs hb,
        hex_digit-is_hex (b / 16) (ground arith),
        hex_digit-is_hex (b % 16) (ground arith),
      )
      (concat_hex-is_hex bs h)

pub length-concat_hex : (bs : Bytes) → IsBytes bs → length (concat_hex bs) ≡ 2 * length bs
length-concat_hex [] h = refl
length-concat_hex (b ∷ bs) (hb, h) =
    rw (concat_hex-cons b bs hb) (omega (arith, length-concat_hex bs h))

pair-lt : (x y : ℕ) → ltb x 16 ≡ true → ltb y 16 ≡ true → ltb (x * 16 + y) 256 ≡ true
pair-lt x y h k = ground arith

pair-div : (x y : ℕ) → ltb y 16 ≡ true → (x * 16 + y) / 16 ≡ x
pair-div x y h = ground arith

pair-mod : (x y : ℕ) → ltb y 16 ≡ true → (x * 16 + y) % 16 ≡ y
pair-mod x y h = ground arith

pub concat_hex-parse_pairs :
    (s : Text) → all is_hex s ≡ true → length s % 2 ≡ 0 → concat_hex (parse_pairs s) ≡ s
concat_hex-parse_pairs [] h e = refl
concat_hex-parse_pairs (c ∷ []) h e = absurd (omega arith)
concat_hex-parse_pairs (c ∷ d ∷ s) h e =
    let hc : is_hex c ≡ true = ground arith in
    let hd : is_hex d ≡ true = ground arith in
    let hs : all is_hex s ≡ true = ground arith in
    let x = hex_value c in
    let y = hex_value d in
    rw
      (concat_hex-cons (x * 16 + y) (parse_pairs s)
        (pair-lt x y (hex_value-lt c hc) (hex_value-lt d hd)))
      (rw
        (
          pair-div x y (hex_value-lt d hd),
          pair-mod x y (hex_value-lt d hd),
          hex_digit-hex_value c hc,
          hex_digit-hex_value d hd,
        )
        (ap (λ r. c ∷ d ∷ r) (concat_hex-parse_pairs s hs (omega arith))))

pub parse_pairs-IsBytes : (s : Text) → all is_hex s ≡ true → IsBytes (parse_pairs s)
parse_pairs-IsBytes [] h = tt
parse_pairs-IsBytes (c ∷ []) h = tt
parse_pairs-IsBytes (c ∷ d ∷ s) h = (ground arith, parse_pairs-IsBytes s (ground arith))
