-- ===== src/Seal/Hex.antt =====
-- Hexadecimal texts, and the signature that `decodeSignature` reads back.
use fleetsweeper.Common.{
  ℕ, ◌*◌, ◌/◌, ◌%◌, ◌≤◌, ◌<◌, ◌≡◌, refl, [], ◌∷◌, some, nat_eq, list_eq, length, arith, All,
}
use fleetsweeper.Seal.{Bytes, hex_digit, hex_encode, hex_value, hex_decode}

abbrev pub IsByte : ℕ → Type 0
IsByte b = b < 256

hex_value-hex_digit : (n : ℕ) → n < 16 → hex_value (hex_digit n) ≡ some n
unfolding hex_value hex_digit
hex_value-hex_digit n h = ground arith

-- No digit is a space, and so on: each is a printable character below 128.
pub hex_digit_visible : (n : ℕ) → n < 16 → (48 ≤ hex_digit n) × (hex_digit n ≤ 127)
unfolding hex_digit
hex_digit_visible n h = (ground arith, ground arith)

pub hex_decode-hex_encode : (bs : Bytes) → All IsByte bs → hex_decode (hex_encode bs) ≡ some bs
unfolding hex_decode hex_encode
hex_decode-hex_encode [] h = refl
hex_decode-hex_encode (b ∷ bs) h = ground (
  arith,
  hex_value-hex_digit (b / 16) (omega (arith, h.0)),
  hex_value-hex_digit (b % 16) (omega (arith, h.0)),
  hex_decode-hex_encode bs h.1,
)

pub length-hex_encode : (bs : Bytes) → length (hex_encode bs) ≡ 2 * length bs
unfolding hex_encode
length-hex_encode [] = refl
length-hex_encode (b ∷ bs) = ground (arith, length-hex_encode bs)

abbrev pub IsVisible : ℕ → Type 0
IsVisible c = (48 ≤ c) × (c ≤ 127)

pub hex_encode-IsVisible : (bs : Bytes) → All IsByte bs → All IsVisible (hex_encode bs)
unfolding hex_encode
hex_encode-IsVisible [] h = tt
hex_encode-IsVisible (b ∷ bs) h = (
  hex_digit_visible (b / 16) (omega (arith, h.0)),
  (hex_digit_visible (b % 16) (omega (arith, h.0)), hex_encode-IsVisible bs h.1),
)
