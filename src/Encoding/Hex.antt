-- ===== src/Encoding/Hex.antt =====
-- hex.EncodeToString
use mailwisp.Common.{
  ℕ, ◌+◌, ◌-◌, ◌*◌, ◌/◌, ◌%◌, ◌<◌, ◌≡◌, refl, true, [], ◌∷◌, Bytes, is_lower_hex, length, All, all,
  ltb, if◌then◌else◌, arith,
}

unfoldable pub hex_digit : ℕ → ℕ
hex_digit v = if ltb v 10 then b'0' + v else b'a' + (v - 10)

unfoldable pub hex_encode : Bytes → Bytes
unfolding hex_digit
hex_encode [] = []
hex_encode (b ∷ s) = hex_digit (b / 16) ∷ hex_digit (b % 16) ∷ hex_encode s

abbrev pub IsByte : ℕ → Type 0
IsByte b = b < 256

pub length-hex_encode : (s : Bytes) → length (hex_encode s) ≡ 2 * length s
unfolding hex_encode
length-hex_encode [] = refl
length-hex_encode (b ∷ s) = omega (arith, length-hex_encode s)

hex_digit-hex : (v : ℕ) → v < 16 → is_lower_hex (hex_digit v) ≡ true
unfolding hex_digit is_lower_hex
hex_digit-hex v h = ground arith

pub hex_encode-hex : (s : Bytes) → All IsByte s → all is_lower_hex (hex_encode s) ≡ true
unfolding hex_encode
hex_encode-hex [] h = refl
hex_encode-hex (b ∷ s) h =
    rw (hex_digit-hex (b / 16) (omega arith), hex_digit-hex (b % 16) (omega arith))
      (hex_encode-hex s h.1)
