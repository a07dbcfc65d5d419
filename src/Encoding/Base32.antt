-- ===== src/Encoding/Base32.antt =====
-- base32.StdEncoding without padding, with its digits in lower case, as internal/mailbox/service.go uses it.
use mailwisp.Common.{ℕ, ◌+◌, ◌-◌, ◌*◌, ◌/◌, ◌%◌, [], ◌∷◌, ◌++◌, Bytes, take, ltb, if◌then◌else◌}

-- a to z, then 2 to 7
unfoldable pub base32_digit : ℕ → ℕ
base32_digit v = if ltb v 26 then b'a' + v else b'2' + (v - 26)

-- The 8 digits of 5 bytes, the last of them from the end of a text filled up with 0
unfoldable pub base32_block : ℕ → ℕ → ℕ → ℕ → ℕ → Bytes
unfolding base32_digit
base32_block a b c d e =
    base32_digit (a / 8)
    ∷ base32_digit (a % 8 * 4 + b / 64)
    ∷ base32_digit (b / 2 % 32)
    ∷ base32_digit (b % 2 * 16 + c / 16)
    ∷ base32_digit (c % 16 * 2 + d / 128)
    ∷ base32_digit (d / 4 % 32)
    ∷ base32_digit (d % 4 * 8 + e / 32)
    ∷ base32_digit (e % 32)
    ∷ []

unfoldable pub base32_lower : Bytes → Bytes
unfolding base32_block
base32_lower [] = []
base32_lower (a ∷ []) = take 2 (base32_block a 0 0 0 0)
base32_lower (a ∷ b ∷ []) = take 4 (base32_block a b 0 0 0)
base32_lower (a ∷ b ∷ c ∷ []) = take 5 (base32_block a b c 0 0)
base32_lower (a ∷ b ∷ c ∷ d ∷ []) = take 7 (base32_block a b c d 0)
base32_lower (a ∷ b ∷ c ∷ d ∷ e ∷ s) = base32_block a b c d e ++ base32_lower s
