-- ===== src/Encoding/Base64.antt =====
-- base64.RawURLEncoding and its Strict form: groups of three bytes and four characters, no padding.
pub mod RoundTrip
use mailwisp.Common.{
  ℕ, ◌+◌, ◌-◌, ◌*◌, ◌/◌, ◌%◌, ◌≡◌, refl, Bool, true, false, not, ◌&&◌, ◌||◌, Option, none, some, [],
  ◌∷◌, Bytes, codes, leb, ltb, ◌==◌, if◌then◌else◌,
}

-- The character of a value below 64.
unfoldable pub char_of : ℕ → ℕ
char_of v =
    if ltb v 26
    then b'A' + v
    else if ltb v 52
    then b'a' + (v - 26)
    else if ltb v 62
    then b'0' + (v - 52)
    else if v == 62
    then b'-'
    else b'_'

unfoldable pub is_base64_char : ℕ → Bool
is_base64_char c =
    (leb b'A' c && leb c b'Z')
    || (leb b'a' c && leb c b'z')
    || (leb b'0' c && leb c b'9')
    || c == b'-'
    || c == b'_'

-- The value of a character of the alphabet.
unfoldable pub value_of : ℕ → ℕ
value_of c =
    if leb b'A' c && leb c b'Z'
    then c - b'A'
    else if leb b'a' c && leb c b'z'
    then c - b'a' + 26
    else if leb b'0' c && leb c b'9'
    then c - b'0' + 52
    else if c == b'-'
    then 62
    else 63

-- EncodeToString
unfoldable pub encode : Bytes → Bytes
unfolding char_of
encode [] = []
encode (a ∷ []) = char_of (a / 4) ∷ char_of (a % 4 * 16) ∷ []
encode (a ∷ b ∷ []) = char_of (a / 4) ∷ char_of (a % 4 * 16 + b / 16) ∷ char_of (b % 16 * 4) ∷ []
encode (a ∷ b ∷ c ∷ s) =
    char_of (a / 4)
    ∷ char_of (a % 4 * 16 + b / 16)
    ∷ char_of (b % 16 * 4 + c / 64)
    ∷ char_of (c % 64)
    ∷ encode s

-- The bytes of four characters, before those of the text behind them.
abbrev pub prepend_group : ℕ → ℕ → ℕ → ℕ → Option Bytes → Option Bytes
prepend_group u v w x none = none
prepend_group u v w x (some s) =
    some ((u * 4 + v / 16) ∷ (v % 16 * 16 + w / 4) ∷ (w % 4 * 64 + x) ∷ s)

-- The decoder on a text with no line ends; `strict` wants the bits behind the last byte to be 0.
unfoldable pub decode_groups : Bool → Bytes → Option Bytes
unfolding is_base64_char value_of
decode_groups strict [] = some []
decode_groups strict (a ∷ []) = none
decode_groups strict (a ∷ b ∷ []) =
    if is_base64_char a && is_base64_char b && (not strict || value_of b % 16 == 0)
    then some ((value_of a * 4 + value_of b / 16) ∷ [])
    else none
decode_groups strict (a ∷ b ∷ c ∷ []) =
    if is_base64_char a
      && is_base64_char b
      && is_base64_char c
      && (not strict || value_of c % 4 == 0)
    then some ((value_of a * 4 + value_of b / 16) ∷ (value_of b % 16 * 16 + value_of c / 4) ∷ [])
    else none
decode_groups strict (a ∷ b ∷ c ∷ d ∷ s) =
    let rest = decode_groups strict s in
    if is_base64_char a && is_base64_char b && is_base64_char c && is_base64_char d
    then prepend_group (value_of a) (value_of b) (value_of c) (value_of d) rest
    else none

-- The decoder skips `\r` and `\n`.
unfoldable pub without_line_ends : Bytes → Bytes
without_line_ends [] = []
without_line_ends (c ∷ s) =
    let rest = without_line_ends s in if c == 10 || c == 13 then rest else c ∷ rest

-- DecodeString
unfoldable pub decode : Bool → Bytes → Option Bytes
unfolding decode_groups without_line_ends
decode strict s = decode_groups strict (without_line_ends s)

two_bytes : encode (255 ∷ 224 ∷ []) ≡ codes "_-A"
unfolding encode
two_bytes = refl

loose_bits : decode true (codes "_-B") ≡ none
unfolding decode
loose_bits = refl

folded : decode false (b'_' ∷ 10 ∷ codes "-B") ≡ some (255 ∷ 224 ∷ [])
unfolding decode
folded = refl
