-- ===== src/Auth/Token.antt =====
-- internal/auth/token.go: the grammar of tokens. SHA-256 is a parameter of `digest`.
pub mod RoundTrip
pub mod Generate
use mailwisp.Common.{
  ℕ, ◌+◌, Bool, true, false, not, ◌&&◌, ◌||◌, Option, none, some, [], ◌∷◌, ◌++◌, Bytes, codes,
  bytes_eq, has_prefix, index_byte, is_lower_hex, Error, invalid_token, Result, ok, err, ◌>>=◌,
  ◌>>◌, guard, or_fail, length, take, drop, get_elem?, all, ltb, ◌==◌, if◌then◌else◌,
}
use mailwisp.Encoding.Base64.{is_base64_char, encode, decode}
use mailwisp.Encoding.Hex.{hex_encode}

abbrev pub token_prefix : Bytes
token_prefix = codes "wisp_"

abbrev pub version_prefix : Bytes
version_prefix = codes "v1_"

abbrev pub kid_bytes : ℕ
kid_bytes = 12

abbrev pub kid_encoded_bytes : ℕ
kid_encoded_bytes = 24

abbrev pub secret_bytes : ℕ
secret_bytes = 32

abbrev pub secret_encoded_bytes : ℕ
secret_encoded_bytes = 43

abbrev pub token_capability : Bytes
token_capability = codes "cap"

-- TokenType.valid
unfoldable pub valid_type : Bytes → Bool
valid_type t =
    bytes_eq t (codes "pat")
    || bytes_eq t token_capability
    || bytes_eq t (codes "ses")
    || bytes_eq t (codes "whsec")

pub record Token : Type 0 where
  pub token_type : Bytes
  pub kid : Bytes
  pub secret : Bytes

-- isLowerHex
unfoldable pub is_kid : Bytes → Bool
unfolding is_lower_hex
is_kid s = length s == kid_encoded_bytes && all is_lower_hex s

-- isBase64URL
unfoldable pub is_encoded_secret : Bytes → Bool
unfolding is_base64_char
is_encoded_secret s = length s == secret_encoded_bytes && all is_base64_char s

-- io.ReadFull from the bytes that the random source still gives
unfoldable pub read_full : ℕ → Bytes → Result (Bytes × Bytes)
read_full n random =
    if ltb (length random) n
    then err (if length random == 0 then Error.eof else Error.unexpected_eof)
    else ok (take n random, drop n random)

-- generateToken, with what is left of the random source
unfoldable pub generate_token : Bytes → Bytes → Result (Token × Bytes)
unfolding valid_type read_full hex_encode
generate_token token_type random = do
  guard (valid_type token_type) invalid_token
  (kid, random₁) ← read_full kid_bytes random
  (secret, random₂) ← read_full secret_bytes random₁
  ok (record { token_type = token_type; kid = hex_encode kid; secret = secret }, random₂)

is_underscore : Option ℕ → Bool
is_underscore none = false
is_underscore (some c) = c == b'_'

-- ParseToken behind the version.
unfoldable pub parse_body : Bytes → Bytes → Result Token
unfolding is_underscore is_kid is_encoded_secret decode
parse_body token_type s = do
  guard
      (length s == kid_encoded_bytes + 1 + secret_encoded_bytes
        && is_underscore (get_elem? s kid_encoded_bytes))
      invalid_token
  guard (is_kid (take kid_encoded_bytes s)) invalid_token
  guard (is_encoded_secret (drop (kid_encoded_bytes + 1) s)) invalid_token
  secret ← or_fail (decode true (drop (kid_encoded_bytes + 1) s)) invalid_token
  guard (length secret == secret_bytes) invalid_token
  ok (record { token_type = token_type; kid = take kid_encoded_bytes s; secret = secret })

-- ParseToken behind the prefix, with the place of the first underscore.
unfoldable pub parse_typed : Bytes → Option ℕ → Result Token
unfolding valid_type has_prefix parse_body
parse_typed s none = err invalid_token
parse_typed s (some type_end) = do
  guard (not (type_end == 0)) invalid_token
  guard (valid_type (take type_end s)) invalid_token
  let behind = drop (type_end + 1) s
  guard (has_prefix version_prefix behind) invalid_token
  parse_body (take type_end s) (drop (length version_prefix) behind)

unfoldable pub parse_token : Bytes → Result Token
unfolding parse_typed has_prefix index_byte
parse_token plaintext = do
  guard (has_prefix token_prefix plaintext) invalid_token
  let remainder = drop (length token_prefix) plaintext
  parse_typed remainder (index_byte b'_' remainder)

-- The check that Encode and Digest begin with.
unfoldable pub well_typed : Token → Bool
unfolding valid_type is_kid
well_typed t = valid_type t.token_type && length t.kid == kid_encoded_bytes && is_kid t.kid

-- Token.Encode
unfoldable pub encode_token : Token → Result Bytes
unfolding well_typed encode
encode_token t = do
  guard (well_typed t) invalid_token
  let encoded = encode t.secret
  guard (length encoded == secret_encoded_bytes) invalid_token
  ok (token_prefix ++ (t.token_type ++ (b'_' ∷ (version_prefix ++ (t.kid ++ (b'_' ∷ encoded))))))

abbrev pub digest_domain : Bytes
digest_domain = codes "mailwisp-token-v1" ++ 0 ∷ []

-- What Token.Digest hashes.
unfoldable pub digest_input : Token → Bytes
digest_input t = digest_domain ++ (t.token_type ++ (0 ∷ (t.kid ++ (0 ∷ t.secret))))

-- Token.Digest for a hash function
unfoldable pub digest : (Bytes → Bytes) → Token → Result Bytes
unfolding well_typed digest_input
digest sha256 t = do guard (well_typed t) invalid_token; ok (sha256 (digest_input t))
