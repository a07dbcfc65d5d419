-- ===== src/Auth/Token/RoundTrip.antt =====
-- A token is read back from its plaintext, and the plaintext from the token.
use mailwisp.Common.{
  ℕ, suc, ◌+◌, ◌*◌, ◌/◌, ◌%◌, ◌≡◌, refl, sym, ap, ◌∙◌, inl, inr, true, some, [], ◌∷◌, ◌++◌, Bytes,
  codes, bytes_eq, bytes_eq_iff, ok, length, take, drop, take_left, length-append, get_elem?, All,
  all, ◌==◌, ==_iff, Bool-cases, arith,
}
use mailwisp.Encoding.Base64.{is_base64_char, encode}
use mailwisp.Encoding.Base64.RoundTrip.{is_base64_char-char_of, decode-encode}
use mailwisp.Encoding.Hex.{IsByte}
use mailwisp.Auth.Token.{
  Token, token_prefix, version_prefix, secret_encoded_bytes, secret_bytes, valid_type,
  is_underscore, is_kid, is_encoded_secret, parse_body, parse_token, well_typed, encode_token,
}

-- The secret of a token is an array of 32 bytes.
abbrev pub IsSecret : Bytes → Type 0
IsSecret s = (length s ≡ secret_bytes) × All IsByte s

all-encode : (s : Bytes) → All IsByte s → all is_base64_char (encode s) ≡ true
unfolding encode
all-encode [] h = refl
all-encode (a ∷ []) h =
    rw
      (
        is_base64_char-char_of (a / 4) (omega arith),
        is_base64_char-char_of (a % 4 * 16) (omega arith),
      )
      refl
all-encode (a ∷ b ∷ []) h =
    rw
      (
        is_base64_char-char_of (a / 4) (omega arith),
        is_base64_char-char_of (a % 4 * 16 + b / 16) (omega arith),
        is_base64_char-char_of (b % 16 * 4) (omega arith),
      )
      refl
all-encode (a ∷ b ∷ c ∷ s) h =
    rw
      (
        is_base64_char-char_of (a / 4) (omega arith),
        is_base64_char-char_of (a % 4 * 16 + b / 16) (omega arith),
        is_base64_char-char_of (b % 16 * 4 + c / 64) (omega arith),
        is_base64_char-char_of (c % 64) (omega arith),
      )
      (all-encode s h.1.1.1)

-- The part of a plaintext behind the type.
abbrev behind_type : Bytes → Bytes → Bytes
behind_type kid encoded = b'_' ∷ (version_prefix ++ (kid ++ b'_' ∷ encoded))

parse_token_typed :
    (t : Bytes) (body : Bytes)
    → valid_type t ≡ true
    → parse_token (token_prefix ++ (t ++ (b'_' ∷ (version_prefix ++ body)))) ≡ parse_body t body
unfolding parse_token valid_type
parse_token_typed t body h = elim (Bool-cases (bytes_eq t (codes "pat"))) [
  | inl e ↦ rw ((bytes_eq_iff t (codes "pat")).0 e) refl
  | inr not_pat ↦ elim (Bool-cases (bytes_eq t (codes "cap"))) [
    | inl e ↦ rw ((bytes_eq_iff t (codes "cap")).0 e) refl
    | inr not_cap ↦ elim (Bool-cases (bytes_eq t (codes "ses"))) [
      | inl e ↦ rw ((bytes_eq_iff t (codes "ses")).0 e) refl
      | inr not_ses ↦ rw ((bytes_eq_iff t (codes "whsec")).0 (ground arith)) refl
    ]
  ]
]

take_kid : (kid rest : Bytes) → length kid ≡ 24 → take 24 (kid ++ rest) ≡ kid
take_kid kid rest h = ap (λ n. take n (kid ++ rest)) (sym h) ∙ take_left kid rest

drop_kid : (kid rest : Bytes) (c : ℕ) → length kid ≡ 24 → drop 25 (kid ++ c ∷ rest) ≡ rest
drop_kid kid rest c h = ap (λ n. drop (suc n) (kid ++ c ∷ rest)) (sym h) ∙ drop_behind kid rest c
  where
    drop_behind : (kid rest : Bytes) (c : ℕ) → drop (suc (length kid)) (kid ++ c ∷ rest) ≡ rest
    drop_behind [] rest c = refl
    drop_behind (k ∷ kid) rest c = drop_behind kid rest c

get_elem?-behind :
    (kid rest : Bytes) (c : ℕ) → length kid ≡ 24 → get_elem? (kid ++ c ∷ rest) 24 ≡ some c
get_elem?-behind kid rest c h = ap (λ n. get_elem? (kid ++ c ∷ rest) n) (sym h) ∙ behind kid
  where
    behind : (kid : Bytes) → get_elem? (kid ++ c ∷ rest) (length kid) ≡ some c
    behind [] = refl
    behind (k ∷ kid) = behind kid

parse_body-encode :
    (t kid secret : Bytes)
    → is_kid kid ≡ true
    → length (encode secret) ≡ secret_encoded_bytes
    → IsSecret secret
    → parse_body t (kid ++ b'_' ∷ encode secret)
      ≡ ok (record { token_type = t; kid = kid; secret = secret })
unfolding parse_body is_kid is_encoded_secret is_underscore
parse_body-encode t kid secret hk he hs =
    let lk : length kid ≡ 24 = ground (arith) in
    rw
      (
        length-append kid (b'_' ∷ encode secret),
        lk,
        he,
        get_elem?-behind kid (encode secret) b'_' lk,
        take_kid kid (b'_' ∷ encode secret) lk,
        drop_kid kid (encode secret) b'_' lk,
        decode-encode true secret hs.1,
        hs.0,
        all-encode secret hs.1,
      )
      (ground arith)

-- What Encode has tested, and what it returns.
abbrev Plain : Token → Bytes → Type 0
Plain t plaintext =
    (valid_type t.token_type ≡ true)
    × (is_kid t.kid ≡ true)
    × (length (encode t.secret) ≡ secret_encoded_bytes)
    × (plaintext ≡ token_prefix ++ (t.token_type ++ behind_type t.kid (encode t.secret)))

encode_token-Plain :
    (t : Token) (plaintext : Bytes) → encode_token t ≡ ok plaintext → Plain t plaintext
unfolding encode_token well_typed
encode_token-Plain t plaintext e = elim (Bool-cases (well_typed t)) [
  | inr bad ↦ absurd (ground arith)
  | inl good ↦ elim (Bool-cases (length (encode t.secret) == secret_encoded_bytes)) [
    | inr bad ↦ absurd (ground arith)
    | inl fits ↦ (ground arith, ground arith, (==_iff _ _).0 fits, ground arith)
  ]
]

-- A token with a secret of 32 bytes is read back from its plaintext.
pub parse_token-encode_token :
    (t : Token) (plaintext : Bytes)
    → IsSecret t.secret
    → encode_token t ≡ ok plaintext
    → parse_token plaintext ≡ ok t
parse_token-encode_token t plaintext hs e =
    let (type_ok, kid_ok, fits, at) = encode_token-Plain t plaintext e in
    rw at (
      parse_token_typed t.token_type (t.kid ++ b'_' ∷ encode t.secret) type_ok
      ∙ parse_body-encode t.token_type t.kid t.secret kid_ok fits hs)
