-- ===== src/Auth/Token/Generate.antt =====
-- A generated token can be revealed, and is read back.
use mailwisp.Common.{
  ℕ, zero, suc, ◌+◌, ◌*◌, ◌/◌, ◌≡◌, refl, inl, inr, true, [], ◌∷◌, ◌++◌, Bytes, ok, length, take,
  drop, length-take, All, ltb, Bool-cases, arith,
}
use mailwisp.Encoding.Base64.{encode}
use mailwisp.Encoding.Hex.{IsByte, hex_encode, length-hex_encode, hex_encode-hex}
use mailwisp.Auth.Token.{
  Token, token_prefix, version_prefix, valid_type, is_kid, generate_token, well_typed, encode_token,
  parse_token, kid_encoded_bytes,
}
use mailwisp.Auth.Token.RoundTrip.{IsSecret, parse_token-encode_token}

length-encode : (s : Bytes) → length (encode s) ≡ (4 * length s + 2) / 3
unfolding encode
length-encode [] = refl
length-encode (a ∷ []) = refl
length-encode (a ∷ b ∷ []) = refl
length-encode (a ∷ b ∷ c ∷ s) = omega (arith, length-encode s)

All-take : (n : ℕ) (s : Bytes) → All IsByte s → All IsByte (take n s)
All-take zero s h = tt
All-take (suc n) [] h = tt
All-take (suc n) (b ∷ s) h = (h.0, All-take n s h.1)

All-drop : (n : ℕ) (s : Bytes) → All IsByte s → All IsByte (drop n s)
All-drop zero s h = h
All-drop (suc n) [] h = tt
All-drop (suc n) (b ∷ s) h = All-drop n s h.1

-- A token as GenerateToken makes it.
abbrev pub Made : Bytes → Token → Type 0
Made token_type t =
    (t.token_type ≡ token_type)
    × (valid_type token_type ≡ true)
    × (is_kid t.kid ≡ true)
    × (length t.kid ≡ kid_encoded_bytes)
    × IsSecret t.secret

is_kid-hex_encode :
    (n : ℕ) (s : Bytes) → n ≡ 12 → All IsByte s → length s ≡ n → is_kid (hex_encode s) ≡ true
unfolding is_kid
is_kid-hex_encode n s at h l =
    let twice : length (hex_encode s) ≡ 24 = omega (arith, length-hex_encode s) in
    rw (twice, hex_encode-hex s h) refl

pub generate_token-Made :
    (token_type random left : Bytes) (t : Token)
    → All IsByte random
    → generate_token token_type random ≡ ok (t, left)
    → Made token_type t
unfolding generate_token
generate_token-Made token_type random left t h e = elim (Bool-cases (valid_type token_type)) [
  | inr bad ↦ absurd (ground arith)
  | inl valid ↦ elim (Bool-cases (ltb (length random) 12)) [
    | inl short ↦ absurd (ground arith)
    | inr kid_there ↦ elim (Bool-cases (ltb (length (drop 12 random)) 32)) [
      | inl short ↦ absurd (ground arith)
      | inr secret_there ↦
          let made : t ≡ record {
            token_type = token_type;
            kid = hex_encode (take 12 random);
            secret = take 32 (drop 12 random);
          } =
            ground arith in
          let twelve : length (take 12 random) ≡ 12 = ground (arith, length-take 12 random) in
          let bytes = All-drop 12 random h in
          rw made (
            refl,
            valid,
            is_kid-hex_encode 12 (take 12 random) refl (All-take 12 random h) twelve,
            omega (arith, length-hex_encode (take 12 random)),
            (ground (arith, length-take 32 (drop 12 random)), All-take 32 (drop 12 random) bytes),
          )
    ]
  ]
]

-- The plaintext of a token.
abbrev plaintext_of : Token → Bytes
plaintext_of t =
    token_prefix
    ++ (t.token_type ++ (b'_' ∷ (version_prefix ++ (t.kid ++ (b'_' ∷ encode t.secret)))))

-- A token that GenerateToken made can be encoded, and ParseToken reads it back from its plaintext.
pub parse_token-generate_token :
    (token_type random left : Bytes) (t : Token)
    → All IsByte random
    → generate_token token_type random ≡ ok (t, left)
    → (plaintext : Bytes) × (encode_token t ≡ ok plaintext) × (parse_token plaintext ≡ ok t)
unfolding encode_token well_typed
parse_token-generate_token token_type random left t h e =
    let (same, valid, kid_ok, kid_length, secret) =
      generate_token-Made token_type random left t h e in
    let fits : length (encode t.secret) ≡ 43 = omega (arith, length-encode t.secret, secret.0) in
    let encoded : encode_token t ≡ ok (plaintext_of t) =
      rw (same, valid, kid_ok, kid_length, fits) refl in
    (_, encoded, parse_token-encode_token t _ secret encoded)
