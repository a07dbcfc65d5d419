-- ===== src/Encoding/Base64/RoundTrip.antt =====
-- Decoding what was encoded.
use mailwisp.Common.{
  ℕ, ◌+◌, ◌*◌, ◌/◌, ◌%◌, ◌<◌, ◌≡◌, refl, Bool, true, some, [], ◌∷◌, Bytes, All, arith, ◌∙◌,
}
use mailwisp.Encoding.Hex.{IsByte}
use mailwisp.Encoding.Base64.{
  char_of, is_base64_char, value_of, encode, decode_groups, without_line_ends, decode,
  prepend_group,
}

pub value_of-char_of : (v : ℕ) → v < 64 → value_of (char_of v) ≡ v
unfolding value_of char_of
value_of-char_of v h = ground arith

pub is_base64_char-char_of : (v : ℕ) → v < 64 → is_base64_char (char_of v) ≡ true
unfolding is_base64_char char_of
is_base64_char-char_of v h = ground arith

decode_two :
    (strict : Bool) (u v : ℕ)
    → u < 64
    → v < 64
    → v % 16 ≡ 0
    → decode_groups strict (char_of u ∷ char_of v ∷ []) ≡ some ((u * 4 + v / 16) ∷ [])
unfolding decode_groups
decode_two strict u v hu hv z =
    rw
      (
        is_base64_char-char_of u hu,
        is_base64_char-char_of v hv,
        value_of-char_of u hu,
        value_of-char_of v hv,
        z,
      )
      (ground arith)

decode_three :
    (strict : Bool) (u v w : ℕ)
    → u < 64
    → v < 64
    → w < 64
    → w % 4 ≡ 0
    → decode_groups strict (char_of u ∷ char_of v ∷ char_of w ∷ [])
      ≡ some ((u * 4 + v / 16) ∷ (v % 16 * 16 + w / 4) ∷ [])
unfolding decode_groups
decode_three strict u v w hu hv hw z =
    rw
      (
        is_base64_char-char_of u hu,
        is_base64_char-char_of v hv,
        is_base64_char-char_of w hw,
        value_of-char_of u hu,
        value_of-char_of v hv,
        value_of-char_of w hw,
        z,
      )
      (ground arith)

decode_four :
    (strict : Bool) (u v w x : ℕ) (s : Bytes)
    → u < 64
    → v < 64
    → w < 64
    → x < 64
    → decode_groups strict (char_of u ∷ char_of v ∷ char_of w ∷ char_of x ∷ s)
      ≡ prepend_group u v w x (decode_groups strict s)
unfolding decode_groups
decode_four strict u v w x s hu hv hw hx =
    rw
      (
        is_base64_char-char_of u hu,
        is_base64_char-char_of v hv,
        is_base64_char-char_of w hw,
        is_base64_char-char_of x hx,
        value_of-char_of u hu,
        value_of-char_of v hv,
        value_of-char_of w hw,
        value_of-char_of x hx,
      )
      refl

decode_groups-encode :
    (strict : Bool) (s : Bytes) → All IsByte s → decode_groups strict (encode s) ≡ some s
unfolding encode
decode_groups-encode strict [] h = unfold decode_groups in refl
decode_groups-encode strict (a ∷ []) h =
    decode_two strict (a / 4) (a % 4 * 16) (omega arith) (omega arith) (omega arith) ∙ ground arith
decode_groups-encode strict (a ∷ b ∷ []) h =
    decode_three strict (a / 4) (a % 4 * 16 + b / 16) (b % 16 * 4) (omega arith) (omega arith)
      (omega arith) (omega arith)
    ∙ ground arith
decode_groups-encode strict (a ∷ b ∷ c ∷ s) h =
    decode_four strict (a / 4) (a % 4 * 16 + b / 16) (b % 16 * 4 + c / 64) (c % 64) (encode s)
      (omega arith) (omega arith) (omega arith) (omega arith)
    ∙ rw (decode_groups-encode strict s h.1.1.1) (ground arith)

without_line_ends-char_of :
    (v : ℕ) (s : Bytes)
    → v < 64
    → without_line_ends (char_of v ∷ s) ≡ char_of v ∷ without_line_ends s
unfolding without_line_ends char_of
without_line_ends-char_of v s h = ground arith

without_line_ends-encode : (s : Bytes) → All IsByte s → without_line_ends (encode s) ≡ encode s
unfolding encode
without_line_ends-encode [] h = unfold without_line_ends in refl
without_line_ends-encode (a ∷ []) h =
    rw
      (
        without_line_ends-char_of (a / 4) _ (omega arith),
        without_line_ends-char_of (a % 4 * 16) [] (omega arith),
      )
      (unfold without_line_ends in refl)
without_line_ends-encode (a ∷ b ∷ []) h =
    rw
      (
        without_line_ends-char_of (a / 4) _ (omega arith),
        without_line_ends-char_of (a % 4 * 16 + b / 16) _ (omega arith),
        without_line_ends-char_of (b % 16 * 4) [] (omega arith),
      )
      (unfold without_line_ends in refl)
without_line_ends-encode (a ∷ b ∷ c ∷ s) h = rw (
  without_line_ends-char_of (a / 4) _ (omega arith),
  without_line_ends-char_of (a % 4 * 16 + b / 16) _ (omega arith),
  without_line_ends-char_of (b % 16 * 4 + c / 64) _ (omega arith),
  without_line_ends-char_of (c % 64) _ (omega arith),
  without_line_ends-encode s h.1.1.1,
)

-- Bytes that were encoded are decoded to themselves, by the strict decoder and by the other.
pub decode-encode : (strict : Bool) (s : Bytes) → All IsByte s → decode strict (encode s) ≡ some s
unfolding decode
decode-encode strict s h = rw (without_line_ends-encode s h) (decode_groups-encode strict s h)
