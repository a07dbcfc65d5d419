-- ===== src/HttpApi/MessageCursor/RoundTrip.antt =====
-- A cursor that was sent to a client is read back.
use mailwisp.Common.{
  ℕ, zero, suc, ◌+◌, ◌*◌, ◌/◌, ◌%◌, ◌≤◌, ◌<◌, ◌≡◌, refl, sym, ◌∙◌, ap, true, false, some, [], ◌∷◌,
  ◌++◌, Bytes, All-append, ok, guard, then_ok, ok-injective, guard-ok, subst, ltb→lt, if_cases,
  length, length-append, take, drop, take_left, drop_left, All, ltb, ◌==◌, arith,
}
use mailwisp.Encoding.Hex.{IsByte}
use mailwisp.Encoding.Base64.{encode}
use mailwisp.Encoding.Base64.RoundTrip.{decode-encode}
use mailwisp.Mailbox.Messages.{MessageCursor}
use mailwisp.HttpApi.MessageCursor.{
  Uuids, message_cursor_version, invalid_cursor_id, invalid_cursor_time, big_endian,
  from_big_endian, version, unix_micro, from_unix_micro, valid_micros, encode_message_cursor,
  decode_payload, decode_versioned, present, decode_message_cursor, two_64, two_63,
  unix_epoch_micros, maximum_cursor_micros,
}

from_big_endian-append :
    (acc : ℕ) (s : Bytes) (b : ℕ)
    → from_big_endian acc (s ++ b ∷ []) ≡ from_big_endian acc s * 256 + b
unfolding from_big_endian
from_big_endian-append acc [] b = refl
from_big_endian-append acc (c ∷ s) b = from_big_endian-append (acc * 256 + c) s b

-- A number of n bytes
abbrev Holds : ℕ → ℕ → Type 0
Holds zero v = v ≡ 0
Holds (suc n) v = Holds n (v / 256)

from_big_endian-big_endian : (n v : ℕ) → Holds n v → from_big_endian 0 (big_endian n v) ≡ v
unfolding from_big_endian big_endian
from_big_endian-big_endian zero v h = sym h
from_big_endian-big_endian (suc n) v h =
    from_big_endian-append 0 (big_endian n (v / 256)) (v % 256)
    ∙ omega (arith, from_big_endian-big_endian n (v / 256) h)

length-big_endian : (n v : ℕ) → length (big_endian n v) ≡ n
unfolding big_endian
length-big_endian zero v = refl
length-big_endian (suc n) v =
    omega (
      arith,
      length-append (big_endian n (v / 256)) ((v % 256) ∷ []),
      length-big_endian n (v / 256),
    )

big_endian-bytes : (n v : ℕ) → All IsByte (big_endian n v)
unfolding big_endian
big_endian-bytes zero v = tt
big_endian-bytes (suc n) v =
    All-append IsByte (big_endian n (v / 256)) ((v % 256) ∷ []) (big_endian-bytes n (v / 256))
      (omega arith, tt)

eight_bytes : (v : ℕ) → v < two_64 → Holds 8 v
eight_bytes v h = omega arith

unix_micro-back :
    (micros : ℕ) → valid_micros micros ≡ true → from_unix_micro (unix_micro micros) ≡ some micros
unix_micro-back micros h =
    let v = unix_micro micros in
    let in_range = bounds micros h in
    if_cases (λ o. o ≡ some micros) (ltb v two_63)
      (λ small. let below = ltb→lt v two_63 small in ap some (omega (arith, in_range.1, below)))
      (λ large.
        let above : two_63 ≤ v = ground (arith, large) in
        if_cases (λ o. o ≡ some micros) (ltb (v + unix_epoch_micros) two_64)
          (λ early.
            let below = ltb→lt (v + unix_epoch_micros) two_64 early in
            absurd (omega (arith, in_range.1, above, below)))
          (λ _. ap some (omega (arith, in_range.1, above))))
  where
    bounds : (m : ℕ) → valid_micros m ≡ true → (1 ≤ m) × (m ≤ maximum_cursor_micros)
    bounds m valid = (ground arith, ground arith)

-- What encodeMessageCursor has checked, and what it writes.
module _ (uuids : Uuids) where
  decode_payload-written :
      (micros : ℕ) (identifier : Bytes)
      → valid_micros micros ≡ true
      → version identifier ≡ 7
      → decode_payload uuids (big_endian 8 (unix_micro micros) ++ identifier)
        ≡ ok (record { received_at = micros * 1000; id = uuids.to_text identifier })
  unfolding decode_payload
  decode_payload-written micros identifier valid seven =
      let written = big_endian 8 (unix_micro micros) in
      let eight = length-big_endian 8 (unix_micro micros) in
      let front : take 8 (written ++ identifier) ≡ written =
        subst (λ n. take n (written ++ identifier) ≡ written) eight
          (take_left written identifier) in
      let back : drop 8 (written ++ identifier) ≡ identifier =
        subst (λ n. drop n (written ++ identifier) ≡ identifier) eight
          (drop_left written identifier) in
      rw
        (
          front,
          back,
          from_big_endian-big_endian 8 (unix_micro micros)
              (eight_bytes (unix_micro micros) (omega arith)),
          unix_micro-back micros valid,
          valid,
          seven,
        )
        refl

  decode_message_cursor-encode :
      (payload : Bytes)
      → All IsByte payload
      → 1 ≤ length payload
      → decode_message_cursor uuids (encode payload)
        ≡ present uuids (decode_versioned uuids payload)
  unfolding decode_message_cursor encode
  decode_message_cursor-encode [] bytes some_bytes = absurd (omega arith)
  decode_message_cursor-encode (a ∷ []) bytes some_bytes =
      rw (decode-encode false (a ∷ []) bytes) refl
  decode_message_cursor-encode (a ∷ b ∷ []) bytes some_bytes =
      rw (decode-encode false (a ∷ b ∷ []) bytes) refl
  decode_message_cursor-encode (a ∷ b ∷ c ∷ s) bytes some_bytes =
      rw (decode-encode false (a ∷ b ∷ c ∷ s) bytes) refl

  -- A cursor that encodeMessageCursor has made is read back with its time cut to microseconds and its identifier in the
  -- spelling of the package uuid, where uuid.Parse gives 16 bytes.
  pub decode_message_cursor-encode_message_cursor :
      (cursor : MessageCursor) (identifier raw : Bytes)
      → uuids.parse cursor.id ≡ some identifier
      → length identifier ≡ 16
      → All IsByte identifier
      → encode_message_cursor uuids cursor ≡ ok raw
      → decode_message_cursor uuids raw
        ≡ ok (
            some (record {
              received_at = cursor.received_at / 1000 * 1000;
              id = uuids.to_text identifier;
            }))
  unfolding encode_message_cursor decode_versioned
  decode_message_cursor-encode_message_cursor cursor identifier raw parsed sized bytes made =
      let micros = cursor.received_at / 1000 in
      let number = big_endian 8 (unix_micro micros) in
      let payload = number ++ identifier in
      let (seven, more) =
        then_ok (guard (version identifier == 7) invalid_cursor_id) _ (rw parsed at made) in
      let (timely, written) = then_ok (guard (valid_micros micros) invalid_cursor_time) _ more in
      let counted : length payload + 1 ≡ 25 =
        omega (
          arith,
          length-append number identifier,
          length-big_endian 8 (unix_micro micros),
          sized,
        ) in
      let seven_it : version identifier ≡ 7 = is_seven (version identifier) (guard-ok _ _ seven) in
      ap (decode_message_cursor uuids) (sym (ok-injective written))
      ∙ decode_message_cursor-encode (message_cursor_version ∷ payload)
          (
            omega arith,
            All-append IsByte number identifier (big_endian-bytes 8 (unix_micro micros)) bytes,
          )
          (omega arith)
      ∙ rw (counted, decode_payload-written micros identifier (guard-ok _ _ timely) seven_it) refl
    where
      is_seven : (n : ℕ) → (n == 7) ≡ true → n ≡ 7
      is_seven n h = ground arith
