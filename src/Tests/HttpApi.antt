-- ===== src/Tests/HttpApi.antt =====
-- Examples for the HTTP API.
use mailwisp.Common.{◌++◌, ◌≡◌, refl, some, [], ◌∷◌, Bytes, ok, arith}
use mailwisp.Encoding.Base64.{encode}
use mailwisp.Mailbox.Messages.{MessageCursor}
use mailwisp.HttpApi.MessageCursor.{
  Uuids, encode_message_cursor, decode_message_cursor, big_endian, version, unix_micro,
}
use mailwisp.HttpApi.MessageCursor.RoundTrip.{decode_message_cursor-encode_message_cursor}

-- A UUID is its bytes.
abbrev raw_uuids : Uuids
raw_uuids = record { parse = λ s. some s; to_text = λ s. s }

abbrev seventh : Bytes
seventh = 1 ∷ 2 ∷ 3 ∷ 4 ∷ 5 ∷ 6 ∷ 112 ∷ 8 ∷ 9 ∷ 10 ∷ 11 ∷ 12 ∷ 13 ∷ 14 ∷ 15 ∷ 16 ∷ []

-- A microsecond and a half behind the zero time
abbrev early_cursor : MessageCursor
early_cursor = record { received_at = 1500; id = seventh }

decode_message_cursor-encode_message_cursor_example :
    decode_message_cursor raw_uuids (encode (1 ∷ big_endian 8 (unix_micro 1) ++ seventh))
    ≡ ok (some (record { received_at = 1000; id = seventh }))
unfolding encode_message_cursor version big_endian
decode_message_cursor-encode_message_cursor_example =
    decode_message_cursor-encode_message_cursor raw_uuids early_cursor seventh
      (encode (1 ∷ big_endian 8 (unix_micro 1) ++ seventh)) refl refl (omega arith) refl
