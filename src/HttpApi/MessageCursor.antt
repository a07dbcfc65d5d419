-- ===== src/HttpApi/MessageCursor.antt =====
-- internal/httpapi/message_cursor.go. A time is the number of nanoseconds since the zero time, which is the minimum of
-- the cursors. uuid.Parse, FromBytes and String are parameters; a UUID is its 16 bytes.
pub mod RoundTrip
use mailwisp.Common.{
  ℕ, zero, suc, ◌+◌, ◌-◌, ◌*◌, ◌/◌, ◌%◌, Bool, true, false, not, ◌||◌, Option, none, some, [], ◌∷◌,
  ◌++◌, Bytes, codes, Error, text, Result, ok, err, ◌>>=◌, ◌>>◌, guard, or_fail, length, take, drop,
  ltb, ◌==◌, if◌then◌else◌,
}
use mailwisp.Encoding.Base64.{encode, decode}
use mailwisp.Mailbox.Messages.{MessageCursor}

pub record Uuids : Type 0 where
  pub parse : Bytes → Option Bytes
  pub to_text : Bytes → Bytes

abbrev pub message_cursor_version : ℕ
message_cursor_version = 1

abbrev pub message_cursor_bytes : ℕ
message_cursor_bytes = 25

-- The last microsecond of the year 9999
abbrev pub maximum_cursor_micros : ℕ
maximum_cursor_micros = 315537897599999999

-- The microseconds from the zero time to 1970
abbrev pub unix_epoch_micros : ℕ
unix_epoch_micros = 62135596800000000

-- 2 ^ 64 and 2 ^ 63
abbrev pub two_64 : ℕ
two_64 = 18446744073709551616

abbrev pub two_63 : ℕ
two_63 = 9223372036854775808

-- binary.BigEndian.PutUint64, for any number of bytes
unfoldable pub big_endian : ℕ → ℕ → Bytes
big_endian zero v = []
big_endian (suc n) v = big_endian n (v / 256) ++ (v % 256) ∷ []

-- binary.BigEndian.Uint64, `acc` being the value of the bytes before
unfoldable pub from_big_endian : ℕ → Bytes → ℕ
from_big_endian acc [] = acc
from_big_endian acc (b ∷ s) = from_big_endian (acc * 256 + b) s

-- Version() of the bytes of a UUID
unfoldable pub version : Bytes → ℕ
version u = first (drop 6 u)
  where
    first : Bytes → ℕ
    first [] = 0
    first (b ∷ s) = b / 16

-- uint64(t.UnixMicro()), in two's complement
abbrev pub unix_micro : ℕ → ℕ
unix_micro micros = (micros + two_64 - unix_epoch_micros) % two_64

-- time.UnixMicro(int64(v)), `none` before the zero time
abbrev pub from_unix_micro : ℕ → Option ℕ
from_unix_micro v =
    if ltb v two_63
    then some (v + unix_epoch_micros)
    else if ltb (v + unix_epoch_micros) two_64
    then none
    else some (v + unix_epoch_micros - two_64)

abbrev pub invalid_cursor_id : Error
invalid_cursor_id = text (codes "message cursor ID is invalid")

abbrev pub invalid_cursor_time : Error
invalid_cursor_time = text (codes "message cursor time is invalid")

abbrev pub invalid_cursor : Error
invalid_cursor = text (codes "message cursor is invalid")

-- The test of the time, in microseconds: IsZero and After
abbrev pub valid_micros : ℕ → Bool
valid_micros micros = not (micros == 0 || ltb maximum_cursor_micros micros)

module _ (uuids : Uuids) where
  unfoldable pub encode_message_cursor : MessageCursor → Result Bytes
  unfolding encode big_endian version
  encode_message_cursor cursor = do
    identifier ← or_fail (uuids.parse cursor.id) invalid_cursor_id
    guard (version identifier == 7) invalid_cursor_id
    let micros = cursor.received_at / 1000
    guard (valid_micros micros) invalid_cursor_time
    ok (encode (message_cursor_version ∷ big_endian 8 (unix_micro micros) ++ identifier))

  -- From the bytes behind the version on
  unfoldable pub decode_payload : Bytes → Result MessageCursor
  unfolding from_big_endian version
  decode_payload payload = do
    micros ← or_fail (from_unix_micro (from_big_endian 0 (take 8 payload))) invalid_cursor_time
    guard (valid_micros micros) invalid_cursor_time
    let identifier = drop 8 payload
    guard (version identifier == 7) invalid_cursor_id
    ok (record { received_at = micros * 1000; id = uuids.to_text identifier })

  unfoldable pub decode_versioned : Bytes → Result MessageCursor
  unfolding decode_payload
  decode_versioned [] = err invalid_cursor
  decode_versioned (v ∷ payload) = do
    guard (length payload + 1 == message_cursor_bytes) invalid_cursor
    guard (v == message_cursor_version) invalid_cursor
    decode_payload payload

  abbrev pub present : Result MessageCursor → Result (Option MessageCursor)
  present (err e) = err e
  present (ok cursor) = ok (some cursor)

  -- No cursor for an empty text
  unfoldable pub decode_message_cursor : Bytes → Result (Option MessageCursor)
  unfolding decode_versioned decode
  decode_message_cursor [] = ok none
  decode_message_cursor (c ∷ raw) =
      present (or_fail (decode false (c ∷ raw)) invalid_cursor >>= decode_versioned)
