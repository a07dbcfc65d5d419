-- ===== src/Message/Delivery.antt =====
-- internal/message/delivery.go. A time.Time is the number of nanoseconds since the zero time, which is
-- 0; the texts of the errors are left out, since all of them wrap ErrInvalidDelivery.
use mailwisp.Common.{
  ℕ, Bool, true, false, not, ◌&&◌, ◌||◌, List, [], ◌∷◌, Bytes, codes, bytes_eq, has_prefix,
  is_lower_hex, to_lower, ℤ, pos, negsuc, invalid_delivery, Result, ok, ◌>>◌, guard, length, drop,
  ltb, ◌==◌,
}

pub record ContentRef : Type 0 where
  pub key : Bytes
  pub size_bytes : ℤ

pub record Delivery : Type 0 where
  pub content : ContentRef
  pub envelope_sender : Bytes
  pub recipients : List Bytes
  pub received_at : ℕ

pub record StoredMessage : Type 0 where
  pub id : Bytes
  pub inbox_id : Bytes

abbrev pub sha256_prefix : Bytes
sha256_prefix = codes "sha256/"

abbrev pub sha256_hex_length : ℕ
sha256_hex_length = 64

-- hex.DecodeString succeeds on a text in lower case of even length.
unfoldable pub all_lower_hex : Bytes → Bool
unfolding is_lower_hex
all_lower_hex [] = true
all_lower_hex (c ∷ s) = is_lower_hex c && all_lower_hex s

abbrev pub is_negative : ℤ → Bool
is_negative (pos n) = false
is_negative (negsuc n) = true

-- ContentRef.Validate
unfoldable pub validate_ref : ContentRef → Result (Unit {0})
unfolding has_prefix to_lower all_lower_hex
validate_ref r = do
  guard (has_prefix sha256_prefix r.key) invalid_delivery
  let digest = drop (length sha256_prefix) r.key
  guard (length digest == sha256_hex_length && bytes_eq (to_lower digest) digest) invalid_delivery
  guard (all_lower_hex digest) invalid_delivery
  guard (not (is_negative r.size_bytes)) invalid_delivery

unfoldable pub seen_before : Bytes → List Bytes → Bool
seen_before x [] = false
seen_before x (y ∷ ys) = bytes_eq x y || seen_before x ys

-- What the program uses of github.com/google/uuid: whether Parse accepts a text.
module _ (is_uuid : Bytes → Bool) where
  -- The loop of validateEnvelope.
  unfoldable pub validate_recipients : List Bytes → List Bytes → Result (Unit {0})
  unfolding seen_before
  validate_recipients seen [] = ok tt
  validate_recipients seen (r ∷ rs) = do
    guard (is_uuid r) invalid_delivery
    guard (not (seen_before r seen)) invalid_delivery
    validate_recipients (r ∷ seen) rs

  unfoldable pub validate_envelope : Bytes → List Bytes → Result (Unit {0})
  unfolding validate_recipients
  validate_envelope envelope_sender recipients = do
    guard (not (ltb 320 (length envelope_sender))) invalid_delivery
    guard (not (length recipients == 0)) invalid_delivery
    validate_recipients [] recipients

  -- Delivery.Validate
  unfoldable pub validate : Delivery → Result (Unit {0})
  unfolding validate_ref validate_envelope
  validate d = do
    validate_ref d.content
    guard (not (d.received_at == 0)) invalid_delivery
    validate_envelope d.envelope_sender d.recipients
