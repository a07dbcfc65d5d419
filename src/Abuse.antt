-- ===== src/Abuse.antt =====
-- The daily quota of internal/abuse/create_quota.go. A time is the number of nanoseconds since the zero time of Go,
-- which is a midnight in UTC. net.ParseIP and HMAC-SHA-256 are parameters.
use mailwisp.Common.{
  ℕ, ◌+◌, ◌-◌, ◌%◌, Bool, true, not, ◌||◌, Option, none, some, [], ◌∷◌, ◌++◌, Bytes, codes, ℤ, pos,
  negsuc, Error, text, invalid_client_address, Result, ok, err, ◌>>◌, guard, length, take, drop,
  bytes_eq, ltb, ◌==◌, if◌then◌else◌,
}

-- A time.Time: the instant, and whether its location is time.UTC.
pub record Time : Type 0 where
  pub instant : ℕ
  pub utc : Bool

abbrev pub nanoseconds_per_day : ℕ
nanoseconds_per_day = 86400000000000

-- ConsumeInboxCreate of the repository, with the count and the error that it returns.
pub record Repository (W : Type 0) : Type 0 where
  pub consume_inbox_create : W → Bytes → Time → ℕ → W × ℕ × Option Error

pub record Decision : Type 0 where
  pub limit : ℕ
  pub remaining : ℕ
  pub reset_at : ℕ

pub record Service : Type 0 where
  pub key : Bytes
  pub daily_limit : ℕ

unfoldable pub new_service : Bytes → ℤ → Result Service
new_service key (negsuc n) = err (
    if length key == 32
    then text (codes "create quota daily limit must be between 1 and 1000000")
    else text (codes "create quota HMAC key must contain exactly 32 bytes"))
new_service key (pos n) = do
  guard (length key == 32) (text (codes "create quota HMAC key must contain exactly 32 bytes"))
  guard (not (n == 0 || ltb 1000000 n))
      (text (codes "create quota daily limit must be between 1 and 1000000"))
  ok (record { key = key; daily_limit = n })

abbrev pub create_identity_domain : Bytes
create_identity_domain = codes "mailwisp:create-quota:v1" ++ 0 ∷ []

abbrev v4_in_v6_prefix : Bytes
v4_in_v6_prefix = 0 ∷ 0 ∷ 0 ∷ 0 ∷ 0 ∷ 0 ∷ 0 ∷ 0 ∷ 0 ∷ 0 ∷ 255 ∷ 255 ∷ []

-- normalizedIPBytes of the 16 bytes that net.ParseIP gives; To4 takes the last 4 behind the prefix of the
-- IPv4 addresses.
unfoldable pub normalized_ip_bytes : Bytes → Bytes
normalized_ip_bytes ip = if bytes_eq (take 12 ip) v4_in_v6_prefix then drop 12 ip else ip

-- The start of the UTC day
abbrev pub bucket_of : ℕ → Time
bucket_of now = record { instant = now - now % nanoseconds_per_day; utc = true }

-- What is stored in the place of the address; `hmac` is HMAC-SHA-256.
unfoldable pub identity_digest : (Bytes → Bytes → Bytes) → Service → Bytes → Bytes
unfolding normalized_ip_bytes
identity_digest hmac s ip = hmac s.key (create_identity_domain ++ normalized_ip_bytes ip)

module _ {W : Type 0} (parse_ip : Bytes → Option Bytes) (hmac : Bytes → Bytes → Bytes)
    (repository : Repository W) where
  abbrev pub decide : Service → Time → W × ℕ × Option Error → W × Decision × Option Error
  decide s bucket (w, used, e) = (
    w,
    record {
      limit = s.daily_limit;
      remaining = s.daily_limit - used;
      reset_at = bucket.instant + nanoseconds_per_day;
    },
    e,
  )

  abbrev no_decision : Decision
  no_decision = record { limit = 0; remaining = 0; reset_at = 0 }

  unfoldable pub consume_parsed : Service → W → ℕ → Option Bytes → W × Decision × Option Error
  unfolding identity_digest
  consume_parsed s w now none = (w, no_decision, some invalid_client_address)
  consume_parsed s w now (some ip) =
      decide s (bucket_of now) (
        repository.consume_inbox_create w (identity_digest hmac s ip) (bucket_of now) s.daily_limit)

  -- Consume, given the error of the context: the state after it, the decision, and the error.
  unfoldable pub consume : Service → W → Option Error → ℕ → Bytes → W × Decision × Option Error
  unfolding consume_parsed
  consume s w (some e) now address = (w, no_decision, some e)
  consume s w none now address = consume_parsed s w now (parse_ip address)
