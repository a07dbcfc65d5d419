-- ===== src/Postgres/Capability/Service.antt =====
-- The capability service over its PostgreSQL repository, as internal/app/app.go composes them.
pub mod Issuing
pub mod Revoking
use mailwisp.Common.{
  ℕ, ◌+◌, ◌%◌, ◌<◌, ◌≡◌, refl, Option, none, some, List, [], ◌∷◌, map, Bytes, Error,
  unauthenticated, Result, ok, err, All, arith,
}
use mailwisp.Encoding.Hex.{IsByte}
use mailwisp.Auth.Token.{Token, generate_token}
use mailwisp.Auth.Capability.{ReplacementCapability, CapabilityRecord, CapabilityService}
use mailwisp.Postgres.Capability.{
  Credentials, Backend, create_capability, find_capability_by_kid, revoke_capability,
}
use mailwisp.Postgres.Capability.Rotation.{rotate_capability}

-- The bytes that crypto/rand gives next.
abbrev pub random_bytes : Backend → ℕ → Bytes
random_bytes backend drawn = map (λ b. b % 256) (backend.random drawn)

-- GenerateToken, with the count of the bytes that it draws: 12 and 32.
unfoldable pub drawn_token : Credentials → Result (Token × Bytes) → Credentials × Result Token
drawn_token w (err e) = (w, err e)
drawn_token w (ok (token, left)) = (record w { drawn = w.drawn + 44 }, ok token)

unfoldable pub generate : Backend → Credentials → Bytes → Credentials × Result Token
unfolding drawn_token generate_token
generate backend w token_type =
    drawn_token w (generate_token token_type (random_bytes backend w.drawn))

abbrev pub service_of : Backend → CapabilityService Credentials
service_of backend = record {
  create_capability = create_capability backend;
  find_capability_by_kid = find_capability_by_kid backend;
  rotate_capability = rotate_capability backend;
  revoke_capability = revoke_capability backend;
  now = λ w. backend.clock w.tick;
  generate = generate backend;
}

bytes_of_random : (s : Bytes) → All IsByte (map (λ b. b % 256) s)
bytes_of_random [] = tt
bytes_of_random (b ∷ s) = (omega arith, bytes_of_random s)

pub random-IsByte : (backend : Backend) (drawn : ℕ) → All IsByte (random_bytes backend drawn)
random-IsByte backend drawn = bytes_of_random (backend.random drawn)
