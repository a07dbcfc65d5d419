-- ===== src/Auth/Capability/Authentication.antt =====
-- Whom Authenticate lets in.
use mailwisp.Common.{
  ok-injective, ℕ, ◌<◌, ◌≡◌, refl, ap, ◌↔◌, inl, inr, Bool, true, false, Option, none, some, List,
  Bytes, bytes_eq, bytes_eq_iff, Result, ok, err, lt→ltb, Bool-cases, arith,
}
use mailwisp.Auth.Token.{Token, token_capability, parse_token, digest}
use mailwisp.Auth.Scope.{has}
use mailwisp.Auth.Capability.{
  CapabilityRecord, Principal, CapabilityService, principal_from_record, has_passed, is_some,
  check_record, resolve_found, resolve_parsed, resolve, authorize, authenticate,
}

-- A credential that is in force: not revoked, not over, and its inbox active and not over.
pub record Live (now : ℕ) (r : CapabilityRecord) : Type 0 where
  pub not_revoked : r.revoked_at ≡ none
  pub unexpired : now < r.expires_at
  pub active : r.inbox_active ≡ true
  pub inbox_live : (end : ℕ) → r.inbox_expires_at ≡ some end → now < end

is_some-none : (o : Option ℕ) → is_some o ≡ false → o ≡ none
is_some-none none h = refl
is_some-none (some t) h = absurd (ground arith)

-- A time that has not passed is ahead, or there is none.
has_passed-ahead :
    (now : ℕ) (o : Option ℕ) → has_passed now o ≡ false → (end : ℕ) → o ≡ some end → now < end
has_passed-ahead now none h end e = absurd (ground arith)
has_passed-ahead now (some t) h end e = ground arith

has_passed_ahead :
    (now : ℕ) (o : Option ℕ) → ((end : ℕ) → o ≡ some end → now < end) → has_passed now o ≡ false
has_passed_ahead now none ahead = refl
has_passed_ahead now (some t) ahead = rw (lt→ltb now t (ahead t refl)) refl

check_record-Live :
    (now : ℕ) (d : Result Bytes) (r found : CapabilityRecord)
    → check_record now d r ≡ ok found
    → (r ≡ found) × (d ≡ ok r.digest) × Live now r
unfolding check_record
check_record-Live now (err e) r found h = absurd (ground arith)
check_record-Live now (ok d) r found h = elim (Bool-cases (bytes_eq d r.digest)) [
  | inr other ↦ absurd (ground arith)
  | inl same ↦ (
    ground arith,
    ap ok ((bytes_eq_iff d r.digest).0 same),
    record {
      not_revoked = is_some-none r.revoked_at (ground arith);
      unexpired = ground arith;
      active = ground arith;
      inbox_live = has_passed-ahead now r.inbox_expires_at (ground arith);
    },
  )
]

check_record-Live_ok :
    (now : ℕ) (d : Bytes) (r : CapabilityRecord)
    → d ≡ r.digest
    → Live now r
    → check_record now (ok d) r ≡ ok r
unfolding check_record
check_record-Live_ok now d r same live =
    rw
      (
        (bytes_eq_iff d r.digest).1 same,
        live.not_revoked,
        lt→ltb now r.expires_at live.unexpired,
        live.active,
        has_passed_ahead now r.inbox_expires_at live.inbox_live,
      )
      refl

module _ {W : Type 0} (sha256 : Bytes → Bytes) (is_uuid : Bytes → Bool)
    (service : CapabilityService W) where
  -- The lookup of a token, with the state after it.
  abbrev lookup : W → Token → W × Result CapabilityRecord
  lookup w token = service.find_capability_by_kid w token.kid

  -- A plaintext opens a record: it is a capability token, the record was found by its KID and carries its
  -- digest, and it is in force.
  pub record Opens (w : W) (plaintext : Bytes) (found : CapabilityRecord) : Type 0 where
    pub token : Token
    pub parsed : parse_token plaintext ≡ ok token
    pub is_capability : token.token_type ≡ token_capability
    pub looked_up : (lookup w token).1 ≡ ok found
    pub secret : digest sha256 token ≡ ok found.digest
    pub live : Live (service.now (lookup w token).0) found

  resolve_found-ok :
      (token : Token) (p : W × Result CapabilityRecord) (found : CapabilityRecord)
      → (resolve_found sha256 is_uuid service token p).1 ≡ ok found
      → (p.1 ≡ ok found) × (digest sha256 token ≡ ok found.digest) × Live (service.now p.0) found
  unfolding resolve_found
  resolve_found-ok token (w, err e) found h = absurd (ground arith)
  resolve_found-ok token (w, ok r) found h =
      let (same, secret, live) =
        check_record-Live (service.now w) (digest sha256 token) r found h in
      rw (← same) (refl, secret, live)

  pub resolve_parsed-Opens :
      (w : W) (plaintext : Bytes) (t : Result Token) (found : CapabilityRecord)
      → parse_token plaintext ≡ t
      → (resolve_parsed sha256 is_uuid service w t).1 ≡ ok found
      → Opens w plaintext found
  unfolding resolve_parsed
  resolve_parsed-Opens w plaintext (err e) found at h = absurd (ground arith)
  resolve_parsed-Opens w plaintext (ok token) found at h =
      elim (Bool-cases (bytes_eq token.token_type token_capability)) [
        | inr other ↦ absurd (ground arith)
        | inl same ↦
            let (looked_up, secret, live) =
              resolve_found-ok token (service.find_capability_by_kid w token.kid) found
                (ground arith) in
            record {
              token = token;
              parsed = at;
              is_capability = (bytes_eq_iff token.token_type token_capability).0 same;
              looked_up = looked_up;
              secret = secret;
              live = live;
            }
      ]

  resolve_found_ok :
      (token : Token) (p : W × Result CapabilityRecord) (found : CapabilityRecord)
      → p.1 ≡ ok found
      → digest sha256 token ≡ ok found.digest
      → Live (service.now p.0) found
      → (resolve_found sha256 is_uuid service token p).1 ≡ ok found
  unfolding resolve_found
  resolve_found_ok token (w, err e) found at secret live = absurd (ground arith)
  resolve_found_ok token (w, ok r) found at secret live =
      rw (ok-injective at, secret)
        (check_record-Live_ok (service.now w) found.digest found refl live)

  resolve-Opens :
      (w : W) (plaintext : Bytes) (found : CapabilityRecord)
      → Opens w plaintext found
      → (resolve sha256 is_uuid service w plaintext).1 ≡ ok found
  unfolding resolve
  resolve-Opens w plaintext found opens =
      rw
        (opens.parsed, (bytes_eq_iff opens.token.token_type token_capability).1 opens.is_capability)
        (resolve_found_ok opens.token (lookup w opens.token) found opens.looked_up opens.secret
          opens.live)

  authorize-ok :
      (required : List ℕ) (r : Result CapabilityRecord) (p : Principal)
      → authorize sha256 is_uuid service required r ≡ ok p
      → (found : CapabilityRecord) × (r ≡ ok found)
        × (has found.scopes required ≡ true)
        × (p ≡ principal_from_record found)
  unfolding authorize
  authorize-ok required (err e) p h = absurd (ground arith)
  authorize-ok required (ok r) p h = (r, refl, ground arith, ground arith)

  -- Access is granted: the plaintext opens a record with the scopes that are required, and the principal is its.
  abbrev pub Granted : W → Bytes → List ℕ → Principal → Type 0
  Granted w plaintext required p =
      (found : CapabilityRecord) × Opens w plaintext found
      × (has found.scopes required ≡ true)
      × (p ≡ principal_from_record found)

  authenticate_sound :
      (w : W) (plaintext : Bytes) (required : List ℕ) (p : Principal)
      → (authenticate sha256 is_uuid service w plaintext required).1 ≡ ok p
      → Granted w plaintext required p
  unfolding authenticate resolve
  authenticate_sound w plaintext required p h =
      let (found, at, scoped, same) = authorize-ok required _ p h in
      (found, resolve_parsed-Opens w plaintext (parse_token plaintext) found refl at, scoped, same)

  authenticate_complete :
      (w : W) (plaintext : Bytes) (required : List ℕ) (p : Principal)
      → Granted w plaintext required p
      → (authenticate sha256 is_uuid service w plaintext required).1 ≡ ok p
  unfolding authenticate authorize
  authenticate_complete w plaintext required p (found, opens, scoped, same) =
      rw (resolve-Opens w plaintext found opens, scoped, same) refl

  -- Authenticate grants a principal if and only if the plaintext is a capability token whose record was found by its
  -- KID, carries its digest and has every required scope, the record is neither revoked nor over, and
  -- its inbox is active and not over; the principal is the record's.
  pub authenticate-Granted :
      (w : W) (plaintext : Bytes) (required : List ℕ) (p : Principal)
      → ((authenticate sha256 is_uuid service w plaintext required).1 ≡ ok p)
        ↔ Granted w plaintext required p
  authenticate-Granted w plaintext required p =
      (authenticate_sound w plaintext required p, authenticate_complete w plaintext required p)
