-- ===== src/Auth/Capability.antt =====
-- internal/auth/capability.go: the capabilities of inboxes.
pub mod Authentication
pub mod Issue
pub mod Revocation
use mailwisp.Common.{
  ℕ, zero, suc, ◌≡◌, refl, Bool, true, false, not, ◌&&◌, ◌||◌, Option, none, some, List, [], Bytes,
  bytes_eq, Error, unauthenticated, forbidden, capability_not_found, capability_kid_conflict,
  capability_subject_unavailable, capability_lifetime, Result, ok, err, ◌>>=◌, ◌>>◌, guard, ltb,
  ◌==◌, if◌then◌else◌,
}
use mailwisp.Auth.Token.{Token, token_capability, parse_token, encode_token, digest}
use mailwisp.Auth.Scope.{has, scope_set_from_mask}

-- Times are nanoseconds since the zero time, which is 0.
pub record NewCapability : Type 0 where
  pub inbox_id : Bytes
  pub kid : Bytes
  pub digest : Bytes
  pub scopes : ℕ
  pub created_at : ℕ
  pub expires_at : ℕ

pub record ReplacementCapability : Type 0 where
  pub kid : Bytes
  pub digest : Bytes
  pub created_at : ℕ

pub record CapabilityRecord : Type 0 where
  pub id : Bytes
  pub inbox_id : Bytes
  pub kid : Bytes
  pub digest : Bytes
  pub scopes : ℕ
  pub created_at : ℕ
  pub expires_at : ℕ
  pub last_used_at : Option ℕ
  pub revoked_at : Option ℕ
  pub inbox_active : Bool
  pub inbox_expires_at : Option ℕ

pub record IssuedCapability : Type 0 where
  pub id : Bytes
  pub inbox_id : Bytes
  pub kid : Bytes
  pub plaintext : Bytes
  pub scopes : ℕ
  pub expires_at : ℕ

pub record Principal : Type 0 where
  pub credential_id : Bytes
  pub inbox_id : Bytes
  pub kid : Bytes
  pub scopes : ℕ
  pub expires_at : ℕ

-- CapabilityService with its repository, clock and generator over a state `W`.
pub record CapabilityService (W : Type 0) : Type 0 where
  pub create_capability : W → NewCapability → W × Result CapabilityRecord
  pub find_capability_by_kid : W → Bytes → W × Result CapabilityRecord
  pub rotate_capability : W → Bytes → ReplacementCapability → ℕ → W × Result CapabilityRecord
  pub revoke_capability : W → Bytes → ℕ → W × Option Error
  pub now : W → ℕ
  pub generate : W → Bytes → W × Result Token

abbrev pub max_kid_generation_attempts : ℕ
max_kid_generation_attempts = 3

unfoldable pub principal_from_record : CapabilityRecord → Principal
principal_from_record r = record {
  credential_id = r.id;
  inbox_id = r.inbox_id;
  kid = r.kid;
  scopes = r.scopes;
  expires_at = r.expires_at;
}

unfoldable pub issued_capability : CapabilityRecord → Bytes → IssuedCapability
issued_capability r plaintext = record {
  id = r.id;
  inbox_id = r.inbox_id;
  kid = r.kid;
  plaintext = plaintext;
  scopes = r.scopes;
  expires_at = r.expires_at;
}

-- errors.Is(err, ErrCapabilityNotFound)
unfoldable pub is_capability_not_found : Error → Bool
is_capability_not_found capability_not_found = true
is_capability_not_found _ = false

-- errors.Is(err, ErrCapabilityKIDConflict)
unfoldable pub is_kid_conflict : Error → Bool
is_kid_conflict capability_kid_conflict = true
is_kid_conflict _ = false

abbrev pub is_some : Option ℕ → Bool
is_some none = false
is_some (some t) = true

-- `t != nil && !now.Before(*t)`
abbrev pub has_passed : ℕ → Option ℕ → Bool
has_passed now none = false
has_passed now (some t) = not (ltb now t)

-- The end of resolve: what it tests of the record that was found.
unfoldable pub check_record : ℕ → Result Bytes → CapabilityRecord → Result CapabilityRecord
check_record now (err e) r = err unauthenticated
check_record now (ok d) r =
    if not (bytes_eq d r.digest)
    then err unauthenticated
    else if is_some r.revoked_at || not (ltb now r.expires_at) || not r.inbox_active
    then err unauthenticated
    else if has_passed now r.inbox_expires_at
    then err unauthenticated
    else ok r

module _ {W : Type 0} (sha256 : Bytes → Bytes) (is_uuid : Bytes → Bool)
    (service : CapabilityService W) where
  -- resolve after the lookup
  unfoldable pub resolve_found : Token → W × Result CapabilityRecord → W × Result CapabilityRecord
  unfolding is_capability_not_found check_record digest
  resolve_found token (w, err e) =
      (w, err (if is_capability_not_found e then unauthenticated else e))
  resolve_found token (w, ok r) = (w, check_record (service.now w) (digest sha256 token) r)

  -- resolve after ParseToken
  unfoldable pub resolve_parsed : W → Result Token → W × Result CapabilityRecord
  unfolding resolve_found
  resolve_parsed w (err e) = (w, err unauthenticated)
  resolve_parsed w (ok token) =
      if not (bytes_eq token.token_type token_capability)
      then (w, err unauthenticated)
      else resolve_found token (service.find_capability_by_kid w token.kid)

  unfoldable pub resolve : W → Bytes → W × Result CapabilityRecord
  unfolding resolve_parsed parse_token
  resolve w plaintext = resolve_parsed w (parse_token plaintext)

  unfoldable pub authorize : List ℕ → Result CapabilityRecord → Result Principal
  unfolding has principal_from_record
  authorize required (err e) = err e
  authorize required (ok r) =
      if not (has r.scopes required) then err forbidden else ok (principal_from_record r)

  unfoldable pub authenticate : W → Bytes → List ℕ → W × Result Principal
  unfolding resolve authorize
  authenticate w plaintext required =
      let (w', found) = resolve w plaintext in (w', authorize required found)

  -- Revoke after resolve
  unfoldable pub revoke_resolved : W × Result CapabilityRecord → W × Option Error
  revoke_resolved (w, err e) = (w, some e)
  revoke_resolved (w, ok r) = service.revoke_capability w r.id (service.now w)

  unfoldable pub revoke : W → Bytes → W × Option Error
  unfolding revoke_resolved resolve
  revoke w plaintext = revoke_resolved (resolve w plaintext)

  -- The end of a round of issue and Rotate: the record is stored, and the plaintext is revealed.
  unfoldable pub reveal : CapabilityRecord → Result Bytes → Result IssuedCapability
  unfolding issued_capability
  reveal r (err e) = err e
  reveal r (ok plaintext) = ok (issued_capability r plaintext)

  -- A round of issue or Rotate after its call of the repository: a conflict of the KID goes on with
  -- the rounds after it.
  unfoldable pub after_store :
      (W → W × Result IssuedCapability)
      → Token
      → W × Result CapabilityRecord
      → W × Result IssuedCapability
  unfolding reveal encode_token is_kid_conflict
  after_store again token (w, err e) = if is_kid_conflict e then again w else (w, err e)
  after_store again token (w, ok r) = (w, reveal r (encode_token token))

  -- A round after Token.Digest; `store` is the call of the repository.
  unfoldable pub with_digest :
      (W → W × Result IssuedCapability)
      → (W → Token → Bytes → W × Result CapabilityRecord)
      → Token
      → W
      → Result Bytes
      → W × Result IssuedCapability
  unfolding after_store
  with_digest again store token w (err e) = (w, err e)
  with_digest again store token w (ok d) = after_store again token (store w token d)

  -- A round after generate.
  unfoldable pub with_token :
      (W → W × Result IssuedCapability)
      → (W → Token → Bytes → W × Result CapabilityRecord)
      → W × Result Token
      → W × Result IssuedCapability
  unfolding with_digest digest
  with_token again store (w, err e) = (w, err e)
  with_token again store (w, ok token) = with_digest again store token w (digest sha256 token)

  -- `for range maxKIDGenerationAttempts`, with the attempts that are left
  unfoldable pub attempts :
      ℕ → (W → Token → Bytes → W × Result CapabilityRecord) → W → W × Result IssuedCapability
  unfolding with_token
  attempts zero store w = (w, err capability_kid_conflict)
  attempts (suc n) store w =
      with_token (attempts n store) store (service.generate w token_capability)

  -- The call of CreateCapability in issue
  abbrev pub create_with : NewCapability → W → Token → Bytes → W × Result CapabilityRecord
  create_with capability w token d =
      service.create_capability w (record capability { kid = token.kid; digest = d })

  unfoldable pub issue_new : W → NewCapability → W × Result IssuedCapability
  unfolding attempts
  issue_new w capability = attempts max_kid_generation_attempts (create_with capability) w

  -- The call of RotateCapability in Rotate
  abbrev pub rotate_with : Bytes → W → Token → Bytes → W × Result CapabilityRecord
  rotate_with id w token d =
      let created_at = service.now w in
      service.rotate_capability w id
        (record { kid = token.kid; digest = d; created_at = created_at }) created_at

  unfoldable pub rotate_resolved : W × Result CapabilityRecord → W × Result IssuedCapability
  unfolding attempts
  rotate_resolved (w, err e) = (w, err e)
  rotate_resolved (w, ok r) = attempts max_kid_generation_attempts (rotate_with r.id) w

  unfoldable pub rotate : W → Bytes → W × Result IssuedCapability
  unfolding rotate_resolved resolve
  rotate w plaintext = rotate_resolved (resolve w plaintext)

  -- The checks of Issue
  unfoldable pub check_issue : Bytes → ℕ → ℕ → ℕ → Result (Unit {0})
  unfolding scope_set_from_mask
  check_issue inbox_id scopes expires_at now = do
    guard (is_uuid inbox_id) capability_subject_unavailable
    _ ← scope_set_from_mask scopes
    guard (not (expires_at == 0) && ltb now expires_at) capability_lifetime

  unfoldable pub issue_checked : W → NewCapability → Result (Unit {0}) → W × Result IssuedCapability
  unfolding issue_new
  issue_checked w capability (err e) = (w, err e)
  issue_checked w capability (ok _) = issue_new w capability

  unfoldable pub issue : W → Bytes → ℕ → ℕ → W × Result IssuedCapability
  unfolding issue_checked check_issue
  issue w inbox_id scopes expires_at =
      issue_checked w
        (record {
          inbox_id = inbox_id;
          kid = [];
          digest = [];
          scopes = scopes;
          created_at = service.now w;
          expires_at = expires_at;
        })
        (check_issue inbox_id scopes expires_at (service.now w))
