-- ===== src/Auth/Capability/Revocation.antt =====
-- A revoked capability opens nothing.
use mailwisp.Common.{
  ℕ, ◌≡◌, refl, sym, ◌∙◌, ap, subst, Bool, none, some, List, Bytes, Error, Result, ok, err, arith,
}
use mailwisp.Auth.Token.{Token, parse_token}
use mailwisp.Auth.Capability.{
  CapabilityRecord, Principal, CapabilityService, resolve_parsed, resolve_found, resolve,
  revoke_resolved, revoke, authenticate,
}
use mailwisp.Auth.Capability.Authentication.{Opens, resolve_parsed-Opens, authenticate-Granted}

-- What Revoke needs of the repository: a lookup changes nothing, and once a credential is revoked, the row that
-- is found by its KID says so.
pub record RevokePromises (W : Type 0) (service : CapabilityService W) : Type 0 where
  pub find_same : (w : W) (kid : Bytes) → (service.find_capability_by_kid w kid).0 ≡ w
  pub revoke_marks :
      (w after : W) (kid : Bytes) (time : ℕ) (row row' : CapabilityRecord)
      → (service.find_capability_by_kid w kid).1 ≡ ok row
      → service.revoke_capability w row.id time ≡ (after, none)
      → (service.find_capability_by_kid after kid).1 ≡ ok row'
      → (t : ℕ) × (row'.revoked_at ≡ some t)

same_token : {t u : Token} → ok t ≡ ok u → t ≡ u
same_token e = ground arith

module _ {W : Type 0} (sha256 : Bytes → Bytes) (is_uuid : Bytes → Bool)
    (service : CapabilityService W) (promises : RevokePromises W service) where
  resolve_found-same :
      (w : W) (token : Token) (p : W × Result CapabilityRecord)
      → p.0 ≡ w
      → (resolve_found sha256 is_uuid service token p).0 ≡ w
  unfolding resolve_found
  resolve_found-same w token (w', err e) same = same
  resolve_found-same w token (w', ok r) same = same

  resolve_parsed-same :
      (w : W) (t : Result Token) → (resolve_parsed sha256 is_uuid service w t).0 ≡ w
  unfolding resolve_parsed
  resolve_parsed-same w (err e) = refl
  resolve_parsed-same w (ok token) = ground (
    arith,
    resolve_found-same w token (service.find_capability_by_kid w token.kid)
        (promises.find_same w token.kid),
  )

  -- A successful Revoke has resolved the plaintext, and revoked the record that it opens.
  revoke_resolved-Opens :
      (w after : W) (plaintext : Bytes) (p : W × Result CapabilityRecord)
      → resolve_parsed sha256 is_uuid service w (parse_token plaintext) ≡ p
      → revoke_resolved sha256 is_uuid service p ≡ (after, none)
      → (found : CapabilityRecord) × Opens sha256 is_uuid service w plaintext found
        × (service.revoke_capability p.0 found.id (service.now p.0) ≡ (after, none))
  unfolding revoke_resolved
  revoke_resolved-Opens w after plaintext (w', err e) at h = absurd (some-ne-none (ap (λ q. q.1) h))
    where
      some-ne-none : {e : Error} → some e ≡ none → ⊥
      some-ne-none h = ground arith
  revoke_resolved-Opens w after plaintext (w', ok found) at h = (
    found,
    resolve_parsed-Opens sha256 is_uuid service w plaintext _ found refl (ap (λ q. q.1) at),
    h,
  )

  -- Revoke takes effect at once: over a repository that keeps its promises, after a successful Revoke no requirement
  -- is granted to the plaintext any more, in the state that Revoke left.
  pub revoke-authenticate :
      (w after : W) (plaintext : Bytes) (required : List ℕ) (p : Principal)
      → revoke sha256 is_uuid service w plaintext ≡ (after, none)
      → ¬ ((authenticate sha256 is_uuid service after plaintext required).1 ≡ ok p)
  unfolding revoke resolve
  revoke-authenticate w after plaintext required p done granted =
      let (found, opens, revoked) = revoke_resolved-Opens w after plaintext _ refl done in
      let (found', opens', _, _) =
        (authenticate-Granted sha256 is_uuid service after plaintext required p).0 granted in
      let same = same_token (sym opens'.parsed ∙ opens.parsed) in
      let still = resolve_parsed-same w (parse_token plaintext) in
      let revoked_there =
        subst (λ v. service.revoke_capability v found.id (service.now v) ≡ (after, none)) still
          revoked in
      let (t, marked) =
        promises.revoke_marks w after opens.token.kid (service.now w) found found' opens.looked_up
          revoked_there
          (subst (λ (u : Token). (service.find_capability_by_kid after u.kid).1 ≡ ok found') same
            opens'.looked_up) in
      absurd (none-ne-some (sym opens'.live.not_revoked ∙ marked))
    where
      none-ne-some : {t : ℕ} → none ≡ some t → ⊥
      none-ne-some h = ground arith
