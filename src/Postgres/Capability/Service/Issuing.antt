-- ===== src/Postgres/Capability/Service/Issuing.antt =====
-- What the service issues over PostgreSQL authenticates.
use mailwisp.Common.{
  ℕ, ◌<◌, ◌≡◌, refl, sym, ◌∙◌, ap, subst, Bool, true, none, some, List, [], ◌∷◌, ◌++◌, Bytes,
  ok-injective, err-ne-ok, then_ok, ◌>>◌, Result, ok, err, arith,
}
use mailwisp.Auth.Token.{Token, generate_token}
use mailwisp.Auth.Token.RoundTrip.{IsSecret}
use mailwisp.Auth.Token.Generate.{generate_token-Made}
use mailwisp.Auth.Scope.{has}
use mailwisp.Auth.Capability.{
  NewCapability, CapabilityRecord, IssuedCapability, Principal, authenticate, issue,
}
use mailwisp.Auth.Capability.Authentication.{Live}
use mailwisp.Auth.Capability.Issue.{Promises, issue-authenticate}
use mailwisp.Postgres.Delivery.{InboxRow, failing}
use mailwisp.Postgres.Capability.{
  Credentials, Backend, uuid_eq, find_inbox, record_of, new_row, can_create, next_tick,
  create_checked, create_capability, validate_new_capability, found_row, join_inbox,
  find_capability_by_kid,
}
use mailwisp.Postgres.Capability.Lookup.{
  Created, find_kid_last, find_inbox_own, hydrate_again, validate-kid, create_in-Created,
}
use mailwisp.Postgres.Capability.Service.{
  generate, drawn_token, random_bytes, random-IsByte, service_of,
}

drawn_token-Made :
    (w : Credentials) (type random : Bytes) (r : Result (Token × Bytes)) (token : Token)
    → generate_token type random ≡ r
    → (drawn_token w r).1 ≡ ok token
    → (left : Bytes) × (generate_token type random ≡ ok (token, left))
unfolding drawn_token
drawn_token-Made w type random (err e) token at h = absurd (err-ne-ok h)
drawn_token-Made w type random (ok (t, left)) token at h =
    (left, at ∙ ap (λ x. ok (x, left)) (ok-injective h))

module _ (backend : Backend) (answers : (n : ℕ) → backend.query_fails n ≡ none) where
  generate-IsSecret :
      (w : Credentials) (type : Bytes) (token : Token)
      → (generate backend w type).1 ≡ ok token
      → (token.token_type ≡ type) × IsSecret token.secret
  unfolding generate
  generate-IsSecret w type token h =
      let (left, made) = drawn_token-Made w type (random_bytes backend w.drawn) _ token refl h in
      let (same, valid, kid_ok, kid_length, secret) =
        generate_token-Made type (random_bytes backend w.drawn) left token
          (random-IsByte backend w.drawn) made in
      (same, secret)

  create_checked-Created :
      (w w' : Credentials) (c : NewCapability) (row : CapabilityRecord) (v : Result (Unit {0}))
      → (validate_new_capability backend c >> failing (backend.insert_fails w.tick)) ≡ v
      → create_checked backend (next_tick backend w) c v ≡ (w', ok row)
      → Created backend w w' c row
  unfolding create_checked
  create_checked-Created w w' c row (err e) at h = absurd (err-ne-ok (ap (λ q. q.1) h))
  create_checked-Created w w' c row (ok tt) at h =
      let (valid, _) = then_ok (validate_new_capability backend c) _ at in
      create_in-Created backend w w' c row (find_inbox backend c.inbox_id w.inboxes)
        (validate-kid backend c valid) refl h

  create_capability-Created :
      (w w' : Credentials) (c : NewCapability) (row : CapabilityRecord)
      → create_capability backend w c ≡ (w', ok row)
      → Created backend w w' c row
  unfolding create_capability
  create_capability-Created w w' c row h = create_checked-Created w w' c row _ refl h

  -- The row that Created found, as FindCapabilityByKID returns it.
  abbrev found_of :
      (w w' : Credentials) (c : NewCapability) (row : CapabilityRecord)
      → Created backend w w' c row
      → CapabilityRecord
  found_of w w' c row made =
      record_of backend (new_row backend w c made.inbox) made.inbox.active
        (some made.inbox.expires_at)

  find-Created :
      (w w' : Credentials) (c : NewCapability) (row : CapabilityRecord)
      (made : Created backend w w' c row)
      → find_capability_by_kid backend w' c.kid ≡ (w', ok (found_of w w' c row made))
  unfolding find_capability_by_kid found_row join_inbox
  find-Created w w' c row made =
      let r = new_row backend w c made.inbox in
      let rows : w'.capabilities ≡ w.capabilities ++ r ∷ [] = ap (λ t. t.capabilities) made.state in
      let inboxes : w'.inboxes ≡ w.inboxes = ap (λ t. t.inboxes) made.state in
      rw
        (
          made.valid_kid,
          answers w'.tick,
          rows,
          find_kid_last backend c.kid w.capabilities r made.fresh refl,
          inboxes,
          (find_inbox_own backend c.inbox_id w.inboxes made.inbox made.inbox_there).1,
          hydrate_again backend r true made.inbox.active none (some made.inbox.expires_at) row
              made.hydrated,
        )
        refl

  open_until :
      (now : ℕ) (c : NewCapability) (i : InboxRow) (w : Credentials)
      → can_create backend c i ≡ true
      → now < backend.stored_time c.expires_at
      → Live now (record_of backend (new_row backend w c i) i.active (some i.expires_at))
  open_until now c i w allowed before = record {
    not_revoked = refl;
    unexpired = before;
    active = ground arith;
    inbox_live = λ end at. ground arith;
  }

  service-Promises : Promises Credentials (service_of backend) backend.stored_time (uuid_eq backend)
  service-Promises = record {
    generate_type = generate-IsSecret;
    create_find = λ w w' c row h.
        let made = create_capability-Created w w' c row h in
        (
          found_of w w' c row made,
          find-Created w w' c row made,
          refl,
          refl,
          (find_inbox_own backend c.inbox_id w.inboxes made.inbox made.inbox_there).0,
          refl,
        );
    create_live = λ w w' c row found h at live.
        let made = create_capability-Created w w' c row h in
        let same = ok-injective (ap (λ q. q.1) (sym (find-Created w w' c row made) ∙ at)) in
        subst (Live (backend.clock w'.tick)) same
          (open_until (backend.clock w'.tick) c made.inbox w made.allowed live);
  }

  -- What the service issues over PostgreSQL authenticates at once: if no query fails, the plaintext of an
  -- issued capability, presented before its end in the state that Issue left, authenticates for every
  -- requirement that its scopes meet, as a principal of the inbox with the scopes that Issue was
  -- called with, up to the end that it was called with, as a timestamptz stores it.
  pub issue-authenticate_stored :
      (sha256 : Bytes → Bytes) (is_uuid : Bytes → Bool) (w after : Credentials) (inbox_id : Bytes)
      (scopes expires_at : ℕ) (issued : IssuedCapability) (required : List ℕ)
      → issue sha256 is_uuid (service_of backend) w inbox_id scopes expires_at ≡ (after, ok issued)
      → backend.clock after.tick < backend.stored_time expires_at
      → has scopes required ≡ true
      → (p : Principal) × ((authenticate sha256 is_uuid
            (service_of backend)
            after
            issued.plaintext
            required).1
          ≡ ok p)
        × (uuid_eq backend p.inbox_id inbox_id ≡ true)
        × (p.scopes ≡ scopes)
        × (p.expires_at ≡ backend.stored_time expires_at)
  issue-authenticate_stored sha256 is_uuid w after inbox_id scopes expires_at issued required at
        live scoped =
      let (p, granted, (same_inbox, same_scopes, same_end)) =
        issue-authenticate sha256 is_uuid (service_of backend) backend.stored_time (uuid_eq backend)
          service-Promises w after inbox_id scopes expires_at issued required at live scoped in
      (p, granted, same_inbox, same_scopes, same_end)
