-- ===== src/Auth/Capability/Issue.antt =====
-- What Issue reveals, and how often it asks the repository.
use mailwisp.Common.{
  err-ne-ok, ℕ, zero, suc, ◌<◌, ◌≡◌, refl, sym, ◌∙◌, ap, subst, Bool, true, List, [], Bytes, Result,
  ok, err, if_cases, arith,
}
use mailwisp.Auth.Token.{Token, token_capability, encode_token, digest}
use mailwisp.Auth.Token.RoundTrip.{IsSecret, parse_token-encode_token}
use mailwisp.Auth.Scope.{has}
use mailwisp.Auth.Capability.Authentication.{Live, authenticate-Granted}
use mailwisp.Auth.Capability.{
  NewCapability, CapabilityRecord, IssuedCapability, CapabilityService, issued_capability,
  is_kid_conflict, Principal, principal_from_record, authenticate, check_issue, issue_checked,
  issue, reveal, after_store, with_digest, with_token, attempts, create_with, issue_new,
}

module _ {W : Type 0} (sha256 : Bytes → Bytes) (is_uuid : Bytes → Bool)
    (service : CapabilityService W) (store : W → Token → Bytes → W × Result CapabilityRecord) where
  -- How a capability was issued: in the state `before` the repository stored the digest of a generated
  -- token, and the plaintext is that token's.
  pub record Stored (after : W) (issued : IssuedCapability) : Type 0 where
    pub start : W
    pub token : Token
    pub generated : (service.generate start token_capability).1 ≡ ok token
    pub secret_digest : Bytes
    pub hashed : digest sha256 token ≡ ok secret_digest
    pub row : CapabilityRecord
    pub stored :
        store (service.generate start token_capability).0 token secret_digest ≡ (after, ok row)
    pub plaintext : Bytes
    pub encoded : encode_token token ≡ ok plaintext
    pub revealed : issued ≡ issued_capability row plaintext

  -- What a round, or the rounds after it, come to.
  abbrev Sound : W × Result IssuedCapability → Type 0
  Sound p = (issued : IssuedCapability) → p.1 ≡ ok issued → Stored p.0 issued

  after_store-Sound :
      (again : W → W × Result IssuedCapability) (start : W) (token : Token) (d : Bytes)
      (p : W × Result CapabilityRecord)
      → ((w : W) → Sound (again w))
      → (service.generate start token_capability).1 ≡ ok token
      → digest sha256 token ≡ ok d
      → store (service.generate start token_capability).0 token d ≡ p
      → Sound (after_store sha256 is_uuid service again token p)
  unfolding after_store
  after_store-Sound again start token d (w, err e) rest made hashed at =
      if_cases Sound (is_kid_conflict e) (λ _. rest w) (λ _ issued h. absurd (ground arith))
  after_store-Sound again start token d (w, ok r) rest made hashed at =
      revealed (encode_token token) refl
    where
      revealed :
          (plain : Result Bytes)
          → encode_token token ≡ plain
          → Sound (w, reveal sha256 is_uuid service r plain)
      revealed (err e) encoded issued h = absurd (ground arith)
      revealed (ok plaintext) encoded issued h = record {
        start = start;
        token = token;
        generated = made;
        secret_digest = d;
        hashed = hashed;
        row = r;
        stored = at;
        plaintext = plaintext;
        encoded = encoded;
        revealed = ground arith;
      }

  with_digest-Sound :
      (again : W → W × Result IssuedCapability) (start : W) (token : Token) (d : Result Bytes)
      → ((w : W) → Sound (again w))
      → (service.generate start token_capability).1 ≡ ok token
      → digest sha256 token ≡ d
      → Sound (
          with_digest sha256 is_uuid service again store token
            (service.generate start token_capability).0
            d)
  unfolding with_digest
  with_digest-Sound again start token (err e) rest made hashed = λ issued h. absurd (ground arith)
  with_digest-Sound again start token (ok d) rest made hashed =
      after_store-Sound again start token d _ rest made hashed refl

  with_token-Sound :
      (again : W → W × Result IssuedCapability) (start : W) (p : W × Result Token)
      → ((w : W) → Sound (again w))
      → service.generate start token_capability ≡ p
      → Sound (with_token sha256 is_uuid service again store p)
  unfolding with_token
  with_token-Sound again start (w, err e) rest at = λ issued h. absurd (ground arith)
  with_token-Sound again start (w, ok token) rest at =
      subst
        (λ q.
          Sound (with_digest sha256 is_uuid service again store token q.0 (digest sha256 token)))
        at (with_digest-Sound again start token _ rest (ap (λ q. q.1) at) refl)

  attempts-Stored : (n : ℕ) (w : W) → Sound (attempts sha256 is_uuid service n store w)
  unfolding attempts
  attempts-Stored zero w = λ issued h. absurd (ground arith)
  attempts-Stored (suc n) w =
      with_token-Sound (attempts sha256 is_uuid service n store) w _ (attempts-Stored n) refl

-- What Issue needs of the generator and of the repository: tokens are of the type that was asked for, with a
-- secret of 32 bytes; what was created is found by its KID with its digest, its scopes, its inbox and
-- its end, as the repository stores a time, and is neither revoked nor of an inbox that is inactive
-- or over.
pub record Promises (W : Type 0) (service : CapabilityService W) (stored_time : ℕ → ℕ)
    (same_inbox : Bytes → Bytes → Bool) : Type 0 where
  pub generate_type :
      (w : W) (type : Bytes) (token : Token)
      → (service.generate w type).1 ≡ ok token
      → (token.token_type ≡ type) × IsSecret token.secret
  pub create_find :
      (w w' : W) (c : NewCapability) (row : CapabilityRecord)
      → service.create_capability w c ≡ (w', ok row)
      → (found : CapabilityRecord) × (service.find_capability_by_kid w' c.kid ≡ (w', ok found))
        × (found.digest ≡ c.digest)
        × (found.scopes ≡ c.scopes)
        × (same_inbox found.inbox_id c.inbox_id ≡ true)
        × (found.expires_at ≡ stored_time c.expires_at)
  pub create_live :
      (w w' : W) (c : NewCapability) (row found : CapabilityRecord)
      → service.create_capability w c ≡ (w', ok row)
      → service.find_capability_by_kid w' c.kid ≡ (w', ok found)
      → service.now w' < stored_time c.expires_at
      → Live (service.now w') found

module _ {W : Type 0} (sha256 : Bytes → Bytes) (is_uuid : Bytes → Bool)
    (service : CapabilityService W) (stored_time : ℕ → ℕ) (same_inbox : Bytes → Bytes → Bool)
    (promises : Promises W service stored_time same_inbox) where
  -- The principal that a capability is issued for.
  abbrev pub IsFor : Bytes → ℕ → ℕ → Principal → Type 0
  IsFor inbox_id scopes expires_at p =
      (same_inbox p.inbox_id inbox_id ≡ true)
      × (p.scopes ≡ scopes)
      × (p.expires_at ≡ stored_time expires_at)

  Stored-authenticate :
      (c : NewCapability) (after : W) (issued : IssuedCapability) (required : List ℕ)
      → Stored sha256 is_uuid service (create_with sha256 is_uuid service c) after issued
      → service.now after < stored_time c.expires_at
      → has c.scopes required ≡ true
      → (p : Principal) × ((authenticate sha256 is_uuid service after issued.plaintext required).1
          ≡ ok p)
        × IsFor c.inbox_id c.scopes c.expires_at p
  unfolding issued_capability principal_from_record
  Stored-authenticate c after issued required st live scoped =
      let (typed, secret) =
        promises.generate_type st.start token_capability st.token st.generated in
      let c' = record c { kid = st.token.kid; digest = st.secret_digest } in
      let (found, looked_up, same_digest, same_scopes, same_id, same_end) =
        promises.create_find _ after c' st.row st.stored in
      (
        _,
        (authenticate-Granted sha256 is_uuid service after issued.plaintext required _).1 (
          found,
          record {
            token = st.token;
            parsed =
                rw st.revealed (parse_token-encode_token st.token st.plaintext secret st.encoded);
            is_capability = typed;
            looked_up = ap (λ q. q.1) looked_up;
            secret = st.hashed ∙ ap ok (sym same_digest);
            live =
                subst (λ (q : W × Result CapabilityRecord). Live (service.now q.0) found)
                  (sym looked_up)
                  (promises.create_live _ after c' st.row found st.stored looked_up live);
          },
          rw same_scopes scoped,
          refl,
        ),
        (same_id, same_scopes, same_end),
      )

  issue_checked-authenticate :
      (w after : W) (c : NewCapability) (checked : Result (Unit {0})) (issued : IssuedCapability)
      (required : List ℕ)
      → issue_checked sha256 is_uuid service w c checked ≡ (after, ok issued)
      → service.now after < stored_time c.expires_at
      → has c.scopes required ≡ true
      → (p : Principal) × ((authenticate sha256 is_uuid service after issued.plaintext required).1
          ≡ ok p)
        × IsFor c.inbox_id c.scopes c.expires_at p
  unfolding issue_checked issue_new
  issue_checked-authenticate w after c (err e) issued required at live scoped =
      absurd (err-ne-ok (ap (λ q. q.1) at))
  issue_checked-authenticate w after c (ok _) issued required at live scoped =
      let sound =
        attempts-Stored sha256 is_uuid service (create_with sha256 is_uuid service c) 3 w issued
          (ap (λ q. q.1) at) in
      Stored-authenticate c after issued required
        (subst (λ a. Stored sha256 is_uuid service (create_with sha256 is_uuid service c) a issued)
          (ap (λ q. q.0) at) sound)
        live scoped

  -- Issue and Authenticate fit together: over a generator and a repository that keep their promises, the plaintext of an
  -- issued capability, presented before it is over in the state that Issue left, authenticates for
  -- every requirement that its scopes meet, as a principal of the inbox with the scopes that Issue was
  -- called with, up to the end that it was called with, as the repository stores it.
  pub issue-authenticate :
      (w after : W) (inbox_id : Bytes) (scopes expires_at : ℕ) (issued : IssuedCapability)
      (required : List ℕ)
      → issue sha256 is_uuid service w inbox_id scopes expires_at ≡ (after, ok issued)
      → service.now after < stored_time expires_at
      → has scopes required ≡ true
      → (p : Principal) × ((authenticate sha256 is_uuid service after issued.plaintext required).1
          ≡ ok p)
        × IsFor inbox_id scopes expires_at p
  unfolding issue
  issue-authenticate w after inbox_id scopes expires_at issued required at live scoped =
      issue_checked-authenticate w after
        (record {
          inbox_id = inbox_id;
          kid = [];
          digest = [];
          scopes = scopes;
          created_at = service.now w;
          expires_at = expires_at;
        })
        (check_issue sha256 is_uuid service inbox_id scopes expires_at (service.now w)) issued
        required at live scoped
