-- ===== src/Tests/Auth.antt =====
-- Examples for credentials.
use mailwisp.Common.{
  ℕ, ◌≡◌, refl, sym, ap, ◌↔◌, Bool, true, Option, none, some, [], ◌∷◌, Bytes, codes, bytes_eq,
  bytes_eq_refl, Error, capability_not_found, Result, ok, err, if◌then◌else◌, arith,
}
use mailwisp.Auth.Token.{
  Token, token_capability, encode_token, parse_token, generate_token, digest_input,
}
use mailwisp.Auth.Token.RoundTrip.{parse_token-encode_token}
use mailwisp.Auth.Token.Generate.{parse_token-generate_token}
use mailwisp.Auth.Capability.{
  NewCapability, CapabilityRecord, Principal, CapabilityService, authenticate, issue, revoke,
}
use mailwisp.Auth.Capability.Authentication.{Granted, authenticate-Granted}
use mailwisp.Auth.Capability.Issue.{Promises, IsFor, issue-authenticate}
use mailwisp.Auth.Capability.Revocation.{RevokePromises, revoke-authenticate}
use mailwisp.Auth.Scope.{
  inbox_read, message_read, message_delete, new_scope_set, scope_set_from_mask, has,
}
use mailwisp.Auth.Scope.Sets.{all_listed, has-new_scope_set, scope_set_from_mask-new_scope_set}

has-new_scope_set_example :
    has 5 (message_read ∷ message_delete ∷ [])
    ≡ all_listed (inbox_read ∷ message_read ∷ []) (message_read ∷ message_delete ∷ [])
unfolding new_scope_set
has-new_scope_set_example =
    has-new_scope_set (inbox_read ∷ message_read ∷ []) (message_read ∷ message_delete ∷ []) 5 refl

scope_set_from_mask-new_scope_set_example : scope_set_from_mask 20 ≡ ok 20
unfolding new_scope_set
scope_set_from_mask-new_scope_set_example =
    scope_set_from_mask-new_scope_set (message_read ∷ message_delete ∷ []) 20 refl

-- A token with a KID of 24 letters and a secret of 32 zero bytes, and its plaintext.
abbrev zeros : Bytes
zeros =
    0 ∷ 0 ∷ 0 ∷ 0 ∷ 0 ∷ 0 ∷ 0 ∷ 0 ∷ 0 ∷ 0 ∷ 0 ∷ 0 ∷ 0 ∷ 0 ∷ 0 ∷ 0 ∷ 0 ∷ 0 ∷ 0 ∷ 0 ∷ 0 ∷ 0 ∷ 0 ∷ 0
    ∷ 0 ∷ 0 ∷ 0 ∷ 0 ∷ 0 ∷ 0 ∷ 0 ∷ 0 ∷ []

abbrev kid : Bytes
kid = codes "0123456789abcdef01234567"

abbrev token : Token
token = record { token_type = token_capability; kid = kid; secret = zeros }

abbrev plaintext : Bytes
plaintext = codes "wisp_cap_v1_0123456789abcdef01234567_AAAAAAAAAAAAAAAAAAAAAAAAAAAAAAAAAAAAAAAAAAA"

parse_token-encode_token_example : parse_token plaintext ≡ ok token
unfolding encode_token
parse_token-encode_token_example = parse_token-encode_token token plaintext (refl, omega arith) refl

abbrev random : Bytes
random = 1 ∷ 2 ∷ 3 ∷ 4 ∷ 5 ∷ 6 ∷ 7 ∷ 8 ∷ 9 ∷ 10 ∷ 11 ∷ 12 ∷ zeros

parse_token-generate_token_example :
    (plaintext : Bytes) × (encode_token (record {
      token_type = token_capability;
      kid = codes "0102030405060708090a0b0c";
      secret = zeros;
    })
      ≡ ok plaintext)
    × (parse_token plaintext
        ≡ ok (record {
          token_type = token_capability;
          kid = codes "0102030405060708090a0b0c";
          secret = zeros;
        }))
unfolding generate_token
parse_token-generate_token_example =
    parse_token-generate_token token_capability random []
      (record {
        token_type = token_capability;
        kid = codes "0102030405060708090a0b0c";
        secret = zeros;
      })
      (omega arith) refl

-- A repository of one row at most; the clock stands at 5.
abbrev row_of : NewCapability → CapabilityRecord
row_of c = record {
  id = codes "c1";
  inbox_id = c.inbox_id;
  kid = c.kid;
  digest = c.digest;
  scopes = c.scopes;
  created_at = c.created_at;
  expires_at = c.expires_at;
  last_used_at = none;
  revoked_at = none;
  inbox_active = true;
  inbox_expires_at = none;
}

abbrev Rows : Type 0
Rows = Option CapabilityRecord

abbrev find : Rows → Bytes → Result CapabilityRecord
find none k = err capability_not_found
find (some r) k = if bytes_eq r.kid k then ok r else err capability_not_found

abbrev mark : Rows → Bytes → ℕ → Rows
mark none id t = none
mark (some r) id t = if bytes_eq r.id id then some (record r { revoked_at = some t }) else some r

abbrev service : CapabilityService Rows
service = record {
  create_capability = λ w c. (some (row_of c), ok (row_of c));
  find_capability_by_kid = λ w k. (w, find w k);
  rotate_capability = λ w id c t. (w, err capability_not_found);
  revoke_capability = λ w id t. (mark w id t, none);
  now = λ w. 5;
  generate = λ w type. (w, ok (record { token_type = type; kid = kid; secret = zeros }));
}

-- The hash that returns what it is given.
abbrev same_bytes : Bytes → Bytes
same_bytes s = s

abbrev any_id : Bytes → Bool
any_id s = true

abbrev held : CapabilityRecord
held = row_of (record {
  inbox_id = codes "inbox";
  kid = kid;
  digest = digest_input token;
  scopes = 5;
  created_at = 5;
  expires_at = 9;
})

abbrev principal : Principal
principal = record {
  credential_id = codes "c1";
  inbox_id = codes "inbox";
  kid = kid;
  scopes = 5;
  expires_at = 9;
}

authenticate-Granted_example :
    ((authenticate same_bytes any_id service (some held) plaintext (message_read ∷ [])).1
      ≡ ok principal)
    ↔ Granted same_bytes any_id service (some held) plaintext (message_read ∷ []) principal
authenticate-Granted_example =
    authenticate-Granted same_bytes any_id service (some held) plaintext (message_read ∷ [])
      principal

authenticates :
    (authenticate same_bytes any_id service (some held) plaintext (message_read ∷ [])).1
    ≡ ok principal
unfolding authenticate digest_input
authenticates = refl

find_own : (r : CapabilityRecord) → find (some r) r.kid ≡ ok r
find_own r = rw (bytes_eq_refl r.kid) refl

-- What create_capability returned.
created :
    (rows : Rows) (a row : CapabilityRecord)
    → ◌≡◌ {A = Rows × Result CapabilityRecord} (some a, ok a) (rows, ok row)
    → (rows ≡ some a) × (row ≡ a)
created rows a row e = ground arith

generated :
    (type : Bytes) (t : Token)
    → ok (record { token_type = type; kid = kid; secret = zeros }) ≡ ok t
    → (t ≡ record { token_type = type; kid = kid; secret = zeros })
generated type t e = ground arith

abbrev as_given : ℕ → ℕ
as_given t = t

service-Promises : Promises Rows service as_given bytes_eq
service-Promises = record {
  generate_type = λ w type t e. rw (generated type t e) (refl, (refl, omega arith));
  create_find = λ w w' c row e.
      let (at, same) = created w' (row_of c) row e in
      (
        row_of c,
        rw at (ap (λ r. (some (row_of c), r)) (find_own (row_of c))),
        refl,
        refl,
        bytes_eq_refl c.inbox_id,
        refl,
      );
  create_live = λ w w' c row found e at live.
      let (now, same) = created w' (row_of c) row e in
      let held = rw (now, find_own (row_of c)) at (ap (λ q. q.1) at) in
      rw (found_same (sym held)) (record {
        not_revoked = refl;
        unexpired = live;
        active = refl;
        inbox_live = λ end at. absurd (none-some at);
      });
}
  where
    none-some : {t : ℕ} → none ≡ some t → ⊥
    none-some e = ground arith

    found_same : {a b : CapabilityRecord} → ok a ≡ ok b → a ≡ b
    found_same e = ground arith

found_row : (r row : CapabilityRecord) (k : Bytes) → find (some r) k ≡ ok row → r ≡ row
found_row r row k e = ground arith

marks :
    (rows after : Rows) (k : Bytes) (t : ℕ) (row row' : CapabilityRecord)
    → find rows k ≡ ok row
    → ◌≡◌ {A = Rows × Option Error} (mark rows row.id t, none) (after, none)
    → find after k ≡ ok row'
    → (u : ℕ) × (row'.revoked_at ≡ some u)
marks none after k t row row' at done found = absurd (ground arith)
marks (some r) after k t row row' at done found =
    let same = found_row r row k at in
    let marked : find (some (record row { revoked_at = some t })) k ≡ ok row' =
      rw (sym (ap (λ q. q.0) done), same, bytes_eq_refl row.id) at found in
    (t, ap (λ q. q.revoked_at) (sym (found_row _ row' k marked)))

service-RevokePromises : RevokePromises Rows service
service-RevokePromises = record {
  find_same = λ w k. refl;
  revoke_marks = λ w after k t. marks w after k t;
}

issue-authenticate_example :
    (p : Principal) × ((authenticate same_bytes any_id service
        (some held)
        plaintext
        (message_read ∷ [])).1
      ≡ ok p)
    × IsFor same_bytes any_id service as_given bytes_eq service-Promises (codes "inbox") 5 9 p
unfolding issue has digest_input
issue-authenticate_example =
    issue-authenticate same_bytes any_id service as_given bytes_eq service-Promises none (some held)
      (codes "inbox") 5 9
      (record {
        id = codes "c1";
        inbox_id = codes "inbox";
        kid = kid;
        plaintext = plaintext;
        scopes = 5;
        expires_at = 9;
      })
      (message_read ∷ []) refl (omega arith) refl

abbrev revoked : CapabilityRecord
revoked = record held { revoked_at = some 5 }

revoke-authenticate_example : ¬ (
    (authenticate same_bytes any_id service (some revoked) plaintext (message_read ∷ [])).1
    ≡ ok principal)
unfolding revoke digest_input
revoke-authenticate_example =
    revoke-authenticate same_bytes any_id service service-RevokePromises (some held) (some revoked)
      plaintext (message_read ∷ []) principal refl
