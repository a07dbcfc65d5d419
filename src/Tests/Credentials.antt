-- ===== src/Tests/Credentials.antt =====
-- Examples for the credentials in PostgreSQL.
use mailwisp.Common.{◌≡◌, ◌≢◌, refl, Bool, true, none, some, [], ◌∷◌, ◌++◌, Bytes, codes, ok, arith}
use mailwisp.Auth.Scope.{has, message_read}
use mailwisp.Auth.Token.{is_kid}
use mailwisp.Auth.Capability.{
  ReplacementCapability, CapabilityRecord, Principal, issue, revoke, authenticate,
}
use mailwisp.Postgres.Capability.{
  CapabilityRow, Credentials, Backend, uuid_eq, find_capability_by_kid, revoke_capability,
  create_capability, scope_set_from_database, record_of, find_id, find_inbox, find_kid,
  mark_revoked, insert_row, hydrate,
}
use mailwisp.Postgres.Capability.Rotation.{
  rotate_capability, settle_rotation, transact_rotation, validate_replacement_capability,
  is_rotated_from,
}
use mailwisp.Postgres.Capability.Rotation.Once.{
  Rotated, rotate_capability-Rotated, rotate_capability-once,
}
use mailwisp.Postgres.Capability.Service.{generate, service_of}
use mailwisp.Postgres.Capability.Service.Issuing.{issue-authenticate_stored}
use mailwisp.Postgres.Capability.Service.Revoking.{revoke-authenticate_stored}

abbrev zeros : Bytes
zeros =
    0 ∷ 0 ∷ 0 ∷ 0 ∷ 0 ∷ 0 ∷ 0 ∷ 0 ∷ 0 ∷ 0 ∷ 0 ∷ 0 ∷ 0 ∷ 0 ∷ 0 ∷ 0 ∷ 0 ∷ 0 ∷ 0 ∷ 0 ∷ 0 ∷ 0 ∷ 0 ∷ 0
    ∷ 0 ∷ 0 ∷ 0 ∷ 0 ∷ 0 ∷ 0 ∷ 0 ∷ 0 ∷ []

-- The clock stands at 5, random bytes are zero, every text is a UUID in its canonical form, and no statement fails.
abbrev backend : Backend
backend = record {
  clock = λ n. 5;
  random = λ n. zeros ++ zeros;
  parse_uuid = λ s. some s;
  new_id = λ rows. codes "c1";
  stored_time = λ t. t;
  query_fails = λ n. none;
  insert_fails = λ n. none;
  commit_fails = λ n. none;
}

-- A hash of 32 bytes, whatever it is given.
abbrev hash : Bytes → Bytes
hash s = zeros

abbrev any_id : Bytes → Bool
any_id s = true

abbrev kid : Bytes
kid = codes "000000000000000000000000"

abbrev plaintext : Bytes
plaintext = codes "wisp_cap_v1_000000000000000000000000_AAAAAAAAAAAAAAAAAAAAAAAAAAAAAAAAAAAAAAAAAAA"

abbrev empty : Credentials
empty = record {
  inboxes = record { id = codes "i"; address = codes "a@b"; active = true; expires_at = 20 } ∷ [];
  capabilities = [];
  tick = 0;
  drawn = 0;
}

abbrev row : CapabilityRow
row = record {
  id = codes "c1";
  inbox_id = codes "i";
  kid = kid;
  secret_digest = zeros;
  scope_mask = 5;
  created_at = 5;
  expires_at = 9;
  last_used_at = none;
  revoked_at = none;
  rotated_from_id = none;
}

abbrev issued_once : Credentials
issued_once = record empty { capabilities = row ∷ []; tick = 1; drawn = 44 }

abbrev revoked_once : Credentials
revoked_once = record empty {
  capabilities = record row { revoked_at = some 5 } ∷ [];
  tick = 2;
  drawn = 44;
}

issue-authenticate_stored_example :
    (p : Principal) × ((authenticate hash any_id
        (service_of backend)
        issued_once
        plaintext
        (message_read ∷ [])).1
      ≡ ok p)
    × (uuid_eq backend p.inbox_id (codes "i") ≡ true)
    × (p.scopes ≡ 5)
    × (p.expires_at ≡ 9)
unfolding issue has generate create_capability scope_set_from_database
issue-authenticate_stored_example =
    issue-authenticate_stored backend (λ n. refl) hash any_id empty issued_once (codes "i") 5 9
      (record {
        id = codes "c1";
        inbox_id = codes "i";
        kid = kid;
        plaintext = plaintext;
        scopes = 5;
        expires_at = 9;
      })
      (message_read ∷ []) refl (omega arith) refl

revoke-authenticate_stored_example : ¬ (
    (authenticate hash any_id (service_of backend) revoked_once plaintext (message_read ∷ [])).1
    ≡ ok (record {
      credential_id = codes "c1";
      inbox_id = codes "i";
      kid = kid;
      scopes = 5;
      expires_at = 9;
    }))
unfolding revoke revoke_capability find_capability_by_kid scope_set_from_database
revoke-authenticate_stored_example =
    revoke-authenticate_stored backend hash any_id issued_once revoked_once plaintext
      (message_read ∷ [])
      (record {
        credential_id = codes "c1";
        inbox_id = codes "i";
        kid = kid;
        scopes = 5;
        expires_at = 9;
      })
      refl

-- The credential is rotated at 6.
abbrev rotating : Backend
rotating = record backend { new_id = λ rows. codes "c2" }

abbrev replacement : ReplacementCapability
replacement = record { kid = codes "111111111111111111111111"; digest = zeros; created_at = 6 }

abbrev next_row : CapabilityRow
next_row = record row {
  id = codes "c2";
  kid = codes "111111111111111111111111";
  created_at = 6;
  rotated_from_id = some (codes "c1");
}

abbrev rotated_once : Credentials
rotated_once = record empty {
  capabilities = record row { revoked_at = some 6 } ∷ next_row ∷ [];
  tick = 2;
  drawn = 44;
}

abbrev next_record : CapabilityRecord
next_record = record_of rotating next_row true (some 20)

rotation :
    rotate_capability rotating issued_once (codes "c1") replacement 6
    ≡ (rotated_once, ok next_record)
unfolding rotate_capability settle_rotation transact_rotation validate_replacement_capability
    is_rotated_from find_id find_inbox mark_revoked insert_row find_kid hydrate
    scope_set_from_database is_kid
rotation = refl

rotate_capability-Rotated_example :
    Rotated rotating issued_once rotated_once (codes "c1") replacement 6 next_record
rotate_capability-Rotated_example =
    rotate_capability-Rotated rotating issued_once rotated_once (codes "c1") replacement 6
      next_record rotation

rotate_capability-once_example :
    rotate_capability rotating rotated_once (codes "c1") replacement 6
    ≢ (rotated_once, ok next_record)
rotate_capability-once_example =
    rotate_capability-once rotating issued_once rotated_once rotated_once (codes "c1") replacement
      replacement 6 6 next_record next_record rotation
