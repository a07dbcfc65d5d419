-- ===== src/Postgres/Capability.antt =====
-- internal/postgres/inbox_capability_repository.go. The tables are lists, as in Postgres.Delivery; two texts
-- are one uuid if they parse to the same canonical text.
pub mod Rotation
pub mod Lookup
pub mod Service
use mailwisp.Common.{
  ℕ, zero, suc, ◌+◌, ◌≡◌, refl, Bool, true, false, not, ◌&&◌, ◌||◌, Option, none, some, List, [],
  ◌∷◌, ◌++◌, Bytes, codes, bytes_eq, Error, text, unauthenticated, capability_not_found,
  capability_kid_conflict, capability_subject_unavailable, capability_lifetime,
  capability_already_rotated, Result, ok, err, ◌>>=◌, ◌>>◌, guard, length, ltb, leb, ◌==◌,
  if◌then◌else◌,
}
use mailwisp.Auth.Token.{is_kid}
use mailwisp.Auth.Scope.{scope_set_from_mask}
use mailwisp.Auth.Capability.{
  NewCapability, ReplacementCapability, CapabilityRecord, has_passed, is_some,
}
use mailwisp.Postgres.Delivery.{InboxRow, failing}

pub record CapabilityRow : Type 0 where
  pub id : Bytes
  pub inbox_id : Bytes
  pub kid : Bytes
  pub secret_digest : Bytes
  pub scope_mask : ℕ
  pub created_at : ℕ
  pub expires_at : ℕ
  pub last_used_at : Option ℕ
  pub revoked_at : Option ℕ
  pub rotated_from_id : Option Bytes

-- The tables, with the number of statements that were run before and of random bytes that were drawn.
pub record Credentials : Type 0 where
  pub inboxes : List InboxRow
  pub capabilities : List CapabilityRow
  pub tick : ℕ
  pub drawn : ℕ

-- What the tables do not determine: the clock, random bytes, uuid.Parse, new ids, the failures of the
-- statements, and a time as a timestamptz stores it.
pub record Backend : Type 0 where
  pub clock : ℕ → ℕ
  pub random : ℕ → Bytes
  pub parse_uuid : Bytes → Option Bytes
  pub new_id : List CapabilityRow → Bytes
  pub stored_time : ℕ → ℕ
  pub query_fails : ℕ → Option Error
  pub insert_fails : ℕ → Option Error
  pub commit_fails : ℕ → Option Error

abbrev pub parsed_eq : Option Bytes → Option Bytes → Bool
parsed_eq none v = false
parsed_eq (some a) none = false
parsed_eq (some a) (some b) = bytes_eq a b

abbrev pub is_parsed : Option Bytes → Bool
is_parsed none = false
is_parsed (some a) = true

-- scopeSetFromDatabase and the length of the digest, in hydrateCapabilityRecord
abbrev pub digest_size : ℕ
digest_size = 32

abbrev pub max_uint32 : ℕ
max_uint32 = 4294967295

unfoldable pub scope_set_from_database : ℕ → Result ℕ
unfolding scope_set_from_mask
scope_set_from_database mask = do
  guard (ltb 0 mask && leb mask max_uint32)
      (text (codes "persisted capability scope mask is invalid"))
  scope_set_from_mask mask

-- COALESCE
abbrev pub coalesce : Option ℕ → ℕ → Option ℕ
coalesce none t = some t
coalesce (some s) t = some s

module _ (backend : Backend) where
  abbrev pub uuid_eq : Bytes → Bytes → Bool
  uuid_eq a b = parsed_eq (backend.parse_uuid a) (backend.parse_uuid b)

  -- FROM inboxes WHERE id = $1::uuid
  unfoldable pub find_inbox : Bytes → List InboxRow → Option InboxRow
  find_inbox id [] = none
  find_inbox id (i ∷ inboxes) = if uuid_eq i.id id then some i else find_inbox id inboxes

  -- WHERE capability.kid = $1
  unfoldable pub find_kid : Bytes → List CapabilityRow → Option CapabilityRow
  find_kid kid [] = none
  find_kid kid (r ∷ rows) = if bytes_eq r.kid kid then some r else find_kid kid rows

  -- WHERE capability.id = $1::uuid
  unfoldable pub find_id : Bytes → List CapabilityRow → Option CapabilityRow
  find_id id [] = none
  find_id id (r ∷ rows) = if uuid_eq r.id id then some r else find_id id rows

  -- A row as a CapabilityRecord, with what is known of its inbox.
  abbrev pub record_of : CapabilityRow → Bool → Option ℕ → CapabilityRecord
  record_of r active inbox_expires_at = record {
    id = r.id;
    inbox_id = r.inbox_id;
    kid = r.kid;
    digest = r.secret_digest;
    scopes = r.scope_mask;
    created_at = r.created_at;
    expires_at = r.expires_at;
    last_used_at = r.last_used_at;
    revoked_at = r.revoked_at;
    inbox_active = active;
    inbox_expires_at = inbox_expires_at;
  }

  -- hydrateCapabilityRecord, and InboxActive after it
  unfoldable pub hydrate : CapabilityRow → Bool → Option ℕ → Result CapabilityRecord
  hydrate r active inbox_expires_at = do
    guard (length r.secret_digest == digest_size)
        (text (codes "persisted capability digest has invalid length"))
    scopes ← scope_set_from_database r.scope_mask
    ok (record (record_of r active inbox_expires_at) { scopes = scopes })

  unfoldable pub validate_new_capability : NewCapability → Result (Unit {0})
  unfolding is_kid scope_set_from_mask
  validate_new_capability c = do
    guard (is_parsed (backend.parse_uuid c.inbox_id)) capability_subject_unavailable
    guard (is_kid c.kid) (text (codes "invalid capability KID"))
    _ ← scope_set_from_mask c.scopes
    guard (not (c.created_at == 0) && not (c.expires_at == 0) && ltb c.created_at c.expires_at)
        capability_lifetime

  -- mapUnavailableInbox, with the inbox that its query finds
  unfoldable pub map_unavailable_inbox : NewCapability → Option InboxRow → Error
  map_unavailable_inbox c none = capability_subject_unavailable
  map_unavailable_inbox c (some i) =
      if i.active
      then if not (ltb c.created_at i.expires_at)
        then capability_subject_unavailable
        else if ltb i.expires_at c.expires_at
        then capability_lifetime
        else capability_subject_unavailable
      else capability_subject_unavailable

  abbrev pub next_tick : Credentials → Credentials
  next_tick w = record w { tick = w.tick + 1 }

  -- The INSERT of a row: the KID is unique.
  abbrev pub insert_unless : Credentials → CapabilityRow → Option CapabilityRow → Result Credentials
  insert_unless w r (some other) = err capability_kid_conflict
  insert_unless w r none = ok (record w { capabilities = w.capabilities ++ r ∷ [] })

  unfoldable pub insert_row : Credentials → CapabilityRow → Result Credentials
  unfolding find_kid
  insert_row w r = insert_unless w r (find_kid r.kid w.capabilities)

  -- The row of CreateCapability
  abbrev pub new_row : Credentials → NewCapability → InboxRow → CapabilityRow
  new_row w c i = record {
    id = backend.new_id w.capabilities;
    inbox_id = i.id;
    kid = c.kid;
    secret_digest = c.digest;
    scope_mask = c.scopes;
    created_at = backend.stored_time c.created_at;
    expires_at = backend.stored_time c.expires_at;
    last_used_at = none;
    revoked_at = none;
    rotated_from_id = none;
  }

  -- WHERE ... AND status = 'active' AND expires_at > $5 AND $6 <= expires_at
  abbrev pub can_create : NewCapability → InboxRow → Bool
  can_create c i =
      i.active
      && ltb (backend.stored_time c.created_at) i.expires_at
      && leb (backend.stored_time c.expires_at) i.expires_at

  -- CreateCapability after its INSERT, which is kept whatever becomes of the record
  unfoldable pub after_create :
      Credentials → CapabilityRow → Result Credentials → Credentials × Result CapabilityRecord
  unfolding hydrate
  after_create w r (err e) = (w, err e)
  after_create w r (ok w') = (w', hydrate r true none)

  unfoldable pub create_in :
      Credentials → NewCapability → Option InboxRow → Credentials × Result CapabilityRecord
  unfolding after_create insert_row map_unavailable_inbox
  create_in w c none = (w, err (map_unavailable_inbox c none))
  create_in w c (some i) =
      if can_create c i
      then after_create w (new_row w c i) (insert_row w (new_row w c i))
      else (w, err (map_unavailable_inbox c (some i)))

  unfoldable pub create_checked :
      Credentials → NewCapability → Result (Unit {0}) → Credentials × Result CapabilityRecord
  unfolding create_in find_inbox
  create_checked w c (err e) = (w, err e)
  create_checked w c (ok _) = create_in w c (find_inbox c.inbox_id w.inboxes)

  -- CreateCapability
  unfoldable pub create_capability :
      Credentials → NewCapability → Credentials × Result CapabilityRecord
  unfolding create_checked validate_new_capability
  create_capability w c =
      create_checked (next_tick w) c
        (validate_new_capability c >> failing (backend.insert_fails w.tick))

  -- The JOIN with the inbox of a row
  unfoldable pub join_inbox : CapabilityRow → Option InboxRow → Result CapabilityRecord
  unfolding hydrate
  join_inbox r none = err capability_not_found
  join_inbox r (some i) = hydrate r i.active (some i.expires_at)

  unfoldable pub found_row : List InboxRow → Option CapabilityRow → Result CapabilityRecord
  unfolding join_inbox find_inbox
  found_row inboxes none = err capability_not_found
  found_row inboxes (some r) = join_inbox r (find_inbox r.inbox_id inboxes)

  -- FindCapabilityByKID; a lookup changes nothing
  unfoldable pub find_capability_by_kid :
      Credentials → Bytes → Credentials × Result CapabilityRecord
  unfolding found_row find_kid is_kid
  find_capability_by_kid w kid = (
    w,
    guard (is_kid kid) capability_not_found
        >> (failing (backend.query_fails w.tick)
            >> found_row w.inboxes (find_kid kid w.capabilities)),
  )

  -- UPDATE ... SET revoked_at = COALESCE(revoked_at, $2) WHERE id = $1::uuid
  unfoldable pub mark_revoked : Bytes → ℕ → List CapabilityRow → List CapabilityRow
  mark_revoked id t [] = []
  mark_revoked id t (r ∷ rows) =
      (if uuid_eq r.id id then record r { revoked_at = coalesce r.revoked_at t } else r)
      ∷ mark_revoked id t rows

  -- RowsAffected()
  unfoldable pub count_rows : Bytes → List CapabilityRow → ℕ
  count_rows id [] = 0
  count_rows id (r ∷ rows) = (if uuid_eq r.id id then 1 else 0) + count_rows id rows

  -- RevokeCapability
  unfoldable pub check_revoke : Credentials → Bytes → ℕ → Result (Unit {0})
  check_revoke w id revoked_at = do
    guard (is_parsed (backend.parse_uuid id)) capability_not_found
    guard (not (revoked_at == 0)) (text (codes "capability revocation time is required"))
    failing (backend.query_fails w.tick)

  unfoldable pub revoke_checked :
      Credentials → Bytes → ℕ → Result (Unit {0}) → Credentials × Option Error
  unfolding mark_revoked count_rows
  revoke_checked w id revoked_at (err e) = (w, some e)
  revoke_checked w id revoked_at (ok _) = (
    record w { capabilities = mark_revoked id (backend.stored_time revoked_at) w.capabilities },
    if count_rows id w.capabilities == 1 then none else some capability_not_found,
  )

  unfoldable pub revoke_capability : Credentials → Bytes → ℕ → Credentials × Option Error
  unfolding revoke_checked check_revoke
  revoke_capability w id revoked_at =
      revoke_checked (next_tick w) id revoked_at (check_revoke w id revoked_at)
