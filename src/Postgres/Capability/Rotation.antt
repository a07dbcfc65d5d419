-- ===== src/Postgres/Capability/Rotation.antt =====
-- RotateCapability: its transaction works on a copy of the tables.
pub mod Once
use mailwisp.Common.{
  ℕ, Bool, true, false, not, ◌&&◌, ◌||◌, Option, none, some, List, [], ◌∷◌, Bytes, codes, text,
  unauthenticated, capability_not_found, capability_already_rotated, Result, ok, err, ◌>>=◌, ◌>>◌,
  guard, ltb, ◌==◌,
}
use mailwisp.Auth.Token.{is_kid}
use mailwisp.Auth.Capability.{ReplacementCapability, CapabilityRecord, is_some}
use mailwisp.Postgres.Delivery.{InboxRow, failing}
use mailwisp.Postgres.Capability.{
  CapabilityRow, Credentials, Backend, is_parsed, scope_set_from_database, uuid_eq, find_inbox,
  find_id, hydrate, next_tick, insert_row, mark_revoked,
}

unfoldable pub validate_replacement_capability : ReplacementCapability → ℕ → Result (Unit {0})
unfolding is_kid
validate_replacement_capability r rotated_at = do
  guard (is_kid r.kid) (text (codes "invalid replacement capability KID"))
  guard (not (r.created_at == 0) && not (rotated_at == 0) && r.created_at == rotated_at)
      (text (codes "replacement capability creation and rotation times must match"))

-- The row that SELECT ... FOR UPDATE locks, with its inbox
abbrev pub locked_inbox : CapabilityRow → Option InboxRow → Result (CapabilityRow × InboxRow)
locked_inbox r none = err capability_not_found
locked_inbox r (some i) = ok (r, i)

module _ (backend : Backend) where
  abbrev pub locked : List InboxRow → Option CapabilityRow → Result (CapabilityRow × InboxRow)
  locked inboxes none = err capability_not_found
  locked inboxes (some r) = locked_inbox r (find_inbox backend r.inbox_id inboxes)

  abbrev pub rotated_from : Bytes → Option Bytes → Bool
  rotated_from id none = false
  rotated_from id (some old) = uuid_eq backend old id

  -- A row that was rotated from the same credential: rotated_from_id is unique.
  unfoldable pub is_rotated_from : Bytes → List CapabilityRow → Bool
  is_rotated_from id [] = false
  is_rotated_from id (r ∷ rows) = rotated_from id r.rotated_from_id || is_rotated_from id rows

  -- The replacement: inbox, scopes and end are those of the current credential.
  abbrev pub replacement_row :
      Credentials → CapabilityRow → ReplacementCapability → ℕ → CapabilityRow
  replacement_row w current replacement scopes = record {
    id = backend.new_id w.capabilities;
    inbox_id = current.inbox_id;
    kid = replacement.kid;
    secret_digest = replacement.digest;
    scope_mask = scopes;
    created_at = backend.stored_time replacement.created_at;
    expires_at = current.expires_at;
    last_used_at = none;
    revoked_at = none;
    rotated_from_id = some current.id;
  }

  -- The transaction of RotateCapability
  unfoldable pub transact_rotation :
      Credentials → Bytes → ReplacementCapability → ℕ → Result (Credentials × CapabilityRecord)
  unfolding validate_replacement_capability
  transact_rotation w current_id replacement rotated_at = do
    guard (is_parsed (backend.parse_uuid current_id)) capability_not_found
    validate_replacement_capability replacement rotated_at
    failing (backend.query_fails w.tick)
    (current, inbox) ← locked w.inboxes (find_id backend current_id w.capabilities)
    guard (not (is_some current.revoked_at)) capability_already_rotated
    guard (inbox.active && ltb rotated_at current.expires_at && ltb rotated_at inbox.expires_at)
        unauthenticated
    scopes ← scope_set_from_database current.scope_mask
    let revoked = record w {
      capabilities =
          mark_revoked backend current_id (backend.stored_time rotated_at) w.capabilities;
    }
    let row = replacement_row revoked current replacement scopes
    failing (backend.insert_fails w.tick)
    guard (not (is_rotated_from current_id revoked.capabilities)) capability_already_rotated
    w' ← insert_row backend revoked row
    created ← hydrate backend row true (some inbox.expires_at)
    failing (backend.commit_fails w.tick)
    ok (w', created)

  unfoldable pub settle_rotation :
      Credentials → Result (Credentials × CapabilityRecord) → Credentials × Result CapabilityRecord
  settle_rotation w (err e) = (w, err e)
  settle_rotation w (ok (w', created)) = (w', ok created)

  -- RotateCapability
  unfoldable pub rotate_capability :
      Credentials → Bytes → ReplacementCapability → ℕ → Credentials × Result CapabilityRecord
  unfolding settle_rotation transact_rotation
  rotate_capability w current_id replacement rotated_at =
      settle_rotation (next_tick backend w)
        (transact_rotation (next_tick backend w) current_id replacement rotated_at)
