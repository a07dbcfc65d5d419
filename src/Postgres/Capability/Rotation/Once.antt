-- ===== src/Postgres/Capability/Rotation/Once.antt =====
-- A credential is rotated at most once, and its replacement takes its place.
use mailwisp.Common.{
  ℕ, ◌<◌, ◌≡◌, ◌≢◌, refl, sym, ◌∙◌, ap, inl, inr, Bool, true, not, ◌&&◌, Option, none, some, List,
  [], ◌∷◌, ◌++◌, Bytes, unauthenticated, capability_not_found, capability_already_rotated, Result,
  ok, err, guard, bind_ok, then_ok, ok-injective, err-ne-ok, guard-ok, ltb, Bool-cases, arith,
}
use mailwisp.Auth.Capability.{ReplacementCapability, CapabilityRecord, is_some}
use mailwisp.Postgres.Delivery.{InboxRow, failing}
use mailwisp.Postgres.Capability.{
  CapabilityRow, Credentials, Backend, is_parsed, scope_set_from_database, uuid_eq, find_inbox,
  find_id, coalesce, hydrate, next_tick, insert_unless, insert_row, mark_revoked,
}
use mailwisp.Postgres.Capability.Lookup.{hydrate-Hydrated, scope_set_from_database-eq}
use mailwisp.Postgres.Capability.Rotation.{
  validate_replacement_capability, locked, locked_inbox, is_rotated_from, replacement_row,
  transact_rotation, settle_rotation, rotate_capability,
}

module _ (backend : Backend) where
  find_id-append :
      (id : Bytes) (rows : List CapabilityRow) (r extra : CapabilityRow)
      → find_id backend id rows ≡ some r
      → find_id backend id (rows ++ extra ∷ []) ≡ some r
  unfolding find_id
  find_id-append id [] r extra h = absurd (ground arith)
  find_id-append id (x ∷ rows) r extra h = elim (Bool-cases (uuid_eq backend x.id id)) [
    | inl this ↦ rw this (rw this at h)
    | inr other ↦ rw other (find_id-append id rows r extra (rw other at h))
  ]

  find_id-mark_revoked :
      (id : Bytes) (t : ℕ) (rows : List CapabilityRow) (r : CapabilityRow)
      → find_id backend id rows ≡ some r
      → find_id backend id (mark_revoked backend id t rows)
        ≡ some (record r { revoked_at = coalesce r.revoked_at t })
  unfolding find_id mark_revoked
  find_id-mark_revoked id t [] r h = absurd (ground arith)
  find_id-mark_revoked id t (x ∷ rows) r h = elim (Bool-cases (uuid_eq backend x.id id)) [
    | inl this ↦
        rw (this, this)
          (ap (λ (y : CapabilityRow). some (record y { revoked_at = coalesce y.revoked_at t }))
            (same x r (rw this at h)))
    | inr other ↦ rw (other, other) (find_id-mark_revoked id t rows r (rw other at h))
  ]
    where
      same : (x r : CapabilityRow) → some x ≡ some r → x ≡ r
      same x r e = ground arith

  -- What a rotation has done that succeeded.
  pub record Rotated (w w' : Credentials) (id : Bytes) (replacement : ReplacementCapability)
      (rotated_at : ℕ) (created : CapabilityRecord) : Type 0 where
    pub current : CapabilityRow
    pub inbox : InboxRow
    pub found : find_id backend id w.capabilities ≡ some current
    pub inbox_found : find_inbox backend current.inbox_id w.inboxes ≡ some inbox
    pub not_revoked : current.revoked_at ≡ none
    pub inbox_active : inbox.active ≡ true
    pub in_time : rotated_at < current.expires_at
    pub inbox_in_time : rotated_at < inbox.expires_at
    pub same_inbox : created.inbox_id ≡ current.inbox_id
    pub same_scopes : created.scopes ≡ current.scope_mask
    pub same_end : created.expires_at ≡ current.expires_at
    pub new_kid : created.kid ≡ replacement.kid
    pub new_digest : created.digest ≡ replacement.digest
    pub old_revoked :
        find_id backend id w'.capabilities
        ≡ some (record current { revoked_at = some (backend.stored_time rotated_at) })

  locked-ok :
      (inboxes : List InboxRow) (there : Option CapabilityRow) (r : CapabilityRow) (i : InboxRow)
      → locked backend inboxes there ≡ ok (r, i)
      → (there ≡ some r) × (find_inbox backend r.inbox_id inboxes ≡ some i)
  locked-ok inboxes none r i h = absurd (err-ne-ok h)
  locked-ok inboxes (some x) r i h = with_inbox (find_inbox backend x.inbox_id inboxes) refl h
    where
      with_inbox :
          (o : Option InboxRow)
          → find_inbox backend x.inbox_id inboxes ≡ o
          → locked_inbox x o ≡ ok (r, i)
          → (some x ≡ some r) × (find_inbox backend r.inbox_id inboxes ≡ some i)
      with_inbox none at e = absurd (err-ne-ok e)
      with_inbox (some j) at e =
          let both = ok-injective e in
          let same_row : x ≡ r = ap (λ p. p.0) both in
          (
            ap some same_row,
            ap (λ (y : CapabilityRow). find_inbox backend y.inbox_id inboxes) (sym same_row)
                ∙ at
                ∙ ap (λ p. some p.1) both,
          )

  insert_unless-ok :
      (w w' : Credentials) (r : CapabilityRow) (there : Option CapabilityRow)
      → insert_unless backend w r there ≡ ok w'
      → w' ≡ record w { capabilities = w.capabilities ++ r ∷ [] }
  insert_unless-ok w w' r none h = sym (ok-injective h)
  insert_unless-ok w w' r (some x) h = absurd (err-ne-ok h)

  not_some : (o : Option ℕ) → not (is_some o) ≡ true → o ≡ none
  not_some none h = refl
  not_some (some t) h = absurd (ground arith)

  live_tests :
      (a : Bool) (t m n : ℕ) → (a && ltb t m && ltb t n) ≡ true → (a ≡ true) × (t < m) × (t < n)
  live_tests a t m n h = (ground arith, ground arith, ground arith)

  transact-Rotated :
      (w w' : Credentials) (id : Bytes) (replacement : ReplacementCapability) (rotated_at : ℕ)
      (created : CapabilityRecord)
      → transact_rotation backend w id replacement rotated_at ≡ ok (w', created)
      → Rotated w w' id replacement rotated_at created
  unfolding transact_rotation insert_row
  transact-Rotated w w' id replacement rotated_at created h =
      let (_, h₁) = then_ok (guard (is_parsed (backend.parse_uuid id)) capability_not_found) _ h in
      let (_, h₂) = then_ok (validate_replacement_capability replacement rotated_at) _ h₁ in
      let (_, h₃) = then_ok (failing (backend.query_fails w.tick)) _ h₂ in
      let ((current, inbox), lock, h₄) =
        bind_ok (locked backend w.inboxes (find_id backend id w.capabilities)) _ _ h₃ in
      let (found, inbox_found) =
        locked-ok w.inboxes (find_id backend id w.capabilities) current inbox lock in
      let (fresh, h₅) =
        then_ok (guard (not (is_some current.revoked_at)) capability_already_rotated) _ h₄ in
      let (live, h₆) =
        then_ok
          (guard
            (inbox.active && ltb rotated_at current.expires_at && ltb rotated_at inbox.expires_at)
            unauthenticated)
          _ h₅ in
      let (scopes, hydrated, h₇) = bind_ok (scope_set_from_database current.scope_mask) _ _ h₆ in
      let (_, h₈) = then_ok (failing (backend.insert_fails w.tick)) _ h₇ in
      let revoked = mark_revoked backend id (backend.stored_time rotated_at) w.capabilities in
      let row =
        replacement_row backend (record w { capabilities = revoked }) current replacement scopes in
      let (_, h₉) =
        then_ok (guard (not (is_rotated_from backend id revoked)) capability_already_rotated) _
          h₈ in
      let (w'', inserted, h₁₀) =
        bind_ok (insert_row backend (record w { capabilities = revoked }) row) _ _ h₉ in
      let (made, read, h₁₁) = bind_ok (hydrate backend row true (some inbox.expires_at)) _ _ h₁₀ in
      let (_, done) = then_ok (failing (backend.commit_fails w.tick)) _ h₁₁ in
      let same_state : w'' ≡ w' = ap (λ p. p.0) (ok-injective done) in
      let same_made : made ≡ created = ap (λ p. p.1) (ok-injective done) in
      let as_row =
        sym same_made
        ∙ (hydrate-Hydrated backend row true (some inbox.expires_at) made read).same_record in
      let same_mask = scope_set_from_database-eq current.scope_mask scopes hydrated in
      let unrevoked = not_some current.revoked_at (guard-ok _ _ fresh) in
      let (active, in_time, inbox_in_time) =
        live_tests inbox.active rotated_at current.expires_at inbox.expires_at
          (guard-ok _ _ live) in
      record {
        current = current;
        inbox = inbox;
        found = found;
        inbox_found = inbox_found;
        not_revoked = unrevoked;
        inbox_active = active;
        in_time = in_time;
        inbox_in_time = inbox_in_time;
        same_inbox = ap (λ (x : CapabilityRecord). x.inbox_id) as_row;
        same_scopes = ap (λ (x : CapabilityRecord). x.scopes) as_row ∙ same_mask;
        same_end = ap (λ (x : CapabilityRecord). x.expires_at) as_row;
        new_kid = ap (λ (x : CapabilityRecord). x.kid) as_row;
        new_digest = ap (λ (x : CapabilityRecord). x.digest) as_row;
        old_revoked =
            ap (λ (v : Credentials). find_id backend id v.capabilities)
              (sym same_state ∙ insert_unless-ok _ w'' row _ inserted)
            ∙ find_id-append id revoked _ row (
                find_id-mark_revoked id (backend.stored_time rotated_at) w.capabilities current
                  found
                ∙ ap
                    (λ o.
                      some (record current {
                        revoked_at = coalesce o (backend.stored_time rotated_at);
                      }))
                    unrevoked);
      }

  settle-ok :
      (w w' : Credentials) (r : Result (Credentials × CapabilityRecord))
      (created : CapabilityRecord)
      → settle_rotation backend w r ≡ (w', ok created)
      → r ≡ ok (w', created)
  unfolding settle_rotation
  settle-ok w w' (err e) created h = absurd (err-ne-ok (ap (λ p. p.1) h))
  settle-ok w w' (ok (v, made)) created h = ap pull h
    where
      pull : Credentials × Result CapabilityRecord → Result (Credentials × CapabilityRecord)
      pull (x, err e) = err e
      pull (x, ok m) = ok (x, m)

  -- A rotation that succeeds has found the credential not revoked, its inbox active, and both not over at the time of the
  -- rotation; the replacement has the KID and the digest that were given, and the inbox, the scopes and the end of the
  -- credential; and the credential is then revoked at that time.
  pub rotate_capability-Rotated :
      (w w' : Credentials) (id : Bytes) (replacement : ReplacementCapability) (rotated_at : ℕ)
      (created : CapabilityRecord)
      → rotate_capability backend w id replacement rotated_at ≡ (w', ok created)
      → Rotated w w' id replacement rotated_at created
  unfolding rotate_capability
  rotate_capability-Rotated w w' id replacement rotated_at created h =
      let done =
        transact-Rotated (next_tick backend w) w' id replacement rotated_at created
          (settle-ok (next_tick backend w) w' _ created h) in
      record {
        current = done.current;
        inbox = done.inbox;
        found = done.found;
        inbox_found = done.inbox_found;
        not_revoked = done.not_revoked;
        inbox_active = done.inbox_active;
        in_time = done.in_time;
        inbox_in_time = done.inbox_in_time;
        same_inbox = done.same_inbox;
        same_scopes = done.same_scopes;
        same_end = done.same_end;
        new_kid = done.new_kid;
        new_digest = done.new_digest;
        old_revoked = done.old_revoked;
      }

  -- In the state that a rotation which succeeds has left, no second rotation of the same credential succeeds, at
  -- whatever time and with whatever replacement.
  pub rotate_capability-once :
      (w w' v : Credentials) (id : Bytes) (replacement again : ReplacementCapability)
      (rotated_at later : ℕ) (created other : CapabilityRecord)
      → rotate_capability backend w id replacement rotated_at ≡ (w', ok created)
      → rotate_capability backend w' id again later ≢ (v, ok other)
  rotate_capability-once w w' v id replacement again rotated_at later created other first second =
      let done = rotate_capability-Rotated w w' id replacement rotated_at created first in
      let twice = rotate_capability-Rotated w' v id again later other second in
      still_revoked done.current twice.current (backend.stored_time rotated_at)
        (sym done.old_revoked ∙ twice.found) twice.not_revoked
    where
      still_revoked :
          (r s : CapabilityRow) (t : ℕ)
          → some (record r { revoked_at = some t }) ≡ some s
          → s.revoked_at ≡ none
          → ⊥
      still_revoked r s t e unrevoked = some-ne-none (ap (revoked_of t) e ∙ unrevoked)
        where
          revoked_of : ℕ → Option CapabilityRow → Option ℕ
          revoked_of t none = some t
          revoked_of t (some x) = x.revoked_at

          some-ne-none : some t ≡ none → ⊥
          some-ne-none h = ground arith
