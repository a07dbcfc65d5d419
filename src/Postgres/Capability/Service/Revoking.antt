-- ===== src/Postgres/Capability/Service/Revoking.antt =====
-- What is revoked over PostgreSQL is refused.
use mailwisp.Common.{
  ℕ, ◌≡◌, refl, sym, ◌∙◌, ap, inl, inr, Bool, true, Option, none, some, List, [], ◌∷◌, Bytes,
  bytes_eq, Error, err-ne-ok, then_ok, guard, capability_not_found, Result, ok, err, if◌then◌else◌,
  Bool-cases, arith,
}
use mailwisp.Auth.Token.{is_kid}
use mailwisp.Auth.Capability.{CapabilityRecord, Principal, revoke, authenticate}
use mailwisp.Auth.Capability.Revocation.{RevokePromises, revoke-authenticate}
use mailwisp.Postgres.Delivery.{InboxRow, failing}
use mailwisp.Postgres.Capability.{
  CapabilityRow, Credentials, Backend, is_parsed, uuid_eq, find_kid, coalesce, mark_revoked,
  next_tick, check_revoke, revoke_checked, revoke_capability, found_row, join_inbox,
  find_capability_by_kid,
}
use mailwisp.Postgres.Capability.Lookup.{parsed_eq_refl, hydrate-Hydrated}
use mailwisp.Postgres.Capability.Service.{service_of}

coalesce-some : (o : Option ℕ) (t : ℕ) → (u : ℕ) × (coalesce o t ≡ some u)
coalesce-some none t = (t, refl)
coalesce-some (some s) t = (s, refl)

module _ (backend : Backend) where
  abbrev marked : Bytes → ℕ → CapabilityRow → CapabilityRow
  marked id t r =
      if uuid_eq backend r.id id then record r { revoked_at = coalesce r.revoked_at t } else r

  marked-kid : (id : Bytes) (t : ℕ) (r : CapabilityRow) → (marked id t r).kid ≡ r.kid
  marked-kid id t r = ground arith

  find_kid-mark_revoked :
      (kid id : Bytes) (t : ℕ) (rows : List CapabilityRow) (r : CapabilityRow)
      → find_kid backend kid rows ≡ some r
      → find_kid backend kid (mark_revoked backend id t rows) ≡ some (marked id t r)
  unfolding find_kid mark_revoked
  find_kid-mark_revoked kid id t [] r h = absurd (ground arith)
  find_kid-mark_revoked kid id t (x ∷ rows) r h = elim (Bool-cases (bytes_eq x.kid kid)) [
    | inl here ↦
        rw (marked-kid id t x, here) (ap (λ y. some (marked id t y)) (same x r (rw here at h)))
    | inr other ↦
        rw (marked-kid id t x, other) (find_kid-mark_revoked kid id t rows r (rw other at h))
  ]
    where
      same : (x r : CapabilityRow) → some x ≡ some r → x ≡ r
      same x r e = ground arith

  -- The row behind a record that was found.
  record Row (w : Credentials) (kid : Bytes) (found : CapabilityRecord) : Type 0 where
    row : CapabilityRow
    there : find_kid backend kid w.capabilities ≡ some row
    same_id : found.id ≡ row.id
    same_end : found.revoked_at ≡ row.revoked_at

  join-Row :
      (w : Credentials) (kid : Bytes) (found : CapabilityRecord) (r : CapabilityRow)
      (i : Option InboxRow)
      → find_kid backend kid w.capabilities ≡ some r
      → join_inbox backend r i ≡ ok found
      → Row w kid found
  unfolding join_inbox
  join-Row w kid found r none at h = absurd (err-ne-ok h)
  join-Row w kid found r (some i) at h =
      let read = hydrate-Hydrated backend r i.active (some i.expires_at) found h in
      record {
        row = r;
        there = at;
        same_id = ap (λ q. q.id) read.same_record;
        same_end = ap (λ q. q.revoked_at) read.same_record;
      }

  found-Row :
      (w : Credentials) (kid : Bytes) (found : CapabilityRecord) (o : Option CapabilityRow)
      → find_kid backend kid w.capabilities ≡ o
      → found_row backend w.inboxes o ≡ ok found
      → Row w kid found
  unfolding found_row
  found-Row w kid found none at h = absurd (err-ne-ok h)
  found-Row w kid found (some r) at h = join-Row w kid found r _ at h

  find-Row :
      (w : Credentials) (kid : Bytes) (found : CapabilityRecord)
      → (find_capability_by_kid backend w kid).1 ≡ ok found
      → Row w kid found
  unfolding find_capability_by_kid
  find-Row w kid found h =
      let (_, h₁) = then_ok (guard (is_kid kid) capability_not_found) _ h in
      let (_, h₂) = then_ok (failing (backend.query_fails w.tick)) _ h₁ in
      found-Row w kid found _ refl h₂

  revoke_checked-marks :
      (w after : Credentials) (id : Bytes) (time : ℕ) (v : Result (Unit {0}))
      → check_revoke backend w id time ≡ v
      → revoke_checked backend (next_tick backend w) id time v ≡ (after, none)
      → (is_parsed (backend.parse_uuid id) ≡ true)
        × (after.capabilities ≡ mark_revoked backend id (backend.stored_time time) w.capabilities)
  unfolding revoke_checked check_revoke
  revoke_checked-marks w after id time (err e) at h = absurd (some-none (ap (λ q. q.1) h))
    where
      some-none : {e : Error} → some e ≡ none → ⊥
      some-none h = ground arith
  revoke_checked-marks w after id time (ok tt) at h =
      (ground arith, ap (λ q. q.0.capabilities) (sym h))

  service-RevokePromises : RevokePromises Credentials (service_of backend)
  unfolding find_capability_by_kid revoke_capability
  service-RevokePromises = record {
    find_same = λ w kid. refl;
    revoke_marks = λ w after kid time row row' found done found'.
        let r = find-Row w kid row found in
        let r' = find-Row after kid row' found' in
        let t = backend.stored_time time in
        let (parsed, after_rows) = revoke_checked-marks w after row.id time _ refl done in
        let at = find_kid-mark_revoked kid row.id t w.capabilities r.row r.there in
        let same = row_of (sym at ∙ ap (find_kid backend kid) (sym after_rows) ∙ r'.there) in
        let (u, marked_at) = coalesce-some r.row.revoked_at t in
        let hit : uuid_eq backend r.row.id row.id ≡ true =
          rw (← r.same_id) (parsed_eq_refl (backend.parse_uuid row.id) parsed) in
        (
          u,
          r'.same_end
              ∙ ap (λ y. y.revoked_at) (sym same)
              ∙ revoked_of r.row row.id t hit
              ∙ marked_at,
        );
  }
    where
      row_of : {a b : CapabilityRow} → some a ≡ some b → a ≡ b
      row_of e = ground arith

      revoked_of :
          (r : CapabilityRow) (id : Bytes) (t : ℕ)
          → uuid_eq backend r.id id ≡ true
          → (marked id t r).revoked_at ≡ coalesce r.revoked_at t
      revoked_of r id t hit = rw hit refl

  -- A capability that was revoked over PostgreSQL is refused at once: after a successful Revoke no requirement is granted
  -- to the plaintext any more, in the state that Revoke left.
  pub revoke-authenticate_stored :
      (sha256 : Bytes → Bytes) (is_uuid : Bytes → Bool) (w after : Credentials) (plaintext : Bytes)
      (required : List ℕ) (p : Principal)
      → revoke sha256 is_uuid (service_of backend) w plaintext ≡ (after, none)
      → ¬ ((authenticate sha256 is_uuid (service_of backend) after plaintext required).1 ≡ ok p)
  revoke-authenticate_stored sha256 is_uuid =
      revoke-authenticate sha256 is_uuid (service_of backend) service-RevokePromises
