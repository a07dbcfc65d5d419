-- ===== src/Postgres/Capability/Lookup.antt =====
-- What is found after an INSERT into the credentials, and after an UPDATE of them.
use mailwisp.Common.{
  bind_ok, then_ok, ℕ, ◌+◌, ◌≡◌, refl, sym, ◌∙◌, ap, subst, inl, inr, Bool, true, Option, none,
  some, Option-cases, List, [], ◌∷◌, ◌++◌, Bytes, bytes_eq, bytes_eq_iff, bytes_eq_refl, text,
  codes, ok-injective, err-ne-ok, capability_subject_unavailable, ok, guard, length, ◌==◌,
  if◌then◌else◌, Bool-cases, arith,
}
use mailwisp.Auth.Token.{is_kid}
use mailwisp.Auth.Capability.{NewCapability, CapabilityRecord}
use mailwisp.Postgres.Delivery.{InboxRow}
use mailwisp.Postgres.Capability.{
  CapabilityRow, Credentials, Backend, parsed_eq, is_parsed, digest_size, scope_set_from_database,
  uuid_eq, find_inbox, find_kid, record_of, hydrate, validate_new_capability, next_tick, insert_row,
  new_row, can_create, after_create, create_in,
}

parsed_eq_iff : (a b : Option Bytes) → parsed_eq a b ≡ true → (a ≡ b) × (is_parsed a ≡ true)
parsed_eq_iff none b h = absurd (ground arith)
parsed_eq_iff (some a) none h = absurd (ground arith)
parsed_eq_iff (some a) (some b) h = (ap some ((bytes_eq_iff a b).0 h), refl)

pub parsed_eq_refl : (a : Option Bytes) → is_parsed a ≡ true → parsed_eq a a ≡ true
parsed_eq_refl none h = absurd (ground arith)
parsed_eq_refl (some a) h = bytes_eq_refl a

pub scope_set_from_database-eq : (m s : ℕ) → scope_set_from_database m ≡ ok s → s ≡ m
unfolding scope_set_from_database
scope_set_from_database-eq m s h = ground arith

module _ (backend : Backend) where
  pub find_kid_last :
      (kid : Bytes) (rows : List CapabilityRow) (r : CapabilityRow)
      → find_kid backend kid rows ≡ none
      → r.kid ≡ kid
      → find_kid backend kid (rows ++ r ∷ []) ≡ some r
  unfolding find_kid
  find_kid_last kid [] r h same = rw (same, bytes_eq_refl kid) refl
  find_kid_last kid (x ∷ rows) r h same = elim (Bool-cases (bytes_eq x.kid kid)) [
    | inl there ↦ absurd (ground arith)
    | inr other ↦ rw other (find_kid_last kid rows r (rw other at h) same)
  ]

  -- The inbox that an id finds is found by its own id.
  pub find_inbox_own :
      (id : Bytes) (inboxes : List InboxRow) (i : InboxRow)
      → find_inbox backend id inboxes ≡ some i
      → (uuid_eq backend i.id id ≡ true) × (find_inbox backend i.id inboxes ≡ some i)
  unfolding find_inbox
  find_inbox_own id [] i h = absurd (ground arith)
  find_inbox_own id (x ∷ inboxes) i h = elim (Bool-cases (uuid_eq backend x.id id)) [
    | inl here ↦
        let same : x ≡ i = ground arith in
        let at = subst (λ (y : InboxRow). uuid_eq backend y.id id ≡ true) same here in
        let parsed = (parsed_eq_iff (backend.parse_uuid i.id) (backend.parse_uuid id) at).1 in
        (
          at,
          subst
              (λ (y : InboxRow).
                (if uuid_eq backend y.id i.id then some y else find_inbox backend i.id inboxes)
                ≡ some i)
              (sym same) (rw (parsed_eq_refl (backend.parse_uuid i.id) parsed) refl),
        )
    | inr other ↦
        let (at, there) = find_inbox_own id inboxes i (rw other at h) in
        (
          at,
          rw ((parsed_eq_iff (backend.parse_uuid i.id) (backend.parse_uuid id) at).0, other) there,
        )
  ]

  -- A record that was read, and what was tested of its row.
  pub record Hydrated (r : CapabilityRow) (active : Bool) (end : Option ℕ)
      (found : CapabilityRecord) : Type 0 where
    pub digest_there : (length r.secret_digest == digest_size) ≡ true
    pub scopes_there : scope_set_from_database r.scope_mask ≡ ok r.scope_mask
    pub same_record : found ≡ record_of backend r active end

  pub hydrate-Hydrated :
      (r : CapabilityRow) (active : Bool) (end : Option ℕ) (found : CapabilityRecord)
      → hydrate backend r active end ≡ ok found
      → Hydrated r active end found
  unfolding hydrate
  hydrate-Hydrated r active end found h =
      let (digest_there, h₁) =
        then_ok
          (guard (length r.secret_digest == digest_size)
            (text (codes "persisted capability digest has invalid length")))
          _ h in
      let (scopes, at, h₂) = bind_ok (scope_set_from_database r.scope_mask) _ _ h₁ in
      let same = scope_set_from_database-eq r.scope_mask scopes at in
      record {
        digest_there = ground arith;
        scopes_there = at ∙ ap ok same;
        same_record =
            sym (ok-injective h₂)
            ∙ ap (λ s. record (record_of backend r active end) { scopes = s }) same;
      }

  -- A row that was read once is read with whatever is known of its inbox.
  pub hydrate_again :
      (r : CapabilityRow) (active active' : Bool) (end end' : Option ℕ) (found : CapabilityRecord)
      → Hydrated r active end found
      → hydrate backend r active' end' ≡ ok (record_of backend r active' end')
  unfolding hydrate
  hydrate_again r active active' end end' found h = rw (h.digest_there, h.scopes_there) refl

  -- What CreateCapability has done that succeeded.
  pub record Created (w w' : Credentials) (c : NewCapability) (row : CapabilityRecord)
      : Type 0 where
    pub valid_kid : is_kid c.kid ≡ true
    pub inbox : InboxRow
    pub inbox_there : find_inbox backend c.inbox_id w.inboxes ≡ some inbox
    pub allowed : can_create backend c inbox ≡ true
    pub fresh : find_kid backend c.kid w.capabilities ≡ none
    pub hydrated : Hydrated (new_row backend w c inbox) true none row
    pub state : w' ≡ record w {
      tick = w.tick + 1;
      capabilities = w.capabilities ++ new_row backend w c inbox ∷ [];
    }

  pub validate-kid :
      (c : NewCapability) → validate_new_capability backend c ≡ ok tt → is_kid c.kid ≡ true
  unfolding validate_new_capability
  validate-kid c h =
      let (_, h₁) =
        then_ok (guard (is_parsed (backend.parse_uuid c.inbox_id)) capability_subject_unavailable) _
          h in
      ground arith

  pub create_in-Created :
      (w w' : Credentials) (c : NewCapability) (row : CapabilityRecord) (i : Option InboxRow)
      → is_kid c.kid ≡ true
      → find_inbox backend c.inbox_id w.inboxes ≡ i
      → create_in backend (next_tick backend w) c i ≡ (w', ok row)
      → Created w w' c row
  unfolding create_in insert_row after_create
  create_in-Created w w' c row none valid at h = absurd (err-ne-ok (ap (λ q. q.1) h))
  create_in-Created w w' c row (some i) valid at h = elim (Bool-cases (can_create backend c i)) [
    | inr refused ↦ absurd (err-ne-ok (rw refused at (ap (λ q. q.1) h)))
    | inl allowed ↦ elim (Option-cases (find_kid backend c.kid w.capabilities)) [
      | inr (other, taken) ↦
          absurd (err-ne-ok (rw (allowed, insert_row, taken) at (ap (λ q. q.1) h)))
      | inl fresh ↦
          let done = rw (allowed, insert_row, fresh) at h in
          record {
            valid_kid = valid;
            inbox = i;
            inbox_there = at;
            allowed = allowed;
            fresh = fresh;
            hydrated = hydrate-Hydrated _ true none row (ap (λ q. q.1) done);
            state = sym (ap (λ q. q.0) done);
          }
    ]
  ]
