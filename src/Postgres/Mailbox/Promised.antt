-- ===== src/Postgres/Mailbox/Promised.antt =====
-- The repository over its tables keeps what Create of internal/mailbox/service.go relies on.
use mathlib.Core.List.{head-eq_of_cons-eq, tail-eq_of_cons-eq}
use mathlib.Core.Option.{some-ne-none}
use mailwisp.Common.{
  ℕ, suc, ◌≡◌, refl, sym, ◌∙◌, ap, subst, false, ◌&&◌, Option, none, some, List, [], ◌∷◌, map,
  Bytes, bytes_eq_refl, Error, inbox_not_found, Result, ok, err, ok-injective, err-ne-ok, then_ok,
  bind_ok, Result-cases, guard, or_fail, ltb, length, ◌==◌, All, Bool-cases, inl, inr, arith,
}
use mailwisp.Encoding.Hex.{IsByte}
use mailwisp.Auth.Capability.{IssuedCapability}
use mailwisp.Mailbox.Create.{Calls, Inbox, NewInbox}
use mailwisp.Mailbox.Create.Promise.{Promises}
use mailwisp.Postgres.Delivery.{failing}
use mailwisp.Postgres.Mailbox.{
  InboxEntry, Mailboxes, MailboxBackend, has_address, has_content, inserted_inbox, insert_inbox,
  create_inbox, find_entry, remove_entry, with_orphan, drop_orphans, own_contents, without_inbox,
  delete_in, delete_inbox,
}

abbrev pub inboxes_of : Mailboxes → List Inbox
inboxes_of db = map (λ e. e.inbox) db.entries

abbrev pub error_of_deletion : {A : Type 0} → Result A → Option Error
error_of_deletion (ok a) = none
error_of_deletion (err e) = some e

module _ (backend : MailboxBackend) (issue : Mailboxes → Bytes → ℕ → ℕ → Result IssuedCapability)
    (now : Mailboxes → ℕ) (draw : ℕ → ℕ → Result Bytes) where
  -- What the service is given: the repository over its tables. The issuer does not write these tables.
  abbrev pub mailbox_calls : Calls Mailboxes
  mailbox_calls = record {
    create_inbox = create_inbox backend;
    delete_inbox =
        λ db id. let (db', result) = delete_inbox backend db id in (db', error_of_deletion result);
    issue = λ db id scopes expires_at. (db, issue db id scopes expires_at);
    now = now;
    random = λ db n. (record db { tick = suc db.tick }, draw db.tick n);
  }

  -- How an INSERT ends
  Inserts : Mailboxes → NewInbox → Mailboxes × Result Inbox → Type 0
  Inserts db n (db', err e) = inboxes_of db' ≡ inboxes_of db
  Inserts db n (db', ok i) =
      (inboxes_of db' ≡ i ∷ inboxes_of db) × (i ≡ inserted_inbox backend db n)

  insert_inbox-Inserts :
      (fails : Option Error) (db : Mailboxes) (n : NewInbox)
      → Inserts db n (insert_inbox backend fails db n)
  unfolding insert_inbox Inserts
  insert_inbox-Inserts (some e) db n = refl
  insert_inbox-Inserts none db n = elim (Bool-cases (has_address n.address db.entries)) [
    | inl taken ↦ rw taken refl
    | inr free ↦ rw free (refl, refl)
  ]

  create_inbox-Inserts :
      (db : Mailboxes) (n : NewInbox) (p : Mailboxes × Result Inbox)
      → create_inbox backend db n ≡ p
      → Inserts db n p
  unfolding create_inbox
  create_inbox-Inserts db n p at =
      subst (Inserts db n) at (insert_inbox-Inserts (backend.insert_fails db.tick) db n)

  with_orphan-ok :
      (ref : Bytes × ℕ) (r : Result (Mailboxes × List (Bytes × ℕ)))
      (p : Mailboxes × List (Bytes × ℕ))
      → with_orphan backend ref r ≡ ok p
      → (q : Mailboxes × List (Bytes × ℕ)) × (r ≡ ok q) × (p.0 ≡ q.0)
  with_orphan-ok ref (err e) p h = absurd (err-ne-ok h)
  with_orphan-ok ref (ok q) p h = (q, refl, sym (ap (λ x. x.0) (ok-injective h)))

  drop_orphans-entries :
      (tick : ℕ) (refs : List (Bytes × ℕ)) (db : Mailboxes) (p : Mailboxes × List (Bytes × ℕ))
      → drop_orphans backend tick refs db ≡ ok p
      → p.0.entries ≡ db.entries
  unfolding drop_orphans
  drop_orphans-entries tick [] db p h = sym (ap (λ x. x.0.entries) (ok-injective h))
  drop_orphans-entries tick (ref ∷ refs) db p h =
      let (_, h₁) = then_ok (failing (backend.orphan_fails tick ref.0)) _ h in
      elim (Bool-cases (has_content ref.0 db.messages)) [
        | inl kept ↦ drop_orphans-entries tick refs db p (rw kept at h₁)
        | inr gone ↦
            let (_, h₂) = then_ok (failing (backend.enqueue_fails tick ref.0)) _ (rw gone at h₁) in
            let (q, at, same) = with_orphan-ok ref _ p h₂ in
            ap (λ x. x.entries) same ∙ drop_orphans-entries tick refs _ q at
      ]

  or_fail-some : {A : Type 0} (o : Option A) (e : Error) (a : A) → or_fail o e ≡ ok a → o ≡ some a
  or_fail-some none e a h = absurd (err-ne-ok h)
  or_fail-some (some b) e a h = ap some (ok-injective h)

  -- The row in front goes.
  remove_entry-first :
      (entries : List InboxEntry) (i : Inbox) (rest : List Inbox) (wanted : Bytes)
      → map (λ e. e.inbox) entries ≡ i ∷ rest
      → backend.parse_uuid i.id ≡ some wanted
      → map (λ e. e.inbox) (remove_entry backend wanted entries) ≡ rest
  unfolding remove_entry
  remove_entry-first [] i rest wanted h parsed = absurd (ground arith)
  remove_entry-first (e ∷ es) i rest wanted h parsed =
      let parses : backend.parse_uuid e.inbox.id ≡ some wanted =
        ap (λ x. backend.parse_uuid x.id) (head-eq_of_cons-eq h) ∙ parsed in
      rw (parses, bytes_eq_refl wanted) (tail-eq_of_cons-eq h)

  delete_in-first :
      (db : Mailboxes) (i : Inbox) (rest : List Inbox) (p : Mailboxes × List (Bytes × ℕ))
      → inboxes_of db ≡ i ∷ rest
      → delete_in backend db i.id ≡ ok p
      → inboxes_of p.0 ≡ rest
  unfolding delete_in
  delete_in-first db i rest p first h =
      let (_, h₁) = then_ok (failing (backend.begin_fails db.tick)) _ h in
      let (_, h₂) = then_ok (failing (backend.lock_fails db.tick)) _ h₁ in
      let (wanted, parsed, h₃) = bind_ok (or_fail (backend.parse_uuid i.id) _) _ _ h₂ in
      let (entry, found, h₄) =
        bind_ok (or_fail (find_entry backend wanted db.entries) inbox_not_found) _ _ h₃ in
      let (_, h₅) =
        then_ok
          (guard (entry.active && ltb (backend.clock db.tick) entry.inbox.expires_at)
            inbox_not_found)
          _ h₄ in
      let (_, h₆) = then_ok (failing (backend.contents_fail db.tick)) _ h₅ in
      let (_, h₇) = then_ok (failing (backend.delete_fails db.tick)) _ h₆ in
      let (done, dropped, h₈) =
        bind_ok
          (drop_orphans backend db.tick (own_contents backend wanted db)
            (without_inbox backend wanted db))
          _ _ h₇ in
      let (_, h₉) = then_ok (failing (backend.commit_fails db.tick)) _ h₈ in
      ap (λ x. inboxes_of x.0) (sym (ok-injective h₉))
      ∙ ap (map (λ e. e.inbox)) (
          drop_orphans-entries db.tick (own_contents backend wanted db)
            (without_inbox backend wanted db) done dropped)
      ∙ remove_entry-first db.entries i rest wanted first (or_fail-some _ _ _ parsed)

  delete_inbox-first :
      (db db' : Mailboxes) (i : Inbox) (rest : List Inbox)
      → inboxes_of db ≡ i ∷ rest
      → mailbox_calls.delete_inbox db i.id ≡ (db', none)
      → inboxes_of db' ≡ rest
  unfolding delete_inbox
  delete_inbox-first db db' i rest first h = elim (Result-cases (delete_in backend db i.id)) [
    | inl (p, at) ↦
        ap (λ x. inboxes_of x.0) (sym (rw at at h)) ∙ delete_in-first db i rest p first at
    | inr (e, at) ↦ absurd (some-ne-none e (ap (λ x. x.1) (rw at at h)))
  ]

  -- The repository over its tables keeps what Create relies on, if a new id is not empty and the source of random bytes
  -- gives as many bytes as asked for.
  pub mailbox-Promises :
      ((tick : ℕ) → (length (backend.new_id tick) == 0) ≡ false)
      → ((tick n : ℕ) (s : Bytes) → draw tick n ≡ ok s → (length s ≡ n) × All IsByte s)
      → Promises mailbox_calls inboxes_of backend.stored_time
  unfolding Inserts
  mailbox-Promises named drawn = record {
    creates = λ w w' n i h.
        let (more, is) = create_inbox-Inserts w n (w', ok i) h in
        (more, ap (λ x. x.address) is, ap (λ x. x.expires_at) is);
    refuses = λ w w' n e h. create_inbox-Inserts w n (w', err e) h;
    named = λ w w' n i h.
        let (more, is) = create_inbox-Inserts w n (w', ok i) h in
        ap (λ x. length x.id == 0) is ∙ named w.tick;
    deletes = λ w w' i rest first h. delete_inbox-first w w' i rest first h;
    issues = λ w id scopes e. refl;
    draws = λ w n. refl;
    drawn = λ w w' n s h. drawn w.tick n s (ap (λ p. p.1) h);
  }
