-- ===== src/Postgres/Delivery/Quota.antt =====
-- CommitDelivery keeps the message quota of every inbox.
use mailwisp.Common.{
  bind_ok, then_ok, ℕ, ◌+◌, ◌≤◌, ◌<◌, ◌≡◌, refl, ◌∙◌, ap, inl, inr, true, List, [], ◌∷◌, Bytes,
  bytes_eq, bytes_eq_iff, Result, ok, err, ltb, ltb→lt, if◌then◌else◌, Bool-cases, arith,
}
use mailwisp.Message.Delivery.{Delivery, StoredMessage, validate}
use mailwisp.Postgres.Delivery.{
  Database, DeliveryLimits, Engine, count_messages, count_joined, failing, natural, mem_id,
  check_quotas, lock_and_check, insert_content, insert_messages, is_uuid, transact, settle,
  commit_delivery,
}
use mailwisp.Postgres.Delivery.Recipients.{
  occurrences, Canonical, parse_recipients-Canonical, once_valid,
}
use mailwisp.Postgres.Delivery.Tables.{
  Linked, count_joined-count_messages, Grown, insert_messages-Grown, insert_content-Held,
}

first_below :
    (limits : DeliveryLimits) (db : Database) (size : ℕ) (ids : List Bytes) (r : Bytes)
    (rs : List Bytes)
    → check_quotas limits db size ids (r ∷ rs) ≡ ok tt
    → (ltb
          (if mem_id r ids then count_joined r db.contents db.messages else 0)
          limits.max_inbox_messages
        ≡ true)
      × (check_quotas limits db size ids rs ≡ ok tt)
unfolding check_quotas
first_below limits db size ids r rs h = ground arith

-- What the quota check lets pass: no recipient has its messages full.
check_quotas-below :
    (limits : DeliveryLimits) (db : Database) (size : ℕ) (id : Bytes) (ids rs : List Bytes)
    → check_quotas limits db size ids rs ≡ ok tt
    → mem_id id ids ≡ true
    → 1 ≤ occurrences id rs
    → count_joined id db.contents db.messages < limits.max_inbox_messages
unfolding check_quotas
check_quotas-below limits db size id ids [] h there some_ = absurd (omega arith)
check_quotas-below limits db size id ids (r ∷ rs) h there some_ =
    let (below, rest) = first_below limits db size ids r rs h in
    elim (Bool-cases (bytes_eq r id)) [
      | inl same ↦ let at = (bytes_eq_iff r id).0 same in ltb→lt _ _ (rw (at, there) at below)
      | inr other ↦
          let fewer : 1 ≤ 0 + occurrences id rs = rw other at some_ in
          check_quotas-below limits db size id ids rs rest there (omega arith)
    ]

occurrences-mem_id : (id : Bytes) (rs : List Bytes) → 1 ≤ occurrences id rs → mem_id id rs ≡ true
unfolding mem_id
occurrences-mem_id id [] h = absurd (omega arith)
occurrences-mem_id id (r ∷ rs) h =
    ground (arith, occurrences-mem_id id rs, bytes_eq_iff r id, bytes_eq_iff id r)

lock_and_check-below :
    (limits : DeliveryLimits) (engine : Engine) (db : Database) (d : Delivery) (id : Bytes)
    → limits.enforce_limits ≡ true
    → Canonical engine d.recipients
    → Linked db.contents db.messages
    → lock_and_check limits engine db d ≡ ok tt
    → 1 ≤ occurrences id d.recipients
    → count_messages id db.messages < limits.max_inbox_messages
unfolding lock_and_check
lock_and_check-below limits engine db d id on canon linked h some_ =
    let parsed = rw (parse_recipients-Canonical engine d.recipients canon, on) at h in
    let checked : check_quotas limits db (natural d.content.size_bytes) d.recipients d.recipients
        ≡ ok tt =
      let (_, behind_query) = then_ok (failing engine.query_fails) _ parsed in
      let (_, behind_lock) = then_ok _ _ behind_query in
      let (_, behind_quotas) = then_ok (failing engine.quotas_fail) _ behind_lock in
      behind_quotas in
    rw (← count_joined-count_messages id db.contents db.messages linked) (
      check_quotas-below limits db (natural d.content.size_bytes) id d.recipients d.recipients
        checked (occurrences-mem_id id d.recipients some_) some_)

-- The steps of a transaction that succeeded.
pub record Steps (limits : DeliveryLimits) (engine : Engine) (db : Database) (d : Delivery)
    (db' : Database) : Type 0 where
  pub valid : validate (is_uuid engine) d ≡ ok tt
  pub checked : lock_and_check limits engine db d ≡ ok tt
  pub between : Database
  pub content_there : insert_content engine db d.content ≡ ok between
  pub rows : List StoredMessage
  pub grown_to : insert_messages engine d d.recipients between ≡ ok (db', rows)

pub transact-Steps :
    (limits : DeliveryLimits) (engine : Engine) (db : Database) (d : Delivery) (db' : Database)
    (stored : List StoredMessage)
    → transact limits engine db d ≡ ok (db', stored)
    → Steps limits engine db d db'
unfolding transact
transact-Steps limits engine db d db' stored h =
    let (valid, h₁) = then_ok (validate (is_uuid engine) d) _ h in
    let (_, h₂) = then_ok (failing engine.begin_fails) _ h₁ in
    let (checked, h₃) = then_ok (lock_and_check limits engine db d) _ h₂ in
    let (between, content_there, h₄) = bind_ok (insert_content engine db d.content) _ _ h₃ in
    let (p, grown, h₅) = bind_ok (insert_messages engine d d.recipients between) _ _ h₄ in
    let (_, h₆) = then_ok (failing engine.commit_fails) (ok (p.0, p.1)) h₅ in
    record {
      valid = valid;
      checked = checked;
      between = between;
      content_there = content_there;
      rows = p.1;
      grown_to = grown ∙ ap (λ x. ok (x, p.1)) (first_of h₆);
    }
  where
    first_of :
        {a b : Database} {s t : List StoredMessage}
        → ◌≡◌ {A = Result (Database × List StoredMessage)} (ok (a, s)) (ok (b, t))
        → a ≡ b
    first_of e = ground arith

-- Every inbox is within its number of messages, and every message has its content.
pub record WithinQuota (limits : DeliveryLimits) (db : Database) : Type 0 where
  pub capped : (id : Bytes) → count_messages id db.messages ≤ limits.max_inbox_messages
  pub linked : Linked db.contents db.messages

module _ (limits : DeliveryLimits) (engine : Engine) (db : Database) (d : Delivery)
    (on : limits.enforce_limits ≡ true) (canon : Canonical engine d.recipients)
    (inv : WithinQuota limits db) where
  Steps-Grown :
      (db' : Database) (st : Steps limits engine db d db') (id : Bytes)
      → Grown id d.recipients st.between db'
  Steps-Grown db' st id =
      let held = insert_content-Held engine db st.between d.content st.content_there in
      insert_messages-Grown engine d id d.recipients st.between db' st.rows canon
        (held.still_linked inv.linked) held.there st.grown_to

  Steps-capped :
      (db' : Database) (st : Steps limits engine db d db') (id : Bytes)
      → count_messages id db'.messages ≤ limits.max_inbox_messages
  Steps-capped db' st id =
      let held = insert_content-Held engine db st.between d.content st.content_there in
      let grown = Steps-Grown db' st id in
      let counted : count_messages id db'.messages
          ≡ count_messages id db.messages + occurrences id d.recipients =
        grown.counted
        ∙ ap (λ ms. count_messages id ms + occurrences id d.recipients) held.same_messages in
      let one = once_valid engine d id st.valid in
      elim (Bool-cases (ltb 0 (occurrences id d.recipients))) [
        | inl some_ ↦ omega (
          arith,
          counted,
          one,
          lock_and_check-below limits engine db d id on canon inv.linked st.checked
              (ltb→lt _ _ some_),
        )
        | inr none_ ↦
            let zero : occurrences id d.recipients ≡ 0 = ground arith in
            omega (arith, counted, zero, inv.capped id)
      ]

  settle-WithinQuota :
      (p : Result (Database × List StoredMessage))
      → transact limits engine db d ≡ p
      → WithinQuota limits (settle db p).0
  unfolding settle
  settle-WithinQuota (err e) h = inv
  settle-WithinQuota (ok (db', stored)) h =
      let st = transact-Steps limits engine db d db' stored h in
      record {
        capped = Steps-capped db' st;
        linked = rw ((Steps-Grown db' st []).same_contents) ((Steps-Grown db' st []).linked);
      }

  -- CommitDelivery keeps the message quota of every inbox, whether it succeeds or fails: where the limits
  -- are enforced and the recipients are canonical UUIDs, no inbox has more than MaxInboxMessages
  -- messages after it, and every message has its content, if that was so before.
  pub commit_delivery-WithinQuota : WithinQuota limits (commit_delivery limits engine db d).0
  unfolding commit_delivery
  commit_delivery-WithinQuota = settle-WithinQuota (transact limits engine db d) refl
