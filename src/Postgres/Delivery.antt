-- ===== src/Postgres/Delivery.antt =====
-- internal/postgres/delivery_repository.go. The tables are lists, a query is a function of them, and what
-- PostgreSQL answers beyond that (failures, generated ids) is an `Engine`. A transaction works on a
-- copy of the tables: Commit keeps it, and every other way out leaves the tables as they were.
pub mod Recipients
pub mod Tables
pub mod Quota
use mailwisp.Common.{
  ℕ, zero, suc, ◌+◌, ◌≡◌, refl, Bool, true, false, not, ◌&&◌, ◌||◌, Option, none, some, List, [],
  ◌∷◌, ◌++◌, Bytes, bytes_eq, ℤ, pos, negsuc, Error, inbox_not_found, invalid_delivery,
  content_metadata_conflict, inbox_message_quota_exceeded, inbox_storage_quota_exceeded, Result, ok,
  err, ◌>>=◌, ◌>>◌, guard, length, ltb, leb, ◌==◌, if◌then◌else◌,
}
use mailwisp.Message.Delivery.{ContentRef, Delivery, StoredMessage, validate}

pub record InboxRow : Type 0 where
  pub id : Bytes
  pub address : Bytes
  pub active : Bool
  pub expires_at : ℕ

pub record MessageRow : Type 0 where
  pub id : Bytes
  pub inbox_id : Bytes
  pub content_key : Bytes
  pub envelope_sender : Bytes
  pub received_at : ℕ

pub record Database : Type 0 where
  pub inboxes : List InboxRow
  pub contents : List (Bytes × ℕ)
  pub messages : List MessageRow

pub record DeliveryLimits : Type 0 where
  pub enforce_limits : Bool
  pub max_inbox_messages : ℕ
  pub max_inbox_storage_bytes : ℕ

-- What an INSERT of a message comes to.
pub data Insert : Type 0 where
  inserted : Bytes → Insert
  foreign_key_violation : Insert
  insert_failed : Error → Insert

-- The answers of PostgreSQL that the tables do not determine: now(), the failure of each statement, and
-- the id or the failure of each new message.
pub record Engine : Type 0 where
  pub now : ℕ
  pub parse_uuid : Bytes → Option Bytes  -- the canonical text of a UUID
  pub begin_fails : Option Error
  pub query_fails : Option Error
  pub quotas_fail : Option Error
  pub content_fails : Option Error
  pub existing_fails : Option Error
  pub insert_message : List MessageRow → Bytes → Insert
  pub commit_fails : Option Error

-- `if err != nil { return err }` on the error of a statement
abbrev pub failing : Option Error → Result (Unit {0})
failing none = ok tt
failing (some e) = err e

abbrev pub has_key : Bytes → List (Bytes × ℕ) → Bool
has_key k [] = false
has_key k (c ∷ cs) = bytes_eq c.0 k || has_key k cs

-- The size of a content; COALESCE gives 0 where there is none.
abbrev pub size_of : Bytes → List (Bytes × ℕ) → ℕ
size_of k [] = 0
size_of k (c ∷ cs) = if bytes_eq c.0 k then c.1 else size_of k cs

-- The messages of an inbox, all of them (LEFT JOIN).
abbrev pub count_messages : Bytes → List MessageRow → ℕ
count_messages id [] = 0
count_messages id (m ∷ ms) = (if bytes_eq m.inbox_id id then 1 else 0) + count_messages id ms

-- The messages of an inbox that have a content (JOIN).
abbrev pub count_joined : Bytes → List (Bytes × ℕ) → List MessageRow → ℕ
count_joined id cs [] = 0
count_joined id cs (m ∷ ms) =
    (if bytes_eq m.inbox_id id && has_key m.content_key cs then 1 else 0) + count_joined id cs ms

abbrev pub storage_bytes : Bytes → List (Bytes × ℕ) → List MessageRow → ℕ
storage_bytes id cs [] = 0
storage_bytes id cs (m ∷ ms) =
    (if bytes_eq m.inbox_id id then size_of m.content_key cs else 0) + storage_bytes id cs ms

abbrev pub is_live : ℕ → InboxRow → Bool
is_live now inbox = inbox.active && ltb now inbox.expires_at

-- WHERE address = $1 AND status = 'active' AND expires_at > now()
unfoldable pub find_address : ℕ → Bytes → List InboxRow → Result Bytes
find_address now address [] = err inbox_not_found
find_address now address (i ∷ inboxes) =
    let rest = find_address now address inboxes in
    if bytes_eq i.address address && is_live now i then ok i.id else rest

-- Sizes in the database are not negative.
abbrev pub natural : ℤ → ℕ
natural (pos n) = n
natural (negsuc n) = 0

unfoldable pub check_declared : DeliveryLimits → Database → ℕ → Bytes → Result Bytes
check_declared limits db declared_size id = do
  guard (ltb (count_messages id db.messages) limits.max_inbox_messages) inbox_message_quota_exceeded
  let used = storage_bytes id db.contents db.messages
  guard
      (ltb used limits.max_inbox_storage_bytes
        && not (ltb limits.max_inbox_storage_bytes (used + declared_size)))
      inbox_storage_quota_exceeded
  ok id

-- ResolveInboxForDelivery; `max - used` of the source is compared as `used + size` with `max`.
unfoldable pub resolve_inbox_for_delivery :
    DeliveryLimits → Engine → Database → Bytes → ℤ → Result Bytes
unfolding find_address check_declared
resolve_inbox_for_delivery limits engine db address (negsuc n) = err invalid_delivery
resolve_inbox_for_delivery limits engine db address (pos declared_size) = do
  failing engine.query_fails
  id ← find_address engine.now address db.inboxes
  if limits.enforce_limits then check_declared limits db declared_size id else ok id

-- The canonical texts of the recipients
unfoldable pub parse_recipients : (Bytes → Option Bytes) → List Bytes → Result (List Bytes)
parse_recipients parse_uuid [] = ok []
parse_recipients parse_uuid (r ∷ rs) = parsed (parse_uuid r) (parse_recipients parse_uuid rs)
  where
    parsed : Option Bytes → Result (List Bytes) → Result (List Bytes)
    parsed none rest = err invalid_delivery
    parsed (some id) rest = rest >>= λ ids. ok (id ∷ ids)

unfoldable pub mem_id : Bytes → List Bytes → Bool
mem_id x [] = false
mem_id x (y ∷ ys) = bytes_eq x y || mem_id x ys

-- The number of rows that SELECT ... WHERE id = ANY($1) ... FOR UPDATE locks
unfoldable pub count_locked : ℕ → List Bytes → List InboxRow → ℕ
unfolding mem_id
count_locked now ids [] = 0
count_locked now ids (i ∷ inboxes) =
    (if mem_id i.id ids && is_live now i then 1 else 0) + count_locked now ids inboxes

-- The loop over the recipients: byInbox has the usage of the inboxes in `ids` alone, and a recipient
-- that is not one of them reads as unused.
unfoldable pub check_quotas :
    DeliveryLimits → Database → ℕ → List Bytes → List Bytes → Result (Unit {0})
unfolding mem_id
check_quotas limits db size ids [] = ok tt
check_quotas limits db size ids (r ∷ rs) = do
  guard
      (ltb (if mem_id r ids then count_joined r db.contents db.messages else 0)
        limits.max_inbox_messages)
      inbox_message_quota_exceeded
  guard
      (not (
        ltb limits.max_inbox_storage_bytes
          ((if mem_id r ids then storage_bytes r db.contents db.messages else 0) + size)))
      inbox_storage_quota_exceeded
  check_quotas limits db size ids rs

unfoldable pub lock_and_check : DeliveryLimits → Engine → Database → Delivery → Result (Unit {0})
unfolding parse_recipients count_locked check_quotas
lock_and_check limits engine db d = do
  ids ← parse_recipients engine.parse_uuid d.recipients
  failing engine.query_fails
  guard (count_locked engine.now ids db.inboxes == length d.recipients) inbox_not_found
  if limits.enforce_limits
      then (failing engine.quotas_fail
          >> check_quotas limits db (natural d.content.size_bytes) ids d.recipients)
      else ok tt

-- INSERT INTO mail_contents ... ON CONFLICT DO NOTHING, and the check of a content that is there.
unfoldable pub insert_content : Engine → Database → ContentRef → Result Database
insert_content engine db content = do
  failing engine.content_fails
  let known = has_key content.key db.contents
  let size = natural content.size_bytes
  if known
      then (failing engine.existing_fails
          >> (guard (size_of content.key db.contents == size) content_metadata_conflict >> ok db))
      else ok (record db { contents = db.contents ++ (content.key, size) ∷ [] })

-- mapDeliveryError
unfoldable pub after_insert : Insert → Result Bytes
after_insert (inserted id) = ok id
after_insert foreign_key_violation = err inbox_not_found
after_insert (insert_failed e) = err e

abbrev pub canonical : Option Bytes → Bytes → Bytes
canonical none r = r
canonical (some id) r = id

-- The loop of the INSERTs; the column is a UUID, so the canonical text is what is read back.
unfoldable pub insert_messages :
    Engine → Delivery → List Bytes → Database → Result (Database × List StoredMessage)
unfolding after_insert
insert_messages engine d [] db = ok (db, [])
insert_messages engine d (r ∷ rs) db = do
  id ← after_insert (engine.insert_message db.messages r)
  let row : MessageRow = record {
    id = id;
    inbox_id = canonical (engine.parse_uuid r) r;
    content_key = d.content.key;
    envelope_sender = d.envelope_sender;
    received_at = d.received_at;
  }
  (db', stored) ← insert_messages engine d rs (record db { messages = db.messages ++ row ∷ [] })
  ok (db', record { id = id; inbox_id = r } ∷ stored)

abbrev pub is_uuid : Engine → Bytes → Bool
is_uuid engine s = parses (engine.parse_uuid s)
  where
    parses : Option Bytes → Bool
    parses none = false
    parses (some id) = true

-- The transaction of CommitDelivery, on its copy of the tables
unfoldable pub transact :
    DeliveryLimits → Engine → Database → Delivery → Result (Database × List StoredMessage)
unfolding lock_and_check insert_content insert_messages validate
transact limits engine db d = do
  validate (is_uuid engine) d
  failing engine.begin_fails
  lock_and_check limits engine db d
  db₁ ← insert_content engine db d.content
  (db₂, stored) ← insert_messages engine d d.recipients db₁
  failing engine.commit_fails
  ok (db₂, stored)

unfoldable pub settle :
    Database → Result (Database × List StoredMessage) → Database × Result (List StoredMessage)
settle db (err e) = (db, err e)
settle db (ok (db', stored)) = (db', ok stored)

unfoldable pub commit_delivery :
    DeliveryLimits → Engine → Database → Delivery → Database × Result (List StoredMessage)
unfolding settle transact
commit_delivery limits engine db d = settle db (transact limits engine db d)
