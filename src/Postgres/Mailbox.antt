-- ===== src/Postgres/Mailbox.antt =====
-- CreateInbox and DeleteInbox of internal/postgres/mailbox_repository.go, over tables that are lists, as in
-- Postgres.Delivery. A row of inboxes keeps what CreateInbox returns of it. The statements that an operation runs
-- have their failures by the tick at which it begins. The rows of an inbox in inbox_capabilities, which go with it too,
-- and the order of the contents that DeleteInbox returns are left out.
pub mod Promised
use mailwisp.Common.{
  ℕ, suc, ◌≡◌, Bool, true, false, not, ◌&&◌, ◌||◌, Option, none, some, List, [], ◌∷◌, Bytes,
  bytes_eq, codes, Error, text, address_conflict, inbox_not_found, Result, ok, err, ◌>>=◌, ◌>>◌,
  guard, or_fail, ltb, if◌then◌else◌,
}
use mailwisp.Mailbox.Create.{Inbox, NewInbox}
use mailwisp.Postgres.Delivery.{MessageRow, failing}

pub record InboxEntry : Type 0 where
  pub inbox : Inbox
  pub active : Bool  -- status = 'active'

pub record Mailboxes : Type 0 where
  pub entries : List InboxEntry
  pub contents : List (Bytes × ℕ)
  pub messages : List MessageRow
  pub deletions : List (Bytes × ℕ)  -- content_deletion_queue, without its generations
  pub tick : ℕ

-- What the tables do not determine: now(), a time as a timestamptz stores it, uuid.Parse, the id of a new row, and the
-- failures of the statements; that of the INSERT is any but the conflict of addresses.
pub record MailboxBackend : Type 0 where
  pub clock : ℕ → ℕ
  pub stored_time : ℕ → ℕ
  pub parse_uuid : Bytes → Option Bytes
  pub new_id : ℕ → Bytes
  pub insert_fails : ℕ → Option Error
  pub begin_fails : ℕ → Option Error
  pub lock_fails : ℕ → Option Error
  pub contents_fail : ℕ → Option Error
  pub delete_fails : ℕ → Option Error
  pub orphan_fails : ℕ → Bytes → Option Error
  pub enqueue_fails : ℕ → Bytes → Option Error
  pub commit_fails : ℕ → Option Error

abbrev ticked : Mailboxes → Mailboxes
ticked db = record db { tick = suc db.tick }

abbrev has_address : Bytes → List InboxEntry → Bool
has_address address [] = false
has_address address (e ∷ es) = bytes_eq e.inbox.address address || has_address address es

abbrev is_uuid_of : Option Bytes → Bytes → Bool
is_uuid_of none wanted = false
is_uuid_of (some id) wanted = bytes_eq id wanted

abbrev has_content : Bytes → List MessageRow → Bool
has_content key [] = false
has_content key (m ∷ ms) = bytes_eq m.content_key key || has_content key ms

abbrev remove_content : Bytes → List (Bytes × ℕ) → List (Bytes × ℕ)
remove_content key [] = []
remove_content key (c ∷ cs) =
    if bytes_eq c.0 key then remove_content key cs else c ∷ remove_content key cs

module _ (backend : MailboxBackend) where
  abbrev pub inserted_inbox : Mailboxes → NewInbox → Inbox
  inserted_inbox db n = record {
    id = backend.new_id db.tick;
    address = n.address;
    expires_at = backend.stored_time n.expires_at;
    created_at = backend.stored_time n.created_at;
  }

  unfoldable pub insert_inbox : Option Error → Mailboxes → NewInbox → Mailboxes × Result Inbox
  insert_inbox (some e) db n = (ticked db, err e)
  insert_inbox none db n =
      if has_address n.address db.entries then (ticked db, err address_conflict) else (
        record (ticked db) {
          entries = record { inbox = inserted_inbox db n; active = true } ∷ db.entries;
        },
        ok (inserted_inbox db n),
      )

  -- CreateInbox
  unfoldable pub create_inbox : Mailboxes → NewInbox → Mailboxes × Result Inbox
  unfolding insert_inbox
  create_inbox db n = insert_inbox (backend.insert_fails db.tick) db n

  -- id = $1::uuid, which one row at most has
  abbrev pub is_wanted : Bytes → Bytes → Bool
  is_wanted wanted id = is_uuid_of (backend.parse_uuid id) wanted

  unfoldable pub find_entry : Bytes → List InboxEntry → Option InboxEntry
  find_entry wanted [] = none
  find_entry wanted (e ∷ es) = if is_wanted wanted e.inbox.id then some e else find_entry wanted es

  unfoldable pub remove_entry : Bytes → List InboxEntry → List InboxEntry
  remove_entry wanted [] = []
  remove_entry wanted (e ∷ es) =
      if is_wanted wanted e.inbox.id then es else e ∷ remove_entry wanted es

  -- The messages of the other inboxes, and the contents that the messages of this one have
  unfoldable pub other_messages : Bytes → List MessageRow → List MessageRow
  other_messages wanted [] = []
  other_messages wanted (m ∷ ms) =
      if is_wanted wanted m.inbox_id then other_messages wanted ms else m ∷ other_messages wanted ms

  unfoldable pub own_messages : Bytes → List MessageRow → List MessageRow
  own_messages wanted [] = []
  own_messages wanted (m ∷ ms) =
      if is_wanted wanted m.inbox_id then m ∷ own_messages wanted ms else own_messages wanted ms

  unfoldable pub contents_of : List MessageRow → List (Bytes × ℕ) → List (Bytes × ℕ)
  contents_of own [] = []
  contents_of own (c ∷ cs) =
      if has_content c.0 own then c ∷ contents_of own cs else contents_of own cs

  -- orphans = append(orphans, ref)
  abbrev pub with_orphan :
      Bytes × ℕ → Result (Mailboxes × List (Bytes × ℕ)) → Result (Mailboxes × List (Bytes × ℕ))
  with_orphan ref (err e) = err e
  with_orphan ref (ok (db, orphans)) = ok (db, ref ∷ orphans)

  -- The loop of DeleteInbox over the contents, with those that no message refers to any more
  unfoldable pub drop_orphans :
      ℕ → List (Bytes × ℕ) → Mailboxes → Result (Mailboxes × List (Bytes × ℕ))
  drop_orphans tick [] db = ok (db, [])
  drop_orphans tick (ref ∷ refs) db =
      let kept = drop_orphans tick refs db in
      let gone = record db {
        contents = remove_content ref.0 db.contents;
        deletions = ref ∷ remove_content ref.0 db.deletions;
      } in
      let dropped = drop_orphans tick refs gone in
      failing (backend.orphan_fails tick ref.0)
      >> (if has_content ref.0 db.messages
          then kept
          else failing (backend.enqueue_fails tick ref.0) >> with_orphan ref dropped)

  -- The contents of an inbox, and the tables without it: its messages go with it (ON DELETE CASCADE).
  abbrev pub own_contents : Bytes → Mailboxes → List (Bytes × ℕ)
  own_contents wanted db = contents_of (own_messages wanted db.messages) db.contents

  abbrev pub without_inbox : Bytes → Mailboxes → Mailboxes
  without_inbox wanted db = record db {
    entries = remove_entry wanted db.entries;
    messages = other_messages wanted db.messages;
  }

  -- The transaction of DeleteInbox
  unfoldable pub delete_in : Mailboxes → Bytes → Result (Mailboxes × List (Bytes × ℕ))
  unfolding find_entry remove_entry other_messages own_messages contents_of drop_orphans
  delete_in db id = do
    failing (backend.begin_fails db.tick)
    failing (backend.lock_fails db.tick)
    wanted ← or_fail (backend.parse_uuid id) (text (codes "invalid input syntax for type uuid"))
    entry ← or_fail (find_entry wanted db.entries) inbox_not_found
    guard (entry.active && ltb (backend.clock db.tick) entry.inbox.expires_at) inbox_not_found
    failing (backend.contents_fail db.tick)
    failing (backend.delete_fails db.tick)
    done ← drop_orphans db.tick (own_contents wanted db) (without_inbox wanted db)
    failing (backend.commit_fails db.tick)
    ok done

  abbrev pub settle_deletion :
      Mailboxes → Result (Mailboxes × List (Bytes × ℕ)) → Mailboxes × Result (List (Bytes × ℕ))
  settle_deletion db (err e) = (ticked db, err e)
  settle_deletion db (ok (db', orphans)) = (ticked db', ok orphans)

  -- DeleteInbox
  unfoldable pub delete_inbox : Mailboxes → Bytes → Mailboxes × Result (List (Bytes × ℕ))
  unfolding delete_in
  delete_inbox db id = settle_deletion db (delete_in db id)
