-- ===== src/App/Filing.antt =====
-- Every message that the database has is in the content store.
use mailwisp.Common.{
  ℕ, ◌≡◌, refl, sym, ap, subst, Bool, Option, none, some, List, [], ◌∷◌, All, All-append, Bytes,
  Result, ok, err, ok-injective,
}
use mailwisp.Lmtp.DataReader.{DataReader}
use mailwisp.Message.Delivery.{ContentRef, Delivery, StoredMessage, validate_envelope}
use mailwisp.Message.Receiver.{
  ReceiveRequest, after_commit, commit_valid, after_put, receive_raw, from_raw, receive,
}
use mailwisp.Postgres.Delivery.{
  DeliveryLimits, Engine, Database, MessageRow, insert_messages, transact, settle, commit_delivery,
}
use mailwisp.Postgres.Delivery.Tables.{row_of, with_row, insert_first, insert_content-Held}
use mailwisp.Postgres.Delivery.Quota.{transact-Steps}
use mailwisp.Contentstore.Store.{Store, Os, put}
use mailwisp.Contentstore.Store.Outcome.{put-Outcome}
use mailwisp.Contentstore.Store.References.{Present, Present-Extends}
use mailwisp.App.{System, r_lock, after_leased_put, put_leased, with_database, stores_of}

-- The keys of the messages
abbrev pub Keyed : (Bytes → Type 0) → List MessageRow → Type 0
Keyed P rows = All (λ m. P m.content_key) rows

insert_messages-Keyed :
    (P : Bytes → Type 0) (engine : Engine) (d : Delivery) (rs : List Bytes) (db db' : Database)
    (stored : List StoredMessage)
    → P d.content.key
    → Keyed P db.messages
    → insert_messages engine d rs db ≡ ok (db', stored)
    → Keyed P db'.messages
unfolding insert_messages
insert_messages-Keyed P engine d [] db db' stored key h e =
    subst (λ (x : Database). Keyed P x.messages) (ap (λ p. p.0) (ok-injective e)) h
insert_messages-Keyed P engine d (r ∷ rs) db db' stored key h e =
    let (id, rest, next) = insert_first engine d r rs db db' stored e in
    insert_messages-Keyed P engine d rs (with_row db (row_of engine d r id)) db' rest key
      (All-append (λ m. P m.content_key) db.messages (row_of engine d r id ∷ []) h (key, tt)) next

settle-Keyed :
    (P : Bytes → Type 0) (limits : DeliveryLimits) (engine : Engine) (db : Database) (d : Delivery)
    (p : Result (Database × List StoredMessage))
    → P d.content.key
    → Keyed P db.messages
    → transact limits engine db d ≡ p
    → Keyed P (settle db p).0.messages
unfolding settle
settle-Keyed P limits engine db d (err e) key h at = h
settle-Keyed P limits engine db d (ok (db', stored)) key h at =
    let steps = transact-Steps limits engine db d db' stored at in
    let held = insert_content-Held engine db steps.between d.content steps.content_there in
    insert_messages-Keyed P engine d d.recipients steps.between db' steps.rows key
      (subst (Keyed P) (sym held.same_messages) h) steps.grown_to

commit_delivery-Keyed :
    (P : Bytes → Type 0) (limits : DeliveryLimits) (engine : Engine) (db : Database) (d : Delivery)
    → P d.content.key
    → Keyed P db.messages
    → Keyed P (commit_delivery limits engine db d).0.messages
unfolding commit_delivery
commit_delivery-Keyed P limits engine db d key h = settle-Keyed P limits engine db d _ key h refl

Keyed-map :
    (P Q : Bytes → Type 0) (rows : List MessageRow)
    → ((key : Bytes) → P key → Q key)
    → Keyed P rows
    → Keyed Q rows
Keyed-map P Q [] f h = tt
Keyed-map P Q (r ∷ rows) f h = (f r.content_key h.0, Keyed-map P Q rows f h.1)

-- Every message of the database has its object in the store, and the digest of the object is that of the key.
abbrev pub Filed : (Bytes → Bytes) → System → Type 0
Filed sha256 w = Keyed (Present sha256 w.store.objects) w.database.messages

module _ (sha256 : Bytes → Bytes) (os : Os) (limits : DeliveryLimits) (engine : Engine)
    (is_uuid : Bytes → Bool) where
  after_commit-Filed :
      (w : System) (content : ContentRef) (p : Database × Result (List StoredMessage))
      → Keyed (Present sha256 w.store.objects) p.0.messages
      → Filed sha256
          (after_commit is_uuid (stores_of sha256 os limits engine) content (with_database w p)).0
  unfolding after_commit
  after_commit-Filed w content (db, err e) h = h
  after_commit-Filed w content (db, ok messages) h = h

  commit_valid-Filed :
      (v : Result (Unit {0})) (w : System) (d : Delivery)
      → Present sha256 w.store.objects d.content.key
      → Filed sha256 w
      → Filed sha256 (commit_valid is_uuid (stores_of sha256 os limits engine) v w d).0
  unfolding commit_valid
  commit_valid-Filed (err e) w d key h = h
  commit_valid-Filed (ok tt) w d key h =
      after_commit-Filed w d.content (commit_delivery limits engine w.database d)
        (commit_delivery-Keyed (Present sha256 w.store.objects) limits engine w.database d key h)

  after_put-Filed :
      (w : System) (request : ReceiveRequest) (received_at : ℕ)
      (p : Store × DataReader × Result ContentRef)
      → ((key : Bytes) → Present sha256 w.store.objects key → Present sha256 p.0.objects key)
      → ((ref : ContentRef) → p.2 ≡ ok ref → Present sha256 p.0.objects ref.key)
      → Filed sha256 w
      → Filed sha256
          (after_put is_uuid
            (stores_of sha256 os limits engine)
            request
            received_at
            (after_leased_put (r_lock w) p)).0
  unfolding after_put
  after_put-Filed w request received_at (s, r, err e) keeps stored h =
      Keyed-map _ _ w.database.messages keeps h
  after_put-Filed w request received_at (s, r, ok content) keeps stored h =
      commit_valid-Filed _ (record (r_lock w) { store = s }) _ (stored content refl)
        (Keyed-map _ _ w.database.messages keeps h)

  put-Filed :
      (w : System) (request : ReceiveRequest) (r : DataReader) (received_at : ℕ)
      → Filed sha256 w
      → Filed sha256
          (after_put is_uuid
            (stores_of sha256 os limits engine)
            request
            received_at
            (put_leased sha256 os w r)).0
  put-Filed w request r received_at h =
      let o = put-Outcome sha256 os w.store r in
      after_put-Filed w request received_at (put sha256 os w.store r)
        (Present-Extends sha256 w.store.objects _ o.extends)
        (λ ref done.
          let stored = o.stored ref done in
          record {
            path = stored.path;
            content = stored.content;
            placed = stored.placed;
            found = stored.present;
            named = stored.named;
          })
        h

  receive_raw-Filed :
      (w : System) (request : ReceiveRequest) (v : Result (Unit {0})) (r : DataReader)
      → Filed sha256 w
      → Filed sha256 (receive_raw is_uuid (stores_of sha256 os limits engine) request v r w).0
  unfolding receive_raw
  receive_raw-Filed w request (err e) r h = h
  receive_raw-Filed w request (ok tt) r h = put-Filed w request r engine.now h

  from_raw-Filed :
      (w : System) (request : ReceiveRequest) (raw : Option DataReader)
      → Filed sha256 w
      → Filed sha256 (from_raw is_uuid (stores_of sha256 os limits engine) request raw w).0
  unfolding from_raw
  from_raw-Filed w request none h = h
  from_raw-Filed w request (some r) h =
      receive_raw-Filed w request
        (validate_envelope is_uuid request.envelope_sender request.recipients) r h

  -- Receive over the content store and the delivery repository keeps this, whether it succeeds or fails, and whatever
  -- call of the operating system or of PostgreSQL fails: every message of the database has its object in the
  -- store, and the digest of the object is that of the key.
  pub receive-Filed :
      (w : System) (request : ReceiveRequest)
      → Filed sha256 w
      → Filed sha256 (receive is_uuid (stores_of sha256 os limits engine) w request).0
  unfolding receive
  receive-Filed w request h = from_raw-Filed w request request.raw h
