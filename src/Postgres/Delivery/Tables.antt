-- ===== src/Postgres/Delivery/Tables.antt =====
-- What the INSERTs of CommitDelivery do to the tables.
use mailwisp.Common.{
  ℕ, ◌+◌, ◌≡◌, refl, ◌∙◌, ap, subst, inl, inr, true, List, [], ◌∷◌, ◌++◌, Bytes, bytes_eq,
  bytes_eq_refl, Error, Result, ok, err, Result-cases, All, All-append, if◌then◌else◌, Bool-cases,
  arith,
}
use mailwisp.Message.Delivery.{ContentRef, Delivery, StoredMessage}
use mailwisp.Postgres.Delivery.{
  MessageRow, Database, Engine, has_key, count_messages, count_joined, canonical, natural,
  insert_content, after_insert, insert_messages,
}
use mailwisp.Postgres.Delivery.Recipients.{occurrences, Canonical}

-- Every message has its content (the foreign key).
abbrev pub Linked : List (Bytes × ℕ) → List MessageRow → Type 0
Linked contents = All (λ m. has_key m.content_key contents ≡ true)

pub count_joined-count_messages :
    (id : Bytes) (contents : List (Bytes × ℕ)) (ms : List MessageRow)
    → Linked contents ms
    → count_joined id contents ms ≡ count_messages id ms
count_joined-count_messages id contents [] h = refl
count_joined-count_messages id contents (m ∷ ms) h =
    rw (h.0) (ground (arith, count_joined-count_messages id contents ms h.1))

pub count_messages-append :
    (id : Bytes) (ms ms' : List MessageRow)
    → count_messages id (ms ++ ms') ≡ count_messages id ms + count_messages id ms'
count_messages-append id [] ms' = omega arith
count_messages-append id (m ∷ ms) ms' = omega (arith, count_messages-append id ms ms')

pub has_key-append :
    (k : Bytes) (cs cs' : List (Bytes × ℕ)) → has_key k cs ≡ true → has_key k (cs ++ cs') ≡ true
has_key-append k [] cs' h = absurd (ground arith)
has_key-append k (c ∷ cs) cs' h = ground (arith, has_key-append k cs cs')

-- The tables after the INSERTs: a message more for each recipient, and the contents as they were.
pub record Grown (id : Bytes) (rs : List Bytes) (db db' : Database) : Type 0 where
  pub same_contents : db'.contents ≡ db.contents
  pub counted : count_messages id db'.messages ≡ count_messages id db.messages + occurrences id rs
  pub linked : Linked db.contents db'.messages

-- The row of a message.
abbrev pub row_of : Engine → Delivery → Bytes → Bytes → MessageRow
row_of engine d r id = record {
  id = id;
  inbox_id = canonical (engine.parse_uuid r) r;
  content_key = d.content.key;
  envelope_sender = d.envelope_sender;
  received_at = d.received_at;
}

abbrev pub with_row : Database → MessageRow → Database
with_row db row = record db { messages = db.messages ++ row ∷ [] }

-- The first INSERT, and the rest of them.
pub insert_first :
    (engine : Engine) (d : Delivery) (r : Bytes) (rs : List Bytes) (db db' : Database)
    (stored : List StoredMessage)
    → insert_messages engine d (r ∷ rs) db ≡ ok (db', stored)
    → (id : Bytes) × (rest : List StoredMessage) × (insert_messages engine d rs
          (with_row db (row_of engine d r id))
        ≡ ok (db', rest))
unfolding insert_messages
insert_first engine d r rs db db' stored e =
    elim (Result-cases (after_insert (engine.insert_message db.messages r))) [
      | inr (why, at) ↦ absurd (err-ok (rw at at e))
      | inl (id, at) ↦
          elim (Result-cases (insert_messages engine d rs (with_row db (row_of engine d r id)))) [
            | inr (why, next) ↦ absurd (err-ok (rw (at, next) at e))
            | inl ((db₂, rest), next) ↦
                (id, rest, next ∙ ap (λ x. ok (x, rest)) (first_of (rw (at, next) at e)))
          ]
    ]
  where
    err-ok : {why : Error} {p : Database × List StoredMessage} → err why ≡ ok p → ⊥
    err-ok h = ground arith

    first_of :
        {a b : Database} {s t : List StoredMessage}
        → ◌≡◌ {A = Result (Database × List StoredMessage)} (ok (a, s)) (ok (b, t))
        → a ≡ b
    first_of h = ground arith

pub insert_messages-Grown :
    (engine : Engine) (d : Delivery) (id : Bytes) (rs : List Bytes) (db db' : Database)
    (stored : List StoredMessage)
    → Canonical engine rs
    → Linked db.contents db.messages
    → has_key d.content.key db.contents ≡ true
    → insert_messages engine d rs db ≡ ok (db', stored)
    → Grown id rs db db'
unfolding insert_messages
insert_messages-Grown engine d id [] db db' stored h linked key e =
    let same : db ≡ db' = ground arith in
    subst (Grown id [] db) same
      (record { same_contents = refl; counted = omega arith; linked = linked })
insert_messages-Grown engine d id (r ∷ rs) db db' stored h linked key e =
    let (mid, rest, next) = insert_first engine d r rs db db' stored e in
    let row = row_of engine d r mid in
    let grown =
      insert_messages-Grown engine d id rs (with_row db row) db' rest h.1
        (All-append (λ m. has_key m.content_key db.contents ≡ true) db.messages (row ∷ []) linked
          (key, tt))
        key next in
    let one : count_messages id (row ∷ []) ≡ (if bytes_eq r id then 1 else 0) + 0 = rw h.0 refl in
    record {
      same_contents = grown.same_contents;
      counted = omega (arith, grown.counted, count_messages-append id db.messages (row ∷ []), one);
      linked = grown.linked;
    }

pub Linked-append :
    (cs cs' : List (Bytes × ℕ)) (ms : List MessageRow) → Linked cs ms → Linked (cs ++ cs') ms
Linked-append cs cs' [] h = tt
Linked-append cs cs' (m ∷ ms) h =
    (has_key-append m.content_key cs cs' h.0, Linked-append cs cs' ms h.1)

pub has_key_last :
    (k : Bytes) (n : ℕ) (cs : List (Bytes × ℕ)) → has_key k (cs ++ (k, n) ∷ []) ≡ true
has_key_last k n [] = rw (bytes_eq_refl k) refl
has_key_last k n (c ∷ cs) = ground (arith, has_key_last k n cs)

-- The tables after the INSERT of a content.
pub record Held (key : Bytes) (db db' : Database) : Type 0 where
  pub same_messages : db'.messages ≡ db.messages
  pub there : has_key key db'.contents ≡ true
  pub still_linked : Linked db.contents db.messages → Linked db'.contents db'.messages

pub insert_content-Held :
    (engine : Engine) (db db' : Database) (content : ContentRef)
    → insert_content engine db content ≡ ok db'
    → Held content.key db db'
unfolding insert_content
insert_content-Held engine db db' content e = elim (Bool-cases (has_key content.key db.contents)) [
  | inl known ↦
      let same : db ≡ db' = ground arith in
      subst (Held content.key db) same
        (record { same_messages = refl; there = known; still_linked = λ h. h })
  | inr new ↦
      let same : record db {
        contents = db.contents ++ (content.key, natural content.size_bytes) ∷ [];
      }
          ≡ db' =
        ground arith in
      subst (Held content.key db) same (record {
        same_messages = refl;
        there = has_key_last content.key (natural content.size_bytes) db.contents;
        still_linked = Linked-append db.contents _ db.messages;
      })
]
