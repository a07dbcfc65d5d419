-- ===== src/Message/Receiver/Durable.antt =====
-- What a receipt means, and what Receive leaves behind on each path.
use mailwisp.Common.{◌≡◌, refl, Bool, Option, none, some, List, Bytes, Result, ok, err, arith}
use mailwisp.Lmtp.DataReader.{DataReader}
use mailwisp.Message.Delivery.{ContentRef, Delivery, StoredMessage, validate, validate_envelope}
use mailwisp.Message.Receiver.{
  Stores, ReceiveRequest, Receipt, delivery_of, after_commit, commit_valid, after_put, receive_raw,
  from_raw, receive,
}

module _ {W : Type 0} (is_uuid : Bytes → Bool) (stores : Stores W) where
  -- A receipt is backed: the message was read into the content store, the content was then valid and
  -- committed with the request's sender and recipients, and only then the lease was given up.
  pub record Backed (w : W) (request : ReceiveRequest) (w' : W) (receipt : Receipt) : Type 0 where
    pub reader : DataReader
    pub raw : request.raw ≡ some reader
    pub addressed : validate_envelope is_uuid request.envelope_sender request.recipients ≡ ok tt
    pub put : (stores.put_leased w reader).2 ≡ ok receipt.content
    pub valid :
        validate is_uuid (delivery_of is_uuid stores request receipt.content (stores.now w)) ≡ ok tt
    pub committed :
        (stores.commit_delivery
          (stores.put_leased w reader).0
          (delivery_of is_uuid stores request receipt.content (stores.now w))).1
        ≡ ok receipt.messages
    pub state :
        w'
        ≡ stores.release
            (stores.commit_delivery
              (stores.put_leased w reader).0
              (delivery_of is_uuid stores request receipt.content (stores.now w))).0

  after_commit-ok :
      (content : ContentRef) (p : W × Result (List StoredMessage)) (receipt : Receipt)
      → (after_commit is_uuid stores content p).1 ≡ ok receipt
      → (content ≡ receipt.content)
        × (p.1 ≡ ok receipt.messages)
        × ((after_commit is_uuid stores content p).0 ≡ stores.release p.0)
  unfolding after_commit
  after_commit-ok content (w, err e) receipt h = cc
  after_commit-ok content (w, ok messages) receipt h = ground arith

  commit_valid-ok :
      (v : Result (Unit {0})) (w : W) (d : Delivery) (receipt : Receipt)
      → (commit_valid is_uuid stores v w d).1 ≡ ok receipt
      → (v ≡ ok tt)
        × (d.content ≡ receipt.content)
        × ((stores.commit_delivery w d).1 ≡ ok receipt.messages)
        × ((commit_valid is_uuid stores v w d).0 ≡ stores.release (stores.commit_delivery w d).0)
  unfolding commit_valid
  commit_valid-ok (err e) w d receipt h = cc
  commit_valid-ok (ok tt) w d receipt h =
      let (same, done, state) = after_commit-ok d.content (stores.commit_delivery w d) receipt h in
      (refl, same, done, state)

  after_put-Backed :
      (w : W) (request : ReceiveRequest) (r : DataReader) (p : W × DataReader × Result ContentRef)
      (receipt : Receipt)
      → request.raw ≡ some r
      → validate_envelope is_uuid request.envelope_sender request.recipients ≡ ok tt
      → stores.put_leased w r ≡ p
      → (after_put is_uuid stores request (stores.now w) p).2 ≡ ok receipt
      → Backed w request (after_put is_uuid stores request (stores.now w) p).0 receipt
  unfolding after_put
  after_put-Backed w request r (w', r', err e) receipt raw env at h = cc
  after_put-Backed w request r (w', r', ok content) receipt raw env at h =
      let d = delivery_of is_uuid stores request content (stores.now w) in
      let (valid, same, done, state) = commit_valid-ok (validate is_uuid d) w' d receipt h in
      record {
        reader = r;
        raw = raw;
        addressed = env;
        put = rw (at, same) refl;
        valid = rw (← same) valid;
        committed = rw (at, ← same) done;
        state = rw (at, ← same) state;
      }

  receive_raw-Backed :
      (w : W) (request : ReceiveRequest) (v : Result (Unit {0})) (r : DataReader)
      (receipt : Receipt)
      → request.raw ≡ some r
      → validate_envelope is_uuid request.envelope_sender request.recipients ≡ v
      → (receive_raw is_uuid stores request v r w).2 ≡ ok receipt
      → Backed w request (receive_raw is_uuid stores request v r w).0 receipt
  unfolding receive_raw
  receive_raw-Backed w request (err e) r receipt raw env h = cc
  receive_raw-Backed w request (ok tt) r receipt raw env h =
      after_put-Backed w request r (stores.put_leased w r) receipt raw env refl h

  from_raw-Backed :
      (w : W) (request : ReceiveRequest) (o : Option DataReader) (receipt : Receipt)
      → request.raw ≡ o
      → (from_raw is_uuid stores request o w).2 ≡ ok receipt
      → Backed w request (from_raw is_uuid stores request o w).0 receipt
  unfolding from_raw
  from_raw-Backed w request none receipt raw h = cc
  from_raw-Backed w request (some r) receipt raw h =
      receive_raw-Backed w request _ r receipt raw refl h

  -- Receive reports success only for a message that is stored and committed: the raw bytes were put into
  -- the content store, the delivery with the request's sender and recipients and the content that
  -- was put passed Validate and was committed, and the lease was given up last.
  pub receive-Backed :
      (w : W) (request : ReceiveRequest) (receipt : Receipt)
      → (receive is_uuid stores w request).2 ≡ ok receipt
      → Backed w request (receive is_uuid stores w request).0 receipt
  unfolding receive
  receive-Backed w request receipt h = from_raw-Backed w request request.raw receipt refl h
