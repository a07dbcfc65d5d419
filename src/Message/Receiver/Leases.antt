-- ===== src/Message/Receiver/Leases.antt =====
-- The lease of the content store over a call of Receive.
use mailwisp.Common.{
  ℕ, ◌+◌, ◌≤◌, ◌≡◌, refl, ◌∙◌, Bool, Option, none, some, List, Bytes, Result, ok, err, arith,
}
use mailwisp.Lmtp.DataReader.{DataReader}
use mailwisp.Message.Delivery.{ContentRef, Delivery, StoredMessage, validate, validate_envelope}
use mailwisp.Message.Receiver.{
  Stores, ReceiveRequest, delivery_of, after_commit, commit_valid, after_put, receive_raw, from_raw,
  receive,
}

-- What PutLeased adds to the leases that are held: one, if it succeeds.
abbrev pub leased : Result ContentRef → ℕ
leased (ok content) = 1
leased (err e) = 0

-- How the stores count the leases that are held (the read locks of lifecycleMu).
pub record Counts (W : Type 0) (stores : Stores W) (held : W → ℕ) : Type 0 where
  pub put_leased_counts :
      (w : W) (r : DataReader)
      → held (stores.put_leased w r).0 ≡ held w + leased (stores.put_leased w r).2
  pub release_counts : (w : W) → 1 ≤ held w → held (stores.release w) + 1 ≡ held w
  pub commit_counts : (w : W) (d : Delivery) → held (stores.commit_delivery w d).0 ≡ held w

module _ {W : Type 0} (is_uuid : Bytes → Bool) (stores : Stores W) (held : W → ℕ)
    (counts : Counts W stores held) where
  after_commit-held :
      (content : ContentRef) (p : W × Result (List StoredMessage))
      → 1 ≤ held p.0
      → held (after_commit is_uuid stores content p).0 + 1 ≡ held p.0
  unfolding after_commit
  after_commit-held content (w, err e) h = counts.release_counts w h
  after_commit-held content (w, ok messages) h = counts.release_counts w h

  commit_valid-held :
      (v : Result (Unit {0})) (w : W) (d : Delivery)
      → 1 ≤ held w
      → held (commit_valid is_uuid stores v w d).0 + 1 ≡ held w
  unfolding commit_valid
  commit_valid-held (err e) w d h = counts.release_counts w h
  commit_valid-held (ok _) w d h =
      let same = counts.commit_counts w d in
      after_commit-held d.content (stores.commit_delivery w d) (omega arith) ∙ same

  after_put-held :
      (request : ReceiveRequest) (t n : ℕ) (p : W × DataReader × Result ContentRef)
      → held p.0 ≡ n + leased p.2
      → held (after_put is_uuid stores request t p).0 ≡ n
  unfolding after_put
  after_put-held request t n (w, r, err e) h = omega arith
  after_put-held request t n (w, r, ok content) h =
      let d = delivery_of is_uuid stores request content t in
      omega (arith, commit_valid-held (validate is_uuid d) w d (omega arith))

  receive_raw-held :
      (request : ReceiveRequest) (v : Result (Unit {0})) (r : DataReader) (w : W)
      → held (receive_raw is_uuid stores request v r w).0 ≡ held w
  unfolding receive_raw
  receive_raw-held request (err e) r w = refl
  receive_raw-held request (ok _) r w =
      after_put-held request (stores.now w) (held w) (stores.put_leased w r)
        (counts.put_leased_counts w r)

  from_raw-held :
      (request : ReceiveRequest) (o : Option DataReader) (w : W)
      → held (from_raw is_uuid stores request o w).0 ≡ held w
  unfolding from_raw
  from_raw-held request none w = refl
  from_raw-held request (some r) w =
      receive_raw-held request
        (validate_envelope is_uuid request.envelope_sender request.recipients) r w

  -- Receive holds no lease longer than its call, on every path, errors included: where a successful
  -- PutLeased takes one lease, a release gives one back and CommitDelivery leaves the count alone,
  -- as many leases are held after Receive as before.
  pub held-receive :
      (w : W) (request : ReceiveRequest) → held (receive is_uuid stores w request).0 ≡ held w
  unfolding receive
  held-receive w request = from_raw-held request request.raw w
