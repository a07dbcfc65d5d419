-- ===== src/Message/Receiver.antt =====
-- Receiver of internal/message/receiver.go over its ContentStore and DeliveryRepository.
pub mod Durable
pub mod Leases
use mailwisp.Common.{
  ℕ, Bool, Option, none, some, List, [], Bytes, Error, invalid_delivery, Result, ok, err,
}
use mailwisp.Lmtp.DataReader.{DataReader}
use mailwisp.Message.Delivery.{ContentRef, Delivery, StoredMessage, validate, validate_envelope}

-- The content store, the repository and the clock. `W` is the state behind them. PutLeased takes the
-- reader of the message and gives it back as it left it; `release` is the function that it returns.
pub record Stores (W : Type 0) : Type 0 where
  pub check_capacity : W → W × Option Error
  pub put_leased : W → DataReader → W × DataReader × Result ContentRef
  pub release : W → W
  pub commit_delivery : W → Delivery → W × Result (List StoredMessage)
  pub now : W → ℕ

pub record ReceiveRequest : Type 0 where
  pub envelope_sender : Bytes
  pub recipients : List Bytes
  pub raw : Option DataReader

pub record Receipt : Type 0 where
  pub content : ContentRef
  pub messages : List StoredMessage

module _ {W : Type 0} (is_uuid : Bytes → Bool) (stores : Stores W) where
  -- The delivery that Receive commits.
  abbrev pub delivery_of : ReceiveRequest → ContentRef → ℕ → Delivery
  delivery_of request content received_at = record {
    content = content;
    envelope_sender = request.envelope_sender;
    recipients = request.recipients;
    received_at = received_at;
  }

  -- Receive after CommitDelivery; `release` is deferred to here.
  unfoldable pub after_commit : ContentRef → W × Result (List StoredMessage) → W × Result Receipt
  after_commit content (w, err e) = (stores.release w, err e)
  after_commit content (w, ok messages) =
      (stores.release w, ok (record { content = content; messages = messages }))

  unfoldable pub commit_valid : Result (Unit {0}) → W → Delivery → W × Result Receipt
  unfolding after_commit
  commit_valid (err e) w d = (stores.release w, err e)
  commit_valid (ok _) w d = after_commit d.content (stores.commit_delivery w d)

  -- Receive after PutLeased.
  unfoldable pub after_put :
      ReceiveRequest
      → ℕ
      → W × DataReader × Result ContentRef
      → W × Option DataReader × Result Receipt
  unfolding commit_valid validate
  after_put request received_at (w, r, err e) = (w, some r, err e)
  after_put request received_at (w, r, ok content) =
      let d = delivery_of request content received_at in
      let (w', result) = commit_valid (validate is_uuid d) w d in (w', some r, result)

  unfoldable pub receive_raw :
      ReceiveRequest → Result (Unit {0}) → DataReader → W → W × Option DataReader × Result Receipt
  unfolding after_put
  receive_raw request (err e) r w = (w, some r, err e)
  receive_raw request (ok _) r w = after_put request (stores.now w) (stores.put_leased w r)

  unfoldable pub from_raw :
      ReceiveRequest → Option DataReader → W → W × Option DataReader × Result Receipt
  unfolding receive_raw validate_envelope
  from_raw request none w = (w, none, err invalid_delivery)
  from_raw request (some r) w =
      receive_raw request (validate_envelope is_uuid request.envelope_sender request.recipients) r w

  -- Receive: the state after it, the reader as it is left, and the receipt.
  unfoldable pub receive : W → ReceiveRequest → W × Option DataReader × Result Receipt
  unfolding from_raw
  receive w request = from_raw request request.raw w
