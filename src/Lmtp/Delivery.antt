-- ===== src/Lmtp/Delivery.antt =====
-- The LMTP server over the receiver of internal/message, as internal/app/app.go puts them together.
-- The wake-up of the parser worker behind a delivery (wakingReceiver) is left out.
use mathlib.Core.List.{append_cancel_left}
use mailwisp.Common.{
  ℕ, ◌≡◌, refl, sym, ◌∙◌, subst, Bool, Option, none, some, List, [], ◌∷◌, ◌++◌, All, Bytes, Error,
  Result, ok, err, arith,
}
use mailwisp.Lmtp.DataReader.{DataReader, new_data_reader}
use mailwisp.Lmtp.Session.State.{
  Options, Services, Session, Step, Reply, reply, classify_delivery_error,
}
use mailwisp.Lmtp.Session.Transaction.{inbox_ids, receive_data}
use mailwisp.Lmtp.Session.Data.{received}
use mailwisp.Lmtp.Session.Verdicts.{code_of, session_of, receive_data-Said}
use mailwisp.Message.Receiver.{Stores, ReceiveRequest, Receipt, receive}
use mailwisp.Message.Receiver.Durable.{Backed, receive-Backed}

abbrev pub error_of : Result Receipt → Option Error
error_of (ok receipt) = none
error_of (err e) = some e

abbrev reader_of : DataReader → Option DataReader → DataReader
reader_of r none = r
reader_of r (some r') = r'

module _ {W : Type 0} (is_uuid : Bytes → Bool) (stores : Stores W)
    (resolve : W → Bytes → ℕ → W × Result Bytes) (has_metrics : Bool) where
  -- The request that receiveData makes.
  abbrev pub request_of : Bytes → List Bytes → DataReader → ReceiveRequest
  request_of sender ids r = record { envelope_sender = sender; recipients = ids; raw = some r }

  unfoldable pub receive_data_by :
      W → Bytes → List Bytes → DataReader → W × DataReader × Option Error
  receive_data_by w sender ids r =
      let (w', r', result) = receive is_uuid stores w (request_of sender ids r) in
      (w', reader_of r r', error_of result)

  unfoldable pub services_of : Services W
  unfolding receive_data_by
  services_of = record {
    resolve = resolve;
    check_capacity = stores.check_capacity;
    receive = receive_data_by;
    has_metrics = has_metrics;
  }

  All-mem :
      (P : Reply → Type 0) (x : Reply) (before after : List Reply)
      → All P (before ++ x ∷ after)
      → P x
  All-mem P x [] after h = h.0
  All-mem P x (y ∷ before) after h = All-mem P x before after h.1

  receipt_of :
      (result : Result Receipt)
      → (classify_delivery_error (error_of result)).0 ≡ 250
      → (receipt : Receipt) × (result ≡ ok receipt)
  unfolding classify_delivery_error
  receipt_of (ok receipt) h = (receipt, refl)
  receipt_of (err e) h = absurd (ground arith)

  -- The step that receiveData makes of a session, the receiver and the stores behind it.
  abbrev pub answered_data : Options → Session W → Step W
  answered_data options s = receive_data options services_of s

  -- No false acknowledgement: if receiveData sends a reply with code 250, on whatever path, then Receive
  -- succeeded on the request with the sender and the inboxes of the transaction and the reader of this
  -- message: the message was put, validated and committed, and the session is left in the state behind
  -- that.
  pub verdict-Backed :
      (options : Options) (s : Session W) (before after : List Reply) (enhanced what : Bytes)
      → (session_of (answered_data options s)).output
        ≡ s.output ++ (before ++ reply 250 enhanced what ∷ after)
      → (receipt : Receipt) × Backed is_uuid stores s.world
          record {
            envelope_sender = s.sender;
            recipients = inbox_ids s.recipients;
            raw = some (
                new_data_reader s.input s.ending options.max_message_bytes
                  options.max_data_line_bytes);
          }
          (session_of (answered_data options s)).world
          receipt
  unfolding services_of
  verdict-Backed options s before after enhanced what h =
      let (new, o, w, codes_of) = receive_data-Said options services_of s in
      let c = (classify_delivery_error (received options services_of s).2).0 in
      let news = append_cancel_left s.output new _ (sym o ∙ h) in
      let mine =
        All-mem (λ r. code_of r ≡ c) _ before after
          (subst (All (λ r. code_of r ≡ c)) news codes_of) in
      let (receipt, e) = receipt_of _ (sym mine) in
      (receipt, rw w (receive-Backed is_uuid stores s.world _ receipt e))
