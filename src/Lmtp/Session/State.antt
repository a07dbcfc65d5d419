-- ===== src/Lmtp/Session/State.antt =====
-- The state of a session, its replies, and the classes of delivery errors.
use mailwisp.Common.{
  ℕ, ◌-◌, Bool, true, false, Option, none, some, List, [], ◌∷◌, ◌++◌, Bytes, codes, Error, other,
  data_too_large, data_line_too_long, invalid_delivery, inbox_not_found, content_too_large,
  inbox_message_quota_exceeded, inbox_storage_quota_exceeded, insufficient_storage, Result, ◌==◌,
  if◌then◌else◌,
}
use mailwisp.Lmtp.DataReader.{DataReader}

-- The fields of lmtp.Options that a session reads.
pub record Options : Type 0 where
  pub hostname : Bytes
  pub max_message_bytes : ℕ
  pub max_command_bytes : ℕ
  pub max_data_line_bytes : ℕ
  pub max_recipients : ℕ

-- What the server gives a session: the resolver, the receiver (with CheckCapacity) and whether
-- metrics are set. `W` is the state behind them; a call may change it. `receive` is handed the
-- sender, the inboxes and the reader of the message, and gives the reader back as it left it.
pub record Services (W : Type 0) : Type 0 where
  pub resolve : W → Bytes → ℕ → W × Result Bytes
  pub check_capacity : W → W × Option Error
  pub receive : W → Bytes → List Bytes → DataReader → W × DataReader × Option Error
  pub has_metrics : Bool

pub record Recipient : Type 0 where
  pub address : Bytes
  pub inbox_id : Bytes

-- What is written to the peer: one line of reply, or the five lines of the LHLO capabilities,
-- which show the hostname and the largest message.
pub data Reply : Type 0 where
  reply : ℕ → Bytes → Bytes → Reply
  capabilities : Bytes → ℕ → Reply

-- What is told to the metrics.
pub data Observation : Type 0 where
  delivery : ℕ → Observation
  quota_rejected storage_rejected : Bytes → Observation

-- The connection and the session. The peer still sends `input`, then the reader fails by `ending`;
-- `flushes` writes and `deadlines` calls of SetDeadline succeed before the first that fails.
-- `cancelled` is ctx.Err() != nil when the reader fails.
pub record Session (W : Type 0) : Type 0 where
  pub input : Bytes
  pub ending : Error
  pub cancelled : Bool
  pub flushes : ℕ
  pub deadlines : ℕ
  pub output : List Reply
  pub observed : List Observation
  pub greeted : Bool
  pub mail_set : Bool
  pub sender : Bytes
  pub declared_size : ℕ
  pub recipients : List Recipient
  pub recipient_set : List Bytes
  pub world : W

-- One round of the loop of run: it goes on, or run returns, or (in the model alone) a loop within the
-- round is still running when its fuel is spent.
pub data Step (W : Type 0) : Type 0 where
  next : Session W → Step W
  return : Session W → Option Error → Step W
  hangs : Session W → Step W

abbrev pub write_failed : Error
write_failed = other 1

abbrev pub deadline_failed : Error
deadline_failed = other 2

module _ {W : Type 0} where
  -- `if err := ...; err != nil { return err }`, and on.
  abbrev pub and_then : Step W → (Session W → Step W) → Step W
  and_then (next s) k = k s
  and_then (return s e) k = return s e
  and_then (hangs s) k = hangs s

  -- reply and capabilities, as every handler calls them: an error of the writer ends the session.
  unfoldable pub send : Session W → Reply → Step W
  send s r =
      if s.flushes == 0
      then return s (some write_failed)
      else next (record s { flushes = s.flushes - 1; output = s.output ++ r ∷ [] })

  abbrev pub answer : Session W → ℕ → Bytes → Bytes → Step W
  answer s code enhanced text = send s (reply code enhanced text)

  unfoldable pub reset_transaction : Session W → Session W
  reset_transaction s = record s {
    mail_set = false;
    sender = [];
    declared_size = 0;
    recipients = [];
    recipient_set = [];
  }

  -- Tells the metrics, if there are any.
  unfoldable pub observe : Services W → Session W → Observation → Session W
  observe services s o =
      if services.has_metrics then record s { observed = s.observed ++ o ∷ [] } else s

-- classifyDeliveryError
unfoldable pub classify_delivery_error : Option Error → ℕ × Bytes × Bytes
classify_delivery_error none = (250, codes "2.1.5", codes "delivered")
classify_delivery_error (some data_too_large) = (552, codes "5.3.4", codes "message too large")
classify_delivery_error (some content_too_large) = (552, codes "5.3.4", codes "message too large")
classify_delivery_error (some data_line_too_long) =
    (554, codes "5.6.0", codes "message line too long")
classify_delivery_error (some inbox_not_found) =
    (550, codes "5.1.1", codes "recipient no longer available")
classify_delivery_error (some inbox_message_quota_exceeded) =
    (552, codes "5.2.2", codes "recipient message quota exceeded")
classify_delivery_error (some inbox_storage_quota_exceeded) =
    (552, codes "5.2.2", codes "recipient storage quota exceeded")
classify_delivery_error (some insufficient_storage) =
    (452, codes "4.3.1", codes "insufficient system storage")
classify_delivery_error (some invalid_delivery) = (554, codes "5.6.0", codes "invalid delivery")
classify_delivery_error (some _) = (451, codes "4.3.0", codes "temporary delivery failure")

-- quotaRejectionReason, `none` for the empty text
unfoldable pub quota_rejection_reason : Option Error → Option Bytes
quota_rejection_reason (some inbox_message_quota_exceeded) = some (codes "messages")
quota_rejection_reason (some inbox_storage_quota_exceeded) = some (codes "storage_bytes")
quota_rejection_reason (some _) = none
quota_rejection_reason none = none

-- errors.Is(err, message.ErrInsufficientStorage)
unfoldable pub is_insufficient_storage : Option Error → Bool
is_insufficient_storage (some insufficient_storage) = true
is_insufficient_storage (some _) = false
is_insufficient_storage none = false

-- errors.Is(err, message.ErrInboxNotFound)
unfoldable pub is_inbox_not_found : Error → Bool
is_inbox_not_found inbox_not_found = true
is_inbox_not_found _ = false
