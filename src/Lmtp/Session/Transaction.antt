-- ===== src/Lmtp/Session/Transaction.antt =====
-- The handlers of the commands, as the cases of the switch in run.
use mailwisp.Common.{
  ℕ, Bool, true, false, not, ◌||◌, Option, none, some, List, [], ◌∷◌, ◌++◌, map, Bytes, codes,
  bytes_eq, trim_space, Error, text, Result, ok, err, length, ltb, leb, ◌==◌, if◌then◌else◌,
}
use mailwisp.Lmtp.Command.{parse_mail_from, parse_recipient, split_command}
use mailwisp.Lmtp.DataReader.{DataReader, new_data_reader, Drain, drained, still_draining, drain}
use mailwisp.Lmtp.Session.State.{
  Options, Services, Recipient, capabilities, delivery, quota_rejected, storage_rejected, Session,
  Step, next, return, hangs, and_then, send, answer, reset_transaction, observe,
  classify_delivery_error, quota_rejection_reason, is_insufficient_storage, is_inbox_not_found,
}

-- The text of an error that a parser made.
unfoldable pub error_text : Error → Bytes
error_text (text t) = t
error_text _ = []

unfoldable pub mem_bytes : Bytes → List Bytes → Bool
mem_bytes x [] = false
mem_bytes x (y ∷ ys) = bytes_eq x y || mem_bytes x ys

abbrev pub inbox_ids : List Recipient → List Bytes
inbox_ids = map (λ r. r.inbox_id)

module _ {W : Type 0} (options : Options) (services : Services W) where
  unfoldable pub on_lhlo : Session W → Bytes → Step W
  unfolding reset_transaction send
  on_lhlo s argument =
      if length (trim_space argument) == 0
      then answer s 501 (codes "5.5.4") (codes "LHLO requires a hostname")
      else send (record (reset_transaction s) { greeted = true })
          (capabilities options.hostname options.max_message_bytes)

  unfoldable pub set_sender : Session W → Result (Bytes × ℕ) → Step W
  unfolding send error_text
  set_sender s (err e) = answer s 501 (codes "5.5.4") (error_text e)
  set_sender s (ok (sender, declared_size)) =
      if ltb options.max_message_bytes declared_size
      then answer s 552 (codes "5.3.4") (codes "Declared message size exceeds fixed maximum")
      else answer
          (record s {
            sender = sender;
            declared_size = declared_size;
            mail_set = true;
            recipient_set = [];
          })
          250 (codes "2.1.0") (codes "Sender OK")

  unfoldable pub on_mail : Session W → Bytes → Step W
  unfolding set_sender
  on_mail s argument =
      if not s.greeted
      then answer s 503 (codes "5.5.1") (codes "Send LHLO first")
      else if s.mail_set
      then answer s 503 (codes "5.5.1") (codes "Nested MAIL command")
      else set_sender s (parse_mail_from argument)

  unfoldable pub reject_quota : Session W → Option Bytes → Step W
  unfolding send observe
  reject_quota s (some reason) =
      answer (observe services s (quota_rejected reason)) 552 (codes "5.2.2")
        (codes "Recipient Inbox quota exceeded")
  reject_quota s none = answer s 451 (codes "4.3.0") (codes "Temporary recipient lookup failure")

  -- What RCPT does with the resolver's result for an address.
  unfoldable pub add_recipient : Session W → Bytes → Result Bytes → Step W
  unfolding reject_quota quota_rejection_reason is_inbox_not_found mem_bytes
  add_recipient s address (err e) =
      if is_inbox_not_found e
      then answer s 550 (codes "5.1.1") (codes "Recipient address rejected")
      else reject_quota s (quota_rejection_reason (some e))
  add_recipient s address (ok inbox_id) =
      if mem_bytes inbox_id s.recipient_set
      then answer s 250 (codes "2.1.5") (codes "Recipient OK")
      else if leb options.max_recipients (length s.recipients)
      then answer s 452 (codes "4.5.3") (codes "Too many recipients")
      else answer
          (record s {
            recipient_set = s.recipient_set ++ inbox_id ∷ [];
            recipients = s.recipients ++ record { address = address; inbox_id = inbox_id } ∷ [];
          })
          250 (codes "2.1.5") (codes "Recipient OK")

  unfoldable pub resolve_recipient : Session W → Result Bytes → Step W
  unfolding add_recipient send error_text
  resolve_recipient s (err e) = answer s 501 (codes "5.5.4") (error_text e)
  resolve_recipient s (ok address) =
      let (w, found) = services.resolve s.world address s.declared_size in
      add_recipient (record s { world = w }) address found

  unfoldable pub on_rcpt : Session W → Bytes → Step W
  unfolding resolve_recipient
  on_rcpt s argument =
      if not s.greeted || not s.mail_set
      then answer s 503 (codes "5.5.1") (codes "Need MAIL before RCPT")
      else resolve_recipient s (parse_recipient argument)

  -- The replies of receiveData, one for each recipient, and then resetTransaction.
  unfoldable pub reply_each : List Recipient → ℕ × Bytes × Bytes → Session W → Step W
  unfolding send reset_transaction
  reply_each [] verdict s = next (reset_transaction s)
  reply_each (r ∷ rs) verdict s =
      and_then (answer s verdict.0 verdict.1 (r.address ++ (codes " " ++ verdict.2)))
        (reply_each rs verdict)

  unfoldable pub observe_reason : Session W → Option Bytes → Session W
  unfolding observe
  observe_reason s none = s
  observe_reason s (some reason) = observe services s (quota_rejected reason)

  -- The metrics of receiveData.
  unfoldable pub tell_metrics : Option Error → Session W → Session W
  unfolding observe observe_reason classify_delivery_error quota_rejection_reason
      is_insufficient_storage
  tell_metrics why s =
      let told = observe services s (delivery (classify_delivery_error why).0) in
      let told_reason = observe_reason told (quota_rejection_reason why) in
      if is_insufficient_storage why
      then observe services told_reason (storage_rejected (codes "capacity"))
      else told_reason

  -- The metrics and the replies of receiveData, once the message is read to its end.
  unfoldable pub report : Option Error → Session W → Step W
  unfolding tell_metrics reply_each classify_delivery_error
  report why s =
      reply_each (tell_metrics why s).recipients (classify_delivery_error why) (tell_metrics why s)

  -- receiveData once the message is drained.
  unfoldable pub after_drain : Session W → Option Error → Drain → Step W
  unfolding report
  after_drain s why (drained r (some e)) = return (record s { input = r.input }) (some e)
  after_drain s why (drained r none) = report why (record s { input = r.input })
  after_drain s why (still_draining r) = hangs (record s { input = r.input })

  -- receiveData after the receiver: what it left unread of the message is drained.
  unfoldable pub finish_data : Session W → W × DataReader × Option Error → Step W
  unfolding after_drain
  finish_data s (w, r, why) = after_drain (record s { world = w }) why (drain r)

  unfoldable pub receive_data : Session W → Step W
  unfolding finish_data new_data_reader
  receive_data s = finish_data s (
      services.receive s.world s.sender (inbox_ids s.recipients)
        (new_data_reader s.input s.ending options.max_message_bytes options.max_data_line_bytes))

  -- DATA when CheckCapacity fails.
  unfoldable pub reject_storage : Session W → Option Error → Step W
  unfolding observe send is_insufficient_storage
  reject_storage s why =
      if is_insufficient_storage why
      then answer (observe services s (storage_rejected (codes "capacity"))) 452 (codes "4.3.1")
          (codes "Insufficient system storage")
      else answer (observe services s (storage_rejected (codes "check_error"))) 451 (codes "4.3.0")
          (codes "Temporary storage check failure")

  unfoldable pub after_check : W × Option Error → Session W → Step W
  unfolding reject_storage receive_data send
  after_check (w, some e) s = reject_storage (record s { world = w }) (some e)
  after_check (w, none) s =
      and_then
        (answer (record s { world = w }) 354 (codes "2.0.0")
          (codes "End data with <CR><LF>.<CR><LF>"))
        receive_data

  unfoldable pub on_data : Session W → Bytes → Step W
  unfolding after_check
  on_data s argument =
      if not s.mail_set || length s.recipients == 0
      then answer s 503 (codes "5.5.1") (codes "Need MAIL and RCPT before DATA")
      else if not (length (trim_space argument) == 0)
      then answer s 501 (codes "5.5.4") (codes "DATA does not accept parameters")
      else after_check (services.check_capacity s.world) s

-- The verbs that run tells apart.
pub data Verb : Type 0 where
  lhlo mail rcpt data_verb rset noop quit smtp_greeting vrfy unrecognized : Verb

unfoldable pub verb_of : Bytes → Verb
verb_of v =
    if bytes_eq v (codes "LHLO")
    then lhlo
    else if bytes_eq v (codes "MAIL")
    then mail
    else if bytes_eq v (codes "RCPT")
    then rcpt
    else if bytes_eq v (codes "DATA")
    then data_verb
    else if bytes_eq v (codes "RSET")
    then rset
    else if bytes_eq v (codes "NOOP")
    then noop
    else if bytes_eq v (codes "QUIT")
    then quit
    else if bytes_eq v (codes "HELO") || bytes_eq v (codes "EHLO")
    then smtp_greeting
    else if bytes_eq v (codes "VRFY")
    then vrfy
    else unrecognized

module _ {W : Type 0} (options : Options) (services : Services W) where
  -- The switch in run.
  unfoldable pub on_command : Verb → Session W → Bytes → Step W
  unfolding on_lhlo on_mail on_rcpt on_data reset_transaction send
  on_command lhlo s argument = on_lhlo options services s argument
  on_command mail s argument = on_mail options services s argument
  on_command rcpt s argument = on_rcpt options services s argument
  on_command data_verb s argument = on_data options services s argument
  on_command rset s argument =
      answer (reset_transaction s) 250 (codes "2.0.0") (codes "Reset state")
  on_command noop s argument = answer s 250 (codes "2.0.0") (codes "OK")
  on_command quit s argument =
      and_then (answer s 221 (codes "2.0.0") (codes "Bye")) (λ s'. return s' none)
  on_command smtp_greeting s argument = answer s 500 (codes "5.5.1") (codes "Use LHLO for LMTP")
  on_command vrfy s argument = answer s 252 (codes "2.5.2") (codes "Cannot verify user")
  on_command unrecognized s argument = answer s 500 (codes "5.5.1") (codes "Command unrecognized")

  unfoldable pub on_line : Session W → Bytes → Step W
  unfolding split_command verb_of on_command
  on_line s command =
      let (verb, argument) = split_command command in on_command (verb_of verb) s argument
