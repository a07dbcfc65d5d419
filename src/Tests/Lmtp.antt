-- ===== src/Tests/Lmtp.antt =====
-- Examples for the LMTP boundary.
use mailwisp.Common.{
  ℕ, suc, ◌≡◌, refl, true, false, none, some, List, [], ◌∷◌, ◌++◌, Bytes, codes, eof, ok, inl,
  length, arith,
}
use mailwisp.Lmtp.Line.{read_limited_line, read_line, cr, lf, line, read_line_sized, drop_cr}
use mailwisp.Lmtp.Line.Limit.{read_line_sized-line}
use mailwisp.Lmtp.Line.Progress.{Progress, read_line_sized-Progress}
use mailwisp.Lmtp.DataReader.{DataReader, new_data_reader, read, drained, drain}
use mailwisp.Lmtp.DataReader.Framing.{wire, Behind, drain-Behind}
use mailwisp.Lmtp.DataReader.Progress.{Drained, drain-Drained}
use mailwisp.Lmtp.DataReader.RoundTrip.{render, sent, consume, consume-new_data_reader}
use mailwisp.Lmtp.Session.State.{Options, Services, Session, Step, next, classify_delivery_error}
use mailwisp.Lmtp.Session.Transaction.{mem_bytes, receive_data, inbox_ids}
use mailwisp.Lmtp.Session.Run.{round, run}
use mailwisp.Lmtp.Session.Invariant.{Inv, After, left, round-Inv, run-Inv}
use mailwisp.Lmtp.Session.Data.{used, unused, received, Answered, receive_data-Answered}
use mailwisp.Lmtp.Session.Verdicts.{session_of}
use mailwisp.Lmtp.Session.Total.{Returns, run-Returns}
use mailwisp.Lmtp.Delivery.{receive_data_by, services_of, answered_data, verdict-Backed}
use mailwisp.Message.Receiver.{Receipt, receive}
use mailwisp.Message.Receiver.Durable.{Backed}
use mailwisp.Tests.Message.{inbox, only_inbox, demo}

read_line_sized-line_example :
    read_line_sized 4 20 eof (codes "LHLO client" ++ cr ∷ lf ∷ codes "QUIT")
    ≡ line (codes "LHLO client") (codes "QUIT")
unfolding drop_cr
read_line_sized-line_example =
    read_line_sized-line 4 20 eof (codes "LHLO client" ++ cr ∷ []) (codes "QUIT") (omega arith)
      (ground arith)

read_line_sized-Progress_example : Progress 3 eof 11 (read_line_sized 4 3 eof (codes "LHLO client"))
read_line_sized-Progress_example =
    read_line_sized-Progress 4 3 eof (codes "LHLO client") (omega arith)

abbrev options : Options
options = record {
  hostname = codes "mx";
  max_message_bytes = 100;
  max_command_bytes = 100;
  max_data_line_bytes = 50;
  max_recipients = 2;
}

-- A receiver that reads 16 bytes and takes the message.
abbrev services : Services ℕ
services = record {
  resolve = λ w address size. (w, ok address);
  check_capacity = λ w. (w, none);
  receive = λ w sender ids r. (suc w, (read 16 r).0, none);
  has_metrics = true;
}

-- A session in the middle of a transaction, the peer about to send `input`.
abbrev in_transaction : Bytes → Session ℕ
in_transaction input = record {
  input = input;
  ending = eof;
  cancelled = false;
  flushes = 9;
  deadlines = 9;
  output = [];
  observed = [];
  greeted = true;
  mail_set = true;
  sender = codes "a@b";
  declared_size = 10;
  recipients = record { address = codes "c@d"; inbox_id = codes "i" } ∷ [];
  recipient_set = codes "i" ∷ [];
  world = 0;
}

abbrev body : List Bytes
body = (codes "Subject: x" ++ cr ∷ []) ∷ (cr ∷ []) ∷ (codes "..hello" ++ cr ∷ []) ∷ []

abbrev stop : Bytes
stop = b'.' ∷ cr ∷ []

abbrev data_session : Session ℕ
data_session = in_transaction (wire body (stop ++ lf ∷ codes "QUIT"))

receive_data-Answered_example :
    (t : Session ℕ) × (receive_data options services data_session ≡ next t)
    × Answered options services
        (record data_session { world = (received options services data_session).0 })
        (codes "QUIT")
        (received options services data_session).2
        t
unfolding drop_cr
receive_data-Answered_example =
    receive_data-Answered options services data_session body stop (codes "QUIT")
      (λ w sender ids r. used 16 unused) (ground arith) (ground arith) refl (omega arith)
      (omega arith)

drain-Behind_example :
    (t : DataReader) × (drain (new_data_reader (wire body (stop ++ lf ∷ codes "QUIT")) eof 100 50)
      ≡ drained t none)
    × Behind (codes "QUIT") t
unfolding drop_cr new_data_reader
drain-Behind_example =
    drain-Behind stop (codes "QUIT") (ground arith)
      (new_data_reader (wire body (stop ++ lf ∷ codes "QUIT")) eof 100 50)
      (inl (body, ground arith, refl, refl, omega arith))

consume-new_data_reader_example :
    (r' : DataReader) × (consume 20
        (λ n. suc n)
        (new_data_reader (sent (codes ".hello" ∷ codes "you" ∷ []) (codes "QUIT")) eof 100 50)
      ≡ (r', render (codes ".hello" ∷ codes "you" ∷ []), some eof))
    × (r'.input ≡ codes "QUIT")
    × (r'.ended ≡ true)
consume-new_data_reader_example =
    consume-new_data_reader 20 (λ n. suc n) (codes ".hello" ∷ codes "you" ∷ []) (codes "QUIT") eof
      100 50 (ground arith) (omega arith) (omega arith) (omega arith)

session-Inv : Inv options (in_transaction (codes "RCPT TO:<e@f>"))
unfolding mem_bytes
session-Inv = record {
  capped = omega arith;
  same_set = refl;
  distinct = (refl, tt);
  idle = ground arith;
  greeted_first = λ _. refl;
  sized = omega arith;
}

round-Inv_example :
    After (Inv options) (round options services (in_transaction (codes "RCPT TO:<e@f>")))
round-Inv_example = round-Inv options services (in_transaction (codes "RCPT TO:<e@f>")) session-Inv

run-Inv_example :
    Inv options
      (left options services (run options services (in_transaction (codes "RCPT TO:<e@f>"))))
run-Inv_example = run-Inv options services (in_transaction (codes "RCPT TO:<e@f>")) session-Inv

run-Returns_example :
    Returns options services (λ w sender ids r. used 16 unused) (run options services data_session)
run-Returns_example = run-Returns options services (λ w sender ids r. used 16 unused) data_session

abbrev stored_session : Session ℕ
stored_session = record (in_transaction (codes "hello" ++ cr ∷ lf ∷ stop ++ lf ∷ [])) {
  recipients = record { address = codes "c@d"; inbox_id = inbox } ∷ [];
  recipient_set = inbox ∷ [];
}

abbrev stored_services : Services ℕ
unfolding services_of
stored_services = services_of only_inbox demo (λ w address size. (w, ok inbox)) false

stored_step : Step ℕ
stored_step =
    answered_data only_inbox demo (λ w address size. (w, ok inbox)) false options stored_session

verdict-Backed_example :
    (receipt : Receipt) × Backed only_inbox demo stored_session.world
      record {
        envelope_sender = stored_session.sender;
        recipients = inbox_ids stored_session.recipients;
        raw = some (new_data_reader stored_session.input stored_session.ending 100 50);
      }
      (session_of stored_step).world
      receipt
unfolding stored_step classify_delivery_error services_of receive_data_by receive receive_data drain
    read read_limited_line read_line
verdict-Backed_example =
    verdict-Backed only_inbox demo (λ w address size. (w, ok inbox)) false options stored_session []
      [] (codes "2.1.5") (codes "c@d delivered") refl

drain-Drained_example :
    Drained (length data_session.input) eof (drain (new_data_reader data_session.input eof 100 50))
unfolding new_data_reader
drain-Drained_example = drain-Drained (new_data_reader data_session.input eof 100 50)
