-- ===== src/Lmtp/Session/World.antt =====
-- A property of the world behind a session that the resolver, CheckCapacity and the receiver keep.
use mailwisp.Common.{
  ℕ, zero, suc, ◌-◌, not, ◌||◌, Option, none, some, List, [], ◌∷◌, Bytes, Error, Result, ok, err,
  length, trim_space, ◌==◌, if_cases, arith,
}
use mailwisp.Lmtp.Command.{parse_mail_from, parse_recipient, split_command}
use mailwisp.Lmtp.DataReader.{DataReader, new_data_reader, Drain, drained, still_draining, drain}
use mailwisp.Lmtp.Line.{Line, line, too_long, failed, stuck}
use mailwisp.Lmtp.Session.State.{
  Options, Services, Recipient, Reply, Observation, Session, Step, next, return, hangs, and_then,
  is_insufficient_storage, classify_delivery_error, send, reset_transaction, observe,
}
use mailwisp.Lmtp.Session.Transaction.{
  on_lhlo, set_sender, on_mail, add_recipient, resolve_recipient, on_rcpt, inbox_ids, reply_each,
  observe_reason, tell_metrics, report, after_drain, finish_data, receive_data, after_check,
  on_data, on_command, Verb, lhlo, mail, rcpt, data_verb, rset, quit, on_line, verb_of,
}
use mailwisp.Lmtp.Session.Run.{on_read, round, round_body, Finish, finish, run_loop, run}
use mailwisp.Lmtp.Session.Invariant.{After, left}

module _ {W : Type 0} (options : Options) (services : Services W) (P : W → Type 0)
    (resolves : (w : W) (address : Bytes) (size : ℕ) → P w → P (services.resolve w address size).0)
    (checks : (w : W) → P w → P (services.check_capacity w).0)
    (receives : (w : W) (sender : Bytes) (ids : List Bytes) (r : DataReader)
      → P w
      → P (services.receive w sender ids r).0) where
  abbrev Holds : Session W → Type 0
  Holds s = P s.world

  send-Holds : (s : Session W) (r : Reply) → Holds s → After Holds (send s r)
  unfolding send
  send-Holds s r h = ground arith

  observe-Holds : (s : Session W) (o : Observation) → Holds s → Holds (observe services s o)
  unfolding observe
  observe-Holds s o h = ground arith

  on_lhlo-Holds : (s : Session W) (a : Bytes) → Holds s → After Holds (on_lhlo options services s a)
  unfolding on_lhlo
  on_lhlo-Holds s a h = ground arith

  set_sender-Holds :
      (s : Session W) (r : Result (Bytes × ℕ))
      → Holds s
      → After Holds (set_sender options services s r)
  unfolding set_sender
  set_sender-Holds s (err e) h = ground arith
  set_sender-Holds s (ok (sender, size)) h = ground arith

  on_mail-Holds : (s : Session W) (a : Bytes) → Holds s → After Holds (on_mail options services s a)
  unfolding on_mail
  on_mail-Holds s a h =
      if_cases (After Holds) (not s.greeted) (λ _. send-Holds s _ h)
        λ _.
          if_cases (After Holds) s.mail_set (λ _. send-Holds s _ h)
            λ _. set_sender-Holds s (parse_mail_from a) h

  add_recipient-Holds :
      (s : Session W) (a : Bytes) (r : Result Bytes)
      → Holds s
      → After Holds (add_recipient options services s a r)
  unfolding add_recipient
  add_recipient-Holds s a (err e) h = ground arith
  add_recipient-Holds s a (ok id) h = ground arith

  resolve_recipient-Holds :
      (s : Session W) (r : Result Bytes)
      → Holds s
      → After Holds (resolve_recipient options services s r)
  unfolding resolve_recipient
  resolve_recipient-Holds s (err e) h = send-Holds s _ h
  resolve_recipient-Holds s (ok address) h =
      let (w, found) = services.resolve s.world address s.declared_size in
      add_recipient-Holds (record s { world = w }) address found
        (resolves s.world address s.declared_size h)

  on_rcpt-Holds : (s : Session W) (a : Bytes) → Holds s → After Holds (on_rcpt options services s a)
  unfolding on_rcpt
  on_rcpt-Holds s a h =
      if_cases (After Holds) (not s.greeted || not s.mail_set) (λ _. send-Holds s _ h)
        λ _. resolve_recipient-Holds s (parse_recipient a) h

  and_then-Holds :
      (m : Step W) (k : Session W → Step W)
      → After Holds m
      → ((s : Session W) → Holds s → After Holds (k s))
      → After Holds (and_then m k)
  and_then-Holds (next s) k h rest = rest s h
  and_then-Holds (return s e) k h rest = h
  and_then-Holds (hangs s) k h rest = h

  reply_each-Holds :
      (rs : List Recipient) (v : ℕ × Bytes × Bytes) (s : Session W)
      → Holds s
      → After Holds (reply_each options services rs v s)
  unfolding reply_each reset_transaction
  reply_each-Holds [] v s h = h
  reply_each-Holds (r ∷ rs) v s h = and_then-Holds _ _ (send-Holds s _ h) (reply_each-Holds rs v)

  observe_reason-Holds :
      (s : Session W) (o : Option Bytes) → Holds s → Holds (observe_reason options services s o)
  unfolding observe_reason
  observe_reason-Holds s none h = h
  observe_reason-Holds s (some reason) h = observe-Holds s _ h

  tell_metrics-Holds :
      (why : Option Error) (s : Session W) → Holds s → Holds (tell_metrics options services why s)
  unfolding tell_metrics
  tell_metrics-Holds why s h =
      let told = observe_reason-Holds _ _ (observe-Holds s _ h) in
      if_cases Holds (is_insufficient_storage why) (λ _. observe-Holds _ _ told) (λ _. told)

  report-Holds :
      (why : Option Error) (s : Session W) → Holds s → After Holds (report options services why s)
  unfolding report
  report-Holds why s h =
      let told = tell_metrics options services why s in
      reply_each-Holds told.recipients (classify_delivery_error why) told
        (tell_metrics-Holds why s h)

  after_drain-Holds :
      (s : Session W) (why : Option Error) (d : Drain)
      → Holds s
      → After Holds (after_drain options services s why d)
  unfolding after_drain
  after_drain-Holds s why (drained r (some e)) h = h
  after_drain-Holds s why (drained r none) h = report-Holds why (record s { input = r.input }) h
  after_drain-Holds s why (still_draining r) h = h

  finish_data-Holds :
      (s : Session W) (p : W × DataReader × Option Error)
      → P p.0
      → After Holds (finish_data options services s p)
  unfolding finish_data
  finish_data-Holds s (w, r, why) h = after_drain-Holds (record s { world = w }) why (drain r) h

  receive_data-Holds : (s : Session W) → Holds s → After Holds (receive_data options services s)
  unfolding receive_data new_data_reader
  receive_data-Holds s h =
      finish_data-Holds s _ (receives s.world s.sender (inbox_ids s.recipients) _ h)

  after_check-Holds :
      (c : W × Option Error) (s : Session W)
      → P c.0
      → After Holds (after_check options services c s)
  unfolding after_check
  after_check-Holds (w, some e) s h =
      if_cases (After Holds) (is_insufficient_storage (some e))
        (λ _. send-Holds _ _ (observe-Holds (record s { world = w }) _ h))
        (λ _. send-Holds _ _ (observe-Holds (record s { world = w }) _ h))
  after_check-Holds (w, none) s h =
      and_then-Holds _ _ (send-Holds (record s { world = w }) _ h) receive_data-Holds

  on_data-Holds : (s : Session W) (a : Bytes) → Holds s → After Holds (on_data options services s a)
  unfolding on_data
  on_data-Holds s a h =
      if_cases (After Holds) (not s.mail_set || length s.recipients == 0) (λ _. send-Holds s _ h)
        λ _.
          if_cases (After Holds) (not (length (trim_space a) == 0)) (λ _. send-Holds s _ h)
            λ _. after_check-Holds (services.check_capacity s.world) s (checks s.world h)

  on_command-Holds :
      (v : Verb) (s : Session W) (a : Bytes)
      → Holds s
      → After Holds (on_command options services v s a)
  unfolding on_command reset_transaction
  on_command-Holds lhlo s a h = on_lhlo-Holds s a h
  on_command-Holds mail s a h = on_mail-Holds s a h
  on_command-Holds rcpt s a h = on_rcpt-Holds s a h
  on_command-Holds data_verb s a h = on_data-Holds s a h
  on_command-Holds rset s a h = send-Holds _ _ h
  on_command-Holds quit s a h = and_then-Holds _ _ (send-Holds s _ h) (λ t k. k)
  on_command-Holds _ s a h = send-Holds s _ h

  on_line-Holds : (s : Session W) (c : Bytes) → Holds s → After Holds (on_line options services s c)
  unfolding on_line
  on_line-Holds s c h = on_command-Holds (verb_of (split_command c).0) s (split_command c).1 h

  on_read-Holds : (s : Session W) (l : Line) → Holds s → After Holds (on_read options services s l)
  unfolding on_read
  on_read-Holds s (line command rest) h = on_line-Holds (record s { input = rest }) command h
  on_read-Holds s (too_long rest) h = send-Holds (record s { input = rest }) _ h
  on_read-Holds s (failed e) h = h
  on_read-Holds s stuck h = h

  round-Holds : (s : Session W) → Holds s → After Holds (round options services s)
  unfolding round round_body
  round-Holds s h =
      if_cases (After Holds) (s.deadlines == 0) (λ _. h)
        λ _. on_read-Holds (record s { deadlines = s.deadlines - 1 }) _ h

  finish-Holds :
      (go_on : Session W → Finish W) (m : Step W)
      → After Holds m
      → ((s : Session W) → Holds s → Holds (left options services (go_on s)))
      → Holds (left options services (finish options services go_on m))
  finish-Holds go_on (next s) h rest = rest s h
  finish-Holds go_on (return s e) h rest = h
  finish-Holds go_on (hangs s) h rest = h

  run_loop-Holds :
      (fuel : ℕ) (s : Session W)
      → Holds s
      → Holds (left options services (run_loop options services fuel s))
  unfolding run_loop
  run_loop-Holds zero s h = h
  run_loop-Holds (suc fuel) s h = finish-Holds _ _ (round-Holds s h) (run_loop-Holds fuel)

  pub run-world :
      (s : Session W) → P s.world → P (left options services (run options services s)).world
  unfolding run
  run-world s h = finish-Holds _ _ (send-Holds s _ h) (λ t. run_loop-Holds (suc (length t.input)) t)
