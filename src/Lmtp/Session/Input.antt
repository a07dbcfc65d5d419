-- ===== src/Lmtp/Session/Input.antt =====
-- Every command comes to an end, and gives no bytes back to the input.
use mailwisp.Common.{
  ℕ, ◌≤◌, not, ◌||◌, Option, none, some, List, [], ◌∷◌, Bytes, Error, Result, ok, err, length,
  trim_space, ◌==◌, if_cases, arith,
}
use native.Mathlib.Nat.{le_trans}
use mailwisp.Lmtp.Command.{parse_mail_from, parse_recipient, split_command}
use mailwisp.Lmtp.DataReader.{DataReader, new_data_reader, Drain, drained, still_draining, drain}
use mailwisp.Lmtp.DataReader.Progress.{Drained, drain-Drained, length-read}
use mailwisp.Lmtp.Session.State.{
  Options, Services, Recipient, Reply, Observation, Session, Step, next, return, hangs, and_then,
  is_insufficient_storage, classify_delivery_error, send, reset_transaction, observe,
}
use mailwisp.Lmtp.Session.Transaction.{
  on_lhlo, set_sender, on_mail, add_recipient, resolve_recipient, on_rcpt, inbox_ids, reply_each,
  observe_reason, tell_metrics, report, after_drain, finish_data, receive_data, after_check,
  on_data, on_command, Verb, lhlo, mail, rcpt, data_verb, rset, quit, on_line, verb_of,
}
use mailwisp.Lmtp.Session.Data.{Uses, unused, used, ReadsOnly}

length-Uses : {r t : DataReader} → Uses r t → length t.input ≤ length r.input
length-Uses unused = omega arith
length-Uses (used {t} n u) = omega (arith, length-read n t, length-Uses u)

-- The round ends, and `P` holds of the session after it.
abbrev pub Ends : {W : Type 0} → (Session W → Type 0) → Step W → Type 0
Ends P (next s) = P s
Ends P (return s e) = P s
Ends P (hangs s) = ⊥

module _ {W : Type 0} (options : Options) (services : Services W)
    (reads : ReadsOnly options services) (n : ℕ) where
  -- At most `n` bytes of input are left.
  abbrev pub Within : Session W → Type 0
  Within s = length s.input ≤ n

  pub send-Within : (s : Session W) (r : Reply) → Within s → Ends Within (send s r)
  unfolding send
  send-Within s r h = ground arith

  observe-Within : (s : Session W) (o : Observation) → Within s → Within (observe services s o)
  unfolding observe
  observe-Within s o h = ground arith

  on_lhlo-Within :
      (s : Session W) (a : Bytes) → Within s → Ends Within (on_lhlo options services s a)
  unfolding on_lhlo
  on_lhlo-Within s a h = ground arith

  set_sender-Within :
      (s : Session W) (r : Result (Bytes × ℕ))
      → Within s
      → Ends Within (set_sender options services s r)
  unfolding set_sender
  set_sender-Within s (err e) h = ground arith
  set_sender-Within s (ok (sender, size)) h = ground arith

  on_mail-Within :
      (s : Session W) (a : Bytes) → Within s → Ends Within (on_mail options services s a)
  unfolding on_mail
  on_mail-Within s a h =
      if_cases (Ends Within) (not s.greeted) (λ _. send-Within s _ h)
        λ _.
          if_cases (Ends Within) s.mail_set (λ _. send-Within s _ h)
            λ _. set_sender-Within s (parse_mail_from a) h

  add_recipient-Within :
      (s : Session W) (a : Bytes) (r : Result Bytes)
      → Within s
      → Ends Within (add_recipient options services s a r)
  unfolding add_recipient
  add_recipient-Within s a (err e) h = ground arith
  add_recipient-Within s a (ok id) h = ground arith

  resolve_recipient-Within :
      (s : Session W) (r : Result Bytes)
      → Within s
      → Ends Within (resolve_recipient options services s r)
  unfolding resolve_recipient
  resolve_recipient-Within s (err e) h = send-Within s _ h
  resolve_recipient-Within s (ok address) h =
      let (w, found) = services.resolve s.world address s.declared_size in
      add_recipient-Within (record s { world = w }) address found h

  on_rcpt-Within :
      (s : Session W) (a : Bytes) → Within s → Ends Within (on_rcpt options services s a)
  unfolding on_rcpt
  on_rcpt-Within s a h =
      if_cases (Ends Within) (not s.greeted || not s.mail_set) (λ _. send-Within s _ h)
        λ _. resolve_recipient-Within s (parse_recipient a) h

  and_then-Within :
      (m : Step W) (k : Session W → Step W)
      → Ends Within m
      → ((s : Session W) → Within s → Ends Within (k s))
      → Ends Within (and_then m k)
  and_then-Within (next s) k h rest = rest s h
  and_then-Within (return s e) k h rest = h
  and_then-Within (hangs s) k h rest = absurd h

  reply_each-Within :
      (rs : List Recipient) (v : ℕ × Bytes × Bytes) (s : Session W)
      → Within s
      → Ends Within (reply_each options services rs v s)
  unfolding reply_each reset_transaction
  reply_each-Within [] v s h = h
  reply_each-Within (r ∷ rs) v s h =
      and_then-Within _ _ (send-Within s _ h) (reply_each-Within rs v)

  observe_reason-Within :
      (s : Session W) (o : Option Bytes) → Within s → Within (observe_reason options services s o)
  unfolding observe_reason
  observe_reason-Within s none h = h
  observe_reason-Within s (some reason) h = observe-Within s _ h

  tell_metrics-Within :
      (why : Option Error) (s : Session W) → Within s → Within (tell_metrics options services why s)
  unfolding tell_metrics
  tell_metrics-Within why s h =
      let told = observe_reason-Within _ _ (observe-Within s _ h) in
      if_cases Within (is_insufficient_storage why) (λ _. observe-Within _ _ told) (λ _. told)

  report-Within :
      (why : Option Error) (s : Session W) → Within s → Ends Within (report options services why s)
  unfolding report
  report-Within why s h =
      let told = tell_metrics options services why s in
      reply_each-Within told.recipients (classify_delivery_error why) told
        (tell_metrics-Within why s h)

  after_drain-Within :
      (s : Session W) (why : Option Error) (m : ℕ) (ending : Error) (d : Drain)
      → m ≤ n
      → Drained m ending d
      → Ends Within (after_drain options services s why d)
  unfolding after_drain
  after_drain-Within s why m ending (drained r (some e)) le h = omega (arith, h.0)
  after_drain-Within s why m ending (drained r none) le h =
      report-Within why (record s { input = r.input }) (omega (arith, h.0))
  after_drain-Within s why m ending (still_draining r) le h = absurd h

  finish_data-Within :
      (s : Session W) (p : W × DataReader × Option Error)
      → length p.1.input ≤ n
      → Ends Within (finish_data options services s p)
  unfolding finish_data
  finish_data-Within s (w, r, why) h =
      after_drain-Within (record s { world = w }) why (length r.input) r.ending (drain r) h
        (drain-Drained r)

  receive_data-Within : (s : Session W) → Within s → Ends Within (receive_data options services s)
  unfolding receive_data new_data_reader
  receive_data-Within s h =
      finish_data-Within s _
        (le_trans (length-Uses (reads s.world s.sender (inbox_ids s.recipients) _)) h)

  after_check-Within :
      (c : W × Option Error) (s : Session W)
      → Within s
      → Ends Within (after_check options services c s)
  unfolding after_check
  after_check-Within (w, some e) s h =
      if_cases (Ends Within) (is_insufficient_storage (some e))
        (λ _. send-Within _ _ (observe-Within (record s { world = w }) _ h))
        (λ _. send-Within _ _ (observe-Within (record s { world = w }) _ h))
  after_check-Within (w, none) s h =
      and_then-Within _ _ (send-Within (record s { world = w }) _ h) receive_data-Within

  on_data-Within :
      (s : Session W) (a : Bytes) → Within s → Ends Within (on_data options services s a)
  unfolding on_data
  on_data-Within s a h =
      if_cases (Ends Within) (not s.mail_set || length s.recipients == 0) (λ _. send-Within s _ h)
        λ _.
          if_cases (Ends Within) (not (length (trim_space a) == 0)) (λ _. send-Within s _ h)
            λ _. after_check-Within (services.check_capacity s.world) s h

  on_command-Within :
      (v : Verb) (s : Session W) (a : Bytes)
      → Within s
      → Ends Within (on_command options services v s a)
  unfolding on_command reset_transaction
  on_command-Within lhlo s a h = on_lhlo-Within s a h
  on_command-Within mail s a h = on_mail-Within s a h
  on_command-Within rcpt s a h = on_rcpt-Within s a h
  on_command-Within data_verb s a h = on_data-Within s a h
  on_command-Within rset s a h = send-Within _ _ h
  on_command-Within quit s a h = and_then-Within _ _ (send-Within s _ h) (λ t k. k)
  on_command-Within _ s a h = send-Within s _ h

  pub on_line-Within :
      (s : Session W) (c : Bytes) → Within s → Ends Within (on_line options services s c)
  unfolding on_line
  on_line-Within s c h = on_command-Within (verb_of (split_command c).0) s (split_command c).1 h
