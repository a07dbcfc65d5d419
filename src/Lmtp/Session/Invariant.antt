-- ===== src/Lmtp/Session/Invariant.antt =====
-- What holds of a session between two commands.
use mathlib.Core.List.{map-append}
use mailwisp.Common.{
  ℕ, zero, suc, ◌-◌, ◌≤◌, ◌≡◌, refl, true, false, not, ◌||◌, Option, none, some, List, [], ◌∷◌,
  ◌++◌, Bytes, bytes_eq, bytes_eq_iff, Error, Result, ok, err, length, length-append, ◌==◌, arith,
  trim_space, if_cases,
}
use mailwisp.Lmtp.Line.{line, too_long, failed, stuck, Line}
use mailwisp.Lmtp.Command.{parse_mail_from, parse_recipient, split_command}
use mailwisp.Lmtp.DataReader.{DataReader, Drain, drained, still_draining, drain}
use mailwisp.Lmtp.Session.State.{
  Options, Services, Recipient, Reply, Observation, Session, Step, next, return, hangs, and_then,
  is_insufficient_storage, send, reset_transaction, observe,
}
use mailwisp.Lmtp.Session.Transaction.{
  mem_bytes, inbox_ids, on_lhlo, set_sender, on_mail, add_recipient, resolve_recipient, on_rcpt,
  reply_each, observe_reason, tell_metrics, report, after_drain, finish_data, receive_data,
  after_check, on_data, on_command, Verb, lhlo, mail, rcpt, data_verb, rset, quit, on_line, verb_of,
}
use mailwisp.Lmtp.Session.Run.{
  on_read, round, round_body, Finish, finish, finished, out_of_fuel, run_loop, run,
}

-- No inbox stands twice in the list.
abbrev pub Distinct : List Bytes → Type 0
Distinct [] = Unit
Distinct (x ∷ xs) = (mem_bytes x xs ≡ false) × Distinct xs

mem_bytes-end :
    (x y : Bytes) (ys : List Bytes)
    → mem_bytes y ys ≡ false
    → bytes_eq x y ≡ false
    → mem_bytes y (ys ++ x ∷ []) ≡ false
unfolding mem_bytes
mem_bytes-end x y [] h e = ground (arith, bytes_eq_iff x y, bytes_eq_iff y x)
mem_bytes-end x y (z ∷ ys) h e = ground (arith, mem_bytes-end x y ys)

Distinct-end :
    (x : Bytes) (xs : List Bytes) → mem_bytes x xs ≡ false → Distinct xs → Distinct (xs ++ x ∷ [])
unfolding mem_bytes
Distinct-end x [] h d = ground arith
Distinct-end x (y ∷ ys) h d = ground (arith, Distinct-end x ys, mem_bytes-end x y ys)

-- A property of the session after a step, however the step ends.
abbrev pub After : {W : Type 0} → (Session W → Type 0) → Step W → Type 0
After P (next s) = P s
After P (return s e) = P s
After P (hangs s) = P s

module _ {W : Type 0} where
  -- The limits and the order of the commands: at most `max_recipients` recipients, no inbox twice, no
  -- recipient without a sender and no sender without LHLO, and a declared size within the limit.
  pub record Inv (options : Options) (s : Session W) : Type 0 where
    pub capped : length s.recipients ≤ options.max_recipients
    pub same_set : s.recipient_set ≡ inbox_ids s.recipients
    pub distinct : Distinct (inbox_ids s.recipients)
    pub idle : s.mail_set ≡ false → s.recipients ≡ []
    pub greeted_first : s.mail_set ≡ true → s.greeted ≡ true
    pub sized : s.declared_size ≤ options.max_message_bytes

module _ {W : Type 0} (options : Options) (services : Services W) where
  abbrev Keeps : Step W → Type 0
  Keeps = After (Inv options)

  send-Inv : (s : Session W) (r : Reply) → Inv options s → Keeps (send s r)
  unfolding send
  send-Inv s r h = ground arith

  reset-Inv : (s : Session W) → Inv options (reset_transaction s)
  unfolding reset_transaction
  reset-Inv s = ground arith

  observe-Inv :
      (s : Session W) (o : Observation) → Inv options s → Inv options (observe services s o)
  unfolding observe
  observe-Inv s o h = ground arith

  on_lhlo-Inv : (s : Session W) (a : Bytes) → Inv options s → Keeps (on_lhlo options services s a)
  unfolding on_lhlo
  on_lhlo-Inv s a h = ground arith

  set_sender-Inv :
      (s : Session W) (r : Result (Bytes × ℕ))
      → s.greeted ≡ true
      → s.mail_set ≡ false
      → Inv options s
      → Keeps (set_sender options services s r)
  unfolding set_sender
  set_sender-Inv s (err e) g m h = ground arith
  set_sender-Inv s (ok (sender, size)) g m h = ground arith

  on_mail-Inv : (s : Session W) (a : Bytes) → Inv options s → Keeps (on_mail options services s a)
  unfolding on_mail
  on_mail-Inv s a h =
      if_cases Keeps (not s.greeted) (λ _. send-Inv s _ h)
        λ g.
          if_cases Keeps s.mail_set (λ _. send-Inv s _ h)
            λ m. set_sender-Inv s (parse_mail_from a) (ground arith) m h

  add_recipient-Inv :
      (s : Session W) (a : Bytes) (r : Result Bytes)
      → s.mail_set ≡ true
      → Inv options s
      → Keeps (add_recipient options services s a r)
  unfolding add_recipient
  add_recipient-Inv s a (err e) m h = ground arith
  add_recipient-Inv s a (ok id) m h = ground (
    arith,
    Distinct-end id (inbox_ids s.recipients),
    map-append (λ r. r.inbox_id) s.recipients (record { address = a; inbox_id = id } ∷ []),
    length-append s.recipients (record { address = a; inbox_id = id } ∷ []),
  )

  resolve_recipient-Inv :
      (s : Session W) (r : Result Bytes)
      → s.mail_set ≡ true
      → Inv options s
      → Keeps (resolve_recipient options services s r)
  unfolding resolve_recipient
  resolve_recipient-Inv s (err e) m h = send-Inv s _ h
  resolve_recipient-Inv s (ok address) m h =
      let (w, found) = services.resolve s.world address s.declared_size in
      add_recipient-Inv (record s { world = w }) address found m
        (record {
          capped = h.capped;
          same_set = h.same_set;
          distinct = h.distinct;
          idle = h.idle;
          greeted_first = h.greeted_first;
          sized = h.sized;
        })

  on_rcpt-Inv : (s : Session W) (a : Bytes) → Inv options s → Keeps (on_rcpt options services s a)
  unfolding on_rcpt
  on_rcpt-Inv s a h =
      if_cases Keeps (not s.greeted || not s.mail_set) (λ _. send-Inv s _ h)
        λ good. resolve_recipient-Inv s (parse_recipient a) (ground arith) h

  and_then-Inv :
      (m : Step W) (k : Session W → Step W)
      → Keeps m
      → ((s : Session W) → Inv options s → Keeps (k s))
      → Keeps (and_then m k)
  and_then-Inv (next s) k h rest = rest s h
  and_then-Inv (return s e) k h rest = h
  and_then-Inv (hangs s) k h rest = h

  reply_each-Inv :
      (rs : List Recipient) (v : ℕ × Bytes × Bytes) (s : Session W)
      → Inv options s
      → Keeps (reply_each options services rs v s)
  unfolding reply_each
  reply_each-Inv [] v s h = reset-Inv s
  reply_each-Inv (r ∷ rs) v s h = and_then-Inv _ _ (send-Inv s _ h) (reply_each-Inv rs v)

  -- The fields that the invariant speaks of.
  abbrev SameState : Session W → Session W → Type 0
  SameState s t =
      (t.recipients ≡ s.recipients)
      × (t.recipient_set ≡ s.recipient_set)
      × (t.mail_set ≡ s.mail_set)
      × (t.greeted ≡ s.greeted)
      × (t.declared_size ≡ s.declared_size)

  Inv-same : (s t : Session W) → SameState s t → Inv options s → Inv options t
  Inv-same s t (a, b, c, d, e) h = record {
    capped = rw a h.capped;
    same_set = rw (a, b) h.same_set;
    distinct = rw a h.distinct;
    idle = rw (a, c) h.idle;
    greeted_first = rw (c, d) h.greeted_first;
    sized = rw e h.sized;
  }

  observe_reason-Inv :
      (s : Session W) (o : Option Bytes)
      → Inv options s
      → Inv options (observe_reason options services s o)
  unfolding observe_reason
  observe_reason-Inv s none h = h
  observe_reason-Inv s (some reason) h = observe-Inv s _ h

  tell_metrics-Inv :
      (why : Option Error) (s : Session W)
      → Inv options s
      → Inv options (tell_metrics options services why s)
  unfolding tell_metrics
  tell_metrics-Inv why s h =
      if_cases (Inv options) (is_insufficient_storage why)
        (λ _. observe-Inv _ _ (observe_reason-Inv _ _ (observe-Inv s _ h)))
        (λ _. observe_reason-Inv _ _ (observe-Inv s _ h))

  report-Inv :
      (why : Option Error) (s : Session W) → Inv options s → Keeps (report options services why s)
  unfolding report
  report-Inv why s h = reply_each-Inv _ _ _ (tell_metrics-Inv why s h)

  after_drain-Inv :
      (s : Session W) (why : Option Error) (d : Drain)
      → Inv options s
      → Keeps (after_drain options services s why d)
  unfolding after_drain
  after_drain-Inv s why (drained r (some e)) h = Inv-same s _ (refl, refl, refl, refl, refl) h
  after_drain-Inv s why (drained r none) h =
      report-Inv why _ (Inv-same s _ (refl, refl, refl, refl, refl) h)
  after_drain-Inv s why (still_draining r) h = Inv-same s _ (refl, refl, refl, refl, refl) h

  finish_data-Inv :
      (s : Session W) (p : W × DataReader × Option Error)
      → Inv options s
      → Keeps (finish_data options services s p)
  unfolding finish_data
  finish_data-Inv s (w, r, why) h =
      after_drain-Inv (record s { world = w }) why (drain r)
        (Inv-same s _ (refl, refl, refl, refl, refl) h)

  receive_data-Inv : (s : Session W) → Inv options s → Keeps (receive_data options services s)
  unfolding receive_data
  receive_data-Inv s h = finish_data-Inv s _ h

  after_check-Inv :
      (c : W × Option Error) (s : Session W)
      → Inv options s
      → Keeps (after_check options services c s)
  unfolding after_check
  after_check-Inv (w, some e) s h =
      let t : Session W = record s { world = w } in
      let k = Inv-same s t (refl, refl, refl, refl, refl) h in
      if_cases Keeps (is_insufficient_storage (some e)) (λ _. send-Inv _ _ (observe-Inv t _ k))
        (λ _. send-Inv _ _ (observe-Inv t _ k))
  after_check-Inv (w, none) s h =
      and_then-Inv _ _ (send-Inv _ _ (Inv-same s _ (refl, refl, refl, refl, refl) h))
        receive_data-Inv

  on_data-Inv : (s : Session W) (a : Bytes) → Inv options s → Keeps (on_data options services s a)
  unfolding on_data
  on_data-Inv s a h =
      if_cases Keeps (not s.mail_set || length s.recipients == 0) (λ _. send-Inv s _ h)
        λ _.
          if_cases Keeps (not (length (trim_space a) == 0)) (λ _. send-Inv s _ h)
            λ _. after_check-Inv (services.check_capacity s.world) s h

  on_command-Inv :
      (v : Verb) (s : Session W) (a : Bytes)
      → Inv options s
      → Keeps (on_command options services v s a)
  unfolding on_command
  on_command-Inv lhlo s a h = on_lhlo-Inv s a h
  on_command-Inv mail s a h = on_mail-Inv s a h
  on_command-Inv rcpt s a h = on_rcpt-Inv s a h
  on_command-Inv data_verb s a h = on_data-Inv s a h
  on_command-Inv rset s a h = send-Inv _ _ (reset-Inv s)
  on_command-Inv quit s a h = and_then-Inv _ _ (send-Inv s _ h) (λ t k. k)
  on_command-Inv _ s a h = send-Inv s _ h

  on_line-Inv : (s : Session W) (c : Bytes) → Inv options s → Keeps (on_line options services s c)
  unfolding on_line
  on_line-Inv s c h = on_command-Inv (verb_of (split_command c).0) s (split_command c).1 h

  on_read-Inv : (s : Session W) (l : Line) → Inv options s → Keeps (on_read options services s l)
  unfolding on_read
  on_read-Inv s (line command rest) h =
      on_line-Inv (record s { input = rest }) command
        (Inv-same s _ (refl, refl, refl, refl, refl) h)
  on_read-Inv s (too_long rest) h = send-Inv _ _ (Inv-same s _ (refl, refl, refl, refl, refl) h)
  on_read-Inv s (failed e) h = Inv-same s _ (refl, refl, refl, refl, refl) h
  on_read-Inv s stuck h = h

  -- Whatever line the peer sends, and whatever the resolver and the receiver answer, a round of the
  -- loop keeps the limits and the order of the commands.
  pub round-Inv : (s : Session W) → Inv options s → Keeps (round options services s)
  unfolding round round_body
  round-Inv s h =
      if_cases Keeps (s.deadlines == 0) (λ _. h)
        λ _.
          on_read-Inv (record s { deadlines = s.deadlines - 1 }) _
            (Inv-same s _ (refl, refl, refl, refl, refl) h)

  -- The session that run leaves behind.
  abbrev pub left : Finish W → Session W
  left (finished s e) = s
  left (out_of_fuel s) = s

  finish-Inv :
      (go_on : Session W → Finish W) (m : Step W)
      → Keeps m
      → ((s : Session W) → Inv options s → Inv options (left (go_on s)))
      → Inv options (left (finish options services go_on m))
  finish-Inv go_on (next s) h rest = rest s h
  finish-Inv go_on (return s e) h rest = h
  finish-Inv go_on (hangs s) h rest = h

  run_loop-Inv :
      (fuel : ℕ) (s : Session W)
      → Inv options s
      → Inv options (left (run_loop options services fuel s))
  unfolding run_loop
  run_loop-Inv zero s h = h
  run_loop-Inv (suc fuel) s h = finish-Inv _ _ (round-Inv s h) (run_loop-Inv fuel)

  -- A session that starts with the invariant ends with it, whatever the peer sends.
  pub run-Inv : (s : Session W) → Inv options s → Inv options (left (run options services s))
  unfolding run
  run-Inv s h = finish-Inv _ _ (send-Inv s _ h) (λ t. run_loop-Inv (suc (length t.input)) t)
