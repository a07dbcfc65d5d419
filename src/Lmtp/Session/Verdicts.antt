-- ===== src/Lmtp/Session/Verdicts.antt =====
-- The replies of receiveData on every path, those that end the session included.
use mailwisp.Common.{
  ℕ, ◌≡◌, refl, sym, ◌∙◌, ap, Option, none, some, List, [], ◌∷◌, ◌++◌, append_assoc, append-nil,
  Bytes, codes, Error, All, All-append, if_cases, ◌==◌,
}
use mailwisp.Lmtp.DataReader.{Drain, drained, still_draining, drain}
use mailwisp.Lmtp.Session.State.{
  Options, Services, Recipient, Reply, reply, capabilities, Session, Step, next, return, hangs,
  and_then, send, reset_transaction, classify_delivery_error,
}
use mailwisp.Lmtp.Session.Transaction.{
  reply_each, tell_metrics, report, after_drain, finish_data, receive_data,
}
use mailwisp.Lmtp.Session.Data.{received, tell_metrics-same}

abbrev pub code_of : Reply → ℕ
code_of (reply code enhanced what) = code
code_of (capabilities hostname size) = 250

module _ {W : Type 0} where
  -- The session after a step, however the step ends.
  abbrev pub session_of : Step W → Session W
  session_of (next s) = s
  session_of (return s e) = s
  session_of (hangs s) = s

  -- From `s` on, replies with the code `c` alone were sent, and the world stayed as it was.
  abbrev pub Said : ℕ → Session W → Session W → Type 0
  Said c s t =
      (new : List Reply) × (t.output ≡ s.output ++ new)
      × (t.world ≡ s.world)
      × All (λ r. code_of r ≡ c) new

  send-Said : (s : Session W) (r : Reply) → Said (code_of r) s (session_of (send s r))
  unfolding send
  send-Said s r =
      if_cases (λ m. Said (code_of r) s (session_of m)) (s.flushes == 0)
        (λ _. ([], sym (append-nil s.output), refl, tt)) (λ _. (r ∷ [], refl, refl, (refl, tt)))

  Said-trans : (c : ℕ) (s t u : Session W) → Said c s t → Said c t u → Said c s u
  Said-trans c s t u (xs, o, w, h) (ys, p, v, k) = (
    xs ++ ys,
    p ∙ (ap (λ l. l ++ ys) o ∙ append_assoc s.output xs ys),
    v ∙ w,
    All-append (λ r. code_of r ≡ c) xs ys h k,
  )

  and_then-Said :
      (c : ℕ) (s : Session W) (m : Step W) (k : Session W → Step W)
      → Said c s (session_of m)
      → ((t : Session W) → Said c t (session_of (k t)))
      → Said c s (session_of (and_then m k))
  and_then-Said c s (next t) k h rest = Said-trans c s t (session_of (k t)) h (rest t)
  and_then-Said c s (return t e) k h rest = h
  and_then-Said c s (hangs t) k h rest = h

module _ {W : Type 0} (options : Options) (services : Services W) where
  reply_each-Said :
      (rs : List Recipient) (v : ℕ × Bytes × Bytes) (s : Session W)
      → Said v.0 s (session_of (reply_each options services rs v s))
  unfolding reply_each reset_transaction
  reply_each-Said [] v s = ([], sym (append-nil s.output), refl, tt)
  reply_each-Said (r ∷ rs) v s =
      let said = reply v.0 v.1 (r.address ++ (codes " " ++ v.2)) in
      and_then-Said v.0 s (send s said) (reply_each options services rs v) (send-Said s said)
        (reply_each-Said rs v)

  report-Said :
      (why : Option Error) (s : Session W)
      → Said (classify_delivery_error why).0 s (session_of (report options services why s))
  unfolding report
  report-Said why s =
      let told = tell_metrics options services why s in
      let e = tell_metrics-same options services why s in
      let c = (classify_delivery_error why).0 in
      Said-trans c s told (session_of (report options services why s))
        ([], ap (λ u. u.output) e ∙ sym (append-nil s.output), ap (λ u. u.world) e, tt)
        (reply_each-Said told.recipients (classify_delivery_error why) told)

  after_drain-Said :
      (s : Session W) (why : Option Error) (d : Drain)
      → Said (classify_delivery_error why).0 s (session_of (after_drain options services s why d))
  unfolding after_drain
  after_drain-Said s why (drained r (some e)) = ([], sym (append-nil s.output), refl, tt)
  after_drain-Said s why (drained r none) = report-Said why (record s { input = r.input })
  after_drain-Said s why (still_draining r) = ([], sym (append-nil s.output), refl, tt)

  -- On every path of receiveData, what it sends has the code of the verdict on the receiver's error, and the
  -- world is what the receiver left.
  pub receive_data-Said :
      (s : Session W)
      → Said
          (classify_delivery_error (received options services s).2).0
          (record s { world = (received options services s).0 })
          (session_of (receive_data options services s))
  unfolding receive_data finish_data
  receive_data-Said s =
      let (w, r, why) = received options services s in
      after_drain-Said (record s { world = w }) why (drain r)
