-- ===== src/Lmtp/Session/Data.antt =====
-- DATA: where it ends in the input, and its replies.
use mailwisp.Common.{
  ℕ, ◌-◌, ◌≤◌, ◌≡◌, refl, sym, ◌∙◌, ap, inl, false, Option, none, some, List, [], ◌∷◌, ◌++◌, map,
  append_assoc, append-nil, Bytes, codes, Error, length, All, if_cases, arith,
}
use mailwisp.Lmtp.Line.{lf}
use mailwisp.Lmtp.DataReader.{DataReader, new_data_reader, read, Drain, drained, drain}
use mailwisp.Lmtp.DataReader.Framing.{
  IsBodyLine, IsStop, wire, Framed, Behind, read-Framed, drain-Behind,
}
use mailwisp.Lmtp.Session.State.{
  Options, Services, Recipient, Reply, reply, Observation, quota_rejection_reason,
  is_insufficient_storage, Session, next, send, reset_transaction, observe, classify_delivery_error,
}
use mailwisp.Lmtp.Session.Transaction.{
  inbox_ids, reply_each, observe_reason, tell_metrics, report, after_drain, finish_data,
  receive_data,
}

-- What may become of a reader by calls of Read, into buffers of any sizes.
pub data Uses (r : DataReader) : DataReader → Type 0 where
  unused : Uses r r
  used : {t : DataReader} (n : ℕ) → Uses r t → Uses r (read n t).0

Uses-Framed :
    (stop rest : Bytes) (is_stop : IsStop stop) (r : DataReader) {t : DataReader}
    → Uses r t
    → Framed stop rest r
    → Framed stop rest t
Uses-Framed stop rest is_stop r unused h = h
Uses-Framed stop rest is_stop r (used {t} n u) h =
    read-Framed stop rest is_stop n t (Uses-Framed stop rest is_stop r u h)

-- The replies to DATA: one verdict for each recipient, in the order of the RCPT commands.
abbrev pub verdicts : ℕ × Bytes × Bytes → List Recipient → List Reply
verdicts (code, enhanced, what) = map (λ r. reply code enhanced (r.address ++ (codes " " ++ what)))

module _ {W : Type 0} (options : Options) (services : Services W) where
  -- The receiver touches the reader of a message by Read alone.
  abbrev pub ReadsOnly : Type 0
  ReadsOnly =
      (w : W) (sender : Bytes) (ids : List Bytes) (r : DataReader)
      → Uses r (services.receive w sender ids r).1

  -- A session with the replies sent.
  abbrev replied : List Reply → Session W → Session W
  replied rs s = record s { flushes = s.flushes - length rs; output = s.output ++ rs }

  send-replied : (s : Session W) (r : Reply) → 1 ≤ s.flushes → send s r ≡ next (replied (r ∷ []) s)
  unfolding send
  send-replied s r h = ground arith

  replied-replied :
      (r : Reply) (rs : List Reply) (s : Session W)
      → replied rs (replied (r ∷ []) s) ≡ replied (r ∷ rs) s
  replied-replied r rs s = ground (arith, append_assoc s.output (r ∷ []) rs)

  replied-none : (s : Session W) → replied [] s ≡ s
  replied-none s = ground (arith, append-nil s.output)

  reply_each-replied :
      (rs : List Recipient) (v : ℕ × Bytes × Bytes) (s : Session W)
      → length rs ≤ s.flushes
      → reply_each options services rs v s ≡ next (reset_transaction (replied (verdicts v rs) s))
  unfolding reply_each
  reply_each-replied [] v s h = ap (λ t. next (reset_transaction t)) (sym (replied-none s))
  reply_each-replied (r ∷ rs) v s h =
      rw (send-replied s (reply v.0 v.1 (r.address ++ (codes " " ++ v.2))) (omega arith)) (
        reply_each-replied rs v (replied (verdicts v (r ∷ [])) s) (omega arith)
        ∙ ap (λ t. next (reset_transaction t)) (replied-replied _ (verdicts v rs) s))

  -- The metrics leave all but the list of observations alone.
  abbrev pub SameButObserved : Session W → Session W → Type 0
  SameButObserved s t = t ≡ record s { observed = t.observed }

  observe-same : (s : Session W) (o : Observation) → SameButObserved s (observe services s o)
  unfolding observe
  observe-same s o = if_cases (SameButObserved s) services.has_metrics (λ _. refl) (λ _. refl)

  observe-same_of :
      (s t : Session W) (o : Observation)
      → SameButObserved s t
      → SameButObserved s (observe services t o)
  unfolding observe
  observe-same_of s t o e =
      if_cases (SameButObserved s) services.has_metrics
        (λ _. ap (λ (u : Session W). record u { observed = t.observed ++ o ∷ [] }) e) (λ _. e)

  observe_reason-same :
      (s t : Session W) (o : Option Bytes)
      → SameButObserved s t
      → SameButObserved s (observe_reason options services t o)
  unfolding observe_reason
  observe_reason-same s t none e = e
  observe_reason-same s t (some reason) e = observe-same_of s t _ e

  pub tell_metrics-same :
      (why : Option Error) (s : Session W) → SameButObserved s (tell_metrics options services why s)
  unfolding tell_metrics
  tell_metrics-same why s =
      let told = observe_reason-same s _ (quota_rejection_reason why) (observe-same s _) in
      if_cases (SameButObserved s) (is_insufficient_storage why) (λ _. observe-same_of s _ _ told)
        (λ _. told)

  -- A session after DATA: the input stands at `rest`, there is one verdict for each recipient, the
  -- transaction is reset, and the world is what the receiver left.
  abbrev pub Answered : Session W → Bytes → Option Error → Session W → Type 0
  Answered s rest why t =
      (t.input ≡ rest)
      × (t.output ≡ s.output ++ verdicts (classify_delivery_error why) s.recipients)
      × (t.recipients ≡ [])
      × (t.mail_set ≡ false)
      × (t.greeted ≡ s.greeted)
      × (t.world ≡ s.world)

  report-Answered :
      (why : Option Error) (s : Session W)
      → length s.recipients ≤ s.flushes
      → (t : Session W) × (report options services why s ≡ next t) × Answered s s.input why t
  unfolding report reset_transaction
  report-Answered why s h =
      let e = tell_metrics-same why s in
      let m = tell_metrics options services why s in
      (
        _,
        reply_each-replied m.recipients (classify_delivery_error why) m
            (rw (ap (λ u. u.recipients) e, ap (λ u. u.flushes) e) h),
        (
          ap (λ u. u.input) e,
          rw (ap (λ u. u.output) e, ap (λ u. u.recipients) e) refl,
          refl,
          refl,
          ap (λ u. u.greeted) e,
          ap (λ u. u.world) e,
        ),
      )

  after_drain-Answered :
      (s : Session W) (why : Option Error) (d : Drain) (rest : Bytes)
      → length s.recipients ≤ s.flushes
      → (r : DataReader) × (d ≡ drained r none) × Behind rest r
      → (t : Session W) × (after_drain options services s why d ≡ next t) × Answered s rest why t
  unfolding after_drain
  after_drain-Answered s why d rest h (r, at, b) =
      rw (at, after_drain)
        (let (t, e, a) = report-Answered why (record s { input = r.input }) h in
          (t, e, (a.0 ∙ b.0, a.1, a.2, a.3, a.4, a.5)))

  -- The call of the receiver that receiveData makes.
  abbrev pub received : Session W → W × DataReader × Option Error
  received s =
      services.receive s.world s.sender (inbox_ids s.recipients)
        (new_data_reader s.input s.ending options.max_message_bytes options.max_data_line_bytes)

  -- DATA: if the peer sends some lines, then a lone dot, then `rest`, and takes the replies, the session
  -- goes on with `rest` as its next commands, whatever the receiver returned and however
  -- much of the message it read, as long as it touches the reader by Read alone and the limit of a line
  -- is positive; each recipient gets one reply, all with the verdict on the receiver's error, in the
  -- order of the RCPT commands; and the transaction is over.
  pub receive_data-Answered :
      (s : Session W) (bs : List Bytes) (stop rest : Bytes)
      → ReadsOnly
      → All IsBodyLine bs
      → IsStop stop
      → s.input ≡ wire bs (stop ++ lf ∷ rest)
      → 1 ≤ options.max_data_line_bytes
      → length s.recipients ≤ s.flushes
      → (t : Session W) × (receive_data options services s ≡ next t)
        × Answered (record s { world = (received s).0 }) rest (received s).2 t
  unfolding receive_data finish_data new_data_reader
  receive_data-Answered s bs stop rest reads lines is_stop at lim room =
      let (w, r, why) = received s in
      after_drain-Answered (record s { world = w }) why (drain r) rest room
        (drain-Behind stop rest is_stop r (
          Uses-Framed stop rest is_stop _ (reads s.world s.sender (inbox_ids s.recipients) _)
            (inl (bs, lines, at, refl, lim))))
