-- ===== src/Lmtp/Session/Total.antt =====
-- run comes to an end: each round takes something off the input.
use mailwisp.Common.{
  ℕ, zero, suc, ◌-◌, ◌≤◌, ◌<◌, ◌≡◌, refl, Option, Error, length, ◌==◌, if_cases, arith,
}
use mailwisp.Lmtp.Line.{Line, line, too_long, failed, stuck}
use mailwisp.Lmtp.Line.Progress.{Progress, read_limited_line-Progress}
use mailwisp.Lmtp.Session.State.{Options, Services, Session, Step, next, return, hangs}
use mailwisp.Lmtp.Session.Run.{on_read, round, round_body, Finish, finish, finished, run_loop, run}
use mailwisp.Lmtp.Session.Data.{ReadsOnly}
use mailwisp.Lmtp.Session.Input.{Ends, on_line-Within, send-Within}

-- A step that goes on leaves less than `n` bytes of input, and no step hangs.
abbrev Advances : {W : Type 0} → ℕ → Step W → Type 0
Advances n (next s) = length s.input < n
Advances n (return s e) = Unit
Advances n (hangs s) = ⊥

module _ {W : Type 0} (options : Options) (services : Services W)
    (reads : ReadsOnly options services) where
  Advances-Ends :
      (m n : ℕ) (step : Step W) → m < n → Ends (λ s. length s.input ≤ m) step → Advances n step
  Advances-Ends m n (next s) lt h = omega arith
  Advances-Ends m n (return s e) lt h = tt
  Advances-Ends m n (hangs s) lt h = absurd h

  on_read-Advances :
      (s : Session W) (l : Line)
      → Progress options.max_command_bytes s.ending (length s.input) l
      → Advances (length s.input) (on_read options services s l)
  unfolding on_read
  on_read-Advances s (line command rest) p = Advances-Ends (length rest) (length s.input) _ p.1 (
      on_line-Within options services reads (length rest) (record s { input = rest }) command
        (omega arith))
  on_read-Advances s (too_long rest) p =
      Advances-Ends (length rest) (length s.input) _ p (
        send-Within options services reads (length rest) (record s { input = rest }) _
          (omega arith))
  on_read-Advances s (failed e) p = tt
  on_read-Advances s stuck p = absurd p

  round-Advances : (s : Session W) → Advances (length s.input) (round options services s)
  unfolding round round_body
  round-Advances s =
      if_cases (Advances (length s.input)) (s.deadlines == 0) (λ _. tt)
        λ _.
          on_read-Advances (record s { deadlines = s.deadlines - 1 }) _
            (read_limited_line-Progress options.max_command_bytes s.ending s.input)

  -- How a run that came to an end did so.
  abbrev pub Returns : Finish W → Type 0
  Returns m = (t : Session W) × (e : Option Error) × (m ≡ finished t e)

  finish-Returns :
      (n : ℕ) (go_on : Session W → Finish W) (m : Step W)
      → Advances n m
      → ((s : Session W) → length s.input < n → Returns (go_on s))
      → Returns (finish options services go_on m)
  finish-Returns n go_on (next s) h rest = rest s h
  finish-Returns n go_on (return s e) h rest = (s, e, refl)
  finish-Returns n go_on (hangs s) h rest = absurd h

  run_loop-Returns :
      (fuel : ℕ) (s : Session W)
      → length s.input < fuel
      → Returns (run_loop options services fuel s)
  unfolding run_loop
  run_loop-Returns zero s h = absurd (omega arith)
  run_loop-Returns (suc fuel) s h =
      finish-Returns (length s.input) _ _ (round-Advances s)
        λ t lt. run_loop-Returns fuel t (omega arith)

  start-Returns :
      (n : ℕ) (m : Step W)
      → Ends (λ s. length s.input ≤ n) m
      → Returns
          (finish options services (λ t. run_loop options services (suc (length t.input)) t) m)
  start-Returns n (next s) h = run_loop-Returns (suc (length s.input)) s (omega arith)
  start-Returns n (return s e) h = (s, e, refl)
  start-Returns n (hangs s) h = absurd h

  -- A session returns, whatever finite input the peer sends and whatever the resolver and the receiver
  -- answer, if the receiver touches the reader of a message by Read alone: neither the loop over the
  -- commands nor a loop within it (readLimitedLine, drain) runs on for ever.
  pub run-Returns : (s : Session W) → Returns (run options services s)
  unfolding run
  run-Returns s =
      start-Returns (length s.input) _
        (send-Within options services reads (length s.input) s _ (omega arith))
