-- ===== src/Lmtp/Session/Run.antt =====
-- run of internal/lmtp/session.go: the greeting and the loop over the commands.
use mailwisp.Common.{
  ℕ, zero, suc, ◌-◌, Bool, true, false, Option, none, some, [], ◌++◌, codes, Error, eof, net_closed,
  length, ◌==◌, if◌then◌else◌,
}
use mailwisp.Lmtp.Line.{Line, line, too_long, failed, stuck, read_limited_line}
use mailwisp.Lmtp.Session.State.{
  Options, Services, Session, Step, next, return, hangs, send, answer, deadline_failed,
}
use mailwisp.Lmtp.Session.Transaction.{on_line}

-- How run ends: with its error, or (in the model alone) with one of its loops out
-- of fuel.
pub data Finish (W : Type 0) : Type 0 where
  finished : Session W → Option Error → Finish W
  out_of_fuel : Session W → Finish W

-- A read error that run takes for the end of the session.
unfoldable pub is_end : Error → Bool
is_end eof = true
is_end net_closed = true
is_end _ = false

module _ {W : Type 0} (options : Options) (services : Services W) where
  -- What a round of the loop does with what readLimitedLine returns.
  unfoldable pub on_read : Session W → Line → Step W
  unfolding send is_end
  on_read s (line command rest) = on_line options services (record s { input = rest }) command
  on_read s (too_long rest) =
      answer (record s { input = rest }) 500 (codes "5.5.2") (codes "Command line too long")
  on_read s (failed e) =
      return (record s { input = [] })
        (if is_end e then none else if s.cancelled then none else some e)
  on_read s stuck = hangs s

  unfoldable pub round_body : Session W → Step W
  unfolding on_read
  round_body s = on_read s (read_limited_line options.max_command_bytes s.ending s.input)

  unfoldable pub round : Session W → Step W
  unfolding round_body
  round s =
      if s.deadlines == 0
      then return s (some deadline_failed)
      else round_body (record s { deadlines = s.deadlines - 1 })

  -- `run` goes on with the session, or returns.
  abbrev pub finish : (Session W → Finish W) → Step W → Finish W
  finish go_on (next s) = go_on s
  finish go_on (return s e) = finished s e
  finish go_on (hangs s) = out_of_fuel s

  -- The loop. A round that goes on has taken something off the input, so that is fuel enough.
  unfoldable pub run_loop : ℕ → Session W → Finish W
  run_loop zero s = out_of_fuel s
  run_loop (suc fuel) s = finish (run_loop fuel) (round s)

  unfoldable pub run : Session W → Finish W
  unfolding run_loop send
  run s =
      finish (λ s'. run_loop (suc (length s'.input)) s')
        (answer s 220 (codes "2.0.0") (options.hostname ++ codes " MailWisp LMTP ready"))
