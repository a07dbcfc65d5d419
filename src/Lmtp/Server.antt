-- ===== src/Lmtp/Server.antt =====
-- internal/lmtp/server.go: the checks of NewServer, and Serve as a step relation on its counters.
pub mod Admission
use mailwisp.Common.{
  ℕ, zero, suc, ◌+◌, ◌≡◌, refl, Bool, true, false, not, ◌&&◌, ◌||◌, Bytes, codes, ℤ, pos, negsuc,
  Error, text, Result, ok, err, ◌>>=◌, ◌>>◌, guard, length, trim_space, ltb, ◌==◌, if◌then◌else◌,
}
use mailwisp.Lmtp.Session.State.{Options}

-- lmtp.Options as it is configured; durations are nanoseconds.
pub record ServerOptions : Type 0 where
  pub hostname : Bytes
  pub max_message_bytes : ℤ
  pub max_command_bytes : ℤ
  pub max_data_line_bytes : ℤ
  pub max_recipients : ℤ
  pub max_sessions : ℤ
  pub session_timeout : ℤ
  pub delivery_timeout : ℤ

-- `n > 0`
abbrev pub is_positive : ℤ → Bool
is_positive (pos zero) = false
is_positive (pos (suc n)) = true
is_positive (negsuc n) = false

-- The value of a limit that is positive
abbrev pub limit : ℤ → ℕ
limit (pos n) = n
limit (negsuc n) = 0

-- NewServer; the last argument says that resolver, receiver and logger are there.
unfoldable pub new_server : ServerOptions → Bool → Result (Unit {0})
unfolding trim_space
new_server o complete = do
  guard (not (length (trim_space o.hostname) == 0)) (text (codes "LMTP hostname is required"))
  guard
      (is_positive o.max_message_bytes
        && is_positive o.max_command_bytes
        && is_positive o.max_data_line_bytes)
      (text (codes "LMTP byte limits must be positive"))
  guard (is_positive o.max_recipients && is_positive o.max_sessions)
      (text (codes "LMTP concurrency limits must be positive"))
  guard (is_positive o.session_timeout && is_positive o.delivery_timeout)
      (text (codes "LMTP timeouts must be positive"))
  guard (not (ltb (limit o.session_timeout) (limit o.delivery_timeout)))
      (text (codes "LMTP session timeout must not be shorter than delivery timeout"))
  guard complete (text (codes "LMTP server is incomplete"))

-- The options that the sessions of a server read
abbrev pub session_options : ServerOptions → Options
session_options o = record {
  hostname = o.hostname;
  max_message_bytes = limit o.max_message_bytes;
  max_command_bytes = limit o.max_command_bytes;
  max_data_line_bytes = limit o.max_data_line_bytes;
  max_recipients = limit o.max_recipients;
}

-- The counters of Serve: the semaphore and the wait group as they stand, the metrics, and how many of the
-- goroutines are in serveConnection, behind LMTPSessionClosed, and behind the semaphore.
pub record Serving : Type 0 where
  pub semaphore : ℕ
  pub wait_group : ℕ
  pub opened : ℕ
  pub closed : ℕ
  pub rejected : ℕ
  pub running : ℕ
  pub told : ℕ
  pub released : ℕ
  pub accepting : Bool

abbrev pub serve_start : Serving
serve_start = record {
  semaphore = 0;
  wait_group = 0;
  opened = 0;
  closed = 0;
  rejected = 0;
  running = 0;
  told = 0;
  released = 0;
  accepting = true;
}

-- What Serve does with a connection: the select on the semaphore.
unfoldable pub on_accept : ℕ → Serving → Serving
on_accept max_sessions s =
    if ltb s.semaphore max_sessions
    then record s {
      semaphore = s.semaphore + 1;
      wait_group = s.wait_group + 1;
      opened = s.opened + 1;
      running = s.running + 1;
    }
    else record s { rejected = s.rejected + 1 }

-- The steps of Serve and of its goroutines, in any order. A goroutine that ends runs its deferred calls one
-- by one, the last first: LMTPSessionClosed, the semaphore, and the wait group.
pub data ServeStep (max_sessions : ℕ) : Serving → Serving → Type 0 where
  accepts : (s : Serving) → s.accepting ≡ true → ServeStep max_sessions s (on_accept max_sessions s)
  fails : (s : Serving) → ServeStep max_sessions s (record s { accepting = false })
  ends :
      (s : Serving) (n : ℕ)
      → s.running ≡ suc n
      → ServeStep max_sessions s
          (record s { running = n; told = s.told + 1; closed = s.closed + 1 })
  releases :
      (s : Serving) (n m : ℕ)
      → s.told ≡ suc n
      → s.semaphore ≡ suc m
      → ServeStep max_sessions s (record s { told = n; semaphore = m; released = s.released + 1 })
  finishes :
      (s : Serving) (n m : ℕ)
      → s.released ≡ suc n
      → s.wait_group ≡ suc m
      → ServeStep max_sessions s (record s { released = n; wait_group = m })

pub data Serves (max_sessions : ℕ) : Serving → Type 0 where
  starts : Serves max_sessions serve_start
  goes_on :
      {s t : Serving} → Serves max_sessions s → ServeStep max_sessions s t → Serves max_sessions t

-- Serve has returned: it accepts no more, and sessions.Wait() is through.
abbrev pub Returned : Serving → Type 0
Returned s = (s.accepting ≡ false) × (s.wait_group ≡ 0)
