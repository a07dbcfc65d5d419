-- ===== src/Lmtp/Server/Admission.antt =====
-- How many sessions Serve lets run, and what it counts.
use mailwisp.Common.{ℕ, ◌+◌, ◌≤◌, ◌≡◌, arith}
use mailwisp.Lmtp.Server.{
  Serving, on_accept, ServeStep, accepts, fails, ends, releases, finishes, Serves, starts, goes_on,
  Returned,
}

-- The semaphore holds the sessions that run or have not given it back, at most `max_sessions`; the wait group
-- holds every goroutine; and what was opened is closed or runs.
pub record Balanced (max_sessions : ℕ) (s : Serving) : Type 0 where
  pub capped : s.running + s.told ≤ max_sessions
  pub counted : s.semaphore ≡ s.running + s.told
  pub awaited : s.wait_group ≡ s.running + s.told + s.released
  pub metered : s.opened ≡ s.closed + s.running

step-Balanced :
    (max_sessions : ℕ) {s t : Serving}
    → ServeStep max_sessions s t
    → Balanced max_sessions s
    → Balanced max_sessions t
unfolding on_accept
step-Balanced max_sessions (accepts s on) b = ground arith
step-Balanced max_sessions (fails s) b = ground arith
step-Balanced max_sessions (ends s n at) b = ground arith
step-Balanced max_sessions (releases s n m at sem) b = ground arith
step-Balanced max_sessions (finishes s n m at group) b = ground arith

-- In every order of the steps of Serve and its sessions, no more than `max_sessions` sessions run or hold the
-- semaphore, the semaphore and the wait group count them, and the sessions opened are those closed
-- and those that run.
pub Serves-Balanced :
    (max_sessions : ℕ) {s : Serving} → Serves max_sessions s → Balanced max_sessions s
Serves-Balanced max_sessions starts = ground arith
Serves-Balanced max_sessions (goes_on before step) =
    step-Balanced max_sessions step (Serves-Balanced max_sessions before)

-- When Serve has returned, no session runs, the semaphore is free, and the metrics have as many sessions closed
-- as opened.
pub Returned-balance :
    (max_sessions : ℕ) {s : Serving}
    → Serves max_sessions s
    → Returned s
    → (s.running ≡ 0) × (s.semaphore ≡ 0) × (s.opened ≡ s.closed)
Returned-balance max_sessions serves (stopped, waited) =
    let b = Serves-Balanced max_sessions serves in ground (arith, b.counted, b.awaited, b.metered)
