-- ===== src/Tests/Server.antt =====
-- Examples for the accept loop.
use mailwisp.Common.{◌≡◌, refl, false}
use mailwisp.Lmtp.Server.{
  Serving, serve_start, on_accept, Serves, starts, goes_on, accepts, fails, ends, releases,
  finishes,
}
use mailwisp.Lmtp.Server.Admission.{Balanced, Serves-Balanced, Returned-balance}

-- One session is let in, a second is refused.
abbrev busy : Serving
busy = record serve_start { semaphore = 1; wait_group = 1; opened = 1; rejected = 1; running = 1 }

busy-Serves : Serves 1 busy
unfolding on_accept
busy-Serves =
    goes_on (goes_on starts (accepts serve_start refl))
      (accepts (record serve_start { semaphore = 1; wait_group = 1; opened = 1; running = 1 }) refl)

Serves-Balanced_example : Balanced 1 busy
Serves-Balanced_example = Serves-Balanced 1 busy-Serves

-- The session ends, and the listener is closed.
abbrev over : Serving
over = record serve_start { opened = 1; closed = 1; rejected = 1; accepting = false }

over-Serves : Serves 1 over
over-Serves =
    goes_on
      (goes_on
        (goes_on (goes_on busy-Serves (ends busy 0 refl))
          (releases (record busy { running = 0; told = 1; closed = 1 }) 0 0 refl refl))
        (finishes (record busy { running = 0; closed = 1; semaphore = 0; released = 1 }) 0 0 refl
          refl))
      (fails (record busy { running = 0; closed = 1; semaphore = 0; wait_group = 0 }))

Returned-balance_example : (over.running ≡ 0) × (over.semaphore ≡ 0) × (over.opened ≡ over.closed)
Returned-balance_example = Returned-balance 1 over-Serves (refl, refl)
