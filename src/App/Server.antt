-- ===== src/App/Server.antt =====
-- backend/internal/server/server.go: StartAndServe, with the signals and the exit status of
-- backend/cmd/pihole-cluster-admin/root.go.
--
-- A step is one atomic step of the goroutine that listens, of the goroutine that waits for a signal,
-- or of StartAndServe. What ListenAndServe, ListenAndServeTLS and Shutdown return is left open.
pub mod Laws
mod Tests
use pihole_cluster_admin.Prelude.{
  ℕ, Bool, true, false, Option, none, some, List, [], ◌∷◌, if◌then◌else◌,
}
use pihole_cluster_admin.Httpx.{GoError}

-- The goroutine that listens
pub data Listener : Type 0 where
  serving closed : Listener
  down : GoError → Listener

-- StartAndServe, and what it has returned
pub data Main : Type 0 where
  waiting shutting_down : Main
  returned : Option GoError → Main

pub record Server : Type 0 where
  pub listener : Listener
  pub main : Main
  pub is_done : Bool

abbrev pub started : Server
started = record { listener = serving; main = waiting; is_done = false }

pub data Event : Type 0 where
  -- The listening ends with an error other than ErrServerClosed.
  listen_failed : GoError → Event
  -- SIGINT or SIGTERM, and `cancel()`
  signalled : Event
  -- StartAndServe
  woken : Event
  shut : Option GoError → Event

-- The error is only logged.
unfoldable pub fail_listener : GoError → Listener → Server → Option Server
fail_listener e serving s = some (record s { listener = down e })
fail_listener e _ s = none

-- `<-ctx.Done()`
unfoldable pub wake : Main → Server → Option Server
wake waiting s = if s.is_done then some (record s { main = shutting_down }) else none
wake _ s = none

abbrev pub close_listener : Listener → Listener
close_listener serving = closed
close_listener closed = closed
close_listener (down e) = down e

-- `s.http.Shutdown(shutdownCtx)` with what it returns
unfoldable pub shut_down : Option GoError → Main → Server → Option Server
shut_down r shutting_down s =
    some (record s { listener = close_listener s.listener; main = returned r })
shut_down r _ s = none

-- A step, or `none` if it cannot be taken now.
unfoldable pub step : Event → Server → Option Server
unfolding fail_listener wake shut_down
step (listen_failed e) s = fail_listener e s.listener s
step signalled s = some (record s { is_done = true })
step woken s = wake s.main s
step (shut r) s = shut_down r s.main s

abbrev pub and_then : Option Server → (Server → Option Server) → Option Server
and_then none f = none
and_then (some s) f = f s

unfoldable pub run : List Event → Server → Option Server
unfolding step
run [] s = some s
run (e ∷ es) s = and_then (step e s) (run es)

-- `os.Exit(1)` of Execute for an error of the command
unfoldable pub exit_status : Option GoError → ℕ
exit_status none = 0
exit_status (some e) = 1
