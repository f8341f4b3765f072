-- ===== src/App/Server/Laws.antt =====
-- What becomes of a server that cannot listen.
use pihole_cluster_admin.Prelude.{
  ◌≡◌, refl, subst, true, false, Option, none, some, List, [], ◌∷◌, All, arith,
}
use pihole_cluster_admin.Httpx.{GoError}
use pihole_cluster_admin.App.Server.{
  down, waiting, returned, Server, started, Event, listen_failed, signalled, woken, shut,
  fail_listener, wake, shut_down, step, run, and_then, exit_status,
}

abbrev pub IsUnsignalled : Event → Type 0
IsUnsignalled signalled = ⊥
IsUnsignalled _ = Unit

pub record IsWaiting (s : Server) : Type 0 where
  pub at_wait : s.main ≡ waiting
  pub not_done : s.is_done ≡ false

abbrev pub Keeps : Option Server → Type 0
Keeps none = Unit
Keeps (some s) = IsWaiting s

step-IsWaiting : (e : Event) (s : Server) → IsUnsignalled e → IsWaiting s → Keeps (step e s)
unfolding step fail_listener wake shut_down
step-IsWaiting (listen_failed x) s quiet w = ground arith
step-IsWaiting signalled s quiet w = absurd quiet
step-IsWaiting woken s quiet w = ground arith
step-IsWaiting (shut r) s quiet w = ground arith

then_kept :
    (o : Option Server) (f : Server → Option Server)
    → Keeps o
    → ((t : Server) → IsWaiting t → Keeps (f t))
    → Keeps (and_then o f)
then_kept none f k rest = tt
then_kept (some t) f k rest = rest t k

pub run-IsWaiting :
    (es : List Event) (s : Server) → All IsUnsignalled es → IsWaiting s → Keeps (run es s)
unfolding run
run-IsWaiting [] s quiet w = w
run-IsWaiting (e ∷ es) s (quiet, all_quiet) w =
    then_kept (step e s) (run es) (step-IsWaiting e s quiet w) (λ t. run-IsWaiting es t all_quiet)

-- Whatever happens before a signal, StartAndServe does not return, also if the server cannot
-- listen; and after the signal and a shutdown without an error it has returned no error, so the
-- program ends with the status 0, and what the listening failed with is lost.
pub listen_failure_hidden :
    (es : List Event) (s : Server) (e : GoError)
    → All IsUnsignalled es
    → run es started ≡ some s
    → s.listener ≡ down e
    → (s.main ≡ waiting)
      × (run (signalled ∷ woken ∷ shut none ∷ []) s
          ≡ some (record { listener = down e; main = returned none; is_done = true }))
      × (exit_status none ≡ 0)
unfolding run step fail_listener wake shut_down exit_status
listen_failure_hidden es s e quiet ran failed =
    let w : IsWaiting s =
      subst Keeps ran
        (run-IsWaiting es started quiet (record { at_wait = refl; not_done = refl })) in
    (w.at_wait, rw (w.at_wait, failed) refl, refl)
