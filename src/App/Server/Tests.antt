-- ===== src/App/Server/Tests.antt =====
-- A port that is taken.
use pihole_cluster_admin.Prelude.{◌≡◌, refl, true, none, some, [], ◌∷◌}
use pihole_cluster_admin.Httpx.{GoError, other}
use pihole_cluster_admin.App.Server.{
  Server, down, waiting, returned, started, listen_failed, signalled, woken, shut, fail_listener,
  step, run, exit_status,
}
use pihole_cluster_admin.App.Server.Laws.{listen_failure_hidden}

abbrev taken : GoError
taken = other "listen tcp :8081: bind: address already in use"

abbrev deaf : Server
deaf = record started { listener = down taken }

listen_failure_hidden_example :
    (deaf.main ≡ waiting)
    × (run (signalled ∷ woken ∷ shut none ∷ []) deaf
        ≡ some (record { listener = down taken; main = returned none; is_done = true }))
    × (exit_status none ≡ 0)
unfolding run step fail_listener
listen_failure_hidden_example =
    listen_failure_hidden (listen_failed taken ∷ []) deaf taken (tt, tt) refl refl
