-- ===== src/Health/Loop/Tests.antt =====
-- Runs of the loop with one subscriber that comes, and with two that come and go.
use pihole_cluster_admin.Prelude.{◌<◌, ◌≡◌, ◌⊎◌, refl, true, false, some, [], ◌∷◌, arith}
use pihole_cluster_admin.Health.Loop.{
  idle_wait, active, Polling, start, joined, left, poke, go_on, signalled, tick, run, step, select,
  proceed, broker_step,
}
use pihole_cluster_admin.Health.Loop.Laws.{run_wakes}

abbrev waiting : Polling
waiting = record { place = idle_wait; n = 1; unpoked = 0; poked = true; sweeps = 0 }

run_wakes_example :
    (0 < 0)
    ⊎ (run true (signalled ∷ go_on ∷ go_on ∷ []) waiting
        ≡ some (record { place = active; n = 1; unpoked = 0; poked = false; sweeps = 1 }))
unfolding run step select proceed broker_step
run_wakes_example = run_wakes true (go_on ∷ joined ∷ poke ∷ []) waiting refl refl (omega arith)

-- During the grace period a second subscriber comes and goes. One signal is left, which the loop
-- takes for a subscriber that has come back: it goes on, nobody listens and no signal is pending.
sweeps_for_nobody :
    run true
      (go_on ∷ joined ∷ poke ∷ signalled ∷ go_on ∷ go_on ∷ left ∷ poke ∷ signalled ∷ go_on ∷ joined
        ∷ poke ∷ left ∷ poke ∷ signalled ∷ tick ∷ tick ∷ [])
      start
    ≡ some (record { place = active; n = 0; unpoked = 0; poked = false; sweeps = 3 })
unfolding run step select proceed broker_step
sweeps_for_nobody = refl
