-- ===== src/Health/Sweep/Tests.antt =====
-- A sweep over two nodes that answer, with one browser that listens to the summary.
use pihole_cluster_admin.Prelude.{
  ℕ, ℤ, pos, negsuc, ◌*◌, none, ◌*◌, ◌≤◌, ◌<◌, ◌≡◌, refl, some, [], ◌∷◌, lookup, nat_eq, int_eq,
  arith,
}
use pihole_cluster_admin.Domain.{second}
use pihole_cluster_admin.Durations.{int64, duration}
use pihole_cluster_admin.Pihole.Cluster.FanOut.{Covers}
use pihole_cluster_admin.Pihole.Cluster.Sample.{two_nodes}
use pihole_cluster_admin.Realtime.{new_broker, subscribe}
use pihole_cluster_admin.Realtime.Sound.{System, Reaches, started, next, subscribed}
use pihole_cluster_admin.Health.Sweep.{sweep, rand_int63n, jitter, active_interval}
use pihole_cluster_admin.Health.Sweep.Sample.{answering, encoders, late_first, nothing_known}
use pihole_cluster_admin.Health.Sweep.Results.{KnowsIds, health_now}
use pihole_cluster_admin.Health.Sweep.Laws.{DeliversBoth, sweep-Informs, jitter_bounds}

abbrev empty_system : System
empty_system = record { broker = new_broker; uncancelled = [] }

abbrev one_browser : System
one_browser = record {
  broker = subscribe ("health_summary" ∷ []) 0 new_broker;
  uncancelled = (0, "health_summary" ∷ []) ∷ [];
}

one_browser-Reaches : Reaches one_browser
unfolding new_broker lookup
one_browser-Reaches =
    next empty_system one_browser started (subscribed empty_system ("health_summary" ∷ []) 0 refl)

late_first-Covers : Covers late_first two_nodes.clients
unfolding lookup
late_first-Covers id h = ground arith

two_nodes-KnowsIds : KnowsIds answering two_nodes
unfolding lookup
two_nodes-KnowsIds id client h = ground arith

sweep-Informs_example :
    ((id : ℤ)
      → lookup id
          (sweep answering encoders late_first 5 6 two_nodes nothing_known
            one_browser.broker).0.node_health
        ≡ health_now answering 5 two_nodes nothing_known id)
    × DeliversBoth one_browser "1 of 2" "nodes"
        (sweep answering encoders late_first 5 6 two_nodes nothing_known one_browser.broker).1.1
sweep-Informs_example =
    sweep-Informs answering encoders late_first 5 6 two_nodes nothing_known one_browser "1 of 2"
      "nodes" late_first-Covers two_nodes-KnowsIds one_browser-Reaches refl refl

jitter_bounds_example :
    (p : ℕ) × (jitter 17 (active_interval (pos 5)) ≡ some (pos p))
    × (0 < p)
    × (4 * (5 * second) ≤ 5 * p)
    × (5 * p < 6 * (5 * second))
jitter_bounds_example = jitter_bounds 17 5 (omega arith) (omega arith)

-- 10,000,000,000 seconds wrap to a negative period, and 2 ^ 55 seconds to a modulus that panics.
long_period : jitter 0 (active_interval (pos 10000000000)) ≡ some (negsuc 6757395258967641292)
unfolding jitter rand_int63n active_interval duration int64
long_period = refl

no_period : jitter 0 (active_interval (pos 36028797018963968)) ≡ none
unfolding jitter rand_int63n active_interval duration int64
no_period = refl
