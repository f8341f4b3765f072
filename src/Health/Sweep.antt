-- ===== src/Health/Sweep.antt =====
-- A sweep of backend/internal/service/healthservice/service.go over the cluster, with what it
-- publishes through the broker, and the period of the ticker that starts the sweeps.
pub mod Results
pub mod Laws
pub mod Sample
mod Tests
use pihole_cluster_admin.Prelude.{
  ℕ, suc, ◌+◌, ◌-◌, ◌*◌, ◌/◌, ◌%◌, ℤ, pos, pos_part, neg_part, String, Option, none, some, List, [],
  ◌∷◌, Map, ltb_ℤ, if◌then◌else◌, nat_beq, ltb,
}
use pihole_cluster_admin.Httpx.{GoError, Result, ok, err}
use pihole_cluster_admin.Domain.{second}
use pihole_cluster_admin.Durations.{diff, magnitude, int64, duration, quotient}
use pihole_cluster_admin.Pihole.Cluster.{ClientPort, Cluster}
use pihole_cluster_admin.Pihole.Cluster.Rules.{auth_status}
use pihole_cluster_admin.Realtime.{Broker, publish}
use pihole_cluster_admin.Health.{NodeHealth, Summary, Service, values, sweep_once}

-- json.Marshal
pub record Encoders : Type 0 where
  pub summary_json : Summary → Result String
  pub nodes_json : List NodeHealth → Result String

-- Publish unless the text could not be made, which is only logged; `none` is a panic.
unfoldable pub publish_text : String → Result String → Broker → Option Broker
unfolding publish
publish_text topic (err e) b = some b
publish_text topic (ok text) b = publish topic text b

abbrev pub and_then : Option Broker → (Broker → Option Broker) → Option Broker
and_then none f = none
and_then (some b) f = f b

-- The two publications of recomputeLocked
unfoldable pub publish_health : Encoders → Service → Broker → Option Broker
unfolding publish_text values
publish_health encoders s b =
    and_then (publish_text "health_summary" (encoders.summary_json s.summary) b)
      (publish_text "node_health" (encoders.nodes_json (values s.node_health)))

module _ {C : Type 0} (port : ClientPort C) (encoders : Encoders) where
  -- The service, the cluster and the broker after a sweep; `order` is that in which the nodes
  -- answer, and the times are those of the results and of the summary.
  unfoldable pub sweep :
      List ℤ → ℕ → ℕ → Cluster C → Service → Broker → Service × (Cluster C × Option Broker)
  unfolding auth_status sweep_once publish_health
  sweep order now later c s b =
      let (results, c') = auth_status port order c in
      let s' = sweep_once now later results s in (s', (c', publish_health encoders s' b))

-- randInt63n: the remainder has the sign of the time, and `n % 0` panics.
unfoldable pub rand_int63n : ℕ → ℤ → Option ℕ
rand_int63n now n = if nat_beq (magnitude n) 0 then none else some (now % magnitude n)

-- `2*j`, which an int64 holds for a fifth of an int64
abbrev pub double : ℤ → ℤ
double j = diff (2 * pos_part j) (2 * neg_part j)

-- `d - j + time.Duration(r)`
abbrev pub spread : ℤ → ℤ → Option ℕ → Option ℤ
spread d j none = none
spread d j (some r) = some (int64 (diff (pos_part d + neg_part j + r) (neg_part d + pos_part j)))

-- jitter
unfoldable pub jitter : ℕ → ℤ → Option ℤ
unfolding rand_int63n int64
jitter now d = let j = quotient d 5 in spread d j (rand_int63n now (double j))

-- `activeInterval` of loop: `time.Duration(max(1, s.cfg.PollingIntervalSeconds)) * time.Second`
unfoldable pub active_interval : ℤ → ℤ
unfolding duration
active_interval seconds = duration (if ltb_ℤ (pos 1) seconds then seconds else pos 1) second
