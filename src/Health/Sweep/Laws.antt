-- ===== src/Health/Sweep/Laws.antt =====
-- What a sweep tells the service and the browsers.
use mathlib.Core.Path.{ap₂}
use native.Mathlib.Nat.{mod-lt}
use pihole_cluster_admin.Prelude.{
  ℕ, ℤ, pos, ◌+◌, ◌-◌, ◌*◌, ◌/◌, ◌%◌, ◌≤◌, ◌<◌, ◌≡◌, sym, ◌∙◌, ap, subst, String, Bool, Option,
  some, List, int_eq, nat_eq, string_eq, Map, lookup, arith,
}
use pihole_cluster_admin.Httpx.{ok}
use pihole_cluster_admin.Domain.{second}
use pihole_cluster_admin.Durations.{int64, duration}
use pihole_cluster_admin.Pihole.Cluster.{ClientPort, Cluster}
use pihole_cluster_admin.Pihole.Cluster.FanOut.{Covers}
use pihole_cluster_admin.Realtime.{Event, Channel, Broker, publish}
use pihole_cluster_admin.Realtime.Publish.{Delivers}
use pihole_cluster_admin.Realtime.Sound.{System, Reaches, published, next, wanted}
use pihole_cluster_admin.Realtime.Reach.{publish-Delivers}
use pihole_cluster_admin.Health.{Service, values}
use pihole_cluster_admin.Health.Sweep.{
  Encoders, publish_text, and_then, publish_health, sweep, rand_int63n, jitter, active_interval,
}
use pihole_cluster_admin.Health.Sweep.Results.{KnowsIds, health_now, sweep-health}

-- The event of a topic
abbrev pub event : String → String → Event
event topic text = record { topic = topic; data_text = text }

-- The uncancelled subscriptions to a topic
abbrev pub wants : System → String → ℕ → Bool
wants sys topic ch = wanted topic (lookup ch sys.uncancelled)

-- Both events go to the channels of their subscriptions, one after the other, and to no other.
abbrev pub DeliversBoth : System → String → String → Option Broker → Type 0
DeliversBoth sys first second_text published_to =
    (between : Map ℕ Channel) × (after : Map ℕ Channel) × (published_to
      ≡ some (record sys.broker { channels = after }))
    × Delivers (event "health_summary" first) (wants sys "health_summary") sys.broker.channels
        between
    × Delivers (event "node_health" second_text) (wants sys "node_health") between after

publish_both :
    (sys : System) (first second_text : String)
    → Reaches sys
    → DeliversBoth sys first second_text
        (and_then (publish "health_summary" first sys.broker) (publish "node_health" second_text))
publish_both sys first second_text reached =
    let (between, done, delivers) = publish-Delivers sys "health_summary" first reached in
    let mid : System = record sys { broker = record sys.broker { channels = between } } in
    let mid_reached : Reaches mid =
      next sys mid reached
        (published sys "health_summary" first (record sys.broker { channels = between }) done) in
    let (after, done', delivers') = publish-Delivers mid "node_health" second_text mid_reached in
    (
      between,
      after,
      ap (λ o. and_then o (publish "node_health" second_text)) done ∙ done',
      delivers,
      delivers',
    )

-- Whatever the order in which the nodes answer, if each client says the id that it stands under, a
-- sweep records for each node the health that the answer of its own client shows (offline with the
-- text of the error, online for a valid answer and degraded for another, each with the time of the
-- sweep and the latency in milliseconds, 0 for an error), and keeps what is recorded of a node that
-- has no client or whose client panicked. If the broker is reachable and
-- both texts can be made, the sweep then publishes them without a panic: the summary to each
-- uncancelled subscription to health_summary, and after it the list to each to node_health, and
-- nothing to any other channel.
pub sweep-Informs :
    {C : Type 0} (port : ClientPort C) (encoders : Encoders) (order : List ℤ) (now later : ℕ)
    (c : Cluster C) (s : Service) (sys : System) (first second_text : String)
    → Covers order c.clients
    → KnowsIds port c
    → Reaches sys
    → encoders.summary_json (sweep port encoders order now later c s sys.broker).0.summary
      ≡ ok first
    → encoders.nodes_json
        (values (sweep port encoders order now later c s sys.broker).0.node_health)
      ≡ ok second_text
    → ((id : ℤ)
        → lookup id (sweep port encoders order now later c s sys.broker).0.node_health
          ≡ health_now port now c s id)
      × DeliversBoth sys first second_text (sweep port encoders order now later c s sys.broker).1.1
unfolding sweep publish_health publish_text
sweep-Informs port encoders order now later c s sys first second_text all knows reached one two = (
  sweep-health port encoders order now later c s sys.broker all knows,
  subst (DeliversBoth sys first second_text)
      (ap₂
        (λ x y.
          and_then (publish_text "health_summary" x sys.broker) (publish_text "node_health" y))
        (sym one) (sym two))
      (publish_both sys first second_text reached),
)

-- The interval of a number of seconds that an int64 of nanoseconds holds
active_interval-small :
    (k : ℕ) → 1 ≤ k → k ≤ 7000000000 → active_interval (pos k) ≡ pos (k * second)
unfolding active_interval duration int64
active_interval-small k some_seconds small = ground arith

jitter-small :
    (now d : ℕ)
    → 5 ≤ d
    → d ≤ 7000000000000000000
    → (r : ℕ) × (r < 2 * (d / 5)) × (jitter now (pos d) ≡ some (pos ((d - d / 5) + r)))
unfolding jitter rand_int63n int64
jitter-small now d some_time small =
    let n : ℕ = 2 * (d / 5) in (now % n, mod-lt now (omega arith), ground arith)

-- If the configured seconds are between 1 and 7,000,000,000, so that an int64 of nanoseconds holds
-- the interval with its spread, then at every time the period of the ticker can be computed, it is
-- positive, and it is at least four fifths of the interval and less than six fifths of it.
pub jitter_bounds :
    (now k : ℕ)
    → 1 ≤ k
    → k ≤ 7000000000
    → (p : ℕ) × (jitter now (active_interval (pos k)) ≡ some (pos p))
      × (0 < p)
      × (4 * (k * second) ≤ 5 * p)
      × (5 * p < 6 * (k * second))
jitter_bounds now k some_seconds small =
    let d : ℕ = k * second in
    let (r, below, made) = jitter-small now d (omega arith) (omega arith) in
    (
      (d - d / 5) + r,
      ap (jitter now) (active_interval-small k some_seconds small) ∙ made,
      omega arith,
      omega arith,
      omega arith,
    )
