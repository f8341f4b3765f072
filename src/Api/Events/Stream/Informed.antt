-- ===== src/Api/Events/Stream/Informed.antt =====
-- The way of a sweep of the health service to the browser: through the broker into a stream.
use mathlib.Core.List.{append_assoc}
use mathlib.Core.Path.{ap₂}
use pihole_cluster_admin.Prelude.{
  ℕ, suc, ◌+◌, ◌≤◌, ◌<◌, ℤ, ◌≡◌, refl, sym, ◌∙◌, ap, subst, String, true, Option, none, some, List,
  [], ◌∷◌, ◌++◌, length, nat_eq, arith,
}
use pihole_cluster_admin.Httpx.{ok}
use pihole_cluster_admin.Realtime.{Event, Broker, capacity, publish, offer}
use pihole_cluster_admin.Realtime.Laws.{elem}
use pihole_cluster_admin.Realtime.Sound.{System}
use pihole_cluster_admin.Pihole.Cluster.{ClientPort, Cluster}
use pihole_cluster_admin.Health.{Service, values}
use pihole_cluster_admin.Health.Sweep.{Encoders, sweep, publish_health, publish_text, and_then}
use pihole_cluster_admin.Api.Events.Stream.{Handling, selecting, Stream, offer_event}
use pihole_cluster_admin.Api.Events.Stream.Live.{hears, hear, Live, publishes}
use pihole_cluster_admin.Api.Events.Stream.Follows.{stream_follows}

-- What an event adds to a stream that has room for it
abbrev Grows : Event → Stream → Option Stream → Type 0
Grows e s none = Unit
Grows e s (some t) =
    (t.accepted ≡ s.accepted ++ (e ∷ []))
    × (length t.channel.queue ≡ suc (length s.channel.queue))
    × (t.handler ≡ s.handler)

length-snoc : (es : List Event) (e : Event) → length (es ++ (e ∷ [])) ≡ suc (length es)
length-snoc [] e = refl
length-snoc (x ∷ es) e = ap suc (length-snoc es e)

offer_event-Grows :
    (e : Event) (s : Stream) → length s.channel.queue < capacity → Grows e s (offer_event e s)
unfolding offer_event offer
offer_event-Grows e s room = ground (arith, length-snoc s.channel.queue e)

hears-in_loop :
    (topics : List String) (topic : String) (h : Handling)
    → h ≡ selecting
    → elem topic topics ≡ true
    → hears topics topic h ≡ true
hears-in_loop topics topic h at listed = cc

module _ (ch : ℕ) (topics : List String) where
  -- A publication to a stream in its loop that has room
  published_to :
      (sys : System) (s : Stream) (topic text : String)
      → Live ch topics sys s
      → s.handler ≡ selecting
      → elem topic topics ≡ true
      → length s.channel.queue < capacity
      → (b : Broker) × (t : Stream) × (publish topic text sys.broker ≡ some b)
        × Live ch topics (record sys { broker = b }) t
        × Grows (record { topic = topic; data_text = text }) s (some t)
  published_to sys s topic text live at listed room =
      let e : Event = record { topic = topic; data_text = text } in
      let (same, from_run, follows) = stream_follows ch topics sys s live in
      let (b, t, done, took, after) = follows topic text in
      let heard = hears-in_loop topics topic s.handler at listed in
      let offered_now : offer_event e s ≡ some t = sym (ap (λ x. hear x e s) heard) ∙ took in
      (
        b,
        t,
        done,
        publishes sys s t topic text b live done took,
        subst (Grows e s) offered_now (offer_event-Grows e s room),
      )

  -- If a stream with the topics of the health is in its loop and has room for two events, then a
  -- sweep over the cluster whose summary and list can be written as JSON ends without a panic, and
  -- the stream has accepted the event of the summary and then that of the list, in step with the
  -- broker.
  pub sweep_reaches_stream :
      {C : Type 0} (port : ClientPort C) (encoders : Encoders) (order : List ℤ) (now later : ℕ)
      (c : Cluster C) (service : Service) (sys : System) (s : Stream) (first second_text : String)
      → Live ch topics sys s
      → s.handler ≡ selecting
      → elem "health_summary" topics ≡ true
      → elem "node_health" topics ≡ true
      → 2 + length s.channel.queue ≤ capacity
      → encoders.summary_json (sweep port encoders order now later c service sys.broker).0.summary
        ≡ ok first
      → encoders.nodes_json
          (values (sweep port encoders order now later c service sys.broker).0.node_health)
        ≡ ok second_text
      → (b : Broker) × (t : Stream) × ((sweep port encoders order now later c service
            sys.broker).1.1
          ≡ some b)
        × Live ch topics (record sys { broker = b }) t
        × (t.accepted
            ≡ s.accepted
              ++ (record { topic = "health_summary"; data_text = first }
                  ∷ record { topic = "node_health"; data_text = second_text }
                  ∷ []))
  unfolding sweep publish_health publish_text
  sweep_reaches_stream port encoders order now later c service sys s first second_text live at
        summary_listed nodes_listed room one two =
      let (b, t, done, live', grown) =
        published_to sys s "health_summary" first live at summary_listed (omega arith) in
      let (b', t', done', live'', grown') =
        published_to (record sys { broker = b }) t "node_health" second_text live' (grown.2 ∙ at)
          nodes_listed (omega (arith, grown.1)) in
      (
        b',
        t',
        ap₂
              (λ x y.
                and_then (publish_text "health_summary" x sys.broker)
                  (publish_text "node_health" y))
              one two
            ∙ ap (λ o. and_then o (publish "node_health" second_text)) done
            ∙ done',
        live'',
        grown'.0
            ∙ ap (λ l. l ++ (record { topic = "node_health"; data_text = second_text } ∷ []))
                grown.0
            ∙ append_assoc s.accepted _ _,
      )
