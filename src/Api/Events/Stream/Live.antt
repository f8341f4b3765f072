-- ===== src/Api/Events/Stream/Live.antt =====
-- A stream beside the broker in use: the steps of both, with those of the other subscriptions.
use pihole_cluster_admin.Prelude.{
  ℕ, ◌≡◌, ◌≢◌, String, Bool, true, false, Option, none, some, List, ◌∷◌, lookup, delete, nat_eq,
}
use pihole_cluster_admin.Realtime.{Event, Broker, subscribe, cancel, publish, receive}
use pihole_cluster_admin.Realtime.Laws.{elem}
use pihole_cluster_admin.Realtime.Sound.{System, Reaches}
use pihole_cluster_admin.Api.Events.Stream.{
  Handling, cancelled, Stream, open_stream, Action, disconnects, takes, sees_close, relay_done,
  hands, pings, out_closed, handler_done, cancels, offer_event, step,
}

-- Whether the stream still has a subscription to the topic
abbrev pub hears : List String → String → Handling → Bool
hears topics topic cancelled = false
hears topics topic _ = elem topic topics

abbrev pub hear : Bool → Event → Stream → Option Stream
hear true e s = offer_event e s
hear false e s = some s

-- The steps that the broker does not see
abbrev pub IsInner : Action → Type 0
IsInner disconnects = Unit {0}
IsInner sees_close = Unit
IsInner relay_done = Unit
IsInner (hands room) = Unit
IsInner (pings room) = Unit
IsInner out_closed = Unit
IsInner handler_done = Unit
IsInner _ = ⊥

-- The broker with its subscriptions and the stream that has the channel `ch`: from Subscribe on,
-- through steps of the one, of the other or of both.
pub data Live (ch : ℕ) (topics : List String) : System → Stream → Type 0 where
  opens :
      (sys : System)
      → Reaches sys
      → lookup ch sys.broker.channels ≡ none
      → Live ch topics
          (record {
            broker = subscribe topics ch sys.broker;
            uncancelled = (ch, topics) ∷ sys.uncancelled;
          })
          open_stream
  publishes :
      (sys : System) (s t : Stream) (topic text : String) (b : Broker)
      → Live ch topics sys s
      → publish topic text sys.broker ≡ some b
      → hear (hears topics topic s.handler) (record { topic = topic; data_text = text }) s ≡ some t
      → Live ch topics (record sys { broker = b }) t
  other_subscribes :
      (sys : System) (s : Stream) (theirs : List String) (c : ℕ)
      → Live ch topics sys s
      → lookup c sys.broker.channels ≡ none
      → Live ch topics
          (record {
            broker = subscribe theirs c sys.broker;
            uncancelled = (c, theirs) ∷ sys.uncancelled;
          })
          s
  other_cancels :
      (sys : System) (s : Stream) (theirs : List String) (c : ℕ)
      → Live ch topics sys s
      → c ≢ ch
      → lookup c sys.uncancelled ≡ some theirs
      → Live ch topics
          (record { broker = cancel theirs c sys.broker; uncancelled = delete c sys.uncancelled })
          s
  other_receives :
      (sys : System) (s : Stream) (c : ℕ)
      → Live ch topics sys s
      → c ≢ ch
      → Live ch topics (record sys { broker = receive c sys.broker }) s
  receives :
      (sys : System) (s t : Stream)
      → Live ch topics sys s
      → step takes s ≡ some t
      → Live ch topics (record sys { broker = receive ch sys.broker }) t
  unsubscribes :
      (sys : System) (s t : Stream)
      → Live ch topics sys s
      → step cancels s ≡ some t
      → Live ch topics
          (record { broker = cancel topics ch sys.broker; uncancelled = delete ch sys.uncancelled })
          t
  acts :
      (sys : System) (s t : Stream) (a : Action)
      → Live ch topics sys s
      → IsInner a
      → step a s ≡ some t
      → Live ch topics sys t
