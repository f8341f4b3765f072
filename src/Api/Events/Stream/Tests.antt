-- ===== src/Api/Events/Stream/Tests.antt =====
-- Streams with one event: handed over and shown, cut short, and left behind.
use pihole_cluster_admin.Prelude.{
  String, List, lookup, nat_eq, arith, ◌+◌, ◌≤◌, ◌≡◌, ◌⊎◌, refl, true, false, some, [], ◌∷◌, ◌++◌,
  length, map,
}
use pihole_cluster_admin.Realtime.{Event, offer}
use pihole_cluster_admin.Api.Events.Stream.{
  Piece, event_pieces, piece_text, greeting, write_pieces, Action, waiting, holding, selecting,
  returned, cancelled, Stream, open_stream, offered, disconnects, takes, hands, pings, handler_done,
  cancels, step, run,
}
use pihole_cluster_admin.Api.Events.Stream.Order.{run-IsFaithful, IsShown}
use pihole_cluster_admin.Api.Events.Stream.Ends.{
  stream_ends, relay_leaks, steps_left, CanGoOn, IsOver,
}
use pihole_cluster_admin.Realtime.{Broker, new_broker, subscribe, publish}
use pihole_cluster_admin.Realtime.Sound.{System, started}
use pihole_cluster_admin.Pihole.Cluster.Sample.{two_nodes}
use pihole_cluster_admin.Health.Sweep.{sweep}
use pihole_cluster_admin.Health.Sweep.Sample.{answering, encoders, late_first, nothing_known}
use pihole_cluster_admin.Api.Events.Stream.Live.{hears, hear, Live, opens}
use pihole_cluster_admin.Api.Events.Stream.Follows.{stream_follows}
use pihole_cluster_admin.Api.Events.Stream.Informed.{sweep_reaches_stream}

abbrev health : Event
health = record { topic = "node_health"; data_text = "[]" }

abbrev shown_stream : Stream
unfolding greeting event_pieces
shown_stream = record {
  channel = record { queue = []; is_closed = false };
  relay = waiting;
  handler = returned;
  is_done = false;
  output = greeting ++ (Piece.comment ": ping\n\n" ∷ event_pieces health);
  accepted = health ∷ health ∷ [];
  handed = health ∷ health ∷ [];
}

-- The second event is not written.
run-IsFaithful_example :
    (health ∷ health ∷ [] ≡ health ∷ health ∷ [])
    × IsShown returned shown_stream.output (health ∷ health ∷ [])
unfolding run step open_stream greeting event_pieces write_pieces offer
run-IsFaithful_example =
    run-IsFaithful
      (offered health ∷ offered health ∷ pings 1 ∷ takes ∷ hands 4 ∷ takes ∷ hands 0 ∷ [])
      shown_stream refl

-- The client has gone while the goroutine takes its event.
abbrev gone : Stream
unfolding greeting
gone = record {
  channel = record { queue = health ∷ []; is_closed = false };
  relay = waiting;
  handler = selecting;
  is_done = true;
  output = greeting;
  accepted = health ∷ [];
  handed = [];
}

abbrev left_behind : Stream
unfolding greeting
left_behind = record gone {
  channel = record { queue = []; is_closed = true };
  relay = holding health;
  handler = cancelled;
}

gone_reached : run (offered health ∷ disconnects ∷ []) open_stream ≡ some gone
unfolding run step open_stream greeting offer
gone_reached = refl

stream_ends_example :
    (length (takes ∷ handler_done ∷ cancels ∷ []) + steps_left left_behind ≤ steps_left gone)
    × (CanGoOn left_behind ⊎ IsOver left_behind)
unfolding run step greeting
stream_ends_example =
    stream_ends gone left_behind (takes ∷ handler_done ∷ cancels ∷ []) refl (tt, (tt, (tt, tt)))
      refl

relay_leaks_example : left_behind.relay ≡ holding health
unfolding run step greeting offer
relay_leaks_example =
    relay_leaks health left_behind left_behind (disconnects ∷ []) refl (λ h. cc) refl

event_text :
    map piece_text (event_pieces health) ≡ "event: node_health\n" ∷ "data: " ∷ "[]" ∷ "\n\n" ∷ []
unfolding piece_text event_pieces
event_text = refl

-- A browser that has subscribed to both topics of the health
abbrev both_topics : List String
both_topics = "health_summary" ∷ "node_health" ∷ []

abbrev one_stream : System
one_stream = record {
  broker = subscribe both_topics 0 new_broker;
  uncancelled = (0, both_topics) ∷ [];
}

one_stream-Live : Live 0 both_topics one_stream open_stream
unfolding new_broker lookup
one_stream-Live = opens (record { broker = new_broker; uncancelled = [] }) started refl

stream_follows_example :
    (lookup 0 one_stream.broker.channels ≡ some open_stream.channel)
    × ((actions : List Action) × (run actions open_stream ≡ some open_stream))
    × ((topic text : String)
        → (b : Broker) × (t : Stream) × (publish topic text one_stream.broker ≡ some b)
          × (hear
                (hears both_topics topic open_stream.handler)
                (record { topic = topic; data_text = text })
                open_stream
              ≡ some t)
          × (lookup 0 b.channels ≡ some t.channel))
stream_follows_example = stream_follows 0 both_topics one_stream open_stream one_stream-Live

sweep_reaches_stream_example :
    (b : Broker) × (t : Stream) × ((sweep answering encoders late_first 5 6 two_nodes nothing_known
        one_stream.broker).1.1
      ≡ some b)
    × Live 0 both_topics (record one_stream { broker = b }) t
    × (t.accepted
        ≡ open_stream.accepted
          ++ (record { topic = "health_summary"; data_text = "1 of 2" }
              ∷ record { topic = "node_health"; data_text = "nodes" }
              ∷ []))
unfolding open_stream
sweep_reaches_stream_example =
    sweep_reaches_stream 0 both_topics answering encoders late_first 5 6 two_nodes nothing_known
      one_stream open_stream "1 of 2" "nodes" one_stream-Live refl refl refl (omega arith) refl refl
