-- ===== src/Api/Events/Stream.antt =====
-- The stream of events of backend/internal/handler/eventshandler/handler.go, with the goroutine of
-- backend/internal/service/eventsservice/service.go that relays the events of its subscription.
--
-- A step is one atomic step of the broker, of the goroutine, of the handler or of the client. `out`
-- has no buffer, so its send and its reception are one step of both. Where a `select` has several
-- cases ready, any of them may be taken. The broker's side of the channel is that of Realtime.
pub mod Shows
pub mod Order
pub mod Ends
pub mod Live
pub mod Shared
pub mod Agree
pub mod Follows
pub mod Informed
mod Tests
use Prim.Native.String.{◌++◌ as append}
use mathlib.Core.Option
use pihole_cluster_admin.Prelude.{
  ℕ, zero, suc, ℤ, pos, ltb_ℤ, not, String, Bool, true, false, Option, none, some, List, [], ◌∷◌,
  ◌++◌, ◌⊎◌, inl, inr, length, ltb, ◌==◌, string_eq, if◌then◌else◌,
}
use pihole_cluster_admin.Httpx.{Reply, status, panicked}
use pihole_cluster_admin.Domain.{second}
use pihole_cluster_admin.Durations.{duration}
use pihole_cluster_admin.Realtime.{Event, Channel, capacity, offer, taken}
use pihole_cluster_admin.Api.Events.{parse_topics}

-- What one call of Write or WriteString sends.
pub data Piece : Type 0 where
  comment : String → Piece
  event_line : String → Piece
  data_prefix : Piece
  payload : String → Piece
  event_end : Piece

unfoldable pub piece_text : Piece → String
piece_text (comment text) = text
piece_text (event_line topic) = append "event: " (append topic "\n")
piece_text data_prefix = "data: "
piece_text (payload text) = text
piece_text event_end = "\n\n"

-- The writes of `writeEvent`
unfoldable pub event_pieces : Event → List Piece
event_pieces e =
    let body = data_prefix ∷ payload e.data_text ∷ event_end ∷ [] in
    if e.topic == "" then body else event_line e.topic ∷ body

-- Writes up to the first error: `room` of them succeed before one fails.
unfoldable pub write_pieces : ℕ → List Piece → List Piece × Bool
write_pieces room [] = ([], true)
write_pieces zero (p ∷ ps) = ([], false)
write_pieces (suc room) (p ∷ ps) = let rest = write_pieces room ps in (p ∷ rest.0, rest.1)

-- Where the goroutine is: at its `select`, at `out <- event`, or after `close(out)`.
pub data Relay : Type 0 where
  waiting : Relay
  holding : Event → Relay
  ended : Relay

-- Where the handler is: in its loop, before its deferred call of `cancel`, or after it.
pub data Handling : Type 0 where
  selecting returned cancelled : Handling

-- `is_done` is the end of the request's context. `accepted` are the events that found room in the
-- channel, and `handed` those that the handler has received: what the theorems compare.
pub record Stream : Type 0 where
  pub channel : Channel
  pub relay : Relay
  pub handler : Handling
  pub is_done : Bool
  pub output : List Piece
  pub accepted : List Event
  pub handed : List Event

pub data Action : Type 0 where
  -- The broker and the client
  offered : Event → Action
  disconnects : Action
  -- The goroutine
  takes sees_close relay_done : Action
  -- The handler; the number is that of the writes that succeed
  hands pings : ℕ → Action
  out_closed handler_done cancels : Action

unfoldable pub greeting : List Piece
greeting = comment ": hello\n" ∷ comment "retry: 3000\n\n" ∷ []

-- The stream after `Subscribe`
unfoldable pub open_stream : Stream
unfolding greeting
open_stream = record {
  channel = record { queue = []; is_closed = false };
  relay = waiting;
  handler = selecting;
  is_done = false;
  output = greeting;
  accepted = [];
  handed = [];
}

-- `time.NewTicker` panics unless the period is positive.
unfoldable pub is_period : ℤ → Bool
is_period d = ltb_ℤ (pos 0) d

-- handleEvents up to its loop: the status of http.Error for a connection that cannot be flushed, the
-- panic of the heartbeat's ticker, for which the deferred cancel ends the subscription again, or the
-- topics that are subscribed to with the stream. The second argument is `HeartbeatSeconds`.
unfoldable pub handle_events : Bool → ℤ → String → Reply (Unit {0}) ⊎ (List String × Stream)
unfolding parse_topics open_stream duration is_period
handle_events is_flusher heartbeat_seconds topics =
    if not is_flusher
    then inl (status 500)
    else if is_period (duration heartbeat_seconds second)
    then inr (parse_topics topics, open_stream)
    else inl panicked

-- Publish offers an event to the channel.
unfoldable pub offer_event : Event → Stream → Option Stream
unfolding offer
offer_event e s =
    Option.map
      (λ c. record s {
        channel = c;
        accepted =
            if ltb (length s.channel.queue) capacity then s.accepted ++ (e ∷ []) else s.accepted;
      })
      (offer e s.channel)

-- `case event, ok := <-ch`: an event, or the end of a closed channel that is empty.
unfoldable pub take_event : Relay → List Event → Stream → Option Stream
take_event waiting (e ∷ queue) s = some (record s { channel = taken s.channel; relay = holding e })
take_event _ _ s = none

unfoldable pub see_close : Relay → List Event → Stream → Option Stream
see_close waiting [] s = if s.channel.is_closed then some (record s { relay = ended }) else none
see_close _ _ s = none

-- `case <-ctx.Done()` of the goroutine
unfoldable pub end_relay : Relay → Stream → Option Stream
end_relay waiting s = if s.is_done then some (record s { relay = ended }) else none
end_relay _ s = none

abbrev pub after_write : Bool → Handling
after_write true = selecting
after_write false = returned

-- The handler writes, and returns at the first error.
unfoldable pub write : ℕ → List Piece → Stream → Stream
unfolding write_pieces
write room pieces s =
    let done = write_pieces room pieces in
    record s { output = s.output ++ done.0; handler = after_write done.1 }

-- `out <- event` of the goroutine with `case event, ok := <-events` of the handler
unfoldable pub hand : ℕ → Handling → Relay → Stream → Option Stream
unfolding write event_pieces
hand room selecting (holding e) s =
    some (write room (event_pieces e) (record s { relay = waiting; handed = s.handed ++ (e ∷ []) }))
hand room _ _ s = none

-- `case <-heartbeat.C`
unfoldable pub ping : ℕ → Handling → Stream → Option Stream
unfolding write
ping room selecting s = some (write room (comment ": ping\n\n" ∷ []) s)
ping room _ s = none

-- `case event, ok := <-events` of the handler with `!ok`
unfoldable pub see_end : Handling → Relay → Stream → Option Stream
see_end selecting ended s = some (record s { handler = returned })
see_end _ _ s = none

-- `case <-r.Context().Done()` of the handler
unfoldable pub end_handler : Handling → Stream → Option Stream
end_handler selecting s = if s.is_done then some (record s { handler = returned }) else none
end_handler _ s = none

-- The deferred `cancel()`, which closes the channel
unfoldable pub call_cancel : Handling → Stream → Option Stream
call_cancel returned s =
    some (record s { channel = record s.channel { is_closed = true }; handler = cancelled })
call_cancel _ s = none

-- A step, or `none` if it cannot be taken now.
unfoldable pub step : Action → Stream → Option Stream
unfolding offer_event take_event see_close end_relay hand ping see_end end_handler call_cancel
step (offered e) s = offer_event e s
step disconnects s = some (record s { is_done = true })
step takes s = take_event s.relay s.channel.queue s
step sees_close s = see_close s.relay s.channel.queue s
step relay_done s = end_relay s.relay s
step (hands room) s = hand room s.handler s.relay s
step (pings room) s = ping room s.handler s
step out_closed s = see_end s.handler s.relay s
step handler_done s = end_handler s.handler s
step cancels s = call_cancel s.handler s

abbrev pub and_then : Option Stream → (Stream → Option Stream) → Option Stream
and_then none f = none
and_then (some s) f = f s

-- A sequence of steps
unfoldable pub run : List Action → Stream → Option Stream
unfolding step
run [] s = some s
run (a ∷ actions) s = and_then (step a s) (run actions)
