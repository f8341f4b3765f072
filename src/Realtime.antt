-- ===== src/Realtime.antt =====
-- backend/internal/realtime: the broker of the server-sent events.
--
-- A Go channel is the number that `make` gives it, with its queue. `Subscribe`, its `cancel` and
-- `Publish` hold the broker's mutex while they use the map, and `Publish` never blocks, so each is
-- one step. The closing of the channel follows the removal of its subscriptions in one step too.
pub mod Laws
pub mod Publish
pub mod Sound
pub mod Reach
mod Tests
use mathlib.Core.Option
use pihole_cluster_admin.Prelude.{
  ℕ, ◌+◌, ◌-◌, String, Bool, true, false, Option, none, some, List, [], ◌∷◌, ◌++◌, length, ltb, Map,
  lookup, insert, delete, string_eq, nat_eq, if◌then◌else◌,
}

-- types.go; `data` is text here.
pub record Event : Type 0 where
  pub topic : String
  pub data_text : String

-- A channel of events with its buffer.
pub record Channel : Type 0 where
  pub queue : List Event
  pub is_closed : Bool

abbrev pub ChannelSet : Type 0
ChannelSet = Map ℕ (Unit {0})

-- `n` counts the subscriptions; `poked` is the buffered signal of `subscribersChanged`.
pub record Broker : Type 0 where
  pub subscriptions : Map String ChannelSet
  pub channels : Map ℕ Channel
  pub n : ℕ
  pub poked : Bool

unfoldable pub new_broker : Broker
new_broker = record { subscriptions = []; channels = []; n = 0; poked = false }

abbrev pub capacity : ℕ
capacity = 16

-- `b.subscriptions[topic]`, where a missing set is empty.
abbrev pub set_or_empty : Option ChannelSet → ChannelSet
set_or_empty none = []
set_or_empty (some s) = s

abbrev pub subscribers : String → Map String ChannelSet → ChannelSet
subscribers topic subs = set_or_empty (lookup topic subs)

-- The loop of `Subscribe`
unfoldable pub add_topics : List String → ℕ → Map String ChannelSet → Map String ChannelSet
add_topics [] ch subs = subs
add_topics (topic ∷ topics) ch subs =
    add_topics topics ch (insert topic (insert ch tt (subscribers topic subs)) subs)

-- A set without the channel: an empty one leaves the map.
abbrev pub put_set : String → ChannelSet → Map String ChannelSet → Map String ChannelSet
put_set topic [] subs = delete topic subs
put_set topic (c ∷ s) subs = insert topic (c ∷ s) subs

unfoldable pub remove_topic : String → ℕ → Map String ChannelSet → Map String ChannelSet
remove_topic topic ch subs = elim (lookup topic subs) [
  | none ↦ subs
  | some s ↦ put_set topic (delete ch s) subs
]

-- The loop of `cancel`
unfoldable pub remove_topics : List String → ℕ → Map String ChannelSet → Map String ChannelSet
unfolding remove_topic
remove_topics [] ch subs = subs
remove_topics (topic ∷ topics) ch subs = remove_topics topics ch (remove_topic topic ch subs)

-- Subscribe; `ch` is the new channel.
unfoldable pub subscribe : List String → ℕ → Broker → Broker
unfolding add_topics
subscribe topics ch b = record {
  subscriptions = add_topics topics ch b.subscriptions;
  channels = insert ch (record { queue = []; is_closed = false }) b.channels;
  n = b.n + 1;
  poked = true;
}

abbrev pub close_channel : ℕ → Option Channel → Map ℕ Channel → Map ℕ Channel
close_channel ch none channels = channels
close_channel ch (some c) channels = insert ch (record c { is_closed = true }) channels

-- The function `cancel` that `Subscribe` has returned, called for the first time.
unfoldable pub cancel : List String → ℕ → Broker → Broker
unfolding remove_topics
cancel topics ch b = record {
  subscriptions = remove_topics topics ch b.subscriptions;
  channels = close_channel ch (lookup ch b.channels) b.channels;
  n = b.n - 1;
  poked = true;
}

-- `select { case ch <- event: default: }`: nothing when the buffer is full; a send on a closed
-- channel panics, which is `none`.
unfoldable pub offer : Event → Channel → Option Channel
offer event c =
    if c.is_closed
    then none
    else if ltb (length c.queue) capacity
    then some (record c { queue = c.queue ++ (event ∷ []) })
    else some c

abbrev pub put_channel : ℕ → Option Channel → Map ℕ Channel → Option (Map ℕ Channel)
put_channel ch none channels = none
put_channel ch (some c) channels = some (insert ch c channels)

unfoldable pub send : Event → ℕ → Map ℕ Channel → Option (Map ℕ Channel)
unfolding offer
send event ch channels = elim (lookup ch channels) [
  | none ↦ none
  | some c ↦ put_channel ch (offer event c) channels
]

-- The loop of `Publish`
unfoldable pub send_all : Event → ChannelSet → Map ℕ Channel → Option (Map ℕ Channel)
unfolding send
send_all event [] channels = some channels
send_all event ((ch, u) ∷ s) channels = elim (send event ch channels) [
  | none ↦ none
  | some channels' ↦ send_all event s channels'
]

-- Publish, or `none` for a panic.
unfoldable pub publish : String → String → Broker → Option Broker
unfolding send_all
publish topic text b =
    Option.map (λ channels. record b { channels = channels })
      (send_all (record { topic = topic; data_text = text }) (subscribers topic b.subscriptions)
        b.channels)

abbrev pub rest_of : List Event → List Event
rest_of [] = []
rest_of (e ∷ es) = es

-- A subscriber takes the first event out of its channel.
abbrev pub taken : Channel → Channel
taken c = record c { queue = rest_of c.queue }

abbrev pub take_from : ℕ → Option Channel → Map ℕ Channel → Map ℕ Channel
take_from ch none channels = channels
take_from ch (some c) channels = insert ch (taken c) channels

unfoldable pub receive : ℕ → Broker → Broker
receive ch b = record b { channels = take_from ch (lookup ch b.channels) b.channels }

-- SubscriberCount
unfoldable pub subscriber_count : Broker → ℕ
subscriber_count b = b.n
