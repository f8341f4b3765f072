-- ===== src/Health/Loop.antt =====
-- The loop of backend/internal/service/healthservice/service.go, between the calls of the broker that
-- change the number of its subscribers.
--
-- A step is one atomic step of a goroutine: `b.n.Add` and `b.poke()` of backend/internal/realtime/broker.go
-- are two, so a call can be between them. The channel `subscribersChanged` holds one signal. Sweeps
-- are only counted here; times are left open, so a ticker or a timer may fire whenever one is waited for.
pub mod Laws
mod Tests
use pihole_cluster_admin.Prelude.{
  ℕ, suc, ◌+◌, ◌-◌, Bool, true, false, Option, none, some, List, [], ◌∷◌, ltb, ◌==◌, nat_eq,
  if◌then◌else◌,
}

-- Where the loop is: at the tests of the number of subscribers, at the selects, or before a sweep.
pub data Place : Type 0 where
  idle_test idle_wait woken sweeping active changed grace expired stopped : Place

-- `unpoked` counts the calls of Subscribe and cancel that are between `b.n.Add` and `b.poke()`.
pub record Polling : Type 0 where
  pub place : Place
  pub n : ℕ
  pub unpoked : ℕ
  pub poked : Bool
  pub sweeps : ℕ

abbrev pub start : Polling
start = record { place = idle_test; n = 0; unpoked = 0; poked = false; sweeps = 0 }

pub data Event : Type 0 where
  -- The broker: `b.n.Add(1)`, `b.n.Add(-1)` and `b.poke()`
  joined left poke : Event
  -- The loop: it goes on, or it receives the signal, a tick, the timer or the end of the context
  go_on signalled tick timer done : Event

abbrev pub at : Place → Polling → Polling
at p s = record s { place = p }

-- `if s.broker.SubscriberCount() == 0`
abbrev pub by_count : Place → Place → Polling → Polling
by_count none_left some_left s = if s.n == 0 then at none_left s else at some_left s

abbrev pub swept : Polling → Polling
swept s = record s { place = active; sweeps = suc s.sweeps }

-- `<-s.broker.SubscribersChanged()`
abbrev pub take_signal : Place → Polling → Option Polling
take_signal p s = if s.poked then some (record s { place = p; poked = false }) else none

-- The steps of the broker
unfoldable pub broker_step : Event → Polling → Option Polling
broker_step joined s = some (record s { n = s.n + 1; unpoked = s.unpoked + 1 })
broker_step left s =
    if s.n == 0 then none else some (record s { n = s.n - 1; unpoked = s.unpoked + 1 })
broker_step poke s =
    if s.unpoked == 0 then none else some (record s { unpoked = s.unpoked - 1; poked = true })
broker_step _ s = none

-- The steps of the loop that need no event. `has_grace` is `stopGracePeriod > 0`.
unfoldable pub proceed : Bool → Place → Polling → Option Polling
proceed has_grace idle_test s = some (by_count idle_wait sweeping s)
proceed has_grace woken s = some (by_count idle_test sweeping s)
proceed has_grace sweeping s = some (swept s)
proceed has_grace changed s = some (by_count (if has_grace then grace else idle_test) active s)
proceed has_grace expired s = some (by_count idle_test active s)
proceed has_grace _ s = none

-- The cases of the selects
unfoldable pub select : Event → Place → Polling → Option Polling
select signalled idle_wait s = take_signal woken s
select signalled active s = take_signal changed s
select signalled grace s = take_signal active s
select tick active s = some (swept s)
select timer grace s = some (at expired s)
select done idle_wait s = some (at stopped s)
select done active s = some (at stopped s)
select done grace s = some (at stopped s)
select _ _ s = none

-- A step, or `none` if it cannot be taken now.
unfoldable pub step : Bool → Event → Polling → Option Polling
unfolding broker_step proceed select
step has_grace joined s = broker_step joined s
step has_grace left s = broker_step left s
step has_grace poke s = broker_step poke s
step has_grace go_on s = proceed has_grace s.place s
step has_grace signalled s = select signalled s.place s
step has_grace tick s = select tick s.place s
step has_grace timer s = select timer s.place s
step has_grace done s = select done s.place s

abbrev pub and_then : Option Polling → (Polling → Option Polling) → Option Polling
and_then none f = none
and_then (some s) f = f s

-- A sequence of steps
unfoldable pub run : Bool → List Event → Polling → Option Polling
unfolding step
run has_grace [] s = some s
run has_grace (e ∷ es) s = and_then (step has_grace e s) (run has_grace es)
