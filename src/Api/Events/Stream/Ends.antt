-- ===== src/Api/Events/Stream/Ends.antt =====
-- Streams end once the client has gone, and what they may leave behind.
use pihole_cluster_admin.Prelude.{
  ℕ, suc, ◌+◌, ◌*◌, ◌≤◌, ◌≡◌, ◌≢◌, ◌⊎◌, inl, inr, refl, subst, Bool, true, false, Option, none,
  some, List, [], ◌∷◌, All, length, arith,
}
use pihole_cluster_admin.Realtime.{Event}
use pihole_cluster_admin.Api.Events.Stream.{
  Relay, waiting, holding, ended, Handling, selecting, returned, cancelled, Stream, Action, offered,
  disconnects, takes, sees_close, relay_done, hands, pings, out_closed, handler_done, cancels,
  after_write, event_pieces, write_pieces, write, offer_event, take_event, see_close, end_relay,
  hand, ping, see_end, end_handler, call_cancel, step, and_then, run,
}

abbrev relay_weight : Relay → ℕ
relay_weight waiting = 1
relay_weight (holding e) = 2
relay_weight ended = 0

abbrev handler_weight : Handling → ℕ
handler_weight selecting = 2
handler_weight returned = 1
handler_weight cancelled = 0

-- The steps that the goroutine and the handler of a stream can still take by themselves.
abbrev pub steps_left : Stream → ℕ
steps_left s = 2 * length s.channel.queue + relay_weight s.relay + handler_weight s.handler

-- The steps that need neither the broker, nor the client, nor the heartbeat.
abbrev pub IsOwn : Action → Type 0
IsOwn (offered e) = ⊥
IsOwn disconnects = ⊥
IsOwn (pings room) = ⊥
IsOwn _ = Unit

-- One step less is left.
abbrev Falls : ℕ → Option Stream → Type 0
Falls n none = Unit
Falls n (some t) = suc (steps_left t) ≤ n

after_write-le : (b : Bool) → handler_weight (after_write b) ≤ 2
after_write-le true = omega arith
after_write-le false = omega arith

hand-Falls :
    (room : ℕ) (h : Handling) (r : Relay) (s : Stream)
    → s.handler ≡ h
    → s.relay ≡ r
    → Falls (steps_left s) (hand room h r s)
unfolding hand write
hand-Falls room selecting (holding e) s here holds =
    ground (arith, after_write-le (write_pieces room (event_pieces e)).1)
hand-Falls room selecting _ s here holds = tt
hand-Falls room returned _ s here holds = tt
hand-Falls room cancelled _ s here holds = tt

step-Falls : (a : Action) (s : Stream) → IsOwn a → Falls (steps_left s) (step a s)
unfolding step take_event see_close end_relay see_end end_handler call_cancel
step-Falls (hands room) s own = hand-Falls room s.handler s.relay s refl refl
step-Falls takes s own = ground arith
step-Falls sees_close s own = ground arith
step-Falls relay_done s own = ground arith
step-Falls out_closed s own = ground arith
step-Falls handler_done s own = ground arith
step-Falls cancels s own = ground arith
step-Falls (offered e) s own = absurd own
step-Falls disconnects s own = absurd own
step-Falls (pings room) s own = absurd own

abbrev FallsBy : List Action → ℕ → Option Stream → Type 0
FallsBy actions n none = Unit
FallsBy actions n (some t) = length actions + steps_left t ≤ n

then-Falls :
    (a : Action) (actions : List Action) (n : ℕ) (o : Option Stream)
    → Falls n o
    → ((s : Stream) → FallsBy actions (steps_left s) (run actions s))
    → FallsBy (a ∷ actions) n (and_then o (run actions))
then-Falls a actions n none falls rest = tt
then-Falls a actions n (some s) falls rest = one_more (run actions s) (rest s)
  where
    one_more : (o : Option Stream) → FallsBy actions (steps_left s) o → FallsBy (a ∷ actions) n o
    one_more none h = tt
    one_more (some t) h = omega arith

run-FallsBy :
    (actions : List Action) (s : Stream)
    → All IsOwn actions
    → FallsBy actions (steps_left s) (run actions s)
unfolding run
run-FallsBy [] s own = omega arith
run-FallsBy (a ∷ actions) s (own, all_own) =
    then-Falls a actions (steps_left s) (step a s) (step-Falls a s own)
      (λ t. run-FallsBy actions t all_own)

-- The end of the context stays.
abbrev StaysDone : Option Stream → Type 0
StaysDone none = Unit
StaysDone (some t) = t.is_done ≡ true

step-StaysDone : (a : Action) (s : Stream) → s.is_done ≡ true → StaysDone (step a s)
unfolding step offer_event take_event see_close end_relay hand ping write see_end end_handler
    call_cancel
step-StaysDone (offered e) s done = ground arith
step-StaysDone takes s done = ground arith
step-StaysDone _ s done = ground arith

then_done :
    (o : Option Stream) (f : Stream → Option Stream)
    → StaysDone o
    → ((t : Stream) → t.is_done ≡ true → StaysDone (f t))
    → StaysDone (and_then o f)
then_done none f done rest = tt
then_done (some t) f done rest = rest t done

run-StaysDone : (actions : List Action) (s : Stream) → s.is_done ≡ true → StaysDone (run actions s)
unfolding run
run-StaysDone [] s done = done
run-StaysDone (a ∷ actions) s done =
    then_done (step a s) (run actions) (step-StaysDone a s done) (run-StaysDone actions)

-- The handler has returned and has cancelled its subscription, and the goroutine has ended or
-- stands at its send.
abbrev pub IsOver : Stream → Type 0
IsOver t = (t.handler ≡ cancelled) × ((t.relay ≡ ended) ⊎ ((e : Event) × (t.relay ≡ holding e)))

abbrev pub CanGoOn : Stream → Type 0
CanGoOn t = (a : Action) × IsOwn a × (u : Stream) × (step a t ≡ some u)

goes_on : (t : Stream) → t.is_done ≡ true → CanGoOn t ⊎ IsOver t
unfolding step end_relay end_handler call_cancel
goes_on t done = at_places t.handler t.relay refl refl
  where
    at_places : (h : Handling) (r : Relay) → t.handler ≡ h → t.relay ≡ r → CanGoOn t ⊎ IsOver t
    at_places selecting r at_h at_r =
        inl (handler_done, tt, record t { handler = returned }, rw (at_h, done) refl)
    at_places returned r at_h at_r = inl (
      cancels,
      tt,
      record t { channel = record t.channel { is_closed = true }; handler = cancelled },
      rw at_h refl,
    )
    at_places cancelled waiting at_h at_r =
        inl (relay_done, tt, record t { relay = ended }, rw (at_r, done) refl)
    at_places cancelled (holding e) at_h at_r = inr (at_h, inr (e, at_r))
    at_places cancelled ended at_h at_r = inr (at_h, inl at_r)

-- Once the context of a request has ended, the goroutine and the handler of its stream take, in
-- whatever order and with writes that fail or not, at most `steps_left` more steps without a new
-- event or ping; and as long as the handler has not cancelled its subscription, or the goroutine
-- has neither ended nor stands at its send, one of these steps can be taken.
pub stream_ends :
    (s t : Stream) (actions : List Action)
    → s.is_done ≡ true
    → All IsOwn actions
    → run actions s ≡ some t
    → (length actions + steps_left t ≤ steps_left s) × (CanGoOn t ⊎ IsOver t)
stream_ends s t actions done own ran = (
  subst (FallsBy actions (steps_left s)) ran (run-FallsBy actions s own),
  goes_on t (subst StaysDone ran (run-StaysDone actions s done)),
)

-- A goroutine that stands at its send when the handler has left its loop.
abbrev IsLeft : Event → Option Stream → Type 0
IsLeft e none = Unit
IsLeft e (some s) = (s.relay ≡ holding e) × (s.handler ≢ selecting)

step-IsLeft :
    (a : Action) (e : Event) (s : Stream)
    → s.relay ≡ holding e
    → s.handler ≢ selecting
    → IsLeft e (step a s)
unfolding step offer_event take_event see_close end_relay hand ping write see_end end_handler
    call_cancel
step-IsLeft (offered f) e s holds away = ground arith
step-IsLeft takes e s holds away = ground arith
step-IsLeft _ e s holds away = ground arith

then-IsLeft :
    (e : Event) (o : Option Stream) (f : Stream → Option Stream)
    → IsLeft e o
    → ((t : Stream) → t.relay ≡ holding e → t.handler ≢ selecting → IsLeft e (f t))
    → IsLeft e (and_then o f)
then-IsLeft e none f left rest = tt
then-IsLeft e (some t) f left rest = rest t left.0 left.1

run-IsLeft :
    (actions : List Action) (e : Event) (s : Stream)
    → s.relay ≡ holding e
    → s.handler ≢ selecting
    → IsLeft e (run actions s)
unfolding run
run-IsLeft [] e s holds away = (holds, away)
run-IsLeft (a ∷ actions) e s holds away =
    then-IsLeft e (step a s) (run actions) (step-IsLeft a e s holds away) (run-IsLeft actions e)

-- A goroutine that stands at its send of an event when the handler has left its loop stands there
-- for ever, whatever the steps that follow: the end of the context and the closing of the channel
-- do not end it.
pub relay_leaks :
    (e : Event) (s t : Stream) (actions : List Action)
    → s.relay ≡ holding e
    → s.handler ≢ selecting
    → run actions s ≡ some t
    → t.relay ≡ holding e
relay_leaks e s t actions holds away ran =
    (subst (IsLeft e) ran (run-IsLeft actions e s holds away)).0
