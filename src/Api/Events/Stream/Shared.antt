-- ===== src/Api/Events/Stream/Shared.antt =====
-- Single steps of a stream, and look-ups of its channel in the broker.
use pihole_cluster_admin.Prelude.{
  ℕ, ◌≡◌, ◌≢◌, refl, sym, ◌∙◌, ap, String, Bool, true, false, Option, none, some, List, [], ◌∷◌,
  ◌++◌, ◌==◌, nat_eq, Map, lookup, lookup-insert, beq_refl, if◌then◌else◌, arith, nat_beq_iff,
  Bool-cases, inl, inr, ltb, length,
}
use pihole_cluster_admin.Realtime.{Event, Channel, capacity, taken, take_from, offer}
use pihole_cluster_admin.Realtime.Publish.{deliver, delivered}
use pihole_cluster_admin.Realtime.Sound.{wanted}
use pihole_cluster_admin.Api.Events.Stream.{
  Handling, selecting, returned, Stream, open_stream, Action, offered, disconnects, takes,
  sees_close, relay_done, hands, pings, out_closed, handler_done, cancels, offer_event, take_event,
  see_close, end_relay, hand, ping, write, see_end, end_handler, call_cancel, step, and_then, run,
}
use pihole_cluster_admin.Api.Events.Stream.Live.{hears, hear, IsInner}

-- The subscription of a stream
abbrev pub subscription : List String → Handling → Option (List String)
subscription topics Handling.cancelled = none
subscription topics _ = some topics

pub wanted-subscription :
    (topic : String) (topics : List String) (h : Handling)
    → wanted topic (subscription topics h) ≡ hears topics topic h
wanted-subscription topic topics selecting = refl
wanted-subscription topic topics returned = refl
wanted-subscription topic topics Handling.cancelled = refl

then_none : (o : Option Stream) → and_then o (run []) ≡ o
unfolding run
then_none none = refl
then_none (some t) = refl

then_snoc :
    (o : Option Stream) (f : Stream → Option Stream) (g h : Stream → Option Stream)
    → ((t : Stream) → g t ≡ and_then (f t) h)
    → and_then o g ≡ and_then (and_then o f) h
then_snoc none f g h each = refl
then_snoc (some t) f g h each = each t

run-snoc :
    (actions : List Action) (a : Action) (s : Stream)
    → run (actions ++ (a ∷ [])) s ≡ and_then (run actions s) (step a)
unfolding run
run-snoc [] a s = then_none (step a s)
run-snoc (b ∷ actions) a s =
    then_snoc (step b s) (run actions) (run (actions ++ (a ∷ []))) (step a) (run-snoc actions a)

pub one_more :
    (actions : List Action) (a : Action) (s t : Stream)
    → run actions open_stream ≡ some s
    → step a s ≡ some t
    → run (actions ++ (a ∷ [])) open_stream ≡ some t
one_more actions a s t ran stepped =
    run-snoc actions a open_stream ∙ ap (λ o. and_then o (step a)) ran ∙ stepped

same_key : (c ch : ℕ) → c ≢ ch → (c == ch) ≡ false
same_key c ch ne = elim (Bool-cases (c == ch)) [
  | inl e ↦ absurd (ne ((nat_beq_iff c ch).0 e))
  | inr e ↦ e
]

-- What a step leaves of the channel and of the subscription
abbrev pub KeepsBoth : List String → Stream → Option Stream → Type 0
KeepsBoth topics s none = Unit
KeepsBoth topics s (some t) =
    (t.channel ≡ s.channel) × (subscription topics t.handler ≡ subscription topics s.handler)

pub step-KeepsBoth :
    (topics : List String) (a : Action) (s : Stream) → IsInner a → KeepsBoth topics s (step a s)
unfolding step see_close end_relay hand ping write see_end end_handler
step-KeepsBoth topics disconnects s inner = (refl, refl)
step-KeepsBoth topics sees_close s inner = ground arith
step-KeepsBoth topics relay_done s inner = ground arith
step-KeepsBoth topics (hands room) s inner = ground arith
step-KeepsBoth topics (pings room) s inner = ground arith
step-KeepsBoth topics out_closed s inner = ground arith
step-KeepsBoth topics handler_done s inner = ground arith
step-KeepsBoth topics (offered e) s inner = absurd inner
step-KeepsBoth topics takes s inner = absurd inner
step-KeepsBoth topics cancels s inner = absurd inner

-- The goroutine takes the first event of its channel.
abbrev pub Takes : Stream → Option Stream → Type 0
Takes s none = Unit
Takes s (some t) = (t.channel ≡ taken s.channel) × (t.handler ≡ s.handler)

pub takes-Takes : (s : Stream) → Takes s (step takes s)
unfolding step take_event
takes-Takes s = ground arith

-- The handler closes the channel and has no subscription any more.
abbrev pub Closes : List String → Stream → Option Stream → Type 0
Closes topics s none = Unit
Closes topics s (some t) =
    (t.channel ≡ record s.channel { is_closed = true })
    × (t.handler ≡ Handling.cancelled)
    × (subscription topics s.handler ≡ some topics)

pub cancels-Closes : (topics : List String) (s : Stream) → Closes topics s (step cancels s)
unfolding step call_cancel
cancels-Closes topics s = ground arith

-- An event that is offered to the stream
pub hear-deliver :
    (b : Bool) (e : Event) (s : Stream)
    → ((b ≡ true) → s.channel.is_closed ≡ false)
    → (t : Stream) × (hear b e s ≡ some t)
      × ((if b then deliver e (some s.channel) else some s.channel) ≡ some t.channel)
      × (t.handler ≡ s.handler)
unfolding offer_event offer
hear-deliver true e s open_now = (
  record s {
    channel = delivered e s.channel;
    accepted = if ltb (length s.channel.queue) capacity then s.accepted ++ (e ∷ []) else s.accepted;
  },
  ground (arith, open_now refl),
  refl,
  refl,
)
hear-deliver false e s open_now = (s, refl, refl, refl)

pub at_self : {V : Type 0} (ch : ℕ) (x y : Option V) → (if ch == ch then x else y) ≡ x
at_self ch x y = ap (λ b. if b then x else y) (beq_refl ch)

pub at_other : {V : Type 0} (c ch : ℕ) (x y : Option V) → c ≢ ch → (if c == ch then x else y) ≡ y
at_other c ch x y ne = ap (λ b. if b then x else y) (same_key c ch ne)

-- A key without a value is not one that has a value.
pub no_value :
    {V : Type 0} (c ch : ℕ) (m : Map ℕ V) (v : V)
    → lookup c m ≡ none
    → lookup ch m ≡ some v
    → c ≢ ch
no_value c ch m v gone found same =
    let h : some v ≡ none = sym found ∙ ap (λ k. lookup k m) (sym same) ∙ gone in cc

pub lookup-take_other :
    (c ch : ℕ) (o : Option Channel) (channels : Map ℕ Channel)
    → c ≢ ch
    → lookup ch (take_from c o channels) ≡ lookup ch channels
lookup-take_other c ch none channels ne = refl
lookup-take_other c ch (some d) channels ne =
    lookup-insert c ch (taken d) channels ∙ at_other c ch _ _ ne
