-- ===== src/Api/Events/Stream/Follows.antt =====
-- A stream follows the broker: both have the same channel, and the stream is one of `run`.
use mathlib.Core.Path.{ap₂}
use pihole_cluster_admin.Prelude.{
  ℕ, ◌≡◌, refl, sym, ◌∙◌, ap, subst, String, Bool, true, false, not, Option, some, List, [], ◌∷◌,
  ◌++◌, nat_eq, lookup, if◌then◌else◌, arith,
}
use pihole_cluster_admin.Realtime.{Event, Broker, publish}
use pihole_cluster_admin.Realtime.Publish.{deliver, is_open}
use pihole_cluster_admin.Realtime.Sound.{
  System, next, published, wanted, some-injective, has-is_some, is_some,
}
use pihole_cluster_admin.Realtime.Reach.{publish-Delivers, Reaches-IsSound}
use pihole_cluster_admin.Api.Events.Stream.{
  Handling, selecting, returned, Stream, open_stream, Action, offered, step, run,
}
use pihole_cluster_admin.Api.Events.Stream.Live.{
  hears, hear, Live, opens, publishes, other_subscribes, other_cancels, other_receives, receives,
  unsubscribes, acts,
}
use pihole_cluster_admin.Api.Events.Stream.Shared.{
  subscription, wanted-subscription, one_more, hear-deliver,
}
use pihole_cluster_admin.Api.Events.Stream.Agree.{
  Agrees, opens-Agrees, other_subscribes-Agrees, other_cancels-Agrees, other_receives-Agrees,
  receives-Agrees, unsubscribes-Agrees, acts-Agrees,
}

some_stream : {s t : Stream} → Option.some s ≡ some t → s ≡ t
some_stream h = cc

hears-is_some :
    (topics : List String) (topic : String) (h : Handling)
    → hears topics topic h ≡ true
    → is_some (subscription topics h) ≡ true
hears-is_some topics topic selecting heard = refl
hears-is_some topics topic returned heard = refl
hears-is_some topics topic Handling.cancelled heard = cc

module _ (ch : ℕ) (topics : List String) where
  hears-open :
      (sys : System) (s : Stream) (topic : String)
      → Agrees ch topics sys s
      → hears topics topic s.handler ≡ true
      → s.channel.is_closed ≡ false
  hears-open sys s topic a heard =
      let open_now : not s.channel.is_closed ≡ true =
        ap is_open (sym a.same)
        ∙ (Reaches-IsSound sys a.reached).open_channels ch
        ∙ has-is_some ch sys.uncancelled
        ∙ ap is_some a.subscription_of
        ∙ hears-is_some topics topic s.handler heard in
      ground arith

  hear_ran :
      (b : Bool) (e : Event) (s t : Stream) (actions : List Action)
      → run actions open_stream ≡ some s
      → hear b e s ≡ some t
      → (more : List Action) × (run more open_stream ≡ some t)
  unfolding step
  hear_ran true e s t actions ran heard =
      (actions ++ (offered e ∷ []), one_more actions (offered e) s t ran heard)
  hear_ran false e s t actions ran heard = (actions, ran ∙ heard)

  -- A publication ends, the stream can take its part in it, and both agree afterwards.
  publish-Agrees :
      (sys : System) (s : Stream) (topic text : String)
      → Agrees ch topics sys s
      → (b : Broker) × (t : Stream) × (publish topic text sys.broker ≡ some b)
        × (hear (hears topics topic s.handler) (record { topic = topic; data_text = text }) s
            ≡ some t)
        × Agrees ch topics (record sys { broker = b }) t
  publish-Agrees sys s topic text a =
      let e : Event = record { topic = topic; data_text = text } in
      let heard = hears topics topic s.handler in
      let (after, done, delivers) = publish-Delivers sys topic text a.reached in
      let (t, took, channel_now, handler_now) = hear-deliver heard e s (hears-open sys s topic a) in
      let (more, ran) = hear_ran heard e s t a.actions a.ran took in
      let wants : wanted topic (lookup ch sys.uncancelled) ≡ heard =
        ap (wanted topic) a.subscription_of ∙ wanted-subscription topic topics s.handler in
      (
        record sys.broker { channels = after },
        t,
        done,
        took,
        record {
          reached = next sys _ a.reached (published sys topic text _ done);
          same = delivers ch ∙ ap₂ (λ b o. if b then deliver e o else o) wants a.same ∙ channel_now;
          subscription_of = a.subscription_of ∙ ap (subscription topics) (sym handler_now);
          actions = more;
          ran = ran;
        },
      )

  publishes-Agrees :
      (sys : System) (s t : Stream) (topic text : String) (b : Broker)
      → Agrees ch topics sys s
      → publish topic text sys.broker ≡ some b
      → hear (hears topics topic s.handler) (record { topic = topic; data_text = text }) s ≡ some t
      → Agrees ch topics (record sys { broker = b }) t
  publishes-Agrees sys s t topic text b a done took =
      let (b', t', done', took', agrees) = publish-Agrees sys s topic text a in
      subst (λ x. Agrees ch topics (record sys { broker = x }) t)
        (some-injective (sym done' ∙ done))
        (subst (λ x. Agrees ch topics (record sys { broker = b' }) x)
          (some_stream (sym took' ∙ took)) agrees)

  pub Live-Agrees : (sys : System) (s : Stream) → Live ch topics sys s → Agrees ch topics sys s
  Live-Agrees _ _ (opens sys reached fresh) = opens-Agrees ch topics sys reached fresh
  Live-Agrees _ _ (publishes sys s t topic text b live done took) =
      publishes-Agrees sys s t topic text b (Live-Agrees sys s live) done took
  Live-Agrees _ _ (other_subscribes sys s theirs c live fresh) =
      other_subscribes-Agrees ch topics sys s theirs c (Live-Agrees sys s live) fresh
  Live-Agrees _ _ (other_cancels sys s theirs c live ne found) =
      other_cancels-Agrees ch topics sys s theirs c (Live-Agrees sys s live) ne found
  Live-Agrees _ _ (other_receives sys s c live ne) =
      other_receives-Agrees ch topics sys s c (Live-Agrees sys s live) ne
  Live-Agrees _ _ (receives sys s t live stepped) =
      receives-Agrees ch topics sys s t (Live-Agrees sys s live) stepped
  Live-Agrees _ _ (unsubscribes sys s t live stepped) =
      unsubscribes-Agrees ch topics sys s t (Live-Agrees sys s live) stepped
  Live-Agrees _ _ (acts sys s t x live inner stepped) =
      acts-Agrees ch topics sys s t x (Live-Agrees sys s live) inner stepped

  -- However the broker is used besides, the channel of a stream that has been opened is the one that
  -- the broker has under its number, the stream is one that its own steps lead to, and Publish ends
  -- without a panic: its event is offered to the stream exactly as long as the stream has not
  -- cancelled and its topics include that of the event, and both have the same channel afterwards.
  pub stream_follows :
      (sys : System) (s : Stream)
      → Live ch topics sys s
      → (lookup ch sys.broker.channels ≡ some s.channel)
        × ((actions : List Action) × (run actions open_stream ≡ some s))
        × ((topic text : String)
            → (b : Broker) × (t : Stream) × (publish topic text sys.broker ≡ some b)
              × (hear (hears topics topic s.handler) (record { topic = topic; data_text = text }) s
                  ≡ some t)
              × (lookup ch b.channels ≡ some t.channel))
  stream_follows sys s live =
      let a = Live-Agrees sys s live in
      (
        a.same,
        (a.actions, a.ran),
        λ topic text.
            let (b, t, done, took, after) = publish-Agrees sys s topic text a in
            (b, t, done, took, after.same),
      )
