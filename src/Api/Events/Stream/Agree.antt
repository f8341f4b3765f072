-- ===== src/Api/Events/Stream/Agree.antt =====
-- A stream and the broker agree on the channel and on the subscription; what they do but publications
-- keeps it so.
use pihole_cluster_admin.Prelude.{
  ℕ, ◌≡◌, ◌≢◌, refl, sym, ◌∙◌, ap, subst, String, none, some, List, [], ◌∷◌, ◌++◌, nat_eq, lookup,
  delete, lookup-insert, lookup-delete,
}
use pihole_cluster_admin.Realtime.{subscribe, cancel, receive, taken, take_from}
use pihole_cluster_admin.Realtime.Sound.{
  System, Reaches, next, subscribed, cancelled, received, closed, lookup-close_channel,
}
use pihole_cluster_admin.Api.Events.Stream.{Stream, open_stream, Action, takes, cancels, step, run}
use pihole_cluster_admin.Api.Events.Stream.Live.{IsInner}
use pihole_cluster_admin.Api.Events.Stream.Shared.{
  subscription, one_more, KeepsBoth, step-KeepsBoth, Takes, takes-Takes, Closes, cancels-Closes,
  at_self, at_other, no_value, lookup-take_other,
}

-- The broker and the stream have the same channel and agree on the subscription.
pub record Agrees (ch : ℕ) (topics : List String) (sys : System) (s : Stream) : Type 0 where
  pub reached : Reaches sys
  pub same : lookup ch sys.broker.channels ≡ some s.channel
  pub subscription_of : lookup ch sys.uncancelled ≡ subscription topics s.handler
  pub actions : List Action
  pub ran : run actions open_stream ≡ some s

module _ (ch : ℕ) (topics : List String) where
  pub opens-Agrees :
      (sys : System)
      → Reaches sys
      → lookup ch sys.broker.channels ≡ none
      → Agrees ch topics
          (record {
            broker = subscribe topics ch sys.broker;
            uncancelled = (ch, topics) ∷ sys.uncancelled;
          })
          open_stream
  unfolding subscribe open_stream lookup run
  opens-Agrees sys reached fresh = record {
    reached = next sys _ reached (subscribed sys topics ch fresh);
    same = lookup-insert ch ch _ sys.broker.channels ∙ at_self ch _ _;
    subscription_of = at_self ch _ _;
    actions = [];
    ran = refl;
  }

  pub other_subscribes-Agrees :
      (sys : System) (s : Stream) (theirs : List String) (c : ℕ)
      → Agrees ch topics sys s
      → lookup c sys.broker.channels ≡ none
      → Agrees ch topics
          (record {
            broker = subscribe theirs c sys.broker;
            uncancelled = (c, theirs) ∷ sys.uncancelled;
          })
          s
  unfolding subscribe lookup
  other_subscribes-Agrees sys s theirs c a fresh =
      let ne : c ≢ ch = no_value c ch sys.broker.channels s.channel fresh a.same in
      record {
        reached = next sys _ a.reached (subscribed sys theirs c fresh);
        same = lookup-insert c ch _ sys.broker.channels ∙ at_other c ch _ _ ne ∙ a.same;
        subscription_of = at_other c ch _ _ ne ∙ a.subscription_of;
        actions = a.actions;
        ran = a.ran;
      }

  pub other_cancels-Agrees :
      (sys : System) (s : Stream) (theirs : List String) (c : ℕ)
      → Agrees ch topics sys s
      → c ≢ ch
      → lookup c sys.uncancelled ≡ some theirs
      → Agrees ch topics
          (record { broker = cancel theirs c sys.broker; uncancelled = delete c sys.uncancelled })
          s
  unfolding cancel
  other_cancels-Agrees sys s theirs c a ne found = record {
    reached = next sys _ a.reached (cancelled sys theirs c found);
    same = lookup-close_channel c ch _ sys.broker.channels refl ∙ at_other c ch _ _ ne ∙ a.same;
    subscription_of = lookup-delete c ch sys.uncancelled ∙ at_other c ch _ _ ne ∙ a.subscription_of;
    actions = a.actions;
    ran = a.ran;
  }

  pub other_receives-Agrees :
      (sys : System) (s : Stream) (c : ℕ)
      → Agrees ch topics sys s
      → c ≢ ch
      → Agrees ch topics (record sys { broker = receive c sys.broker }) s
  unfolding receive
  other_receives-Agrees sys s c a ne = record {
    reached = next sys _ a.reached (received sys c);
    same = lookup-take_other c ch _ sys.broker.channels ne ∙ a.same;
    subscription_of = a.subscription_of;
    actions = a.actions;
    ran = a.ran;
  }

  pub receives-Agrees :
      (sys : System) (s t : Stream)
      → Agrees ch topics sys s
      → step takes s ≡ some t
      → Agrees ch topics (record sys { broker = receive ch sys.broker }) t
  unfolding receive
  receives-Agrees sys s t a stepped =
      let now : Takes s (some t) = subst (Takes s) stepped (takes-Takes s) in
      record {
        reached = next sys _ a.reached (received sys ch);
        same =
            ap (λ o. lookup ch (take_from ch o sys.broker.channels)) a.same
            ∙ lookup-insert ch ch (taken s.channel) sys.broker.channels
            ∙ at_self ch _ _
            ∙ ap some (sym now.0);
        subscription_of = a.subscription_of ∙ ap (subscription topics) (sym now.1);
        actions = a.actions ++ (takes ∷ []);
        ran = one_more a.actions takes s t a.ran stepped;
      }

  pub unsubscribes-Agrees :
      (sys : System) (s t : Stream)
      → Agrees ch topics sys s
      → step cancels s ≡ some t
      → Agrees ch topics
          (record { broker = cancel topics ch sys.broker; uncancelled = delete ch sys.uncancelled })
          t
  unfolding cancel closed
  unsubscribes-Agrees sys s t a stepped =
      let (channel_now, gone, was) : Closes topics s (some t) =
        subst (Closes topics s) stepped (cancels-Closes topics s) in
      record {
        reached = next sys _ a.reached (cancelled sys topics ch (a.subscription_of ∙ was));
        same =
            lookup-close_channel ch ch _ sys.broker.channels refl
            ∙ at_self ch _ _
            ∙ ap closed a.same
            ∙ ap some (sym channel_now);
        subscription_of =
            lookup-delete ch ch sys.uncancelled
            ∙ at_self ch _ _
            ∙ ap (subscription topics) (sym gone);
        actions = a.actions ++ (cancels ∷ []);
        ran = one_more a.actions cancels s t a.ran stepped;
      }

  pub acts-Agrees :
      (sys : System) (s t : Stream) (x : Action)
      → Agrees ch topics sys s
      → IsInner x
      → step x s ≡ some t
      → Agrees ch topics sys t
  acts-Agrees sys s t x a inner stepped =
      let kept : KeepsBoth topics s (some t) =
        subst (KeepsBoth topics s) stepped (step-KeepsBoth topics x s inner) in
      record {
        reached = a.reached;
        same = a.same ∙ ap some (sym kept.0);
        subscription_of = a.subscription_of ∙ sym kept.1;
        actions = a.actions ++ (x ∷ []);
        ran = one_more a.actions x s t a.ran stepped;
      }
