-- ===== src/Realtime/Tests.antt =====
-- A broker with one subscription, and events for it and for nobody.
use pihole_cluster_admin.Prelude.{
  ℕ, ◌≡◌, refl, some, [], ◌∷◌, Map, lookup, insert, delete, string_eq, nat_eq,
}
use pihole_cluster_admin.Realtime.{
  Channel, new_broker, subscribe, cancel, publish, add_topics, remove_topics, remove_topic,
}
use pihole_cluster_admin.Realtime.Publish.{Delivers}
use pihole_cluster_admin.Realtime.Sound.{System, Reaches, started, next, subscribed, wanted}
use pihole_cluster_admin.Realtime.Reach.{publish-Delivers}

abbrev empty_system : System
empty_system = record { broker = new_broker; uncancelled = [] }

abbrev one_listener : System
one_listener = record {
  broker = subscribe ("news" ∷ []) 0 new_broker;
  uncancelled = (0, "news" ∷ []) ∷ [];
}

one_listener-Reaches : Reaches one_listener
unfolding new_broker lookup
one_listener-Reaches =
    next empty_system one_listener started (subscribed empty_system ("news" ∷ []) 0 refl)

-- The cancellation leaves an empty map.
cancel-subscribe :
    (cancel ("news" ∷ []) 0 (subscribe ("news" ∷ []) 0 new_broker)).subscriptions ≡ []
unfolding cancel subscribe new_broker add_topics remove_topics remove_topic lookup insert delete
cancel-subscribe = refl

publish-Delivers_example :
    (after : Map ℕ Channel) × (publish "news" "hello" one_listener.broker
      ≡ some (record one_listener.broker { channels = after }))
    × Delivers
        (record { topic = "news"; data_text = "hello" })
        (λ c. wanted "news" (lookup c one_listener.uncancelled))
        one_listener.broker.channels
        after
publish-Delivers_example = publish-Delivers one_listener "news" "hello" one_listener-Reaches
