-- ===== src/Realtime/Reach.antt =====
-- The broker in use: any sequence of subscriptions, cancellations, published events and receptions.
use pihole_cluster_admin.Prelude.{
  ℕ, ◌+◌, ◌≡◌, refl, sym, ◌∙◌, ap, subst, String, false, none, some, List, [], ◌∷◌, ◌==◌, nat_eq,
  string_eq, length, Map, lookup, delete, lookup-insert, lookup-delete, delete-IsUnique,
  length-delete, if◌then◌else◌, nat_beq_iff,
}
use pihole_cluster_admin.Realtime.{
  Channel, Broker, new_broker, subscribe, cancel, publish, receive, subscriber_count,
}
use pihole_cluster_admin.Realtime.Laws.{
  listens, listens-add_topics, listens-remove_topics, add_topics-AreSets, remove_topics-AreSets,
}
use pihole_cluster_admin.Realtime.Publish.{is_open, is_open-if, deliver, Delivers}
use pihole_cluster_admin.Realtime.Sound.{
  wanted, some-injective, is_some, unhas, has-is_some, wanted-if, unwanted-if, opened-if, closed-if,
  add_one, one_less, lookup-close_channel, lookup-take_from, publish-total, System, Step, Reaches,
  IsSound, subscribed, cancelled, published, received, started, next,
}

subscribed-IsSound :
    (s : System) (topics : List String) (ch : ℕ)
    → lookup ch s.broker.channels ≡ none
    → IsSound s
    → IsSound (record {
      broker = subscribe topics ch s.broker;
      uncancelled = (ch, topics) ∷ s.uncancelled;
    })
unfolding subscribe lookup
subscribed-IsSound s topics ch fresh sound =
    let free : lookup ch s.uncancelled ≡ none =
      unhas (lookup ch s.uncancelled)
        (sym (has-is_some ch s.uncancelled) ∙ sym (sound.open_channels ch) ∙ ap is_open fresh) in
    record {
      listening = λ t c.
          listens-add_topics topics t ch c s.broker.subscriptions
          ∙ wanted-if (ch == c) t topics _ (lookup c s.uncancelled) (sound.listening t c)
              (λ e. subst (λ k. lookup k s.uncancelled ≡ none) ((nat_beq_iff ch c).0 e) free);
      open_channels = λ c.
          ap is_open
            (lookup-insert ch c (record { queue = []; is_closed = false }) s.broker.channels)
          ∙ opened-if (ch == c) _ (lookup c s.broker.channels) topics (lookup c s.uncancelled) refl
              (sound.open_channels c ∙ has-is_some c s.uncancelled)
          ∙ sym (has-is_some c ((ch, topics) ∷ s.uncancelled));
      counted = ap (λ n. n + 1) sound.counted ∙ add_one (length s.uncancelled);
      one_entry = (free, sound.one_entry);
      one_listener = add_topics-AreSets topics ch s.broker.subscriptions sound.one_listener;
    }

cancelled-IsSound :
    (s : System) (topics : List String) (ch : ℕ)
    → lookup ch s.uncancelled ≡ some topics
    → IsSound s
    → IsSound (record { broker = cancel topics ch s.broker; uncancelled = delete ch s.uncancelled })
unfolding cancel
cancelled-IsSound s topics ch found sound = record {
  listening = λ t c.
      listens-remove_topics topics t ch c s.broker.subscriptions
      ∙ unwanted-if (ch == c) t topics _ (lookup c s.uncancelled) (sound.listening t c)
          (λ e. subst (λ k. lookup k s.uncancelled ≡ some topics) ((nat_beq_iff ch c).0 e) found)
      ∙ ap (wanted t) (sym (lookup-delete ch c s.uncancelled));
  open_channels = λ c.
      ap is_open (lookup-close_channel ch c _ s.broker.channels refl)
      ∙ closed-if (ch == c) (lookup c s.broker.channels) (lookup c s.uncancelled)
          (sound.open_channels c ∙ has-is_some c s.uncancelled)
      ∙ ap is_some (sym (lookup-delete ch c s.uncancelled))
      ∙ sym (has-is_some c (delete ch s.uncancelled));
  counted =
      one_less s.broker.n (length s.uncancelled) (length (delete ch s.uncancelled)) sound.counted
        (length-delete ch topics s.uncancelled sound.one_entry found);
  one_entry = delete-IsUnique ch s.uncancelled sound.one_entry;
  one_listener = remove_topics-AreSets topics ch s.broker.subscriptions sound.one_listener;
}

published-IsSound :
    (s : System) (topic text : String) (b : Broker)
    → publish topic text s.broker ≡ some b
    → IsSound s
    → IsSound (record s { broker = b })
published-IsSound s topic text b done sound =
    let (after, same, delivers) = publish-total s topic text sound in
    subst (λ b'. IsSound (record s { broker = b' })) (some-injective (sym same ∙ done))
      (record {
        listening = sound.listening;
        open_channels = λ c.
            ap is_open (delivers c)
            ∙ is_open-if (listens topic c s.broker.subscriptions) _ (lookup c s.broker.channels)
            ∙ sound.open_channels c;
        counted = sound.counted;
        one_entry = sound.one_entry;
        one_listener = sound.one_listener;
      })

received-IsSound :
    (s : System) (ch : ℕ) → IsSound s → IsSound (record s { broker = receive ch s.broker })
unfolding receive
received-IsSound s ch sound = record {
  listening = sound.listening;
  open_channels = λ c. lookup-take_from ch c _ s.broker.channels refl ∙ sound.open_channels c;
  counted = sound.counted;
  one_entry = sound.one_entry;
  one_listener = sound.one_listener;
}

Step-IsSound : (s t : System) → Step s t → IsSound s → IsSound t
Step-IsSound _ _ (subscribed s topics ch fresh) sound = subscribed-IsSound s topics ch fresh sound
Step-IsSound _ _ (cancelled s topics ch found) sound = cancelled-IsSound s topics ch found sound
Step-IsSound _ _ (published s topic text b done) sound = published-IsSound s topic text b done sound
Step-IsSound _ _ (received s ch) sound = received-IsSound s ch sound

-- In every reachable state the broker's map holds exactly the uncancelled subscriptions, their
-- channels are the open ones, and the count is their number.
pub Reaches-IsSound : (s : System) → Reaches s → IsSound s
unfolding new_broker lookup
Reaches-IsSound _ started = record {
  listening = λ t c. refl;
  open_channels = λ c. refl;
  counted = refl;
  one_entry = tt;
  one_listener = λ t. tt;
}
Reaches-IsSound _ (next s t before step) = Step-IsSound s t step (Reaches-IsSound s before)

-- In every reachable state SubscriberCount is the number of the subscriptions that have not been
-- cancelled.
pub subscriber_count-length :
    (s : System) → Reaches s → subscriber_count s.broker ≡ length s.uncancelled
unfolding subscriber_count
subscriber_count-length s reached = (Reaches-IsSound s reached).counted

-- In every reachable state Publish ends without a panic, in particular it sends on no closed
-- channel; it offers the event once to the channel of each uncancelled subscription to the topic,
-- and changes no other channel and nothing else of the broker.
pub publish-Delivers :
    (s : System) (topic text : String)
    → Reaches s
    → (after : Map ℕ Channel) × (publish topic text s.broker
        ≡ some (record s.broker { channels = after }))
      × Delivers
          (record { topic = topic; data_text = text })
          (λ c. wanted topic (lookup c s.uncancelled))
          s.broker.channels
          after
publish-Delivers s topic text reached =
    let sound = Reaches-IsSound s reached in
    let (after, done, delivers) = publish-total s topic text sound in
    (
      after,
      done,
      λ c.
          delivers c
          ∙ ap
              (λ b.
                if b
                then deliver (record { topic = topic; data_text = text })
                    (lookup c s.broker.channels)
                else lookup c s.broker.channels)
              (sound.listening topic c),
    )
