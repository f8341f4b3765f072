-- ===== src/Realtime/Sound.antt =====
-- The states of a broker in use, and the invariant that ties its map to the subscriptions.
use mathlib.Core.Option
use pihole_cluster_admin.Prelude.{
  ℕ, suc, ◌+◌, ◌-◌, ◌≡◌, refl, sym, ◌∙◌, ap, subst, String, Bool, true, false, not, ◌&&◌, ◌||◌,
  Option, none, some, List, [], ◌∷◌, ◌==◌, nat_eq, string_eq, length, Map, lookup, delete, has,
  lookup-insert, IsUnique, beq_refl, if◌then◌else◌, All, arith, nat_beq_iff,
}
use pihole_cluster_admin.Realtime.{
  Channel, ChannelSet, Broker, new_broker, subscribers, subscribe, cancel, publish, receive, taken,
  take_from, close_channel,
}
use pihole_cluster_admin.Realtime.Laws.{listens, elem}
use pihole_cluster_admin.Realtime.Publish.{is_open, Delivers, has_cons, send_all-Delivers}

-- A broker, with the subscriptions that have not been cancelled: the channel and topics of each.
pub record System : Type 0 where
  pub broker : Broker
  pub uncancelled : Map ℕ (List String)

-- A step. `Subscribe` makes a channel that is not in use, and a `cancel` is called once.
pub data Step : System → System → Type 0 where
  subscribed :
      (s : System) (topics : List String) (ch : ℕ)
      → lookup ch s.broker.channels ≡ none
      → Step s (record {
        broker = subscribe topics ch s.broker;
        uncancelled = (ch, topics) ∷ s.uncancelled;
      })
  cancelled :
      (s : System) (topics : List String) (ch : ℕ)
      → lookup ch s.uncancelled ≡ some topics
      → Step s
          (record { broker = cancel topics ch s.broker; uncancelled = delete ch s.uncancelled })
  published :
      (s : System) (topic text : String) (b : Broker)
      → publish topic text s.broker ≡ some b
      → Step s (record s { broker = b })
  received : (s : System) (ch : ℕ) → Step s (record s { broker = receive ch s.broker })

pub data Reaches : System → Type 0 where
  started : Reaches (record { broker = new_broker; uncancelled = [] })
  next : (s t : System) → Reaches s → Step s t → Reaches t

abbrev pub wanted : String → Option (List String) → Bool
wanted t none = false
wanted t (some topics) = elem t topics

-- The map of the broker holds a channel under a topic exactly when an uncancelled subscription has
-- both; those channels are the open ones; and the count is their number.
pub record IsSound (s : System) : Type 0 where
  pub listening :
      (t : String) (c : ℕ) → listens t c s.broker.subscriptions ≡ wanted t (lookup c s.uncancelled)
  pub open_channels : (c : ℕ) → is_open (lookup c s.broker.channels) ≡ has c s.uncancelled
  pub counted : s.broker.n ≡ length s.uncancelled
  pub one_entry : IsUnique s.uncancelled
  pub one_listener : (t : String) → IsUnique (subscribers t s.broker.subscriptions)

pub some-injective : {A : Type 0} {a b : A} → Option.some a ≡ some b → a ≡ b
some-injective h = cc

abbrev pub is_some : Option (List String) → Bool
is_some none = false
is_some (some v) = true

pub unhas : (o : Option (List String)) → is_some o ≡ false → o ≡ none
unhas none h = refl
unhas (some v) h = cc

wanted-is_some : (t : String) (o : Option (List String)) → wanted t o ≡ true → is_some o ≡ true
wanted-is_some t none h = cc
wanted-is_some t (some topics) h = refl

pub has-is_some : (c : ℕ) (m : Map ℕ (List String)) → has c m ≡ is_some (lookup c m)
has-is_some c m = ground arith

pub wanted-if :
    (b : Bool) (t : String) (topics : List String) (l : Bool) (o : Option (List String))
    → l ≡ wanted t o
    → ((b ≡ true) → o ≡ none)
    → ((b && elem t topics) || l) ≡ wanted t (if b then some topics else o)
wanted-if true t topics l o h gone = ground (arith, h ∙ ap (wanted t) (gone refl))
wanted-if false t topics l o h gone = h

pub unwanted-if :
    (b : Bool) (t : String) (topics : List String) (l : Bool) (o : Option (List String))
    → l ≡ wanted t o
    → ((b ≡ true) → o ≡ some topics)
    → (not (b && elem t topics) && l) ≡ wanted t (if b then none else o)
unwanted-if true t topics l o h found = ground (arith, h ∙ ap (wanted t) (found refl))
unwanted-if false t topics l o h found = h

pub opened-if :
    (b : Bool) (c : Channel) (o : Option Channel) (topics : List String) (o' : Option (List String))
    → c.is_closed ≡ false
    → is_open o ≡ is_some o'
    → is_open (if b then some c else o) ≡ is_some (if b then some topics else o')
opened-if true c o topics o' e h = ap not e
opened-if false c o topics o' e h = h

unfoldable pub closed : Option Channel → Option Channel
closed none = none
closed (some c) = some (record c { is_closed = true })

pub closed-if :
    (b : Bool) (o : Option Channel) (o' : Option (List String))
    → is_open o ≡ is_some o'
    → is_open (if b then closed o else o) ≡ is_some (if b then none else o')
unfolding closed
closed-if true none o' h = refl
closed-if true (some c) o' h = refl
closed-if false o o' h = h

same_at :
    (ch c : ℕ) (channels : Map ℕ Channel) (o : Option Channel)
    → lookup ch channels ≡ o
    → (ch == c) ≡ true
    → lookup c channels ≡ o
same_at ch c channels o e same = subst (λ k. lookup k channels ≡ o) ((nat_beq_iff ch c).0 same) e

close-if_none :
    (b : Bool) (o : Option Channel) → ((b ≡ true) → o ≡ none) → o ≡ (if b then closed o else o)
unfolding closed
close-if_none true o h = h refl ∙ sym (ap closed (h refl))
close-if_none false o h = refl

close-if_some :
    (b : Bool) (d : Channel) (o : Option Channel)
    → ((b ≡ true) → o ≡ some d)
    → (if b then some (record d { is_closed = true }) else o) ≡ (if b then closed o else o)
unfolding closed
close-if_some true d o h = sym (ap closed (h refl))
close-if_some false d o h = refl

take-if_some :
    (b : Bool) (d : Channel) (o : Option Channel)
    → ((b ≡ true) → o ≡ some d)
    → is_open (if b then some (taken d) else o) ≡ is_open o
take-if_some true d o h = sym (ap is_open (h refl))
take-if_some false d o h = refl

or_true : (b : Bool) → (b || true) ≡ true
or_true b = ground arith

pub add_one : (n : ℕ) → n + 1 ≡ suc n
add_one n = omega arith

pub one_less : (n m k : ℕ) → n ≡ m → suc k ≡ m → n - 1 ≡ k
one_less n m k h e = omega arith

pub lookup-close_channel :
    (ch c : ℕ) (o : Option Channel) (channels : Map ℕ Channel)
    → lookup ch channels ≡ o
    → lookup c (close_channel ch o channels)
      ≡ (if ch == c then closed (lookup c channels) else lookup c channels)
unfolding closed
lookup-close_channel ch c none channels e =
    close-if_none (ch == c) (lookup c channels) (same_at ch c channels none e)
lookup-close_channel ch c (some d) channels e =
    lookup-insert ch c _ channels
    ∙ close-if_some (ch == c) d (lookup c channels) (same_at ch c channels (some d) e)

pub lookup-take_from :
    (ch c : ℕ) (o : Option Channel) (channels : Map ℕ Channel)
    → lookup ch channels ≡ o
    → is_open (lookup c (take_from ch o channels)) ≡ is_open (lookup c channels)
lookup-take_from ch c none channels e = refl
lookup-take_from ch c (some d) channels e =
    ap is_open (lookup-insert ch c _ channels)
    ∙ take-if_some (ch == c) d (lookup c channels) (same_at ch c channels (some d) e)

All-has : (Q : ℕ → Type 0) (s : ChannelSet) → ((c : ℕ) → has c s ≡ true → Q c) → All (λ p. Q p.0) s
All-has Q [] h = tt
All-has Q ((c, u) ∷ s) h = (
  h c (has_cons c c u s ∙ ap (λ b. b || has c s) (beq_refl c)),
  All-has Q s (λ k e. h k (has_cons c k u s ∙ ap (λ b. c == k || b) e ∙ or_true (c == k))),
)

listener-open :
    (s : System) (t : String) (c : ℕ)
    → IsSound s
    → listens t c s.broker.subscriptions ≡ true
    → is_open (lookup c s.broker.channels) ≡ true
listener-open s t c sound h =
    sound.open_channels c
    ∙ has-is_some c s.uncancelled
    ∙ wanted-is_some t (lookup c s.uncancelled) (sym (sound.listening t c) ∙ h)

-- What a publication does to a broker in use
pub publish-total :
    (s : System) (topic text : String)
    → IsSound s
    → (after : Map ℕ Channel) × (publish topic text s.broker
        ≡ some (record s.broker { channels = after }))
      × Delivers
          (record { topic = topic; data_text = text })
          (λ c. listens topic c s.broker.subscriptions)
          s.broker.channels
          after
unfolding publish
publish-total s topic text sound =
    let (after, done, delivers) =
      send_all-Delivers (record { topic = topic; data_text = text })
        (subscribers topic s.broker.subscriptions) s.broker.channels (sound.one_listener topic)
        (All-has (λ c. is_open (lookup c s.broker.channels) ≡ true) _
          (λ c h. listener-open s topic c sound h)) in
    (
      after,
      ap (λ o. Option.map (λ channels. record s.broker { channels = channels }) o) done,
      delivers,
    )
