-- ===== src/Realtime/Publish.antt =====
-- What the loop of `Publish` does to the channels of a set.
use pihole_cluster_admin.Prelude.{
  ℕ, ◌≡◌, ◌≢◌, refl, sym, ◌∙◌, ap, subst, Bool, true, false, not, ◌&&◌, ◌||◌, Option, none, some,
  [], ◌∷◌, ◌++◌, ◌==◌, nat_eq, length, ltb, Map, lookup, insert, has, lookup-insert, IsUnique,
  if◌then◌else◌, All, arith, nat_beq_iff, Option-cases, Bool-cases, inl, inr,
}
use pihole_cluster_admin.Realtime.{
  Event, Channel, ChannelSet, capacity, offer, put_channel, send, send_all,
}

abbrev pub is_open : Option Channel → Bool
is_open none = false
is_open (some c) = not c.is_closed

-- A channel after an event was offered to it: the event is dropped when the buffer is full.
abbrev pub delivered : Event → Channel → Channel
delivered event c =
    if ltb (length c.queue) capacity then record c { queue = c.queue ++ (event ∷ []) } else c

abbrev pub deliver : Event → Option Channel → Option Channel
deliver event none = none
deliver event (some c) = some (delivered event c)

is_open-deliver : (event : Event) (o : Option Channel) → is_open (deliver event o) ≡ is_open o
is_open-deliver event none = refl
is_open-deliver event (some c) = ground arith

offer-open :
    (event : Event) (c : Channel) → c.is_closed ≡ false → offer event c ≡ some (delivered event c)
unfolding offer
offer-open event c h = ground arith

-- A set whose channels are open
abbrev pub AllOpen : ChannelSet → Map ℕ Channel → Type 0
AllOpen s channels = All (λ p. is_open (lookup p.0 channels) ≡ true) s

abbrev pub Delivers : Event → (ℕ → Bool) → Map ℕ Channel → Map ℕ Channel → Type 0
Delivers event listening before after =
    (c : ℕ)
    → lookup c after ≡ (if listening c then deliver event (lookup c before) else lookup c before)

abbrev is_some : Option (Unit {0}) → Bool
is_some none = false
is_some (some u) = true

closed_none : (o : Option Channel) → o ≡ none → is_open o ≢ true
closed_none none e h = cc
closed_none (some c) e h = cc

open_some : (o : Option Channel) (c : Channel) → o ≡ some c → is_open o ≡ true → c.is_closed ≡ false
open_some o c e h = ground (arith, sym (ap is_open e) ∙ h)

same_channel :
    (b : Bool) (event : Event) (c : Channel) (o : Option Channel)
    → ((b ≡ true) → o ≡ some c)
    → (if b then some (delivered event c) else o) ≡ (if b then deliver event o else o)
same_channel true event c o h = sym (ap (deliver event) (h refl))
same_channel false event c o h = refl

pub is_open-if :
    (b : Bool) (event : Event) (o : Option Channel)
    → is_open (if b then deliver event o else o) ≡ is_open o
is_open-if true event o = is_open-deliver event o
is_open-if false event o = refl

true-ne-false : true ≢ false
true-ne-false h = cc

send-Delivers :
    (event : Event) (ch : ℕ) (channels : Map ℕ Channel)
    → is_open (lookup ch channels) ≡ true
    → (after : Map ℕ Channel) × (send event ch channels ≡ some after)
      × Delivers event (λ c. ch == c) channels after
unfolding send
send-Delivers event ch channels h = elim (Option-cases (lookup ch channels)) [
  | inl e ↦ absurd (closed_none (lookup ch channels) e h)
  | inr (c, e) ↦
      let open_ : c.is_closed ≡ false = open_some (lookup ch channels) c e h in
      (
        insert ch (delivered event c) channels,
        rw (e, send) (ap (λ o. put_channel ch o channels) (offer-open event c open_)),
        (λ k.
            lookup-insert ch k (delivered event c) channels
            ∙ same_channel (ch == k) event c (lookup k channels)
                (λ same. ap (λ i. lookup i channels) (sym ((nat_beq_iff ch k).0 same)) ∙ e)),
      )
]

head_not_in : (ch c : ℕ) (s : ChannelSet) → lookup ch s ≡ none → (ch == c && has c s) ≡ false
head_not_in ch c s once = elim (Bool-cases (ch == c)) [
  | inl e ↦ rw e (ap is_some (subst (λ k. lookup k s ≡ none) ((nat_beq_iff ch c).0 e) once))
  | inr e ↦ rw e refl
]

pub has_cons :
    (ch c : ℕ) (u : Unit {0}) (s : ChannelSet) → has c ((ch, u) ∷ s) ≡ (ch == c || has c s)
unfolding lookup
has_cons ch c u s = ground arith

Delivers_compose :
    (event : Event) (p q : Bool) (o o' o'' : Option Channel)
    → ((p && q) ≡ false)
    → o' ≡ (if p then deliver event o else o)
    → o'' ≡ (if q then deliver event o' else o')
    → o'' ≡ (if p || q then deliver event o else o)
Delivers_compose event true true o o' o'' h e e' = absurd (true-ne-false h)
Delivers_compose event true false o o' o'' h e e' = e' ∙ e
Delivers_compose event false true o o' o'' h e e' = e' ∙ ap (deliver event) e
Delivers_compose event false false o o' o'' h e e' = e' ∙ e

AllOpen-Delivers :
    (event : Event) (listening : ℕ → Bool) (s : ChannelSet) (before after : Map ℕ Channel)
    → Delivers event listening before after
    → AllOpen s before
    → AllOpen s after
AllOpen-Delivers event listening [] before after d all = tt
AllOpen-Delivers event listening ((c, u) ∷ s) before after d (here, rest) = (
  ap is_open (d c) ∙ is_open-if (listening c) event (lookup c before) ∙ here,
  AllOpen-Delivers event listening s before after d rest,
)

-- Over a set of open channels without repetition, the loop of `Publish` ends without a panic, and
-- each channel of the set, and no other, is offered the event once.
pub send_all-Delivers :
    (event : Event) (s : ChannelSet) (channels : Map ℕ Channel)
    → IsUnique s
    → AllOpen s channels
    → (after : Map ℕ Channel) × (send_all event s channels ≡ some after)
      × Delivers event (λ c. has c s) channels after
unfolding send_all lookup
send_all-Delivers event [] channels unique all = (channels, refl, (λ c. refl))
send_all-Delivers event ((ch, u) ∷ s) channels (once, unique) (here, rest) =
    let (middle, sent, first) = send-Delivers event ch channels here in
    let (after, done, others) =
      send_all-Delivers event s middle unique
        (AllOpen-Delivers event (λ c. ch == c) s channels middle first rest) in
    (
      after,
      rw (sent, send_all) done,
      (λ c.
          Delivers_compose event (ch == c) (has c s) _ _ _ (head_not_in ch c s once) (first c)
            (others c)
          ∙ ap (λ b. if b then deliver event (lookup c channels) else lookup c channels)
              (sym (has_cons ch c u s))),
    )
