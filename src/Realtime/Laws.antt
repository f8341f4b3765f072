-- ===== src/Realtime/Laws.antt =====
-- Which channels the broker's map holds, and what `Publish` does to them.
use pihole_cluster_admin.Prelude.{
  ℕ, ◌≡◌, refl, sym, ◌∙◌, ap, subst, String, Bool, true, false, not, ◌&&◌, ◌||◌, List, [], ◌∷◌,
  ◌==◌, string_eq, nat_eq, Map, lookup, insert, delete, has, lookup-insert, lookup-delete, IsUnique,
  insert-IsUnique, delete-IsUnique, if◌then◌else◌, arith, eq_iff, Option-cases, inl, inr,
}
use pihole_cluster_admin.Realtime.{
  ChannelSet, set_or_empty, subscribers, add_topics, put_set, remove_topic, remove_topics,
}

abbrev pub listens : String → ℕ → Map String ChannelSet → Bool
listens topic ch subs = has ch (subscribers topic subs)

abbrev pub elem : String → List String → Bool
elem t [] = false
elem t (topic ∷ topics) = topic == t || elem t topics

bool_or : (a b c d : Bool) → ((a && c) || ((a && b) || d)) ≡ ((a && (b || c)) || d)
bool_or a b c d = ground arith

bool_and : (a b c d : Bool) → (not (a && c) && (not (a && b) && d)) ≡ (not (a && (b || c)) && d)
bool_and a b c d = ground arith

nobody : (b a d : Bool) → ((b ≡ true) → d ≡ false) → d ≡ (not (a && b) && d)
nobody true a d h = ground (arith, h refl)
nobody false a d h = ground arith

subscribers-insert :
    (topic t : String) (s : ChannelSet) (subs : Map String ChannelSet)
    → subscribers t (insert topic s subs) ≡ (if topic == t then s else subscribers t subs)
subscribers-insert topic t s subs = ground (arith, lookup-insert topic t s subs)

subscribers-put_set :
    (topic t : String) (s : ChannelSet) (subs : Map String ChannelSet)
    → subscribers t (put_set topic s subs) ≡ (if topic == t then s else subscribers t subs)
subscribers-put_set topic t [] subs = ground (arith, lookup-delete topic t subs)
subscribers-put_set topic t (p ∷ s) subs = subscribers-insert topic t (p ∷ s) subs

has-insert : (ch c : ℕ) (s : ChannelSet) → has c (insert ch tt s) ≡ (ch == c || has c s)
has-insert ch c s = ground (arith, lookup-insert ch c tt s)

has-delete : (ch c : ℕ) (s : ChannelSet) → has c (delete ch s) ≡ (not (ch == c) && has c s)
has-delete ch c s = ground (arith, lookup-delete ch c s)

has-if_insert :
    (b : Bool) (ch c : ℕ) (s s' : ChannelSet)
    → ((b ≡ true) → s ≡ s')
    → has c (if b then insert ch tt s else s') ≡ ((ch == c && b) || has c s')
has-if_insert true ch c s s' same =
    has-insert ch c s ∙ ap (λ r. ch == c || has c r) (same refl) ∙ ground arith
has-if_insert false ch c s s' same = ground arith

has-if_delete :
    (b : Bool) (ch c : ℕ) (s s' : ChannelSet)
    → ((b ≡ true) → s ≡ s')
    → has c (if b then delete ch s else s') ≡ (not (ch == c && b) && has c s')
has-if_delete true ch c s s' same =
    has-delete ch c s ∙ ap (λ r. not (ch == c) && has c r) (same refl) ∙ ground arith
has-if_delete false ch c s s' same = ground arith

same_set :
    (topic t : String) (subs : Map String ChannelSet)
    → topic == t ≡ true
    → subscribers topic subs ≡ subscribers t subs
same_set topic t subs e = ap (λ k. subscribers k subs) ((eq_iff topic t).0 e)

listens-add_topic :
    (topic t : String) (ch c : ℕ) (subs : Map String ChannelSet)
    → listens t c (insert topic (insert ch tt (subscribers topic subs)) subs)
      ≡ ((ch == c && topic == t) || listens t c subs)
listens-add_topic topic t ch c subs =
    ap (has c) (subscribers-insert topic t _ subs)
    ∙ has-if_insert (topic == t) ch c _ _ (same_set topic t subs)

pub listens-add_topics :
    (topics : List String) (t : String) (ch c : ℕ) (subs : Map String ChannelSet)
    → listens t c (add_topics topics ch subs) ≡ ((ch == c && elem t topics) || listens t c subs)
unfolding add_topics
listens-add_topics [] t ch c subs = ground arith
listens-add_topics (topic ∷ topics) t ch c subs =
    listens-add_topics topics t ch c _
    ∙ ap (λ b. (ch == c && elem t topics) || b) (listens-add_topic topic t ch c subs)
    ∙ bool_or (ch == c) (topic == t) (elem t topics) (listens t c subs)

listens-remove_topic :
    (topic t : String) (ch c : ℕ) (subs : Map String ChannelSet)
    → listens t c (remove_topic topic ch subs) ≡ (not (ch == c && topic == t) && listens t c subs)
unfolding lookup remove_topic
listens-remove_topic topic t ch c subs = elim (Option-cases (lookup topic subs)) [
  | inl e ↦
      rw (e, remove_topic)
        (nobody (topic == t) (ch == c) (listens t c subs)
          (λ same. ap (has c) (sym (same_set topic t subs same) ∙ ap set_or_empty e)))
  | inr (s, e) ↦
      rw (e, remove_topic)
        (ap (has c) (subscribers-put_set topic t (delete ch s) subs)
          ∙ has-if_delete (topic == t) ch c s _
              (λ same. sym (ap set_or_empty e) ∙ same_set topic t subs same))
]

pub listens-remove_topics :
    (topics : List String) (t : String) (ch c : ℕ) (subs : Map String ChannelSet)
    → listens t c (remove_topics topics ch subs)
      ≡ (not (ch == c && elem t topics) && listens t c subs)
unfolding remove_topics
listens-remove_topics [] t ch c subs = ground arith
listens-remove_topics (topic ∷ topics) t ch c subs =
    listens-remove_topics topics t ch c _
    ∙ ap (λ b. not (ch == c && elem t topics) && b) (listens-remove_topic topic t ch c subs)
    ∙ bool_and (ch == c) (topic == t) (elem t topics) (listens t c subs)

if-IsUnique :
    (b : Bool) (s s' : ChannelSet) → IsUnique s → IsUnique s' → IsUnique (if b then s else s')
if-IsUnique true s s' h h' = h
if-IsUnique false s s' h h' = h'

abbrev pub AreSets : Map String ChannelSet → Type 0
AreSets subs = (t : String) → IsUnique (subscribers t subs)

pub add_topics-AreSets :
    (topics : List String) (ch : ℕ) (subs : Map String ChannelSet)
    → AreSets subs
    → AreSets (add_topics topics ch subs)
unfolding add_topics
add_topics-AreSets [] ch subs sets = sets
add_topics-AreSets (topic ∷ topics) ch subs sets = add_topics-AreSets topics ch _ (λ t.
    subst IsUnique (sym (subscribers-insert topic t _ subs))
      (if-IsUnique (topic == t) _ _ (insert-IsUnique ch tt _ (sets topic)) (sets t)))

remove_topic-AreSets :
    (topic : String) (ch : ℕ) (subs : Map String ChannelSet)
    → AreSets subs
    → AreSets (remove_topic topic ch subs)
unfolding remove_topic
remove_topic-AreSets topic ch subs sets = elim (Option-cases (lookup topic subs)) [
  | inl e ↦ rw (e, remove_topic) sets
  | inr (s, e) ↦
      rw (e, remove_topic)
        (λ t. subst IsUnique (sym (subscribers-put_set topic t (delete ch s) subs)) (
          if-IsUnique (topic == t) _ _
            (delete-IsUnique ch s (subst IsUnique (ap set_or_empty e) (sets topic))) (sets t)))
]

pub remove_topics-AreSets :
    (topics : List String) (ch : ℕ) (subs : Map String ChannelSet)
    → AreSets subs
    → AreSets (remove_topics topics ch subs)
unfolding remove_topics
remove_topics-AreSets [] ch subs sets = sets
remove_topics-AreSets (topic ∷ topics) ch subs sets =
    remove_topics-AreSets topics ch _ (remove_topic-AreSets topic ch subs sets)
