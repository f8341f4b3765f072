-- ===== src/Api/Events/Stream/Order.antt =====
-- The browser gets the events of its subscription in their order.
use mathlib.Core.List.{append_assoc, append-nil}
use pihole_cluster_admin.Prelude.{
  ℕ, ◌≡◌, ◌≢◌, refl, sym, ap, ◌∙◌, subst, Bool, true, false, Option, none, some, List, [], ◌∷◌,
  ◌++◌, length, ltb, if◌then◌else◌, Bool-cases, inl, inr,
}
use pihole_cluster_admin.Realtime.{Event, capacity}
use pihole_cluster_admin.Api.Events.Stream.{
  Piece, comment, event_pieces, Relay, waiting, holding, ended, Handling, selecting, returned,
  cancelled, Stream, open_stream, Action, offered, disconnects, takes, sees_close, relay_done,
  hands, pings, out_closed, handler_done, cancels, write, offer_event, take_event, see_close,
  end_relay, hand, ping, see_end, end_handler, call_cancel, step, and_then, run,
}
use pihole_cluster_admin.Api.Events.Stream.Shows.{
  Shows, without_comments, pieces_of, event_pieces-plain, write_pieces-Shows, left_loop-Shows,
}

abbrev pub held : Relay → List Event
held waiting = []
held (holding e) = e ∷ []
held ended = []

-- What the channel has accepted is what was handed over, what the goroutine holds and the queue.
pub record IsFaithful (s : Stream) : Type 0 where
  pub kept : s.accepted ≡ s.handed ++ (held s.relay ++ s.channel.queue)
  pub shown : Shows s.handler s.output s.handed

abbrev pub Keeps : Option Stream → Type 0
Keeps none = Unit
Keeps (some s) = IsFaithful s

write-IsFaithful :
    (room : ℕ) (ps : List Piece) (fs : List Event) (r : Relay) (s : Stream)
    → without_comments ps ≡ pieces_of fs
    → s.handler ≡ selecting
    → held s.relay ≡ fs ++ held r
    → IsFaithful s
    → IsFaithful (write room ps (record s { relay = r; handed = s.handed ++ fs }))
unfolding write
write-IsFaithful room ps fs r s plain here moved f = record {
  kept =
      f.kept
      ∙ ap (λ l. s.handed ++ (l ++ s.channel.queue)) moved
      ∙ ap (λ l. s.handed ++ l) (append_assoc fs (held r) s.channel.queue)
      ∙ sym (append_assoc s.handed fs (held r ++ s.channel.queue));
  shown =
      write_pieces-Shows room ps s.output s.handed fs plain
        (subst (λ h. Shows h s.output s.handed) here f.shown);
}

offer_event-IsFaithful : (e : Event) (s : Stream) → IsFaithful s → Keeps (offer_event e s)
unfolding offer_event
offer_event-IsFaithful e s f = elim (Bool-cases s.channel.is_closed) [
  | inl closed ↦ rw closed tt
  | inr open_now ↦ elim (Bool-cases (ltb (length s.channel.queue) capacity)) [
    | inl room ↦
        rw (open_now, room)
          (record {
            kept =
                ap (λ l. l ++ (e ∷ [])) f.kept
                ∙ append_assoc s.handed (held s.relay ++ s.channel.queue) (e ∷ [])
                ∙ ap (λ l. s.handed ++ l) (append_assoc (held s.relay) s.channel.queue (e ∷ []));
            shown = f.shown;
          })
    | inr full ↦ rw (open_now, full) (record { kept = f.kept; shown = f.shown })
  ]
]

take_event-IsFaithful :
    (r : Relay) (queue : List Event) (s : Stream)
    → s.relay ≡ r
    → s.channel.queue ≡ queue
    → IsFaithful s
    → Keeps (take_event r queue s)
unfolding take_event
take_event-IsFaithful waiting (e ∷ queue) s at_select first f = record {
  kept = f.kept ∙ ap (λ l. s.handed ++ l) (cc);
  shown = f.shown;
}
take_event-IsFaithful _ _ s at_select first f = tt

-- A step that leaves what was accepted and handed over, and holds what it held.
same_events-IsFaithful :
    (r : Relay) (h : Handling) (s : Stream)
    → held s.relay ≡ held r
    → h ≢ selecting
    → IsFaithful s
    → IsFaithful (record s { relay = r; handler = h })
same_events-IsFaithful r h s same away f = record {
  kept = f.kept ∙ ap (λ l. s.handed ++ (l ++ s.channel.queue)) same;
  shown = left_loop-Shows h s.output s.handed away s.handler f.shown;
}

ended-IsFaithful :
    (s : Stream) → s.relay ≡ waiting → IsFaithful s → IsFaithful (record s { relay = ended })
ended-IsFaithful s at_select f = record {
  kept = f.kept ∙ ap (λ r. s.handed ++ (held r ++ s.channel.queue)) at_select;
  shown = f.shown;
}

guarded : (b : Bool) (s : Stream) → IsFaithful s → Keeps (if b then some s else none)
guarded true s f = f
guarded false s f = tt

see_close-IsFaithful :
    (r : Relay) (queue : List Event) (s : Stream)
    → s.relay ≡ r
    → IsFaithful s
    → Keeps (see_close r queue s)
unfolding see_close
see_close-IsFaithful waiting [] s at_select f =
    guarded s.channel.is_closed (record s { relay = ended }) (ended-IsFaithful s at_select f)
see_close-IsFaithful _ _ s at_select f = tt

end_relay-IsFaithful : (r : Relay) (s : Stream) → s.relay ≡ r → IsFaithful s → Keeps (end_relay r s)
unfolding end_relay
end_relay-IsFaithful waiting s at_select f =
    guarded s.is_done (record s { relay = ended }) (ended-IsFaithful s at_select f)
end_relay-IsFaithful _ s at_select f = tt

hand-IsFaithful :
    (room : ℕ) (h : Handling) (r : Relay) (s : Stream)
    → s.handler ≡ h
    → s.relay ≡ r
    → IsFaithful s
    → Keeps (hand room h r s)
unfolding hand
hand-IsFaithful room selecting (holding e) s here holds f =
    write-IsFaithful room (event_pieces e) (e ∷ []) waiting s (event_pieces-plain e) here
      (ap held holds) f
hand-IsFaithful _ _ _ s here holds f = tt

ping-IsFaithful :
    (room : ℕ) (h : Handling) (s : Stream) → s.handler ≡ h → IsFaithful s → Keeps (ping room h s)
unfolding ping
ping-IsFaithful room selecting s here f =
    subst (λ es. IsFaithful (write room (comment ": ping\n\n" ∷ []) (record s { handed = es })))
      (append-nil s.handed)
      (write-IsFaithful room (comment ": ping\n\n" ∷ []) [] s.relay s refl here refl f)
ping-IsFaithful _ _ s here f = tt

returned-away : returned ≢ selecting
returned-away h = cc

see_end-IsFaithful : (h : Handling) (r : Relay) (s : Stream) → IsFaithful s → Keeps (see_end h r s)
unfolding see_end
see_end-IsFaithful selecting ended s f =
    same_events-IsFaithful s.relay returned s refl returned-away f
see_end-IsFaithful _ _ s f = tt

end_handler-IsFaithful : (h : Handling) (s : Stream) → IsFaithful s → Keeps (end_handler h s)
unfolding end_handler
end_handler-IsFaithful selecting s f =
    guarded s.is_done (record s { handler = returned })
      (same_events-IsFaithful s.relay returned s refl returned-away f)
end_handler-IsFaithful _ s f = tt

call_cancel-IsFaithful : (h : Handling) (s : Stream) → IsFaithful s → Keeps (call_cancel h s)
unfolding call_cancel
call_cancel-IsFaithful returned s f = record {
  kept = f.kept;
  shown = left_loop-Shows cancelled s.output s.handed (λ h. cc) s.handler f.shown;
}
call_cancel-IsFaithful _ s f = tt

step-IsFaithful : (a : Action) (s : Stream) → IsFaithful s → Keeps (step a s)
unfolding step
step-IsFaithful (offered e) s f = offer_event-IsFaithful e s f
step-IsFaithful disconnects s f = record { kept = f.kept; shown = f.shown }
step-IsFaithful takes s f = take_event-IsFaithful s.relay s.channel.queue s refl refl f
step-IsFaithful sees_close s f = see_close-IsFaithful s.relay s.channel.queue s refl f
step-IsFaithful relay_done s f = end_relay-IsFaithful s.relay s refl f
step-IsFaithful (hands room) s f = hand-IsFaithful room s.handler s.relay s refl refl f
step-IsFaithful (pings room) s f = ping-IsFaithful room s.handler s refl f
step-IsFaithful out_closed s f = see_end-IsFaithful s.handler s.relay s f
step-IsFaithful handler_done s f = end_handler-IsFaithful s.handler s f
step-IsFaithful cancels s f = call_cancel-IsFaithful s.handler s f

then_kept :
    (o : Option Stream) (f : Stream → Option Stream)
    → Keeps o
    → ((t : Stream) → IsFaithful t → Keeps (f t))
    → Keeps (and_then o f)
then_kept none f k rest = tt
then_kept (some t) f k rest = rest t k

run-Keeps : (actions : List Action) (s : Stream) → IsFaithful s → Keeps (run actions s)
unfolding run
run-Keeps [] s f = f
run-Keeps (a ∷ actions) s f =
    then_kept (step a s) (run actions) (step-IsFaithful a s f) (run-Keeps actions)

open_stream-IsFaithful : IsFaithful open_stream
unfolding open_stream
open_stream-IsFaithful = record { kept = refl; shown = ([], refl, λ h. refl) }

-- All that was to be shown for the events as long as the handler is in its loop, else a beginning.
abbrev pub IsShown : Handling → List Piece → List Event → Type 0
IsShown selecting output events = without_comments output ≡ pieces_of events
IsShown _ output events = (rest : List Piece) × (without_comments output ++ rest ≡ pieces_of events)

Shows-IsShown :
    (h : Handling) (output : List Piece) (es : List Event) → Shows h output es → IsShown h output es
Shows-IsShown selecting output es (rest, shown, none_left) =
    sym (append-nil (without_comments output))
    ∙ ap (λ l. without_comments output ++ l) (sym (none_left refl))
    ∙ shown
Shows-IsShown _ output es (rest, shown, none_left) = (rest, shown)

-- Whatever the order of the steps, the events that have found room in the channel of a stream are,
-- in their order and each once, those handed to the handler, the one that the goroutine holds, and
-- those in the channel; and what the handler has written is, besides comments, a beginning of the
-- texts of the events handed over, one after the other, and all of them as long as the handler is
-- in its loop.
pub run-IsFaithful :
    (actions : List Action) (s : Stream)
    → run actions open_stream ≡ some s
    → (s.accepted ≡ s.handed ++ (held s.relay ++ s.channel.queue))
      × IsShown s.handler s.output s.handed
run-IsFaithful actions s ran =
    let f : IsFaithful s = subst Keeps ran (run-Keeps actions open_stream open_stream-IsFaithful) in
    (f.kept, Shows-IsShown s.handler s.output s.handed f.shown)
