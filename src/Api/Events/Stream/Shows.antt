-- ===== src/Api/Events/Stream/Shows.antt =====
-- The texts of events in what a handler has written.
use mathlib.Core.List.{append_assoc, append-nil}
use pihole_cluster_admin.Prelude.{
  ℕ, zero, suc, ◌≡◌, ◌≢◌, refl, sym, ap, ◌∙◌, Bool, true, false, List, [], ◌∷◌, ◌++◌, arith,
}
use pihole_cluster_admin.Realtime.{Event}
use pihole_cluster_admin.Api.Events.Stream.{
  Piece, comment, event_line, data_prefix, payload, event_end, event_pieces, write_pieces, Handling,
  selecting, after_write,
}

-- The pieces that are no comments.
abbrev pub without_comments : List Piece → List Piece
without_comments [] = []
without_comments (comment text ∷ ps) = without_comments ps
without_comments (p ∷ ps) = p ∷ without_comments ps

-- The texts of events, one after the other.
abbrev pub pieces_of : List Event → List Piece
pieces_of [] = []
pieces_of (e ∷ es) = event_pieces e ++ pieces_of es

pub without_comments-append :
    (ps qs : List Piece) → without_comments (ps ++ qs) ≡ without_comments ps ++ without_comments qs
without_comments-append [] qs = refl
without_comments-append (comment text ∷ ps) qs = without_comments-append ps qs
without_comments-append (event_line topic ∷ ps) qs =
    ap (λ l. event_line topic ∷ l) (without_comments-append ps qs)
without_comments-append (data_prefix ∷ ps) qs =
    ap (λ l. data_prefix ∷ l) (without_comments-append ps qs)
without_comments-append (payload text ∷ ps) qs =
    ap (λ l. payload text ∷ l) (without_comments-append ps qs)
without_comments-append (event_end ∷ ps) qs =
    ap (λ l. event_end ∷ l) (without_comments-append ps qs)

pub pieces_of-append : (es fs : List Event) → pieces_of (es ++ fs) ≡ pieces_of es ++ pieces_of fs
pieces_of-append [] fs = refl
pieces_of-append (e ∷ es) fs =
    ap (λ l. event_pieces e ++ l) (pieces_of-append es fs)
    ∙ sym (append_assoc (event_pieces e) (pieces_of es) (pieces_of fs))

-- What is written is what was to be written, up to a rest that is empty without an error.
Wrote : List Piece → List Piece × Bool → Type 0
Wrote ps w = (rest : List Piece) × (w.0 ++ rest ≡ ps) × (w.1 ≡ true → rest ≡ [])

write_pieces-Wrote : (room : ℕ) (ps : List Piece) → Wrote ps (write_pieces room ps)
unfolding write_pieces Wrote
write_pieces-Wrote room [] = ([], refl, λ h. refl)
write_pieces-Wrote zero (p ∷ ps) = (p ∷ ps, refl, λ h. cc)
write_pieces-Wrote (suc room) (p ∷ ps) =
    let (rest, whole, done) = write_pieces-Wrote room ps in (rest, ap (λ l. p ∷ l) whole, done)

pub event_pieces-plain : (e : Event) → without_comments (event_pieces e) ≡ pieces_of (e ∷ [])
unfolding event_pieces
event_pieces-plain e = ground arith

-- The browser has the texts of the events that were handed over, up to a rest that is empty as
-- long as the handler is in its loop.
abbrev pub Shows : Handling → List Piece → List Event → Type 0
Shows h output events =
    (rest : List Piece) × (without_comments output ++ rest ≡ pieces_of events)
    × (h ≡ selecting → rest ≡ [])

after_write-true : (b : Bool) → after_write b ≡ selecting → b ≡ true
after_write-true true h = refl
after_write-true false h = cc

pub write_pieces-Shows :
    (room : ℕ) (ps output : List Piece) (es fs : List Event)
    → without_comments ps ≡ pieces_of fs
    → Shows selecting output es
    → Shows (after_write (write_pieces room ps).1) (output ++ (write_pieces room ps).0) (es ++ fs)
unfolding Wrote
write_pieces-Shows room ps output es fs plain (rest, shown, none_left) =
    let (more, whole, done) = write_pieces-Wrote room ps in
    let w : List Piece = (write_pieces room ps).0 in
    let before : without_comments output ≡ pieces_of es =
      sym (append-nil (without_comments output))
      ∙ ap (λ l. without_comments output ++ l) (sym (none_left refl))
      ∙ shown in
    let new : without_comments w ++ without_comments more ≡ pieces_of fs =
      sym (without_comments-append w more) ∙ ap without_comments whole ∙ plain in
    (
      without_comments more,
      ap (λ l. l ++ without_comments more) (without_comments-append output w)
          ∙ append_assoc (without_comments output) (without_comments w) (without_comments more)
          ∙ ap (λ l. without_comments output ++ l) new
          ∙ ap (λ l. l ++ pieces_of fs) before
          ∙ sym (pieces_of-append es fs),
      λ h. ap without_comments (done (after_write-true (write_pieces room ps).1 h)),
    )

pub left_loop-Shows :
    (h : Handling) (output : List Piece) (es : List Event)
    → h ≢ selecting
    → (before : Handling) → Shows before output es
    → Shows h output es
left_loop-Shows h output es away before (rest, shown, none_left) =
    (rest, shown, λ here. absurd (away here))
