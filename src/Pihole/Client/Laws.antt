-- ===== src/Pihole/Client/Laws.antt =====
-- What a client promises about its session.
use pihole_cluster_admin.Prelude.{
  ◌≡◌, ◌≢◌, refl, ◌∙◌, ap, subst, String, true, some, string_eq, arith, eq_iff, nat_beq, Bool-cases,
  inl, inr,
}
use pihole_cluster_admin.Httpx.{Result, ok, err}
use pihole_cluster_admin.Httpx.Laws.{ok-injective, err-ne-ok}
use pihole_cluster_admin.Pihole.Client.{
  Request, Response, Http, Node, Io, and_then, wrap, AuthResponse, no_session, do_http, new_request,
  keep_session, login_answer, login_send, login, is_fresh, ensure_session, is_denied,
  retry_if_denied, do_request, logout, logout_answer,
}

pub wrap-ok :
    {A : Type 0} (prefix : String) (r : Result A) (a : A) → wrap prefix r ≡ ok a → r ≡ ok a
wrap-ok prefix (ok b) a h = h
wrap-ok prefix (err e) a h = cc

module _ {World : Type 0} {A B : Type 0} (P : B → Node World → Type 0) where
  -- What the second half of a step ensures when it succeeds, the whole step ensures.
  pub ensures :
      (r : Result A) (f : A → Io World B) (n : Node World)
      → ((a : A) → r ≡ ok a → (b : B) → (f a n).0 ≡ ok b → P b (f a n).1)
      → (b : B) → (and_then r f n).0 ≡ ok b
      → P b (and_then r f n).1
  ensures (err e) f n step b h = cc
  ensures (ok a) f n step b h = step a refl b h

module _ {World Body : Type 0} (http : Http World Body) where
  -- The session of a client is one that a node has given.
  abbrev pub HasSid : Node World → Type 0
  HasSid n = n.client.session.sid ≢ ""

  keep_session-HasSid :
      (auth : AuthResponse) (n : Node World) (u : Unit {0})
      → (keep_session http auth n).0 ≡ ok u
      → HasSid (keep_session http auth n).1
  unfolding keep_session
  keep_session-HasSid auth n u h = ground (arith, eq_iff auth.sid "")

  login_answer-HasSid :
      (resp : Response Body) (n : Node World) (u : Unit {0})
      → (login_answer http resp n).0 ≡ ok u
      → HasSid (login_answer http resp n).1
  unfolding login_answer
  login_answer-HasSid resp n u h = elim (Bool-cases (nat_beq resp.status_code 200)) [
    | inl e ↦
        rw (e, login_answer)
          (ensures (λ _. HasSid) _ (keep_session http) n (λ auth _. keep_session-HasSid auth n) u
            (rw (e, login_answer) at h))
    | inr e ↦ absurd (err-ne-ok (rw (e, login_answer) at h))
  ]

  login-HasSid : (n : Node World) (u : Unit {0}) → (login http n).0 ≡ ok u → HasSid (login http n).1
  unfolding login login_send
  login-HasSid n =
      ensures (λ _. HasSid) _ (login_send http) n
        (λ req _.
          ensures (λ _. HasSid) _ (login_answer http) _ (λ resp _. login_answer-HasSid resp _))

  -- A session that `ensureSession` returns is not empty, and the client keeps it.
  pub ensure_session-HasSid :
      (n : Node World) (sid : String)
      → (ensure_session http n).0 ≡ ok sid
      → (sid ≢ "") × ((ensure_session http n).1.client.session.sid ≡ sid)
  unfolding ensure_session
  ensure_session-HasSid n sid h = elim (Bool-cases (is_fresh http n)) [
    | inl e ↦
        let same : n.client.session.sid ≡ sid = ok-injective _ _ (rw (e, ensure_session) at h) in
        rw (e, ensure_session) (ground (arith, eq_iff n.client.session.sid ""), same)
    | inr e ↦
        rw (e, ensure_session)
          (ensures (λ sid m. (sid ≢ "") × (m.client.session.sid ≡ sid)) _ _ (login http n).1
            (λ u logged sid h'.
              let same : (login http n).1.client.session.sid ≡ sid = ok-injective _ _ h' in
              ((λ e. login-HasSid n u (wrap-ok "auth failed: " _ u logged) (same ∙ e)), same))
            sid (rw (e, ensure_session) at h))
  ]

  -- The response came for the request, sent with the session of a node.
  abbrev pub IsAnswer : Request → Response Body → Node World → Type 0
  IsAnswer req resp m =
      (sid : String) × (w : World) × (sid ≢ "")
      × (http.send (record req { sid = some sid }) w ≡ (ok resp, m.world))

  do_http-IsAnswer :
      (req : Request) (sid : String) (n : Node World) (resp : Response Body)
      → sid ≢ ""
      → (do_http http (record req { sid = some sid }) n).0 ≡ ok resp
      → IsAnswer req resp (do_http http (record req { sid = some sid }) n).1
  unfolding do_http
  do_http-IsAnswer req sid n resp h e =
      (sid, n.world, h, ap (λ r. (r, (http.send (record req { sid = some sid }) n.world).1)) e)

  retry-IsAnswer :
      (req : Request) (first : Response Body) (n : Node World)
      → IsAnswer req first n
      → (resp : Response Body) → (retry_if_denied http req first n).0 ≡ ok resp
      → IsAnswer req resp (retry_if_denied http req first n).1
  unfolding retry_if_denied
  retry-IsAnswer req first n sent resp h = elim (Bool-cases (is_denied http first.status_code)) [
    | inl e ↦
        rw (e, retry_if_denied)
          (ensures (IsAnswer req) (ensure_session http n).0
            (λ sid. do_http http (record req { sid = some sid })) (ensure_session http n).1
            (λ sid given b. do_http-IsAnswer req sid _ b (ensure_session-HasSid n sid given).0) resp
            (rw (e, retry_if_denied) at h))
    | inr e ↦
        rw (e, retry_if_denied)
          (subst (λ r. IsAnswer req r n) (ok-injective _ _ (rw (e, retry_if_denied) at h)) sent)
  ]

  -- A response that `doRequest` returns is what the node answered to this very request, sent with
  -- a session id that is not empty, as the last thing that the call did.
  pub do_request-IsAnswer :
      (req : Request) (n : Node World) (resp : Response Body)
      → (do_request http req n).0 ≡ ok resp
      → IsAnswer req resp (do_request http req n).1
  unfolding do_request
  do_request-IsAnswer req n = ensures (IsAnswer req) (ensure_session http n).0 _ _ (λ sid given.
      ensures (IsAnswer req) _ (retry_if_denied http req) _ (λ first sent.
        retry-IsAnswer req first _
          (do_http-IsAnswer req sid _ first (ensure_session-HasSid n sid given).0 sent)))

  ensure_session-fresh :
      (n : Node World)
      → is_fresh http n ≡ true
      → ensure_session http n ≡ (ok n.client.session.sid, n)
  unfolding ensure_session
  ensure_session-fresh n h = rw (h, ensure_session) refl

  -- A request with its session header
  abbrev pub signed : Request → String → Request
  signed req sid = record req { sid = some sid }

  retry-denied :
      (req : Request) (first : Response Body) (n : Node World)
      → is_denied http first.status_code ≡ true
      → retry_if_denied http req first n
        ≡ and_then
            (ensure_session http n).0
            (λ sid. do_http http (signed req sid))
            (ensure_session http n).1
  unfolding retry_if_denied
  retry-denied req first n h = rw (h, retry_if_denied) refl

  -- While the cached session is fresh before and after a request that the node refuses with 401 or
  -- 403, `doRequest` sends the same request with the same session id again, and does not log in.
  pub do_request_keeps_refused_session :
      (req : Request) (n : Node World) (first : Response Body)
      → is_fresh http n ≡ true
      → (do_http http (signed req n.client.session.sid) n).0 ≡ ok first
      → is_denied http first.status_code ≡ true
      → is_fresh http (do_http http (signed req n.client.session.sid) n).1 ≡ true
      → do_request http req n
        ≡ do_http http
            (signed req n.client.session.sid)
            (do_http http (signed req n.client.session.sid) n).1
  unfolding do_request do_http
  do_request_keeps_refused_session req n first fresh sent denied still =
      let sid = n.client.session.sid in
      let m = (do_http http (signed req sid) n).1 in
      let resend =
        λ (r : Result String × Node World). and_then r.0 (λ s. do_http http (signed req s)) r.1 in
      ap
        (λ (r : Result String × Node World).
          and_then r.0
            (λ s k.
              and_then (do_http http (signed req s) k).0 (retry_if_denied http req)
                (do_http http (signed req s) k).1)
            r.1)
        (ensure_session-fresh n fresh)
      ∙ ap (λ r. and_then r (retry_if_denied http req) m) sent
      ∙ retry-denied req first m denied
      ∙ ap resend (ensure_session-fresh m still)

  -- After Logout the client keeps no session, whether or not the node could be asked.
  logout_forgets_session : (n : Node World) → (logout http n).1.client.session ≡ no_session
  unfolding logout logout_answer do_http new_request
  logout_forgets_session n = ground arith
