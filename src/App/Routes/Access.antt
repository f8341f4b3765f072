-- ===== src/App/Routes/Access.antt =====
-- Which endpoints a request reaches.
use pihole_cluster_admin.Prelude.{
  ℕ, ℤ, ◌≡◌, refl, subst, ◌⊎◌, inl, inr, String, Bool, true, false, ◌||◌, Option, none, some, List,
  [], ◌∷◌, ◌==◌, string_eq, if◌then◌else◌,
}
use pihole_cluster_admin.Sessions.{Storage, Gate, refused, passed, auth_middleware}
use pihole_cluster_admin.Sessions.Laws.{StorageLaws, user_at, auth_middleware-user_at}
use pihole_cluster_admin.App.Routes.{
  Endpoint, login, logout, healthcheck, get_is_initialized, create_user, front_end, Route,
  api_routes, Request, answered, reached, Router, pass_gate, handle, by_path, serve,
}
use pihole_cluster_admin.App.Routes.Registered.{RouterLaws, every, every-Listed}

-- The endpoints that need no session
abbrev pub is_public : Endpoint → Bool
is_public login = true
is_public logout = true
is_public healthcheck = true
is_public get_is_initialized = true
is_public create_user = true
is_public front_end = true
is_public _ = false

-- A route without AuthMiddleware leads to a public endpoint.
abbrev is_guarded : Route → Bool
is_guarded r = r.is_private || is_public r.endpoint

api_routes-guarded : every is_guarded api_routes ≡ true
unfolding api_routes
api_routes-guarded = refl

module _ {S : Type 0} (storage : Storage S) (laws : StorageLaws storage) (router : Router)
    (router_laws : RouterLaws router) (screen : Request → Option ℕ) where
  -- A public endpoint without a user, or any endpoint with the user of a live session of the request
  abbrev pub IsAdmitted : ℕ → Request → S → Endpoint → Option ℤ → Type 0
  IsAdmitted now req st e u =
      ((is_public e ≡ true) × (u ≡ none))
      ⊎ ((user : ℤ) × (id : String) × (u ≡ some user)
          × (req.session_cookie ≡ some id)
          × (user_at storage laws now st id ≡ some user))

  cookie_admits :
      (now : ℕ) (req : Request) (st : S) (e : Endpoint) (user : ℤ) (c : Option String)
      → req.session_cookie ≡ c
      → auth_middleware storage now c st ≡ passed user
      → IsAdmitted now req st e (some user)
  unfolding auth_middleware
  cookie_admits now req st e user none given gate = cc
  cookie_admits now req st e user (some id) given gate =
      inr (user, id, refl, given, (auth_middleware-user_at storage laws now id st user).0 gate)

  gate_admits :
      (now : ℕ) (req : Request) (st : S) (r e : Endpoint) (u : Option ℤ) (g : Gate)
      → auth_middleware storage now req.session_cookie st ≡ g
      → pass_gate g r ≡ reached e u
      → IsAdmitted now req st e u
  gate_admits now req st r e u (refused m code) gate got = cc
  gate_admits now req st r e u (passed user) gate got =
      let user_found : some user ≡ u = cc in
      subst (IsAdmitted now req st e) user_found
        (cookie_admits now req st e user req.session_cookie refl gate)

  private_admits :
      (now : ℕ) (req : Request) (st : S) (r e : Endpoint) (u : Option ℤ) (private : Bool)
      → (private || is_public r) ≡ true
      → (if private
          then pass_gate (auth_middleware storage now req.session_cookie st) r
          else reached r none)
        ≡ reached e u
      → IsAdmitted now req st e u
  private_admits now req st r e u true guarded got =
      gate_admits now req st r e u (auth_middleware storage now req.session_cookie st) refl got
  private_admits now req st r e u false guarded got =
      let same : r ≡ e = cc in inl (subst (λ x. is_public x ≡ true) same guarded, cc)

  handle_admits :
      (now : ℕ) (req : Request) (st : S) (o : Option Route) (e : Endpoint) (u : Option ℤ)
      → ((r : Route) → o ≡ some r → is_guarded r ≡ true)
      → handle storage router screen now req st o ≡ reached e u
      → IsAdmitted now req st e u
  unfolding handle
  handle_admits now req st none e u guarded got = cc
  handle_admits now req st (some r) e u guarded got =
      private_admits now req st r.endpoint e u r.is_private (guarded r refl) got

  front_end_admits :
      (now : ℕ) (req : Request) (st : S) (e : Endpoint) (u : Option ℤ)
      → reached front_end none ≡ reached e u
      → IsAdmitted now req st e u
  front_end_admits now req st e u got =
      let same : front_end ≡ e = cc in inl (subst (λ x. is_public x ≡ true) same refl, cc)

  path_admits :
      (now : ℕ) (req : Request) (st : S) (path : List String) (e : Endpoint) (u : Option ℤ)
      → by_path storage router screen now req st path ≡ reached e u
      → IsAdmitted now req st e u
  unfolding by_path
  path_admits now req st [] e u got = front_end_admits now req st e u got
  path_admits now req st (first ∷ rest) e u got = mounted (first == "api") got
    where
      mounted :
          (b : Bool)
          → (if b
              then handle storage router screen now req st (router.find req.method rest api_routes)
              else reached front_end none)
            ≡ reached e u
          → IsAdmitted now req st e u
      mounted true got_api =
          handle_admits now req st (router.find req.method rest api_routes) e u
            (λ r found.
              every-Listed is_guarded api_routes r api_routes-guarded
                (router_laws.found req.method rest api_routes r found).0)
            got_api
      mounted false got_page = front_end_admits now req st e u got_page

  -- If the storage is lawful and chi finds only registered routes, a request reaches a handler
  -- either without a user, and then it is the handler of the login, the logout, the health check,
  -- the two public requests of the setup or the frontend; or with the user of the stored session
  -- that its cookie names and that has not expired.
  pub serve-IsAdmitted :
      (now : ℕ) (req : Request) (st : S) (e : Endpoint) (u : Option ℤ)
      → serve storage router screen now req st ≡ reached e u
      → IsAdmitted now req st e u
  unfolding serve
  serve-IsAdmitted now req st e u got = screened (screen req) got
    where
      screened :
          (o : Option ℕ)
          → (elim o [
            | some code ↦ answered code
            | none ↦ by_path storage router screen now req st req.path
          ])
            ≡ reached e u
          → IsAdmitted now req st e u
      screened none got_path = path_admits now req st req.path e u got_path
      screened (some code) got_code = cc
