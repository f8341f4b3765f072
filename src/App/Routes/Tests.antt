-- ===== src/App/Routes/Tests.antt =====
-- Requests with and without a session, over a router that takes the first match.
use pihole_cluster_admin.Prelude.{
  pos, ◌≡◌, refl, inl, inr, subst, String, Bool, true, false, ◌&&◌, Option, none, some, List, [],
  ◌∷◌, string_eq, if◌then◌else◌, Bool-cases, arith, Map, lookup,
}
use pihole_cluster_admin.Sessions.{Session}
use pihole_cluster_admin.Sessions.Memory.{memory_session_store}
use pihole_cluster_admin.Sessions.Memory.Laws.{memory_session_store-laws}
use pihole_cluster_admin.App.Routes.{
  Method, get, post, patch, delete, literal, param, get_all_nodes, update_node, Route, api_routes,
  Request, reached, unauthorized, Router, serve,
}
use pihole_cluster_admin.App.Routes.Registered.{
  Listed, matches, RouterLaws, same_method, same_method_refl,
}
use pihole_cluster_admin.App.Routes.Access.{IsAdmitted, serve-IsAdmitted}
use pihole_cluster_admin.App.Routes.Apart.{find-api_routes}

abbrev fits : Method → List String → Route → Bool
fits m path r = same_method r.method m && matches r.pattern path

abbrev first_match : Method → List String → List Route → Option Route
first_match m path [] = none
first_match m path (r ∷ rs) =
    let rest = first_match m path rs in if fits m path r then some r else rest

same_method-eq : (m n : Method) → same_method m n ≡ true → m ≡ n
same_method-eq get get h = refl
same_method-eq post post h = refl
same_method-eq patch patch h = refl
same_method-eq delete delete h = refl
same_method-eq _ _ h = cc

first_match_found :
    (m : Method) (path : List String) (rs : List Route) (r : Route)
    → first_match m path rs ≡ some r
    → Listed r rs × ((r.method ≡ m) × (matches r.pattern path ≡ true))
first_match_found m path [] r h = cc
first_match_found m path (s ∷ rs) r h =
    here_or_later (first_match_found m path rs r) (fits m path s) refl h
  where
    here_or_later :
        (first_match m path rs ≡ some r
          → Listed r rs × ((r.method ≡ m) × (matches r.pattern path ≡ true)))
        → (b : Bool) → fits m path s ≡ b
        → (if b then some s else first_match m path rs) ≡ some r
        → Listed r (s ∷ rs) × ((r.method ≡ m) × (matches r.pattern path ≡ true))
    here_or_later rest true fit got =
        let same : s ≡ r = cc in
        subst (λ x. Listed x (s ∷ rs) × ((x.method ≡ m) × (matches x.pattern path ≡ true))) same
          (
            inl refl,
            (
              same_method-eq s.method m (ground (arith, Bool-cases (same_method s.method m))),
              ground (arith, Bool-cases (same_method s.method m)),
            ),
          )
    here_or_later rest false fit got = let (listed, fitting) = rest got in (inr listed, fitting)

first_match_complete :
    (path : List String) (rs : List Route) (r : Route)
    → Listed r rs
    → matches r.pattern path ≡ true
    → (s : Route) × (first_match r.method path rs ≡ some s)
first_match_complete path [] r listed matched = absurd listed
first_match_complete path (s ∷ rs) r (inl e) matched =
    let fit : fits r.method path s ≡ true =
      subst (λ x. fits r.method path x ≡ true) e (rw (same_method_refl r.method) matched) in
    (s, rw fit refl)
first_match_complete path (s ∷ rs) r (inr later) matched =
    here_or_later (fits r.method path s) (first_match_complete path rs r later matched)
  where
    here_or_later :
        (b : Bool)
        → (t : Route) × (first_match r.method path rs ≡ some t)
        → (t : Route) × ((if b then some s else first_match r.method path rs) ≡ some t)
    here_or_later true rest = (s, refl)
    here_or_later false rest = rest

abbrev first_router : Router
first_router = record { find = first_match }

first_router-laws : RouterLaws first_router
first_router-laws = record { found = first_match_found; complete = first_match_complete }

abbrev one_session : Map String Session
one_session = ("aa", record { id = "aa"; user_id = pos 7; expires_at = 10 }) ∷ []

abbrev read_nodes : Request
read_nodes = record { method = get; path = "api" ∷ "pihole" ∷ []; session_cookie = some "aa" }

nodes_reached :
    serve memory_session_store first_router (λ req. none) 5 read_nodes one_session
    ≡ reached get_all_nodes (some (pos 7))
unfolding serve api_routes memory_session_store lookup
nodes_reached = refl

nodes_too_late :
    serve memory_session_store first_router (λ req. none) 11 read_nodes one_session
    ≡ unauthorized "Unauthorized" 401
unfolding serve api_routes memory_session_store lookup
nodes_too_late = refl

serve-IsAdmitted_example :
    IsAdmitted memory_session_store memory_session_store-laws first_router first_router-laws
      (λ req. none)
      5
      read_nodes
      one_session
      get_all_nodes
      (some (pos 7))
unfolding serve api_routes memory_session_store lookup
serve-IsAdmitted_example =
    serve-IsAdmitted memory_session_store memory_session_store-laws first_router first_router-laws
      (λ req. none) 5 read_nodes one_session get_all_nodes (some (pos 7)) refl

abbrev update_route : Route
update_route = record {
  method = patch;
  pattern = literal "pihole" ∷ param "id" ∷ [];
  endpoint = update_node;
  is_private = true;
}

update_route-Listed : Listed update_route api_routes
unfolding api_routes
update_route-Listed = inr (
    inr (
      inr (
        inr (
          inr (inr (inr (inr (inr (inr (inr (inr (inr (inr (inr (inr (inr (inl refl)))))))))))))))))

find-api_routes_example :
    first_router.find patch ("pihole" ∷ "3" ∷ []) api_routes ≡ some update_route
find-api_routes_example =
    find-api_routes first_router update_route ("pihole" ∷ "3" ∷ []) first_router-laws
      update_route-Listed refl
