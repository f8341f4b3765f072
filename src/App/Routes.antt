-- ===== src/App/Routes.antt =====
-- The routes that `New` of backend/internal/app/app.go registers, with the Register methods of the
-- handlers, and what a request passes on its way to its handler.
--
-- chi, which finds the route of a request, is the parameter `Router`; its other middlewares are
-- `screen`, which may answer a request first.
pub mod Registered
pub mod Access
pub mod Apart
mod Tests
use pihole_cluster_admin.Prelude.{
  ℕ, ℤ, String, Bool, true, false, ◌&&◌, Option, none, some, List, [], ◌∷◌, ◌++◌, map, ◌==◌,
  string_eq, if◌then◌else◌,
}
use pihole_cluster_admin.Sessions.{Storage, Gate, refused, passed, auth_middleware}

pub data Method : Type 0 where
  get post patch delete : Method

-- A part of a pattern between two `/`
pub data Segment : Type 0 where
  literal param : String → Segment

-- The methods of the handlers
pub data Endpoint : Type 0 where
  login logout get_session_user healthcheck get_summary get_node_health : Endpoint
  get_all_rules get_by_type get_by_kind get_by_domain get_by_type_kind : Endpoint
  get_by_type_kind_domain add_domain_rule remove_domain_rule handle_events : Endpoint
  get_all_nodes add_node update_node remove_node : Endpoint
  test_instance_connection test_existing_connection get_query_logs : Endpoint
  patch_user update_password get_is_initialized create_user : Endpoint
  get_initialization_status update_pihole_initialization_status front_end : Endpoint

-- `is_private` tells that `AuthMiddleware` stands in front of the handler.
pub record Route : Type 0 where
  pub method : Method
  pub pattern : List Segment
  pub endpoint : Endpoint
  pub is_private : Bool

abbrev pub on : Method → List Segment → Endpoint → Route
on m pattern e = record { method = m; pattern = pattern; endpoint = e; is_private = false }

-- r.Route(prefix, ...)
unfoldable pub route : List Segment → List Route → List Route
route prefix = map {A = Route} (λ r. record r { pattern = prefix ++ r.pattern })

-- r.Use(sessionManager.AuthMiddleware)
unfoldable pub use_auth : List Route → List Route
use_auth = map {A = Route} (λ r. record r { is_private = true })

-- Register, RegisterPublic and RegisterPrivate of the handlers
abbrev pub healthcheck_routes : List Route
healthcheck_routes = on get [] healthcheck ∷ []

abbrev pub auth_public_routes : List Route
auth_public_routes =
    on post (literal "login" ∷ []) login ∷ on post (literal "logout" ∷ []) logout ∷ []

abbrev pub auth_private_routes : List Route
auth_private_routes = on get (literal "session" ∷ literal "user" ∷ []) get_session_user ∷ []

abbrev pub health_routes : List Route
health_routes =
    on get (literal "summary" ∷ []) get_summary ∷ on get (literal "node" ∷ []) get_node_health ∷ []

abbrev pub type_kind : List Segment
type_kind = literal "type" ∷ param "type" ∷ literal "kind" ∷ param "kind" ∷ []

abbrev pub type_kind_domain : List Segment
type_kind_domain = type_kind ++ (literal "domain" ∷ param "domain" ∷ [])

abbrev pub domain_rule_routes : List Route
domain_rule_routes =
    on get [] get_all_rules
    ∷ on get (literal "type" ∷ param "type" ∷ []) get_by_type
    ∷ on get (literal "kind" ∷ param "kind" ∷ []) get_by_kind
    ∷ on get (literal "domain" ∷ param "domain" ∷ []) get_by_domain
    ∷ on get type_kind get_by_type_kind
    ∷ on get type_kind_domain get_by_type_kind_domain
    ∷ on post type_kind add_domain_rule
    ∷ on delete type_kind_domain remove_domain_rule
    ∷ []

abbrev pub events_routes : List Route
events_routes = on get [] handle_events ∷ []

abbrev pub pihole_routes : List Route
pihole_routes =
    on get [] get_all_nodes
    ∷ on post [] add_node
    ∷ on patch (param "id" ∷ []) update_node
    ∷ on delete (param "id" ∷ []) remove_node
    ∷ on post (literal "test" ∷ []) test_instance_connection
    ∷ on post (param "id" ∷ literal "test" ∷ []) test_existing_connection
    ∷ []

abbrev pub query_log_routes : List Route
query_log_routes = on get [] get_query_logs ∷ []

abbrev pub user_routes : List Route
user_routes =
    on patch (param "id" ∷ []) patch_user
    ∷ on post (param "id" ∷ literal "password" ∷ []) update_password
    ∷ []

abbrev pub setup_public_routes : List Route
setup_public_routes =
    on get (literal "initialized" ∷ []) get_is_initialized
    ∷ on post (literal "user" ∷ []) create_user
    ∷ []

abbrev pub setup_private_routes : List Route
setup_private_routes =
    on get (literal "status" ∷ []) get_initialization_status
    ∷ on patch (literal "status" ∷ literal "pihole" ∷ []) update_pihole_initialization_status
    ∷ []

-- The groups of `New`
unfoldable pub public_group : List Route
unfolding route
public_group = auth_public_routes ++ route (literal "healthcheck" ∷ []) healthcheck_routes

unfoldable pub private_group : List Route
unfolding route use_auth
private_group = use_auth (
    auth_private_routes
    ++ (route (literal "cluster" ∷ literal "health" ∷ []) health_routes
        ++ (route (literal "domain" ∷ []) domain_rule_routes
            ++ (route (literal "events" ∷ []) events_routes
                ++ (route (literal "pihole" ∷ []) pihole_routes
                    ++ (route (literal "querylog" ∷ []) query_log_routes
                        ++ route (literal "user" ∷ []) user_routes))))))

unfoldable pub setup_group : List Route
unfolding route use_auth
setup_group = route (literal "setup" ∷ []) (setup_public_routes ++ use_auth setup_private_routes)

-- `apiRouter`
unfoldable pub api_routes : List Route
unfolding public_group private_group setup_group
api_routes = public_group ++ (private_group ++ setup_group)

-- The parts of the path between the slashes, without a slash at the end, which RedirectSlashes
-- takes away.
pub record Request : Type 0 where
  pub method : Method
  pub path : List String
  pub session_cookie : Option String

-- What becomes of a request: no route, the answer of another middleware, that of AuthMiddleware,
-- or a handler, with the user that AuthMiddleware has put into the context.
pub data Outcome : Type 0 where
  unrouted : Outcome
  answered : ℕ → Outcome
  unauthorized : String → ℕ → Outcome
  reached : Endpoint → Option ℤ → Outcome

-- How chi finds a route.
pub record Router : Type 0 where
  pub find : Method → List String → List Route → Option Route

abbrev pub pass_gate : Gate → Endpoint → Outcome
pass_gate (refused message code) e = unauthorized message code
pass_gate (passed user) e = reached e (some user)

module _ {S : Type 0} (storage : Storage S) (router : Router) (screen : Request → Option ℕ) where
  unfoldable pub handle : ℕ → Request → S → Option Route → Outcome
  unfolding auth_middleware
  handle now req st none = unrouted
  handle now req st (some r) =
      if r.is_private
      then pass_gate (auth_middleware storage now req.session_cookie st) r.endpoint
      else reached r.endpoint none

  -- `rootRouter.Mount("/api", apiRouter)`, and the frontend for all other paths
  unfoldable pub by_path : ℕ → Request → S → List String → Outcome
  unfolding handle api_routes
  by_path now req st [] = reached front_end none
  by_path now req st (first ∷ rest) =
      if first == "api"
      then handle now req st (router.find req.method rest api_routes)
      else reached front_end none

  -- The way of a request through the middlewares to a handler
  unfoldable pub serve : ℕ → Request → S → Outcome
  unfolding by_path
  serve now req st = elim (screen req) [
    | some code ↦ answered code
    | none ↦ by_path now req st req.path
  ]
